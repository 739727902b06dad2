-- ===== src/Infrastructure/Expiry.antt =====
-- ReconcileExpiredReservations of reconciler/reconciler.go: each expired reservation is released in a
-- transaction of its own, and those that fail are passed over.
use vps_billing_gemini.Prelude.{
  ◌≡◌, refl, sym, ap, subst, ◌∙◌, ◌⊎◌, inl, inr, ◌==◌, ==_iff, ==-refl, ◌||◌, ltb, filter, arith,
  Option-cases, Bool-cases, ℕ, suc, Bool, true, false, List, [], ◌∷◌, Option, none, some,
  if◌then◌else◌, is_ok,
}
use mathlib.Core.Path.{fun_ext}
use vps_billing_gemini.Prelude.Int.{ℤ}
use vps_billing_gemini.Infrastructure.Model.{
  Reservation, ReservationStatus, reserved, released, is_reserved,
}
use vps_billing_gemini.Infrastructure.Store.{
  Tables, list_expired_reservations, find_reservation, set_reservation_status,
  update_resource_reservation_status,
}
use vps_billing_gemini.Prelude.Table.{update_by, find_by-update_by, key-find_by}
use vps_billing_gemini.Infrastructure.Reserve.{release_reservation}
use vps_billing_gemini.Infrastructure.Capacity.Invariant.{Resource, IsSound}
use vps_billing_gemini.Infrastructure.Capacity.Endings.{release_reservation-IsSound}

-- `fails id k`: call k of the release of the reservation `id` fails.
unfoldable release_each : (ℕ → ℕ → Bool) → List Reservation → Tables → ℕ × Tables
unfolding release_reservation
release_each fails [] db = (0, db)
release_each fails (res ∷ expired) db =
    let out = release_reservation (fails res.id) res.id db in
    let rest = release_each fails expired out.1 in
    (if is_ok out.0 then suc rest.0 else rest.0, rest.1)

-- `none` is the error of the list.
unfoldable pub reconcile_expired_reservations :
    Bool → (ℕ → ℕ → Bool) → ℕ → Tables → Option ℕ × Tables
unfolding release_each
reconcile_expired_reservations list_fails fails now db =
    let out = release_each fails (list_expired_reservations now db.reservations) db in
    if list_fails then (none, db) else (some out.0, out.1)

release_each-IsSound :
    (base : Resource → ℕ → ℤ) (fails : ℕ → ℕ → Bool) (expired : List Reservation) (db : Tables)
    → IsSound base db
    → IsSound base (release_each fails expired db).1
unfolding release_each
release_each-IsSound base fails [] db h = h
release_each-IsSound base fails (res ∷ expired) db h =
    release_each-IsSound base fails expired (release_reservation (fails res.id) res.id db).1
      (release_reservation-IsSound base (fails res.id) res.id db h)

-- The release of the expired reservations keeps the invariant.
pub reconcile_expired_reservations-IsSound :
    (base : Resource → ℕ → ℤ) (list_fails : Bool) (fails : ℕ → ℕ → Bool) (now : ℕ) (db : Tables)
    → IsSound base db
    → IsSound base (reconcile_expired_reservations list_fails fails now db).1
unfolding reconcile_expired_reservations
reconcile_expired_reservations-IsSound base true fails now db h = h
reconcile_expired_reservations-IsSound base false fails now db h =
    release_each-IsSound base fails (list_expired_reservations now db.reservations) db h

-- The reservation of an id is there, and it is reserved or released.
abbrev pub IsPending : ℕ → Tables → Type 0
IsPending id db =
    (row : Reservation) × (find_reservation id db.reservations ≡ some row)
    × ((row.status ≡ reserved) ⊎ (row.status ≡ released))

abbrev pub IsReleased : ℕ → Tables → Type 0
IsReleased id db =
    (row : Reservation) × (find_reservation id db.reservations ≡ some row) × (row.status ≡ released)

abbrev fine : ℕ → Bool
fine k = false

release_fine :
    (id : ℕ) (db : Tables) (row : Reservation)
    → find_reservation id db.reservations ≡ some row
    → row.status ≡ reserved
    → (release_reservation fine id db).1.reservations
      ≡ update_by Reservation.id row.id (set_reservation_status released) db.reservations
unfolding release_reservation update_resource_reservation_status
release_fine id db row there still = ground arith

release_resolved :
    (id : ℕ) (db : Tables) (row : Reservation)
    → find_reservation id db.reservations ≡ some row
    → is_reserved row.status ≡ false
    → (release_reservation fine id db).1.reservations ≡ db.reservations
unfolding release_reservation
release_resolved id db row there done = ground arith

release_missing :
    (id : ℕ) (db : Tables)
    → find_reservation id db.reservations ≡ none
    → (release_reservation fine id db).1.reservations ≡ db.reservations
unfolding release_reservation
release_missing id db absent = ground arith

reserved_eq : (s : ReservationStatus) → is_reserved s ≡ true → s ≡ reserved
reserved_eq s h = ground arith

-- A row of the table after the release of `other`.
set_released :
    (id : ℕ) (other row : Reservation) (found : Option Reservation)
    → found ≡ (if id == other.id then some (set_reservation_status released row) else some row)
    → row.status ≡ released
    → (r : Reservation) × (found ≡ some r) × (r.status ≡ released)
set_released id other row found e done = elim (Bool-cases (id == other.id)) [
  | inl own ↦ (set_reservation_status released row, ground arith, refl)
  | inr away ↦ (row, ground arith, done)
]

set_pending :
    (id : ℕ) (other row : Reservation) (found : Option Reservation)
    → found ≡ (if id == other.id then some (set_reservation_status released row) else some row)
    → (row.status ≡ reserved) ⊎ (row.status ≡ released)
    → (r : Reservation) × (found ≡ some r) × ((r.status ≡ reserved) ⊎ (r.status ≡ released))
set_pending id other row found e either = elim (Bool-cases (id == other.id)) [
  | inl own ↦ (set_reservation_status released row, ground arith, inr refl)
  | inr away ↦ (row, ground arith, either)
]

-- What is found under an id after a release: the row, released if it is the release's.
found_after :
    (id j : ℕ) (db : Tables) (other row : Reservation)
    → find_reservation j db.reservations ≡ some other
    → is_reserved other.status ≡ true
    → find_reservation id db.reservations ≡ some row
    → find_reservation id (release_reservation fine j db).1.reservations
      ≡ (if id == other.id then some (set_reservation_status released row) else some row)
found_after id j db other row found still there =
    ap (find_reservation id) (release_fine j db other found (reserved_eq other.status still))
    ∙ find_by-update_by Reservation.id (set_reservation_status released) (λ r. refl) id other.id
        db.reservations
    ∙ rw there refl

-- A release of any reservation leaves the released ones released, and releases its own.
IsReleased-stays :
    (id j : ℕ) (db : Tables) → IsReleased id db → IsReleased id (release_reservation fine j db).1
IsReleased-stays id j db (row, there, done) =
    elim (Option-cases (find_reservation j db.reservations)) [
      | inl absent ↦ (row, rw (release_missing j db absent) there, done)
      | inr (other, found) ↦ elim (Bool-cases (is_reserved other.status)) [
        | inr over ↦ (row, rw (release_resolved j db other found over) there, done)
        | inl still ↦
            set_released id other row _ (found_after id j db other row found still there) done
      ]
    ]

IsPending-stays :
    (id j : ℕ) (db : Tables) → IsPending id db → IsPending id (release_reservation fine j db).1
IsPending-stays id j db (row, there, either) =
    elim (Option-cases (find_reservation j db.reservations)) [
      | inl absent ↦ (row, rw (release_missing j db absent) there, either)
      | inr (other, found) ↦ elim (Bool-cases (is_reserved other.status)) [
        | inr over ↦ (row, rw (release_resolved j db other found over) there, either)
        | inl still ↦
            set_pending id other row _ (found_after id j db other row found still there) either
      ]
    ]

pub release_own :
    (id : ℕ) (db : Tables) → IsPending id db → IsReleased id (release_reservation fine id db).1
release_own id db (row, there, inr done) = IsReleased-stays id id db (row, there, done)
release_own id db (row, there, inl still) =
    let own : row.id ≡ id = key-find_by Reservation.id id db.reservations row there in
    let yes : is_reserved row.status ≡ true = ground arith in
    (
      set_reservation_status released row,
      found_after id id db row row there yes there ∙ rw (own, ==-refl id) refl,
      refl,
    )

abbrev is_listed : ℕ → List Reservation → Bool
is_listed id [] = false
is_listed id (r ∷ rs) = r.id == id || is_listed id rs

is_listed-filter :
    (p : Reservation → Bool) (id : ℕ) (rows : List Reservation) (row : Reservation)
    → find_reservation id rows ≡ some row
    → p row ≡ true
    → is_listed id (filter p rows) ≡ true
is_listed-filter p id [] row there h = cc
is_listed-filter p id (r ∷ rs) row there h = ground (arith, is_listed-filter p id rs row)

-- A release that fails leaves the tables as they were, and one that does not is a release without failures.
release_either :
    (fails : ℕ → Bool) (id : ℕ) (db : Tables)
    → ((release_reservation fails id db).1 ≡ db)
      ⊎ ((release_reservation fails id db).1 ≡ (release_reservation fine id db).1)
unfolding release_reservation
release_either fails id db = ground arith

module _ (P : Tables → Type 0)
    (stays : (j : ℕ) (db : Tables) → P db → P (release_reservation fine j db).1) where
  stays_whatever :
      (fails : ℕ → Bool) (j : ℕ) (db : Tables) → P db → P (release_reservation fails j db).1
  stays_whatever fails j db h = elim (release_either fails j db) [
    | inl same ↦ subst P (sym same) h
    | inr done ↦ subst P (sym done) (stays j db h)
  ]

module _ (fails : ℕ → ℕ → Bool) (id : ℕ) (spared : (k : ℕ) → fails id k ≡ false) where
  each-IsReleased :
      (expired : List Reservation) (db : Tables)
      → IsReleased id db
      → IsReleased id (release_each fails expired db).1
  unfolding release_each
  each-IsReleased [] db h = h
  each-IsReleased (r ∷ expired) db h =
      each-IsReleased expired (release_reservation (fails r.id) r.id db).1
        (stays_whatever (IsReleased id) (IsReleased-stays id) (fails r.id) r.id db h)

  own_release :
      (j : ℕ) (db : Tables)
      → j ≡ id
      → IsPending id db
      → IsReleased id (release_reservation (fails j) j db).1
  own_release j db own h =
      subst (λ i. IsReleased id (release_reservation (fails i) i db).1) (sym own)
        (subst (λ f. IsReleased id (release_reservation f id db).1)
          (sym (fun_ext {f = fails id} {g = fine} spared)) (release_own id db h))

  each_releases :
      (expired : List Reservation) (db : Tables)
      → is_listed id expired ≡ true
      → IsPending id db
      → IsReleased id (release_each fails expired db).1
  unfolding release_each
  each_releases [] db listed h = cc
  each_releases (r ∷ expired) db listed h = elim (Bool-cases (r.id == id)) [
    | inl own ↦
        each-IsReleased expired (release_reservation (fails r.id) r.id db).1
          (own_release r.id db ((==_iff r.id id).0 own) h)
    | inr other ↦
        each_releases expired (release_reservation (fails r.id) r.id db).1 (ground arith)
          (stays_whatever (IsPending id) (IsPending-stays id) (fails r.id) r.id db h)
  ]

-- A run of the reconciler whose list does not fail releases every reservation that is reserved and has
-- expired before the run, if none of the calls of its own release fails: whatever becomes of the releases
-- of the others. A number that the driver does not convert counts as a failure of its statement.
pub reconcile_expired_reservations-releases :
    (fails : ℕ → ℕ → Bool) (id now : ℕ) (db : Tables) (row : Reservation)
    → ((k : ℕ) → fails id k ≡ false)
    → find_reservation id db.reservations ≡ some row
    → row.status ≡ reserved
    → ltb row.expires_at now ≡ true
    → IsReleased id (reconcile_expired_reservations false fails now db).1
unfolding reconcile_expired_reservations list_expired_reservations
reconcile_expired_reservations-releases fails id now db row spared there still late =
    each_releases fails id spared (list_expired_reservations now db.reservations) db
      (is_listed-filter _ id db.reservations row there (ground arith)) (row, there, inl still)
