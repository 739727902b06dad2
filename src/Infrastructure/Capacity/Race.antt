-- ===== src/Infrastructure/Capacity/Race.antt =====
-- The read of the reservation takes no lock (GetResourceReservationByID), so two transactions can
-- read a row while it is still reserved, and each of them goes on to its writes. The update of the
-- node waits for the first transaction to end and then applies to what that one left.
use vps_billing_gemini.Prelude.{ℕ, ◌≡◌, refl, subst, List, Bool, false, some, inr}
use vps_billing_gemini.Prelude.Int.{ℤ, pos, ◌+ℤ◌, ◌-ℤ◌, ◌<ℤ◌, int_laws, parts_of_eq}
use vps_billing_gemini.Prelude.Table.{
  find_by-update_by_self, update_by, IsKeyed, total_of, total_of-update_by,
}
use vps_billing_gemini.Infrastructure.Model.{Node, Reservation, reserved, released}
use vps_billing_gemini.Infrastructure.Store.{
  Tables, find_node, find_reservation, set_reservation_status, update_node_reservation_delta,
  update_resource_reservation_status,
}
use vps_billing_gemini.Prelude.{transact}
use vps_billing_gemini.Infrastructure.Reserve.{release_write}
use vps_billing_gemini.Infrastructure.Capacity.Invariant.{
  Resource, reserved_on, amount, held, IsSound,
}
use vps_billing_gemini.Infrastructure.Capacity.Resolving.{resolved, resolved-IsSound, held_after}
use vps_billing_gemini.Infrastructure.Capacity.Endings.{shrunk, released-Resolves}

abbrev no_failure : ℕ → Bool
no_failure _ = false

-- Two releases that have both read `row`, and then write in turn.
unfoldable pub release_twice : Reservation → Tables → Tables
unfolding release_write
release_twice row db =
    (transact (transact db (release_write no_failure row db)).1
      (release_write no_failure row (transact db (release_write no_failure row db)).1)).1

abbrev once : Reservation → Tables → Tables
once row db = resolved released row (shrunk row) db

release_twice_lem :
    (row : Reservation) (db : Tables)
    → row.status ≡ reserved
    → release_twice row db ≡ once row (once row db)
unfolding release_twice update_node_reservation_delta update_resource_reservation_status
release_twice_lem row db still = rw still

cancel : (a b x : ℤ) → a +ℤ x ≡ b +ℤ x → a ≡ b
cancel a b x h = omega (int_laws, parts_of_eq _ _ h)

-- A second pass over a row that is released already leaves the sums alone.
sum_again :
    (t : List Reservation) (row : Reservation) (k : Resource) (i : ℕ)
    → IsKeyed Reservation.id t
    → find_reservation row.id t ≡ some (set_reservation_status released row)
    → total_of (held k i) (update_by Reservation.id row.id (set_reservation_status released) t)
      ≡ total_of (held k i) t
sum_again t row k i keyed there =
    let e =
      total_of-update_by Reservation.id (held k i) (set_reservation_status released) row.id t
        (set_reservation_status released row) keyed there in
    let zero_held = held_after released k i row (inr refl) in
    cancel _ _ _ (
      subst
        (λ x.
          total_of (held k i) (update_by Reservation.id row.id (set_reservation_status released) t)
            +ℤ x
          ≡ total_of (held k i) t +ℤ x)
        zero_held e)

module _ (base : Resource → ℕ → ℤ) (db : Tables) (row : Reservation) (n : Node) (k : Resource)
    (sound : IsSound base db) (there : find_reservation row.id db.reservations ≡ some row)
    (still : row.status ≡ reserved) (node : find_node row.node_id db.nodes ≡ some n) where
  once-IsSound : IsSound base (once row db)
  once-IsSound =
      resolved-IsSound base db sound released row (shrunk row) there still (released-Resolves row)

  node_once : find_node row.node_id (once row db).nodes ≡ some (shrunk row n)
  node_once = find_by-update_by_self Node.id (shrunk row) (λ _. refl) row.node_id db.nodes n node

  row_once :
      find_reservation row.id (once row db).reservations
      ≡ some (set_reservation_status released row)
  row_once =
      find_by-update_by_self Reservation.id (set_reservation_status released) (λ _. refl) row.id
        db.reservations row there

  twice_wrong : IsSound base (once row (once row db)) → pos 0 <ℤ amount k row → ⊥
  twice_wrong wrong positive =
      let a1 = once-IsSound.accounts row.node_id (shrunk row n) node_once k in
      let a2 =
        wrong.accounts row.node_id (shrunk row (shrunk row n))
          (find_by-update_by_self Node.id (shrunk row) (λ _. refl) row.node_id (once row db).nodes
            (shrunk row n) node_once)
          k in
      absurd (
        omega (
          int_laws,
          parts_of_eq _ _ a1.reserved_exact,
          parts_of_eq _ _ a2.reserved_exact,
          parts_of_eq _ _ (
              sum_again (once row db).reservations row k n.id once-IsSound.reservations_keyed
                row_once),
          parts_of_eq _ _ ((released-Resolves row).less_reserved k (shrunk row n)),
          positive,
        ))

twice_less :
    (row : Reservation) (n : Node) (k : Resource)
    → reserved_on k (shrunk row (shrunk row n)) ≡ reserved_on k n -ℤ amount k row -ℤ amount k row
twice_less row n k = omega (
  int_laws,
  parts_of_eq _ _ ((released-Resolves row).less_reserved k (shrunk row n)),
  parts_of_eq _ _ ((released-Resolves row).less_reserved k n),
)

-- Two releases of one reserved row that both read it before either writes subtract its amount twice
-- from what the node has reserved, and from then on the counters are not exact, for any resource of which
-- the row holds some.
pub release_twice-unsound :
    (base : Resource → ℕ → ℤ) (db : Tables) (row : Reservation) (n : Node) (k : Resource)
    → IsSound base db
    → find_reservation row.id db.reservations ≡ some row
    → row.status ≡ reserved
    → find_node row.node_id db.nodes ≡ some n
    → pos 0 <ℤ amount k row
    → ((n' : Node) × (find_node row.node_id (release_twice row db).nodes ≡ some n')
        × (reserved_on k n' ≡ reserved_on k n -ℤ amount k row -ℤ amount k row))
      × ¬ IsSound base (release_twice row db)
release_twice-unsound base db row n k sound there still node positive = (
  (
    shrunk row (shrunk row n),
    rw (release_twice_lem row db still) (
        find_by-update_by_self Node.id (shrunk row) (λ _. refl) row.node_id (once row db).nodes
          (shrunk row n) (node_once base db row n k sound there still node)),
    twice_less row n k,
  ),
  λ wrong.
      twice_wrong base db row n k sound there still node
        (subst (IsSound base) (release_twice_lem row db still) wrong) positive,
)
