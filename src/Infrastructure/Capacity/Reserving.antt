-- ===== src/Infrastructure/Capacity/Reserving.antt =====
-- ReserveResources keeps the counters of every node exact and within its size.
use vps_billing_gemini.Prelude.{
  ℕ, ◌≡◌, ◌≢◌, refl, sym, ap, subst, ◌∙◌, Bool, true, false, inl, inr, none, some, ◌∷◌, arith, ok,
  err, Option-cases, Result-cases, transact_err, All,
}
use vps_billing_gemini.Prelude.Int.{ℤ, pos, ◌+ℤ◌, ◌≤ℤ◌, int_laws, +ℤ_comm, parts_of_eq}
use vps_billing_gemini.Prelude.Table.{
  each-update_by, IsKeyed, update_by-IsKeyed, total_of, key-find_by,
}
use vps_billing_gemini.Infrastructure.Model.{Error, Node, Reservation, reserved, is_active}
use vps_billing_gemini.Infrastructure.Store.{
  Tables, add_reserved, find_node, find_reservation, update_node_reservation_delta,
  create_resource_reservation,
}
use vps_billing_gemini.Infrastructure.Reserve.{lacks_capacity, reserve_resources}
use vps_billing_gemini.Infrastructure.Capacity.Shift.{
  Accounts-shift, Accounts-still, plus_zero, zero_plus, AccountsOf,
}
use vps_billing_gemini.Infrastructure.Capacity.Invariant.{
  Resource, cpu, memory, disk, capacity, allocated_on, reserved_on, amount, available, held, used,
  IsNonneg, Accounts, IsSound, reserved_on-nonneg, allocated_on-nonneg, available_exact,
}

-- What a successful reservation has checked and written.
pub record Reserves (res : Reservation) (db : Tables) (node : Node) (row : Reservation)
    (after : Tables) : Type 0 where
  pub found : find_node res.node_id db.nodes ≡ some node
  pub was_active : is_active node.status ≡ true
  pub fits : lacks_capacity node res ≡ false
  pub fresh : find_reservation res.id db.reservations ≡ none
  pub written : row ≡ record res { status = reserved }
  pub nodes_after :
      after.nodes
      ≡ update_node_reservation_delta res.node_id res.cpu_cores res.memory_mb res.disk_gb db.nodes
  pub reservations_after : after.reservations ≡ record res { status = reserved } ∷ db.reservations

pub reserve_inv :
    (fails : ℕ → Bool) (res : Reservation) (db : Tables) (row : Reservation)
    → (reserve_resources fails res db).0 ≡ ok row
    → (node : Node) × Reserves res db node row (reserve_resources fails res db).1
unfolding reserve_resources create_resource_reservation
reserve_inv fails res db row h = elim (Option-cases (find_node res.node_id db.nodes)) [
  | inl absent ↦ absurd (ground arith)
  | inr (node, there) ↦ (node, ground arith)
]

amount_fits :
    (k : Resource) (node : Node) (res : Reservation)
    → lacks_capacity node res ≡ false
    → amount k res ≤ℤ available k node
unfolding lacks_capacity
amount_fits cpu node res h = ground arith
amount_fits memory node res h = ground arith
amount_fits disk node res h = ground arith

abbrev grown : Reservation → Node → Node
grown res = add_reserved res.cpu_cores res.memory_mb res.disk_gb

reserved_on-grown :
    (k : Resource) (res : Reservation) (n : Node)
    → reserved_on k (grown res n) ≡ reserved_on k n +ℤ amount k res
reserved_on-grown cpu res n = refl
reserved_on-grown memory res n = refl
reserved_on-grown disk res n = refl

allocated_on-grown :
    (k : Resource) (res : Reservation) (n : Node)
    → allocated_on k (grown res n) ≡ allocated_on k n +ℤ pos 0
allocated_on-grown cpu res n = plus_zero _
allocated_on-grown memory res n = plus_zero _
allocated_on-grown disk res n = plus_zero _

capacity-grown :
    (k : Resource) (res : Reservation) (n : Node) → capacity k (grown res n) ≡ capacity k n
capacity-grown cpu res n = refl
capacity-grown memory res n = refl
capacity-grown disk res n = refl

-- The row that a reservation inserts.
abbrev new_row : Reservation → Reservation
new_row res = record res { status = reserved }

IsNonneg-new_row : (res : Reservation) → IsNonneg res → IsNonneg (new_row res)
IsNonneg-new_row res h cpu = h cpu
IsNonneg-new_row res h memory = h memory
IsNonneg-new_row res h disk = h disk

reserve_err :
    (fails : ℕ → Bool) (res : Reservation) (db : Tables) (e : Error)
    → (reserve_resources fails res db).0 ≡ err e
    → (reserve_resources fails res db).1 ≡ db
unfolding reserve_resources
reserve_err fails res db e h = transact_err db _ e h

held-new_row :
    (k : Resource) (id : ℕ) (res : Reservation)
    → res.node_id ≡ id
    → held k id (new_row res) ≡ amount k res
held-new_row cpu id res e = ground arith
held-new_row memory id res e = ground arith
held-new_row disk id res e = ground arith

held-new_row_ne :
    (k : Resource) (id : ℕ) (res : Reservation) → res.node_id ≢ id → held k id (new_row res) ≡ pos 0
held-new_row_ne k id res e = ground arith

used-new_row : (k : Resource) (id : ℕ) (res : Reservation) → used k id (new_row res) ≡ pos 0
used-new_row k id res = ground arith

module _ (base : Resource → ℕ → ℤ) (db : Tables) (sound : IsSound base db) (res : Reservation)
    (after : Tables) (rows : after.reservations ≡ new_row res ∷ db.reservations) where
  used_kept :
      (k : Resource) (id : ℕ)
      → total_of (used k id) after.reservations ≡ total_of (used k id) db.reservations
  used_kept k id =
      ap (total_of (used k id)) rows
      ∙ ap (λ x. x +ℤ total_of (used k id) db.reservations) (used-new_row k id res)
      ∙ zero_plus _

  grown_here :
      (n : Node) (k : Resource)
      → find_node res.node_id db.nodes ≡ some n
      → lacks_capacity n res ≡ false
      → Accounts base after (grown res n) k
  grown_here n k there fits =
      let a = sound.accounts res.node_id n there k in
      let same : n.id ≡ res.node_id = key-find_by Node.id res.node_id db.nodes n there in
      Accounts-shift base db after n (grown res n) k (amount k res) (pos 0) a refl
        (capacity-grown k res n) (reserved_on-grown k res n) (allocated_on-grown k res n)
        (ap (total_of (held k n.id)) rows
          ∙ ap (λ x. x +ℤ total_of (held k n.id) db.reservations)
              (held-new_row k n.id res (sym same))
          ∙ +ℤ_comm _ _)
        (used_kept k n.id ∙ plus_zero _)
        (omega (
          int_laws,
          amount_fits k n res fits,
          parts_of_eq _ _ (
              available_exact k n (allocated_on-nonneg base db sound n k a)
                (reserved_on-nonneg base db sound n k a) a.within a.sized),
        ))

  grown_else :
      (n : Node) (k : Resource)
      → find_node n.id db.nodes ≡ some n
      → res.node_id ≢ n.id
      → Accounts base after n k
  grown_else n k there ne =
      Accounts-still base db after n k (sound.accounts n.id n there k)
        (ap (total_of (held k n.id)) rows
          ∙ ap (λ x. x +ℤ total_of (held k n.id) db.reservations) (held-new_row_ne k n.id res ne)
          ∙ zero_plus _)
        (used_kept k n.id)

pub Reserves-IsSound :
    (base : Resource → ℕ → ℤ) (res : Reservation) (db : Tables) (node : Node) (row : Reservation)
    (after : Tables)
    → Reserves res db node row after
    → IsNonneg res
    → IsSound base db
    → IsSound base after
unfolding update_node_reservation_delta
Reserves-IsSound base res db node row after r nonneg sound = record {
  nodes_keyed =
      subst (IsKeyed Node.id) (sym r.nodes_after)
        (update_by-IsKeyed Node.id (grown res) (λ _. refl) res.node_id db.nodes sound.nodes_keyed);
  reservations_keyed =
      subst (IsKeyed Reservation.id) (sym r.reservations_after) (r.fresh, sound.reservations_keyed);
  nonneg =
      subst (All IsNonneg) (sym r.reservations_after) (IsNonneg-new_row res nonneg, sound.nonneg);
  base_nonneg = sound.base_nonneg;
  accounts = λ id n there.
      each-update_by (AccountsOf base after) Node.id (grown res) (λ _. refl) res.node_id db.nodes
        (λ n here k.
          grown_here base db sound res after r.reservations_after n k here
            (ground (arith, r.found, r.fits)))
        (λ n here ne k. grown_else base db sound res after r.reservations_after n k here ne) id n
        (ap (find_node id) (sym r.nodes_after) ∙ there);
}

-- A reservation of amounts that are not negative, whether it succeeds or fails, keeps the invariant.
pub reserve_resources-IsSound :
    (base : Resource → ℕ → ℤ) (fails : ℕ → Bool) (res : Reservation) (db : Tables)
    → IsNonneg res
    → IsSound base db
    → IsSound base (reserve_resources fails res db).1
reserve_resources-IsSound base fails res db nonneg sound =
    elim (Result-cases (reserve_resources fails res db).0) [
      | inl (row, done) ↦
          let (node, r) = reserve_inv fails res db row done in
          Reserves-IsSound base res db node row (reserve_resources fails res db).1 r nonneg sound
      | inr (e, failed) ↦ subst (IsSound base) (sym (reserve_err fails res db e failed)) sound
    ]
