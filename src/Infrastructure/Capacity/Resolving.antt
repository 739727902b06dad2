-- ===== src/Infrastructure/Capacity/Resolving.antt =====
-- A reservation that leaves the status reserved takes its share of the counters with it.
use vps_billing_gemini.Prelude.{
  ℕ, ◌≡◌, ◌≢◌, refl, sym, ap, ◌∙◌, ◌⊎◌, true, false, some, arith, ◌==◌, if◌then◌else◌,
}
use vps_billing_gemini.Prelude.Int.{ℤ, pos, ◌+ℤ◌, ◌-ℤ◌, ◌≤ℤ◌, int_laws, parts_of_eq}
use vps_billing_gemini.Prelude.Table.{
  each-update_by, update_by, update_by-IsKeyed, total_of, total_of-update_by, All-update_by,
  All-find_by, key-find_by,
}
use vps_billing_gemini.Infrastructure.Model.{
  Node, Reservation, ReservationStatus, reserved, committed, released,
}
use vps_billing_gemini.Infrastructure.Store.{
  Tables, set_reservation_status, find_node, find_reservation,
}
use vps_billing_gemini.Infrastructure.Capacity.Shift.{Accounts-shift, Accounts-still, AccountsOf}
use vps_billing_gemini.Infrastructure.Capacity.Invariant.{
  Resource, cpu, memory, disk, capacity, allocated_on, reserved_on, amount, held, used, IsNonneg,
  Accounts, IsSound,
}

IsNonneg-set_reservation_status :
    (status : ReservationStatus) (r : Reservation)
    → IsNonneg r
    → IsNonneg (set_reservation_status status r)
IsNonneg-set_reservation_status status r h cpu = h cpu
IsNonneg-set_reservation_status status r h memory = h memory
IsNonneg-set_reservation_status status r h disk = h disk

-- How much of the amount goes over to the allocated counters.
abbrev pub gain : ReservationStatus → Resource → Reservation → ℤ
gain committed k row = amount k row
gain _ k row = pos 0

held_before :
    (k : Resource) (i : ℕ) (row : Reservation)
    → row.status ≡ reserved
    → held k i row ≡ (if row.node_id == i then amount k row else pos 0)
held_before k i row h = ground arith

used_before :
    (k : Resource) (i : ℕ) (row : Reservation) → row.status ≡ reserved → used k i row ≡ pos 0
used_before k i row h = ground arith

-- The two statuses that end a reservation.
abbrev pub IsFinal : ReservationStatus → Type 0
IsFinal s = (s ≡ committed) ⊎ (s ≡ released)

pub held_after :
    (st : ReservationStatus) (k : Resource) (i : ℕ) (row : Reservation)
    → IsFinal st
    → held k i (set_reservation_status st row) ≡ pos 0
held_after st k i row h = ground arith

used_after :
    (st : ReservationStatus) (k : Resource) (i : ℕ) (row : Reservation)
    → IsFinal st
    → used k i (set_reservation_status st row) ≡ (if row.node_id == i then gain st k row else pos 0)
used_after st cpu i row h = ground arith
used_after st memory i row h = ground arith
used_after st disk i row h = ground arith

-- A sum whose one row goes from a to b.
moved_sum : (after before a b : ℤ) → after +ℤ a ≡ before +ℤ b → after ≡ before +ℤ (b -ℤ a)
moved_sum after before a b h = omega (int_laws, parts_of_eq _ _ h)

minus_zero : (x : ℤ) → x -ℤ pos 0 ≡ x
minus_zero x = omega int_laws

pub minus_eq : (x y : ℤ) → x -ℤ y ≡ x +ℤ (pos 0 -ℤ y)
minus_eq x y = omega int_laws

sum_same : (x : ℤ) → x +ℤ (pos 0 -ℤ pos 0) ≡ x
sum_same x = omega int_laws

-- A node change f and a final status st that belong together.
pub record Resolves (st : ReservationStatus) (row : Reservation) (f : Node → Node) : Type 0 where
  pub final : IsFinal st
  pub same_id : (n : Node) → (f n).id ≡ n.id
  pub same_size : (k : Resource) (n : Node) → capacity k (f n) ≡ capacity k n
  pub less_reserved :
      (k : Resource) (n : Node) → reserved_on k (f n) ≡ reserved_on k n +ℤ (pos 0 -ℤ amount k row)
  pub more_allocated :
      (k : Resource) (n : Node) → allocated_on k (f n) ≡ allocated_on k n +ℤ gain st k row

abbrev pub resolved : ReservationStatus → Reservation → (Node → Node) → Tables → Tables
resolved st row f db = record {
  nodes = update_by Node.id row.node_id f db.nodes;
  reservations = update_by Reservation.id row.id (set_reservation_status st) db.reservations;
}

gain-le :
    (st : ReservationStatus) (k : Resource) (row : Reservation)
    → IsFinal st
    → pos 0 ≤ℤ amount k row
    → gain st k row ≤ℤ amount k row
gain-le st k row h nonneg = ground arith

module _ (base : Resource → ℕ → ℤ) (db : Tables) (sound : IsSound base db) (st : ReservationStatus)
    (row : Reservation) (f : Node → Node)
    (there : find_reservation row.id db.reservations ≡ some row) (open_row : row.status ≡ reserved)
    (r : Resolves st row f) where
  held_sum :
      (k : Resource) (i : ℕ)
      → total_of (held k i) (resolved st row f db).reservations
        ≡ total_of (held k i) db.reservations
          +ℤ (pos 0 -ℤ (if row.node_id == i then amount k row else pos 0))
  held_sum k i = rw (← held_before k i row open_row) (
      moved_sum _ _ _ _ (
        total_of-update_by Reservation.id (held k i) (set_reservation_status st) row.id
          db.reservations row sound.reservations_keyed there
        ∙ ap (λ x. total_of (held k i) db.reservations +ℤ x) (held_after st k i row r.final)))

  used_sum :
      (k : Resource) (i : ℕ)
      → total_of (used k i) (resolved st row f db).reservations
        ≡ total_of (used k i) db.reservations
          +ℤ ((if row.node_id == i then gain st k row else pos 0) -ℤ pos 0)
  used_sum k i = moved_sum _ _ _ _ (
      ap (λ x. total_of (used k i) (resolved st row f db).reservations +ℤ x)
        (sym (used_before k i row open_row))
      ∙ total_of-update_by Reservation.id (used k i) (set_reservation_status st) row.id
          db.reservations row sound.reservations_keyed there
      ∙ ap (λ x. total_of (used k i) db.reservations +ℤ x) (used_after st k i row r.final))

  resolved_here :
      (n : Node) (k : Resource)
      → find_node row.node_id db.nodes ≡ some n
      → Accounts base (resolved st row f db) (f n) k
  resolved_here n k here =
      let a = sound.accounts row.node_id n here k in
      let same : row.node_id ≡ n.id = sym (key-find_by Node.id row.node_id db.nodes n here) in
      let hit : (row.node_id == n.id) ≡ true = ground arith in
      Accounts-shift base db (resolved st row f db) n (f n) k (pos 0 -ℤ amount k row)
        (gain st k row) a (r.same_id n) (r.same_size k n) (r.less_reserved k n)
        (r.more_allocated k n) (held_sum k n.id ∙ rw hit)
        (used_sum k n.id
          ∙ rw hit (ap (λ x. total_of (used k n.id) db.reservations +ℤ x) (minus_zero _)))
        (omega (
          int_laws,
          a.within,
          gain-le st k row r.final
              (All-find_by IsNonneg Reservation.id row.id db.reservations row sound.nonneg there k),
        ))

  resolved_else :
      (n : Node) (k : Resource)
      → find_node n.id db.nodes ≡ some n
      → row.node_id ≢ n.id
      → Accounts base (resolved st row f db) n k
  resolved_else n k here ne =
      let miss : (row.node_id == n.id) ≡ false = ground arith in
      Accounts-still base db (resolved st row f db) n k (sound.accounts n.id n here k)
        (held_sum k n.id ∙ rw miss (sum_same _)) (used_sum k n.id ∙ rw miss (sum_same _))

  pub resolved-IsSound : IsSound base (resolved st row f db)
  resolved-IsSound = record {
    nodes_keyed = update_by-IsKeyed Node.id f r.same_id row.node_id db.nodes sound.nodes_keyed;
    reservations_keyed =
        update_by-IsKeyed Reservation.id (set_reservation_status st) (λ _. refl) row.id
          db.reservations sound.reservations_keyed;
    nonneg =
        All-update_by IsNonneg Reservation.id (set_reservation_status st)
          (IsNonneg-set_reservation_status st) row.id db.reservations sound.nonneg;
    base_nonneg = sound.base_nonneg;
    accounts =
        each-update_by (AccountsOf base (resolved st row f db)) Node.id f r.same_id row.node_id
          db.nodes (λ n here k. resolved_here n k here) (λ n here ne k. resolved_else n k here ne);
  }
