-- ===== src/Infrastructure/Capacity/Endings.antt =====
-- CommitReservation and ReleaseReservation keep the counters of every node exact.
use vps_billing_gemini.Prelude.{
  ℕ, ◌≡◌, refl, sym, subst, ◌⊎◌, Bool, inl, inr, some, arith, ◌&&◌, is_ok, Bool-cases, Option-cases,
}
use vps_billing_gemini.Prelude.Int.{ℤ, pos, ◌+ℤ◌, ◌-ℤ◌}
use vps_billing_gemini.Prelude.Table.{find_by_own}
use vps_billing_gemini.Infrastructure.Model.{
  Node, Reservation, reserved, committed, released, is_reserved,
}
use vps_billing_gemini.Infrastructure.Store.{
  Tables, add_reserved, move_reserved, find_reservation, update_node_reservation_delta,
  commit_node_reservation, update_resource_reservation_status,
}
use vps_billing_gemini.Infrastructure.Reserve.{commit_reservation, release_reservation}
use vps_billing_gemini.Infrastructure.Capacity.Resolving.{
  Resolves, resolved, resolved-IsSound, minus_eq,
}
use vps_billing_gemini.Infrastructure.Capacity.Shift.{plus_zero}
use vps_billing_gemini.Infrastructure.Capacity.Invariant.{
  Resource, cpu, memory, disk, capacity, allocated_on, reserved_on, amount, IsSound,
}

-- What CommitReservation and ReleaseReservation do to the node of a row.
abbrev pub moved : Reservation → Node → Node
moved row = move_reserved row.cpu_cores row.memory_mb row.disk_gb

abbrev pub shrunk : Reservation → Node → Node
shrunk row = add_reserved (pos 0 -ℤ row.cpu_cores) (pos 0 -ℤ row.memory_mb) (pos 0 -ℤ row.disk_gb)

less :
    (k : Resource) (row : Reservation) (n : Node)
    → reserved_on k (moved row n) ≡ reserved_on k n +ℤ (pos 0 -ℤ amount k row)
less cpu row n = minus_eq _ _
less memory row n = minus_eq _ _
less disk row n = minus_eq _ _

more :
    (k : Resource) (row : Reservation) (n : Node)
    → allocated_on k (moved row n) ≡ allocated_on k n +ℤ amount k row
more cpu row n = refl
more memory row n = refl
more disk row n = refl

size_moved : (k : Resource) (row : Reservation) (n : Node) → capacity k (moved row n) ≡ capacity k n
size_moved cpu row n = refl
size_moved memory row n = refl
size_moved disk row n = refl

pub committed-Resolves : (row : Reservation) → Resolves committed row (moved row)
committed-Resolves row = record {
  final = inl refl;
  same_id = λ n. refl;
  same_size = λ k n. size_moved k row n;
  less_reserved = λ k n. less k row n;
  more_allocated = λ k n. more k row n;
}

less_shrunk :
    (k : Resource) (row : Reservation) (n : Node)
    → reserved_on k (shrunk row n) ≡ reserved_on k n +ℤ (pos 0 -ℤ amount k row)
less_shrunk cpu row n = refl
less_shrunk memory row n = refl
less_shrunk disk row n = refl

same_shrunk :
    (k : Resource) (row : Reservation) (n : Node)
    → allocated_on k (shrunk row n) ≡ allocated_on k n +ℤ pos 0
same_shrunk cpu row n = plus_zero _
same_shrunk memory row n = plus_zero _
same_shrunk disk row n = plus_zero _

size_shrunk :
    (k : Resource) (row : Reservation) (n : Node) → capacity k (shrunk row n) ≡ capacity k n
size_shrunk cpu row n = refl
size_shrunk memory row n = refl
size_shrunk disk row n = refl

pub released-Resolves : (row : Reservation) → Resolves released row (shrunk row)
released-Resolves row = record {
  final = inr refl;
  same_id = λ n. refl;
  same_size = λ k n. size_shrunk k row n;
  less_reserved = λ k n. less_shrunk k row n;
  more_allocated = λ k n. same_shrunk k row n;
}

commit_row :
    (fails : ℕ → Bool) (id : ℕ) (db : Tables) (row : Reservation)
    → find_reservation id db.reservations ≡ some row
    → ((commit_reservation fails id db).1 ≡ db)
      ⊎ ((row : Reservation) × (find_reservation id db.reservations ≡ some row)
          × (row.status ≡ reserved)
          × ((commit_reservation fails id db).1 ≡ resolved committed row (moved row) db))
unfolding commit_reservation commit_node_reservation update_resource_reservation_status
commit_row fails id db row there = elim (Bool-cases (is_ok (commit_reservation fails id db).0)) [
  | inl good ↦ inr (row, there, ground arith, ground arith)
  | inr bad ↦ inl (ground arith)
]

release_row :
    (fails : ℕ → Bool) (id : ℕ) (db : Tables) (row : Reservation)
    → find_reservation id db.reservations ≡ some row
    → ((release_reservation fails id db).1 ≡ db)
      ⊎ ((row : Reservation) × (find_reservation id db.reservations ≡ some row)
          × (row.status ≡ reserved)
          × ((release_reservation fails id db).1 ≡ resolved released row (shrunk row) db))
unfolding release_reservation update_node_reservation_delta update_resource_reservation_status
release_row fails id db row there =
    elim (Bool-cases (is_ok (release_reservation fails id db).0 && is_reserved row.status)) [
      | inl good ↦ inr (row, there, ground arith, ground arith)
      | inr bad ↦ inl (ground arith)
    ]

-- A commit that changes anything commits a row in status reserved.
pub commit_outcome :
    (fails : ℕ → Bool) (id : ℕ) (db : Tables)
    → ((commit_reservation fails id db).1 ≡ db)
      ⊎ ((row : Reservation) × (find_reservation id db.reservations ≡ some row)
          × (row.status ≡ reserved)
          × ((commit_reservation fails id db).1 ≡ resolved committed row (moved row) db))
unfolding commit_reservation commit_node_reservation update_resource_reservation_status
commit_outcome fails id db = elim (Option-cases (find_reservation id db.reservations)) [
  | inl absent ↦ inl (ground arith)
  | inr (row, there) ↦ commit_row fails id db row there
]

pub release_outcome :
    (fails : ℕ → Bool) (id : ℕ) (db : Tables)
    → ((release_reservation fails id db).1 ≡ db)
      ⊎ ((row : Reservation) × (find_reservation id db.reservations ≡ some row)
          × (row.status ≡ reserved)
          × ((release_reservation fails id db).1 ≡ resolved released row (shrunk row) db))
unfolding release_reservation update_node_reservation_delta update_resource_reservation_status
release_outcome fails id db = elim (Option-cases (find_reservation id db.reservations)) [
  | inl absent ↦ inl (ground arith)
  | inr (row, there) ↦ release_row fails id db row there
]

-- A commit, whether it succeeds or fails, keeps the invariant.
pub commit_reservation-IsSound :
    (base : Resource → ℕ → ℤ) (fails : ℕ → Bool) (id : ℕ) (db : Tables)
    → IsSound base db
    → IsSound base (commit_reservation fails id db).1
commit_reservation-IsSound base fails id db sound = elim (commit_outcome fails id db) [
  | inl same ↦ subst (IsSound base) (sym same) sound
  | inr (row, there, still, done) ↦ subst (IsSound base) (sym done) (
      resolved-IsSound base db sound committed row (moved row)
        (find_by_own Reservation.id id db.reservations row there) still (committed-Resolves row))
]

-- A release, whether it succeeds or fails, keeps the invariant.
pub release_reservation-IsSound :
    (base : Resource → ℕ → ℤ) (fails : ℕ → Bool) (id : ℕ) (db : Tables)
    → IsSound base db
    → IsSound base (release_reservation fails id db).1
release_reservation-IsSound base fails id db sound = elim (release_outcome fails id db) [
  | inl same ↦ subst (IsSound base) (sym same) sound
  | inr (row, there, still, done) ↦ subst (IsSound base) (sym done) (
      resolved-IsSound base db sound released row (shrunk row)
        (find_by_own Reservation.id id db.reservations row there) still (released-Resolves row))
]
