-- ===== src/Infrastructure/Reserve.antt =====
-- The transactions of repository/infrastructure_repository.go. The argument `fails` says which of
-- the calls of the database returns an error of its own (a lost connection, a violated constraint):
-- call 0 is Begin, the statements follow in order, and the last call is Commit. A statement fails too
-- when the driver does not convert one of its numbers (toPgNumeric); those it converts are kept exactly.
use vps_billing_gemini.Prelude.{
  ℕ, Bool, ◌||◌, not, if◌then◌else◌, Result, ok, ◌>>=◌, ◌>>◌, fail_if, or_fail, transact,
}
use vps_billing_gemini.Prelude.Int.{pos, ◌-ℤ◌, ltb_ℤ}
use vps_billing_gemini.Infrastructure.Model.{
  Error, node_not_found, resource_exhausted, reservation_not_found, invalid_reservation_status,
  node_offline, db_error, Node, Reservation, reserved, committed, released, is_active, is_reserved,
  available_cpu, available_memory_mb, available_disk_gb,
}
use vps_billing_gemini.Infrastructure.Store.{
  Tables, find_node, find_reservation, update_node_reservation_delta, commit_node_reservation,
  create_resource_reservation, update_resource_reservation_status,
}

-- The capacity check under the lock of the node.
unfoldable pub lacks_capacity : Node → Reservation → Bool
lacks_capacity node res =
    ltb_ℤ (available_cpu node) res.cpu_cores
    || ltb_ℤ (available_memory_mb node) res.memory_mb
    || ltb_ℤ (available_disk_gb node) res.disk_gb

reserve_steps : (ℕ → Bool) → Reservation → Tables → Result Error (Reservation × Tables)
unfolding lacks_capacity
reserve_steps fails res db = do
  fail_if (fails 0 || fails 1) db_error
  node ← or_fail (find_node res.node_id db.nodes) node_not_found
  fail_if (not (is_active node.status)) node_offline
  fail_if (lacks_capacity node res) resource_exhausted
  fail_if (fails 2) db_error
  let row = record res { status = reserved }
  rows ← or_fail (create_resource_reservation row db.reservations) db_error
  fail_if (fails 3 || fails 4) db_error
  ok (
    row,
    record {
      nodes =
          update_node_reservation_delta res.node_id res.cpu_cores res.memory_mb res.disk_gb
            db.nodes;
      reservations = rows;
    },
  )

unfoldable pub reserve_resources :
    (ℕ → Bool) → Reservation → Tables → Result Error Reservation × Tables
unfolding reserve_steps
reserve_resources fails res db = transact db (reserve_steps fails res db)

-- CommitReservation after its read of the row.
unfoldable pub commit_write : (ℕ → Bool) → Reservation → Tables → Result Error (Unit {0} × Tables)
commit_write fails row db = do
  fail_if (not (is_reserved row.status)) invalid_reservation_status
  fail_if (fails 2 || fails 3 || fails 4) db_error
  ok (
    tt,
    record {
      nodes = commit_node_reservation row.node_id row.cpu_cores row.memory_mb row.disk_gb db.nodes;
      reservations = update_resource_reservation_status row.id committed db.reservations;
    },
  )

unfoldable pub read_reservation : (ℕ → Bool) → ℕ → Tables → Result Error Reservation
read_reservation fails id db = do
  fail_if (fails 0 || fails 1) db_error
  or_fail (find_reservation id db.reservations) reservation_not_found

unfoldable pub commit_reservation : (ℕ → Bool) → ℕ → Tables → Result Error (Unit {0}) × Tables
unfolding commit_write read_reservation
commit_reservation fails id db =
    transact db (do row ← read_reservation fails id db; commit_write fails row db)

-- What a release does to a row that is still reserved. Negation is exact but at -2^63.
give_back : (ℕ → Bool) → Reservation → Tables → Result Error (Unit {0} × Tables)
give_back fails row db = do
  fail_if (fails 2 || fails 3 || fails 4) db_error
  ok (
    tt,
    record {
      nodes =
          update_node_reservation_delta row.node_id (pos 0 -ℤ row.cpu_cores)
            (pos 0 -ℤ row.memory_mb) (pos 0 -ℤ row.disk_gb) db.nodes;
      reservations = update_resource_reservation_status row.id released db.reservations;
    },
  )

-- ReleaseReservation after its read of the row; a row that is resolved already is no error.
unfoldable pub release_write : (ℕ → Bool) → Reservation → Tables → Result Error (Unit {0} × Tables)
unfolding give_back
release_write fails row db = if is_reserved row.status then give_back fails row db else ok (tt, db)

unfoldable pub release_reservation : (ℕ → Bool) → ℕ → Tables → Result Error (Unit {0}) × Tables
unfolding release_write read_reservation
release_reservation fails id db =
    transact db (do row ← read_reservation fails id db; release_write fails row db)
