-- ===== src/Infrastructure/Model.antt =====
-- backend/internal/domain/infrastructure: the node and the reservation of its capacity. An id is the
-- 128-bit number of its UUID, a moment is a count of time units, and a number of CPU cores is a
-- count of hundredths (the columns are numeric with two places). Memory and disk are Go's int64.
use vps_billing_gemini.Prelude.{ℕ, Bool, true, false, Option, String, if◌then◌else◌}
use vps_billing_gemini.Prelude.Int.{ℤ, pos, ◌+ℤ◌, ◌-ℤ◌, ltb_ℤ, int64}

pub data Error : Type 0 where
  node_not_found no_schedulable_node resource_exhausted : Error
  reservation_not_found invalid_reservation_status instance_not_found node_offline : Error
  -- any other error that a statement, Begin or Commit returns
  db_error : Error

-- The text of the status column, of which the code compares with "active" and writes "offline".
pub data NodeStatus : Type 0 where
  active offline : NodeStatus
  other : String → NodeStatus

pub data ReservationStatus : Type 0 where
  reserved committed released expired : ReservationStatus

pub record Node : Type 0 where
  pub id : ℕ
  pub provider_id : ℕ
  pub node_group_id : Option ℕ
  pub status : NodeStatus
  pub cpu_total : ℤ
  pub memory_total_mb : ℤ
  pub disk_total_gb : ℤ
  pub cpu_allocated : ℤ
  pub memory_allocated_mb : ℤ
  pub disk_allocated_gb : ℤ
  pub cpu_reserved : ℤ
  pub memory_reserved_mb : ℤ
  pub disk_reserved_gb : ℤ
  pub weight : ℕ
  pub last_seen_at : Option ℕ
  pub version : ℕ
  pub created_at : ℕ

pub record Reservation : Type 0 where
  pub id : ℕ
  pub node_id : ℕ
  pub operation_id : ℕ
  pub cpu_cores : ℤ
  pub memory_mb : ℤ
  pub disk_gb : ℤ
  pub ipv4_count : ℕ
  pub ipv6_count : ℕ
  pub nat_port_count : ℕ
  pub status : ReservationStatus
  pub expires_at : ℕ

abbrev pub is_active : NodeStatus → Bool
is_active active = true
is_active _ = false

abbrev pub is_reserved : ReservationStatus → Bool
is_reserved reserved = true
is_reserved _ = false

-- `if avail < 0 { return 0 }`.
abbrev pub at_least_zero : ℤ → ℤ
at_least_zero avail = if ltb_ℤ avail (pos 0) then pos 0 else avail

-- In hundredths of a core, exactly; the float64 of the program agrees on whole cores.
unfoldable pub available_cpu : Node → ℤ
available_cpu n = at_least_zero (n.cpu_total -ℤ (n.cpu_allocated +ℤ n.cpu_reserved))

unfoldable pub available_memory_mb : Node → ℤ
available_memory_mb n =
    at_least_zero
      (int64 (n.memory_total_mb -ℤ int64 (n.memory_allocated_mb +ℤ n.memory_reserved_mb)))

unfoldable pub available_disk_gb : Node → ℤ
available_disk_gb n =
    at_least_zero (int64 (n.disk_total_gb -ℤ int64 (n.disk_allocated_gb +ℤ n.disk_reserved_gb)))
