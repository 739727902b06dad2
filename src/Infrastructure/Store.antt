-- ===== src/Infrastructure/Store.antt =====
-- The tables of nodes and reservations, and the statements of repository/nodes.sql.go and
-- repository/resource_reservations.sql.go on them.
use vps_billing_gemini.Prelude.{
  ℕ, ◌+◌, Bool, ◌&&◌, List, Option, ltb, ◌==◌, is_some_eq, if◌then◌else◌, filter, sort_by,
}
use vps_billing_gemini.Prelude.Int.{ℤ, ◌+ℤ◌, ◌-ℤ◌}
use vps_billing_gemini.Prelude.Table.{find_by, update_by, insert_row}
use vps_billing_gemini.Infrastructure.Model.{
  Node, NodeStatus, Reservation, ReservationStatus, is_active, is_reserved,
}

pub record Tables : Type 0 where
  pub nodes : List Node
  pub reservations : List Reservation

abbrev pub find_node : ℕ → List Node → Option Node
find_node = find_by Node.id

abbrev pub find_reservation : ℕ → List Reservation → Option Reservation
find_reservation = find_by Reservation.id

-- ORDER BY weight DESC, created_at ASC.
abbrev pub heavier : Node → Node → Bool
heavier a b = if a.weight == b.weight then ltb a.created_at b.created_at else ltb b.weight a.weight

unfoldable pub list_active_nodes : List Node → List Node
list_active_nodes nodes = sort_by heavier (filter (λ n. is_active n.status) nodes)

unfoldable pub list_nodes_by_node_group : ℕ → List Node → List Node
list_nodes_by_node_group group nodes =
    sort_by heavier (filter (λ n. is_some_eq n.node_group_id group && is_active n.status) nodes)

abbrev pub add_reserved : ℤ → ℤ → ℤ → Node → Node
add_reserved cpu memory disk n = record n {
  cpu_reserved = n.cpu_reserved +ℤ cpu;
  memory_reserved_mb = n.memory_reserved_mb +ℤ memory;
  disk_reserved_gb = n.disk_reserved_gb +ℤ disk;
  version = n.version + 1;
}

unfoldable pub update_node_reservation_delta : ℕ → ℤ → ℤ → ℤ → List Node → List Node
update_node_reservation_delta id cpu memory disk =
    update_by Node.id id (add_reserved cpu memory disk)

abbrev pub move_reserved : ℤ → ℤ → ℤ → Node → Node
move_reserved cpu memory disk n = record n {
  cpu_reserved = n.cpu_reserved -ℤ cpu;
  memory_reserved_mb = n.memory_reserved_mb -ℤ memory;
  disk_reserved_gb = n.disk_reserved_gb -ℤ disk;
  cpu_allocated = n.cpu_allocated +ℤ cpu;
  memory_allocated_mb = n.memory_allocated_mb +ℤ memory;
  disk_allocated_gb = n.disk_allocated_gb +ℤ disk;
  version = n.version + 1;
}

unfoldable pub commit_node_reservation : ℕ → ℤ → ℤ → ℤ → List Node → List Node
commit_node_reservation id cpu memory disk = update_by Node.id id (move_reserved cpu memory disk)

abbrev pub set_node_status : NodeStatus → Node → Node
set_node_status status n = record n { status = status }

unfoldable pub update_node_status : ℕ → NodeStatus → List Node → List Node
update_node_status id status = update_by Node.id id (set_node_status status)

-- INSERT: a second row of the same id violates the primary key.
unfoldable pub create_resource_reservation :
    Reservation → List Reservation → Option (List Reservation)
create_resource_reservation = insert_row Reservation.id

abbrev pub set_reservation_status : ReservationStatus → Reservation → Reservation
set_reservation_status status r = record r { status = status }

unfoldable pub update_resource_reservation_status :
    ℕ → ReservationStatus → List Reservation → List Reservation
update_resource_reservation_status id status =
    update_by Reservation.id id (set_reservation_status status)

unfoldable pub list_expired_reservations : ℕ → List Reservation → List Reservation
list_expired_reservations now = filter (λ r. is_reserved r.status && ltb r.expires_at now)
