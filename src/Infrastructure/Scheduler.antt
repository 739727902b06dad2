-- ===== src/Infrastructure/Scheduler.antt =====
-- backend/internal/service/scheduler/scheduler.go: the choice of a node and the reservation on it.
-- Floating-point arithmetic, the identifiers that uuid.New draws, the failures of the database and
-- what other workers do between two attempts are parameters.
pub mod Chosen
pub mod Best
pub mod Sound
use vps_billing_gemini.Prelude.{
  ℕ, zero, suc, ◌+◌, ◌*◌, Bool, true, false, not, ◌&&◌, ◌||◌, Option, none, some, List, [], ◌∷◌,
  if◌then◌else◌, ltb, ◌==◌, filter, sort_by, Result, ok, err,
}
use vps_billing_gemini.Prelude.Int.{ℤ, pos, ltb_ℤ, leb_ℤ, ◌+ℤ◌}
use vps_billing_gemini.Infrastructure.Model.{
  Error, no_schedulable_node, resource_exhausted, node_offline, db_error, Node, Reservation,
  reserved, is_active, available_cpu, available_memory_mb, available_disk_gb,
}
use vps_billing_gemini.Infrastructure.Store.{Tables, list_active_nodes, list_nodes_by_node_group}
use vps_billing_gemini.Infrastructure.Reserve.{reserve_resources}

-- float64: the number of an integer, the number of a count of hundredths, and the operations.
pub record Floats : Type 1 where
  pub Float : Type 0
  pub of_int : ℤ → Float
  pub of_hundredths : ℤ → Float
  pub add : Float → Float → Float
  pub mul : Float → Float → Float
  pub div : Float → Float → Float
  pub eqb : Float → Float → Bool
  pub less : Float → Float → Bool

-- A zero or negative TTL is replaced, so it is signed; the other counts are those of a plan.
pub record Requirements : Type 0 where
  pub operation_id : ℕ
  pub node_group_id : Option ℕ
  pub cpu_cores : ℤ
  pub memory_mb : ℤ
  pub disk_gb : ℤ
  pub ipv4_count : ℕ
  pub ipv6_count : ℕ
  pub nat_port_count : ℕ
  pub ttl : ℤ

-- 15 minutes, in nanoseconds.
abbrev pub default_ttl : ℕ
default_ttl = 900000000000

unfoldable pub effective_ttl : ℤ → ℕ
effective_ttl (pos zero) = default_ttl
effective_ttl (pos (suc n)) = suc n
effective_ttl _ = default_ttl

-- `req.NodeGroupID != nil && *req.NodeGroupID != uuid.Nil`.
unfoldable pub list_nodes : Option ℕ → List Node → List Node
list_nodes none nodes = list_active_nodes nodes
list_nodes (some group) nodes =
    if group == 0 then list_active_nodes nodes else list_nodes_by_node_group group nodes

unfoldable pub has_capacity : Requirements → Node → Bool
has_capacity req n =
    is_active n.status
    && not (ltb_ℤ (available_cpu n) req.cpu_cores)
    && not (ltb_ℤ (available_memory_mb n) req.memory_mb)
    && not (ltb_ℤ (available_disk_gb n) req.disk_gb)

module _ (floats : Floats) where
  open floats use {Float, of_int, of_hundredths, add, mul, div, eqb, less}

  unfoldable pub score : Node → Float
  score n =
      let cpu_ratio = div (of_hundredths (available_cpu n)) (of_hundredths n.cpu_total) in
      let mem_ratio = div (of_int (available_memory_mb n)) (of_int n.memory_total_mb) in
      let disk_ratio = div (of_int (available_disk_gb n)) (of_int n.disk_total_gb) in
      let avg_free_ratio = div (add (add cpu_ratio mem_ratio) disk_ratio) (of_int (pos 3)) in
      add (mul (of_int (pos n.weight)) (of_int (pos 1000))) (mul avg_free_ratio (of_int (pos 100)))

  -- The order of sort.Slice. An id's text orders as its number does.
  unfoldable pub ranks_before : Node → Node → Bool
  ranks_before a b =
      if not (eqb (score a) (score b)) then less (score b) (score a) else ltb a.id b.id

  unfoldable pub candidates : Requirements → List Node → List Node
  candidates req nodes = sort_by ranks_before (filter (has_capacity req) nodes)

unfoldable pub reservation_on : Requirements → ℕ → ℕ → Node → Reservation
reservation_on req id expires_at n = record {
  id = id;
  node_id = n.id;
  operation_id = req.operation_id;
  cpu_cores = req.cpu_cores;
  memory_mb = req.memory_mb;
  disk_gb = req.disk_gb;
  ipv4_count = req.ipv4_count;
  ipv6_count = req.ipv6_count;
  nat_port_count = req.nat_port_count;
  status = reserved;
  expires_at = expires_at;
}

-- What surrounds attempt number i: its failures, its fresh id, and what others commit before it.
pub record World : Type 0 where
  pub fails : ℕ → ℕ → Bool
  pub fresh : ℕ → ℕ
  pub meanwhile : ℕ → Tables → Tables

-- Filled up or gone offline in the meantime.
abbrev pub can_try_next : Error → Bool
can_try_next resource_exhausted = true
can_try_next node_offline = true
can_try_next _ = false

-- After one attempt: success, the next candidate, or an error that ends the loop.
abbrev pub after_attempt :
    Node
    → Result Error Reservation
    → Tables
    → Result Error (Reservation × Node) × Tables
    → Result Error (Reservation × Node) × Tables
after_attempt n (ok row) db rest = (ok (row, n), db)
after_attempt n (err e) db rest = if can_try_next e then rest else (err e, db)

unfoldable pub try_candidates :
    World → Requirements → ℕ → List Node → ℕ → Tables → Result Error (Reservation × Node) × Tables
try_candidates world req expires_at [] i db = (err no_schedulable_node, db)
try_candidates world req expires_at (n ∷ ns) i db =
    let row = reservation_on req (world.fresh i) expires_at n in
    let attempt = reserve_resources (world.fails i) row (world.meanwhile i db) in
    after_attempt n attempt.0 attempt.1 (try_candidates world req expires_at ns (suc i) attempt.1)

-- `list_fails`: the query of the nodes returns an error.
unfoldable pub select_and_reserve :
    Floats → World → Bool → ℕ → Requirements → Tables → Result Error (Reservation × Node) × Tables
unfolding candidates try_candidates
select_and_reserve floats world list_fails now req db =
    let chosen = candidates floats req (list_nodes req.node_group_id db.nodes) in
    let tried = try_candidates world req (now + effective_ttl req.ttl) chosen 0 db in
    if list_fails then (err db_error, db) else tried
