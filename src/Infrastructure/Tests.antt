-- ===== src/Infrastructure/Tests.antt =====
-- Runs of the reservations and the scheduler on a small table, and the theorems at such inputs.
use vps_billing_gemini.Prelude.{
  ◌==◌, ℕ, ◌≡◌, refl, ◌⊎◌, Bool, true, false, none, some, [], ◌∷◌, ok, err, arith, if◌then◌else◌,
}
use vps_billing_gemini.Prelude.Int.{ℤ, pos, ◌+ℤ◌, ◌-ℤ◌, ◌*ℤ◌, ◌≤ℤ◌, ltb_ℤ, int64}
use vps_billing_gemini.Infrastructure.Model.{
  Node, Reservation, active, reserved, resource_exhausted, available_cpu, available_memory_mb,
  available_disk_gb,
}
use vps_billing_gemini.Infrastructure.Store.{
  Tables, find_node, find_reservation, create_resource_reservation, update_node_reservation_delta,
  list_active_nodes,
}
use vps_billing_gemini.Infrastructure.Reserve.{reserve_resources, release_reservation}
use vps_billing_gemini.Infrastructure.Capacity.Invariant.{
  amount, reserved_on, Resource, cpu, memory, disk, IsNonneg, IsSound, Accounts, allocated_on,
  reserved_on, capacity,
}
use vps_billing_gemini.Infrastructure.Capacity.History.{
  Reach, here, next, reserve, release, Reach-IsSound, never_oversold,
}
use vps_billing_gemini.Infrastructure.Expiry.{
  IsReleased, reconcile_expired_reservations, reconcile_expired_reservations-releases,
}
use vps_billing_gemini.Infrastructure.Capacity.Race.{release_twice, release_twice-unsound}
use vps_billing_gemini.Infrastructure.Scheduler.{
  Floats, Requirements, has_capacity, score, ranks_before, candidates, list_nodes, reservation_on,
  try_candidates, select_and_reserve, effective_ttl,
}
use vps_billing_gemini.Infrastructure.Scheduler.Chosen.{Chosen, select_and_reserve-Chosen}
use vps_billing_gemini.Infrastructure.Scheduler.Best.{
  Comparable, quiet, IsDecided, select_and_reserve_best,
}

abbrev pub fine : ℕ → Bool
fine k = false

-- Four cores, 8192 MB and 100 GB, of which one core, 1024 MB and 10 GB are allocated.
abbrev node_one : Node
node_one = record {
  id = 1;
  provider_id = 7;
  node_group_id = none;
  status = active;
  cpu_total = pos 400;
  memory_total_mb = pos 8192;
  disk_total_gb = pos 100;
  cpu_allocated = pos 100;
  memory_allocated_mb = pos 1024;
  disk_allocated_gb = pos 10;
  cpu_reserved = pos 0;
  memory_reserved_mb = pos 0;
  disk_reserved_gb = pos 0;
  weight = 1;
  last_seen_at = none;
  version = 1;
  created_at = 0;
}

abbrev pub node_two : Node
node_two = record node_one { id = 2; weight = 5 }

abbrev small : Reservation
small = record {
  id = 40;
  node_id = 1;
  operation_id = 9;
  cpu_cores = pos 200;
  memory_mb = pos 4096;
  disk_gb = pos 50;
  ipv4_count = 1;
  ipv6_count = 0;
  nat_port_count = 0;
  status = reserved;
  expires_at = 1000;
}

abbrev pub tables : Tables
tables = record { nodes = node_one ∷ node_two ∷ []; reservations = [] }

abbrev held_tables : Tables
held_tables = (reserve_resources fine small tables).1

reserve_once : (reserve_resources fine small tables).0 ≡ ok small
unfolding reserve_resources create_resource_reservation available_cpu available_memory_mb
    available_disk_gb ◌+ℤ◌ ◌-ℤ◌ int64
reserve_once = refl

reserve_again :
    (reserve_resources fine (record small { id = 41 }) held_tables).0 ≡ err resource_exhausted
unfolding reserve_resources create_resource_reservation update_node_reservation_delta available_cpu
    available_memory_mb available_disk_gb ◌+ℤ◌ ◌-ℤ◌ int64
reserve_again = refl

small-IsNonneg : IsNonneg small
small-IsNonneg cpu = omega arith
small-IsNonneg memory = omega arith
small-IsNonneg disk = omega arith

abbrev pub base : Resource → ℕ → ℤ
base cpu id = pos 100
base memory id = pos 1024
base disk id = pos 10

base-nonneg : (k : Resource) (id : ℕ) → pos 0 ≤ℤ base k id
base-nonneg cpu id = omega arith
base-nonneg memory id = omega arith
base-nonneg disk id = omega arith

fresh-Accounts :
    (n : Node) (k : Resource) → ((n ≡ node_one) ⊎ (n ≡ node_two)) → Accounts base tables n k
unfolding ◌+ℤ◌
fresh-Accounts n cpu h = ground arith
fresh-Accounts n memory h = ground arith
fresh-Accounts n disk h = ground arith

listed :
    (id : ℕ) (n : Node) → find_node id tables.nodes ≡ some n → ((n ≡ node_one) ⊎ (n ≡ node_two))
listed id n h = ground arith

pub tables-IsSound : IsSound base tables
tables-IsSound = record {
  nodes_keyed = (refl, (refl, tt));
  reservations_keyed = tt;
  nonneg = tt;
  base_nonneg = base-nonneg;
  accounts = λ id n h k. fresh-Accounts n k (listed id n h);
}

abbrev history : Reach tables (release_reservation fine 40 held_tables).1
history = next (next here (reserve fine small small-IsNonneg)) (release fine 40)

Reach-IsSound_example : IsSound base (release_reservation fine 40 held_tables).1
Reach-IsSound_example = Reach-IsSound base tables history tables-IsSound

abbrev held_node : Node
held_node = record node_one {
  cpu_reserved = pos 200;
  memory_reserved_mb = pos 4096;
  disk_reserved_gb = pos 50;
  version = 2;
}

held_node-found : find_node 1 held_tables.nodes ≡ some held_node
unfolding reserve_resources create_resource_reservation update_node_reservation_delta available_cpu
    available_memory_mb available_disk_gb ◌+ℤ◌ ◌-ℤ◌ int64
held_node-found = refl

small-found : find_reservation 40 held_tables.reservations ≡ some small
unfolding reserve_resources create_resource_reservation update_node_reservation_delta available_cpu
    available_memory_mb available_disk_gb ◌+ℤ◌ ◌-ℤ◌ int64
small-found = refl

abbrev held_history : Reach tables held_tables
held_history = next here (reserve fine small small-IsNonneg)

never_oversold_example :
    allocated_on memory held_node +ℤ reserved_on memory held_node ≤ℤ capacity memory held_node
never_oversold_example =
    never_oversold base tables tables-IsSound held_history 1 held_node memory held_node-found

release_twice-unsound_example :
    ((n' : Node) × (find_node small.node_id (release_twice small held_tables).nodes ≡ some n')
      × (reserved_on memory n'
          ≡ reserved_on memory held_node -ℤ amount memory small -ℤ amount memory small))
    × ¬ IsSound base (release_twice small held_tables)
release_twice-unsound_example =
    release_twice-unsound base held_tables small held_node memory
      (Reach-IsSound base tables held_history tables-IsSound) small-found refl held_node-found
      (omega arith)

-- Integers in the place of floating-point numbers.
abbrev pub whole : Floats
whole = record {
  Float = ℤ;
  of_int = λ a. a;
  of_hundredths = λ a. a;
  add = λ a b. a +ℤ b;
  mul = λ a b. a *ℤ b;
  div = λ a b. a;
  eqb = λ a b. if ltb_ℤ a b then false else if ltb_ℤ b a then false else true;
  less = ltb_ℤ;
}

whole-Comparable : Comparable whole (λ a. Unit {0})
whole-Comparable = record {
  asym = λ a b ha hb h. ground arith;
  trans = λ a b c ha hb hc h k. ground arith;
  equal = λ a b ha hb h. ground arith;
}

abbrev request : Requirements
request = record {
  operation_id = 9;
  node_group_id = none;
  cpu_cores = pos 200;
  memory_mb = pos 4096;
  disk_gb = pos 50;
  ipv4_count = 1;
  ipv6_count = 0;
  nat_port_count = 0;
  ttl = pos 0;
}

abbrev ids : ℕ → ℕ
ids i = 40

-- The heavier node wins.
chosen_run :
    (select_and_reserve whole (quiet ids) false 5 request tables).0
    ≡ ok (reservation_on request 40 900000000005 node_two, node_two)
unfolding select_and_reserve candidates try_candidates has_capacity score ranks_before list_nodes
    reservation_on list_active_nodes effective_ttl reserve_resources create_resource_reservation
    update_node_reservation_delta available_cpu available_memory_mb available_disk_gb ◌+ℤ◌ ◌-ℤ◌ ◌*ℤ◌
    int64
chosen_run = refl

select_and_reserve-Chosen_example :
    Chosen request
      (reservation_on request 40 900000000005 node_two)
      node_two
      (select_and_reserve whole (quiet ids) false 5 request tables).1
    × (find_node 2 tables.nodes ≡ some node_two)
select_and_reserve-Chosen_example =
    select_and_reserve-Chosen whole (quiet ids) false 5 request tables
      (reservation_on request 40 900000000005 node_two) node_two (refl, (refl, tt)) chosen_run

select_and_reserve_best_example : IsDecided whole ids 5 request tables
select_and_reserve_best_example =
    select_and_reserve_best whole (λ a. Unit {0}) whole-Comparable ids 5 request tables
      (refl, (refl, tt)) refl (tt, (tt, tt)) ((refl, refl, refl), ((refl, refl, refl), tt)) refl

abbrev stale_tables : Tables
stale_tables = record {
  nodes = node_one ∷ [];
  reservations = record small { id = 41 } ∷ small ∷ [];
}

reconcile_expired_reservations-releases_example :
    IsReleased 40 (reconcile_expired_reservations false (λ j k. j == 41) 2000 stale_tables).1
reconcile_expired_reservations-releases_example =
    reconcile_expired_reservations-releases (λ j k. j == 41) 40 2000 stale_tables small (λ k. refl)
      refl refl refl
