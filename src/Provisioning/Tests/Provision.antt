-- ===== src/Provisioning/Tests/Provision.antt =====
-- Runs of Execute: one that succeeds, one whose provider refuses, and one whose commit fails.
use vps_billing_gemini.Prelude.{◌≡◌, refl, true, false, none, some, [], ◌∷◌, ok, err, Result, arith}
use vps_billing_gemini.Prelude.Int.{pos, ◌+ℤ◌, ◌-ℤ◌, ◌*ℤ◌, ◌≤ℤ◌, int64}
use vps_billing_gemini.Infrastructure.Model.{
  Node, Reservation, available_cpu, available_memory_mb, available_disk_gb,
}
use vps_billing_gemini.Infrastructure.Store.{
  create_resource_reservation, update_node_reservation_delta, list_active_nodes,
}
use vps_billing_gemini.Infrastructure.Reserve.{reserve_resources}
use vps_billing_gemini.Infrastructure.Capacity.Invariant.{Resource, IsSound}
use vps_billing_gemini.Infrastructure.Instances.{create_instance}
use vps_billing_gemini.Infrastructure.Scheduler.{
  has_capacity, score, ranks_before, candidates, list_nodes, reservation_on, try_candidates,
  select_and_reserve, effective_ttl,
}
use vps_billing_gemini.Infrastructure.Scheduler.Sound.{asked}
use vps_billing_gemini.Infrastructure.Scheduler.Best.{quiet}
use vps_billing_gemini.Infrastructure.Tests.{fine, tables, base, tables-IsSound, whole}
use vps_billing_gemini.Operations.Model.{Operation, running}
use vps_billing_gemini.Subscriptions.Model.{Subscription, pending, monthly}
use vps_billing_gemini.Provisioning.Model.{
  Error, provider_error, Env, State, PlanResources, Provider, ProviderOperation, resolve_provider,
}
use vps_billing_gemini.Provisioning.Provision.Choosing.{
  validate, select_node, get_subscription, get_plan, call_scheduler, requirements,
}
use vps_billing_gemini.Provisioning.Provision.Creating.{
  create_on_provider, call_create, release, verify_running,
}
use vps_billing_gemini.Provisioning.Provision.Finishing.{
  persist, new_instance, insert_instance, finish, commit,
}
use vps_billing_gemini.Provisioning.Provision.{execute, provision_on}
use vps_billing_gemini.Provisioning.Provision.Guarantees.{Left, execute-Left, execute-IsSound}
use vps_billing_gemini.Provisioning.Provision.Commits.{
  IsChosen, IsPlaced, IsCommitted, execute-IsCommitted,
}

abbrev plan : PlanResources
plan = record {
  id = 5;
  node_group_id = none;
  cpu_cores = pos 200;
  memory_mb = pos 4096;
  disk_gb = pos 50;
  traffic_gb = none;
  bandwidth_mbps = none;
  ipv4_count = 1;
  ipv6_count = 0;
  nat_port_count = 0;
  virtualization = "kvm";
}

abbrev pub answer : Result Error ProviderOperation
answer = ok (record { provider_operation_id = "p1"; instance_id = some "vm-1" })

abbrev pub panel : Provider
panel = record {
  create_instance = λ r. answer;
  get_instance =
      λ r. ok (record { provider_instance_id = "vm-1"; state = "running"; ipv4 = []; ipv6 = [] });
  act = λ a r. answer;
}

abbrev refusing : Provider
refusing = record panel { create_instance = λ r. err (provider_error "quota") }

abbrev pub env : Env
env = record {
  fails = fine;
  lost = fine;
  release_fails = fine;
  commit_fails = fine;
  clock = λ i. 100;
  list_fails = false;
  floats = whole;
  world = quiet (λ i. 40);
  plans = plan ∷ [];
  providers = ("default", panel) ∷ [];
  instance_id = 77;
  uuid_text = λ id. "uuid";
  short_text = λ id. "0000004d";
  message = λ prefix e. prefix;
  parse_ip = some;
  new_password = "RootPass_00000000!";
}

abbrev pub refused : Env
refused = record env { providers = ("default", refusing) ∷ [] }

abbrev uncommitted : Env
uncommitted = record env { commit_fails = λ k. true }

abbrev pub op : Operation
op = record {
  id = 9;
  kind = "provision_instance";
  resource_type = "subscription";
  resource_id = 3;
  status = running;
  phase = none;
  progress = pos 5;
  message_key = none;
  provider_id = none;
  provider_operation_id = none;
  idempotency_key = "provision-1-0-0";
  retryable = true;
  retry_count = pos 0;
  max_retries = pos 3;
  error_code = none;
  error_message = none;
  trace_id = "t";
  started_at = none;
  finished_at = none;
  updated_at = 0;
}

abbrev pub sub : Subscription
sub = record {
  id = 3;
  user_id = 4;
  plan_id = 5;
  status = pending;
  billing_cycle = monthly;
  price_minor = pos 500;
  currency = "USD";
  started_at = some 0;
  current_period_start = some 0;
  current_period_end = some 10;
  next_due_at = some 10;
  grace_until = none;
  cancel_at_period_end = false;
  ended_at = none;
  version = 1;
}

abbrev pub state : State
state = record {
  tables = tables;
  instances = [];
  subscriptions = sub ∷ [];
  operations = op ∷ [];
  steps = [];
}

plan-nonneg : (k : Resource) → pos 0 ≤ℤ asked k (requirements op plan)
unfolding requirements
plan-nonneg Resource.cpu = omega arith
plan-nonneg Resource.memory = omega arith
plan-nonneg Resource.disk = omega arith

good_run : (execute env op state).0 ≡ ok tt
unfolding execute provision_on validate select_node get_subscription get_plan call_scheduler
    requirements create_on_provider call_create verify_running persist new_instance insert_instance
    create_instance finish commit release resolve_provider select_and_reserve candidates
    try_candidates has_capacity score ranks_before list_nodes reservation_on list_active_nodes
    effective_ttl reserve_resources create_resource_reservation update_node_reservation_delta
    available_cpu available_memory_mb available_disk_gb ◌+ℤ◌ ◌-ℤ◌ ◌*ℤ◌ int64
good_run = refl

refused_run : (execute refused op state).0 ≡ err (provider_error "quota")
unfolding execute provision_on validate select_node get_subscription get_plan call_scheduler
    requirements create_on_provider call_create verify_running persist new_instance insert_instance
    create_instance finish commit release resolve_provider select_and_reserve candidates
    try_candidates has_capacity score ranks_before list_nodes reservation_on list_active_nodes
    effective_ttl reserve_resources create_resource_reservation update_node_reservation_delta
    available_cpu available_memory_mb available_disk_gb ◌+ℤ◌ ◌-ℤ◌ ◌*ℤ◌ int64
refused_run = refl

execute-Left_example : Left refused op state (execute refused op state).1.tables
execute-Left_example =
    execute-Left refused op state (provider_error "quota") (refl, (refl, tt)) (λ k. refl)
      refused_run

execute-IsSound_example : IsSound base (execute refused op state).1.tables
execute-IsSound_example =
    execute-IsSound base refused op state (λ i db h. h) (plan-nonneg, tt) tables-IsSound

execute-IsCommitted_example :
    (sub : Subscription) × (plan : PlanResources) × (row : Reservation) × (node : Node) × IsChosen
      env op state sub plan row node
    × IsPlaced env sub plan node (execute env op state).1
    × IsCommitted row (execute env op state).1.tables
execute-IsCommitted_example =
    execute-IsCommitted env op state (refl, (refl, tt)) good_run (λ k. refl)
