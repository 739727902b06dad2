-- ===== src/Provisioning/Tests/Lifecycle.antt =====
-- A deletion that succeeds and one that the provider refuses.
use vps_billing_gemini.Prelude.{◌≡◌, refl, none, some, [], ◌∷◌, ok, err}
use vps_billing_gemini.Prelude.Int.{pos}
use vps_billing_gemini.Infrastructure.Instances.{Instance, get_instance_by_id}
use vps_billing_gemini.Operations.Model.{Operation}
use vps_billing_gemini.Provisioning.Model.{Env, State, Provider, provider_error, resolve_provider}
use vps_billing_gemini.Provisioning.Lifecycle.{
  execute_lifecycle, get_instance, provider_of, call_action, outcome, action_request, action_of,
  write_states,
}
use vps_billing_gemini.Provisioning.Lifecycle.Effect.{
  Untouched, execute_lifecycle-Untouched, execute_lifecycle_delete_keeps,
}
use vps_billing_gemini.Provisioning.Tests.Provision.{env, op, state, panel}

abbrev pub vm : Instance
vm = record {
  id = 77;
  subscription_id = 3;
  node_id = some 2;
  provider_id = none;
  provider_instance_id = some "vm-1";
  name = "vps-0000004d";
  desired_state = "running";
  observed_state = "running";
  cpu_cores = pos 200;
  memory_mb = pos 4096;
  disk_gb = pos 50;
  traffic_limit_gb = none;
  bandwidth_mbps = none;
  image_id = some "ubuntu-22.04";
  primary_ipv4 = none;
  primary_ipv6 = none;
  last_synced_at = none;
  version = 1;
  deleted_at = none;
}

abbrev with_vm : State
with_vm = record state { instances = vm ∷ [] }

abbrev delete : Operation
delete = record op { kind = "delete_instance"; resource_id = 77 }

abbrev stuck : Provider
stuck = record panel { act = λ a r. err (provider_error "busy") }

abbrev refusing : Env
refusing = record env { providers = ("default", stuck) ∷ [] }

delete_run : (execute_lifecycle env delete with_vm).0 ≡ ok tt
unfolding execute_lifecycle get_instance get_instance_by_id provider_of resolve_provider call_action
    outcome action_request action_of write_states
delete_run = refl

refused_delete_run : (execute_lifecycle refusing delete with_vm).0 ≡ err (provider_error "busy")
unfolding execute_lifecycle get_instance get_instance_by_id provider_of resolve_provider call_action
    outcome action_request action_of write_states
refused_delete_run = refl

execute_lifecycle-Untouched_example :
    Untouched refusing delete with_vm (execute_lifecycle refusing delete with_vm).1
execute_lifecycle-Untouched_example =
    execute_lifecycle-Untouched refusing delete with_vm (provider_error "busy") refused_delete_run

execute_lifecycle_delete_keeps_example :
    (inst inst' : Instance) × (get_instance_by_id 77 (vm ∷ []) ≡ some inst)
    × (get_instance_by_id 77 (execute_lifecycle env delete with_vm).1.instances ≡ some inst')
    × (inst'.observed_state ≡ "deleted")
    × (inst'.node_id ≡ inst.node_id)
    × (inst'.cpu_cores ≡ inst.cpu_cores)
    × ((execute_lifecycle env delete with_vm).1.tables ≡ with_vm.tables)
execute_lifecycle_delete_keeps_example =
    execute_lifecycle_delete_keeps env delete with_vm refl delete_run
