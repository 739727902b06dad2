-- ===== src/Provisioning/Provision/Creating.antt =====
-- provision_workflow.go, the steps from create_instance to verify_running.
use vps_billing_gemini.Prelude.{some, String, or_fail, text_append}
use vps_billing_gemini.Prelude.Int.{pos}
use vps_billing_gemini.Infrastructure.Model.{Node, Reservation}
use vps_billing_gemini.Infrastructure.Reserve.{release_reservation}
use vps_billing_gemini.Operations.Model.{Status, Operation}
use vps_billing_gemini.Operations.Steps.{set_operation_provider_info}
use vps_billing_gemini.Provisioning.Runs.{Run, ◌>>=◌, ◌>>◌, note, give, try_or}
use vps_billing_gemini.Provisioning.Model.{
  Error, no_provider, Env, State, Provider, PlanResources, CreateInstanceRequest,
  GetInstanceRequest, ProviderOperation, ProviderInstance, resolve_provider, mock_vm, named_or,
}
use vps_billing_gemini.Provisioning.Notes.{begun, done, done_at_once, broken, step, progress}

module _ (env : Env) (op : Operation) where
  -- `_ = w.infraRepo.ReleaseReservation(ctx, reservation.ID)`.
  unfoldable pub release : Reservation → State → State
  release row s = record s { tables = (release_reservation env.release_fails row.id s.tables).1 }

  abbrev unavailable : Reservation → Error → State → State
  unavailable row e s = release row (
      step env op 11 "create_instance"
        (broken (pos 40) "PROVIDER_UNAVAILABLE" "no provider available to execute instance creation"
          (env.clock 6))
        s)

  abbrev creation_failed : Reservation → Error → State → State
  creation_failed row e s = release row (
      step env op 12 "create_instance"
        (broken (pos 40) "PROVIDER_CREATE_FAILED" (env.message "provider CreateInstance failed: " e)
          (env.clock 6))
        s)

  unfoldable pub create_request : PlanResources → Node → CreateInstanceRequest
  create_request plan node = record {
    operation_id = op.id;
    idempotency_key = op.idempotency_key;
    node_id = node.id;
    instance_id = env.instance_id;
    name = text_append "vps-" (env.short_text env.instance_id);
    cpu_cores = plan.cpu_cores;
    memory_mb = plan.memory_mb;
    disk_gb = plan.disk_gb;
    traffic_gb = plan.traffic_gb;
    bandwidth_mbps = plan.bandwidth_mbps;
    ipv4_count = plan.ipv4_count;
    ipv6_count = plan.ipv6_count;
    nat_port_count = plan.nat_port_count;
    image = "ubuntu-22.04";
    virtualization = plan.virtualization;
  }

  unfoldable pub call_create : Provider → PlanResources → Node → Run State Error ProviderOperation
  unfolding create_request
  call_create prov plan node s = (prov.create_instance (create_request plan node), s)

  abbrev pub find_provider : Node → Run State Error Provider
  find_provider node s =
      (or_fail (resolve_provider (env.uuid_text node.provider_id) env.providers) no_provider, s)

  abbrev note_provider_info : Node → ProviderOperation → State → State
  note_provider_info node made s = record s {
    operations =
        set_operation_provider_info (env.lost 13) (env.clock 7) op.id node.provider_id
          made.provider_operation_id s.operations;
  }

  unfoldable pub create_on_provider :
      PlanResources → Reservation → Node → Run State Error (Provider × ProviderOperation)
  unfolding call_create release
  create_on_provider plan row node = do
    note (step env op 9 "create_instance" (begun (pos 40) (env.clock 6)))
    note (
        progress env op 10 Status.waiting_provider "create_instance"
          "operations.step.create_instance" (pos 40))
    prov ← try_or (find_provider node) (unavailable row)
    made ← try_or (call_create prov plan node) (creation_failed row)
    note (note_provider_info node made)
    note (step env op 14 "create_instance" (done (env.clock 8)))
    note (step env op 15 "wait_provider" (done_at_once (env.clock 9)))
    give (prov, made)

  -- The id under which the provider knows the instance.
  unfoldable pub provider_name : ProviderOperation → String
  provider_name made = named_or (mock_vm env env.instance_id) made.instance_id

  unfoldable pub get_request : Node → ProviderOperation → GetInstanceRequest
  unfolding provider_name
  get_request node made = record {
    node_id = some node.id;
    provider_instance_id = provider_name made;
    platform_instance_id = env.instance_id;
  }

  abbrev pub call_get : Provider → Node → ProviderOperation → Run State Error ProviderInstance
  call_get prov node made s = (prov.get_instance (get_request node made), s)

  abbrev verification_failed : Reservation → Error → State → State
  verification_failed row e s = release row (
      step env op 18 "verify_running"
        (broken (pos 75) "VERIFY_FAILED" (env.message "failed to verify instance on provider: " e)
          (env.clock 10))
        s)

  unfoldable pub verify_running :
      Reservation → Node → Provider → ProviderOperation → Run State Error ProviderInstance
  unfolding release
  verify_running row node prov made = do
    note (step env op 16 "configure_network" (begun (pos 65) (env.clock 10)))
    note (
        progress env op 17 Status.running "configure_network" "operations.step.configure_network"
          (pos 65))
    seen ← try_or (call_get prov node made) (verification_failed row)
    note (step env op 19 "configure_network" (done (env.clock 11)))
    note (step env op 20 "verify_running" (done_at_once (env.clock 12)))
    give seen
