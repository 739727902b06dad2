-- ===== src/Provisioning/Provision/Finishing.antt =====
-- provision_workflow.go, the steps from persist_network to finish.
use vps_billing_gemini.Prelude.{
  List, [], ◌∷◌, Option, none, some, String, if◌then◌else◌, ok, err, text_append,
}
use vps_billing_gemini.Prelude.Int.{pos}
use vps_billing_gemini.Infrastructure.Model.{Node, Reservation}
use vps_billing_gemini.Infrastructure.Reserve.{commit_reservation}
use vps_billing_gemini.Infrastructure.Instances.{Instance, create_instance}
use vps_billing_gemini.Operations.Model.{Status, Operation}
use vps_billing_gemini.Subscriptions.Model.{SubscriptionStatus, Subscription}
use vps_billing_gemini.Subscriptions.Store.{update_subscription_status}
use vps_billing_gemini.Provisioning.Runs.{Run, ◌>>◌, note, try_or}
use vps_billing_gemini.Provisioning.Model.{
  Error, db_error, Env, State, PlanResources, ProviderOperation, ProviderInstance,
}
use vps_billing_gemini.Provisioning.Notes.{begun, done, done_at_once, broken, step, progress}
use vps_billing_gemini.Provisioning.Provision.Creating.{release, provider_name}

abbrev first_of : List String → Option String
first_of [] = none
first_of (ip ∷ ips) = some ip

module _ (env : Env) (op : Operation) where
  unfoldable pub new_instance :
      Subscription → PlanResources → Node → ProviderOperation → ProviderInstance → Instance
  unfolding provider_name
  new_instance sub plan node made seen = record {
    id = env.instance_id;
    subscription_id = sub.id;
    node_id = some node.id;
    provider_id = some node.provider_id;
    provider_instance_id = some (provider_name env op made);
    name = text_append "vps-" (env.short_text env.instance_id);
    desired_state = "running";
    observed_state = seen.state;
    cpu_cores = plan.cpu_cores;
    memory_mb = plan.memory_mb;
    disk_gb = plan.disk_gb;
    traffic_limit_gb = plan.traffic_gb;
    bandwidth_mbps = plan.bandwidth_mbps;
    image_id = some "ubuntu-22.04";
    primary_ipv4 = first_of seen.ipv4;
    primary_ipv6 = first_of seen.ipv6;
    last_synced_at = none;
    version = 0;
    deleted_at = none;
  }

  unfoldable pub insert_instance : Instance → Run State Error (Unit {0})
  insert_instance inst s =
      elim (if env.fails 2 then none else create_instance env.parse_ip inst s.instances) [
        | none ↦ (err db_error, s)
        | some rows ↦ (ok tt, record s { instances = rows })
      ]

  abbrev persistence_failed : Reservation → Error → State → State
  persistence_failed row e s = release env op row (
      step env op 23 "persist_network"
        (broken (pos 85) "DB_ERROR" (env.message "failed to persist instance record: " e)
          (env.clock 13))
        s)

  unfoldable pub persist : Reservation → Instance → Run State Error (Unit {0})
  unfolding insert_instance release
  persist row inst = do
    note (step env op 21 "persist_network" (begun (pos 85) (env.clock 13)))
    note (
        progress env op 22 Status.running "persist_network" "operations.step.persist_network"
          (pos 85))
    try_or (insert_instance inst) (persistence_failed row)
    note (step env op 24 "persist_network" (done (env.clock 14)))

  -- Its error is only logged.
  unfoldable pub commit : Reservation → State → State
  commit row s = record s { tables = (commit_reservation env.commit_fails row.id s.tables).1 }

  abbrev activate : Subscription → State → State
  activate sub s = record s {
    subscriptions =
        if env.fails 3
        then s.subscriptions
        else update_subscription_status (env.clock 17) sub.id SubscriptionStatus.active
            s.subscriptions;
  }

  unfoldable pub finish : Subscription → Reservation → Run State Error (Unit {0})
  unfolding commit
  finish sub row = do
    note (step env op 25 "commit_reservation" (begun (pos 90) (env.clock 15)))
    note (
        progress env op 26 Status.running "commit_reservation" "operations.step.commit_reservation"
          (pos 90))
    note (commit row)
    note (step env op 27 "commit_reservation" (done (env.clock 16)))
    note (step env op 28 "activate_subscription" (begun (pos 95) (env.clock 17)))
    note (
        progress env op 29 Status.running "activate_subscription"
          "operations.step.activate_subscription" (pos 95))
    note (activate sub)
    note (step env op 30 "activate_subscription" (done (env.clock 18)))
    note (step env op 31 "notify" (done_at_once (env.clock 19)))
    note (step env op 32 "finish" (done_at_once (env.clock 20)))
    note (progress env op 33 Status.succeeded "finish" "operations.completed" (pos 100))
