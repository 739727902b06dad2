-- ===== src/Provisioning/Provision.antt =====
-- backend/internal/workflow/provision_workflow.go: Execute, in the stages that its steps name. The
-- children Choosing, Creating and Finishing have the stages; the others are about whole runs.
pub mod Choosing
pub mod Creating
pub mod Finishing
pub mod Compensation
pub mod Outcome
pub mod Guarantees
pub mod Commits
use vps_billing_gemini.Prelude.{
  ℕ, Bool, true, false, List, [], ◌∷◌, Option, none, some, String, if◌then◌else◌, Result, ok, err,
  or_fail, text_append,
}
use vps_billing_gemini.Prelude.Int.{pos}
use vps_billing_gemini.Prelude.Table.{find_by}
use vps_billing_gemini.Infrastructure.Model.{Error as InfrastructureError, Node, Reservation}
use vps_billing_gemini.Infrastructure.Reserve.{commit_reservation, release_reservation}
use vps_billing_gemini.Infrastructure.Instances.{Instance, create_instance}
use vps_billing_gemini.Infrastructure.Scheduler.{Requirements, select_and_reserve}
use vps_billing_gemini.Operations.Model.{Status, Operation}
use vps_billing_gemini.Operations.Steps.{set_operation_provider_info}
use vps_billing_gemini.Subscriptions.Model.{SubscriptionStatus, Subscription}
use vps_billing_gemini.Subscriptions.Model as Subscriptions
use vps_billing_gemini.Subscriptions.Store.{find_subscription, update_subscription_status}
use vps_billing_gemini.Provisioning.Runs.{Run, ◌>>=◌, ◌>>◌, note, give, try_or}
use vps_billing_gemini.Provisioning.Model.{
  Error, infrastructure, subscription, plan_not_found, no_provider, db_error, Env, State, Provider,
  PlanResources, CreateInstanceRequest, GetInstanceRequest, ProviderOperation, ProviderInstance,
  resolve_provider, mock_vm, named_or,
}
use vps_billing_gemini.Provisioning.Notes.{begun, done, done_at_once, broken, step, progress}
use vps_billing_gemini.Provisioning.Provision.Choosing.{validate, select_node}
use vps_billing_gemini.Provisioning.Provision.Creating.{create_on_provider, verify_running}
use vps_billing_gemini.Provisioning.Provision.Finishing.{new_instance, persist, finish}

module _ (env : Env) (op : Operation) where
  -- Execute after the reservation.
  unfoldable pub provision_on :
      Subscription → PlanResources → Reservation → Node → Run State Error (Unit {0})
  provision_on sub plan row node = do
    (prov, made) ← create_on_provider env op plan row node
    seen ← verify_running env op row node prov made
    persist env op row (new_instance env op sub plan node made seen)
    finish env op sub row

  unfoldable pub execute : Run State Error (Unit {0})
  execute = do
    (sub, plan) ← validate env op
    (row, node) ← select_node env op plan
    provision_on sub plan row node
