-- ===== src/Provisioning/Provision/Choosing.antt =====
-- provision_workflow.go, the steps validate_subscription, select_node and reserve_resources.
use vps_billing_gemini.Prelude.{ℕ, String, if◌then◌else◌, Result, ok, err, or_fail}
use vps_billing_gemini.Prelude.Int.{pos}
use vps_billing_gemini.Prelude.Table.{find_by}
use vps_billing_gemini.Infrastructure.Model.{Error as InfrastructureError, Node, Reservation}
use vps_billing_gemini.Infrastructure.Scheduler.{Requirements, select_and_reserve}
use vps_billing_gemini.Operations.Model.{Status, Operation}
use vps_billing_gemini.Subscriptions.Model.{SubscriptionStatus, Subscription}
use vps_billing_gemini.Subscriptions.Model as Subscriptions
use vps_billing_gemini.Subscriptions.Store.{find_subscription}
use vps_billing_gemini.Provisioning.Runs.{Run, ◌>>=◌, ◌>>◌, note, give, try_or}
use vps_billing_gemini.Provisioning.Model.{
  Error, infrastructure, subscription, plan_not_found, db_error, Env, State, PlanResources,
}
use vps_billing_gemini.Provisioning.Notes.{begun, done, done_at_once, broken, step, progress}

-- 15 minutes, in nanoseconds.
abbrev reservation_ttl : ℕ
reservation_ttl = 900000000000

unfoldable pub requirements : Operation → PlanResources → Requirements
requirements op plan = record {
  operation_id = op.id;
  node_group_id = plan.node_group_id;
  cpu_cores = plan.cpu_cores;
  memory_mb = plan.memory_mb;
  disk_gb = plan.disk_gb;
  ipv4_count = plan.ipv4_count;
  ipv6_count = plan.ipv6_count;
  nat_port_count = plan.nat_port_count;
  ttl = pos reservation_ttl;
}

abbrev pub lift_infrastructure : {A : Type 0} → Result InfrastructureError A → Result Error A
lift_infrastructure (ok a) = ok a
lift_infrastructure (err e) = err (infrastructure e)

module _ (env : Env) (op : Operation) where
  -- GetSubscriptionByID and GetPlanByID.
  unfoldable pub get_subscription : Run State Error Subscription
  get_subscription s = (
    if env.fails 0
        then err db_error
        else or_fail (find_subscription op.resource_id s.subscriptions)
            (subscription Subscriptions.subscription_not_found),
    s,
  )

  unfoldable pub get_plan : Subscription → Run State Error PlanResources
  get_plan sub s = (
    if env.fails 1
        then err db_error
        else or_fail (find_by PlanResources.id sub.plan_id env.plans) plan_not_found,
    s,
  )

  abbrev validation_failed : String → String → Error → State → State
  validation_failed code prefix e =
      step env op 2 "validate_subscription"
        (broken (pos 10) code (env.message prefix e) (env.clock 0))

  unfoldable pub validate : Run State Error (Subscription × PlanResources)
  unfolding get_subscription get_plan
  validate = do
    note (step env op 0 "validate_subscription" (begun (pos 10) (env.clock 0)))
    note (
        progress env op 1 Status.running "validate_subscription"
          "operations.step.validate_subscription" (pos 10))
    sub ← try_or get_subscription (validation_failed "SUB_NOT_FOUND" "failed to get subscription: ")
    plan ← try_or (get_plan sub) (validation_failed "PLAN_NOT_FOUND" "failed to get plan: ")
    note (step env op 3 "validate_subscription" (done (env.clock 1)))
    give (sub, plan)

  unfoldable pub call_scheduler : PlanResources → Run State Error (Reservation × Node)
  unfolding requirements
  call_scheduler plan s =
      let out =
        select_and_reserve env.floats env.world env.list_fails (env.clock 3) (requirements op plan)
          s.tables in
      (lift_infrastructure out.0, record s { tables = out.1 })

  abbrev selection_failed : Error → State → State
  selection_failed e = step env op 6 "select_node" (
      broken (pos 20) "RESOURCE_EXHAUSTED" (env.message "scheduler reservation failed: " e)
        (env.clock 2))

  unfoldable pub select_node : PlanResources → Run State Error (Reservation × Node)
  unfolding call_scheduler
  select_node plan = do
    note (step env op 4 "select_node" (begun (pos 20) (env.clock 2)))
    note (
        progress env op 5 Status.waiting_resource "select_node" "operations.step.select_node"
          (pos 20))
    (row, node) ← try_or (call_scheduler plan) selection_failed
    note (step env op 7 "select_node" (done (env.clock 4)))
    note (step env op 8 "reserve_resources" (done_at_once (env.clock 5)))
    give (row, node)
