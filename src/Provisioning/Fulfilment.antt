-- ===== src/Provisioning/Fulfilment.antt =====
-- backend/internal/service/fulfillment/fulfillment_service.go: FulfillPaidOrder makes a subscription and
-- an operation for each unit of each item of a paid order, and starts the operations in the
-- background. An error inside the loops is logged and passed over.
pub mod Bounds
pub mod Again
use vps_billing_gemini.Prelude.{
  ℕ, suc, zero, ◌+◌, Bool, false, true, not, List, [], ◌∷◌, ◌++◌, Option, none, some, String,
  str_eq, if◌then◌else◌, ◌==◌, filter, Result, ok, err,
}
use vps_billing_gemini.Prelude.Int.{ℤ, pos}
use vps_billing_gemini.Prelude.Table.{find_by}
use vps_billing_gemini.Commerce.Model.{Plan, Order, OrderItem, OrderStatus}
use vps_billing_gemini.Commerce.Store.{find_order}
use vps_billing_gemini.Operations.Model.{Status, Operation}
use vps_billing_gemini.Operations.Service.{
  CreateOperationInput, update_progress, complete_operation, fail_operation,
}
use vps_billing_gemini.Operations.Steps.{create_operation_with_steps}
use vps_billing_gemini.Subscriptions.Model.{Subscription, SubscriptionStatus, BillingCycle}
use vps_billing_gemini.Subscriptions.Store.{create_subscription}
use vps_billing_gemini.Provisioning.Model.{Env, State, Error}
use vps_billing_gemini.Provisioning.Provision.{execute}

pub data FulfilmentError : Type 0 where
  order_not_read not_paid : FulfilmentError

-- What surrounds unit q of item idx: failures, fresh ids, the clock and formatted texts.
pub record Surroundings : Type 0 where
  pub subscription_fails : Bool
  pub operation_fails : ℕ → Bool
  pub step_fails : ℕ → Bool
  pub subscription_id : ℕ
  pub operation_id : ℕ
  pub step_id : ℕ → ℕ
  pub now : ℕ
  pub idempotency_key : String
  pub trace_id : String

pub record Shop : Type 0 where
  pub order_fails : Bool
  pub plan_fails : ℕ → Bool
  pub orders : List Order
  pub order_items : List OrderItem
  pub plans : List Plan
  pub add_date : ℕ → ℕ → ℕ → ℕ
  pub unit : ℕ → ℕ → Surroundings

abbrev pub provision_steps : List String
provision_steps =
    "validate_subscription" ∷ "select_node" ∷ "reserve_resources" ∷ "create_instance"
    ∷ "wait_provider" ∷ "configure_network" ∷ "verify_running" ∷ "persist_network"
    ∷ "commit_reservation" ∷ "activate_subscription" ∷ "notify" ∷ "finish" ∷ []

unfoldable pub billing_cycle_of : String → BillingCycle
billing_cycle_of text =
    if str_eq text "monthly"
    then BillingCycle.monthly
    else if str_eq text "quarterly"
    then BillingCycle.quarterly
    else if str_eq text "semi_annually"
    then BillingCycle.semi_annually
    else if str_eq text "annually"
    then BillingCycle.annually
    else BillingCycle.other text

-- The period is one month, whatever the billing cycle.
unfoldable pub pending_subscription :
    (ℕ → ℕ → ℕ → ℕ) → Surroundings → Order → Plan → OrderItem → Subscription
unfolding billing_cycle_of
pending_subscription add_date around order plan item =
    let period_end = add_date 0 1 around.now in
    record {
      id = around.subscription_id;
      user_id = order.user_id;
      plan_id = item.plan_id;
      status = SubscriptionStatus.pending;
      billing_cycle = billing_cycle_of plan.billing_cycle;
      price_minor = item.unit_price_minor;
      currency = order.currency;
      started_at = some around.now;
      current_period_start = some around.now;
      current_period_end = some period_end;
      next_due_at = some period_end;
      grace_until = none;
      cancel_at_period_end = false;
      ended_at = none;
      version = 1;
    }

unfoldable pub provision_input : Surroundings → CreateOperationInput
provision_input around = record {
  kind = "provision_instance";
  resource_type = "subscription";
  resource_id = around.subscription_id;
  idempotency_key = around.idempotency_key;
  retryable = true;
  max_retries = pos 3;
  trace_id = around.trace_id;
}

-- The operation of a unit whose subscription is stored.
unfoldable pub start_operation : Surroundings → State → State × Option Operation
unfolding provision_input
start_operation around s =
    let (made, ops, steps) =
      create_operation_with_steps around.operation_fails around.step_fails around.step_id around.now
        around.operation_id "operations.provision_instance.queued" (provision_input around)
        provision_steps s.operations s.steps in
    (record s { operations = ops; steps = steps }, elim made [ ok op ↦ some op | err e ↦ none ])

unfoldable pub fulfill_unit : Surroundings → Subscription → State → State × Option Operation
unfolding start_operation
fulfill_unit around sub s =
    elim (if around.subscription_fails then none else create_subscription sub s.subscriptions) [
      | none ↦ (s, none)
      | some rows ↦ start_operation around (record s { subscriptions = rows })
    ]

abbrev pub started_first : Option Operation → List Operation → List Operation
started_first none ops = ops
started_first (some op) ops = op ∷ ops

-- `for q := 0; q < item.Quantity; q++`, with n units to come.
unfoldable pub fulfill_units :
    Shop → Order → Plan → OrderItem → ℕ → ℕ → ℕ → State → State × List Operation
unfolding fulfill_unit
fulfill_units shop order plan item idx q zero s = (s, [])
fulfill_units shop order plan item idx q (suc n) s =
    let around = shop.unit idx q in
    let one = fulfill_unit around (pending_subscription shop.add_date around order plan item) s in
    let rest = fulfill_units shop order plan item idx (suc q) n one.0 in
    (rest.0, started_first one.1 rest.1)

abbrev pub units_of : ℤ → ℕ
units_of (pos n) = n
units_of _ = 0

abbrev pub plan_of : Shop → ℕ → OrderItem → Option Plan
plan_of shop idx item =
    if shop.plan_fails idx then none else find_by Plan.id item.plan_id shop.plans

abbrev pub fulfill_item : Shop → Order → ℕ → OrderItem → State → State × List Operation
fulfill_item shop order idx item s = elim (plan_of shop idx item) [
  | none ↦ (s, [])
  | some plan ↦ fulfill_units shop order plan item idx 0 (units_of item.quantity) s
]

unfoldable pub fulfill_items : Shop → Order → ℕ → List OrderItem → State → State × List Operation
unfolding fulfill_units
fulfill_items shop order idx [] s = (s, [])
fulfill_items shop order idx (item ∷ items) s =
    let first = fulfill_item shop order idx item s in
    let rest = fulfill_items shop order (suc idx) items first.0 in (rest.0, first.1 ++ rest.1)

abbrev pub items_of : Shop → ℕ → List OrderItem
items_of shop id = filter (λ item. item.order_id == id) shop.order_items

abbrev pub is_paid : OrderStatus → Bool
is_paid OrderStatus.paid = true
is_paid _ = false

-- The operations that are started in the background, or an error before any write.
unfoldable pub fulfill_paid_order :
    Shop → ℕ → State → Result FulfilmentError (List Operation) × State
unfolding fulfill_items
fulfill_paid_order shop id s = elim (if shop.order_fails then none else find_order id shop.orders) [
  | none ↦ (err order_not_read, s)
  | some order ↦
      let out = fulfill_items shop order 0 (items_of shop order.id) s in
      if is_paid order.status then (ok out.1, out.0) else (err not_paid, s)
]

-- The background run of one operation. `lost` says which of its two updates fails.
unfoldable pub provision_in_background : Env → (ℕ → Bool) → ℕ → ℕ → Operation → State → State
provision_in_background env lost now later op s =
    let begun = record s {
      operations =
          (update_progress (lost 0) now op.id Status.running "running"
            "operations.provision_instance.running" (pos 5) (some now) s.operations).1;
    } in
    let out = execute env op begun in
    elim out.0 [
      | ok done ↦ record out.1 {
        operations = (complete_operation (lost 1) later op.id out.1.operations).1;
      }
      | err e ↦ record out.1 {
        operations =
            (fail_operation (lost 1) later op.id "PROVISION_FAILED" (env.message "" e)
              out.1.operations).1;
      }
    ]
