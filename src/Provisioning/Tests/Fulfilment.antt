-- ===== src/Provisioning/Tests/Fulfilment.antt =====
-- The fulfilment of an order of two units, its repetition, and an order that is not paid.
use vps_billing_gemini.Prelude.{
  ◌+◌, ◌≡◌, refl, some, [], ◌∷◌, ok, err, false, map, if◌then◌else◌, ◌==◌,
}
use vps_billing_gemini.Prelude.Int.{pos}
use vps_billing_gemini.Commerce.Model.{Order, OrderItem, Plan, OrderStatus}
use vps_billing_gemini.Operations.Store.{find_operation_by_key}
use vps_billing_gemini.Operations.Service.{existing_operation}
use vps_billing_gemini.Operations.Steps.{create_operation_with_steps}
use vps_billing_gemini.Subscriptions.Model.{Subscription}
use vps_billing_gemini.Subscriptions.Store.{create_subscription}
use vps_billing_gemini.Provisioning.Fulfilment.{
  Shop, not_paid, fulfill_paid_order, fulfill_items, fulfill_units, fulfill_unit, start_operation,
  provision_input, pending_subscription, billing_cycle_of, items_of,
}
use vps_billing_gemini.Provisioning.Fulfilment.Bounds.{
  Within, total_units, fulfill_paid_order-Within, fulfill_paid_order_refused,
}
use vps_billing_gemini.Provisioning.Fulfilment.Again.{Same, fulfill_paid_order-Same}
use vps_billing_gemini.Operations.Model.{Operation}
use vps_billing_gemini.Provisioning.Model.{State}
use vps_billing_gemini.Provisioning.Tests.Provision.{state, op}

abbrev order : Order
order = record {
  id = 1;
  order_no = "O1";
  user_id = 4;
  status = OrderStatus.paid;
  subtotal_minor = pos 1000;
  discount_minor = pos 0;
  total_minor = pos 1000;
  currency = "USD";
  paid_at = some 9;
}

abbrev item : OrderItem
item = record {
  id = 6;
  order_id = 1;
  product_id = 2;
  plan_id = 5;
  quantity = pos 2;
  unit_price_minor = pos 500;
  total_minor = pos 1000;
  product_snapshot = "{}";
  plan_snapshot = "{}";
}

abbrev yearly : Plan
yearly = record {
  id = 5;
  product_id = 2;
  slug = "small";
  status = "active";
  billing_cycle = "annually";
  price_minor = pos 500;
  currency = "USD";
}

-- Each unit has a key of its own.
abbrev known_shop : Shop
known_shop = record {
  order_fails = false;
  plan_fails = λ idx. false;
  orders = order ∷ [];
  order_items = item ∷ [];
  plans = yearly ∷ [];
  add_date = λ years months start. start + 365 + 30;
  unit = λ idx q. record {
    subscription_fails = false;
    operation_fails = λ k. false;
    step_fails = λ k. false;
    subscription_id = 50 + q;
    operation_id = 60 + q;
    step_id = λ i. 100 + 20;
    now = 9;
    idempotency_key = if q == 0 then "provision-1-0-0" else "provision-1-0-1";
    trace_id = "t";
  };
}

-- The operations of the two units.
abbrev second : Operation
second = record op { id = 10; idempotency_key = "provision-1-0-1" }

abbrev stored : State
stored = record state { operations = op ∷ second ∷ [] }

abbrev unpaid_shop : Shop
unpaid_shop = record known_shop { orders = record order { status = OrderStatus.pending } ∷ [] }

again_run : (fulfill_paid_order known_shop 1 stored).0 ≡ ok (op ∷ second ∷ [])
unfolding fulfill_paid_order fulfill_items fulfill_units fulfill_unit start_operation
    provision_input pending_subscription create_subscription create_operation_with_steps
    existing_operation billing_cycle_of find_operation_by_key
again_run = refl

-- Two more subscriptions, without an operation of their own.
again_subscriptions :
    map Subscription.id (fulfill_paid_order known_shop 1 stored).1.subscriptions
    ≡ (51 ∷ 50 ∷ 3 ∷ [])
unfolding fulfill_paid_order fulfill_items fulfill_units fulfill_unit start_operation
    provision_input pending_subscription create_subscription create_operation_with_steps
    existing_operation billing_cycle_of find_operation_by_key
again_subscriptions = refl

unpaid_run : (fulfill_paid_order unpaid_shop 1 state).0 ≡ err not_paid
unfolding fulfill_paid_order
unpaid_run = refl

fulfill_paid_order-Within_example :
    Within
      (total_units (items_of known_shop 1))
      stored
      ((fulfill_paid_order known_shop 1 stored).1, op ∷ second ∷ [])
fulfill_paid_order-Within_example =
    fulfill_paid_order-Within known_shop 1 stored (op ∷ second ∷ []) order refl again_run

fulfill_paid_order-Same_example :
    Same stored.operations stored.steps
      ((fulfill_paid_order known_shop 1 stored).1, op ∷ second ∷ [])
unfolding find_operation_by_key
fulfill_paid_order-Same_example =
    fulfill_paid_order-Same known_shop 1 stored (op ∷ second ∷ []) order refl
      (((op, refl, refl, refl), ((second, refl, refl, refl), tt)), tt) again_run

fulfill_paid_order_refused_example : (fulfill_paid_order unpaid_shop 1 state).1 ≡ state
fulfill_paid_order_refused_example =
    fulfill_paid_order_refused unpaid_shop 1 state not_paid unpaid_run
