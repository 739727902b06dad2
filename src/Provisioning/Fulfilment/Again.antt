-- ===== src/Provisioning/Fulfilment/Again.antt =====
-- The fulfilment of an order whose operations exist already: the order stays paid, so nothing stops a
-- second call, and the idempotency keys protect the operations but not the subscriptions.
use vps_billing_gemini.Prelude.{
  ℕ, suc, zero, ◌≡◌, refl, Bool, false, List, [], ◌∷◌, ◌++◌, Option, none, some, inl, inr,
  if◌then◌else◌, Option-cases, ok, String, str_eq, All,
}
use vps_billing_gemini.Commerce.Model.{Plan, Order, OrderItem}
use vps_billing_gemini.Commerce.Store.{find_order}
use vps_billing_gemini.Operations.Model.{Operation}
use vps_billing_gemini.Operations.Service.{CreateOperationInput, existing_operation}
use vps_billing_gemini.Operations.Store.{find_operation_by_key}
use vps_billing_gemini.Operations.Steps.{OperationStep, create_operation_with_steps}
use vps_billing_gemini.Subscriptions.Model.{Subscription}
use vps_billing_gemini.Subscriptions.Store.{create_subscription}
use vps_billing_gemini.Provisioning.Model.{State}
use vps_billing_gemini.Provisioning.Fulfilment.{
  Surroundings, Shop, start_operation, fulfill_unit, fulfill_units, fulfill_item, fulfill_items,
  fulfill_paid_order, pending_subscription, started_first, units_of, plan_of, items_of,
  provision_input, provision_steps,
}
use vps_billing_gemini.Provisioning.Fulfilment.Bounds.{paid_run}

-- The operation of a unit is stored, and its key can be read.
abbrev pub IsKnown : List Operation → Surroundings → Type 0
IsKnown ops around =
    (op : Operation) × (find_operation_by_key around.idempotency_key ops ≡ some op)
    × (str_eq around.idempotency_key "" ≡ false)
    × (around.operation_fails 0 ≡ false)

-- So for units q to q + n - 1 of item idx, and for every unit of the items from idx on.
abbrev pub UnitsKnown : List Operation → Shop → ℕ → ℕ → ℕ → Type 0
UnitsKnown ops shop idx q zero = Unit
UnitsKnown ops shop idx q (suc n) =
    IsKnown ops (shop.unit idx q) × UnitsKnown ops shop idx (suc q) n

abbrev pub AllKnown : List Operation → Shop → ℕ → List OrderItem → Type 0
AllKnown ops shop idx [] = Unit
AllKnown ops shop idx (item ∷ items) =
    UnitsKnown ops shop idx 0 (units_of item.quantity) × AllKnown ops shop (suc idx) items

existing_known :
    (fails : ℕ → Bool) (key : String) (ops : List Operation) (op : Operation)
    → find_operation_by_key key ops ≡ some op
    → str_eq key "" ≡ false
    → fails 0 ≡ false
    → existing_operation fails key ops ≡ some op
unfolding existing_operation
existing_known fails key ops op found named read = rw (named, read) found

create_known :
    (fails step_fails : ℕ → Bool) (fresh : ℕ → ℕ) (now id : ℕ) (message : String)
    (input : CreateOperationInput) (keys : List String) (ops : List Operation)
    (steps : List OperationStep) (op : Operation)
    → find_operation_by_key input.idempotency_key ops ≡ some op
    → str_eq input.idempotency_key "" ≡ false
    → fails 0 ≡ false
    → create_operation_with_steps fails step_fails fresh now id message input keys ops steps
      ≡ (ok op, ops, steps)
unfolding create_operation_with_steps
create_known fails step_fails fresh now id message input keys ops steps op found named read =
    rw
      (
        existing_known fails input.idempotency_key ops op found named read,
        create_operation_with_steps,
      )
      refl

module _ (ops : List Operation) (steps : List OperationStep) where
  abbrev pub IsStored : Operation → Type 0
  IsStored op = (key : String) × (find_operation_by_key key ops ≡ some op)

  -- The operations and their steps are these, and only operations of the table are started.
  abbrev pub Same : State × List Operation → Type 0
  Same out = (out.0.operations ≡ ops) × (out.0.steps ≡ steps) × All IsStored out.1

  abbrev as_list : State × Option Operation → State × List Operation
  as_list out = (out.0, started_first out.1 [])

  start_operation-Same :
      (around : Surroundings) (s : State)
      → IsKnown ops around
      → s.operations ≡ ops
      → s.steps ≡ steps
      → Same (as_list (start_operation around s))
  unfolding start_operation provision_input
  start_operation-Same around s (op, found, named, read) o t =
      let e =
        create_known around.operation_fails around.step_fails around.step_id around.now
          around.operation_id "operations.provision_instance.queued" (provision_input around)
          provision_steps s.operations s.steps op (rw o found) named read in
      rw (e, as_list, start_operation) (o, t, ((around.idempotency_key, found), tt))

  unit-Same :
      (around : Surroundings) (sub : Subscription) (s : State)
      → IsKnown ops around
      → s.operations ≡ ops
      → s.steps ≡ steps
      → Same (as_list (fulfill_unit around sub s))
  unfolding fulfill_unit
  unit-Same around sub s known o t =
      elim (Option-cases
        (if around.subscription_fails then none else create_subscription sub s.subscriptions)) [
          | inl failed ↦ rw (failed, fulfill_unit) (o, t, tt)
          | inr (rows, made) ↦
              rw (made, fulfill_unit)
                (start_operation-Same around (record s { subscriptions = rows }) known o t)
        ]

  All-++ : (xs ys : List Operation) → All IsStored xs → All IsStored ys → All IsStored (xs ++ ys)
  All-++ [] ys h k = k
  All-++ (x ∷ xs) ys h k = (h.0, All-++ xs ys h.1 k)

  All-started_first :
      (o : Option Operation) (rest : List Operation)
      → All IsStored (started_first o [])
      → All IsStored rest
      → All IsStored (started_first o rest)
  All-started_first none rest h k = k
  All-started_first (some op) rest h k = (h.0, k)

  module _ (shop : Shop) where
    units-Same :
        (order : Order) (plan : Plan) (item : OrderItem) (idx q n : ℕ) (s : State)
        → UnitsKnown ops shop idx q n
        → s.operations ≡ ops
        → s.steps ≡ steps
        → Same (fulfill_units shop order plan item idx q n s)
    unfolding fulfill_units
    units-Same order plan item idx q zero s known o t = (o, t, tt)
    units-Same order plan item idx q (suc n) s known o t =
        let around = shop.unit idx q in
        let sub = pending_subscription shop.add_date around order plan item in
        let one = fulfill_unit around sub s in
        let (o', t', first) = unit-Same around sub s known.0 o t in
        let (o'', t'', rest) = units-Same order plan item idx (suc q) n one.0 known.1 o' t' in
        (
          o'',
          t'',
          All-started_first one.1 (fulfill_units shop order plan item idx (suc q) n one.0).1 first
              rest,
        )

    item-Same :
        (order : Order) (idx : ℕ) (item : OrderItem) (s : State)
        → UnitsKnown ops shop idx 0 (units_of item.quantity)
        → s.operations ≡ ops
        → s.steps ≡ steps
        → Same (fulfill_item shop order idx item s)
    item-Same order idx item s known o t = elim (Option-cases (plan_of shop idx item)) [
      | inl absent ↦ rw (absent, fulfill_item) (o, t, tt)
      | inr (plan, there) ↦
          rw (there, fulfill_item)
            (units-Same order plan item idx 0 (units_of item.quantity) s known o t)
    ]

    items-Same :
        (order : Order) (idx : ℕ) (items : List OrderItem) (s : State)
        → AllKnown ops shop idx items
        → s.operations ≡ ops
        → s.steps ≡ steps
        → Same (fulfill_items shop order idx items s)
    unfolding fulfill_items
    items-Same order idx [] s known o t = (o, t, tt)
    items-Same order idx (item ∷ items) s known o t =
        let first = fulfill_item shop order idx item s in
        let (o', t', xs) = item-Same order idx item s known.0 o t in
        let (o'', t'', ys) = items-Same order (suc idx) items first.0 known.1 o' t' in
        (o'', t'', All-++ first.1 (fulfill_items shop order (suc idx) items first.0).1 xs ys)

-- When the operation of each unit of the order is stored already and can be read, a fulfilment changes no operation
-- and no step, and starts only operations of the table, which are those of earlier subscriptions.
pub fulfill_paid_order-Same :
    (shop : Shop) (id : ℕ) (s : State) (started : List Operation) (order : Order)
    → find_order id shop.orders ≡ some order
    → AllKnown s.operations shop 0 (items_of shop order.id)
    → (fulfill_paid_order shop id s).0 ≡ ok started
    → Same s.operations s.steps ((fulfill_paid_order shop id s).1, started)
fulfill_paid_order-Same shop id s started order there known h =
    let (e, after) = paid_run shop id s started order there h in
    rw (e, after)
      (items-Same s.operations s.steps shop order 0 (items_of shop order.id) s known refl refl)
