-- ===== src/Provisioning/Fulfilment/Bounds.antt =====
-- How many subscriptions and operations the fulfilment of an order makes.
use vps_billing_gemini.Prelude.{
  ℕ, Bool, suc, zero, ◌+◌, ◌≤◌, ◌≡◌, refl, List, [], ◌∷◌, ◌++◌, Option, none, some, inl, inr,
  length, if◌then◌else◌, arith, Option-cases, ok, err,
}
use vps_billing_gemini.Commerce.Model.{Plan, Order, OrderItem}
use vps_billing_gemini.Commerce.Store.{find_order}
use vps_billing_gemini.Operations.Model.{Operation}
use vps_billing_gemini.Subscriptions.Model.{Subscription}
use vps_billing_gemini.Subscriptions.Store.{create_subscription}
use vps_billing_gemini.Provisioning.Model.{State}
use vps_billing_gemini.Provisioning.Fulfilment.{
  Surroundings, Shop, FulfilmentError, start_operation, fulfill_unit, fulfill_units, fulfill_item,
  fulfill_items, fulfill_paid_order, pending_subscription, started_first, units_of, plan_of,
  items_of,
}

abbrev pub total_units : List OrderItem → ℕ
total_units [] = 0
total_units (item ∷ items) = units_of item.quantity + total_units items

-- At most `most` new subscriptions, and no more operations started than subscriptions made.
abbrev pub Within : ℕ → State → State × List Operation → Type 0
Within most s out =
    (length out.0.subscriptions ≤ length s.subscriptions + most)
    × (length s.subscriptions + length out.1 ≤ length out.0.subscriptions)

abbrev as_list : State × Option Operation → State × List Operation
as_list out = (out.0, started_first out.1 [])

length-++ : {A : Type 0} (xs ys : List A) → length (xs ++ ys) ≡ length xs + length ys
length-++ [] ys = omega arith
length-++ (x ∷ xs) ys = omega (arith, length-++ xs ys)

length-started_first :
    (o : Option Operation) (ops : List Operation)
    → length (started_first o ops) ≡ length (started_first o []) + length ops
length-started_first none ops = omega arith
length-started_first (some op) ops = omega arith

start_operation-subscriptions :
    (around : Surroundings) (s : State)
    → (start_operation around s).0.subscriptions ≡ s.subscriptions
unfolding start_operation
start_operation-subscriptions around s = refl

at_most_one : (o : Option Operation) → length (started_first o []) ≤ 1
at_most_one none = omega arith
at_most_one (some op) = omega arith

made_rows :
    (failing : Bool) (sub : Subscription) (subs rows : List Subscription)
    → (if failing then none else create_subscription sub subs) ≡ some rows
    → length rows ≡ suc (length subs)
unfolding create_subscription
made_rows failing sub subs rows h = ground arith

unit-Within :
    (around : Surroundings) (sub : Subscription) (s : State)
    → Within 1 s (as_list (fulfill_unit around sub s))
unfolding fulfill_unit
unit-Within around sub s =
    elim (Option-cases
      (if around.subscription_fails then none else create_subscription sub s.subscriptions)) [
        | inl failed ↦ rw (failed, fulfill_unit) (omega arith, omega arith)
        | inr (rows, made) ↦
            let more = made_rows around.subscription_fails sub s.subscriptions rows made in
            let t : State = record s { subscriptions = rows } in
            let same = start_operation-subscriptions around t in
            rw (made, fulfill_unit)
              (
                rw same (omega (arith, more)),
                rw same (omega (arith, more, at_most_one (start_operation around t).1)),
              )
      ]

Within-both :
    (m n : ℕ) (s t : State) (xs ys : List Operation) (u : State)
    → Within m s (t, xs)
    → Within n t (u, ys)
    → Within (m + n) s (u, xs ++ ys)
Within-both m n s t xs ys u (a, b) (c, d) = (omega arith, omega (arith, length-++ xs ys))

units-Within :
    (shop : Shop) (order : Order) (plan : Plan) (item : OrderItem) (idx q n : ℕ) (s : State)
    → Within n s (fulfill_units shop order plan item idx q n s)
unfolding fulfill_units
units-Within shop order plan item idx q zero s = (omega arith, omega arith)
units-Within shop order plan item idx q (suc n) s =
    let around = shop.unit idx q in
    let one = fulfill_unit around (pending_subscription shop.add_date around order plan item) s in
    let rest = fulfill_units shop order plan item idx (suc q) n one.0 in
    let (a, b) = unit-Within around (pending_subscription shop.add_date around order plan item) s in
    let (c, d) = units-Within shop order plan item idx (suc q) n one.0 in
    (omega arith, omega (arith, length-started_first one.1 rest.1))

item-Within :
    (shop : Shop) (order : Order) (idx : ℕ) (item : OrderItem) (s : State)
    → Within (units_of item.quantity) s (fulfill_item shop order idx item s)
item-Within shop order idx item s = elim (Option-cases (plan_of shop idx item)) [
  | inl absent ↦ rw (absent, fulfill_item) (omega arith, omega arith)
  | inr (plan, there) ↦
      rw (there, fulfill_item) (units-Within shop order plan item idx 0 (units_of item.quantity) s)
]

items-Within :
    (shop : Shop) (order : Order) (idx : ℕ) (items : List OrderItem) (s : State)
    → Within (total_units items) s (fulfill_items shop order idx items s)
unfolding fulfill_items
items-Within shop order idx [] s = (omega arith, omega arith)
items-Within shop order idx (item ∷ items) s =
    let first = fulfill_item shop order idx item s in
    let rest = fulfill_items shop order (suc idx) items first.0 in
    Within-both (units_of item.quantity) (total_units items) s first.0 first.1 rest.1 rest.0
      (item-Within shop order idx item s) (items-Within shop order (suc idx) items first.0)

-- A run that returns operations has gone through the items.
pub paid_run :
    (shop : Shop) (id : ℕ) (s : State) (started : List Operation) (order : Order)
    → find_order id shop.orders ≡ some order
    → (fulfill_paid_order shop id s).0 ≡ ok started
    → (started ≡ (fulfill_items shop order 0 (items_of shop order.id) s).1)
      × ((fulfill_paid_order shop id s).1
          ≡ (fulfill_items shop order 0 (items_of shop order.id) s).0)
unfolding fulfill_paid_order
paid_run shop id s started order there h = ground arith

-- Fulfilment makes at most as many subscriptions as the items of the order have units, and starts at
-- most one operation for each subscription that it makes, whatever fails.
pub fulfill_paid_order-Within :
    (shop : Shop) (id : ℕ) (s : State) (started : List Operation) (order : Order)
    → find_order id shop.orders ≡ some order
    → (fulfill_paid_order shop id s).0 ≡ ok started
    → Within (total_units (items_of shop order.id)) s ((fulfill_paid_order shop id s).1, started)
fulfill_paid_order-Within shop id s started order there h =
    let (e, after) = paid_run shop id s started order there h in
    rw (e, after) (items-Within shop order 0 (items_of shop order.id) s)

-- An order that cannot be read, or is not paid, makes nothing: the tables are as before.
pub fulfill_paid_order_refused :
    (shop : Shop) (id : ℕ) (s : State) (e : FulfilmentError)
    → (fulfill_paid_order shop id s).0 ≡ err e
    → (fulfill_paid_order shop id s).1 ≡ s
unfolding fulfill_paid_order
fulfill_paid_order_refused shop id s e h = ground arith
