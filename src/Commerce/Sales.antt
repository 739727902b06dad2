-- ===== src/Commerce/Sales.antt =====
-- An order that CreateOrder returns answers its inputs at the prices of the plans.
use vps_billing_gemini.Prelude.{
  ℕ, suc, ◌≡◌, refl, sym, subst, ap, ◌∙◌, inl, inr, Bool, true, List, [], ◌∷◌, ◌++◌, map, ok, arith,
  All, bind_inv, Result-cases, transact_ok, err, none, some, ◌⊎◌, Bool-cases,
}
use vps_billing_gemini.Prelude.Int.{IsInt64, int32}
use vps_billing_gemini.Prelude.Table.{key-find_by}
use vps_billing_gemini.Commerce.Model.{
  Error, Plan, Order, OrderItem, Invoice, InvoiceItem, is_pending, db_error,
}
use vps_billing_gemini.Commerce.Store.{Books, create_order_row, create_order_item}
use vps_billing_gemini.Commerce.Orders.{
  CreateOrderItemInput, Draft, Surroundings, order_item, draft_item, draft_items, empty_draft,
  drafted_order, drafted_invoice, drafted_invoice_item, save_draft, create_order_with_items,
  order_steps, create_order, insert_items, item_row,
}
use vps_billing_gemini.Commerce.Totals.{
  IsPriced, Charged, drafted, exact_total, IsDrafted, draft_item-IsDrafted,
}

pub draft_items-IsDrafted :
    (fails : ℕ → Bool) (env : Surroundings) (db : Books) (k : ℕ)
    (inputs : List CreateOrderItemInput) (draft draft' : Draft)
    → All IsPriced db.plans
    → IsDrafted db draft
    → draft_items fails env db k inputs draft ≡ ok draft'
    → IsDrafted db draft'
unfolding draft_items
draft_items-IsDrafted fails env db k [] draft draft' priced d h =
    let e : draft ≡ draft' = ground arith in subst (IsDrafted db) e d
draft_items-IsDrafted fails env db k (input ∷ inputs) draft draft' priced d h =
    let (mid, h1, k1) = bind_inv (draft_item fails env db k input draft) _ _ h in
    draft_items-IsDrafted fails env db (suc k) inputs mid draft' priced
      (draft_item-IsDrafted fails env db k input draft mid priced d h1) k1

-- What an item is the answer to.
abbrev pub as_input : OrderItem → CreateOrderItemInput
as_input i = record { plan_id = i.plan_id; quantity = i.quantity }

append_nil : (xs : List CreateOrderItemInput) → xs ++ [] ≡ xs
append_nil [] = refl
append_nil (x ∷ xs) = ap (λ t. x ∷ t) (append_nil xs)

asked_append :
    (xs : List OrderItem) (i : OrderItem) (inputs : List CreateOrderItemInput)
    → map as_input (xs ++ (i ∷ [])) ++ inputs ≡ map as_input xs ++ (as_input i ∷ inputs)
asked_append [] i inputs = refl
asked_append (x ∷ xs) i inputs = ap (λ t. as_input x ∷ t) (asked_append xs i inputs)

draft_items-asked :
    (fails : ℕ → Bool) (env : Surroundings) (db : Books) (k : ℕ)
    (inputs : List CreateOrderItemInput) (draft draft' : Draft)
    → draft_items fails env db k inputs draft ≡ ok draft'
    → map as_input draft'.order_items ≡ map as_input draft.order_items ++ inputs
unfolding draft_items
draft_items-asked fails env db k [] draft draft' h =
    let e : draft' ≡ draft = ground arith in
    ap (λ d. map as_input d.order_items) e ∙ sym (append_nil (map as_input draft.order_items))
draft_items-asked fails env db k (input ∷ inputs) draft draft' h =
    let (mid, h1, k1) = bind_inv (draft_item fails env db k input draft) _ _ h in
    let (plan, product, there, is_active, positive, result, agree) =
      drafted fails env db k input draft mid h1 in
    let i = order_item env k input.quantity plan product in
    let e : as_input i ≡ input =
      ap (λ p. record { plan_id = p; quantity = input.quantity })
        (key-find_by Plan.id input.plan_id db.plans plan there) in
    draft_items-asked fails env db (suc k) inputs mid draft' k1
    ∙ ap (λ d. map as_input d.order_items ++ inputs) result
    ∙ asked_append draft.order_items i inputs
    ∙ ap (λ x. map as_input draft.order_items ++ (x ∷ inputs)) e

-- The rows of the items, the last one in front.
abbrev pub with_rows : ℕ → List OrderItem → List OrderItem → List OrderItem
with_rows order_id [] rows = rows
with_rows order_id (i ∷ items) rows =
    with_rows order_id items (record i { order_id = order_id; quantity = int32 i.quantity } ∷ rows)

-- An order that CreateOrder returns, with items that answer the inputs one by one: their rows, with the
-- quantities cut to 32 bits, have been added to the table and the order's own row to that of orders; its
-- total is the exact sum of price times quantity over its items if that sum is an int64, and each item is
-- charged at the price of an active plan of the order's currency (or of no currency).
pub record Sold (db : Books) (inputs : List CreateOrderItemInput) (order : Order) (after : Books)
    : Type 0 where
  pub items : List OrderItem
  pub order_stored : after.orders ≡ order ∷ db.orders
  pub items_stored : after.order_items ≡ with_rows order.id items db.order_items
  pub asked : map as_input items ≡ inputs
  pub charged : All (Charged db order.currency) items
  pub total : IsInt64 (exact_total items) → order.total_minor ≡ exact_total items
  pub undiscounted : order.subtotal_minor ≡ order.total_minor
  pub pending : is_pending order.status ≡ true

added_order :
    (order : Order) (rows : List Order)
    → (create_order_row order rows ≡ none) ⊎ (create_order_row order rows ≡ some (order ∷ rows))
unfolding create_order_row
added_order order rows = ground arith

added_item :
    (item : OrderItem) (rows : List OrderItem)
    → (create_order_item item rows ≡ none) ⊎ (create_order_item item rows ≡ some (item ∷ rows))
unfolding create_order_item
added_item item rows = ground arith

insert_items-with_rows :
    (fails : ℕ → Bool) (call order_id : ℕ) (items rows : List OrderItem)
    → ((e : Error) × (insert_items fails call order_id items rows ≡ err e))
      ⊎ (insert_items fails call order_id items rows ≡ ok (with_rows order_id items rows))
unfolding insert_items
insert_items-with_rows fails call order_id [] rows = inr refl
insert_items-with_rows fails call order_id (i ∷ items) rows = elim (Bool-cases (fails call)) [
  | inl failed ↦ inl (db_error, rw failed refl)
  | inr fine ↦ elim (added_item (item_row order_id i) rows) [
    | inl refused ↦ inl (db_error, rw (fine, refused) refl)
    | inr added ↦
        rw (fine, added)
          (insert_items-with_rows fails (suc call) order_id items (item_row order_id i ∷ rows))
  ]
]

saved_steps :
    (fails : ℕ → Bool) (order o : Order) (items : List OrderItem) (invoice : Invoice)
    (detail : InvoiceItem) (db after : Books)
    → order_steps fails order items invoice detail db ≡ ok (o, after)
    → (o ≡ order)
      × (after.orders ≡ order ∷ db.orders)
      × (after.order_items ≡ with_rows order.id items db.order_items)
unfolding order_steps
saved_steps fails order o items invoice detail db after h = elim (added_order order db.orders) [
  | inl refused ↦ absurd (ground arith)
  | inr added ↦ elim (insert_items-with_rows fails 5 order.id items db.order_items) [
    | inl (e, failed) ↦ absurd (ground arith)
    | inr inserted ↦ ground arith
  ]
]

saved :
    (fails : ℕ → Bool) (env : Surroundings) (user_id : ℕ) (draft : Draft) (db : Books)
    (order : Order)
    → (save_draft fails env user_id (ok draft) db).0 ≡ ok order
    → (order ≡ drafted_order env user_id draft)
      × ((save_draft fails env user_id (ok draft) db).1.orders
          ≡ drafted_order env user_id draft ∷ db.orders)
      × ((save_draft fails env user_id (ok draft) db).1.order_items
          ≡ with_rows (drafted_order env user_id draft).id draft.order_items db.order_items)
unfolding save_draft create_order_with_items
saved fails env user_id draft db order h =
    let items = draft.order_items in
    let r =
      order_steps fails (drafted_order env user_id draft) items (drafted_invoice env user_id draft)
        (drafted_invoice_item env draft) db in
    saved_steps fails (drafted_order env user_id draft) order items
      (drafted_invoice env user_id draft) (drafted_invoice_item env draft) db _
      (transact_ok db r order h)

draft-Sold :
    (fails : ℕ → Bool) (env : Surroundings) (user_id : ℕ) (inputs : List CreateOrderItemInput)
    (db : Books) (draft : Draft) (after : Books)
    → after.orders ≡ drafted_order env user_id draft ∷ db.orders
    → after.order_items
      ≡ with_rows (drafted_order env user_id draft).id draft.order_items db.order_items
    → All IsPriced db.plans
    → draft_items fails env db 0 inputs empty_draft ≡ ok draft
    → Sold db inputs (drafted_order env user_id draft) after
unfolding drafted_order
draft-Sold fails env user_id inputs db draft after stored lines priced h =
    let d =
      draft_items-IsDrafted fails env db 0 inputs empty_draft draft priced
        (record { items = tt; sum = λ fits. refl }) h in
    record {
      items = draft.order_items;
      order_stored = stored;
      items_stored = lines;
      asked = draft_items-asked fails env db 0 inputs empty_draft draft h;
      charged = d.items;
      total = d.sum;
      undiscounted = refl;
      pending = refl;
    }

-- When no plan has a negative price and CreateOrder returns an order, the order is pending, without
-- discount, and stored, and a row for each input, with the quantity cut to 32 bits, has been added to the
-- order's items; each is charged at the price of its active plan and the uncut quantity, in the order's
-- currency, and the total is the exact sum if that is an int64.
pub create_order-Sold :
    (reads_fail fails : ℕ → Bool) (env : Surroundings) (user_id : ℕ)
    (inputs : List CreateOrderItemInput) (db : Books) (order : Order)
    → All IsPriced db.plans
    → (create_order reads_fail fails env user_id inputs db).0 ≡ ok order
    → Sold db inputs order (create_order reads_fail fails env user_id inputs db).1
unfolding create_order
create_order-Sold reads_fail fails env user_id [] db order priced h = cc
create_order-Sold reads_fail fails env user_id (input ∷ inputs) db order priced h =
    elim (Result-cases (draft_items reads_fail env db 0 (input ∷ inputs) empty_draft)) [
      | inr (e, failed) ↦ absurd (ground arith)
      | inl (draft, drawn) ↦
          let (e, stored, lines) = saved fails env user_id draft db order (rw drawn at h) in
          let after = (save_draft fails env user_id (ok draft) db).1 in
          rw drawn (
            subst (λ o. Sold db (input ∷ inputs) o after) (sym e)
              (draft-Sold reads_fail env user_id (input ∷ inputs) db draft after stored lines priced
                drawn))
    ]
