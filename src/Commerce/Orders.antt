-- ===== src/Commerce/Orders.antt =====
-- service/commerce/order_service.go and CreateOrderWithItems of repository/commerce_repository.go.
-- The texts that Go formats and the JSON snapshots are parameters; call k of the database fails when
-- `fails k` (the reads of input k are 2 * k and 2 * k + 1, those of the transaction have their own
-- oracle: 0 Begin, 1 the order, 2 the invoice, 3 its item, 4 Commit, 5 and up the order's items).
use vps_billing_gemini.Prelude.{
  ℕ, suc, ◌+◌, ◌*◌, String, Bool, not, ◌||◌, none, some, List, [], ◌∷◌, ◌++◌, if◌then◌else◌, str_eq,
  ◌==◌, Result, ok, err, ◌>>=◌, ◌>>◌, fail_if, or_fail, transact,
}
use vps_billing_gemini.Prelude.Int.{ℤ, pos, ◌+ℤ◌, ◌*ℤ◌, leb_ℤ, int64, int32}
use vps_billing_gemini.Commerce.Model.{
  Error, empty_order_items, invalid_quantity, plan_not_found, plan_inactive, product_not_found,
  invalid_currency, order_not_found, invalid_order_status, db_error, OrderStatus, InvoiceStatus,
  Product, Plan, Order, OrderItem, Invoice, InvoiceItem, is_pending,
}
use vps_billing_gemini.Commerce.Store.{
  Books, find_plan, find_product, find_order, create_order_row, create_order_item, create_invoice,
  create_invoice_item, update_order_status,
}

pub record CreateOrderItemInput : Type 0 where
  pub plan_id : ℕ
  pub quantity : ℤ

-- What the loop of CreateOrder has computed so far.
pub record Draft : Type 0 where
  pub subtotal_minor : ℤ
  pub currency : String
  pub order_items : List OrderItem

-- uuid.New, fmt.Sprintf, json.Marshal and the clock, as the caller of CreateOrder finds them.
pub record Surroundings : Type 0 where
  pub order_id : ℕ
  pub order_no : String
  pub invoice_id : ℕ
  pub invoice_no : String
  pub invoice_item_id : ℕ
  pub item_id : ℕ → ℕ
  pub product_json : Product → String
  pub plan_json : Plan → String
  pub description_json : String → String
  pub due_at : ℕ

abbrev pub order_item : Surroundings → ℕ → ℤ → Plan → Product → OrderItem
order_item env k quantity plan product = record {
  id = env.item_id k;
  order_id = env.order_id;
  product_id = product.id;
  plan_id = plan.id;
  quantity = quantity;
  unit_price_minor = plan.price_minor;
  total_minor = int64 (plan.price_minor *ℤ quantity);
  product_snapshot = env.product_json product;
  plan_snapshot = env.plan_json plan;
}

-- `if currency == "" { currency = plan.Currency } else if currency != plan.Currency { ... }`.
abbrev pub agree_currency : String → String → Result Error String
agree_currency currency plan_currency =
    if str_eq currency ""
    then ok plan_currency
    else (if str_eq currency plan_currency then ok currency else err invalid_currency)

-- The body of the loop, at input k.
unfoldable pub draft_item :
    (ℕ → Bool) → Surroundings → Books → ℕ → CreateOrderItemInput → Draft → Result Error Draft
draft_item fails env db k input draft = do
  fail_if (leb_ℤ input.quantity (pos 0)) invalid_quantity
  fail_if (fails (2 * k)) db_error
  plan ← or_fail (find_plan input.plan_id db.plans) plan_not_found
  fail_if (not (str_eq plan.status "active")) plan_inactive
  fail_if (fails (2 * k + 1)) db_error
  product ← or_fail (find_product plan.product_id db.products) product_not_found
  fail_if (not (str_eq product.status "active")) product_not_found
  currency ← agree_currency draft.currency plan.currency
  let item = order_item env k input.quantity plan product
  ok (record {
    subtotal_minor = int64 (draft.subtotal_minor +ℤ item.total_minor);
    currency = currency;
    order_items = draft.order_items ++ (item ∷ []);
  })

unfoldable pub draft_items :
    (ℕ → Bool) → Surroundings → Books → ℕ → List CreateOrderItemInput → Draft → Result Error Draft
draft_items fails env db k [] draft = ok draft
draft_items fails env db k (input ∷ inputs) draft = do
  draft' ← draft_item fails env db k input draft
  draft_items fails env db (suc k) inputs draft'

unfoldable pub drafted_order : Surroundings → ℕ → Draft → Order
drafted_order env user_id draft = record {
  id = env.order_id;
  order_no = env.order_no;
  user_id = user_id;
  status = OrderStatus.pending;
  subtotal_minor = draft.subtotal_minor;
  discount_minor = pos 0;
  total_minor = draft.subtotal_minor;
  currency = draft.currency;
  paid_at = none;
}

unfoldable pub drafted_invoice : Surroundings → ℕ → Draft → Invoice
drafted_invoice env user_id draft = record {
  id = env.invoice_id;
  invoice_no = env.invoice_no;
  user_id = user_id;
  subscription_id = none;
  order_id = some env.order_id;
  status = InvoiceStatus.pending;
  amount_minor = draft.subtotal_minor;
  currency = draft.currency;
  due_at = some env.due_at;
  paid_at = none;
}

unfoldable pub drafted_invoice_item : Surroundings → Draft → InvoiceItem
drafted_invoice_item env draft = record {
  id = env.invoice_item_id;
  invoice_id = env.invoice_id;
  description_i18n = env.description_json env.order_no;
  quantity = pos 1;
  unit_amount_minor = draft.subtotal_minor;
  total_minor = draft.subtotal_minor;
}

-- The rows of the order's items: the quantity is cut to 32 bits, the order is the created one.
abbrev pub item_row : ℕ → OrderItem → OrderItem
item_row order_id item = record item { order_id = order_id; quantity = int32 item.quantity }

unfoldable pub insert_items :
    (ℕ → Bool) → ℕ → ℕ → List OrderItem → List OrderItem → Result Error (List OrderItem)
insert_items fails call order_id [] rows = ok rows
insert_items fails call order_id (item ∷ items) rows = do
  fail_if (fails call) db_error
  rows' ← or_fail (create_order_item (item_row order_id item) rows) db_error
  insert_items fails (suc call) order_id items rows'

unfoldable pub order_steps :
    (ℕ → Bool)
    → Order
    → List OrderItem
    → Invoice
    → InvoiceItem
    → Books
    → Result Error (Order × Books)
unfolding insert_items
order_steps fails order items invoice invoice_item db = do
  fail_if (fails 0 || fails 1) db_error
  orders ← or_fail (create_order_row order db.orders) db_error
  rows ← insert_items fails 5 order.id items db.order_items
  fail_if (fails 2) db_error
  invoices ← or_fail (create_invoice invoice db.invoices) db_error
  fail_if (fails 3) db_error
  details ← or_fail (create_invoice_item invoice_item db.invoice_items) db_error
  fail_if (fails 4) db_error
  ok (
    order,
    record db { orders = orders; order_items = rows; invoices = invoices; invoice_items = details },
  )

unfoldable pub create_order_with_items :
    (ℕ → Bool) → Order → List OrderItem → Invoice → InvoiceItem → Books → Result Error Order × Books
unfolding order_steps
create_order_with_items fails order items invoice invoice_item db =
    transact db (order_steps fails order items invoice invoice_item db)

abbrev pub empty_draft : Draft
empty_draft = record { subtotal_minor = pos 0; currency = ""; order_items = [] }

-- CreateOrder once the loop has ended: the save of the draft.
unfoldable pub save_draft :
    (ℕ → Bool) → Surroundings → ℕ → Result Error Draft → Books → Result Error Order × Books
unfolding create_order_with_items drafted_order drafted_invoice drafted_invoice_item
save_draft fails env user_id (err e) db = (err e, db)
save_draft fails env user_id (ok draft) db =
    create_order_with_items fails (drafted_order env user_id draft) draft.order_items
      (drafted_invoice env user_id draft) (drafted_invoice_item env draft) db

unfoldable pub create_order :
    (ℕ → Bool)
    → (ℕ → Bool)
    → Surroundings
    → ℕ
    → List CreateOrderItemInput
    → Books
    → Result Error Order × Books
unfolding draft_items save_draft
create_order reads_fail fails env user_id [] db = (err empty_order_items, db)
create_order reads_fail fails env user_id (input ∷ inputs) db =
    save_draft fails env user_id (draft_items reads_fail env db 0 (input ∷ inputs) empty_draft) db

-- The read of an order, of another user's as of a missing one; call 0 is the SELECT.
unfoldable pub get_order : (ℕ → Bool) → ℕ → ℕ → Books → Result Error Order
get_order fails user_id order_id db = do
  fail_if (fails 0) db_error
  order ← or_fail (find_order order_id db.orders) order_not_found
  if order.user_id == user_id then ok order else err order_not_found

-- The UPDATE alone is call 1; its WHERE names the id only, and pgx reports a missing row.
unfoldable pub write_status :
    (ℕ → Bool) → ℕ → ℕ → OrderStatus → Books → Result Error (Order × Books)
write_status fails now order_id status db = do
  fail_if (fails 1) db_error
  let orders = update_order_status now order_id status db.orders
  order ← or_fail (find_order order_id orders) db_error
  ok (order, record db { orders = orders })

unfoldable pub cancel_steps : (ℕ → Bool) → ℕ → ℕ → ℕ → Books → Result Error (Order × Books)
unfolding get_order write_status
cancel_steps fails now user_id order_id db = do
  order ← get_order fails user_id order_id db
  fail_if (not (is_pending order.status)) invalid_order_status
  write_status fails now order_id OrderStatus.cancelled db

unfoldable pub cancel_order : (ℕ → Bool) → ℕ → ℕ → ℕ → Books → Result Error Order × Books
unfolding cancel_steps
cancel_order fails now user_id order_id db =
    transact db (cancel_steps fails now user_id order_id db)
