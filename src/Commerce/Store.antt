-- ===== src/Commerce/Store.antt =====
-- The tables of the commerce part, and the statements of repository/orders.sql.go, payments.sql.go,
-- invoices.sql.go, wallets.sql.go and ledger.sql.go on them. A foreign key that is violated is one
-- of the failures of a statement.
use vps_billing_gemini.Prelude.{
  ℕ, String, Bool, true, false, ◌&&◌, List, [], ◌∷◌, Option, none, some, str_eq, ◌==◌, is_some_eq,
  if◌then◌else◌,
}
use vps_billing_gemini.Prelude.Int.{ℤ, pos, ltb_ℤ}
use vps_billing_gemini.Prelude.Table.{find_by, update_by, insert_row}
use vps_billing_gemini.Commerce.Model.{
  OrderStatus, PaymentStatus, InvoiceStatus, is_succeeded, Product, Plan, Order, OrderItem, Payment,
  Invoice, InvoiceItem, Wallet, LedgerTransaction, LedgerEntry, OutboxEvent,
}

pub record Books : Type 0 where
  pub products : List Product
  pub plans : List Plan
  pub orders : List Order
  pub order_items : List OrderItem
  pub payments : List Payment
  pub invoices : List Invoice
  pub invoice_items : List InvoiceItem
  pub wallets : List Wallet
  pub ledger_transactions : List LedgerTransaction
  pub ledger_entries : List LedgerEntry
  pub outbox : List OutboxEvent

-- SELECT of the one row that passes a test.
abbrev pub find_where : {A : Type 0} → (A → Bool) → List A → Option A
find_where test [] = none
find_where test (r ∷ t) = if test r then some r else find_where test t

abbrev pub find_product : ℕ → List Product → Option Product
find_product = find_by Product.id

abbrev pub find_plan : ℕ → List Plan → Option Plan
find_plan = find_by Plan.id

abbrev pub find_order : ℕ → List Order → Option Order
find_order = find_by Order.id

abbrev pub find_payment : ℕ → List Payment → Option Payment
find_payment = find_by Payment.id

abbrev pub find_payment_by_no : String → List Payment → Option Payment
find_payment_by_no payment_no = find_where (λ p. str_eq p.payment_no payment_no)

abbrev pub find_payment_by_key : String → List Payment → Option Payment
find_payment_by_key key = find_where (λ p. str_eq p.idempotency_key key)

abbrev pub find_invoice_by_order : ℕ → List Invoice → Option Invoice
find_invoice_by_order order_id = find_where (λ i. is_some_eq i.order_id order_id)

abbrev pub owned_in : ℕ → String → Wallet → Bool
owned_in user_id currency w = w.user_id == user_id && str_eq w.currency currency

abbrev pub find_wallet : ℕ → String → List Wallet → Option Wallet
find_wallet user_id currency = find_where (owned_in user_id currency)

-- INSERT under a UNIQUE text column.
abbrev pub insert_unique : {A : Type 0} → (A → ℕ) → (A → String) → A → List A → Option (List A)
insert_unique key name r t = elim (find_where (λ x. str_eq (name x) (name r)) t) [
  | none ↦ insert_row key r t
  | some _ ↦ none
]

unfoldable pub create_order_row : Order → List Order → Option (List Order)
create_order_row = insert_unique Order.id Order.order_no

-- CHECK (quantity > 0), and CHECK on the amounts.
unfoldable pub create_order_item : OrderItem → List OrderItem → Option (List OrderItem)
create_order_item item t =
    if ltb_ℤ (pos 0) item.quantity then insert_row OrderItem.id item t else none

unfoldable pub create_invoice : Invoice → List Invoice → Option (List Invoice)
create_invoice = insert_unique Invoice.id Invoice.invoice_no

unfoldable pub create_invoice_item : InvoiceItem → List InvoiceItem → Option (List InvoiceItem)
create_invoice_item item t =
    if ltb_ℤ (pos 0) item.quantity then insert_row InvoiceItem.id item t else none

-- UNIQUE (payment_no) and UNIQUE (idempotency_key).
unfoldable pub create_payment : Payment → List Payment → Option (List Payment)
create_payment p t = elim (find_payment_by_key p.idempotency_key t) [
  | none ↦ insert_unique Payment.id Payment.payment_no p t
  | some _ ↦ none
]

-- UNIQUE (user_id, currency).
unfoldable pub create_wallet : Wallet → List Wallet → Option (List Wallet)
create_wallet w t = elim (find_wallet w.user_id w.currency t) [
  | none ↦ insert_row Wallet.id w t
  | some _ ↦ none
]

unfoldable pub create_ledger_transaction :
    LedgerTransaction → List LedgerTransaction → Option (List LedgerTransaction)
create_ledger_transaction = insert_row LedgerTransaction.id

-- CHECK (amount_minor >= 0).
unfoldable pub create_ledger_entry : LedgerEntry → List LedgerEntry → Option (List LedgerEntry)
create_ledger_entry e t =
    if ltb_ℤ e.amount_minor (pos 0) then none else insert_row LedgerEntry.id e t

unfoldable pub create_outbox_event : OutboxEvent → List OutboxEvent → Option (List OutboxEvent)
create_outbox_event = insert_row OutboxEvent.id

-- COALESCE($3, gateway_payment_id), where the empty text is sent as NULL.
abbrev pub coalesce : String → Option String → Option String
coalesce new old = if str_eq new "" then old else some new

abbrev pub set_payment_status : ℕ → PaymentStatus → String → String → Payment → Payment
set_payment_status now status gateway_payment_id gateway_payload p = record p {
  status = status;
  gateway_payment_id = coalesce gateway_payment_id p.gateway_payment_id;
  gateway_payload = gateway_payload;
  paid_at = if is_succeeded status then some now else p.paid_at;
}

unfoldable pub update_payment_status :
    ℕ → ℕ → PaymentStatus → String → String → List Payment → List Payment
update_payment_status now id status gateway_payment_id gateway_payload =
    update_by Payment.id id (set_payment_status now status gateway_payment_id gateway_payload)

abbrev pub is_paid : OrderStatus → Bool
is_paid OrderStatus.paid = true
is_paid _ = false

abbrev pub set_order_status : ℕ → OrderStatus → Order → Order
set_order_status now status o = record o {
  status = status;
  paid_at = if is_paid status then some now else o.paid_at;
}

unfoldable pub update_order_status : ℕ → ℕ → OrderStatus → List Order → List Order
update_order_status now id status = update_by Order.id id (set_order_status now status)

abbrev pub is_paid_invoice : InvoiceStatus → Bool
is_paid_invoice InvoiceStatus.paid = true
is_paid_invoice _ = false

abbrev pub set_invoice_status : ℕ → InvoiceStatus → Invoice → Invoice
set_invoice_status now status i = record i {
  status = status;
  paid_at = if is_paid_invoice status then some now else i.paid_at;
}

unfoldable pub update_invoice_status : ℕ → ℕ → InvoiceStatus → List Invoice → List Invoice
update_invoice_status now id status = update_by Invoice.id id (set_invoice_status now status)

abbrev pub set_balance : ℤ → Wallet → Wallet
set_balance balance w = record w { available_balance_minor = balance }

unfoldable pub update_wallet_balance : ℕ → String → ℤ → List Wallet → List Wallet
update_wallet_balance user_id currency balance [] = []
update_wallet_balance user_id currency balance (w ∷ t) =
    (if owned_in user_id currency w then set_balance balance w else w)
    ∷ update_wallet_balance user_id currency balance t
