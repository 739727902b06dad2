-- ===== src/Commerce/Payments.antt =====
-- ProcessPaymentSuccessTx of repository/commerce_repository.go. `fails` says which database calls
-- return an error (0 is Begin, then the statements in their order, 10 is the last Commit); a
-- statement that fails aborts the transaction, so an error that the code ignores makes the next
-- statement fail. `fresh` gives the values of uuid.New in order, and `now` is the transaction's time.
use vps_billing_gemini.Prelude.{
  ℕ, String, Bool, true, false, ◌||◌, none, some, if◌then◌else◌, Result, ok, ◌>>=◌, ◌>>◌, fail_if,
  or_fail, transact,
}
use vps_billing_gemini.Prelude.Int.{ℤ}
use vps_billing_gemini.Commerce.Model.{
  Error, payment_not_found, db_error, succeeded, OrderStatus, InvoiceStatus, is_succeeded,
  platform_revenue, OutboxEvent, system_account_platform_revenue,
}
use vps_billing_gemini.Commerce.Store.{
  Books, find_payment, find_order, find_invoice_by_order, update_payment_status,
  update_order_status, update_invoice_status, create_outbox_event,
}
use vps_billing_gemini.Commerce.Ledger.{Posting, post}

pub record PaymentSuccessParams : Type 0 where
  pub payment_id : ℕ
  pub gateway_payment_id : String
  pub gateway_payload : String
  pub payment_no : String
  pub order_id : ℕ
  pub amount_minor : ℤ
  pub currency : String
  pub user_id : ℕ

-- The description is the payment's number: the text around it is left out.
abbrev pub payment_posting : PaymentSuccessParams → Posting
payment_posting params = record {
  kind = "order_payment";
  reference_type = "payment";
  reference_id = params.payment_id;
  description = params.payment_no;
  credited_type = platform_revenue;
  credited_id = system_account_platform_revenue;
  amount_minor = params.amount_minor;
  currency = params.currency;
}

abbrev pub payment_event : (ℕ → ℕ) → PaymentSuccessParams → OutboxEvent
payment_event fresh params = record {
  id = fresh 3;
  event_type = "payment.succeeded.v1";
  aggregate_type = "payment";
  aggregate_id = params.payment_id;
}

-- Steps 2 and 3: the statuses of the payment and of its order, whatever status the order has.
unfoldable pub mark_paid : (ℕ → Bool) → ℕ → PaymentSuccessParams → Books → Result Error Books
mark_paid fails now params db = do
  fail_if (fails 2) db_error
  order ← or_fail (find_order params.order_id db.orders) db_error
  fail_if (fails 3) db_error
  ok (record db {
    payments =
        update_payment_status now params.payment_id succeeded params.gateway_payment_id
          params.gateway_payload db.payments;
    orders = update_order_status now params.order_id OrderStatus.paid db.orders;
  })

-- Step 4: the invoice of the order, if there is one.
unfoldable pub mark_invoice : (ℕ → Bool) → ℕ → ℕ → Books → Result Error Books
mark_invoice fails now order_id db = do
  fail_if (fails 4) db_error
  elim (find_invoice_by_order order_id db.invoices) [
    | none ↦ ok db
    | some inv ↦ do
      fail_if (fails 5) db_error
      ok (record db { invoices = update_invoice_status now inv.id InvoiceStatus.paid db.invoices })
  ]

-- Step 6 and the Commit.
unfoldable pub publish : (ℕ → Bool) → OutboxEvent → Books → Result Error Books
publish fails event db = do
  fail_if (fails 9) db_error
  events ← or_fail (create_outbox_event event db.outbox) db_error
  fail_if (fails 10) db_error
  ok (record db { outbox = events })

unfoldable pub settle :
    (ℕ → Bool) → (ℕ → ℕ) → ℕ → PaymentSuccessParams → Books → Result Error (Bool × Books)
unfolding mark_paid mark_invoice publish post
settle fails fresh now params db = do
  marked ← mark_paid fails now params db
  invoiced ← mark_invoice fails now params.order_id marked
  posted ← post fails 6 fresh (payment_posting params) invoiced
  published ← publish fails (payment_event fresh params) posted
  ok (false, published)

-- A payment that has succeeded is reported as processed, and the error of its Commit is ignored.
unfoldable pub process_steps :
    (ℕ → Bool) → (ℕ → ℕ) → ℕ → PaymentSuccessParams → Books → Result Error (Bool × Books)
unfolding settle
process_steps fails fresh now params db = do
  fail_if (fails 0 || fails 1) db_error
  row ← or_fail (find_payment params.payment_id db.payments) payment_not_found
  if is_succeeded row.status then ok (true, db) else settle fails fresh now params db

unfoldable pub process_payment_success :
    (ℕ → Bool) → (ℕ → ℕ) → ℕ → PaymentSuccessParams → Books → Result Error Bool × Books
unfolding process_steps
process_payment_success fails fresh now params db =
    transact db (process_steps fails fresh now params db)
