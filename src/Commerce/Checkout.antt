-- ===== src/Commerce/Checkout.antt =====
-- service/commerce/payment_service.go and the webhook of fake_payment_gateway.go. The gateway's HMAC
-- and encoding/json are parameters. Call 0 reads the order or the payment, call 1 is the next one,
-- call 2 the INSERT; the transaction of a webhook has its own oracle.
use vps_billing_gemini.Prelude.{
  ℕ, String, Bool, not, ◌&&◌, Option, none, some, if◌then◌else◌, str_eq, Result, ok, err, ◌>>=◌,
  ◌>>◌, fail_if, or_fail, transact,
}
use vps_billing_gemini.Prelude.Int.{ℤ, leb_ℤ}
use vps_billing_gemini.Commerce.Model.{
  Error, unsupported_gateway, order_not_found, invalid_order_status, payment_already_processed,
  payment_not_found, invalid_webhook_signature, malformed_webhook, invalid_payment_amount,
  invalid_currency, payment_not_successful, db_error, Order, Payment, PaymentStatus, is_pending,
  is_succeeded,
}
use vps_billing_gemini.Commerce.Store.{
  Books, find_order, find_payment_by_no, find_payment_by_key, create_payment,
}
use vps_billing_gemini.Commerce.Payments.{PaymentSuccessParams, process_payment_success}

pub record FakeWebhookPayload : Type 0 where
  pub payment_no : String
  pub gateway_payment_id : String
  pub order_id : String
  pub amount_minor : ℤ
  pub currency : String
  pub status : String
  pub timestamp : ℤ

-- crypto/hmac under the configured secret, and json.Unmarshal.
pub record Gateway : Type 0 where
  pub generate_signature : String → String
  pub decode : String → Option FakeWebhookPayload

unfoldable pub parse_webhook : Gateway → String → String → Result Error FakeWebhookPayload
parse_webhook gateway body signature = do
  fail_if (not (str_eq (gateway.generate_signature body) signature)) invalid_webhook_signature
  payload ← or_fail (gateway.decode body) malformed_webhook
  fail_if (str_eq payload.payment_no "") malformed_webhook
  ok payload

abbrev pub new_payment : ℕ → String → String → String → Order → Payment
new_payment id payment_no gateway key order = record {
  id = id;
  payment_no = payment_no;
  order_id = order.id;
  gateway = gateway;
  gateway_payment_id = none;
  status = PaymentStatus.pending;
  amount_minor = order.total_minor;
  currency = order.currency;
  idempotency_key = key;
  gateway_payload = "{}";
  paid_at = none;
}

-- The payment of the key, or a new one; a failed read by key counts as no payment.
unfoldable pub record_payment :
    (ℕ → Bool) → String → ℕ → String → String → Order → Books → Result Error (Payment × Books)
record_payment fails key id payment_no gateway order db =
    elim (if fails 1 then none else find_payment_by_key key db.payments) [
      | some existing ↦ do
        fail_if (is_succeeded existing.status) payment_already_processed
        ok (existing, db)
      | none ↦ do
        fail_if (fails 2) db_error
        let p = new_payment id payment_no gateway key order
        rows ← or_fail (create_payment p db.payments) db_error
        ok (p, record db { payments = rows })
    ]

-- `key_of` formats the idempotency key.
unfoldable pub initiate_steps :
    (ℕ → Bool)
    → (ℕ → String → String)
    → ℕ
    → String
    → ℕ
    → String
    → Books
    → Result Error (Payment × Books)
unfolding record_payment
initiate_steps fails key_of id payment_no order_id gateway db = do
  fail_if (not (str_eq gateway "fake")) unsupported_gateway
  fail_if (fails 0) db_error
  order ← or_fail (find_order order_id db.orders) order_not_found
  fail_if (not (is_pending order.status)) invalid_order_status
  record_payment fails (key_of order.id gateway) id payment_no gateway order db

unfoldable pub initiate_payment :
    (ℕ → Bool)
    → (ℕ → String → String)
    → ℕ
    → String
    → ℕ
    → String
    → Books
    → Result Error Payment × Books
unfolding initiate_steps
initiate_payment fails key_of id payment_no order_id gateway db =
    transact db (initiate_steps fails key_of id payment_no order_id gateway db)

abbrev pub same_amount : ℤ → ℤ → Bool
same_amount a b = leb_ℤ a b && leb_ℤ b a

abbrev pub success_params : Payment → Order → FakeWebhookPayload → String → PaymentSuccessParams
success_params payment order payload body = record {
  payment_id = payment.id;
  gateway_payment_id = payload.gateway_payment_id;
  gateway_payload = body;
  payment_no = payment.payment_no;
  order_id = payment.order_id;
  amount_minor = payment.amount_minor;
  currency = payment.currency;
  user_id = order.user_id;
}

-- What ProcessWebhook checks before the transaction.
unfoldable pub check_webhook :
    (ℕ → Bool) → Gateway → String → String → String → Books → Result Error PaymentSuccessParams
unfolding parse_webhook
check_webhook fails gateway name body signature db = do
  fail_if (not (str_eq name "fake")) unsupported_gateway
  payload ← parse_webhook gateway body signature
  fail_if (fails 0) db_error
  payment ← or_fail (find_payment_by_no payload.payment_no db.payments) payment_not_found
  fail_if (not (same_amount payment.amount_minor payload.amount_minor)) invalid_payment_amount
  fail_if (not (str_eq payment.currency payload.currency)) invalid_currency
  fail_if (not (str_eq payload.status "succeeded")) payment_not_successful
  fail_if (fails 1) db_error
  order ← or_fail (find_order payment.order_id db.orders) order_not_found
  ok (success_params payment order payload body)

-- The fulfilment that a first success starts in the background is not part of this step.
unfoldable pub run_checked :
    (ℕ → Bool) → (ℕ → ℕ) → ℕ → Result Error PaymentSuccessParams → Books → Result Error Bool × Books
unfolding process_payment_success
run_checked fails fresh now (err e) db = (err e, db)
run_checked fails fresh now (ok params) db = process_payment_success fails fresh now params db

unfoldable pub process_webhook :
    (ℕ → Bool)
    → (ℕ → Bool)
    → (ℕ → ℕ)
    → ℕ
    → Gateway
    → String
    → String
    → String
    → Books
    → Result Error Bool × Books
unfolding check_webhook run_checked
process_webhook reads_fail fails fresh now gateway name body signature db =
    run_checked fails fresh now (check_webhook reads_fail gateway name body signature db) db
