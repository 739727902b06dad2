-- ===== src/Commerce/Soundness/History.antt =====
-- The operations of the commerce services one after the other, with any failures of the database.
use vps_billing_gemini.Prelude.{ℕ, String, Bool, List, Result, ok, err}
use vps_billing_gemini.Prelude.Int.{ℤ, ◌+ℤ◌, IsInt64}
use vps_billing_gemini.Commerce.Model.{Error}
use vps_billing_gemini.Commerce.Store.{Books}
use vps_billing_gemini.Commerce.Payments.{PaymentSuccessParams}
use vps_billing_gemini.Commerce.Wallets.{deposit, get_user_wallet, or_usd}
use vps_billing_gemini.Commerce.Orders.{
  Surroundings, CreateOrderItemInput, create_order, cancel_order,
}
use vps_billing_gemini.Commerce.Checkout.{
  Gateway, initiate_payment, check_webhook, run_checked, process_webhook,
}
use vps_billing_gemini.Commerce.Soundness.{IsSound, balance_of}
use vps_billing_gemini.Commerce.Soundness.Settling.{process_payment_success-IsSound}
use vps_billing_gemini.Commerce.Soundness.Opening.{get_user_wallet-IsSound}
use vps_billing_gemini.Commerce.Soundness.Depositing.{deposit-IsSound}
use vps_billing_gemini.Commerce.Soundness.Ordering.{
  create_order-IsSound, cancel_order-IsSound, initiate_payment-IsSound,
}

-- One operation, whatever it returns. A deposit keeps its wallet within an int64.
pub data Step (db : Books) : Books → Type 0 where
  ordered :
      (reads_fail fails : ℕ → Bool) (env : Surroundings) (user_id : ℕ)
      (inputs : List CreateOrderItemInput)
      → Step db (create_order reads_fail fails env user_id inputs db).1
  cancelled :
      (fails : ℕ → Bool) (now user_id order_id : ℕ)
      → Step db (cancel_order fails now user_id order_id db).1
  initiated :
      (fails : ℕ → Bool) (key_of : ℕ → String → String) (id : ℕ) (payment_no : String)
      (order_id : ℕ) (gateway : String)
      → Step db (initiate_payment fails key_of id payment_no order_id gateway db).1
  notified :
      (reads_fail fails : ℕ → Bool) (fresh : ℕ → ℕ) (now : ℕ) (gateway : Gateway)
      (name body signature : String)
      → Step db (process_webhook reads_fail fails fresh now gateway name body signature db).1
  looked_up :
      (fails : ℕ → Bool) (id user_id : ℕ) (currency : String)
      → Step db (get_user_wallet fails id user_id currency db).1
  deposited :
      (fails : ℕ → Bool) (fresh : ℕ → ℕ) (user_id : ℕ) (amount : ℤ) (currency : String)
      → IsInt64 (balance_of user_id (or_usd (or_usd currency)) db.wallets +ℤ amount)
      → Step db (deposit fails fresh user_id amount currency db).1

pub data Reach (db : Books) : Books → Type 0 where
  here : Reach db db
  next : {mid after : Books} → Reach db mid → Step mid after → Reach db after

run_checked-IsSound :
    (fails : ℕ → Bool) (fresh : ℕ → ℕ) (now : ℕ) (params : Result Error PaymentSuccessParams)
    (db : Books)
    → IsSound db
    → IsSound (run_checked fails fresh now params db).1
unfolding run_checked
run_checked-IsSound fails fresh now (err e) db h = h
run_checked-IsSound fails fresh now (ok params) db h =
    process_payment_success-IsSound fails fresh now params db h

process_webhook-IsSound :
    (reads_fail fails : ℕ → Bool) (fresh : ℕ → ℕ) (now : ℕ) (gateway : Gateway)
    (name body signature : String) (db : Books)
    → IsSound db
    → IsSound (process_webhook reads_fail fails fresh now gateway name body signature db).1
unfolding process_webhook
process_webhook-IsSound reads_fail fails fresh now gateway name body signature db h =
    run_checked-IsSound fails fresh now (check_webhook reads_fail gateway name body signature db) db
      h

Step-IsSound : (db : Books) {after : Books} → Step db after → IsSound db → IsSound after
Step-IsSound db (ordered reads_fail fails env user_id inputs) h =
    create_order-IsSound reads_fail fails env user_id inputs db h
Step-IsSound db (cancelled fails now user_id order_id) h =
    cancel_order-IsSound fails now user_id order_id db h
Step-IsSound db (initiated fails key_of id payment_no order_id gateway) h =
    initiate_payment-IsSound fails key_of id payment_no order_id gateway db h
Step-IsSound db (notified reads_fail fails fresh now gateway name body signature) h =
    process_webhook-IsSound reads_fail fails fresh now gateway name body signature db h
Step-IsSound db (looked_up fails id user_id currency) h =
    get_user_wallet-IsSound fails id user_id currency db h
Step-IsSound db (deposited fails fresh user_id amount currency fits) h =
    deposit-IsSound fails fresh user_id amount currency db h fits

-- After any orders, cancellations, payments, webhooks and deposits that run one after the other,
-- with any failures of the database among them, the books are sound: debits equal credits in every
-- ledger transaction and currency, a payment is booked exactly once if it has succeeded and
-- otherwise not at all, and every wallet holds the sum of what the ledger credited to it. The
-- deposits keep each wallet within an int64.
pub Books-Reach-IsSound : (db : Books) {after : Books} → Reach db after → IsSound db → IsSound after
Books-Reach-IsSound db here h = h
Books-Reach-IsSound db (next {mid = m} r s) h = Step-IsSound m s (Books-Reach-IsSound db r h)
