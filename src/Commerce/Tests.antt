-- ===== src/Commerce/Tests.antt =====
-- Runs of the commerce services on a small database, and the theorems at such inputs.
use vps_billing_gemini.Prelude.{
  ℕ, ◌+◌, ◌≡◌, refl, Bool, false, List, [], ◌∷◌, some, none, ok, arith, length,
}
use vps_billing_gemini.Prelude.Int.{pos, ◌+ℤ◌, ◌*ℤ◌, int64, int32, IsInt64}
use vps_billing_gemini.Commerce.Model.{
  Order, OrderStatus, Payment, PaymentStatus, Invoice, InvoiceStatus, Plan,
}
use vps_billing_gemini.Commerce.Store.{
  Books, create_ledger_transaction, create_ledger_entry, create_outbox_event, create_wallet,
  update_wallet_balance, find_order, create_order_row, create_order_item, create_invoice,
  create_invoice_item,
}
use vps_billing_gemini.Commerce.Ledger.{post}
use vps_billing_gemini.Commerce.Payments.{PaymentSuccessParams, process_payment_success}
use vps_billing_gemini.Commerce.Wallets.{deposit, or_usd}
use vps_billing_gemini.Commerce.Checkout.{Gateway, process_webhook}
use vps_billing_gemini.Commerce.Orders.{
  Surroundings, CreateOrderItemInput, draft_item, create_order,
}
use vps_billing_gemini.Commerce.Sales.{Sold, create_order-Sold}
use vps_billing_gemini.Commerce.Settlement.{Ending, process_payment_success-Ending}
use vps_billing_gemini.Commerce.Processing.{
  IsFresh, process_payment_success_once, process_payment_success_pays,
}
use vps_billing_gemini.Commerce.Soundness.{IsSound, balance_of}
use vps_billing_gemini.Commerce.Soundness.History.{
  here, next, notified, deposited, Books-Reach-IsSound,
}

abbrev fine : ℕ → Bool
fine k = false

abbrev ids : ℕ → ℕ
ids k = 1000 + k

abbrev later_ids : ℕ → ℕ
later_ids k = 2000 + k

abbrev ordered : Order
ordered = record {
  id = 10;
  order_no = "ORD-10";
  user_id = 5;
  status = OrderStatus.cancelled;
  subtotal_minor = pos 1500;
  discount_minor = pos 0;
  total_minor = pos 1500;
  currency = "USD";
  paid_at = none;
}

abbrev charge : Payment
charge = record {
  id = 20;
  payment_no = "PAY-20";
  order_id = 10;
  gateway = "fake";
  gateway_payment_id = none;
  status = PaymentStatus.pending;
  amount_minor = pos 1500;
  currency = "USD";
  idempotency_key = "order_10_gw_fake";
  gateway_payload = "{}";
  paid_at = none;
}

abbrev bill : Invoice
bill = record {
  id = 30;
  invoice_no = "INV-30";
  user_id = 5;
  subscription_id = none;
  order_id = some 10;
  status = InvoiceStatus.pending;
  amount_minor = pos 1500;
  currency = "USD";
  due_at = some 86400;
  paid_at = none;
}

abbrev books : Books
books = record {
  products = [];
  plans = [];
  orders = ordered ∷ [];
  order_items = [];
  payments = charge ∷ [];
  invoices = bill ∷ [];
  invoice_items = [];
  wallets = [];
  ledger_transactions = [];
  ledger_entries = [];
  outbox = [];
}

abbrev params : PaymentSuccessParams
params = record {
  payment_id = 20;
  gateway_payment_id = "fake_gw_tx_1";
  gateway_payload = "body";
  payment_no = "PAY-20";
  order_id = 10;
  amount_minor = pos 1500;
  currency = "USD";
  user_id = 5;
}

-- A gateway whose signature is the body itself.
abbrev gateway : Gateway
gateway = record {
  generate_signature = λ body. body;
  decode = λ body. some (record {
    payment_no = "PAY-20";
    gateway_payment_id = "fake_gw_tx_1";
    order_id = "10";
    amount_minor = pos 1500;
    currency = "USD";
    status = "succeeded";
    timestamp = pos 1;
  });
}

abbrev notified_books : Books
notified_books = (process_webhook fine fine ids 7 gateway "fake" "body" "body" books).1

abbrev funded_books : Books
funded_books = (deposit fine later_ids 5 (pos 2500) "" notified_books).1

webhook_accepted : (process_webhook fine fine ids 7 gateway "fake" "body" "body" books).0 ≡ ok false
unfolding process_webhook create_ledger_transaction create_ledger_entry create_outbox_event
webhook_accepted = refl

entries_written : length funded_books.ledger_entries ≡ 4
unfolding process_webhook deposit create_ledger_transaction create_ledger_entry create_outbox_event
    create_wallet post ◌+ℤ◌ int64
entries_written = refl

balance_written : balance_of 5 "USD" funded_books.wallets ≡ pos 2500
unfolding process_webhook deposit create_ledger_transaction create_ledger_entry create_outbox_event
    create_wallet update_wallet_balance post ◌+ℤ◌ int64
balance_written = refl

books-IsSound : IsSound books
books-IsSound = record { balanced = λ t c. refl; booked = λ id. ground arith; funded = λ u c. refl }

room : IsInt64 (balance_of 5 (or_usd (or_usd "")) notified_books.wallets +ℤ pos 2500)
unfolding process_webhook create_ledger_transaction create_ledger_entry create_outbox_event ◌+ℤ◌
room = omega arith

Books-Reach-IsSound_example : IsSound funded_books
Books-Reach-IsSound_example =
    Books-Reach-IsSound books
      (next (next here (notified fine fine ids 7 gateway "fake" "body" "body"))
        (deposited fine later_ids 5 (pos 2500) "" room))
      books-IsSound

process_payment_success-Ending_example :
    Ending ids 7 params books
      (process_payment_success fine ids 7 params books).0
      (process_payment_success fine ids 7 params books).1
process_payment_success-Ending_example = process_payment_success-Ending fine ids 7 params books

paid_once : (process_payment_success fine ids 7 params books).0 ≡ ok false
unfolding process_payment_success create_ledger_transaction create_ledger_entry create_outbox_event
    post
paid_once = refl

process_payment_success_once_example :
    (process_payment_success fine later_ids 9 params
      (process_payment_success fine ids 7 params books).1).1
    ≡ (process_payment_success fine ids 7 params books).1
process_payment_success_once_example =
    process_payment_success_once fine fine ids later_ids 7 9 params params books paid_once refl

books-IsFresh : IsFresh ids books
books-IsFresh = record {
  transaction = refl;
  debit_id = refl;
  credit_id = refl;
  apart = refl;
  event = refl;
}

process_payment_success_pays_example :
    ((process_payment_success fine ids 7 params books).0 ≡ ok false)
    × (find_order 10 (process_payment_success fine ids 7 params books).1.orders
        ≡ some (record ordered { status = OrderStatus.paid; paid_at = some 7 }))
process_payment_success_pays_example =
    process_payment_success_pays fine ids 7 params books charge ordered (λ k. refl) books-IsFresh
      (omega arith) refl refl refl

abbrev basic : Plan
basic = record {
  id = 50;
  product_id = 60;
  slug = "basic";
  status = "active";
  billing_cycle = "monthly";
  price_minor = pos 500;
  currency = "USD";
}

abbrev shop : Books
shop = record books {
  plans = basic ∷ [];
  products = record { id = 60; slug = "vps"; status = "active" } ∷ [];
}

abbrev surroundings : Surroundings
surroundings = record {
  order_id = 11;
  order_no = "ORD-11";
  invoice_id = 31;
  invoice_no = "INV-31";
  invoice_item_id = 41;
  item_id = λ k. 70 + k;
  product_json = λ p. p.slug;
  plan_json = λ p. p.slug;
  description_json = λ order_no. order_no;
  due_at = 86400;
}

abbrev asked : List CreateOrderItemInput
asked = record { plan_id = 50; quantity = pos 2 } ∷ record { plan_id = 50; quantity = pos 1 } ∷ []

abbrev sold : Order
sold = record ordered { id = 11; order_no = "ORD-11"; status = OrderStatus.pending }

order_placed : (create_order fine fine surroundings 5 asked shop).0 ≡ ok sold
unfolding create_order create_order_row create_order_item create_invoice create_invoice_item ◌+ℤ◌
    ◌*ℤ◌ int64 int32 draft_item
order_placed = refl

create_order-Sold_example :
    Sold shop asked sold (create_order fine fine surroundings 5 asked shop).1
create_order-Sold_example =
    create_order-Sold fine fine surroundings 5 asked shop sold (omega arith, tt) order_placed
