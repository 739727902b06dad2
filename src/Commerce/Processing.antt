-- ===== src/Commerce/Processing.antt =====
-- A payment is processed once, and processing succeeds when the database does.
use vps_billing_gemini.Prelude.{
  ℕ, ◌+◌, ◌∷◌, ◌≡◌, refl, subst, Bool, true, false, none, some, Result, ok, err, arith, ◌==◌,
}
use vps_billing_gemini.Prelude.Int.{pos, ◌≤ℤ◌, ltb_ℤ}
use vps_billing_gemini.Prelude.Table.{find_by, find_by-update_by_self}
use vps_billing_gemini.Commerce.Model.{
  Error, Payment, Order, OrderStatus, succeeded, is_succeeded, LedgerTransaction, LedgerEntry,
  OutboxEvent,
}
use vps_billing_gemini.Commerce.Store.{
  Books, find_payment, find_order, update_payment_status, set_payment_status, update_order_status,
  set_order_status, create_ledger_transaction, create_ledger_entry, create_outbox_event,
}
use vps_billing_gemini.Commerce.Ledger.{Posting, ledger_row, debit_entry, credit_entry, post}
use vps_billing_gemini.Commerce.Payments.{
  PaymentSuccessParams, process_payment_success, payment_posting, payment_event, process_steps,
  settle, mark_paid, mark_invoice, publish,
}
use vps_billing_gemini.Commerce.Settlement.{
  Settled, Ending, invoices_paid, process_payment_success-Ending,
}

paid_after :
    (fresh : ℕ → ℕ) (now : ℕ) (params : PaymentSuccessParams) (db after : Books)
    → Settled fresh now params db after
    → (p : Payment) × (find_payment params.payment_id after.payments ≡ some p)
      × (is_succeeded p.status ≡ true)
unfolding update_payment_status
paid_after fresh now params db after s =
    let p =
      set_payment_status now succeeded params.gateway_payment_id params.gateway_payload s.payment in
    (
      p,
      rw s.result (
          find_by-update_by_self Payment.id
            (set_payment_status now succeeded params.gateway_payment_id params.gateway_payload)
            (λ r. refl) params.payment_id db.payments s.payment s.payment_there),
      refl,
    )

not_again :
    (fresh : ℕ → ℕ) (now : ℕ) (params : PaymentSuccessParams) (db : Books) (p : Payment)
    (r : Result Error Bool) (after : Books)
    → find_payment params.payment_id db.payments ≡ some p
    → is_succeeded p.status ≡ true
    → Ending fresh now params db r after
    → after ≡ db
not_again fresh now params db p (err e) after there paid e' = e'
not_again fresh now params db p (ok true) after there paid e' = e'.0
not_again fresh now params db p (ok false) after there paid e' =
    absurd (ground (arith, e'.payment_there, e'.unpaid))

-- Once a call has processed a payment, no later call for that payment changes anything, whatever
-- its other parameters, its identifiers and the failures of the database are.
pub process_payment_success_once :
    (fails fails' : ℕ → Bool) (fresh fresh' : ℕ → ℕ) (now now' : ℕ)
    (params params' : PaymentSuccessParams) (db : Books)
    → (process_payment_success fails fresh now params db).0 ≡ ok false
    → params'.payment_id ≡ params.payment_id
    → let after = (process_payment_success fails fresh now params db).1 in
      (process_payment_success fails' fresh' now' params' after).1 ≡ after
process_payment_success_once fails fails' fresh fresh' now now' params params' db done same =
    let after = (process_payment_success fails fresh now params db).1 in
    let s : Settled fresh now params db after =
      subst (λ r. Ending fresh now params db r after) done
        (process_payment_success-Ending fails fresh now params db) in
    let (p, there, paid) = paid_after fresh now params db after s in
    let out = process_payment_success fails' fresh' now' params' after in
    not_again fresh' now' params' after p out.0 out.1 (rw same there) paid
      (process_payment_success-Ending fails' fresh' now' params' after)

-- The identifiers that uuid.New gives are not in use.
pub record IsFresh (fresh : ℕ → ℕ) (db : Books) : Type 0 where
  pub transaction : find_by LedgerTransaction.id (fresh 0) db.ledger_transactions ≡ none
  pub debit_id : find_by LedgerEntry.id (fresh 1) db.ledger_entries ≡ none
  pub credit_id : find_by LedgerEntry.id (fresh 2) db.ledger_entries ≡ none
  pub apart : (fresh 1 == fresh 2) ≡ false
  pub event : find_by OutboxEvent.id (fresh 3) db.outbox ≡ none

mark_paid_fine :
    (fails : ℕ → Bool) (now : ℕ) (params : PaymentSuccessParams) (db : Books) (o : Order)
    → ((k : ℕ) → fails k ≡ false)
    → find_order params.order_id db.orders ≡ some o
    → mark_paid fails now params db
      ≡ ok (record db {
        payments =
            update_payment_status now params.payment_id succeeded params.gateway_payment_id
              params.gateway_payload db.payments;
        orders = update_order_status now params.order_id OrderStatus.paid db.orders;
      })
unfolding mark_paid
mark_paid_fine fails now params db o fine there = ground (arith, fine 2, fine 3)

mark_invoice_fine :
    (fails : ℕ → Bool) (now order_id : ℕ) (db : Books)
    → ((k : ℕ) → fails k ≡ false)
    → mark_invoice fails now order_id db
      ≡ ok (record db { invoices = invoices_paid now order_id db.invoices })
unfolding mark_invoice
mark_invoice_fine fails now order_id db fine = ground (arith, fine 4, fine 5)

post_fine :
    (fails : ℕ → Bool) (first : ℕ) (fresh : ℕ → ℕ) (p : Posting) (db : Books)
    → ((k : ℕ) → fails k ≡ false)
    → IsFresh fresh db
    → pos 0 ≤ℤ p.amount_minor
    → post fails first fresh p db
      ≡ ok (record db {
        ledger_transactions = ledger_row fresh p ∷ db.ledger_transactions;
        ledger_entries = credit_entry fresh p ∷ debit_entry fresh p ∷ db.ledger_entries;
      })
unfolding post create_ledger_transaction create_ledger_entry
post_fine fails first fresh p db fine f nonneg =
    let enough : ltb_ℤ p.amount_minor (pos 0) ≡ false = ground arith in
    ground (
      arith,
      fine first,
      fine (first + 1),
      fine (first + 2),
      f.transaction,
      f.debit_id,
      f.apart,
      f.credit_id,
    )

publish_fine :
    (fails : ℕ → Bool) (event : OutboxEvent) (db : Books)
    → ((k : ℕ) → fails k ≡ false)
    → find_by OutboxEvent.id event.id db.outbox ≡ none
    → publish fails event db ≡ ok (record db { outbox = event ∷ db.outbox })
unfolding publish create_outbox_event
publish_fine fails event db fine unused = ground (arith, fine 9, fine 10)

settle_fine :
    (fails : ℕ → Bool) (fresh : ℕ → ℕ) (now : ℕ) (params : PaymentSuccessParams) (db : Books)
    (o : Order)
    → ((k : ℕ) → fails k ≡ false)
    → IsFresh fresh db
    → pos 0 ≤ℤ params.amount_minor
    → find_order params.order_id db.orders ≡ some o
    → (after : Books) × (settle fails fresh now params db ≡ ok (false, after))
unfolding settle
settle_fine fails fresh now params db o fine f nonneg there =
    let marked : Books = record db {
      payments =
          update_payment_status now params.payment_id succeeded params.gateway_payment_id
            params.gateway_payload db.payments;
      orders = update_order_status now params.order_id OrderStatus.paid db.orders;
    } in
    let invoiced : Books = record marked {
      invoices = invoices_paid now params.order_id db.invoices;
    } in
    let p = payment_posting params in
    let posted : Books = record invoiced {
      ledger_transactions = ledger_row fresh p ∷ db.ledger_transactions;
      ledger_entries = credit_entry fresh p ∷ debit_entry fresh p ∷ db.ledger_entries;
    } in
    let f' : IsFresh fresh invoiced = record {
      transaction = f.transaction;
      debit_id = f.debit_id;
      credit_id = f.credit_id;
      apart = f.apart;
      event = f.event;
    } in
    let h1 : mark_paid fails now params db ≡ ok marked =
      mark_paid_fine fails now params db o fine there in
    let h2 : mark_invoice fails now params.order_id marked ≡ ok invoiced =
      mark_invoice_fine fails now params.order_id marked fine in
    let h3 : post fails 6 fresh p invoiced ≡ ok posted =
      post_fine fails 6 fresh p invoiced fine f' nonneg in
    let h4 = publish_fine fails (payment_event fresh params) posted fine f.event in
    (
      record posted { outbox = payment_event fresh params ∷ db.outbox },
      ground (arith, h1, h2, h3, h4),
    )

processed :
    (fails : ℕ → Bool) (fresh : ℕ → ℕ) (now : ℕ) (params : PaymentSuccessParams) (db : Books)
    (p : Payment) (o : Order)
    → ((k : ℕ) → fails k ≡ false)
    → IsFresh fresh db
    → pos 0 ≤ℤ params.amount_minor
    → find_payment params.payment_id db.payments ≡ some p
    → is_succeeded p.status ≡ false
    → find_order params.order_id db.orders ≡ some o
    → (process_payment_success fails fresh now params db).0 ≡ ok false
unfolding process_payment_success process_steps
processed fails fresh now params db p o fine f nonneg there unpaid order_there =
    let (after, h) = settle_fine fails fresh now params db o fine f nonneg order_there in
    ground (arith, fine 0, fine 1)

order_paid :
    (fresh : ℕ → ℕ) (now : ℕ) (params : PaymentSuccessParams) (db after : Books) (o : Order)
    → Settled fresh now params db after
    → find_order params.order_id db.orders ≡ some o
    → find_order params.order_id after.orders
      ≡ some (record o { status = OrderStatus.paid; paid_at = some now })
unfolding update_order_status
order_paid fresh now params db after o s there = rw s.result (
    find_by-update_by_self Order.id (set_order_status now OrderStatus.paid) (λ r. refl)
      params.order_id db.orders o there)

-- When the database does not fail, the identifiers are fresh, the amount is not negative, the
-- payment has not succeeded and its order exists, the call succeeds and the order is paid, whatever
-- the status of the order was: also when it was cancelled.
pub process_payment_success_pays :
    (fails : ℕ → Bool) (fresh : ℕ → ℕ) (now : ℕ) (params : PaymentSuccessParams) (db : Books)
    (p : Payment) (o : Order)
    → ((k : ℕ) → fails k ≡ false)
    → IsFresh fresh db
    → pos 0 ≤ℤ params.amount_minor
    → find_payment params.payment_id db.payments ≡ some p
    → is_succeeded p.status ≡ false
    → find_order params.order_id db.orders ≡ some o
    → let out = process_payment_success fails fresh now params db in
      (out.0 ≡ ok false)
      × (find_order params.order_id out.1.orders
          ≡ some (record o { status = OrderStatus.paid; paid_at = some now }))
process_payment_success_pays fails fresh now params db p o fine f nonneg there unpaid order_there =
    let done = processed fails fresh now params db p o fine f nonneg there unpaid order_there in
    let after = (process_payment_success fails fresh now params db).1 in
    let s : Settled fresh now params db after =
      subst (λ r. Ending fresh now params db r after) done
        (process_payment_success-Ending fails fresh now params db) in
    (done, order_paid fresh now params db after o s order_there)
