-- ===== src/Commerce/Settlement.antt =====
-- What ProcessPaymentSuccessTx does on every branch.
use vps_billing_gemini.Prelude.{
  ℕ, ◌≡◌, refl, sym, ap, subst, ◌∙◌, inl, inr, Bool, true, false, List, ◌∷◌, none, some, Result, ok,
  err, arith, bind_inv, Result-cases, Bool-cases, Option-cases,
}
use vps_billing_gemini.Prelude.Int.{pos, ◌≤ℤ◌}
use vps_billing_gemini.Prelude.Table.{find_by}
use vps_billing_gemini.Commerce.Model.{
  Error, Payment, Order, Invoice, LedgerTransaction, OutboxEvent, succeeded, is_succeeded,
  OrderStatus, InvoiceStatus,
}
use vps_billing_gemini.Commerce.Store.{
  Books, find_payment, find_order, find_invoice_by_order, update_payment_status,
  update_order_status, update_invoice_status, create_outbox_event,
}
use vps_billing_gemini.Commerce.Ledger.{ledger_row, debit_entry, credit_entry, post}
use vps_billing_gemini.Commerce.Payments.{
  PaymentSuccessParams, payment_posting, payment_event, mark_paid, mark_invoice, publish, settle,
  process_steps, process_payment_success,
}
use vps_billing_gemini.Commerce.Posted.{post-Posted}

-- The invoices once the order's invoice, if there is one, is paid.
abbrev pub invoices_paid : ℕ → ℕ → List Invoice → List Invoice
invoices_paid now order_id invoices = elim (find_invoice_by_order order_id invoices) [
  | none ↦ invoices
  | some inv ↦ update_invoice_status now inv.id InvoiceStatus.paid invoices
]

-- Everything that one success writes, and that nothing else is written.
pub record Settled (fresh : ℕ → ℕ) (now : ℕ) (params : PaymentSuccessParams) (db after : Books)
    : Type 0 where
  pub payment : Payment
  pub payment_there : find_payment params.payment_id db.payments ≡ some payment
  pub unpaid : is_succeeded payment.status ≡ false
  pub order : Order
  pub order_there : find_order params.order_id db.orders ≡ some order
  pub unused : find_by LedgerTransaction.id (fresh 0) db.ledger_transactions ≡ none
  pub nonneg : pos 0 ≤ℤ params.amount_minor
  pub result : after ≡ record db {
    payments =
        update_payment_status now params.payment_id succeeded params.gateway_payment_id
          params.gateway_payload db.payments;
    orders = update_order_status now params.order_id OrderStatus.paid db.orders;
    invoices = invoices_paid now params.order_id db.invoices;
    ledger_transactions = ledger_row fresh (payment_posting params) ∷ db.ledger_transactions;
    ledger_entries =
        credit_entry fresh (payment_posting params)
        ∷ debit_entry fresh (payment_posting params)
        ∷ db.ledger_entries;
    outbox = payment_event fresh params ∷ db.outbox;
  }

mark_paid_inv :
    (fails : ℕ → Bool) (now : ℕ) (params : PaymentSuccessParams) (db marked : Books)
    → mark_paid fails now params db ≡ ok marked
    → (o : Order) × (find_order params.order_id db.orders ≡ some o)
      × (marked ≡ record db {
        payments =
            update_payment_status now params.payment_id succeeded params.gateway_payment_id
              params.gateway_payload db.payments;
        orders = update_order_status now params.order_id OrderStatus.paid db.orders;
      })
unfolding mark_paid
mark_paid_inv fails now params db marked h =
    elim (Option-cases (find_order params.order_id db.orders)) [
      | inl absent ↦ absurd (ground arith)
      | inr (o, there) ↦ (o, there, ground arith)
    ]

mark_invoice_inv :
    (fails : ℕ → Bool) (now order_id : ℕ) (db invoiced : Books)
    → mark_invoice fails now order_id db ≡ ok invoiced
    → invoiced ≡ record db { invoices = invoices_paid now order_id db.invoices }
unfolding mark_invoice
mark_invoice_inv fails now order_id db invoiced h = ground arith

publish_inv :
    (fails : ℕ → Bool) (event : OutboxEvent) (db published : Books)
    → publish fails event db ≡ ok published
    → published ≡ record db { outbox = event ∷ db.outbox }
unfolding publish create_outbox_event
publish_inv fails event db published h = ground arith

settle_inv :
    (fails : ℕ → Bool) (fresh : ℕ → ℕ) (now : ℕ) (params : PaymentSuccessParams) (db after : Books)
    (row : Payment) (b : Bool)
    → find_payment params.payment_id db.payments ≡ some row
    → is_succeeded row.status ≡ false
    → settle fails fresh now params db ≡ ok (b, after)
    → (b ≡ false) × Settled fresh now params db after
unfolding settle
settle_inv fails fresh now params db after row b there unpaid h =
    let (marked, h1, k1) = bind_inv (mark_paid fails now params db) _ _ h in
    let (invoiced, h2, k2) = bind_inv (mark_invoice fails now params.order_id marked) _ _ k1 in
    let (posted, h3, k3) = bind_inv (post fails 6 fresh (payment_posting params) invoiced) _ _ k2 in
    let (published, h4, k4) = bind_inv (publish fails (payment_event fresh params) posted) _ _ k3 in
    let (o, order_there, e1) = mark_paid_inv fails now params db marked h1 in
    let e2 = mark_invoice_inv fails now params.order_id marked invoiced h2 in
    let e3 = post-Posted fails 6 fresh (payment_posting params) invoiced posted h3 in
    let e4 = publish_inv fails (payment_event fresh params) posted published h4 in
    let before =
      e2
      ∙ ap {A = Books} (λ x. record x { invoices = invoices_paid now params.order_id x.invoices })
          e1 in
    let last : published ≡ after = cc in
    (
      cc,
      record {
        payment = row;
        payment_there = there;
        unpaid = unpaid;
        order = o;
        order_there = order_there;
        unused =
            subst (λ x. find_by LedgerTransaction.id (fresh 0) x.ledger_transactions ≡ none) before
              e3.unused;
        nonneg = e3.nonneg;
        result =
            sym last
            ∙ e4
            ∙ ap {A = Books} (λ x. record x { outbox = payment_event fresh params ∷ x.outbox })
                (e3.result
                  ∙ ap {A = Books}
                      (λ x. record x {
                        ledger_transactions =
                            ledger_row fresh (payment_posting params) ∷ x.ledger_transactions;
                        ledger_entries =
                            credit_entry fresh (payment_posting params)
                            ∷ debit_entry fresh (payment_posting params)
                            ∷ x.ledger_entries;
                      })
                      before);
      },
    )

-- The three ends of the transaction: an error leaves the database alone; `true` says that the
-- payment had succeeded before and also leaves it alone; `false` has written everything.
abbrev pub Ending : (ℕ → ℕ) → ℕ → PaymentSuccessParams → Books → Result Error Bool → Books → Type 0
Ending fresh now params db (err e) after = after ≡ db
Ending fresh now params db (ok true) after =
    (after ≡ db)
    × ((p : Payment) × (find_payment params.payment_id db.payments ≡ some p)
        × (is_succeeded p.status ≡ true))
Ending fresh now params db (ok false) after = Settled fresh now params db after

steps-Ending :
    (fails : ℕ → Bool) (fresh : ℕ → ℕ) (now : ℕ) (params : PaymentSuccessParams) (db after : Books)
    (b : Bool)
    → process_steps fails fresh now params db ≡ ok (b, after)
    → Ending fresh now params db (ok b) after
unfolding process_steps
steps-Ending fails fresh now params db after b h =
    elim (Option-cases (find_payment params.payment_id db.payments)) [
      | inl absent ↦ absurd (ground arith)
      | inr (row, there) ↦ elim (Bool-cases (is_succeeded row.status)) [
        | inl done ↦
            let e : b ≡ true = ground arith in
            subst (λ x. Ending fresh now params db (ok x) after) (sym e)
              (ground arith, (row, there, done))
        | inr unpaid ↦
            let k : settle fails fresh now params db ≡ ok (b, after) = ground arith in
            let (e, s) = settle_inv fails fresh now params db after row b there unpaid k in
            subst (λ x. Ending fresh now params db (ok x) after) (sym e) s
      ]
    ]

-- A call of ProcessPaymentSuccessTx has one of three ends. With an error, nothing is written. If it
-- reports the payment as processed already, the payment had succeeded and nothing is written.
-- Otherwise the payment had not succeeded, and exactly this is written: payment, order and the
-- order's invoice are paid, one ledger transaction with one debit and one credit of the amount is
-- added, and one event.
pub process_payment_success-Ending :
    (fails : ℕ → Bool) (fresh : ℕ → ℕ) (now : ℕ) (params : PaymentSuccessParams) (db : Books)
    → let out = process_payment_success fails fresh now params db in
      Ending fresh now params db out.0 out.1
unfolding process_payment_success
process_payment_success-Ending fails fresh now params db =
    elim (Result-cases (process_steps fails fresh now params db)) [
      | inl ((b, after), h) ↦ rw h (steps-Ending fails fresh now params db after b h)
      | inr (e, h) ↦ rw h refl
    ]
