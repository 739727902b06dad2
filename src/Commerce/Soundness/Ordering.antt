-- ===== src/Commerce/Soundness/Ordering.antt =====
-- The operations on orders leave the payments, the wallets and the ledger alone, and a payment that
-- is initiated is not yet booked.
use vps_billing_gemini.Prelude.{
  ℕ, ◌≡◌, refl, sym, subst, ◌∙◌, inl, inr, String, Bool, List, [], ◌∷◌, none, some, ok, err, Result,
  arith, Bool-cases, Option-cases, bind_inv, transact_keeps, ◌==◌, ==_iff, if◌then◌else◌,
}
use vps_billing_gemini.Commerce.Model.{Error, Order, OrderItem, Invoice, InvoiceItem, Payment}
use vps_billing_gemini.Commerce.Store.{
  Books, find_order, find_payment, find_payment_by_key, create_payment,
}
use vps_billing_gemini.Commerce.Orders.{
  Surroundings, CreateOrderItemInput, Draft, order_steps, create_order_with_items, save_draft,
  draft_items, drafted_order, drafted_invoice, drafted_invoice_item, cancel_steps, empty_draft,
  create_order, get_order, write_status, cancel_order,
}
use vps_billing_gemini.Commerce.Checkout.{
  record_payment, initiate_steps, initiate_payment, new_payment,
}
use vps_billing_gemini.Commerce.Soundness.{IsSound, due_bookings}

-- The four tables of money are the same.
pub record SameMoney (db after : Books) : Type 0 where
  pub payments : after.payments ≡ db.payments
  pub wallets : after.wallets ≡ db.wallets
  pub transactions : after.ledger_transactions ≡ db.ledger_transactions
  pub entries : after.ledger_entries ≡ db.ledger_entries

SameMoney-IsSound : (db after : Books) → SameMoney db after → IsSound db → IsSound after
SameMoney-IsSound db after s h = record {
  balanced = λ t c. rw s.entries (h.balanced t c);
  booked = λ id. rw (s.transactions, s.payments) (h.booked id);
  funded = λ u c. rw (s.wallets, s.entries) (h.funded u c);
}

order_steps-SameMoney :
    (fails : ℕ → Bool) (order o : Order) (items : List OrderItem) (invoice : Invoice)
    (detail : InvoiceItem) (db after : Books)
    → order_steps fails order items invoice detail db ≡ ok (o, after)
    → SameMoney db after
unfolding order_steps
order_steps-SameMoney fails order o items invoice detail db after h = record {
  payments = ground arith;
  wallets = ground arith;
  transactions = ground arith;
  entries = ground arith;
}

saved-IsSound :
    (fails : ℕ → Bool) (env : Surroundings) (user_id : ℕ) (draft : Result Error Draft) (db : Books)
    → IsSound db
    → IsSound (save_draft fails env user_id draft db).1
unfolding save_draft create_order_with_items drafted_order drafted_invoice drafted_invoice_item
saved-IsSound fails env user_id (err e) db h = h
saved-IsSound fails env user_id (ok draft) db h =
    let order = drafted_order env user_id draft in
    let invoice = drafted_invoice env user_id draft in
    let detail = drafted_invoice_item env draft in
    transact_keeps IsSound db (order_steps fails order draft.order_items invoice detail db) h
      (λ o after run.
        SameMoney-IsSound db after
          (order_steps-SameMoney fails order o draft.order_items invoice detail db after run) h)

pub create_order-IsSound :
    (reads_fail fails : ℕ → Bool) (env : Surroundings) (user_id : ℕ)
    (inputs : List CreateOrderItemInput) (db : Books)
    → IsSound db
    → IsSound (create_order reads_fail fails env user_id inputs db).1
unfolding create_order
create_order-IsSound reads_fail fails env user_id [] db h = h
create_order-IsSound reads_fail fails env user_id (input ∷ inputs) db h =
    saved-IsSound fails env user_id (draft_items reads_fail env db 0 (input ∷ inputs) empty_draft)
      db h

cancel_steps-SameMoney :
    (fails : ℕ → Bool) (now user_id order_id : ℕ) (db after : Books) (o : Order)
    → cancel_steps fails now user_id order_id db ≡ ok (o, after)
    → SameMoney db after
unfolding cancel_steps get_order write_status
cancel_steps-SameMoney fails now user_id order_id db after o h =
    let (order, h1, k1) = bind_inv (get_order fails user_id order_id db) _ _ h in
    record {
      payments = ground arith;
      wallets = ground arith;
      transactions = ground arith;
      entries = ground arith;
    }

pub cancel_order-IsSound :
    (fails : ℕ → Bool) (now user_id order_id : ℕ) (db : Books)
    → IsSound db
    → IsSound (cancel_order fails now user_id order_id db).1
unfolding cancel_order
cancel_order-IsSound fails now user_id order_id db h =
    transact_keeps IsSound db (cancel_steps fails now user_id order_id db) h (λ o after run.
      SameMoney-IsSound db after (cancel_steps-SameMoney fails now user_id order_id db after o run)
        h)

find_payment-new :
    (p : Payment) (payments rows : List Payment)
    → create_payment p payments ≡ some rows
    → (find_payment p.id payments ≡ none) × (rows ≡ p ∷ payments)
unfolding create_payment
find_payment-new p payments rows h = (ground arith, ground arith)

due_bookings-new :
    (p : Payment) (payments rows : List Payment) (id : ℕ)
    → due_bookings (some p) ≡ 0
    → create_payment p payments ≡ some rows
    → due_bookings (find_payment id rows) ≡ due_bookings (find_payment id payments)
due_bookings-new p payments rows id unpaid h =
    let (absent, e) = find_payment-new p payments rows h in
    rw e (elim (Bool-cases (p.id == id)) [
      | inl ours ↦
          let gone : find_payment id payments ≡ none =
            subst (λ x. find_payment x payments ≡ none) ((==_iff p.id id).0 ours) absent in
          ground arith
      | inr other ↦ ground arith
    ])

with_payment-IsSound :
    (p : Payment) (rows : List Payment) (db : Books)
    → due_bookings (some p) ≡ 0
    → create_payment p db.payments ≡ some rows
    → IsSound db
    → IsSound (record db { payments = rows })
with_payment-IsSound p rows db unpaid new h = record {
  balanced = h.balanced;
  booked = λ id. h.booked id ∙ sym (due_bookings-new p db.payments rows id unpaid new);
  funded = h.funded;
}

record_payment-IsSound :
    (fails : ℕ → Bool) (key : String) (id : ℕ) (payment_no gateway : String) (order : Order)
    (db after : Books) (p : Payment)
    → record_payment fails key id payment_no gateway order db ≡ ok (p, after)
    → IsSound db
    → IsSound after
unfolding record_payment
record_payment-IsSound fails key id payment_no gateway order db after p run h =
    elim (Option-cases (if fails 1 then none else find_payment_by_key key db.payments)) [
      | inl absent ↦
          let q = new_payment id payment_no gateway key order in
          elim (Option-cases (create_payment q db.payments)) [
            | inl clash ↦ absurd (ground arith)
            | inr (rows, new) ↦
                let e : record db { payments = rows } ≡ after = ground arith in
                subst IsSound e (with_payment-IsSound q rows db refl new h)
          ]
      | inr (existing, there) ↦ subst IsSound (let e : db ≡ after = ground arith in e) h
    ]

initiate_steps_inv :
    (fails : ℕ → Bool) (key_of : ℕ → String → String) (id : ℕ) (payment_no : String) (order_id : ℕ)
    (gateway : String) (db after : Books) (p : Payment)
    → initiate_steps fails key_of id payment_no order_id gateway db ≡ ok (p, after)
    → (o : Order) × (record_payment fails (key_of o.id gateway) id payment_no gateway o db
        ≡ ok (p, after))
unfolding initiate_steps
initiate_steps_inv fails key_of id payment_no order_id gateway db after p run =
    elim (Option-cases (find_order order_id db.orders)) [
      | inl absent ↦ absurd (ground arith)
      | inr (o, there) ↦ (o, ground arith)
    ]

pub initiate_payment-IsSound :
    (fails : ℕ → Bool) (key_of : ℕ → String → String) (id : ℕ) (payment_no : String) (order_id : ℕ)
    (gateway : String) (db : Books)
    → IsSound db
    → IsSound (initiate_payment fails key_of id payment_no order_id gateway db).1
unfolding initiate_payment
initiate_payment-IsSound fails key_of id payment_no order_id gateway db h =
    transact_keeps IsSound db (initiate_steps fails key_of id payment_no order_id gateway db) h
      (λ p after run.
        let (o, k) =
          initiate_steps_inv fails key_of id payment_no order_id gateway db after p run in
        record_payment-IsSound fails (key_of o.id gateway) id payment_no gateway o db after p k h)
