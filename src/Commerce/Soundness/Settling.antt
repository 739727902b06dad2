-- ===== src/Commerce/Soundness/Settling.antt =====
-- A payment that is settled keeps the books sound.
use vps_billing_gemini.Prelude.{
  ℕ, ◌+◌, ◌≡◌, refl, sym, subst, ◌∙◌, String, Bool, true, false, List, some, ok, err, arith, ◌==◌,
  if◌then◌else◌, Result,
}
use vps_billing_gemini.Prelude.Table.{find_by-update_by}
use vps_billing_gemini.Commerce.Model.{Error, Payment, succeeded, is_succeeded}
use vps_billing_gemini.Commerce.Store.{
  Books, find_payment, update_payment_status, set_payment_status,
}
use vps_billing_gemini.Commerce.Payments.{
  PaymentSuccessParams, payment_posting, process_payment_success,
}
use vps_billing_gemini.Commerce.Settlement.{Settled, Ending, process_payment_success-Ending}
use vps_billing_gemini.Commerce.Soundness.{IsSound, bookings, due_bookings}
use vps_billing_gemini.Commerce.Soundness.Posting.{balanced-added, total_of-added_elsewhere}

booked-paid :
    (now id : ℕ) (gateway_id body : String) (payments : List Payment) (p : Payment) (j n : ℕ)
    → find_payment id payments ≡ some p
    → n ≡ due_bookings (find_payment j payments)
    → is_succeeded p.status ≡ false
    → (if id == j then 1 else 0) + n
      ≡ due_bookings
          (find_payment j (update_payment_status now id succeeded gateway_id body payments))
unfolding update_payment_status
booked-paid now id gateway_id body payments p j n there h unpaid = ground (
  arith,
  find_by-update_by Payment.id (set_payment_status now succeeded gateway_id body) (λ r. refl) j id
      payments,
)

Settled-IsSound :
    (fresh : ℕ → ℕ) (now : ℕ) (params : PaymentSuccessParams) (db after : Books)
    → Settled fresh now params db after
    → IsSound db
    → IsSound after
Settled-IsSound fresh now params db after s h = subst IsSound (sym s.result) (record {
  balanced = λ t currency.
      balanced-added fresh (payment_posting params) db.ledger_entries t currency
        (h.balanced t currency);
  booked = λ j.
      booked-paid now params.payment_id params.gateway_payment_id params.gateway_payload db.payments
        s.payment j (bookings j db.ledger_transactions) s.payment_there (h.booked j) s.unpaid;
  funded = λ user_id currency.
      h.funded user_id currency
      ∙ sym (
          total_of-added_elsewhere fresh (payment_posting params) db.ledger_entries user_id currency
            refl);
})

Ending-IsSound :
    (fresh : ℕ → ℕ) (now : ℕ) (params : PaymentSuccessParams) (db : Books) (r : Result Error Bool)
    (after : Books)
    → Ending fresh now params db r after
    → IsSound db
    → IsSound after
Ending-IsSound fresh now params db (err e) after same h = subst IsSound (sym same) h
Ending-IsSound fresh now params db (ok true) after same h = subst IsSound (sym same.0) h
Ending-IsSound fresh now params db (ok false) after s h =
    Settled-IsSound fresh now params db after s h

pub process_payment_success-IsSound :
    (fails : ℕ → Bool) (fresh : ℕ → ℕ) (now : ℕ) (params : PaymentSuccessParams) (db : Books)
    → IsSound db
    → IsSound (process_payment_success fails fresh now params db).1
process_payment_success-IsSound fails fresh now params db h =
    let out = process_payment_success fails fresh now params db in
    Ending-IsSound fresh now params db out.0 out.1
      (process_payment_success-Ending fails fresh now params db) h
