-- ===== src/Commerce/Soundness/Depositing.antt =====
-- A deposit keeps the books sound, as long as the new balance fits in an int64.
use vps_billing_gemini.Prelude.{
  ℕ, ◌≡◌, refl, sym, ap, subst, ◌∙◌, inl, inr, String, Bool, ◌&&◌, List, ◌∷◌, some, ok, arith, ◌==◌,
  str_eq, Result-cases, Bool-cases, bind_inv,
}
use vps_billing_gemini.Prelude.Int.{ℤ, pos, ◌+ℤ◌, leb_ℤ, int64, IsInt64, int64_exact}
use vps_billing_gemini.Prelude.Table.{total_of}
use vps_billing_gemini.Commerce.Model.{Wallet, OutboxEvent}
use vps_billing_gemini.Commerce.Store.{
  Books, find_wallet, update_wallet_balance, create_outbox_event,
}
use vps_billing_gemini.Commerce.Ledger.{Posting, ledger_row, post}
use vps_billing_gemini.Commerce.Wallets.{
  wallet_row, pay_in, deposit_posting, deposit_steps, deposit_wallet, deposit, or_usd,
}
use vps_billing_gemini.Commerce.Posted.{post-Posted}
use vps_billing_gemini.Commerce.Soundness.{wallet_credit, IsSound, balance_of}
use vps_billing_gemini.Commerce.Soundness.Posting.{
  added, balanced-added, total_of-added_elsewhere, total_of-added_here,
}
use vps_billing_gemini.Commerce.Soundness.Opening.{
  find_wallet-owned, same_key, wallet_row-Opened, Opened-IsSound, balance_of-paid,
}

pay_in_inv :
    (fails : ℕ → Bool) (id : ℕ) (w w' : Wallet) (amount : ℤ) (db after : Books)
    → pay_in fails id w amount db ≡ ok (w', after)
    → after ≡ record db {
      wallets =
          update_wallet_balance w.user_id w.currency
            (int64 (w.available_balance_minor +ℤ amount))
            db.wallets;
      outbox = after.outbox;
    }
unfolding pay_in create_outbox_event
pay_in_inv fails id w w' amount db after h = ground arith

-- The ledger and the wallet, once the deposit of an amount is written to both.
abbrev paid_books : (ℕ → ℕ) → Posting → ℕ → String → ℤ → List OutboxEvent → Books → Books
paid_books fresh p user_id currency b events db = record db {
  wallets = update_wallet_balance user_id currency b db.wallets;
  ledger_transactions = ledger_row fresh p ∷ db.ledger_transactions;
  ledger_entries = added fresh p db.ledger_entries;
  outbox = events;
}

paid-funded :
    (fresh : ℕ → ℕ) (user_id wid : ℕ) (currency description : String) (amount : ℤ) (db : Books)
    (w : Wallet)
    → IsSound db
    → find_wallet user_id currency db.wallets ≡ some w
    → (u : ℕ) (c : String)
    → balance_of u c
        (update_wallet_balance user_id currency (w.available_balance_minor +ℤ amount) db.wallets)
      ≡ total_of
          (wallet_credit u c)
          (added fresh (deposit_posting wid user_id amount currency description) db.ledger_entries)
paid-funded fresh user_id wid currency description amount db w h there u c =
    let e =
      balance_of-paid user_id u currency c db.wallets w (w.available_balance_minor +ℤ amount)
        there in
    let p = deposit_posting wid user_id amount currency description in
    elim (Bool-cases (user_id == u && str_eq currency c)) [
      | inl ours ↦
          let (i, a) = same_key user_id u currency c ours in
          let k : balance_of u c db.wallets ≡ w.available_balance_minor =
            subst (λ x. balance_of u x db.wallets ≡ w.available_balance_minor) a
              (subst (λ x. balance_of x currency db.wallets ≡ w.available_balance_minor) i
                (ground arith)) in
          e
          ∙ rw ours refl
          ∙ ap (λ x. x +ℤ amount) (sym k ∙ h.funded u c)
          ∙ sym (total_of-added_here fresh p db.ledger_entries u c ours)
      | inr away ↦
          e
          ∙ rw away (h.funded u c)
          ∙ sym (total_of-added_elsewhere fresh p db.ledger_entries u c away)
    ]

paid-IsSound :
    (fresh : ℕ → ℕ) (user_id wid : ℕ) (currency description : String) (amount : ℤ)
    (events : List OutboxEvent) (db : Books) (w : Wallet)
    → IsSound db
    → find_wallet user_id currency db.wallets ≡ some w
    → IsSound (
        paid_books fresh
          (deposit_posting wid user_id amount currency description)
          user_id
          currency
          (w.available_balance_minor +ℤ amount)
          events
          db)
paid-IsSound fresh user_id wid currency description amount events db w h there = record {
  balanced = λ t c.
      balanced-added fresh (deposit_posting wid user_id amount currency description)
        db.ledger_entries t c (h.balanced t c);
  booked = λ id. omega (arith, h.booked id);
  funded = paid-funded fresh user_id wid currency description amount db w h there;
}

gathered :
    (fresh : ℕ → ℕ) (p : Posting) (u user_id : ℕ) (c currency : String) (b b' : ℤ)
    (opened posted after : Books)
    → posted ≡ record opened {
      ledger_transactions = ledger_row fresh p ∷ opened.ledger_transactions;
      ledger_entries = added fresh p opened.ledger_entries;
    }
    → after ≡ record posted {
      wallets = update_wallet_balance u c b posted.wallets;
      outbox = after.outbox;
    }
    → u ≡ user_id
    → c ≡ currency
    → b ≡ b'
    → after ≡ paid_books fresh p user_id currency b' after.outbox opened
gathered fresh p u user_id c currency b b' opened posted after h k i a e =
    k
    ∙ ap {A = Books}
        (λ x. record x { wallets = update_wallet_balance u c b x.wallets; outbox = after.outbox }) h
    ∙ rw (i, a, e) refl

deposit_steps-IsSound :
    (fails : ℕ → Bool) (fresh : ℕ → ℕ) (user_id : ℕ) (amount : ℤ) (currency description : String)
    (db after : Books) (w' : Wallet)
    → IsSound db
    → IsInt64 (balance_of user_id currency db.wallets +ℤ amount)
    → deposit_steps fails fresh user_id amount currency description db ≡ ok (w', after)
    → IsSound after
unfolding deposit_steps
deposit_steps-IsSound fails fresh user_id amount currency description db after w' h fits run =
    let ((w, opened), h1, k1) =
      bind_inv (wallet_row fails 1 (fresh 4) user_id currency db) _ _ run in
    let p = deposit_posting w.id user_id amount currency description in
    let (posted, h2, k2) = bind_inv (post fails 3 fresh p opened) _ _ k1 in
    let o = wallet_row-Opened fails 1 (fresh 4) user_id currency db opened w h1 in
    let (i, a) =
      same_key w.user_id user_id w.currency currency
        (find_wallet-owned user_id currency opened.wallets w o.there) in
    let e2 = (post-Posted fails 3 fresh p opened posted h2).result in
    let e3 = pay_in_inv fails (fresh 3) w w' amount posted after k2 in
    let exact : int64 (w.available_balance_minor +ℤ amount) ≡ w.available_balance_minor +ℤ amount =
      int64_exact _ (subst (λ x. IsInt64 (x +ℤ amount)) (sym o.before) fits) in
    let e : after
        ≡ paid_books fresh p user_id currency (w.available_balance_minor +ℤ amount) after.outbox
            opened =
      gathered fresh p w.user_id user_id w.currency currency _ _ opened posted after e2 e3 i a
        exact in
    subst IsSound (sym e) (
      paid-IsSound fresh user_id w.id currency description amount after.outbox opened w
        (Opened-IsSound user_id currency db opened w o h) o.there)

-- A deposit keeps the books sound, if the new balance is still an int64.
pub deposit-IsSound :
    (fails : ℕ → Bool) (fresh : ℕ → ℕ) (user_id : ℕ) (amount : ℤ) (currency : String) (db : Books)
    → IsSound db
    → IsInt64 (balance_of user_id (or_usd (or_usd currency)) db.wallets +ℤ amount)
    → IsSound (deposit fails fresh user_id amount currency db).1
unfolding deposit deposit_wallet
deposit-IsSound fails fresh user_id amount currency db h fits =
    elim (Bool-cases (leb_ℤ amount (pos 0))) [
      | inl refused ↦ rw refused h
      | inr positive ↦ rw positive (elim (Bool-cases (fails 0)) [
        | inl failed ↦ rw failed h
        | inr begun ↦
            rw begun
              (elim (Result-cases (
                deposit_steps fails fresh user_id amount (or_usd (or_usd currency))
                  "Wallet deposit via online payment" db)) [
                    | inl ((w, after), run) ↦ rw run (
                        deposit_steps-IsSound fails fresh user_id amount (or_usd (or_usd currency))
                          "Wallet deposit via online payment" db after w h fits run)
                    | inr (e, run) ↦ rw run h
                  ])
      ])
    ]
