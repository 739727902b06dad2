-- ===== src/Commerce/Soundness/Opening.antt =====
-- The wallet that a deposit finds or makes, and the balances after it is written.
use vps_billing_gemini.Prelude.{
  ℕ, ◌≡◌, refl, sym, subst, ◌∙◌, inl, inr, String, Bool, true, false, ◌&&◌, List, [], ◌∷◌, none,
  some, ok, arith, ◌==◌, ==-refl, str_eq, eq_iff, if◌then◌else◌, Result-cases, Bool-cases,
  Option-cases,
}
use vps_billing_gemini.Prelude.Int.{ℤ}
use vps_billing_gemini.Commerce.Model.{Wallet}
use vps_billing_gemini.Commerce.Store.{
  Books, owned_in, find_wallet, set_balance, create_wallet, update_wallet_balance,
}
use vps_billing_gemini.Commerce.Wallets.{
  empty_wallet, wallet_row, get_or_create_wallet, get_user_wallet, or_usd,
}
use vps_billing_gemini.Commerce.Soundness.{IsSound, balance_of}

-- The row that was found, opened when it was missing, and every balance as it was.
pub record Opened (user_id : ℕ) (currency : String) (db : Books) (w : Wallet) (opened : Books)
    : Type 0 where
  pub there : find_wallet user_id currency opened.wallets ≡ some w
  pub before : w.available_balance_minor ≡ balance_of user_id currency db.wallets
  pub same : (u : ℕ) (c : String) → balance_of u c opened.wallets ≡ balance_of u c db.wallets
  pub rest : opened ≡ record db { wallets = opened.wallets }

pub find_wallet-owned :
    (user_id : ℕ) (currency : String) (wallets : List Wallet) (w : Wallet)
    → find_wallet user_id currency wallets ≡ some w
    → owned_in user_id currency w ≡ true
find_wallet-owned user_id currency [] w h = cc
find_wallet-owned user_id currency (x ∷ t) w h =
    ground (arith, find_wallet-owned user_id currency t w)

pub same_key : (i j : ℕ) (a b : String) → (i == j && str_eq a b) ≡ true → (i ≡ j) × (a ≡ b)
same_key i j a b h = (ground arith, (eq_iff a b).0 (ground arith))

balance_of-opened :
    (id user_id : ℕ) (currency : String) (wallets : List Wallet) (u : ℕ) (c : String)
    → find_wallet user_id currency wallets ≡ none
    → balance_of u c (empty_wallet id user_id currency ∷ wallets) ≡ balance_of u c wallets
balance_of-opened id user_id currency wallets u c absent =
    elim (Bool-cases (user_id == u && str_eq currency c)) [
      | inl ours ↦
          let (i, a) = same_key user_id u currency c ours in
          let gone : find_wallet u c wallets ≡ none =
            subst (λ x. find_wallet u x wallets ≡ none) a
              (subst (λ x. find_wallet x currency wallets ≡ none) i absent) in
          ground arith
      | inr foreign ↦ ground arith
    ]

find_wallet-update_self :
    (user_id : ℕ) (currency : String) (b : ℤ) (wallets : List Wallet) (w : Wallet)
    → find_wallet user_id currency wallets ≡ some w
    → find_wallet user_id currency (update_wallet_balance user_id currency b wallets)
      ≡ some (set_balance b w)
unfolding update_wallet_balance
find_wallet-update_self user_id currency b [] w h = cc
find_wallet-update_self user_id currency b (x ∷ t) w h =
    ground (arith, find_wallet-update_self user_id currency b t w)

find_wallet-update_other :
    (user_id : ℕ) (currency : String) (b : ℤ) (wallets : List Wallet) (u : ℕ) (c : String)
    → ((w : Wallet) → owned_in user_id currency w ≡ true → owned_in u c w ≡ false)
    → find_wallet u c (update_wallet_balance user_id currency b wallets) ≡ find_wallet u c wallets
unfolding update_wallet_balance
find_wallet-update_other user_id currency b [] u c apart = refl
find_wallet-update_other user_id currency b (x ∷ t) u c apart =
    ground (arith, apart x, find_wallet-update_other user_id currency b t u c apart)

Opened-found :
    (user_id : ℕ) (currency : String) (db : Books) (w : Wallet)
    → find_wallet user_id currency db.wallets ≡ some w
    → Opened user_id currency db w db
Opened-found user_id currency db w found = record {
  there = found;
  before = ground arith;
  same = λ u c. refl;
  rest = refl;
}

-- The database with the new wallet.
abbrev with_wallet : Wallet → Books → Books
with_wallet w db = record db { wallets = w ∷ db.wallets }

Opened-missing :
    (id user_id : ℕ) (currency : String) (db : Books)
    → find_wallet user_id currency db.wallets ≡ none
    → let w = empty_wallet id user_id currency in Opened user_id currency db w (with_wallet w db)
Opened-missing id user_id currency db absent =
    let own : (user_id == user_id && str_eq currency currency) ≡ true =
      rw (==-refl user_id, (eq_iff currency currency).1 refl) refl in
    record {
      there = rw own refl;
      before = ground arith;
      same = λ u c. balance_of-opened id user_id currency db.wallets u c absent;
      rest = refl;
    }

pub wallet_row-Opened :
    (fails : ℕ → Bool) (first id user_id : ℕ) (currency : String) (db opened : Books) (w : Wallet)
    → wallet_row fails first id user_id currency db ≡ ok (w, opened)
    → Opened user_id currency db w opened
unfolding wallet_row create_wallet
wallet_row-Opened fails first id user_id currency db opened w h =
    elim (Option-cases (find_wallet user_id currency db.wallets)) [
      | inl absent ↦
          let e : with_wallet (empty_wallet id user_id currency) db ≡ opened = ground arith in
          let k : empty_wallet id user_id currency ≡ w = ground arith in
          subst (λ x. Opened user_id currency db x opened) k
            (subst (λ x. Opened user_id currency db (empty_wallet id user_id currency) x) e
              (Opened-missing id user_id currency db absent))
      | inr (w', found) ↦
          let e : db ≡ opened = ground arith in
          let k : w' ≡ w = ground arith in
          subst (λ x. Opened user_id currency db x opened) k
            (subst (λ x. Opened user_id currency db w' x) e
              (Opened-found user_id currency db w' found))
    ]

pub Opened-IsSound :
    (user_id : ℕ) (currency : String) (db opened : Books) (w : Wallet)
    → Opened user_id currency db w opened
    → IsSound db
    → IsSound opened
Opened-IsSound user_id currency db opened w o h =
    subst IsSound (sym o.rest) (record {
      balanced = h.balanced;
      booked = h.booked;
      funded = λ u c. o.same u c ∙ h.funded u c;
    })

apart :
    (user_id u : ℕ) (currency c : String)
    → (user_id == u && str_eq currency c) ≡ false
    → (w : Wallet) → owned_in user_id currency w ≡ true
    → owned_in u c w ≡ false
apart user_id u currency c away w own =
    let (i, a) = same_key w.user_id user_id w.currency currency own in rw (i, a) away

pub balance_of-paid :
    (user_id u : ℕ) (currency c : String) (wallets : List Wallet) (w : Wallet) (b : ℤ)
    → find_wallet user_id currency wallets ≡ some w
    → balance_of u c (update_wallet_balance user_id currency b wallets)
      ≡ (if user_id == u && str_eq currency c then b else balance_of u c wallets)
balance_of-paid user_id u currency c wallets w b there =
    elim (Bool-cases (user_id == u && str_eq currency c)) [
      | inl ours ↦
          let (i, a) = same_key user_id u currency c ours in
          let e = find_wallet-update_self user_id currency b wallets w there in
          let k : find_wallet u c (update_wallet_balance user_id currency b wallets)
              ≡ some (set_balance b w) =
            subst
              (λ x.
                find_wallet u x (update_wallet_balance user_id currency b wallets)
                ≡ some (set_balance b w))
              a
              (subst
                (λ x.
                  find_wallet x currency (update_wallet_balance user_id currency b wallets)
                  ≡ some (set_balance b w))
                i e) in
          ground arith
      | inr away ↦
          let e =
            find_wallet-update_other user_id currency b wallets u c
              (apart user_id u currency c away) in
          ground arith
    ]

pub get_user_wallet-IsSound :
    (fails : ℕ → Bool) (id user_id : ℕ) (currency : String) (db : Books)
    → IsSound db
    → IsSound (get_user_wallet fails id user_id currency db).1
unfolding get_user_wallet get_or_create_wallet
get_user_wallet-IsSound fails id user_id currency db h =
    elim (Result-cases (wallet_row fails 0 id user_id (or_usd currency) db)) [
      | inl ((w, opened), run) ↦ rw run (
          Opened-IsSound user_id (or_usd currency) db opened w
            (wallet_row-Opened fails 0 id user_id (or_usd currency) db opened w run) h)
      | inr (e, run) ↦ rw run h
    ]
