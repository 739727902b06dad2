-- ===== src/Commerce/Wallets.antt =====
-- GetOrCreateWallet and DepositWalletTx of repository/commerce_repository.go, and Deposit of
-- service/commerce/wallet_service.go. The failures of a deposit are numbered 0 Begin, 1 the locked
-- SELECT, 2 the INSERT of a wallet, 3 to 5 the ledger, 6 the UPDATE, 7 the outbox and 8 Commit; the
-- ignored error of 7 aborts the transaction, whose Commit then fails.
use vps_billing_gemini.Prelude.{
  ℕ, ◌+◌, String, Bool, ◌||◌, none, some, if◌then◌else◌, str_eq, Result, ok, ◌>>=◌, ◌>>◌, fail_if,
  or_fail, transact,
}
use vps_billing_gemini.Prelude.Int.{ℤ, pos, ◌+ℤ◌, leb_ℤ, int64}
use vps_billing_gemini.Commerce.Model.{
  Error, db_error, invalid_deposit_amount, user_wallet, Wallet, OutboxEvent,
}
use vps_billing_gemini.Commerce.Store.{
  Books, find_wallet, create_wallet, update_wallet_balance, create_outbox_event,
}
use vps_billing_gemini.Commerce.Ledger.{Posting, post}

abbrev pub or_usd : String → String
or_usd currency = if str_eq currency "" then "USD" else currency

abbrev pub empty_wallet : ℕ → ℕ → String → Wallet
empty_wallet id user_id currency = record {
  id = id;
  user_id = user_id;
  currency = currency;
  available_balance_minor = pos 0;
}

-- The wallet of a user in a currency, made when it is missing; `first` numbers the SELECT.
unfoldable pub wallet_row : (ℕ → Bool) → ℕ → ℕ → ℕ → String → Books → Result Error (Wallet × Books)
wallet_row fails first id user_id currency db = do
  fail_if (fails first) db_error
  elim (find_wallet user_id currency db.wallets) [
    | some w ↦ ok (w, db)
    | none ↦ do
      fail_if (fails (first + 1)) db_error
      let w = empty_wallet id user_id currency
      rows ← or_fail (create_wallet w db.wallets) db_error
      ok (w, record db { wallets = rows })
  ]

unfoldable pub get_or_create_wallet :
    (ℕ → Bool) → ℕ → ℕ → String → Books → Result Error Wallet × Books
unfolding wallet_row
get_or_create_wallet fails id user_id currency db =
    transact db (wallet_row fails 0 id user_id currency db)

abbrev pub deposit_posting : ℕ → ℕ → ℤ → String → String → Posting
deposit_posting wallet_id user_id amount currency description = record {
  kind = "wallet_deposit";
  reference_type = "wallet_deposit";
  reference_id = wallet_id;
  description = description;
  credited_type = user_wallet;
  credited_id = user_id;
  amount_minor = amount;
  currency = currency;
}

abbrev pub deposit_event : ℕ → ℕ → OutboxEvent
deposit_event id wallet_id = record {
  id = id;
  event_type = "wallet.deposited.v1";
  aggregate_type = "wallet";
  aggregate_id = wallet_id;
}

-- The UPDATE of the balance, the outbox and the Commit.
unfoldable pub pay_in : (ℕ → Bool) → ℕ → Wallet → ℤ → Books → Result Error (Wallet × Books)
pay_in fails event_id w amount db = do
  let balance = int64 (w.available_balance_minor +ℤ amount)
  fail_if (fails 6 || fails 7) db_error
  events ← or_fail (create_outbox_event (deposit_event event_id w.id) db.outbox) db_error
  fail_if (fails 8) db_error
  ok (
    record w { available_balance_minor = balance },
    record db {
      wallets = update_wallet_balance w.user_id w.currency balance db.wallets;
      outbox = events;
    },
  )

-- `fresh` gives the values of uuid.New: 0 to 2 for the ledger, 3 for the event, 4 for a new wallet.
unfoldable pub deposit_steps :
    (ℕ → Bool) → (ℕ → ℕ) → ℕ → ℤ → String → String → Books → Result Error (Wallet × Books)
unfolding wallet_row pay_in post
deposit_steps fails fresh user_id amount currency description db = do
  (w, opened) ← wallet_row fails 1 (fresh 4) user_id currency db
  let entry = deposit_posting w.id user_id amount currency description
  posted ← post fails 3 fresh entry opened
  pay_in fails (fresh 3) w amount posted

unfoldable pub deposit_wallet :
    (ℕ → Bool) → (ℕ → ℕ) → ℕ → ℤ → String → String → Books → Result Error Wallet × Books
unfolding deposit_steps
deposit_wallet fails fresh user_id amount currency description db =
    let currency' = or_usd currency in
    let description' = if str_eq description "" then "Wallet deposit" else description in
    transact db (do
      fail_if (fails 0) db_error
      deposit_steps fails fresh user_id amount currency' description' db)

unfoldable pub deposit : (ℕ → Bool) → (ℕ → ℕ) → ℕ → ℤ → String → Books → Result Error Wallet × Books
unfolding deposit_wallet
deposit fails fresh user_id amount currency db =
    if leb_ℤ amount (pos 0)
    then (Result.err invalid_deposit_amount, db)
    else deposit_wallet fails fresh user_id amount (or_usd currency)
        "Wallet deposit via online payment" db

unfoldable pub get_user_wallet : (ℕ → Bool) → ℕ → ℕ → String → Books → Result Error Wallet × Books
unfolding get_or_create_wallet
get_user_wallet fails id user_id currency db =
    get_or_create_wallet fails id user_id (or_usd currency) db
