-- ===== src/Commerce/Soundness.antt =====
-- What the money tables promise together, in every state that the services reach.
use vps_billing_gemini.Prelude.{
  ℕ, ◌+◌, ◌≡◌, String, Bool, true, false, ◌&&◌, List, [], ◌∷◌, Option, none, some, ◌==◌, str_eq,
  if◌then◌else◌,
}
use vps_billing_gemini.Prelude.Int.{ℤ, pos}
use vps_billing_gemini.Prelude.Table.{total_of}
use vps_billing_gemini.Commerce.Model.{
  AccountType, user_wallet, Direction, debit, credit, Payment, Wallet, LedgerTransaction,
  LedgerEntry, is_succeeded,
}
use vps_billing_gemini.Commerce.Store.{Books, find_payment, find_wallet}
pub mod Posting
pub mod Settling
pub mod Opening
pub mod Depositing
pub mod Ordering
pub mod History

abbrev pub same_direction : Direction → Direction → Bool
same_direction debit debit = true
same_direction credit credit = true
same_direction _ _ = false

-- The amount of an entry if it is on one side of one transaction in one currency.
abbrev pub entered : Direction → ℕ → String → LedgerEntry → ℤ
entered side t currency e =
    if e.transaction_id == t && str_eq e.currency currency && same_direction e.direction side
    then e.amount_minor
    else pos 0

abbrev pub is_user_wallet : AccountType → Bool
is_user_wallet user_wallet = true
is_user_wallet _ = false

-- The amount of an entry if it is credited to the wallet of a user in one currency.
abbrev pub wallet_credit : ℕ → String → LedgerEntry → ℤ
wallet_credit user_id currency e =
    if is_user_wallet e.account_type
      && same_direction e.direction credit
      && e.account_id == user_id
      && str_eq e.currency currency
    then e.amount_minor
    else pos 0

abbrev pub balance_of : ℕ → String → List Wallet → ℤ
balance_of user_id currency wallets = elim (find_wallet user_id currency wallets) [
  | none ↦ pos 0
  | some w ↦ w.available_balance_minor
]

-- How many ledger transactions book the payment of an id.
abbrev pub bookings : ℕ → List LedgerTransaction → ℕ
bookings id [] = 0
bookings id (t ∷ ts) =
    (if str_eq t.kind "order_payment" && t.reference_id == id then 1 else 0) + bookings id ts

-- How often a payment should be booked.
abbrev pub due_bookings : Option Payment → ℕ
due_bookings none = 0
due_bookings (some p) = if is_succeeded p.status then 1 else 0

-- Debits equal credits in every transaction and currency; a payment is booked once if it has
-- succeeded and otherwise never; a wallet holds the sum of what was credited to it.
pub record IsSound (db : Books) : Type 0 where
  pub balanced :
      (t : ℕ) (currency : String)
      → total_of (entered debit t currency) db.ledger_entries
        ≡ total_of (entered credit t currency) db.ledger_entries
  pub booked :
      (id : ℕ) → bookings id db.ledger_transactions ≡ due_bookings (find_payment id db.payments)
  pub funded :
      (user_id : ℕ) (currency : String)
      → balance_of user_id currency db.wallets
        ≡ total_of (wallet_credit user_id currency) db.ledger_entries
