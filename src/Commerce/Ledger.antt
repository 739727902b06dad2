-- ===== src/Commerce/Ledger.antt =====
-- The double entry that both money transactions of repository/commerce_repository.go write: one row
-- of ledger_transactions, then a debit and a credit of one amount in one currency.
use vps_billing_gemini.Prelude.{ℕ, ◌+◌, String, Bool, Result, ok, ◌>>=◌, ◌>>◌, fail_if, or_fail}
use vps_billing_gemini.Prelude.Int.{ℤ}
use vps_billing_gemini.Commerce.Model.{
  Error, db_error, AccountType, payment_gateway, debit, credit, LedgerTransaction, LedgerEntry,
  system_account_payment_gateway,
}
use vps_billing_gemini.Commerce.Store.{Books, create_ledger_transaction, create_ledger_entry}

-- What the two money transactions write differently.
pub record Posting : Type 0 where
  pub kind : String
  pub reference_type : String
  pub reference_id : ℕ
  pub description : String
  pub credited_type : AccountType
  pub credited_id : ℕ
  pub amount_minor : ℤ
  pub currency : String

-- The identifiers are the first three that uuid.New returns.
abbrev pub ledger_row : (ℕ → ℕ) → Posting → LedgerTransaction
ledger_row fresh p = record {
  id = fresh 0;
  kind = p.kind;
  reference_type = p.reference_type;
  reference_id = p.reference_id;
  description = p.description;
}

-- The gateway account receives the money.
abbrev pub debit_entry : (ℕ → ℕ) → Posting → LedgerEntry
debit_entry fresh p = record {
  id = fresh 1;
  transaction_id = fresh 0;
  account_type = payment_gateway;
  account_id = system_account_payment_gateway;
  direction = debit;
  amount_minor = p.amount_minor;
  currency = p.currency;
}

abbrev pub credit_entry : (ℕ → ℕ) → Posting → LedgerEntry
credit_entry fresh p = record {
  id = fresh 2;
  transaction_id = fresh 0;
  account_type = p.credited_type;
  account_id = p.credited_id;
  direction = credit;
  amount_minor = p.amount_minor;
  currency = p.currency;
}

-- The three statements, of which `first` is the number of the first.
unfoldable pub post : (ℕ → Bool) → ℕ → (ℕ → ℕ) → Posting → Books → Result Error Books
post fails first fresh p db = do
  fail_if (fails first) db_error
  txs ← or_fail (create_ledger_transaction (ledger_row fresh p) db.ledger_transactions) db_error
  fail_if (fails (first + 1)) db_error
  debited ← or_fail (create_ledger_entry (debit_entry fresh p) db.ledger_entries) db_error
  fail_if (fails (first + 2)) db_error
  credited ← or_fail (create_ledger_entry (credit_entry fresh p) debited) db_error
  ok (record db { ledger_transactions = txs; ledger_entries = credited })
