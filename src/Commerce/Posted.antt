-- ===== src/Commerce/Posted.antt =====
-- What the double entry of a money transaction leaves in the ledger.
use vps_billing_gemini.Prelude.{ℕ, ◌≡◌, Bool, ◌∷◌, none, ok, arith}
use vps_billing_gemini.Prelude.Int.{pos, ◌≤ℤ◌}
use vps_billing_gemini.Prelude.Table.{find_by}
use vps_billing_gemini.Commerce.Model.{LedgerTransaction}
use vps_billing_gemini.Commerce.Store.{Books, create_ledger_transaction, create_ledger_entry}
use vps_billing_gemini.Commerce.Ledger.{Posting, ledger_row, debit_entry, credit_entry, post}

pub record Posted (fresh : ℕ → ℕ) (p : Posting) (db after : Books) : Type 0 where
  pub unused : find_by LedgerTransaction.id (fresh 0) db.ledger_transactions ≡ none
  pub nonneg : pos 0 ≤ℤ p.amount_minor
  pub result : after ≡ record db {
    ledger_transactions = ledger_row fresh p ∷ db.ledger_transactions;
    ledger_entries = credit_entry fresh p ∷ debit_entry fresh p ∷ db.ledger_entries;
  }

pub post-Posted :
    (fails : ℕ → Bool) (first : ℕ) (fresh : ℕ → ℕ) (p : Posting) (db after : Books)
    → post fails first fresh p db ≡ ok after
    → Posted fresh p db after
unfolding post create_ledger_transaction create_ledger_entry
post-Posted fails first fresh p db after h = record {
  unused = ground arith;
  nonneg = ground arith;
  result = ground arith;
}
