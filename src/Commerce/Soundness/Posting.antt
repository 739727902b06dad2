-- ===== src/Commerce/Soundness/Posting.antt =====
-- One double entry and the sums of the ledger.
use vps_billing_gemini.Prelude.{ℕ, ◌≡◌, String, true, false, ◌&&◌, List, ◌∷◌, arith, ◌==◌, str_eq}
use vps_billing_gemini.Prelude.Int.{ℤ, pos, ◌+ℤ◌, int_laws, parts_of_eq}
use vps_billing_gemini.Prelude.Table.{total_of}
use vps_billing_gemini.Commerce.Model.{LedgerEntry, debit, credit}
use vps_billing_gemini.Commerce.Ledger.{Posting, debit_entry, credit_entry}
use vps_billing_gemini.Commerce.Soundness.{entered, wallet_credit, is_user_wallet}

abbrev pub added : (ℕ → ℕ) → Posting → List LedgerEntry → List LedgerEntry
added fresh p entries = credit_entry fresh p ∷ debit_entry fresh p ∷ entries

crossing : (x a b : ℤ) → a ≡ b → pos 0 +ℤ (x +ℤ a) ≡ x +ℤ (pos 0 +ℤ b)
crossing x a b h = omega (int_laws, parts_of_eq _ _ h)

nothing : (a : ℤ) → pos 0 +ℤ (pos 0 +ℤ a) ≡ a
nothing a = omega int_laws

behind : (x a : ℤ) → x +ℤ (pos 0 +ℤ a) ≡ a +ℤ x
behind x a = omega int_laws

pub balanced-added :
    (fresh : ℕ → ℕ) (p : Posting) (entries : List LedgerEntry) (t : ℕ) (currency : String)
    → total_of (entered debit t currency) entries ≡ total_of (entered credit t currency) entries
    → total_of (entered debit t currency) (added fresh p entries)
      ≡ total_of (entered credit t currency) (added fresh p entries)
balanced-added fresh p entries t currency h =
    ground (arith, crossing p.amount_minor _ _ h, crossing (pos 0) _ _ h)

-- An entry for no wallet of the user leaves the sum of the credits as it was.
pub total_of-added_elsewhere :
    (fresh : ℕ → ℕ) (p : Posting) (entries : List LedgerEntry) (user_id : ℕ) (currency : String)
    → (is_user_wallet p.credited_type && p.credited_id == user_id && str_eq p.currency currency)
      ≡ false
    → total_of (wallet_credit user_id currency) (added fresh p entries)
      ≡ total_of (wallet_credit user_id currency) entries
total_of-added_elsewhere fresh p entries user_id currency away =
    ground (arith, nothing (total_of (wallet_credit user_id currency) entries))

pub total_of-added_here :
    (fresh : ℕ → ℕ) (p : Posting) (entries : List LedgerEntry) (user_id : ℕ) (currency : String)
    → (is_user_wallet p.credited_type && p.credited_id == user_id && str_eq p.currency currency)
      ≡ true
    → total_of (wallet_credit user_id currency) (added fresh p entries)
      ≡ total_of (wallet_credit user_id currency) entries +ℤ p.amount_minor
total_of-added_here fresh p entries user_id currency at =
    ground (arith, behind p.amount_minor (total_of (wallet_credit user_id currency) entries))
