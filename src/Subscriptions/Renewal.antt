-- ===== src/Subscriptions/Renewal.antt =====
-- The period that a renewal gives.
use vps_billing_gemini.Prelude.{
  ℕ, ◌+◌, ◌<◌, ◌≤◌, ◌≡◌, refl, ap, ◌∙◌, Bool, true, List, Option, none, some, ok, arith,
  transact_ok, subst,
}
use vps_billing_gemini.Prelude.Table.{find_by-update_by_self}
use vps_billing_gemini.Subscriptions.Model.{BillingCycle, Subscription, is_active}
use vps_billing_gemini.Subscriptions.Store.{find_subscription, renew_row, set_period}
use vps_billing_gemini.Subscriptions.Service.{
  calculate_period, renewal_start, renew_steps, renew_subscription,
}
use vps_billing_gemini.Subscriptions.Inversion.{renew_steps-Renewed}

-- AddDate of a positive number of years or months gives a later moment.
abbrev pub MovesOn : (ℕ → ℕ → ℕ → ℕ) → Type 0
MovesOn add_date =
    (years months start : ℕ) → 0 < years + months → start < add_date years months start

period_later :
    (add_date : ℕ → ℕ → ℕ → ℕ) (start : ℕ) (cycle : BillingCycle)
    → MovesOn add_date
    → start < calculate_period add_date start cycle
unfolding calculate_period
period_later add_date start BillingCycle.monthly moves = moves 0 1 start (omega arith)
period_later add_date start BillingCycle.quarterly moves = moves 0 3 start (omega arith)
period_later add_date start BillingCycle.semi_annually moves = moves 0 6 start (omega arith)
period_later add_date start BillingCycle.annually moves = moves 1 0 start (omega arith)
period_later add_date start (BillingCycle.other text) moves = moves 0 1 start (omega arith)

start_later : (now : ℕ) (end : Option ℕ) → now ≤ renewal_start now end
start_later now none = omega arith
start_later now (some end) = ground arith

-- A moment that is not earlier than an optional one.
abbrev pub NotBefore : Option ℕ → ℕ → Type 0
NotBefore none t = Unit
NotBefore (some e) t = e ≤ t

start_NotBefore : (now : ℕ) (end : Option ℕ) → NotBefore end (renewal_start now end)
start_NotBefore now none = tt
start_NotBefore now (some end) = ground arith

-- A renewed subscription: active, without a grace period, due at the end of a new period that ends
-- after now and does not begin before the old one ended.
pub record IsRenewed (now : ℕ) (before row : Subscription) : Type 0 where
  pub start : ℕ
  pub end : ℕ
  pub running : is_active row.status ≡ true
  pub starts : row.current_period_start ≡ some start
  pub ends : row.current_period_end ≡ some end
  pub due : row.next_due_at ≡ some end
  pub no_grace : row.grace_until ≡ none
  pub follows : NotBefore before.current_period_end start
  pub lasts : start < end
  pub future : now < end

set_period-IsRenewed :
    (add_date : ℕ → ℕ → ℕ → ℕ) (now : ℕ) (s : Subscription)
    → MovesOn add_date
    → let start = renewal_start now s.current_period_end in
      let end = calculate_period add_date start s.billing_cycle in
      IsRenewed now s (set_period start end end s)
set_period-IsRenewed add_date now s moves =
    let later =
      period_later add_date (renewal_start now s.current_period_end) s.billing_cycle moves in
    let begun = start_later now s.current_period_end in
    record {
      start = renewal_start now s.current_period_end;
      end = calculate_period add_date (renewal_start now s.current_period_end) s.billing_cycle;
      running = refl;
      starts = refl;
      ends = refl;
      due = refl;
      no_grace = refl;
      follows = start_NotBefore now s.current_period_end;
      lasts = later;
      future = omega arith;
    }

-- When AddDate moves on and RenewSubscription returns a row, the row is the stored subscription,
-- renewed: active, without a grace period, and due at the end of a period that begins no earlier
-- than the old one ended and ends after now.
pub renew_subscription-IsRenewed :
    (fails : ℕ → Bool) (add_date : ℕ → ℕ → ℕ → ℕ) (now id : ℕ) (subs : List Subscription)
    (row : Subscription)
    → MovesOn add_date
    → (renew_subscription fails add_date now id subs).0 ≡ ok row
    → (find_subscription id (renew_subscription fails add_date now id subs).1 ≡ some row)
      × ((before : Subscription) × (find_subscription id subs ≡ some before)
          × IsRenewed now before row)
unfolding renew_subscription renew_row
renew_subscription-IsRenewed fails add_date now id subs row moves h =
    let run = transact_ok subs (renew_steps fails add_date now id subs) row h in
    let after = (renew_subscription fails add_date now id subs).1 in
    let r = renew_steps-Renewed fails add_date now id row subs after run in
    let s = r.before in
    let start = renewal_start now s.current_period_end in
    let end = calculate_period add_date start s.billing_cycle in
    let e : find_subscription id after ≡ some (set_period start end end s) =
      ap (find_subscription id) r.written
      ∙ find_by-update_by_self Subscription.id (set_period start end end) (λ x. refl) id subs s
          r.there in
    let same : set_period start end end s ≡ row = ground (arith, r.returned) in
    (
      r.returned,
      (s, r.there, subst (IsRenewed now s) same (set_period-IsRenewed add_date now s moves)),
    )
