-- ===== src/Subscriptions/Inversion.antt =====
-- What the operations on subscriptions write when they succeed.
use vps_billing_gemini.Prelude.{
  ℕ, ◌≡◌, Bool, true, false, List, some, ok, arith, bind_inv, if◌then◌else◌,
}
use vps_billing_gemini.Subscriptions.Model.{Subscription, cancelled, is_closed}
use vps_billing_gemini.Subscriptions.Store.{
  find_subscription, update_subscription_status, renew_row, set_cancel_at_period_end,
}
use vps_billing_gemini.Subscriptions.Service.{
  calculate_period, renewal_start, get_subscription, renew_found, renew_steps, cancel_found,
  cancel_steps,
}

get_inv :
    (fails : ℕ → Bool) (id : ℕ) (subs : List Subscription) (sub : Subscription)
    → get_subscription fails id subs ≡ ok sub
    → find_subscription id subs ≡ some sub
unfolding get_subscription
get_inv fails id subs sub h = ground arith

renew_found_inv :
    (fails : ℕ → Bool) (add_date : ℕ → ℕ → ℕ → ℕ) (now id : ℕ) (sub row : Subscription)
    (subs after : List Subscription)
    → renew_found fails add_date now id sub subs ≡ ok (row, after)
    → let end =
        calculate_period add_date (renewal_start now sub.current_period_end) sub.billing_cycle in
      (is_closed sub.status ≡ false)
      × (after ≡ renew_row id (renewal_start now sub.current_period_end) end end subs)
      × (find_subscription id after ≡ some row)
unfolding renew_found
renew_found_inv fails add_date now id sub row subs after h =
    (ground arith, ground arith, ground arith)

cancel_found_inv :
    (fails : ℕ → Bool) (now user_id id : ℕ) (immediate : Bool) (sub row : Subscription)
    (subs after : List Subscription)
    → cancel_found fails now user_id id immediate sub subs ≡ ok (row, after)
    → (is_closed sub.status ≡ false)
      × (after ≡ (
          if immediate
          then update_subscription_status now id cancelled subs
          else set_cancel_at_period_end id true subs))
unfolding cancel_found
cancel_found_inv fails now user_id id immediate sub row subs after h = (ground arith, ground arith)

-- A renewal that succeeds has found an open subscription and written its new period.
pub record Renewed (add_date : ℕ → ℕ → ℕ → ℕ) (now id : ℕ) (subs : List Subscription)
    (row : Subscription) (after : List Subscription) : Type 0 where
  pub before : Subscription
  pub there : find_subscription id subs ≡ some before
  pub still : is_closed before.status ≡ false
  pub written :
      after
      ≡ renew_row id
          (renewal_start now before.current_period_end)
          (calculate_period add_date
            (renewal_start now before.current_period_end)
            before.billing_cycle)
          (calculate_period add_date
            (renewal_start now before.current_period_end)
            before.billing_cycle)
          subs
  pub returned : find_subscription id after ≡ some row

pub renew_steps-Renewed :
    (fails : ℕ → Bool) (add_date : ℕ → ℕ → ℕ → ℕ) (now id : ℕ) (row : Subscription)
    (subs after : List Subscription)
    → renew_steps fails add_date now id subs ≡ ok (row, after)
    → Renewed add_date now id subs row after
unfolding renew_steps
renew_steps-Renewed fails add_date now id row subs after h =
    let (sub, read, wrote) = bind_inv (get_subscription fails id subs) _ _ h in
    let (still, e, there) = renew_found_inv fails add_date now id sub row subs after wrote in
    record {
      before = sub;
      there = get_inv fails id subs sub read;
      still = still;
      written = e;
      returned = there;
    }

pub cancel_steps_inv :
    (fails : ℕ → Bool) (now user_id id : ℕ) (immediate : Bool) (row : Subscription)
    (subs after : List Subscription)
    → cancel_steps fails now user_id id immediate subs ≡ ok (row, after)
    → (sub : Subscription) × (find_subscription id subs ≡ some sub)
      × (is_closed sub.status ≡ false)
      × (after ≡ (
          if immediate
          then update_subscription_status now id cancelled subs
          else set_cancel_at_period_end id true subs))
unfolding cancel_steps
cancel_steps_inv fails now user_id id immediate row subs after h =
    let (sub, read, wrote) = bind_inv (get_subscription fails id subs) _ _ h in
    let (still, e) = cancel_found_inv fails now user_id id immediate sub row subs after wrote in
    (sub, get_inv fails id subs sub read, still, e)
