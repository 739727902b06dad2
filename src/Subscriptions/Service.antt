-- ===== src/Subscriptions/Service.antt =====
-- service/subscription/subscription_service.go. Go's time.AddDate is a parameter: `add_date years
-- months start`. `fails k` says that call k of the database fails, 0 the SELECT and 1 the UPDATE or
-- INSERT; those of the scheduled check are named in Faults.
use vps_billing_gemini.Prelude.{
  ℕ, suc, Bool, true, false, not, ◌||◌, List, [], ◌∷◌, Option, none, some, ltb, if◌then◌else◌, ◌==◌,
  Result, ok, ◌>>=◌, ◌>>◌, fail_if, or_fail, transact, String,
}
use vps_billing_gemini.Prelude.Int.{ℤ}
use vps_billing_gemini.Subscriptions.Model.{
  Error, subscription_not_found, subscription_expired, invalid_subscription_status, db_error,
  BillingCycle, quarterly, semi_annually, annually, Subscription, SubscriptionStatus, active,
  past_due, suspended, cancelled, is_active, is_past_due, is_closed,
}
use vps_billing_gemini.Subscriptions.Store.{
  find_subscription, create_subscription, list_due_subscriptions, list_grace_expired_subscriptions,
  update_subscription_status, renew_row, set_cancel_at_period_end,
}

unfoldable pub calculate_period : (ℕ → ℕ → ℕ → ℕ) → ℕ → BillingCycle → ℕ
calculate_period add_date start quarterly = add_date 0 3 start
calculate_period add_date start semi_annually = add_date 0 6 start
calculate_period add_date start annually = add_date 1 0 start
calculate_period add_date start _ = add_date 0 1 start

-- What a subscription takes from its plan.
pub record Terms : Type 0 where
  pub plan_id : ℕ
  pub billing_cycle : BillingCycle
  pub price_minor : ℤ
  pub currency : String

abbrev pub new_subscription : ℕ → ℕ → ℕ → ℕ → Terms → Subscription
new_subscription id user_id now period_end plan = record {
  id = id;
  user_id = user_id;
  plan_id = plan.plan_id;
  status = active;
  billing_cycle = plan.billing_cycle;
  price_minor = plan.price_minor;
  currency = plan.currency;
  started_at = some now;
  current_period_start = some now;
  current_period_end = some period_end;
  next_due_at = some period_end;
  grace_until = none;
  cancel_at_period_end = false;
  ended_at = none;
  version = 1;
}

-- The plan that was fetched, or the error of its fetch.
unfoldable pub create_subscription_from_plan :
    (ℕ → Bool)
    → (ℕ → ℕ → ℕ → ℕ)
    → ℕ
    → ℕ
    → ℕ
    → Result Error Terms
    → List Subscription
    → Result Error Subscription × List Subscription
unfolding calculate_period
create_subscription_from_plan fails add_date now id user_id fetched subs = transact subs (do
  plan ← fetched
  fail_if (fails 1) db_error
  let sub = new_subscription id user_id now (calculate_period add_date now plan.billing_cycle) plan
  rows ← or_fail (create_subscription sub subs) db_error
  ok (sub, rows))

unfoldable pub get_subscription : (ℕ → Bool) → ℕ → List Subscription → Result Error Subscription
get_subscription fails id subs = do
  fail_if (fails 0) db_error
  or_fail (find_subscription id subs) subscription_not_found

-- The end of the running period if it is later than now, else now.
abbrev pub renewal_start : ℕ → Option ℕ → ℕ
renewal_start now none = now
renewal_start now (some end) = if ltb now end then end else now

-- What RenewSubscription does to the row that it read.
unfoldable pub renew_found :
    (ℕ → Bool)
    → (ℕ → ℕ → ℕ → ℕ)
    → ℕ
    → ℕ
    → Subscription
    → List Subscription
    → Result Error (Subscription × List Subscription)
unfolding calculate_period
renew_found fails add_date now id sub subs = do
  fail_if (is_closed sub.status) subscription_expired
  let start = renewal_start now sub.current_period_end
  let end = calculate_period add_date start sub.billing_cycle
  fail_if (fails 1) db_error
  let rows = renew_row id start end end subs
  row ← or_fail (find_subscription id rows) db_error
  ok (row, rows)

unfoldable pub renew_steps :
    (ℕ → Bool)
    → (ℕ → ℕ → ℕ → ℕ)
    → ℕ
    → ℕ
    → List Subscription
    → Result Error (Subscription × List Subscription)
unfolding renew_found get_subscription
renew_steps fails add_date now id subs = do
  sub ← get_subscription fails id subs
  renew_found fails add_date now id sub subs

unfoldable pub renew_subscription :
    (ℕ → Bool)
    → (ℕ → ℕ → ℕ → ℕ)
    → ℕ
    → ℕ
    → List Subscription
    → Result Error Subscription × List Subscription
unfolding renew_steps
renew_subscription fails add_date now id subs =
    transact subs (renew_steps fails add_date now id subs)

-- What CancelSubscription does to the row that it read.
unfoldable pub cancel_found :
    (ℕ → Bool)
    → ℕ
    → ℕ
    → ℕ
    → Bool
    → Subscription
    → List Subscription
    → Result Error (Subscription × List Subscription)
cancel_found fails now user_id id immediate sub subs = do
  fail_if (not (sub.user_id == user_id)) subscription_not_found
  fail_if (not (is_active sub.status || is_past_due sub.status)) invalid_subscription_status
  fail_if (fails 1) db_error
  let rows =
      if immediate
      then update_subscription_status now id cancelled subs
      else set_cancel_at_period_end id true subs
  row ← or_fail (find_subscription id rows) db_error
  ok (row, rows)

unfoldable pub cancel_steps :
    (ℕ → Bool)
    → ℕ
    → ℕ
    → ℕ
    → Bool
    → List Subscription
    → Result Error (Subscription × List Subscription)
unfolding cancel_found get_subscription
cancel_steps fails now user_id id immediate subs = do
  sub ← get_subscription fails id subs
  cancel_found fails now user_id id immediate sub subs

unfoldable pub cancel_subscription :
    (ℕ → Bool)
    → ℕ
    → ℕ
    → ℕ
    → Bool
    → List Subscription
    → Result Error Subscription × List Subscription
unfolding cancel_steps
cancel_subscription fails now user_id id immediate subs =
    transact subs (cancel_steps fails now user_id id immediate subs)

-- The calls of the scheduled check that fail: its two lists, and its updates by subscription.
pub record Faults : Type 0 where
  pub due : Bool
  pub grace : Bool
  pub due_update : ℕ → Bool
  pub grace_update : ℕ → Bool

-- A loop of the check: one UPDATE per listed subscription, each on its own, and their count.
unfoldable pub mark_all :
    (ℕ → Bool)
    → ℕ
    → SubscriptionStatus
    → List Subscription
    → List Subscription
    → ℕ × List Subscription
mark_all fails now status [] subs = (0, subs)
mark_all fails now status (sub ∷ listed) subs =
    let here = if fails sub.id then subs else update_subscription_status now sub.id status subs in
    let rest = mark_all fails now status listed here in
    (if fails sub.id then rest.0 else suc rest.0, rest.1)

-- ProcessDueAndGraceCheck: the grace period that the first loop computes is set on the struct only,
-- so it has no part here. The counts are what the function returns also with an error.
unfoldable pub process_due_and_grace_check :
    Faults → ℕ → List Subscription → (ℕ × ℕ × Bool) × List Subscription
unfolding mark_all
process_due_and_grace_check faults now subs =
    if faults.due
    then ((0, 0, false), subs)
    else (let first =
          mark_all faults.due_update now past_due (list_due_subscriptions now 100 subs) subs in
        if faults.grace
        then ((first.0, 0, false), first.1)
        else (let second =
              mark_all faults.grace_update now suspended
                (list_grace_expired_subscriptions now 100 first.1) first.1 in
            ((first.0, second.0, true), second.1)))
