-- ===== src/Subscriptions/Tests.antt =====
-- Runs of the subscription service on a small table, and the theorems at such inputs.
use vps_billing_gemini.Prelude.{
  ℕ, ◌+◌, ◌*◌, ◌≡◌, refl, Bool, true, false, List, [], ◌∷◌, none, some, ok, All, arith,
}
use vps_billing_gemini.Prelude.Int.{pos}
use vps_billing_gemini.Subscriptions.Model.{Subscription, active, cancelled, monthly, is_suspended}
use vps_billing_gemini.Subscriptions.Store.{
  find_subscription, list_due_subscriptions, list_grace_expired_subscriptions,
  update_subscription_status, renew_row,
}
use vps_billing_gemini.Subscriptions.Service.{
  Faults, renew_subscription, process_due_and_grace_check,
}
use vps_billing_gemini.Subscriptions.Renewal.{IsRenewed, MovesOn, renew_subscription-IsRenewed}
use vps_billing_gemini.Subscriptions.History.{Reach, here, next, checked}
use vps_billing_gemini.Subscriptions.History.Suspension.{Unmarked, never_suspended}
use vps_billing_gemini.Subscriptions.History.Closed.{Holds, closed_forever}

abbrev fine : ℕ → Bool
fine k = false

abbrev calm : Faults
calm = record { due = false; grace = false; due_update = fine; grace_update = fine }

-- A month of 30 days and a year of 365.
abbrev add_days : ℕ → ℕ → ℕ → ℕ
add_days years months start = start + 365 * years + 30 * months

abbrev basic : Subscription
basic = record {
  id = 1;
  user_id = 5;
  plan_id = 50;
  status = active;
  billing_cycle = monthly;
  price_minor = pos 500;
  currency = "USD";
  started_at = some 0;
  current_period_start = some 0;
  current_period_end = some 30;
  next_due_at = some 30;
  grace_until = none;
  cancel_at_period_end = false;
  ended_at = none;
  version = 1;
}

abbrev ended : Subscription
ended = record basic { id = 2; status = cancelled; ended_at = some 10 }

abbrev subs : List Subscription
subs = basic ∷ ended ∷ []

abbrev overdue : List Subscription
overdue = (process_due_and_grace_check calm 40 subs).1

abbrev much_later : List Subscription
much_later = (process_due_and_grace_check calm 4000 overdue).1

falls_due : (process_due_and_grace_check calm 40 subs).0 ≡ (1, 0, true)
unfolding process_due_and_grace_check list_due_subscriptions list_grace_expired_subscriptions
    update_subscription_status
falls_due = refl

subs-Unmarked : All Unmarked subs
subs-Unmarked =
    (record { no_grace = refl; running = refl }, (record { no_grace = refl; running = refl }, tt))

abbrev checked_twice : Reach subs much_later
checked_twice = next (next here (checked calm 40)) (checked calm 4000)

never_suspended_example :
    All (λ s. is_suspended s.status ≡ false) much_later
    × ((faults : Faults) (now : ℕ) → (process_due_and_grace_check faults now much_later).0.1 ≡ 0)
never_suspended_example = never_suspended subs subs-Unmarked checked_twice

closed_forever_example : Holds 2 cancelled much_later
closed_forever_example =
    closed_forever 2 cancelled refl subs checked_twice
      (record { row = ended; there = refl; same = refl; keyed = (refl, (refl, tt)) })

add_days-MovesOn : MovesOn add_days
add_days-MovesOn years months start h = omega arith

abbrev renewed_row : Subscription
renewed_row = record basic {
  current_period_start = some 40;
  current_period_end = some 70;
  next_due_at = some 70;
  version = 2;
}

renews : (renew_subscription fine add_days 40 1 subs).0 ≡ ok renewed_row
unfolding renew_subscription renew_row
renews = refl

renew_subscription-IsRenewed_example :
    (find_subscription 1 (renew_subscription fine add_days 40 1 subs).1 ≡ some renewed_row)
    × ((before : Subscription) × (find_subscription 1 subs ≡ some before)
        × IsRenewed 40 before renewed_row)
renew_subscription-IsRenewed_example =
    renew_subscription-IsRenewed fine add_days 40 1 subs renewed_row add_days-MovesOn renews
