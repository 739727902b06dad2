-- ===== src/Subscriptions/Store.antt =====
-- The table of subscriptions, and the statements of repository/subscriptions.sql.go on it.
use vps_billing_gemini.Prelude.{
  ℕ, ◌+◌, Bool, true, false, ◌&&◌, List, Option, none, some, ltb, leb, if◌then◌else◌, filter,
  sort_by, take,
}
use vps_billing_gemini.Prelude.Table.{find_by, update_by, insert_row}
use vps_billing_gemini.Subscriptions.Model.{
  Subscription, SubscriptionStatus, active, is_active, is_past_due, is_ended,
}

abbrev pub find_subscription : ℕ → List Subscription → Option Subscription
find_subscription = find_by Subscription.id

unfoldable pub create_subscription : Subscription → List Subscription → Option (List Subscription)
create_subscription = insert_row Subscription.id

-- `moment <= $1`, which is not true of NULL.
abbrev pub reached : ℕ → Option ℕ → Bool
reached now none = false
reached now (some t) = leb t now

-- ORDER BY a moment ASC, with NULL last.
abbrev pub earlier : Option ℕ → Option ℕ → Bool
earlier (some a) (some b) = ltb a b
earlier (some a) none = true
earlier none b = false

abbrev pub is_due : ℕ → Subscription → Bool
is_due now s = is_active s.status && reached now s.next_due_at

abbrev pub is_grace_over : ℕ → Subscription → Bool
is_grace_over now s = is_past_due s.status && reached now s.grace_until

unfoldable pub list_due_subscriptions : ℕ → ℕ → List Subscription → List Subscription
list_due_subscriptions now limit subs =
    take limit (sort_by (λ a b. earlier a.next_due_at b.next_due_at) (filter (is_due now) subs))

unfoldable pub list_grace_expired_subscriptions : ℕ → ℕ → List Subscription → List Subscription
list_grace_expired_subscriptions now limit subs =
    take limit
      (sort_by (λ a b. earlier a.grace_until b.grace_until) (filter (is_grace_over now) subs))

abbrev pub set_status : ℕ → SubscriptionStatus → Subscription → Subscription
set_status now status s = record s {
  status = status;
  ended_at = if is_ended status then some now else s.ended_at;
  version = s.version + 1;
}

unfoldable pub update_subscription_status :
    ℕ → ℕ → SubscriptionStatus → List Subscription → List Subscription
update_subscription_status now id status = update_by Subscription.id id (set_status now status)

abbrev pub set_period : ℕ → ℕ → ℕ → Subscription → Subscription
set_period start end due s = record s {
  status = active;
  current_period_start = some start;
  current_period_end = some end;
  next_due_at = some due;
  grace_until = none;
  version = s.version + 1;
}

unfoldable pub renew_row : ℕ → ℕ → ℕ → ℕ → List Subscription → List Subscription
renew_row id start end due = update_by Subscription.id id (set_period start end due)

abbrev pub set_cancel : Bool → Subscription → Subscription
set_cancel cancel s = record s { cancel_at_period_end = cancel; version = s.version + 1 }

unfoldable pub set_cancel_at_period_end : ℕ → Bool → List Subscription → List Subscription
set_cancel_at_period_end id cancel = update_by Subscription.id id (set_cancel cancel)
