-- ===== src/Subscriptions/Model.antt =====
-- backend/internal/domain/subscription/model.go, without created_at and updated_at. A billing cycle is a text, of which the code knows
-- four.
use vps_billing_gemini.Prelude.{ℕ, Bool, true, false, Option, String}
use vps_billing_gemini.Prelude.Int.{ℤ}

pub data Error : Type 0 where
  subscription_not_found subscription_expired invalid_subscription_status : Error
  plan_not_found db_error : Error

pub data SubscriptionStatus : Type 0 where
  pending active past_due suspended cancelled expired terminated : SubscriptionStatus

pub data BillingCycle : Type 0 where
  monthly quarterly semi_annually annually : BillingCycle
  other : String → BillingCycle

pub record Subscription : Type 0 where
  pub id : ℕ
  pub user_id : ℕ
  pub plan_id : ℕ
  pub status : SubscriptionStatus
  pub billing_cycle : BillingCycle
  pub price_minor : ℤ
  pub currency : String
  pub started_at : Option ℕ
  pub current_period_start : Option ℕ
  pub current_period_end : Option ℕ
  pub next_due_at : Option ℕ
  pub grace_until : Option ℕ
  pub cancel_at_period_end : Bool
  pub ended_at : Option ℕ
  pub version : ℕ

abbrev pub is_active : SubscriptionStatus → Bool
is_active active = true
is_active _ = false

abbrev pub is_past_due : SubscriptionStatus → Bool
is_past_due past_due = true
is_past_due _ = false

abbrev pub is_suspended : SubscriptionStatus → Bool
is_suspended suspended = true
is_suspended _ = false

-- The statuses that RenewSubscription refuses.
abbrev pub is_closed : SubscriptionStatus → Bool
is_closed cancelled = true
is_closed terminated = true
is_closed _ = false

-- The statuses at which an UPDATE sets ended_at.
abbrev pub is_ended : SubscriptionStatus → Bool
is_ended cancelled = true
is_ended expired = true
is_ended terminated = true
is_ended _ = false
