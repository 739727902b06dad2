-- ===== src/Subscriptions/History.antt =====
-- The operations on subscriptions one after the other, with any failures of the database.
use vps_billing_gemini.Prelude.{ℕ, Bool, List, Result}
use vps_billing_gemini.Subscriptions.Model.{Error, Subscription}
use vps_billing_gemini.Subscriptions.Service.{
  Terms, Faults, create_subscription_from_plan, renew_subscription, cancel_subscription,
  process_due_and_grace_check,
}
pub mod Suspension
pub mod Closed

pub data Step (subs : List Subscription) : List Subscription → Type 0 where
  created :
      (fails : ℕ → Bool) (add_date : ℕ → ℕ → ℕ → ℕ) (now id user_id : ℕ)
      (fetched : Result Error Terms)
      → Step subs (create_subscription_from_plan fails add_date now id user_id fetched subs).1
  renewed :
      (fails : ℕ → Bool) (add_date : ℕ → ℕ → ℕ → ℕ) (now id : ℕ)
      → Step subs (renew_subscription fails add_date now id subs).1
  cancelled :
      (fails : ℕ → Bool) (now user_id id : ℕ) (immediate : Bool)
      → Step subs (cancel_subscription fails now user_id id immediate subs).1
  checked : (faults : Faults) (now : ℕ) → Step subs (process_due_and_grace_check faults now subs).1

pub data Reach (subs : List Subscription) : List Subscription → Type 0 where
  here : Reach subs subs
  next : {mid after : List Subscription} → Reach subs mid → Step mid after → Reach subs after
