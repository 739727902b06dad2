-- ===== src/Subscriptions/History/Suspension.antt =====
-- The grace period is never stored, so that the scheduled check never suspends.
use vps_billing_gemini.Prelude.{
  ℕ, ◌≡◌, refl, sym, subst, Bool, true, false, List, [], ◌∷◌, none, Result, ok, err, inl, inr,
  arith, All, All-imp, filter_nothing, transact_keeps, Bool-cases, Option-cases, some,
}
use vps_billing_gemini.Prelude.Table.{All-update_by}
use vps_billing_gemini.Subscriptions.Model.{
  Error, Subscription, SubscriptionStatus, past_due, is_suspended,
}
use vps_billing_gemini.Subscriptions.Store.{
  create_subscription, update_subscription_status, renew_row, set_cancel_at_period_end, set_status,
  set_period, set_cancel, list_due_subscriptions, list_grace_expired_subscriptions, is_grace_over,
}
use vps_billing_gemini.Subscriptions.Service.{
  Terms, Faults, calculate_period, create_subscription_from_plan, renew_steps, renew_subscription,
  cancel_steps, cancel_subscription, mark_all, process_due_and_grace_check, new_subscription,
}
use vps_billing_gemini.Subscriptions.Inversion.{renew_steps-Renewed, cancel_steps_inv}
use vps_billing_gemini.Subscriptions.History.{
  Step, created, renewed, cancelled, checked, Reach, here, next,
}

-- A subscription without a stored grace period that is not suspended.
pub record Unmarked (s : Subscription) : Type 0 where
  pub no_grace : s.grace_until ≡ none
  pub running : is_suspended s.status ≡ false

Unmarked-set_status :
    (now : ℕ) (status : SubscriptionStatus)
    → is_suspended status ≡ false
    → (s : Subscription) → Unmarked s
    → Unmarked (set_status now status s)
Unmarked-set_status now status run s u = record { no_grace = u.no_grace; running = run }

marked :
    (fails : ℕ → Bool) (now : ℕ) (listed subs : List Subscription)
    → All Unmarked subs
    → All Unmarked (mark_all fails now past_due listed subs).1
unfolding mark_all update_subscription_status
marked fails now [] subs h = h
marked fails now (sub ∷ listed) subs h = elim (Bool-cases (fails sub.id)) [
  | inl failed ↦ rw failed (marked fails now listed subs h)
  | inr done ↦ rw done (
      marked fails now listed (update_subscription_status now sub.id past_due subs) (
        All-update_by Unmarked Subscription.id (set_status now past_due)
          (Unmarked-set_status now past_due refl) sub.id subs h))
]

not_over : (now : ℕ) (s : Subscription) → Unmarked s → is_grace_over now s ≡ false
not_over now s u = ground (arith, u.no_grace)

none_listed :
    (now : ℕ) (subs : List Subscription)
    → All Unmarked subs
    → list_grace_expired_subscriptions now 100 subs ≡ []
unfolding list_grace_expired_subscriptions
none_listed now subs h =
    rw (filter_nothing Unmarked (is_grace_over now) (λ s u. not_over now s u) subs h) refl

checked_Unmarked :
    (faults : Faults) (now : ℕ) (subs : List Subscription)
    → All Unmarked subs
    → All Unmarked (process_due_and_grace_check faults now subs).1
      × ((process_due_and_grace_check faults now subs).0.1 ≡ 0)
unfolding process_due_and_grace_check
checked_Unmarked faults now subs h =
    let listed = list_due_subscriptions now 100 subs in
    let k = marked faults.due_update now listed subs h in
    elim (Bool-cases faults.due) [
      | inl failed ↦ rw failed (h, refl)
      | inr fetched ↦ rw fetched (elim (Bool-cases faults.grace) [
        | inl failed ↦ rw failed (k, refl)
        | inr fetched' ↦
            rw (fetched', none_listed now (mark_all faults.due_update now past_due listed subs).1 k)
              (k, refl)
      ])
    ]

All-insert_row :
    (s : Subscription) (subs rows : List Subscription)
    → Unmarked s
    → All Unmarked subs
    → create_subscription s subs ≡ some rows
    → All Unmarked rows
unfolding create_subscription
All-insert_row s subs rows u h new =
    let e : s ∷ subs ≡ rows = ground arith in subst (All Unmarked) e (u, h)

created_Unmarked :
    (fails : ℕ → Bool) (add_date : ℕ → ℕ → ℕ → ℕ) (now id user_id : ℕ)
    (fetched : Result Error Terms) (subs : List Subscription)
    → All Unmarked subs
    → All Unmarked (create_subscription_from_plan fails add_date now id user_id fetched subs).1
unfolding create_subscription_from_plan
created_Unmarked fails add_date now id user_id (err e) subs h = h
created_Unmarked fails add_date now id user_id (ok plan) subs h =
    let s =
      new_subscription id user_id now (calculate_period add_date now plan.billing_cycle) plan in
    elim (Bool-cases (fails 1)) [
      | inl failed ↦ rw failed h
      | inr fine ↦ rw fine (elim (Option-cases (create_subscription s subs)) [
        | inl clash ↦ rw clash h
        | inr (rows, new) ↦
            rw new (All-insert_row s subs rows (record { no_grace = refl; running = refl }) h new)
      ])
    ]

renewed_Unmarked :
    (fails : ℕ → Bool) (add_date : ℕ → ℕ → ℕ → ℕ) (now id : ℕ) (subs : List Subscription)
    → All Unmarked subs
    → All Unmarked (renew_subscription fails add_date now id subs).1
unfolding renew_subscription renew_row
renewed_Unmarked fails add_date now id subs h =
    transact_keeps (All Unmarked) subs (renew_steps fails add_date now id subs) h (λ row after run.
      subst (All Unmarked)
        (sym (renew_steps-Renewed fails add_date now id row subs after run).written)
        (All-update_by Unmarked Subscription.id (set_period _ _ _)
          (λ s u. record { no_grace = refl; running = refl }) id subs h))

cancelled_Unmarked :
    (fails : ℕ → Bool) (now user_id id : ℕ) (immediate : Bool) (subs : List Subscription)
    → All Unmarked subs
    → All Unmarked (cancel_subscription fails now user_id id immediate subs).1
unfolding cancel_subscription update_subscription_status set_cancel_at_period_end
cancelled_Unmarked fails now user_id id immediate subs h =
    transact_keeps (All Unmarked) subs (cancel_steps fails now user_id id immediate subs) h
      (λ row after run.
        let (sub, there, still, e) =
          cancel_steps_inv fails now user_id id immediate row subs after run in
        subst (All Unmarked) (sym e) (elim (Bool-cases immediate) [
          | inl now' ↦ rw now' (
              All-update_by Unmarked Subscription.id (set_status now SubscriptionStatus.cancelled)
                (Unmarked-set_status now SubscriptionStatus.cancelled refl) id subs h)
          | inr later ↦ rw later (
              All-update_by Unmarked Subscription.id (set_cancel true)
                (λ s u. record { no_grace = u.no_grace; running = u.running }) id subs h)
        ]))

Step-Unmarked :
    (subs : List Subscription) {after : List Subscription}
    → Step subs after
    → All Unmarked subs
    → All Unmarked after
Step-Unmarked subs (created fails add_date now id user_id fetched) h =
    created_Unmarked fails add_date now id user_id fetched subs h
Step-Unmarked subs (renewed fails add_date now id) h = renewed_Unmarked fails add_date now id subs h
Step-Unmarked subs (cancelled fails now user_id id immediate) h =
    cancelled_Unmarked fails now user_id id immediate subs h
Step-Unmarked subs (checked faults now) h = (checked_Unmarked faults now subs h).0

Reach-Unmarked :
    (subs : List Subscription) {after : List Subscription}
    → Reach subs after
    → All Unmarked subs
    → All Unmarked after
Reach-Unmarked subs here h = h
Reach-Unmarked subs (next {mid = m} r s) h = Step-Unmarked m s (Reach-Unmarked subs r h)

-- From subscriptions that have no grace period stored and are not suspended, no sequence of
-- creations, renewals, cancellations and scheduled checks suspends a subscription, and the next
-- check, whenever it runs, counts none as suspended.
pub never_suspended :
    (subs : List Subscription) {after : List Subscription}
    → All Unmarked subs
    → Reach subs after
    → All (λ s. is_suspended s.status ≡ false) after
      × ((faults : Faults) (now : ℕ) → (process_due_and_grace_check faults now after).0.1 ≡ 0)
never_suspended subs {after = after} h r =
    let k = Reach-Unmarked subs r h in
    (
      All-imp Unmarked (λ s. is_suspended s.status ≡ false) (λ s u. u.running) after k,
      λ faults now. (checked_Unmarked faults now after k).1,
    )
