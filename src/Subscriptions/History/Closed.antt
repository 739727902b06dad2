-- ===== src/Subscriptions/History/Closed.antt =====
-- A subscription that is cancelled or terminated stays so.
use vps_billing_gemini.Prelude.{
  ℕ, ◌≡◌, refl, sym, subst, ◌∙◌, Bool, true, false, List, [], ◌∷◌, some, Result, ok, err, inl, inr,
  arith, All, All-imp, All-take, All-sort_by, All-filter, All-both, filter-holds, transact_keeps,
  Bool-cases, Option-cases, sort_by, take, filter, ◌==◌, ==_iff,
}
use vps_billing_gemini.Prelude.Table.{
  update_by, IsKeyed, find_by-update_by, update_by-IsKeyed, insert_row-IsKeyed, All-found,
}
use vps_billing_gemini.Subscriptions.Model.{
  Error, Subscription, SubscriptionStatus, past_due, suspended, is_closed,
}
use vps_billing_gemini.Subscriptions.Store.{
  find_subscription, create_subscription, update_subscription_status, renew_row,
  set_cancel_at_period_end, set_status, set_period, set_cancel, list_due_subscriptions,
  list_grace_expired_subscriptions, is_due, is_grace_over,
}
use vps_billing_gemini.Subscriptions.Service.{
  Terms, Faults, calculate_period, create_subscription_from_plan, renew_steps, renew_subscription,
  cancel_steps, cancel_subscription, mark_all, process_due_and_grace_check, new_subscription,
}
use vps_billing_gemini.Subscriptions.Inversion.{renew_steps-Renewed, cancel_steps_inv}
use vps_billing_gemini.Subscriptions.History.{
  Step, created, renewed, cancelled, checked, Reach, here, next,
}

-- The subscription of an id is there, with this status; ids are unique.
pub record Holds (id : ℕ) (status : SubscriptionStatus) (subs : List Subscription) : Type 0 where
  pub row : Subscription
  pub there : find_subscription id subs ≡ some row
  pub same : row.status ≡ status
  pub keyed : IsKeyed Subscription.id subs

-- A row of an open status is another row.
other_row :
    (id : ℕ) (status : SubscriptionStatus) (subs : List Subscription)
    → is_closed status ≡ true
    → Holds id status subs
    → (j : ℕ) (r : Subscription) → find_subscription j subs ≡ some r
    → is_closed r.status ≡ false
    → (id == j) ≡ false
other_row id status subs closed h j r there still = elim (Bool-cases (id == j)) [
  | inr away ↦ away
  | inl same ↦
      let e : find_subscription id subs ≡ some r =
        subst (λ k. find_subscription k subs ≡ some r) (sym ((==_iff id j).0 same)) there in
      absurd (ground (arith, h.there, h.same))
]

Holds-update_by :
    (id : ℕ) (status : SubscriptionStatus) (subs : List Subscription) (j : ℕ)
    (f : Subscription → Subscription)
    → ((r : Subscription) → (f r).id ≡ r.id)
    → (id == j) ≡ false
    → Holds id status subs
    → Holds id status (update_by Subscription.id j f subs)
Holds-update_by id status subs j f keeps away h = record {
  row = h.row;
  there = find_by-update_by Subscription.id f keeps id j subs ∙ rw away h.there;
  same = h.same;
  keyed = update_by-IsKeyed Subscription.id f keeps j subs h.keyed;
}

Holds-mark_all :
    (id : ℕ) (status : SubscriptionStatus) (fails : ℕ → Bool) (now : ℕ) (to : SubscriptionStatus)
    (listed subs : List Subscription)
    → All (λ r. (id == r.id) ≡ false) listed
    → Holds id status subs
    → Holds id status (mark_all fails now to listed subs).1
unfolding mark_all update_subscription_status
Holds-mark_all id status fails now to [] subs away h = h
Holds-mark_all id status fails now to (sub ∷ listed) subs away h =
    elim (Bool-cases (fails sub.id)) [
      | inl failed ↦ rw failed (Holds-mark_all id status fails now to listed subs away.1 h)
      | inr done ↦ rw done (
          Holds-mark_all id status fails now to listed
            (update_subscription_status now sub.id to subs) away.1
            (Holds-update_by id status subs sub.id (set_status now to) (λ r. refl) away.0 h))
    ]

-- The rows that pass a test for open statuses are other rows.
listed_away :
    (id : ℕ) (status : SubscriptionStatus) (subs : List Subscription) (test : Subscription → Bool)
    (before : Subscription → Subscription → Bool)
    → ((r : Subscription) → test r ≡ true → is_closed r.status ≡ false)
    → is_closed status ≡ true
    → Holds id status subs
    → All (λ r. (id == r.id) ≡ false) (take 100 (sort_by before (filter test subs)))
listed_away id status subs test before still closed h =
    let Found : Subscription → Type 0 = λ r. find_subscription r.id subs ≡ some r in
    let found = All-filter Found test subs (All-found Subscription.id subs h.keyed) in
    let both =
      All-both Found (λ r. test r ≡ true) (filter test subs) found (filter-holds test subs) in
    All-take _ 100 (sort_by before (filter test subs)) (
      All-sort_by _ before (filter test subs) (
        All-imp _ _ (λ r k. other_row id status subs closed h r.id r k.0 (still r k.1))
          (filter test subs) both))

due_open : (now : ℕ) (r : Subscription) → is_due now r ≡ true → is_closed r.status ≡ false
due_open now r h = ground arith

grace_open : (now : ℕ) (r : Subscription) → is_grace_over now r ≡ true → is_closed r.status ≡ false
grace_open now r h = ground arith

module _ (id : ℕ) (status : SubscriptionStatus) (closed : is_closed status ≡ true) where
  checked_Holds :
      (faults : Faults) (now : ℕ) (subs : List Subscription)
      → Holds id status subs
      → Holds id status (process_due_and_grace_check faults now subs).1
  unfolding process_due_and_grace_check list_due_subscriptions list_grace_expired_subscriptions
  checked_Holds faults now subs h =
      let listed = list_due_subscriptions now 100 subs in
      let first = (mark_all faults.due_update now past_due listed subs).1 in
      let k =
        Holds-mark_all id status faults.due_update now past_due listed subs
          (listed_away id status subs (is_due now) _ (due_open now) closed h) h in
      elim (Bool-cases faults.due) [
        | inl failed ↦ rw failed h
        | inr fetched ↦ rw fetched (elim (Bool-cases faults.grace) [
          | inl failed ↦ rw failed k
          | inr fetched' ↦ rw fetched' (
              Holds-mark_all id status faults.grace_update now suspended
                (list_grace_expired_subscriptions now 100 first) first
                (listed_away id status first (is_grace_over now) _ (grace_open now) closed k) k)
        ])
      ]

  renewed_Holds :
      (fails : ℕ → Bool) (add_date : ℕ → ℕ → ℕ → ℕ) (now j : ℕ) (subs : List Subscription)
      → Holds id status subs
      → Holds id status (renew_subscription fails add_date now j subs).1
  unfolding renew_subscription renew_row
  renewed_Holds fails add_date now j subs h =
      transact_keeps (Holds id status) subs (renew_steps fails add_date now j subs) h
        (λ row after run.
          let r = renew_steps-Renewed fails add_date now j row subs after run in
          subst (Holds id status) (sym r.written) (
            Holds-update_by id status subs j (set_period _ _ _) (λ x. refl)
              (other_row id status subs closed h j r.before r.there r.still) h))

  cancelled_Holds :
      (fails : ℕ → Bool) (now user_id j : ℕ) (immediate : Bool) (subs : List Subscription)
      → Holds id status subs
      → Holds id status (cancel_subscription fails now user_id j immediate subs).1
  unfolding cancel_subscription update_subscription_status set_cancel_at_period_end
  cancelled_Holds fails now user_id j immediate subs h =
      transact_keeps (Holds id status) subs (cancel_steps fails now user_id j immediate subs) h
        (λ row after run.
          let (sub, there, still, e) =
            cancel_steps_inv fails now user_id j immediate row subs after run in
          let away = other_row id status subs closed h j sub there still in
          subst (Holds id status) (sym e) (elim (Bool-cases immediate) [
            | inl now' ↦ rw now' (
                Holds-update_by id status subs j (set_status now SubscriptionStatus.cancelled)
                  (λ x. refl) away h)
            | inr later ↦
                rw later (Holds-update_by id status subs j (set_cancel true) (λ x. refl) away h)
          ]))

  inserted_Holds :
      (s : Subscription) (subs rows : List Subscription)
      → create_subscription s subs ≡ some rows
      → Holds id status subs
      → Holds id status rows
  unfolding create_subscription
  inserted_Holds s subs rows new h = record {
    row = h.row;
    there = ground (arith, h.there, ==_iff s.id id);
    same = h.same;
    keyed = insert_row-IsKeyed Subscription.id s subs rows h.keyed new;
  }

  created_Holds :
      (fails : ℕ → Bool) (add_date : ℕ → ℕ → ℕ → ℕ) (now j user_id : ℕ)
      (fetched : Result Error Terms) (subs : List Subscription)
      → Holds id status subs
      → Holds id status (create_subscription_from_plan fails add_date now j user_id fetched subs).1
  unfolding create_subscription_from_plan
  created_Holds fails add_date now j user_id (err e) subs h = h
  created_Holds fails add_date now j user_id (ok plan) subs h =
      let s =
        new_subscription j user_id now (calculate_period add_date now plan.billing_cycle) plan in
      elim (Bool-cases (fails 1)) [
        | inl failed ↦ rw failed h
        | inr fine ↦ rw fine (elim (Option-cases (create_subscription s subs)) [
          | inl clash ↦ rw clash h
          | inr (rows, new) ↦ rw new (inserted_Holds s subs rows new h)
        ])
      ]

  Step-Holds :
      (subs : List Subscription) {after : List Subscription}
      → Step subs after
      → Holds id status subs
      → Holds id status after
  Step-Holds subs (created fails add_date now j user_id fetched) h =
      created_Holds fails add_date now j user_id fetched subs h
  Step-Holds subs (renewed fails add_date now j) h = renewed_Holds fails add_date now j subs h
  Step-Holds subs (cancelled fails now user_id j immediate) h =
      cancelled_Holds fails now user_id j immediate subs h
  Step-Holds subs (checked faults now) h = checked_Holds faults now subs h

-- A subscription that is cancelled or terminated keeps that status through any sequence of
-- creations, renewals, cancellations and scheduled checks that run one after the other.
pub closed_forever :
    (id : ℕ) (status : SubscriptionStatus)
    → is_closed status ≡ true
    → (subs : List Subscription) {after : List Subscription} → Reach subs after
    → Holds id status subs
    → Holds id status after
closed_forever id status closed subs here h = h
closed_forever id status closed subs (next {mid = m} r s) h =
    Step-Holds id status closed m s (closed_forever id status closed subs r h)
