-- ===== src/Provisioning/Provision/Outcome.antt =====
-- What a whole run of Execute has done when it returns, with an error or without.
use vps_billing_gemini.Prelude.{
  ◌≡◌, refl, sym, ap, subst, ◌∙◌, Bool, Option, if◌then◌else◌, or_fail, some, Result, ok, err,
  arith,
}
use vps_billing_gemini.Prelude.Table.{find_by, find_by_own}
use vps_billing_gemini.Infrastructure.Model.{Error as InfrastructureError, Node, Reservation}
use vps_billing_gemini.Infrastructure.Store.{Tables}
use vps_billing_gemini.Infrastructure.Reserve.{release_reservation}
use vps_billing_gemini.Infrastructure.Scheduler.{select_and_reserve}
use vps_billing_gemini.Operations.Model.{Operation}
use vps_billing_gemini.Subscriptions.Model.{Subscription}
use vps_billing_gemini.Subscriptions.Store.{find_subscription}
use vps_billing_gemini.Provisioning.Runs.{After, After-bind, After-map, After-try}
use vps_billing_gemini.Provisioning.Model.{Env, State, Error, PlanResources}
use vps_billing_gemini.Provisioning.Provision.Choosing.{
  get_subscription, get_plan, validate, requirements, call_scheduler, select_node,
  lift_infrastructure,
}
use vps_billing_gemini.Provisioning.Provision.Compensation.{Provisioned, provision_on-ends}
use vps_billing_gemini.Provisioning.Provision.{provision_on, execute}

-- What the scheduler returns for a plan, and the tables after it.
abbrev pub scheduled :
    Env
    → Operation
    → State
    → PlanResources
    → Result InfrastructureError (Reservation × Node) × Tables
scheduled env op s plan =
    select_and_reserve env.floats env.world env.list_fails (env.clock 3) (requirements op plan)
      s.tables

read_ok :
    {A : Type 0} (failing : Bool) (found : Option A) (e e' : Error) (a : A)
    → (if failing then err e else or_fail found e') ≡ ok a
    → found ≡ some a
read_ok failing found e e' a h = ground arith

lift-ok :
    {A : Type 0} (r : Result InfrastructureError A) (a : A)
    → lift_infrastructure r ≡ ok a
    → r ≡ ok a
lift-ok (ok b) a h = ground arith
lift-ok (err e) a h = cc

lift-err :
    {A : Type 0} (r : Result InfrastructureError A) (x : Error)
    → lift_infrastructure r ≡ err x
    → (e : InfrastructureError) × (r ≡ err e)
lift-err (ok b) x h = cc
lift-err (err e) x h = (e, refl)

module _ (env : Env) (op : Operation) (s : State) where
  -- The subscription and the plan that the run has read.
  abbrev pub Read : Subscription → PlanResources → Type 0
  Read sub plan =
      (find_subscription op.resource_id s.subscriptions ≡ some sub)
      × (find_by PlanResources.id sub.plan_id env.plans ≡ some plan)

  validate-Read :
      After
        (λ read after.
          Read read.0 read.1 × (after.tables ≡ s.tables) × (after.subscriptions ≡ s.subscriptions))
        (λ after. after.tables ≡ s.tables)
        (validate env op s)
  unfolding validate
  validate-Read =
      After-try _ _ (get_subscription env op) _ _ _
        (λ sub found.
          After-try _ _ (get_plan env op sub) _ _ _
            (λ plan planned. (
              (read_ok (env.fails 0) _ _ _ sub found, read_ok (env.fails 1) _ _ _ plan planned),
              refl,
              refl,
            ))
            (λ e failed. refl))
        (λ e failed. refl)

  -- After a choice of a node that the scheduler has returned.
  abbrev pub Selected : PlanResources → Reservation → Node → Type 0
  Selected plan row node = (scheduled env op s plan).0 ≡ ok (row, node)

  select_node-Selected :
      (plan : PlanResources) (t : State)
      → t.tables ≡ s.tables
      → t.subscriptions ≡ s.subscriptions
      → After
          (λ chosen after.
            Selected plan chosen.0 chosen.1
            × (after.tables ≡ (scheduled env op s plan).1)
            × (after.subscriptions ≡ s.subscriptions))
          (λ after.
            (e : InfrastructureError) × ((scheduled env op s plan).0 ≡ err e)
            × (after.tables ≡ (scheduled env op s plan).1))
          (select_node env op plan t)
  unfolding select_node call_scheduler
  select_node-Selected plan t same subs =
      let e : scheduled env op t plan ≡ scheduled env op s plan =
        ap
          (select_and_reserve env.floats env.world env.list_fails (env.clock 3)
            (requirements op plan))
          same in
      After-try _ _ (call_scheduler env op plan) _ _ _
        (λ chosen h. (sym (ap (λ x. x.0) e) ∙ lift-ok _ chosen h, ap (λ x. x.1) e, subs))
        (λ x h.
          let (i, failed) = lift-err _ x h in (i, sym (ap (λ x. x.0) e) ∙ failed, ap (λ x. x.1) e))

  -- From a property of the tables after the reservation, and one that each way to an error leaves.
  module _ (Holds : Reservation → Tables → Type 0) (Lost : Tables → Type 0)
      (untouched : Lost s.tables)
      (unserved : (plan : PlanResources) (e : InfrastructureError)
        → (scheduled env op s plan).0 ≡ err e
        → find_by PlanResources.id plan.id env.plans ≡ some plan
        → Lost (scheduled env op s plan).1)
      (held : (plan : PlanResources) (row : Reservation) (node : Node)
        → Selected plan row node
        → find_by PlanResources.id plan.id env.plans ≡ some plan
        → Holds row (scheduled env op s plan).1)
      (undone : (plan : PlanResources) (row : Reservation) (node : Node)
        → Selected plan row node
        → (db : Tables) → Holds row db
        → Lost (release_reservation env.release_fails row.id db).1) where
    pub execute-Ends :
        After
          (λ done after.
            (sub : Subscription) × (plan : PlanResources) × (row : Reservation) × (node : Node)
            × Read sub plan
            × Selected plan row node
            × Provisioned env op sub plan row node s.subscriptions (Holds row) after)
          (λ after. Lost after.tables)
          (execute env op s)
    unfolding execute
    execute-Ends =
        After-bind _ (λ after. Lost after.tables) _ _ (validate env op s)
          (After-map _ _ _ (λ after. Lost after.tables) (validate env op s) (λ read t h. h)
            (λ t same. subst Lost (sym same) untouched) validate-Read)
          λ (sub, plan) t (read, same, subs).
            After-bind _ (λ after. Lost after.tables) _ _ (select_node env op plan t)
              (After-map _ _ _ (λ after. Lost after.tables) (select_node env op plan t)
                (λ chosen u h. h)
                (λ u (e, failed, after). subst Lost (sym after) (
                  unserved plan e failed
                    (find_by_own PlanResources.id sub.plan_id env.plans plan read.1)))
                (select_node-Selected plan t same subs))
              λ (row, node) u (chosen, after, kept).
                After-map _ _ _ (λ after. Lost after.tables)
                  (provision_on env op sub plan row node u)
                  (λ done v provisioned. (sub, plan, row, node, read, chosen, provisioned))
                  (λ v lost. lost)
                  (provision_on-ends env op row s.subscriptions (Holds row) Lost
                    (undone plan row node chosen) sub plan node u
                    (
                      subst (Holds row) (sym after) (
                          held plan row node chosen
                            (find_by_own PlanResources.id sub.plan_id env.plans plan read.1)),
                      kept,
                    ))
