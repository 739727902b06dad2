-- ===== src/Provisioning/Provision/Guarantees.antt =====
-- The theorems on whole runs of Execute.
use vps_billing_gemini.Prelude.{
  ℕ, ◌≡◌, ◌⊎◌, refl, sym, subst, false, some, inl, inr, Result, ok, err, All,
}
use vps_billing_gemini.Prelude.Int.{ℤ, pos, ◌≤ℤ◌}
use vps_billing_gemini.Prelude.Table.{find_by, IsKeyed, All-find_by}
use vps_billing_gemini.Infrastructure.Model.{Error as InfrastructureError, Node, Reservation}
use vps_billing_gemini.Infrastructure.Store.{Tables}
use vps_billing_gemini.Infrastructure.Scheduler.Chosen.{select_and_reserve-Chosen}
use vps_billing_gemini.Infrastructure.Scheduler.Sound.{asked, select_and_reserve-IsSound}
use vps_billing_gemini.Infrastructure.Expiry.{IsReleased}
use vps_billing_gemini.Infrastructure.Capacity.Invariant.{Resource, IsSound}
use vps_billing_gemini.Infrastructure.Capacity.Endings.{
  commit_reservation-IsSound, release_reservation-IsSound,
}
use vps_billing_gemini.Operations.Model.{Operation}
use vps_billing_gemini.Subscriptions.Model.{Subscription}
use vps_billing_gemini.Provisioning.Runs.{After, After-ok, After-err}
use vps_billing_gemini.Provisioning.Model.{Env, State, Error, PlanResources}
use vps_billing_gemini.Provisioning.Provision.Choosing.{requirements}
use vps_billing_gemini.Provisioning.Provision.Compensation.{IsHeld, Provisioned, release-IsReleased}
use vps_billing_gemini.Provisioning.Provision.Outcome.{scheduled, Read, Selected, execute-Ends}
use vps_billing_gemini.Provisioning.Provision.{execute}

-- What an error leaves of the tables of nodes and reservations: nothing has happened to them, or the
-- scheduler has returned an error, or the reservation that it has returned is released.
abbrev pub Left : Env → Operation → State → Tables → Type 0
Left env op s db =
    (db ≡ s.tables)
    ⊎ (((plan : PlanResources) × (e : InfrastructureError) × ((scheduled env op s plan).0 ≡ err e)
          × (db ≡ (scheduled env op s plan).1))
        ⊎ ((plan : PlanResources) × (row : Reservation) × (node : Node) × Selected env op s plan row
              node
            × IsReleased row.id db))

module _ (env : Env) (op : Operation) (s : State) (keyed : IsKeyed Node.id s.tables.nodes) where
  scheduled-IsHeld :
      (plan : PlanResources) (row : Reservation) (node : Node)
      → Selected env op s plan row node
      → IsHeld row (scheduled env op s plan).1
  scheduled-IsHeld plan row node chosen =
      let (c, there) =
        select_and_reserve-Chosen env.floats env.world env.list_fails (env.clock 3)
          (requirements op plan) s.tables row node keyed chosen in
      (c.stored, c.is_held)

  Ends :
      After
        (λ done after.
          (sub : Subscription) × (plan : PlanResources) × (row : Reservation) × (node : Node) × Read
            env op s sub plan
          × Selected env op s plan row node
          × Provisioned env op sub plan row node s.subscriptions (IsHeld row) after)
        (λ after. Unit {0})
        (execute env op s)
  Ends =
      execute-Ends env op s IsHeld (λ db. Unit {0}) tt (λ plan e h there. tt)
        (λ plan row node chosen there. scheduled-IsHeld plan row node chosen)
        (λ plan row node chosen db h. tt)

-- A run that returns an error leaves no reservation of its own behind: when the releases do not fail,
-- either the tables of nodes and reservations are as they were, or the scheduler has returned an error
-- and they are as it left them, or the reservation that it returned is released. The nodes' ids are
-- distinct.
pub execute-Left :
    (env : Env) (op : Operation) (s : State) (e : Error)
    → IsKeyed Node.id s.tables.nodes
    → ((k : ℕ) → env.release_fails k ≡ false)
    → (execute env op s).0 ≡ err e
    → Left env op s (execute env op s).1.tables
execute-Left env op s e keyed releases h =
    After-err _ (λ after. Left env op s after.tables) (execute env op s) e
      (execute-Ends env op s IsHeld (Left env op s) (inl refl)
        (λ plan x failed there. inr (inl (plan, x, failed, refl)))
        (λ plan row node chosen there. scheduled-IsHeld env op s keyed plan row node chosen)
        (λ plan row node chosen db held.
          inr (inr (plan, row, node, chosen, release-IsReleased env row releases db held))))
      h

-- A run that returns no error has read the subscription and its plan, the scheduler has returned a node
-- with a reservation, a provider has made and shown the instance, its row is stored on that node for
-- that subscription, CommitReservation has run on the held reservation, and the subscription has been
-- activated unless that update failed. The nodes' ids are distinct.
pub execute-Provisioned :
    (env : Env) (op : Operation) (s : State)
    → IsKeyed Node.id s.tables.nodes
    → (execute env op s).0 ≡ ok tt
    → (sub : Subscription) × (plan : PlanResources) × (row : Reservation) × (node : Node) × Read env
        op s sub plan
      × Selected env op s plan row node
      × Provisioned env op sub plan row node s.subscriptions (IsHeld row) (execute env op s).1
execute-Provisioned env op s keyed h =
    After-ok _ (λ after. Unit {0}) (execute env op s) tt (Ends env op s keyed) h

-- With the accounts of the nodes exact before a run, and kept by what others do while the scheduler
-- tries its candidates, they are exact after it, with an error or without, whatever fails. The amounts
-- of the plans are not negative.
pub execute-IsSound :
    (base : Resource → ℕ → ℤ) (env : Env) (op : Operation) (s : State)
    → ((i : ℕ) (db : Tables) → IsSound base db → IsSound base (env.world.meanwhile i db))
    → All (λ plan. (k : Resource) → pos 0 ≤ℤ asked k (requirements op plan)) env.plans
    → IsSound base s.tables
    → IsSound base (execute env op s).1.tables
execute-IsSound base env op s meanwhile nonneg sound =
    let chosen : (plan : PlanResources)
        → find_by PlanResources.id plan.id env.plans ≡ some plan
        → IsSound base (scheduled env op s plan).1 =
      λ plan there.
        select_and_reserve-IsSound base env.world (requirements op plan) meanwhile
          (All-find_by _ PlanResources.id plan.id env.plans plan nonneg there) env.floats
          env.list_fails (env.clock 3) s.tables sound in
    both (execute env op s) (
      execute-Ends env op s (λ row. IsSound base) (IsSound base) sound
        (λ plan e failed there. chosen plan there) (λ plan row node got there. chosen plan there)
        (λ plan row node got db. release_reservation-IsSound base env.release_fails row.id db))
  where
    both :
        (out : Result Error (Unit {0}) × State)
        → After
            (λ done after.
              (sub : Subscription) × (plan : PlanResources) × (row : Reservation) × (node : Node)
              × Read env op s sub plan
              × Selected env op s plan row node
              × Provisioned env op sub plan row node s.subscriptions (IsSound base) after)
            (λ after. IsSound base after.tables)
            out
        → IsSound base out.1.tables
    both (ok done, after) (sub, plan, row, node, read, got, p) =
        subst (IsSound base) (sym p.committed_from)
          (commit_reservation-IsSound base env.commit_fails row.id p.before p.held_before)
    both (err e, after) h = h
