-- ===== src/Provisioning/Provision/Commits.antt =====
-- The commit of the reservation at the end of Execute, and what its failure leads to.
use vps_billing_gemini.Prelude.{ℕ, Bool, ◌≡◌, refl, sym, ap, subst, ◌∙◌, false, some, ok, arith}
use vps_billing_gemini.Prelude.Table.{find_by, update_by, IsKeyed, find_by-update_by_self}
use mathlib.Core.Path.{fun_ext}
use vps_billing_gemini.Prelude.Int.{int32}
use vps_billing_gemini.Subscriptions.Model.{Subscription}
use vps_billing_gemini.Subscriptions.Store.{find_subscription}
use vps_billing_gemini.Provisioning.Provision.Outcome.{scheduled}
use vps_billing_gemini.Infrastructure.Model.{Node, Reservation, committed}
use vps_billing_gemini.Infrastructure.Store.{
  Tables, find_reservation, set_reservation_status, update_resource_reservation_status,
}
use vps_billing_gemini.Infrastructure.Reserve.{commit_reservation}
use vps_billing_gemini.Infrastructure.Scheduler.Chosen.{select_and_reserve-Chosen}
use vps_billing_gemini.Infrastructure.Instances.{Instance, unless_nil}
use vps_billing_gemini.Operations.Model.{Operation}
use vps_billing_gemini.Provisioning.Model.{Env, State, PlanResources}
use vps_billing_gemini.Provisioning.Provision.Choosing.{requirements}
use vps_billing_gemini.Provisioning.Provision.Compensation.{IsHeld}
use vps_billing_gemini.Provisioning.Provision.Finishing.{new_instance}
use vps_billing_gemini.Provisioning.Provision.Guarantees.{execute-Provisioned}
use vps_billing_gemini.Provisioning.Provision.{execute}

abbrev pub IsCommitted : Reservation → Tables → Type 0
IsCommitted row db =
    find_reservation row.id db.reservations ≡ some (record row { status = committed })

commit_rows :
    (row : Reservation) (db : Tables)
    → IsHeld row db
    → (commit_reservation (λ k. false) row.id db).1.reservations
      ≡ update_by Reservation.id row.id (set_reservation_status committed) db.reservations
unfolding commit_reservation update_resource_reservation_status
commit_rows row db (there, still) = ground arith

commit-IsCommitted :
    (fails : ℕ → Bool) (row : Reservation) (db : Tables)
    → ((k : ℕ) → fails k ≡ false)
    → IsHeld row db
    → IsCommitted row (commit_reservation fails row.id db).1
commit-IsCommitted fails row db fine held =
    subst (λ f. IsCommitted row (commit_reservation f row.id db).1)
      (sym (fun_ext {f = fails} {g = λ k. false} fine))
      (ap (find_reservation row.id) (commit_rows row db held)
        ∙ find_by-update_by_self Reservation.id (set_reservation_status committed) (λ r. refl)
            row.id db.reservations row held.0)

-- The run has read the subscription and its plan, and the scheduler has returned the reservation on the
-- node for the amounts of the plan.
abbrev pub IsChosen :
    Env → Operation → State → Subscription → PlanResources → Reservation → Node → Type 0
IsChosen env op s sub plan row node =
    (find_subscription op.resource_id s.subscriptions ≡ some sub)
    × (find_by PlanResources.id sub.plan_id env.plans ≡ some plan)
    × ((scheduled env op s plan).0 ≡ ok (row, node))
    × (row.node_id ≡ node.id)
    × (row.cpu_cores ≡ plan.cpu_cores)

-- The instance of the run is stored for the subscription, on the node, with the resources of the plan.
abbrev pub IsPlaced : Env → Subscription → PlanResources → Node → State → Type 0
IsPlaced env sub plan node after =
    (inst : Instance) × (find_by Instance.id env.instance_id after.instances ≡ some inst)
    × (inst.subscription_id ≡ sub.id)
    × (inst.node_id ≡ unless_nil (some node.id))
    × (inst.cpu_cores ≡ plan.cpu_cores)
    × (inst.memory_mb ≡ int32 plan.memory_mb)
    × (inst.disk_gb ≡ int32 plan.disk_gb)

-- A run without error: its instance is placed on the node of the reservation that it then tries to commit.
module _ (env : Env) (op : Operation) (s : State) (keyed : IsKeyed Node.id s.tables.nodes)
    (good : (execute env op s).0 ≡ ok tt) where
  placed :
      (sub : Subscription) × (plan : PlanResources) × (row : Reservation) × (node : Node)
      × (before : Tables) × IsChosen env op s sub plan row node
      × IsPlaced env sub plan node (execute env op s).1
      × IsHeld row before
      × ((execute env op s).1.tables ≡ (commit_reservation env.commit_fails row.id before).1)
  unfolding new_instance requirements
  placed =
      let (sub, plan, row, node, read, chosen, p) = execute-Provisioned env op s keyed good in
      let (c, there) =
        select_and_reserve-Chosen env.floats env.world env.list_fails (env.clock 3)
          (requirements op plan) s.tables row node keyed chosen in
      (
        sub,
        plan,
        row,
        node,
        p.before,
        (read.0, read.1, chosen, c.on_node, c.cpu_asked),
        (_, p.stored, refl, refl, refl, refl, refl),
        p.held_before,
        p.committed_from,
      )

-- A run that returns no error, with a commit that does not fail, has read a subscription and its plan,
-- the scheduler has returned a reservation on a node with the CPU cores of the plan, the instance is stored
-- for that subscription on that node with the plan's cores, memory and disk, and that very reservation
-- is stored as committed, with all else as it was returned. The nodes' ids are distinct.
pub execute-IsCommitted :
    (env : Env) (op : Operation) (s : State)
    → IsKeyed Node.id s.tables.nodes
    → (execute env op s).0 ≡ ok tt
    → ((k : ℕ) → env.commit_fails k ≡ false)
    → (sub : Subscription) × (plan : PlanResources) × (row : Reservation) × (node : Node) × IsChosen
        env op s sub plan row node
      × IsPlaced env sub plan node (execute env op s).1
      × IsCommitted row (execute env op s).1.tables
execute-IsCommitted env op s keyed good fine =
    let (sub, plan, row, node, before, chosen, there, held, from) = placed env op s keyed good in
    (
      sub,
      plan,
      row,
      node,
      chosen,
      there,
      subst (IsCommitted row) (sym from) (commit-IsCommitted env.commit_fails row before fine held),
    )
