-- ===== src/Provisioning/Provision/Compensation.antt =====
-- What a run of Execute leaves of the reservation that it has made: released when the run ends with an
-- error.
use vps_billing_gemini.Prelude.{
  ℕ, ◌≡◌, refl, sym, subst, false, some, inl, ok, arith, if◌then◌else◌, List,
}
use vps_billing_gemini.Prelude.Table.{find_by}
use mathlib.Core.Path.{fun_ext}
use vps_billing_gemini.Infrastructure.Model.{Node, Reservation, reserved}
use vps_billing_gemini.Infrastructure.Store.{Tables, find_reservation}
use vps_billing_gemini.Infrastructure.Reserve.{release_reservation, commit_reservation}
use vps_billing_gemini.Infrastructure.Expiry.{IsReleased, release_own}
use vps_billing_gemini.Infrastructure.Instances.{Instance, create_instance, instance_row}
use vps_billing_gemini.Operations.Model.{Operation}
use vps_billing_gemini.Subscriptions.Model.{Subscription, SubscriptionStatus}
use vps_billing_gemini.Subscriptions.Store.{update_subscription_status}
use vps_billing_gemini.Provisioning.Runs.{Triple, Triple-bind, After-try}
use vps_billing_gemini.Provisioning.Model.{
  Env, State, PlanResources, Provider, ProviderOperation, ProviderInstance,
}
use vps_billing_gemini.Provisioning.Provision.Creating.{
  create_request, call_create, call_get, get_request, find_provider, create_on_provider,
  verify_running,
}
use vps_billing_gemini.Provisioning.Provision.Finishing.{
  new_instance, insert_instance, persist, finish, commit,
}
use vps_billing_gemini.Provisioning.Provision.{provision_on}

abbrev pub IsHeld : Reservation → Tables → Type 0
IsHeld row db = (find_reservation row.id db.reservations ≡ some row) × (row.status ≡ reserved)

-- What a run that returns no error has done, from the subscriptions `subs` on: the provider has made
-- and shown the instance, its row is stored, CommitReservation has run on tables of which Holds is true, and
-- the subscription is activated.
pub record Provisioned (env : Env) (op : Operation) (sub : Subscription) (plan : PlanResources)
    (row : Reservation) (node : Node) (subs : List Subscription) (Holds : Tables → Type 0)
    (s : State) : Type 0 where
  pub prov : Provider
  pub made : ProviderOperation
  pub seen : ProviderInstance
  pub before : Tables
  pub created : prov.create_instance (create_request env op plan node) ≡ ok made
  pub shown : prov.get_instance (get_request env op node made) ≡ ok seen
  pub stored :
      find_by Instance.id env.instance_id s.instances
      ≡ some (instance_row env.parse_ip (new_instance env op sub plan node made seen))
  pub held_before : Holds before
  pub committed_from : s.tables ≡ (commit_reservation env.commit_fails row.id before).1
  pub activated : s.subscriptions ≡ (
      if env.fails 3
      then subs
      else update_subscription_status (env.clock 17) sub.id SubscriptionStatus.active subs)

module _ (env : Env) (op : Operation) (inst : Instance) (s : State) where
  insert-tables : (insert_instance env op inst s).1.tables ≡ s.tables
  unfolding insert_instance
  insert-tables = ground arith

  insert-subscriptions : (insert_instance env op inst s).1.subscriptions ≡ s.subscriptions
  unfolding insert_instance
  insert-subscriptions = ground arith

  insert-found :
      (insert_instance env op inst s).0 ≡ ok tt
      → find_by Instance.id inst.id (insert_instance env op inst s).1.instances
        ≡ some (instance_row env.parse_ip inst)
  unfolding insert_instance create_instance
  insert-found h = ground arith

-- A release that does not fail releases a held reservation.
pub release-IsReleased :
    (env : Env) (row : Reservation)
    → ((k : ℕ) → env.release_fails k ≡ false)
    → (db : Tables) → IsHeld row db
    → IsReleased row.id (release_reservation env.release_fails row.id db).1
release-IsReleased env row releases db (there, still) =
    subst (λ f. IsReleased row.id (release_reservation f row.id db).1)
      (sym (fun_ext {f = env.release_fails} {g = λ k. false} releases))
      (release_own row.id db (row, there, inl still))

-- The stages after the reservation, for any property Holds of the tables before them, and any that a
-- release of the reservation then brings about.
module _ (env : Env) (op : Operation) (row : Reservation) (subs : List Subscription)
    (Holds Gone : Tables → Type 0)
    (gone : (db : Tables)
      → Holds db
      → Gone (release_reservation env.release_fails row.id db).1) where
  abbrev pub Held : State → Type 0
  Held s = Holds s.tables × (s.subscriptions ≡ subs)

  abbrev Released : State → Type 0
  Released s = Gone s.tables

  create-Held :
      (plan : PlanResources) (node : Node)
      → Triple Held
          (create_on_provider env op plan row node)
          (λ made s.
            Held s × (made.0.create_instance (create_request env op plan node) ≡ ok made.1))
          Released
  unfolding create_on_provider call_create
  create-Held plan node s h =
      After-try _ _ (find_provider env op node) _ _ _
        (λ prov found.
          After-try _ _ (call_create env op prov plan node) _ _ _ (λ made e. (h, e))
            (λ e refused. gone s.tables h.0))
        (λ e absent. gone s.tables h.0)

  verify-Held :
      (node : Node) (prov : Provider) (made : ProviderOperation)
      → Triple Held
          (verify_running env op row node prov made)
          (λ seen s. Held s × (prov.get_instance (get_request env op node made) ≡ ok seen))
          Released
  unfolding verify_running
  verify-Held node prov made s h =
      After-try _ _ (call_get env op prov node made) _ _ _ (λ seen e. (h, e))
        (λ e failed. gone s.tables h.0)

  persist-Held :
      (inst : Instance)
      → Triple Held
          (persist env op row inst)
          (λ done s.
            Held s
            × (find_by Instance.id inst.id s.instances ≡ some (instance_row env.parse_ip inst)))
          Released
  unfolding persist insert_instance
  persist-Held inst s h =
      After-try _ _ (insert_instance env op inst) _ _ _
        (λ done e. (
          (rw (insert-tables env op inst _) h.0, rw (insert-subscriptions env op inst _) h.1),
          insert-found env op inst _ e,
        ))
        (λ e failed. gone _ (rw (insert-tables env op inst _) h.0))

  pub provision_on-ends :
      (sub : Subscription) (plan : PlanResources) (node : Node)
      → Triple Held
          (provision_on env op sub plan row node)
          (λ done. Provisioned env op sub plan row node subs Holds)
          Released
  unfolding provision_on finish commit new_instance
  provision_on-ends sub plan node =
      Triple-bind _ Released Held _ (create_on_provider env op plan row node) _
        (create-Held plan node)
        λ (prov, made) t h.
          Triple-bind _ Released Held _ (verify_running env op row node prov made) _
            (verify-Held node prov made)
            (λ seen t' g.
              Triple-bind _ Released Held _
                (persist env op row (new_instance env op sub plan node made seen)) _
                (persist-Held (new_instance env op sub plan node made seen))
                (λ done s k. record {
                  prov = prov;
                  made = made;
                  seen = seen;
                  before = s.tables;
                  created = h.1;
                  shown = g.1;
                  stored = k.1;
                  held_before = k.0.0;
                  committed_from = refl;
                  activated = rw (k.0.1) refl;
                })
                t' g.0)
            t h.0
