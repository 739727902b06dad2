-- ===== src/Provisioning/Lifecycle/Effect.antt =====
-- What an operation on an instance changes.
use vps_billing_gemini.Prelude.{
  ℕ, ◌≡◌, refl, true, none, some, inl, inr, ok, err, Result-cases, String, arith, Option, List,
  or_fail,
}
use vps_billing_gemini.Prelude.Table.{find_by, find_by-update_by, key-find_by}
use vps_billing_gemini.Infrastructure.Instances.{
  Instance, get_instance_by_id, update_instance_states, set_states, is_live,
}
use vps_billing_gemini.Operations.Model.{Operation}
use vps_billing_gemini.Provisioning.Runs.{After, After-try, After-ok, After-err}
use vps_billing_gemini.Provisioning.Model.{
  Env, State, Error, Provider, ProviderOperation, InstanceActionRequest, Action, resolve_provider,
  no_provider,
}
use vps_billing_gemini.Provisioning.Lifecycle.{
  action_of, respond, target_state, get_instance, provider_of, provider_key, action_request,
  outcome, call_action, write_states, execute_lifecycle,
}

-- The provider has accepted the call, if there is one.
abbrev pub Accepts : Provider → InstanceActionRequest → Option Action → Type 0
Accepts prov request none = Unit
Accepts prov request (some action) =
    (answer : ProviderOperation) × (prov.act action request ≡ ok answer)

respond-Accepts :
    (prov : Provider) (request : InstanceActionRequest) (asked : Option Action)
    → respond prov request asked ≡ ok tt
    → Accepts prov request asked
respond-Accepts prov request none h = tt
respond-Accepts prov request (some action) h = elim (Result-cases (prov.act action request)) [
  | inl (answer, e) ↦ (answer, e)
  | inr (x, e) ↦ absurd (ground arith)
]

live_inv :
    (id : ℕ) (rows : List Instance) (inst : Instance)
    → get_instance_by_id id rows ≡ some inst
    → (find_by Instance.id id rows ≡ some inst) × (is_live inst ≡ true)
unfolding get_instance_by_id
live_inv id rows inst h = ground arith

get-update_instance_states :
    (now id : ℕ) (desired observed : String) (rows : List Instance) (inst : Instance)
    → find_by Instance.id id rows ≡ some inst
    → is_live inst ≡ true
    → get_instance_by_id id (update_instance_states now inst.id desired observed none rows)
      ≡ some (set_states now desired observed none inst)
unfolding get_instance_by_id update_instance_states
get-update_instance_states now id desired observed rows inst there live = ground (
  arith,
  find_by-update_by Instance.id (set_states now desired observed none) (λ r. refl) id inst.id rows,
  key-find_by Instance.id id rows inst there,
)

module _ (env : Env) (op : Operation) (s : State) where
  -- The instance of the operation is there, the provider that its key resolves to has accepted the call,
  -- and the table of instances has been updated; nodes, reservations and subscriptions are as before.
  pub record Moved (after : State) : Type 0 where
    pub inst : Instance
    pub prov : Provider
    pub there : get_instance_by_id op.resource_id s.instances ≡ some inst
    pub resolved : resolve_provider (provider_key env op inst) env.providers ≡ some prov
    pub accepted : Accepts prov (action_request env op inst) (action_of env.new_password op.kind)
    pub instances_after :
        after.instances
        ≡ update_instance_states
            (env.clock 6)
            inst.id
            (target_state op.kind inst)
            (target_state op.kind inst)
            none
            s.instances
    pub tables_after : after.tables ≡ s.tables
    pub subscriptions_after : after.subscriptions ≡ s.subscriptions

  -- No instance, node, reservation or subscription has changed.
  abbrev pub Untouched : State → Type 0
  Untouched after =
      (after.instances ≡ s.instances)
      × (after.tables ≡ s.tables)
      × (after.subscriptions ≡ s.subscriptions)

  found_there :
      (inst : Instance)
      → (get_instance env op s).0 ≡ ok inst
      → get_instance_by_id op.resource_id s.instances ≡ some inst
  unfolding get_instance
  found_there inst h = ground arith

  resolved_there :
      (inst : Instance) (prov : Provider)
      → or_fail (resolve_provider (provider_key env op inst) env.providers) no_provider ≡ ok prov
      → resolve_provider (provider_key env op inst) env.providers ≡ some prov
  resolved_there inst prov h = ground arith

  lifecycle-Ends : After (λ done. Moved) Untouched (execute_lifecycle env op s)
  unfolding execute_lifecycle outcome call_action get_instance provider_of write_states
  lifecycle-Ends =
      After-try _ _ (get_instance env op) _ _ _
        (λ inst found.
          After-try _ _ (provider_of env op inst) _ _ _
            (λ prov resolved.
              After-try _ _ (call_action env op inst prov) _ _ _
                (λ done accepted.
                  After-try _ _ (write_states env op inst) _ _ _
                    (λ done' written. record {
                      inst = inst;
                      prov = prov;
                      there = found_there inst found;
                      resolved = resolved_there inst prov resolved;
                      accepted =
                          respond-Accepts prov (action_request env op inst)
                            (action_of env.new_password op.kind) accepted;
                      instances_after = ground arith;
                      tables_after = refl;
                      subscriptions_after = refl;
                    })
                    (λ e failed. (ground arith, refl, refl)))
                (λ e failed. (refl, refl, refl)))
            (λ e failed. (refl, refl, refl)))
        (λ e failed. (refl, refl, refl))

pub execute_lifecycle-Moved :
    (env : Env) (op : Operation) (s : State)
    → (execute_lifecycle env op s).0 ≡ ok tt
    → Moved env op s (execute_lifecycle env op s).1
execute_lifecycle-Moved env op s h =
    After-ok _ (Untouched env op s) (execute_lifecycle env op s) tt (lifecycle-Ends env op s) h

-- An operation on an instance that returns an error has changed no instance, node, reservation or
-- subscription: the stored states are never moved ahead of the provider.
pub execute_lifecycle-Untouched :
    (env : Env) (op : Operation) (s : State) (e : Error)
    → (execute_lifecycle env op s).0 ≡ err e
    → Untouched env op s (execute_lifecycle env op s).1
execute_lifecycle-Untouched env op s e h =
    After-err (λ done. Moved env op s) _ (execute_lifecycle env op s) e (lifecycle-Ends env op s) h

-- A deletion that returns no error leaves its instance in the table as a live row in state "deleted",
-- with its node and its CPU cores, and leaves the nodes as they were: the capacity that the instance
-- has been allocated is not given back.
pub execute_lifecycle_delete_keeps :
    (env : Env) (op : Operation) (s : State)
    → op.kind ≡ "delete_instance"
    → (execute_lifecycle env op s).0 ≡ ok tt
    → (inst inst' : Instance) × (get_instance_by_id op.resource_id s.instances ≡ some inst)
      × (get_instance_by_id op.resource_id (execute_lifecycle env op s).1.instances ≡ some inst')
      × (inst'.observed_state ≡ "deleted")
      × (inst'.node_id ≡ inst.node_id)
      × (inst'.cpu_cores ≡ inst.cpu_cores)
      × ((execute_lifecycle env op s).1.tables ≡ s.tables)
unfolding target_state
execute_lifecycle_delete_keeps env op s kind h =
    let m = execute_lifecycle-Moved env op s h in
    let (found, live) = live_inv op.resource_id s.instances m.inst m.there in
    let target : target_state op.kind m.inst ≡ "deleted" = rw kind refl in
    (
      m.inst,
      set_states (env.clock 6) "deleted" "deleted" none m.inst,
      m.there,
      rw (m.instances_after, target)
          (get-update_instance_states (env.clock 6) op.resource_id "deleted" "deleted" s.instances
            m.inst found live),
      refl,
      refl,
      refl,
      m.tables_after,
    )
