-- ===== src/Provisioning/Reconciler/States.antt =====
-- What the reconciler leaves of the rows of instances, and of their states.
use vps_billing_gemini.Prelude.{
  ℕ, ◌≡◌, refl, ap, ◌∙◌, Bool, true, false, not, ◌&&◌, List, [], ◌∷◌, none, String, if◌then◌else◌,
  inl, inr, ok, err, Result, map, arith, Bool-cases, Option-cases, ◌==◌, is_some_eq,
}
use vps_billing_gemini.Infrastructure.Model.{Node}
use vps_billing_gemini.Infrastructure.Store.{list_active_nodes}
use vps_billing_gemini.Infrastructure.Instances.{Instance, list_instances, update_instance_states}
use vps_billing_gemini.Provisioning.Model.{Error, Provider, ProviderInstance}
use vps_billing_gemini.Provisioning.Reconciler.{
  Faults, Fleet, is_silent, is_known, mark_each, mark_node_instances_unknown, take_offline,
  heartbeat_each, reconcile_node_heartbeats, resolve_or_default, get_state, write_state,
  reconcile_seen, name_of, reconcile_one, reconcile_each, reconcile_instance_states,
}

-- All of an instance but its states, the moment of its synchronisation and its version.
abbrev pub identity : Instance → Instance
identity inst = record inst {
  desired_state = "";
  observed_state = "";
  last_synced_at = none;
  version = 0;
}

identity-update :
    (now id : ℕ) (desired observed : String) (rows : List Instance)
    → map identity (update_instance_states now id desired observed none rows) ≡ map identity rows
unfolding update_instance_states
identity-update now id desired observed [] = refl
identity-update now id desired observed (r ∷ rows) = elim (Bool-cases (r.id == id)) [
  | inl here ↦ rw here (ap (λ t. identity r ∷ t) (identity-update now id desired observed rows))
  | inr away ↦ rw away (ap (λ t. identity r ∷ t) (identity-update now id desired observed rows))
]

identity-if :
    (b : Bool) (taken other rows : List Instance)
    → map identity taken ≡ map identity rows
    → map identity other ≡ map identity rows
    → map identity (if b then taken else other) ≡ map identity rows
identity-if true taken other rows h k = h
identity-if false taken other rows h k = k

identity-write :
    (update_fails : ℕ → Bool) (now : ℕ) (inst : Instance) (observed : String) (rows : List Instance)
    → map identity (write_state update_fails now inst observed rows) ≡ map identity rows
identity-write update_fails now inst observed rows =
    ground (arith, identity-update now inst.id inst.desired_state observed rows)

identity-mark :
    (faults : Faults) (now node_id : ℕ) (listed rows : List Instance)
    → map identity (mark_each faults now node_id listed rows) ≡ map identity rows
unfolding mark_each
identity-mark faults now node_id [] rows = refl
identity-mark faults now node_id (inst ∷ rest) rows =
    let on_node = is_some_eq inst.node_id node_id && is_known inst in
    let updated = update_instance_states now inst.id inst.desired_state "unknown" none rows in
    identity-mark faults now node_id rest _
    ∙ identity-if on_node (if faults.update_fails inst.id then rows else updated) rows rows
        (identity-if (faults.update_fails inst.id) rows updated rows refl
          (identity-update now inst.id inst.desired_state "unknown" rows))
        refl

module _ (faults : Faults) (ttl now : ℕ) where
  identity-offline :
      (node_id : ℕ) (rows : List Instance)
      → map identity (mark_node_instances_unknown faults now node_id rows) ≡ map identity rows
  unfolding mark_node_instances_unknown
  identity-offline node_id rows =
      ground (arith, identity-mark faults now node_id (list_instances rows) rows)

  identity-heartbeat :
      (nodes : List Node) (fleet : Fleet)
      → map identity (heartbeat_each faults ttl now nodes fleet).1.instances
        ≡ map identity fleet.instances
  unfolding heartbeat_each
  identity-heartbeat [] fleet = refl
  identity-heartbeat (n ∷ rest) fleet =
      elim (Bool-cases (is_silent ttl now n && not (faults.status_fails n.id))) [
        | inl marked ↦
            rw (heartbeat_each, marked)
              (identity-heartbeat rest (take_offline faults now n fleet)
                ∙ identity-offline n.id fleet.instances)
        | inr spared ↦ rw (heartbeat_each, spared) (identity-heartbeat rest fleet)
      ]

-- The check of the heartbeats deletes, adds and moves no instance: in every row, all but the states, the
-- moment of synchronisation and the version is as before.
pub reconcile_node_heartbeats-identity :
    (faults : Faults) (ttl now : ℕ) (fleet : Fleet)
    → map identity (reconcile_node_heartbeats faults ttl now fleet).1.instances
      ≡ map identity fleet.instances
unfolding reconcile_node_heartbeats
reconcile_node_heartbeats-identity faults ttl now fleet =
    ground (arith, identity-heartbeat faults ttl now (list_active_nodes fleet.nodes) fleet)

module _ (uuid_text : ℕ → String) (providers : List (String × Provider)) (update_fails : ℕ → Bool)
    (now : ℕ) where
  identity-seen :
      (inst : Instance) (answer : Result Error ProviderInstance) (rows : List Instance)
      → map identity (reconcile_seen update_fails now inst answer rows).1 ≡ map identity rows
  unfolding reconcile_seen
  identity-seen inst (err e) rows = identity-write update_fails now inst "unknown" rows
  identity-seen inst (ok seen) rows =
      ground (arith, identity-write update_fails now inst seen.state rows)

  identity-one :
      (inst : Instance) (rows : List Instance)
      → map identity (reconcile_one uuid_text providers update_fails now inst rows).1
        ≡ map identity rows
  unfolding reconcile_one
  identity-one inst rows = elim (Option-cases (name_of inst)) [
    | inl unnamed ↦ rw (reconcile_one, unnamed) refl
    | inr (name, named) ↦
        elim (Option-cases (resolve_or_default uuid_text inst.provider_id providers)) [
          | inl missing ↦ rw (reconcile_one, named, missing) refl
          | inr (prov, there) ↦
              rw (reconcile_one, named, there) (identity-seen inst (get_state prov inst name) rows)
        ]
  ]

  identity-each :
      (listed rows : List Instance)
      → map identity (reconcile_each uuid_text providers update_fails now listed rows).1
        ≡ map identity rows
  unfolding reconcile_each
  identity-each [] rows = refl
  identity-each (inst ∷ rest) rows =
      identity-each rest (reconcile_one uuid_text providers update_fails now inst rows).1
      ∙ identity-one inst rows

-- The comparison with the providers deletes, adds and moves no instance, whatever they answer.
pub reconcile_instance_states-identity :
    (list_fails : Bool) (uuid_text : ℕ → String) (providers : List (String × Provider))
    (update_fails : ℕ → Bool) (now : ℕ) (rows : List Instance)
    → map identity
        (reconcile_instance_states list_fails uuid_text providers update_fails now rows).1
      ≡ map identity rows
unfolding reconcile_instance_states
reconcile_instance_states-identity true uuid_text providers update_fails now rows = refl
reconcile_instance_states-identity false uuid_text providers update_fails now rows =
    identity-each uuid_text providers update_fails now (list_instances rows) rows
