-- ===== src/Provisioning/Reconciler.antt =====
-- backend/internal/reconciler/reconciler.go: ReconcileNodeHeartbeats and ReconcileInstanceStates.
-- VerifyOrAdoptCreate is here too. Moments and the time to live of a node are in nanoseconds.
pub mod States
use vps_billing_gemini.Prelude.{
  ℕ, zero, suc, ◌+◌, ◌-◌, Bool, true, false, not, ◌&&◌, List, [], ◌∷◌, Option, none, some, String,
  str_eq, if◌then◌else◌, ◌==◌, is_some_eq, ltb, Result, ok, err,
}
use vps_billing_gemini.Prelude.Int.{ℤ, pos}
use vps_billing_gemini.Infrastructure.Model.{Node, NodeStatus}
use vps_billing_gemini.Infrastructure.Store.{Tables, list_active_nodes, update_node_status}
use vps_billing_gemini.Infrastructure.Instances.{Instance, list_instances, update_instance_states}
use vps_billing_gemini.Provisioning.Model.{
  Error, Provider, ProviderInstance, GetInstanceRequest, lookup_provider, or_else,
}

-- `if stuckTimeout <= 0` and `if nodeTTL <= 0` of NewReconciler.
unfoldable pub positive_or : ℕ → ℤ → ℕ
positive_or default (pos zero) = default
positive_or default (pos (suc n)) = suc n
positive_or default _ = default

-- 3 minutes and 1 minute.
abbrev pub default_stuck_timeout : ℕ
default_stuck_timeout = 180000000000

abbrev pub default_node_ttl : ℕ
default_node_ttl = 60000000000

-- Failures: the list of nodes, the list of instances after the node of an id, the status of that node, and
-- the update of the instance of an id.
pub record Faults : Type 0 where
  pub list_nodes_fails : Bool
  pub list_instances_fails : ℕ → Bool
  pub status_fails : ℕ → Bool
  pub update_fails : ℕ → Bool

pub record Fleet : Type 0 where
  pub nodes : List Node
  pub instances : List Instance

-- `n.LastSeenAt != nil && now.Sub(*n.LastSeenAt) > r.nodeTTL`.
abbrev pub is_silent : ℕ → ℕ → Node → Bool
is_silent ttl now n = elim n.last_seen_at [ none ↦ false | some seen ↦ ltb (seen + ttl) now ]

abbrev pub is_known : Instance → Bool
is_known inst = not (str_eq inst.observed_state "unknown")

unfoldable pub mark_each : Faults → ℕ → ℕ → List Instance → List Instance → List Instance
mark_each faults now node_id [] rows = rows
mark_each faults now node_id (inst ∷ rest) rows =
    let on_node = is_some_eq inst.node_id node_id && is_known inst in
    let updated = update_instance_states now inst.id inst.desired_state "unknown" none rows in
    let next = if on_node then (if faults.update_fails inst.id then rows else updated) else rows in
    mark_each faults now node_id rest next

unfoldable pub mark_node_instances_unknown : Faults → ℕ → ℕ → List Instance → List Instance
unfolding mark_each
mark_node_instances_unknown faults now node_id rows =
    if faults.list_instances_fails node_id
    then rows
    else mark_each faults now node_id (list_instances rows) rows

abbrev pub take_offline : Faults → ℕ → Node → Fleet → Fleet
take_offline faults now n fleet = record {
  nodes = update_node_status n.id NodeStatus.offline fleet.nodes;
  instances = mark_node_instances_unknown faults now n.id fleet.instances;
}

unfoldable pub heartbeat_each : Faults → ℕ → ℕ → List Node → Fleet → ℕ × Fleet
unfolding mark_node_instances_unknown
heartbeat_each faults ttl now [] fleet = (0, fleet)
heartbeat_each faults ttl now (n ∷ rest) fleet =
    let marked = is_silent ttl now n && not (faults.status_fails n.id) in
    let next = if marked then take_offline faults now n fleet else fleet in
    let out = heartbeat_each faults ttl now rest next in
    (if marked then suc out.0 else out.0, out.1)

-- `none` is the error of the list.
unfoldable pub reconcile_node_heartbeats : Faults → ℕ → ℕ → Fleet → Option ℕ × Fleet
unfolding heartbeat_each
reconcile_node_heartbeats faults ttl now fleet =
    let out = heartbeat_each faults ttl now (list_active_nodes fleet.nodes) fleet in
    if faults.list_nodes_fails then (none, fleet) else (some out.0, out.1)

-- The provider of an id, or else the default one.
unfoldable pub resolve_or_default :
    (ℕ → String) → Option ℕ → List (String × Provider) → Option Provider
resolve_or_default uuid_text none providers = lookup_provider "default" providers
resolve_or_default uuid_text (some id) providers =
    or_else (lookup_provider (uuid_text id) providers) (lookup_provider "default" providers)

abbrev pub get_state : Provider → Instance → String → Result Error ProviderInstance
get_state prov inst name =
    prov.get_instance
      record { node_id = inst.node_id; provider_instance_id = name; platform_instance_id = inst.id }

abbrev pub write_state : (ℕ → Bool) → ℕ → Instance → String → List Instance → List Instance
write_state update_fails now inst observed rows =
    if update_fails inst.id
    then rows
    else update_instance_states now inst.id inst.desired_state observed none rows

-- One instance that has a name at its provider; whether it counts as reconciled.
unfoldable pub reconcile_seen :
    (ℕ → Bool) → ℕ → Instance → Result Error ProviderInstance → List Instance → Bool × List Instance
reconcile_seen update_fails now inst (err e) rows =
    (false, write_state update_fails now inst "unknown" rows)
reconcile_seen update_fails now inst (ok seen) rows =
    if str_eq seen.state inst.observed_state
    then (false, rows)
    else (true, write_state update_fails now inst seen.state rows)

-- The name of the instance at its provider, unless it is missing or empty.
abbrev pub name_of : Instance → Option String
name_of inst = elim inst.provider_instance_id [
  | none ↦ none
  | some name ↦ if str_eq name "" then none else some name
]

unfoldable pub reconcile_one :
    (ℕ → String)
    → List (String × Provider)
    → (ℕ → Bool)
    → ℕ
    → Instance
    → List Instance
    → Bool × List Instance
unfolding reconcile_seen resolve_or_default
reconcile_one uuid_text providers update_fails now inst rows = elim (name_of inst) [
  | none ↦ (false, rows)
  | some name ↦ elim (resolve_or_default uuid_text inst.provider_id providers) [
    | none ↦ (false, rows)
    | some prov ↦ reconcile_seen update_fails now inst (get_state prov inst name) rows
  ]
]

unfoldable pub reconcile_each :
    (ℕ → String)
    → List (String × Provider)
    → (ℕ → Bool)
    → ℕ
    → List Instance
    → List Instance
    → ℕ × List Instance
unfolding reconcile_one
reconcile_each uuid_text providers update_fails now [] rows = (0, rows)
reconcile_each uuid_text providers update_fails now (inst ∷ rest) rows =
    let one = reconcile_one uuid_text providers update_fails now inst rows in
    let out = reconcile_each uuid_text providers update_fails now rest one.1 in
    (if one.0 then suc out.0 else out.0, out.1)

unfoldable pub reconcile_instance_states :
    Bool
    → (ℕ → String)
    → List (String × Provider)
    → (ℕ → Bool)
    → ℕ
    → List Instance
    → Option ℕ × List Instance
unfolding reconcile_each
reconcile_instance_states list_fails uuid_text providers update_fails now rows =
    let out = reconcile_each uuid_text providers update_fails now (list_instances rows) rows in
    if list_fails then (none, rows) else (some out.0, out.1)

-- VerifyOrAdoptCreate: the instance of the answer, if it names itself, is adopted.
unfoldable pub verify_or_adopt_create :
    Bool
    → ℕ
    → Provider
    → ℕ
    → Option ℕ
    → List Instance
    → Result Error (Option ProviderInstance) × List Instance
verify_or_adopt_create update_fails now prov inst_id node_id rows =
    elim (prov.get_instance
      record { node_id = node_id; provider_instance_id = ""; platform_instance_id = inst_id }) [
        | err e ↦ (err e, rows)
        | ok seen ↦
            let name = seen.provider_instance_id in
            let adopted =
              update_instance_states now inst_id "running" seen.state (some name) rows in
            if str_eq name ""
            then (ok none, rows)
            else (ok (some seen), if update_fails then rows else adopted)
      ]
