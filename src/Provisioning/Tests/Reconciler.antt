-- ===== src/Provisioning/Tests/Reconciler.antt =====
-- A node that has missed its heartbeats, and a provider that does not answer.
use vps_billing_gemini.Prelude.{◌≡◌, refl, some, [], ◌∷◌, err, false, map}
use vps_billing_gemini.Infrastructure.Store.{list_active_nodes}
use vps_billing_gemini.Infrastructure.Instances.{Instance, list_instances, update_instance_states}
use vps_billing_gemini.Infrastructure.Tests.{node_two}
use vps_billing_gemini.Provisioning.Model.{Provider, provider_error}
use vps_billing_gemini.Provisioning.Reconciler.{
  Faults, Fleet, reconcile_node_heartbeats, heartbeat_each, mark_node_instances_unknown, mark_each,
  reconcile_instance_states,
}
use vps_billing_gemini.Provisioning.Reconciler.States.{
  identity, reconcile_node_heartbeats-identity, reconcile_instance_states-identity,
}
use vps_billing_gemini.Provisioning.Tests.Provision.{panel}
use vps_billing_gemini.Provisioning.Tests.Lifecycle.{vm}

abbrev calm : Faults
calm = record {
  list_nodes_fails = false;
  list_instances_fails = λ id. false;
  status_fails = λ id. false;
  update_fails = λ id. false;
}

abbrev fleet : Fleet
fleet = record { nodes = record node_two { last_seen_at = some 0 } ∷ []; instances = vm ∷ [] }

-- The node goes offline and its instance is unknown.
silent_run : (reconcile_node_heartbeats calm 60 100 fleet).0 ≡ some 1
unfolding reconcile_node_heartbeats heartbeat_each list_active_nodes
silent_run = refl

silent_states :
    map Instance.observed_state (reconcile_node_heartbeats calm 60 100 fleet).1.instances
    ≡ ("unknown" ∷ [])
unfolding reconcile_node_heartbeats heartbeat_each list_active_nodes mark_node_instances_unknown
    mark_each list_instances update_instance_states
silent_states = refl

reconcile_node_heartbeats-identity_example :
    map identity (reconcile_node_heartbeats calm 60 100 fleet).1.instances
    ≡ map identity fleet.instances
reconcile_node_heartbeats-identity_example = reconcile_node_heartbeats-identity calm 60 100 fleet

abbrev mute : Provider
mute = record panel { get_instance = λ r. err (provider_error "timeout") }

reconcile_instance_states-identity_example :
    map identity
      (reconcile_instance_states false
        (λ id. "uuid")
        (("default", mute) ∷ [])
        (λ id. false)
        100
        (vm ∷ [])).1
    ≡ map identity (vm ∷ [])
reconcile_instance_states-identity_example =
    reconcile_instance_states-identity false (λ id. "uuid") (("default", mute) ∷ []) (λ id. false)
      100 (vm ∷ [])
