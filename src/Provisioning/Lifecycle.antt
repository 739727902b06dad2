-- ===== src/Provisioning/Lifecycle.antt =====
-- backend/internal/workflow/instance_workflow.go: Execute, for the operations on a stored instance.
pub mod Effect
use vps_billing_gemini.Prelude.{
  ℕ, ◌&&◌, Option, none, some, String, str_eq, if◌then◌else◌, Result, ok, err, or_fail, text_append,
}
use vps_billing_gemini.Prelude.Int.{pos}
use vps_billing_gemini.Infrastructure.Model.{instance_not_found}
use vps_billing_gemini.Infrastructure.Instances.{
  Instance, get_instance_by_id, update_instance_states,
}
use vps_billing_gemini.Operations.Model.{Status, Operation}
use vps_billing_gemini.Operations.Service.{complete_operation, fail_operation}
use vps_billing_gemini.Provisioning.Runs.{Run, ◌>>=◌, ◌>>◌, note, try_or}
use vps_billing_gemini.Provisioning.Model.{
  Error, infrastructure, no_provider, db_error, Env, State, Provider, Action, InstanceActionRequest,
  resolve_provider, mock_vm, named_or,
}
use vps_billing_gemini.Provisioning.Notes.{begun, done, broken, step, progress}

-- The call of the provider that an operation asks for; none for a type that the switch does not name.
unfoldable pub action_of : String → String → Option Action
action_of password kind =
    if str_eq kind "start_instance"
    then some Action.start
    else if str_eq kind "stop_instance"
    then some Action.stop
    else if str_eq kind "restart_instance"
    then some Action.restart
    else if str_eq kind "reinstall_instance"
    then some (Action.reinstall "ubuntu-22.04")
    else if str_eq kind "reset_password"
    then some (Action.reset_password password)
    else if str_eq kind "delete_instance"
    then some Action.delete
    else none

unfoldable pub target_state : String → Instance → String
target_state kind inst =
    if str_eq kind "stop_instance"
    then "stopped"
    else if str_eq kind "reset_password"
    then (if str_eq inst.observed_state "" then "running" else inst.observed_state)
    else if str_eq kind "delete_instance"
    then "deleted"
    else "running"

-- The answer of the provider, whose operation is not used.
abbrev pub respond : Provider → InstanceActionRequest → Option Action → Result Error (Unit {0})
respond prov request none = ok tt
respond prov request (some action) = elim (prov.act action request) [
  | ok answer ↦ ok tt
  | err e ↦ err e
]

abbrev verify_step : String → String
verify_step target =
    if str_eq target "stopped"
    then "verify_stopped"
    else if str_eq target "deleted"
    then "verify_deleted"
    else "verify_running"

abbrev message_of : String → String → String
message_of kind suffix = text_append "operations." (text_append kind suffix)

module _ (env : Env) (op : Operation) where
  unfoldable pub get_instance : Run State Error Instance
  get_instance s = (
    if env.fails 0
        then err db_error
        else or_fail (get_instance_by_id op.resource_id s.instances)
            (infrastructure instance_not_found),
    s,
  )

  abbrev get_failed : Error → State → State
  get_failed e = step env op 2 "validate" (
      broken (pos 20) "INSTANCE_NOT_FOUND" (env.message "failed to get instance: " e) (env.clock 0))

  abbrev pub provider_key : Instance → String
  provider_key inst = elim inst.provider_id [ none ↦ "default" | some id ↦ env.uuid_text id ]

  unfoldable pub provider_of : Instance → Run State Error Provider
  provider_of inst s = (or_fail (resolve_provider (provider_key inst) env.providers) no_provider, s)

  abbrev unavailable : Error → State → State
  unavailable e s = record s {
    operations =
        (fail_operation (env.lost 4) (env.clock 2) op.id "PROVIDER_UNAVAILABLE"
          "no provider available for instance operation" s.operations).1;
  }

  unfoldable pub action_request : Instance → InstanceActionRequest
  action_request inst = record {
    operation_id = op.id;
    idempotency_key = op.idempotency_key;
    node_id = inst.node_id;
    provider_instance_id = named_or (mock_vm env inst.id) inst.provider_instance_id;
  }

  unfoldable pub outcome : Instance → Provider → Result Error (Unit {0})
  unfolding action_request
  outcome inst prov = respond prov (action_request inst) (action_of env.new_password op.kind)

  unfoldable pub call_action : Instance → Provider → Run State Error (Unit {0})
  call_action inst prov s = (outcome inst prov, s)

  abbrev action_failed : Error → State → State
  action_failed e =
      step env op 7 "submit_provider"
        (broken (pos 50) "PROVIDER_FAILED" (env.message "provider action failed: " e) (env.clock 3))

  unfoldable pub write_states : Instance → Run State Error (Unit {0})
  write_states inst s =
      let target = target_state op.kind inst in
      let written = update_instance_states (env.clock 6) inst.id target target none s.instances in
      (
        if env.fails 1 then err db_error else ok tt,
        record s { instances = if env.fails 1 then s.instances else written },
      )

  abbrev write_failed : Instance → Error → State → State
  write_failed inst e = step env op 12 (verify_step (target_state op.kind inst)) (
      broken (pos 80) "DB_UPDATE_FAILED" (env.message "failed to update instance states: " e)
        (env.clock 5))

  abbrev complete : State → State
  complete s = record s {
    operations = (complete_operation (env.lost 15) (env.clock 8) op.id s.operations).1;
  }

  unfoldable pub execute_lifecycle : Run State Error (Unit {0})
  unfolding get_instance provider_of call_action write_states
  execute_lifecycle = do
    note (step env op 0 "validate" (begun (pos 20) (env.clock 0)))
    note (progress env op 1 Status.running "validate" (message_of op.kind ".validate") (pos 20))
    inst ← try_or get_instance get_failed
    note (step env op 3 "validate" (done (env.clock 1)))
    prov ← try_or (provider_of inst) unavailable
    note (step env op 5 "submit_provider" (begun (pos 50) (env.clock 3)))
    note (
        progress env op 6 Status.waiting_provider "submit_provider" (message_of op.kind ".provider")
          (pos 50))
    try_or (call_action inst prov) action_failed
    note (step env op 8 "submit_provider" (done (env.clock 4)))
    note (step env op 9 "wait_provider" (done (env.clock 4)))
    note (step env op 10 (verify_step (target_state op.kind inst)) (begun (pos 80) (env.clock 5)))
    note (
        progress env op 11 Status.running (verify_step (target_state op.kind inst))
          (message_of op.kind ".verify") (pos 80))
    try_or (write_states inst) (write_failed inst)
    note (step env op 13 (verify_step (target_state op.kind inst)) (done (env.clock 7)))
    note (step env op 14 "finish" (done (env.clock 7)))
    note complete
