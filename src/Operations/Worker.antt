-- ===== src/Operations/Worker.antt =====
-- processOperation of worker/worker.go and ReconcileStuckOperations of reconciler/reconciler.go. The
-- workflow of an operation is an argument: what it returns, and the table that it leaves.
use vps_billing_gemini.Prelude.{
  ℕ, suc, Bool, true, ◌&&◌, List, [], ◌∷◌, Option, none, some, String, if◌then◌else◌,
}
use vps_billing_gemini.Prelude.Int.{pos, ltb_ℤ}
use vps_billing_gemini.Operations.Model.{running, retrying, Operation}
use vps_billing_gemini.Operations.Store.{list_stuck_operations}
use vps_billing_gemini.Operations.Service.{update_progress, complete_operation, fail_operation}

-- Execute: `none` when it succeeds, or the text of its error.
abbrev pub Workflow : Type 0
Workflow = Operation → List Operation → Option String × List Operation

-- The texts that fmt.Sprintf makes of the operation's type.
pub record Messages : Type 0 where
  pub unsupported : String → String
  pub running_key : String → String
  pub retrying_key : String → String

unfoldable pub may_retry : Operation → Bool
may_retry op = op.retryable && ltb_ℤ op.retry_count op.max_retries

-- What follows the workflow; calls 1 are its updates.
unfoldable pub finish :
    (ℕ → Bool) → Messages → ℕ → Operation → Option String → List Operation → List Operation
unfolding may_retry
finish fails texts now op none ops = (complete_operation (fails 1) now op.id ops).1
finish fails texts now op (some e) ops =
    if may_retry op
    then (update_progress (fails 1) now op.id retrying "retrying" (texts.retrying_key op.kind)
        op.progress none ops).1
    else (fail_operation (fails 1) now op.id "WORKFLOW_FAILED" e ops).1

-- `op` is the operation as the poll has read it; the errors of the updates are ignored.
unfoldable pub process_operation :
    (ℕ → Bool)
    → (String → Option Workflow)
    → Messages
    → ℕ
    → Operation
    → List Operation
    → List Operation
unfolding finish
process_operation fails registry texts now op ops = elim (registry op.kind) [
  | none ↦
      (fail_operation (fails 0) now op.id "UNSUPPORTED_OPERATION" (texts.unsupported op.kind) ops).1
  | some execute ↦
      let started =
        (update_progress (fails 0) now op.id running "running" (texts.running_key op.kind) (pos 5)
          (some now) ops).1 in
      let (outcome, after) = execute op started in finish fails texts now op outcome after
]

-- One stuck operation; the count grows with a failure of FailOperation too.
unfoldable pub recover : (ℕ → Bool) → ℕ → Operation → List Operation → Bool × List Operation
unfolding may_retry
recover fails now op ops =
    if may_retry op
    then update_progress (fails op.id) now op.id retrying "retrying"
        "operations.recovered_after_crash" op.progress none ops
    else (
      true,
      (fail_operation (fails op.id) now op.id "WORKER_CRASHED_OR_TIMEOUT"
          "operation timed out with no worker heartbeat" ops).1,
    )

unfoldable pub recover_all : (ℕ → Bool) → ℕ → List Operation → List Operation → ℕ × List Operation
unfolding recover
recover_all fails now [] ops = (0, ops)
recover_all fails now (op ∷ stuck) ops =
    let (done, here) = recover fails now op ops in
    let rest = recover_all fails now stuck here in (if done then suc rest.0 else rest.0, rest.1)

-- `before` is the threshold of the timeout; `none` is the error of the list.
unfoldable pub reconcile_stuck_operations :
    Bool → (ℕ → Bool) → ℕ → ℕ → List Operation → Option ℕ × List Operation
unfolding recover_all
reconcile_stuck_operations list_fails fails now before ops =
    if list_fails
    then (none, ops)
    else (let out = recover_all fails now (list_stuck_operations before ops) ops in
        (some out.0, out.1))
