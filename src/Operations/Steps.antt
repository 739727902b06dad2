-- ===== src/Operations/Steps.antt =====
-- The steps of an operation: domain/operation/model.go, their statements in
-- repository/operations.sql.go, and the operations of service/operation/service.go that write them.
use vps_billing_gemini.Prelude.{
  ℕ, suc, ◌+◌, Bool, ◌&&◌, List, [], ◌∷◌, Option, none, some, String, str_eq, if◌then◌else◌, ◌==◌,
  map, Result, ok, err,
}
use vps_billing_gemini.Prelude.Int.{ℤ, pos, int32, ◌+ℤ◌}
use vps_billing_gemini.Prelude.Table.{insert_row, update_by}
use vps_billing_gemini.Operations.Model.{Operation}
use vps_billing_gemini.Operations.Store.{coalesce, or_null}
use vps_billing_gemini.Operations.Service.{
  Error, CreateOperationInput, existing_operation, insert_operation, new_operation,
}

pub data StepStatus : Type 0 where
  pending running succeeded failed skipped : StepStatus

pub record OperationStep : Type 0 where
  pub id : ℕ
  pub operation_id : ℕ
  pub step_key : String
  pub step_order : ℤ
  pub status : StepStatus
  pub progress : ℤ
  pub attempt : ℤ
  pub error_code : Option String
  pub error_message : Option String
  pub started_at : Option ℕ
  pub finished_at : Option ℕ

unfoldable pub create_operation_step :
    OperationStep → List OperationStep → Option (List OperationStep)
create_operation_step = insert_row OperationStep.id

-- What UpdateStep writes.
pub record StepUpdate : Type 0 where
  pub status : StepStatus
  pub progress : ℤ
  pub error_code : Option String
  pub error_message : Option String
  pub started_at : Option ℕ
  pub finished_at : Option ℕ

abbrev pub set_step : StepUpdate → OperationStep → OperationStep
set_step change step = record step {
  status = change.status;
  progress = int32 change.progress;
  attempt = step.attempt +ℤ pos 1;
  error_code = change.error_code;
  error_message = change.error_message;
  started_at = coalesce step.started_at change.started_at;
  finished_at = change.finished_at;
}

abbrev pub is_step : ℕ → String → OperationStep → Bool
is_step operation_id key step = step.operation_id == operation_id && str_eq step.step_key key

unfoldable pub update_operation_step :
    ℕ → String → StepUpdate → List OperationStep → List OperationStep
update_operation_step operation_id key change =
    map λ step. if is_step operation_id key step then set_step change step else step

-- UpdateStep, whose error every caller ignores.
unfoldable pub update_step :
    Bool → ℕ → String → StepUpdate → List OperationStep → List OperationStep
update_step failing operation_id key change steps =
    if failing then steps else update_operation_step operation_id key change steps

abbrev pub set_provider_info : ℕ → ℕ → String → Operation → Operation
set_provider_info now provider_id provider_operation_id op = record op {
  provider_id = some provider_id;
  provider_operation_id = or_null provider_operation_id;
  updated_at = now;
}

-- SetProviderInfo, whose error its caller ignores.
unfoldable pub set_operation_provider_info :
    Bool → ℕ → ℕ → ℕ → String → List Operation → List Operation
set_operation_provider_info failing now id provider_id provider_operation_id ops =
    if failing
    then ops
    else update_by Operation.id id (set_provider_info now provider_id provider_operation_id) ops

abbrev pub new_step : ℕ → ℕ → ℕ → String → OperationStep
new_step id operation_id order key = record {
  id = id;
  operation_id = operation_id;
  step_key = key;
  step_order = pos order;
  status = pending;
  progress = pos 0;
  attempt = pos 0;
  error_code = none;
  error_message = none;
  started_at = none;
  finished_at = none;
}

-- The loop over in.Steps; a step that fails is left out. The step at index i has the id `fresh i`.
unfoldable pub create_steps :
    (ℕ → Bool) → (ℕ → ℕ) → ℕ → ℕ → List String → List OperationStep → List OperationStep
unfolding create_operation_step
create_steps fails fresh operation_id i [] steps = steps
create_steps fails fresh operation_id i (key ∷ keys) steps =
    let made = create_operation_step (new_step (fresh i) operation_id (i + 1) key) steps in
    let kept = if fails i then none else made in
    create_steps fails fresh operation_id (suc i) keys
      (elim kept [ none ↦ steps | some rows ↦ rows ])

-- CreateOperation with its steps: an operation that exists already gets none.
unfoldable pub create_operation_with_steps :
    (ℕ → Bool)
    → (ℕ → Bool)
    → (ℕ → ℕ)
    → ℕ
    → ℕ
    → String
    → CreateOperationInput
    → List String
    → List Operation
    → List OperationStep
    → Result Error Operation × List Operation × List OperationStep
unfolding existing_operation insert_operation create_steps
create_operation_with_steps fails step_fails fresh now id message input keys ops steps =
    elim (existing_operation fails input.idempotency_key ops) [
      | some op ↦ (ok op, ops, steps)
      | none ↦
          let out = insert_operation fails (new_operation now id message input) ops in
          elim out.0 [
            | err e ↦ (err e, out.1, steps)
            | ok op ↦ (ok op, out.1, create_steps step_fails fresh id 0 keys steps)
          ]
    ]
