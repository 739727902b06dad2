-- ===== src/Operations/Service.antt =====
-- service/operation/service.go, without its broadcasts. A call of the database fails when its oracle
-- says so. The steps of an operation are not modelled: their errors are ignored by the code.
use vps_billing_gemini.Prelude.{
  ℕ, Bool, true, false, List, Option, none, some, String, str_eq, if◌then◌else◌, Result, ok, err,
}
use vps_billing_gemini.Prelude.Int.{ℤ, pos, ltb_ℤ, int32}
use vps_billing_gemini.Operations.Model.{Status, queued, Operation}
use vps_billing_gemini.Operations.Store.{
  find_operation_by_key, create_operation_row, update_operation_progress, complete_operation_row,
  fail_operation_row,
}

pub data Error : Type 0 where
  db_error : Error

pub record CreateOperationInput : Type 0 where
  pub kind : String
  pub resource_type : String
  pub resource_id : ℕ
  pub idempotency_key : String
  pub retryable : Bool
  pub max_retries : ℤ
  pub trace_id : String

-- `message` is the formatted key of the queued message.
abbrev pub new_operation : ℕ → ℕ → String → CreateOperationInput → Operation
new_operation now id message input = record {
  id = id;
  kind = input.kind;
  resource_type = input.resource_type;
  resource_id = input.resource_id;
  status = queued;
  phase = some "queued";
  progress = pos 0;
  message_key = some message;
  provider_id = none;
  provider_operation_id = none;
  idempotency_key = input.idempotency_key;
  retryable = input.retryable;
  retry_count = pos 0;
  max_retries = int32 input.max_retries;
  error_code = none;
  error_message = none;
  trace_id = input.trace_id;
  started_at = none;
  finished_at = none;
  updated_at = now;
}

-- An operation of the same key, unless the key is empty or the read fails (call 0).
unfoldable pub existing_operation : (ℕ → Bool) → String → List Operation → Option Operation
existing_operation fails key ops =
    if str_eq key "" then none else (if fails 0 then none else find_operation_by_key key ops)

unfoldable pub insert_operation :
    (ℕ → Bool) → Operation → List Operation → Result Error Operation × List Operation
insert_operation fails op ops = elim (if fails 1 then none else create_operation_row op ops) [
  | none ↦ (err db_error, ops)
  | some rows ↦ (ok op, rows)
]

unfoldable pub create_operation :
    (ℕ → Bool)
    → ℕ
    → ℕ
    → String
    → CreateOperationInput
    → List Operation
    → Result Error Operation × List Operation
unfolding existing_operation insert_operation
create_operation fails now id message input ops =
    elim (existing_operation fails input.idempotency_key ops) [
      | some op ↦ (ok op, ops)
      | none ↦ insert_operation fails (new_operation now id message input) ops
    ]

unfoldable pub clamp : ℤ → ℤ
clamp progress =
    if ltb_ℤ (pos 100) progress
    then pos 100
    else (if ltb_ℤ progress (pos 0) then pos 0 else progress)

-- The updates return an error when the database does; the Boolean says that they did not.
unfoldable pub update_progress :
    Bool → ℕ → ℕ → Status → String → String → ℤ → Option ℕ → List Operation → Bool × List Operation
unfolding clamp
update_progress failing now id status phase message progress started_at ops =
    if failing then (false, ops) else (
      true,
      update_operation_progress now id status phase (clamp progress) message started_at ops,
    )

unfoldable pub complete_operation : Bool → ℕ → ℕ → List Operation → Bool × List Operation
complete_operation failing now id ops =
    if failing then (false, ops) else (true, complete_operation_row now id ops)

unfoldable pub fail_operation :
    Bool → ℕ → ℕ → String → String → List Operation → Bool × List Operation
fail_operation failing now id code message ops =
    if failing then (false, ops) else (true, fail_operation_row now id code message ops)
