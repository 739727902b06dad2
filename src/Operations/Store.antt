-- ===== src/Operations/Store.antt =====
-- The table of operations, and the statements of repository/operations.sql.go on it. An UPDATE of a
-- missing row is no error.
use vps_billing_gemini.Prelude.{
  ℕ, ◌&&◌, List, [], ◌∷◌, Option, none, some, ltb, str_eq, if◌then◌else◌, filter, sort_by, String,
  take, ◌++◌,
}
use vps_billing_gemini.Prelude.Int.{ℤ, pos}
use vps_billing_gemini.Prelude.Table.{find_by, update_by, insert_row}
use vps_billing_gemini.Operations.Model.{
  Status, succeeded, failed, Operation, is_running, is_pending,
}

abbrev pub find_operation : ℕ → List Operation → Option Operation
find_operation = find_by Operation.id

unfoldable pub find_operation_by_key : String → List Operation → Option Operation
find_operation_by_key key [] = none
find_operation_by_key key (op ∷ ops) =
    if str_eq op.idempotency_key key then some op else find_operation_by_key key ops

-- UNIQUE (idempotency_key).
unfoldable pub create_operation_row : Operation → List Operation → Option (List Operation)
create_operation_row op ops = elim (find_operation_by_key op.idempotency_key ops) [
  | none ↦ insert_row Operation.id op ops
  | some _ ↦ none
]

abbrev pub coalesce : Option ℕ → Option ℕ → Option ℕ
coalesce none second = second
coalesce (some t) second = some t

-- toPgText: the empty text is NULL.
abbrev pub or_null : String → Option String
or_null text = if str_eq text "" then none else some text

abbrev pub set_progress : ℕ → Status → String → ℤ → String → Option ℕ → Operation → Operation
set_progress now status phase progress message started_at op = record op {
  status = status;
  phase = or_null phase;
  progress = progress;
  message_key = or_null message;
  started_at = coalesce op.started_at started_at;
  updated_at = now;
}

unfoldable pub update_operation_progress :
    ℕ → ℕ → Status → String → ℤ → String → Option ℕ → List Operation → List Operation
update_operation_progress now id status phase progress message started_at =
    update_by Operation.id id (set_progress now status phase progress message started_at)

abbrev pub set_completed : ℕ → Operation → Operation
set_completed now op = record op {
  status = succeeded;
  progress = pos 100;
  phase = some "completed";
  message_key = some "operations.completed";
  finished_at = some now;
  updated_at = now;
}

unfoldable pub complete_operation_row : ℕ → ℕ → List Operation → List Operation
complete_operation_row now id = update_by Operation.id id (set_completed now)

abbrev pub set_failed : ℕ → String → String → Operation → Operation
set_failed now code message op = record op {
  status = failed;
  error_code = or_null code;
  error_message = or_null message;
  finished_at = some now;
  updated_at = now;
}

unfoldable pub fail_operation_row : ℕ → ℕ → String → String → List Operation → List Operation
fail_operation_row now id code message = update_by Operation.id id (set_failed now code message)

-- An INSERT puts its row in front, so the first created row is the last one of the table.
abbrev pub by_creation : List Operation → List Operation
by_creation [] = []
by_creation (op ∷ ops) = by_creation ops ++ (op ∷ [])

unfoldable pub list_pending_operations : ℕ → List Operation → List Operation
list_pending_operations limit ops =
    take limit (filter (λ op. is_pending op.status) (by_creation ops))

unfoldable pub list_stuck_operations : ℕ → List Operation → List Operation
list_stuck_operations before ops =
    sort_by (λ a b. ltb a.updated_at b.updated_at)
      (filter (λ op. is_running op.status && ltb op.updated_at before) ops)
