-- ===== src/Operations/Outcome.antt =====
-- Where an operation stands after the worker has processed it.
use vps_billing_gemini.Prelude.{
  ℕ, ◌≡◌, refl, ◌∙◌, Bool, false, List, Option, none, some, String, inl, inr, Bool-cases,
  if◌then◌else◌,
}
use vps_billing_gemini.Prelude.Int.{pos}
use vps_billing_gemini.Prelude.Table.{find_by-update_by_self}
use vps_billing_gemini.Operations.Model.{Status, running, retrying, succeeded, failed, Operation}
use vps_billing_gemini.Operations.Store.{
  find_operation, set_progress, set_completed, set_failed, update_operation_progress,
  complete_operation_row, fail_operation_row,
}
use vps_billing_gemini.Operations.Service.{
  clamp, update_progress, complete_operation, fail_operation,
}
use vps_billing_gemini.Operations.Worker.{Workflow, Messages, may_retry, finish, process_operation}

-- The row of an id, with what it promises.
abbrev pub Stored : ℕ → (Operation → Type 0) → List Operation → Type 0
Stored id P ops = (r : Operation) × (find_operation id ops ≡ some r) × P r

-- A retry keeps what decides about the next one.
abbrev pub SameTerms : Operation → Operation → Type 0
SameTerms a b =
    (b.kind ≡ a.kind)
    × (b.retryable ≡ a.retryable)
    × (b.retry_count ≡ a.retry_count)
    × (b.max_retries ≡ a.max_retries)

-- A workflow neither deletes operations nor changes the terms of their retries.
abbrev pub KeepsTerms : Workflow → Type 0
KeepsTerms execute =
    (op : Operation) (ops : List Operation) (id : ℕ) (r : Operation)
    → find_operation id ops ≡ some r
    → Stored id (SameTerms r) (execute op ops).1

-- The status that the outcome of a workflow leads to.
abbrev pub status_after : Operation → Option String → Status
status_after op none = succeeded
status_after op (some e) = if may_retry op then retrying else failed

-- The status that `finish` writes, and the terms that it keeps.
abbrev pub Finished : Operation → Option String → Operation → Operation → Type 0
Finished op outcome before r = (r.status ≡ status_after op outcome) × SameTerms before r

finish-Stored :
    (fails : ℕ → Bool) (texts : Messages) (now : ℕ) (op r : Operation) (outcome : Option String)
    (ops : List Operation)
    → fails 1 ≡ false
    → find_operation op.id ops ≡ some r
    → Stored op.id (Finished op outcome r) (finish fails texts now op outcome ops)
unfolding finish complete_operation fail_operation update_progress complete_operation_row
    fail_operation_row update_operation_progress
finish-Stored fails texts now op r none ops fine there = (
  set_completed now r,
  rw (finish, fine)
      (find_by-update_by_self Operation.id (set_completed now) (λ x. refl) op.id ops r there),
  (refl, (refl, refl, refl, refl)),
)
finish-Stored fails texts now op r (some e) ops fine there = elim (Bool-cases (may_retry op)) [
  | inl again ↦
      let f =
        set_progress now retrying "retrying" (clamp op.progress) (texts.retrying_key op.kind)
          none in
      (
        f r,
        rw (finish, again, fine)
            (find_by-update_by_self Operation.id f (λ x. refl) op.id ops r there),
        (rw again refl, (refl, refl, refl, refl)),
      )
  | inr over ↦
      let f = set_failed now "WORKFLOW_FAILED" e in
      (
        f r,
        rw (finish, over, fine)
            (find_by-update_by_self Operation.id f (λ x. refl) op.id ops r there),
        (rw over refl, (refl, refl, refl, refl)),
      )
]

-- The table that the workflow finds.
abbrev pub started : (ℕ → Bool) → Messages → ℕ → Operation → List Operation → List Operation
started fails texts now op ops =
    (update_progress (fails 0) now op.id running "running" (texts.running_key op.kind) (pos 5)
      (some now) ops).1

started-Stored :
    (fails : ℕ → Bool) (texts : Messages) (now : ℕ) (op r : Operation) (ops : List Operation)
    → find_operation op.id ops ≡ some r
    → Stored op.id (SameTerms r) (started fails texts now op ops)
unfolding update_progress update_operation_progress
started-Stored fails texts now op r ops there = elim (Bool-cases (fails 0)) [
  | inl failed' ↦ (r, rw (started, failed') there, (refl, refl, refl, refl))
  | inr fine ↦
      let f =
        set_progress now running "running" (clamp (pos 5)) (texts.running_key op.kind) (some now) in
      (
        f r,
        rw (started, fine) (find_by-update_by_self Operation.id f (λ x. refl) op.id ops r there),
        (refl, refl, refl, refl),
      )
]

-- When the operation's workflow is registered, keeps the terms of retries, and the last update does
-- not fail, then processing leaves a stored operation as succeeded if the workflow succeeded, as
-- retrying if it failed and the operation as it was read may be retried, and as failed otherwise,
-- with the terms of its retries as they were.
pub process_operation-Finished :
    (fails : ℕ → Bool) (registry : String → Option Workflow) (texts : Messages) (now : ℕ)
    (op r : Operation) (execute : Workflow) (ops : List Operation)
    → registry op.kind ≡ some execute
    → KeepsTerms execute
    → fails 1 ≡ false
    → find_operation op.id ops ≡ some r
    → Stored op.id
        (Finished op (execute op (started fails texts now op ops)).0 r)
        (process_operation fails registry texts now op ops)
unfolding process_operation
process_operation-Finished fails registry texts now op r execute ops registered keeps fine there =
    let (r1, there1, t1) = started-Stored fails texts now op r ops there in
    let run = execute op (started fails texts now op ops) in
    let (r2, there2, t2) = keeps op (started fails texts now op ops) op.id r1 there1 in
    let (r3, there3, f3) = finish-Stored fails texts now op r2 run.0 run.1 fine there2 in
    rw (process_operation, registered)
      (
        r3,
        there3,
        (
          f3.0,
          (f3.1.0 ∙ t2.0 ∙ t1.0, f3.1.1 ∙ t2.1 ∙ t1.1, f3.1.2 ∙ t2.2 ∙ t1.2, f3.1.3 ∙ t2.3 ∙ t1.3),
        ),
      )
