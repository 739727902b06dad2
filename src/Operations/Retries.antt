-- ===== src/Operations/Retries.antt =====
-- The number of retries is never counted, so an operation that may be retried once is retried for
-- as long as its workflow fails.
use vps_billing_gemini.Prelude.{
  ℕ, zero, suc, ◌≡◌, ◌≢◌, refl, subst, ap, ◌∙◌, true, false, List, [], ◌∷◌, Bool, Bool-cases, ◌⊎◌,
  inl, inr, ◌==◌, ◌||◌, if◌then◌else◌, Option, none, some, String,
}
use vps_billing_gemini.Prelude.Table.{find_by_own, key-find_by}
use vps_billing_gemini.Operations.Model.{retrying, Operation, is_pending}
use vps_billing_gemini.Operations.Store.{find_operation, list_pending_operations}
use vps_billing_gemini.Operations.Worker.{Workflow, Messages, may_retry, process_operation}
use vps_billing_gemini.Operations.Outcome.{
  Stored, SameTerms, KeepsTerms, status_after, started, process_operation-Finished,
}

abbrev pub is_listed : ℕ → List Operation → Bool
is_listed id [] = false
is_listed id (op ∷ ops) = op.id == id || is_listed id ops

-- A poll of the worker, as far as the operation `id` is concerned: when the list of the poll has its row, it
-- is processed without a failure of the database. The ids are unique, so the listed row is the stored one.
unfoldable pub round :
    (String → Option Workflow) → Messages → ℕ → ℕ → ℕ → List Operation → List Operation
unfolding process_operation list_pending_operations
round registry texts limit now id ops =
    if is_listed id (list_pending_operations limit ops)
    then (elim (find_operation id ops) [
      | none ↦ ops
      | some op ↦ process_operation (λ k. false) registry texts now op ops
    ])
    else ops

-- So many polls, one at each unit of time.
unfoldable pub rounds :
    (String → Option Workflow) → Messages → ℕ → ℕ → ℕ → List Operation → List Operation
unfolding round
rounds registry texts limit id zero ops = ops
rounds registry texts limit id (suc n) ops =
    round registry texts limit (suc n) id (rounds registry texts limit id n ops)

-- The operation has a retry left, and is of a type that a workflow is registered for.
abbrev pub HasRetry : String → Operation → Type 0
HasRetry kind r = (may_retry r ≡ true) × (r.kind ≡ kind)

same_retry : (a b : Operation) (kind : String) → SameTerms a b → HasRetry kind a → HasRetry kind b
unfolding may_retry
same_retry a b kind t h = (rw (t.1, t.2, t.3) h.0, t.0 ∙ h.1)

retrying_again :
    (op : Operation) (outcome : Option String)
    → outcome ≢ none
    → may_retry op ≡ true
    → status_after op outcome ≡ retrying
retrying_again op none failing again = absurd (failing refl)
retrying_again op (some e) failing again = rw again refl

-- It waits for a poll, with a retry left.
abbrev pub Waits : String → Operation → Type 0
Waits kind r = HasRetry kind r × (is_pending r.status ≡ true)

module _ (registry : String → Option Workflow) (texts : Messages) (kind : String)
    (execute : Workflow) (registered : registry kind ≡ some execute) (keeps : KeepsTerms execute)
    (failing : (op : Operation) (ops : List Operation) → (execute op ops).0 ≢ none) where
  module _ (limit : ℕ) where
    listed-retrying :
        (now id : ℕ) (ops : List Operation)
        → Stored id (HasRetry kind) ops
        → is_listed id (list_pending_operations limit ops) ≡ true
        → Stored id
            (λ r. HasRetry kind r × (r.status ≡ retrying))
            (round registry texts limit now id ops)
    unfolding round
    listed-retrying now id ops (op, there, h) listed =
        let own : op.id ≡ id = key-find_by Operation.id id ops op there in
        let (r, found, f) =
          process_operation-Finished (λ k. false) registry texts now op op execute ops
            (ap registry h.1 ∙ registered) keeps refl (find_by_own Operation.id id ops op there) in
        let found' : find_operation id (process_operation (λ k. false) registry texts now op ops)
            ≡ some r =
          subst
            (λ j.
              find_operation j (process_operation (λ k. false) registry texts now op ops) ≡ some r)
            own found in
        (
          r,
          rw (round, listed, there) found',
          (
            same_retry op r kind f.1 h,
            f.0 ∙ retrying_again op _ (failing op (started (λ k. false) texts now op ops)) h.0,
          ),
        )

    round-Waits :
        (now id : ℕ) (ops : List Operation)
        → Stored id (Waits kind) ops
        → Stored id (Waits kind) (round registry texts limit now id ops)
    unfolding round
    round-Waits now id ops (op, there, h) =
        elim (Bool-cases (is_listed id (list_pending_operations limit ops))) [
          | inl listed ↦
              let (r, found, (again, state)) = listed-retrying now id ops (op, there, h.0) listed in
              (r, found, (again, rw state refl))
          | inr passed ↦ (op, rw (round, passed) there, h)
        ]

    rounds-Waits :
        (id n : ℕ) (ops : List Operation)
        → Stored id (Waits kind) ops
        → Stored id (Waits kind) (rounds registry texts limit id n ops)
    unfolding rounds
    rounds-Waits id zero ops h = h
    rounds-Waits id (suc n) ops h =
        round-Waits (suc n) id (rounds registry texts limit id n ops) (rounds-Waits id n ops h)

-- A queued or retrying operation that has a retry left, and whose registered workflow always fails and
-- keeps the terms of retries, is queued or retrying with a retry left after any number of polls of any
-- limit, and retrying if the last of them has listed it: it never fails for good. The updates of the
-- polls do not fail, and ids are unique.
pub rounds-retrying :
    (registry : String → Option Workflow) (texts : Messages) (kind : String) (execute : Workflow)
    → registry kind ≡ some execute
    → KeepsTerms execute
    → ((op : Operation) (ops : List Operation) → (execute op ops).0 ≢ none)
    → (limit id n : ℕ) (ops : List Operation) → Stored id (Waits kind) ops
    → Stored id (Waits kind) (rounds registry texts limit id n ops)
      × ((is_listed id (list_pending_operations limit (rounds registry texts limit id n ops))
            ≡ false)
          ⊎ Stored id
              (λ r. HasRetry kind r × (r.status ≡ retrying))
              (rounds registry texts limit id (suc n) ops))
unfolding rounds
rounds-retrying registry texts kind execute registered keeps failing limit id n ops h =
    let (op, there, w) =
      rounds-Waits registry texts kind execute registered keeps failing limit id n ops h in
    (
      (op, there, w),
      elim (Bool-cases
          (is_listed id (list_pending_operations limit (rounds registry texts limit id n ops)))) [
            | inl listed ↦ inr (
                listed-retrying registry texts kind execute registered keeps failing limit (suc n)
                  id (rounds registry texts limit id n ops) (op, there, w.0) listed)
            | inr passed ↦ inl passed
          ],
    )
