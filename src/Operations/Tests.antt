-- ===== src/Operations/Tests.antt =====
-- Runs of the worker on a small table, and the theorems at such inputs.
use vps_billing_gemini.Prelude.{
  ◌⊎◌, ℕ, ◌≡◌, ◌≢◌, refl, Bool, true, false, List, [], ◌∷◌, Option, none, some, String, map,
}
use vps_billing_gemini.Prelude.Int.{pos}
use vps_billing_gemini.Operations.Model.{Status, queued, retrying, Operation}
use vps_billing_gemini.Operations.Store.{
  list_pending_operations, list_stuck_operations, update_operation_progress, fail_operation_row,
}
use vps_billing_gemini.Operations.Service.{update_progress, fail_operation}
use vps_billing_gemini.Operations.Worker.{
  Workflow, Messages, may_retry, process_operation, reconcile_stuck_operations,
}
use vps_billing_gemini.Operations.Outcome.{Stored, KeepsTerms, Finished, process_operation-Finished}
use vps_billing_gemini.Operations.Retries.{HasRetry, Waits, is_listed, rounds, rounds-retrying}

abbrev fine : ℕ → Bool
fine k = false

abbrev texts : Messages
texts = record { unsupported = λ k. k; running_key = λ k. k; retrying_key = λ k. k }

abbrev broken : Workflow
broken op ops = (some "boom", ops)

abbrev registry : String → Option Workflow
registry kind = some broken

abbrev provisioning : Operation
provisioning = record {
  id = 3;
  kind = "provision";
  resource_type = "instance";
  resource_id = 8;
  status = queued;
  phase = some "queued";
  progress = pos 0;
  message_key = some "operations.provision.queued";
  provider_id = none;
  provider_operation_id = none;
  idempotency_key = "provision-8";
  retryable = true;
  retry_count = pos 0;
  max_retries = pos 1;
  error_code = none;
  error_message = none;
  trace_id = "t";
  started_at = none;
  finished_at = none;
  updated_at = 0;
}

abbrev final : Operation
final = record provisioning { id = 4; retryable = false; status = Status.running }

abbrev ops : List Operation
ops = provisioning ∷ final ∷ []

abbrev statuses : List Operation → List Status
statuses = map Operation.status

retried :
    statuses (process_operation fine registry texts 7 provisioning ops)
    ≡ retrying ∷ Status.running ∷ []
unfolding process_operation update_operation_progress update_progress
retried = refl

given_up :
    statuses (process_operation fine registry texts 7 final ops) ≡ queued ∷ Status.failed ∷ []
unfolding process_operation update_operation_progress fail_operation_row fail_operation
    update_progress
given_up = refl

recovered : (reconcile_stuck_operations false fine 900 700 ops).0 ≡ some 1
unfolding reconcile_stuck_operations list_stuck_operations fail_operation_row
recovered = refl

broken-KeepsTerms : KeepsTerms broken
broken-KeepsTerms op table id r there = (r, there, (refl, refl, refl, refl))

process_operation-Finished_example :
    Stored 4
      (Finished final (some "boom") final)
      (process_operation fine registry texts 7 final ops)
process_operation-Finished_example =
    process_operation-Finished fine registry texts 7 final final broken ops refl broken-KeepsTerms
      refl refl

may_retry_once : may_retry provisioning ≡ true
unfolding may_retry
may_retry_once = refl

never_none : (e : String) → some e ≢ none
never_none e h = cc

rounds-retrying_example :
    Stored 3 (Waits "provision") (rounds registry texts 5 3 5 ops)
    × ((is_listed 3 (list_pending_operations 5 (rounds registry texts 5 3 5 ops)) ≡ false)
        ⊎ Stored 3
            (λ r. HasRetry "provision" r × (r.status ≡ retrying))
            (rounds registry texts 5 3 6 ops))
rounds-retrying_example =
    rounds-retrying registry texts "provision" broken refl broken-KeepsTerms
      (λ op table. never_none "boom") 5 3 5 ops (provisioning, refl, ((may_retry_once, refl), refl))

listed_again : is_listed 3 (list_pending_operations 5 (rounds registry texts 5 3 1 ops)) ≡ true
unfolding rounds list_pending_operations process_operation update_operation_progress update_progress
listed_again = refl
