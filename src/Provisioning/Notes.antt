-- ===== src/Provisioning/Notes.antt =====
-- The updates of steps and of progress between the calls of a workflow. Their errors are ignored
-- (`_ = w.opSvc.UpdateStep(...)`), so each is a function on the tables.
use vps_billing_gemini.Prelude.{ℕ, none, some, String}
use vps_billing_gemini.Prelude.Int.{ℤ, pos}
use vps_billing_gemini.Operations.Model.{Status, Operation}
use vps_billing_gemini.Operations.Service.{update_progress}
use vps_billing_gemini.Operations.Steps.{StepUpdate, StepStatus, update_step}
use vps_billing_gemini.Provisioning.Model.{Env, State}

abbrev pub begun : ℤ → ℕ → StepUpdate
begun progress start = record {
  status = StepStatus.running;
  progress = progress;
  error_code = none;
  error_message = none;
  started_at = some start;
  finished_at = none;
}

abbrev pub done : ℕ → StepUpdate
done end = record {
  status = StepStatus.succeeded;
  progress = pos 100;
  error_code = none;
  error_message = none;
  started_at = none;
  finished_at = some end;
}

-- Begun and done at one moment.
abbrev pub done_at_once : ℕ → StepUpdate
done_at_once moment = record (done moment) { started_at = some moment }

abbrev pub broken : ℤ → String → String → ℕ → StepUpdate
broken progress code message moment = record {
  status = StepStatus.failed;
  progress = progress;
  error_code = some code;
  error_message = some message;
  started_at = none;
  finished_at = some moment;
}

module _ (env : Env) (op : Operation) where
  abbrev pub step : ℕ → String → StepUpdate → State → State
  step i key change s = record s { steps = update_step (env.lost i) op.id key change s.steps }

  abbrev pub progress : ℕ → Status → String → String → ℤ → State → State
  progress i status phase message percent s = record s {
    operations =
        (update_progress (env.lost i) (env.clock i) op.id status phase message percent none
          s.operations).1;
  }
