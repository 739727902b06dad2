-- ===== src/Operations/Model.antt =====
-- backend/internal/domain/operation/model.go, without the steps of an operation and its created_at.
use vps_billing_gemini.Prelude.{ℕ, Bool, true, false, Option, String}
use vps_billing_gemini.Prelude.Int.{ℤ}

pub data Status : Type 0 where
  queued running waiting_provider waiting_resource verifying retrying : Status
  succeeded failed cancelled : Status

-- The field `kind` is the column `type`.
pub record Operation : Type 0 where
  pub id : ℕ
  pub kind : String
  pub resource_type : String
  pub resource_id : ℕ
  pub status : Status
  pub phase : Option String
  pub progress : ℤ
  pub message_key : Option String
  pub provider_id : Option ℕ
  pub provider_operation_id : Option String
  pub idempotency_key : String
  pub retryable : Bool
  pub retry_count : ℤ
  pub max_retries : ℤ
  pub error_code : Option String
  pub error_message : Option String
  pub trace_id : String
  pub started_at : Option ℕ
  pub finished_at : Option ℕ
  pub updated_at : ℕ

-- IN ('queued', 'retrying').
abbrev pub is_pending : Status → Bool
is_pending queued = true
is_pending retrying = true
is_pending _ = false

abbrev pub is_running : Status → Bool
is_running running = true
is_running _ = false
