-- ===== src/Evidence.antt =====
-- Evidence records (zeus-secretariat/src/core/types.ts). The event name and the part of the
-- payload that identifies rows and statuses are one value of `Event`.
use zeus_insurance_bot.Prelude.{ℕ, Bool, Option, Ident, Time}
use zeus_insurance_bot.Operation.Status.{OperationStatus}
use zeus_insurance_bot.Execution.Types.{AttemptStatus, SellerResult}

pub data EvidencePhase : Type 0 where
  discovery policy payment settlement execution delivery recovery final : EvidencePhase

pub data Event : Type 0 where
  execution_initiated : (attempt_id job_id : Ident) → Event
  execution_result_raw : (attempt_id : Ident) → SellerResult → Event
  execution_persist_rejected : (attempt_id : Ident) → Event
  execution_unresolvable : (attempt_id : Ident) → Event
  execution_retry_created : (new_attempt_id original_attempt_id : Ident) → Event
  execution_success : (attempt_id : Ident) (status_code : ℕ) → Event
  execution_http_failure : (attempt_id : Ident) (status_code : ℕ) → Event
  retrieval_created : (retrieval_job_id attempt_id : Ident) → Event
  retrieval_result : (job_id : Ident) → SellerResult → Event
  retrieval_success_not_committed : (job_id attempt_id : Ident) → Event
  retrieval_unresolvable : (job_id : Ident) → Event
  obligation_skipped_standard : (payment_intent_id : Ident) → Event
  obligation_repaired : (job_id attempt_id : Ident) → AttemptStatus → Event
  state_transition : (from to : OperationStatus) → Event
  execution_feedback_skipped : (from to : OperationStatus) → Event
  settlement_feedback_skipped : (from to : OperationStatus) → Event
  standard_execution_discharged : (has_result : Bool) → Event

pub record EvidenceRecord : Type 0 where
  pub operation_id : Ident
  pub phase : EvidencePhase
  pub timestamp : Time
  pub event : Event
  pub sequence : Option ℕ
