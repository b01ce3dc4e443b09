-- ===== src/Execution/Attempt.antt =====
-- `PostSettlementEngine` (zeus-secretariat/src/core/post-settlement-engine.ts): starting an
-- execution, and one attempt at the seller.
use zeus_insurance_bot.Prelude.{
  ℕ, Bool, true, false, ◌||◌, Option, none, some, Ident, Opaque, Time, get_or, ◌==◌, if◌then◌else◌,
}
use zeus_insurance_bot.Evidence
use zeus_insurance_bot.Intent.Types.{SettlementState, index}
use zeus_insurance_bot.Intent.Store.{get_payment_intent_by_operation_id}
use zeus_insurance_bot.Execution.Types.{
  ExecutionCapability, no_capability, AttemptStatus, RecoveryJobType, JobStatus, SellerResult,
  SellerRequest, transient_http, unknown_delivery, ExecutionAttempt, RecoveryJob, Metadata,
  AttemptExtra,
}
use zeus_insurance_bot.Execution.Store.{
  save_attempt_with_job, get_attempt_by_id, update_attempt_status, mark_attempt_in_progress,
}
use zeus_insurance_bot.Execution.World.{
  World, Config, Env, attempt_not_found, fence_rejected, attempt_persist_rejected,
  settlement_violation, Outcome, returns, throws, append_evidence,
}

-- `RETRYABLE_SELLER_STATUSES`.
abbrev pub is_retryable : ℕ → Bool
is_retryable c = c == 408 || c == 429 || c == 500 || c == 502 || c == 503 || c == 504

abbrev pub is_retrieval : RecoveryJobType → Bool
is_retrieval RecoveryJobType.retrieval = true
is_retrieval _ = false

-- `metadata?.capability ?? "NONE"`.
abbrev pub capability_of : Option Metadata → ExecutionCapability
capability_of none = no_capability
capability_of (some m) = get_or m.capability no_capability

abbrev pub new_job : Ident → Ident → RecoveryJobType → ℕ → ℕ → Metadata → Time → RecoveryJob
new_job id op type priority bound metadata now = record {
  job_id = id;
  operation_id = op;
  job_type = type;
  status = JobStatus.pending;
  priority = priority;
  max_attempts = bound;
  current_attempt = 0;
  locked_by = none;
  locked_until = none;
  last_error = none;
  metadata = some metadata;
  created_at = now;
  updated_at = now;
}

module _ (config : Config) (env : Env) where
  -- The job with which an execution starts.
  abbrev pub first_job : Ident → ExecutionCapability → Option Opaque → RecoveryJob
  first_job op capability body =
      new_job env.job_id op RecoveryJobType.execution 0 config.max_execution_attempts
        (record {
          capability = some capability;
          request_body = body;
          result_retrieval_endpoint = none;
          original_job_id = none;
          linked_attempt_id = none;
        })
        env.now

  -- `initiateExecution`.
  unfoldable pub initiate_execution :
      Ident → ExecutionCapability → Option Opaque → World → World × Outcome (Ident × Ident)
  initiate_execution op capability body w =
      let attempt : ExecutionAttempt = record {
        attempt_id = env.attempt_id;
        operation_id = op;
        execution_id = op;
        attempt_number = 1;
        status = AttemptStatus.pending;
        request_url = some config.seller_url;
        request_method = some config.seller_method;
        request_body = body;
        response_status_code = none;
        response_body = none;
        response_headers = none;
        error_reason = none;
        idempotency_key = some op;
        started_at = none;
        completed_at = none;
        created_at = env.now;
      } in
      let job = first_job op capability body in
      let created =
        append_evidence op (Evidence.execution_initiated env.attempt_id env.job_id) env.now
          (record w { execution = save_attempt_with_job attempt job w.execution }) in
      elim (get_payment_intent_by_operation_id op w.payments) [
        | none ↦ (w, throws settlement_violation)
        | some i ↦
            if index i.settlement_state == index SettlementState.settled
            then (created, returns (env.attempt_id, env.job_id))
            else (w, throws settlement_violation)
      ]

  -- How `executeAttempt` records an answer of the seller.
  abbrev pub recorded_status : SellerResult → AttemptStatus
  recorded_status (SellerResult.success c b h) = AttemptStatus.success
  recorded_status (SellerResult.http_failure c b h) =
      if is_retryable c then AttemptStatus.delivery_unknown else AttemptStatus.http_failure
  recorded_status (SellerResult.delivery_unknown r) = AttemptStatus.delivery_unknown

  abbrev pub recorded_extra : SellerResult → AttemptExtra
  recorded_extra (SellerResult.success c b h) = record {
    response_status_code = some c;
    response_body = b;
    response_headers = h;
    error_reason = none;
    completed_at = some env.now;
  }
  recorded_extra (SellerResult.http_failure c b h) = record {
    response_status_code = some c;
    response_body = b;
    response_headers = if is_retryable c then none else h;
    error_reason = if is_retryable c then some (transient_http c) else none;
    completed_at = some env.now;
  }
  recorded_extra (SellerResult.delivery_unknown r) = record {
    response_status_code = none;
    response_body = none;
    response_headers = none;
    error_reason = some (unknown_delivery r);
    completed_at = some env.now;
  }

  -- `executeAttempt` once the seller has answered.
  unfoldable pub record_result :
      ExecutionAttempt → ℕ → Ident → SellerResult → World → World × Outcome SellerResult
  record_result a fence job_id result w =
      let w₁ =
        append_evidence a.operation_id (Evidence.execution_result_raw a.attempt_id result) env.now
          w in
      let (s, persisted) =
        update_attempt_status a.attempt_id (recorded_status result) fence (recorded_extra result)
          (some job_id) w₁.execution in
      let w₂ = record w₁ { execution = s } in
      let w₃ =
        append_evidence a.operation_id (Evidence.execution_persist_rejected a.attempt_id) env.now
          w₂ in
      if persisted then (w₂, returns result) else (w₃, throws attempt_persist_rejected)

  abbrev pub seller_request : ExecutionAttempt → SellerRequest
  seller_request a = record {
    idempotency_key = get_or a.idempotency_key a.execution_id;
    url = get_or a.request_url config.seller_url;
    method = get_or a.request_method config.seller_method;
    body = a.request_body;
  }

  -- `executeAttempt`, which `processJob` always calls with its job.
  unfoldable pub execute_attempt : Ident → ℕ → Ident → World → World × Outcome SellerResult
  unfolding record_result
  execute_attempt id fence job_id w = elim (get_attempt_by_id id w.execution) [
    | none ↦ (w, throws attempt_not_found)
    | some a ↦
        let (s, marked) = mark_attempt_in_progress id fence (some job_id) env.now w.execution in
        let (w', result) = env.seller (seller_request a) (record w { execution = s }) in
        if marked
        then record_result a fence job_id result w'
        else (record w { execution = s }, throws fence_rejected)
  ]
