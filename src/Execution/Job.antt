-- ===== src/Execution/Job.antt =====
-- `PostSettlementEngine` (zeus-secretariat/src/core/post-settlement-engine.ts): the handling of a
-- seller's answer, the retrieval of a result, and `processJob`.
pub mod Silence
pub mod Honest
pub mod Commit
pub mod Retries
use zeus_insurance_bot.Prelude.{
  ℕ, Bool, true, false, ◌&&◌, Option, none, some, Ident, Opaque, get_or, or_else, get_last?, ltb,
  leb, ◌==◌, if◌then◌else◌,
}
use zeus_insurance_bot.Evidence
use zeus_insurance_bot.Execution.Types.{
  ExecutionCapability, execution_idempotent, result_retrieval, no_capability, signed_receipt,
  AttemptStatus, JobStatus, FinalStatus, SellerResult, SellerRequest, Reason, blind_retry,
  retry_created, retrieval_created, transient_http, unsafe_http, http, max_attempts, not_found_yet,
  retrieval_exhausted, retrieval_failed, no_attempt_found, ExecutionAttempt, RecoveryJob, no_extra,
  no_job_extra, error_extra, is_attempted, is_success, is_unknown,
}
use zeus_insurance_bot.Execution.Store.{
  get_attempts_by_operation, get_job, claim_job, update_attempt_status, update_job_status,
  resolve_retrieval_success_if_owner, create_recovery_job_if_owner,
}
use zeus_insurance_bot.Execution.World.{
  World, Config, Env, job_not_found, Outcome, returns, throws, Report, report, succeeded,
  append_evidence, checked, written,
}
use zeus_insurance_bot.Execution.Attempt.{
  is_retryable, is_retrieval, capability_of, execute_attempt,
}
use zeus_insurance_bot.Execution.Recovery.{
  create_retry, close_unresolvable, retrieval_job, recover_attempted,
}

abbrev pub is_none : ExecutionCapability → Bool
is_none no_capability = true
is_none _ = false

abbrev pub is_result_retrieval : ExecutionCapability → Bool
is_result_retrieval result_retrieval = true
is_result_retrieval _ = false

-- The capability and the bound under which a paid call may be repeated.
abbrev pub may_retry : RecoveryJob → ExecutionCapability → Bool
may_retry j execution_idempotent = ltb j.current_attempt j.max_attempts
may_retry j _ = false

module _ (config : Config) (env : Env) where
  -- The best-effort mark on an attempt; its answer is ignored.
  abbrev pub mark_unresolvable : RecoveryJob → ExecutionAttempt → ℕ → Option Reason → World → World
  mark_unresolvable j a fence reason w = written w (
      update_attempt_status a.attempt_id AttemptStatus.unresolvable fence
        (record no_extra { error_reason = reason }) (some j.job_id) w.execution)

  abbrev pub note_unresolvable : RecoveryJob → ExecutionAttempt → World → World
  note_unresolvable j a w =
      append_evidence j.operation_id (Evidence.execution_unresolvable a.attempt_id) env.now w

  -- `case "HTTP_FAILURE"`.
  unfoldable pub handle_http_failure :
      RecoveryJob
      → ExecutionAttempt
      → ℕ
      → ExecutionCapability
      → ℕ
      → SellerResult
      → World
      → World × Outcome Report
  handle_http_failure j a fence cap code result w =
      if is_retryable code
      then (if may_retry j cap
          then create_retry config env j a fence (transient_http code) (some result) w
          else close_unresolvable config env j fence (transient_http code) (note_unresolvable j a)
              (some result) (mark_unresolvable j a fence (some (unsafe_http code)) w))
      else checked w
          (update_job_status j.job_id JobStatus.failed fence (error_extra (http code)) env.now
            w.execution)
          λ w'. (
            append_evidence j.operation_id (Evidence.execution_http_failure a.attempt_id code)
                env.now w',
            report FinalStatus.http_failure (some result),
          )

  -- `case "DELIVERY_UNKNOWN"`.
  unfoldable pub handle_unknown :
      RecoveryJob
      → ExecutionAttempt
      → ℕ
      → ExecutionCapability
      → SellerResult
      → World
      → World × Outcome Report
  handle_unknown j a fence no_capability result w =
      close_unresolvable config env j fence blind_retry (λ v. v) (some result)
        (mark_unresolvable j a fence none w)
  handle_unknown j a fence result_retrieval result w =
      checked w
        (create_recovery_job_if_owner j.job_id a.attempt_id fence (retrieval_job config env j)
          retrieval_created env.now w.execution)
        λ w'. (w', report FinalStatus.delivery_unknown (some result))
  handle_unknown j a fence execution_idempotent result w =
      if may_retry j execution_idempotent
      then create_retry config env j a fence retry_created (some result) w
      else close_unresolvable config env j fence (max_attempts j.max_attempts) (λ v. v)
          (some result) w
  handle_unknown j a fence signed_receipt result w =
      close_unresolvable config env j fence (max_attempts j.max_attempts) (λ v. v) (some result) w

  -- `switch (result.kind)`.
  unfoldable pub handle_result :
      RecoveryJob
      → ExecutionAttempt
      → ℕ
      → ExecutionCapability
      → SellerResult
      → World
      → World × Outcome Report
  unfolding handle_http_failure handle_unknown
  handle_result j a fence cap (SellerResult.success c b h) w =
      checked w
        (update_job_status j.job_id JobStatus.completed fence no_job_extra env.now w.execution)
        λ w'. (
          append_evidence j.operation_id (Evidence.execution_success a.attempt_id c) env.now w',
          succeeded (some (SellerResult.success c b h)),
        )
  handle_result j a fence cap (SellerResult.http_failure c b h) w =
      handle_http_failure j a fence cap c (SellerResult.http_failure c b h) w
  handle_result j a fence cap (SellerResult.delivery_unknown r) w =
      handle_unknown j a fence cap (SellerResult.delivery_unknown r) w

  abbrev pub retrieval_url : RecoveryJob → ExecutionAttempt → Opaque
  retrieval_url j a =
      let endpoint : Option Opaque = elim (j.metadata) [
        | none ↦ none
        | some m ↦ m.result_retrieval_endpoint
      ] in
      get_or (or_else endpoint config.result_retrieval_url)
        (config.result_url (get_or a.request_url config.seller_url) a.execution_id)

  abbrev pub retrieval_request : RecoveryJob → ExecutionAttempt → SellerRequest
  retrieval_request j a = record {
    idempotency_key = config.retrieval_key a.execution_id;
    url = retrieval_url j a;
    method = config.get;
    body = none;
  }

  -- `performRetrieval` on the answer of the endpoint.
  unfoldable pub handle_retrieval :
      RecoveryJob → ExecutionAttempt → ℕ → SellerResult → World → World × Outcome Report
  handle_retrieval j a fence (SellerResult.success c b h) w =
      let (s, resolved) =
        resolve_retrieval_success_if_owner j.job_id a.attempt_id fence
          (record no_extra {
            response_status_code = some c;
            response_body = b;
            completed_at = some env.now;
          })
          env.now w.execution in
      let w' = record w { execution = s } in
      if resolved then (w', succeeded none) else (
        append_evidence j.operation_id
            (Evidence.retrieval_success_not_committed j.job_id a.attempt_id) env.now w',
        report FinalStatus.running none,
      )
  handle_retrieval j a fence (SellerResult.http_failure c b h) w =
      if c == 404
      then (if leb j.max_attempts j.current_attempt
          then close_unresolvable config env j fence retrieval_exhausted
              (append_evidence j.operation_id (Evidence.retrieval_unresolvable j.job_id) env.now)
              none w
          else checked w
              (update_job_status j.job_id JobStatus.pending fence
                (record { last_error = some not_found_yet; unlock = true }) env.now w.execution)
              λ w'. (w', report FinalStatus.delivery_unknown none))
      else close_unresolvable config env j fence retrieval_failed (λ v. v) none w
  handle_retrieval j a fence (SellerResult.delivery_unknown r) w =
      close_unresolvable config env j fence retrieval_failed (λ v. v) none w

  -- `performRetrieval`.
  unfoldable pub perform_retrieval :
      RecoveryJob → ExecutionAttempt → ℕ → World → World × Outcome Report
  unfolding handle_retrieval
  perform_retrieval j a fence w =
      let (w', result) = env.seller (retrieval_request j a) w in
      handle_retrieval j a fence result
        (append_evidence j.operation_id (Evidence.retrieval_result j.job_id result) env.now w')

  abbrev continue :
      RecoveryJob
      → ExecutionAttempt
      → ℕ
      → ExecutionCapability
      → World × Outcome SellerResult
      → World × Outcome Report
  continue j a fence cap (w, throws e) = (w, throws e)
  continue j a fence cap (w, returns result) = handle_result j a fence cap result w

  -- `processJob` once the latest attempt is known. The `jobId` of the call is `job.jobId`: a job
  -- is stored under its own identifier.
  unfoldable pub process_attempt :
      RecoveryJob → ExecutionAttempt → ℕ → World → World × Outcome Report
  unfolding recover_attempted perform_retrieval execute_attempt handle_result
  process_attempt j a fence w =
      let cap = capability_of j.metadata in
      if is_success a.status
      then checked w
          (update_job_status j.job_id JobStatus.completed fence no_job_extra env.now w.execution)
          (λ w'. (w', succeeded none))
      else if is_attempted a.status
      then recover_attempted config env j a fence cap w
      else if is_none cap && is_unknown a.status
      then close_unresolvable config env j fence blind_retry (note_unresolvable j a) none
          (mark_unresolvable j a fence none w)
      else if is_retrieval j.job_type && is_result_retrieval cap
      then perform_retrieval j a fence w
      else continue j a fence cap (execute_attempt config env a.attempt_id fence j.job_id w)

  -- `processJob`.
  unfoldable pub process_job : Ident → World → World × Outcome Report
  unfolding process_attempt
  process_job id w =
      let (s, claim) = claim_job id config.worker_id config.lock_duration_ms env.now w.execution in
      let w' = record w { execution = s } in
      elim claim [
        | none ↦ (w', report FinalStatus.running none)
        | some fence ↦ elim (get_job id s) [
          | none ↦ (w', throws job_not_found)
          | some j ↦ elim (get_last? (get_attempts_by_operation j.operation_id s)) [
            | none ↦ (
              written w' (
                  update_job_status id JobStatus.failed fence (error_extra no_attempt_found) env.now
                    s),
              report FinalStatus.failed none,
            )
            | some a ↦ process_attempt j a fence w'
          ]
        ]
      ]
