-- ===== src/Execution/Recovery.antt =====
-- `PostSettlementEngine` (zeus-secretariat/src/core/post-settlement-engine.ts): retries,
-- retrievals, and what `processJob` does with an attempt that a crash left open.
use zeus_insurance_bot.Prelude.{ℕ, ◌+◌, Option, none, some, ltb, if◌then◌else◌}
use zeus_insurance_bot.Evidence
use zeus_insurance_bot.Execution.Types.{
  ExecutionCapability, execution_idempotent, result_retrieval, no_capability, signed_receipt,
  AttemptStatus, RecoveryJobType, JobStatus, FinalStatus, SellerResult, Reason, crash_recovery,
  blind_retry, max_attempts, unknown_capability, ExecutionAttempt, RecoveryJob, no_extra,
  error_extra,
}
use zeus_insurance_bot.Execution.Store.{
  update_attempt_status, update_job_status, create_recovery_attempt_if_owner,
  create_recovery_job_if_owner, resolve_attempt_unresolvable_if_owner,
}
use zeus_insurance_bot.Execution.Attempt.{new_job}
use zeus_insurance_bot.Execution.World.{
  World, Config, Env, Outcome, Report, report, append_evidence, checked, written,
}

module _ (config : Config) (env : Env) where
  -- The attempt that a retry creates: the same execution and the same idempotency key.
  abbrev pub retry_of : RecoveryJob → ExecutionAttempt → ExecutionAttempt
  retry_of j a = record {
    attempt_id = env.attempt_id;
    operation_id = j.operation_id;
    execution_id = a.execution_id;
    attempt_number = a.attempt_number + 1;
    status = AttemptStatus.pending;
    request_url = a.request_url;
    request_method = a.request_method;
    request_body = a.request_body;
    response_status_code = none;
    response_body = none;
    response_headers = none;
    error_reason = none;
    idempotency_key = a.idempotency_key;
    started_at = none;
    completed_at = none;
    created_at = env.now;
  }

  abbrev pub retrieval_job : RecoveryJob → RecoveryJob
  retrieval_job j =
      new_job env.job_id j.operation_id RecoveryJobType.retrieval 1 3
        (record {
          capability = some result_retrieval;
          request_body = none;
          result_retrieval_endpoint = none;
          original_job_id = some j.job_id;
          linked_attempt_id = none;
        })
        env.now

  -- A retry under the fence, with its evidence.
  abbrev pub create_retry :
      RecoveryJob
      → ExecutionAttempt
      → ℕ
      → Reason
      → Option SellerResult
      → World
      → World × Outcome Report
  create_retry j a fence reason result w =
      checked w
        (create_recovery_attempt_if_owner j.job_id a.attempt_id fence (retry_of j a) reason env.now
          w.execution)
        λ w'. (
          append_evidence j.operation_id
              (Evidence.execution_retry_created env.attempt_id a.attempt_id) env.now w',
          report FinalStatus.delivery_unknown result,
        )

  -- Closing a job as UNRESOLVABLE under the fence.
  abbrev pub close_unresolvable :
      RecoveryJob
      → ℕ
      → Reason
      → (World → World)
      → Option SellerResult
      → World
      → World × Outcome Report
  close_unresolvable j fence reason evidence result w =
      checked w
        (update_job_status j.job_id JobStatus.unresolvable fence (error_extra reason) env.now
          w.execution)
        λ w'. (evidence w', report FinalStatus.unresolvable result)

  -- `processJob` on an attempt that was ATTEMPTED when the job was claimed.
  unfoldable pub recover_attempted :
      RecoveryJob → ExecutionAttempt → ℕ → ExecutionCapability → World → World × Outcome Report
  recover_attempted j a fence no_capability w =
      checked w
        (resolve_attempt_unresolvable_if_owner j.job_id a.attempt_id fence crash_recovery
          blind_retry env.now w.execution)
        λ w'. (
          append_evidence j.operation_id (Evidence.execution_unresolvable a.attempt_id) env.now w',
          report FinalStatus.unresolvable none,
        )
  recover_attempted j a fence result_retrieval w =
      checked w
        (create_recovery_job_if_owner j.job_id a.attempt_id fence (retrieval_job j) crash_recovery
          env.now w.execution)
        λ w'. (
          append_evidence j.operation_id (Evidence.retrieval_created env.job_id a.attempt_id)
              env.now w',
          report FinalStatus.delivery_unknown none,
        )
  recover_attempted j a fence execution_idempotent w =
      if ltb j.current_attempt j.max_attempts
      then create_retry j a fence crash_recovery none w
      else checked w
          (update_attempt_status a.attempt_id AttemptStatus.unresolvable fence
            (record no_extra { error_reason = some crash_recovery }) none w.execution)
          λ w'. close_unresolvable j fence (max_attempts j.max_attempts) (λ v. v) none w'
  recover_attempted j a fence signed_receipt w =
      let w' = written w (
        update_attempt_status a.attempt_id AttemptStatus.unresolvable fence
          (record no_extra { error_reason = some crash_recovery }) none w.execution) in
      (
        written w' (
            update_job_status j.job_id JobStatus.unresolvable fence (error_extra unknown_capability)
              env.now w'.execution),
        report FinalStatus.unresolvable none,
      )
