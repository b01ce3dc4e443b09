-- ===== src/Execution/Scanner.antt =====
-- `PostSettlementEngine` (zeus-secretariat/src/core/post-settlement-engine.ts): crash recovery of
-- jobs, and the scanner that gives every settled intent an execution job.
pub mod Obligations
use zeus_insurance_bot.Prelude.{
  ℕ, suc, Bool, true, false, none, some, List, [], ◌∷◌, ◌++◌, Ident, get_last?, if◌then◌else◌,
}
use zeus_insurance_bot.Evidence
use zeus_insurance_bot.Intent.Types.{DurablePaymentIntent, is_standard_paid_call_record}
use zeus_insurance_bot.Intent.Store.Records.{get_settled_intents_without_obligation}
use zeus_insurance_bot.Execution.Types.{
  execution_idempotent, RecoveryJobType, JobStatus, FinalStatus, ExecutionAttempt, RecoveryJob,
  is_terminal,
}
use zeus_insurance_bot.Execution.Store.{get_attempts_by_operation, get_pending_jobs, save_job}
use zeus_insurance_bot.Execution.World.{
  World, Config, Env, Outcome, returns, throws, append_evidence,
}
use zeus_insurance_bot.Execution.Attempt.{new_job, initiate_execution}
use zeus_insurance_bot.Execution.Job.{process_job}

module _ (config : Config) where
  -- The job that the scanner makes for an attempt without one.
  abbrev pub repair_job : Env → Ident → ExecutionAttempt → RecoveryJob
  repair_job env op a =
      let job =
        new_job env.job_id op RecoveryJobType.execution 0 config.max_execution_attempts
          (record {
            capability = some execution_idempotent;
            request_body = none;
            result_retrieval_endpoint = none;
            original_job_id = none;
            linked_attempt_id = some a.attempt_id;
          })
          env.now in
      record job {
        status = if is_terminal a.status then JobStatus.completed else JobStatus.pending;
      }

  -- One intent of the scan; `true` if a job was made for it. What `initiateExecution` throws is
  -- caught.
  unfoldable pub ensure_obligation : Env → DurablePaymentIntent → World → World × Bool
  ensure_obligation env i w =
      let op = i.operation_id in
      if is_standard_paid_call_record i.facilitator_response_body
      then (
        append_evidence op (Evidence.obligation_skipped_standard i.payment_intent_id) env.now w,
        false,
      )
      else elim (get_last? (get_attempts_by_operation op w.execution)) [
        | some a ↦ (
          append_evidence op (Evidence.obligation_repaired env.job_id a.attempt_id a.status) env.now
              (record w { execution = save_job (repair_job env op a) w.execution }),
          true,
        )
        | none ↦
            let (w', started) = initiate_execution config env op execution_idempotent none w in
            elim started [ returns ids ↦ (w', true) | throws e ↦ (w', false) ]
      ]

  -- The loop; the i-th round meets the environment `envs i`.
  unfoldable pub scan : (ℕ → Env) → ℕ → List DurablePaymentIntent → World → World
  unfolding ensure_obligation
  scan envs i [] w = w
  scan envs i (intent ∷ rest) w = scan envs (suc i) rest (ensure_obligation (envs i) intent w).0

  -- `ensureExecutionObligations`, with the store's default limit of 100 intents.
  unfoldable pub ensure_execution_obligations : (ℕ → Env) → World → World
  unfolding scan
  ensure_execution_obligations envs w =
      scan envs 0 (get_settled_intents_without_obligation 100 w.payments) w

  -- The loop of `recoverPendingJobs`; an exception ends it.
  unfoldable pub recover_jobs :
      (ℕ → Env)
      → ℕ
      → List RecoveryJob
      → World
      → List (Ident × FinalStatus)
      → World × Outcome (List (Ident × FinalStatus))
  recover_jobs envs i [] w recovered = (w, returns recovered)
  recover_jobs envs i (j ∷ rest) w recovered =
      let (w', r) = process_job config (envs i) j.job_id w in
      elim r [
        | throws e ↦ (w', throws e)
        | returns x ↦
            recover_jobs envs (suc i) rest w' (recovered ++ (j.job_id, x.final_status) ∷ [])
      ]

  -- `recoverPendingJobs`.
  unfoldable pub recover_pending_jobs :
      (ℕ → Env) → World → World × Outcome (List (Ident × FinalStatus))
  unfolding recover_jobs
  recover_pending_jobs envs w = recover_jobs envs 0 (get_pending_jobs (envs 0).now w.execution) w []
