-- ===== src/Execution/Tests.antt =====
-- The theorems on execution at sample rows.
use zeus_insurance_bot.Prelude.{◌≡◌, ◌<◌, refl, inl, none, some, [], ◌∷◌, lookup, insert}
use zeus_insurance_bot.Execution.Types.{
  execution_idempotent, no_capability, AttemptStatus, SellerResult, no_extra,
}
use zeus_insurance_bot.Execution.Store.{
  ExecutionStore, get_job, get_attempt_by_id, get_attempts_by_operation, claim_job,
  update_job_status, update_attempt_status, mark_attempt_in_progress,
}
use zeus_insurance_bot.Execution.Store.Calls.{run, step, claims, updates_attempt, marks}
use zeus_insurance_bot.Execution.Store.Terminal.{Advances, run-Advances}
use zeus_insurance_bot.Execution.Store.Fencing.{Progresses, run-Progresses, IsShutOut}
use zeus_insurance_bot.Execution.Store.Claims.{claim_excludes}
use zeus_insurance_bot.Execution.World.{
  World, Outcome, throws, fence_rejected, Report, append_evidence,
}
use zeus_insurance_bot.Execution.Attempt.{execute_attempt, record_result}
use zeus_insurance_bot.Execution.Job.{process_job, process_attempt, handle_result}
use zeus_insurance_bot.Execution.Job.Silence.{
  process_job-silent, process_job-stuck, with_seller, after_claim,
}
use zeus_insurance_bot.Execution.Job.Honest.{IsCommitted}
use zeus_insurance_bot.Execution.Job.Commit.{process_job-IsCommitted}
use zeus_insurance_bot.Execution.Job.Retries.{attempt_index, process_job-CreatesNoAttempt}
use zeus_insurance_bot.Intent.Store.Records.{append, get_evidence}
use zeus_insurance_bot.Intent.Types.{DurablePaymentIntent}
use zeus_insurance_bot.Samples.{
  no_payments, sample_intent, sample_store, sample_world, sample_config, sample_env, sample_job,
  sample_attempt,
}

abbrev store : ExecutionStore
store = sample_store execution_idempotent AttemptStatus.delivery_unknown

run-Advances_example : Advances (lookup 2 store.attempts) (
    lookup 2
      (run
        (claims 1 50 30000 100 ∷ updates_attempt 2 AttemptStatus.success 1 no_extra (some 1) ∷ [])
        store).attempts)
run-Advances_example =
    run-Advances
      (claims 1 50 30000 100 ∷ updates_attempt 2 AttemptStatus.success 1 no_extra (some 1) ∷ [])
      store 2 (tt, (tt, tt))

run-Progresses_example :
    Progresses
      (lookup 1 store.jobs)
      (lookup 1 (run (claims 1 50 30000 100 ∷ marks 2 1 (some 1) 100 ∷ []) store).jobs)
run-Progresses_example =
    run-Progresses (claims 1 50 30000 100 ∷ marks 2 1 (some 1) 100 ∷ []) store 1 (tt, (tt, tt))

-- Two workers claim the job, the second after the first one's lock has expired.
abbrev first : ExecutionStore
first = (claim_job 1 50 30000 100 store).0

abbrev second : ExecutionStore
second = (claim_job 1 51 30000 40000 (run (marks 2 1 (some 1) 100 ∷ []) first)).0

claim_excludes_example : (1 < 2) × IsShutOut (run (marks 2 2 (some 1) 40001 ∷ []) second) 1 1
unfolding claim_job run step mark_attempt_in_progress lookup insert
claim_excludes_example =
    claim_excludes 1 50 51 30000 30000 100 40000 store first second 1 2
      (marks 2 1 (some 1) 100 ∷ []) (marks 2 2 (some 1) 40001 ∷ []) refl (tt, tt) refl (tt, tt)

abbrev answered : World × Outcome Report
answered =
    process_job sample_config (sample_env (SellerResult.success 200 (some 5) none)) 1
      (sample_world execution_idempotent AttemptStatus.pending)

process_job-IsCommitted_example : IsCommitted 1 2 answered.0.execution
unfolding process_job process_attempt execute_attempt record_result handle_result claim_job get_job
    get_attempt_by_id get_attempts_by_operation mark_attempt_in_progress update_attempt_status
    update_job_status append_evidence append get_evidence lookup insert
process_job-IsCommitted_example =
    process_job-IsCommitted sample_config (sample_env (SellerResult.success 200 (some 5) none))
      (sample_world execution_idempotent AttemptStatus.pending) answered.0
      (sample_job execution_idempotent) (sample_attempt AttemptStatus.pending) _ refl refl refl refl
      refl

process_job-silent_example :
    process_job sample_config
      (sample_env (SellerResult.success 200 (some 5) none))
      1
      (sample_world execution_idempotent AttemptStatus.attempted)
    ≡ process_job sample_config
        (with_seller
          (λ request w. (w, SellerResult.http_failure 500 none none))
          (sample_env (SellerResult.success 200 (some 5) none)))
        1
        (sample_world execution_idempotent AttemptStatus.attempted)
unfolding get_job get_attempt_by_id get_attempts_by_operation lookup
process_job-silent_example =
    process_job-silent sample_config (sample_env (SellerResult.success 200 (some 5) none))
      (λ request w. (w, SellerResult.http_failure 500 none none)) 1
      (sample_world execution_idempotent AttemptStatus.attempted) (sample_job execution_idempotent)
      (sample_attempt AttemptStatus.attempted) refl refl refl refl refl

process_job-stuck_example :
    process_job sample_config
      (sample_env (SellerResult.success 200 (some 5) none))
      1
      (sample_world execution_idempotent AttemptStatus.delivery_unknown)
    ≡ (
      after_claim sample_config
          (sample_env (SellerResult.success 200 (some 5) none))
          1
          (sample_job execution_idempotent)
          (sample_world execution_idempotent AttemptStatus.delivery_unknown),
      throws fence_rejected,
    )
unfolding get_job get_attempt_by_id get_attempts_by_operation lookup
process_job-stuck_example =
    process_job-stuck sample_config (sample_env (SellerResult.success 200 (some 5) none)) 1
      (sample_world execution_idempotent AttemptStatus.delivery_unknown)
      (sample_job execution_idempotent) (sample_attempt AttemptStatus.delivery_unknown) refl refl
      refl refl refl refl refl refl

process_job-CreatesNoAttempt_example :
    attempt_index
      (process_job sample_config
        (sample_env (SellerResult.http_failure 503 none none))
        1
        (sample_world no_capability AttemptStatus.pending)).0
    ≡ attempt_index (sample_world no_capability AttemptStatus.pending)
unfolding get_job lookup
process_job-CreatesNoAttempt_example =
    process_job-CreatesNoAttempt sample_config
      (sample_env (SellerResult.http_failure 503 none none))
      (sample_world no_capability AttemptStatus.pending) 1 (sample_job no_capability) refl
      (inl (λ e. cc)) (λ request w. refl)

-- The operation has an attempt under way and a job already.
abbrev plain_intent : DurablePaymentIntent
plain_intent = record (sample_intent none) { facilitator_response_body = none }

abbrev settled_world : World
settled_world = record (sample_world execution_idempotent AttemptStatus.attempted) {
  payments = record no_payments {
    intents =
        (40, record { intent = plain_intent; settled_bundle = none; not_settled_bundle = none })
        ∷ [];
  };
}
