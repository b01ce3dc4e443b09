-- ===== src/Execution/Job/Silence.antt =====
-- `processJob` and the seller (zeus-secretariat/src/core/post-settlement-engine.ts).
use zeus_insurance_bot.Prelude.{
  ◌∙◌, sym, ◌+◌, ◌&&◌, Bool-cases, inl, inr, ◌≡◌, arith, ℕ, true, false, none, some, Ident,
  get_last?, lookup-insert_self,
}
use zeus_insurance_bot.Execution.Types.{
  ExecutionAttempt, RecoveryJob, is_pending, is_success, is_unknown, is_terminal, FinalStatus,
  SellerRequest, SellerResult,
}
use zeus_insurance_bot.Execution.Store.{
  get_attempt_by_id, get_attempts_by_operation, mark_attempt_in_progress, claim_job, get_job,
  claimed, is_claimable, put_job,
}
use zeus_insurance_bot.Execution.World.{report, World, Config, Env, fence_rejected, throws}
use zeus_insurance_bot.Execution.Attempt.{execute_attempt, is_retrieval, capability_of}
use zeus_insurance_bot.Execution.Job.{process_attempt, process_job, is_none}

-- An attempt that is not PENDING is not sent: the call throws and changes nothing.
execute_attempt-throws :
    (config : Config) (env : Env) (id : Ident) (fence : ℕ) (job_id : Ident) (w : World)
    (a : ExecutionAttempt)
    → get_attempt_by_id id w.execution ≡ some a
    → is_pending a.status ≡ false
    → execute_attempt config env id fence job_id w ≡ (w, throws fence_rejected)
unfolding execute_attempt mark_attempt_in_progress get_attempt_by_id
execute_attempt-throws config env id fence job_id w a found other = ground arith

-- The same environment with another seller.
abbrev pub with_seller : (SellerRequest → World → World × SellerResult) → Env → Env
with_seller seller env = record env { seller = seller }

pub process_attempt-silent :
    (config : Config) (env : Env) (seller : SellerRequest → World → World × SellerResult)
    (j : RecoveryJob) (a : ExecutionAttempt) (fence : ℕ) (w : World)
    → get_attempt_by_id a.attempt_id w.execution ≡ some a
    → is_pending a.status ≡ false
    → is_retrieval j.job_type ≡ false
    → process_attempt config env j a fence w
      ≡ process_attempt config (with_seller seller env) j a fence w
unfolding process_attempt
process_attempt-silent config env seller j a fence w found sent kind =
    rw
      (
        kind,
        execute_attempt-throws config env a.attempt_id fence j.job_id w a found sent,
        execute_attempt-throws config (with_seller seller env) a.attempt_id fence j.job_id w a found
            sent,
      )
      (ground arith)

-- The stores after a claim of a job.
abbrev pub after_claim : Config → Env → Ident → RecoveryJob → World → World
after_claim config env id j w = record w {
  execution = put_job id (claimed j config.worker_id config.lock_duration_ms env.now) w.execution;
}

pub process_job-claimed :
    (config : Config) (env : Env) (id : Ident) (w : World) (j : RecoveryJob) (a : ExecutionAttempt)
    → get_job id w.execution ≡ some j
    → get_last? (get_attempts_by_operation j.operation_id w.execution) ≡ some a
    → is_claimable j env.now ≡ true
    → process_job config env id w
      ≡ process_attempt config env
          (claimed j config.worker_id config.lock_duration_ms env.now)
          a
          (j.current_attempt + 1)
          (after_claim config env id j w)
unfolding process_job claim_job get_job get_attempts_by_operation
process_job-claimed config env id w j a job latest free = ground (
  arith,
  lookup-insert_self id (claimed j config.worker_id config.lock_duration_ms env.now)
      w.execution.jobs,
)

pub process_job-refused :
    (config : Config) (env : Env) (id : Ident) (w : World) (j : RecoveryJob)
    → get_job id w.execution ≡ some j
    → is_claimable j env.now ≡ false
    → process_job config env id w ≡ (w, report FinalStatus.running none)
unfolding process_job claim_job get_job
process_job-refused config env id w j job taken = ground arith

-- A job that is not a retrieval, whose latest attempt is stored and is not PENDING, never reaches
-- the seller: `processJob` does the same whatever the seller is.
pub process_job-silent :
    (config : Config) (env : Env) (seller : SellerRequest → World → World × SellerResult)
    (id : Ident) (w : World) (j : RecoveryJob) (a : ExecutionAttempt)
    → get_job id w.execution ≡ some j
    → is_retrieval j.job_type ≡ false
    → get_last? (get_attempts_by_operation j.operation_id w.execution) ≡ some a
    → get_attempt_by_id a.attempt_id w.execution ≡ some a
    → is_pending a.status ≡ false
    → process_job config env id w ≡ process_job config (with_seller seller env) id w
unfolding get_attempt_by_id
process_job-silent config env seller id w j a job kind latest found sent =
    elim (Bool-cases (is_claimable j env.now)) [
      | inl free ↦
          process_job-claimed config env id w j a job latest free
          ∙ process_attempt-silent config env seller
              (claimed j config.worker_id config.lock_duration_ms env.now) a (j.current_attempt + 1)
              (after_claim config env id j w) found sent kind
          ∙ sym (process_job-claimed config (with_seller seller env) id w j a job latest free)
      | inr taken ↦
          process_job-refused config env id w j job taken
          ∙ sym (process_job-refused config (with_seller seller env) id w j job taken)
    ]

-- A claimable job that is not a retrieval, whose latest attempt is stored and is HTTP_FAILURE,
-- UNRESOLVABLE, or DELIVERY_UNKNOWN under a capability other than NONE, is not concluded:
-- `processJob` throws `FENCE_REJECTED`, and all it leaves is the claim, with the fence raised, so
-- the next worker meets the same attempt once the claim has expired.
pub process_job-stuck :
    (config : Config) (env : Env) (id : Ident) (w : World) (j : RecoveryJob) (a : ExecutionAttempt)
    → get_job id w.execution ≡ some j
    → is_claimable j env.now ≡ true
    → is_retrieval j.job_type ≡ false
    → get_last? (get_attempts_by_operation j.operation_id w.execution) ≡ some a
    → get_attempt_by_id a.attempt_id w.execution ≡ some a
    → is_terminal a.status ≡ true
    → is_success a.status ≡ false
    → (is_none (capability_of j.metadata) && is_unknown a.status) ≡ false
    → process_job config env id w ≡ (after_claim config env id j w, throws fence_rejected)
unfolding process_attempt get_attempt_by_id
process_job-stuck config env id w j a job free kind latest found concluded unpaid known =
    process_job-claimed config env id w j a job latest free
    ∙ ground (
      arith,
      execute_attempt-throws config env a.attempt_id (j.current_attempt + 1) j.job_id
          (after_claim config env id j w) a found,
    )
