-- ===== src/Execution/Job/Retries.antt =====
-- When `processJob` creates a new attempt
-- (zeus-secretariat/src/core/post-settlement-engine.ts).
use zeus_insurance_bot.Evidence
use zeus_insurance_bot.Prelude.{
  ap, lookup-insert_self, ◌≡◌, ◌∙◌, ◌≢◌, refl, ◌⊎◌, inl, inr, ◌≤◌, ◌+◌, arith, ℕ, true, false,
  Bool-cases, none, some, Ident, Option-cases, get_last?, List, Map,
}
use zeus_insurance_bot.Execution.Types.{
  ExecutionAttempt, RecoveryJob, SellerResult, SellerRequest, ExecutionCapability,
  execution_idempotent,
}
use zeus_insurance_bot.Execution.Store.{
  is_claimable, claimed, get_attempts_by_operation, get_attempt_by_id, get_job, update_job_status,
  update_attempt_status, resolve_retrieval_success_if_owner, mark_attempt_in_progress,
  create_recovery_job_if_owner, resolve_attempt_unresolvable_if_owner, claim_job,
}
use zeus_insurance_bot.Execution.World.{
  World, Config, Env, Outcome, throws, returns, append_evidence,
}
use zeus_insurance_bot.Execution.Attempt.{
  execute_attempt, record_result, capability_of, seller_request,
}
use zeus_insurance_bot.Execution.Recovery.{recover_attempted}
use zeus_insurance_bot.Execution.Job.Silence.{after_claim, process_job-claimed, process_job-refused}
use zeus_insurance_bot.Execution.Job.{
  continue, may_retry, process_attempt, process_job, handle_http_failure, handle_unknown,
  handle_result, handle_retrieval, perform_retrieval, retrieval_request,
}

-- The index of attempts, which every new attempt enters.
abbrev pub attempt_index : World → Map (List Ident)
attempt_index w = w.execution.attempts_by_op

-- A seller, and the other workers while it answers, that create no attempt.
abbrev pub CreatesNoAttempt : Env → Type 0
CreatesNoAttempt env =
    (request : SellerRequest) (w : World) → attempt_index (env.seller request w).0 ≡ attempt_index w

module _ (config : Config) (env : Env) (j : RecoveryJob) (a : ExecutionAttempt) (fence : ℕ) where
  record_result-keeps :
      (b : ExecutionAttempt) (job : Ident) (result : SellerResult) (w : World)
      → attempt_index (record_result config env b fence job result w).0 ≡ attempt_index w
  unfolding record_result append_evidence update_job_status update_attempt_status
      resolve_retrieval_success_if_owner create_recovery_job_if_owner
      resolve_attempt_unresolvable_if_owner
  record_result-keeps b job result w = ground arith

  handle_http_failure-keeps :
      (cap : ExecutionCapability) (code : ℕ) (result : SellerResult) (w : World)
      → may_retry j cap ≡ false
      → attempt_index (handle_http_failure config env j a fence cap code result w).0
        ≡ attempt_index w
  unfolding handle_http_failure append_evidence update_job_status update_attempt_status
      resolve_retrieval_success_if_owner create_recovery_job_if_owner
      resolve_attempt_unresolvable_if_owner
  handle_http_failure-keeps cap code result w barred = ground arith

  handle_unknown-keeps :
      (cap : ExecutionCapability) (result : SellerResult) (w : World)
      → may_retry j cap ≡ false
      → attempt_index (handle_unknown config env j a fence cap result w).0 ≡ attempt_index w
  unfolding handle_unknown append_evidence update_job_status update_attempt_status
      resolve_retrieval_success_if_owner create_recovery_job_if_owner
      resolve_attempt_unresolvable_if_owner
  handle_unknown-keeps cap result w barred = ground arith

  recover_attempted-keeps :
      (cap : ExecutionCapability) (w : World)
      → may_retry j cap ≡ false
      → attempt_index (recover_attempted config env j a fence cap w).0 ≡ attempt_index w
  unfolding recover_attempted append_evidence update_job_status update_attempt_status
      resolve_retrieval_success_if_owner create_recovery_job_if_owner
      resolve_attempt_unresolvable_if_owner
  recover_attempted-keeps cap w barred = ground arith

  handle_retrieval-keeps :
      (result : SellerResult) (w : World)
      → attempt_index (handle_retrieval config env j a fence result w).0 ≡ attempt_index w
  unfolding handle_retrieval append_evidence update_job_status update_attempt_status
      resolve_retrieval_success_if_owner create_recovery_job_if_owner
      resolve_attempt_unresolvable_if_owner
  handle_retrieval-keeps result w = ground arith

  perform_retrieval-keeps :
      (w : World)
      → CreatesNoAttempt env
      → attempt_index (perform_retrieval config env j a fence w).0 ≡ attempt_index w
  unfolding perform_retrieval append_evidence
  perform_retrieval-keeps w calm =
      let (w', result) = env.seller (retrieval_request config env j a) w in
      handle_retrieval-keeps result
        (append_evidence j.operation_id (Evidence.retrieval_result j.job_id result) env.now w')
      ∙ calm (retrieval_request config env j a) w

  execute_attempt-keeps :
      (id job : Ident) (w : World)
      → CreatesNoAttempt env
      → attempt_index (execute_attempt config env id fence job w).0 ≡ attempt_index w
  unfolding execute_attempt mark_attempt_in_progress get_attempt_by_id
  execute_attempt-keeps id job w calm = elim (Option-cases (get_attempt_by_id id w.execution)) [
    | inl missing ↦ ground arith
    | inr (b, found) ↦
        let (s, marked) = mark_attempt_in_progress id fence (some job) env.now w.execution in
        let v = record w { execution = s } in
        let (w', answer) = env.seller (seller_request config env b) v in
        ground (arith, record_result-keeps b job answer w', calm (seller_request config env b) v)
  ]

  continue-keeps :
      (cap : ExecutionCapability) (r : World × Outcome SellerResult)
      → may_retry j cap ≡ false
      → attempt_index (continue config env j a fence cap r).0 ≡ attempt_index r.0
  unfolding handle_result append_evidence update_job_status
  continue-keeps cap (w, throws e) barred = refl
  continue-keeps cap (w, returns (SellerResult.success c b h)) barred = ground arith
  continue-keeps cap (w, returns (SellerResult.http_failure c b h)) barred =
      handle_http_failure-keeps cap c (SellerResult.http_failure c b h) w barred
  continue-keeps cap (w, returns (SellerResult.delivery_unknown r)) barred =
      handle_unknown-keeps cap (SellerResult.delivery_unknown r) w barred

  process_attempt-keeps :
      (w : World)
      → CreatesNoAttempt env
      → may_retry j (capability_of j.metadata) ≡ false
      → attempt_index (process_attempt config env j a fence w).0 ≡ attempt_index w
  unfolding process_attempt append_evidence update_job_status update_attempt_status
  process_attempt-keeps w calm barred =
      let cap = capability_of j.metadata in
      let sent = execute_attempt config env a.attempt_id fence j.job_id w in
      ground (
        arith,
        recover_attempted-keeps cap w barred,
        perform_retrieval-keeps w calm,
        continue-keeps cap sent barred,
        execute_attempt-keeps a.attempt_id j.job_id w calm,
      )

barred-may_retry :
    (j : RecoveryJob) (cap : ExecutionCapability)
    → (cap ≢ execution_idempotent) ⊎ (j.max_attempts ≤ j.current_attempt)
    → may_retry j cap ≡ false
barred-may_retry j cap barred = ground arith

without_attempt :
    (config : Config) (env : Env) (w : World) (id : Ident) (j : RecoveryJob)
    → get_job id w.execution ≡ some j
    → is_claimable j env.now ≡ true
    → get_last? (get_attempts_by_operation j.operation_id w.execution) ≡ none
    → attempt_index (process_job config env id w).0 ≡ attempt_index w
unfolding process_job claim_job get_job update_job_status get_attempts_by_operation
without_attempt config env w id j job free nothing =
    let now_claimed = claimed j config.worker_id config.lock_duration_ms env.now in
    ground (arith, lookup-insert_self id now_claimed w.execution.jobs)

-- `processJob` creates no attempt for a job whose capability is not EXECUTION_IDEMPOTENT or whose
-- attempts are used up, the one that this claim counts included, provided that nobody else creates
-- one while the seller answers.
pub process_job-CreatesNoAttempt :
    (config : Config) (env : Env) (w : World) (id : Ident) (j : RecoveryJob)
    → get_job id w.execution ≡ some j
    → (capability_of j.metadata ≢ execution_idempotent) ⊎ (j.max_attempts ≤ j.current_attempt + 1)
    → CreatesNoAttempt env
    → attempt_index (process_job config env id w).0 ≡ attempt_index w
process_job-CreatesNoAttempt config env w id j job barred calm =
    let now_claimed = claimed j config.worker_id config.lock_duration_ms env.now in
    let w' = after_claim config env id j w in
    elim (Bool-cases (is_claimable j env.now)) [
      | inr taken ↦ ap (λ r. attempt_index r.0) (process_job-refused config env id w j job taken)
      | inl free ↦
          elim (Option-cases (get_last? (get_attempts_by_operation j.operation_id w.execution))) [
            | inl nothing ↦ without_attempt config env w id j job free nothing
            | inr (a, latest) ↦
                ap (λ r. attempt_index r.0)
                  (process_job-claimed config env id w j a job latest free)
                ∙ process_attempt-keeps config env now_claimed a (j.current_attempt + 1) w' calm
                    (barred-may_retry now_claimed (capability_of j.metadata) barred)
          ]
    ]
