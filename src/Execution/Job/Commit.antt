-- ===== src/Execution/Job/Commit.antt =====
-- What `processJob` has written when it reports a success
-- (zeus-secretariat/src/core/post-settlement-engine.ts).
use zeus_insurance_bot.Prelude.{
  ◌+◌, Opaque, ◌≡◌, refl, arith, ℕ, Bool-cases, true, Option, none, some, Ident, Option-cases,
  get_last?, lookup, lookup-insert_self, inl, inr,
}
use zeus_insurance_bot.Execution.Types.{
  blind_retry, Reason, ExecutionAttempt, RecoveryJob, no_job_extra, assign, is_success,
  AttemptStatus, JobStatus, SellerResult, AttemptExtra, ExecutionCapability,
}
use zeus_insurance_bot.Execution.Store.{
  ExecutionStore, is_claimable, claimed, get_attempts_by_operation, get_attempt_by_id, get_job,
  update_job_status, update_attempt_status, mark_attempt_in_progress,
}
use zeus_insurance_bot.Execution.World.{
  World, Config, Env, Outcome, throws, returns, Report, append_evidence,
}
use zeus_insurance_bot.Execution.Attempt.{
  execute_attempt, recorded_extra, seller_request, record_result, capability_of,
}
use zeus_insurance_bot.Execution.Recovery.{close_unresolvable}
use zeus_insurance_bot.Execution.Job.Silence.{after_claim, process_job-claimed, process_job-refused}
use zeus_insurance_bot.Execution.Job.{
  continue, mark_unresolvable, note_unresolvable, process_attempt, process_job, handle_result,
}
use zeus_insurance_bot.Execution.Job.Honest.{
  IsCommitted, IsWon, Honest, handle_http_failure-Honest, handle_unknown-Honest,
  recover_attempted-Honest, complete-IsCommitted, perform_retrieval-Honest,
}

module _ (config : Config) (env : Env) (j : RecoveryJob) (a : ExecutionAttempt) (fence : ℕ) where
  update-success :
      (extra : AttemptExtra) (job : Option Ident) (s s' : ExecutionStore)
      → update_attempt_status a.attempt_id AttemptStatus.success fence extra job s ≡ (s', true)
      → IsWon a.attempt_id s'
  unfolding update_attempt_status IsWon
  update-success extra job s s' done = elim (Option-cases (lookup a.attempt_id s.attempts)) [
    | inl missing ↦ absurd (ground arith)
    | inr (b, there) ↦
        let c = assign extra (record b { status = AttemptStatus.success }) in
        (c, ground (arith, lookup-insert_self a.attempt_id c s.attempts), refl)
  ]

  record_result-success :
      (w w' : World) (answer : SellerResult) (c : ℕ) (b h : Option Opaque)
      → record_result config env a fence j.job_id answer w
        ≡ (w', returns (SellerResult.success c b h))
      → IsWon a.attempt_id w'.execution
  unfolding record_result append_evidence
  record_result-success w w' (SellerResult.success d e g) c b h done =
      let extra = recorded_extra config env (SellerResult.success d e g) in
      let made =
        update_attempt_status a.attempt_id AttemptStatus.success fence extra (some j.job_id)
          w.execution in
      ground (arith, update-success extra (some j.job_id) w.execution made.0)
  record_result-success w w' (SellerResult.http_failure d e g) c b h done = absurd (ground arith)
  record_result-success w w' (SellerResult.delivery_unknown r) c b h done = absurd (ground arith)

  -- An attempt that `executeAttempt` answers with a success is SUCCESS in the store.
  execute_attempt-success :
      (w w' : World) (c : ℕ) (b h : Option Opaque)
      → get_attempt_by_id a.attempt_id w.execution ≡ some a
      → execute_attempt config env a.attempt_id fence j.job_id w
        ≡ (w', returns (SellerResult.success c b h))
      → IsWon a.attempt_id w'.execution
  unfolding execute_attempt
  execute_attempt-success w w' c b h found done =
      let (s, marked) =
        mark_attempt_in_progress a.attempt_id fence (some j.job_id) env.now w.execution in
      let (v, answer) = env.seller (seller_request config env a) (record w { execution = s }) in
      ground (arith, record_result-success v w' answer c b h)

  handle_result-Honest :
      (cap : ExecutionCapability) (result : SellerResult) (w w₀ : World)
      → get_attempt_by_id a.attempt_id w₀.execution ≡ some a
      → execute_attempt config env a.attempt_id fence j.job_id w₀ ≡ (w, returns result)
      → Honest j.job_id a.attempt_id (handle_result config env j a fence cap result w)
  unfolding handle_result Honest IsWon append_evidence
  handle_result-Honest cap (SellerResult.success c b h) w w₀ found done =
      let (d, at_d, won) = execute_attempt-success w₀ w c b h found done in
      let made =
        update_job_status j.job_id JobStatus.completed fence no_job_extra env.now w.execution in
      ground (arith, complete-IsCommitted config env j a fence d w.execution made.0 at_d won)
  handle_result-Honest cap (SellerResult.http_failure c b h) w w₀ found done =
      handle_http_failure-Honest config env j a fence cap c (SellerResult.http_failure c b h) w
  handle_result-Honest cap (SellerResult.delivery_unknown r) w w₀ found done =
      handle_unknown-Honest config env j a fence cap (SellerResult.delivery_unknown r) w

  execution-Honest :
      (cap : ExecutionCapability) (w : World) (r : World × Outcome SellerResult)
      → get_attempt_by_id a.attempt_id w.execution ≡ some a
      → execute_attempt config env a.attempt_id fence j.job_id w ≡ r
      → Honest j.job_id a.attempt_id (continue config env j a fence cap r)
  unfolding Honest
  execution-Honest cap w (w', throws e) found done = tt
  execution-Honest cap w (w', returns result) found done =
      handle_result-Honest cap result w' w found done

  won-Honest :
      (w : World)
      → get_attempt_by_id a.attempt_id w.execution ≡ some a
      → is_success a.status ≡ true
      → Honest j.job_id a.attempt_id (process_attempt config env j a fence w)
  unfolding process_attempt get_attempt_by_id Honest
  won-Honest w found won =
      let made =
        update_job_status j.job_id JobStatus.completed fence no_job_extra env.now w.execution in
      ground (arith, complete-IsCommitted config env j a fence a w.execution made.0 found)

  close-Honest :
      (reason : Reason) (evidence : World → World) (result : Option SellerResult) (w : World)
      → Honest j.job_id a.attempt_id
          (close_unresolvable config env j fence reason evidence result w)
  unfolding Honest
  close-Honest reason evidence result w = ground arith

  process_attempt-Honest :
      (w : World)
      → get_attempt_by_id a.attempt_id w.execution ≡ some a
      → Honest j.job_id a.attempt_id (process_attempt config env j a fence w)
  unfolding process_attempt
  process_attempt-Honest w found =
      let cap = capability_of j.metadata in
      ground (
        arith,
        won-Honest w found,
        recover_attempted-Honest config env j a fence cap w,
        perform_retrieval-Honest config env j a fence w,
        close-Honest blind_retry (note_unresolvable config env j a) none
            (mark_unresolvable config env j a fence none w),
        execution-Honest cap w (execute_attempt config env a.attempt_id fence j.job_id w) found
            refl,
      )

-- `processJob` reports success for a stored job and its stored latest attempt only once the store
-- has the job COMPLETED and that attempt SUCCESS, whatever the seller answers and whatever other
-- workers do to the store while it answers.
pub process_job-IsCommitted :
    (config : Config) (env : Env) (w w' : World) (j : RecoveryJob) (a : ExecutionAttempt)
    (r : Report)
    → get_job j.job_id w.execution ≡ some j
    → get_last? (get_attempts_by_operation j.operation_id w.execution) ≡ some a
    → get_attempt_by_id a.attempt_id w.execution ≡ some a
    → process_job config env j.job_id w ≡ (w', returns r)
    → r.success ≡ true
    → IsCommitted j.job_id a.attempt_id w'.execution
unfolding get_attempt_by_id Honest
process_job-IsCommitted config env w w' j a r job latest found done won =
    elim (Bool-cases (is_claimable j env.now)) [
      | inl free ↦
          let honest =
            process_attempt-Honest config env
              (claimed j config.worker_id config.lock_duration_ms env.now) a (j.current_attempt + 1)
              (after_claim config env j.job_id j w) found in
          let same = process_job-claimed config env j.job_id w j a job latest free in
          ground (arith, honest, same)
      | inr taken ↦
          let same = process_job-refused config env j.job_id w j job taken in
          absurd (ground (arith, same))
    ]
