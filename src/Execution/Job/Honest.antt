-- ===== src/Execution/Job/Honest.antt =====
-- A reported success is a committed one: the branches of `processJob` that make no new attempt at
-- the seller (zeus-secretariat/src/core/post-settlement-engine.ts).
use zeus_insurance_bot.Evidence
use zeus_insurance_bot.Prelude.{
  ◌≡◌, refl, ◌⊎◌, arith, ℕ, true, false, some, Ident, Option-cases, lookup, lookup-insert_self, inl,
  inr,
}
use zeus_insurance_bot.Execution.Types.{
  ExecutionAttempt, RecoveryJob, no_job_extra, no_extra, assign, AttemptStatus, JobStatus,
  SellerResult, AttemptExtra, ExecutionCapability,
}
use zeus_insurance_bot.Execution.Store.{
  ExecutionStore, released, update_job_status, resolve_retrieval_success_if_owner, owned,
}
use zeus_insurance_bot.Execution.World.{
  World, Config, Env, Outcome, throws, returns, Report, append_evidence,
}
use zeus_insurance_bot.Execution.Recovery.{recover_attempted}
use zeus_insurance_bot.Execution.Job.{
  handle_http_failure, handle_unknown, handle_retrieval, perform_retrieval, retrieval_request,
}

-- The job is COMPLETED and the attempt is SUCCESS.
unfoldable pub IsCommitted : Ident → Ident → ExecutionStore → Type 0
IsCommitted job_id attempt_id s =
    (j : RecoveryJob) × (a : ExecutionAttempt) × (lookup job_id s.jobs ≡ some j)
    × (j.status ≡ JobStatus.completed)
    × (lookup attempt_id s.attempts ≡ some a)
    × (a.status ≡ AttemptStatus.success)

unfoldable pub IsWon : Ident → ExecutionStore → Type 0
IsWon attempt_id s =
    (a : ExecutionAttempt) × (lookup attempt_id s.attempts ≡ some a)
    × (a.status ≡ AttemptStatus.success)

-- A call that does not report a success, or has committed it.
unfoldable pub Honest : Ident → Ident → World × Outcome Report → Type 0
Honest job_id attempt_id (w, throws e) = Unit
Honest job_id attempt_id (w, returns r) =
    (r.success ≡ false) ⊎ IsCommitted job_id attempt_id w.execution

module _ (config : Config) (env : Env) (j : RecoveryJob) (a : ExecutionAttempt) (fence : ℕ) where
  pub handle_http_failure-Honest :
      (cap : ExecutionCapability) (code : ℕ) (result : SellerResult) (w : World)
      → Honest j.job_id a.attempt_id (handle_http_failure config env j a fence cap code result w)
  unfolding handle_http_failure Honest
  handle_http_failure-Honest cap code result w = ground arith

  pub handle_unknown-Honest :
      (cap : ExecutionCapability) (result : SellerResult) (w : World)
      → Honest j.job_id a.attempt_id (handle_unknown config env j a fence cap result w)
  unfolding handle_unknown Honest
  handle_unknown-Honest cap result w = ground arith

  pub recover_attempted-Honest :
      (cap : ExecutionCapability) (w : World)
      → Honest j.job_id a.attempt_id (recover_attempted config env j a fence cap w)
  unfolding recover_attempted Honest
  recover_attempted-Honest cap w = ground arith

  -- Concluding the job after its attempt has succeeded.
  pub complete-IsCommitted :
      (b : ExecutionAttempt) (s s' : ExecutionStore)
      → lookup a.attempt_id s.attempts ≡ some b
      → b.status ≡ AttemptStatus.success
      → update_job_status j.job_id JobStatus.completed fence no_job_extra env.now s ≡ (s', true)
      → IsCommitted j.job_id a.attempt_id s'
  unfolding update_job_status IsCommitted
  complete-IsCommitted b s s' found won done = elim (Option-cases (lookup j.job_id s.jobs)) [
    | inl missing ↦ absurd (ground arith)
    | inr (k, there) ↦
        let l : RecoveryJob = record (record k { status = JobStatus.completed }) {
          updated_at = env.now;
        } in
        (l, b, ground (arith, lookup-insert_self j.job_id l s.jobs), refl, ground arith, won)
  ]

  -- A retrieved result is committed together with its job.
  resolve-IsCommitted :
      (extra : AttemptExtra) (s s' : ExecutionStore)
      → resolve_retrieval_success_if_owner j.job_id a.attempt_id fence extra env.now s ≡ (s', true)
      → IsCommitted j.job_id a.attempt_id s'
  unfolding resolve_retrieval_success_if_owner IsCommitted
  resolve-IsCommitted extra s s' done = elim (Option-cases (owned j.job_id a.attempt_id fence s)) [
    | inl missing ↦ absurd (ground arith)
    | inr ((k, b), there) ↦
        let l = released JobStatus.completed env.now k in
        let c = assign extra (record b { status = AttemptStatus.success }) in
        (
          l,
          c,
          ground (arith, lookup-insert_self j.job_id l s.jobs),
          refl,
          ground (arith, lookup-insert_self a.attempt_id c s.attempts),
          refl,
        )
  ]

  handle_retrieval-Honest :
      (result : SellerResult) (w : World)
      → Honest j.job_id a.attempt_id (handle_retrieval config env j a fence result w)
  unfolding handle_retrieval Honest
  handle_retrieval-Honest (SellerResult.success c b h) w =
      let extra : AttemptExtra = record no_extra {
        response_status_code = some c;
        response_body = b;
        completed_at = some env.now;
      } in
      let made =
        resolve_retrieval_success_if_owner j.job_id a.attempt_id fence extra env.now w.execution in
      ground (arith, resolve-IsCommitted extra w.execution made.0)
  handle_retrieval-Honest (SellerResult.http_failure c b h) w = ground arith
  handle_retrieval-Honest (SellerResult.delivery_unknown r) w = ground arith

  pub perform_retrieval-Honest :
      (w : World) → Honest j.job_id a.attempt_id (perform_retrieval config env j a fence w)
  unfolding perform_retrieval
  perform_retrieval-Honest w =
      let (w', result) = env.seller (retrieval_request config env j a) w in
      handle_retrieval-Honest result
        (append_evidence j.operation_id (Evidence.retrieval_result j.job_id result) env.now w')
