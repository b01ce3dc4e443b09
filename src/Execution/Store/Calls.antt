-- ===== src/Execution/Store/Calls.antt =====
-- The calls that any number of workers make on one `InMemoryExecutionStore`, as a sequence of
-- steps (zeus-secretariat/src/core/post-settlement-engine.ts).
use zeus_insurance_bot.Prelude.{ℕ, ◌≡◌, Option, none, List, [], ◌∷◌, Ident, Time, lookup}
use zeus_insurance_bot.Execution.Types.{
  AttemptStatus, JobStatus, ExecutionAttempt, RecoveryJob, Reason, AttemptExtra, JobExtra,
}
use zeus_insurance_bot.Execution.Store.{
  ExecutionStore, save_attempt, save_attempt_with_job, save_job, update_attempt_status,
  resolve_retrieval_success_if_owner, create_recovery_attempt_if_owner,
  create_recovery_job_if_owner, resolve_attempt_unresolvable_if_owner, mark_attempt_in_progress,
  claim_job, update_job_status,
}

pub data Call : Type 0 where
  saves_attempt : ExecutionAttempt → Call
  saves_both : ExecutionAttempt → RecoveryJob → Call
  saves_job : RecoveryJob → Call
  updates_attempt : Ident → AttemptStatus → ℕ → AttemptExtra → Option Ident → Call
  resolves_retrieval : Ident → Ident → ℕ → AttemptExtra → Time → Call
  creates_attempt : Ident → Ident → ℕ → ExecutionAttempt → Reason → Time → Call
  creates_job : Ident → Ident → ℕ → RecoveryJob → Reason → Time → Call
  resolves_unresolvable : Ident → Ident → ℕ → Reason → Reason → Time → Call
  marks : Ident → ℕ → Option Ident → Time → Call
  claims : Ident → Ident → ℕ → Time → Call
  updates_job : Ident → JobStatus → ℕ → JobExtra → Time → Call

unfoldable pub step : Call → ExecutionStore → ExecutionStore
step (saves_attempt a) s = save_attempt a s
step (saves_both a j) s = save_attempt_with_job a j s
step (saves_job j) s = save_job j s
step (updates_attempt id st f e o) s = (update_attempt_status id st f e o s).0
step (resolves_retrieval j a f e t) s = (resolve_retrieval_success_if_owner j a f e t s).0
step (creates_attempt j a f r e t) s = (create_recovery_attempt_if_owner j a f r e t s).0
step (creates_job j a f r e t) s = (create_recovery_job_if_owner j a f r e t s).0
step (resolves_unresolvable j a f e l t) s = (resolve_attempt_unresolvable_if_owner j a f e l t s).0
step (marks id f o t) s = (mark_attempt_in_progress id f o t s).0
step (claims j w d t) s = (claim_job j w d t s).0
step (updates_job j st f e t) s = (update_job_status j st f e t s).0

unfoldable pub run : List Call → ExecutionStore → ExecutionStore
run [] s = s
run (c ∷ cs) s = run cs (step c s)

-- A row that the call creates has an identifier that is not in use (`randomUUID`).
abbrev pub IsFresh : Call → ExecutionStore → Type 0
IsFresh (saves_attempt a) s = lookup a.attempt_id s.attempts ≡ none
IsFresh (saves_both a j) s =
    (lookup a.attempt_id s.attempts ≡ none) × (lookup j.job_id s.jobs ≡ none)
IsFresh (saves_job j) s = lookup j.job_id s.jobs ≡ none
IsFresh (creates_attempt j a f r e t) s = lookup r.attempt_id s.attempts ≡ none
IsFresh (creates_job j a f r e t) s = lookup r.job_id s.jobs ≡ none
IsFresh _ s = Unit {0}

abbrev pub IsFreshRun : List Call → ExecutionStore → Type 0
IsFreshRun [] s = Unit {0}
IsFreshRun (c ∷ cs) s = IsFresh c s × IsFreshRun cs (step c s)
