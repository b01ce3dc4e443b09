-- ===== src/Execution/Store/Fencing.antt =====
-- The fence of a job only grows, so a worker that has lost its claim writes nothing more
-- (zeus-secretariat/src/core/post-settlement-engine.ts, `InMemoryExecutionStore`).
use zeus_insurance_bot.Prelude.{
  ℕ, ◌≤◌, ◌<◌, ◌≡◌, ◌⊎◌, refl, inl, inr, Option-cases, false, Option, none, some, List, [], ◌∷◌,
  Ident, Time, lookup, insert, lookup-insert, arith,
}
use zeus_insurance_bot.Execution.Types.{
  ExecutionAttempt, AttemptStatus, AttemptExtra, Reason, RecoveryJob, JobStatus, JobExtra,
  is_terminal_job, assign_job,
}
use zeus_insurance_bot.Execution.Store.{
  ExecutionStore, owned, released, claimed, save_attempt, save_attempt_with_job, save_job,
  update_attempt_status, resolve_retrieval_success_if_owner, create_recovery_attempt_if_owner,
  create_recovery_job_if_owner, resolve_attempt_unresolvable_if_owner, mark_attempt_in_progress,
  claim_job, update_job_status,
}
use zeus_insurance_bot.Execution.Store.Terminal.{owned_attempt}
use zeus_insurance_bot.Execution.Store.Calls.{
  Call, saves_attempt, saves_both, saves_job, updates_attempt, resolves_retrieval, creates_attempt,
  creates_job, resolves_unresolvable, marks, claims, updates_job, step, run, IsFresh, IsFreshRun,
}

-- What may happen to the job under one identifier: it is not removed, keeps its operation and its
-- bound, its fence does not fall, and once it is concluded it is left alone.
abbrev pub Progresses : Option RecoveryJob → Option RecoveryJob → Type 0
Progresses none r = Unit {0}
Progresses (some j) none = ⊥
Progresses (some j) (some k) =
    (k.operation_id ≡ j.operation_id)
    × (k.max_attempts ≡ j.max_attempts)
    × (j.current_attempt ≤ k.current_attempt)
    × ((is_terminal_job j.status ≡ false) ⊎ (k ≡ j))

Progresses-refl : (o : Option RecoveryJob) → Progresses o o
Progresses-refl none = tt
Progresses-refl (some j) = (refl, refl, omega arith, inr refl)

Progresses-trans : (o p q : Option RecoveryJob) → Progresses o p → Progresses p q → Progresses o q
Progresses-trans none p q h k = tt
Progresses-trans (some a) none q h k = absurd h
Progresses-trans (some a) (some b) none h k = absurd k
Progresses-trans (some a) (some b) (some c) h k =
    (ground arith, ground arith, omega arith, ground arith)

module _ (s : ExecutionStore) (id : Ident) where
  save-Progresses :
      (k : RecoveryJob)
      → lookup k.job_id s.jobs ≡ none
      → Progresses (lookup id s.jobs) (lookup id (insert k.job_id k s.jobs))
  save-Progresses k f =
      ground (arith, lookup-insert k.job_id id k s.jobs, Progresses-refl (lookup id s.jobs))

  -- A job that is written over an old one.
  write-Progresses :
      (key : Ident) (j k : RecoveryJob)
      → lookup key s.jobs ≡ some j
      → Progresses (some j) (some k)
      → Progresses (lookup id s.jobs) (lookup id (insert key k s.jobs))
  write-Progresses key j k e h =
      ground (arith, lookup-insert key id k s.jobs, Progresses-refl (lookup id s.jobs))

  retrieval-Progresses :
      (j key : Ident) (f : ℕ) (e : AttemptExtra) (t : Time)
      → Progresses
          (lookup id s.jobs)
          (lookup id (resolve_retrieval_success_if_owner j key f e t s).0.jobs)
  unfolding resolve_retrieval_success_if_owner
  retrieval-Progresses j key f e t = elim (Option-cases (owned j key f s)) [
    | inl missing ↦
        rw (missing, resolve_retrieval_success_if_owner) (Progresses-refl (lookup id s.jobs))
    | inr ((k, a), found) ↦
        rw (found, resolve_retrieval_success_if_owner)
          (ground (
            arith,
            owned_attempt j key f s k a found,
            write-Progresses j k (released JobStatus.completed t k),
            Progresses-refl (lookup id s.jobs),
          ))
  ]

  create_attempt-Progresses :
      (j key : Ident) (f : ℕ) (retry : ExecutionAttempt) (r : Reason) (t : Time)
      → Progresses
          (lookup id s.jobs)
          (lookup id (create_recovery_attempt_if_owner j key f retry r t s).0.jobs)
  unfolding create_recovery_attempt_if_owner
  create_attempt-Progresses j key f retry r t = elim (Option-cases (owned j key f s)) [
    | inl missing ↦
        rw (missing, create_recovery_attempt_if_owner) (Progresses-refl (lookup id s.jobs))
    | inr ((k, a), found) ↦
        rw (found, create_recovery_attempt_if_owner)
          (ground (
            arith,
            owned_attempt j key f s k a found,
            write-Progresses j k (released JobStatus.pending t k),
            Progresses-refl (lookup id s.jobs),
          ))
  ]

  create_job-Progresses :
      (j key : Ident) (f : ℕ) (job : RecoveryJob) (r : Reason) (t : Time)
      → lookup job.job_id s.jobs ≡ none
      → Progresses
          (lookup id s.jobs)
          (lookup id (create_recovery_job_if_owner j key f job r t s).0.jobs)
  unfolding create_recovery_job_if_owner
  create_job-Progresses j key f job r t fresh = elim (Option-cases (owned j key f s)) [
    | inl missing ↦ rw (missing, create_recovery_job_if_owner) (Progresses-refl (lookup id s.jobs))
    | inr ((k, a), found) ↦
        rw (found, create_recovery_job_if_owner)
          (ground (
            arith,
            owned_attempt j key f s k a found,
            lookup-insert job.job_id id job s.jobs,
            lookup-insert j id (record (released JobStatus.completed t k) { last_error = some r })
                (insert job.job_id job s.jobs),
            Progresses-refl (lookup id s.jobs),
          ))
  ]

  unresolvable-Progresses :
      (j key : Ident) (f : ℕ) (r q : Reason) (t : Time)
      → Progresses
          (lookup id s.jobs)
          (lookup id (resolve_attempt_unresolvable_if_owner j key f r q t s).0.jobs)
  unfolding resolve_attempt_unresolvable_if_owner
  unresolvable-Progresses j key f r q t = elim (Option-cases (owned j key f s)) [
    | inl missing ↦
        rw (missing, resolve_attempt_unresolvable_if_owner) (Progresses-refl (lookup id s.jobs))
    | inr ((k, a), found) ↦
        rw (found, resolve_attempt_unresolvable_if_owner)
          (ground (
            arith,
            owned_attempt j key f s k a found,
            write-Progresses j k
                (record k { status = JobStatus.unresolvable; last_error = some q; updated_at = t }),
            Progresses-refl (lookup id s.jobs),
          ))
  ]

  claim-Progresses :
      (j w : Ident) (d : ℕ) (t : Time)
      → Progresses (lookup id s.jobs) (lookup id (claim_job j w d t s).0.jobs)
  unfolding claim_job
  claim-Progresses j w d t = elim (Option-cases (lookup j s.jobs)) [
    | inl missing ↦ rw (missing, claim_job) (Progresses-refl (lookup id s.jobs))
    | inr (k, found) ↦
        rw (found, claim_job)
          (ground (
            arith,
            write-Progresses j k (claimed k w d t) found,
            Progresses-refl (lookup id s.jobs),
          ))
  ]

  update-Progresses :
      (j : Ident) (st : JobStatus) (f : ℕ) (e : JobExtra) (t : Time)
      → Progresses (lookup id s.jobs) (lookup id (update_job_status j st f e t s).0.jobs)
  unfolding update_job_status
  update-Progresses j st f e t = elim (Option-cases (lookup j s.jobs)) [
    | inl missing ↦ rw (missing, update_job_status) (Progresses-refl (lookup id s.jobs))
    | inr (k, found) ↦
        rw (found, update_job_status)
          (ground (
            arith,
            write-Progresses j k
                (record (assign_job e (record k { status = st })) { updated_at = t }) found,
            Progresses-refl (lookup id s.jobs),
          ))
  ]

step-Progresses :
    (c : Call) (s : ExecutionStore) (id : Ident)
    → IsFresh c s
    → Progresses (lookup id s.jobs) (lookup id (step c s).jobs)
unfolding step save_attempt save_attempt_with_job save_job update_attempt_status
    mark_attempt_in_progress
step-Progresses (saves_attempt a) s id f = Progresses-refl (lookup id s.jobs)
step-Progresses (saves_both a j) s id f = save-Progresses s id j f.1
step-Progresses (saves_job j) s id f = save-Progresses s id j f
step-Progresses (updates_attempt key st f e o) s id h =
    ground (arith, Progresses-refl (lookup id s.jobs))
step-Progresses (resolves_retrieval j a f e t) s id h = retrieval-Progresses s id j a f e t
step-Progresses (creates_attempt j a f r e t) s id h = create_attempt-Progresses s id j a f r e t
step-Progresses (creates_job j a f r e t) s id h = create_job-Progresses s id j a f r e t h
step-Progresses (resolves_unresolvable j a f e l t) s id h =
    unresolvable-Progresses s id j a f e l t
step-Progresses (marks key f o t) s id h = ground (arith, Progresses-refl (lookup id s.jobs))
step-Progresses (claims j w d t) s id h = claim-Progresses s id j w d t
step-Progresses (updates_job j st f e t) s id h = update-Progresses s id j st f e t

-- Whatever sequence of calls the workers make, in which new rows get unused identifiers, no job
-- is removed, none changes its operation or its bound on attempts, its fence generation does not
-- fall, and a job in COMPLETED, FAILED or UNRESOLVABLE keeps its whole record.
pub run-Progresses :
    (cs : List Call) (s : ExecutionStore) (id : Ident)
    → IsFreshRun cs s
    → Progresses (lookup id s.jobs) (lookup id (run cs s).jobs)
unfolding run
run-Progresses [] s id f = Progresses-refl (lookup id s.jobs)
run-Progresses (c ∷ cs) s id f =
    Progresses-trans (lookup id s.jobs) _ _ (step-Progresses c s id f.0)
      (run-Progresses cs (step c s) id f.1)

-- What a fenced call answers to a worker that has lost its claim: `false`, and nothing written.
module _ (s : ExecutionStore) (id : Ident) (fence : ℕ) where
  abbrev pub IsShutOut : Type 0
  IsShutOut =
      ((st : JobStatus) (e : JobExtra) (t : Time)
        → update_job_status id st fence e t s ≡ (s, false))
      × ((key : Ident) (st : AttemptStatus) (e : AttemptExtra)
          → update_attempt_status key st fence e (some id) s ≡ (s, false))
      × ((key : Ident) (t : Time) → mark_attempt_in_progress key fence (some id) t s ≡ (s, false))
      × ((key : Ident) (e : AttemptExtra) (t : Time)
          → resolve_retrieval_success_if_owner id key fence e t s ≡ (s, false))
      × ((key : Ident) (retry : ExecutionAttempt) (r : Reason) (t : Time)
          → create_recovery_attempt_if_owner id key fence retry r t s ≡ (s, false))
      × ((key : Ident) (job : RecoveryJob) (r : Reason) (t : Time)
          → create_recovery_job_if_owner id key fence job r t s ≡ (s, false))
      × ((key : Ident) (r q : Reason) (t : Time)
          → resolve_attempt_unresolvable_if_owner id key fence r q t s ≡ (s, false))

  pub stale-IsShutOut :
      (j : RecoveryJob) → lookup id s.jobs ≡ some j → fence < j.current_attempt → IsShutOut
  unfolding update_job_status update_attempt_status mark_attempt_in_progress
      resolve_retrieval_success_if_owner create_recovery_attempt_if_owner
      create_recovery_job_if_owner resolve_attempt_unresolvable_if_owner
  stale-IsShutOut j e h = (
    λ st x t. ground arith,
    λ key st x. ground arith,
    λ key t. ground arith,
    λ key x t. ground arith,
    λ key retry r t. ground arith,
    λ key job r t. ground arith,
    λ key r q t. ground arith,
  )
