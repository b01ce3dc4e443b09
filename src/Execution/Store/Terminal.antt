-- ===== src/Execution/Store/Terminal.antt =====
-- A concluded attempt stays concluded, whatever the workers do
-- (zeus-secretariat/src/core/post-settlement-engine.ts, `InMemoryExecutionStore`).
use zeus_insurance_bot.Prelude.{
  ℕ, ◌≡◌, refl, inl, inr, Option-cases, Bool, true, false, Option, none, some, List, [], ◌∷◌, Ident,
  Time, lookup, insert, lookup-insert, arith,
}
use zeus_insurance_bot.Execution.Types.{
  ExecutionAttempt, AttemptStatus, AttemptExtra, Reason, RecoveryJob, JobStatus, assign,
}
use zeus_insurance_bot.Execution.Store.{
  ExecutionStore, owned, save_attempt, save_attempt_with_job, save_job, update_attempt_status,
  resolve_retrieval_success_if_owner, create_recovery_attempt_if_owner,
  create_recovery_job_if_owner, resolve_attempt_unresolvable_if_owner, mark_attempt_in_progress,
  claim_job, update_job_status,
}
use zeus_insurance_bot.Execution.Store.Calls.{
  Call, saves_attempt, saves_both, saves_job, updates_attempt, resolves_retrieval, creates_attempt,
  creates_job, resolves_unresolvable, marks, claims, updates_job, step, run, IsFresh, IsFreshRun,
}

-- An answer of the seller, or the decision that there will be none, stands for good. A delivery
-- that is unknown stays so, or is resolved to a success.
abbrev pub may_become : AttemptStatus → AttemptStatus → Bool
may_become AttemptStatus.pending t = true
may_become AttemptStatus.attempted t = true
may_become AttemptStatus.delivery_unknown AttemptStatus.delivery_unknown = true
may_become AttemptStatus.delivery_unknown AttemptStatus.success = true
may_become AttemptStatus.success AttemptStatus.success = true
may_become AttemptStatus.http_failure AttemptStatus.http_failure = true
may_become AttemptStatus.unresolvable AttemptStatus.unresolvable = true
may_become _ _ = false

-- What may happen to the row under one identifier: it is not removed, keeps its identity and its
-- idempotency key, and its status moves by `may_become`.
abbrev pub Advances : Option ExecutionAttempt → Option ExecutionAttempt → Type 0
Advances none r = Unit {0}
Advances (some a) none = ⊥
Advances (some a) (some b) =
    (b.attempt_id ≡ a.attempt_id)
    × (b.operation_id ≡ a.operation_id)
    × (b.execution_id ≡ a.execution_id)
    × (b.idempotency_key ≡ a.idempotency_key)
    × (b.attempt_number ≡ a.attempt_number)
    × (may_become a.status b.status ≡ true)

may_become_refl : (s : AttemptStatus) → may_become s s ≡ true
may_become_refl AttemptStatus.pending = refl
may_become_refl _ = refl

may_become_trans :
    (s t u : AttemptStatus) → may_become s t ≡ true → may_become t u ≡ true → may_become s u ≡ true
may_become_trans s t u h k = ground arith

Advances-refl : (o : Option ExecutionAttempt) → Advances o o
Advances-refl none = tt
Advances-refl (some a) = (refl, refl, refl, refl, refl, may_become_refl a.status)

Advances-trans : (o p q : Option ExecutionAttempt) → Advances o p → Advances p q → Advances o q
Advances-trans none p q h k = tt
Advances-trans (some a) none q h k = absurd h
Advances-trans (some a) (some b) none h k = absurd k
Advances-trans (some a) (some b) (some c) h k =
    ground (arith, may_become_trans a.status b.status c.status)

-- The rows that an owner's call changes are those under the two identifiers that it names.
pub owned_attempt :
    (job_id attempt_id : Ident) (fence : ℕ) (s : ExecutionStore) (j : RecoveryJob)
    (a : ExecutionAttempt)
    → owned job_id attempt_id fence s ≡ some (j, a)
    → (lookup attempt_id s.attempts ≡ some a)
      × (lookup job_id s.jobs ≡ some j)
      × (j.status ≡ JobStatus.running)
      × (j.current_attempt ≡ fence)
      × (a.operation_id ≡ j.operation_id)
owned_attempt job_id attempt_id fence s j a h = ground arith

module _ (s : ExecutionStore) (id : Ident) where
  pub save-Advances :
      (a : ExecutionAttempt)
      → lookup a.attempt_id s.attempts ≡ none
      → Advances (lookup id s.attempts) (lookup id (save_attempt a s).attempts)
  unfolding save_attempt
  save-Advances a f =
      ground
        (arith, lookup-insert a.attempt_id id a s.attempts, Advances-refl (lookup id s.attempts))

  -- A row that is written over an old one.
  write-Advances :
      (key : Ident) (a b : ExecutionAttempt)
      → lookup key s.attempts ≡ some a
      → Advances (some a) (some b)
      → Advances (lookup id s.attempts) (lookup id (insert key b s.attempts))
  write-Advances key a b e h =
      ground (arith, lookup-insert key id b s.attempts, Advances-refl (lookup id s.attempts))

  update-Advances :
      (key : Ident) (st : AttemptStatus) (f : ℕ) (e : AttemptExtra) (o : Option Ident)
      → Advances
          (lookup id s.attempts)
          (lookup id (update_attempt_status key st f e o s).0.attempts)
  unfolding update_attempt_status
  update-Advances key st f e o = elim (Option-cases (lookup key s.attempts)) [
    | inl missing ↦ rw (missing, update_attempt_status) (Advances-refl (lookup id s.attempts))
    | inr (a, found) ↦
        rw (found, update_attempt_status)
          (ground (
            arith,
            write-Advances key a (assign e (record a { status = st })) found,
            Advances-refl (lookup id s.attempts),
          ))
  ]

  retrieval-Advances :
      (j key : Ident) (f : ℕ) (e : AttemptExtra) (t : Time)
      → Advances
          (lookup id s.attempts)
          (lookup id (resolve_retrieval_success_if_owner j key f e t s).0.attempts)
  unfolding resolve_retrieval_success_if_owner
  retrieval-Advances j key f e t = elim (Option-cases (owned j key f s)) [
    | inl missing ↦
        rw (missing, resolve_retrieval_success_if_owner) (Advances-refl (lookup id s.attempts))
    | inr ((k, a), found) ↦
        rw (found, resolve_retrieval_success_if_owner)
          (ground (
            arith,
            owned_attempt j key f s k a found,
            write-Advances key a (assign e (record a { status = AttemptStatus.success })),
            Advances-refl (lookup id s.attempts),
          ))
  ]

  create_attempt-Advances :
      (j key : Ident) (f : ℕ) (retry : ExecutionAttempt) (r : Reason) (t : Time)
      → lookup retry.attempt_id s.attempts ≡ none
      → Advances
          (lookup id s.attempts)
          (lookup id (create_recovery_attempt_if_owner j key f retry r t s).0.attempts)
  unfolding create_recovery_attempt_if_owner
  create_attempt-Advances j key f retry r t fresh = elim (Option-cases (owned j key f s)) [
    | inl missing ↦
        rw (missing, create_recovery_attempt_if_owner) (Advances-refl (lookup id s.attempts))
    | inr ((k, a), found) ↦
        rw (found, create_recovery_attempt_if_owner)
          (ground (
            arith,
            owned_attempt j key f s k a found,
            write-Advances key a
                (record a { status = AttemptStatus.delivery_unknown; error_reason = some r }),
            lookup-insert retry.attempt_id id retry s.attempts,
            lookup-insert retry.attempt_id id retry (
                insert key
                  (record a { status = AttemptStatus.delivery_unknown; error_reason = some r })
                  s.attempts),
            Advances-refl (lookup id s.attempts),
          ))
  ]

  create_job-Advances :
      (j key : Ident) (f : ℕ) (job : RecoveryJob) (r : Reason) (t : Time)
      → Advances
          (lookup id s.attempts)
          (lookup id (create_recovery_job_if_owner j key f job r t s).0.attempts)
  unfolding create_recovery_job_if_owner
  create_job-Advances j key f job r t = elim (Option-cases (owned j key f s)) [
    | inl missing ↦
        rw (missing, create_recovery_job_if_owner) (Advances-refl (lookup id s.attempts))
    | inr ((k, a), found) ↦
        rw (found, create_recovery_job_if_owner)
          (ground (
            arith,
            owned_attempt j key f s k a found,
            write-Advances key a
                (record a { status = AttemptStatus.delivery_unknown; error_reason = some r }),
            Advances-refl (lookup id s.attempts),
          ))
  ]

  unresolvable-Advances :
      (j key : Ident) (f : ℕ) (r q : Reason) (t : Time)
      → Advances
          (lookup id s.attempts)
          (lookup id (resolve_attempt_unresolvable_if_owner j key f r q t s).0.attempts)
  unfolding resolve_attempt_unresolvable_if_owner
  unresolvable-Advances j key f r q t = elim (Option-cases (owned j key f s)) [
    | inl missing ↦
        rw (missing, resolve_attempt_unresolvable_if_owner) (Advances-refl (lookup id s.attempts))
    | inr ((k, a), found) ↦
        rw (found, resolve_attempt_unresolvable_if_owner)
          (ground (
            arith,
            owned_attempt j key f s k a found,
            write-Advances key a
                (record a { status = AttemptStatus.unresolvable; error_reason = some r }),
            Advances-refl (lookup id s.attempts),
          ))
  ]

  mark-Advances :
      (key : Ident) (f : ℕ) (o : Option Ident) (t : Time)
      → Advances
          (lookup id s.attempts)
          (lookup id (mark_attempt_in_progress key f o t s).0.attempts)
  unfolding mark_attempt_in_progress
  mark-Advances key f o t = elim (Option-cases (lookup key s.attempts)) [
    | inl missing ↦ rw (missing, mark_attempt_in_progress) (Advances-refl (lookup id s.attempts))
    | inr (a, found) ↦
        rw (found, mark_attempt_in_progress)
          (ground (
            arith,
            write-Advances key a
                (record a { status = AttemptStatus.attempted; started_at = some t }) found,
            Advances-refl (lookup id s.attempts),
          ))
  ]

step-Advances :
    (c : Call) (s : ExecutionStore) (id : Ident)
    → IsFresh c s
    → Advances (lookup id s.attempts) (lookup id (step c s).attempts)
unfolding step save_attempt save_attempt_with_job save_job claim_job update_job_status
step-Advances (saves_attempt a) s id f = save-Advances s id a f
step-Advances (saves_both a j) s id f = save-Advances s id a f.0
step-Advances (saves_job j) s id f = Advances-refl (lookup id s.attempts)
step-Advances (updates_attempt key st f e o) s id h = update-Advances s id key st f e o
step-Advances (resolves_retrieval j a f e t) s id h = retrieval-Advances s id j a f e t
step-Advances (creates_attempt j a f r e t) s id h = create_attempt-Advances s id j a f r e t h
step-Advances (creates_job j a f r e t) s id h = create_job-Advances s id j a f r e t
step-Advances (resolves_unresolvable j a f e l t) s id h = unresolvable-Advances s id j a f e l t
step-Advances (marks key f o t) s id h = mark-Advances s id key f o t
step-Advances (claims j w d t) s id h = ground (arith, Advances-refl (lookup id s.attempts))
step-Advances (updates_job j st f e t) s id h = ground (arith, Advances-refl (lookup id s.attempts))

-- Whatever sequence of calls the workers make, in which new rows get unused identifiers, no
-- attempt is removed, none changes its identity, its number or its idempotency key, an attempt
-- in SUCCESS, HTTP_FAILURE or UNRESOLVABLE keeps that status, and one in DELIVERY_UNKNOWN keeps
-- it or is resolved to SUCCESS.
pub run-Advances :
    (cs : List Call) (s : ExecutionStore) (id : Ident)
    → IsFreshRun cs s
    → Advances (lookup id s.attempts) (lookup id (run cs s).attempts)
unfolding run
run-Advances [] s id f = Advances-refl (lookup id s.attempts)
run-Advances (c ∷ cs) s id f =
    Advances-trans (lookup id s.attempts) _ _ (step-Advances c s id f.0)
      (run-Advances cs (step c s) id f.1)
