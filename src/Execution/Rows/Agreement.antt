-- ===== src/Execution/Rows/Agreement.antt =====
-- When rows and the in-memory store show the same (lib/db/src/secretariat/
-- postgres-execution-store.ts, zeus-secretariat/src/core/post-settlement-engine.ts).
use zeus_insurance_bot.Prelude.{
  ℕ, ◌≡◌, refl, ◌⊎◌, inl, inr, Bool-cases, ◌&&◌, Option, none, some, Ident, Time, lookup,
  lookup-insert, ◌==◌, if◌then◌else◌,
}
use zeus_insurance_bot.Execution.Types.{ExecutionAttempt, RecoveryJob, is_running}
use zeus_insurance_bot.Execution.Store.{ExecutionStore, put_attempt, put_job, owned}
use zeus_insurance_bot.Execution.Rows.{JobRow, ExecutionRows, write_attempt, write_job}
use zeus_insurance_bot.Execution.Rows.Transactions.{locked}

-- An attempt is seen by its operation and its status.
abbrev pub SameAttempt : Option ExecutionAttempt → Option ExecutionAttempt → Type 0
SameAttempt none none = Unit
SameAttempt none (some b) = ⊥
SameAttempt (some a) none = ⊥
SameAttempt (some a) (some b) = (a.operation_id ≡ b.operation_id) × (a.status ≡ b.status)

-- The lock counts while a job is running.
abbrev pub lease : RecoveryJob → Option Time
lease j = if is_running j.status then j.locked_until else none

-- A job is seen by its operation, its status, its fence and its lock; the store has no fence but the
-- number of claims.
abbrev pub IsJobOf : RecoveryJob → JobRow → Type 0
IsJobOf j r =
    (j.operation_id ≡ r.job.operation_id)
    × (j.status ≡ r.job.status)
    × (j.current_attempt ≡ r.fence_generation)
    × (lease j ≡ lease r.job)

abbrev pub SameJob : Option RecoveryJob → Option JobRow → Type 0
SameJob none none = Unit
SameJob none (some r) = ⊥
SameJob (some j) none = ⊥
SameJob (some j) (some r) = IsJobOf j r

pub record Agrees (s : ExecutionStore) (p : ExecutionRows) : Type 0 where
  pub same_attempts : (id : Ident) → SameAttempt (lookup id s.attempts) (lookup id p.attempt_rows)
  pub same_jobs : (id : Ident) → SameJob (lookup id s.jobs) (lookup id p.job_rows)

-- The same answer, and states that show the same.
abbrev pub Answers {ℓ} : {R : Type ℓ} → ExecutionStore × R → ExecutionRows × R → Type ℓ
Answers (s, x) (p, y) = Agrees s p × (x ≡ y)

pub put_attempt-Agrees :
    (id : Ident) (a b : ExecutionAttempt) (s : ExecutionStore) (p : ExecutionRows)
    → Agrees s p
    → SameAttempt (some a) (some b)
    → Agrees (put_attempt id a s) (write_attempt id b p)
put_attempt-Agrees id a b s p h same = record {
  same_attempts = λ x.
      rw (lookup-insert id x a s.attempts, lookup-insert id x b p.attempt_rows)
        (elim (Bool-cases (id == x)) [
          | inl here ↦ rw here same
          | inr there ↦ rw there (h.same_attempts x)
        ]);
  same_jobs = h.same_jobs;
}

pub put_job-Agrees :
    (id : Ident) (j : RecoveryJob) (r : JobRow) (s : ExecutionStore) (p : ExecutionRows)
    → Agrees s p
    → IsJobOf j r
    → Agrees (put_job id j s) (write_job id r p)
put_job-Agrees id j r s p h same = record {
  same_attempts = h.same_attempts;
  same_jobs = λ x.
      rw (lookup-insert id x j s.jobs, lookup-insert id x r p.job_rows)
        (elim (Bool-cases (id == x)) [
          | inl here ↦ rw here same
          | inr there ↦ rw there (h.same_jobs x)
        ]);
}

-- Both have it, or none.
pub attempts_found :
    (o q : Option ExecutionAttempt)
    → SameAttempt o q
    → ((o ≡ none) × (q ≡ none))
      ⊎ ((a : ExecutionAttempt) × (b : ExecutionAttempt) × (o ≡ some a)
          × (q ≡ some b)
          × (a.operation_id ≡ b.operation_id)
          × (a.status ≡ b.status))
attempts_found none none h = inl (refl, refl)
attempts_found none (some b) h = absurd h
attempts_found (some a) none h = absurd h
attempts_found (some a) (some b) h = inr (a, b, refl, refl, h.0, h.1)

pub jobs_found :
    (o : Option RecoveryJob) (q : Option JobRow)
    → SameJob o q
    → ((o ≡ none) × (q ≡ none))
      ⊎ ((j : RecoveryJob) × (r : JobRow) × (o ≡ some j) × (q ≡ some r) × IsJobOf j r)
jobs_found none none h = inl (refl, refl)
jobs_found none (some r) h = absurd h
jobs_found (some j) none h = absurd h
jobs_found (some j) (some r) h = inr (j, r, refl, refl, h)

same_test :
    (j : RecoveryJob) (r : JobRow) (a b : ExecutionAttempt) (fence : ℕ)
    → IsJobOf j r
    → a.operation_id ≡ b.operation_id
    → (is_running j.status && j.current_attempt == fence && a.operation_id == j.operation_id) ≡ (
        is_running r.job.status
        && r.fence_generation == fence
        && b.operation_id == r.job.operation_id)
same_test j r a b fence (op, st, gen, l) same = cc

-- The rows that a transaction locks are those that the store checks.
pub owned-locked :
    (job_id attempt_id : Ident) (fence : ℕ) (s : ExecutionStore) (p : ExecutionRows)
    → Agrees s p
    → ((owned job_id attempt_id fence s ≡ none) × (locked job_id attempt_id fence p ≡ none))
      ⊎ ((j : RecoveryJob) × (a : ExecutionAttempt) × (r : JobRow) × (b : ExecutionAttempt) × (owned
              job_id attempt_id fence s
            ≡ some (j, a))
          × (locked job_id attempt_id fence p ≡ some (r, b))
          × IsJobOf j r
          × SameAttempt (some a) (some b))
unfolding locked
owned-locked job_id attempt_id fence s p h =
    elim (jobs_found (lookup job_id s.jobs) (lookup job_id p.job_rows) (h.same_jobs job_id)) [
      | inl (e, f) ↦ inl (rw (e, owned) refl, rw (f, locked) refl)
      | inr (j, r, e, f, same) ↦
          elim (attempts_found (lookup attempt_id s.attempts) (lookup attempt_id p.attempt_rows)
            (h.same_attempts attempt_id)) [
              | inl (g, k) ↦ inl (rw (e, g, owned) refl, rw (f, k, locked) refl)
              | inr (a, b, g, k, op, st) ↦
                  let t = same_test j r a b fence same op in
                  elim (Bool-cases (
                    is_running r.job.status
                    && r.fence_generation == fence
                    && b.operation_id == r.job.operation_id)) [
                      | inl theirs ↦ inr (
                        j,
                        a,
                        r,
                        b,
                        rw (e, g, owned, t, theirs) refl,
                        rw (f, k, locked, theirs) refl,
                        same,
                        (op, st),
                      )
                      | inr other ↦
                          inl (rw (e, g, owned, t, other) refl, rw (f, k, locked, other) refl)
                    ]
            ]
    ]
