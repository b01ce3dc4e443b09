-- ===== src/Execution/Rows/Writes.antt =====
-- Each write of the PostgreSQL store does what that of the in-memory store does
-- (lib/db/src/secretariat/postgres-execution-store.ts).
use zeus_insurance_bot.Prelude.{
  ℕ, ◌+◌, ◌≡◌, refl, inl, inr, ap, Bool-cases, false, not, ◌&&◌, ◌||◌, some, Ident, Time, lookup,
  ◌==◌,
}
use zeus_insurance_bot.Execution.Types.{
  AttemptStatus, JobStatus, ExecutionAttempt, RecoveryJob, Reason, AttemptExtra, assign, JobExtra,
  is_terminal, is_terminal_job, is_pending, is_unknown, is_running, is_job_pending,
}
use zeus_insurance_bot.Execution.Store.{
  ExecutionStore, update_attempt_status, holds_fence, owning_job, mark_attempt_in_progress,
  resolve_retrieval_success_if_owner, resolve_attempt_unresolvable_if_owner, claim_job,
  update_job_status, is_claimable, is_expired,
}
use zeus_insurance_bot.Execution.Rows.{
  JobRow, ExecutionRows, update_attempt_row, mark_attempt_row, joins, row_fences, claim_job_row,
  update_job_row,
}
use zeus_insurance_bot.Execution.Rows.Transactions.{
  resolve_retrieval_rows, resolve_unresolvable_rows, retrieved,
}
use zeus_insurance_bot.Execution.Rows.Agreement.{
  Agrees, Answers, IsJobOf, lease, put_attempt-Agrees, put_job-Agrees, attempts_found, jobs_found,
  owned-locked,
}

-- The fence of a named job.
fence_test :
    (j : RecoveryJob) (r : JobRow) (a b : ExecutionAttempt) (fence : ℕ)
    → IsJobOf j r
    → a.operation_id ≡ b.operation_id
    → holds_fence (some j) a fence ≡ row_fences (some r) b.operation_id fence
fence_test j r a b fence (op, st, gen, l) same = cc

holds-joins :
    (job_id : Ident) (a b : ExecutionAttempt) (fence : ℕ) (s : ExecutionStore) (p : ExecutionRows)
    → Agrees s p
    → a.operation_id ≡ b.operation_id
    → holds_fence (owning_job (some job_id) a s) a fence
      ≡ joins (some job_id) p b.operation_id fence
holds-joins job_id a b fence s p h same =
    elim (jobs_found (lookup job_id s.jobs) (lookup job_id p.job_rows) (h.same_jobs job_id)) [
      | inl (e, f) ↦ rw (e, f) refl
      | inr (j, r, e, f, job) ↦ rw (e, f) (fence_test j r a b fence job same)
    ]

lease_test :
    (j : RecoveryJob) (now : Time)
    → is_claimable j now ≡ (is_job_pending j.status || is_expired (lease j) now)
lease_test j now = elim (Bool-cases (is_running j.status)) [
  | inl runs ↦ rw runs refl
  | inr rests ↦ rw rests refl
]

claim_test :
    (j : RecoveryJob) (r : JobRow) (now : Time)
    → IsJobOf j r
    → is_claimable j now ≡ is_claimable r.job now
claim_test j r now (op, st, gen, same) = cc (lease_test j now, lease_test r.job now)

update_test :
    (j : RecoveryJob) (r : JobRow) (fence : ℕ)
    → IsJobOf j r
    → (j.current_attempt == fence && not (is_terminal_job j.status))
      ≡ (r.fence_generation == fence && not (is_terminal_job r.job.status))
update_test j r fence (op, st, gen, l) = cc

module _ (s : ExecutionStore) (p : ExecutionRows) (h : Agrees s p) where
  pub update_attempt_row-Answers :
      (id : Ident) (status : AttemptStatus) (fence : ℕ) (extra : AttemptExtra) (job_id : Ident)
      → Answers
          (update_attempt_status id status fence extra (some job_id) s)
          (update_attempt_row id status fence extra (some job_id) p)
  unfolding update_attempt_status update_attempt_row
  update_attempt_row-Answers id status fence extra job_id =
      elim (attempts_found (lookup id s.attempts) (lookup id p.attempt_rows) (h.same_attempts id)) [
        | inl (e, f) ↦ rw (e, f, update_attempt_status, update_attempt_row) (h, refl)
        | inr (a, b, e, f, op, st) ↦
            let t = holds-joins job_id a b fence s p h op in
            elim (Bool-cases (joins (some job_id) p b.operation_id fence)) [
              | inr lost ↦ rw (e, f, update_attempt_status, update_attempt_row, t, lost) (h, refl)
              | inl held ↦ elim (Bool-cases (is_terminal b.status)) [
                | inl over ↦
                    rw (e, f, update_attempt_status, update_attempt_row, t, held, st, over)
                      (h, refl)
                | inr goes ↦
                    rw (e, f, update_attempt_status, update_attempt_row, t, held, st, goes)
                      (
                        put_attempt-Agrees id (assign extra (record a { status = status }))
                            (assign extra (record b { status = status })) s p h (op, refl),
                        refl,
                      )
              ]
            ]
      ]

  pub mark_attempt_row-Answers :
      (id : Ident) (fence : ℕ) (job_id : Ident) (now : Time)
      → Answers
          (mark_attempt_in_progress id fence (some job_id) now s)
          (mark_attempt_row id fence (some job_id) now p)
  unfolding mark_attempt_in_progress mark_attempt_row
  mark_attempt_row-Answers id fence job_id now =
      elim (attempts_found (lookup id s.attempts) (lookup id p.attempt_rows) (h.same_attempts id)) [
        | inl (e, f) ↦ rw (e, f, mark_attempt_in_progress, mark_attempt_row) (h, refl)
        | inr (a, b, e, f, op, st) ↦
            let t = holds-joins job_id a b fence s p h op in
            elim (Bool-cases (joins (some job_id) p b.operation_id fence)) [
              | inr lost ↦ elim (Bool-cases (is_pending b.status)) [
                | inl begins ↦
                    rw (e, f, mark_attempt_in_progress, mark_attempt_row, t, lost, st, begins)
                      (h, refl)
                | inr over ↦
                    rw (e, f, mark_attempt_in_progress, mark_attempt_row, t, lost, st, over)
                      (h, refl)
              ]
              | inl held ↦ elim (Bool-cases (is_pending b.status)) [
                | inr over ↦
                    rw (e, f, mark_attempt_in_progress, mark_attempt_row, t, held, st, over)
                      (h, refl)
                | inl begins ↦
                    rw (e, f, mark_attempt_in_progress, mark_attempt_row, t, held, st, begins)
                      (
                        put_attempt-Agrees id
                            (record a { status = AttemptStatus.attempted; started_at = some now })
                            (record b { status = AttemptStatus.attempted; started_at = some now }) s
                            p h (op, refl),
                        refl,
                      )
              ]
            ]
      ]

  pub resolve_retrieval_rows-Answers :
      (job_id attempt_id : Ident) (fence : ℕ) (extra : AttemptExtra) (now : Time)
      → Answers
          (resolve_retrieval_success_if_owner job_id attempt_id fence extra now s)
          (resolve_retrieval_rows job_id attempt_id fence extra now p)
  unfolding resolve_retrieval_success_if_owner resolve_retrieval_rows
  resolve_retrieval_rows-Answers job_id attempt_id fence extra now =
      elim (owned-locked job_id attempt_id fence s p h) [
        | inl (e, f) ↦
            rw (e, f, resolve_retrieval_success_if_owner, resolve_retrieval_rows) (h, refl)
        | inr (j, a, r, b, e, f, job, (op, st)) ↦ elim (Bool-cases (is_unknown b.status)) [
          | inr other ↦
              rw (e, f, resolve_retrieval_success_if_owner, resolve_retrieval_rows, st, other)
                (h, refl)
          | inl unknown ↦
              rw (e, f, resolve_retrieval_success_if_owner, resolve_retrieval_rows, st, unknown)
                (
                  put_job-Agrees job_id _ _ _ _
                      (put_attempt-Agrees attempt_id
                        (assign extra (record a { status = AttemptStatus.success }))
                        (retrieved extra b) s p h (op, refl))
                      (job.0, refl, job.2, refl),
                  refl,
                )
        ]
      ]

  pub resolve_unresolvable_rows-Answers :
      (job_id attempt_id : Ident) (fence : ℕ) (attempt_error job_error : Reason) (now : Time)
      → Answers
          (resolve_attempt_unresolvable_if_owner job_id attempt_id fence attempt_error job_error now
            s)
          (resolve_unresolvable_rows job_id attempt_id fence attempt_error job_error now p)
  unfolding resolve_attempt_unresolvable_if_owner resolve_unresolvable_rows
  resolve_unresolvable_rows-Answers job_id attempt_id fence attempt_error job_error now =
      elim (owned-locked job_id attempt_id fence s p h) [
        | inl (e, f) ↦
            rw (e, f, resolve_attempt_unresolvable_if_owner, resolve_unresolvable_rows) (h, refl)
        | inr (j, a, r, b, e, f, job, (op, st)) ↦ elim (Bool-cases (is_terminal b.status)) [
          | inl over ↦
              rw (e, f, resolve_attempt_unresolvable_if_owner, resolve_unresolvable_rows, st, over)
                (h, refl)
          | inr goes ↦
              rw (e, f, resolve_attempt_unresolvable_if_owner, resolve_unresolvable_rows, st, goes)
                (
                  put_job-Agrees job_id _ _ _ _
                      (put_attempt-Agrees attempt_id
                        (record a {
                          status = AttemptStatus.unresolvable;
                          error_reason = some attempt_error;
                        })
                        (record b {
                          status = AttemptStatus.unresolvable;
                          error_reason = some attempt_error;
                        })
                        s p h (op, refl))
                      (job.0, refl, job.2, refl),
                  refl,
                )
        ]
      ]

  pub claim_job_row-Answers :
      (job_id worker : Ident) (duration : ℕ) (now : Time)
      → Answers
          (claim_job job_id worker duration now s)
          (claim_job_row job_id worker duration now now p)
  unfolding claim_job claim_job_row
  claim_job_row-Answers job_id worker duration now =
      elim (jobs_found (lookup job_id s.jobs) (lookup job_id p.job_rows) (h.same_jobs job_id)) [
        | inl (e, f) ↦ rw (e, f, claim_job, claim_job_row) (h, refl)
        | inr (j, r, e, f, job) ↦
            let t = claim_test j r now job in
            elim (Bool-cases (is_claimable r.job now)) [
              | inr busy ↦ rw (e, f, claim_job, claim_job_row, t, busy) (h, refl)
              | inl free ↦
                  rw (e, f, claim_job, claim_job_row, t, free)
                    (
                      put_job-Agrees job_id _ _ s p h (job.0, refl, ap (λ n. n + 1) job.2, refl),
                      ap (λ n. some (n + 1)) job.2,
                    )
            ]
      ]

  pub update_job_row-Answers :
      (job_id : Ident) (status : JobStatus) (fence : ℕ) (extra : JobExtra) (now : Time)
      → is_running status ≡ false
      → Answers
          (update_job_status job_id status fence extra now s)
          (update_job_row job_id status fence extra now p)
  unfolding update_job_status update_job_row
  update_job_row-Answers job_id status fence extra now rests =
      elim (jobs_found (lookup job_id s.jobs) (lookup job_id p.job_rows) (h.same_jobs job_id)) [
        | inl (e, f) ↦ rw (e, f, update_job_status, update_job_row) (h, refl)
        | inr (j, r, e, f, job) ↦
            let t = update_test j r fence job in
            elim (Bool-cases (r.fence_generation == fence && not (is_terminal_job r.job.status))) [
              | inr lost ↦ rw (e, f, update_job_status, update_job_row, t, lost) (h, refl)
              | inl held ↦
                  rw (e, f, update_job_status, update_job_row, t, held)
                    (put_job-Agrees job_id _ _ s p h (job.0, refl, job.2, rw rests refl), refl)
            ]
      ]
