-- ===== src/Execution/Rows/Inserts.antt =====
-- Each insertion of the PostgreSQL store that is committed does what that of the in-memory store
-- does (lib/db/src/secretariat/postgres-execution-store.ts).
use zeus_insurance_bot.Prelude.{
  ℕ, ◌≡◌, refl, inl, inr, subst, Bool-cases, true, ◌||◌, Option, Option-cases, none, some, Ident,
  Time, lookup, is_some, values,
}
use zeus_insurance_bot.Execution.Types.{
  AttemptStatus, JobStatus, ExecutionAttempt, RecoveryJob, Reason, is_attempted,
}
use zeus_insurance_bot.Execution.Store.{
  ExecutionStore, put_attempt, put_job, index_attempt, save_attempt, save_job,
  save_attempt_with_job, create_recovery_attempt_if_owner, create_recovery_job_if_owner,
  is_open_delivery, mark_unknown, released,
}
use zeus_insurance_bot.Execution.Rows.{
  ExecutionRows, insert_attempt, insert_job, save_attempt_row, save_job_row, save_both_rows,
  takes_number, takes_obligation,
}
use zeus_insurance_bot.Execution.Rows.Transactions.{
  mark_row_unknown, create_attempt_rows, create_job_rows, with_error, unlocked,
}
use zeus_insurance_bot.Execution.Rows.Agreement.{
  Agrees, Answers, SameAttempt, put_attempt-Agrees, put_job-Agrees, owned-locked,
}

-- The same, if the transaction does not throw.
abbrev pub AnswersIf {ℓ} : {R : Type ℓ} → ExecutionStore × R → Option (ExecutionRows × R) → Type ℓ
AnswersIf out none = Unit
AnswersIf out (some q) = Answers out q

abbrev pub AgreesIf : ExecutionStore → Option ExecutionRows → Type 0
AgreesIf s none = Unit {0}
AgreesIf s (some q) = Agrees s q

-- The index of the attempts of an operation is in the in-memory store only.
pub index-Agrees :
    (a : ExecutionAttempt) (s : ExecutionStore) (p : ExecutionRows)
    → Agrees s p
    → Agrees (index_attempt a s) p
index-Agrees a s p h = record { same_attempts = h.same_attempts; same_jobs = h.same_jobs }

mark_unknown-Agrees :
    (id : Ident) (a b : ExecutionAttempt) (reason : Reason) (now : Time) (s : ExecutionStore)
    (p : ExecutionRows)
    → Agrees s p
    → SameAttempt (some a) (some b)
    → Agrees (mark_unknown id a reason s) (mark_row_unknown id b reason now p)
mark_unknown-Agrees id a b reason now s p h (op, st) = elim (Bool-cases (is_attempted b.status)) [
  | inl open_call ↦
      rw (st, open_call)
        (put_attempt-Agrees id
          (record a { status = AttemptStatus.delivery_unknown; error_reason = some reason })
          (record b {
            status = AttemptStatus.delivery_unknown;
            error_reason = some reason;
            completed_at = some now;
          })
          s p h (op, refl))
  | inr other ↦ rw (st, other) h
]

insert_attempt-AgreesIf :
    (a : ExecutionAttempt) (s : ExecutionStore) (p : ExecutionRows)
    → Agrees s p
    → AgreesIf (put_attempt a.attempt_id a s) (insert_attempt a p)
unfolding insert_attempt
insert_attempt-AgreesIf a s p h =
    elim (Bool-cases
      (is_some (lookup a.attempt_id p.attempt_rows) || takes_number a (values p.attempt_rows))) [
        | inl taken ↦ rw taken tt
        | inr fresh ↦ rw fresh (put_attempt-Agrees a.attempt_id a a s p h (refl, refl))
      ]

-- A job whose claims are not counted yet, as its fence is not.
abbrev pub IsUnclaimed : RecoveryJob → Type 0
IsUnclaimed j = j.current_attempt ≡ 0

insert_job-AgreesIf :
    (j : RecoveryJob) (s : ExecutionStore) (p : ExecutionRows)
    → IsUnclaimed j
    → Agrees s p
    → AgreesIf (put_job j.job_id j s) (insert_job j p)
unfolding insert_job
insert_job-AgreesIf j s p new h =
    elim (Bool-cases
      (is_some (lookup j.job_id p.job_rows) || takes_obligation j (values p.job_rows))) [
        | inl taken ↦ rw taken tt
        | inr fresh ↦ rw fresh (
            put_job-Agrees j.job_id j (record { job = j; fence_generation = 0 }) s p h
              (refl, refl, new, refl))
      ]

-- What a committed insertion leaves.
committed :
    (s : ExecutionStore) (o : Option ExecutionRows) (q : ExecutionRows)
    → AgreesIf s o
    → o ≡ some q
    → Agrees s q
committed s o q h e = subst (AgreesIf s) e h

module _ (s : ExecutionStore) (p : ExecutionRows) (h : Agrees s p) where
  pub save_attempt_row-AgreesIf :
      (a : ExecutionAttempt) → AgreesIf (save_attempt a s) (save_attempt_row a p)
  unfolding save_attempt save_attempt_row
  save_attempt_row-AgreesIf a = elim (Option-cases (insert_attempt a p)) [
    | inl thrown ↦ rw thrown tt
    | inr (q, done) ↦ rw done (
        index-Agrees a (put_attempt a.attempt_id a s) q
          (committed _ (insert_attempt a p) q (insert_attempt-AgreesIf a s p h) done))
  ]

  pub save_job_row-AgreesIf :
      (j : RecoveryJob) → IsUnclaimed j → AgreesIf (save_job j s) (save_job_row j p)
  unfolding save_job save_job_row
  save_job_row-AgreesIf j new = insert_job-AgreesIf j s p new h

  pub save_both_rows-AgreesIf :
      (a : ExecutionAttempt) (j : RecoveryJob)
      → IsUnclaimed j
      → AgreesIf (save_attempt_with_job a j s) (save_both_rows a j p)
  unfolding save_attempt_with_job save_both_rows
  save_both_rows-AgreesIf a j new = elim (Option-cases (insert_job j p)) [
    | inl thrown ↦ rw (thrown, save_both_rows) tt
    | inr (q, done) ↦
        let first = committed _ (insert_job j p) q (insert_job-AgreesIf j s p new h) done in
        elim (Option-cases (insert_attempt a q)) [
          | inl thrown ↦ rw (done, thrown, save_both_rows) tt
          | inr (both, also) ↦
              let second =
                committed _ (insert_attempt a q) both
                  (insert_attempt-AgreesIf a (put_job j.job_id j s) q first) also in
              rw (done, also, save_both_rows)
                (record { same_attempts = second.same_attempts; same_jobs = second.same_jobs })
        ]
  ]

  pub create_attempt_rows-AnswersIf :
      (job_id original_id : Ident) (fence : ℕ) (retry : ExecutionAttempt) (reason : Reason)
      (now : Time)
      → AnswersIf
          (create_recovery_attempt_if_owner job_id original_id fence retry reason now s)
          (create_attempt_rows job_id original_id fence retry reason now p)
  unfolding create_recovery_attempt_if_owner create_attempt_rows
  create_attempt_rows-AnswersIf job_id original_id fence retry reason now =
      elim (owned-locked job_id original_id fence s p h) [
        | inl (e, f) ↦ rw (e, f, create_recovery_attempt_if_owner, create_attempt_rows) (h, refl)
        | inr (j, a, r, b, e, f, job, (op, st)) ↦ elim (Bool-cases (is_open_delivery b.status)) [
          | inr over ↦
              rw (e, f, create_recovery_attempt_if_owner, create_attempt_rows, st, over) (h, refl)
          | inl goes ↦
              let ours : is_open_delivery a.status ≡ true = rw st goes in
              let marked = mark_unknown-Agrees original_id a b reason now s p h (op, st) in
              let rows = mark_row_unknown original_id b reason now p in
              elim (Option-cases (insert_attempt retry rows)) [
                | inl thrown ↦
                    rw
                      (
                        e, f, create_recovery_attempt_if_owner, create_attempt_rows, ours, goes,
                        thrown,
                      )
                      tt
                | inr (q, done) ↦
                    rw
                      (
                        e, f, create_recovery_attempt_if_owner, create_attempt_rows, ours, goes,
                        done,
                      )
                      (
                        put_job-Agrees job_id (released JobStatus.pending now j)
                            (with_error reason (unlocked JobStatus.pending now r)) _ q
                            (index-Agrees retry _ q (
                              committed _ (insert_attempt retry rows) q
                                (insert_attempt-AgreesIf retry _ rows marked) done))
                            (job.0, refl, job.2, refl),
                        refl,
                      )
              ]
        ]
      ]

  pub create_job_rows-AnswersIf :
      (job_id original_id : Ident) (fence : ℕ) (retrieval : RecoveryJob) (reason : Reason)
      (now : Time)
      → IsUnclaimed retrieval
      → AnswersIf
          (create_recovery_job_if_owner job_id original_id fence retrieval reason now s)
          (create_job_rows job_id original_id fence retrieval reason now p)
  unfolding create_recovery_job_if_owner create_job_rows
  create_job_rows-AnswersIf job_id original_id fence retrieval reason now new =
      elim (owned-locked job_id original_id fence s p h) [
        | inl (e, f) ↦ rw (e, f, create_recovery_job_if_owner, create_job_rows) (h, refl)
        | inr (j, a, r, b, e, f, job, (op, st)) ↦ elim (Bool-cases (is_open_delivery b.status)) [
          | inr over ↦ rw (e, f, create_recovery_job_if_owner, create_job_rows, st, over) (h, refl)
          | inl goes ↦
              let ours : is_open_delivery a.status ≡ true = rw st goes in
              let marked = mark_unknown-Agrees original_id a b reason now s p h (op, st) in
              let rows = mark_row_unknown original_id b reason now p in
              elim (Option-cases (insert_job retrieval rows)) [
                | inl thrown ↦
                    rw (e, f, create_recovery_job_if_owner, create_job_rows, ours, goes, thrown) tt
                | inr (q, done) ↦
                    rw (e, f, create_recovery_job_if_owner, create_job_rows, ours, goes, done)
                      (
                        put_job-Agrees job_id
                            (record (released JobStatus.completed now j) {
                              last_error = some reason;
                            })
                            (with_error reason (unlocked JobStatus.completed now r)) _ q
                            (committed _ (insert_job retrieval rows) q
                              (insert_job-AgreesIf retrieval _ rows new marked) done)
                            (job.0, refl, job.2, refl),
                        refl,
                      )
              ]
        ]
      ]
