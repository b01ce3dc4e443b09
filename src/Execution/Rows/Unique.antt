-- ===== src/Execution/Rows/Unique.antt =====
-- When the unique indexes let a call of the PostgreSQL store through
-- (lib/db/src/secretariat/postgres-execution-store.ts, lib/db/src/schema/execution-recovery.ts).
use zeus_insurance_bot.Prelude.{
  ℕ, ◌≡◌, refl, sym, inl, inr, Bool, Bool-cases, true, false, ◌||◌, Option-cases, some, [], ◌∷◌,
  Ident, Time, Map, lookup, insert, lookup-insert, values, is_some, ◌==◌, arith,
}
use zeus_insurance_bot.Execution.Types.{
  AttemptStatus, ExecutionAttempt, RecoveryJob, Reason, is_attempted,
}
use zeus_insurance_bot.Execution.Store.{is_open_delivery}
use zeus_insurance_bot.Execution.Rows.{
  JobRow, ExecutionRows, takes_number, takes_obligation, insert_attempt, insert_job, save_both_rows,
  write_job,
}
use zeus_insurance_bot.Execution.Rows.Transactions.{
  locked, mark_row_unknown, create_attempt_rows, create_job_rows,
}

-- Neither the identifier nor the number of the attempt is in use.
abbrev pub is_taken : ExecutionAttempt → Map ExecutionAttempt → Bool
is_taken a rows = is_some (lookup a.attempt_id rows) || takes_number a (values rows)

abbrev pub is_taken_job : RecoveryJob → Map JobRow → Bool
is_taken_job j rows = is_some (lookup j.job_id rows) || takes_obligation j (values rows)

pub insert_attempt-is_some :
    (a : ExecutionAttempt) (p : ExecutionRows)
    → is_taken a p.attempt_rows ≡ false
    → is_some (insert_attempt a p) ≡ true
unfolding insert_attempt
insert_attempt-is_some a p free = rw free refl

pub insert_job-is_some :
    (j : RecoveryJob) (p : ExecutionRows)
    → is_taken_job j p.job_rows ≡ false
    → is_some (insert_job j p) ≡ true
unfolding insert_job
insert_job-is_some j p free = rw free refl

-- An update of a row in place frees no number and takes none.
same_numbers :
    (a b : ExecutionAttempt) (id : Ident) (rows : Map ExecutionAttempt) (c : ExecutionAttempt)
    → lookup id rows ≡ some c
    → b.execution_id ≡ c.execution_id
    → b.attempt_number ≡ c.attempt_number
    → takes_number a (values (insert id b rows)) ≡ takes_number a (values rows)
unfolding lookup insert
same_numbers a b id [] c found e n = absurd (cc)
same_numbers a b id ((at, old) ∷ rest) c found e n = elim (Bool-cases (id == at)) [
  | inl here ↦ let same : old ≡ c = (ground arith) in rw (here, e, n, same) refl
  | inr there ↦
      let later : lookup id rest ≡ some c = (ground arith) in
      rw (there, same_numbers a b id rest c later e n) refl
]

same_keys :
    (x id : Ident) (b c : ExecutionAttempt) (rows : Map ExecutionAttempt)
    → lookup id rows ≡ some c
    → is_some (lookup x (insert id b rows)) ≡ is_some (lookup x rows)
same_keys x id b c rows found = rw (lookup-insert id x b rows) (elim (Bool-cases (id == x)) [
  | inl here ↦ let same : id ≡ x = (ground arith) in rw (here, sym same, found) refl
  | inr there ↦ rw there refl
])

locked-lookup :
    (job_id id : Ident) (fence : ℕ) (p : ExecutionRows) (r : JobRow) (b : ExecutionAttempt)
    → locked job_id id fence p ≡ some (r, b)
    → lookup id p.attempt_rows ≡ some b
unfolding locked
locked-lookup job_id id fence p r b e = ground arith

marked-is_taken :
    (a b : ExecutionAttempt) (id : Ident) (reason : Reason) (now : Time) (p : ExecutionRows)
    → lookup id p.attempt_rows ≡ some b
    → is_taken a (mark_row_unknown id b reason now p).attempt_rows ≡ is_taken a p.attempt_rows
marked-is_taken a b id reason now p found = elim (Bool-cases (is_attempted b.status)) [
  | inl open_call ↦
      let marked : ExecutionAttempt = record b {
        status = AttemptStatus.delivery_unknown;
        error_reason = some reason;
        completed_at = some now;
      } in
      rw
        (
          open_call,
          same_keys a.attempt_id id marked b p.attempt_rows found,
          same_numbers a marked id p.attempt_rows b found refl refl,
        )
        refl
  | inr other ↦ rw other refl
]

marked-job_rows :
    (b : ExecutionAttempt) (id : Ident) (reason : Reason) (now : Time) (p : ExecutionRows)
    → (mark_row_unknown id b reason now p).job_rows ≡ p.job_rows
marked-job_rows b id reason now p = elim (Bool-cases (is_attempted b.status)) [
  | inl open_call ↦ rw open_call refl
  | inr other ↦ rw other refl
]

module _ (job_id id : Ident) (fence : ℕ) (reason : Reason) (now : Time) (p : ExecutionRows) where
  pub create_attempt_rows-is_some :
      (retry : ExecutionAttempt)
      → is_taken retry p.attempt_rows ≡ false
      → is_some (create_attempt_rows job_id id fence retry reason now p) ≡ true
  unfolding create_attempt_rows
  create_attempt_rows-is_some retry free = elim (Option-cases (locked job_id id fence p)) [
    | inl e ↦ rw (e, create_attempt_rows) refl
    | inr (out, e) ↦ elim (Bool-cases (is_open_delivery out.1.status)) [
      | inr over ↦ rw (e, create_attempt_rows, over) refl
      | inl goes ↦
          let b = out.1 in
          let found = locked-lookup job_id id fence p (out.0) b e in
          let rows = mark_row_unknown id b reason now p in
          let done =
            insert_attempt-is_some retry rows
              (rw (marked-is_taken retry b id reason now p found) free) in
          elim (Option-cases (insert_attempt retry rows)) [
            | inl thrown ↦ absurd (cc)
            | inr (q, put) ↦ rw (e, create_attempt_rows, goes, put) refl
          ]
    ]
  ]

  pub create_job_rows-is_some :
      (retrieval : RecoveryJob)
      → is_taken_job retrieval p.job_rows ≡ false
      → is_some (create_job_rows job_id id fence retrieval reason now p) ≡ true
  unfolding create_job_rows
  create_job_rows-is_some retrieval free = elim (Option-cases (locked job_id id fence p)) [
    | inl e ↦ rw (e, create_job_rows) refl
    | inr (out, e) ↦ elim (Bool-cases (is_open_delivery out.1.status)) [
      | inr over ↦ rw (e, create_job_rows, over) refl
      | inl goes ↦
          let rows = mark_row_unknown id (out.1) reason now p in
          let done =
            insert_job-is_some retrieval rows (rw (marked-job_rows (out.1) id reason now p) free) in
          elim (Option-cases (insert_job retrieval rows)) [
            | inl thrown ↦ absurd (cc)
            | inr (q, put) ↦ rw (e, create_job_rows, goes, put) refl
          ]
    ]
  ]

pub save_both_rows-is_some :
    (a : ExecutionAttempt) (j : RecoveryJob) (p : ExecutionRows)
    → is_taken a p.attempt_rows ≡ false
    → is_taken_job j p.job_rows ≡ false
    → is_some (save_both_rows a j p) ≡ true
unfolding save_both_rows insert_job
save_both_rows-is_some a j p free free_job =
    rw (save_both_rows, free_job) (insert_attempt-is_some a (write_job j.job_id _ p) free)
