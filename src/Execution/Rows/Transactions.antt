-- ===== src/Execution/Rows/Transactions.antt =====
-- The transactions of `PostgresExecutionStore` that first lock the row of the job and then write
-- the attempt and the job (lib/db/src/secretariat/postgres-execution-store.ts).
use zeus_insurance_bot.Prelude.{
  ℕ, Bool, true, false, ◌&&◌, Option, none, some, Ident, Time, lookup, ◌==◌, if◌then◌else◌,
}
use zeus_insurance_bot.Execution.Types.{
  AttemptStatus, JobStatus, ExecutionAttempt, RecoveryJob, Reason, AttemptExtra, assign,
  is_terminal, is_attempted, is_unknown, is_running,
}
use zeus_insurance_bot.Execution.Store.{released, is_open_delivery}
use zeus_insurance_bot.Execution.Rows.{
  JobRow, ExecutionRows, write_attempt, write_job, insert_attempt, insert_job,
}

-- The rows that a transaction locks: the job, running under this fence, and the attempt, of the
-- same operation.
unfoldable pub locked : Ident → Ident → ℕ → ExecutionRows → Option (JobRow × ExecutionAttempt)
locked job_id attempt_id fence p = elim (lookup job_id p.job_rows) [
  | none ↦ none
  | some r ↦ elim (lookup attempt_id p.attempt_rows) [
    | none ↦ none
    | some a ↦
        if is_running r.job.status
          && r.fence_generation == fence
          && a.operation_id == r.job.operation_id
        then some (r, a)
        else none
  ]
]

-- `locked_by = NULL, locked_until = NULL` with a new status.
abbrev pub unlocked : JobStatus → Time → JobRow → JobRow
unlocked status now r = record r { job = released status now r.job }

abbrev pub with_error : Reason → JobRow → JobRow
with_error reason r = record r { job = record r.job { last_error = some reason } }

-- The columns of the attempt that a retrieval writes, `error_reason` not among them.
abbrev pub retrieved : AttemptExtra → ExecutionAttempt → ExecutionAttempt
retrieved extra a =
    assign (record extra { error_reason = none }) (record a { status = AttemptStatus.success })

-- `resolveRetrievalSuccessIfOwner`.
unfoldable pub resolve_retrieval_rows :
    Ident → Ident → ℕ → AttemptExtra → Time → ExecutionRows → ExecutionRows × Bool
unfolding locked
resolve_retrieval_rows job_id attempt_id fence extra now p =
    elim (locked job_id attempt_id fence p) [
      | none ↦ (p, false)
      | some (r, a) ↦
          if is_unknown a.status
          then (
            write_job job_id (unlocked JobStatus.completed now r)
                (write_attempt attempt_id (retrieved extra a) p),
            true,
          )
          else (p, false)
    ]

-- `if (original.status === "ATTEMPTED")`.
abbrev pub mark_row_unknown :
    Ident → ExecutionAttempt → Reason → Time → ExecutionRows → ExecutionRows
mark_row_unknown id a reason now p =
    if is_attempted a.status
    then write_attempt id
        (record a {
          status = AttemptStatus.delivery_unknown;
          error_reason = some reason;
          completed_at = some now;
        })
        p
    else p

-- `createRecoveryAttemptIfOwner`.
unfoldable pub create_attempt_rows :
    Ident
    → Ident
    → ℕ
    → ExecutionAttempt
    → Reason
    → Time
    → ExecutionRows
    → Option (ExecutionRows × Bool)
unfolding locked insert_attempt
create_attempt_rows job_id original_id fence retry reason now p =
    elim (locked job_id original_id fence p) [
      | none ↦ some (p, false)
      | some (r, a) ↦
          if is_open_delivery a.status
          then elim (insert_attempt retry (mark_row_unknown original_id a reason now p)) [
            | none ↦ none
            | some q ↦
                some
                  (write_job job_id (with_error reason (unlocked JobStatus.pending now r)) q, true)
          ]
          else some (p, false)
    ]

-- `createRecoveryJobIfOwner`.
unfoldable pub create_job_rows :
    Ident → Ident → ℕ → RecoveryJob → Reason → Time → ExecutionRows → Option (ExecutionRows × Bool)
unfolding locked insert_job
create_job_rows job_id original_id fence retrieval reason now p =
    elim (locked job_id original_id fence p) [
      | none ↦ some (p, false)
      | some (r, a) ↦
          if is_open_delivery a.status
          then elim (insert_job retrieval (mark_row_unknown original_id a reason now p)) [
            | none ↦ none
            | some q ↦
                some (
                  write_job job_id (with_error reason (unlocked JobStatus.completed now r)) q,
                  true,
                )
          ]
          else some (p, false)
    ]

-- `resolveAttemptUnresolvableIfOwner`.
unfoldable pub resolve_unresolvable_rows :
    Ident → Ident → ℕ → Reason → Reason → Time → ExecutionRows → ExecutionRows × Bool
unfolding locked
resolve_unresolvable_rows job_id attempt_id fence attempt_error job_error now p =
    elim (locked job_id attempt_id fence p) [
      | none ↦ (p, false)
      | some (r, a) ↦ if is_terminal a.status then (p, false) else (
        write_job job_id
            (record r {
              job = record r.job {
                status = JobStatus.unresolvable;
                last_error = some job_error;
                updated_at = now;
              };
            })
            (write_attempt attempt_id
              (record a { status = AttemptStatus.unresolvable; error_reason = some attempt_error })
              p),
        true,
      )
    ]
