-- ===== src/Execution/Rows.antt =====
-- `PostgresExecutionStore` (lib/db/src/secretariat/postgres-execution-store.ts) as functions on the
-- rows of its two tables. A transaction that throws is nothing, and leaves the rows as they were;
-- `NOW()` is an argument. A row keeps the times of creation and update that it is inserted with,
-- also where the insertion leaves them to the default; a lock until the time 0 is no lock.
pub mod Transactions
pub mod Agreement
pub mod Writes
pub mod Inserts
pub mod Unique
pub mod Settlement
pub mod Refinement
pub mod Returns
mod Tests
use zeus_insurance_bot.Prelude.{
  ℕ, ◌+◌, Bool, true, false, not, ◌&&◌, ◌||◌, Option, none, some, List, [], ◌∷◌, Ident, Time, Map,
  lookup, insert, values, is_some, or_else, ◌==◌, if◌then◌else◌,
}
use zeus_insurance_bot.Execution.Types.{
  AttemptStatus, JobStatus, RecoveryJobType, ExecutionAttempt, RecoveryJob, Reason, AttemptExtra,
  assign, JobExtra, is_terminal, is_terminal_job, is_pending, is_attempted, is_unknown, is_running,
}
use zeus_insurance_bot.Execution.Store.{released, claimed, is_claimable, is_open_delivery}

-- A row of recovery_jobs: the job and its column `fence_generation`.
pub record JobRow : Type 0 where
  pub job : RecoveryJob
  pub fence_generation : ℕ

pub record ExecutionRows : Type 0 where
  pub attempt_rows : Map ExecutionAttempt
  pub job_rows : Map JobRow

abbrev pub write_attempt : Ident → ExecutionAttempt → ExecutionRows → ExecutionRows
write_attempt id a p = record p { attempt_rows = insert id a p.attempt_rows }

abbrev pub write_job : Ident → JobRow → ExecutionRows → ExecutionRows
write_job id r p = record p { job_rows = insert id r p.job_rows }

-- The unique indexes: on the primary keys, on the number of an attempt of an execution, and on the
-- operation of a job that is an EXECUTION.
abbrev pub takes_number : ExecutionAttempt → List ExecutionAttempt → Bool
takes_number a [] = false
takes_number a (b ∷ rest) =
    a.execution_id == b.execution_id && a.attempt_number == b.attempt_number || takes_number a rest

abbrev pub is_execution : RecoveryJobType → Bool
is_execution RecoveryJobType.execution = true
is_execution t = false

abbrev pub takes_obligation : RecoveryJob → List JobRow → Bool
takes_obligation j [] = false
takes_obligation j (r ∷ rest) =
    is_execution j.job_type && is_execution r.job.job_type && j.operation_id == r.job.operation_id
    || takes_obligation j rest

-- `tx.insert(executionAttemptsTable)`.
unfoldable pub insert_attempt : ExecutionAttempt → ExecutionRows → Option ExecutionRows
insert_attempt a p =
    if is_some (lookup a.attempt_id p.attempt_rows) || takes_number a (values p.attempt_rows)
    then none
    else some (write_attempt a.attempt_id a p)

-- `tx.insert(recoveryJobsTable)`, with the default of `fence_generation`.
unfoldable pub insert_job : RecoveryJob → ExecutionRows → Option ExecutionRows
insert_job j p =
    if is_some (lookup j.job_id p.job_rows) || takes_obligation j (values p.job_rows)
    then none
    else some (write_job j.job_id (record { job = j; fence_generation = 0 }) p)

-- `saveAttempt` and `saveJob`.
unfoldable pub save_attempt_row : ExecutionAttempt → ExecutionRows → Option ExecutionRows
unfolding insert_attempt
save_attempt_row a p = insert_attempt a p

unfoldable pub save_job_row : RecoveryJob → ExecutionRows → Option ExecutionRows
unfolding insert_job
save_job_row j p = insert_job j p

-- `saveAttemptWithJob`.
unfoldable pub save_both_rows :
    ExecutionAttempt → RecoveryJob → ExecutionRows → Option ExecutionRows
unfolding insert_attempt insert_job
save_both_rows a j p = elim (insert_job j p) [ none ↦ none | some q ↦ insert_attempt a q ]

-- The join with recovery_jobs: a row of the attempt's operation under this fence, which the update
-- names if it is given a job.
abbrev pub some_fences : List JobRow → Ident → ℕ → Bool
some_fences [] op fence = false
some_fences (r ∷ rest) op fence =
    r.job.operation_id == op && r.fence_generation == fence || some_fences rest op fence

abbrev pub row_fences : Option JobRow → Ident → ℕ → Bool
row_fences none op fence = false
row_fences (some r) op fence = r.job.operation_id == op && r.fence_generation == fence

abbrev pub joins : Option Ident → ExecutionRows → Ident → ℕ → Bool
joins none p op fence = some_fences (values p.job_rows) op fence
joins (some id) p op fence = row_fences (lookup id p.job_rows) op fence

-- `updateAttemptStatus`.
unfoldable pub update_attempt_row :
    Ident → AttemptStatus → ℕ → AttemptExtra → Option Ident → ExecutionRows → ExecutionRows × Bool
update_attempt_row id status fence extra job_id p = elim (lookup id p.attempt_rows) [
  | none ↦ (p, false)
  | some a ↦
      if joins job_id p a.operation_id fence && not (is_terminal a.status)
      then (write_attempt id (assign extra (record a { status = status })) p, true)
      else (p, false)
]

-- `markAttemptInProgress`.
unfoldable pub mark_attempt_row :
    Ident → ℕ → Option Ident → Time → ExecutionRows → ExecutionRows × Bool
mark_attempt_row id fence job_id now p = elim (lookup id p.attempt_rows) [
  | none ↦ (p, false)
  | some a ↦
      if joins job_id p a.operation_id fence && is_pending a.status
      then (
        write_attempt id (record a { status = AttemptStatus.attempted; started_at = some now }) p,
        true,
      )
      else (p, false)
]

-- `claimJob`: the lock ends by the clock of the worker, and is compared with that of the database.
unfoldable pub claim_job_row :
    Ident → Ident → ℕ → Time → Time → ExecutionRows → ExecutionRows × Option ℕ
claim_job_row job_id worker duration now database_now p = elim (lookup job_id p.job_rows) [
  | none ↦ (p, none)
  | some r ↦
      if is_claimable r.job database_now
      then (
        write_job job_id
            (record {
              job = record (claimed r.job worker duration now) { updated_at = database_now };
              fence_generation = r.fence_generation + 1;
            })
            p,
        some (r.fence_generation + 1),
      )
      else (p, none)
]

-- The columns that `updateJobStatus` writes. A lock that is `undefined` is kept, unless the status
-- is terminal.
abbrev pub updated_row : JobStatus → JobExtra → Time → JobRow → JobRow
updated_row status extra now r = record r {
  job = record r.job {
    status = status;
    updated_at = now;
    last_error = or_else extra.last_error r.job.last_error;
    locked_by = if is_terminal_job status then none else r.job.locked_by;
    locked_until = if is_terminal_job status then none else r.job.locked_until;
  };
}

-- `updateJobStatus`.
unfoldable pub update_job_row :
    Ident → JobStatus → ℕ → JobExtra → Time → ExecutionRows → ExecutionRows × Bool
update_job_row job_id status fence extra now p = elim (lookup job_id p.job_rows) [
  | none ↦ (p, false)
  | some r ↦
      if r.fence_generation == fence && not (is_terminal_job r.job.status)
      then (write_job job_id (updated_row status extra now r) p, true)
      else (p, false)
]
