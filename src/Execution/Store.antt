-- ===== src/Execution/Store.antt =====
-- `InMemoryExecutionStore` (zeus-secretariat/src/core/post-settlement-engine.ts). A method that
-- mutates a stored object returns the store with the object replaced under its key.
pub mod Calls
pub mod Terminal
pub mod Fencing
pub mod Claims
use zeus_insurance_bot.Prelude.{
  ℕ, ◌+◌, Bool, true, false, not, ◌&&◌, ◌||◌, Option, none, some, List, [], ◌∷◌, ◌++◌, Ident, Time,
  Map, lookup, insert, values, keep, find, includes, get_or, ltb, ◌==◌, if◌then◌else◌,
}
use zeus_insurance_bot.Execution.Types.{
  AttemptStatus, JobStatus, ExecutionAttempt, RecoveryJob, Reason, AttemptExtra, assign, JobExtra,
  assign_job, is_terminal, is_terminal_job, is_pending, is_attempted, is_unknown, is_job_pending,
  is_running,
}

pub record ExecutionStore : Type 0 where
  pub attempts : Map ExecutionAttempt
  pub jobs : Map RecoveryJob
  pub attempts_by_op : Map (List Ident)

-- `attempts.set(id, a)`, also for a mutation of the attempt that is stored under `id`.
abbrev pub put_attempt : Ident → ExecutionAttempt → ExecutionStore → ExecutionStore
put_attempt id a s = record s { attempts = insert id a s.attempts }

abbrev pub put_job : Ident → RecoveryJob → ExecutionStore → ExecutionStore
put_job id j s = record s { jobs = insert id j s.jobs }

-- `if (!list.includes(id)) list.push(id)`.
abbrev pub push_new : Ident → List Ident → List Ident
push_new id list = if includes list id then list else list ++ id ∷ []

abbrev pub index_attempt : ExecutionAttempt → ExecutionStore → ExecutionStore
index_attempt a s =
    let list = get_or (lookup a.operation_id s.attempts_by_op) [] in
    record s {
      attempts_by_op = insert a.operation_id (push_new a.attempt_id list) s.attempts_by_op;
    }

unfoldable pub save_attempt : ExecutionAttempt → ExecutionStore → ExecutionStore
save_attempt a s = index_attempt a (put_attempt a.attempt_id a s)

unfoldable pub save_attempt_with_job :
    ExecutionAttempt → RecoveryJob → ExecutionStore → ExecutionStore
save_attempt_with_job a j s = put_job j.job_id j (index_attempt a (put_attempt a.attempt_id a s))

-- `ids.map((id) => this.attempts.get(id)!).filter(Boolean)`.
abbrev pub present : Map ExecutionAttempt → List Ident → List ExecutionAttempt
present m [] = []
present m (id ∷ ids) = elim (lookup id m) [ none ↦ present m ids | some a ↦ a ∷ present m ids ]

unfoldable pub get_attempts_by_operation : Ident → ExecutionStore → List ExecutionAttempt
get_attempts_by_operation op s = present s.attempts (get_or (lookup op s.attempts_by_op) [])

unfoldable pub get_attempt_by_id : Ident → ExecutionStore → Option ExecutionAttempt
get_attempt_by_id id s = lookup id s.attempts

unfoldable pub save_job : RecoveryJob → ExecutionStore → ExecutionStore
save_job j s = put_job j.job_id j s

unfoldable pub get_job : Ident → ExecutionStore → Option RecoveryJob
get_job id s = lookup id s.jobs

-- The job whose fence guards an attempt: the named one, or the first of the same operation.
abbrev pub owning_job : Option Ident → ExecutionAttempt → ExecutionStore → Option RecoveryJob
owning_job (some id) a s = lookup id s.jobs
owning_job none a s = find (λ j. j.operation_id == a.operation_id) (values s.jobs)

-- `job && job.operationId === attempt.operationId && job.currentAttempt === fenceGeneration`.
abbrev pub holds_fence : Option RecoveryJob → ExecutionAttempt → ℕ → Bool
holds_fence none a fence = false
holds_fence (some j) a fence = j.operation_id == a.operation_id && j.current_attempt == fence

abbrev pub write_status :
    Ident → ExecutionAttempt → AttemptStatus → AttemptExtra → ExecutionStore → ExecutionStore
write_status id a status extra s = put_attempt id (assign extra (record a { status = status })) s

unfoldable pub update_attempt_status :
    Ident → AttemptStatus → ℕ → AttemptExtra → Option Ident → ExecutionStore → ExecutionStore × Bool
update_attempt_status id status fence extra job_id s = elim (lookup id s.attempts) [
  | none ↦ (s, false)
  | some a ↦
      if not (holds_fence (owning_job job_id a s) a fence)
      then (s, false)
      else if is_terminal a.status
      then (s, false)
      else (write_status id a status extra s, true)
]

-- Both rows exist, the job is running under this fence, and they are of one operation.
abbrev pub owned : Ident → Ident → ℕ → ExecutionStore → Option (RecoveryJob × ExecutionAttempt)
owned job_id attempt_id fence s = elim (lookup job_id s.jobs) [
  | none ↦ none
  | some j ↦ elim (lookup attempt_id s.attempts) [
    | none ↦ none
    | some a ↦
        if is_running j.status && j.current_attempt == fence && a.operation_id == j.operation_id
        then some (j, a)
        else none
  ]
]

abbrev pub released : JobStatus → Time → RecoveryJob → RecoveryJob
released status now j = record j {
  status = status;
  locked_by = none;
  locked_until = none;
  updated_at = now;
}

unfoldable pub resolve_retrieval_success_if_owner :
    Ident → Ident → ℕ → AttemptExtra → Time → ExecutionStore → ExecutionStore × Bool
resolve_retrieval_success_if_owner job_id attempt_id fence extra now s =
    elim (owned job_id attempt_id fence s) [
      | none ↦ (s, false)
      | some (j, a) ↦
          if is_unknown a.status
          then (
            put_job job_id (released JobStatus.completed now j)
                (write_status attempt_id a AttemptStatus.success extra s),
            true,
          )
          else (s, false)
    ]

abbrev pub is_open_delivery : AttemptStatus → Bool
is_open_delivery st = is_attempted st || is_unknown st

-- `if (original.status === "ATTEMPTED") { … }`.
abbrev pub mark_unknown : Ident → ExecutionAttempt → Reason → ExecutionStore → ExecutionStore
mark_unknown id a reason s =
    if is_attempted a.status
    then put_attempt id
        (record a { status = AttemptStatus.delivery_unknown; error_reason = some reason }) s
    else s

unfoldable pub create_recovery_attempt_if_owner :
    Ident → Ident → ℕ → ExecutionAttempt → Reason → Time → ExecutionStore → ExecutionStore × Bool
create_recovery_attempt_if_owner job_id original_id fence retry reason now s =
    elim (owned job_id original_id fence s) [
      | none ↦ (s, false)
      | some (j, a) ↦
          if is_open_delivery a.status
          then (
            put_job job_id (released JobStatus.pending now j) (
                index_attempt retry
                  (put_attempt retry.attempt_id retry (mark_unknown original_id a reason s))),
            true,
          )
          else (s, false)
    ]

unfoldable pub create_recovery_job_if_owner :
    Ident → Ident → ℕ → RecoveryJob → Reason → Time → ExecutionStore → ExecutionStore × Bool
create_recovery_job_if_owner job_id original_id fence retrieval reason now s =
    elim (owned job_id original_id fence s) [
      | none ↦ (s, false)
      | some (j, a) ↦
          if is_open_delivery a.status
          then (
            put_job job_id
                (record (released JobStatus.completed now j) { last_error = some reason })
                (put_job retrieval.job_id retrieval (mark_unknown original_id a reason s)),
            true,
          )
          else (s, false)
    ]

unfoldable pub resolve_attempt_unresolvable_if_owner :
    Ident → Ident → ℕ → Reason → Reason → Time → ExecutionStore → ExecutionStore × Bool
resolve_attempt_unresolvable_if_owner job_id attempt_id fence attempt_error job_error now s =
    elim (owned job_id attempt_id fence s) [
      | none ↦ (s, false)
      | some (j, a) ↦ if is_terminal a.status then (s, false) else (
        put_job job_id
            (record j {
              status = JobStatus.unresolvable;
              last_error = some job_error;
              updated_at = now;
            })
            (put_attempt attempt_id
              (record a { status = AttemptStatus.unresolvable; error_reason = some attempt_error })
              s),
        true,
      )
    ]

unfoldable pub mark_attempt_in_progress :
    Ident → ℕ → Option Ident → Time → ExecutionStore → ExecutionStore × Bool
mark_attempt_in_progress id fence job_id now s = elim (lookup id s.attempts) [
  | none ↦ (s, false)
  | some a ↦
      if is_pending a.status && holds_fence (owning_job job_id a s) a fence
      then (
        put_attempt id (record a { status = AttemptStatus.attempted; started_at = some now }) s,
        true,
      )
      else (s, false)
]

-- `lockedUntil && lockedUntil < Date.now()`.
abbrev pub is_expired : Option Time → Time → Bool
is_expired none now = false
is_expired (some t) now = ltb 0 t && ltb t now

abbrev pub is_claimable : RecoveryJob → Time → Bool
is_claimable j now =
    is_job_pending j.status || (is_running j.status && is_expired j.locked_until now)

unfoldable pub get_pending_jobs : Time → ExecutionStore → List RecoveryJob
get_pending_jobs now s = keep (λ j. is_claimable j now) (values s.jobs)

-- The job as a successful claim leaves it.
abbrev pub claimed : RecoveryJob → Ident → ℕ → Time → RecoveryJob
claimed j worker duration now = record j {
  status = JobStatus.running;
  locked_by = some worker;
  locked_until = some (now + duration);
  current_attempt = j.current_attempt + 1;
  updated_at = now;
}

unfoldable pub claim_job : Ident → Ident → ℕ → Time → ExecutionStore → ExecutionStore × Option ℕ
claim_job job_id worker duration now s = elim (lookup job_id s.jobs) [
  | none ↦ (s, none)
  | some j ↦
      if is_claimable j now
      then (put_job job_id (claimed j worker duration now) s, some (j.current_attempt + 1))
      else (s, none)
]

unfoldable pub update_job_status :
    Ident → JobStatus → ℕ → JobExtra → Time → ExecutionStore → ExecutionStore × Bool
update_job_status job_id status fence extra now s = elim (lookup job_id s.jobs) [
  | none ↦ (s, false)
  | some j ↦
      if j.current_attempt == fence && not (is_terminal_job j.status)
      then (
        put_job job_id
            (record (assign_job extra (record j { status = status })) { updated_at = now }) s,
        true,
      )
      else (s, false)
]
