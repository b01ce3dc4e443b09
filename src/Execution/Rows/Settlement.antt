-- ===== src/Execution/Rows/Settlement.antt =====
-- `settleAndCreateExecutionObligation` (lib/db/src/secretariat/postgres-execution-store.ts): the
-- settlement of an intent with its execution, in one transaction.
use zeus_insurance_bot.Prelude.{
  ◌≡◌, refl, ◌⊎◌, inl, inr, Bool, Bool-cases, true, false, Option, Option-cases, none, some, Ident,
  Time, lookup, lookup-insert_self, if◌then◌else◌,
}
use zeus_insurance_bot.Intent.Types.{SettlementState, DurablePaymentIntent, SettledEvidenceBundle}
use zeus_insurance_bot.Intent.Store.{EvidenceStore, IntentRecord, set_intent}
use zeus_insurance_bot.Execution.Types.{ExecutionAttempt, RecoveryJob}
use zeus_insurance_bot.Execution.Rows.{
  JobRow, ExecutionRows, save_both_rows, insert_attempt, insert_job, write_attempt, write_job,
}
use zeus_insurance_bot.Execution.Rows.Unique.{is_taken, is_taken_job}

-- The tables that the transaction writes.
pub record Tables : Type 0 where
  pub evidence : EvidenceStore
  pub execution : ExecutionRows

-- `settlement_state IN (...)`.
abbrev pub is_unsettled : SettlementState → Bool
is_unsettled SettlementState.settlement_pending = true
is_unsettled SettlementState.reconciling = true
is_unsettled SettlementState.submitted = true
is_unsettled _ = false

abbrev pub settled_columns :
    SettledEvidenceBundle → Time → DurablePaymentIntent → DurablePaymentIntent
settled_columns bundle now i = record i {
  settlement_state = SettlementState.settled;
  settled_evidence_bundle = some bundle;
  updated_at = now;
}

-- The columns of the job and of the attempt that are inserted; the others are NULL.
abbrev pub job_columns : RecoveryJob → RecoveryJob
job_columns j = record j { locked_by = none; locked_until = none; last_error = none }

abbrev pub attempt_columns : ExecutionAttempt → ExecutionAttempt
attempt_columns a = record a {
  response_status_code = none;
  response_body = none;
  response_headers = none;
  error_reason = none;
  started_at = none;
  completed_at = none;
}

-- `settleAndCreateExecutionObligation`; nothing is an exception, which leaves the tables as they
-- were. The first argument is the driver's: whether the error that it throws for a violation of a
-- unique index has the code of PostgreSQL itself, and not only in its `cause`. Only then is it caught.
unfoldable pub settle_and_create_execution_obligation :
    Bool
    → Ident
    → SettledEvidenceBundle
    → RecoveryJob
    → ExecutionAttempt
    → Time
    → Tables
    → Option (Tables × Bool)
unfolding save_both_rows
settle_and_create_execution_obligation bare id bundle j a now t =
    elim (lookup id t.evidence.intents) [
      | none ↦ some (t, false)
      | some r ↦
          if is_unsettled r.intent.settlement_state
          then elim (save_both_rows (attempt_columns a) (job_columns j) t.execution) [
            | none ↦ if bare then some (t, true) else none
            | some q ↦ some (
              record {
                evidence = set_intent id (settled_columns bundle now r.intent) r t.evidence;
                execution = q;
              },
              true,
            )
          ]
          else some (t, false)
    ]

abbrev pub is_unsettled_row : Option IntentRecord → Bool
is_unsettled_row none = false
is_unsettled_row (some r) = is_unsettled r.intent.settlement_state

-- The intent is settled, and its job and its attempt are there.
abbrev pub IsHandedOff : Ident → RecoveryJob → ExecutionAttempt → Tables → Type 0
IsHandedOff id j a t =
    (r : IntentRecord) × (lookup id t.evidence.intents ≡ some r)
    × (r.intent.settlement_state ≡ SettlementState.settled)
    × (lookup j.job_id t.execution.job_rows
        ≡ some (record { job = job_columns j; fence_generation = 0 }))
    × (lookup a.attempt_id t.execution.attempt_rows ≡ some (attempt_columns a))

-- What the insertions leave, or that a key of one of them was taken.
inserted :
    (a : ExecutionAttempt) (j : RecoveryJob) (p : ExecutionRows)
    → ((save_both_rows a j p ≡ none)
        × ((is_taken a p.attempt_rows ≡ true) ⊎ (is_taken_job j p.job_rows ≡ true)))
      ⊎ ((q : ExecutionRows) × (save_both_rows a j p ≡ some q)
          × (lookup j.job_id q.job_rows ≡ some (record { job = j; fence_generation = 0 }))
          × (lookup a.attempt_id q.attempt_rows ≡ some a))
unfolding save_both_rows insert_job insert_attempt
inserted a j p = elim (Bool-cases (is_taken_job j p.job_rows)) [
  | inl used ↦ inl (rw (save_both_rows, used) refl, inr used)
  | inr free ↦
      let r : JobRow = record { job = j; fence_generation = 0 } in
      elim (Bool-cases (is_taken a p.attempt_rows)) [
        | inl used ↦ inl (rw (save_both_rows, free, used) refl, inl used)
        | inr unused ↦ inr (
          write_attempt a.attempt_id a (write_job j.job_id r p),
          rw (save_both_rows, free, unused) refl,
          lookup-insert_self j.job_id r p.job_rows,
          lookup-insert_self a.attempt_id a p.attempt_rows,
        )
      ]
]

-- A key of the attempt or of the job is in use.
abbrev pub IsTaken : RecoveryJob → ExecutionAttempt → Tables → Type 0
IsTaken j a t =
    (is_taken a t.execution.attempt_rows ≡ true) ⊎ (is_taken_job j t.execution.job_rows ≡ true)

-- The handoff of an intent. If it is not there, or its state is none of SETTLEMENT_PENDING,
-- RECONCILING and SUBMITTED, the answer is false and nothing is written. Otherwise either the answer
-- is true, the intent is SETTLED and the job and the attempt are stored, or a unique index refused
-- one of these and nothing is written, the intent still not settled: then the call throws if the
-- driver wraps the error, and answers true if the code is on the error itself.
pub settle_and_create_execution_obligation_atomic :
    (bare : Bool) (id : Ident) (bundle : SettledEvidenceBundle) (j : RecoveryJob)
    (a : ExecutionAttempt) (now : Time) (t : Tables)
    → let out = settle_and_create_execution_obligation bare id bundle j a now t in
      ((is_unsettled_row (lookup id t.evidence.intents) ≡ false) × (out ≡ some (t, false)))
      ⊎ ((is_unsettled_row (lookup id t.evidence.intents) ≡ true)
          × (((u : Tables) × (out ≡ some (u, true)) × IsHandedOff id j a u)
              ⊎ (IsTaken j a t × (out ≡ (if bare then some (t, true) else none)))))
unfolding settle_and_create_execution_obligation
settle_and_create_execution_obligation_atomic bare id bundle j a now t =
    elim (Option-cases (lookup id t.evidence.intents)) [
      | inl missing ↦ rw (missing, settle_and_create_execution_obligation) (inl (refl, refl))
      | inr (r, found) ↦ elim (Bool-cases (is_unsettled r.intent.settlement_state)) [
        | inr over ↦ rw (found, over, settle_and_create_execution_obligation) (inl (refl, refl))
        | inl goes ↦ elim (inserted (attempt_columns a) (job_columns j) t.execution) [
          | inl (thrown, used) ↦
              rw (found, goes, thrown, settle_and_create_execution_obligation)
                (inr (refl, inr (used, refl)))
          | inr (q, done, has_job, has_attempt) ↦
              let settled : IntentRecord = record r {
                intent = settled_columns bundle now r.intent;
              } in
              rw (found, goes, done, settle_and_create_execution_obligation)
                (inr (
                  refl,
                  inl (
                    record {
                      evidence = set_intent id (settled_columns bundle now r.intent) r t.evidence;
                      execution = q;
                    },
                    refl,
                    (
                      settled,
                      lookup-insert_self id settled t.evidence.intents,
                      refl,
                      has_job,
                      has_attempt,
                    ),
                  ),
                ))
        ]
      ]
    ]
