-- ===== src/Execution/Rows/Tests.antt =====
-- The two execution stores at sample rows.
use zeus_insurance_bot.Prelude.{
  ◌≡◌, refl, ◌⊎◌, true, false, none, some, List, [], ◌∷◌, lookup, insert,
}
use zeus_insurance_bot.Execution.Types.{
  execution_idempotent, AttemptStatus, JobStatus, no_job_extra,
}
use zeus_insurance_bot.Execution.Store.{
  ExecutionStore, claim_job, mark_attempt_in_progress, update_job_status, save_attempt_with_job,
}
use zeus_insurance_bot.Execution.Store.Calls.{Call, saves_both, marks, claims, updates_job}
use zeus_insurance_bot.Execution.Rows.{
  ExecutionRows, claim_job_row, mark_attempt_row, update_job_row, save_both_rows, insert_job,
  insert_attempt,
}
use zeus_insurance_bot.Execution.Rows.Agreement.{Agrees, Answers}
use zeus_insurance_bot.Execution.Rows.Returns.{IsUnusedRun, rows_calls_refine}
use zeus_insurance_bot.Execution.Rows.Refinement.{
  Reply, saved, written, fenced, store_call, rows_call, store_calls, rows_calls,
}
use zeus_insurance_bot.Execution.Rows.Settlement.{
  Tables, IsHandedOff, IsTaken, is_unsettled_row, settle_and_create_execution_obligation,
  settle_and_create_execution_obligation_atomic,
}
use zeus_insurance_bot.Intent.Types.{SettlementState}
use zeus_insurance_bot.Intent.Store.{IntentRecord}
use zeus_insurance_bot.Samples.{
  sample_job, sample_attempt, sample_intent, settled_bundle, no_payments,
}

abbrev no_store : ExecutionStore
no_store = record { attempts = []; jobs = []; attempts_by_op = [] }

abbrev no_rows : ExecutionRows
no_rows = record { attempt_rows = []; job_rows = [] }

no_rows-Agrees : Agrees no_store no_rows
unfolding lookup
no_rows-Agrees = record { same_attempts = λ id. tt; same_jobs = λ id. tt }

-- A worker claims the job and marks the attempt; another is refused, with a fence of its own.
abbrev calls : List Call
calls =
    saves_both (sample_attempt AttemptStatus.pending) (sample_job execution_idempotent)
    ∷ claims 1 5 60 100
    ∷ claims 1 6 60 110
    ∷ marks 2 1 (some 1) 120
    ∷ marks 2 2 (some 1) 130
    ∷ updates_job 1 JobStatus.completed 1 no_job_extra 140
    ∷ claims 1 6 60 500
    ∷ []

abbrev replies : List Reply
replies =
    saved
    ∷ fenced (some 1)
    ∷ fenced none
    ∷ written true
    ∷ written false
    ∷ written true
    ∷ fenced none
    ∷ []

store_replies : (store_calls calls no_store).1 ≡ replies
unfolding store_calls store_call claim_job mark_attempt_in_progress update_job_status lookup
    save_attempt_with_job insert
store_replies = refl

row_replies : elim (rows_calls calls no_rows) [ none ↦ [] | some out ↦ out.1 ] ≡ replies
unfolding rows_calls rows_call claim_job_row mark_attempt_row update_job_row lookup save_both_rows
    insert_job insert_attempt insert
row_replies = refl

calls-IsUnusedRun : IsUnusedRun calls no_rows
unfolding rows_call claim_job_row mark_attempt_row update_job_row lookup save_both_rows insert_job
    insert_attempt insert
calls-IsUnusedRun = ((refl, refl), (tt, (tt, (tt, (tt, (tt, (tt, tt)))))))

rows_calls_refine_example :
    (q : ExecutionRows × List Reply) × (rows_calls calls no_rows ≡ some q)
    × Answers (store_calls calls no_store) q
rows_calls_refine_example =
    rows_calls_refine calls no_store no_rows (refl, (tt, (tt, (refl, (refl, (refl, (tt, tt)))))))
      calls-IsUnusedRun no_rows-Agrees

abbrev intent_row : IntentRecord
intent_row = record {
  intent = record (sample_intent none) { settlement_state = SettlementState.submitted };
  settled_bundle = none;
  not_settled_bundle = none;
}

abbrev submitted_once : ExecutionRows → Tables
submitted_once rows = record {
  evidence = record no_payments { intents = (40, intent_row) ∷ [] };
  execution = rows;
}

abbrev job_rows_of_seven : ExecutionRows
job_rows_of_seven = record {
  attempt_rows = [];
  job_rows =
      (
        9,
        record {
          job = record (sample_job execution_idempotent) { job_id = 9 };
          fence_generation = 0;
        },
      )
      ∷ [];
}

-- The operation has an EXECUTION job: nothing is written, and the call throws.
handoff_refused :
    settle_and_create_execution_obligation false 40 settled_bundle
      (sample_job execution_idempotent)
      (sample_attempt AttemptStatus.pending)
      200
      (submitted_once job_rows_of_seven)
    ≡ none
unfolding settle_and_create_execution_obligation save_both_rows insert_job lookup
handoff_refused = refl

settle_and_create_execution_obligation_atomic_example :
    let t = submitted_once no_rows in
    let j = sample_job execution_idempotent in
    let a = sample_attempt AttemptStatus.pending in
    let out = settle_and_create_execution_obligation false 40 settled_bundle j a 200 t in
    ((is_unsettled_row (lookup 40 t.evidence.intents) ≡ false) × (out ≡ some (t, false)))
    ⊎ ((is_unsettled_row (lookup 40 t.evidence.intents) ≡ true)
        × (((u : Tables) × (out ≡ some (u, true)) × IsHandedOff 40 j a u)
            ⊎ (IsTaken j a t × (out ≡ none))))
settle_and_create_execution_obligation_atomic_example =
    settle_and_create_execution_obligation_atomic false 40 settled_bundle
      (sample_job execution_idempotent) (sample_attempt AttemptStatus.pending) 200
      (submitted_once no_rows)
