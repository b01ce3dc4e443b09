-- ===== src/Reconciliation/Worker.antt =====
-- `ReconciliationWorker` (zeus-secretariat/src/core/reconciliation-worker.ts) without its poll
-- loop. The engine is a parameter: it answers with an outcome or throws.
pub mod Verdicts
use zeus_insurance_bot.Prelude.{
  ℕ, suc, ◌+◌, Bool, true, false, Option, none, some, List, [], ◌∷◌, Ident, Opaque, Time, lookup,
  get_or, if◌then◌else◌,
}
use zeus_insurance_bot.Intent.Types.{
  SettlementState, DurablePaymentIntent, is_pending_signature, is_terminal_settlement_state,
  ReconciliationOutcome, reconciling, unresolved_manual, incident,
}
use zeus_insurance_bot.Intent.Store.{EvidenceStore, get_payment_intent_by_id}
use zeus_insurance_bot.Intent.Store.Records.{save_operation}
use zeus_insurance_bot.Feedback.Settlement.{apply_outcome}
use zeus_insurance_bot.Reconciliation.Jobs.{
  Driver, ReconJob, Tables, claim_reconciliation_job, complete_reconciliation_job,
  reschedule_reconciliation_job, fail_reconciliation_job, complete_pending_reconciliation_job,
  get_due_reconciliation_jobs, get_probe_count, update_payment_intent_probe_count,
}

pub data Result : Type 0 where
  returned : ReconciliationOutcome → Result
  threw : Result

-- The configuration of a worker, and what the handling of one job meets. Other workers may act
-- while the engine works; `later` is the time after that.
pub record Env : Type 0 where
  pub driver : Driver
  pub worker_id : Ident
  pub lease_duration_ms : ℕ
  pub error_backoff_ms : ℕ
  pub now : Time
  pub later : Time
  pub engine : Ident → Tables → Tables × Result
  pub sync_fails : Bool
  pub feedback_fails : Bool
  pub error_text : Opaque

module _ (env : Env) (job_id : Ident) where
  abbrev pub retry_at : ℕ → Tables → Tables
  retry_at delay w = reschedule_reconciliation_job job_id env.worker_id (env.later + delay) w

  -- The feedback to the operation; its failure is caught.
  unfoldable pub give_feedback : ReconciliationOutcome → DurablePaymentIntent → Tables → Tables
  give_feedback outcome i w =
      let applied =
        apply_outcome false (lookup i.operation_id w.store.operations) outcome
          (get_payment_intent_by_id i.payment_intent_id w.store) env.later in
      if env.feedback_fails
      then w
      else if applied.applied
      then elim (applied.stored) [
        | none ↦ w
        | some op ↦ record w { store = save_operation op w.store }
      ]
      else w

  -- The second half of `mapOutcome`.
  abbrev pub close_job : ReconciliationOutcome → Tables → Tables
  close_job (ReconciliationOutcome.settled e) w = complete_reconciliation_job job_id env.worker_id w
  close_job (ReconciliationOutcome.not_settled e) w =
      complete_reconciliation_job job_id env.worker_id w
  close_job (reconciling delay) w = retry_at (get_or delay env.error_backoff_ms) w
  close_job unresolved_manual w = fail_reconciliation_job job_id env.worker_id env.error_text w
  close_job incident w = fail_reconciliation_job job_id env.worker_id env.error_text w

  unfoldable pub map_outcome : ReconciliationOutcome → DurablePaymentIntent → Tables → Tables
  unfolding give_feedback
  map_outcome outcome i w = close_job outcome (give_feedback outcome i w)

  -- Step 3.5; its failure is caught.
  unfoldable pub sync_probe_count : Ident → Tables → Tables
  sync_probe_count intent_id w =
      if env.sync_fails
      then w
      else update_payment_intent_probe_count intent_id (get_or (get_probe_count job_id w) 1) env.now
          w

  -- Step 4 and step 5.
  unfoldable pub reconcile_job : Ident → DurablePaymentIntent → Tables → Tables
  unfolding map_outcome sync_probe_count
  reconcile_job intent_id i w =
      let (t, result) = env.engine intent_id (sync_probe_count intent_id w) in
      elim result [
        | returned outcome ↦ map_outcome outcome i t
        | threw ↦ retry_at env.error_backoff_ms t
      ]

  -- What a worker does with a job that it has claimed.
  unfoldable pub handle_claimed : Ident → Tables → Tables
  unfolding reconcile_job
  handle_claimed intent_id w = elim (get_payment_intent_by_id intent_id w.store) [
    | none ↦ fail_reconciliation_job job_id env.worker_id env.error_text w
    | some i ↦
        if is_terminal_settlement_state i.settlement_state
        then complete_reconciliation_job job_id env.worker_id w
        else reconcile_job intent_id i w
  ]

  abbrev pub awaits : Option DurablePaymentIntent → Bool
  awaits none = false
  awaits (some i) = is_pending_signature i.settlement_state

  -- `processJob`.
  unfoldable pub process_job : Ident → Tables → Tables
  unfolding handle_claimed
  process_job intent_id w =
      let (t, won) =
        claim_reconciliation_job env.driver job_id env.worker_id env.lease_duration_ms env.now w in
      if awaits (get_payment_intent_by_id intent_id w.store)
      then complete_pending_reconciliation_job job_id env.now w
      else if won
      then handle_claimed intent_id t
      else t

-- The jobs of one batch.
unfoldable pub process_all : (ℕ → Env) → ℕ → List (Ident × ReconJob) → Tables → Tables
unfolding process_job
process_all envs n [] w = w
process_all envs n ((id, j) ∷ rest) w =
    process_all envs (suc n) rest (process_job (envs n) id j.payment_intent_id w)

-- `processBatch` of a running worker, with what each job meets.
unfoldable pub process_batch : Driver → ℕ → Time → (ℕ → Env) → Tables → Tables
unfolding process_all get_due_reconciliation_jobs
process_batch driver limit now envs w =
    process_all envs 0 (get_due_reconciliation_jobs driver limit now w) w
