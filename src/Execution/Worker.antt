-- ===== src/Execution/Worker.antt =====
-- `ExecutionWorker` (zeus-secretariat/src/core/execution-worker.ts), with a feedback service over
-- the operations of the payment store.
pub mod Batches
use zeus_insurance_bot.Prelude.{
  ℕ, suc, Bool, true, false, Option, none, some, List, [], ◌∷◌, take, Ident, insert, if◌then◌else◌,
}
use zeus_insurance_bot.Operation.Defs.{Operation}
use zeus_insurance_bot.Intent.Store.{EvidenceStore}
use zeus_insurance_bot.Intent.Store.Records.{get_operation, save_operation}
use zeus_insurance_bot.Execution.Types.{FinalStatus, RecoveryJob}
use zeus_insurance_bot.Execution.Store.{get_pending_jobs}
use zeus_insurance_bot.Execution.World.{World, Config, Env, Outcome, returns, throws}
use zeus_insurance_bot.Execution.Job.{process_job}
use zeus_insurance_bot.Execution.Scanner.{ensure_execution_obligations}
use zeus_insurance_bot.Feedback.Execution.{apply_result}

abbrev save_stored : Option Operation → EvidenceStore → EvidenceStore
save_stored none s = s
save_stored (some op) s = save_operation op s

-- The stored object as the service leaves it without a save.
abbrev leave_stored : Option Operation → EvidenceStore → EvidenceStore
leave_stored none s = s
leave_stored (some op) s = record s { operations = insert op.operation_id op s.operations }

-- `this.feedback.applyResult(job.operationId, …)`.
unfoldable pub feed_back : Env → Ident → FinalStatus → World → World
feed_back env op final w =
    let r = apply_result true (get_operation op w.payments) final env.now in
    record w {
      payments =
          if r.applied then save_stored r.stored w.payments else leave_stored r.stored w.payments;
    }

abbrev pub is_running_status : FinalStatus → Bool
is_running_status FinalStatus.running = true
is_running_status _ = false

module _ (config : Config) where
  -- `processOne`.
  unfoldable pub process_one : Env → RecoveryJob → World → World × Outcome (Unit {0})
  unfolding feed_back
  process_one env j w =
      let (w', r) = process_job config env j.job_id w in
      elim r [
        | throws e ↦ (w', throws e)
        | returns x ↦
            if is_running_status x.final_status
            then (w', returns tt)
            else (feed_back env j.operation_id x.final_status w', returns tt)
      ]

  -- The loop of `runOnce`, with the number of jobs processed.
  unfoldable pub process_all : (ℕ → Env) → ℕ → List RecoveryJob → World → ℕ → World × Outcome ℕ
  process_all envs i [] w processed = (w, returns processed)
  process_all envs i (j ∷ rest) w processed =
      let (w', r) = process_one (envs i) j w in
      elim r [
        | throws e ↦ (w', throws e)
        | returns x ↦ process_all envs (suc i) rest w' (suc processed)
      ]

  -- `runOnce`, called directly (`processingStartedByStart` is false). The scan does not throw on
  -- this store, so the failure streak stays at zero.
  unfoldable pub run_once : (ℕ → Env) → (ℕ → Env) → ℕ → World → World × Outcome ℕ
  unfolding process_all
  run_once scan_envs envs batch_size w =
      let w' = ensure_execution_obligations config scan_envs w in
      process_all envs 0 (take batch_size (get_pending_jobs (envs 0).now w'.execution)) w' 0
