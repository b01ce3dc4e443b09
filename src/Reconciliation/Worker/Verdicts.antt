-- ===== src/Reconciliation/Worker/Verdicts.antt =====
-- What becomes of a reconciliation job (zeus-secretariat/src/core/reconciliation-worker.ts,
-- lib/db/src/secretariat/postgres-store.ts).
use zeus_insurance_bot.Prelude.{◌≡◌, refl, ℕ, ◌+◌, true, false, some, Ident, Time, lookup, insert}
use zeus_insurance_bot.Intent.Store.{get_payment_intent_by_id}
use zeus_insurance_bot.Reconciliation.Jobs.{
  gives_query_result, ReconJob, Tables, is_claimable, claimed, update_row, claim_reconciliation_job,
  get_due_reconciliation_jobs,
}
use zeus_insurance_bot.Reconciliation.Worker.{Env, awaits, process_job, process_all, process_batch}

-- The tables once the job is claimed.
abbrev pub claim_of : Env → Ident → ReconJob → Tables → Tables
claim_of env id j w = record w {
  jobs = insert id (claimed env.worker_id (env.now + env.lease_duration_ms) j) w.jobs;
}

-- With a driver whose `execute` answers with an object that holds the rows, as the one of
-- node-postgres does, a batch does nothing, whatever jobs are due; and a job that is processed
-- directly is left RUNNING under the worker's lease, its probe counted, and the engine not called.
pub process_batch_starves :
    (limit : ℕ) (now : Time) (envs : ℕ → Env) (w : Tables) (env : Env) (id intent_id : Ident)
    (j : ReconJob)
    → env.driver ≡ gives_query_result
    → lookup id w.jobs ≡ some j
    → is_claimable env.now j ≡ true
    → awaits env id (get_payment_intent_by_id intent_id w.store) ≡ false
    → (process_batch gives_query_result limit now envs w ≡ w)
      × (process_job env id intent_id w ≡ claim_of env id j w)
unfolding process_batch process_all get_due_reconciliation_jobs process_job claim_reconciliation_job
    update_row
process_batch_starves limit now envs w env id intent_id j object found due signed =
    (refl, rw (object, found, due, signed, process_job, claim_reconciliation_job, update_row) refl)
