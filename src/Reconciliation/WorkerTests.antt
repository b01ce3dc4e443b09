-- ===== src/Reconciliation/WorkerTests.antt =====
-- The theorems on the reconciliation worker at a sample job, with the modelled engine and
-- providers that do not answer.
use zeus_insurance_bot.Prelude.{◌≡◌, refl, false, Option, none, some, [], ◌∷◌, Ident, lookup}
use zeus_insurance_bot.Intent.Types.{SettlementState, ReconciliationOutcome}
use zeus_insurance_bot.Intent.Store.{EvidenceStore, get_payment_intent_by_id}
use zeus_insurance_bot.Reconciliation.Rounds.{Config, Round}
use zeus_insurance_bot.Reconciliation.Engine.{reconcile}
use zeus_insurance_bot.Reconciliation.Jobs.{Driver, gives_query_result, JobState, ReconJob, Tables}
use zeus_insurance_bot.Reconciliation.Worker.{
  Env, Result, returned, threw, process_job, process_batch,
}
use zeus_insurance_bot.Reconciliation.Worker.Verdicts.{claim_of, process_batch_starves}
use zeus_insurance_bot.Samples.{no_payments, sample_intent}

abbrev stored : EvidenceStore
stored = record no_payments {
  intents =
      (
        40,
        record {
          intent = record (sample_intent none) { settlement_state = SettlementState.submitted };
          settled_bundle = none;
          not_settled_bundle = none;
        },
      )
      ∷ [];
}

abbrev config : Config
config = record {
  probes = 2000 ∷ 10000 ∷ [];
  periodic_interval_ms = 60000;
  required_confirmations = 12;
  providers = [];
  transfer_topic = 71;
  authorization_used_topic = 72;
  transaction_json = λ t. 0;
  event_json = λ e. 0;
}

abbrev silent : Round
silent = record {
  now = 950000;
  transaction = λ hash s. (s, []);
  authorization_state = λ a b n s. (s, []);
  authorization_used = λ a b n s. (s, []);
  scan = λ a b n s. (s, []);
}

abbrev answer_of : Option ReconciliationOutcome → Result
answer_of none = threw
answer_of (some outcome) = returned outcome

abbrev engine : Ident → Tables → Tables × Result
engine id w =
    let (s, outcome) = reconcile config 60 (λ n. silent) 2 id w.store in
    (record w { store = s }, answer_of outcome)

abbrev env : Driver → Env
env driver = record {
  driver = driver;
  worker_id = 30;
  lease_duration_ms = 30000;
  error_backoff_ms = 10000;
  now = 950000;
  later = 951000;
  engine = engine;
  sync_fails = false;
  feedback_fails = false;
  error_text = 0;
}

abbrev job : ReconJob
job = record {
  payment_intent_id = 40;
  state = JobState.pending;
  probe_count = 3;
  next_probe_at = 949000;
  locked_by = none;
  locked_until = none;
  last_error = none;
}

abbrev tables : Tables
tables = record { store = stored; jobs = (80, job) ∷ [] }

process_batch_starves_example :
    (process_batch gives_query_result 100 950000 (λ n. env gives_query_result) tables ≡ tables)
    × (process_job (env gives_query_result) 80 40 tables
        ≡ claim_of (env gives_query_result) 80 job tables)
unfolding get_payment_intent_by_id lookup
process_batch_starves_example =
    process_batch_starves 100 950000 (λ n. env gives_query_result) tables (env gives_query_result)
      80 40 job refl refl refl refl
