-- ===== src/Reconciliation/EngineTests.antt =====
-- The theorems on the engine at sample rounds.
use zeus_insurance_bot.Prelude.{
  ◌≡◌, refl, Bool, true, false, Option, none, some, [], ◌∷◌, Ident, lookup, is_some, arith,
}
use zeus_insurance_bot.Intent.Types.{whole, SettlementState, DurablePaymentIntent}
use zeus_insurance_bot.Intent.Store.{EvidenceStore, get_payment_intent_by_id}
use zeus_insurance_bot.Reconciliation.Checker.{Observation, aggregate, aggregate_results}
use zeus_insurance_bot.Reconciliation.Transaction.{TransactionCheckResult, succeeded}
use zeus_insurance_bot.Reconciliation.Rounds.{Config, Round}
use zeus_insurance_bot.Reconciliation.Engine.{follow, reconcile}
use zeus_insurance_bot.Reconciliation.Engine.Outcomes.{Answers, reconcile-Answers}
use zeus_insurance_bot.Reconciliation.Engine.Termination.{reconcile-ends}
use zeus_insurance_bot.Reconciliation.Engine.Divergence.{follow-diverges}
use zeus_insurance_bot.Samples.{no_payments, sample_intent}

abbrev pending_intent : Option Ident → DurablePaymentIntent
pending_intent hash = record (sample_intent none) {
  settlement_state = SettlementState.submitted;
  tx_hash = hash;
}

abbrev stored : EvidenceStore
stored = record no_payments {
  intents =
      (
        40,
        record {
          intent = pending_intent (some 47);
          settled_bundle = none;
          not_settled_bundle = none;
        },
      )
      ∷ [];
}

abbrev config : Config
config = record {
  probes = 2000 ∷ 10000 ∷ [];
  periodic_interval_ms = 60000;
  required_confirmations = 12;
  providers = [];
  transfer_topic = 71;
  authorization_used_topic = 72;
  transaction_json = λ t. 0;
  event_json = λ e. 0;
}

abbrev answer : {A : Type 0} → Ident → A → Observation A
answer provider a = record {
  provider_id = provider;
  underlying_provider = provider;
  result = some a;
  error = none;
  observed_at = 950000;
  block_data = none;
}

abbrev transaction : Bool → TransactionCheckResult
transaction found = record {
  found = found;
  confirmed = found;
  block_number = some 90;
  status = succeeded;
  logs = some (
      record {
        address = 43;
        topics = 71 ∷ 41 ∷ 42 ∷ [];
        is_lower_case = true;
        log_data = 1000;
        log_index = 0;
      }
      ∷ record {
        address = 43;
        topics = 72 ∷ 41 ∷ 44 ∷ [];
        is_lower_case = true;
        log_data = 0;
        log_index = 1;
      }
      ∷ []);
  confirmations = some (whole 12);
  chain_id = none;
  gas_used = none;
}

-- Two providers that agree; the flag is whether they see the transaction.
abbrev round : Bool → Round
round found = record {
  now = 950000;
  transaction = λ h s. (s, answer 1 (transaction found) ∷ answer 2 (transaction found) ∷ []);
  authorization_state = λ a b n s. (s, answer 1 true ∷ answer 2 true ∷ []);
  authorization_used = λ a b n s. (
    s,
    answer 1 (record { transaction_hash = 47; block_number = 90; log_index = 1 })
        ∷ answer 2 (record { transaction_hash = 47; block_number = 90; log_index = 1 })
        ∷ [],
  );
  scan = λ a b n s. (s, []);
}

reconcile-Answers_example :
    Answers config
      (record (pending_intent (some 47)) { payer = some 41 })
      (λ n. round true)
      (reconcile config 60 (λ n. round true) 2 40 stored)
unfolding get_payment_intent_by_id lookup
reconcile-Answers_example =
    reconcile-Answers config 60 (λ n. round true) 2 40 stored
      (record (pending_intent (some 47)) { payer = some 41 }) refl refl

reconcile-ends_example : is_some (reconcile config 60 (λ n. round true) 2 40 stored).1 ≡ true
unfolding aggregate_results aggregate
reconcile-ends_example = reconcile-ends config 60 (λ n. round true) 0 40 stored (λ n h t. refl)

follow-diverges_example :
    (follow config 60 (λ n. round false) (pending_intent none) 9 0 none stored).1 ≡ none
unfolding aggregate_results aggregate
follow-diverges_example =
    follow-diverges config 60 (λ n. round false) (pending_intent none) 9 0 none stored
      (λ m. (omega arith, (λ h s. refl), (λ s. refl), λ s. refl))
