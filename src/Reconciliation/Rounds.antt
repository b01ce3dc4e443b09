-- ===== src/Reconciliation/Rounds.antt =====
-- What `ReconciliationEngine` (zeus-secretariat/src/core/reconciliation-engine.ts) works on: its
-- configuration, what a round of questions to the providers meets, and the records of the answers.
use zeus_insurance_bot.Prelude.{
  ltb, ◌-◌, ℕ, zero, suc, ◌+◌, ◌/◌, Bool, true, false, Option, none, some, List, [], ◌∷◌, Ident,
  Opaque, Time, get_or, if◌then◌else◌,
}
use zeus_insurance_bot.Intent.Types.{
  JsNumber, nan, below_zero, whole, DurablePaymentIntent, ReconciliationObservation,
  ObservationResult, settled_found, still_unknown, rpc_error, RpcObservationForNotSettled,
  ReconciliationOutcome,
}
use zeus_insurance_bot.Intent.Store.{EvidenceStore}
use zeus_insurance_bot.Intent.Store.Records.{append_reconciliation_observation}
use zeus_insurance_bot.Reconciliation.Checker.{
  Observation, Projection, RpcProviderConfig, AuthorizationUsedEvent, ScanObservation,
}
use zeus_insurance_bot.Reconciliation.Transaction.{TransactionCheckResult}

-- The configuration of the engine and of its checker, and the texts of hash functions and JSON.
pub record Config : Type 0 where
  pub probes : List ℕ
  pub periodic_interval_ms : ℕ
  pub required_confirmations : ℕ
  pub providers : List RpcProviderConfig
  pub transfer_topic : ℕ
  pub authorization_used_topic : ℕ
  pub transaction_json : TransactionCheckResult → Opaque
  pub event_json : AuthorizationUsedEvent → Opaque

-- What one round meets: the clock in milliseconds, and the providers. Their answers come with the
-- store as the call finds it afterwards, so that other workers may act while they are asked.
pub record Round : Type 0 where
  pub now : Time
  pub transaction :
      Ident → EvidenceStore → EvidenceStore × List (Observation TransactionCheckResult)
  pub authorization_state :
      Ident → Ident → Option Ident → EvidenceStore → EvidenceStore × List (Observation Bool)
  pub authorization_used :
      Ident
      → Ident
      → Option Ident
      → EvidenceStore
      → EvidenceStore × List (Observation AuthorizationUsedEvent)
  pub scan : Ident → Ident → Option Ident → EvidenceStore → EvidenceStore × List ScanObservation

-- An outcome, or the transaction hash or the authorization state to look at next.
pub data Next : Type 0 where
  finished : ReconciliationOutcome → Next
  with_tx_hash : Ident → Next
  with_authorization_state : Next

abbrev pub seconds : Round → Time
seconds r = r.now / 1000

-- `getNextProbeDelay`.
abbrev pub delay_at : List ℕ → ℕ → ℕ → ℕ
delay_at [] period n = period
delay_at (p ∷ ps) period zero = p
delay_at (p ∷ ps) period (suc n) = delay_at ps period n

abbrev pub event_projection : (AuthorizationUsedEvent → Opaque) → Projection AuthorizationUsedEvent
event_projection json = record {
  canonical = json;
  confirmations = λ e. none;
  with_confirmations = λ n e. e;
}

-- The record of one provider's answer.
abbrev pub observation :
    {A : Type 0}
    → Ident
    → DurablePaymentIntent
    → (A → ObservationResult)
    → (A → Option Bool)
    → (A → ℕ)
    → Observation A
    → ReconciliationObservation
observation attempt i verdict state head o = record {
  attempt_id = attempt;
  payment_intent_id = i.payment_intent_id;
  timestamp = o.observed_at;
  rpc_provider_id = o.provider_id;
  head_block = elim (o.result) [ none ↦ 0 | some a ↦ head a ];
  authorization_state = elim (o.result) [ none ↦ none | some a ↦ state a ];
  valid_before = i.valid_before;
  result = elim (o.result) [ none ↦ rpc_error | some a ↦ verdict a ];
  error = o.error;
}

-- `persistObservation` on each of a list.
unfoldable pub persist_all : List ReconciliationObservation → EvidenceStore → EvidenceStore
persist_all [] s = s
persist_all (o ∷ os) s = persist_all os (append_reconciliation_observation o s)

abbrev pub observed :
    {A : Type 0}
    → (Observation A → ReconciliationObservation)
    → List (Observation A)
    → List ReconciliationObservation
observed f [] = []
observed f (o ∷ os) = f o ∷ observed f os

abbrev pub confirmed_verdict : TransactionCheckResult → ObservationResult
confirmed_verdict t = if t.confirmed then settled_found else still_unknown

abbrev pub state_verdict : Bool → ObservationResult
state_verdict true = settled_found
state_verdict false = still_unknown

abbrev pub transaction_observation :
    Ident
    → DurablePaymentIntent
    → Bool
    → Observation TransactionCheckResult
    → ReconciliationObservation
transaction_observation attempt i with_head =
    observation attempt i confirmed_verdict (λ t. none)
      (λ t. if with_head then get_or t.block_number 0 else 0)

-- A block number and confirmations after it.
abbrev pub head_of : ℕ → JsNumber → Option ℕ
head_of block nan = none
head_of block (below_zero n) = if ltb n block then some (block - (n + 1)) else none
head_of block (whole n) = some (block + n)

-- What a reverted transaction shows, provider by provider.
abbrev pub revert_observations :
    List (Observation TransactionCheckResult) → List RpcObservationForNotSettled
revert_observations [] = []
revert_observations (o ∷ os) = elim (o.result) [
  | none ↦ revert_observations os
  | some t ↦
      if t.found
      then record {
        provider_id = o.provider_id;
        underlying_provider = o.underlying_provider;
        observed_at = o.observed_at;
        block_number = some (get_or t.block_number 0);
        chain_head = head_of (get_or t.block_number 0) (get_or t.confirmations (whole 0));
        staleness_blocks = some 0;
      }
        ∷ revert_observations os
      else revert_observations os
]

-- The evidence of an unused authorization; `none` if a provider that read `false` gave no block
-- data.
abbrev pub unused_observations : List (Observation Bool) → Option (List RpcObservationForNotSettled)
unused_observations [] = some []
unused_observations (o ∷ os) =
    let rest = unused_observations os in
    elim (o.result) [
      | none ↦ rest
      | some true ↦ rest
      | some false ↦ elim (o.block_data) [
        | none ↦ none
        | some d ↦ elim rest [
          | none ↦ none
          | some list ↦ some (
              record {
                provider_id = o.provider_id;
                underlying_provider = o.underlying_provider;
                observed_at = o.observed_at;
                block_number = d.block_number;
                chain_head = d.chain_head;
                staleness_blocks = d.staleness_blocks;
              }
              ∷ list)
        ]
      ]
    ]
