-- ===== src/Reconciliation/Engine.antt =====
-- `ReconciliationEngine` (zeus-secretariat/src/core/reconciliation-engine.ts) over the in-memory
-- evidence store. Its two strategies call each other: here each is a step that ends with an outcome
-- or with the strategy to go on with, and the calls are a loop on fuel.
pub mod Verdicts
pub mod Outcomes
pub mod Termination
pub mod Divergence
pub mod Runs
pub mod Interference
use zeus_insurance_bot.Prelude.{
  ℕ, zero, suc, Bool, true, false, Option, none, some, List, [], ◌∷◌, Ident, Time, get_or, is_some,
  leb, ltb, if◌then◌else◌,
}
use zeus_insurance_bot.Intent.Types.{
  SettlementState, is_terminal_settlement_state, DurablePaymentIntent, SettledEvidenceBundle,
  NotSettledEvidenceBundle, RpcObservationForNotSettled, scan_complete_empty, reverted_tx,
  NonceStatus, ReconciliationOutcome, reconciling, unresolved_manual, ReconciliationEvidence,
  of_settled, of_not_settled, is_pending_signature,
}
use zeus_insurance_bot.Intent.Store.{EvidenceStore, get_payment_intent_by_id, compare_and_set_state}
use zeus_insurance_bot.Intent.Store.Nonces.{mark_nonce}
use zeus_insurance_bot.Intent.Store.Records.{
  save_settled_evidence_bundle, save_not_settled_evidence_bundle,
}
use zeus_insurance_bot.Reconciliation.Checker.{
  Observation, Agreement, MultiRpcResult, bool_projection, aggregate_results,
  AuthorizationUsedEvent, incomplete, scan_disagreement, scan_complete_empty as nothing_found,
  scan_outcome, event_found, allowed, refused, can_declare_not_settled,
}
use zeus_insurance_bot.Reconciliation.Transaction.{
  TransactionCheckResult, TransactionStatus, succeeded, reverted, Log, TransferEvent,
  transaction_projection, parse_transfer_logs, find_authorization_used_log,
}
use zeus_insurance_bot.Reconciliation.Rounds.{
  Config, Round, Next, finished, with_tx_hash, with_authorization_state, seconds, delay_at,
  event_projection, observation, persist_all, observed, transaction_observation, state_verdict,
  revert_observations, unused_observations,
}
use zeus_insurance_bot.Reconciliation.ByHash.{probe_again, reconcile_by_tx_hash}
use zeus_insurance_bot.Reconciliation.ByState.{reconcile_by_authorization_state}

module _ (config : Config) (attempt : Ident) (r : Round) (i : DurablePaymentIntent) where
  -- One call of a strategy; `some` is the transaction hash.
  abbrev pub strategy : Option Ident → EvidenceStore → EvidenceStore × Next
  strategy none s = reconcile_by_authorization_state config attempt r i s
  strategy (some hash) s = reconcile_by_tx_hash config attempt r i hash s

module _ (config : Config) (attempt : Ident) (rounds : ℕ → Round) (i : DurablePaymentIntent) where
  -- The mutual calls of the strategies; `none` when the fuel is used up. The first argument but
  -- one is the number of the round.
  unfoldable pub follow :
      ℕ → ℕ → Option Ident → EvidenceStore → EvidenceStore × Option ReconciliationOutcome
  follow zero n hash s = (s, none)
  follow (suc fuel) n hash s =
      let (t, next) = strategy config attempt (rounds n) i hash s in
      elim next [
        | finished outcome ↦ (t, some outcome)
        | with_tx_hash h ↦ follow fuel (suc n) (some h) t
        | with_authorization_state ↦ follow fuel (suc n) none t
      ]

abbrev pub terminal_evidence : DurablePaymentIntent → Option ReconciliationEvidence
terminal_evidence i = elim (i.settled_evidence_bundle) [
  | some b ↦ some (of_settled b)
  | none ↦ elim (i.not_settled_evidence_bundle) [ some b ↦ some (of_not_settled b) | none ↦ none ]
]

-- `{ status: intent.settlementState, reason: "Already terminal", … }`.
abbrev pub terminal_outcome : DurablePaymentIntent → ReconciliationOutcome
terminal_outcome i = elim (i.settlement_state) [
  | SettlementState.settled ↦ ReconciliationOutcome.settled (terminal_evidence i)
  | SettlementState.not_settled ↦ ReconciliationOutcome.not_settled (terminal_evidence i)
  | _ ↦ unresolved_manual
]

-- `reconcile`; `none` when the fuel is used up.
unfoldable pub reconcile :
    Config
    → Ident
    → (ℕ → Round)
    → ℕ
    → Ident
    → EvidenceStore
    → EvidenceStore × Option ReconciliationOutcome
unfolding follow
reconcile config attempt rounds fuel id s = elim (get_payment_intent_by_id id s) [
  | none ↦ (s, some unresolved_manual)
  | some i ↦
      if is_pending_signature i.settlement_state
      then (s, some (reconciling none))
      else if is_terminal_settlement_state i.settlement_state
      then (s, some (terminal_outcome i))
      else follow config attempt rounds i fuel 0 i.tx_hash s
]
