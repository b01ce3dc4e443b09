-- ===== src/Reconciliation/ByHash.antt =====
-- `reconcileByTxHash` of `ReconciliationEngine`
-- (zeus-secretariat/src/core/reconciliation-engine.ts) over the in-memory evidence store, and the
-- verdicts that it commits.
use zeus_insurance_bot.Prelude.{
  [], ◌∷◌, ℕ, true, false, none, some, List, Ident, get_or, ltb, if◌then◌else◌,
}
use zeus_insurance_bot.Intent.Types.{
  whole, is_below, is_at_least, SettlementState, DurablePaymentIntent, SettledEvidenceBundle,
  NotSettledEvidenceBundle, reverted_tx, NonceStatus, ReconciliationOutcome, reconciling,
  unresolved_manual, of_settled, of_not_settled,
}
use zeus_insurance_bot.Intent.Store.{EvidenceStore, compare_and_set_state}
use zeus_insurance_bot.Intent.Store.Nonces.{mark_nonce}
use zeus_insurance_bot.Intent.Store.Records.{save_settled_evidence_bundle}
use zeus_insurance_bot.Reconciliation.Checker.{Observation, aggregate_results}
use zeus_insurance_bot.Reconciliation.Transaction.{
  TransactionCheckResult, TransactionStatus, succeeded, reverted, Log, TransferEvent,
  transaction_projection, parse_transfer_logs, find_authorization_used_log,
}
use zeus_insurance_bot.Reconciliation.Rounds.{
  Config, Round, Next, finished, with_authorization_state, seconds, delay_at, persist_all, observed,
  transaction_observation, revert_observations,
}

-- The agreed value is the first result itself, whose confirmations were overwritten.
abbrev pub with_agreed :
    TransactionCheckResult
    → List (Observation TransactionCheckResult)
    → List (Observation TransactionCheckResult)
with_agreed tx [] = []
with_agreed tx (o ∷ os) = elim (o.result) [
  | none ↦ o ∷ with_agreed tx os
  | some t ↦ record o { result = some tx } ∷ os
]

module _ (config : Config) (attempt : Ident) (r : Round) (i : DurablePaymentIntent) where
  -- `RECONCILING` with the delay of the schedule.
  abbrev pub probe_again : Next
  probe_again = finished (
      reconciling
        (some (delay_at config.probes config.periodic_interval_ms (get_or i.probe_count 0))))

  -- The evidence of a settlement.
  abbrev pub settled_evidence :
      Ident
      → TransactionCheckResult
      → TransferEvent
      → ℕ
      → List (Observation TransactionCheckResult)
      → SettledEvidenceBundle
  settled_evidence hash tx t index os = record {
    transaction_hash = hash;
    block_number = tx.block_number;
    log_index = index;
    gas_used = tx.gas_used;
    transfer_from = t.sender;
    transfer_to = t.recipient;
    transfer_value = t.value;
    token_contract = t.token_contract;
    confirmations = tx.confirmations;
    finality_reached =
        is_at_least (get_or tx.confirmations (whole 0)) config.required_confirmations;
    rpc_observations = observed (transaction_observation attempt i true) os;
  }

  -- The writes after a verdict SETTLED.
  abbrev pub mark_settled : SettledEvidenceBundle → EvidenceStore → EvidenceStore
  mark_settled e s =
      let t = save_settled_evidence_bundle i.payment_intent_id e s in
      elim (i.nonce) [ none ↦ t | some n ↦ mark_nonce NonceStatus.settled n r.now t ]

  unfoldable pub commit_settled : SettledEvidenceBundle → EvidenceStore → EvidenceStore × Next
  commit_settled e s =
      let (t, won) =
        compare_and_set_state i.payment_intent_id i.settlement_state SettlementState.settled r.now
          s in
      if won
      then (mark_settled e t, finished (ReconciliationOutcome.settled (some (of_settled e))))
      else (t, finished (reconciling none))

  -- A transaction that succeeded, with enough confirmations.
  unfoldable pub settle_by_logs :
      Ident
      → TransactionCheckResult
      → List (Observation TransactionCheckResult)
      → List Log
      → EvidenceStore
      → EvidenceStore × Next
  unfolding commit_settled
  settle_by_logs hash tx os logs s =
      elim (parse_transfer_logs config.transfer_topic
        (record {
          sender = i.authorizer;
          recipient = i.pay_to;
          min_value = i.value;
          token_contract = i.asset;
        })
        logs) [
          | none ↦ (s, finished unresolved_manual)
          | some t ↦
              elim (find_authorization_used_log config.authorization_used_topic i.asset i.authorizer
                (get_or i.nonce 0) logs) [
                  | none ↦ (s, probe_again)
                  | some index ↦ commit_settled (settled_evidence hash tx t index os) s
                ]
        ]

  abbrev pub reverted_evidence :
      List (Observation TransactionCheckResult) → NotSettledEvidenceBundle
  reverted_evidence os = record {
    authorizer = i.authorizer;
    nonce = i.nonce;
    valid_before = i.valid_before;
    expiry_confirmed_at = seconds r;
    rpc_observations = revert_observations os;
    scan_result = reverted_tx;
  }

  -- A transaction that was reverted; its evidence is not saved.
  unfoldable pub settle_revert :
      List (Observation TransactionCheckResult) → EvidenceStore → EvidenceStore × Next
  settle_revert os s =
      let (t, won) =
        compare_and_set_state i.payment_intent_id i.settlement_state SettlementState.not_settled
          r.now s in
      if ltb (seconds r) i.valid_before
      then (s, probe_again)
      else if won
      then (
        t,
        finished (ReconciliationOutcome.not_settled (some (of_not_settled (reverted_evidence os)))),
      )
      else (t, finished (reconciling none))

  -- What the providers agree on about a transaction.
  unfoldable pub settle_transaction :
      Ident
      → TransactionCheckResult
      → List (Observation TransactionCheckResult)
      → EvidenceStore
      → EvidenceStore × Next
  unfolding settle_by_logs settle_revert
  settle_transaction hash tx os s =
      if tx.found
      then elim (tx.status) [
        | reverted ↦ settle_revert os s
        | TransactionStatus.pending ↦ (s, probe_again)
        | succeeded ↦
            if is_below (get_or tx.confirmations (whole 0)) config.required_confirmations
            then (s, probe_again)
            else elim (tx.logs) [
              | none ↦ (s, probe_again)
              | some logs ↦ settle_by_logs hash tx os logs s
            ]
      ]
      else if ltb (seconds r) i.valid_before
      then (s, probe_again)
      else (s, with_authorization_state)

  -- `reconcileByTxHash`.
  unfoldable pub reconcile_by_tx_hash : Ident → EvidenceStore → EvidenceStore × Next
  unfolding settle_transaction
  reconcile_by_tx_hash hash s =
      let (t, os) = r.transaction hash s in
      let u = persist_all (observed (transaction_observation attempt i false) os) t in
      elim ((aggregate_results (transaction_projection config.transaction_json)
        os).unanimous_value) [
          | none ↦ (u, probe_again)
          | some tx ↦ settle_transaction hash tx (with_agreed tx os) u
        ]
