-- ===== src/Reconciliation/ByState.antt =====
-- `reconcileByAuthorizationState` of `ReconciliationEngine`
-- (zeus-secretariat/src/core/reconciliation-engine.ts) over the in-memory evidence store.
use zeus_insurance_bot.Prelude.{Bool, true, false, none, some, List, Ident, if◌then◌else◌}
use zeus_insurance_bot.Intent.Types.{
  SettlementState, DurablePaymentIntent, NotSettledEvidenceBundle, RpcObservationForNotSettled,
  scan_complete_empty, ReconciliationOutcome, reconciling, of_not_settled,
}
use zeus_insurance_bot.Intent.Store.{EvidenceStore, compare_and_set_state}
use zeus_insurance_bot.Intent.Store.Records.{save_not_settled_evidence_bundle}
use zeus_insurance_bot.Reconciliation.Checker.{
  Observation, bool_projection, aggregate_results, incomplete, scan_disagreement,
  scan_complete_empty as nothing_found, scan_outcome, event_found, allowed, refused,
  can_declare_not_settled,
}
use zeus_insurance_bot.Reconciliation.Rounds.{
  Config, Round, Next, finished, with_tx_hash, seconds, event_projection, observation, persist_all,
  observed, state_verdict, unused_observations,
}
use zeus_insurance_bot.Reconciliation.ByHash.{probe_again}

-- The fourth argument of the compare-and-set that recovers a hash is ignored by this store.
abbrev pub touch : DurablePaymentIntent → Round → EvidenceStore → EvidenceStore
touch i r s =
    (compare_and_set_state i.payment_intent_id i.settlement_state i.settlement_state r.now s).0

module _ (config : Config) (attempt : Ident) (r : Round) (i : DurablePaymentIntent) where
  abbrev pub unused_evidence : List RpcObservationForNotSettled → NotSettledEvidenceBundle
  unused_evidence list = record {
    authorizer = i.authorizer;
    nonce = i.nonce;
    valid_before = i.valid_before;
    expiry_confirmed_at = seconds r;
    rpc_observations = list;
    scan_result = scan_complete_empty;
  }

  unfoldable pub commit_not_settled :
      NotSettledEvidenceBundle → EvidenceStore → EvidenceStore × Next
  commit_not_settled e s =
      let (t, won) =
        compare_and_set_state i.payment_intent_id i.settlement_state SettlementState.not_settled
          r.now s in
      if won
      then (
        save_not_settled_evidence_bundle i.payment_intent_id e t,
        finished (ReconciliationOutcome.not_settled (some (of_not_settled e))),
      )
      else (t, finished (reconciling none))

  -- `authorizationState == true`.
  unfoldable pub recover_tx_hash : EvidenceStore → EvidenceStore × Next
  recover_tx_hash s =
      let (t, os) = r.authorization_used i.asset i.authorizer i.nonce s in
      elim ((aggregate_results (event_projection config.event_json) os).unanimous_value) [
        | none ↦ (t, probe_again config attempt r i)
        | some e ↦ (touch i r t, with_tx_hash e.transaction_hash)
      ]

  -- `authorizationState == false`, once NOT_SETTLED may be declared.
  unfoldable pub scan_unused : List (Observation Bool) → EvidenceStore → EvidenceStore × Next
  unfolding commit_not_settled
  scan_unused os s =
      let (t, scans) = r.scan i.asset i.authorizer i.nonce s in
      elim (scan_outcome scans) [
        | event_found (some e) ↦ (touch i r t, with_tx_hash e.transaction_hash)
        | event_found none ↦ (t, probe_again config attempt r i)
        | incomplete ↦ (t, probe_again config attempt r i)
        | scan_disagreement ↦ (t, probe_again config attempt r i)
        | nothing_found ↦ elim (unused_observations os) [
          | none ↦ (t, probe_again config attempt r i)
          | some list ↦ commit_not_settled (unused_evidence list) t
        ]
      ]

  -- `reconcileByAuthorizationState`.
  unfoldable pub reconcile_by_authorization_state : EvidenceStore → EvidenceStore × Next
  unfolding recover_tx_hash scan_unused
  reconcile_by_authorization_state s =
      let (t, os) = r.authorization_state i.asset i.authorizer i.nonce s in
      let u =
        persist_all (observed (observation attempt i state_verdict (λ b. some b) (λ b. 0)) os) t in
      let auth = aggregate_results bool_projection os in
      elim (auth.unanimous_value) [
        | none ↦ (u, probe_again config attempt r i)
        | some true ↦ recover_tx_hash u
        | some false ↦
            elim (can_declare_not_settled config.providers auth i.valid_before (seconds r)) [
              | refused reason ↦ (u, probe_again config attempt r i)
              | allowed ↦ scan_unused os u
            ]
      ]
