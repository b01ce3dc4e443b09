-- ===== src/Reconciliation/Engine/Runs.antt =====
-- The engine writes to the store by guarded calls only
-- (zeus-secretariat/src/core/reconciliation-engine.ts).
use zeus_insurance_bot.Prelude.{
  Bool, false, Option, none, some, List, [], ◌∷◌, Ident, Option-cases, arith, inl, inr,
}
use zeus_insurance_bot.Intent.Types.{
  SettlementState, DurablePaymentIntent, ReconciliationObservation, SettledEvidenceBundle,
  NotSettledEvidenceBundle, NonceStatus,
}
use zeus_insurance_bot.Intent.Store.{EvidenceStore, compare_and_set_state}
use zeus_insurance_bot.Intent.Store.Records.{
  append_reconciliation_observation, save_settled_evidence_bundle,
}
use zeus_insurance_bot.Intent.Store.Runs.{
  IsRun, IsRun-refl, IsRun-trans, compare-IsRun, mark-IsRun, settled-IsRun, not_settled-IsRun,
  observe-IsRun,
}
use zeus_insurance_bot.Reconciliation.Checker.{Observation, aggregate_results}
use zeus_insurance_bot.Reconciliation.Transaction.{
  TransactionCheckResult, Log, transaction_projection,
}
use zeus_insurance_bot.Reconciliation.Rounds.{
  Config, Round, persist_all, observed, transaction_observation, observation, state_verdict,
  unused_observations,
}
use zeus_insurance_bot.Reconciliation.ByHash.{
  with_agreed, mark_settled, commit_settled, settle_by_logs, settle_revert, settle_transaction,
  reconcile_by_tx_hash,
}
use zeus_insurance_bot.Reconciliation.ByState.{
  touch, unused_evidence, commit_not_settled, recover_tx_hash, scan_unused,
  reconcile_by_authorization_state,
}
use zeus_insurance_bot.Reconciliation.Engine.{strategy}

-- While the providers are asked, the other workers make guarded calls only.
pub record IsGuarded (r : Round) : Type 0 where
  pub transaction : (h : Ident) (s : EvidenceStore) → IsRun s (r.transaction h s).0
  pub authorization_state :
      (a b : Ident) (n : Option Ident) (s : EvidenceStore)
      → IsRun s (r.authorization_state a b n s).0
  pub authorization_used :
      (a b : Ident) (n : Option Ident) (s : EvidenceStore)
      → IsRun s (r.authorization_used a b n s).0
  pub scan : (a b : Ident) (n : Option Ident) (s : EvidenceStore) → IsRun s (r.scan a b n s).0

persist_all-IsRun :
    (os : List ReconciliationObservation) (s : EvidenceStore) → IsRun s (persist_all os s)
unfolding persist_all
persist_all-IsRun [] s = IsRun-refl s
persist_all-IsRun (o ∷ os) s =
    IsRun-trans s (append_reconciliation_observation o s) (persist_all (o ∷ os) s)
      (observe-IsRun s o) (persist_all-IsRun os (append_reconciliation_observation o s))

module _ (config : Config) (attempt : Ident) (r : Round) (i : DurablePaymentIntent) where
  mark_settled-IsRun :
      (b : SettledEvidenceBundle) (s : EvidenceStore)
      → IsRun s (mark_settled config attempt r i b s)
  mark_settled-IsRun b s = elim (Option-cases (i.nonce)) [
    | inl missing ↦ rw missing (settled-IsRun s i.payment_intent_id b)
    | inr (n, there) ↦
        let t = save_settled_evidence_bundle i.payment_intent_id b s in
        rw there (
          IsRun-trans s t _ (settled-IsRun s i.payment_intent_id b)
            (mark-IsRun t NonceStatus.settled n r.now))
  ]

  commit_settled-IsRun :
      (b : SettledEvidenceBundle) (s : EvidenceStore)
      → IsRun s (commit_settled config attempt r i b s).0
  unfolding commit_settled
  commit_settled-IsRun b s =
      let made =
        compare_and_set_state i.payment_intent_id i.settlement_state SettlementState.settled r.now
          s in
      let compared =
        compare-IsRun s i.payment_intent_id i.settlement_state SettlementState.settled r.now in
      ground (arith, compared, IsRun-trans s made.0 _ compared (mark_settled-IsRun b made.0))

  settle_revert-IsRun :
      (os : List (Observation TransactionCheckResult)) (s : EvidenceStore)
      → IsRun s (settle_revert config attempt r i os s).0
  unfolding settle_revert
  settle_revert-IsRun os s = ground (
    arith,
    IsRun-refl s,
    compare-IsRun s i.payment_intent_id i.settlement_state SettlementState.not_settled r.now,
  )

  settle_by_logs-IsRun :
      (hash : Ident) (tx : TransactionCheckResult) (os : List (Observation TransactionCheckResult))
      (logs : List Log) (s : EvidenceStore)
      → IsRun s (settle_by_logs config attempt r i hash tx os logs s).0
  unfolding settle_by_logs
  settle_by_logs-IsRun hash tx os logs s = grind (arith, IsRun-refl, commit_settled-IsRun)

  settle_transaction-IsRun :
      (hash : Ident) (tx : TransactionCheckResult) (os : List (Observation TransactionCheckResult))
      (s : EvidenceStore)
      → IsRun s (settle_transaction config attempt r i hash tx os s).0
  unfolding settle_transaction
  settle_transaction-IsRun hash tx os s = elim (Option-cases (tx.logs)) [
    | inl missing ↦ ground (arith, IsRun-refl s, settle_revert-IsRun os s)
    | inr (logs, there) ↦
        ground
          (arith, IsRun-refl s, settle_revert-IsRun os s, settle_by_logs-IsRun hash tx os logs s)
  ]

  reconcile_by_tx_hash-IsRun :
      (hash : Ident) (s : EvidenceStore)
      → IsGuarded r
      → IsRun s (reconcile_by_tx_hash config attempt r i hash s).0
  unfolding reconcile_by_tx_hash
  reconcile_by_tx_hash-IsRun hash s calm =
      let (t, os) = r.transaction hash s in
      let u = persist_all (observed (transaction_observation attempt i false) os) t in
      let so_far =
        IsRun-trans s t u (calm.transaction hash s)
          (persist_all-IsRun (observed (transaction_observation attempt i false) os) t) in
      elim (Option-cases
        ((aggregate_results (transaction_projection config.transaction_json) os).unanimous_value)) [
          | inl unknown ↦ rw (unknown, reconcile_by_tx_hash) so_far
          | inr (tx, agreed) ↦
              rw (agreed, reconcile_by_tx_hash)
                (IsRun-trans s u _ so_far (settle_transaction-IsRun hash tx (with_agreed tx os) u))
        ]

  commit_not_settled-IsRun :
      (b : NotSettledEvidenceBundle) (s : EvidenceStore)
      → IsRun s (commit_not_settled config attempt r i b s).0
  unfolding commit_not_settled
  commit_not_settled-IsRun b s =
      let made =
        compare_and_set_state i.payment_intent_id i.settlement_state SettlementState.not_settled
          r.now s in
      let compared =
        compare-IsRun s i.payment_intent_id i.settlement_state SettlementState.not_settled r.now in
      ground (
        arith,
        compared,
        IsRun-trans s made.0 _ compared (not_settled-IsRun made.0 i.payment_intent_id b),
      )

  touch-IsRun : (s : EvidenceStore) → IsRun s (touch i r s)
  touch-IsRun s = compare-IsRun s i.payment_intent_id i.settlement_state i.settlement_state r.now

  recover_tx_hash-IsRun :
      (s : EvidenceStore) → IsGuarded r → IsRun s (recover_tx_hash config attempt r i s).0
  unfolding recover_tx_hash
  recover_tx_hash-IsRun s calm =
      let t = (r.authorization_used i.asset i.authorizer i.nonce s).0 in
      let asked = calm.authorization_used i.asset i.authorizer i.nonce s in
      ground (arith, asked, IsRun-trans s t (touch i r t) asked (touch-IsRun t))

  scan_unused-IsRun :
      (os : List (Observation Bool)) (s : EvidenceStore)
      → IsGuarded r
      → IsRun s (scan_unused config attempt r i os s).0
  unfolding scan_unused
  scan_unused-IsRun os s calm =
      let t = (r.scan i.asset i.authorizer i.nonce s).0 in
      let asked = calm.scan i.asset i.authorizer i.nonce s in
      let touched = IsRun-trans s t (touch i r t) asked (touch-IsRun t) in
      elim (Option-cases (unused_observations os)) [
        | inl missing ↦ ground (arith, asked, touched)
        | inr (list, complete) ↦
            let b = unused_evidence config attempt r i list in
            ground (
              arith,
              asked,
              touched,
              IsRun-trans s t (commit_not_settled config attempt r i b t).0 asked
                  (commit_not_settled-IsRun b t),
            )
      ]

  reconcile_by_authorization_state-IsRun :
      (s : EvidenceStore)
      → IsGuarded r
      → IsRun s (reconcile_by_authorization_state config attempt r i s).0
  unfolding reconcile_by_authorization_state
  reconcile_by_authorization_state-IsRun s calm =
      let (t, os) = r.authorization_state i.asset i.authorizer i.nonce s in
      let list = observed (observation attempt i state_verdict (λ b. some b) (λ b. 0)) os in
      let u = persist_all list t in
      let so_far =
        IsRun-trans s t u (calm.authorization_state i.asset i.authorizer i.nonce s)
          (persist_all-IsRun list t) in
      ground (
        arith,
        so_far,
        IsRun-trans s u (recover_tx_hash config attempt r i u).0 so_far
            (recover_tx_hash-IsRun u calm),
        IsRun-trans s u (scan_unused config attempt r i os u).0 so_far
            (scan_unused-IsRun os u calm),
      )

  pub strategy-IsRun :
      (hash : Option Ident) (s : EvidenceStore)
      → IsGuarded r
      → IsRun s (strategy config attempt r i hash s).0
  strategy-IsRun none s calm = reconcile_by_authorization_state-IsRun s calm
  strategy-IsRun (some hash) s calm = reconcile_by_tx_hash-IsRun hash s calm
