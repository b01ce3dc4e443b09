-- ===== src/Reconciliation/Engine/Verdicts.antt =====
-- What a verdict of the engine rests on (zeus-secretariat/src/core/reconciliation-engine.ts).
use zeus_insurance_bot.Prelude.{
  ◌≡◌, ◌≤◌, refl, inl, inr, ℕ, Bool, true, false, Option, none, some, List, Ident, get_or, lookup,
  lookup-insert_self, Option-cases, Bool-cases, arith,
}
use zeus_insurance_bot.Intent.Types.{
  JsNumber, nan, below_zero, whole, is_below, SettlementState, DurablePaymentIntent,
  SettledEvidenceBundle, NotSettledEvidenceBundle, ReconciliationOutcome, of_settled,
  of_not_settled,
}
use zeus_insurance_bot.Intent.Store.{IntentRecord, EvidenceStore, compare_and_set_state}
use zeus_insurance_bot.Intent.Store.Nonces.{mark_nonce}
use zeus_insurance_bot.Intent.Store.Records.{
  save_settled_evidence_bundle, save_not_settled_evidence_bundle,
}
use zeus_insurance_bot.Reconciliation.Checker.{
  Observation, MultiRpcResult, aggregate_results, bool_projection, can_declare_not_settled, allowed,
}
use zeus_insurance_bot.Reconciliation.Transaction.{
  transaction_projection, Expected, Log, TransactionCheckResult, parse_transfer_logs,
  find_authorization_used_log,
}
use zeus_insurance_bot.Reconciliation.Transaction.Proofs.{parse_transfer_logs-Matches}
use zeus_insurance_bot.Reconciliation.Rounds.{
  persist_all, observed, transaction_observation, observation, state_verdict, unused_observations,
  Config, Round, Next, finished, with_tx_hash, with_authorization_state, seconds,
}
use zeus_insurance_bot.Reconciliation.ByHash.{
  with_agreed, commit_settled, settled_evidence, settle_by_logs, settle_revert, settle_transaction,
  reconcile_by_tx_hash, mark_settled,
}
use zeus_insurance_bot.Reconciliation.ByState.{
  unused_evidence, commit_not_settled, recover_tx_hash, scan_unused,
  reconcile_by_authorization_state,
}
use zeus_insurance_bot.Reconciliation.Engine.{strategy}

-- The stored intent has the state.
abbrev pub HasState : Ident → SettlementState → EvidenceStore → Type 0
HasState id st s =
    (r : IntentRecord) × (lookup id s.intents ≡ some r) × (r.intent.settlement_state ≡ st)

compare_and_set_state-HasState :
    (id : Ident) (old new : SettlementState) (now : ℕ) (s t : EvidenceStore)
    → compare_and_set_state id old new now s ≡ (t, true)
    → HasState id new t
unfolding compare_and_set_state
compare_and_set_state-HasState id old new now s t h = elim (Option-cases (lookup id s.intents)) [
  | inl missing ↦ absurd (ground arith)
  | inr (r, found) ↦
      let u : IntentRecord = record r {
        intent = record (r.intent) { settlement_state = new; updated_at = now };
      } in
      (u, ground (arith, lookup-insert_self id u s.intents), refl)
]

abbrev pub IsNotBelow : JsNumber → ℕ → Type 0
IsNotBelow nan b = Unit
IsNotBelow (below_zero a) b = ⊥
IsNotBelow (whole a) b = b ≤ a

not_below : (a : JsNumber) (b : ℕ) → is_below a b ≡ false → IsNotBelow a b
not_below nan b h = tt
not_below (below_zero a) b h = cc
not_below (whole a) b h = ground arith

-- The store has the verdict SETTLED with the bundle, and the bundle shows the payment: its parties,
-- its token, at least its value, and confirmations that are not below what finality asks for: they
-- are NaN, or at least as many.
abbrev pub IsSettledBy :
    Config → DurablePaymentIntent → SettledEvidenceBundle → EvidenceStore → Type 0
IsSettledBy config i b s =
    (r : IntentRecord) × (lookup i.payment_intent_id s.intents ≡ some r)
    × (r.intent.settlement_state ≡ SettlementState.settled)
    × (r.settled_bundle ≡ some b)
    × (b.transfer_from ≡ i.authorizer)
    × (b.transfer_to ≡ i.pay_to)
    × (i.value ≤ b.transfer_value)
    × (b.token_contract ≡ i.asset)
    × IsNotBelow (get_or b.confirmations (whole 0)) config.required_confirmations

-- What an outcome of a step says of the store that the step leaves and of the clock.
abbrev pub Backed :
    Config → DurablePaymentIntent → Round → EvidenceStore → ReconciliationOutcome → Type 0
Backed config i r s (ReconciliationOutcome.settled e) =
    (b : SettledEvidenceBundle) × (e ≡ some (of_settled b)) × IsSettledBy config i b s
Backed config i r s (ReconciliationOutcome.not_settled e) =
    (b : NotSettledEvidenceBundle) × (e ≡ some (of_not_settled b))
    × HasState i.payment_intent_id SettlementState.not_settled s
    × (i.valid_before ≤ seconds r)
Backed config i r s (ReconciliationOutcome.reconciling n) = Unit
Backed config i r s ReconciliationOutcome.unresolved_manual = Unit
Backed config i r s ReconciliationOutcome.incident = ⊥

-- The same for a step, which may leave the outcome to the next one.
abbrev pub BackedNext : Config → DurablePaymentIntent → Round → EvidenceStore × Next → Type 0
BackedNext config i r (s, finished outcome) = Backed config i r s outcome
BackedNext config i r (s, with_tx_hash h) = Unit
BackedNext config i r (s, with_authorization_state) = Unit

module _ (config : Config) (attempt : Ident) (r : Round) (i : DurablePaymentIntent) where
  mark_settled-keeps :
      (b : SettledEvidenceBundle) (s : EvidenceStore) (x : IntentRecord)
      → lookup i.payment_intent_id s.intents ≡ some x
      → lookup i.payment_intent_id (mark_settled config attempt r i b s).intents
        ≡ some (record x { settled_bundle = some b })
  unfolding save_settled_evidence_bundle mark_nonce
  mark_settled-keeps b s x found = ground (
    arith,
    lookup-insert_self i.payment_intent_id (record x { settled_bundle = some b }) s.intents,
  )

  commit_settled-Backed :
      (b : SettledEvidenceBundle) (s : EvidenceStore)
      → b.transfer_from ≡ i.authorizer
      → b.transfer_to ≡ i.pay_to
      → i.value ≤ b.transfer_value
      → b.token_contract ≡ i.asset
      → IsNotBelow (get_or b.confirmations (whole 0)) config.required_confirmations
      → BackedNext config i r (commit_settled config attempt r i b s)
  unfolding commit_settled
  commit_settled-Backed b s from to value token final =
      let made =
        compare_and_set_state i.payment_intent_id i.settlement_state SettlementState.settled r.now
          s in
      elim (Bool-cases made.1) [
        | inr lost ↦ rw (lost, commit_settled) tt
        | inl won ↦
            let (x, found, state) =
              compare_and_set_state-HasState i.payment_intent_id i.settlement_state
                SettlementState.settled r.now s made.0 (ground arith) in
            rw (won, commit_settled)
              (
                b,
                refl,
                (
                  record x { settled_bundle = some b },
                  mark_settled-keeps b made.0 x found,
                  state,
                  refl,
                  from,
                  to,
                  value,
                  token,
                  final,
                ),
              )
      ]

  settle_revert-Backed :
      (os : List (Observation TransactionCheckResult)) (s : EvidenceStore)
      → BackedNext config i r (settle_revert config attempt r i os s)
  unfolding settle_revert
  settle_revert-Backed os s =
      let made =
        compare_and_set_state i.payment_intent_id i.settlement_state SettlementState.not_settled
          r.now s in
      ground (
        arith,
        compare_and_set_state-HasState i.payment_intent_id i.settlement_state
            SettlementState.not_settled r.now s made.0,
      )

  settle_by_logs-Backed :
      (hash : Ident) (tx : TransactionCheckResult) (os : List (Observation TransactionCheckResult))
      (logs : List Log) (s : EvidenceStore)
      → IsNotBelow (get_or tx.confirmations (whole 0)) config.required_confirmations
      → BackedNext config i r (settle_by_logs config attempt r i hash tx os logs s)
  unfolding settle_by_logs
  settle_by_logs-Backed hash tx os logs s final =
      let expected : Expected = record {
        sender = i.authorizer;
        recipient = i.pay_to;
        min_value = i.value;
        token_contract = i.asset;
      } in
      elim (Option-cases (parse_transfer_logs config.transfer_topic expected logs)) [
        | inl nothing ↦ rw (nothing, settle_by_logs) tt
        | inr (t, parsed) ↦
            let (from, to, value, token) =
              parse_transfer_logs-Matches config.transfer_topic expected logs t parsed in
            elim (Option-cases (
              find_authorization_used_log config.authorization_used_topic i.asset i.authorizer
                (get_or i.nonce 0) logs)) [
                  | inl unused ↦ rw (parsed, unused, settle_by_logs) tt
                  | inr (n, used) ↦
                      rw (parsed, used, settle_by_logs)
                        (commit_settled-Backed (settled_evidence config attempt r i hash tx t n os)
                          s from to value token final)
                ]
      ]

  settle_transaction-Backed :
      (hash : Ident) (tx : TransactionCheckResult) (os : List (Observation TransactionCheckResult))
      (s : EvidenceStore)
      → BackedNext config i r (settle_transaction config attempt r i hash tx os s)
  unfolding settle_transaction
  settle_transaction-Backed hash tx os s = elim (Option-cases (tx.logs)) [
    | inl none_there ↦ ground (arith, settle_revert-Backed os s)
    | inr (logs, there) ↦
        ground (arith, settle_revert-Backed os s, settle_by_logs-Backed hash tx os logs s)
  ]

  reconcile_by_tx_hash-Backed :
      (hash : Ident) (s : EvidenceStore)
      → BackedNext config i r (reconcile_by_tx_hash config attempt r i hash s)
  unfolding reconcile_by_tx_hash
  reconcile_by_tx_hash-Backed hash s =
      let (t, os) = r.transaction hash s in
      let u = persist_all (observed (transaction_observation attempt i false) os) t in
      elim (Option-cases
        ((aggregate_results (transaction_projection config.transaction_json) os).unanimous_value)) [
          | inl unknown ↦ rw (unknown, reconcile_by_tx_hash) tt
          | inr (tx, agreed) ↦
              rw (agreed, reconcile_by_tx_hash)
                (settle_transaction-Backed hash tx (with_agreed tx os) u)
        ]

  commit_not_settled-Backed :
      (b : NotSettledEvidenceBundle) (s : EvidenceStore)
      → i.valid_before ≤ seconds r
      → BackedNext config i r (commit_not_settled config attempt r i b s)
  unfolding commit_not_settled save_not_settled_evidence_bundle
  commit_not_settled-Backed b s expired =
      let made =
        compare_and_set_state i.payment_intent_id i.settlement_state SettlementState.not_settled
          r.now s in
      elim (Bool-cases made.1) [
        | inr lost ↦ rw (lost, commit_not_settled) tt
        | inl won ↦
            let (x, found, state) =
              compare_and_set_state-HasState i.payment_intent_id i.settlement_state
                SettlementState.not_settled r.now s made.0 (ground arith) in
            let y = record x { not_settled_bundle = some b } in
            rw (won, commit_not_settled)
              (
                b,
                refl,
                (y, ground (arith, lookup-insert_self i.payment_intent_id y made.0.intents), state),
                expired,
              )
      ]

  scan_unused-Backed :
      (os : List (Observation Bool)) (s : EvidenceStore)
      → i.valid_before ≤ seconds r
      → BackedNext config i r (scan_unused config attempt r i os s)
  unfolding scan_unused
  scan_unused-Backed os s expired =
      let (t, scans) = r.scan i.asset i.authorizer i.nonce s in
      elim (Option-cases (unused_observations os)) [
        | inl missing ↦ ground arith
        | inr (list, complete) ↦
            ground
              (arith, commit_not_settled-Backed (unused_evidence config attempt r i list) t expired)
      ]

  recover_tx_hash-Backed :
      (s : EvidenceStore) → BackedNext config i r (recover_tx_hash config attempt r i s)
  unfolding recover_tx_hash
  recover_tx_hash-Backed s = ground arith

  allowed-expired :
      (auth : MultiRpcResult Bool)
      → can_declare_not_settled config.providers auth i.valid_before (seconds r) ≡ allowed
      → i.valid_before ≤ seconds r
  unfolding can_declare_not_settled
  allowed-expired auth h = ground arith

  reconcile_by_authorization_state-Backed :
      (s : EvidenceStore)
      → BackedNext config i r (reconcile_by_authorization_state config attempt r i s)
  unfolding reconcile_by_authorization_state
  reconcile_by_authorization_state-Backed s =
      let (t, os) = r.authorization_state i.asset i.authorizer i.nonce s in
      let u =
        persist_all (observed (observation attempt i state_verdict (λ b. some b) (λ b. 0)) os) t in
      let auth = aggregate_results bool_projection os in
      ground (arith, recover_tx_hash-Backed u, scan_unused-Backed os u, allowed-expired auth)

  pub strategy-Backed :
      (hash : Option Ident) (s : EvidenceStore)
      → BackedNext config i r (strategy config attempt r i hash s)
  strategy-Backed none s = reconcile_by_authorization_state-Backed s
  strategy-Backed (some hash) s = reconcile_by_tx_hash-Backed hash s
