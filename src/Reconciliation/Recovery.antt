-- ===== src/Reconciliation/Recovery.antt =====
-- `recoverAfterCrash` of `ReconciliationEngine` (zeus-secretariat/src/core/reconciliation-engine.ts)
-- with `getNonTerminalIntents` (lib/db/src/secretariat/postgres-store.ts).
pub mod Interference
use zeus_insurance_bot.Prelude.{
  ℕ, suc, Bool, true, false, not, ◌&&◌, Option, none, some, List, [], ◌∷◌, Ident, Time, Map, values,
  insert, is_some, if◌then◌else◌,
}
use zeus_insurance_bot.Intent.Types.{SettlementState, DurablePaymentIntent, ReconciliationOutcome}
use zeus_insurance_bot.Intent.Store.{EvidenceStore, IntentRecord, with_payer, compare_and_set_state}
use zeus_insurance_bot.Reconciliation.Rounds.{Config, Round}
use zeus_insurance_bot.Reconciliation.Engine.{reconcile}

abbrev pub is_submitting : SettlementState → Bool
is_submitting SettlementState.submitting = true
is_submitting _ = false

-- The states of the query.
abbrev pub is_in_flight : SettlementState → Bool
is_in_flight SettlementState.submitting = true
is_in_flight SettlementState.submitted = true
is_in_flight SettlementState.settlement_pending = true
is_in_flight SettlementState.reconciling = true
is_in_flight _ = false

abbrev pub in_flight : List IntentRecord → List DurablePaymentIntent
in_flight [] = []
in_flight (r ∷ rs) =
    let rest = in_flight rs in
    if is_in_flight r.intent.settlement_state then with_payer r ∷ rest else rest

unfoldable pub get_non_terminal_intents : EvidenceStore → List DurablePaymentIntent
get_non_terminal_intents s = in_flight (values s.intents)

-- What the recovery of one intent meets.
pub record Attempt : Type 0 where
  pub attempt_id : Ident
  pub started_at : Time
  pub rounds : ℕ → Round

module _ (config : Config) (fuel : ℕ) (attempts : ℕ → Attempt) where
  -- The map of the outcomes; the outcome is `none` when the fuel is used up.
  abbrev pub Results : Type 0
  Results = Map (Option ReconciliationOutcome)

  -- One round of the loop.
  unfoldable pub recover_intent :
      ℕ → DurablePaymentIntent → EvidenceStore × Results → EvidenceStore × Results
  recover_intent n i (s, results) =
      let stuck = is_submitting i.settlement_state && not (is_some i.tx_hash) in
      let (t, moved) =
        compare_and_set_state i.payment_intent_id SettlementState.submitting
          SettlementState.reconciling (attempts n).started_at s in
      let start = if stuck then t else s in
      let (u, outcome) =
        reconcile config (attempts n).attempt_id (attempts n).rounds fuel i.payment_intent_id
          start in
      if stuck && not moved then (s, results) else (u, insert i.payment_intent_id outcome results)

  unfoldable pub recover_intents :
      ℕ → List DurablePaymentIntent → EvidenceStore × Results → EvidenceStore × Results
  unfolding recover_intent
  recover_intents n [] s = s
  recover_intents n (i ∷ rest) s = recover_intents (suc n) rest (recover_intent n i s)

  unfoldable pub recover_after_crash : EvidenceStore → EvidenceStore × Results
  unfolding recover_intents get_non_terminal_intents
  recover_after_crash s = recover_intents 0 (get_non_terminal_intents s) (s, [])
