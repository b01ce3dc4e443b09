-- ===== src/Reconciliation/Recovery/Interference.antt =====
-- What the recovery after a crash does to the intents
-- (zeus-secretariat/src/core/reconciliation-engine.ts).
use zeus_insurance_bot.Prelude.{ℕ, suc, List, [], ◌∷◌, Ident, lookup, arith}
use zeus_insurance_bot.Intent.Types.{SettlementState, DurablePaymentIntent}
use zeus_insurance_bot.Intent.Store.{EvidenceStore, compare_and_set_state}
use zeus_insurance_bot.Intent.Store.Runs.{
  IsRun, IsRun-refl, IsRun-trans, IsRun-Holds, IsRun-IsUnique, compare-IsRun,
}
use zeus_insurance_bot.Intent.Store.Guards.{Holds}
use zeus_insurance_bot.Intent.Store.Unique.{IsUnique}
use zeus_insurance_bot.Reconciliation.Rounds.{Config}
use zeus_insurance_bot.Reconciliation.Engine.Runs.{IsGuarded}
use zeus_insurance_bot.Reconciliation.Engine.Interference.{reconcile-IsRun}
use zeus_insurance_bot.Reconciliation.Recovery.{
  Attempt, Results, get_non_terminal_intents, recover_intent, recover_intents, recover_after_crash,
}

module _ (config : Config) (fuel : ℕ) (attempts : ℕ → Attempt)
    (calm : (n m : ℕ) → IsGuarded ((attempts n).rounds m)) where
  intent-IsRun :
      (n : ℕ) (i : DurablePaymentIntent) (s : EvidenceStore)
      (results : Results config fuel attempts)
      → IsRun s (recover_intent config fuel attempts n i (s, results)).0
  unfolding recover_intent
  intent-IsRun n i s results =
      let moved =
        compare_and_set_state i.payment_intent_id SettlementState.submitting
          SettlementState.reconciling (attempts n).started_at s in
      let first =
        compare-IsRun s i.payment_intent_id SettlementState.submitting SettlementState.reconciling
          (attempts n).started_at in
      let follow : (t : EvidenceStore) → _ = λ t.
        reconcile-IsRun config (attempts n).attempt_id (attempts n).rounds fuel i.payment_intent_id
          t (calm n) in
      ground (arith, IsRun-refl s, follow s, IsRun-trans s moved.0 _ first (follow moved.0))

  intents-IsRun :
      (n : ℕ) (is : List DurablePaymentIntent) (s : EvidenceStore)
      (results : Results config fuel attempts)
      → IsRun s (recover_intents config fuel attempts n is (s, results)).0
  unfolding recover_intents
  intents-IsRun n [] s results = IsRun-refl s
  intents-IsRun n (i ∷ rest) s results =
      let t = recover_intent config fuel attempts n i (s, results) in
      IsRun-trans s t.0 _ (intent-IsRun n i s results) (intents-IsRun (suc n) rest t.0 t.1)

  -- The recovery of all intents after a crash, beside workers that make guarded calls only, removes
  -- no intent, changes no parties, amount, nonce or verdict, and makes no second intent of an
  -- operation.
  pub recover_after_crash-Holds :
      (id : Ident) (s : EvidenceStore)
      → IsUnique s
      → let t = (recover_after_crash config fuel attempts s).0 in
        Holds (lookup id s.intents) (lookup id t.intents) × IsUnique t
  unfolding recover_after_crash
  recover_after_crash-Holds id s unique =
      let t = (recover_after_crash config fuel attempts s).0 in
      let whole = intents-IsRun 0 (get_non_terminal_intents s) s [] in
      (IsRun-Holds s t id whole, IsRun-IsUnique s t whole unique)
