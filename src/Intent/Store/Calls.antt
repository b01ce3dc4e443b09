-- ===== src/Intent/Store/Calls.antt =====
-- The calls on a store's intents that guard the settlement state, as a sequence of steps
-- (zeus-secretariat/src/store/in-memory-store.ts). `updatePaymentIntentStatus`, which writes any
-- state, is not among them.
use zeus_insurance_bot.Prelude.{Bool, List, [], ◌∷◌, Ident, Time}
use zeus_insurance_bot.Intent.Types.{
  SettlementState, DurablePaymentIntent, ReconciliationObservation, SettledEvidenceBundle,
  NotSettledEvidenceBundle, NonceStatus,
}
use zeus_insurance_bot.Intent.Store.{
  EvidenceStore, PayloadFields, Result, ok, err, authorize_payment_intent, compare_and_set_state,
}
use zeus_insurance_bot.Intent.Store.Nonces.{create_intent_with_nonce, mark_nonce}
use zeus_insurance_bot.Intent.Store.Records.{
  save_settled_evidence_bundle, save_not_settled_evidence_bundle, append_reconciliation_observation,
  create_reconciliation_job,
}

pub data Call : Type 0 where
  creates : DurablePaymentIntent → Ident → Time → Call
  authorizes : Ident → PayloadFields → SettlementState → Time → Call
  compares : Ident → SettlementState → SettlementState → Time → Call
  marks : NonceStatus → Ident → Time → Call
  saves_settled : Ident → SettledEvidenceBundle → Call
  saves_not_settled : Ident → NotSettledEvidenceBundle → Call
  observes : ReconciliationObservation → Call
  schedules : Ident → Ident → Time → Time → Call

-- The store that a call leaves, also when it throws.
abbrev pub left_by : EvidenceStore → Result (EvidenceStore × Bool) → EvidenceStore
left_by s (ok (t, b)) = t
left_by s (err e) = s

unfoldable pub step : Call → EvidenceStore → EvidenceStore
step (creates i payer t) s = (create_intent_with_nonce i payer t s).0
step (authorizes id f st t) s = left_by s (authorize_payment_intent id f st t s)
step (compares id expected new t) s = (compare_and_set_state id expected new t s).0
step (marks st n t) s = mark_nonce st n t s
step (saves_settled id b) s = save_settled_evidence_bundle id b s
step (saves_not_settled id b) s = save_not_settled_evidence_bundle id b s
step (observes o) s = append_reconciliation_observation o s
step (schedules id fresh next t) s = (create_reconciliation_job id fresh next t s).0

unfoldable pub run : List Call → EvidenceStore → EvidenceStore
run [] s = s
run (c ∷ cs) s = run cs (step c s)
