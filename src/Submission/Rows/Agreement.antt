-- ===== src/Submission/Rows/Agreement.antt =====
-- The two evidence stores agree on the writes that guard the settlement state
-- (lib/db/src/secretariat/postgres-store.ts, zeus-secretariat/src/store/in-memory-store.ts).
use zeus_insurance_bot.Prelude.{
  ◌≡◌, refl, sym, ap, ◌∙◌, leb, false, Option-cases, inl, inr, Ident, Time, lookup, arith,
}
use zeus_insurance_bot.Intent.Types.{SettlementState, index, is_terminal_settlement_state}
use zeus_insurance_bot.Intent.Store.{
  EvidenceStore, PayloadFields, compare_and_set_state, authorize_payment_intent,
}
use zeus_insurance_bot.Submission.Rows.{no_extra, compare_and_set_row, authorize_row}

terminal_leb : (a : SettlementState) → is_terminal_settlement_state a ≡ leb 6 (index a)
terminal_leb SettlementState.pending_signature = refl
terminal_leb SettlementState.authorized = refl
terminal_leb SettlementState.submitting = refl
terminal_leb SettlementState.submitted = refl
terminal_leb SettlementState.settlement_pending = refl
terminal_leb SettlementState.reconciling = refl
terminal_leb SettlementState.settled = refl
terminal_leb SettlementState.not_settled = refl
terminal_leb SettlementState.unresolved_manual = refl

-- A terminal state is not mistaken for another.
terminal_index :
    (a b : SettlementState)
    → index a ≡ index b
    → is_terminal_settlement_state a ≡ is_terminal_settlement_state b
terminal_index a b e = terminal_leb a ∙ ap (leb 6) e ∙ sym (terminal_leb b)

-- The PostgreSQL store refuses a terminal expected state, and the in-memory store a row in a
-- terminal state; still, without further columns, both write the same and give the same answer.
pub compare_and_set_row_agrees :
    (id : Ident) (expected new : SettlementState) (now : Time) (s : EvidenceStore)
    → compare_and_set_row id expected new no_extra now s
      ≡ compare_and_set_state id expected new now s
unfolding compare_and_set_row compare_and_set_state
compare_and_set_row_agrees id expected new now s = elim (Option-cases (lookup id s.intents)) [
  | inl missing ↦ rw (missing, compare_and_set_row, compare_and_set_state) (ground arith)
  | inr (r, found) ↦
      rw (found, compare_and_set_row, compare_and_set_state)
        (ground (arith, terminal_index r.intent.settlement_state expected))
]

-- Both stores bind a signed payload to an intent in the same way, with the same answer and the same
-- error, whenever the state that the caller expects is not a terminal one.
pub authorize_row_agrees :
    (id : Ident) (f : PayloadFields) (expected : SettlementState) (now : Time) (s : EvidenceStore)
    → is_terminal_settlement_state expected ≡ false
    → authorize_row id f expected now s ≡ authorize_payment_intent id f expected now s
unfolding authorize_row authorize_payment_intent
authorize_row_agrees id f expected now s live = elim (Option-cases (lookup id s.intents)) [
  | inl missing ↦ rw (missing, authorize_row, authorize_payment_intent) refl
  | inr (r, found) ↦
      rw (found, authorize_row, authorize_payment_intent)
        (ground (arith, terminal_index r.intent.settlement_state expected))
]
