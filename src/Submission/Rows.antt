-- ===== src/Submission/Rows.antt =====
-- The payment intents of `PostgresEvidenceStore` (lib/db/src/secretariat/postgres-store.ts). An
-- `UPDATE` with a condition is a function that tests the row of the key and says whether it wrote.
-- The columns `version`, `settled_at`, `not_settled_at` and `submit_attempt_at` are left out.
pub mod Agreement
use zeus_insurance_bot.Prelude.{
  ℕ, Bool, true, false, Option, none, some, List, Ident, Time, lookup, is_some, or_else, ◌==◌,
  if◌then◌else◌,
}
use zeus_insurance_bot.Intent.Types.{
  SettlementState, index, allow_new_payment, is_terminal_settlement_state, DurablePaymentIntent,
  ResponseBody,
}
use zeus_insurance_bot.Intent.Store.{
  EvidenceStore, PayloadFields, Result, ok, err, intent_not_found, authorization_conflict,
  StatusExtra, set_intent, bind_payload, find_intent_by_operation_id,
}

abbrev pub no_extra : StatusExtra
no_extra = record {
  tx_hash = none;
  facilitator_http_status = none;
  facilitator_response_body = none;
  error_reason = none;
}

-- The columns of `setObj`.
abbrev pub set_columns :
    SettlementState → StatusExtra → Time → DurablePaymentIntent → DurablePaymentIntent
set_columns new x now i = record i {
  settlement_state = new;
  tx_hash = or_else x.tx_hash i.tx_hash;
  facilitator_http_status = or_else x.facilitator_http_status i.facilitator_http_status;
  facilitator_response_body = or_else x.facilitator_response_body i.facilitator_response_body;
  error_reason = or_else x.error_reason i.error_reason;
  updated_at = now;
}

-- `compareAndSetState`.
unfoldable pub compare_and_set_row :
    Ident
    → SettlementState
    → SettlementState
    → StatusExtra
    → Time
    → EvidenceStore
    → EvidenceStore × Bool
compare_and_set_row id expected new x now s =
    if is_terminal_settlement_state expected then (s, false) else elim (lookup id s.intents) [
      | none ↦ (s, false)
      | some r ↦
          if index r.intent.settlement_state == index expected
          then (set_intent id (set_columns new x now r.intent) r s, true)
          else (s, false)
    ]

-- `updatePaymentIntentStatus`, which tests no state; the extra fields of the row are left out.
unfoldable pub update_status_row :
    Ident → SettlementState → StatusExtra → Time → EvidenceStore → EvidenceStore
update_status_row id new x now s = elim (lookup id s.intents) [
  | none ↦ s
  | some r ↦ set_intent id (set_columns new x now r.intent) r s
]

-- `transitionToSubmitting`.
abbrev pub transition_to_submitting : Ident → Time → EvidenceStore → EvidenceStore × Bool
transition_to_submitting id now s =
    compare_and_set_row id SettlementState.authorized SettlementState.submitting no_extra now s

-- `recordSubmissionResult`.
abbrev pub record_submission_result :
    Ident
    → SettlementState
    → Option Ident
    → Option ℕ
    → Option ResponseBody
    → Time
    → EvidenceStore
    → EvidenceStore × Bool
record_submission_result id new hash status body now s =
    compare_and_set_row id SettlementState.submitting new
      (record {
        tx_hash = hash;
        facilitator_http_status = status;
        facilitator_response_body = body;
        error_reason = none;
      })
      now s

-- `authorizePaymentIntent`.
unfoldable pub authorize_row :
    Ident → PayloadFields → SettlementState → Time → EvidenceStore → Result (EvidenceStore × Bool)
authorize_row id f expected now s = elim (lookup id s.intents) [
  | none ↦ err intent_not_found
  | some r ↦
      if index r.intent.settlement_state == index expected
      then ok (set_intent id (bind_payload f now r.intent) r s, true)
      else if r.intent.payment_payload_hash == f.payload_hash
      then ok (s, false)
      else err (authorization_conflict r.intent.settlement_state)
]

-- `canCreateNewPayment`.
unfoldable pub can_create_new_payment : Ident → EvidenceStore → Bool
can_create_new_payment op s = elim (find_intent_by_operation_id op s) [
  | none ↦ true
  | some r ↦ allow_new_payment r.intent.settlement_state
]
