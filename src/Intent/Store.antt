-- ===== src/Intent/Store.antt =====
-- `InMemoryEvidenceStore` (zeus-secretariat/src/store/in-memory-store.ts).
pub mod Nonces
pub mod Records
pub mod Calls
pub mod Guards
pub mod Unique
pub mod Runs
use zeus_insurance_bot.Prelude.{
  ℕ, Bool, true, false, not, ◌&&◌, ◌||◌, Option, none, some, List, [], ◌∷◌, ◌++◌, Ident, Time, Map,
  lookup, insert, erase, values, keep, find, get_or, or_else, is_some, ltb, ◌==◌, if◌then◌else◌,
}
use Prim.Native.Nat.{pred}
use zeus_insurance_bot.Evidence.{EvidenceRecord}
use zeus_insurance_bot.Operation.Status.{OperationStatus, status_eq}
use zeus_insurance_bot.Operation.Defs.{Operation}
use zeus_insurance_bot.Intent.Types.{
  SettlementState, index, is_terminal_settlement_state, DurablePaymentIntent,
  ReconciliationObservation, SettledEvidenceBundle, NotSettledEvidenceBundle, ResponseBody,
  NonceRecord, NonceStatus,
}

-- `InMemoryIntentRecord`.
pub record IntentRecord : Type 0 where
  pub intent : DurablePaymentIntent
  pub settled_bundle : Option SettledEvidenceBundle
  pub not_settled_bundle : Option NotSettledEvidenceBundle

pub data ReconJobStatus : Type 0 where
  pending running completed failed : ReconJobStatus

pub record ReconciliationJob : Type 0 where
  pub job_id : Ident
  pub payment_intent_id : Ident
  pub status : ReconJobStatus
  pub next_probe_at : Time
  pub created_at : Time

pub record EvidenceStore : Type 0 where
  pub operations : Map Operation
  pub evidence : Map (List EvidenceRecord)
  pub intents : Map IntentRecord
  pub nonces : Map NonceRecord
  pub recon_observations : Map (List ReconciliationObservation)
  pub recon_jobs : Map ReconciliationJob

pub data StoreError : Type 0 where
  duplicate_operation_id intent_not_found nonce_already_reserved : StoreError
  authorization_conflict : SettlementState → StoreError

pub data Result (A : Type 0) : Type 0 where
  ok : A → Result A
  err : StoreError → Result A

abbrev pub set_intent : Ident → DurablePaymentIntent → IntentRecord → EvidenceStore → EvidenceStore
set_intent id i r s = record s { intents = insert id (record r { intent = i }) s.intents }

abbrev pub same_operation : Ident → IntentRecord → Bool
same_operation op r = r.intent.operation_id == op

-- `{ ...rec.intent, payer: rec.intent.authorizer }`.
abbrev pub with_payer : IntentRecord → DurablePaymentIntent
with_payer r = record (r.intent) { payer = some r.intent.authorizer }

abbrev pub with_payer? : Option IntentRecord → Option DurablePaymentIntent
with_payer? none = none
with_payer? (some r) = some (with_payer r)

unfoldable pub find_intent_by_operation_id : Ident → EvidenceStore → Option IntentRecord
find_intent_by_operation_id op s = find (same_operation op) (values s.intents)

unfoldable pub create_payment_intent : DurablePaymentIntent → EvidenceStore → Result EvidenceStore
unfolding find_intent_by_operation_id
create_payment_intent i s =
    if is_some (lookup i.payment_intent_id s.intents)
    then err duplicate_operation_id
    else if is_some (find_intent_by_operation_id i.operation_id s)
    then err duplicate_operation_id
    else ok (record s {
      intents =
          insert i.payment_intent_id
            (record { intent = i; settled_bundle = none; not_settled_bundle = none }) s.intents;
    })

unfoldable pub get_payment_intent_by_operation_id :
    Ident → EvidenceStore → Option DurablePaymentIntent
unfolding find_intent_by_operation_id
get_payment_intent_by_operation_id op s = with_payer? (find_intent_by_operation_id op s)

abbrev same_request : Ident → IntentRecord → Bool
same_request id r = elim (r.intent.request_id) [ none ↦ false | some q ↦ q == id ]

unfoldable pub get_payment_intent_by_request_id :
    Ident → EvidenceStore → Option DurablePaymentIntent
get_payment_intent_by_request_id id s = with_payer? (find (same_request id) (values s.intents))

unfoldable pub get_payment_intent_by_id : Ident → EvidenceStore → Option DurablePaymentIntent
get_payment_intent_by_id id s = with_payer? (lookup id s.intents)

-- `fields: Pick<DurablePaymentIntent, "paymentPayload" | "paymentPayloadHash">`.
pub record PayloadFields : Type 0 where
  pub payload : ℕ
  pub payload_hash : Ident

unfoldable pub update_payment_intent_authorization :
    Ident → PayloadFields → Time → EvidenceStore → Result EvidenceStore
update_payment_intent_authorization id f now s = elim (lookup id s.intents) [
  | none ↦ err intent_not_found
  | some r ↦ ok (
      set_intent id
        (record (r.intent) {
          payment_payload = f.payload;
          payment_payload_hash = f.payload_hash;
          updated_at = now;
        })
        r s)
]

pub record StatusExtra : Type 0 where
  pub tx_hash : Option Ident
  pub facilitator_http_status : Option ℕ
  pub facilitator_response_body : Option ResponseBody
  pub error_reason : Option ℕ

unfoldable pub update_payment_intent_status :
    Ident → SettlementState → StatusExtra → Time → EvidenceStore → Result EvidenceStore
update_payment_intent_status id status x now s = elim (lookup id s.intents) [
  | none ↦ err intent_not_found
  | some r ↦ ok (
      set_intent id
        (record (r.intent) {
          settlement_state = status;
          tx_hash = or_else x.tx_hash r.intent.tx_hash;
          facilitator_http_status =
              or_else x.facilitator_http_status r.intent.facilitator_http_status;
          facilitator_response_body =
              or_else x.facilitator_response_body r.intent.facilitator_response_body;
          error_reason = or_else x.error_reason r.intent.error_reason;
          updated_at = now;
        })
        r s)
]

abbrev pub bind_payload : PayloadFields → Time → DurablePaymentIntent → DurablePaymentIntent
bind_payload f now i = record i {
  payment_payload = f.payload;
  payment_payload_hash = f.payload_hash;
  settlement_state = SettlementState.authorized;
  updated_at = now;
}

unfoldable pub authorize_payment_intent :
    Ident → PayloadFields → SettlementState → Time → EvidenceStore → Result (EvidenceStore × Bool)
authorize_payment_intent id f expected now s = elim (lookup id s.intents) [
  | none ↦ err intent_not_found
  | some r ↦
      let same = r.intent.payment_payload_hash == f.payload_hash in
      let settle : Result (EvidenceStore × Bool) =
        if same then ok (s, false) else err (authorization_conflict r.intent.settlement_state) in
      if is_terminal_settlement_state r.intent.settlement_state
      then settle
      else if index r.intent.settlement_state == index expected
      then ok (set_intent id (bind_payload f now r.intent) r s, true)
      else settle
]

-- The fourth argument that other stores take, `extra`, is ignored by this store.
unfoldable pub compare_and_set_state :
    Ident → SettlementState → SettlementState → Time → EvidenceStore → EvidenceStore × Bool
compare_and_set_state id expected new now s = elim (lookup id s.intents) [
  | none ↦ (s, false)
  | some r ↦
      if is_terminal_settlement_state r.intent.settlement_state
      then (s, false)
      else if index r.intent.settlement_state == index expected
      then (
        set_intent id (record (r.intent) { settlement_state = new; updated_at = now }) r s,
        true,
      )
      else (s, false)
]
