-- ===== src/Intent/Types.antt =====
-- Payment intents and reconciliation evidence (zeus-secretariat/src/core/types.ts). Addresses,
-- hashes and nonces are identifiers; a decimal amount is the number that it denotes.
use zeus_insurance_bot.Prelude.{ℕ, Bool, true, false, Option, List, Ident, Opaque, Time, ltb, leb}

pub data SettlementState : Type 0 where
  pending_signature authorized submitting submitted settlement_pending : SettlementState
  reconciling settled not_settled unresolved_manual : SettlementState

-- `===` on settlement states, by their place in the declaration.
abbrev pub index : SettlementState → ℕ
index SettlementState.pending_signature = 0
index SettlementState.authorized = 1
index SettlementState.submitting = 2
index SettlementState.submitted = 3
index SettlementState.settlement_pending = 4
index SettlementState.reconciling = 5
index SettlementState.settled = 6
index SettlementState.not_settled = 7
index SettlementState.unresolved_manual = 8

abbrev pub is_pending_signature : SettlementState → Bool
is_pending_signature SettlementState.pending_signature = true
is_pending_signature _ = false

-- `allowNewPayment`.
abbrev pub allow_new_payment : SettlementState → Bool
allow_new_payment SettlementState.not_settled = true
allow_new_payment _ = false

-- `isTerminalSettlementState`.
abbrev pub is_terminal_settlement_state : SettlementState → Bool
is_terminal_settlement_state SettlementState.settled = true
is_terminal_settlement_state SettlementState.not_settled = true
is_terminal_settlement_state SettlementState.unresolved_manual = true
is_terminal_settlement_state _ = false

-- A whole JavaScript number, or NaN; `below_zero n` is -(n + 1).
pub data JsNumber : Type 0 where
  nan : JsNumber
  below_zero whole : ℕ → JsNumber

-- `a < b`, which is false for NaN.
abbrev pub is_below : JsNumber → ℕ → Bool
is_below nan b = false
is_below (below_zero a) b = true
is_below (whole a) b = ltb a b

-- `a >= b`, which is false for NaN too.
abbrev pub is_at_least : JsNumber → ℕ → Bool
is_at_least nan b = false
is_at_least (below_zero a) b = false
is_at_least (whole a) b = leb b a

pub data ObservationResult : Type 0 where
  still_unknown settled_found not_settled_confirmed rpc_error stale_head : ObservationResult

pub record ReconciliationObservation : Type 0 where
  pub attempt_id : Ident
  pub payment_intent_id : Ident
  pub timestamp : Time
  pub rpc_provider_id : Ident
  pub head_block : ℕ
  pub authorization_state : Option Bool
  pub valid_before : Time
  pub result : ObservationResult
  pub error : Option Opaque

pub record SettledEvidenceBundle : Type 0 where
  pub transaction_hash : Ident
  pub block_number : Option ℕ
  pub log_index : ℕ
  pub gas_used : Option ℕ
  pub transfer_from : Ident
  pub transfer_to : Ident
  pub transfer_value : ℕ
  pub token_contract : Ident
  pub confirmations : Option JsNumber
  pub finality_reached : Bool
  pub rpc_observations : List ReconciliationObservation

-- A number that the source makes negative where there is no answer, or that is NaN, is `none`.
pub record RpcObservationForNotSettled : Type 0 where
  pub provider_id : Ident
  pub underlying_provider : Ident
  pub observed_at : Time
  pub block_number : Option ℕ
  pub chain_head : Option ℕ
  pub staleness_blocks : Option ℕ

pub data ScanVerdict : Type 0 where
  scan_complete_empty reverted_tx : ScanVerdict

pub record NotSettledEvidenceBundle : Type 0 where
  pub authorizer : Ident
  pub nonce : Option Ident
  pub valid_before : Time
  pub expiry_confirmed_at : Time
  pub rpc_observations : List RpcObservationForNotSettled
  pub scan_result : ScanVerdict

-- The evidence that an outcome carries; a stored bundle is handed on as it is.
pub data ReconciliationEvidence : Type 0 where
  of_settled : SettledEvidenceBundle → ReconciliationEvidence
  of_not_settled : NotSettledEvidenceBundle → ReconciliationEvidence

-- `ReconciliationOutcome` without the texts that give a reason; `reconciling` has the delay of the
-- next probe. A verdict that was in the store already may come without evidence.
pub data ReconciliationOutcome : Type 0 where
  settled not_settled : Option ReconciliationEvidence → ReconciliationOutcome
  reconciling : (next_probe_ms : Option ℕ) → ReconciliationOutcome
  unresolved_manual incident : ReconciliationOutcome

-- The durable record of a paid call of the standard transport.
pub record StandardPaidCallRecord : Type 0 where
  pub seller_http_status : ℕ
  pub seller_body : Option Opaque
  pub captured_at : Time

pub data ResponseBody : Type 0 where
  standard_paid_call : StandardPaidCallRecord → ResponseBody
  other_body : Opaque → ResponseBody

-- `isStandardPaidCallRecord` on an optional body.
abbrev pub is_standard_paid_call_record : Option ResponseBody → Bool
is_standard_paid_call_record (Option.some (standard_paid_call r)) = true
is_standard_paid_call_record (Option.some (other_body b)) = false
is_standard_paid_call_record Option.none = false

pub record DurablePaymentIntent : Type 0 where
  pub payment_intent_id : Ident
  pub operation_id : Ident
  pub request_id : Option Ident
  pub authorizer : Ident
  pub payer : Option Ident
  pub pay_to : Ident
  pub value : ℕ
  pub asset : Ident
  -- `none` is the empty text.
  pub nonce : Option Ident
  pub valid_after : Time
  pub valid_before : Time
  pub payment_payload : Opaque
  pub payment_payload_hash : Ident
  pub settlement_state : SettlementState
  pub tx_hash : Option Ident
  pub facilitator_http_status : Option ℕ
  pub facilitator_response_body : Option ResponseBody
  pub error_reason : Option Opaque
  pub reconciliation_observations : List ReconciliationObservation
  pub settled_evidence_bundle : Option SettledEvidenceBundle
  pub not_settled_evidence_bundle : Option NotSettledEvidenceBundle
  pub probe_count : Option ℕ
  pub created_at : Time
  pub updated_at : Time

pub data NonceStatus : Type 0 where
  reserved signed submitted settled : NonceStatus

pub record NonceRecord : Type 0 where
  pub operation_id : Ident
  pub status : NonceStatus
  pub payer : Ident
  pub created_at : Time
  pub updated_at : Time
