-- ===== src/Facilitator/Server.antt =====
-- `handleVerify` and `handleSettle` (zeus-facilitator/src/server.ts). The headers are taken apart,
-- and the body is what JSON.parse makes of it, if it does.
pub mod Settles
use zeus_insurance_bot.Prelude.{
  ℕ, Bool, true, false, ◌||◌, Option, none, some, Text, codes, text_eq, is_empty, trim, rest_after,
  get_or, if◌then◌else◌, Time,
}
use zeus_insurance_bot.Facilitator.Values.{
  Value, Reason, Fault, type_error, rpc_unavailable, Check, pass, fail, throws,
}
use zeus_insurance_bot.Facilitator.Verify.{Network, Recovery, Chain, Authorization, verify_request}
use zeus_insurance_bot.Facilitator.Settle.{World, Sending, Receipt, Body, settle}

-- A request as it comes in: the headers `authorization` and `x-api-key`, and the body.
pub record Incoming : Type 0 where
  pub authorization_header : Text
  pub api_key_header : Option Text
  pub body : Option Value

-- The configuration, and what is outside of the process.
pub record Service : Type 0 where
  pub network_of : Network
  pub api_key : Text
  pub checks_balance : Bool
  pub recovery : Recovery
  pub chain_of : Chain
  pub now_ms : Time

-- The body of an answer that no settlement gives.
pub data Answer : Type 0 where
  unauthorized invalid_json rpc_trouble internal : Answer
  is_valid : (payer : Text) → Answer
  is_invalid : Reason → Answer
  not_settled : Reason → Answer
  settled : Body → Answer

-- `authorized`.
unfoldable pub authorized : Text → Incoming → Bool
authorized key i =
    is_empty key
    || text_eq (trim (get_or (rest_after (codes "Bearer ") i.authorization_header) (codes ""))) key
    || text_eq (get_or i.api_key_header (codes "")) key

abbrev pub fault_answer : Fault → ℕ × Answer
fault_answer rpc_unavailable = (503, rpc_trouble)
fault_answer type_error = (500, internal)

module _ (s : Service) where
  abbrev pub verified : Value → Check (Text × Authorization)
  verified = verify_request s.recovery s.network_of s.chain_of s.checks_balance s.now_ms

  abbrev pub verify_answer : Check (Text × Authorization) → ℕ × Answer
  verify_answer (pass (payer, a)) = (200, is_valid payer)
  verify_answer (fail r) = (200, is_invalid r)
  verify_answer (throws e) = fault_answer e

  unfoldable pub handle_verify : Incoming → ℕ × Answer
  unfolding authorized
  handle_verify i =
      if authorized s.api_key i
      then elim (i.body) [
        | none ↦ (400, invalid_json)
        | some request ↦ verify_answer (verified request)
      ]
      else (401, unauthorized)

  module _ (others : World → World) (sending : Sending) (receipt : Receipt) where
    abbrev pub settle_verified : Check (Text × Authorization) → World → World × (ℕ × Answer)
    settle_verified (pass (payer, a)) w =
        let (after, (status, body)) = settle others payer a.nonce_of sending receipt w in
        (after, (status, settled body))
    settle_verified (fail r) w = (w, (200, not_settled r))
    settle_verified (throws e) w = (w, fault_answer e)

    unfoldable pub handle_settle : Incoming → World → World × (ℕ × Answer)
    unfolding authorized
    handle_settle i w =
        if authorized s.api_key i
        then elim (i.body) [
          | none ↦ (w, (400, invalid_json))
          | some request ↦ settle_verified (verified request) w
        ]
        else (w, (401, unauthorized))
