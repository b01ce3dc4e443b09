-- ===== src/Facilitator/Verify/Versions.antt =====
-- The two versions of a request (zeus-facilitator/src/verify.ts).
use zeus_insurance_bot.Prelude.{
  ◌≡◌, refl, true, some, Text, text_eq, is_hex_of, is_empty, arith, Time, false,
}
use zeus_insurance_bot.Facilitator.Values.{
  Key, x402_version, payment_payload, payment_requirements, scheme, network, amount,
  max_amount_required, asset, pay_to, max_timeout_seconds, extra, accepted, payload, signature,
  authorization, Value, missing, number, text, object, get?, is_text, is_fields, is_number, pass,
}
use zeus_insurance_bot.Facilitator.Requests.{
  exact, Terms, terms, payload_fields, requirement_fields, alias_v1_network, canonical,
}
use zeus_insurance_bot.Facilitator.Verify.{Network, Recovery, verify_off_chain}

-- What a client states of a payment: the network by its canonical and by its short name, and the
-- signed part.
pub record Payment : Type 0 where
  pub canonical_network : Text
  pub short_network : Text
  pub amount_text : Text
  pub asset_text : Text
  pub payee_text : Text
  pub timeout : Value
  pub domain : Value
  pub signed : Value

-- The requirements of version 1, and the payload.
abbrev pub v1_requirements : Payment → Key → Value
v1_requirements p scheme = text exact
v1_requirements p network = text p.short_network
v1_requirements p max_amount_required = text p.amount_text
v1_requirements p asset = text p.asset_text
v1_requirements p pay_to = text p.payee_text
v1_requirements p max_timeout_seconds = p.timeout
v1_requirements p extra = p.domain
v1_requirements p _ = missing

abbrev pub v1_payload : Payment → Key → Value
v1_payload p x402_version = number 1
v1_payload p scheme = text exact
v1_payload p network = text p.short_network
v1_payload p payload = p.signed
v1_payload p _ = missing

-- Those of version 2.
abbrev pub v2_requirements : Payment → Key → Value
v2_requirements p scheme = text exact
v2_requirements p network = text p.canonical_network
v2_requirements p amount = text p.amount_text
v2_requirements p asset = text p.asset_text
v2_requirements p pay_to = text p.payee_text
v2_requirements p max_timeout_seconds = p.timeout
v2_requirements p extra = p.domain
v2_requirements p _ = missing

abbrev pub v2_payload : Payment → Key → Value
v2_payload p x402_version = number 2
v2_payload p accepted = object (v2_requirements p)
v2_payload p payload = p.signed
v2_payload p _ = missing

abbrev pub envelope : Value → Value → Value → Key → Value
envelope v p r x402_version = v
envelope v p r payment_payload = p
envelope v p r payment_requirements = r
envelope v p r _ = missing

abbrev pub v1_request : Payment → Value
v1_request p = object (envelope (number 1) (object (v1_payload p)) (object (v1_requirements p)))

abbrev pub v2_request : Payment → Value
v2_request p = object (envelope (number 2) (object (v2_payload p)) (object (v2_requirements p)))

-- The payment can be written in version 1.
pub record IsWritable (p : Payment) : Type 0 where
  pub aliases : alias_v1_network (text p.short_network) ≡ some p.canonical_network
  pub has_amount : is_empty p.amount_text ≡ false
  pub asset_address : is_hex_of 40 p.asset_text ≡ true
  pub payee_address : is_hex_of 40 p.payee_text ≡ true
  pub numbers_timeout : is_number p.timeout ≡ true
  pub has_domain : is_fields p.domain ≡ true
  pub has_signed : is_fields p.signed ≡ true
  pub has_signature : is_text (get? signature p.signed) ≡ true
  pub has_authorization : is_fields (get? authorization p.signed) ≡ true

abbrev terms_of : Payment → Terms
terms_of p = record {
  on_network = p.canonical_network;
  of_amount = p.amount_text;
  in_asset = p.asset_text;
  to_payee = p.payee_text;
  with_timeout = p.timeout;
  with_extra = p.domain;
}

terms_v1 :
    (p : Payment)
    → IsWritable p
    → terms (object (v1_payload p)) (object (v1_requirements p)) ≡ some (terms_of p)
terms_v1 p w = ground (
  arith, w.aliases, w.has_amount, w.asset_address, w.payee_address, w.numbers_timeout, w.has_domain,
)

canonical_v1 :
    (p : Payment)
    → IsWritable p
    → canonical (v1_request p)
      ≡ pass
          (object (payload_fields (terms_of p) p.signed), object (requirement_fields (terms_of p)))
unfolding canonical text_eq
canonical_v1 p w = rw (w.has_signed, w.has_signature, w.has_authorization, terms_v1 p w) refl

-- A payment gets the same verdict in both versions of a request, if the network has the name that
-- version 1 uses for it, amount and addresses are well formed, the timeout is a number, the
-- domain is an object, and the signed part has a signature and an authorization.
pub verify_off_chain_versions :
    (recover : Recovery) (n : Network) (now_ms : Time) (p : Payment)
    → IsWritable p
    → verify_off_chain recover n now_ms (v1_request p)
      ≡ verify_off_chain recover n now_ms (v2_request p)
unfolding verify_off_chain
verify_off_chain_versions recover n now_ms p w = rw (canonical_v1 p w) refl
