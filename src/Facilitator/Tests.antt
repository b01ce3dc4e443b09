-- ===== src/Facilitator/Tests.antt =====
-- The facilitator at sample requests, signed by a payer whom every signature names.
use zeus_insurance_bot.Prelude.{
  find_entry, set_entry, delete_entry, ◌≡◌, refl, ◌≤◌, ◌+◌, true, false, none, some, List, [], ◌∷◌,
  Text, codes, text_eq, is_hex_of, lower, is_digits, decimal, trim, rest_after,
}
use zeus_insurance_bot.Facilitator.Values.{
  Key, from, to, value, valid_after, valid_before, nonce, signature, authorization, name, version,
  Value, missing, number, text, object, pass, fail, authorization_window,
}
use zeus_insurance_bot.Facilitator.Verify.{
  Network, Recovery, Authorization, Chain, verify_off_chain, verify_request,
}
use zeus_insurance_bot.Facilitator.Verify.Versions.{
  Payment, IsWritable, v1_request, v2_request, verify_off_chain_versions,
}
use zeus_insurance_bot.Facilitator.Settle.{
  World, NonceEntry, sent, threw, succeeded, reverted, Event, arrives, ends, run, begin_settle,
  refusal_of, settle,
}
use zeus_insurance_bot.Facilitator.Settle.Once.{idle, count, run-BroadcastsOnce}
use zeus_insurance_bot.Facilitator.Server.{Service, Incoming, authorized, verified, handle_settle}
use zeus_insurance_bot.Facilitator.Server.Settles.{Settles, handle_settle-Settles}

abbrev usdc_text : Text
usdc_text = codes "0x74b7F16337b8972027F6196A17a631aC6dE26d22"

abbrev payer_text : Text
payer_text = codes "0x00000000000000000000000000000000000000aA"

abbrev payee_text : Text
payee_text = codes "0x00000000000000000000000000000000000000b1"

abbrev nonce_text : Text
nonce_text = codes "0x000000000000000000000000000000000000000000000000000000000000000a"

abbrev twin_text : Text
twin_text = codes "0x000000000000000000000000000000000000000000000000000000000000000A"

abbrev signature_text : Text
signature_text =
    codes
      "0x0000000000000000000000000000000000000000000000000000000000000000000000000000000000000000000000000000000000000000000000000000000000"

abbrev network_of : Network
network_of = record {
  network_id = codes "eip155:196";
  chain_id = 196;
  usdc = usdc_text;
  domain_name = codes "USD Coin";
  domain_version = codes "2";
}

abbrev recovery : Recovery
recovery n a s = some a.from_address

abbrev authorization_fields : Text → Key → Value
authorization_fields k from = text payer_text
authorization_fields k to = text payee_text
authorization_fields k value = text (codes "250")
authorization_fields k valid_after = text (codes "0")
authorization_fields k valid_before = text (codes "100")
authorization_fields k nonce = text k
authorization_fields k _ = missing

abbrev signed_fields : Text → Key → Value
signed_fields k signature = text signature_text
signed_fields k authorization = object (authorization_fields k)
signed_fields k _ = missing

abbrev domain_fields : Key → Value
domain_fields name = text (codes "USD Coin")
domain_fields version = text (codes "2")
domain_fields _ = missing

abbrev payment : Payment
payment = record {
  canonical_network = codes "eip155:196";
  short_network = codes "x-layer";
  amount_text = codes "250";
  asset_text = usdc_text;
  payee_text = payee_text;
  timeout = number 60;
  domain = object domain_fields;
  signed = object (signed_fields nonce_text);
}

abbrev expected : Authorization
expected = record {
  from_address = payer_text;
  to_address = payee_text;
  amount_of = 250;
  after_time = 0;
  before_time = 100;
  nonce_of = nonce_text;
}

is_verified :
    verify_off_chain recovery network_of 99999 (v2_request payment) ≡ pass (payer_text, expected)
unfolding verify_off_chain text_eq is_hex_of lower is_digits decimal
is_verified = refl

is_expired :
    verify_off_chain recovery network_of 100000 (v2_request payment) ≡ fail authorization_window
unfolding verify_off_chain text_eq is_hex_of lower is_digits decimal
is_expired = refl

payment-IsWritable : IsWritable payment
unfolding text_eq is_hex_of is_digits
payment-IsWritable = record {
  aliases = refl;
  has_amount = refl;
  asset_address = refl;
  payee_address = refl;
  numbers_timeout = refl;
  has_domain = refl;
  has_signed = refl;
  has_signature = refl;
  has_authorization = refl;
}

verify_off_chain_versions_example :
    verify_off_chain recovery network_of 99999 (v1_request payment)
    ≡ verify_off_chain recovery network_of 99999 (v2_request payment)
verify_off_chain_versions_example =
    verify_off_chain_versions recovery network_of 99999 payment payment-IsWritable

-- Two calls with one nonce, of which the first is sent.
abbrev events : List Event
events =
    arrives nonce_text
    ∷ arrives nonce_text
    ∷ ends payer_text nonce_text (threw true false) succeeded
    ∷ arrives nonce_text
    ∷ ends payer_text nonce_text (sent (codes "0xf0")) succeeded
    ∷ []

run-BroadcastsOnce_example :
    let w = run events idle in
    (count nonce_text w.broadcast ≤ 1)
    × (1 ≤ count nonce_text w.flying + count nonce_text w.broadcast
        → (e : NonceEntry) × (begin_settle nonce_text w ≡ (w, some (refusal_of e))))
run-BroadcastsOnce_example = run-BroadcastsOnce events nonce_text (tt, (tt, (refl, (tt, (tt, tt)))))

is_sent : (run events idle).broadcast ≡ nonce_text ∷ []
unfolding run text_eq find_entry set_entry delete_entry
is_sent = refl

-- The same nonce in another letter case is another nonce for the guard.
twin_is_sent :
    (run
      (arrives nonce_text
        ∷ arrives twin_text
        ∷ ends payer_text nonce_text (sent (codes "0xf0")) succeeded
        ∷ ends payer_text twin_text (sent (codes "0xf1")) reverted
        ∷ [])
      idle).broadcast
    ≡ twin_text ∷ nonce_text ∷ []
unfolding run text_eq find_entry set_entry delete_entry
twin_is_sent = refl

abbrev chain_of : Chain
chain_of = record { authorization_state = λ a k. some 0; balance_of = λ a. some 300 }

abbrev service : Service
service = record {
  network_of = network_of;
  api_key = codes "k1";
  checks_balance = true;
  recovery = recovery;
  chain_of = chain_of;
  now_ms = 99999;
}

abbrev incoming : Incoming
incoming = record {
  authorization_header = codes "Bearer k1 ";
  api_key_header = none;
  body = some (v2_request payment);
}

abbrev receives : World → World
receives w = (handle_settle service (λ v. v) (sent (codes "0xf0")) succeeded incoming w).0

is_settled : (receives idle).broadcast ≡ nonce_text ∷ []
unfolding handle_settle verify_request settle find_entry set_entry text_eq is_hex_of lower is_digits
    decimal trim rest_after
is_settled = refl

handle_settle-Settles_example :
    Settles service (λ v. v) (sent (codes "0xf0")) succeeded incoming idle (receives idle)
    × ((request : Value) (signer : Text) (a : Authorization)
        → authorized service.api_key incoming ≡ true
        → incoming.body ≡ some request
        → verified service request ≡ pass (signer, a)
        → receives idle
          ≡ (settle (λ v. v) signer a.nonce_of (sent (codes "0xf0")) succeeded idle).0)
handle_settle-Settles_example =
    handle_settle-Settles service (λ v. v) (sent (codes "0xf0")) succeeded incoming idle
