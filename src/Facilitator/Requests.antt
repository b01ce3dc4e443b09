-- ===== src/Facilitator/Requests.antt =====
-- The versions of a request (zeus-facilitator/src/verify.ts): the canonical one, and version 1,
-- which is brought into the canonical form.
use zeus_insurance_bot.Prelude.{
  true, false, ◌&&◌, Option, none, some, Text, codes, text_eq, is_digits, is_empty, after,
  if◌then◌else◌,
}
use zeus_insurance_bot.Facilitator.Values.{
  Key, x402_version, payment_payload, payment_requirements, scheme, network, amount,
  max_amount_required, asset, pay_to, max_timeout_seconds, extra, accepted, payload, signature,
  authorization, Value, missing, number, text, object, x402_version_mismatch, malformed_request,
  Check, pass, ◌>>=◌, ◌>>◌, unless, get, get?, is_object, is_fields, is_number, is_text,
  is_the_number, is_the_text, or_value, is_address, need,
}

abbrev pub exact : Text
exact = codes "exact"

-- `aliasV1Network`. The names that every object inherits, such as `toString`, are left out of the
-- table of aliases.
abbrev pub alias_v1_network : Value → Option Text
alias_v1_network (text t) =
    if text_eq t (codes "base-sepolia")
    then some (codes "eip155:84532")
    else if text_eq t (codes "x-layer")
    then some (codes "eip155:196")
    else if after (codes "eip155:") is_digits t
    then some t
    else none
alias_v1_network v = none

-- A text that is not empty.
abbrev pub filled : Value → Option Text
filled (text t) = if is_empty t then none else some t
filled v = none

-- What the canonical form of a request of version 1 is made from.
pub record Terms : Type 0 where
  pub on_network : Text
  pub of_amount : Text
  pub in_asset : Text
  pub to_payee : Text
  pub with_timeout : Value
  pub with_extra : Value

abbrev pub or_network : Option Text → Option Text → Option Text
or_network (some n) m = some n
or_network none m = m

-- The fields that `normalizeV1Request` reads once the envelope is recognised.
abbrev pub terms : Value → Value → Option Terms
terms p r =
    elim (or_network (alias_v1_network (get? network r)) (alias_v1_network (get? network p))) [
      | none ↦ none
      | some n ↦ elim (filled (or_value (get? max_amount_required r) (get? amount r))) [
        | none ↦ none
        | some a ↦ elim (is_address (get? asset r)) [
          | none ↦ none
          | some c ↦ elim (is_address (get? pay_to r)) [
            | none ↦ none
            | some t ↦ some (record {
              on_network = n;
              of_amount = a;
              in_asset = c;
              to_payee = t;
              with_timeout = elim (is_number (get? max_timeout_seconds r)) [
                | true ↦ get? max_timeout_seconds r
                | false ↦ number 60
              ];
              with_extra = elim (is_fields (get? extra r)) [
                | true ↦ get? extra r
                | false ↦ missing
              ];
            })
          ]
        ]
      ]
    ]

-- The canonical requirements, which are `accepted` in the payload as well.
abbrev pub requirement_fields : Terms → Key → Value
requirement_fields t scheme = text exact
requirement_fields t network = text t.on_network
requirement_fields t asset = text t.in_asset
requirement_fields t amount = text t.of_amount
requirement_fields t pay_to = text t.to_payee
requirement_fields t max_timeout_seconds = t.with_timeout
requirement_fields t extra = t.with_extra
requirement_fields t _ = missing

abbrev pub payload_fields : Terms → Value → Key → Value
payload_fields t inner x402_version = number 1
payload_fields t inner accepted = object (requirement_fields t)
payload_fields t inner payload = inner
payload_fields t inner _ = missing

-- `normalizeV1Request` on a payload and requirements; nothing is `null`.
abbrev pub normalize_inner : Value → Value → Value → Check (Option (Value × Value))
normalize_inner inner p r =
    if is_fields inner && is_text (get? signature inner) && is_fields (get? authorization inner)
    then elim (terms p r) [
      | none ↦ pass none
      | some t ↦ pass (some (object (payload_fields t inner), object (requirement_fields t)))
    ]
    else pass none

unfoldable pub normalize_v1_request : Value → Value → Check (Option (Value × Value))
normalize_v1_request p r = do
  v ← get x402_version p
  elim (is_the_number 1 v) [
    | false ↦ pass none
    | true ↦ do
      s ← get scheme p
      elim (is_the_text exact s) [
        | false ↦ pass none
        | true ↦ do
          q ← get scheme r
          if is_the_text exact q then normalize_inner (get? payload p) p r else pass none
      ]
  ]

-- The test on the version of a request, and what follows it.
abbrev pub by_version : Value → Value → Value → Check (Value × Value)
by_version version p r =
    if is_the_number 1 version
    then (do normalized ← normalize_v1_request p r; need normalized x402_version_mismatch)
    else (do
      unless (is_the_number 2 version) x402_version_mismatch
      v ← get x402_version p
      unless (is_the_number 2 v) x402_version_mismatch
      pass (p, r))

-- The first part of `verifyOffChain`: the payload and the requirements in canonical form.
unfoldable pub canonical : Value → Check (Value × Value)
unfolding normalize_v1_request
canonical request =
    let version = get? x402_version request in
    let p = get? payment_payload request in
    let r = get? payment_requirements request in
    unless (is_fields request && is_number version && is_object p && is_object r) malformed_request
    >> by_version version p r
