-- ===== src/Facilitator/Verify.antt =====
-- `verifyOffChain` and `verifyRequest` (zeus-facilitator/src/verify.ts). The recovery of a signer
-- from a signature and the answers of the chain are parameters.
pub mod Steps
pub mod Accepts
pub mod Versions
use zeus_insurance_bot.Prelude.{
  ℕ, ◌/◌, Bool, true, false, ◌&&◌, ◌||◌, not, Option, none, some, Text, text_eq, lower, is_empty,
  is_hex_of, ltb, leb, ◌==◌, if◌then◌else◌, Time,
}
use zeus_insurance_bot.Facilitator.Values.{
  scheme, network, amount, asset, pay_to, extra, name, version, accepted, payload, signature,
  authorization, from, to, value, valid_after, valid_before, nonce, Value, missing, null, boolean,
  number, text, object, Reason, malformed_request, unsupported_scheme, network_mismatch,
  asset_mismatch, pay_to_mismatch, amount_mismatch, domain_binding_missing, domain_mismatch,
  authorization_mismatch, authorization_window, invalid_signature, authorization_already_used,
  insufficient_payer_balance, type_error, rpc_unavailable, Check, pass, fail, throws, ◌>>=◌, ◌>>◌,
  unless, get, get?, is_the_text, as_non_negative_int, is_address, is_bytes32, text_if, need,
}
use zeus_insurance_bot.Facilitator.Requests.{exact, filled, canonical}

-- `FacilitatorNetwork`: what the verification reads of it.
pub record Network : Type 0 where
  pub network_id : Text
  pub chain_id : ℕ
  pub usdc : Text
  pub domain_name : Text
  pub domain_version : Text

-- `VerifiedAuthorization`.
pub record Authorization : Type 0 where
  pub from_address : Text
  pub to_address : Text
  pub amount_of : ℕ
  pub after_time : ℕ
  pub before_time : ℕ
  pub nonce_of : Text

-- `recoverTypedDataAddress` in the domain of a network; nothing is an exception.
abbrev pub Recovery : Type 0
Recovery = Network → Authorization → Text → Option Text

-- What the contract says of an authorization and of a balance; nothing is an exception of the call
-- or of the reading of its answer.
pub record Chain : Type 0 where
  pub authorization_state : Text → Text → Option ℕ
  pub balance_of : Text → Option ℕ

-- `a !== undefined && a !== t` fails.
abbrev pub agrees : Text → Value → Bool
agrees t missing = true
agrees t v = is_the_text t v

-- `t !== v?.toLowerCase()` fails; a value without that method throws.
abbrev pub is_same_address : Text → Value → Check Bool
is_same_address t missing = pass false
is_same_address t null = pass false
is_same_address t (text s) = pass (text_eq (lower t) (lower s))
is_same_address t v = throws type_error

module _ (n : Network) where
  unfoldable pub check_scheme : Value → Value → Check (Unit {0})
  check_scheme p r = do
    s ← get scheme r
    unless (is_the_text exact s) unsupported_scheme
    a ← get accepted p
    q ← get scheme a
    unless (is_the_text exact q) unsupported_scheme

  unfoldable pub check_network : Value → Value → Check (Unit {0})
  check_network a r =
      unless
        (is_the_text n.network_id (get? network r) && is_the_text n.network_id (get? network a))
        network_mismatch

  -- `asset.toLowerCase() !== network.usdc.toLowerCase()` fails.
  abbrev pub is_usdc : Text → Bool
  is_usdc t = text_eq (lower t) (lower n.usdc)

  unfoldable pub check_asset : Value → Check (Unit {0})
  check_asset v = do
    t ← need (is_address (get? asset v)) asset_mismatch
    unless (is_usdc t) asset_mismatch

  unfoldable pub check_domain : Value → Value → Check (Unit {0})
  check_domain a r = do
    d ← need (filled (get? name (get? extra r))) domain_binding_missing
    v ← need (filled (get? version (get? extra r))) domain_binding_missing
    unless (text_eq d n.domain_name && text_eq v n.domain_version) domain_mismatch
    unless
        (agrees n.domain_name (get? name (get? extra a))
          && agrees n.domain_version (get? version (get? extra a)))
        domain_mismatch

-- The amount and the payee of the requirements.
unfoldable pub check_terms : Value → Value → Check (ℕ × Text)
check_terms a r = do
  k ← need (as_non_negative_int (get? amount r)) amount_mismatch
  unless (ltb 0 k) amount_mismatch
  t ← need (is_address (get? pay_to r)) pay_to_mismatch
  same ← is_same_address t (get? pay_to a)
  unless same pay_to_mismatch
  pass (k, t)

-- The authorization, if its fields are complete and well formed.
unfoldable pub read_authorization : Value → Check Authorization
read_authorization v = do
  f ← need (is_address (get? from v)) malformed_request
  t ← need (is_address (get? to v)) malformed_request
  k ← need (is_bytes32 (get? nonce v)) malformed_request
  x ← need (as_non_negative_int (get? value v)) malformed_request
  s ← need (as_non_negative_int (get? valid_after v)) malformed_request
  e ← need (as_non_negative_int (get? valid_before v)) malformed_request
  pass (record {
    from_address = f;
    to_address = t;
    amount_of = x;
    after_time = s;
    before_time = e;
    nonce_of = k;
  })

unfoldable pub check_authorization : ℕ × Text → Time → Authorization → Check (Unit {0})
check_authorization (k, payee) now_ms a = do
  unless (a.amount_of == k) amount_mismatch
  unless (text_eq (lower a.to_address) (lower payee)) authorization_mismatch
  unless (ltb (now_ms / 1000) a.before_time) authorization_window
  unless (leb a.after_time (now_ms / 1000)) authorization_window

-- `isAuthorizationUsed` and `getBalance` in `verifyRequest`.
unfoldable pub check_on_chain : Chain → Bool → Authorization → Check (Unit {0})
check_on_chain chain with_balance a = elim (chain.authorization_state a.from_address a.nonce_of) [
  | none ↦ throws rpc_unavailable
  | some state ↦ do
    unless (state == 0) authorization_already_used
    if with_balance
        then elim (chain.balance_of a.from_address) [
          | none ↦ throws rpc_unavailable
          | some balance ↦ unless (leb a.amount_of balance) insufficient_payer_balance
        ]
        else pass tt
]

module _ (recover : Recovery) (n : Network) where
  -- The signer, if it is the payer of the authorization.
  unfoldable pub check_signature : Value → Authorization → Check Text
  check_signature v a = do
    s ← need (text_if (is_hex_of 130) v) invalid_signature
    signer ← need (recover n a s) invalid_signature
    unless (text_eq (lower signer) (lower a.from_address)) invalid_signature
    pass signer

  unfoldable pub verify_canonical : Time → Value → Value → Check (Text × Authorization)
  unfolding check_scheme check_network check_asset check_domain check_terms read_authorization
      check_authorization check_signature
  verify_canonical now_ms p r =
      let a = get? accepted p in
      do
        check_scheme n p r
        check_network n a r
        check_asset n r
        check_asset n a
        check_domain n a r
        agreed ← check_terms a r
        auth ← read_authorization (get? authorization (get? payload p))
        check_authorization agreed now_ms auth
        signer ← check_signature (get? signature (get? payload p)) auth
        pass (signer, auth)

  -- `verifyOffChain`.
  unfoldable pub verify_off_chain : Time → Value → Check (Text × Authorization)
  unfolding canonical verify_canonical
  verify_off_chain now_ms request = do c ← canonical request; verify_canonical now_ms (c.0) (c.1)

  -- `verifyRequest`.
  unfoldable pub verify_request : Chain → Bool → Time → Value → Check (Text × Authorization)
  unfolding verify_off_chain check_on_chain
  verify_request chain with_balance now_ms request = do
    v ← verify_off_chain now_ms request
    check_on_chain chain with_balance v.1
    pass v
