-- ===== src/Facilitator/Verify/Accepts.antt =====
-- What a request that passes the verification has (zeus-facilitator/src/verify.ts).
use zeus_insurance_bot.Prelude.{
  ℕ, ◌/◌, ◌≤◌, ◌<◌, ◌≡◌, ap, subst, ◌∙◌, Bool, true, some, Option-cases, inl, inr, Text, lower,
  Time, arith, is_hex_of,
}
use zeus_insurance_bot.Facilitator.Values.{
  network, asset, amount, pay_to, accepted, authorization, payload, signature, Value, Check, pass,
  get?, is_address, text, as_non_negative_int,
}
use zeus_insurance_bot.Facilitator.Requests.{canonical}
use zeus_insurance_bot.Facilitator.Verify.{
  Network, Authorization, Recovery, Chain, check_scheme, check_network, check_asset, check_domain,
  check_terms, read_authorization, check_authorization, check_signature, verify_canonical,
  verify_off_chain, check_on_chain, verify_request,
}
use zeus_insurance_bot.Facilitator.Verify.Steps.{
  >>=-eq-pass, >>-eq-pass, check_network_lem, check_asset_lem, check_terms_lem,
  check_authorization_lem, check_signature_lem,
}

-- The requirements ask for this payment, in the network's asset and to the payee of the
-- authorization.
pub record Asks (n : Network) (r : Value) (a : Authorization) : Type 0 where
  pub of_network : get? network r ≡ text n.network_id
  pub asks_amount : as_non_negative_int (get? amount r) ≡ some a.amount_of
  pub asks_positive : 0 < a.amount_of
  pub in_usdc : (t : Text) × (is_address (get? asset r) ≡ some t) × (lower t ≡ lower n.usdc)
  pub asks_payee :
      (t : Text) × (is_address (get? pay_to r) ≡ some t) × (lower a.to_address ≡ lower t)

-- The payer signed the authorization in the domain of the network, and the time is in its window.
pub record Authorizes (recover : Recovery) (n : Network) (now_ms : Time) (signer : Text)
    (a : Authorization) : Type 0 where
  pub by_signature : (s : Text) × (is_hex_of 130 s ≡ true) × (recover n a s ≡ some signer)
  pub by_payer : lower signer ≡ lower a.from_address
  pub has_begun : a.after_time ≤ now_ms / 1000
  pub has_not_ended : now_ms / 1000 < a.before_time

pass_pair :
    {signer : Text} {auth : Authorization} (by : Text) (found : Authorization)
    → ◌≡◌ {A = Check (Text × Authorization)} (pass (by, found)) (pass (signer, auth))
    → (by ≡ signer) × (found ≡ auth)
pass_pair by found h = ground arith

pass_same :
    {signer : Text} {auth : Authorization} (v : Text × Authorization)
    → ◌≡◌ {A = Check (Text × Authorization)} (pass v) (pass (signer, auth))
    → v ≡ (signer, auth)
pass_same v h = ground arith

module _ (recover : Recovery) (n : Network) (now_ms : Time) (p r : Value) {signer : Text}
    {auth : Authorization} where
  assembled :
      (k : ℕ) (t by : Text) (found : Authorization)
      → (by ≡ signer) × (found ≡ auth)
      → check_network n (get? accepted p) r ≡ pass tt
      → check_asset n r ≡ pass tt
      → check_terms (get? accepted p) r ≡ pass (k, t)
      → check_authorization (k, t) now_ms found ≡ pass tt
      → check_signature recover n (get? signature (get? payload p)) found ≡ pass by
      → Asks n r auth × Authorizes recover n now_ms signer auth
  assembled k t by found (by_signer, found_auth) e1 e2 e5 e7 e8 =
      let (asked, positive, payee) = check_terms_lem (get? accepted p) r e5 in
      let (amount_same, payee_same, live, begun) = check_authorization_lem k t now_ms found e7 in
      let (signed, payer) = check_signature_lem recover n _ found e8 in
      rw (← by_signer, ← found_auth)
        (
          record {
            of_network = check_network_lem n (get? accepted p) r e1;
            asks_amount = rw amount_same asked;
            asks_positive = rw amount_same positive;
            in_usdc = check_asset_lem n r e2;
            asks_payee = (t, payee, payee_same);
          },
          record {
            by_signature = signed;
            by_payer = payer;
            has_begun = begun;
            has_not_ended = live;
          },
        )

  verify_canonical_lem :
      verify_canonical recover n now_ms p r ≡ pass (signer, auth)
      → Asks n r auth × Authorizes recover n now_ms signer auth
  unfolding verify_canonical
  verify_canonical_lem h =
      let a = get? accepted p in
      let v = get? authorization (get? payload p) in
      let (e0, h0) = >>-eq-pass (check_scheme n p r) _ h in
      let (e1, h1) = >>-eq-pass (check_network n a r) _ h0 in
      let (e2, h2) = >>-eq-pass (check_asset n r) _ h1 in
      let (e3, h3) = >>-eq-pass (check_asset n a) _ h2 in
      let (e4, h4) = >>-eq-pass (check_domain n a r) _ h3 in
      let (agreed, e5, h5) = >>=-eq-pass (check_terms a r) _ h4 in
      let (found, e6, h6) = >>=-eq-pass (read_authorization v) _ h5 in
      let (e7, h7) = >>-eq-pass (check_authorization agreed now_ms found) _ h6 in
      let (by, e8, h8) =
        >>=-eq-pass (check_signature recover n (get? signature (get? payload p)) found) _ h7 in
      assembled (agreed.0) (agreed.1) by found (pass_pair by found h8) e1 e2 e5 e7 e8

-- The chain has not used the authorization, and if that is asked for, the payer can pay.
pub record IsOpen (chain : Chain) (with_balance : Bool) (a : Authorization) : Type 0 where
  pub unused : chain.authorization_state a.from_address a.nonce_of ≡ some 0
  pub funded :
      with_balance ≡ true
      → (balance : ℕ) × (chain.balance_of a.from_address ≡ some balance) × (a.amount_of ≤ balance)

check_on_chain_lem :
    (chain : Chain) (with_balance : Bool) (a : Authorization)
    → check_on_chain chain with_balance a ≡ pass tt
    → IsOpen chain with_balance a
unfolding check_on_chain
check_on_chain_lem chain with_balance a h =
    elim (Option-cases (chain.authorization_state a.from_address a.nonce_of)) [
      | inl down ↦ absurd (ground (arith, down, h))
      | inr (state, read) ↦ elim (Option-cases (chain.balance_of a.from_address)) [
        | inl down ↦ record { unused = ground arith; funded = ground arith }
        | inr (balance, told) ↦ record {
          unused = ground arith;
          funded = λ asked. (balance, told, ground arith);
        }
      ]
    ]

-- A request that `verifyRequest` lets pass has a canonical form with requirements, which it meets:
-- they ask for exactly the amount of the authorization, which is not zero, in the asset and on the
-- network of the facilitator, to the payee of the authorization. The recovered signer of the
-- authorization is its payer, its window is open at the second of the verification, and the chain
-- has not used it. Where balances are checked, the payer can pay it.
pub verify_request-IsBacked :
    (recover : Recovery) (n : Network) (chain : Chain) (with_balance : Bool) (now_ms : Time)
    (request : Value) (signer : Text) (auth : Authorization)
    → verify_request recover n chain with_balance now_ms request ≡ pass (signer, auth)
    → (p : Value) × (r : Value) × (canonical request ≡ pass (p, r))
      × Asks n r auth
      × Authorizes recover n now_ms signer auth
      × IsOpen chain with_balance auth
unfolding verify_request verify_off_chain
verify_request-IsBacked recover n chain with_balance now_ms request signer auth h =
    let (v, e, h1) = >>=-eq-pass (verify_off_chain recover n now_ms request) _ h in
    let (c, canon, h2) = >>=-eq-pass (canonical request) _ e in
    let (on_chain, h3) = >>-eq-pass (check_on_chain chain with_balance (v.1)) _ h1 in
    let whole = pass_same v h3 in
    let (asks, authorizes) =
      verify_canonical_lem recover n now_ms (c.0) (c.1) (h2 ∙ ap pass whole) in
    let still_open =
      subst (λ w. IsOpen chain with_balance w.1) whole
        (check_on_chain_lem chain with_balance (v.1) on_chain) in
    (c.0, c.1, canon, asks, authorizes, still_open)
