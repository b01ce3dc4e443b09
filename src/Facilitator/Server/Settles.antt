-- ===== src/Facilitator/Server/Settles.antt =====
-- What the route that settles may do (zeus-facilitator/src/server.ts).
use zeus_insurance_bot.Prelude.{
  ◌≡◌, refl, ◌⊎◌, inl, inr, Bool-cases, Option-cases, true, some, Text,
}
use zeus_insurance_bot.Facilitator.Values.{Value, Check, pass, fail, throws}
use zeus_insurance_bot.Facilitator.Requests.{canonical}
use zeus_insurance_bot.Facilitator.Verify.{Authorization}
use zeus_insurance_bot.Facilitator.Verify.Accepts.{
  Asks, Authorizes, IsOpen, verify_request-IsBacked,
}
use zeus_insurance_bot.Facilitator.Settle.{World, Sending, Receipt, settle}
use zeus_insurance_bot.Facilitator.Server.{
  Incoming, Service, authorized, verified, settle_verified, handle_settle,
}

-- The request comes from a holder of the key, and its payment is backed in every respect.
pub record IsBacked (s : Service) (i : Incoming) (signer : Text) (a : Authorization) : Type 0 where
  pub has_key : authorized s.api_key i ≡ true
  pub has_canonical_form :
      (request : Value) × (p : Value) × (r : Value) × (i.body ≡ some request)
      × (canonical request ≡ pass (p, r))
      × Asks s.network_of r a
  pub authorizes : Authorizes s.recovery s.network_of s.now_ms signer a
  pub is_open : IsOpen s.chain_of s.checks_balance a

module _ (s : Service) (others : World → World) (sending : Sending) (receipt : Receipt) where
  -- A request that is not backed leaves everything as it is; one that is backed is settled.
  abbrev pub Settles : Incoming → World → World → Type 0
  Settles i w after =
      after ≡ w
      ⊎ ((signer : Text) × (a : Authorization) × IsBacked s i signer a
          × (after ≡ (settle others signer a.nonce_of sending receipt w).0))

  settle_verified-Settles :
      (i : Incoming) (w : World) (request : Value) (c : Check (Text × Authorization))
      → authorized s.api_key i ≡ true
      → i.body ≡ some request
      → verified s request ≡ c
      → Settles i w (settle_verified s others sending receipt c w).0
  settle_verified-Settles i w request (pass (signer, a)) key has passes =
      let (p, r, form, asks, authorizes, open_now) =
        verify_request-IsBacked s.recovery s.network_of s.chain_of s.checks_balance s.now_ms request
          signer a passes in
      inr (
        signer,
        a,
        record {
          has_key = key;
          has_canonical_form = (request, p, r, has, form, asks);
          authorizes = authorizes;
          is_open = open_now;
        },
        refl,
      )
  settle_verified-Settles i w request (fail reason) key has passes = inl refl
  settle_verified-Settles i w request (throws e) key has passes = inl refl

  handle_settle-settle_verified :
      (i : Incoming) (w : World) (request : Value)
      → authorized s.api_key i ≡ true
      → i.body ≡ some request
      → handle_settle s others sending receipt i w
        ≡ settle_verified s others sending receipt (verified s request) w
  unfolding handle_settle
  handle_settle-settle_verified i w request key has = rw (key, has, handle_settle) refl

  acts_on_backed :
      (i : Incoming) (w : World) (request : Value) (signer : Text) (a : Authorization)
      → authorized s.api_key i ≡ true
      → i.body ≡ some request
      → verified s request ≡ pass (signer, a)
      → (handle_settle s others sending receipt i w).0
        ≡ (settle others signer a.nonce_of sending receipt w).0
  acts_on_backed i w request signer a key has passes =
      rw (handle_settle-settle_verified i w request key has, passes) refl

  refuses_unbacked :
      (i : Incoming) (w : World) → Settles i w (handle_settle s others sending receipt i w).0
  unfolding handle_settle
  refuses_unbacked i w = elim (Bool-cases (authorized s.api_key i)) [
    | inr stranger ↦ inl (rw stranger refl)
    | inl key ↦ elim (Option-cases (i.body)) [
      | inl bad ↦ inl (rw (key, bad, handle_settle) refl)
      | inr (request, has) ↦
          rw (handle_settle-settle_verified i w request key has)
            (settle_verified-Settles i w request (verified s request) key has refl)
    ]
  ]

  -- The route that settles changes nothing, unless the request has the key and a payment that is
  -- backed: its requirements ask for exactly this payment, its payer signed it for this network and
  -- this second, and the chain has not used it and, where balances are checked, covers it. Then the
  -- route changes what `settle` changes with the nonce of that authorization. And that is what it
  -- does whenever the request has the key and its body is verified.
  pub handle_settle-Settles :
      (i : Incoming) (w : World)
      → Settles i w (handle_settle s others sending receipt i w).0
        × ((request : Value) (signer : Text) (a : Authorization)
            → authorized s.api_key i ≡ true
            → i.body ≡ some request
            → verified s request ≡ pass (signer, a)
            → (handle_settle s others sending receipt i w).0
              ≡ (settle others signer a.nonce_of sending receipt w).0)
  handle_settle-Settles i w = (refuses_unbacked i w, acts_on_backed i w)
