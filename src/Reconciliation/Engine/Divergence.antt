-- ===== src/Reconciliation/Engine/Divergence.antt =====
-- When `reconcile` does not end (zeus-secretariat/src/core/reconciliation-engine.ts).
use zeus_insurance_bot.Prelude.{
  ◌≡◌, ◌≤◌, refl, ℕ, suc, zero, true, false, Option, none, some, Ident, Option-cases, is_some,
  arith, inl, inr,
}
use zeus_insurance_bot.Intent.Types.{DurablePaymentIntent}
use zeus_insurance_bot.Intent.Store.{EvidenceStore}
use zeus_insurance_bot.Reconciliation.Checker.{aggregate_results, bool_projection}
use zeus_insurance_bot.Reconciliation.Transaction.{transaction_projection}
use zeus_insurance_bot.Reconciliation.Rounds.{
  Config, Round, Next, finished, with_tx_hash, with_authorization_state, seconds, event_projection,
  persist_all, observed,
}
use zeus_insurance_bot.Reconciliation.ByHash.{reconcile_by_tx_hash, settle_transaction}
use zeus_insurance_bot.Reconciliation.ByState.{reconcile_by_authorization_state, recover_tx_hash}
use zeus_insurance_bot.Reconciliation.Engine.{strategy, follow}
use zeus_insurance_bot.Reconciliation.Engine.Termination.{misses, is_finished}
use zeus_insurance_bot.Reconciliation.Rounds.{observation, state_verdict}

-- The providers agree that the authorization is used, and on the event that used it, but also that
-- the transaction of the event is missing.
abbrev pub Contradicts : Config → DurablePaymentIntent → Round → Type 0
Contradicts config i r =
    (i.valid_before ≤ seconds r)
    × ((h : Ident) (s : EvidenceStore) → misses config r h s ≡ true)
    × ((s : EvidenceStore)
        → (aggregate_results bool_projection
            (r.authorization_state i.asset i.authorizer i.nonce s).1).unanimous_value
          ≡ some true)
    × ((s : EvidenceStore)
        → is_some
            (aggregate_results (event_projection config.event_json)
              (r.authorization_used i.asset i.authorizer i.nonce s).1).unanimous_value
          ≡ true)

module _ (config : Config) (attempt : Ident) (i : DurablePaymentIntent) where
  recover_tx_hash-goes_on :
      (r : Round) (s : EvidenceStore)
      → Contradicts config i r
      → is_finished (recover_tx_hash config attempt r i s).1 ≡ false
  unfolding recover_tx_hash
  recover_tx_hash-goes_on r s (expired, missing, used, event) = ground (arith, event s)

  state-goes_on :
      (r : Round) (s : EvidenceStore)
      → Contradicts config i r
      → is_finished (reconcile_by_authorization_state config attempt r i s).1 ≡ false
  unfolding reconcile_by_authorization_state
  state-goes_on r s (expired, missing, used, event) =
      let (t, os) = r.authorization_state i.asset i.authorizer i.nonce s in
      let u =
        persist_all (observed (observation attempt i state_verdict (λ b. some b) (λ b. 0)) os) t in
      rw (used s, reconcile_by_authorization_state)
        (recover_tx_hash-goes_on r u (expired, missing, used, event))

  tx-goes_on :
      (r : Round) (h : Ident) (s : EvidenceStore)
      → Contradicts config i r
      → is_finished (reconcile_by_tx_hash config attempt r i h s).1 ≡ false
  unfolding reconcile_by_tx_hash settle_transaction
  tx-goes_on r h s (expired, missing, used, event) =
      let (t, os) = r.transaction h s in
      elim (Option-cases
        ((aggregate_results (transaction_projection config.transaction_json) os).unanimous_value)) [
          | inl unknown ↦ absurd (ground (arith, missing h s))
          | inr (tx, agreed) ↦ rw (agreed, reconcile_by_tx_hash) (ground (arith, missing h s))
        ]

  strategy-goes_on :
      (r : Round) (hash : Option Ident) (s : EvidenceStore)
      → Contradicts config i r
      → is_finished (strategy config attempt r i hash s).1 ≡ false
  strategy-goes_on r none s against = state-goes_on r s against
  strategy-goes_on r (some h) s against = tx-goes_on r h s against

  round-goes_on :
      (rounds : ℕ → Round) (fuel n : ℕ) (hash : Option Ident) (s : EvidenceStore) (next : Next)
      → (strategy config attempt (rounds n) i hash s).1 ≡ next
      → is_finished next ≡ false
      → ((h : Option Ident) (t : EvidenceStore)
          → (follow config attempt rounds i fuel (suc n) h t).1 ≡ none)
      → (follow config attempt rounds i (suc fuel) n hash s).1 ≡ none
  unfolding follow
  round-goes_on rounds fuel n hash s (finished o) e f later = absurd (ground arith)
  round-goes_on rounds fuel n hash s (with_tx_hash h) e f later =
      rw (e, follow) (later (some h) (strategy config attempt (rounds n) i hash s).0)
  round-goes_on rounds fuel n hash s with_authorization_state e f later =
      rw (e, follow) (later none (strategy config attempt (rounds n) i hash s).0)

-- The two strategies call each other for ever if the authorization has expired and the providers
-- agree, in every round, that it is used and on the event that used it, but also that the
-- transaction of that event is missing: no number of rounds leads to an outcome.
pub follow-diverges :
    (config : Config) (attempt : Ident) (rounds : ℕ → Round) (i : DurablePaymentIntent) (fuel n : ℕ)
    (hash : Option Ident) (s : EvidenceStore)
    → ((m : ℕ) → Contradicts config i (rounds m))
    → (follow config attempt rounds i fuel n hash s).1 ≡ none
unfolding follow
follow-diverges config attempt rounds i zero n hash s against = refl
follow-diverges config attempt rounds i (suc fuel) n hash s against =
    round-goes_on config attempt i rounds fuel n hash s
      (strategy config attempt (rounds n) i hash s).1 refl
      (strategy-goes_on config attempt i (rounds n) hash s (against n))
      (λ h t. follow-diverges config attempt rounds i fuel (suc n) h t against)
