-- ===== src/Reconciliation/Engine/Outcomes.antt =====
-- What the outcome of `reconcile` rests on, over all its rounds
-- (zeus-secretariat/src/core/reconciliation-engine.ts).
use zeus_insurance_bot.Prelude.{
  ◌≡◌, refl, ℕ, suc, zero, false, Option, none, some, Ident, Bool-cases, inl, inr,
}
use zeus_insurance_bot.Intent.Types.{
  DurablePaymentIntent, ReconciliationOutcome, is_pending_signature, is_terminal_settlement_state,
}
use zeus_insurance_bot.Intent.Store.{EvidenceStore, get_payment_intent_by_id}
use zeus_insurance_bot.Reconciliation.Rounds.{
  Config, Round, Next, finished, with_tx_hash, with_authorization_state,
}
use zeus_insurance_bot.Reconciliation.Engine.{strategy, follow, reconcile}
use zeus_insurance_bot.Reconciliation.Engine.Verdicts.{Backed, BackedNext, strategy-Backed}

-- What the outcome of a chain of rounds says, with the clock of one of the rounds.
abbrev pub Answers :
    Config
    → DurablePaymentIntent
    → (ℕ → Round)
    → EvidenceStore × Option ReconciliationOutcome
    → Type 0
Answers config i rounds (s, none) = Unit
Answers config i rounds (s, some outcome) = (n : ℕ) × Backed config i (rounds n) s outcome

module _ (config : Config) (attempt : Ident) (rounds : ℕ → Round) (i : DurablePaymentIntent) where
  -- One round, and the rest of the chain.
  step-Answers :
      (fuel n : ℕ) (hash : Option Ident) (s : EvidenceStore) (next : Next)
      → (strategy config attempt (rounds n) i hash s).1 ≡ next
      → BackedNext config i (rounds n) (strategy config attempt (rounds n) i hash s)
      → ((h : Option Ident) (t : EvidenceStore)
          → Answers config i rounds (follow config attempt rounds i fuel (suc n) h t))
      → Answers config i rounds (follow config attempt rounds i (suc fuel) n hash s)
  unfolding follow
  step-Answers fuel n hash s (finished outcome) e backed later =
      rw (e, follow) (n, rw (e, BackedNext) at backed)
  step-Answers fuel n hash s (with_tx_hash h) e backed later =
      rw (e, follow) (later (some h) (strategy config attempt (rounds n) i hash s).0)
  step-Answers fuel n hash s with_authorization_state e backed later =
      rw (e, follow) (later none (strategy config attempt (rounds n) i hash s).0)

  pub follow-Answers :
      (fuel n : ℕ) (hash : Option Ident) (s : EvidenceStore)
      → Answers config i rounds (follow config attempt rounds i fuel n hash s)
  unfolding follow
  follow-Answers zero n hash s = tt
  follow-Answers (suc fuel) n hash s =
      step-Answers fuel n hash s (strategy config attempt (rounds n) i hash s).1 refl
        (strategy-Backed config attempt (rounds n) i hash s)
        (λ h t. follow-Answers fuel (suc n) h t)

-- An outcome of `reconcile` for a stored intent without a verdict is backed, however many rounds
-- it takes and whatever other workers do in between. SETTLED comes with the bundle that the store
-- then holds together with the state SETTLED, and the bundle shows a transfer from the authorizer to
-- the payee, in the asset and of at least the value of the intent, with confirmations that are
-- not below what finality asks for: at least as many, or NaN, which passes the test of the code. NOT_SETTLED comes with the state NOT_SETTLED in the store and after the
-- authorization has expired. INCIDENT is not an outcome.
pub reconcile-Answers :
    (config : Config) (attempt : Ident) (rounds : ℕ → Round) (fuel : ℕ) (id : Ident)
    (s : EvidenceStore) (i : DurablePaymentIntent)
    → get_payment_intent_by_id id s ≡ some i
    → is_terminal_settlement_state i.settlement_state ≡ false
    → Answers config i rounds (reconcile config attempt rounds fuel id s)
unfolding reconcile
reconcile-Answers config attempt rounds fuel id s i found open_state =
    elim (Bool-cases (is_pending_signature i.settlement_state)) [
      | inl unsigned ↦ rw (found, unsigned, reconcile) (0, tt)
      | inr signed ↦
          rw (found, signed, open_state, reconcile)
            (follow-Answers config attempt rounds i fuel 0 i.tx_hash s)
    ]
