-- ===== src/Reconciliation/Engine/Interference.antt =====
-- What `reconcile` and the workers beside it do to the intents
-- (zeus-secretariat/src/core/reconciliation-engine.ts).
use zeus_insurance_bot.Prelude.{
  ◌≡◌, refl, ℕ, suc, zero, Option, none, some, Ident, Option-cases, lookup, arith, inl, inr,
}
use zeus_insurance_bot.Intent.Types.{DurablePaymentIntent}
use zeus_insurance_bot.Intent.Store.{EvidenceStore, get_payment_intent_by_id}
use zeus_insurance_bot.Intent.Store.Runs.{
  IsRun, IsRun-refl, IsRun-trans, IsRun-Holds, IsRun-IsUnique,
}
use zeus_insurance_bot.Intent.Store.Guards.{Holds}
use zeus_insurance_bot.Intent.Store.Unique.{IsUnique}
use zeus_insurance_bot.Reconciliation.Rounds.{
  Config, Round, Next, finished, with_tx_hash, with_authorization_state,
}
use zeus_insurance_bot.Reconciliation.Engine.{strategy, follow, reconcile}
use zeus_insurance_bot.Reconciliation.Engine.Runs.{IsGuarded, strategy-IsRun}

module _ (config : Config) (attempt : Ident) (rounds : ℕ → Round) (i : DurablePaymentIntent) where
  round-IsRun :
      (fuel n : ℕ) (hash : Option Ident) (s : EvidenceStore) (next : Next)
      → (strategy config attempt (rounds n) i hash s).1 ≡ next
      → IsRun s (strategy config attempt (rounds n) i hash s).0
      → ((h : Option Ident) (t : EvidenceStore)
          → IsRun t (follow config attempt rounds i fuel (suc n) h t).0)
      → IsRun s (follow config attempt rounds i (suc fuel) n hash s).0
  unfolding follow
  round-IsRun fuel n hash s (finished o) e first later = rw (e, follow) first
  round-IsRun fuel n hash s (with_tx_hash h) e first later =
      let t = (strategy config attempt (rounds n) i hash s).0 in
      rw (e, follow) (IsRun-trans s t _ first (later (some h) t))
  round-IsRun fuel n hash s with_authorization_state e first later =
      let t = (strategy config attempt (rounds n) i hash s).0 in
      rw (e, follow) (IsRun-trans s t _ first (later none t))

  follow-IsRun :
      (fuel n : ℕ) (hash : Option Ident) (s : EvidenceStore)
      → ((m : ℕ) → IsGuarded (rounds m))
      → IsRun s (follow config attempt rounds i fuel n hash s).0
  unfolding follow
  follow-IsRun zero n hash s calm = IsRun-refl s
  follow-IsRun (suc fuel) n hash s calm =
      round-IsRun fuel n hash s (strategy config attempt (rounds n) i hash s).1 refl
        (strategy-IsRun config attempt (rounds n) i hash s (calm n))
        (λ h t. follow-IsRun fuel (suc n) h t calm)

pub reconcile-IsRun :
    (config : Config) (attempt : Ident) (rounds : ℕ → Round) (fuel : ℕ) (id : Ident)
    (s : EvidenceStore)
    → ((m : ℕ) → IsGuarded (rounds m))
    → IsRun s (reconcile config attempt rounds fuel id s).0
unfolding reconcile
reconcile-IsRun config attempt rounds fuel id s calm =
    elim (Option-cases (get_payment_intent_by_id id s)) [
      | inl missing ↦ ground (arith, IsRun-refl s)
      | inr (i, found) ↦
          ground (arith, IsRun-refl s, follow-IsRun config attempt rounds i fuel 0 i.tx_hash s calm)
    ]

-- If the workers that run while the providers are asked make guarded calls only, then over a whole
-- `reconcile`, with any number of rounds, no intent is removed, none changes its operation,
-- parties, amount or nonce, one with a verdict keeps it with its payload hash and transaction hash,
-- and no two intents are for one operation if no two were.
pub reconcile-Holds :
    (config : Config) (attempt : Ident) (rounds : ℕ → Round) (fuel : ℕ) (id other : Ident)
    (s : EvidenceStore)
    → ((m : ℕ) → IsGuarded (rounds m))
    → IsUnique s
    → let t = (reconcile config attempt rounds fuel id s).0 in
      Holds (lookup other s.intents) (lookup other t.intents) × IsUnique t
reconcile-Holds config attempt rounds fuel id other s calm unique =
    let t = (reconcile config attempt rounds fuel id s).0 in
    let ran = reconcile-IsRun config attempt rounds fuel id s calm in
    (IsRun-Holds s t other ran, IsRun-IsUnique s t ran unique)
