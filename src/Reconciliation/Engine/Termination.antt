-- ===== src/Reconciliation/Engine/Termination.antt =====
-- When `reconcile` ends (zeus-secretariat/src/core/reconciliation-engine.ts).
use zeus_insurance_bot.Prelude.{
  ◌≡◌, refl, ℕ, suc, Bool, true, false, not, Option, none, some, Ident, Option-cases, is_some,
  arith, inl, inr, List,
}
use zeus_insurance_bot.Intent.Types.{DurablePaymentIntent}
use zeus_insurance_bot.Intent.Store.{EvidenceStore, get_payment_intent_by_id}
use zeus_insurance_bot.Reconciliation.Checker.{Observation, aggregate_results}
use zeus_insurance_bot.Reconciliation.Transaction.{
  TransactionCheckResult, Log, transaction_projection,
}
use zeus_insurance_bot.Reconciliation.Rounds.{
  Config, Round, Next, finished, with_tx_hash, with_authorization_state, persist_all, observed,
  transaction_observation,
}
use zeus_insurance_bot.Reconciliation.ByHash.{
  with_agreed, reconcile_by_tx_hash, settle_transaction, settle_by_logs, settle_revert,
  commit_settled,
}
use zeus_insurance_bot.Reconciliation.ByState.{
  reconcile_by_authorization_state, recover_tx_hash, scan_unused, commit_not_settled,
}
use zeus_insurance_bot.Reconciliation.Engine.{follow, reconcile}

-- The providers agree that the transaction is not on the chain.
abbrev pub misses_in : Option TransactionCheckResult → Bool
misses_in none = false
misses_in (some t) = not t.found

abbrev pub misses : Config → Round → Ident → EvidenceStore → Bool
misses config r hash s =
    misses_in
      (aggregate_results (transaction_projection config.transaction_json)
        (r.transaction hash s).1).unanimous_value

abbrev pub is_finished : Next → Bool
is_finished (finished o) = true
is_finished (with_tx_hash h) = false
is_finished with_authorization_state = false

module _ (config : Config) (attempt : Ident) (i : DurablePaymentIntent) where
  settle_by_logs-finishes :
      (r : Round) (hash : Ident) (tx : TransactionCheckResult)
      (os : List (Observation TransactionCheckResult)) (logs : List Log) (s : EvidenceStore)
      → is_finished (settle_by_logs config attempt r i hash tx os logs s).1 ≡ true
  unfolding settle_by_logs commit_settled
  settle_by_logs-finishes r hash tx os logs s = ground arith

  settle_transaction-finishes :
      (r : Round) (hash : Ident) (tx : TransactionCheckResult)
      (os : List (Observation TransactionCheckResult)) (s : EvidenceStore)
      → tx.found ≡ true
      → is_finished (settle_transaction config attempt r i hash tx os s).1 ≡ true
  unfolding settle_transaction settle_revert
  settle_transaction-finishes r hash tx os s found = elim (Option-cases (tx.logs)) [
    | inl missing ↦ ground arith
    | inr (logs, there) ↦ ground (arith, settle_by_logs-finishes r hash tx os logs s)
  ]

  reconcile_by_tx_hash-finishes :
      (r : Round) (hash : Ident) (s : EvidenceStore)
      → misses config r hash s ≡ false
      → is_finished (reconcile_by_tx_hash config attempt r i hash s).1 ≡ true
  unfolding reconcile_by_tx_hash
  reconcile_by_tx_hash-finishes r hash s known =
      let (t, os) = r.transaction hash s in
      let u = persist_all (observed (transaction_observation attempt i false) os) t in
      elim (Option-cases
        ((aggregate_results (transaction_projection config.transaction_json) os).unanimous_value)) [
          | inl unknown ↦ rw (unknown, reconcile_by_tx_hash) refl
          | inr (tx, agreed) ↦
              rw (agreed, reconcile_by_tx_hash)
                (settle_transaction-finishes r hash tx (with_agreed tx os) u (ground arith))
        ]

  -- The authorization state leads to an outcome or to a transaction.
  leads_on : Next → Bool
  leads_on (finished o) = true
  leads_on (with_tx_hash h) = true
  leads_on with_authorization_state = false

  reconcile_by_authorization_state-leads_on :
      (r : Round) (s : EvidenceStore)
      → leads_on (reconcile_by_authorization_state config attempt r i s).1 ≡ true
  unfolding leads_on reconcile_by_authorization_state recover_tx_hash scan_unused commit_not_settled
  reconcile_by_authorization_state-leads_on r s = ground arith

  module _ (rounds : ℕ → Round) where
    tx_round :
        (fuel n : ℕ) (hash : Ident) (s : EvidenceStore) (next : Next)
        → (reconcile_by_tx_hash config attempt (rounds n) i hash s).1 ≡ next
        → is_finished next ≡ true
        → is_some (follow config attempt rounds i (suc fuel) n (some hash) s).1 ≡ true
    unfolding follow
    tx_round fuel n hash s (finished o) e f = rw (e, follow) refl
    tx_round fuel n hash s (with_tx_hash h) e f = absurd (ground arith)
    tx_round fuel n hash s with_authorization_state e f = absurd (ground arith)

    state_round :
        (fuel n : ℕ) (s : EvidenceStore) (next : Next)
        → (reconcile_by_authorization_state config attempt (rounds n) i s).1 ≡ next
        → leads_on next ≡ true
        → ((h : Ident) (t : EvidenceStore)
            → is_some (follow config attempt rounds i fuel (suc n) (some h) t).1 ≡ true)
        → is_some (follow config attempt rounds i (suc fuel) n none s).1 ≡ true
    unfolding follow leads_on
    state_round fuel n s (finished o) e f later = rw (e, follow) refl
    state_round fuel n s (with_tx_hash h) e f later =
        rw (e, follow) (later h (reconcile_by_authorization_state config attempt (rounds n) i s).0)
    state_round fuel n s with_authorization_state e f later = absurd (ground arith)

    follow-finishes :
        (fuel n : ℕ) (hash : Option Ident) (s : EvidenceStore)
        → ((m : ℕ) (h : Ident) (t : EvidenceStore) → misses config (rounds m) h t ≡ false)
        → is_some (follow config attempt rounds i (suc (suc fuel)) n hash s).1 ≡ true
    follow-finishes fuel n (some h) s known =
        tx_round (suc fuel) n h s (reconcile_by_tx_hash config attempt (rounds n) i h s).1 refl
          (reconcile_by_tx_hash-finishes (rounds n) h s (known n h s))
    follow-finishes fuel n none s known =
        state_round (suc fuel) n s
          (reconcile_by_authorization_state config attempt (rounds n) i s).1 refl
          (reconcile_by_authorization_state-leads_on (rounds n) s)
          (λ h t.
            tx_round fuel (suc n) h t (reconcile_by_tx_hash config attempt (rounds (suc n)) i h t).1
              refl (reconcile_by_tx_hash-finishes (rounds (suc n)) h t (known (suc n) h t)))

-- If the providers never agree that a transaction which they are asked for is missing, `reconcile`
-- ends with an outcome after at most two rounds, on any store.
pub reconcile-ends :
    (config : Config) (attempt : Ident) (rounds : ℕ → Round) (fuel : ℕ) (id : Ident)
    (s : EvidenceStore)
    → ((n : ℕ) (h : Ident) (t : EvidenceStore) → misses config (rounds n) h t ≡ false)
    → is_some (reconcile config attempt rounds (suc (suc fuel)) id s).1 ≡ true
unfolding reconcile
reconcile-ends config attempt rounds fuel id s known =
    elim (Option-cases (get_payment_intent_by_id id s)) [
      | inl missing ↦ ground arith
      | inr (i, found) ↦
          ground (arith, follow-finishes config attempt i rounds fuel 0 i.tx_hash s known)
    ]
