-- ===== src/Reconciliation/Checker/Verdicts.antt =====
-- What an agreement of RPC providers and a permission to give a payment up rest on
-- (zeus-secretariat/src/core/multi-rpc-checker.ts).
use zeus_insurance_bot.Prelude.{
  ℕ, ◌≡◌, ◌⊎◌, ◌≤◌, refl, inl, inr, Bool, true, false, Option, none, some, List, [], ◌∷◌, Time,
  length, every, All, arith, Bool-cases, Option-cases,
}
use zeus_insurance_bot.Reconciliation.Checker.{
  BlockData, Observation, Agreement, Projection, bool_projection, results_of, agrees_with,
  aggregate, aggregate_results, consensus, RpcProviderConfig, is_allowed, budget_of,
  freshness_refusal, check_freshness, can_declare_not_settled,
}

module _ {ℓ} {A : Type ℓ} (p : Projection A) where
  -- What each agreement says of the results of the providers that answered.
  abbrev pub Means : Agreement → Option A → List A → Type ℓ
  Means Agreement.all_failed v answers = (answers ≡ []) × (v ≡ none)
  Means Agreement.insufficient v answers = (length answers ≡ 1) × (v ≡ none)
  Means Agreement.unanimous v answers =
      (2 ≤ length answers)
      × (a : A) × (b : A) × (v ≡ some b)
      × All (λ x. p.canonical x ≡ p.canonical a) answers
  Means Agreement.disagreement v answers =
      (2 ≤ length answers) × (v ≡ none) × (a : A) × (every (agrees_with p a) answers ≡ false)

  every-same :
      (a : A) (xs : List A)
      → every (agrees_with p a) xs ≡ true
      → All (λ x. p.canonical x ≡ p.canonical a) xs
  every-same a [] h = tt
  every-same a (x ∷ xs) h = (ground arith, every-same a xs (ground arith))

  aggregate-Means :
      (answers : List A) → Means (aggregate p answers).0 (aggregate p answers).1 answers
  unfolding aggregate
  aggregate-Means [] = (refl, refl)
  aggregate-Means (a ∷ []) = (refl, refl)
  aggregate-Means (a ∷ b ∷ rest) = elim (Bool-cases (every (agrees_with p a) (a ∷ b ∷ rest))) [
    | inl all ↦
        rw (all, aggregate)
          (omega arith, a, consensus p a (b ∷ rest), refl, every-same a (a ∷ b ∷ rest) all)
    | inr other ↦ rw (other, aggregate) (omega arith, refl, a, other)
  ]

  -- `aggregateResults` on any observations. ALL_FAILED means that no provider answered and
  -- INSUFFICIENT that one did. UNANIMOUS means that at least two did and that all their results
  -- have one canonical text; only then is there a value. DISAGREEMENT means that at least two
  -- answered and that they have not all the canonical text of one of them.
  pub aggregate_results-Means :
      (os : List (Observation A))
      → let r = aggregate_results p os in Means r.agreement r.unanimous_value (results_of os)
  unfolding aggregate_results
  aggregate_results-Means os = aggregate-Means (results_of os)

All-false :
    (xs : List Bool) → every (agrees_with bool_projection false) xs ≡ true → All (λ b. b ≡ false) xs
All-false [] h = tt
All-false (x ∷ xs) h = (ground arith, All-false xs (ground arith))

unanimous_false :
    (xs : List Bool)
    → (aggregate bool_projection xs).0 ≡ Agreement.unanimous
    → (aggregate bool_projection xs).1 ≡ some false
    → (2 ≤ length xs) × All (λ b. b ≡ false) xs
unfolding aggregate
unanimous_false [] h v = absurd (ground arith)
unanimous_false (a ∷ []) h v = absurd (ground arith)
unanimous_false (true ∷ b ∷ rest) h v = absurd (ground arith)
unanimous_false (false ∷ b ∷ rest) h v = (omega arith, All-false (false ∷ b ∷ rest) (ground arith))

-- A provider that gave no answer, or read `false` with known block numbers, at most as far behind
-- its head as its configuration allows.
abbrev pub IsFreshFalse : List RpcProviderConfig → Observation Bool → Type 0
IsFreshFalse configs o =
    (o.result ≡ none)
    ⊎ ((o.result ≡ some false)
        × (d : BlockData) × (staleness : ℕ) × (budget : ℕ) × (o.block_data ≡ some d)
        × (d.staleness_blocks ≡ some staleness)
        × (budget_of configs o.provider_id ≡ some budget)
        × (staleness ≤ budget))

module _ (configs : List RpcProviderConfig) where
  passes :
      (o : Observation Bool)
      → o.result ≡ some false
      → freshness_refusal configs o ≡ none
      → IsFreshFalse configs o
  passes o read fresh = elim (Option-cases (o.block_data)) [
    | inl e ↦ absurd (ground arith)
    | inr (d, at_d) ↦ elim (Option-cases (d.staleness_blocks)) [
      | inl e ↦ absurd (ground arith)
      | inr (n, at_n) ↦ elim (Option-cases (budget_of configs o.provider_id)) [
        | inl e ↦ absurd (ground arith)
        | inr (b, at_b) ↦ inr (read, d, n, b, at_d, at_n, at_b, ground arith)
      ]
    ]
  ]

  fresh-All :
      (os : List (Observation Bool))
      → All (λ b. b ≡ false) (results_of os)
      → is_allowed (check_freshness configs os) ≡ true
      → All (IsFreshFalse configs) os
  unfolding check_freshness
  fresh-All [] reads ok = tt
  fresh-All (o ∷ os) reads ok = elim (Option-cases (o.result)) [
    | inl silent ↦ (inl silent, fresh-All os (ground arith) (ground arith))
    | inr (b, read) ↦ elim (Option-cases (freshness_refusal configs o)) [
      | inl fresh ↦ (passes o (ground arith) fresh, fresh-All os (ground arith) (ground arith))
      | inr (r, stale) ↦ absurd (ground arith)
    ]
  ]

  -- Whenever `canDeclareNotSettled` allows it on what `aggregateResults` makes of some Boolean
  -- observations, the authorization has expired, at least two providers answered, and every
  -- provider that answered read `false` within the staleness that its configuration allows.
  pub can_declare_not_settled-IsFreshFalse :
      (os : List (Observation Bool)) (valid_before now : Time)
      → is_allowed
          (can_declare_not_settled configs (aggregate_results bool_projection os) valid_before now)
        ≡ true
      → (valid_before ≤ now) × (2 ≤ length (results_of os)) × All (IsFreshFalse configs) os
  unfolding can_declare_not_settled aggregate_results
  can_declare_not_settled-IsFreshFalse os valid_before now ok =
      let (agreement, value) = aggregate bool_projection (results_of os) in
      let at_agreement : agreement ≡ Agreement.unanimous = ground arith in
      let at_value : value ≡ some false = ground arith in
      let (several, reads) = unanimous_false (results_of os) at_agreement at_value in
      (ground arith, several, fresh-All os reads (ground arith))
