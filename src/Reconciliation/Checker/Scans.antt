-- ===== src/Reconciliation/Checker/Scans.antt =====
-- What the outcome of a log scan by several providers rests on
-- (zeus-secretariat/src/core/multi-rpc-checker.ts).
use zeus_insurance_bot.Prelude.{
  ◌≡◌, ◌≢◌, ◌≤◌, Bool, true, false, none, List, [], ◌∷◌, length, keep, every, every-All, All,
  is_some, arith, Bool-cases, inl, inr, ◌==◌,
}
use zeus_insurance_bot.Reconciliation.Checker.{
  ScanObservation, ScanOutcome, incomplete, scan_complete_empty, scan_disagreement, event_found,
  scan_outcome, found_event,
}

module _ {ℓ} {A : Type ℓ} (p : A → Bool) where
  length-keep_le : (xs : List A) → length (keep p xs) ≤ length xs
  unfolding keep
  length-keep_le [] = omega arith
  length-keep_le (x ∷ xs) = ground (arith, length-keep_le xs)

  keep_none : (xs : List A) → length (keep p xs) ≡ 0 → All (λ x. p x ≡ false) xs
  unfolding keep
  keep_none [] h = tt
  keep_none (x ∷ xs) h = (ground arith, keep_none xs (ground arith))

  keep_every : (xs : List A) → length (keep p xs) ≡ length xs → All (λ x. p x ≡ true) xs
  unfolding keep
  keep_every [] h = tt
  keep_every (x ∷ xs) h =
      (ground (arith, length-keep_le xs), keep_every xs (ground (arith, length-keep_le xs)))

-- What the outcome of the log scan says of the providers' observations.
abbrev pub ScanMeans : List ScanObservation → ScanOutcome → Type 0
ScanMeans os incomplete = every (λ o. o.scanned) os ≡ false
ScanMeans os scan_complete_empty = All (λ o. (o.scanned ≡ true) × (o.event ≡ none)) os
ScanMeans os (event_found e) = All (λ o. (o.scanned ≡ true) × (is_some o.event ≡ true)) os
ScanMeans os scan_disagreement =
    All (λ o. o.scanned ≡ true) os
    × (length (keep found_event os) ≢ 0)
    × (length (keep found_event os) ≢ length os)

empties :
    (os : List ScanObservation)
    → All (λ o. o.scanned ≡ true) os
    → All (λ o. found_event o ≡ false) os
    → All (λ o. (o.scanned ≡ true) × (o.event ≡ none)) os
empties [] scanned none_found = tt
empties (o ∷ os) scanned none_found =
    ((ground arith, ground arith), empties os scanned.1 none_found.1)

finds :
    (os : List ScanObservation)
    → All (λ o. found_event o ≡ true) os
    → All (λ o. (o.scanned ≡ true) × (is_some o.event ≡ true)) os
finds [] found = tt
finds (o ∷ os) found = ((ground arith, ground arith), finds os found.1)

-- The outcome of the log scan over any observations. INCOMPLETE means that a provider did not
-- scan; SCAN_COMPLETE_EMPTY that all scanned and none found the event; EVENT_FOUND that all
-- scanned and all found an event; DISAGREEMENT that all scanned and some, not all, found one.
pub scan_outcome-ScanMeans : (os : List ScanObservation) → ScanMeans os (scan_outcome os)
unfolding scan_outcome
scan_outcome-ScanMeans os = elim (Bool-cases (every (λ o. o.scanned) os)) [
  | inr not_all ↦ rw (not_all, scan_outcome) not_all
  | inl all ↦
      let scanned = every-All (λ o. o.scanned) os all in
      elim (Bool-cases (length (keep found_event os) == length os)) [
        | inl full ↦
            rw (all, full, scan_outcome) (finds os (keep_every found_event os (ground arith)))
        | inr partial ↦ elim (Bool-cases (length (keep found_event os) == 0)) [
          | inl zero_found ↦
              rw (all, partial, zero_found, scan_outcome)
                (empties os scanned (keep_none found_event os (ground arith)))
          | inr some_found ↦
              rw (all, partial, some_found, scan_outcome) (scanned, ground arith, ground arith)
        ]
      ]
]
