-- ===== src/Secretariat/Outbox/Persistence.antt =====
-- A flush neither loses nor doubles evidence (zeus-secretariat/src/core/state-machine.ts).
use zeus_insurance_bot.Prelude.{
  ◌≡◌, refl, sym, subst, ◌≤◌, ◌<◌, ℕ, zero, suc, Bool, true, false, Bool-cases, inl, inr, Option,
  some, List, [], ◌∷◌, Ident, All, arith,
}
use zeus_insurance_bot.Evidence.{EvidenceRecord}
use zeus_insurance_bot.Secretariat.Outbox.{
  Outbox, number, sort, occurrences, append_row, pass, attempt, flush_pending_evidence,
  evidence_flush_attempts,
}
use zeus_insurance_bot.Secretariat.Outbox.Passes.{
  pass_cases, append_grows, append-Has, count_append_row,
}

-- The keys of a list of entries, from the given number on, grow.
abbrev pub Grows : ℕ → List (ℕ × EvidenceRecord) → Type 0
Grows n [] = Unit
Grows n ((key, r) ∷ rest) = (n ≤ key) × Grows (suc key) rest

module _ (identity : EvidenceRecord → Ident) where
  -- Every identity has at most one row.
  unfoldable pub Once : List EvidenceRecord → Type 0
  Once rows = (id : Ident) → occurrences identity id rows ≤ 1

  append-Once :
      (r : EvidenceRecord) (rows : List EvidenceRecord)
      → Once rows
      → Once (append_row identity r rows)
  unfolding Once
  append-Once r rows once id = ground (arith, once id, count_append_row identity id r rows)

  pub pass-Once :
      (entries : List (ℕ × EvidenceRecord)) (o : Outbox)
      → Once o.rows
      → Once (pass identity entries o).0.rows
  pass-Once entries o =
      pass_cases identity (λ es p result. Once p.rows → Once result.0.rows) (λ p once. once)
        (λ key r rest p result below ih once. ih once)
        (λ key r rest p answers result above same ih once. ih (append-Once r p.rows once))
        (λ key r rest p t above same fewer rows once. elim rows [
          | inl kept ↦ rw kept once
          | inr grown ↦ rw grown (append-Once r p.rows once)
        ])
        entries o.rows o.cursor o.answers

  abbrev pub Has : EvidenceRecord → List EvidenceRecord → Type 0
  Has r rows = 1 ≤ occurrences identity (identity r) rows

  -- The entries before the cursor have their rows.
  abbrev pub Confirmed : ℕ → List EvidenceRecord → List (ℕ × EvidenceRecord) → Type 0
  Confirmed c rows [] = Unit
  Confirmed c rows ((key, r) ∷ rest) = (key < c → Has r rows) × Confirmed c rows rest

  -- All entries have one row each.
  abbrev pub Stored : List EvidenceRecord → List (ℕ × EvidenceRecord) → Type 0
  Stored rows [] = Unit
  Stored rows ((key, r) ∷ rest) = Has r rows × Stored rows rest

  beyond-Confirmed :
      (n : ℕ) (rows : List EvidenceRecord) (entries : List (ℕ × EvidenceRecord)) (c : ℕ)
      → Grows n entries
      → c ≤ n
      → Confirmed c rows entries
  beyond-Confirmed n rows [] c grows le = tt
  beyond-Confirmed n rows ((key, r) ∷ rest) c (least, grows) le =
      ((λ below. omega arith), beyond-Confirmed (suc key) rows rest c grows (omega arith))

  more-Confirmed :
      (c : ℕ) (rows later : List EvidenceRecord) (entries : List (ℕ × EvidenceRecord))
      → ((id : Ident) → occurrences identity id rows ≤ occurrences identity id later)
      → Confirmed c rows entries
      → Confirmed c later entries
  more-Confirmed c rows later [] more known = tt
  more-Confirmed c rows later ((key, r) ∷ rest) more (has, known) = (
    (λ below. ground (arith, has below, more (identity r))),
    more-Confirmed c rows later rest more known,
  )

  -- What a pass keeps of the rows and adds to them.
  abbrev Keeps : List (ℕ × EvidenceRecord) → List EvidenceRecord → Outbox × Bool → Type 0
  Keeps entries rows (t, failed) =
      ((id : Ident) → occurrences identity id rows ≤ occurrences identity id t.rows)
      × (Confirmed t.cursor t.rows entries × (failed ≡ false → Stored t.rows entries))

  pass-Keeps :
      (entries : List (ℕ × EvidenceRecord)) (o : Outbox) (n : ℕ)
      → Grows n entries
      → Confirmed o.cursor o.rows entries
      → Keeps entries o.rows (pass identity entries o)
  pass-Keeps entries o =
      pass_cases identity
        (λ es p result.
          (n : ℕ) → Grows n es → Confirmed p.cursor p.rows es → Keeps es p.rows result)
        (λ p n grows known. ((λ id. omega arith), (tt, λ fine. tt)))
        (λ key r rest p result below ih n grows known.
          let has = known.0 (ground (arith, below)) in
          let (more, (later, full)) = ih (suc key) grows.1 known.1 in
          (
            more,
            (
              ((λ before. ground (arith, has, more (identity r))), later),
              λ fine. (ground (arith, has, more (identity r)), full fine),
            ),
          ))
        (λ key r rest p answers result above same ih n grows known.
          let (more, (later, full)) = ih (suc key) grows.1 (
            beyond-Confirmed (suc key) (append_row identity r p.rows) rest (suc key) grows.1
              (omega arith)) in
          let has : Has r result.0.rows =
            ground (arith, append-Has identity r p.rows, more (identity r)) in
          (
            (λ id. ground (arith, more id, append_grows identity id r p.rows)),
            (((λ before. has), later), λ fine. (has, full fine)),
          ))
        (λ key r rest p t above same fewer rows n grows known.
          let more : (id : Ident)
              → occurrences identity id p.rows ≤ occurrences identity id t.rows =
            λ id. ground (arith, rows, append_grows identity id r p.rows) in
          (
            more,
            (
              subst (λ c. Confirmed c t.rows ((key, r) ∷ rest)) (sym same)
                  (more-Confirmed p.cursor p.rows t.rows ((key, r) ∷ rest) more known),
              λ fine. ground arith,
            ),
          ))
        entries o.rows o.cursor o.answers

  -- What the attempts keep.
  abbrev Holds : List (ℕ × EvidenceRecord) → Outbox × Bool → Type 0
  Holds entries (t, done) =
      Once t.rows × (Confirmed t.cursor t.rows entries × (done ≡ true → Stored t.rows entries))

  attempt-Holds :
      (k : ℕ) (entries : List (ℕ × EvidenceRecord)) (o : Outbox) (n : ℕ)
      → Grows n entries
      → Once o.rows
      → Confirmed o.cursor o.rows entries
      → Holds entries (attempt identity k entries o)
  unfolding attempt
  attempt-Holds zero entries o n grows once known = (once, (known, λ done. ground arith))
  attempt-Holds (suc k) entries o n grows once known =
      let (more, (later, full)) = pass-Keeps entries o n grows known in
      let kept = pass-Once entries o once in
      elim (Bool-cases (pass identity entries o).1) [
        | inl failed ↦
            rw (failed, attempt)
              (attempt-Holds k entries (pass identity entries o).0 n grows kept later)
        | inr fine ↦ rw (fine, attempt) (kept, (later, λ done. full fine))
      ]

-- Every record has the number of its place, as `recordEvidence` gives it.
abbrev pub Sequenced : ℕ → List EvidenceRecord → Type 0
Sequenced n [] = Unit
Sequenced n (r ∷ rs) = (r.sequence ≡ some n) × Sequenced (suc n) rs

number-Grows : (n : ℕ) (rs : List EvidenceRecord) → Sequenced n rs → Grows n (number n rs)
number-Grows n [] given = tt
number-Grows n (r ∷ rs) (at_n, given) = rw at_n (omega arith, number-Grows (suc n) rs given)

sort-number : (n : ℕ) (rs : List EvidenceRecord) → Sequenced n rs → sort (number n rs) ≡ number n rs
sort-number n [] given = refl
sort-number n (r ∷ []) given = refl
sort-number n (r ∷ q ∷ rs) (at_n, (next, given)) =
    rw (sort-number (suc n) (q ∷ rs) (next, given), at_n, next) (ground arith)

module _ (identity : EvidenceRecord → Ident) where
  Stored-All :
      (rows : List EvidenceRecord) (n : ℕ) (rs : List EvidenceRecord)
      → Once identity rows
      → Stored identity rows (number n rs)
      → All (λ r. occurrences identity (identity r) rows ≡ 1) rs
  unfolding Once
  Stored-All rows n [] once full = tt
  Stored-All rows n (r ∷ rs) once (has, full) =
      (ground (arith, has, once (identity r)), Stored-All rows (suc n) rs once full)

  -- A flush, whatever calls of `append` fail and whether or not a failed call wrote its row, leaves
  -- no identity with two rows and every record before the cursor with its row; and if it is
  -- confirmed, every record of the operation has exactly one row. This holds if the records are
  -- numbered in their order and if it held of the rows and the cursor before.
  pub flush_pending_evidence-Once :
      (retries : Option ℕ) (evidence : List EvidenceRecord) (o : Outbox)
      → Sequenced 0 evidence
      → Once identity o.rows
      → Confirmed identity o.cursor o.rows (number 0 evidence)
      → let (t, done) = flush_pending_evidence identity retries evidence o in
        Once identity t.rows
        × Confirmed identity t.cursor t.rows (number 0 evidence)
        × (done ≡ true → All (λ r. occurrences identity (identity r) t.rows ≡ 1) evidence)
  unfolding flush_pending_evidence
  flush_pending_evidence-Once retries evidence o given once known =
      let (kept, (later, full)) =
        attempt-Holds identity (evidence_flush_attempts retries) (number 0 evidence) o 0
          (number-Grows 0 evidence given) once known in
      rw (sort-number 0 evidence given)
        (kept, later, λ done. Stored-All _ 0 evidence kept (full done))
