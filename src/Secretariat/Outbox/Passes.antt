-- ===== src/Secretariat/Outbox/Passes.antt =====
-- Rows under repeated appends, and the cases of a pass
-- (zeus-secretariat/src/core/state-machine.ts).
use zeus_insurance_bot.Prelude.{
  ◌≡◌, refl, ◌≤◌, ℕ, suc, Bool, true, false, Bool-cases, inl, inr, ◌⊎◌, List, [], ◌∷◌, ◌++◌, Ident,
  ltb, ◌==◌, arith, if◌then◌else◌,
}
use zeus_insurance_bot.Evidence.{EvidenceRecord}
use zeus_insurance_bot.Secretariat.Outbox.{
  Answer, confirmed, lost, unclear, Outbox, occurrences, append_row, pass,
}

module _ (identity : EvidenceRecord → Ident) where
  count_append :
      (id : Ident) (r : EvidenceRecord) (rows : List EvidenceRecord)
      → occurrences identity id (rows ++ r ∷ []) ≡ (
          if identity r == id
          then suc (occurrences identity id rows)
          else occurrences identity id rows)
  count_append id r [] = ground arith
  count_append id r (q ∷ rows) = ground (arith, count_append id r rows)

  -- What an append does to the number of rows of an identity.
  pub count_append_row :
      (id : Ident) (r : EvidenceRecord) (rows : List EvidenceRecord)
      → occurrences identity id (append_row identity r rows) ≡ (
          if (identity r == id)
          then (if ltb 0 (occurrences identity id rows) then occurrences identity id rows else 1)
          else occurrences identity id rows)
  unfolding append_row
  count_append_row id r rows = ground (arith, count_append id r rows)

  pub append_grows :
      (id : Ident) (r : EvidenceRecord) (rows : List EvidenceRecord)
      → occurrences identity id rows ≤ occurrences identity id (append_row identity r rows)
  append_grows id r rows = ground (arith, count_append_row id r rows)

  pub append-Has :
      (r : EvidenceRecord) (rows : List EvidenceRecord)
      → 1 ≤ occurrences identity (identity r) (append_row identity r rows)
  append-Has r rows = ground (arith, count_append_row (identity r) r rows)

  -- The calls of `append` whose answer is an error.
  abbrev pub failing : List Answer → ℕ
  failing [] = 0
  failing (confirmed ∷ more) = failing more
  failing (lost ∷ more) = suc (failing more)
  failing (unclear ∷ more) = suc (failing more)

  -- To prove something of a pass: of no entry, of one before the cursor, of a confirmed one, and of
  -- one that fails.
  pub pass_cases :
      (M : List (ℕ × EvidenceRecord) → Outbox → Outbox × Bool → Type 0)
      → ((o : Outbox) → M [] o (o, false))
      → ((key : ℕ) (r : EvidenceRecord) (rest : List (ℕ × EvidenceRecord)) (o : Outbox)
            (result : Outbox × Bool)
          → ltb key o.cursor ≡ true
          → M rest o result
          → M ((key, r) ∷ rest) o result)
      → ((key : ℕ) (r : EvidenceRecord) (rest : List (ℕ × EvidenceRecord)) (o : Outbox)
            (answers : List Answer) (result : Outbox × Bool)
          → ltb key o.cursor ≡ false
          → failing answers ≡ failing o.answers
          → M rest
              (record { rows = append_row identity r o.rows; cursor = suc key; answers = answers })
              result
          → M ((key, r) ∷ rest) o result)
      → ((key : ℕ) (r : EvidenceRecord) (rest : List (ℕ × EvidenceRecord)) (o t : Outbox)
          → ltb key o.cursor ≡ false
          → t.cursor ≡ o.cursor
          → suc (failing t.answers) ≡ failing o.answers
          → (t.rows ≡ o.rows) ⊎ (t.rows ≡ append_row identity r o.rows)
          → M ((key, r) ∷ rest) o (t, true))
      → (entries : List (ℕ × EvidenceRecord)) (rows : List EvidenceRecord) (c : ℕ)
        (answers : List Answer)
      → M entries
          (record { rows = rows; cursor = c; answers = answers })
          (pass identity entries (record { rows = rows; cursor = c; answers = answers }))
  unfolding pass
  pass_cases M none_left skips goes stops [] rows c answers = none_left _
  pass_cases M none_left skips goes stops ((key, r) ∷ rest) rows c answers =
      elim (Bool-cases (ltb key c)) [
        | inl below ↦
            rw (below, pass)
              (skips key r rest _ _ below
                (pass_cases M none_left skips goes stops rest rows c answers))
        | inr above ↦
            at_answer answers above
              (pass_cases M none_left skips goes stops rest (append_row identity r rows) (suc key))
      ]
    where
      at_answer :
          (given : List Answer)
          → ltb key c ≡ false
          → ((more : List Answer)
              → let o : Outbox = record {
                rows = append_row identity r rows;
                cursor = suc key;
                answers = more;
              } in
                M rest o (pass identity rest o))
          → M
              ((key, r) ∷ rest)
              (record { rows = rows; cursor = c; answers = given })
              (pass identity
                ((key, r) ∷ rest)
                (record { rows = rows; cursor = c; answers = given }))
      at_answer [] above later = rw (above, pass) (goes key r rest _ [] _ above refl (later []))
      at_answer (confirmed ∷ more) above later =
          rw (above, pass) (goes key r rest _ more _ above refl (later more))
      at_answer (lost ∷ more) above later =
          rw (above, pass) (stops key r rest _ _ above refl refl (inl refl))
      at_answer (unclear ∷ more) above later =
          rw (above, pass) (stops key r rest _ _ above refl refl (inr refl))
