-- ===== src/Secretariat/Outbox/Progress.antt =====
-- A flush ends confirmed (zeus-secretariat/src/core/state-machine.ts).
use zeus_insurance_bot.Prelude.{
  ◌≡◌, refl, ap, ◌<◌, ℕ, zero, suc, Bool, true, false, Option, List, Ident, arith,
}
use zeus_insurance_bot.Evidence.{EvidenceRecord}
use zeus_insurance_bot.Secretariat.Outbox.{
  Outbox, number, sort, pass, append_row, attempt, flush_pending_evidence, evidence_flush_attempts,
}
use zeus_insurance_bot.Secretariat.Outbox.Passes.{failing, pass_cases}

module _ (identity : EvidenceRecord → Ident) where
  -- A pass that fails uses up one error, and another pass none.
  abbrev Spends : Outbox → Outbox × Bool → Type 0
  Spends o (t, true) = suc (failing identity t.answers) ≡ failing identity o.answers
  Spends o (t, false) = failing identity t.answers ≡ failing identity o.answers

  spend_after :
      (o p : Outbox) (result : Outbox × Bool)
      → failing identity p.answers ≡ failing identity o.answers
      → Spends p result
      → Spends o result
  spend_after o p (t, true) same spent = ground (arith, same, spent)
  spend_after o p (t, false) same spent = ground (arith, same, spent)

  pass-Spends :
      (entries : List (ℕ × EvidenceRecord)) (o : Outbox) → Spends o (pass identity entries o)
  pass-Spends entries o =
      pass_cases identity (λ es p result. Spends p result) (λ p. refl)
        (λ key r rest p result below ih. ih)
        (λ key r rest p answers result above same ih.
          spend_after p
            (record { rows = append_row identity r p.rows; cursor = suc key; answers = answers })
            result same ih)
        (λ key r rest p t above same fewer rows. fewer) entries o.rows o.cursor o.answers

  attempt_succeeds :
      (k : ℕ) (entries : List (ℕ × EvidenceRecord)) (o : Outbox)
      → failing identity o.answers < k
      → (attempt identity k entries o).1 ≡ true
  unfolding attempt
  attempt_succeeds zero entries o few = ground arith
  attempt_succeeds (suc k) entries o few =
      at_result (pass identity entries o) refl (pass-Spends entries o) (attempt_succeeds k entries)
    where
      at_result :
          (result : Outbox × Bool)
          → pass identity entries o ≡ result
          → Spends o result
          → ((t : Outbox)
              → failing identity t.answers < k
              → (attempt identity k entries t).1 ≡ true)
          → (attempt identity (suc k) entries o).1 ≡ true
      at_result (t, true) e spent later =
          rw (ap (λ p. p.1) e, attempt) (later (pass identity entries o).0 (rw e (omega arith)))
      at_result (t, false) e spent later = rw (ap (λ p. p.1) e, attempt) refl

  -- A flush is confirmed whenever fewer of the calls of `append` fail than it has attempts.
  pub flush_pending_evidence_succeeds :
      (retries : Option ℕ) (evidence : List EvidenceRecord) (o : Outbox)
      → failing identity o.answers < evidence_flush_attempts retries
      → (flush_pending_evidence identity retries evidence o).1 ≡ true
  unfolding flush_pending_evidence
  flush_pending_evidence_succeeds retries evidence o few =
      attempt_succeeds (evidence_flush_attempts retries) (sort (number 0 evidence)) o few
