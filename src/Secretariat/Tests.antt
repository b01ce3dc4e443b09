-- ===== src/Secretariat/Tests.antt =====
-- The theorems on the evidence outbox at a sample of two records.
use zeus_insurance_bot.Prelude.{
  ◌≡◌, refl, ℕ, suc, true, none, some, List, [], ◌∷◌, Ident, All, arith,
}
use zeus_insurance_bot.Evidence.{EvidenceRecord, EvidencePhase, execution_success}
use zeus_insurance_bot.Secretariat.Outbox.{
  Outbox, lost, unclear, confirmed, number, occurrences, flush_pending_evidence,
}
use zeus_insurance_bot.Secretariat.Outbox.Persistence.{Once, Confirmed, flush_pending_evidence-Once}
use zeus_insurance_bot.Secretariat.Outbox.Progress.{flush_pending_evidence_succeeds}

abbrev sample_record : ℕ → EvidenceRecord
sample_record n = record {
  operation_id = 7;
  phase = EvidencePhase.execution;
  timestamp = 50;
  event = execution_success 20 200;
  sequence = some n;
}

abbrev identity : EvidenceRecord → Ident
identity r = elim (r.sequence) [ none ↦ 0 | some n ↦ suc n ]

abbrev evidence : List EvidenceRecord
evidence = sample_record 0 ∷ sample_record 1 ∷ []

-- The first row is written by a call that throws, the second is lost once.
abbrev outbox : Outbox
outbox = record { rows = []; cursor = 0; answers = unclear ∷ confirmed ∷ lost ∷ [] }

empty-Once : Once identity []
unfolding Once
empty-Once id = omega arith

flush_pending_evidence-Once_example :
    let (t, done) = flush_pending_evidence identity none evidence outbox in
    Once identity t.rows
    × Confirmed identity t.cursor t.rows (number 0 evidence)
    × (done ≡ true → All (λ r. occurrences identity (identity r) t.rows ≡ 1) evidence)
flush_pending_evidence-Once_example =
    flush_pending_evidence-Once identity none evidence outbox (refl, (refl, tt)) empty-Once
      ((λ below. omega arith), ((λ below. omega arith), tt))

flush_pending_evidence_succeeds_example :
    (flush_pending_evidence identity none evidence outbox).1 ≡ true
flush_pending_evidence_succeeds_example =
    flush_pending_evidence_succeeds identity none evidence outbox (omega arith)
