-- ===== src/Secretariat/Outbox.antt =====
-- The evidence outbox of `Secretariat`: `flushPendingEvidence` and its helpers
-- (zeus-secretariat/src/core/state-machine.ts), with the idempotent `append` of
-- `PostgresEvidenceStore` (lib/db/src/secretariat/postgres-store.ts) on the rows of one operation.
pub mod Passes
pub mod Persistence
pub mod Progress
use zeus_insurance_bot.Prelude.{
  ℕ, zero, suc, Bool, true, false, ◌&&◌, ◌||◌, Option, none, some, List, [], ◌∷◌, ◌++◌, Ident, Time,
  get_or, length, ltb, ◌==◌, min, max, if◌then◌else◌,
}
use zeus_insurance_bot.Evidence.{Event, EvidenceRecord, EvidencePhase}
use zeus_insurance_bot.Operation.Defs.{Operation}

-- How a call of `append` ends: it returns; it throws and wrote nothing; or it throws although the
-- row was written.
pub data Answer : Type 0 where
  confirmed lost unclear : Answer

-- The rows of the operation, `persistedEvidenceCount`, and the answers to the coming calls; after
-- them every call is confirmed.
pub record Outbox : Type 0 where
  pub rows : List EvidenceRecord
  pub cursor : ℕ
  pub answers : List Answer

-- `recordEvidence`.
abbrev pub record_evidence : EvidencePhase → Event → Time → Operation → Operation
record_evidence phase e now op = record op {
  evidence =
      op.evidence
      ++ record {
        operation_id = op.operation_id;
        phase = phase;
        timestamp = now;
        event = e;
        sequence = some (length op.evidence);
      }
        ∷ [];
}

-- `evidenceFlushAttempts`, for a configured whole number.
abbrev pub evidence_flush_attempts : Option ℕ → ℕ
evidence_flush_attempts n = max 1 (min 10 (get_or n 3))

-- `{ record, key: record.sequence ?? idx }`.
abbrev pub number : ℕ → List EvidenceRecord → List (ℕ × EvidenceRecord)
number n [] = []
number n (r ∷ rs) = (get_or r.sequence n, r) ∷ number (suc n) rs

abbrev pub comes_first : ℕ × EvidenceRecord → ℕ × EvidenceRecord → Bool
comes_first (k, r) (l, q) = ltb k l || k == l && ltb r.timestamp q.timestamp

-- A stable sort, by key and then by time. The later entry goes behind its equals.
abbrev pub place : ℕ × EvidenceRecord → List (ℕ × EvidenceRecord) → List (ℕ × EvidenceRecord)
place e [] = e ∷ []
place e (f ∷ rest) = if comes_first f e then f ∷ place e rest else e ∷ f ∷ rest

abbrev pub sort : List (ℕ × EvidenceRecord) → List (ℕ × EvidenceRecord)
sort [] = []
sort (e ∷ rest) = place e (sort rest)

module _ (identity : EvidenceRecord → Ident) where
  abbrev pub occurrences : Ident → List EvidenceRecord → ℕ
  occurrences id [] = 0
  occurrences id (r ∷ rest) = let n = occurrences id rest in if identity r == id then suc n else n

  -- `ON CONFLICT (observation_id) DO NOTHING`.
  unfoldable pub append_row : EvidenceRecord → List EvidenceRecord → List EvidenceRecord
  append_row r rows = if ltb 0 (occurrences (identity r) rows) then rows else rows ++ r ∷ []

  -- The inner loop; the flag is `hitFailure`.
  unfoldable pub pass : List (ℕ × EvidenceRecord) → Outbox → Outbox × Bool
  unfolding append_row
  pass [] o = (o, false)
  pass ((key, r) ∷ rest) o = elim (ltb key o.cursor) [
    | true ↦ pass rest o
    | false ↦ elim (o.answers) [
      | [] ↦ pass rest (record { rows = append_row r o.rows; cursor = suc key; answers = [] })
      | confirmed ∷ more ↦
          pass rest (record { rows = append_row r o.rows; cursor = suc key; answers = more })
      | lost ∷ more ↦ (record o { answers = more }, true)
      | unclear ∷ more ↦ (record o { rows = append_row r o.rows; answers = more }, true)
    ]
  ]

  -- The loop over the attempts; the flag says that the flush is confirmed.
  unfoldable pub attempt : ℕ → List (ℕ × EvidenceRecord) → Outbox → Outbox × Bool
  unfolding pass
  attempt zero entries o = (o, false)
  attempt (suc n) entries o =
      let (p, failed) = pass entries o in
      elim failed [ true ↦ attempt n entries p | false ↦ (p, true) ]

  -- `flushPendingEvidence`; `false` is the thrown error.
  unfoldable pub flush_pending_evidence : Option ℕ → List EvidenceRecord → Outbox → Outbox × Bool
  unfolding attempt
  flush_pending_evidence retries evidence o =
      attempt (evidence_flush_attempts retries) (sort (number 0 evidence)) o
