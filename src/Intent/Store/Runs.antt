-- ===== src/Intent/Store/Runs.antt =====
-- Stores that a sequence of guarded calls leads to (zeus-secretariat/src/store/in-memory-store.ts).
use zeus_insurance_bot.Prelude.{◌≡◌, refl, ◌∙◌, List, [], ◌∷◌, ◌++◌, Ident, Time, lookup}
use zeus_insurance_bot.Intent.Types.{
  SettlementState, NonceStatus, ReconciliationObservation, SettledEvidenceBundle,
  NotSettledEvidenceBundle,
}
use zeus_insurance_bot.Intent.Store.{EvidenceStore, compare_and_set_state}
use zeus_insurance_bot.Intent.Store.Nonces.{mark_nonce}
use zeus_insurance_bot.Intent.Store.Records.{
  append_reconciliation_observation, save_settled_evidence_bundle, save_not_settled_evidence_bundle,
}
use zeus_insurance_bot.Intent.Store.Calls.{
  Call, compares, marks, saves_settled, saves_not_settled, observes, step, run,
}
use zeus_insurance_bot.Intent.Store.Guards.{Holds, run-Holds}
use zeus_insurance_bot.Intent.Store.Unique.{IsUnique, run-IsUnique}

-- Some guarded calls lead from the first store to the second.
pub IsRun : EvidenceStore → EvidenceStore → Type 0
IsRun s t = (calls : List Call) × (run calls s ≡ t)

run-append : (cs ds : List Call) (s : EvidenceStore) → run (cs ++ ds) s ≡ run ds (run cs s)
unfolding run
run-append [] ds s = refl
run-append (c ∷ cs) ds s = run-append cs ds (step c s)

pub IsRun-refl : (s : EvidenceStore) → IsRun s s
unfolding IsRun run
IsRun-refl s = ([], refl)

pub IsRun-trans : (s t u : EvidenceStore) → IsRun s t → IsRun t u → IsRun s u
unfolding IsRun
IsRun-trans s t u (cs, e) (ds, f) = (cs ++ ds, run-append cs ds s ∙ rw e f)

IsRun-step : (c : Call) (s : EvidenceStore) → IsRun s (step c s)
unfolding IsRun run
IsRun-step c s = (c ∷ [], refl)

-- After a run every intent is one that the first store may have led to.
pub IsRun-Holds :
    (s t : EvidenceStore) (id : Ident)
    → IsRun s t
    → Holds (lookup id s.intents) (lookup id t.intents)
unfolding IsRun
IsRun-Holds s t id (cs, e) = rw e at (run-Holds cs s id)

pub IsRun-IsUnique : (s t : EvidenceStore) → IsRun s t → IsUnique s → IsUnique t
unfolding IsRun
IsRun-IsUnique s t (cs, e) unique = rw e at (run-IsUnique cs s unique)

module _ (s : EvidenceStore) where
  pub compare-IsRun :
      (id : Ident) (old new : SettlementState) (now : Time)
      → IsRun s (compare_and_set_state id old new now s).0
  unfolding step
  compare-IsRun id old new now = IsRun-step (compares id old new now) s

  pub mark-IsRun : (st : NonceStatus) (n : Ident) (now : Time) → IsRun s (mark_nonce st n now s)
  unfolding step
  mark-IsRun st n now = IsRun-step (marks st n now) s

  pub settled-IsRun :
      (id : Ident) (b : SettledEvidenceBundle) → IsRun s (save_settled_evidence_bundle id b s)
  unfolding step
  settled-IsRun id b = IsRun-step (saves_settled id b) s

  pub not_settled-IsRun :
      (id : Ident) (b : NotSettledEvidenceBundle)
      → IsRun s (save_not_settled_evidence_bundle id b s)
  unfolding step
  not_settled-IsRun id b = IsRun-step (saves_not_settled id b) s

  pub observe-IsRun :
      (o : ReconciliationObservation) → IsRun s (append_reconciliation_observation o s)
  unfolding step
  observe-IsRun o = IsRun-step (observes o) s
