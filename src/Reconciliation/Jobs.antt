-- ===== src/Reconciliation/Jobs.antt =====
-- The reconciliation jobs of `PostgresEvidenceStore`
-- (lib/db/src/secretariat/postgres-store.ts), an `UPDATE` as a function on the row of its key.
use zeus_insurance_bot.Prelude.{
  ℕ, suc, ◌+◌, Bool, true, false, ◌&&◌, ◌||◌, Option, none, some, List, [], ◌∷◌, Ident, Opaque,
  Time, Map, lookup, insert, take, ltb, leb, ◌==◌, if◌then◌else◌,
}
use zeus_insurance_bot.Intent.Types.{is_pending_signature}
use zeus_insurance_bot.Intent.Store.{EvidenceStore, set_intent}

pub data JobState : Type 0 where
  pending running completed unresolvable : JobState

abbrev pub is_pending : JobState → Bool
is_pending JobState.pending = true
is_pending _ = false

abbrev pub is_running : JobState → Bool
is_running JobState.running = true
is_running _ = false

pub record ReconJob : Type 0 where
  pub payment_intent_id : Ident
  pub state : JobState
  pub probe_count : ℕ
  pub next_probe_at : Time
  pub locked_by : Option Ident
  pub locked_until : Option Time
  pub last_error : Option Opaque

-- The tables that a reconciliation works on.
pub record Tables : Type 0 where
  pub store : EvidenceStore
  pub jobs : Map ReconJob

-- What `db.execute` of the driver gives: an array of rows, or an object that holds them.
pub data Driver : Type 0 where
  gives_array gives_query_result : Driver

-- `Array.isArray(result)`.
abbrev pub is_array : Driver → Bool
is_array gives_array = true
is_array gives_query_result = false

-- `locked_until < NOW()`; a comparison with NULL is not true.
abbrev pub is_expired : Time → ReconJob → Bool
is_expired now j = elim (j.locked_until) [ none ↦ false | some t ↦ ltb t now ]

abbrev pub is_claimable : Time → ReconJob → Bool
is_claimable now j = is_pending j.state || is_running j.state && is_expired now j

abbrev pub is_locked_by : Ident → ReconJob → Bool
is_locked_by worker j =
    is_running j.state && elim (j.locked_by) [ none ↦ false | some a ↦ a == worker ]

-- `UPDATE … SET … WHERE job_id = … AND …`, and whether a row was written.
unfoldable pub update_row :
    (ReconJob → Bool) → (ReconJob → ReconJob) → Ident → Tables → Tables × Bool
update_row holds set id w = elim (lookup id w.jobs) [
  | none ↦ (w, false)
  | some j ↦ if holds j then (record w { jobs = insert id (set j) w.jobs }, true) else (w, false)
]

abbrev pub claimed : Ident → Time → ReconJob → ReconJob
claimed worker until j = record j {
  state = JobState.running;
  locked_by = some worker;
  locked_until = some until;
  probe_count = suc j.probe_count;
}

-- `claimReconciliationJob`.
unfoldable pub claim_reconciliation_job : Driver → Ident → Ident → ℕ → Time → Tables → Tables × Bool
unfolding update_row
claim_reconciliation_job driver id worker duration now w =
    let (t, written) = update_row (is_claimable now) (claimed worker (now + duration)) id w in
    (t, is_array driver && written)

abbrev pub released : JobState → ReconJob → ReconJob
released st j = record j { state = st; locked_by = none; locked_until = none }

-- `completeReconciliationJob`, `rescheduleReconciliationJob` and `failReconciliationJob`; the
-- worker does nothing with their answers but log them.
unfoldable pub complete_reconciliation_job : Ident → Ident → Tables → Tables
unfolding update_row
complete_reconciliation_job id worker w =
    (update_row (is_locked_by worker) (released JobState.completed) id w).0

abbrev pub rescheduled : Time → ReconJob → ReconJob
rescheduled next j = record (released JobState.pending j) { next_probe_at = next }

unfoldable pub reschedule_reconciliation_job : Ident → Ident → Time → Tables → Tables
unfolding update_row
reschedule_reconciliation_job id worker next w =
    (update_row (is_locked_by worker) (rescheduled next) id w).0

abbrev pub failed_with : Opaque → ReconJob → ReconJob
failed_with error j = record (released JobState.unresolvable j) { last_error = some error }

unfoldable pub fail_reconciliation_job : Ident → Ident → Opaque → Tables → Tables
unfolding update_row
fail_reconciliation_job id worker error w =
    (update_row (is_locked_by worker) (failed_with error) id w).0

abbrev pub awaits_signature : EvidenceStore → ReconJob → Bool
awaits_signature s j = elim (lookup j.payment_intent_id s.intents) [
  | none ↦ false
  | some r ↦ is_pending_signature r.intent.settlement_state
]

-- `completePendingReconciliationJob`.
unfoldable pub complete_pending_reconciliation_job : Ident → Time → Tables → Tables
unfolding update_row
complete_pending_reconciliation_job id now w =
    (update_row (λ j. is_claimable now j && awaits_signature w.store j)
      (released JobState.completed) id w).0

abbrev pub is_due : Time → ReconJob → Bool
is_due now j =
    is_pending j.state && leb j.next_probe_at now || is_running j.state && is_expired now j

-- `ORDER BY next_probe_at ASC`.
abbrev pub place : Ident × ReconJob → List (Ident × ReconJob) → List (Ident × ReconJob)
place (id, j) [] = (id, j) ∷ []
place (id, j) ((other, k) ∷ rest) =
    if ltb k.next_probe_at j.next_probe_at
    then (other, k) ∷ place (id, j) rest
    else (id, j) ∷ (other, k) ∷ rest

abbrev pub due_rows : Time → Map ReconJob → List (Ident × ReconJob)
due_rows now [] = []
due_rows now ((id, j) ∷ rest) =
    let later = due_rows now rest in if is_due now j then place (id, j) later else later

-- `getDueReconciliationJobs`, for a positive limit.
unfoldable pub get_due_reconciliation_jobs : Driver → ℕ → Time → Tables → List (Ident × ReconJob)
get_due_reconciliation_jobs driver limit now w =
    if is_array driver then take limit (due_rows now w.jobs) else []

-- `getReconciliationJobById`, of which the worker reads the probe count.
abbrev pub get_probe_count : Ident → Tables → Option ℕ
get_probe_count id w = elim (lookup id w.jobs) [ none ↦ none | some j ↦ some j.probe_count ]

-- `updatePaymentIntentProbeCount`.
unfoldable pub update_payment_intent_probe_count : Ident → ℕ → Time → Tables → Tables
update_payment_intent_probe_count id count now w = elim (lookup id w.store.intents) [
  | none ↦ w
  | some r ↦ record w {
    store =
        set_intent id (record (r.intent) { probe_count = some count; updated_at = now }) r w.store;
  }
]
