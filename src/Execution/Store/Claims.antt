-- ===== src/Execution/Store/Claims.antt =====
-- Two claims of one job exclude one another
-- (zeus-secretariat/src/core/post-settlement-engine.ts, `InMemoryExecutionStore.claimJob`).
use zeus_insurance_bot.Prelude.{
  ℕ, ◌+◌, ◌≤◌, ◌<◌, ◌≡◌, refl, inl, inr, Option-cases, Option, none, some, List, Ident, Time,
  lookup, lookup-insert_self, arith,
}
use zeus_insurance_bot.Execution.Types.{RecoveryJob}
use zeus_insurance_bot.Execution.Store.{ExecutionStore, claim_job, claimed}
use zeus_insurance_bot.Execution.Store.Calls.{Call, run, IsFreshRun}
use zeus_insurance_bot.Execution.Store.Fencing.{
  Progresses, run-Progresses, IsShutOut, stale-IsShutOut,
}

-- A successful claim found the job and raised its fence to the generation that it returns.
pub claim_job-raises :
    (id w : Ident) (d : ℕ) (t : Time) (s s' : ExecutionStore) (f : ℕ)
    → claim_job id w d t s ≡ (s', some f)
    → (j k : RecoveryJob) × (lookup id s.jobs ≡ some j)
      × (lookup id s'.jobs ≡ some k)
      × (k.current_attempt ≡ f)
      × (f ≡ j.current_attempt + 1)
unfolding claim_job
claim_job-raises id w d t s s' f h = elim (Option-cases (lookup id s.jobs)) [
  | inl missing ↦ absurd (ground arith)
  | inr (j, found) ↦ (
    j,
    claimed j w d t,
    found,
    ground (arith, lookup-insert_self id (claimed j w d t) s.jobs),
    ground arith,
    ground arith,
  )
]

-- The job under an identifier is still there later, with a fence at least as high.
later_job :
    (id : Ident) (j : RecoveryJob) (o : Option RecoveryJob)
    → Progresses (some j) o
    → (k : RecoveryJob) × (o ≡ some k) × (j.current_attempt ≤ k.current_attempt)
later_job id j none h = absurd h
later_job id j (some k) h = (k, refl, h.2)

pub later_fence :
    (id : Ident) (cs : List Call) (s : ExecutionStore) (j : RecoveryJob)
    → lookup id s.jobs ≡ some j
    → IsFreshRun cs s
    → (k : RecoveryJob) × (lookup id (run cs s).jobs ≡ some k)
      × (j.current_attempt ≤ k.current_attempt)
later_fence id cs s j e f =
    later_job id j (lookup id (run cs s).jobs) (rw e at (run-Progresses cs s id f))

-- One worker claims a job with generation `f`. After any calls of any workers another claim of
-- the job succeeds with generation `g`. Then `g` is the larger, and after any further calls every
-- call that the first worker fences with `f` to this job answers `false` and writes nothing.
-- New rows get unused identifiers throughout.
pub claim_excludes :
    (id v w : Ident) (d e : ℕ) (t u : Time) (s s₁ s₂ : ExecutionStore) (f g : ℕ) (cs ds : List Call)
    → claim_job id v d t s ≡ (s₁, some f)
    → IsFreshRun cs s₁
    → claim_job id w e u (run cs s₁) ≡ (s₂, some g)
    → IsFreshRun ds s₂
    → (f < g) × IsShutOut (run ds s₂) id f
claim_excludes id v w d e t u s s₁ s₂ f g cs ds first between second after =
    let (_, j, _, j_at, j_fence, _) = claim_job-raises id v d t s s₁ f first in
    let (k, k_at, k_fence) = later_fence id cs s₁ j j_at between in
    let (l, m, l_at, m_at, m_fence, l_fence) = claim_job-raises id w e u (run cs s₁) s₂ g second in
    let (n, n_at, n_fence) = later_fence id ds s₂ m m_at after in
    let same : l.current_attempt ≡ k.current_attempt = ground arith in
    (omega arith, stale-IsShutOut (run ds s₂) id f n n_at (omega arith))
