-- ===== src/Execution/Rows/Returns.antt =====
-- Calls of the PostgreSQL store that no unique index refuses
-- (lib/db/src/secretariat/postgres-execution-store.ts).
use zeus_insurance_bot.Prelude.{
  ◌≡◌, refl, inl, inr, true, false, Option, Option-cases, none, some, List, [], ◌∷◌, All, is_some,
  subst,
}
use zeus_insurance_bot.Execution.Store.{ExecutionStore}
use zeus_insurance_bot.Execution.Store.Calls.{
  Call, saves_attempt, saves_both, saves_job, updates_attempt, resolves_retrieval, creates_attempt,
  creates_job, resolves_unresolvable, marks, claims, updates_job,
}
use zeus_insurance_bot.Execution.Rows.{ExecutionRows, save_attempt_row, save_job_row}
use zeus_insurance_bot.Execution.Rows.Agreement.{Agrees, Answers}
use zeus_insurance_bot.Execution.Rows.Inserts.{AnswersIf}
use zeus_insurance_bot.Execution.Rows.Unique.{
  is_taken, is_taken_job, insert_attempt-is_some, insert_job-is_some, save_both_rows-is_some,
  create_attempt_rows-is_some, create_job_rows-is_some,
}
use zeus_insurance_bot.Execution.Rows.Refinement.{
  Reply, written, replying_if, saving_if, rows_call, store_calls, rows_calls, adding_if, IsBound,
  rows_calls-AnswersIf,
}

-- A row that the call inserts breaks no unique index.
abbrev pub IsUnused : Call → ExecutionRows → Type 0
IsUnused (saves_attempt a) p = is_taken a p.attempt_rows ≡ false
IsUnused (saves_both a j) p =
    (is_taken a p.attempt_rows ≡ false) × (is_taken_job j p.job_rows ≡ false)
IsUnused (saves_job j) p = is_taken_job j p.job_rows ≡ false
IsUnused (creates_attempt j a f r e t) p = is_taken r p.attempt_rows ≡ false
IsUnused (creates_job j a f r e t) p = is_taken_job r p.job_rows ≡ false
IsUnused _ p = Unit {0}

-- The rows after a call, the same if it throws.
abbrev pub after : Option (ExecutionRows × Reply) → ExecutionRows → ExecutionRows
after none p = p
after (some q) p = q.0

abbrev pub IsUnusedRun : List Call → ExecutionRows → Type 0
IsUnusedRun [] p = Unit {0}
IsUnusedRun (c ∷ rest) p = IsUnused c p × IsUnusedRun rest (after (rows_call c p) p)

replying_if-is_some {ℓ} :
    {S : Type 0} {R : Type ℓ} (f : R → Reply) (o : Option (S × R))
    → is_some o ≡ true
    → is_some (replying_if f o) ≡ true
replying_if-is_some f none e = e
replying_if-is_some f (some q) e = refl

saving_if-is_some : {S : Type 0} (o : Option S) → is_some o ≡ true → is_some (saving_if o) ≡ true
saving_if-is_some none e = e
saving_if-is_some (some q) e = refl

rows_call-is_some : (c : Call) (p : ExecutionRows) → IsUnused c p → is_some (rows_call c p) ≡ true
unfolding rows_call save_attempt_row save_job_row
rows_call-is_some (saves_attempt a) p h = saving_if-is_some _ (insert_attempt-is_some a p h)
rows_call-is_some (saves_both a j) p (h, k) = saving_if-is_some _ (save_both_rows-is_some a j p h k)
rows_call-is_some (saves_job j) p h = saving_if-is_some _ (insert_job-is_some j p h)
rows_call-is_some (updates_attempt id st f e o) p h = refl
rows_call-is_some (resolves_retrieval j a f e t) p h = refl
rows_call-is_some (creates_attempt j a f r e t) p h =
    replying_if-is_some written _ (create_attempt_rows-is_some j a f e t p r h)
rows_call-is_some (creates_job j a f r e t) p h =
    replying_if-is_some written _ (create_job_rows-is_some j a f e t p r h)
rows_call-is_some (resolves_unresolvable j a f e l t) p h = refl
rows_call-is_some (marks id f o t) p h = refl
rows_call-is_some (claims j w d t) p h = refl
rows_call-is_some (updates_job j st f e t) p h = refl

adding_if-is_some :
    (r : Reply) (o : Option (ExecutionRows × List Reply))
    → is_some o ≡ true
    → is_some (adding_if r o) ≡ true
adding_if-is_some r none e = e
adding_if-is_some r (some q) e = refl

pub rows_calls-is_some :
    (calls : List Call) (p : ExecutionRows)
    → IsUnusedRun calls p
    → is_some (rows_calls calls p) ≡ true
unfolding rows_calls
rows_calls-is_some [] p h = refl
rows_calls-is_some (c ∷ rest) p (h, others) = elim (Option-cases (rows_call c p)) [
  | inl thrown ↦ absurd (let done = rows_call-is_some c p h in cc)
  | inr (q, done) ↦
      let later : IsUnusedRun rest (q.0) = subst (λ o. IsUnusedRun rest (after o p)) done others in
      rw (done, rows_calls) (adding_if-is_some (q.1) _ (rows_calls-is_some rest (q.0) later))
]

-- Whatever sequence of calls the workers make, as long as a new job was never claimed, an update of
-- an attempt names its job, an update of a job does not say that it is running, and every attempt
-- and job that a call inserts has an identifier, a number of its execution and, for an EXECUTION job,
-- an operation that no row has then: from rows and an in-memory store that show the same, no call of
-- the PostgreSQL store throws, it gives every call the same reply as the in-memory store, claims and
-- refusals by a fence included, and both show the same afterwards: every attempt its operation and
-- status, every job its operation, its status, its fence and, while it runs, its lock. The clocks of
-- the workers and of the database agree.
pub rows_calls_refine :
    (calls : List Call) (s : ExecutionStore) (p : ExecutionRows)
    → All IsBound calls
    → IsUnusedRun calls p
    → Agrees s p
    → (q : ExecutionRows × List Reply) × (rows_calls calls p ≡ some q)
      × Answers (store_calls calls s) q
rows_calls_refine calls s p bound unused h = elim (Option-cases (rows_calls calls p)) [
  | inl thrown ↦ absurd (let done = rows_calls-is_some calls p unused in cc)
  | inr (q, done) ↦ (
    q,
    done,
    subst (AnswersIf (store_calls calls s)) done (rows_calls-AnswersIf calls s p bound h),
  )
]
