-- ===== src/Execution/Rows/Refinement.antt =====
-- The PostgreSQL store refines the in-memory one (lib/db/src/secretariat/
-- postgres-execution-store.ts, zeus-secretariat/src/core/post-settlement-engine.ts).
use zeus_insurance_bot.Prelude.{
  ℕ, ◌≡◌, refl, ap, subst, inl, inr, Bool, true, false, Option, Option-cases, none, some, List, [],
  ◌∷◌, All, is_some,
}
use zeus_insurance_bot.Execution.Types.{is_running}
use zeus_insurance_bot.Execution.Store.{
  ExecutionStore, save_attempt, save_attempt_with_job, save_job, update_attempt_status,
  resolve_retrieval_success_if_owner, create_recovery_attempt_if_owner,
  create_recovery_job_if_owner, resolve_attempt_unresolvable_if_owner, mark_attempt_in_progress,
  claim_job, update_job_status,
}
use zeus_insurance_bot.Execution.Store.Calls.{
  Call, saves_attempt, saves_both, saves_job, updates_attempt, resolves_retrieval, creates_attempt,
  creates_job, resolves_unresolvable, marks, claims, updates_job,
}
use zeus_insurance_bot.Execution.Rows.{
  ExecutionRows, save_attempt_row, save_job_row, save_both_rows, update_attempt_row,
  mark_attempt_row, claim_job_row, update_job_row,
}
use zeus_insurance_bot.Execution.Rows.Transactions.{
  resolve_retrieval_rows, create_attempt_rows, create_job_rows, resolve_unresolvable_rows,
}
use zeus_insurance_bot.Execution.Rows.Agreement.{Agrees, Answers}
use zeus_insurance_bot.Execution.Rows.Writes.{
  update_attempt_row-Answers, mark_attempt_row-Answers, resolve_retrieval_rows-Answers,
  resolve_unresolvable_rows-Answers, claim_job_row-Answers, update_job_row-Answers,
}
use zeus_insurance_bot.Execution.Rows.Inserts.{
  AnswersIf, AgreesIf, IsUnclaimed, save_attempt_row-AgreesIf, save_job_row-AgreesIf,
  save_both_rows-AgreesIf, create_attempt_rows-AnswersIf, create_job_rows-AnswersIf,
}

-- What a call returns.
pub data Reply : Type 0 where
  saved : Reply
  written : Bool → Reply
  fenced : Option ℕ → Reply

abbrev pub replying {ℓ} : {S : Type 0} {R : Type ℓ} → (R → Reply) → S × R → S × Reply
replying f (s, x) = (s, f x)

abbrev pub replying_if {ℓ} :
    {S : Type 0} {R : Type ℓ} → (R → Reply) → Option (S × R) → Option (S × Reply)
replying_if f none = none
replying_if f (some (s, x)) = some (s, f x)

abbrev pub saving_if : {S : Type 0} → Option S → Option (S × Reply)
saving_if none = none
saving_if (some s) = some (s, saved)

unfoldable pub store_call : Call → ExecutionStore → ExecutionStore × Reply
store_call (saves_attempt a) s = (save_attempt a s, saved)
store_call (saves_both a j) s = (save_attempt_with_job a j s, saved)
store_call (saves_job j) s = (save_job j s, saved)
store_call (updates_attempt id st f e o) s = replying written (update_attempt_status id st f e o s)
store_call (resolves_retrieval j a f e t) s =
    replying written (resolve_retrieval_success_if_owner j a f e t s)
store_call (creates_attempt j a f r e t) s =
    replying written (create_recovery_attempt_if_owner j a f r e t s)
store_call (creates_job j a f r e t) s =
    replying written (create_recovery_job_if_owner j a f r e t s)
store_call (resolves_unresolvable j a f e l t) s =
    replying written (resolve_attempt_unresolvable_if_owner j a f e l t s)
store_call (marks id f o t) s = replying written (mark_attempt_in_progress id f o t s)
store_call (claims j w d t) s = replying fenced (claim_job j w d t s)
store_call (updates_job j st f e t) s = replying written (update_job_status j st f e t s)

unfoldable pub rows_call : Call → ExecutionRows → Option (ExecutionRows × Reply)
rows_call (saves_attempt a) p = saving_if (save_attempt_row a p)
rows_call (saves_both a j) p = saving_if (save_both_rows a j p)
rows_call (saves_job j) p = saving_if (save_job_row j p)
rows_call (updates_attempt id st f e o) p =
    some (replying written (update_attempt_row id st f e o p))
rows_call (resolves_retrieval j a f e t) p =
    some (replying written (resolve_retrieval_rows j a f e t p))
rows_call (creates_attempt j a f r e t) p = replying_if written (create_attempt_rows j a f r e t p)
rows_call (creates_job j a f r e t) p = replying_if written (create_job_rows j a f r e t p)
rows_call (resolves_unresolvable j a f e l t) p =
    some (replying written (resolve_unresolvable_rows j a f e l t p))
rows_call (marks id f o t) p = some (replying written (mark_attempt_row id f o t p))
rows_call (claims j w d t) p = some (replying fenced (claim_job_row j w d t t p))
rows_call (updates_job j st f e t) p = some (replying written (update_job_row j st f e t p))

-- A call as the engine makes it: a new job was never claimed, an update of an attempt names its job,
-- and an update of a job does not say that it is running.
abbrev pub IsBound : Call → Type 0
IsBound (saves_attempt a) = Unit {0}
IsBound (saves_both a j) = IsUnclaimed j
IsBound (saves_job j) = IsUnclaimed j
IsBound (updates_attempt id st f e o) = is_some o ≡ true
IsBound (resolves_retrieval j a f e t) = Unit {0}
IsBound (creates_attempt j a f r e t) = Unit {0}
IsBound (creates_job j a f r e t) = IsUnclaimed r
IsBound (resolves_unresolvable j a f e l t) = Unit {0}
IsBound (marks id f o t) = is_some o ≡ true
IsBound (claims j w d t) = Unit {0}
IsBound (updates_job j st f e t) = is_running st ≡ false

replying-Answers {ℓ} :
    {R : Type ℓ} (f : R → Reply) (out : ExecutionStore × R) (q : ExecutionRows × R)
    → Answers out q
    → Answers (replying f out) (replying f q)
replying-Answers f (s, x) (p, y) (h, e) = (h, ap f e)

replying-AnswersIf {ℓ} :
    {R : Type ℓ} (f : R → Reply) (out : ExecutionStore × R) (o : Option (ExecutionRows × R))
    → AnswersIf out o
    → AnswersIf (replying f out) (replying_if f o)
replying-AnswersIf f out none h = tt
replying-AnswersIf f out (some q) h = replying-Answers f out q h

saving-AnswersIf :
    (s : ExecutionStore) (o : Option ExecutionRows)
    → AgreesIf s o
    → AnswersIf (s, saved) (saving_if o)
saving-AnswersIf s none h = tt
saving-AnswersIf s (some q) h = (h, refl)

call-AnswersIf :
    (c : Call) (s : ExecutionStore) (p : ExecutionRows)
    → IsBound c
    → Agrees s p
    → AnswersIf (store_call c s) (rows_call c p)
unfolding store_call rows_call
call-AnswersIf (saves_attempt a) s p b h =
    saving-AnswersIf _ (save_attempt_row a p) (save_attempt_row-AgreesIf s p h a)
call-AnswersIf (saves_both a j) s p b h =
    saving-AnswersIf _ (save_both_rows a j p) (save_both_rows-AgreesIf s p h a j b)
call-AnswersIf (saves_job j) s p b h =
    saving-AnswersIf _ (save_job_row j p) (save_job_row-AgreesIf s p h j b)
call-AnswersIf (updates_attempt id st f e none) s p b h = absurd (cc)
call-AnswersIf (updates_attempt id st f e (some j)) s p b h =
    replying-Answers written _ _ (update_attempt_row-Answers s p h id st f e j)
call-AnswersIf (resolves_retrieval j a f e t) s p b h =
    replying-Answers written _ _ (resolve_retrieval_rows-Answers s p h j a f e t)
call-AnswersIf (creates_attempt j a f r e t) s p b h =
    replying-AnswersIf written _ _ (create_attempt_rows-AnswersIf s p h j a f r e t)
call-AnswersIf (creates_job j a f r e t) s p b h =
    replying-AnswersIf written _ _ (create_job_rows-AnswersIf s p h j a f r e t b)
call-AnswersIf (resolves_unresolvable j a f e l t) s p b h =
    replying-Answers written _ _ (resolve_unresolvable_rows-Answers s p h j a f e l t)
call-AnswersIf (marks id f none t) s p b h = absurd (cc)
call-AnswersIf (marks id f (some j) t) s p b h =
    replying-Answers written _ _ (mark_attempt_row-Answers s p h id f j t)
call-AnswersIf (claims j w d t) s p b h =
    replying-Answers fenced _ _ (claim_job_row-Answers s p h j w d t)
call-AnswersIf (updates_job j st f e t) s p b h =
    replying-Answers written _ _ (update_job_row-Answers s p h j st f e t b)

-- A sequence of calls of any workers, with their replies.
abbrev pub adding : Reply → ExecutionStore × List Reply → ExecutionStore × List Reply
adding r (s, replies) = (s, r ∷ replies)

abbrev pub adding_if :
    Reply → Option (ExecutionRows × List Reply) → Option (ExecutionRows × List Reply)
adding_if r none = none
adding_if r (some (p, replies)) = some (p, r ∷ replies)

unfoldable pub store_calls : List Call → ExecutionStore → ExecutionStore × List Reply
store_calls [] s = (s, [])
store_calls (c ∷ rest) s = adding ((store_call c s).1) (store_calls rest ((store_call c s).0))

-- Nothing, if a call throws.
unfoldable pub rows_calls : List Call → ExecutionRows → Option (ExecutionRows × List Reply)
rows_calls [] p = some (p, [])
rows_calls (c ∷ rest) p = elim (rows_call c p) [
  | none ↦ none
  | some (q, reply) ↦ adding_if reply (rows_calls rest q)
]

answered :
    (out : ExecutionStore × Reply) (o : Option (ExecutionRows × Reply)) (q : ExecutionRows × Reply)
    → o ≡ some q
    → AnswersIf out o
    → Agrees out.0 q.0 × (out.1 ≡ q.1)
answered out o q e h = subst (AnswersIf out) e h

adding-AnswersIf :
    (r t : Reply) (out : ExecutionStore × List Reply) (o : Option (ExecutionRows × List Reply))
    → r ≡ t
    → AnswersIf out o
    → AnswersIf (adding r out) (adding_if t o)
adding-AnswersIf r t out none e h = tt
adding-AnswersIf r t (s, x) (some (p, y)) e (h, same) = (h, cc)

-- The same answers as the in-memory store and the same to see afterwards, if no call throws.
pub rows_calls-AnswersIf :
    (calls : List Call) (s : ExecutionStore) (p : ExecutionRows)
    → All IsBound calls
    → Agrees s p
    → AnswersIf (store_calls calls s) (rows_calls calls p)
unfolding store_calls rows_calls
rows_calls-AnswersIf [] s p b h = (h, refl)
rows_calls-AnswersIf (c ∷ rest) s p (b, others) h = elim (Option-cases (rows_call c p)) [
  | inl thrown ↦ rw (thrown, rows_calls) tt
  | inr (q, done) ↦
      let (now_same, reply_same) =
        answered (store_call c s) (rows_call c p) q done (call-AnswersIf c s p b h) in
      rw (done, rows_calls)
        (adding-AnswersIf _ (q.1) _ (rows_calls rest (q.0)) reply_same
          (rows_calls-AnswersIf rest ((store_call c s).0) (q.0) others now_same))
]
