-- ===== src/Execution/Worker/Batches.antt =====
-- How many jobs one round of the worker processes
-- (zeus-secretariat/src/core/execution-worker.ts).
use zeus_insurance_bot.Prelude.{
  ℕ, suc, zero, ◌+◌, ◌≡◌, refl, List, [], ◌∷◌, take, length, min, arith,
}
use zeus_insurance_bot.Execution.Types.{RecoveryJob}
use zeus_insurance_bot.Execution.Store.{get_pending_jobs}
use zeus_insurance_bot.Execution.World.{World, Config, Env, Outcome, returns, throws}
use zeus_insurance_bot.Execution.Scanner.{ensure_execution_obligations}
use zeus_insurance_bot.Execution.Worker.{process_one, process_all, run_once}

length-take {ℓ} : {A : Type ℓ} (n : ℕ) (xs : List A) → length (take n xs) ≡ min n (length xs)
length-take zero xs = ground arith
length-take (suc n) [] = ground arith
length-take (suc n) (x ∷ xs) = ground (arith, length-take n xs)

-- Either an exception, or so many jobs.
abbrev pub Counts : Outcome ℕ → ℕ → Type 0
Counts (throws e) n = Unit {0}
Counts (returns m) n = m ≡ n

Counts-eq : (o : Outcome ℕ) (m n : ℕ) → m ≡ n → Counts o m → Counts o n
Counts-eq (throws e) m n same h = tt
Counts-eq (returns k) m n same h = ground arith

-- The rest of the loop after one job.
rest-Counts :
    (config : Config) (envs : ℕ → Env) (i : ℕ) (j : RecoveryJob) (rest : List RecoveryJob)
    (w : World) (n : ℕ) (o : Outcome (Unit {0}))
    → (process_one config (envs i) j w).1 ≡ o
    → Counts
        (process_all config envs (suc i) rest (process_one config (envs i) j w).0 (suc n)).1
        (suc n + length rest)
    → Counts (process_all config envs i (j ∷ rest) w n).1 (n + length (j ∷ rest))
unfolding process_all
rest-Counts config envs i j rest w n (throws e) h later = rw (h, process_all) tt
rest-Counts config envs i j rest w n (returns x) h later =
    rw (h, process_all)
      (Counts-eq
        (process_all config envs (suc i) rest (process_one config (envs i) j w).0 (suc n)).1
        (suc n + length rest) (n + length (j ∷ rest)) (omega arith) later)

process_all-Counts :
    (config : Config) (envs : ℕ → Env) (i : ℕ) (jobs : List RecoveryJob) (w : World) (n : ℕ)
    → Counts (process_all config envs i jobs w n).1 (n + length jobs)
unfolding process_all
process_all-Counts config envs i [] w n = omega arith
process_all-Counts config envs i (j ∷ rest) w n =
    rest-Counts config envs i j rest w n (process_one config (envs i) j w).1 refl
      (process_all-Counts config envs (suc i) rest (process_one config (envs i) j w).0 (suc n))

-- One round of the worker that ends without an exception has processed every pending job that the
-- scan left, up to the batch size: the smaller of the two numbers, for any seller and any stores.
pub run_once-Counts :
    (config : Config) (scan_envs envs : ℕ → Env) (batch_size : ℕ) (w : World)
    → let scanned = ensure_execution_obligations config scan_envs w in
      Counts
        (run_once config scan_envs envs batch_size w).1
        (min batch_size (length (get_pending_jobs (envs 0).now scanned.execution)))
unfolding run_once
run_once-Counts config scan_envs envs batch_size w =
    let scanned = ensure_execution_obligations config scan_envs w in
    let pending = get_pending_jobs (envs 0).now scanned.execution in
    Counts-eq (run_once config scan_envs envs batch_size w).1 (0 + length (take batch_size pending))
      (min batch_size (length pending)) (omega (arith, length-take batch_size pending))
      (process_all-Counts config envs 0 (take batch_size pending) scanned 0)
