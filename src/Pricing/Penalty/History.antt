-- ===== src/Pricing/Penalty/History.antt =====
-- The store of errors forgets none that counts (api-server/src/services/pricing.ts).
use zeus_insurance_bot.Prelude.{
  ℕ, ◌+◌, ◌≤◌, ◌≡◌, refl, ap, Bool, Bool-cases, inl, inr, false, none, some, List, [], ◌∷◌, ◌++◌,
  Ident, Time, keep, length, lookup, lookup-insert, insert, erase, get_or, arith, leb, ◌==◌,
  if◌then◌else◌,
}
use zeus_insurance_bot.Pricing.Penalty.{
  ErrorHistory, AgentErrors, is_recent, errors_of, add_error, record_agent_error,
  get_agent_error_history, calculate_penalty_score, clear_agent_errors,
}

-- A call: an error is recorded at a time, or the errors of an agent are cleared.
pub data Call : Type 0 where
  records : (now : Time) (agent : Ident) (timestamp : Time) → Call
  clears : Ident → Call

unfoldable pub run : List Call → AgentErrors → AgentErrors
unfolding record_agent_error clear_agent_errors
run [] s = s
run (records now agent timestamp ∷ rest) s =
    run rest (get_or (record_agent_error now (some agent) timestamp s) s)
run (clears agent ∷ rest) s = run rest (get_or (clear_agent_errors (some agent) s) s)

-- The clock does not go back.
abbrev pub IsInOrder : Time → List Call → Time → Type 0
IsInOrder start [] end = start ≤ end
IsInOrder start (records now agent timestamp ∷ rest) end = (start ≤ now) × IsInOrder now rest end
IsInOrder start (clears agent ∷ rest) end = IsInOrder start rest end

-- All that was recorded for an agent since it was cleared.
abbrev pub recorded : Ident → List Call → List Time → List Time
recorded agent [] log = log
recorded agent (records now other timestamp ∷ rest) log =
    recorded agent rest (if other == agent then log ++ timestamp ∷ [] else log)
recorded agent (clears other ∷ rest) log = recorded agent rest (if other == agent then [] else log)

keep-append :
    {A : Type 0} (p : A → Bool) (xs ys : List A) → keep p (xs ++ ys) ≡ keep p xs ++ keep p ys
unfolding keep
keep-append p [] ys = refl
keep-append p (x ∷ xs) ys = ground (arith, keep-append p xs ys)

-- What is recent later was recent.
keep-keep :
    (now later : Time) (xs : List Time)
    → now ≤ later
    → keep (is_recent later) (keep (is_recent now) xs) ≡ keep (is_recent later) xs
unfolding keep
keep-keep now later [] h = refl
keep-keep now later (x ∷ xs) h = ground (arith, keep-keep now later xs h)

lookup-erase :
    (agent other : Ident) (s : AgentErrors)
    → other == agent ≡ false
    → lookup agent (erase other s) ≡ lookup agent s
unfolding lookup erase
lookup-erase agent other [] h = refl
lookup-erase agent other ((at, v) ∷ rest) h = ground (arith, lookup-erase agent other rest)

-- How many entries an agent has in the store.
abbrev entries : Ident → AgentErrors → ℕ
entries agent [] = 0
entries agent ((at, v) ∷ rest) = if agent == at then 1 + entries agent rest else entries agent rest

entries-insert :
    (agent other : Ident) (new : List Time) (s : AgentErrors)
    → entries agent s ≤ 1
    → entries agent (insert other new s) ≤ 1
unfolding insert
entries-insert agent other new [] h = ground arith
entries-insert agent other new ((at, v) ∷ rest) h =
    ground (arith, entries-insert agent other new rest, absent-insert agent other new rest)
  where
    absent-insert :
        (agent other : Ident) (new : List Time) (s : AgentErrors)
        → agent == other ≡ false
        → entries agent (insert other new s) ≡ entries agent s
    absent-insert agent other new [] h = ground arith
    absent-insert agent other new ((at, v) ∷ rest) h =
        ground (arith, absent-insert agent other new rest)

entries-erase :
    (agent other : Ident) (s : AgentErrors) → entries agent (erase other s) ≤ entries agent s
unfolding erase
entries-erase agent other [] = omega arith
entries-erase agent other ((at, v) ∷ rest) = ground (arith, entries-erase agent other rest)

lookup-absent : (agent : Ident) (s : AgentErrors) → entries agent s ≡ 0 → lookup agent s ≡ none
unfolding lookup
lookup-absent agent [] h = refl
lookup-absent agent ((at, v) ∷ rest) h = ground (arith, lookup-absent agent rest)

lookup-erase_self :
    (agent : Ident) (s : AgentErrors) → entries agent s ≤ 1 → lookup agent (erase agent s) ≡ none
unfolding lookup erase
lookup-erase_self agent [] h = refl
lookup-erase_self agent ((at, v) ∷ rest) h =
    ground (arith, lookup-erase_self agent rest, lookup-absent agent rest)

-- The store tells of an agent, from a time on, what the log of all its errors tells.
abbrev Tells : Ident → AgentErrors → List Time → Time → Type 0
Tells agent s log now =
    (entries agent s ≤ 1)
    × ((later : Time)
        → now ≤ later
        → keep (is_recent later) (errors_of agent s) ≡ keep (is_recent later) log)

add_error-Tells :
    (agent other : Ident) (s : AgentErrors) (log : List Time) (start now timestamp : Time)
    → start ≤ now
    → Tells agent s log start
    → Tells agent
        (add_error now other timestamp s)
        (if other == agent then log ++ timestamp ∷ [] else log)
        now
add_error-Tells agent other s log start now timestamp order (one, tells) =
    let written : List Time = keep (is_recent now) (errors_of other s) ++ timestamp ∷ [] in
    (
      entries-insert agent other written s one,
      λ later h. elim (Bool-cases (other == agent)) [
        | inr apart ↦ rw (lookup-insert other agent written s, apart) (tells later (omega arith))
        | inl same ↦
            let e : other ≡ agent = ground (arith, same) in
            rw
              (
                lookup-insert other agent written s,
                same,
                keep-append (is_recent later) (keep (is_recent now) (errors_of other s))
                    (timestamp ∷ []),
                keep-append (is_recent later) log (timestamp ∷ []),
                keep-keep now later (errors_of other s) h,
                e,
                tells later (omega arith),
              )
              refl
      ],
    )

clear-Tells :
    (agent other : Ident) (s : AgentErrors) (log : List Time) (start : Time)
    → Tells agent s log start
    → Tells agent (erase other s) (if other == agent then [] else log) start
clear-Tells agent other s log start (one, tells) = (
  omega (arith, entries-erase agent other s, one),
  λ later h. elim (Bool-cases (other == agent)) [
    | inr apart ↦ rw (lookup-erase agent other s apart, apart) (tells later h)
    | inl same ↦
        let e : other ≡ agent = ground (arith, same) in
        rw (same, e, lookup-erase_self agent s one) refl
  ],
)

run-Tells :
    (agent : Ident) (calls : List Call) (s : AgentErrors) (log : List Time) (start now : Time)
    → IsInOrder start calls now
    → Tells agent s log start
    → keep (is_recent now) (errors_of agent (run calls s))
      ≡ keep (is_recent now) (recorded agent calls log)
unfolding run
run-Tells agent [] s log start now order (one, tells) = tells now order
run-Tells agent (records at other timestamp ∷ rest) s log start now (order, more) t =
    run-Tells agent rest (add_error at other timestamp s) _ at now more
      (add_error-Tells agent other s log start at timestamp order t)
run-Tells agent (clears other ∷ rest) s log start now order t =
    run-Tells agent rest (erase other s) _ start now order (clear-Tells agent other s log start t)

-- The penalty for a number of errors.
abbrev pub penalty_for : ℕ → ℕ
penalty_for n = if leb n 1 then 100 else if leb n 3 then 150 else if leb n 4 then 300 else 400

penalty_of_ten :
    (n : ℕ)
    → calculate_penalty_score (record { total = 10; errors = n; window_hours = 24 }) ≡ penalty_for n
unfolding calculate_penalty_score
penalty_of_ten n = ground arith

-- After any calls that record and clear errors, by a clock that does not go back, the history of an
-- agent counts exactly those of its errors since it was last cleared whose time is in the last 24
-- hours: none is forgotten with an earlier one that was too old. Its penalty is 1 for at most one
-- error, 1.5 for two or three, 3 for four and 4 for more.
pub get_agent_error_history_exact :
    (agent : Ident) (calls : List Call) (start now : Time)
    → IsInOrder start calls now
    → (h : ErrorHistory) × (get_agent_error_history now (some agent) (run calls []) ≡ some h)
      × (h.errors ≡ length (keep (is_recent now) (recorded agent calls [])))
      × (calculate_penalty_score h ≡ penalty_for h.errors)
unfolding get_agent_error_history
get_agent_error_history_exact agent calls start now order = (
  _,
  refl,
  ap length
      (run-Tells agent calls [] [] start now order (omega arith, λ later h. unfold lookup in refl)),
  penalty_of_ten _,
)
