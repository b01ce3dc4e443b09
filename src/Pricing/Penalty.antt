-- ===== src/Pricing/Penalty.antt =====
-- The penalties of agents and the premium (api-server/src/services/pricing.ts). A rate is compared
-- with a threshold by cross-multiplication, which is what the quotient of two counts does as a
-- floating-point number. An address that does not start with `0x` is `none`, and its exception too.
pub mod Bounds
pub mod History
use zeus_insurance_bot.Prelude.{
  ℕ, ◌+◌, ◌-◌, ◌*◌, ◌/◌, min, max, Bool, true, false, Option, none, some, List, [], ◌∷◌, ◌++◌,
  Ident, Time, Map, lookup, insert, erase, keep, length, get_or, ltb, leb, ◌==◌, if◌then◌else◌,
}

abbrev pub daily_error_soft_threshold : ℕ
daily_error_soft_threshold = 3

abbrev pub daily_error_hard_threshold : ℕ
daily_error_hard_threshold = 5

pub record ErrorHistory : Type 0 where
  pub total : ℕ
  pub errors : ℕ
  pub window_hours : ℕ

pub record AgentStatus : Type 0 where
  pub blocked_until : Time
  pub cooldown_end : Time
  pub current_multiplier : ℕ

-- `errorRate > percent / 100`.
abbrev pub exceeds : ErrorHistory → ℕ → Bool
exceeds h percent = ltb (percent * h.total) (h.errors * 100)

-- `calculatePenaltyScore`.
unfoldable pub calculate_penalty_score : ErrorHistory → ℕ
calculate_penalty_score h =
    let base = if exceeds h 30 then 200 else if exceeds h 15 then 150 else 100 in
    let extra = max 0 (min h.errors daily_error_hard_threshold - daily_error_soft_threshold) in
    if h.total == 0 then 100 else base + extra * 100

-- `calculatePremium`. The base rate is 700 + (retries - 1) * 200, which is 500 without a retry.
unfoldable pub calculate_premium : ℕ → ℕ → ℕ → ℕ
calculate_premium amount retries multiplier =
    let base_bps = 500 + retries * 200 in
    let effective_bps = base_bps * multiplier / 100 in amount * effective_bps / 10000

-- `getAgentMultiplier`; nothing means that the agent is blocked.
unfoldable pub get_agent_multiplier : Time → AgentStatus → ErrorHistory → Option ℕ
unfolding calculate_penalty_score
get_agent_multiplier now a h =
    if ltb now a.blocked_until
    then none
    else if ltb now a.cooldown_end
    then some 200
    else some (calculate_penalty_score h)

-- `agentErrorStore`.
abbrev pub AgentErrors : Type 0
AgentErrors = Map (List Time)

-- `t > now - 24 * 60 * 60 * 1000`.
abbrev pub is_recent : Time → Time → Bool
is_recent now t = ltb now (t + 86400000)

abbrev pub errors_of : Ident → AgentErrors → List Time
errors_of agent s = get_or (lookup agent s) []

abbrev pub add_error : Time → Ident → Time → AgentErrors → AgentErrors
add_error now agent timestamp s =
    insert agent (keep (is_recent now) (errors_of agent s) ++ timestamp ∷ []) s

-- `recordAgentError`.
unfoldable pub record_agent_error : Time → Option Ident → Time → AgentErrors → Option AgentErrors
record_agent_error now none timestamp s = none
record_agent_error now (some agent) timestamp s = some (add_error now agent timestamp s)

-- `getAgentErrorHistory`.
unfoldable pub get_agent_error_history : Time → Option Ident → AgentErrors → Option ErrorHistory
get_agent_error_history now none s = none
get_agent_error_history now (some agent) s = some (record {
  total = 10;
  errors = length (keep (is_recent now) (errors_of agent s));
  window_hours = 24;
})

-- `clearAgentErrors` and `resetAgentStatus`.
unfoldable pub clear_agent_errors : Option Ident → AgentErrors → Option AgentErrors
clear_agent_errors none s = none
clear_agent_errors (some agent) s = some (erase agent s)
