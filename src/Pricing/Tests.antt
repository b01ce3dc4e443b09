-- ===== src/Pricing/Tests.antt =====
-- Prices at samples.
use zeus_insurance_bot.Prelude.{
  ◌≡◌, ◌≤◌, ◌*◌, refl, true, false, some, List, [], ◌∷◌, arith, keep, length,
}
use zeus_insurance_bot.Pricing.Staking.{ValidatorMetrics, quote_staking}
use zeus_insurance_bot.Pricing.Staking.Bounds.{quote_staking_bounds}
use zeus_insurance_bot.Pricing.Staking.Order.{quote_staking_mono}
use zeus_insurance_bot.Pricing.Penalty.{
  ErrorHistory, AgentStatus, calculate_penalty_score, calculate_premium, get_agent_multiplier,
  get_agent_error_history, is_recent,
}
use zeus_insurance_bot.Pricing.Penalty.Bounds.{get_agent_multiplier-calculate_premium}
use zeus_insurance_bot.Pricing.Penalty.History.{
  Call, records, run, recorded, penalty_for, get_agent_error_history_exact,
}

abbrev sound : ValidatorMetrics
sound = record {
  downtime_pct = 50;
  prior_slashes = 0;
  client_share_pct = 2000;
  has_circuit_breakers = true;
  has_key_segregation = true;
  humi_score = 900;
}

abbrev shaky : ValidatorMetrics
shaky = record {
  downtime_pct = 150;
  prior_slashes = 1;
  client_share_pct = 4000;
  has_circuit_breakers = true;
  has_key_segregation = false;
  humi_score = 500;
}

is_quoted : (quote_staking 32000000 365 196 shaky).risk_multiplier ≡ 300
unfolding quote_staking
is_quoted = refl

quote_staking_bounds_example :
    let q = quote_staking 32000000 365 677 shaky in
    (80 ≤ q.risk_multiplier)
    × (q.risk_multiplier ≤ 300)
    × (q.covered_amount * 20 ≤ 32000000)
    × (q.premium * 1000 ≤ 96000000)
    × (q.collateral * 2 ≤ q.covered_amount * 3)
    × (q.total_upfront * 1000 ≤ 2496000000)
quote_staking_bounds_example = quote_staking_bounds 32000000 365 677 shaky (omega arith)

quote_staking_mono_example :
    let q = quote_staking 1000000 30 1 sound in
    let p = quote_staking 2000000 90 1 shaky in
    (q.premium ≤ p.premium)
    × (q.covered_amount ≤ p.covered_amount)
    × (q.total_upfront ≤ p.total_upfront)
quote_staking_mono_example =
    quote_staking_mono 1000000 2000000 30 90 1 sound shaky (omega arith) (omega arith) (record {
      less_downtime = omega arith;
      fewer_slashes = omega arith;
      less_share = omega arith;
      keeps_breakers = λ h. refl;
      keeps_segregation = λ h. refl;
      more_trust = omega arith;
    })

abbrev in_cooldown : AgentStatus
in_cooldown = record { blocked_until = 0; cooldown_end = 9; current_multiplier = 100 }

abbrev four_errors : ErrorHistory
four_errors = record { total = 10; errors = 4; window_hours = 24 }

get_agent_multiplier-calculate_premium_example :
    (100 ≤ 300)
    × (300 ≤ 400)
    × (calculate_premium 1000000 2 100 ≤ calculate_premium 1000000 2 300)
    × (calculate_premium 1000000 2 300 ≤ 1000000)
unfolding get_agent_multiplier
get_agent_multiplier-calculate_premium_example =
    get_agent_multiplier-calculate_premium 10 in_cooldown four_errors 300 1000000 2 refl
      (omega arith)

is_priced : calculate_premium 1000000 2 300 ≡ 270000
unfolding calculate_premium
is_priced = refl

abbrev calls : List Call
calls =
    records 1000 7 1000
    ∷ records 2000 8 2000
    ∷ records 86400500 7 86400500
    ∷ records 86401000 7 86401000
    ∷ []

get_agent_error_history_exact_example :
    (h : ErrorHistory) × (get_agent_error_history 86401000 (some 7) (run calls []) ≡ some h)
    × (h.errors ≡ length (keep (is_recent 86401000) (recorded 7 calls [])))
    × (calculate_penalty_score h ≡ penalty_for h.errors)
get_agent_error_history_exact_example =
    get_agent_error_history_exact 7 calls 0 86401000 (omega arith)

counts_two : length (keep (is_recent 86401000) (recorded 7 calls [])) ≡ 2
unfolding keep
counts_two = refl
