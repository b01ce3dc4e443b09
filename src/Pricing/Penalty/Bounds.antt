-- ===== src/Pricing/Penalty/Bounds.antt =====
-- Bounds of the premium with its penalty (api-server/src/services/pricing.ts).
use native.Mathlib.Nat.{mul-le-mul, le_refl}
use zeus_insurance_bot.Prelude.{ℕ, ◌+◌, ◌*◌, ◌/◌, ◌≤◌, ◌≡◌, some, Time, arith}
use zeus_insurance_bot.Pricing.Penalty.{
  ErrorHistory, AgentStatus, calculate_penalty_score, calculate_premium, get_agent_multiplier,
}

penalty_bounds :
    (h : ErrorHistory) → (100 ≤ calculate_penalty_score h) × (calculate_penalty_score h ≤ 400)
unfolding calculate_penalty_score
penalty_bounds h = ground arith

multiplier_bounds :
    (now : Time) (a : AgentStatus) (h : ErrorHistory) (m : ℕ)
    → get_agent_multiplier now a h ≡ some m
    → (100 ≤ m) × (m ≤ 400)
unfolding get_agent_multiplier
multiplier_bounds now a h m e = ground (arith, penalty_bounds h)

calculate_premium_mono :
    (amount retries m k : ℕ)
    → m ≤ k
    → calculate_premium amount retries m ≤ calculate_premium amount retries k
unfolding calculate_premium
calculate_premium_mono amount retries m k h =
    let rate : (500 + retries * 200) * m / 100 ≤ (500 + retries * 200) * k / 100 =
      omega (arith, mul-le-mul (le_refl (500 + retries * 200)) h) in
    omega (arith, mul-le-mul (le_refl amount) rate)

calculate_premium-le :
    (amount retries m : ℕ) → retries ≤ 10 → m ≤ 400 → calculate_premium amount retries m ≤ amount
unfolding calculate_premium
calculate_premium-le amount retries m hr hm =
    let base : 500 + retries * 200 ≤ 2500 = omega arith in
    let rate : (500 + retries * 200) * m / 100 ≤ 10000 = omega (arith, mul-le-mul base hm) in
    omega (arith, mul-le-mul (le_refl amount) rate)

-- If an agent gets a multiplier, whatever its status and its history of errors: it is between 100
-- and 400, the premium with it is at least the one without a penalty, and with at most ten retries
-- at most the insured amount.
pub get_agent_multiplier-calculate_premium :
    (now : Time) (a : AgentStatus) (h : ErrorHistory) (m amount retries : ℕ)
    → get_agent_multiplier now a h ≡ some m
    → retries ≤ 10
    → (100 ≤ m)
      × (m ≤ 400)
      × (calculate_premium amount retries 100 ≤ calculate_premium amount retries m)
      × (calculate_premium amount retries m ≤ amount)
get_agent_multiplier-calculate_premium now a h m amount retries e hr =
    let (low, high) = multiplier_bounds now a h m e in
    (
      low,
      high,
      calculate_premium_mono amount retries 100 m low,
      calculate_premium-le amount retries m hr high,
    )
