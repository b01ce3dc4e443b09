-- ===== src/Pricing/Staking/Bounds.antt =====
-- Bounds of a quote for staking cover (api-server/src/services/staking-pricing.ts).
use native.Mathlib.Nat.{mul-le-mul, le_refl}
use zeus_insurance_bot.Prelude.{ℕ, ◌+◌, ◌*◌, ◌≤◌, ◌<◌, arith}
use zeus_insurance_bot.Pricing.Staking.{
  ValidatorMetrics, NetworkConfig, network_config, compute_risk_multiplier, annual_premium,
  term_premium, first_loss, collateral_of, quote_staking,
}

-- The multiplier lies between 0.8 and 3.
pub compute_risk_multiplier_bounds :
    (m : ValidatorMetrics) → (80 ≤ compute_risk_multiplier m) × (compute_risk_multiplier m ≤ 300)
unfolding compute_risk_multiplier
compute_risk_multiplier_bounds m = ground arith

annual_premium_near :
    (staked base risk : ℕ)
    → (annual_premium staked base risk * 1000000 ≤ staked * base * risk)
      × (staked * base * risk < annual_premium staked base risk * 1000000 + 1000000)
unfolding annual_premium
annual_premium_near staked base risk = omega arith

-- At most 3 per thousand of the stake for a year.
annual_premium-le :
    (staked base risk : ℕ)
    → base ≤ 10
    → risk ≤ 300
    → annual_premium staked base risk * 1000 ≤ staked * 3
unfolding annual_premium
annual_premium-le staked base risk hb hr = grind (arith)

abbrev IsModest : NetworkConfig → Type 0
IsModest c = (c.base_premium_bps ≤ 10) × (c.first_loss_percent ≤ 500) × (c.collateral_ratio ≤ 150)

network_config-IsModest : (chain : ℕ) → IsModest (network_config chain)
network_config-IsModest chain = ground arith

term_premium-le : (annual days : ℕ) → days ≤ 365 → term_premium annual days ≤ annual
unfolding term_premium
term_premium-le annual days h = grind arith

first_loss-le : (staked percent : ℕ) → percent ≤ 500 → first_loss staked percent * 20 ≤ staked
unfolding first_loss
first_loss-le staked percent h = grind arith

collateral_of-le :
    (c : NetworkConfig) (covered : ℕ) → IsModest c → collateral_of c covered * 2 ≤ covered * 3
unfolding collateral_of
collateral_of-le c covered modest = ground (arith, mul-le-mul (le_refl covered) (modest.2))

-- A quote for at most a year: the multiplier is between 80 and 300, at most a twentieth of the stake
-- is covered, the premium is at most 3 per thousand of the stake, the collateral at most one and a
-- half times the cover, and both together at most 78 per thousand of the stake.
pub quote_staking_bounds :
    (staked days chain : ℕ) (m : ValidatorMetrics)
    → days ≤ 365
    → let q = quote_staking staked days chain m in
      (80 ≤ q.risk_multiplier)
      × (q.risk_multiplier ≤ 300)
      × (q.covered_amount * 20 ≤ staked)
      × (q.premium * 1000 ≤ staked * 3)
      × (q.collateral * 2 ≤ q.covered_amount * 3)
      × (q.total_upfront * 1000 ≤ staked * 78)
unfolding quote_staking
quote_staking_bounds staked days chain m h =
    let c = network_config chain in
    let (low_base, low_loss, low_ratio) = network_config-IsModest chain in
    let (above, below) = compute_risk_multiplier_bounds m in
    let annual =
      annual_premium-le staked c.base_premium_bps (compute_risk_multiplier m) low_base below in
    let term =
      term_premium-le (annual_premium staked c.base_premium_bps (compute_risk_multiplier m)) days
        h in
    let cover = first_loss-le staked c.first_loss_percent low_loss in
    let deposit =
      collateral_of-le c (first_loss staked c.first_loss_percent) (low_base, low_loss, low_ratio) in
    (above, below, cover, omega arith, deposit, omega arith)
