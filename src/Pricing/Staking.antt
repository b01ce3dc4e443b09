-- ===== src/Pricing/Staking.antt =====
-- `computeRiskMultiplier` and `quoteStaking` (api-server/src/services/staking-pricing.ts). The
-- factors of the multiplier are in tenths, so that their product and its rounding are exact; on all
-- combinations of factors the rounded product is the one that floating-point numbers give.
-- Percentages of the metrics are in hundredths of a percent.
pub mod Bounds
pub mod Order
use zeus_insurance_bot.Prelude.{
  ℕ, ◌+◌, ◌*◌, ◌/◌, min, max, Bool, true, false, Option, none, some, get_or, ltb, leb, ◌==◌,
  if◌then◌else◌, ◌&&◌, not,
}

pub data NetworkRisk : Type 0 where
  proven emerging unproven : NetworkRisk

pub record NetworkConfig : Type 0 where
  pub first_loss_percent : ℕ
  pub base_premium_bps : ℕ
  pub network_risk : NetworkRisk
  pub collateral_ratio : ℕ

abbrev pub ethereum : NetworkConfig
ethereum = record {
  first_loss_percent = 200;
  base_premium_bps = 4;
  network_risk = proven;
  collateral_ratio = 0;
}

abbrev pub x_layer : NetworkConfig
x_layer = record {
  first_loss_percent = 300;
  base_premium_bps = 6;
  network_risk = emerging;
  collateral_ratio = 100;
}

abbrev pub bot_chain : NetworkConfig
bot_chain = record {
  first_loss_percent = 500;
  base_premium_bps = 10;
  network_risk = unproven;
  collateral_ratio = 150;
}

-- `NETWORK_CONFIGS[chainId] ?? NETWORK_CONFIGS[196]`.
abbrev pub network_config : ℕ → NetworkConfig
network_config chain = if chain == 1 then ethereum else if chain == 677 then bot_chain else x_layer

pub record ValidatorMetrics : Type 0 where
  pub downtime_pct : ℕ
  pub prior_slashes : ℕ
  pub client_share_pct : ℕ
  pub has_circuit_breakers : Bool
  pub has_key_segregation : Bool
  pub humi_score : ℕ

-- The factors of `computeRiskMultiplier`, in tenths.
abbrev pub client_div_mult : ℕ → ℕ
client_div_mult share = if ltb 5000 share then 18 else if ltb 3300 share then 13 else 10

abbrev pub circuit_breaker_mult : Bool → ℕ
circuit_breaker_mult has = if has then 10 else 20

abbrev pub key_seg_mult : Bool → ℕ
key_seg_mult has = if has then 10 else 13

abbrev pub humi_mult : ℕ → ℕ
humi_mult score = if leb 800 score then 8 else if ltb score 400 then 15 else 10

abbrev pub downtime_mult : ℕ → ℕ
downtime_mult downtime = if ltb 500 downtime then 15 else if ltb 100 downtime then 12 else 10

abbrev pub slash_mult : ℕ → ℕ
slash_mult slashes = if leb 3 slashes then 20 else if leb 1 slashes then 15 else 10

-- The product of the factors, in millionths.
unfoldable pub raw_risk : ValidatorMetrics → ℕ
raw_risk m =
    client_div_mult m.client_share_pct
    * circuit_breaker_mult m.has_circuit_breakers
    * key_seg_mult m.has_key_segregation
    * humi_mult m.humi_score
    * downtime_mult m.downtime_pct
    * slash_mult m.prior_slashes

-- `computeRiskMultiplier`; the product times a hundred is rounded to the nearest, halves up.
unfoldable pub compute_risk_multiplier : ValidatorMetrics → ℕ
unfolding raw_risk
compute_risk_multiplier m = max 80 (min 300 ((raw_risk m + 5000) / 10000))

-- What `quoteStaking` returns, but for the input that it repeats and the fields for marketing.
pub record StakingQuote : Type 0 where
  pub covered_amount : ℕ
  pub risk_multiplier : ℕ
  pub annual_premium_bps : ℕ
  pub premium : ℕ
  pub collateral : ℕ
  pub total_upfront : ℕ

abbrev pub is_proven : NetworkRisk → Bool
is_proven proven = true
is_proven r = false

-- `annualPremium` and `premium`.
unfoldable pub annual_premium : ℕ → ℕ → ℕ → ℕ
annual_premium staked base risk = staked * base * risk / 1000000

unfoldable pub term_premium : ℕ → ℕ → ℕ
term_premium annual days = annual * days / 365

unfoldable pub first_loss : ℕ → ℕ → ℕ
first_loss staked percent = staked * percent / 10000

unfoldable pub collateral_of : NetworkConfig → ℕ → ℕ
collateral_of c covered =
    if not (is_proven c.network_risk) && ltb 0 c.collateral_ratio
    then covered * c.collateral_ratio / 100
    else 0

-- `quoteStaking` for a term of whole days.
unfoldable pub quote_staking : ℕ → ℕ → ℕ → ValidatorMetrics → StakingQuote
unfolding annual_premium term_premium first_loss collateral_of compute_risk_multiplier
quote_staking staked days chain m =
    let c = network_config chain in
    let covered = first_loss staked c.first_loss_percent in
    let risk = compute_risk_multiplier m in
    let cost = term_premium (annual_premium staked c.base_premium_bps risk) days in
    let deposit = collateral_of c covered in
    record {
      covered_amount = covered;
      risk_multiplier = risk;
      annual_premium_bps = (c.base_premium_bps * risk + 50) / 100;
      premium = cost;
      collateral = deposit;
      total_upfront = cost + deposit;
    }
