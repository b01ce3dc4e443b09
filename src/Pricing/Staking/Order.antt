-- ===== src/Pricing/Staking/Order.antt =====
-- A safer validator pays no more (api-server/src/services/staking-pricing.ts).
use native.Mathlib.Nat.{mul-le-mul, le_refl}
use zeus_insurance_bot.Prelude.{ℕ, ◌≤◌, ◌≡◌, arith, true, false, Bool}
use zeus_insurance_bot.Pricing.Staking.{
  ValidatorMetrics, NetworkConfig, network_config, raw_risk, compute_risk_multiplier,
  annual_premium, term_premium, first_loss, collateral_of, quote_staking, client_div_mult,
  circuit_breaker_mult, key_seg_mult, humi_mult, downtime_mult, slash_mult,
}

-- The first validator is as safe as the second in every respect.
pub record IsSafer (m k : ValidatorMetrics) : Type 0 where
  pub less_downtime : m.downtime_pct ≤ k.downtime_pct
  pub fewer_slashes : m.prior_slashes ≤ k.prior_slashes
  pub less_share : m.client_share_pct ≤ k.client_share_pct
  pub keeps_breakers : k.has_circuit_breakers ≡ true → m.has_circuit_breakers ≡ true
  pub keeps_segregation : k.has_key_segregation ≡ true → m.has_key_segregation ≡ true
  pub more_trust : k.humi_score ≤ m.humi_score

client_div_mono : (a b : ℕ) → a ≤ b → client_div_mult a ≤ client_div_mult b
client_div_mono a b h = ground arith

circuit_breaker_mono :
    (a b : Bool) → (b ≡ true → a ≡ true) → circuit_breaker_mult a ≤ circuit_breaker_mult b
circuit_breaker_mono true b h = ground arith
circuit_breaker_mono false true h = absurd (ground (arith, h))
circuit_breaker_mono false false h = omega arith

key_seg_mono : (a b : Bool) → (b ≡ true → a ≡ true) → key_seg_mult a ≤ key_seg_mult b
key_seg_mono true b h = ground arith
key_seg_mono false true h = absurd (ground (arith, h))
key_seg_mono false false h = omega arith

humi_mono : (a b : ℕ) → b ≤ a → humi_mult a ≤ humi_mult b
humi_mono a b h = ground arith

downtime_mono : (a b : ℕ) → a ≤ b → downtime_mult a ≤ downtime_mult b
downtime_mono a b h = ground arith

slash_mono : (a b : ℕ) → a ≤ b → slash_mult a ≤ slash_mult b
slash_mono a b h = ground arith

raw_risk_mono : (m k : ValidatorMetrics) → IsSafer m k → raw_risk m ≤ raw_risk k
unfolding raw_risk
raw_risk_mono m k s =
    mul-le-mul
      (mul-le-mul
        (mul-le-mul
          (mul-le-mul
            (mul-le-mul (client_div_mono m.client_share_pct k.client_share_pct s.less_share)
              (circuit_breaker_mono m.has_circuit_breakers k.has_circuit_breakers s.keeps_breakers))
            (key_seg_mono m.has_key_segregation k.has_key_segregation s.keeps_segregation))
          (humi_mono m.humi_score k.humi_score s.more_trust))
        (downtime_mono m.downtime_pct k.downtime_pct s.less_downtime))
      (slash_mono m.prior_slashes k.prior_slashes s.fewer_slashes)

risk_mono :
    (m k : ValidatorMetrics) → IsSafer m k → compute_risk_multiplier m ≤ compute_risk_multiplier k
unfolding compute_risk_multiplier
risk_mono m k s = ground (arith, raw_risk_mono m k s)

annual_premium_mono :
    (s t base r u : ℕ) → s ≤ t → r ≤ u → annual_premium s base r ≤ annual_premium t base u
unfolding annual_premium
annual_premium_mono s t base r u h k = omega (arith, mul-le-mul (mul-le-mul h (le_refl base)) k)

term_premium_mono : (a b d e : ℕ) → a ≤ b → d ≤ e → term_premium a d ≤ term_premium b e
unfolding term_premium
term_premium_mono a b d e h k = omega (arith, mul-le-mul h k)

first_loss_mono : (s t percent : ℕ) → s ≤ t → first_loss s percent ≤ first_loss t percent
unfolding first_loss
first_loss_mono s t percent h = omega (arith, mul-le-mul h (le_refl percent))

collateral_of_mono : (c : NetworkConfig) (a b : ℕ) → a ≤ b → collateral_of c a ≤ collateral_of c b
unfolding collateral_of
collateral_of_mono c a b h = ground (arith, mul-le-mul h (le_refl c.collateral_ratio))

-- On the same network, a smaller stake for a shorter term with a validator that is as safe in every
-- respect costs no more, and needs no more to be paid in advance.
pub quote_staking_mono :
    (staked more days longer chain : ℕ) (m k : ValidatorMetrics)
    → staked ≤ more
    → days ≤ longer
    → IsSafer m k
    → let q = quote_staking staked days chain m in
      let p = quote_staking more longer chain k in
      (q.premium ≤ p.premium)
      × (q.covered_amount ≤ p.covered_amount)
      × (q.total_upfront ≤ p.total_upfront)
unfolding quote_staking
quote_staking_mono staked more days longer chain m k hs hd safer =
    let c = network_config chain in
    let cheaper =
      annual_premium_mono staked more c.base_premium_bps (compute_risk_multiplier m)
        (compute_risk_multiplier k) hs (risk_mono m k safer) in
    let cost = term_premium_mono _ _ days longer cheaper hd in
    let cover = first_loss_mono staked more c.first_loss_percent hs in
    (cost, cover, omega (arith, collateral_of_mono c _ _ cover))
