-- ===== src/Egress/Tests.antt =====
-- The guard of outbound requests at a sample target.
use zeus_insurance_bot.Prelude.{
  ◌≡◌, ap, subst, get_or, true, false, Option, some, List, [], ◌∷◌, All, arith,
}
use zeus_insurance_bot.Egress.{Address, v4, quad, Env, Url, assert_egress_allowed, is_allowed}
use zeus_insurance_bot.Egress.Reference.{HasOctets, may_fetch, assert_egress_allowed_agrees}

-- The host has a public address and that of the cloud's metadata.
abbrev env : Env
env = record {
  allows_all = false;
  allowed_hosts = 3 ∷ [];
  resolve = λ host. some (v4 (quad 8 8 4 4) ∷ v4 (quad 169 254 169 254) ∷ []);
}

abbrev target : Option Url
target = some (record { is_http = true; host = 5 })

abbrev addresses : List Address
addresses = v4 (quad 8 8 4 4) ∷ v4 (quad 169 254 169 254) ∷ []

addresses-HasOctets : All HasOctets addresses
addresses-HasOctets = (
  record { a_lt = omega arith; b_lt = omega arith; c_lt = omega arith; d_lt = omega arith },
  (record { a_lt = omega arith; b_lt = omega arith; c_lt = omega arith; d_lt = omega arith }, tt),
)

some_injective : {A : Type 0} (a b : A) → some a ≡ some b → a ≡ b
some_injective a b e = ap (λ o. get_or o a) e

assert_egress_allowed_agrees_example :
    is_allowed (assert_egress_allowed env target) ≡ may_fetch env target
assert_egress_allowed_agrees_example =
    assert_egress_allowed_agrees env target
      (λ host given e. subst (All HasOctets) (some_injective addresses given e) addresses-HasOctets)
