-- ===== src/Egress.antt =====
-- The guard of outbound requests (zeus-secretariat/src/core/egress-guard.ts) on parsed addresses:
-- four octets, or the groups that `expandV6` gives, if it gives any. A mask is the rounding down to a multiple
-- of a power of two, and an `|` of disjoint bits a sum.
pub mod Reference
mod Tests
use zeus_insurance_bot.Prelude.{
  ℕ, ◌+◌, ◌-◌, ◌*◌, ◌/◌, ◌%◌, ◌^◌, Bool, true, false, ◌&&◌, ◌||◌, not, Option, none, some, List, [],
  ◌∷◌, Ident, includes, leb, ltb, ◌==◌, if◌then◌else◌,
}

pub record Quad : Type 0 where
  pub a : ℕ
  pub b : ℕ
  pub c : ℕ
  pub d : ℕ

abbrev pub quad : ℕ → ℕ → ℕ → ℕ → Quad
quad a b c d = record { a = a; b = b; c = c; d = d }

pub data Address : Type 0 where
  v4 : Quad → Address
  v6 : Option (List ℕ) → Address

-- `toInt`.
abbrev pub shift_in : ℕ → ℕ → ℕ
shift_in acc octet = (acc * 256 + octet % 256) % 4294967296

abbrev pub to_int : Quad → ℕ
to_int q = shift_in (shift_in (shift_in (shift_in 0 q.a) q.b) q.c) q.d

-- `x & mask` for the mask of the first `bits` of 32.
abbrev pub masked : ℕ → ℕ → ℕ
masked bits n = n / 2 ^ (32 - bits) * 2 ^ (32 - bits)

-- `ipv4InCidr`.
abbrev pub ipv4_in_cidr : Quad → Quad × ℕ → Bool
ipv4_in_cidr ip (range, bits) = masked bits (to_int ip) == masked bits (to_int range)

abbrev pub v4_blocked : List (Quad × ℕ)
v4_blocked =
    (quad 0 0 0 0, 8)
    ∷ (quad 10 0 0 0, 8)
    ∷ (quad 100 64 0 0, 10)
    ∷ (quad 127 0 0 0, 8)
    ∷ (quad 169 254 0 0, 16)
    ∷ (quad 172 16 0 0, 12)
    ∷ (quad 192 0 0 0, 24)
    ∷ (quad 192 0 2 0, 24)
    ∷ (quad 192 168 0 0, 16)
    ∷ (quad 198 18 0 0, 15)
    ∷ (quad 198 51 100 0, 24)
    ∷ (quad 203 0 113 0, 24)
    ∷ (quad 224 0 0 0, 4)
    ∷ (quad 240 0 0 0, 4)
    ∷ []

abbrev pub is_in_some : Quad → List (Quad × ℕ) → Bool
is_in_some ip [] = false
is_in_some ip (cidr ∷ rest) = ipv4_in_cidr ip cidr || is_in_some ip rest

-- `v6InCidr` on groups: the whole groups first, then the bits that are left.
abbrev pub v6_in_cidr : List ℕ → List ℕ → ℕ → Bool
v6_in_cidr [] ps bits = true
v6_in_cidr (g ∷ gs) [] bits = true
v6_in_cidr (g ∷ gs) (p ∷ ps) bits =
    let rest = v6_in_cidr gs ps (bits - 16) in
    if leb 16 bits then g == p && rest else bits == 0 || g / 2 ^ (16 - bits) == p / 2 ^ (16 - bits)

abbrev pub v6_blocked : List (List ℕ × ℕ)
v6_blocked =
    (0 ∷ 0 ∷ 0 ∷ 0 ∷ 0 ∷ 0 ∷ 0 ∷ 1 ∷ [], 128)
    ∷ (0 ∷ 0 ∷ 0 ∷ 0 ∷ 0 ∷ 0 ∷ 0 ∷ 0 ∷ [], 128)
    ∷ (0 ∷ 0 ∷ 0 ∷ 0 ∷ 0 ∷ 65535 ∷ 0 ∷ 0 ∷ [], 96)
    ∷ (65152 ∷ 0 ∷ 0 ∷ 0 ∷ 0 ∷ 0 ∷ 0 ∷ 0 ∷ [], 10)
    ∷ (64512 ∷ 0 ∷ 0 ∷ 0 ∷ 0 ∷ 0 ∷ 0 ∷ 0 ∷ [], 7)
    ∷ (65280 ∷ 0 ∷ 0 ∷ 0 ∷ 0 ∷ 0 ∷ 0 ∷ 0 ∷ [], 8)
    ∷ (100 ∷ 65435 ∷ 0 ∷ 0 ∷ 0 ∷ 0 ∷ 0 ∷ 0 ∷ [], 96)
    ∷ (8194 ∷ 0 ∷ 0 ∷ 0 ∷ 0 ∷ 0 ∷ 0 ∷ 0 ∷ [], 16)
    ∷ []

abbrev pub is_in_some_v6 : List ℕ → List (List ℕ × ℕ) → Bool
is_in_some_v6 groups [] = false
is_in_some_v6 groups ((prefix, bits) ∷ rest) =
    v6_in_cidr groups prefix bits || is_in_some_v6 groups rest

-- The address in `::ffff:a.b.c.d`.
abbrev pub embedded : List ℕ → Option Quad
embedded (a ∷ b ∷ c ∷ d ∷ e ∷ g ∷ hi ∷ lo ∷ []) =
    if a == 0 && b == 0 && c == 0 && d == 0 && e == 0 && g == 65535
    then some (quad (hi / 256 % 256) (hi % 256) (lo / 256 % 256) (lo % 256))
    else none
embedded groups = none

-- `isPrivateOrReservedAddress`.
unfoldable pub is_private_or_reserved_address : Address → Bool
is_private_or_reserved_address (v4 q) = is_in_some q v4_blocked
is_private_or_reserved_address (v6 none) = false
is_private_or_reserved_address (v6 (some groups)) =
    is_in_some_v6 groups v6_blocked
    || elim (embedded groups) [ none ↦ false | some q ↦ is_in_some q v4_blocked ]

pub data Verdict : Type 0 where
  allowed bad_url bad_scheme no_resolution no_addresses private_address : Verdict

-- A target that parses: whether its scheme is HTTP or HTTPS, and its host.
pub record Url : Type 0 where
  pub is_http : Bool
  pub host : Ident

-- The policy of the environment, and the resolver, which may throw.
pub record Env : Type 0 where
  pub allows_all : Bool
  pub allowed_hosts : List Ident
  pub resolve : Ident → Option (List Address)

-- `addresses.find(…)` is there.
abbrev pub has_private : List Address → Bool
has_private [] = false
has_private (a ∷ rest) = is_private_or_reserved_address a || has_private rest

abbrev pub check_addresses : List Address → Verdict
check_addresses [] = no_addresses
check_addresses (a ∷ rest) = if has_private (a ∷ rest) then private_address else allowed

-- `assertEgressAllowed`; the errors are verdicts.
unfoldable pub assert_egress_allowed : Env → Option Url → Verdict
assert_egress_allowed env target = if env.allows_all then allowed else elim target [
  | none ↦ bad_url
  | some url ↦
      if not url.is_http
      then bad_scheme
      else if includes env.allowed_hosts url.host
      then allowed
      else elim (env.resolve url.host) [
        | none ↦ no_resolution
        | some addresses ↦ check_addresses addresses
      ]
]

abbrev pub is_allowed : Verdict → Bool
is_allowed allowed = true
is_allowed _ = false
