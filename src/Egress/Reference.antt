-- ===== src/Egress/Reference.antt =====
-- The guard decides as a description by octets does (zeus-secretariat/src/core/egress-guard.ts).
use zeus_insurance_bot.Prelude.{
  ◌≡◌, refl, ◌+◌, ◌*◌, ◌<◌, Bool, false, ◌&&◌, ◌||◌, not, Option, none, some, Option-cases, inl,
  inr, List, [], ◌∷◌, All, Ident, every, includes, leb, ltb, ◌==◌, arith,
}
use zeus_insurance_bot.Egress.{
  Quad, quad, Address, v4, v6, to_int, ipv4_in_cidr, is_in_some, v4_blocked, Env, Url,
  is_private_or_reserved_address, has_private, check_addresses, assert_egress_allowed, is_allowed,
}

-- The octets are octets.
pub record IsQuad (q : Quad) : Type 0 where
  pub a_lt : q.a < 256
  pub b_lt : q.b < 256
  pub c_lt : q.c < 256
  pub d_lt : q.d < 256

-- The addresses that are private or reserved, by their octets.
abbrev pub is_reserved : Quad → Bool
is_reserved q =
    q.a == 0
    || q.a == 10
    || (q.a == 100 && leb 64 q.b && ltb q.b 128)
    || q.a == 127
    || (q.a == 169 && q.b == 254)
    || (q.a == 172 && leb 16 q.b && ltb q.b 32)
    || (q.a == 192 && (q.b == 0 && (q.c == 0 || q.c == 2) || q.b == 168))
    || (q.a == 198 && (q.b == 18 || q.b == 19 || q.b == 51 && q.c == 100))
    || (q.a == 203 && q.b == 0 && q.c == 113)
    || leb 224 q.a

to_int_value : (q : Quad) → IsQuad q → to_int q ≡ q.a * 16777216 + q.b * 65536 + q.c * 256 + q.d
to_int_value q h = ground (arith, h.a_lt, h.b_lt, h.c_lt, h.d_lt)

module _ (q : Quad) (h : IsQuad q) where
  zero_net : ipv4_in_cidr q (quad 0 0 0 0, 8) ≡ (q.a == 0)
  zero_net = rw (to_int_value q h) (ground (arith, h.a_lt, h.b_lt, h.c_lt, h.d_lt))

  ten_net : ipv4_in_cidr q (quad 10 0 0 0, 8) ≡ (q.a == 10)
  ten_net = rw (to_int_value q h) (ground (arith, h.a_lt, h.b_lt, h.c_lt, h.d_lt))

  carrier : ipv4_in_cidr q (quad 100 64 0 0, 10) ≡ (q.a == 100 && leb 64 q.b && ltb q.b 128)
  carrier = rw (to_int_value q h) (ground (arith, h.a_lt, h.b_lt, h.c_lt, h.d_lt))

  loopback : ipv4_in_cidr q (quad 127 0 0 0, 8) ≡ (q.a == 127)
  loopback = rw (to_int_value q h) (ground (arith, h.a_lt, h.b_lt, h.c_lt, h.d_lt))

  link_local : ipv4_in_cidr q (quad 169 254 0 0, 16) ≡ (q.a == 169 && q.b == 254)
  link_local = rw (to_int_value q h) (ground (arith, h.a_lt, h.b_lt, h.c_lt, h.d_lt))

  private_172 : ipv4_in_cidr q (quad 172 16 0 0, 12) ≡ (q.a == 172 && leb 16 q.b && ltb q.b 32)
  private_172 = rw (to_int_value q h) (ground (arith, h.a_lt, h.b_lt, h.c_lt, h.d_lt))

  assignments : ipv4_in_cidr q (quad 192 0 0 0, 24) ≡ (q.a == 192 && q.b == 0 && q.c == 0)
  assignments = rw (to_int_value q h) (ground (arith, h.a_lt, h.b_lt, h.c_lt, h.d_lt))

  test_net_1 : ipv4_in_cidr q (quad 192 0 2 0, 24) ≡ (q.a == 192 && q.b == 0 && q.c == 2)
  test_net_1 = rw (to_int_value q h) (ground (arith, h.a_lt, h.b_lt, h.c_lt, h.d_lt))

  private_192 : ipv4_in_cidr q (quad 192 168 0 0, 16) ≡ (q.a == 192 && q.b == 168)
  private_192 = rw (to_int_value q h) (ground (arith, h.a_lt, h.b_lt, h.c_lt, h.d_lt))

  benchmark : ipv4_in_cidr q (quad 198 18 0 0, 15) ≡ (q.a == 198 && (q.b == 18 || q.b == 19))
  benchmark = rw (to_int_value q h) (ground (arith, h.a_lt, h.b_lt, h.c_lt, h.d_lt))

  test_net_2 : ipv4_in_cidr q (quad 198 51 100 0, 24) ≡ (q.a == 198 && q.b == 51 && q.c == 100)
  test_net_2 = rw (to_int_value q h) (ground (arith, h.a_lt, h.b_lt, h.c_lt, h.d_lt))

  test_net_3 : ipv4_in_cidr q (quad 203 0 113 0, 24) ≡ (q.a == 203 && q.b == 0 && q.c == 113)
  test_net_3 = rw (to_int_value q h) (ground (arith, h.a_lt, h.b_lt, h.c_lt, h.d_lt))

  multicast : ipv4_in_cidr q (quad 224 0 0 0, 4) ≡ (leb 224 q.a && ltb q.a 240)
  multicast = rw (to_int_value q h) (ground (arith, h.a_lt, h.b_lt, h.c_lt, h.d_lt))

  reserved : ipv4_in_cidr q (quad 240 0 0 0, 4) ≡ leb 240 q.a
  reserved = rw (to_int_value q h) (ground (arith, h.a_lt, h.b_lt, h.c_lt, h.d_lt))

  blocked-is_reserved : is_in_some q v4_blocked ≡ is_reserved q
  blocked-is_reserved =
      rw
        (
          zero_net, ten_net, carrier, loopback, link_local, private_172, assignments, test_net_1,
          private_192, benchmark, test_net_2, test_net_3, multicast, reserved,
        )
        (ground (arith, h.a_lt))

-- The octets of an address are octets.
abbrev pub HasOctets : Address → Type 0
HasOctets (v4 q) = IsQuad q
HasOctets (v6 groups) = Unit {0}

-- An address that may be reached.
abbrev pub is_open : Address → Bool
is_open (v4 q) = not (is_reserved q)
is_open (v6 groups) = not (is_private_or_reserved_address (v6 groups))

abbrev pub all_open : Option (List Address) → Bool
all_open none = false
all_open (some []) = false
all_open (some (a ∷ rest)) = every is_open (a ∷ rest)

-- What the guard has to answer.
abbrev pub may_fetch : Env → Option Url → Bool
may_fetch env none = env.allows_all
may_fetch env (some url) =
    env.allows_all
    || url.is_http && (includes env.allowed_hosts url.host || all_open (env.resolve url.host))

private-is_open : (a : Address) → HasOctets a → is_private_or_reserved_address a ≡ not (is_open a)
unfolding is_private_or_reserved_address
private-is_open (v4 q) octets = ground (arith, blocked-is_reserved q octets)
private-is_open (v6 groups) octets = ground arith

has_private-every :
    (addresses : List Address)
    → All HasOctets addresses
    → has_private addresses ≡ not (every is_open addresses)
has_private-every [] octets = refl
has_private-every (a ∷ rest) (octets, more) =
    rw (private-is_open a octets, has_private-every rest more) (ground arith)

resolved :
    (addresses : List Address)
    → All HasOctets addresses
    → is_allowed (check_addresses addresses) ≡ all_open (some addresses)
resolved [] octets = refl
resolved (a ∷ rest) octets = ground (arith, has_private-every (a ∷ rest) octets)

-- The guard allows a request exactly if the policy allows all, or the target parses, is HTTP or
-- HTTPS, and is either an exempt host or one that resolves, to at least one address, and to no
-- address that is private or reserved; for an address of version 4 that is said by its octets. This
-- supposes a resolver that gives octets below 256.
pub assert_egress_allowed_agrees :
    (env : Env) (target : Option Url)
    → ((host : Ident) (addresses : List Address)
        → env.resolve host ≡ some addresses
        → All HasOctets addresses)
    → is_allowed (assert_egress_allowed env target) ≡ may_fetch env target
unfolding assert_egress_allowed
assert_egress_allowed_agrees env none octets = ground arith
assert_egress_allowed_agrees env (some url) octets = elim (Option-cases (env.resolve url.host)) [
  | inl missing ↦ rw (missing, assert_egress_allowed) (ground arith)
  | inr (addresses, found) ↦
      rw (found, assert_egress_allowed)
        (ground (arith, resolved addresses (octets url.host addresses found)))
]
