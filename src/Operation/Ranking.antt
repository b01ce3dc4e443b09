-- ===== src/Operation/Ranking.antt =====
-- What the transition table guarantees: no cycle, and no way back from a submitted payment to
-- a plain failure (zeus-secretariat/src/core/operation-fsm.ts).
use zeus_insurance_bot.Prelude.{ℕ, suc, ◌+◌, ◌≡◌, ◌≢◌, ◌<◌, ◌≤◌, ap, true, arith}
use zeus_insurance_bot.Operation.Status.{
  OperationStatus, created, discovering, payment_required, awaiting_signature, payment_submitted,
  settlement_pending, settlement_unknown, execution_pending, execution_confirmed, success,
  policy_rejected, settlement_failed, execution_unknown, recovery_pending, recovered, unresolvable,
}
use zeus_insurance_bot.Operation.Fsm.{is_valid_transition, Reaches, one, then}

-- How far along its life a status is.
abbrev pub stage : OperationStatus → ℕ
stage created = 0
stage discovering = 1
stage payment_required = 2
stage awaiting_signature = 3
stage OperationStatus.authorized = 4
stage payment_submitted = 5
stage settlement_pending = 6
stage settlement_unknown = 7
stage OperationStatus.settled = 8
stage execution_pending = 9
stage execution_confirmed = 10
stage OperationStatus.delivered = 11
stage settlement_failed = 11
stage execution_unknown = 12
stage recovery_pending = 13
stage success = 14
stage OperationStatus.failed = 14
stage policy_rejected = 14
stage recovered = 14
stage unresolvable = 14

-- A legal transition raises the stage.
pub stage_grows : (s t : OperationStatus) → is_valid_transition s t ≡ true → stage s < stage t
stage_grows created t h = ground arith
stage_grows _ t h = ground arith

pub Reaches-stage : {s t : OperationStatus} → Reaches s t → stage s < stage t
Reaches-stage (one h) = stage_grows _ _ h
Reaches-stage (then {s = a} {t = b} h r) = omega (arith, stage_grows a b h, Reaches-stage r)

-- The number of transitions of a chain.
abbrev pub steps : {s t : OperationStatus} → Reaches s t → ℕ
steps (one h) = 1
steps (then h r) = suc (steps r)

stage_room : {s t : OperationStatus} (r : Reaches s t) → stage s + steps r ≤ stage t
stage_room (one {s = a} {t = b} h) = omega (arith, stage_grows a b h)
stage_room (then {s = a} {t = b} h r) = omega (arith, stage_grows a b h, stage_room r)

stage-le : (s : OperationStatus) → stage s ≤ 14
stage-le created = omega arith
stage-le _ = omega arith

-- Every chain of legal transitions has at most 14 of them, and never comes back to its start.
pub Reaches_bounded :
    {s t : OperationStatus} (r : Reaches s t) → (steps r ≤ 14) × (stage s < stage t) × (s ≢ t)
Reaches_bounded {s} {t} r =
    (omega (arith, stage_room r, stage-le t), Reaches-stage r, λ e. apart r e)
  where
    apart : Reaches s t → s ≢ t
    apart q e = absurd (omega (arith, Reaches-stage q, ap stage e))

-- The payment is on its way or its fate is open for good.
abbrev pub IsInFlight : OperationStatus → Type 0
IsInFlight payment_submitted = Unit {0}
IsInFlight settlement_pending = Unit {0}
IsInFlight settlement_unknown = Unit {0}
IsInFlight unresolvable = Unit {0}
IsInFlight _ = ⊥

-- A chain that does not pass through a verdict on the settlement.
pub data ReachesOpen : OperationStatus → OperationStatus → Type 0 where
  here : {s : OperationStatus} → ReachesOpen s s
  next :
      {s t u : OperationStatus}
      → ReachesOpen s t
      → is_valid_transition t u ≡ true
      → u ≢ OperationStatus.settled
      → u ≢ settlement_failed
      → ReachesOpen s u

step-IsInFlight :
    (s t : OperationStatus)
    → IsInFlight s
    → is_valid_transition s t ≡ true
    → t ≢ OperationStatus.settled
    → t ≢ settlement_failed
    → IsInFlight t
step-IsInFlight payment_submitted t i h a b = ground arith
step-IsInFlight _ t i h a b = ground arith

pub ReachesOpen-IsInFlight : {s t : OperationStatus} → IsInFlight s → ReachesOpen s t → IsInFlight t
ReachesOpen-IsInFlight i here = i
ReachesOpen-IsInFlight i (next r h a b) = step-IsInFlight _ _ (ReachesOpen-IsInFlight i r) h a b

-- From a submitted payment no chain of legal transitions that skips both verdicts on the
-- settlement, SETTLED and SETTLEMENT_FAILED, ends in FAILED or in SUCCESS.
pub submitted_never_fails_silently :
    {t : OperationStatus}
    → ReachesOpen payment_submitted t
    → (t ≢ OperationStatus.failed) × (t ≢ success)
submitted_never_fails_silently {t} r = ends t (ReachesOpen-IsInFlight {s = payment_submitted} tt r)
  where
    ends : (u : OperationStatus) → IsInFlight u → (u ≢ OperationStatus.failed) × (u ≢ success)
    ends payment_submitted i = (λ e. cc, λ e. cc)
    ends settlement_pending i = (λ e. cc, λ e. cc)
    ends settlement_unknown i = (λ e. cc, λ e. cc)
    ends unresolvable i = (λ e. cc, λ e. cc)
    ends _ i = absurd i
