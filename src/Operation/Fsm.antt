-- ===== src/Operation/Fsm.antt =====
-- The transition table and its test (zeus-secretariat/src/core/operation-fsm.ts).
use zeus_insurance_bot.Prelude.{◌≡◌, Bool, true, false, List, [], ◌∷◌, if◌then◌else◌}
use zeus_insurance_bot.Operation.Status.{
  OperationStatus, created, discovering, payment_required, awaiting_signature, payment_submitted,
  settlement_pending, settlement_unknown, execution_pending, execution_confirmed, success,
  policy_rejected, settlement_failed, execution_unknown, recovery_pending, recovered, unresolvable,
  status_eq,
}

-- `VALID_TRANSITIONS`.
abbrev pub valid_transitions : OperationStatus → List OperationStatus
valid_transitions created = discovering ∷ OperationStatus.failed ∷ []
valid_transitions discovering = payment_required ∷ success ∷ OperationStatus.failed ∷ []
valid_transitions payment_required =
    awaiting_signature ∷ OperationStatus.authorized ∷ policy_rejected ∷ OperationStatus.failed ∷ []
valid_transitions awaiting_signature = OperationStatus.authorized ∷ OperationStatus.failed ∷ []
valid_transitions OperationStatus.authorized = payment_submitted ∷ OperationStatus.failed ∷ []
valid_transitions payment_submitted =
    settlement_pending ∷ settlement_unknown ∷ OperationStatus.settled ∷ settlement_failed
    ∷ unresolvable ∷ []
valid_transitions settlement_pending =
    OperationStatus.settled ∷ settlement_unknown ∷ settlement_failed ∷ unresolvable ∷ []
valid_transitions settlement_unknown =
    OperationStatus.settled ∷ settlement_failed ∷ unresolvable ∷ []
valid_transitions OperationStatus.settled = execution_pending ∷ execution_unknown ∷ []
valid_transitions execution_pending =
    execution_confirmed ∷ execution_unknown ∷ OperationStatus.failed ∷ []
valid_transitions execution_confirmed = OperationStatus.delivered ∷ OperationStatus.failed ∷ []
valid_transitions OperationStatus.delivered = success ∷ []
valid_transitions success = []
valid_transitions OperationStatus.failed = []
valid_transitions policy_rejected = []
valid_transitions settlement_failed = OperationStatus.failed ∷ []
valid_transitions execution_unknown = recovery_pending ∷ OperationStatus.failed ∷ []
valid_transitions recovery_pending =
    recovered ∷ success ∷ unresolvable ∷ OperationStatus.failed ∷ []
valid_transitions recovered = []
valid_transitions unresolvable = []

-- `xs.includes(s)`.
abbrev pub has_status : List OperationStatus → OperationStatus → Bool
has_status [] s = false
has_status (x ∷ xs) s = if status_eq x s then true else has_status xs s

-- `isValidTransition`.
abbrev pub is_valid_transition : OperationStatus → OperationStatus → Bool
is_valid_transition from to = has_status (valid_transitions from) to

-- One or more legal transitions.
pub data Reaches : OperationStatus → OperationStatus → Type 0 where
  one : {s t : OperationStatus} → is_valid_transition s t ≡ true → Reaches s t
  then : {s t u : OperationStatus} → is_valid_transition s t ≡ true → Reaches t u → Reaches s u
