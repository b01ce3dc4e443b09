-- ===== src/Feedback/Execution.antt =====
-- `ExecutionFeedbackService` (zeus-secretariat/src/core/execution-feedback-service.ts). The store
-- is the operation that `getOperation` finds; `saveOperation` is the operation that is returned. The
-- in-memory store hands out the stored object, which the service changes even if it saves nothing.
pub mod Verdicts
use zeus_insurance_bot.Prelude.{
  ℕ, Bool, true, false, ◌||◌, Option, none, some, List, [], ◌∷◌, ◌++◌, Time, length, if◌then◌else◌,
}
use zeus_insurance_bot.Evidence.{
  Event, EvidenceRecord, EvidencePhase, state_transition, execution_feedback_skipped,
}
use zeus_insurance_bot.Execution.Types.{FinalStatus}
use zeus_insurance_bot.Operation.Status.{
  OperationStatus, PaymentStatus, ExecutionStatus, DeliveryStatus, execution_pending,
  execution_confirmed, execution_unknown, settlement_failed, policy_rejected, recovered, status_eq,
}
use zeus_insurance_bot.Operation.Fsm.{has_status, is_valid_transition}
use zeus_insurance_bot.Operation.Defs.{Operation}

-- `planExecutionTransitions`.
abbrev pub plan_execution_transitions : FinalStatus → Option (List OperationStatus)
plan_execution_transitions FinalStatus.success = some (
    execution_pending ∷ execution_confirmed ∷ OperationStatus.delivered ∷ OperationStatus.success
    ∷ [])
plan_execution_transitions FinalStatus.http_failure =
    some (execution_pending ∷ OperationStatus.failed ∷ [])
plan_execution_transitions FinalStatus.delivery_unknown =
    some (execution_pending ∷ execution_unknown ∷ [])
plan_execution_transitions FinalStatus.unresolvable =
    some (execution_pending ∷ execution_unknown ∷ [])
plan_execution_transitions FinalStatus.running = none
plan_execution_transitions FinalStatus.pending = none
plan_execution_transitions FinalStatus.attempted = none
plan_execution_transitions FinalStatus.completed = none
plan_execution_transitions FinalStatus.failed = none

-- `TERMINAL` of `applyResult`.
abbrev pub terminal : List OperationStatus
terminal =
    OperationStatus.success ∷ OperationStatus.failed ∷ OperationStatus.unresolvable
    ∷ policy_rejected ∷ settlement_failed ∷ recovered ∷ []

abbrev pub push_evidence : Event → Time → Operation → Operation
push_evidence e now op = record op {
  evidence =
      op.evidence
      ++ record {
        operation_id = op.operation_id;
        phase = EvidencePhase.execution;
        timestamp = now;
        event = e;
        sequence = some (length op.evidence);
      }
        ∷ [];
}

-- `applySideEffects`.
abbrev pub apply_side_effects : OperationStatus → Time → Operation → Operation
apply_side_effects OperationStatus.execution_pending now op = record op {
  execution_state = ExecutionStatus.pending;
  delivery_state = DeliveryStatus.pending;
}
apply_side_effects OperationStatus.execution_confirmed now op = record op {
  execution_state = ExecutionStatus.confirmed;
  timestamps = record (op.timestamps) { execution_confirmed_at = some now };
}
apply_side_effects OperationStatus.delivered now op = record op {
  delivery_state = DeliveryStatus.delivered;
  timestamps = record (op.timestamps) { delivered_at = some now };
}
apply_side_effects OperationStatus.success now op = record op {
  payment_state = PaymentStatus.settled;
  execution_state = ExecutionStatus.confirmed;
  delivery_state = DeliveryStatus.delivered;
  timestamps = record (op.timestamps) { completed_at = some now };
}
apply_side_effects OperationStatus.failed now op = record op {
  execution_state = ExecutionStatus.failed;
  delivery_state = DeliveryStatus.failed;
  timestamps = record (op.timestamps) { failed_at = some now };
}
apply_side_effects OperationStatus.execution_unknown now op = record op {
  execution_state = ExecutionStatus.unknown;
  delivery_state = DeliveryStatus.unknown;
}
apply_side_effects OperationStatus.unresolvable now op = record op {
  execution_state = ExecutionStatus.unknown;
  delivery_state = DeliveryStatus.unknown;
}
apply_side_effects _ now op = op

-- One legal step of the plan.
abbrev pub enter : OperationStatus → Time → Operation → Operation
enter next now op = push_evidence (state_transition op.current_state next) now (
    apply_side_effects next now (record op {
      current_state = next;
      timestamps = record (op.timestamps) { updated_at = now };
    }))

-- The loop over the plan; the flag is `appliedAny`.
unfoldable pub apply_plan : List OperationStatus → Time → Operation → Bool → Operation × Bool
apply_plan [] now op applied = (op, applied)
apply_plan (next ∷ plan) now op applied =
    let same = apply_plan plan now op applied in
    let moved = apply_plan plan now (enter next now op) true in
    if status_eq op.current_state next
    then same
    else if is_valid_transition op.current_state next
    then moved
    else (push_evidence (execution_feedback_skipped op.current_state next) now op, applied)

pub record Applied : Type 0 where
  pub applied : Bool
  pub current_state : Option OperationStatus
  -- The operation in the store after the call.
  pub stored : Option Operation

-- `applyResult`; the first argument says whether the store hands out the stored object (`live`) or a
-- copy of it, the second is what the store holds.
unfoldable pub apply_result : Bool → Option Operation → FinalStatus → Time → Applied
unfolding apply_plan
apply_result live stored final now = elim (plan_execution_transitions final) [
  | none ↦ record { applied = false; current_state = none; stored = stored }
  | some plan ↦ elim stored [
    | none ↦ record { applied = false; current_state = none; stored = none }
    | some op ↦
        if has_status terminal op.current_state
        then record { applied = false; current_state = some op.current_state; stored = some op }
        else (let (op', done) = apply_plan plan now op false in
            record {
              applied = done;
              current_state = some op'.current_state;
              stored = if done || live then some op' else some op;
            })
  ]
]
