-- ===== src/Feedback/Settlement.antt =====
-- `SettlementFeedbackService` (zeus-secretariat/src/core/settlement-feedback-service.ts). The store
-- is the operation that `getOperation` finds; `saveOperation` is the operation that is returned. The
-- in-memory store hands out the stored object, which the service changes even if it saves nothing.
pub mod Verdicts
use zeus_insurance_bot.Prelude.{
  ℕ, Bool, true, false, ◌||◌, Option, none, some, List, [], ◌∷◌, ◌++◌, Time, length, or_else,
  is_some, if◌then◌else◌,
}
use zeus_insurance_bot.Evidence.{
  Event, EvidenceRecord, EvidencePhase, state_transition, settlement_feedback_skipped,
  standard_execution_discharged,
}
use zeus_insurance_bot.Intent.Types.{
  StandardPaidCallRecord, standard_paid_call, other_body, ReconciliationOutcome,
  DurablePaymentIntent,
}
use zeus_insurance_bot.Operation.Status.{
  OperationStatus, PaymentStatus, ExecutionStatus, DeliveryStatus, execution_pending,
  execution_confirmed, execution_unknown, settlement_failed, policy_rejected, recovered,
  recovery_pending, status_eq,
}
use zeus_insurance_bot.Operation.Fsm.{has_status, is_valid_transition}
use zeus_insurance_bot.Operation.Defs.{
  Operation, ExecutionEvidence, EvidenceSource, standard_transport, other_source,
}
use zeus_insurance_bot.Feedback.Execution.{Applied}

-- `planSettlementTransitions`.
abbrev pub plan_settlement_transitions : ReconciliationOutcome → Option (List OperationStatus)
plan_settlement_transitions (ReconciliationOutcome.settled e) = some (OperationStatus.settled ∷ [])
plan_settlement_transitions (ReconciliationOutcome.not_settled e) =
    some (settlement_failed ∷ OperationStatus.failed ∷ [])
plan_settlement_transitions ReconciliationOutcome.unresolved_manual =
    some (OperationStatus.unresolvable ∷ [])
plan_settlement_transitions ReconciliationOutcome.incident =
    some (OperationStatus.unresolvable ∷ [])
plan_settlement_transitions (ReconciliationOutcome.reconciling n) = none

-- `TERMINAL` of `applyOutcome`.
abbrev pub closed : List OperationStatus
closed =
    OperationStatus.success ∷ OperationStatus.failed ∷ OperationStatus.unresolvable
    ∷ policy_rejected ∷ recovered ∷ []

-- `x === "CONFIRMED" ? x : y`.
abbrev pub unless_confirmed : ExecutionStatus → ExecutionStatus → ExecutionStatus
unless_confirmed ExecutionStatus.confirmed y = ExecutionStatus.confirmed
unless_confirmed _ y = y

-- `x === "DELIVERED" ? x : "FAILED"`.
abbrev pub failed_unless_delivered : DeliveryStatus → DeliveryStatus
failed_unless_delivered DeliveryStatus.delivered = DeliveryStatus.delivered
failed_unless_delivered _ = DeliveryStatus.failed

-- `applySideEffects`.
abbrev pub settle_side_effects : OperationStatus → Time → Operation → Operation
settle_side_effects OperationStatus.settled now op = record op {
  payment_state = PaymentStatus.settled;
  timestamps = record (op.timestamps) { settled_at = or_else op.timestamps.settled_at (some now) };
}
settle_side_effects OperationStatus.settlement_failed now op = record op {
  payment_state = PaymentStatus.failed;
}
settle_side_effects OperationStatus.failed now op = record op {
  payment_state = PaymentStatus.failed;
  execution_state = unless_confirmed op.execution_state ExecutionStatus.failed;
  delivery_state = failed_unless_delivered op.delivery_state;
  timestamps = record (op.timestamps) { failed_at = or_else op.timestamps.failed_at (some now) };
}
settle_side_effects OperationStatus.unresolvable now op = record op {
  payment_state = PaymentStatus.failed;
}
settle_side_effects OperationStatus.execution_pending now op = record op {
  execution_state = unless_confirmed op.execution_state ExecutionStatus.pending;
}
settle_side_effects OperationStatus.execution_confirmed now op = record op {
  execution_state = ExecutionStatus.confirmed;
  timestamps = record (op.timestamps) {
    execution_confirmed_at = or_else op.timestamps.execution_confirmed_at (some now);
  };
}
settle_side_effects OperationStatus.execution_unknown now op = record op {
  execution_state = unless_confirmed op.execution_state ExecutionStatus.unknown;
}
settle_side_effects OperationStatus.delivered now op = record op {
  delivery_state = DeliveryStatus.delivered;
  timestamps = record (op.timestamps) {
    delivered_at = or_else op.timestamps.delivered_at (some now);
  };
}
settle_side_effects OperationStatus.success now op = record op {
  delivery_state = DeliveryStatus.delivered;
  timestamps = record (op.timestamps) {
    completed_at = or_else op.timestamps.completed_at (some now);
  };
}
settle_side_effects _ now op = op

abbrev pub push_phase : EvidencePhase → Event → Time → Operation → Operation
push_phase phase e now op = record op {
  evidence =
      op.evidence
      ++ record {
        operation_id = op.operation_id;
        phase = phase;
        timestamp = now;
        event = e;
        sequence = some (length op.evidence);
      }
        ∷ [];
}

-- One legal step of the plan.
abbrev pub advance : OperationStatus → Time → Operation → Operation
advance next now op =
    push_phase EvidencePhase.settlement (state_transition op.current_state next) now (
      settle_side_effects next now (record op {
        current_state = next;
        timestamps = record (op.timestamps) { updated_at = now };
      }))

-- The loop over the plan; the flag is `appliedAny`.
unfoldable pub apply_steps : List OperationStatus → Time → Operation → Bool → Operation × Bool
apply_steps [] now op applied = (op, applied)
apply_steps (next ∷ plan) now op applied =
    let same = apply_steps plan now op applied in
    let moved = apply_steps plan now (advance next now op) true in
    if status_eq op.current_state next
    then same
    else if is_valid_transition op.current_state next
    then moved
    else (
      push_phase EvidencePhase.settlement (settlement_feedback_skipped op.current_state next) now
          op,
      applied,
    )

-- `readStandardMarker` on the intent that the durable reader answers with.
abbrev pub read_standard_marker : Option DurablePaymentIntent → Option StandardPaidCallRecord
read_standard_marker none = none
read_standard_marker (some i) = elim (i.facilitator_response_body) [
  | none ↦ none
  | some (standard_paid_call r) ↦ some r
  | some (other_body b) ↦ none
]

-- `operation.executionEvidence?.source === "STANDARD_TRANSPORT"`.
abbrev pub is_discharged : Option ExecutionEvidence → Bool
is_discharged none = false
is_discharged (some e) = elim (e.source) [ standard_transport ↦ true | other_source ↦ false ]

-- `hasResult`.
abbrev pub has_result : StandardPaidCallRecord → Operation → Bool
has_result m op = is_some m.seller_body || is_discharged op.execution_evidence

-- The steps that complete a paid call of the standard transport.
abbrev pub inline_steps : Bool → List OperationStatus
inline_steps true =
    execution_pending ∷ execution_confirmed ∷ OperationStatus.delivered ∷ OperationStatus.success
    ∷ []
inline_steps false = execution_unknown ∷ recovery_pending ∷ OperationStatus.unresolvable ∷ []

-- The operation with the result that the marker holds.
abbrev pub discharge : StandardPaidCallRecord → Time → Operation → Operation
discharge m now op =
    push_phase EvidencePhase.execution (standard_execution_discharged (has_result m op)) now
      (record op {
        result_data = or_else m.seller_body op.result_data;
        execution_evidence =
            if is_discharged op.execution_evidence
            then op.execution_evidence
            else some (record {
              status_code = m.seller_http_status;
              body = m.seller_body;
              timestamp = m.captured_at;
              source = standard_transport;
            });
      })

-- The plan and the operation with which the loop starts.
abbrev pub prepare :
    List OperationStatus
    → Option StandardPaidCallRecord
    → Time
    → Operation
    → List OperationStatus × Operation
prepare plan none now op = (plan, op)
prepare plan (some m) now op =
    if has_status plan OperationStatus.settled
    then (plan ++ inline_steps (has_result m op), discharge m now op)
    else (plan, op)

-- `applyOutcome`: whether the store hands out the stored object, what it holds, and the intent that
-- the durable reader finds (`none` without a reader, without a `paymentIntentId`, or when the reader
-- throws).
unfoldable pub apply_outcome :
    Bool → Option Operation → ReconciliationOutcome → Option DurablePaymentIntent → Time → Applied
unfolding apply_steps
apply_outcome live stored outcome intent now = elim (plan_settlement_transitions outcome) [
  | none ↦ record { applied = false; current_state = none; stored = stored }
  | some plan ↦ elim stored [
    | none ↦ record { applied = false; current_state = none; stored = none }
    | some op ↦
        if has_status closed op.current_state
        then record { applied = false; current_state = some op.current_state; stored = some op }
        else (let (steps, started) = prepare plan (read_standard_marker intent) now op in
            let (op', done) = apply_steps steps now started false in
            record {
              applied = done;
              current_state = some op'.current_state;
              stored = if done || live then some op' else some op;
            })
  ]
]
