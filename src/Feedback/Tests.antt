-- ===== src/Feedback/Tests.antt =====
-- The theorems on feedback at a sample operation.
use zeus_insurance_bot.Prelude.{◌≡◌, ◌⊎◌, refl, true, false, some, none, suc, length, get_or}
use zeus_insurance_bot.Execution.Types.{FinalStatus}
use zeus_insurance_bot.Operation.Status.{
  OperationStatus, PaymentStatus, ExecutionStatus, DeliveryStatus,
}
use zeus_insurance_bot.Operation.Defs.{Operation}
use zeus_insurance_bot.Feedback.Execution.{apply_result}
use zeus_insurance_bot.Feedback.Execution.Verdicts.{
  resumes, Follows, AddsEvidence, apply_result-open, late_success_lost, apply_result-Follows,
}
use zeus_insurance_bot.Intent.Types.{ReconciliationOutcome, of_settled}
use zeus_insurance_bot.Feedback.Settlement.{apply_outcome}
use zeus_insurance_bot.Feedback.Settlement.Verdicts.{
  apply_outcome-discharged, apply_outcome-loses_payment,
}
use zeus_insurance_bot.Samples.{sample_operation, sample_intent, sample_marker, settled_bundle}

abbrev paid : Operation
paid = sample_operation OperationStatus.settled

abbrev waiting : Operation
waiting = sample_operation OperationStatus.settlement_unknown

apply_result-open_example :
    let r = apply_result true (some paid) FinalStatus.delivery_unknown 100 in
    (op' : Operation) × (r.stored ≡ some op')
    × (((resumes paid.current_state ≡ true)
          × (r.applied ≡ true)
          × (op'.current_state ≡ OperationStatus.execution_unknown)
          × (op'.payment_state ≡ paid.payment_state)
          × (op'.execution_state ≡ ExecutionStatus.unknown)
          × (op'.delivery_state ≡ DeliveryStatus.unknown))
        ⊎ ((resumes paid.current_state ≡ false) × (r.applied ≡ false) × AddsEvidence true paid op'))
apply_result-open_example = apply_result-open true paid FinalStatus.delivery_unknown 100 refl

late_success_lost_example :
    let r = apply_result false (some paid) FinalStatus.delivery_unknown 100 in
    let again = apply_result false r.stored FinalStatus.success 200 in
    (again.applied ≡ false)
    × (first : Operation) × (last : Operation) × (r.stored ≡ some first)
    × (again.stored ≡ some last)
    × (last.current_state ≡ OperationStatus.execution_unknown)
    × AddsEvidence false first last
late_success_lost_example =
    late_success_lost false paid FinalStatus.delivery_unknown 100 200 refl refl

apply_result-Follows_example :
    (op' : Operation) × ((apply_result true (some paid) FinalStatus.unresolvable 100).stored
      ≡ some op')
    × Follows paid.current_state op'.current_state
apply_result-Follows_example = apply_result-Follows true paid FinalStatus.unresolvable 100

apply_outcome-discharged_example :
    (op' : Operation) × ((apply_outcome false
        (some waiting)
        (ReconciliationOutcome.settled (some (of_settled settled_bundle)))
        (some (sample_intent (some 5)))
        100).stored
      ≡ some op')
    × (op'.current_state ≡ OperationStatus.success)
    × (op'.delivery_state ≡ DeliveryStatus.delivered)
    × (op'.execution_state ≡ ExecutionStatus.confirmed)
    × (op'.result_data ≡ some 5)
apply_outcome-discharged_example =
    apply_outcome-discharged false waiting (some (of_settled settled_bundle))
      (some (sample_intent (some 5))) 100 (sample_marker (some 5)) refl refl refl

apply_outcome-loses_payment_example :
    (op' : Operation) × ((apply_outcome false
        (some waiting)
        (ReconciliationOutcome.settled (some (of_settled settled_bundle)))
        (some (sample_intent none))
        100).stored
      ≡ some op')
    × (op'.current_state ≡ OperationStatus.unresolvable)
    × (op'.payment_state ≡ PaymentStatus.failed)
apply_outcome-loses_payment_example =
    apply_outcome-loses_payment false waiting (some (of_settled settled_bundle))
      (some (sample_intent none)) 100 (sample_marker none) refl refl refl

-- The stored object gains the evidence of a skipped step, though nothing is saved.
skip_recorded :
    let op = sample_operation OperationStatus.execution_unknown in
    length (get_or (apply_result true (some op) FinalStatus.success 300).stored op).evidence
    ≡ suc (length op.evidence)
unfolding apply_result
skip_recorded = refl
