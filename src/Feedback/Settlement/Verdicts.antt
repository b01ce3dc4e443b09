-- ===== src/Feedback/Settlement/Verdicts.antt =====
-- What a fed-back reconciliation outcome does to an operation
-- (zeus-secretariat/src/core/settlement-feedback-service.ts).
use zeus_insurance_bot.Prelude.{
  ◌≡◌, subst, ◌||◌, refl, inl, inr, Bool, true, false, Option, some, is_some, List, [], ◌∷◌, Time,
  arith, Bool-cases, Option-cases,
}
use zeus_insurance_bot.Intent.Types.{
  DurablePaymentIntent, StandardPaidCallRecord, ReconciliationEvidence, ReconciliationOutcome,
}
use zeus_insurance_bot.Operation.Status.{
  OperationStatus, PaymentStatus, ExecutionStatus, DeliveryStatus, status_eq,
}
use zeus_insurance_bot.Operation.Fsm.{is_valid_transition, has_status}
use zeus_insurance_bot.Operation.Defs.{Operation}
use zeus_insurance_bot.Feedback.Execution.Verdicts.{Follows, Follows-step}
use zeus_insurance_bot.Feedback.Settlement.{
  apply_steps, apply_outcome, advance, closed, plan_settlement_transitions, read_standard_marker,
  prepare, has_result,
}

-- The payment has been sent and its settlement is not known yet.
abbrev pub awaits : OperationStatus → Bool
awaits OperationStatus.payment_submitted = true
awaits OperationStatus.settlement_pending = true
awaits OperationStatus.settlement_unknown = true
awaits _ = false

-- Feeding back SETTLED for an intent whose paid call has left a marker with the seller's answer.
-- From an operation that awaits its settlement or is SETTLED, the operation is saved as SUCCESS,
-- delivered and the execution confirmed, with the answer as its result.
pub apply_outcome-discharged :
    (live : Bool) (op : Operation) (e : Option ReconciliationEvidence)
    (intent : Option DurablePaymentIntent) (now : Time) (m : StandardPaidCallRecord)
    → read_standard_marker intent ≡ some m
    → is_some m.seller_body ≡ true
    → (awaits op.current_state || status_eq op.current_state OperationStatus.settled) ≡ true
    → (op' : Operation) × ((apply_outcome live
          (some op)
          (ReconciliationOutcome.settled e)
          intent
          now).stored
        ≡ some op')
      × (op'.current_state ≡ OperationStatus.success)
      × (op'.delivery_state ≡ DeliveryStatus.delivered)
      × (op'.execution_state ≡ ExecutionStatus.confirmed)
      × (op'.result_data ≡ m.seller_body)
unfolding apply_outcome
apply_outcome-discharged live op e intent now m marked answered waiting =
    let (steps, started) = prepare (OperationStatus.settled ∷ []) (some m) now op in
    let op' = (apply_steps steps now started false).0 in
    (op', ground arith, ground arith, ground arith, ground arith, ground arith)

-- Feeding back SETTLED, which says that the payment is final on the chain, for an intent whose
-- paid call has left a marker without an answer, when the operation holds no answer either. From
-- an operation that awaits its settlement or is SETTLED, the operation is saved as UNRESOLVABLE
-- and its payment is recorded as FAILED.
pub apply_outcome-loses_payment :
    (live : Bool) (op : Operation) (e : Option ReconciliationEvidence)
    (intent : Option DurablePaymentIntent) (now : Time) (m : StandardPaidCallRecord)
    → read_standard_marker intent ≡ some m
    → has_result m op ≡ false
    → (awaits op.current_state || status_eq op.current_state OperationStatus.settled) ≡ true
    → (op' : Operation) × ((apply_outcome live
          (some op)
          (ReconciliationOutcome.settled e)
          intent
          now).stored
        ≡ some op')
      × (op'.current_state ≡ OperationStatus.unresolvable)
      × (op'.payment_state ≡ PaymentStatus.failed)
unfolding apply_outcome
apply_outcome-loses_payment live op e intent now m marked missing waiting =
    let (steps, started) = prepare (OperationStatus.settled ∷ []) (some m) now op in
    let op' = (apply_steps steps now started false).0 in
    (op', ground arith, ground arith, ground arith)

advance_state :
    (next : OperationStatus) (now : Time) (op : Operation)
    → (advance next now op).current_state ≡ next
advance_state OperationStatus.success now op = refl
advance_state _ now op = refl

apply_steps-Follows :
    (plan : List OperationStatus) (now : Time) (op : Operation) (done : Bool)
    → Follows op.current_state (apply_steps plan now op done).0.current_state
unfolding apply_steps
apply_steps-Follows [] now op done = inl refl
apply_steps-Follows (next ∷ plan) now op done =
    elim (Bool-cases (status_eq op.current_state next)) [
      | inl same ↦ rw (same, apply_steps) (apply_steps-Follows plan now op done)
      | inr other ↦ elim (Bool-cases (is_valid_transition op.current_state next)) [
        | inl legal ↦
            rw (other, legal, apply_steps)
              (Follows-step op.current_state next _ _ legal (advance_state next now op)
                (apply_steps-Follows plan now (advance next now op) true))
        | inr illegal ↦ rw (other, illegal, apply_steps) (inl refl)
      ]
    ]

prepare_state :
    (plan : List OperationStatus) (m : Option StandardPaidCallRecord) (now : Time) (op : Operation)
    → (prepare plan m now op).1.current_state ≡ op.current_state
prepare_state plan m now op = ground arith

-- Whatever outcome is fed back, with or without a marker, the status of the stored operation
-- afterwards is the one before or is reached from it by legal transitions of the state machine.
pub apply_outcome-Follows :
    (live : Bool) (op : Operation) (outcome : ReconciliationOutcome)
    (intent : Option DurablePaymentIntent) (now : Time)
    → (op' : Operation) × ((apply_outcome live (some op) outcome intent now).stored ≡ some op')
      × Follows op.current_state op'.current_state
unfolding apply_outcome
apply_outcome-Follows live op outcome intent now =
    elim (Option-cases (plan_settlement_transitions outcome)) [
      | inl unplanned ↦ (op, rw (unplanned, apply_outcome), inl refl)
      | inr (plan, planned) ↦ elim (Bool-cases (has_status closed op.current_state)) [
        | inl over ↦ (op, rw (planned, over, apply_outcome), inl refl)
        | inr going ↦
            let (steps, started) = prepare plan (read_standard_marker intent) now op in
            elim (Bool-cases ((apply_steps steps now started false).1 || live)) [
              | inl done ↦ (
                (apply_steps steps now started false).0,
                rw (planned, going, done, apply_outcome),
                subst (λ s. Follows s (apply_steps steps now started false).0.current_state)
                    (prepare_state plan (read_standard_marker intent) now op)
                    (apply_steps-Follows steps now started false),
              )
              | inr idle ↦ (op, rw (planned, going, idle, apply_outcome), inl refl)
            ]
      ]
    ]
