-- ===== src/Feedback/Execution/Verdicts.antt =====
-- What a fed-back execution result does to an operation
-- (zeus-secretariat/src/core/execution-feedback-service.ts).
use zeus_insurance_bot.Prelude.{
  ◌≡◌, ◌⊎◌, ◌||◌, refl, inl, inr, Bool, true, false, some, List, [], ◌∷◌, Time, get_or, arith,
  Bool-cases, Option-cases,
}
use zeus_insurance_bot.Execution.Types.{FinalStatus}
use zeus_insurance_bot.Operation.Status.{
  OperationStatus, ExecutionStatus, DeliveryStatus, status_eq,
}
use zeus_insurance_bot.Operation.Fsm.{Reaches, one, then, is_valid_transition, has_status}
use zeus_insurance_bot.Operation.Defs.{Operation}
use zeus_insurance_bot.Feedback.Execution.{
  apply_plan, apply_result, enter, terminal, plan_execution_transitions,
}

abbrev pub resumes : OperationStatus → Bool
resumes OperationStatus.settled = true
resumes OperationStatus.execution_pending = true
resumes _ = false

-- Nothing but evidence was added, and that only to the object of a store that hands it out.
abbrev pub AddsEvidence : Bool → Operation → Operation → Type 0
AddsEvidence live op op' =
    (record op' { evidence = op.evidence } ≡ op) × ((live ≡ true) ⊎ (op' ≡ op))

-- A result that leaves open whether the seller delivered.
abbrev pub is_open : FinalStatus → Bool
is_open FinalStatus.delivery_unknown = true
is_open FinalStatus.unresolvable = true
is_open _ = false

-- Feeding back DELIVERY_UNKNOWN or UNRESOLVABLE. From SETTLED or EXECUTION_PENDING the operation
-- is saved as EXECUTION_UNKNOWN, with its payment state unchanged and neither the execution nor
-- the delivery failed. From every other status nothing is applied and the stored operation keeps all
-- but its list of evidence, and that too if the store hands out copies; so an open delivery never
-- makes an operation FAILED.
pub apply_result-open :
    (live : Bool) (op : Operation) (final : FinalStatus) (now : Time)
    → is_open final ≡ true
    → let r = apply_result live (some op) final now in
      (op' : Operation) × (r.stored ≡ some op')
      × (((resumes op.current_state ≡ true)
            × (r.applied ≡ true)
            × (op'.current_state ≡ OperationStatus.execution_unknown)
            × (op'.payment_state ≡ op.payment_state)
            × (op'.execution_state ≡ ExecutionStatus.unknown)
            × (op'.delivery_state ≡ DeliveryStatus.unknown))
          ⊎ ((resumes op.current_state ≡ false) × (r.applied ≡ false) × AddsEvidence live op op'))
unfolding apply_result
apply_result-open live op final now h =
    (get_or (apply_result live (some op) final now).stored op, ground arith, ground arith)

-- A retry that delivers too late for its operation. Once DELIVERY_UNKNOWN or UNRESOLVABLE has
-- been fed back from SETTLED or EXECUTION_PENDING, feeding back SUCCESS applies nothing and leaves
-- the operation in EXECUTION_UNKNOWN, with nothing changed but its list of evidence, and not even
-- that if the store hands out copies.
pub late_success_lost :
    (live : Bool) (op : Operation) (final : FinalStatus) (now later : Time)
    → is_open final ≡ true
    → resumes op.current_state ≡ true
    → let r = apply_result live (some op) final now in
      let again = apply_result live r.stored FinalStatus.success later in
      (again.applied ≡ false)
      × (first : Operation) × (last : Operation) × (r.stored ≡ some first)
      × (again.stored ≡ some last)
      × (last.current_state ≡ OperationStatus.execution_unknown)
      × AddsEvidence live first last
unfolding apply_result
late_success_lost live op final now later open_end lives =
    let r = apply_result live (some op) final now in
    let again = apply_result live r.stored FinalStatus.success later in
    (
      ground arith,
      get_or r.stored op,
      get_or again.stored op,
      ground arith,
      ground arith,
      ground arith,
      ground arith,
    )

-- Zero or more legal transitions.
abbrev pub Follows : OperationStatus → OperationStatus → Type 0
Follows s t = (t ≡ s) ⊎ Reaches s t

pub Follows-step :
    (s t t' u : OperationStatus)
    → is_valid_transition s t ≡ true
    → t' ≡ t
    → Follows t' u
    → Follows s u
Follows-step s t t' u h e (inl q) = inr (one (rw (q, e) h))
Follows-step s t t' u h e (inr r) = inr (then (rw e h) r)

enter_state :
    (next : OperationStatus) (now : Time) (op : Operation)
    → (enter next now op).current_state ≡ next
enter_state OperationStatus.success now op = refl
enter_state _ now op = refl

apply_plan-Follows :
    (plan : List OperationStatus) (now : Time) (op : Operation) (done : Bool)
    → Follows op.current_state (apply_plan plan now op done).0.current_state
unfolding apply_plan
apply_plan-Follows [] now op done = inl refl
apply_plan-Follows (next ∷ plan) now op done = elim (Bool-cases (status_eq op.current_state next)) [
  | inl same ↦ rw (same, apply_plan) (apply_plan-Follows plan now op done)
  | inr other ↦ elim (Bool-cases (is_valid_transition op.current_state next)) [
    | inl legal ↦
        rw (other, legal, apply_plan)
          (Follows-step op.current_state next _ _ legal (enter_state next now op)
            (apply_plan-Follows plan now (enter next now op) true))
    | inr illegal ↦ rw (other, illegal, apply_plan) (inl refl)
  ]
]

-- Whatever result is fed back, the status of the stored operation afterwards is the one before
-- or is reached from it by legal transitions of the state machine.
pub apply_result-Follows :
    (live : Bool) (op : Operation) (final : FinalStatus) (now : Time)
    → (op' : Operation) × ((apply_result live (some op) final now).stored ≡ some op')
      × Follows op.current_state op'.current_state
unfolding apply_result
apply_result-Follows live op final now = elim (Option-cases (plan_execution_transitions final)) [
  | inl unplanned ↦ (op, rw (unplanned, apply_result), inl refl)
  | inr (plan, planned) ↦ elim (Bool-cases (has_status terminal op.current_state)) [
    | inl over ↦ (op, rw (planned, over, apply_result), inl refl)
    | inr going ↦ elim (Bool-cases ((apply_plan plan now op false).1 || live)) [
      | inl done ↦ (
        (apply_plan plan now op false).0,
        rw (planned, going, done, apply_result),
        apply_plan-Follows plan now op false,
      )
      | inr idle ↦ (op, rw (planned, going, idle, apply_result), inl refl)
    ]
  ]
]
