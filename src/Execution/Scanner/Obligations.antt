-- ===== src/Execution/Scanner/Obligations.antt =====
-- What one round of the scanner leaves for a settled intent
-- (zeus-secretariat/src/core/post-settlement-engine.ts).
use zeus_insurance_bot.Prelude.{
  ◌≡◌, ◌⊎◌, refl, inl, inr, arith, true, false, none, some, Ident, Option-cases, get_last?,
  lookup-insert_self,
}
use zeus_insurance_bot.Intent.Types.{
  SettlementState, DurablePaymentIntent, is_standard_paid_call_record,
}
use zeus_insurance_bot.Intent.Store.{get_payment_intent_by_operation_id}
use zeus_insurance_bot.Execution.Types.{
  execution_idempotent, ExecutionAttempt, RecoveryJob, RecoveryJobType, JobStatus,
}
use zeus_insurance_bot.Execution.Store.{
  get_attempts_by_operation, get_job, save_job, save_attempt_with_job,
}
use zeus_insurance_bot.Execution.World.{World, Config, Env, append_evidence}
use zeus_insurance_bot.Execution.Attempt.{initiate_execution, first_job, capability_of}
use zeus_insurance_bot.Execution.Scanner.{ensure_obligation, repair_job}

-- An execution job of the operation that may repeat the call, open or already closed.
abbrev pub IsObligation : Ident → RecoveryJob → Type 0
IsObligation op j =
    (j.operation_id ≡ op)
    × (j.job_type ≡ RecoveryJobType.execution)
    × (capability_of j.metadata ≡ execution_idempotent)
    × ((j.status ≡ JobStatus.pending) ⊎ (j.status ≡ JobStatus.completed))

module _ (config : Config) (env : Env) (i : DurablePaymentIntent) (w : World) where
  repaired :
      (a : ExecutionAttempt)
      → is_standard_paid_call_record i.facilitator_response_body ≡ false
      → get_last? (get_attempts_by_operation i.operation_id w.execution) ≡ some a
      → let (w', made) = ensure_obligation config env i w in
        (made ≡ true)
        × (j : RecoveryJob) × (get_job env.job_id w'.execution ≡ some j)
        × IsObligation i.operation_id j
  unfolding ensure_obligation append_evidence save_job get_job
  repaired a direct latest =
      let j = repair_job config env i.operation_id a in
      (
        ground arith,
        j,
        ground (arith, lookup-insert_self env.job_id j w.execution.jobs),
        (refl, refl, refl, ground arith),
      )

  initiated :
      (k : DurablePaymentIntent)
      → is_standard_paid_call_record i.facilitator_response_body ≡ false
      → get_last? (get_attempts_by_operation i.operation_id w.execution) ≡ none
      → get_payment_intent_by_operation_id i.operation_id w.payments ≡ some k
      → k.settlement_state ≡ SettlementState.settled
      → let (w', made) = ensure_obligation config env i w in
        (made ≡ true)
        × (j : RecoveryJob) × (get_job env.job_id w'.execution ≡ some j)
        × IsObligation i.operation_id j
  unfolding ensure_obligation append_evidence get_job initiate_execution save_attempt_with_job
  initiated k direct nothing found settled =
      let j = first_job config env i.operation_id execution_idempotent none in
      (
        ground arith,
        j,
        ground (arith, lookup-insert_self env.job_id j w.execution.jobs),
        (refl, refl, refl, inl refl),
      )

-- One round of the scanner, for an intent whose operation has a settled intent in the store and
-- that was not paid through the standard transport, leaves an execution job of the operation under
-- the new job identifier, whether or not the operation has attempts, and whatever jobs the
-- operation has already.
pub ensure_obligation-creates :
    (config : Config) (env : Env) (i k : DurablePaymentIntent) (w : World)
    → is_standard_paid_call_record i.facilitator_response_body ≡ false
    → get_payment_intent_by_operation_id i.operation_id w.payments ≡ some k
    → k.settlement_state ≡ SettlementState.settled
    → let (w', made) = ensure_obligation config env i w in
      (made ≡ true)
      × (j : RecoveryJob) × (get_job env.job_id w'.execution ≡ some j)
      × IsObligation i.operation_id j
ensure_obligation-creates config env i k w direct found settled =
    elim (Option-cases (get_last? (get_attempts_by_operation i.operation_id w.execution))) [
      | inl nothing ↦ initiated config env i w k direct nothing found settled
      | inr (a, latest) ↦ repaired config env i w a direct latest
    ]
