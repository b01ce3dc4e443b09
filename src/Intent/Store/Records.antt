-- ===== src/Intent/Store/Records.antt =====
-- The evidence, observations, reconciliation jobs and operations of `InMemoryEvidenceStore`
-- (zeus-secretariat/src/store/in-memory-store.ts).
use zeus_insurance_bot.Prelude.{
  ℕ, Bool, true, false, ◌&&◌, Option, none, some, List, [], ◌∷◌, ◌++◌, Ident, Time, lookup, insert,
  values, keep, find, get_or, ltb, ◌==◌, if◌then◌else◌,
}
use Prim.Native.Nat.{pred}
use zeus_insurance_bot.Evidence.{EvidenceRecord}
use zeus_insurance_bot.Operation.Status.{OperationStatus, status_eq}
use zeus_insurance_bot.Operation.Defs.{Operation}
use zeus_insurance_bot.Intent.Types.{
  SettlementState, index, DurablePaymentIntent, ReconciliationObservation, SettledEvidenceBundle,
  NotSettledEvidenceBundle,
}
use zeus_insurance_bot.Intent.Store.{
  EvidenceStore, IntentRecord, ReconJobStatus, ReconciliationJob, set_intent, with_payer,
}

unfoldable pub save_settled_evidence_bundle :
    Ident → SettledEvidenceBundle → EvidenceStore → EvidenceStore
save_settled_evidence_bundle id b s = elim (lookup id s.intents) [
  | none ↦ s
  | some r ↦ record s { intents = insert id (record r { settled_bundle = some b }) s.intents }
]

unfoldable pub save_not_settled_evidence_bundle :
    Ident → NotSettledEvidenceBundle → EvidenceStore → EvidenceStore
save_not_settled_evidence_bundle id b s = elim (lookup id s.intents) [
  | none ↦ s
  | some r ↦ record s { intents = insert id (record r { not_settled_bundle = some b }) s.intents }
]

-- Every caller gives a `paymentIntentId`, so it is the key.
unfoldable pub append_reconciliation_observation :
    ReconciliationObservation → EvidenceStore → EvidenceStore
append_reconciliation_observation obs s =
    let key = obs.payment_intent_id in
    let list = get_or (lookup key s.recon_observations) [] in
    let t = record s { recon_observations = insert key (list ++ obs ∷ []) s.recon_observations } in
    elim (lookup key s.intents) [
      | none ↦ t
      | some r ↦
          set_intent key
            (record (r.intent) {
              reconciliation_observations = r.intent.reconciliation_observations ++ obs ∷ [];
            })
            r t
    ]

unfoldable pub get_reconciliation_observations :
    Ident → EvidenceStore → List ReconciliationObservation
get_reconciliation_observations id s = get_or (lookup id s.recon_observations) []

abbrev is_active : Ident → ReconciliationJob → Bool
is_active id j = j.payment_intent_id == id && elim (j.status) [
  | ReconJobStatus.pending ↦ true
  | ReconJobStatus.running ↦ true
  | ReconJobStatus.completed ↦ false
  | ReconJobStatus.failed ↦ false
]

-- The second argument is the identifier that the call generates.
unfoldable pub create_reconciliation_job :
    Ident → Ident → Time → Time → EvidenceStore → EvidenceStore × Ident
create_reconciliation_job id fresh next now s = elim (find (is_active id) (values s.recon_jobs)) [
  | some j ↦ (s, j.job_id)
  | none ↦ (
    record s {
      recon_jobs =
          insert fresh
            (record {
              job_id = fresh;
              payment_intent_id = id;
              status = ReconJobStatus.pending;
              next_probe_at = next;
              created_at = now;
            })
            s.recon_jobs;
    },
    fresh,
  )
]

abbrev is_settled : IntentRecord → Bool
is_settled r = index r.intent.settlement_state == index SettlementState.settled

-- The loop with its `break` at `limit` entries, for a limit of at least one.
abbrev pub settled_prefix : ℕ → List IntentRecord → List DurablePaymentIntent
settled_prefix limit [] = []
settled_prefix limit (r ∷ rs) =
    let keeps = with_payer r ∷ settled_prefix (pred limit) rs in
    let skips = settled_prefix limit rs in
    if is_settled r then (if ltb 1 limit then keeps else with_payer r ∷ []) else skips

unfoldable pub get_settled_intents_without_obligation :
    ℕ → EvidenceStore → List DurablePaymentIntent
get_settled_intents_without_obligation limit s = settled_prefix limit (values s.intents)

unfoldable pub append : EvidenceRecord → EvidenceStore → EvidenceStore
append r s =
    let records = get_or (lookup r.operation_id s.evidence) [] in
    record s { evidence = insert r.operation_id (records ++ r ∷ []) s.evidence }

unfoldable pub get_operation : Ident → EvidenceStore → Option Operation
get_operation id s = lookup id s.operations

abbrev same_client : Option Ident → Operation → Bool
same_client none op = true
same_client (some c) op = elim (op.client_id) [ none ↦ false | some d ↦ d == c ]

unfoldable pub get_operation_by_request_id : Ident → Option Ident → EvidenceStore → Option Operation
get_operation_by_request_id id client s =
    find (λ op. op.request_id == id && same_client client op) (values s.operations)

unfoldable pub save_operation : Operation → EvidenceStore → EvidenceStore
save_operation op s = record s { operations = insert op.operation_id op s.operations }

unfoldable pub get_evidence : Ident → EvidenceStore → List EvidenceRecord
get_evidence id s = get_or (lookup id s.evidence) []

unfoldable pub get_operations_by_status : OperationStatus → EvidenceStore → List Operation
get_operations_by_status st s = keep (λ op. status_eq op.current_state st) (values s.operations)

-- `clear` leaves the intents and the nonces.
unfoldable pub clear : EvidenceStore → EvidenceStore
clear s = record s { operations = []; evidence = [] }
