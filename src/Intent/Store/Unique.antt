-- ===== src/Intent/Store/Unique.antt =====
-- One intent for each operation (zeus-secretariat/src/store/in-memory-store.ts).
use zeus_insurance_bot.Prelude.{
  ◌≡◌, ◌≢◌, refl, inl, inr, Option-cases, false, none, some, List, [], ◌∷◌, ◌++◌, Ident, Time, Map,
  lookup, insert, values, find, includes, arith,
}
use zeus_insurance_bot.Intent.Store.{
  IntentRecord, EvidenceStore, same_operation, find_intent_by_operation_id, PayloadFields,
  authorize_payment_intent, bind_payload, compare_and_set_state,
}
use zeus_insurance_bot.Intent.Store.Nonces.{create_intent_with_nonce, mark_nonce}
use zeus_insurance_bot.Intent.Store.Records.{
  save_settled_evidence_bundle, save_not_settled_evidence_bundle, append_reconciliation_observation,
  create_reconciliation_job,
}
use zeus_insurance_bot.Intent.Types.{
  SettlementState, DurablePaymentIntent, ReconciliationObservation, SettledEvidenceBundle,
  NotSettledEvidenceBundle,
}
use zeus_insurance_bot.Intent.Store.Calls.{
  Call, creates, authorizes, compares, marks, saves_settled, saves_not_settled, observes, schedules,
  left_by, step, run,
}

-- The operations of the intents, in the order of the store.
abbrev pub operations : Map IntentRecord → List Ident
operations [] = []
operations ((k, r) ∷ m) = r.intent.operation_id ∷ operations m

abbrev pub IsDistinct : List Ident → Type 0
IsDistinct [] = Unit {0}
IsDistinct (x ∷ xs) = (includes xs x ≡ false) × IsDistinct xs

includes-append :
    (xs : List Ident) (a b : Ident)
    → includes xs a ≡ false
    → b ≢ a
    → includes (xs ++ b ∷ []) a ≡ false
includes-append [] a b h n = ground arith
includes-append (x ∷ xs) a b h n = ground (arith, includes-append xs a b)

IsDistinct-append :
    (xs : List Ident) (a : Ident)
    → IsDistinct xs
    → includes xs a ≡ false
    → IsDistinct (xs ++ a ∷ [])
IsDistinct-append [] a d h = (refl, tt)
IsDistinct-append (x ∷ xs) a d h = ground (arith, includes-append xs x a, IsDistinct-append xs a)

find-none-includes :
    (op : Ident) (m : Map IntentRecord)
    → find (same_operation op) (values m) ≡ none
    → includes (operations m) op ≡ false
unfolding find
find-none-includes op [] h = refl
find-none-includes op ((k, r) ∷ m) h = ground (arith, find-none-includes op m)

-- A new key stands at the end.
operations-insert_new :
    (k : Ident) (r : IntentRecord) (m : Map IntentRecord)
    → lookup k m ≡ none
    → operations (insert k r m) ≡ operations m ++ r.intent.operation_id ∷ []
unfolding lookup insert
operations-insert_new k r [] h = refl
operations-insert_new k r ((j, x) ∷ m) h = ground (arith, operations-insert_new k r m)

-- An old key keeps its place.
operations-insert_old :
    (k : Ident) (a b : IntentRecord) (m : Map IntentRecord)
    → lookup k m ≡ some a
    → b.intent.operation_id ≡ a.intent.operation_id
    → operations (insert k b m) ≡ operations m
unfolding lookup insert
operations-insert_old k a b [] h e = absurd (ground arith)
operations-insert_old k a b ((j, x) ∷ m) h e = ground (arith, operations-insert_old k a b m)

-- At most one intent for each operation.
abbrev pub IsUnique : EvidenceStore → Type 0
IsUnique s = IsDistinct (operations s.intents)

module _ (s : EvidenceStore) (u : IsUnique s) where
  overwrite-IsUnique :
      (key : Ident) (a b : IntentRecord)
      → lookup key s.intents ≡ some a
      → b.intent.operation_id ≡ a.intent.operation_id
      → IsDistinct (operations (insert key b s.intents))
  overwrite-IsUnique key a b found same = rw (operations-insert_old key a b s.intents found same) u

  create-IsUnique :
      (i : DurablePaymentIntent) (payer : Ident) (t : Time)
      → IsUnique (create_intent_with_nonce i payer t s).0
  unfolding create_intent_with_nonce find_intent_by_operation_id
  create-IsUnique i payer t =
      let row : IntentRecord = record {
        intent = i;
        settled_bundle = none;
        not_settled_bundle = none;
      } in
      ground (
        arith,
        operations-insert_new i.payment_intent_id row s.intents,
        find-none-includes i.operation_id s.intents,
        IsDistinct-append (operations s.intents) i.operation_id u,
      )

  authorize-IsUnique :
      (key : Ident) (f : PayloadFields) (st : SettlementState) (t : Time)
      → IsUnique (left_by s (authorize_payment_intent key f st t s))
  unfolding authorize_payment_intent
  authorize-IsUnique key f st t = elim (Option-cases (lookup key s.intents)) [
    | inl missing ↦ rw (missing, authorize_payment_intent) u
    | inr (a, found) ↦
        rw (found, authorize_payment_intent)
          (ground (
            arith,
            overwrite-IsUnique key a (record a { intent = bind_payload f t a.intent }) found,
          ))
  ]

  compare-IsUnique :
      (key : Ident) (expected new : SettlementState) (t : Time)
      → IsUnique (compare_and_set_state key expected new t s).0
  unfolding compare_and_set_state
  compare-IsUnique key expected new t = elim (Option-cases (lookup key s.intents)) [
    | inl missing ↦ rw (missing, compare_and_set_state) u
    | inr (a, found) ↦
        rw (found, compare_and_set_state)
          (ground (
            arith,
            overwrite-IsUnique key a
                (record a { intent = record (a.intent) { settlement_state = new; updated_at = t } })
                found,
          ))
  ]

  settled-IsUnique :
      (key : Ident) (b : SettledEvidenceBundle) → IsUnique (save_settled_evidence_bundle key b s)
  unfolding save_settled_evidence_bundle
  settled-IsUnique key b = elim (Option-cases (lookup key s.intents)) [
    | inl missing ↦ rw (missing, save_settled_evidence_bundle) u
    | inr (a, found) ↦
        rw (found, save_settled_evidence_bundle)
          (overwrite-IsUnique key a (record a { settled_bundle = some b }) found refl)
  ]

  not_settled-IsUnique :
      (key : Ident) (b : NotSettledEvidenceBundle)
      → IsUnique (save_not_settled_evidence_bundle key b s)
  unfolding save_not_settled_evidence_bundle
  not_settled-IsUnique key b = elim (Option-cases (lookup key s.intents)) [
    | inl missing ↦ rw (missing, save_not_settled_evidence_bundle) u
    | inr (a, found) ↦
        rw (found, save_not_settled_evidence_bundle)
          (overwrite-IsUnique key a (record a { not_settled_bundle = some b }) found refl)
  ]

  observe-IsUnique :
      (o : ReconciliationObservation) → IsUnique (append_reconciliation_observation o s)
  unfolding append_reconciliation_observation
  observe-IsUnique o = elim (Option-cases (lookup o.payment_intent_id s.intents)) [
    | inl missing ↦ rw (missing, append_reconciliation_observation) u
    | inr (a, found) ↦
        rw (found, append_reconciliation_observation)
          (overwrite-IsUnique o.payment_intent_id a _ found refl)
  ]

step-IsUnique : (c : Call) (s : EvidenceStore) → IsUnique s → IsUnique (step c s)
unfolding step mark_nonce create_reconciliation_job
step-IsUnique (creates i payer t) s u = create-IsUnique s u i payer t
step-IsUnique (authorizes key f st t) s u = authorize-IsUnique s u key f st t
step-IsUnique (compares key expected new t) s u = compare-IsUnique s u key expected new t
step-IsUnique (marks st n t) s u = ground arith
step-IsUnique (saves_settled key b) s u = settled-IsUnique s u key b
step-IsUnique (saves_not_settled key b) s u = not_settled-IsUnique s u key b
step-IsUnique (observes o) s u = observe-IsUnique s u o
step-IsUnique (schedules key fresh next t) s u = ground arith

-- If no two intents of a store are for one operation, then after any sequence of guarded calls
-- no two are.
pub run-IsUnique : (cs : List Call) (s : EvidenceStore) → IsUnique s → IsUnique (run cs s)
unfolding run
run-IsUnique [] s u = u
run-IsUnique (c ∷ cs) s u = run-IsUnique cs (step c s) (step-IsUnique c s u)
