-- ===== src/Intent/Store/Guards.antt =====
-- A verdict on a settlement is final for every guarded call, and an intent and its nonce are
-- created together (zeus-secretariat/src/store/in-memory-store.ts).
use zeus_insurance_bot.Prelude.{
  ◌≡◌, ◌⊎◌, refl, inl, inr, Option-cases, true, false, Option, none, some, List, [], ◌∷◌, Ident,
  Time, Map, lookup, insert, erase, lookup-insert, lookup-insert_self, is_some, arith,
}
use zeus_insurance_bot.Intent.Types.{
  SettlementState, is_terminal_settlement_state, DurablePaymentIntent, NonceRecord,
  ReconciliationObservation, SettledEvidenceBundle, NotSettledEvidenceBundle,
}
use zeus_insurance_bot.Intent.Store.{
  IntentRecord, EvidenceStore, PayloadFields, bind_payload, authorize_payment_intent,
  compare_and_set_state,
}
use zeus_insurance_bot.Intent.Store.Nonces.{reservation, create_intent_with_nonce, mark_nonce}
use zeus_insurance_bot.Intent.Store.Records.{
  save_settled_evidence_bundle, save_not_settled_evidence_bundle, append_reconciliation_observation,
  create_reconciliation_job,
}
use zeus_insurance_bot.Intent.Store.Calls.{
  Call, creates, authorizes, compares, marks, saves_settled, saves_not_settled, observes, schedules,
  left_by, step, run,
}

-- What may happen to the intent under one identifier: it is not removed, keeps its operation, its
-- parties, its amount and its nonce, and with a verdict it keeps its state, its payload and its
-- transaction too.
abbrev pub Holds : Option IntentRecord → Option IntentRecord → Type 0
Holds none r = Unit {0}
Holds (some a) none = ⊥
Holds (some a) (some b) =
    (b.intent.operation_id ≡ a.intent.operation_id)
    × (b.intent.authorizer ≡ a.intent.authorizer)
    × (b.intent.pay_to ≡ a.intent.pay_to)
    × (b.intent.value ≡ a.intent.value)
    × (b.intent.nonce ≡ a.intent.nonce)
    × ((is_terminal_settlement_state a.intent.settlement_state ≡ false)
        ⊎ ((b.intent.settlement_state ≡ a.intent.settlement_state)
            × (b.intent.payment_payload_hash ≡ a.intent.payment_payload_hash)
            × (b.intent.tx_hash ≡ a.intent.tx_hash)))

Holds-refl : (o : Option IntentRecord) → Holds o o
Holds-refl none = tt
Holds-refl (some a) = (refl, refl, refl, refl, refl, inr (refl, refl, refl))

Holds-trans : (o p q : Option IntentRecord) → Holds o p → Holds p q → Holds o q
Holds-trans none p q h k = tt
Holds-trans (some a) none q h k = absurd h
Holds-trans (some a) (some b) none h k = absurd k
Holds-trans (some a) (some b) (some c) h k = ground arith

module _ (s : EvidenceStore) (id : Ident) where
  -- An intent that is written over an old one.
  write-Holds :
      (key : Ident) (a b : IntentRecord)
      → lookup key s.intents ≡ some a
      → Holds (some a) (some b)
      → Holds (lookup id s.intents) (lookup id (insert key b s.intents))
  write-Holds key a b e h =
      ground (arith, lookup-insert key id b s.intents, Holds-refl (lookup id s.intents))

  authorize-Holds :
      (key : Ident) (f : PayloadFields) (st : SettlementState) (t : Time)
      → Holds
          (lookup id s.intents)
          (lookup id (left_by s (authorize_payment_intent key f st t s)).intents)
  unfolding authorize_payment_intent
  authorize-Holds key f st t = elim (Option-cases (lookup key s.intents)) [
    | inl missing ↦ rw (missing, authorize_payment_intent) (Holds-refl (lookup id s.intents))
    | inr (a, found) ↦
        rw (found, authorize_payment_intent)
          (ground (
            arith,
            write-Holds key a (record a { intent = bind_payload f t a.intent }) found,
            Holds-refl (lookup id s.intents),
          ))
  ]

  compare-Holds :
      (key : Ident) (expected new : SettlementState) (t : Time)
      → Holds
          (lookup id s.intents)
          (lookup id (compare_and_set_state key expected new t s).0.intents)
  unfolding compare_and_set_state
  compare-Holds key expected new t = elim (Option-cases (lookup key s.intents)) [
    | inl missing ↦ rw (missing, compare_and_set_state) (Holds-refl (lookup id s.intents))
    | inr (a, found) ↦
        rw (found, compare_and_set_state)
          (ground (
            arith,
            write-Holds key a
                (record a { intent = record (a.intent) { settlement_state = new; updated_at = t } })
                found,
            Holds-refl (lookup id s.intents),
          ))
  ]

  settled-Holds :
      (key : Ident) (b : SettledEvidenceBundle)
      → Holds (lookup id s.intents) (lookup id (save_settled_evidence_bundle key b s).intents)
  unfolding save_settled_evidence_bundle
  settled-Holds key b = elim (Option-cases (lookup key s.intents)) [
    | inl missing ↦ rw (missing, save_settled_evidence_bundle) (Holds-refl (lookup id s.intents))
    | inr (a, found) ↦
        rw (found, save_settled_evidence_bundle)
          (write-Holds key a (record a { settled_bundle = some b }) found (Holds-refl (some a)))
  ]

  not_settled-Holds :
      (key : Ident) (b : NotSettledEvidenceBundle)
      → Holds (lookup id s.intents) (lookup id (save_not_settled_evidence_bundle key b s).intents)
  unfolding save_not_settled_evidence_bundle
  not_settled-Holds key b = elim (Option-cases (lookup key s.intents)) [
    | inl missing ↦
        rw (missing, save_not_settled_evidence_bundle) (Holds-refl (lookup id s.intents))
    | inr (a, found) ↦
        rw (found, save_not_settled_evidence_bundle)
          (write-Holds key a (record a { not_settled_bundle = some b }) found (Holds-refl (some a)))
  ]

  observe-Holds :
      (o : ReconciliationObservation)
      → Holds (lookup id s.intents) (lookup id (append_reconciliation_observation o s).intents)
  unfolding append_reconciliation_observation
  observe-Holds o = elim (Option-cases (lookup o.payment_intent_id s.intents)) [
    | inl missing ↦
        rw (missing, append_reconciliation_observation) (Holds-refl (lookup id s.intents))
    | inr (a, found) ↦
        rw (found, append_reconciliation_observation)
          (write-Holds o.payment_intent_id a _ found (Holds-refl (some a)))
  ]

  create-Holds :
      (i : DurablePaymentIntent) (payer : Ident) (t : Time)
      → Holds (lookup id s.intents) (lookup id (create_intent_with_nonce i payer t s).0.intents)
  unfolding create_intent_with_nonce
  create-Holds i payer t = ground (
    arith,
    lookup-insert i.payment_intent_id id
        (record { intent = i; settled_bundle = none; not_settled_bundle = none }) s.intents,
    Holds-refl (lookup id s.intents),
  )

step-Holds :
    (c : Call) (s : EvidenceStore) (id : Ident)
    → Holds (lookup id s.intents) (lookup id (step c s).intents)
unfolding step mark_nonce create_reconciliation_job
step-Holds (creates i payer t) s id = create-Holds s id i payer t
step-Holds (authorizes key f st t) s id = authorize-Holds s id key f st t
step-Holds (compares key expected new t) s id = compare-Holds s id key expected new t
step-Holds (marks st n t) s id = ground (arith, Holds-refl (lookup id s.intents))
step-Holds (saves_settled key b) s id = settled-Holds s id key b
step-Holds (saves_not_settled key b) s id = not_settled-Holds s id key b
step-Holds (observes o) s id = observe-Holds s id o
step-Holds (schedules key fresh next t) s id = ground (arith, Holds-refl (lookup id s.intents))

-- Whatever sequence of guarded calls the workers make, no intent is removed, none changes its
-- operation, parties, amount or nonce, and one in SETTLED, NOT_SETTLED or UNRESOLVED_MANUAL keeps
-- its settlement state, its payload hash and its transaction hash.
pub run-Holds :
    (cs : List Call) (s : EvidenceStore) (id : Ident)
    → Holds (lookup id s.intents) (lookup id (run cs s).intents)
unfolding run
run-Holds [] s id = Holds-refl (lookup id s.intents)
run-Holds (c ∷ cs) s id =
    Holds-trans (lookup id s.intents) _ _ (step-Holds c s id) (run-Holds cs (step c s) id)

erase-insert_new {ℓ} :
    {V : Type ℓ} (k : Ident) (v : V) (m : Map V) → lookup k m ≡ none → erase k (insert k v m) ≡ m
unfolding lookup insert erase
erase-insert_new k v [] h = ground arith
erase-insert_new k v ((j, w) ∷ m) h = ground (arith, erase-insert_new k v m)

-- The nonce, if there is one, was free and gets the row; the other nonces are unchanged.
abbrev pub TakesNonce : Option Ident → NonceRecord → EvidenceStore → EvidenceStore → Type 0
TakesNonce none row s t = t.nonces ≡ s.nonces
TakesNonce (some n) row s t = (lookup n s.nonces ≡ none) × (t.nonces ≡ insert n row s.nonces)

-- Creating an intent with its nonce is all or nothing. If the call throws, the store is as it was,
-- the nonce reservation included. If it returns, no intent stood under the identifier before, the
-- given intent stands there after, and its nonce, if it has one, was free and is now reserved for
-- its operation and payer.
pub create_intent_with_nonce_atomic :
    (i : DurablePaymentIntent) (payer : Ident) (now : Time) (s : EvidenceStore)
    → let (t, thrown) = create_intent_with_nonce i payer now s in
      ((is_some thrown ≡ true) × (t ≡ s))
      ⊎ ((thrown ≡ none)
          × (lookup i.payment_intent_id s.intents ≡ none)
          × (lookup i.payment_intent_id t.intents
              ≡ some (record { intent = i; settled_bundle = none; not_settled_bundle = none }))
          × TakesNonce i.nonce (reservation i.operation_id payer now) s t)
unfolding create_intent_with_nonce
create_intent_with_nonce_atomic i payer now s = split (i.nonce) refl
  where
    row : IntentRecord
    row = record { intent = i; settled_bundle = none; not_settled_bundle = none }

    split :
        (o : Option Ident)
        → i.nonce ≡ o
        → let (t, thrown) = create_intent_with_nonce i payer now s in
          ((is_some thrown ≡ true) × (t ≡ s))
          ⊎ ((thrown ≡ none)
              × (lookup i.payment_intent_id s.intents ≡ none)
              × (lookup i.payment_intent_id t.intents ≡ some row)
              × TakesNonce i.nonce (reservation i.operation_id payer now) s t)
    split none e =
        rw (e, create_intent_with_nonce)
          (ground (arith, lookup-insert_self i.payment_intent_id row s.intents))
    split (some n) e =
        rw (e, create_intent_with_nonce)
          (ground (
            arith,
            lookup-insert_self i.payment_intent_id row s.intents,
            lookup-insert_self n (reservation i.operation_id payer now) s.nonces,
            erase-insert_new n (reservation i.operation_id payer now) s.nonces,
          ))
