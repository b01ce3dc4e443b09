-- ===== src/Intent/Store/Nonces.antt =====
-- The nonces of `InMemoryEvidenceStore`, and `createIntentWithNonce`
-- (zeus-secretariat/src/store/in-memory-store.ts).
use zeus_insurance_bot.Prelude.{
  Bool, true, false, ◌&&◌, Option, none, some, Ident, Time, lookup, insert, erase, is_some, ◌==◌,
  if◌then◌else◌,
}
use zeus_insurance_bot.Intent.Types.{DurablePaymentIntent, NonceRecord, NonceStatus}
use zeus_insurance_bot.Intent.Store.{
  EvidenceStore, Result, StoreError, create_payment_intent, err, nonce_already_reserved, ok,
}

-- The row that a reservation makes.
abbrev pub reservation : Ident → Ident → Time → NonceRecord
reservation op payer now = record {
  operation_id = op;
  status = NonceStatus.reserved;
  payer = payer;
  created_at = now;
  updated_at = now;
}

unfoldable pub reserve_nonce : Ident → Ident → Ident → Time → EvidenceStore → Result EvidenceStore
reserve_nonce nonce op payer now s =
    if is_some (lookup nonce s.nonces)
    then err nonce_already_reserved
    else ok (record s { nonces = insert nonce (reservation op payer now) s.nonces })

unfoldable pub get_nonce : Ident → EvidenceStore → Option NonceRecord
get_nonce nonce s = lookup nonce s.nonces

-- `markNonceSigned`, `markNonceSubmitted` and `markNonceSettled`.
unfoldable pub mark_nonce : NonceStatus → Ident → Time → EvidenceStore → EvidenceStore
mark_nonce status nonce now s = elim (lookup nonce s.nonces) [
  | none ↦ s
  | some n ↦ record s {
    nonces = insert nonce (record n { status = status; updated_at = now }) s.nonces;
  }
]

abbrev is_reserved_for : Ident → NonceRecord → Bool
is_reserved_for op n = n.operation_id == op && elim (n.status) [
  | NonceStatus.reserved ↦ true
  | NonceStatus.signed ↦ false
  | NonceStatus.submitted ↦ false
  | NonceStatus.settled ↦ false
]

-- The `catch` of `createIntentWithNonce`.
abbrev pub roll_back : Ident → Ident → EvidenceStore → EvidenceStore
roll_back nonce op s = elim (lookup nonce s.nonces) [
  | none ↦ s
  | some n ↦ if is_reserved_for op n then record s { nonces = erase nonce s.nonces } else s
]

-- The store after the call, and the error that it throws.
abbrev after_create :
    Ident → Ident → EvidenceStore → Result EvidenceStore → EvidenceStore × Option StoreError
after_create nonce op s (ok t) = (t, none)
after_create nonce op s (err e) = (roll_back nonce op s, some e)

abbrev pub outcome : EvidenceStore → Result EvidenceStore → EvidenceStore × Option StoreError
outcome s (ok t) = (t, none)
outcome s (err e) = (s, some e)

unfoldable pub create_intent_with_nonce :
    DurablePaymentIntent → Ident → Time → EvidenceStore → EvidenceStore × Option StoreError
unfolding create_payment_intent reserve_nonce
create_intent_with_nonce i payer now s = elim (i.nonce) [
  | none ↦ outcome s (create_payment_intent i s)
  | some nonce ↦ elim (reserve_nonce nonce i.operation_id payer now s) [
    | err e ↦ (s, some e)
    | ok t ↦ after_create nonce i.operation_id t (create_payment_intent i t)
  ]
]
