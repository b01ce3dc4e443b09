-- ===== src/Submission/World/Once.antt =====
-- At most one payment is sent of an intent (lib/db/src/secretariat/postgres-store.ts).
use zeus_insurance_bot.Prelude.{
  ◌≡◌, ◌≤◌, ◌⊎◌, inl, inr, ℕ, ◌+◌, suc, true, false, Bool-cases, Option, none, Option-cases, List,
  [], ◌∷◌, Ident, Time, lookup, lookup-insert, ◌==◌, arith,
}
use zeus_insurance_bot.Intent.Types.{SettlementState, index, DurablePaymentIntent, NonceStatus}
use zeus_insurance_bot.Intent.Store.{
  EvidenceStore, IntentRecord, PayloadFields, StatusExtra, create_payment_intent, bind_payload,
}
use zeus_insurance_bot.Intent.Store.Nonces.{mark_nonce}
use zeus_insurance_bot.Intent.Store.Calls.{left_by}
use zeus_insurance_bot.Submission.Rows.{
  compare_and_set_row, update_status_row, set_columns, no_extra, authorize_row,
}
use zeus_insurance_bot.Submission.World.{
  World, Event, creates, authorizes, submits, posts, moves, updates, marks, IsAllowed, IsAllowedRun,
  created, mark_submitting, step, run, progress, occurrences, drop_one, post,
}

-- The payments of an intent that were sent or are about to be.
abbrev pub payments : Ident → World → ℕ
payments id w = occurrences id w.holding + occurrences id w.sent

-- Of every intent at most one payment was sent or is about to be, and of one before SUBMITTING none.
unfoldable pub SendsOnce : World → Type 0
SendsOnce w =
    (id : Ident)
    → (payments id w ≤ 1) × ((payments id w ≡ 0) ⊎ (2 ≤ progress (lookup id w.store.intents)))

-- A row that went past AUTHORIZED stays there.
abbrev Stays : Option IntentRecord → Option IntentRecord → Type 0
Stays o p = 2 ≤ progress o → 2 ≤ progress p

module _ (s : EvidenceStore) (id : Ident) where
  move-Stays :
      (key : Ident) (expected new : SettlementState) (x : StatusExtra) (now : Time)
      → (2 ≤ index new) ⊎ (index new ≡ index expected)
      → Stays
          (lookup id s.intents)
          (lookup id (compare_and_set_row key expected new x now s).0.intents)
  unfolding compare_and_set_row
  move-Stays key expected new x now fits past = elim (Option-cases (lookup key s.intents)) [
    | inl missing ↦ rw (missing, compare_and_set_row) (ground arith)
    | inr (r, found) ↦
        rw (found, compare_and_set_row)
          (ground (
            arith,
            lookup-insert key id (record r { intent = set_columns new x now r.intent }) s.intents,
          ))
  ]

  authorize-Stays :
      (key : Ident) (f : PayloadFields) (now : Time)
      → Stays (lookup id s.intents) (
          lookup id
            (left_by s (authorize_row key f SettlementState.pending_signature now s)).intents)
  unfolding authorize_row
  authorize-Stays key f now past = elim (Option-cases (lookup key s.intents)) [
    | inl missing ↦ rw (missing, authorize_row) past
    | inr (r, found) ↦
        rw (found, authorize_row)
          (ground (
            arith,
            lookup-insert key id (record r { intent = bind_payload f now r.intent }) s.intents,
          ))
  ]

  create-Stays :
      (i : DurablePaymentIntent)
      → Stays (lookup id s.intents) (lookup id (created s (create_payment_intent i s)).intents)
  unfolding create_payment_intent
  create-Stays i past = ground (
    arith,
    lookup-insert i.payment_intent_id id
        (record { intent = i; settled_bundle = none; not_settled_bundle = none }) s.intents,
  )

  mark-Stays :
      (st : NonceStatus) (n : Ident) (now : Time)
      → Stays (lookup id s.intents) (lookup id (mark_nonce st n now s).intents)
  unfolding mark_nonce
  mark-Stays st n now past = ground arith

  update-Stays :
      (key : Ident) (new : SettlementState) (x : StatusExtra) (now : Time)
      → (2 ≤ index new) ⊎ (suc (progress (lookup key s.intents)) ≤ 2)
      → Stays (lookup id s.intents) (lookup id (update_status_row key new x now s).intents)
  unfolding update_status_row
  update-Stays key new x now fits past = elim (Option-cases (lookup key s.intents)) [
    | inl missing ↦ rw (missing, update_status_row) past
    | inr (r, found) ↦
        rw (found, update_status_row)
          (ground (
            arith,
            lookup-insert key id (record r { intent = set_columns new x now r.intent }) s.intents,
          ))
  ]

-- The transition wins only from AUTHORIZED, and leaves the row in SUBMITTING.
pub mark_won :
    (key : Ident) (now : Time) (w : World)
    → (mark_submitting key now w).1 ≡ true
    → (suc (progress (lookup key w.store.intents)) ≤ 2)
      × (2 ≤ progress (lookup key (mark_submitting key now w).0.store.intents))
unfolding mark_submitting compare_and_set_row
mark_won key now w won = elim (Option-cases (lookup key w.store.intents)) [
  | inl missing ↦ ground arith
  | inr (r, found) ↦
      rw (found, mark_submitting, compare_and_set_row)
        (ground (
          arith,
          found,
          lookup-insert key key
              (record r { intent = set_columns SettlementState.submitting no_extra now r.intent })
              w.store.intents,
        ))
]

pub mark-SendsOnce :
    (key : Ident) (now : Time) (w : World) → SendsOnce w → SendsOnce (mark_submitting key now w).0
unfolding SendsOnce mark_submitting
mark-SendsOnce key now w once id = ground (
  arith,
  once id,
  move-Stays w.store id key SettlementState.authorized SettlementState.submitting no_extra now
      (inl (omega arith)),
)

-- A client that won may send the payment of its intent, at once or later.
won-payments :
    (key : Ident) (now : Time) (w : World) (id : Ident)
    → (mark_submitting key now w).1 ≡ true
    → SendsOnce w
    → (suc (payments id w) ≤ 1) ⊎ ((key == id) ≡ false)
unfolding SendsOnce
won-payments key now w id won once =
    let (before, after) = mark_won key now w won in
    elim (Bool-cases (key == id)) [
      | inl here ↦ let same : key ≡ id = (ground arith) in inl (ground (arith, once key))
      | inr other ↦ inr other
    ]

pub post-SendsOnce :
    (key : Ident) (now : Time) (w : World)
    → (mark_submitting key now w).1 ≡ true
    → SendsOnce w
    → SendsOnce (post key (mark_submitting key now w).0)
unfolding SendsOnce mark_submitting
post-SendsOnce key now w won once id =
    let (before, after) = mark_won key now w won in
    let kept = mark-SendsOnce key now w once id in
    elim (Bool-cases (key == id)) [
      | inl here ↦
          let same : key ≡ id = (ground arith) in
          ground (arith, kept, won-payments key now w id won once)
      | inr other ↦ rw other kept
    ]

hold-SendsOnce :
    (key : Ident) (now : Time) (w : World)
    → (mark_submitting key now w).1 ≡ true
    → SendsOnce w
    → let marked = (mark_submitting key now w).0 in
      SendsOnce (record marked { holding = key ∷ marked.holding })
unfolding SendsOnce mark_submitting
hold-SendsOnce key now w won once id =
    let (before, after) = mark_won key now w won in
    let kept = mark-SendsOnce key now w once id in
    elim (Bool-cases (key == id)) [
      | inl here ↦
          let same : key ≡ id = (ground arith) in
          ground (arith, kept, won-payments key now w id won once)
      | inr other ↦ rw other kept
    ]

submit-SendsOnce :
    (key : Ident) (now : Time) (w : World) → SendsOnce w → SendsOnce (step (submits key now) w)
unfolding step
submit-SendsOnce key now w once = elim (Bool-cases (mark_submitting key now w).1) [
  | inl won ↦ rw (won, step) (hold-SendsOnce key now w won once)
  | inr lost ↦ rw (lost, step) (mark-SendsOnce key now w once)
]

-- One of the occurrences is dropped.
occurrences-drop_one :
    (key id : Ident) (ids : List Ident)
    → suc 0 ≤ occurrences key ids
    → occurrences id ids ≡ occurrences id (key ∷ drop_one key ids)
occurrences-drop_one key id [] h = ground arith
occurrences-drop_one key id (a ∷ rest) h = ground (arith, occurrences-drop_one key id rest)

posts-SendsOnce : (key : Ident) (w : World) → SendsOnce w → SendsOnce (step (posts key) w)
unfolding SendsOnce step
posts-SendsOnce key w once id = ground (arith, once id, occurrences-drop_one key id w.holding)

pub step-SendsOnce : (e : Event) (w : World) → IsAllowed e w → SendsOnce w → SendsOnce (step e w)
unfolding SendsOnce step
step-SendsOnce (creates i) w fits once id = ground (arith, once id, create-Stays w.store id i)
step-SendsOnce (authorizes key f now) w fits once id =
    ground (arith, once id, authorize-Stays w.store id key f now)
step-SendsOnce (submits key now) w fits once id = submit-SendsOnce key now w once id
step-SendsOnce (posts key) w fits once id = posts-SendsOnce key w once id
step-SendsOnce (moves key expected new x now) w fits once id =
    ground (arith, once id, move-Stays w.store id key expected new x now fits)
step-SendsOnce (updates key new x now) w fits once id =
    ground (arith, once id, update-Stays w.store id key new x now fits)
step-SendsOnce (marks st n now) w fits once id =
    ground (arith, once id, mark-Stays w.store id st n now)

-- Whatever the workers do, in any order, with other steps between the transition of a client and its
-- sending, as long as no comparison-and-set leads back to PENDING_SIGNATURE or AUTHORIZED from
-- another state and no update without a test does so from a later state: if of every intent at most
-- one payment was sent or is about to be, and of one before SUBMITTING none, then this is still so.
pub run-SendsOnce :
    (es : List Event) (w : World) → IsAllowedRun es w → SendsOnce w → SendsOnce (run es w)
unfolding run
run-SendsOnce [] w fits once = once
run-SendsOnce (e ∷ es) w (fits, rest) once =
    run-SendsOnce es (step e w) rest (step-SendsOnce e w fits once)
