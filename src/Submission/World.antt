-- ===== src/Submission/World.antt =====
-- The intents together with the payments that were sent, and what changes them: the writes of
-- `PostgresEvidenceStore` (lib/db/src/secretariat/postgres-store.ts) and the sending of a payment
-- by a client whose `transitionToSubmitting` won, as a later step of its own. Writes that leave the
-- state of an intent as it is are left out; the handoff of a settled payment is a comparison-and-set.
pub mod Once
use zeus_insurance_bot.Prelude.{
  ◌≡◌, ◌≤◌, ◌⊎◌, ℕ, zero, suc, Bool, Option, none, some, List, [], ◌∷◌, Ident, Time, lookup, ltb,
  ◌==◌, if◌then◌else◌,
}
use zeus_insurance_bot.Intent.Types.{SettlementState, index, DurablePaymentIntent, NonceStatus}
use zeus_insurance_bot.Intent.Store.{
  EvidenceStore, IntentRecord, PayloadFields, Result, ok, err, StatusExtra, create_payment_intent,
}
use zeus_insurance_bot.Intent.Store.Nonces.{mark_nonce}
use zeus_insurance_bot.Intent.Store.Calls.{left_by}
use zeus_insurance_bot.Submission.Rows.{
  compare_and_set_row, update_status_row, transition_to_submitting, authorize_row,
}

-- The intents of which some client won the transition and is yet to send the payment, and those of
-- which a payment was sent, the last one first.
pub record World : Type 0 where
  pub store : EvidenceStore
  pub holding : List Ident
  pub sent : List Ident

pub data Event : Type 0 where
  creates : DurablePaymentIntent → Event
  authorizes : Ident → PayloadFields → Time → Event
  submits : Ident → Time → Event
  posts : Ident → Event
  moves : Ident → SettlementState → SettlementState → StatusExtra → Time → Event
  updates : Ident → SettlementState → StatusExtra → Time → Event
  marks : NonceStatus → Ident → Time → Event

abbrev pub created : EvidenceStore → Result EvidenceStore → EvidenceStore
created s (ok t) = t
created s (err e) = s

-- How far the intent of an identifier is.
abbrev pub progress : Option IntentRecord → ℕ
progress none = 0
progress (some r) = index r.intent.settlement_state

abbrev pub occurrences : Ident → List Ident → ℕ
occurrences id [] = 0
occurrences id (a ∷ rest) = if a == id then suc (occurrences id rest) else occurrences id rest

abbrev pub drop_one : Ident → List Ident → List Ident
drop_one id [] = []
drop_one id (a ∷ rest) = if a == id then rest else a ∷ drop_one id rest

-- The write before the payment is sent.
unfoldable pub mark_submitting : Ident → Time → World → World × Bool
mark_submitting id now w =
    let (t, won) = transition_to_submitting id now w.store in (record w { store = t }, won)

-- The request that carries the payment leaves.
abbrev pub post : Ident → World → World
post id w = record w { sent = id ∷ w.sent }

unfoldable pub step : Event → World → World
step (creates i) w = record w { store = created w.store (create_payment_intent i w.store) }
step (authorizes id f now) w = record w {
  store = left_by w.store (authorize_row id f SettlementState.pending_signature now w.store);
}
step (submits id now) w =
    let (marked, won) = mark_submitting id now w in
    if won then record marked { holding = id ∷ marked.holding } else marked
step (posts id) w =
    if ltb 0 (occurrences id w.holding)
    then post id (record w { holding = drop_one id w.holding })
    else w
step (moves id expected new x now) w = record w {
  store = (compare_and_set_row id expected new x now w.store).0;
}
step (updates id new x now) w = record w { store = update_status_row id new x now w.store }
step (marks st n now) w = record w { store = mark_nonce st n now w.store }

unfoldable pub run : List Event → World → World
run [] w = w
run (e ∷ es) w = run es (step e w)

-- No caller's comparison-and-set leads back to PENDING_SIGNATURE or AUTHORIZED, except from the
-- same state, and no update without a test does so from a later state.
abbrev pub IsAllowed : Event → World → Type 0
IsAllowed (moves id expected new x now) w = (2 ≤ index new) ⊎ (index new ≡ index expected)
IsAllowed (updates id new x now) w =
    (2 ≤ index new) ⊎ (suc (progress (lookup id w.store.intents)) ≤ 2)
IsAllowed _ w = Unit {0}

abbrev pub IsAllowedRun : List Event → World → Type 0
IsAllowedRun [] w = Unit {0}
IsAllowedRun (e ∷ es) w = IsAllowed e w × IsAllowedRun es (step e w)
