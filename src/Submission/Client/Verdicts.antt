-- ===== src/Submission/Client/Verdicts.antt =====
-- What a submission leaves behind (zeus-secretariat/src/adapters/x402-facilitator-client.ts).
use zeus_insurance_bot.Prelude.{
  ◌≡◌, refl, ◌≢◌, false, Option, some, Bool-cases, inl, inr, List, Ident, Time, lookup, or_else,
  arith, ◌==◌,
}
use zeus_insurance_bot.Intent.Types.{SettlementState, index, DurablePaymentIntent}
use zeus_insurance_bot.Intent.Store.{IntentRecord, find_intent_by_operation_id}
use zeus_insurance_bot.Submission.Rows.{compare_and_set_row}
use zeus_insurance_bot.Submission.World.{World, mark_submitting}
use zeus_insurance_bot.Submission.Client.{
  Env, FacilitatorBody, SubmitResult, submitted, rejected, unknown, Refusal, db_state_guard,
  cas_failed, send_payment, dispatch, submit, guard_refuses,
}

-- No other worker writes while the payment is on its way, and no write fails.
pub record IsQuiet {B : Type 0} (env : Env B) : Type 0 where
  pub alone : (w : World) → env.others w ≡ w
  pub records : env.record_fails ≡ false
  pub marks : env.nonce_fails ≡ false
  pub reconciles : env.ambiguous_fails ≡ false

-- The intent as a submission leaves it, by its result and the transaction that it had.
abbrev pub Left : SubmitResult → Option Ident → IntentRecord → Type 0
Left (submitted hash) old b =
    (b.intent.settlement_state ≡ SettlementState.settlement_pending)
    × (b.intent.tx_hash ≡ or_else hash old)
Left (rejected r) old b =
    (b.intent.settlement_state ≡ SettlementState.reconciling) × (b.intent.tx_hash ≡ old)
Left unknown old b =
    (b.intent.settlement_state ≡ SettlementState.reconciling) × (b.intent.tx_hash ≡ old)

-- The same in a world, with the payments that were sent.
abbrev pub LeftIn : Ident → SubmitResult → Option Ident → List Ident → World → Type 0
LeftIn id result old sent w =
    (w.sent ≡ sent)
    × ((b : IntentRecord) × (lookup id w.store.intents ≡ some b) × Left result old b)

module _ (env : Env FacilitatorBody) (i : DurablePaymentIntent) (quiet : IsQuiet env) (w : World)
    (a : IntentRecord) (found : lookup i.payment_intent_id w.store.intents ≡ some a)
    (here : a.intent.settlement_state ≡ SettlementState.submitting) where
  -- A result with the store that it comes with.
  abbrev Leaves : World × SubmitResult → Type 0
  Leaves (u, result) = LeftIn i.payment_intent_id result a.intent.tx_hash w.sent u

-- Marking any other intent writes nothing.
mark_other :
    (id : Ident) (now : Time) (w : World) (a : IntentRecord)
    → lookup id w.store.intents ≡ some a
    → index a.intent.settlement_state ≢ 1
    → mark_submitting id now w ≡ (w, false)
unfolding mark_submitting compare_and_set_row
mark_other id now w a found other =
    let differs : (index a.intent.settlement_state == 1) ≡ false = ground arith in
    rw (found, differs, mark_submitting, compare_and_set_row) refl

-- A submission of an intent in any other state than AUTHORIZED is refused: nothing is sent and
-- nothing is written, whatever the facilitator would answer.
pub submit_refuses :
    (env : Env FacilitatorBody) (i : DurablePaymentIntent) (w : World) (a : IntentRecord)
    → find_intent_by_operation_id i.operation_id w.store ≡ some a
    → lookup i.payment_intent_id w.store.intents ≡ some a
    → index a.intent.settlement_state ≢ 1
    → (r : Refusal) × (submit env i w ≡ (w, rejected r))
unfolding submit dispatch send_payment
submit_refuses env i w a named found other =
    elim (Bool-cases (guard_refuses a.intent.settlement_state)) [
      | inl guarded ↦ (db_state_guard a.intent.settlement_state, rw (named, guarded, submit) refl)
      | inr passes ↦ (
        cas_failed,
        rw (named, passes, mark_other i.payment_intent_id env.now w a found other, submit, dispatch)
            refl,
      )
    ]
