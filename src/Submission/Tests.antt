-- ===== src/Submission/Tests.antt =====
-- The theorems on submissions at a sample intent.
use zeus_insurance_bot.Prelude.{
  ◌≡◌, refl, true, false, none, some, List, [], ◌∷◌, lookup, insert, inl, arith,
}
use zeus_insurance_bot.Intent.Types.{SettlementState}
use zeus_insurance_bot.Intent.Store.{EvidenceStore, IntentRecord}
use zeus_insurance_bot.Submission.Rows.{no_extra, compare_and_set_row, update_status_row}
use zeus_insurance_bot.Intent.Store.{compare_and_set_state}
use zeus_insurance_bot.Submission.Rows.Agreement.{compare_and_set_row_agrees}
use zeus_insurance_bot.Submission.World.{
  World, Event, submits, posts, moves, updates, step, mark_submitting, occurrences, run,
}
use zeus_insurance_bot.Submission.World.Once.{SendsOnce, run-SendsOnce}
use zeus_insurance_bot.Submission.Client.{Env, FacilitatorBody, answered, submit}
use zeus_insurance_bot.Submission.Client.Sends.{IsCalm, submit-SendsOnce}
use zeus_insurance_bot.Submission.PaidCall.{SellerAnswer, submit_paid_call}
use zeus_insurance_bot.Submission.PaidCall.Sends.{submit_paid_call-SendsOnce}
use zeus_insurance_bot.Samples.{no_payments, sample_intent}

abbrev row : SettlementState → IntentRecord
row state = record {
  intent = record (sample_intent none) {
    settlement_state = state;
    tx_hash = none;
    facilitator_response_body = none;
  };
  settled_bundle = none;
  not_settled_bundle = none;
}

abbrev stored : SettlementState → EvidenceStore
stored state = record no_payments { intents = (40, row state) ∷ [] }

abbrev world : SettlementState → World
world state = record { store = stored state; holding = []; sent = [] }

-- A second worker submits the intent and finds its own outcome unclear.
abbrev events : List Event
events =
    submits 40 101
    ∷ posts 40
    ∷ moves 40 SettlementState.submitting SettlementState.reconciling no_extra 102
    ∷ []

abbrev body : FacilitatorBody
body = record {
  success = some true;
  transaction = some 47;
  transaction_hash = none;
  tx_hash = none;
  transaction_hash_snake = none;
  error_reason = none;
  error = none;
  message = none;
  raw = 90;
}

abbrev env : {B : Type 0} → (World → World) → B → Env B
env others answer = record {
  now = 100;
  others = others;
  reply = λ w. answered 200 answer;
  record_fails = false;
  nonce_fails = false;
  fallback_fails = false;
  ambiguous_fails = false;
  text = λ r. 0;
  names_reuse = λ t. false;
}

world-SendsOnce : (state : SettlementState) → SendsOnce (world state)
unfolding SendsOnce
world-SendsOnce state id = (omega arith, inl refl)

env-IsCalm : {B : Type 0} (answer : B) → IsCalm (env (run events) answer)
unfolding IsCalm
env-IsCalm answer w = (events, (tt, (tt, (inl (omega arith), tt))), refl)

run-SendsOnce_example : SendsOnce (run events (world SettlementState.authorized))
run-SendsOnce_example =
    run-SendsOnce events (world SettlementState.authorized) (tt, (tt, (inl (omega arith), tt)))
      (world-SendsOnce SettlementState.authorized)

submit-SendsOnce_example :
    SendsOnce
      (submit
        (env (run events) body)
        (row SettlementState.authorized).intent
        (world SettlementState.authorized)).0
submit-SendsOnce_example =
    submit-SendsOnce (env (run events) body) (row SettlementState.authorized).intent
      (world SettlementState.authorized) (env-IsCalm body)
      (world-SendsOnce SettlementState.authorized)

abbrev seller : SellerAnswer
seller = record { receipt = some (true, some 47); seller_body = some 91; captured_at = 95 }

submit_paid_call-SendsOnce_example :
    SendsOnce
      (submit_paid_call
        (env (run events) seller)
        (row SettlementState.authorized).intent
        (world SettlementState.authorized)).0
submit_paid_call-SendsOnce_example =
    submit_paid_call-SendsOnce (env (run events) seller) (row SettlementState.authorized).intent
      (world SettlementState.authorized) (env-IsCalm seller)
      (world-SendsOnce SettlementState.authorized)

compare_and_set_row_agrees_example :
    compare_and_set_row 40 SettlementState.submitting SettlementState.settled no_extra 100
      (stored SettlementState.submitting)
    ≡ compare_and_set_state 40 SettlementState.submitting SettlementState.settled 100
        (stored SettlementState.submitting)
compare_and_set_row_agrees_example =
    compare_and_set_row_agrees 40 SettlementState.submitting SettlementState.settled 100
      (stored SettlementState.submitting)

-- What an update without a test does when it leads back: the intent is paid twice.
two_payments :
    occurrences 40
      (run
        (submits 40 101
          ∷ posts 40
          ∷ updates 40 SettlementState.authorized no_extra 102
          ∷ submits 40 103
          ∷ posts 40
          ∷ [])
        (world SettlementState.authorized)).sent
    ≡ 2
unfolding run step mark_submitting compare_and_set_row update_status_row lookup insert
two_payments = refl
