-- ===== src/Intent/Tests.antt =====
-- The theorems on the intent store at sample rows.
use zeus_insurance_bot.Prelude.{◌≡◌, ◌⊎◌, refl, true, none, some, List, [], ◌∷◌, lookup, is_some}
use zeus_insurance_bot.Intent.Types.{SettlementState}
use zeus_insurance_bot.Intent.Store.{EvidenceStore}
use zeus_insurance_bot.Intent.Store.Nonces.{create_intent_with_nonce, reservation}
use zeus_insurance_bot.Intent.Store.Calls.{Call, creates, compares, saves_settled, run}
use zeus_insurance_bot.Intent.Store.Guards.{
  Holds, run-Holds, TakesNonce, create_intent_with_nonce_atomic,
}
use zeus_insurance_bot.Intent.Store.Unique.{IsUnique, run-IsUnique}
use zeus_insurance_bot.Samples.{no_payments, sample_intent, settled_bundle}

abbrev stored : EvidenceStore
stored = record no_payments {
  intents =
      (40, record { intent = sample_intent none; settled_bundle = none; not_settled_bundle = none })
      ∷ [];
}

-- A late write of a lost worker, an evidence bundle, and a second intent for the operation.
abbrev calls : List Call
calls =
    compares 40 SettlementState.submitted SettlementState.not_settled 100
    ∷ saves_settled 40 settled_bundle
    ∷ creates (record (sample_intent none) { payment_intent_id = 48; nonce = some 49 }) 41 100
    ∷ []

run-Holds_example : Holds (lookup 40 stored.intents) (lookup 40 (run calls stored).intents)
run-Holds_example = run-Holds calls stored 40

run-IsUnique_example : IsUnique (run calls stored)
run-IsUnique_example = run-IsUnique calls stored (refl, tt)

create_intent_with_nonce_atomic_example :
    let (t, thrown) = create_intent_with_nonce (sample_intent none) 41 100 no_payments in
    ((is_some thrown ≡ true) × (t ≡ no_payments))
    ⊎ ((thrown ≡ none)
        × (lookup 40 no_payments.intents ≡ none)
        × (lookup 40 t.intents
            ≡ some (record {
              intent = sample_intent none;
              settled_bundle = none;
              not_settled_bundle = none;
            }))
        × TakesNonce (some 44) (reservation 7 41 100) no_payments t)
create_intent_with_nonce_atomic_example =
    create_intent_with_nonce_atomic (sample_intent none) 41 100 no_payments
