-- ===== src/Submission/Client/Sends.antt =====
-- A submission and the workers beside it send at most one payment of an intent
-- (zeus-secretariat/src/adapters/x402-facilitator-client.ts).
use zeus_insurance_bot.Prelude.{
  ◌≡◌, ◌≤◌, ℕ, Option, none, some, Option-cases, Bool-cases, inl, inr, List, Ident, Time, arith,
}
use zeus_insurance_bot.Intent.Types.{
  SettlementState, index, DurablePaymentIntent, NonceStatus, ResponseBody,
}
use zeus_insurance_bot.Intent.Store.{StatusExtra, find_intent_by_operation_id}
use zeus_insurance_bot.Intent.Store.Nonces.{mark_nonce}
use zeus_insurance_bot.Submission.Rows.{compare_and_set_row}
use zeus_insurance_bot.Submission.World.{
  World, Event, moves, marks, IsAllowedRun, mark_submitting, step, run, post,
}
use zeus_insurance_bot.Submission.World.Once.{
  SendsOnce, step-SendsOnce, run-SendsOnce, mark-SendsOnce as marked-SendsOnce, post-SendsOnce,
}
use zeus_insurance_bot.Submission.Client.{
  Env, Answer, failed, answered, FacilitatorBody, SubmitResult, reconcile_ambiguous, fall_back,
  keep_books, send_payment, dispatch, conclude_accepted, conclude_refused, conclude, submit,
  is_definitive,
}

-- While the payment is on its way, the workers make allowed writes and send payments of their own.
unfoldable pub IsCalm : {B : Type 0} → Env B → Type 0
IsCalm env =
    (w : World) → (events : List Event) × IsAllowedRun events w × (run events w ≡ env.others w)

-- A comparison-and-set by the clients.
move-SendsOnce :
    (id : Ident) (new : SettlementState) (x : StatusExtra) (now : Time) (w : World)
    → 2 ≤ index new
    → SendsOnce w
    → SendsOnce (record w {
      store = (compare_and_set_row id SettlementState.submitting new x now w.store).0;
    })
unfolding step
move-SendsOnce id new x now w late once =
    step-SendsOnce (moves id SettlementState.submitting new x now) w (inl late) once

mark-SendsOnce :
    (st : NonceStatus) (n : Ident) (now : Time) (w : World)
    → SendsOnce w
    → SendsOnce (record w { store = mark_nonce st n now w.store })
unfolding step
mark-SendsOnce st n now w once = step-SendsOnce (marks st n now) w tt once

module _ {B : Type 0} (env : Env B) (i : DurablePaymentIntent) (w : World)
    (once : SendsOnce w) where
  pub ambiguous-SendsOnce : (x : StatusExtra) → SendsOnce (reconcile_ambiguous env i x w)
  unfolding reconcile_ambiguous
  ambiguous-SendsOnce x = ground (
    arith,
    move-SendsOnce i.payment_intent_id SettlementState.reconciling x env.now w (omega arith) once,
  )

  fall_back-SendsOnce : (x : StatusExtra) → SendsOnce (fall_back env i x w)
  fall_back-SendsOnce x = ground (
    arith,
    move-SendsOnce i.payment_intent_id SettlementState.settlement_pending x env.now w (omega arith)
        once,
  )

module _ {B : Type 0} (env : Env B) (i : DurablePaymentIntent) (w : World)
    (once : SendsOnce w) where
  pub books-SendsOnce :
      (status : ℕ) (hash : Option Ident) (body : ResponseBody) (x : StatusExtra)
      → SendsOnce (keep_books env i status hash body x w)
  unfolding keep_books
  books-SendsOnce status hash body x =
      let recorded-SendsOnce =
        move-SendsOnce i.payment_intent_id SettlementState.settlement_pending
          (record {
            tx_hash = hash;
            facilitator_http_status = some status;
            facilitator_response_body = some body;
            error_reason = none;
          })
          env.now w (omega arith) once in
      elim (Option-cases (i.nonce)) [
        | inl missing ↦
            rw (missing, keep_books)
              (ground (arith, fall_back-SendsOnce env i w once x, recorded-SendsOnce))
        | inr (n, found) ↦
            rw (found, keep_books)
              (ground (
                arith,
                fall_back-SendsOnce env i w once x,
                fall_back-SendsOnce env i _ recorded-SendsOnce x,
                mark-SendsOnce NonceStatus.submitted n env.now _ recorded-SendsOnce,
              ))
      ]

  others-SendsOnce : IsCalm env → SendsOnce (env.others w)
  unfolding IsCalm
  others-SendsOnce calm =
      let (events, allowed, same) = calm w in rw same at (run-SendsOnce events w allowed once)

module _ {B : Type 0} (env : Env B) (i : DurablePaymentIntent) (w : World)
    (once : SendsOnce w) where
  -- The answer is concluded within the invariant: so is the whole exchange.
  pub dispatch-SendsOnce :
      (finish : Answer B → World → World × SubmitResult)
      → IsCalm env
      → ((a : Answer B) (u : World) → SendsOnce u → SendsOnce (finish a u).0)
      → SendsOnce (dispatch env i finish w).0
  unfolding dispatch send_payment
  dispatch-SendsOnce finish calm keeps =
      let posted = post i.payment_intent_id (mark_submitting i.payment_intent_id env.now w).0 in
      elim (Bool-cases (mark_submitting i.payment_intent_id env.now w).1) [
        | inr lost ↦ rw (lost, dispatch) (marked-SendsOnce i.payment_intent_id env.now w once)
        | inl won ↦
            rw (won, dispatch)
              (keeps (env.reply posted) (env.others posted) (
                others-SendsOnce env i posted
                  (post-SendsOnce i.payment_intent_id env.now w won once) calm))
      ]

module _ (env : Env FacilitatorBody) (i : DurablePaymentIntent) (w : World)
    (once : SendsOnce w) where
  accepted-SendsOnce :
      (status : ℕ) (b : FacilitatorBody) → SendsOnce (conclude_accepted env i status b w).0
  unfolding conclude_accepted
  accepted-SendsOnce status b = elim (Option-cases (b.success)) [
    | inl missing ↦ rw (missing, conclude_accepted) (ambiguous-SendsOnce env i w once _)
    | inr (verdict, found) ↦ elim (Bool-cases verdict) [
      | inl accepts ↦
          rw (found, accepts, conclude_accepted) (books-SendsOnce env i w once status _ _ _)
      | inr denies ↦ rw (found, denies, conclude_accepted) (ambiguous-SendsOnce env i w once _)
    ]
  ]

  refused-SendsOnce :
      (status : ℕ) (b : FacilitatorBody) → SendsOnce (conclude_refused env i status b w).0
  unfolding conclude_refused
  refused-SendsOnce status b = elim (Bool-cases (is_definitive env i status b)) [
    | inl final ↦ rw (final, conclude_refused) (ambiguous-SendsOnce env i w once _)
    | inr open_end ↦ rw (open_end, conclude_refused) (ambiguous-SendsOnce env i w once _)
  ]

conclude-SendsOnce :
    (env : Env FacilitatorBody) (i : DurablePaymentIntent) (a : Answer FacilitatorBody) (w : World)
    → SendsOnce w
    → SendsOnce (conclude env i a w).0
unfolding conclude
conclude-SendsOnce env i (failed e) w once = ambiguous-SendsOnce env i w once _
conclude-SendsOnce env i (answered status b) w once =
    ground
      (arith, accepted-SendsOnce env i w once status b, refused-SendsOnce env i w once status b)

-- A submission through the facilitator keeps to one payment, whichever of its own writes fail: if
-- before it at most one payment of every intent was sent or is about to be sent by another client,
-- and none of an intent before SUBMITTING, then also after it. While the payment is on its way, other workers may write and submit, as long
-- as no comparison-and-set leads back to PENDING_SIGNATURE or AUTHORIZED from another state and no
-- update without a test does so from a later state.
pub submit-SendsOnce :
    (env : Env FacilitatorBody) (i : DurablePaymentIntent) (w : World)
    → IsCalm env
    → SendsOnce w
    → SendsOnce (submit env i w).0
unfolding submit
submit-SendsOnce env i w calm once =
    elim (Option-cases (find_intent_by_operation_id i.operation_id w.store)) [
      | inl missing ↦ rw (missing, submit) once
      | inr (r, found) ↦
          rw (found, submit)
            (ground (
              arith,
              once,
              dispatch-SendsOnce env i w once (conclude env i) calm (conclude-SendsOnce env i),
            ))
    ]
