-- ===== src/Submission/PaidCall/Sends.antt =====
-- A paid call and the workers beside it send at most one payment of an intent
-- (zeus-secretariat/src/core/standard-x402-transport.ts).
use zeus_insurance_bot.Prelude.{none, some, Option-cases, inl, inr, arith}
use zeus_insurance_bot.Intent.Types.{DurablePaymentIntent}
use zeus_insurance_bot.Submission.World.{World}
use zeus_insurance_bot.Submission.World.Once.{SendsOnce}
use zeus_insurance_bot.Submission.Client.{
  Env, Answer, failed, answered, bookkeeping_failed, Reason, no_receipt, facilitator_ambiguous,
  facilitator_rejected, answer_extra,
}
use zeus_insurance_bot.Submission.PaidCall.{
  SellerAnswer, conclude_call, submit_paid_call, parse_payment_response_header, paid_call,
}
use zeus_insurance_bot.Submission.Client.Sends.{
  IsCalm, ambiguous-SendsOnce, books-SendsOnce, dispatch-SendsOnce,
}

call-SendsOnce :
    (env : Env SellerAnswer) (i : DurablePaymentIntent) (a : Answer SellerAnswer) (w : World)
    → SendsOnce w
    → SendsOnce (conclude_call env i a w).0
unfolding conclude_call
call-SendsOnce env i (failed e) w once = ambiguous-SendsOnce env i w once _
call-SendsOnce env i (answered status b) w once =
    let after_answer : (r : Reason) → _ = λ r.
      ambiguous-SendsOnce env i w once
        (answer_extra status (paid_call env i status b) (env.text r)) in
    elim (Option-cases (parse_payment_response_header b.receipt)) [
      | inl missing ↦
          rw (missing, conclude_call)
            (ground (
              arith,
              after_answer no_receipt,
              after_answer (facilitator_ambiguous status 0),
              after_answer (facilitator_rejected status),
            ))
      | inr (hash, found) ↦
          rw (found, conclude_call)
            (ground (
              arith,
              after_answer (facilitator_ambiguous status 0),
              after_answer (facilitator_rejected status),
              books-SendsOnce env i w once status (some hash) (paid_call env i status b) (record {
                tx_hash = some hash;
                facilitator_http_status = none;
                facilitator_response_body = some (paid_call env i status b);
                error_reason = some (env.text (bookkeeping_failed 0));
              }),
            ))
    ]

-- A paid call to a seller of the standard transport keeps to one payment, whichever of its own
-- writes fail: if before it at most one payment of every intent was sent or is about to be sent by
-- another client, and none of an intent before SUBMITTING, then also after it. While it is on its way, other workers may write and
-- submit, as long as no comparison-and-set leads back to PENDING_SIGNATURE or AUTHORIZED from
-- another state and no update without a test does so from a later state.
pub submit_paid_call-SendsOnce :
    (env : Env SellerAnswer) (i : DurablePaymentIntent) (w : World)
    → IsCalm env
    → SendsOnce w
    → SendsOnce (submit_paid_call env i w).0
unfolding submit_paid_call
submit_paid_call-SendsOnce env i w calm once =
    dispatch-SendsOnce env i w once (conclude_call env i) calm (call-SendsOnce env i)
