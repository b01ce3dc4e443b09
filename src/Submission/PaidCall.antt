-- ===== src/Submission/PaidCall.antt =====
-- `StandardX402Transport` (zeus-secretariat/src/core/standard-x402-transport.ts): a paid call to a
-- seller whose facilitator settles the payment.
pub mod Sends
use zeus_insurance_bot.Prelude.{
  ℕ, Bool, true, false, not, ◌&&◌, ◌||◌, Option, none, some, Ident, Opaque, Time, lookup, get_or,
  or_else, leb, ltb, ◌==◌, if◌then◌else◌,
}
use zeus_insurance_bot.Intent.Types.{
  SettlementState, index, allow_new_payment, DurablePaymentIntent, NonceStatus,
  StandardPaidCallRecord, ResponseBody, other_body, standard_paid_call,
}
use zeus_insurance_bot.Intent.Store.{EvidenceStore, StatusExtra, find_intent_by_operation_id}
use zeus_insurance_bot.Intent.Store.Nonces.{mark_nonce}
use zeus_insurance_bot.Submission.Rows.{no_extra, compare_and_set_row, record_submission_result}
use zeus_insurance_bot.Submission.World.{World, mark_submitting}
use zeus_insurance_bot.Submission.Client.{
  Refusal, cas_failed, refused, SubmitResult, submitted, rejected, unknown, Reason, network_error,
  facilitator_rejected, bookkeeping_failed, no_receipt, facilitator_ambiguous, Answer, failed,
  answered, Env, is_ok, reconcile_ambiguous, keep_books, dispatch, answer_extra, failure_extra,
}

-- The answer of a seller. The receipt is what its header decodes to; a transaction that is not
-- written as a hash is `none`.
pub record SellerAnswer : Type 0 where
  pub receipt : Option (Bool × Option Ident)
  pub seller_body : Option Opaque
  pub captured_at : Time

-- `parsePaymentResponseHeader`.
abbrev pub parse_payment_response_header : Option (Bool × Option Ident) → Option Ident
parse_payment_response_header none = none
parse_payment_response_header (some (false, hash)) = none
parse_payment_response_header (some (true, hash)) = hash

module _ (env : Env SellerAnswer) (i : DurablePaymentIntent) where
  abbrev pub paid_call : ℕ → SellerAnswer → ResponseBody
  paid_call status b = standard_paid_call (record {
    seller_http_status = status;
    seller_body = b.seller_body;
    captured_at = b.captured_at;
  })

  abbrev pub is_ambiguous : ℕ → Bool
  is_ambiguous status = status == 408 || status == 409 || status == 429 || leb 500 status

  unfoldable pub conclude_call : Answer SellerAnswer → World → World × SubmitResult
  unfolding keep_books reconcile_ambiguous
  conclude_call (failed e) w =
      (reconcile_ambiguous env i (failure_extra (env.text (network_error e))) w, unknown)
  conclude_call (answered status b) w =
      let uncertain =
        reconcile_ambiguous env i
          (answer_extra status (paid_call status b) (env.text (facilitator_ambiguous status 0)))
          w in
      let refusal =
        reconcile_ambiguous env i
          (answer_extra status (paid_call status b) (env.text (facilitator_rejected status))) w in
      if is_ok status
      then elim (parse_payment_response_header b.receipt) [
        | none ↦ (
          reconcile_ambiguous env i (answer_extra status (paid_call status b) (env.text no_receipt))
              w,
          unknown,
        )
        | some hash ↦ (
          keep_books env i status (some hash) (paid_call status b)
              (record {
                tx_hash = some hash;
                facilitator_http_status = none;
                facilitator_response_body = some (paid_call status b);
                error_reason = some (env.text (bookkeeping_failed 0));
              })
              w,
          submitted (some hash),
        )
      ]
      else if is_ambiguous status
      then (uncertain, unknown)
      else (refusal, rejected refused)

  -- `submit` of the standard transport.
  unfoldable pub submit_paid_call : World → World × SubmitResult
  unfolding dispatch conclude_call
  submit_paid_call w = dispatch env i conclude_call w
