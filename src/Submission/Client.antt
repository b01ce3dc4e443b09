-- ===== src/Submission/Client.antt =====
-- `X402FacilitatorClient` (zeus-secretariat/src/adapters/x402-facilitator-client.ts): the submission
-- of a signed payment to the facilitator, with the steps that it shares with the paid call of
-- zeus-secretariat/src/core/standard-x402-transport.ts.
pub mod Sends
pub mod Verdicts
use zeus_insurance_bot.Prelude.{
  ℕ, Bool, true, false, not, ◌&&◌, ◌||◌, Option, none, some, Ident, Opaque, Time, lookup, get_or,
  or_else, leb, ltb, ◌==◌, if◌then◌else◌,
}
use zeus_insurance_bot.Intent.Types.{
  SettlementState, index, allow_new_payment, DurablePaymentIntent, NonceStatus,
  StandardPaidCallRecord, ResponseBody, other_body, standard_paid_call,
}
use zeus_insurance_bot.Intent.Store.{EvidenceStore, StatusExtra, find_intent_by_operation_id}
use zeus_insurance_bot.Intent.Store.Nonces.{mark_nonce}
use zeus_insurance_bot.Submission.Rows.{no_extra, compare_and_set_row, record_submission_result}
use zeus_insurance_bot.Submission.World.{World, mark_submitting, post}

pub data Refusal : Type 0 where
  intent_not_found cas_failed refused : Refusal
  db_state_guard : SettlementState → Refusal

-- `SubmitResult`; the transaction hash is `none` where it is the empty text.
pub data SubmitResult : Type 0 where
  submitted : Option Ident → SubmitResult
  rejected : Refusal → SubmitResult
  unknown : SubmitResult

-- What the texts of `errorReason` are made of.
pub data Reason : Type 0 where
  network_error facilitator_rejected bookkeeping_failed : Opaque → Reason
  no_success_field no_receipt : Reason
  facilitator_ambiguous : ℕ → Opaque → Reason
  http_status settle_failed : ℕ → Reason

-- The body of a facilitator's answer; `raw` is all of it.
pub record FacilitatorBody : Type 0 where
  pub success : Option Bool
  pub transaction : Option Ident
  pub transaction_hash : Option Ident
  pub tx_hash : Option Ident
  pub transaction_hash_snake : Option Ident
  pub error_reason : Option Opaque
  pub error : Option Opaque
  pub message : Option Opaque
  pub raw : Opaque

-- `fetch` throws or answers.
pub data Answer (B : Type 0) : Type 0 where
  failed : Opaque → Answer B
  answered : ℕ → B → Answer B

-- What one submission meets: what other workers do while a payment is on its way, how `fetch` then
-- ends, and which of the writes after it fail.
pub record Env (B : Type 0) : Type 0 where
  pub now : Time
  pub others : World → World
  pub reply : World → Answer B
  pub record_fails : Bool
  pub nonce_fails : Bool
  pub fallback_fails : Bool
  pub ambiguous_fails : Bool
  pub text : Reason → Opaque
  pub names_reuse : Opaque → Bool

-- `response.ok`.
abbrev pub is_ok : ℕ → Bool
is_ok status = leb 200 status && ltb status 300

-- The states of the guard.
abbrev pub is_past_authorized : SettlementState → Bool
is_past_authorized SettlementState.not_settled = false
is_past_authorized SettlementState.authorized = false
is_past_authorized _ = true

abbrev is_authorized : SettlementState → Bool
is_authorized SettlementState.authorized = true
is_authorized _ = false

abbrev pub guard_refuses : SettlementState → Bool
guard_refuses st = not (allow_new_payment st) && not (is_authorized st) && is_past_authorized st

abbrev pub reason_of : FacilitatorBody → Opaque → Opaque
reason_of b default = get_or (or_else b.error_reason (or_else b.error b.message)) default

abbrev pub hash_of : FacilitatorBody → Option Ident
hash_of b =
    or_else b.transaction (or_else b.transaction_hash (or_else b.tx_hash b.transaction_hash_snake))

module _ {B : Type 0} (env : Env B) (i : DurablePaymentIntent) where
  -- `reconcileAmbiguous`.
  unfoldable pub reconcile_ambiguous : StatusExtra → World → World
  reconcile_ambiguous x w = if env.ambiguous_fails then w else record w {
    store =
        (compare_and_set_row i.payment_intent_id SettlementState.submitting
          SettlementState.reconciling x env.now w.store).0;
  }

  -- The best-effort write after a failure.
  abbrev pub fall_back : StatusExtra → World → World
  fall_back x w = if env.fallback_fails then w else record w {
    store =
        (compare_and_set_row i.payment_intent_id SettlementState.submitting
          SettlementState.settlement_pending x env.now w.store).0;
  }

  -- The bookkeeping of an accepted payment.
  unfoldable pub keep_books : ℕ → Option Ident → ResponseBody → StatusExtra → World → World
  keep_books status hash body x w =
      let recorded = record w {
        store =
            (record_submission_result i.payment_intent_id SettlementState.settlement_pending hash
              (some status) (some body) env.now w.store).0;
      } in
      if env.record_fails then fall_back x w else elim (i.nonce) [
        | none ↦ recorded
        | some n ↦ if env.nonce_fails then fall_back x recorded else record recorded {
          store = mark_nonce NonceStatus.submitted n env.now recorded.store;
        }
      ]

  -- `fetch` with the payment: the only way to send one.
  unfoldable pub send_payment : World → World × Answer B
  send_payment w = let posted = post i.payment_intent_id w in (env.others posted, env.reply posted)

  -- `if (!marked) return` before the payment is sent.
  unfoldable pub dispatch : (Answer B → World → World × SubmitResult) → World → World × SubmitResult
  unfolding send_payment
  dispatch conclude w =
      let (marked, won) = mark_submitting i.payment_intent_id env.now w in
      let (u, answer) = send_payment marked in
      if won then conclude answer u else (marked, rejected cas_failed)

abbrev pub answer_extra : ℕ → ResponseBody → Opaque → StatusExtra
answer_extra status body reason = record {
  tx_hash = none;
  facilitator_http_status = some status;
  facilitator_response_body = some body;
  error_reason = some reason;
}

abbrev pub failure_extra : Opaque → StatusExtra
failure_extra reason = record no_extra { error_reason = some reason }

module _ (env : Env FacilitatorBody) (i : DurablePaymentIntent) where
  -- A 2xx answer.
  unfoldable pub conclude_accepted : ℕ → FacilitatorBody → World → World × SubmitResult
  unfolding keep_books reconcile_ambiguous
  conclude_accepted status b w = elim (b.success) [
    | some true ↦ (
      keep_books env i status (hash_of b) (other_body b.raw)
          (record no_extra {
            tx_hash = hash_of b;
            error_reason = some (env.text (bookkeeping_failed 0));
          })
          w,
      submitted (hash_of b),
    )
    | some false ↦ (
      reconcile_ambiguous env i
          (answer_extra status (other_body b.raw)
            (env.text (facilitator_rejected (reason_of b (env.text (settle_failed status))))))
          w,
      rejected refused,
    )
    | none ↦ (
      reconcile_ambiguous env i (answer_extra status (other_body b.raw) (env.text no_success_field))
          w,
      unknown,
    )
  ]

  abbrev pub is_replay : ℕ → FacilitatorBody → Bool
  is_replay status b =
      status == 409 || env.names_reuse (reason_of b (env.text (http_status status)))

  -- `definitiveRefusal`.
  abbrev pub is_definitive : ℕ → FacilitatorBody → Bool
  is_definitive status b =
      leb 400 status
      && ltb status 500
      && not (status == 408)
      && not (status == 429)
      && not (is_replay status b)

  -- An answer that is not 2xx.
  unfoldable pub conclude_refused : ℕ → FacilitatorBody → World → World × SubmitResult
  unfolding reconcile_ambiguous
  conclude_refused status b w =
      let reason = reason_of b (env.text (http_status status)) in
      if is_definitive status b
      then (
        reconcile_ambiguous env i
            (answer_extra status (other_body b.raw) (env.text (facilitator_rejected reason))) w,
        rejected refused,
      )
      else (
        reconcile_ambiguous env i
            (answer_extra status (other_body b.raw)
              (env.text (facilitator_ambiguous status reason)))
            w,
        unknown,
      )

  unfoldable pub conclude : Answer FacilitatorBody → World → World × SubmitResult
  unfolding conclude_accepted conclude_refused reconcile_ambiguous
  conclude (failed e) w =
      (reconcile_ambiguous env i (failure_extra (env.text (network_error e))) w, unknown)
  conclude (answered status b) w =
      if is_ok status then conclude_accepted status b w else conclude_refused status b w

  -- `submit` of the facilitator's client.
  unfoldable pub submit : World → World × SubmitResult
  unfolding dispatch conclude
  submit w = elim (find_intent_by_operation_id i.operation_id w.store) [
    | none ↦ (w, rejected intent_not_found)
    | some r ↦
        if guard_refuses r.intent.settlement_state
        then (w, rejected (db_state_guard r.intent.settlement_state))
        else dispatch env i conclude w
  ]
