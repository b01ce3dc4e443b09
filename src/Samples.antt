-- ===== src/Samples.antt =====
-- Sample rows for the tests of the other modules.
use zeus_insurance_bot.Prelude.{ℕ, true, Option, none, some, [], ◌∷◌}
use zeus_insurance_bot.Operation.Status.{
  OperationStatus, PaymentStatus, ExecutionStatus, DeliveryStatus,
}
use zeus_insurance_bot.Operation.Defs.{Operation}
use zeus_insurance_bot.Intent.Types.{
  whole, SettlementState, DurablePaymentIntent, StandardPaidCallRecord, standard_paid_call,
  SettledEvidenceBundle, NotSettledEvidenceBundle, scan_complete_empty,
}
use zeus_insurance_bot.Intent.Store.{EvidenceStore}
use zeus_insurance_bot.Execution.Types.{
  ExecutionCapability, AttemptStatus, RecoveryJobType, JobStatus, SellerResult, ExecutionAttempt,
  RecoveryJob,
}
use zeus_insurance_bot.Execution.Store.{ExecutionStore}
use zeus_insurance_bot.Execution.World.{World, Config, Env}

abbrev pub sample_job : ExecutionCapability → RecoveryJob
sample_job capability = record {
  job_id = 1;
  operation_id = 7;
  job_type = RecoveryJobType.execution;
  status = JobStatus.pending;
  priority = 0;
  max_attempts = 3;
  current_attempt = 0;
  locked_by = none;
  locked_until = none;
  last_error = none;
  metadata = some (record {
    capability = some capability;
    request_body = none;
    result_retrieval_endpoint = none;
    original_job_id = none;
    linked_attempt_id = none;
  });
  created_at = 10;
  updated_at = 10;
}

abbrev pub sample_attempt : AttemptStatus → ExecutionAttempt
sample_attempt status = record {
  attempt_id = 2;
  operation_id = 7;
  execution_id = 7;
  attempt_number = 1;
  status = status;
  request_url = some 30;
  request_method = some 31;
  request_body = none;
  response_status_code = none;
  response_body = none;
  response_headers = none;
  error_reason = none;
  idempotency_key = some 7;
  started_at = none;
  completed_at = none;
  created_at = 10;
}

abbrev pub sample_store : ExecutionCapability → AttemptStatus → ExecutionStore
sample_store capability status = record {
  attempts = (2, sample_attempt status) ∷ [];
  jobs = (1, sample_job capability) ∷ [];
  attempts_by_op = (7, 2 ∷ []) ∷ [];
}

abbrev pub no_payments : EvidenceStore
no_payments = record {
  operations = [];
  evidence = [];
  intents = [];
  nonces = [];
  recon_observations = [];
  recon_jobs = [];
}

abbrev pub sample_world : ExecutionCapability → AttemptStatus → World
sample_world capability status = record {
  execution = sample_store capability status;
  payments = no_payments;
}

abbrev pub sample_config : Config
sample_config = record {
  worker_id = 50;
  lock_duration_ms = 30000;
  max_execution_attempts = 3;
  seller_url = 30;
  seller_method = 31;
  result_retrieval_url = none;
  result_url = λ url id. url;
  retrieval_key = λ id. id;
  get = 32;
}

-- A seller that always gives the same answer.
abbrev pub sample_env : SellerResult → Env
sample_env answer = record {
  now = 100;
  attempt_id = 20;
  job_id = 21;
  seller = λ request w. (w, answer);
}

abbrev pub sample_operation : OperationStatus → Operation
sample_operation status = record {
  operation_id = 7;
  request_id = 8;
  client_id = none;
  payment_state = PaymentStatus.submitted;
  execution_state = ExecutionStatus.not_started;
  delivery_state = DeliveryStatus.not_started;
  current_state = status;
  timestamps = record {
    created_at = 10;
    updated_at = 10;
    settled_at = none;
    execution_confirmed_at = none;
    delivered_at = none;
    completed_at = none;
    failed_at = none;
  };
  evidence = [];
  result_data = none;
  execution_evidence = none;
}

-- What a paid call of the standard transport left; the body is the seller's answer.
abbrev pub sample_marker : Option ℕ → StandardPaidCallRecord
sample_marker body = record { seller_http_status = 200; seller_body = body; captured_at = 60 }

abbrev pub sample_intent : Option ℕ → DurablePaymentIntent
sample_intent body = record {
  payment_intent_id = 40;
  operation_id = 7;
  request_id = none;
  authorizer = 41;
  payer = none;
  pay_to = 42;
  value = 1000;
  asset = 43;
  nonce = some 44;
  valid_after = 0;
  valid_before = 900;
  payment_payload = 45;
  payment_payload_hash = 46;
  settlement_state = SettlementState.settled;
  tx_hash = some 47;
  facilitator_http_status = none;
  facilitator_response_body = some (standard_paid_call (sample_marker body));
  error_reason = none;
  reconciliation_observations = [];
  settled_evidence_bundle = none;
  not_settled_evidence_bundle = none;
  probe_count = none;
  created_at = 10;
  updated_at = 10;
}

abbrev pub settled_bundle : SettledEvidenceBundle
settled_bundle = record {
  transaction_hash = 47;
  block_number = some 5;
  log_index = 0;
  gas_used = none;
  transfer_from = 41;
  transfer_to = 42;
  transfer_value = 1000;
  token_contract = 43;
  confirmations = some (whole 12);
  finality_reached = true;
  rpc_observations = [];
}

abbrev pub not_settled_bundle : NotSettledEvidenceBundle
not_settled_bundle = record {
  authorizer = 41;
  nonce = some 44;
  valid_before = 900;
  expiry_confirmed_at = 1000;
  rpc_observations = [];
  scan_result = scan_complete_empty;
}
