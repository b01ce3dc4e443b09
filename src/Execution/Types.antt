-- ===== src/Execution/Types.antt =====
-- Attempts, recovery jobs and seller answers (zeus-secretariat/src/core/post-settlement-engine.ts,
-- zeus-secretariat/src/adapters/seller-execution-adapter.ts).
use zeus_insurance_bot.Prelude.{
  ℕ, Bool, true, false, Option, none, some, Ident, Opaque, Time, or_else, if◌then◌else◌,
}

pub data ExecutionCapability : Type 0 where
  execution_idempotent result_retrieval no_capability signed_receipt : ExecutionCapability

pub data AttemptStatus : Type 0 where
  pending attempted success http_failure delivery_unknown unresolvable : AttemptStatus

pub data RecoveryJobType : Type 0 where
  execution retry retrieval observation : RecoveryJobType

pub data JobStatus : Type 0 where
  pending running completed failed unresolvable : JobStatus

-- The union of the two status types, in which `processJob` reports.
pub data FinalStatus : Type 0 where
  pending attempted success http_failure delivery_unknown unresolvable : FinalStatus
  running completed failed : FinalStatus

pub data UnknownReason : Type 0 where
  timeout connection_reset response_stream_failed client_aborted : UnknownReason
  dns_resolution_failed egress_blocked : UnknownReason

pub data SellerResult : Type 0 where
  success : (status_code : ℕ) (body headers : Option Opaque) → SellerResult
  http_failure : (status_code : ℕ) (body headers : Option Opaque) → SellerResult
  delivery_unknown : UnknownReason → SellerResult

pub record SellerRequest : Type 0 where
  pub idempotency_key : Ident
  pub url : Opaque
  pub method : Opaque
  pub body : Option Opaque

-- The texts that the code writes into `errorReason` and `lastError`; texts that tell of the same
-- cause in other words are one constructor.
pub data Reason : Type 0 where
  no_attempt_found crash_recovery blind_retry retry_created retrieval_created : Reason
  transient_http : ℕ → Reason
  unsafe_http : ℕ → Reason
  http : ℕ → Reason
  unknown_delivery : UnknownReason → Reason
  max_attempts : ℕ → Reason
  not_found_yet retrieval_exhausted retrieval_failed unknown_capability : Reason

pub record ExecutionAttempt : Type 0 where
  pub attempt_id : Ident
  pub operation_id : Ident
  pub execution_id : Ident
  pub attempt_number : ℕ
  pub status : AttemptStatus
  pub request_url : Option Opaque
  pub request_method : Option Opaque
  pub request_body : Option Opaque
  pub response_status_code : Option ℕ
  pub response_body : Option Opaque
  pub response_headers : Option Opaque
  pub error_reason : Option Reason
  pub idempotency_key : Option Ident
  pub started_at : Option Time
  pub completed_at : Option Time
  pub created_at : Time

-- The part of `metadata` that the engine reads.
pub record Metadata : Type 0 where
  pub capability : Option ExecutionCapability
  pub request_body : Option Opaque
  pub result_retrieval_endpoint : Option Opaque
  pub original_job_id : Option Ident
  pub linked_attempt_id : Option Ident

pub record RecoveryJob : Type 0 where
  pub job_id : Ident
  pub operation_id : Ident
  pub job_type : RecoveryJobType
  pub status : JobStatus
  pub priority : ℕ
  pub max_attempts : ℕ
  pub current_attempt : ℕ
  pub locked_by : Option Ident
  pub locked_until : Option Time
  pub last_error : Option Reason
  pub metadata : Option Metadata
  pub created_at : Time
  pub updated_at : Time

-- The `Partial<ExecutionAttempt>` that the engine hands to `Object.assign`.
pub record AttemptExtra : Type 0 where
  pub response_status_code : Option ℕ
  pub response_body : Option Opaque
  pub response_headers : Option Opaque
  pub error_reason : Option Reason
  pub completed_at : Option Time

abbrev pub no_extra : AttemptExtra
no_extra = record {
  response_status_code = none;
  response_body = none;
  response_headers = none;
  error_reason = none;
  completed_at = none;
}

abbrev pub assign : AttemptExtra → ExecutionAttempt → ExecutionAttempt
assign e a = record a {
  response_status_code = or_else e.response_status_code a.response_status_code;
  response_body = or_else e.response_body a.response_body;
  response_headers = or_else e.response_headers a.response_headers;
  error_reason = or_else e.error_reason a.error_reason;
  completed_at = or_else e.completed_at a.completed_at;
}

-- The `Partial<RecoveryJob>` of a job update; `unlock` stands for `lockedBy: undefined,
-- lockedUntil: undefined`.
pub record JobExtra : Type 0 where
  pub last_error : Option Reason
  pub unlock : Bool

abbrev pub no_job_extra : JobExtra
no_job_extra = record { last_error = none; unlock = false }

abbrev pub error_extra : Reason → JobExtra
error_extra r = record { last_error = some r; unlock = false }

abbrev pub assign_job : JobExtra → RecoveryJob → RecoveryJob
assign_job e j = record j {
  last_error = or_else e.last_error j.last_error;
  locked_by = if e.unlock then none else j.locked_by;
  locked_until = if e.unlock then none else j.locked_until;
}

-- `terminalStates.includes(attempt.status)`.
abbrev pub is_terminal : AttemptStatus → Bool
is_terminal AttemptStatus.pending = false
is_terminal AttemptStatus.attempted = false
is_terminal AttemptStatus.success = true
is_terminal AttemptStatus.http_failure = true
is_terminal AttemptStatus.delivery_unknown = true
is_terminal AttemptStatus.unresolvable = true

abbrev pub is_terminal_job : JobStatus → Bool
is_terminal_job JobStatus.pending = false
is_terminal_job JobStatus.running = false
is_terminal_job JobStatus.completed = true
is_terminal_job JobStatus.failed = true
is_terminal_job JobStatus.unresolvable = true

abbrev pub is_pending : AttemptStatus → Bool
is_pending AttemptStatus.pending = true
is_pending _ = false

abbrev pub is_attempted : AttemptStatus → Bool
is_attempted AttemptStatus.attempted = true
is_attempted _ = false

abbrev pub is_unknown : AttemptStatus → Bool
is_unknown AttemptStatus.delivery_unknown = true
is_unknown _ = false

abbrev pub is_success : AttemptStatus → Bool
is_success AttemptStatus.success = true
is_success _ = false

abbrev pub is_job_pending : JobStatus → Bool
is_job_pending JobStatus.pending = true
is_job_pending _ = false

abbrev pub is_running : JobStatus → Bool
is_running JobStatus.running = true
is_running _ = false
