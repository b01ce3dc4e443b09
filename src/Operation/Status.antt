-- ===== src/Operation/Status.antt =====
-- The status enumerations of an operation (zeus-secretariat/src/core/types.ts).
use zeus_insurance_bot.Prelude.{ℕ, Bool, ◌==◌}

pub data OperationStatus : Type 0 where
  created discovering payment_required awaiting_signature authorized : OperationStatus
  payment_submitted settlement_pending settlement_unknown settled : OperationStatus
  execution_pending execution_confirmed delivered success failed : OperationStatus
  policy_rejected settlement_failed execution_unknown recovery_pending : OperationStatus
  recovered unresolvable : OperationStatus

pub data PaymentStatus : Type 0 where
  not_started authorized submitted settled failed unknown : PaymentStatus

pub data ExecutionStatus : Type 0 where
  not_started pending confirmed failed unknown : ExecutionStatus

pub data DeliveryStatus : Type 0 where
  not_started pending delivered failed unknown : DeliveryStatus

-- The place of a status in the declaration, by which two statuses are compared.
abbrev pub index : OperationStatus → ℕ
index OperationStatus.created = 0
index OperationStatus.discovering = 1
index OperationStatus.payment_required = 2
index OperationStatus.awaiting_signature = 3
index OperationStatus.authorized = 4
index OperationStatus.payment_submitted = 5
index OperationStatus.settlement_pending = 6
index OperationStatus.settlement_unknown = 7
index OperationStatus.settled = 8
index OperationStatus.execution_pending = 9
index OperationStatus.execution_confirmed = 10
index OperationStatus.delivered = 11
index OperationStatus.success = 12
index OperationStatus.failed = 13
index OperationStatus.policy_rejected = 14
index OperationStatus.settlement_failed = 15
index OperationStatus.execution_unknown = 16
index OperationStatus.recovery_pending = 17
index OperationStatus.recovered = 18
index OperationStatus.unresolvable = 19

-- `===` on statuses.
abbrev pub status_eq : OperationStatus → OperationStatus → Bool
status_eq s t = index s == index t
