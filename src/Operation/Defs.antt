-- ===== src/Operation/Defs.antt =====
-- The operation record (zeus-secretariat/src/core/types.ts). Fields that no modelled code reads
-- or writes (the request's target, method and payload, the policy) are left out.
use zeus_insurance_bot.Prelude.{ℕ, Option, List, Ident, Opaque, Time}
use zeus_insurance_bot.Evidence.{EvidenceRecord}
use zeus_insurance_bot.Operation.Status.{
  OperationStatus, PaymentStatus, ExecutionStatus, DeliveryStatus,
}

pub data EvidenceSource : Type 0 where
  standard_transport other_source : EvidenceSource

pub record ExecutionEvidence : Type 0 where
  pub status_code : ℕ
  pub body : Option Opaque
  pub timestamp : Time
  pub source : EvidenceSource

pub record Timestamps : Type 0 where
  pub created_at : Time
  pub updated_at : Time
  pub settled_at : Option Time
  pub execution_confirmed_at : Option Time
  pub delivered_at : Option Time
  pub completed_at : Option Time
  pub failed_at : Option Time

pub record Operation : Type 0 where
  pub operation_id : Ident
  pub request_id : Ident
  pub client_id : Option Ident
  pub payment_state : PaymentStatus
  pub execution_state : ExecutionStatus
  pub delivery_state : DeliveryStatus
  pub current_state : OperationStatus
  pub timestamps : Timestamps
  pub evidence : List EvidenceRecord
  pub result_data : Option Opaque
  pub execution_evidence : Option ExecutionEvidence
