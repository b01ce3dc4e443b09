-- ===== src/Execution/World.antt =====
-- What `PostSettlementEngine` works on: its two stores, its configuration and its environment
-- (zeus-secretariat/src/core/post-settlement-engine.ts).
use zeus_insurance_bot.Prelude.{
  ℕ, Bool, true, false, Option, none, some, Ident, Opaque, Time, length, if◌then◌else◌,
}
use zeus_insurance_bot.Evidence.{Event, EvidencePhase}
use zeus_insurance_bot.Intent.Store.{EvidenceStore}
use zeus_insurance_bot.Intent.Store.Records.{append, get_evidence}
use zeus_insurance_bot.Execution.Types.{SellerRequest, SellerResult, FinalStatus}
use zeus_insurance_bot.Execution.Store.{ExecutionStore}

-- `executionStore` and `paymentStore`.
pub record World : Type 0 where
  pub execution : ExecutionStore
  pub payments : EvidenceStore

-- `Required<PostSettlementConfig>`; `none` is the empty text.
pub record Config : Type 0 where
  pub worker_id : Ident
  pub lock_duration_ms : ℕ
  pub max_execution_attempts : ℕ
  pub seller_url : Opaque
  pub seller_method : Opaque
  pub result_retrieval_url : Option Opaque
  -- The text `${url}/result/${executionId}`.
  pub result_url : Opaque → Ident → Opaque
  -- The text `retrieval-${executionId}`.
  pub retrieval_key : Ident → Ident
  -- The text "GET".
  pub get : Opaque

-- What one call meets: the clock, the identifiers that it generates, and the seller. The seller's
-- answer comes with the stores as they are when the call resumes, so that other workers may act
-- while it waits.
pub record Env : Type 0 where
  pub now : Time
  pub attempt_id : Ident
  pub job_id : Ident
  pub seller : SellerRequest → World → World × SellerResult

pub data EngineError : Type 0 where
  attempt_not_found fence_rejected attempt_persist_rejected job_not_found : EngineError
  settlement_violation : EngineError

pub data Outcome (A : Type 0) : Type 0 where
  returns : A → Outcome A
  throws : EngineError → Outcome A

-- The result of `processJob`.
pub record Report : Type 0 where
  pub success : Bool
  pub result : Option SellerResult
  pub final_status : FinalStatus

abbrev pub report : FinalStatus → Option SellerResult → Outcome Report
report f r = returns (record { success = false; result = r; final_status = f })

abbrev pub succeeded : Option SellerResult → Outcome Report
succeeded r = returns (record { success = true; result = r; final_status = FinalStatus.success })

-- `appendEvidence`. This store's `getEvidence` does not fail, so the sequence is always set.
unfoldable pub append_evidence : Ident → Event → Time → World → World
append_evidence op e now w = record w {
  payments =
      append
        (record {
          operation_id = op;
          phase = EvidencePhase.execution;
          timestamp = now;
          event = e;
          sequence = some (length (get_evidence op w.payments));
        })
        w.payments;
}

-- A fenced write: refused, the job is reported as RUNNING; done, the rest runs.
abbrev pub checked :
    World → ExecutionStore × Bool → (World → World × Outcome Report) → World × Outcome Report
checked w (s, ok) k =
    let w' = record w { execution = s } in
    if ok then k w' else (w', report FinalStatus.running none)

-- A write whose answer is ignored.
abbrev pub written : World → ExecutionStore × Bool → World
written w (s, ok) = record w { execution = s }
