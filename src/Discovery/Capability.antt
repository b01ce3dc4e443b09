-- ===== src/Discovery/Capability.antt =====
-- `SellerCapabilityResolver` (zeus-secretariat/src/core/capability-resolver.ts). The sources are
-- asked in their order; each answers, knows nothing, or throws.
pub mod Trust
use zeus_insurance_bot.Prelude.{
  Bool, true, false, ◌||◌, Option, none, some, List, [], ◌∷◌, Text, Opaque, codes, text_eq,
  if◌then◌else◌,
}
use zeus_insurance_bot.Execution.Types.{
  ExecutionCapability, execution_idempotent, result_retrieval, no_capability, signed_receipt,
}

-- `SellerCapabilities`.
pub record SellerCapabilities : Type 0 where
  pub recovery_capability : ExecutionCapability
  pub result_retrieval_endpoint : Option Opaque
  pub idempotency_header : Option Opaque

pub data Source : Type 0 where
  knows : SellerCapabilities → Source
  knows_nothing throws : Source

-- The headers that the resolver reads; one that is missing or empty is `none`.
pub record Headers : Type 0 where
  pub recovery_header : Option Text
  pub endpoint_header : Option Opaque
  pub idempotency_header_name : Option Opaque

-- The loop over the sources; nothing outside is an exception.
unfoldable pub ask : List Source → Option (Option SellerCapabilities)
ask [] = some none
ask (knows c ∷ rest) = some (some c)
ask (knows_nothing ∷ rest) = ask rest
ask (throws ∷ rest) = none

abbrev pub claimed_by : Text → Option ExecutionCapability
claimed_by t =
    if text_eq t (codes "EXECUTION_IDEMPOTENT")
    then some execution_idempotent
    else if text_eq t (codes "RESULT_RETRIEVAL")
    then some result_retrieval
    else none

abbrev pub header_capability : Headers → Option Text → Option SellerCapabilities
header_capability h none = none
header_capability h (some t) = elim (claimed_by t) [
  | none ↦ none
  | some c ↦ some (record {
    recovery_capability = c;
    result_retrieval_endpoint = h.endpoint_header;
    idempotency_header = h.idempotency_header_name;
  })
]

-- The fallback to the headers of the response.
unfoldable pub from_headers : Option Headers → Option SellerCapabilities
from_headers none = none
from_headers (some h) = header_capability h (h.recovery_header)

abbrev pub default_capability : SellerCapabilities
default_capability = record {
  recovery_capability = no_capability;
  result_retrieval_endpoint = none;
  idempotency_header = none;
}

abbrev pub choose : Option SellerCapabilities → Option SellerCapabilities → SellerCapabilities
choose (some c) h = c
choose none (some c) = c
choose none none = default_capability

-- `resolveAndSnapshot` on the capability of the operation: what it is afterwards, and whether the
-- call returns.
unfoldable pub resolve_and_snapshot :
    List Source → Option Headers → Option SellerCapabilities → Option SellerCapabilities × Bool
unfolding ask from_headers
resolve_and_snapshot sources headers (some c) = (some c, true)
resolve_and_snapshot sources headers none = elim (ask sources) [
  | none ↦ (none, false)
  | some found ↦ (some (choose found (from_headers headers)), true)
]
