-- ===== src/Discovery/Capability/Trust.antt =====
-- Whom the resolver believes (zeus-secretariat/src/core/capability-resolver.ts).
use zeus_insurance_bot.Prelude.{
  ◌≡◌, refl, ◌⊎◌, inl, inr, true, false, Bool-cases, Option, none, some, Option-cases, List, All,
  [], ◌∷◌, Text, codes, text_eq, arith,
}
use zeus_insurance_bot.Execution.Types.{execution_idempotent, result_retrieval}
use zeus_insurance_bot.Discovery.Capability.{
  SellerCapabilities, Source, knows, knows_nothing, throws, Headers, ask, header_capability,
  from_headers, default_capability, choose, resolve_and_snapshot,
}

-- The first source that knows a capability told it, and none before threw.
abbrev pub IsTold : List Source → SellerCapabilities → Type 0
IsTold [] c = ⊥
IsTold (knows d ∷ rest) c = c ≡ d
IsTold (knows_nothing ∷ rest) c = IsTold rest c
IsTold (throws ∷ rest) c = ⊥

abbrev pub IsSilent : Source → Type 0
IsSilent knows_nothing = Unit
IsSilent _ = ⊥

-- The capability that a text claims.
abbrev pub Names : Text → SellerCapabilities → Type 0
Names t c =
    ((text_eq t (codes "EXECUTION_IDEMPOTENT") ≡ true)
      × (c.recovery_capability ≡ execution_idempotent))
    ⊎ ((text_eq t (codes "RESULT_RETRIEVAL") ≡ true) × (c.recovery_capability ≡ result_retrieval))

-- The headers claim it, with the endpoint and the name that they give.
abbrev pub IsClaimedBy : Option Headers → SellerCapabilities → Type 0
IsClaimedBy headers c =
    (h : Headers) × (t : Text) × (headers ≡ some h)
    × (h.recovery_header ≡ some t)
    × Names t c
    × (c.result_retrieval_endpoint ≡ h.endpoint_header)
    × (c.idempotency_header ≡ h.idempotency_header_name)

-- There are no headers, or the one of the capability is missing or has another text.
abbrev pub NamesNothing : Option Text → Type 0
NamesNothing none = Unit
NamesNothing (some t) =
    (text_eq t (codes "EXECUTION_IDEMPOTENT") ≡ false)
    × (text_eq t (codes "RESULT_RETRIEVAL") ≡ false)

abbrev pub ClaimsNothing : Option Headers → Type 0
ClaimsNothing none = Unit
ClaimsNothing (some h) = NamesNothing (h.recovery_header)

-- The capability of an operation as the resolver leaves it: a source comes before the headers, and
-- these before the default.
abbrev pub IsTrusted : List Source → Option Headers → SellerCapabilities → Type 0
IsTrusted sources headers c =
    IsTold sources c
    ⊎ (All IsSilent sources
        × (IsClaimedBy headers c ⊎ (ClaimsNothing headers × (c ≡ default_capability))))

answer_of :
    (sources : List Source) (found : Option SellerCapabilities)
    → ask sources ≡ some found
    → ((found ≡ none) × All IsSilent sources)
      ⊎ ((c : SellerCapabilities) × (found ≡ some c) × IsTold sources c)
unfolding ask
answer_of [] found h = inl (ground arith, tt)
answer_of (knows d ∷ rest) found h = inr (d, ground arith, refl)
answer_of (knows_nothing ∷ rest) found h = elim (answer_of rest found h) [
  | inl (nothing, silent) ↦ inl (nothing, (tt, silent))
  | inr told ↦ inr told
]
answer_of (throws ∷ rest) found h = absurd (cc)

header_answer :
    (h : Headers) (o : Option Text)
    → h.recovery_header ≡ o
    → ((c : SellerCapabilities) × (header_capability h o ≡ some c) × IsClaimedBy (some h) c)
      ⊎ ((header_capability h o ≡ none) × NamesNothing o)
header_answer h none e = inr (refl, tt)
header_answer h (some t) e = elim (Bool-cases (text_eq t (codes "EXECUTION_IDEMPOTENT"))) [
  | inl idempotent ↦ inl (
    record {
      recovery_capability = execution_idempotent;
      result_retrieval_endpoint = h.endpoint_header;
      idempotency_header = h.idempotency_header_name;
    },
    rw (idempotent, header_capability) refl,
    (h, t, refl, e, inl (idempotent, refl), refl, refl),
  )
  | inr other ↦ elim (Bool-cases (text_eq t (codes "RESULT_RETRIEVAL"))) [
    | inl retrieval ↦ inl (
      record {
        recovery_capability = result_retrieval;
        result_retrieval_endpoint = h.endpoint_header;
        idempotency_header = h.idempotency_header_name;
      },
      rw (other, retrieval, header_capability) refl,
      (h, t, refl, e, inr (retrieval, refl), refl, refl),
    )
    | inr unknown ↦ inr (rw (other, unknown, header_capability) refl, (other, unknown))
  ]
]

headers_answer :
    (headers : Option Headers)
    → ((c : SellerCapabilities) × (from_headers headers ≡ some c) × IsClaimedBy headers c)
      ⊎ ((from_headers headers ≡ none) × ClaimsNothing headers)
unfolding from_headers
headers_answer none = inr (refl, tt)
headers_answer (some h) = header_answer h (h.recovery_header) refl

chosen :
    (sources : List Source) (headers : Option Headers) (found : Option SellerCapabilities)
    → ask sources ≡ some found
    → IsTrusted sources headers (choose found (from_headers headers))
chosen sources headers found e = elim (answer_of sources found e) [
  | inr (c, known, told) ↦ rw known (inl told)
  | inl (nothing, silent) ↦ elim (headers_answer headers) [
    | inl (c, claimed, by) ↦ rw (nothing, claimed) (inr (silent, inl by))
    | inr (unclaimed, quiet) ↦ rw (nothing, unclaimed) (inr (silent, inr (quiet, refl)))
  ]
]

-- The resolver on an operation without a capability, when it returns: the capability is what the
-- first source that knows one told, whatever the headers say. If every source knows nothing, it is
-- EXECUTION_IDEMPOTENT or RESULT_RETRIEVAL as the header of that text claims, with the endpoint and
-- the name of the other headers, and NONE if no header has one of these texts. So a signed receipt
-- takes a source that tells of it. When the resolver throws, the operation has no capability still.
-- Resolving again, from whatever sources and headers, changes nothing once there is a capability.
pub resolve_and_snapshot-IsTrusted :
    (sources later : List Source) (headers fresh : Option Headers)
    → let (after, returns) = resolve_and_snapshot sources headers none in
      (returns ≡ true
        → (c : SellerCapabilities) × (after ≡ some c)
          × IsTrusted sources headers c
          × (resolve_and_snapshot later fresh after ≡ (after, true)))
      × (returns ≡ false → after ≡ none)
unfolding resolve_and_snapshot
resolve_and_snapshot-IsTrusted sources later headers fresh = elim (Option-cases (ask sources)) [
  | inl thrown ↦ rw (thrown, resolve_and_snapshot) (λ h. absurd (cc), λ h. refl)
  | inr (found, answered) ↦
      rw (answered, resolve_and_snapshot)
        (
          λ h. (
            choose found (from_headers headers),
            refl,
            chosen sources headers found answered,
            refl,
          ),
          λ h. absurd (cc),
        )
]
