-- ===== src/Reconciliation/Checker.antt =====
-- `MultiRpcChecker` (zeus-secretariat/src/core/multi-rpc-checker.ts): how the answers of several
-- RPC providers are put together. The calls of the providers are not modelled; the functions take
-- their observations.
pub mod Verdicts
pub mod Scans
use zeus_insurance_bot.Prelude.{
  ◌&&◌, ℕ, suc, Bool, true, false, not, Option, none, some, List, [], ◌∷◌, map, Ident, Opaque, Time,
  length, keep, find, every, is_some, ltb, leb, ◌==◌, min, max, if◌then◌else◌,
}
use zeus_insurance_bot.Intent.Types.{JsNumber, nan, below_zero, whole}

-- A number that the source makes negative where there is no answer is `none`.
pub record BlockData : Type 0 where
  pub block_number : Option ℕ
  pub chain_head : Option ℕ
  pub staleness_blocks : Option ℕ

pub record Observation {ℓ} (A : Type ℓ) : Type ℓ where
  pub provider_id : Ident
  pub underlying_provider : Ident
  pub result : Option A
  pub error : Option Opaque
  pub observed_at : Time
  pub block_data : Option BlockData

pub data Agreement : Type 0 where
  unanimous disagreement insufficient all_failed : Agreement

pub record MultiRpcResult {ℓ} (A : Type ℓ) : Type ℓ where
  pub observations : List (Observation A)
  pub agreement : Agreement
  pub unanimous_value : Option A

-- What `aggregateResults` reads of a result: the text of its settlement-relevant fields
-- (`canonicalConsensusJson`), and its confirmations.
pub record Projection {ℓ} (A : Type ℓ) : Type ℓ where
  pub canonical : A → Opaque
  pub confirmations : A → Option JsNumber
  pub with_confirmations : JsNumber → A → A

-- A Boolean result; its text is "true" or "false".
abbrev pub bool_projection : Projection Bool
bool_projection = record {
  canonical = λ b. if b then 1 else 0;
  confirmations = λ b. none;
  with_confirmations = λ n b. b;
}

-- The results of the observations that have one.
abbrev pub results_of {ℓ} : {A : Type ℓ} → List (Observation A) → List A
results_of [] = []
results_of (o ∷ os) = elim (o.result) [ none ↦ results_of os | some a ↦ a ∷ results_of os ]

-- `Math.min` of two numbers.
abbrev pub lesser : JsNumber → JsNumber → JsNumber
lesser nan n = nan
lesser (below_zero m) nan = nan
lesser (below_zero m) (below_zero n) = below_zero (max m n)
lesser (below_zero m) (whole n) = below_zero m
lesser (whole m) nan = nan
lesser (whole m) (below_zero n) = below_zero n
lesser (whole m) (whole n) = whole (min m n)

module _ {ℓ} {A : Type ℓ} (p : Projection A) where
  -- The confirmations of all results, or `none` if one has none.
  abbrev pub all_confirmations : List A → Option (List JsNumber)
  all_confirmations [] = some []
  all_confirmations (a ∷ answers) = elim (p.confirmations a) [
    | none ↦ none
    | some n ↦ elim (all_confirmations answers) [ none ↦ none | some ns ↦ some (n ∷ ns) ]
  ]

  -- `Math.min(first, ...rest)`.
  abbrev pub least : JsNumber → List JsNumber → JsNumber
  least n [] = n
  least n (m ∷ ms) = least (lesser n m) ms

  -- The agreed result with the least confirmations.
  abbrev pub consensus : A → List A → A
  consensus a answers = elim (all_confirmations (a ∷ answers)) [
    | none ↦ a
    | some [] ↦ a
    | some (n ∷ ns) ↦ p.with_confirmations (least n ns) a
  ]

  abbrev pub agrees_with : A → A → Bool
  agrees_with first a = p.canonical a == p.canonical first

  -- `aggregateResults` on the list of successful results.
  unfoldable pub aggregate : List A → Agreement × Option A
  aggregate [] = (Agreement.all_failed, none)
  aggregate (a ∷ []) = (Agreement.insufficient, none)
  aggregate (a ∷ b ∷ rest) =
      if every (agrees_with a) (a ∷ b ∷ rest)
      then (Agreement.unanimous, some (consensus a (b ∷ rest)))
      else (Agreement.disagreement, none)

  -- `aggregateResults`.
  unfoldable pub aggregate_results : List (Observation A) → MultiRpcResult A
  unfolding aggregate
  aggregate_results os =
      let (agreement, value) = aggregate (results_of os) in
      record { observations = os; agreement = agreement; unanimous_value = value }

pub record AuthorizationUsedEvent : Type 0 where
  pub transaction_hash : Ident
  pub block_number : ℕ
  pub log_index : ℕ

pub record ScanObservation : Type 0 where
  pub provider_id : Ident
  pub underlying_provider : Ident
  pub scanned : Bool
  pub event : Option AuthorizationUsedEvent
  pub from_block : ℕ
  pub to_block : ℕ
  pub chain_head : ℕ
  pub error : Option Opaque
  pub observed_at : Time

pub data ScanOutcome : Type 0 where
  incomplete scan_complete_empty scan_disagreement : ScanOutcome
  event_found : Option AuthorizationUsedEvent → ScanOutcome

abbrev pub found_event : ScanObservation → Bool
found_event o = if o.scanned then is_some o.event else false

abbrev pub first_event : List ScanObservation → Option AuthorizationUsedEvent
first_event [] = none
first_event (o ∷ os) = o.event

-- The end of `scanAuthorizationUsed`.
unfoldable pub scan_outcome : List ScanObservation → ScanOutcome
scan_outcome os =
    let found = keep found_event os in
    if not (every (λ o. o.scanned) os)
    then incomplete
    else if length found == length os
    then event_found (first_event found)
    else if length found == 0
    then scan_complete_empty
    else scan_disagreement

pub record RpcProviderConfig : Type 0 where
  pub provider_id : Ident
  pub underlying_provider : Ident
  pub max_staleness_blocks : ℕ

pub data Refusal : Type 0 where
  not_expired rpc_disagreement insufficient_observations all_rpcs_failed : Refusal
  state_not_false : Refusal
  no_fresh_block_data unknown_provider stale_provider : Ident → Refusal

pub data Decision : Type 0 where
  allowed : Decision
  refused : Refusal → Decision

abbrev pub is_allowed : Decision → Bool
is_allowed allowed = true
is_allowed (refused r) = false

module _ (configs : List RpcProviderConfig) where
  -- `this.configs.find(…)?.maxStalenessBlocks`.
  abbrev pub budget_of : Ident → Option ℕ
  budget_of id = elim (find (λ c. c.provider_id == id) configs) [
    | none ↦ none
    | some c ↦ some c.max_staleness_blocks
  ]

  -- The check of one successful observation; `none` if it passes.
  abbrev pub freshness_refusal : Observation Bool → Option Refusal
  freshness_refusal o = elim (o.block_data) [
    | none ↦ some (no_fresh_block_data o.provider_id)
    | some d ↦
        if is_some d.block_number && is_some d.chain_head
        then elim (d.staleness_blocks) [
          | none ↦ some (no_fresh_block_data o.provider_id)
          | some staleness ↦ elim (budget_of o.provider_id) [
            | none ↦ some (unknown_provider o.provider_id)
            | some budget ↦
                if ltb budget staleness then some (stale_provider o.provider_id) else none
          ]
        ]
        else some (no_fresh_block_data o.provider_id)
  ]

  -- The loop over the observations.
  unfoldable pub check_freshness : List (Observation Bool) → Decision
  check_freshness [] = allowed
  check_freshness (o ∷ os) =
      let rest = check_freshness os in
      if is_some o.result
      then elim (freshness_refusal o) [ none ↦ rest | some r ↦ refused r ]
      else rest

  -- `canDeclareNotSettled`.
  unfoldable pub can_declare_not_settled : MultiRpcResult Bool → Time → Time → Decision
  unfolding check_freshness
  can_declare_not_settled auth valid_before now =
      if ltb now valid_before then refused not_expired else elim (auth.agreement) [
        | Agreement.disagreement ↦ refused rpc_disagreement
        | Agreement.insufficient ↦ refused insufficient_observations
        | Agreement.all_failed ↦ refused all_rpcs_failed
        | Agreement.unanimous ↦ elim (auth.unanimous_value) [
          | some false ↦ check_freshness auth.observations
          | some true ↦ refused state_not_false
          | none ↦ refused state_not_false
        ]
      ]
