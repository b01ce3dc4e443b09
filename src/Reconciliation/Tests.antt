-- ===== src/Reconciliation/Tests.antt =====
-- The theorems on the multi-provider checker at sample observations.
use zeus_insurance_bot.Prelude.{
  ◌≤◌, refl, Bool, true, false, Option, none, some, List, [], ◌∷◌, Ident, length, find, All,
}
use zeus_insurance_bot.Reconciliation.Checker.{
  Observation, results_of, aggregate_results, RpcProviderConfig, AuthorizationUsedEvent,
  ScanObservation, scan_outcome, can_declare_not_settled, aggregate, check_freshness,
}
use zeus_insurance_bot.Reconciliation.Checker.Verdicts.{
  IsFreshFalse, can_declare_not_settled-IsFreshFalse,
}
use zeus_insurance_bot.Reconciliation.Checker.Scans.{ScanMeans, scan_outcome-ScanMeans}

abbrev reads : Ident → Option Bool → Observation Bool
reads provider state = record {
  provider_id = provider;
  underlying_provider = provider;
  result = state;
  error = none;
  observed_at = 1000;
  block_data =
      some (record { block_number = some 90; chain_head = some 92; staleness_blocks = some 2 });
}

abbrev configured : Ident → RpcProviderConfig
configured provider = record {
  provider_id = provider;
  underlying_provider = provider;
  max_staleness_blocks = 5;
}

-- Two providers read `false`, and the third does not answer.
abbrev readings : List (Observation Bool)
readings = reads 1 (some false) ∷ reads 2 (some false) ∷ reads 3 none ∷ []

can_declare_not_settled-IsFreshFalse_example :
    (900 ≤ 1000)
    × (2 ≤ length (results_of readings))
    × All (IsFreshFalse (configured 1 ∷ configured 2 ∷ configured 3 ∷ [])) readings
unfolding can_declare_not_settled aggregate_results aggregate check_freshness find
can_declare_not_settled-IsFreshFalse_example =
    can_declare_not_settled-IsFreshFalse (configured 1 ∷ configured 2 ∷ configured 3 ∷ []) readings
      900 1000 refl

abbrev scan : Ident → Option AuthorizationUsedEvent → ScanObservation
scan provider found = record {
  provider_id = provider;
  underlying_provider = provider;
  scanned = true;
  event = found;
  from_block = 0;
  to_block = 92;
  chain_head = 92;
  error = none;
  observed_at = 1000;
}

scan_outcome-ScanMeans_example :
    ScanMeans (scan 1 none ∷ scan 2 none ∷ []) (scan_outcome (scan 1 none ∷ scan 2 none ∷ []))
scan_outcome-ScanMeans_example = scan_outcome-ScanMeans (scan 1 none ∷ scan 2 none ∷ [])
