-- ===== src/Discovery/Tests.antt =====
-- Challenges and capabilities at samples.
use zeus_insurance_bot.Prelude.{
  ◌≡◌, refl, true, false, none, some, Option, List, [], ◌∷◌, codes, trim, lower, text_eq, keep,
  find_entry, set_entry,
}
use zeus_insurance_bot.Discovery.Parser.{Entry, parse_legacy_header, parse_response, break_at}
use zeus_insurance_bot.Discovery.Parser.RoundTrip.{
  Challenge, print, IsPrintable, entry_of, parse_legacy_header-print,
}
use zeus_insurance_bot.Execution.Types.{signed_receipt}
use zeus_insurance_bot.Discovery.Capability.{
  SellerCapabilities, Source, knows, knows_nothing, Headers, resolve_and_snapshot,
}
use zeus_insurance_bot.Discovery.Capability.Trust.{IsTrusted, resolve_and_snapshot-IsTrusted}

-- With a quote, a blank and an equality sign among the values.
abbrev challenge : Challenge
challenge = record {
  of_amount = codes "0.5";
  of_asset = codes "a='b";
  of_network = codes "mock net";
  of_payee = codes "s1";
}

challenge-IsPrintable : IsPrintable challenge
challenge-IsPrintable = (
  ((refl, refl), ((refl, refl), ((refl, refl), tt))),
  ((refl, refl), ((refl, refl), ((refl, refl), ((refl, refl), tt)))),
  (
    (refl, refl),
    (
      (refl, refl),
      (
        (refl, refl),
        ((refl, refl), ((refl, refl), ((refl, refl), ((refl, refl), ((refl, refl), tt))))),
      ),
    ),
  ),
  ((refl, refl), ((refl, refl), tt)),
)

parse_legacy_header-print_example :
    parse_legacy_header (print challenge) ≡ some (entry_of challenge)
parse_legacy_header-print_example =
    parse_legacy_header-print challenge challenge-IsPrintable (refl, refl, refl)

reads_aliases :
    parse_legacy_header (codes "Network=n; MaxAmountRequired=\"7\";x ; payTo=p")
    ≡ some (record {
      scheme = some (codes "exact");
      network = some (codes "n");
      asset = some [];
      amount = some (codes "7");
      pay_to = some (codes "p");
    })
unfolding parse_legacy_header break_at trim lower set_entry find_entry text_eq
reads_aliases = refl

-- The entries of the header are taken as they are, those of the body only if they are complete.
abbrev bare : Entry
bare = record {
  scheme = some (codes "exact");
  network = none;
  asset = none;
  amount = none;
  pay_to = none;
}

filters_the_body :
    parse_response
      (record { payment_header = none; legacy_header = none; body = some (some (bare ∷ [])) })
    ≡ some []
unfolding parse_response keep
filters_the_body = refl

takes_the_header :
    parse_response
      (record { payment_header = some (some (bare ∷ [])); legacy_header = none; body = none })
    ≡ some (bare ∷ [])
unfolding parse_response
takes_the_header = refl

abbrev told : SellerCapabilities
told = record {
  recovery_capability = signed_receipt;
  result_retrieval_endpoint = none;
  idempotency_header = none;
}

abbrev sources : List Source
sources = knows_nothing ∷ knows told ∷ []

abbrev headers : Option Headers
headers = some (record {
  recovery_header = some (codes "SIGNED_RECEIPT");
  endpoint_header = none;
  idempotency_header_name = none;
})

resolve_and_snapshot-IsTrusted_example :
    let (after, returns) = resolve_and_snapshot sources headers none in
    (returns ≡ true
      → (c : SellerCapabilities) × (after ≡ some c)
        × IsTrusted sources headers c
        × (resolve_and_snapshot [] headers after ≡ (after, true)))
    × (returns ≡ false → after ≡ none)
resolve_and_snapshot-IsTrusted_example = resolve_and_snapshot-IsTrusted sources [] headers headers
