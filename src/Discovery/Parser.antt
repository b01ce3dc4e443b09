-- ===== src/Discovery/Parser.antt =====
-- `X402Parser` (zeus-secretariat/src/core/x402-parser.ts) on the headers and the body of a response.
-- What base64, UTF-8 and JSON decoding make of them is given; the fields of a decoded entry are
-- taken as texts.
pub mod RoundTrip
use zeus_insurance_bot.Prelude.{
  ℕ, Bool, true, false, ◌&&◌, ◌||◌, not, Option, none, some, List, [], ◌∷◌, Text, codes, trim,
  lower, is_empty, every, keep, TextMap, find_entry, set_entry, get_or, or_else, leb, ◌==◌,
  if◌then◌else◌,
}

-- An entry of a challenge as it is decoded.
pub record Entry : Type 0 where
  pub scheme : Option Text
  pub network : Option Text
  pub asset : Option Text
  pub amount : Option Text
  pub pay_to : Option Text

-- `a.split(";")`, of a text with the current part in front.
unfoldable pub split : ℕ → Text → List Text
split sep [] = [] ∷ []
split sep (c ∷ a) = elim (split sep a) [
  | [] ↦ []
  | p ∷ parts ↦ if c == sep then [] ∷ (p ∷ parts) else (c ∷ p) ∷ parts
]

-- What stands in front of the first `=` and behind it.
unfoldable pub break_at : ℕ → Text → Option (Text × Text)
break_at sep [] = none
break_at sep (c ∷ a) = elim (c == sep) [
  | true ↦ some ([], a)
  | false ↦ elim (break_at sep a) [ none ↦ none | some (k, v) ↦ some (c ∷ k, v) ]
]

abbrev pub is_quote : ℕ → Bool
is_quote c = c == 34 || c == 39

abbrev pub is_line_end : ℕ → Bool
is_line_end c = c == 10 || c == 13 || c == 8232 || c == 8233

-- A text without its last sign, if that is a quote.
abbrev pub without_last : Text → Option Text
without_last [] = none
without_last (c ∷ []) = if is_quote c then some [] else none
without_last (c ∷ d ∷ a) = elim (without_last (d ∷ a)) [ none ↦ none | some b ↦ some (c ∷ b) ]

-- `/^['"](.*)['"]$/`, in which a dot matches no end of a line.
unfoldable pub unquote : Text → Text
unquote [] = []
unquote (c ∷ a) = elim (without_last a) [
  | none ↦ c ∷ a
  | some b ↦ if is_quote c && every (λ d. not (is_line_end d)) b then b else c ∷ a
]

-- One round of the loop of `parseLegacyHeader`.
unfoldable pub read_pair : Text → TextMap Text → TextMap Text
unfolding break_at unquote
read_pair pair fields = elim (break_at 61 pair) [
  | none ↦ fields
  | some (k, v) ↦
      let key = lower (trim k) in
      if is_empty key then fields else set_entry key (unquote (trim v)) fields
]

unfoldable pub read_pairs : List Text → TextMap Text → TextMap Text
read_pairs [] fields = fields
read_pairs (p ∷ rest) fields = read_pairs rest (read_pair p fields)

-- A text that is there and not empty.
abbrev pub present : Option Text → Option Text
present none = none
present (some t) = if is_empty t then none else some t

-- The last part of `parseLegacyHeader`.
unfoldable pub accept_of : TextMap Text → Option Entry
accept_of fields =
    let amount = or_else (find_entry (codes "amount") fields) (
      or_else (find_entry (codes "maxamountrequired") fields)
        (find_entry (codes "max-amount-required") fields)) in
    let pay_to = or_else (find_entry (codes "payee") fields) (find_entry (codes "payto") fields) in
    elim (present (find_entry (codes "network") fields)) [
      | none ↦ none
      | some n ↦ elim (present amount) [
        | none ↦ none
        | some a ↦ elim (present pay_to) [
          | none ↦ none
          | some t ↦ some (record {
            scheme = some (codes "exact");
            network = some n;
            asset = some (get_or (find_entry (codes "asset") fields) []);
            amount = some a;
            pay_to = some t;
          })
        ]
      ]
    ]

-- `parseLegacyHeader`.
unfoldable pub parse_legacy_header : Text → Option Entry
unfolding split read_pairs read_pair accept_of
parse_legacy_header raw = accept_of (read_pairs (split 59 raw) [])

-- A value that is neither missing nor empty.
abbrev pub is_present : Option Text → Bool
is_present none = false
is_present (some t) = not (is_empty t)

abbrev pub is_complete : Entry → Bool
is_complete e =
    is_present e.scheme && is_present e.network && is_present e.amount && is_present e.pay_to

-- `parseFromJSON`, of the `accepts` of the body if it is an array.
unfoldable pub parse_from_json : Option (List Entry) → List Entry
parse_from_json none = []
parse_from_json (some entries) = keep is_complete entries

-- A response: the header `PAYMENT-REQUIRED` and its `accepts`, if it is decoded; the legacy header;
-- and the body, if it is JSON.
pub record Response : Type 0 where
  pub payment_header : Option (Option (List Entry))
  pub legacy_header : Option Text
  pub body : Option (Option (List Entry))

abbrev pub header_entries : Option (Option (List Entry)) → List Entry
header_entries none = []
header_entries (some none) = []
header_entries (some (some entries)) = entries

abbrev pub legacy_entry : Option Text → Option Entry
legacy_entry none = none
legacy_entry (some raw) = if is_empty raw then none else parse_legacy_header raw

-- `parseResponse`; nothing is its exception.
unfoldable pub parse_response : Response → Option (List Entry)
unfolding parse_legacy_header parse_from_json
parse_response r = elim (header_entries r.payment_header) [
  | e ∷ rest ↦ some (e ∷ rest)
  | [] ↦ elim (legacy_entry r.legacy_header) [
    | some e ↦ some (e ∷ [])
    | none ↦ elim (r.body) [ none ↦ none | some entries ↦ some (parse_from_json entries) ]
  ]
]
