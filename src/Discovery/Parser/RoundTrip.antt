-- ===== src/Discovery/Parser/RoundTrip.antt =====
-- A legacy challenge is read as it is written (zeus-secretariat/src/core/x402-parser.ts).
use zeus_insurance_bot.Prelude.{
  ℕ, true, false, not, ◌≡◌, refl, ap, ◌∙◌, some, List, [], ◌∷◌, ◌++◌, TextMap, Text, codes, All,
  every, is_empty, trim, trim_end, lower, find_entry, set_entry, text_eq, arith, ◌==◌, Bool-cases,
  inl, inr,
}
use zeus_insurance_bot.Discovery.Parser.{
  Entry, split, break_at, is_line_end, without_last, unquote, read_pair, read_pairs, accept_of,
  parse_legacy_header,
}

-- A value that can stand between quotes in a header: no end of a pair, and no end of a line.
abbrev pub IsPlain : Text → Type 0
IsPlain a = All (λ c. (c == 59 ≡ false) × (is_line_end c ≡ false)) a

abbrev pub quoted : Text → Text
quoted a = 39 ∷ (a ++ 39 ∷ [])

abbrev Lacks : ℕ → Text → Type 0
Lacks sep a = every (λ c. not (c == sep)) a ≡ true

split-lack : (sep : ℕ) (a : Text) → Lacks sep a → split sep a ≡ a ∷ []
unfolding split
split-lack sep [] h = refl
split-lack sep (c ∷ a) h = rw (split-lack sep a (ground (arith, h))) (ground (arith, h))

-- A split has a first part.
split-cons : (sep : ℕ) (a : Text) → (p : Text) × (parts : List Text) × (split sep a ≡ p ∷ parts)
unfolding split
split-cons sep [] = ([], [], refl)
split-cons sep (c ∷ a) =
    let (p, parts, e) = split-cons sep a in
    elim (Bool-cases (c == sep)) [
      | inl ends ↦ ([], p ∷ parts, rw (e, ends) refl)
      | inr goes ↦ (c ∷ p, parts, rw (e, goes) refl)
    ]

split-append : (sep : ℕ) (a b : Text) → Lacks sep a → split sep (a ++ sep ∷ b) ≡ a ∷ split sep b
unfolding split
split-append sep [] b h = let (p, parts, e) = split-cons sep b in rw e (ground arith)
split-append sep (c ∷ a) b h = rw (split-append sep a b (ground (arith, h))) (ground (arith, h))

without_last-append : (a : Text) → without_last (a ++ 39 ∷ []) ≡ some a
without_last-append [] = refl
without_last-append (c ∷ []) = refl
without_last-append (c ∷ d ∷ a) = rw (without_last-append (d ∷ a)) refl

every_plain : (a : Text) → IsPlain a → every (λ d. not (is_line_end d)) a ≡ true
every_plain [] h = refl
every_plain (c ∷ a) ((h, k), hs) = ground (arith, every_plain a hs, k)

unquote-quoted : (a : Text) → IsPlain a → unquote (quoted a) ≡ a
unfolding unquote
unquote-quoted a h = rw (unquote, without_last-append a, every_plain a h) refl

is_empty-append : (a : Text) → is_empty (a ++ 39 ∷ []) ≡ false
is_empty-append [] = refl
is_empty-append (c ∷ a) = refl

trim_end-append : (a : Text) → trim_end (a ++ 39 ∷ []) ≡ a ++ 39 ∷ []
trim_end-append [] = refl
trim_end-append (c ∷ a) = rw (trim_end-append a) (ground (arith, is_empty-append a))

trim-quoted : (a : Text) → trim (quoted a) ≡ quoted a
unfolding trim
trim-quoted a = trim_end-append (39 ∷ a)

Lacks-plain : (a : Text) → IsPlain a → Lacks 59 a
Lacks-plain [] h = refl
Lacks-plain (c ∷ a) ((h, k), hs) = ground (arith, Lacks-plain a hs)

Lacks-append : (sep : ℕ) (a b : Text) → Lacks sep a → Lacks sep b → Lacks sep (a ++ b)
Lacks-append sep [] b h k = k
Lacks-append sep (c ∷ a) b h k = ground (arith, Lacks-append sep a b)

Lacks-quoted : (a : Text) → IsPlain a → Lacks 59 (quoted a)
Lacks-quoted a h = Lacks-append 59 a (39 ∷ []) (Lacks-plain a h) refl

-- One pair, whose key is what is trimmed and written small.
read_pair_lem :
    (pair k key a : Text) (fields : TextMap Text)
    → break_at 61 pair ≡ some (k, quoted a)
    → lower (trim k) ≡ key
    → is_empty key ≡ false
    → IsPlain a
    → read_pair pair fields ≡ set_entry key a fields
unfolding read_pair set_entry
read_pair_lem pair k key a fields broken named full h =
    rw (read_pair, broken, named, full, trim-quoted a, unquote-quoted a h) refl

pub record Challenge : Type 0 where
  pub of_amount : Text
  pub of_asset : Text
  pub of_network : Text
  pub of_payee : Text

-- A challenge as sellers write it: amount='…'; asset='…'; network='…'; payee='…'.
abbrev pub print : Challenge → Text
print c =
    (codes "amount=" ++ quoted c.of_amount)
    ++ 59
      ∷ ((codes " asset=" ++ quoted c.of_asset)
          ++ 59
            ∷ ((codes " network=" ++ quoted c.of_network)
                ++ 59 ∷ (codes " payee=" ++ quoted c.of_payee)))

abbrev pub IsPrintable : Challenge → Type 0
IsPrintable c = IsPlain c.of_amount × IsPlain c.of_asset × IsPlain c.of_network × IsPlain c.of_payee

abbrev pub IsFull : Challenge → Type 0
IsFull c =
    (is_empty c.of_amount ≡ false) × (is_empty c.of_network ≡ false) × (is_empty c.of_payee ≡ false)

abbrev pub entry_of : Challenge → Entry
entry_of c = record {
  scheme = some (codes "exact");
  network = some c.of_network;
  asset = some c.of_asset;
  amount = some c.of_amount;
  pay_to = some c.of_payee;
}

split-print :
    (c : Challenge)
    → IsPrintable c
    → split 59 (print c)
      ≡ (codes "amount=" ++ quoted c.of_amount)
        ∷ (codes " asset=" ++ quoted c.of_asset)
        ∷ (codes " network=" ++ quoted c.of_network)
        ∷ (codes " payee=" ++ quoted c.of_payee)
        ∷ []
split-print c (pa, ps, pn, pp) =
    split-append 59 (codes "amount=" ++ quoted c.of_amount) _
      (Lacks-append 59 (codes "amount=") (quoted c.of_amount) refl (Lacks-quoted c.of_amount pa))
    ∙ ap (λ parts. (codes "amount=" ++ quoted c.of_amount) ∷ parts)
        (split-append 59 (codes " asset=" ++ quoted c.of_asset) _ (
            Lacks-append 59 (codes " asset=") (quoted c.of_asset) refl (Lacks-quoted c.of_asset ps))
          ∙ ap (λ parts. (codes " asset=" ++ quoted c.of_asset) ∷ parts)
              (split-append 59 (codes " network=" ++ quoted c.of_network) _ (
                  Lacks-append 59 (codes " network=") (quoted c.of_network) refl
                    (Lacks-quoted c.of_network pn))
                ∙ ap (λ parts. (codes " network=" ++ quoted c.of_network) ∷ parts)
                    (split-lack 59 (codes " payee=" ++ quoted c.of_payee) (
                      Lacks-append 59 (codes " payee=") (quoted c.of_payee) refl
                        (Lacks-quoted c.of_payee pp)))))

abbrev fields_of : Challenge → TextMap Text
fields_of c =
    (codes "amount", c.of_amount)
    ∷ (codes "asset", c.of_asset)
    ∷ (codes "network", c.of_network)
    ∷ (codes "payee", c.of_payee)
    ∷ []

-- One pair that is written with its key in small letters.
read_pair-written :
    (pair key a : Text) (fields : TextMap Text)
    → break_at 61 pair ≡ some (key, quoted a)
    → is_empty (lower (trim key)) ≡ false
    → IsPlain a
    → read_pair pair fields ≡ set_entry (lower (trim key)) a fields
read_pair-written pair key a fields broken full h =
    read_pair_lem pair key (lower (trim key)) a fields broken refl full h

read_pairs-print :
    (c : Challenge) → IsPrintable c → read_pairs (split 59 (print c)) [] ≡ fields_of c
unfolding read_pairs break_at trim lower set_entry text_eq
read_pairs-print c (pa, ps, pn, pp) =
    rw
      (
        split-print c (pa, ps, pn, pp),
        read_pair-written (codes "amount=" ++ quoted c.of_amount) (codes "amount") c.of_amount []
            refl refl pa,
        read_pair-written (codes " asset=" ++ quoted c.of_asset) (codes " asset") c.of_asset _ refl
            refl ps,
        read_pair-written (codes " network=" ++ quoted c.of_network) (codes " network") c.of_network
            _ refl refl pn,
        read_pair-written (codes " payee=" ++ quoted c.of_payee) (codes " payee") c.of_payee _ refl
            refl pp,
      )
      refl

accept_of-fields_of : (c : Challenge) → IsFull c → accept_of (fields_of c) ≡ some (entry_of c)
unfolding accept_of find_entry text_eq
accept_of-fields_of c full = ground (arith, full.0, full.1, full.2)

-- A legacy challenge of the form amount='…'; asset='…'; network='…'; payee='…' is read back as it
-- was written, with the scheme "exact", if amount, network and payee are not empty and no value has
-- a semicolon or an end of a line. Values may have quotes, blanks and equality signs.
pub parse_legacy_header-print :
    (c : Challenge) → IsPrintable c → IsFull c → parse_legacy_header (print c) ≡ some (entry_of c)
unfolding parse_legacy_header
parse_legacy_header-print c plain full =
    ap accept_of (read_pairs-print c plain) ∙ accept_of-fields_of c full
