-- ===== src/Facilitator/Values.antt =====
-- What JSON.parse makes of the body of a request (zeus-facilitator/src/server.ts), and the access
-- to its fields as JavaScript has it.
use zeus_insurance_bot.Prelude.{
  ℕ, Bool, true, false, ◌==◌, Option, none, some, Text, text_eq, is_digits, decimal, is_hex_of,
  if◌then◌else◌,
}

-- The names of the fields that the facilitator reads.
pub data Key : Type 0 where
  x402_version payment_payload payment_requirements scheme network amount max_amount_required : Key
  asset pay_to max_timeout_seconds extra name version accepted payload signature : Key
  authorization from to value valid_after valid_before nonce : Key

-- A value; `missing` is `undefined`. An array is an object without such fields, and a number that
-- is neither 1 nor 2 any other number.
pub data Value : Type 0 where
  missing null : Value
  boolean : Bool → Value
  number : ℕ → Value
  text : Text → Value
  object : (Key → Value) → Value

-- Why a request is refused (`VerifyFailureReason`).
pub data Reason : Type 0 where
  malformed_request unsupported_scheme network_mismatch asset_mismatch pay_to_mismatch : Reason
  amount_mismatch x402_version_mismatch domain_binding_missing domain_mismatch : Reason
  authorization_mismatch authorization_window invalid_signature : Reason
  authorization_already_used insufficient_payer_balance : Reason

-- An exception: a field of `undefined` or `null` is read, or a method of a value that has none is
-- called; or the chain cannot be asked.
pub data Fault : Type 0 where
  type_error rpc_unavailable : Fault

-- A step of the verification goes on with a value, refuses the request, or throws.
pub data Check {ℓ} (A : Type ℓ) : Type ℓ where
  pass : A → Check A
  fail : Reason → Check A
  throws : Fault → Check A

infixl 5 ◌>>=◌ ◌>>◌
abbrev pub ◌>>=◌ {ℓ κ} : {A : Type ℓ} {B : Type κ} → Check A → (A → Check B) → Check B
pass a >>= f = f a
fail r >>= f = fail r
throws e >>= f = throws e

abbrev pub ◌>>◌ {ℓ} : {B : Type ℓ} → Check (Unit {0}) → Check B → Check B
m >> k = m >>= λ _. k

-- `if (!test) return fail(reason)`.
abbrev pub unless : Bool → Reason → Check (Unit {0})
unless true r = pass tt
unless false r = fail r

-- `v.key`.
abbrev pub get : Key → Value → Check Value
get key missing = throws type_error
get key null = throws type_error
get key (boolean b) = pass missing
get key (number n) = pass missing
get key (text t) = pass missing
get key (object fields) = pass (fields key)

-- `v?.key`.
abbrev pub get? : Key → Value → Value
get? key (object fields) = fields key
get? key v = missing

-- `typeof v === "object"`, which holds of `null`.
abbrev pub is_object : Value → Bool
is_object null = true
is_object (object fields) = true
is_object v = false

-- `typeof v === "object" && v !== null`.
abbrev pub is_fields : Value → Bool
is_fields (object fields) = true
is_fields v = false

abbrev pub is_number : Value → Bool
is_number (number n) = true
is_number v = false

abbrev pub is_text : Value → Bool
is_text (text t) = true
is_text v = false

-- `v === n` and `v === t`.
abbrev pub is_the_number : ℕ → Value → Bool
is_the_number n (number k) = k == n
is_the_number n v = false

abbrev pub is_the_text : Text → Value → Bool
is_the_text t (text s) = text_eq s t
is_the_text t v = false

-- `a ?? b`.
abbrev pub or_value : Value → Value → Value
or_value missing b = b
or_value null b = b
or_value a b = a

-- The text of a value that passes a test.
abbrev pub text_if : (Text → Bool) → Value → Option Text
text_if test (text t) = if test t then some t else none
text_if test v = none

-- `asNonNegativeInt`.
abbrev pub as_non_negative_int : Value → Option ℕ
as_non_negative_int (text t) = if is_digits t then some (decimal t) else none
as_non_negative_int v = none

-- `isAddress` and `isBytes32`, with the text that they find.
abbrev pub is_address : Value → Option Text
is_address = text_if (is_hex_of 40)

abbrev pub is_bytes32 : Value → Option Text
is_bytes32 = text_if (is_hex_of 64)

-- A step that needs a value.
abbrev pub need {ℓ} : {A : Type ℓ} → Option A → Reason → Check A
need none r = fail r
need (some a) r = pass a
