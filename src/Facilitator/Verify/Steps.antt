-- ===== src/Facilitator/Verify/Steps.antt =====
-- What a passed step of the verification says (zeus-facilitator/src/verify.ts).
use zeus_insurance_bot.Prelude.{
  ℕ, ◌/◌, ◌≤◌, ◌<◌, ◌≡◌, refl, Bool, true, false, Option, none, some, Text, lower, text_eq,
  eq_of_text_eq, Time, arith, ltb, ◌==◌, is_hex_of,
}
use zeus_insurance_bot.Facilitator.Values.{
  network, asset, amount, pay_to, Value, Check, pass, fail, throws, ◌>>=◌, ◌>>◌, unless, need,
  Reason, get?, is_the_text, is_address, text, object, missing, null, boolean, number,
  as_non_negative_int, text_if,
}
use zeus_insurance_bot.Facilitator.Verify.{
  Network, Authorization, Recovery, check_network, check_asset, check_terms, check_authorization,
  check_signature, is_same_address,
}

-- The inversions of the steps.
pub >>=-eq-pass {ℓ κ} :
    {A : Type ℓ} {B : Type κ} (m : Check A) (f : A → Check B) {b : B}
    → (m >>= f) ≡ pass b
    → (a : A) × (m ≡ pass a) × (f a ≡ pass b)
>>=-eq-pass (pass a) f h = (a, refl, h)
>>=-eq-pass (fail r) f h = cc
>>=-eq-pass (throws e) f h = cc

pub >>-eq-pass {κ} :
    {B : Type κ} (m : Check (Unit {0})) (k : Check B) {b : B}
    → (m >> k) ≡ pass b
    → (m ≡ pass tt) × (k ≡ pass b)
>>-eq-pass (pass tt) k h = (refl, h)
>>-eq-pass (fail r) k h = cc
>>-eq-pass (throws e) k h = cc

pub unless-eq-pass : (b : Bool) (r : Reason) → unless b r ≡ pass tt → b ≡ true
unless-eq-pass true r h = refl
unless-eq-pass false r h = cc

pub need-eq-pass {ℓ} :
    {A : Type ℓ} (o : Option A) (r : Reason) {a : A} → need o r ≡ pass a → o ≡ some a
need-eq-pass none r h = cc
need-eq-pass (some b) r h = cc

pub text-of : (t : Text) (v : Value) → is_the_text t v ≡ true → v ≡ text t
text-of t (text s) h = rw (eq_of_text_eq s t h) refl
text-of t missing h = cc
text-of t null h = cc
text-of t (boolean b) h = cc
text-of t (number k) h = cc
text-of t (object fields) h = cc

pub check_network_lem :
    (n : Network) (a r : Value) → check_network n a r ≡ pass tt → get? network r ≡ text n.network_id
unfolding check_network
check_network_lem n a r h =
    let both = unless-eq-pass _ _ h in text-of n.network_id (get? network r) (ground arith)

pub check_asset_lem :
    (n : Network) (v : Value)
    → check_asset n v ≡ pass tt
    → (t : Text) × (is_address (get? asset v) ≡ some t) × (lower t ≡ lower n.usdc)
unfolding check_asset
check_asset_lem n v h =
    let (t, found, same) = >>=-eq-pass (need (is_address (get? asset v)) _) _ h in
    (t, need-eq-pass _ _ found, eq_of_text_eq _ _ (unless-eq-pass _ _ same))

pub is_same_address_lem :
    (t : Text) (v : Value)
    → is_same_address t v ≡ pass true
    → (s : Text) × (v ≡ text s) × (lower t ≡ lower s)
is_same_address_lem t (text s) h = (s, refl, eq_of_text_eq _ _ (ground arith))
is_same_address_lem t missing h = cc
is_same_address_lem t null h = cc
is_same_address_lem t (boolean b) h = cc
is_same_address_lem t (number k) h = cc
is_same_address_lem t (object fields) h = cc

pub check_terms_lem :
    (a r : Value) {k : ℕ} {t : Text}
    → check_terms a r ≡ pass (k, t)
    → (as_non_negative_int (get? amount r) ≡ some k)
      × (0 < k)
      × (is_address (get? pay_to r) ≡ some t)
unfolding check_terms
check_terms_lem a r {k} {t} h =
    let (j, counted, h1) = >>=-eq-pass (need (as_non_negative_int (get? amount r)) _) _ h in
    let (positive, h2) = >>-eq-pass (unless (ltb 0 j) _) _ h1 in
    let (s, payee, h3) = >>=-eq-pass (need (is_address (get? pay_to r)) _) _ h2 in
    let (same, asked, h4) = >>=-eq-pass (is_same_address s (get? pay_to a)) _ h3 in
    let (yes_same, h5) = >>-eq-pass (unless same _) _ h4 in
    let e1 = need-eq-pass _ _ counted in
    let e2 = need-eq-pass _ _ payee in let e3 = unless-eq-pass _ _ positive in ground (arith)

pub check_authorization_lem :
    (k : ℕ) (t : Text) (now_ms : Time) (a : Authorization)
    → check_authorization (k, t) now_ms a ≡ pass tt
    → (a.amount_of ≡ k)
      × (lower a.to_address ≡ lower t)
      × (now_ms / 1000 < a.before_time)
      × (a.after_time ≤ now_ms / 1000)
unfolding check_authorization
check_authorization_lem k t now_ms a h =
    let (e1, h1) = >>-eq-pass (unless (a.amount_of == k) _) _ h in
    let (e2, h2) = >>-eq-pass (unless (text_eq (lower a.to_address) (lower t)) _) _ h1 in
    let (e3, h3) = >>-eq-pass (unless (ltb (now_ms / 1000) a.before_time) _) _ h2 in
    let f1 = unless-eq-pass _ _ e1 in
    let f3 = unless-eq-pass _ _ e3 in
    let f4 = unless-eq-pass _ _ h3 in
    (ground arith, eq_of_text_eq _ _ (unless-eq-pass _ _ e2), ground arith, ground arith)

pub text_if_lem :
    (test : Text → Bool) (v : Value) {s : Text} → text_if test v ≡ some s → test s ≡ true
text_if_lem test (text s) h = ground arith
text_if_lem test missing h = cc
text_if_lem test null h = cc
text_if_lem test (boolean b) h = cc
text_if_lem test (number k) h = cc
text_if_lem test (object fields) h = cc

pub check_signature_lem :
    (recover : Recovery) (n : Network) (v : Value) (a : Authorization) {signer : Text}
    → check_signature recover n v a ≡ pass signer
    → ((s : Text) × (is_hex_of 130 s ≡ true) × (recover n a s ≡ some signer))
      × (lower signer ≡ lower a.from_address)
unfolding check_signature
check_signature_lem recover n v a {signer} h =
    let (s, shaped, h1) = >>=-eq-pass (need (text_if (is_hex_of 130) v) _) _ h in
    let (found, recovered, h2) = >>=-eq-pass (need (recover n a s) _) _ h1 in
    let (e, h3) = >>-eq-pass (unless (text_eq (lower found) (lower a.from_address)) _) _ h2 in
    let same : found ≡ signer = cc in
    rw (← same) (
      (s, text_if_lem _ v (need-eq-pass _ _ shaped), need-eq-pass _ _ recovered),
      eq_of_text_eq _ _ (unless-eq-pass _ _ e),
    )
