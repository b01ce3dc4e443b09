-- ===== src/Facilitator/Settle/Once.antt =====
-- The guard keeps the facilitator from sending an authorization twice
-- (zeus-facilitator/src/settle.ts).
use zeus_insurance_bot.Prelude.{
  find_entry, set_entry, delete_entry, find-set_entry, find-delete_entry, text_eq_same,
  text_eq_joins, ℕ, suc, ◌+◌, ◌≤◌, ◌≡◌, refl, sym, ap, Bool-cases, true, false, Option, none, some,
  List, [], ◌∷◌, Text, text_eq, All, text_eq_refl, eq_of_text_eq, arith, if◌then◌else◌,
  Option-cases, inl, inr,
}
use zeus_insurance_bot.Facilitator.Settle.{
  NonceEntry, inflight, done, Guard, claim, mark_done, release, Sending, sent, threw, Receipt,
  World, Event, arrives, ends, step, run, without, contains, begin_settle, finish_settle,
  refusal_of, after_claim,
}

abbrev pub count : Text → List Text → ℕ
count k [] = 0
count k (j ∷ rest) = let n = count k rest in if text_eq j k then suc n else n

-- What the guard says of a nonce, by how many calls of it are on their way and how often it was
-- sent.
abbrev IsCounted : Option NonceEntry → ℕ → ℕ → Type 0
IsCounted none flying times = (flying ≡ 0) × (times ≡ 0)
IsCounted (some inflight) flying times = (flying ≡ 1) × (times ≡ 0)
IsCounted (some (done hash)) flying times = (flying ≡ 0) × (times ≡ 1)

abbrev IsKept : Text → World → Type 0
IsKept x w = IsCounted (find_entry x w.guard) (count x w.flying) (count x w.broadcast)

count-without :
    (k x : Text) (l : List Text)
    → contains k l ≡ true
    → count x l ≡ (if text_eq k x then suc (count x (without k l)) else count x (without k l))
count-without k x [] h = cc
count-without k x (j ∷ rest) h = elim (Bool-cases (text_eq j k)) [
  | inl same ↦ rw same (ground (arith, text_eq_same j k x same))
  | inr apart ↦ rw apart (ground (arith, count-without k x rest, text_eq_joins j k x apart))
]

claim_new :
    (k : Text) (g : Guard) → find_entry k g ≡ none → claim k g ≡ (set_entry k inflight g, none)
unfolding claim
claim_new k g new = rw (new, claim) refl

claim_old :
    (k : Text) (g : Guard) (e : NonceEntry) → find_entry k g ≡ some e → claim k g ≡ (g, some e)
unfolding claim
claim_old k g e old = rw (old, claim) refl

-- A call that comes in starts only if the guard knows nothing of its nonce.
pub begin_new :
    (k : Text) (w : World)
    → find_entry k w.guard ≡ none
    → begin_settle k w
      ≡ (record w { guard = set_entry k inflight w.guard; flying = k ∷ w.flying }, none)
unfolding begin_settle
begin_new k w new = ap (after_claim k w) (claim_new k w.guard new)

pub begin_old :
    (k : Text) (w : World) (e : NonceEntry)
    → find_entry k w.guard ≡ some e
    → begin_settle k w ≡ (w, some (refusal_of e))
unfolding begin_settle
begin_old k w e old = ap (after_claim k w) (claim_old k w.guard e old)

entry_same : (k x : Text) (g : Guard) → text_eq k x ≡ true → find_entry x g ≡ find_entry k g
entry_same k x g h = ap (λ t. find_entry t g) (sym (eq_of_text_eq k x h))

begin_settle-IsKept : (k x : Text) (w : World) → IsKept x w → IsKept x (begin_settle k w).0
begin_settle-IsKept k x w kept = elim (Option-cases (find_entry k w.guard)) [
  | inl new ↦
      rw (begin_new k w new, find-set_entry k x inflight w.guard)
        (ground (arith, entry_same k x w.guard, new))
  | inr (e, old) ↦ rw (begin_old k w e old) kept
]

-- Nothing reaches a node when the sending throws.
abbrev pub IsPlain : Sending → Type 0
IsPlain (sent hash) = Unit
IsPlain (threw is_unavailable reached) = reached ≡ false

inflight_of :
    (o : Option NonceEntry) (flying times : ℕ)
    → IsCounted o flying times
    → 1 ≤ flying
    → o ≡ some inflight
inflight_of none flying times kept h = absurd (omega arith)
inflight_of (some inflight) flying times kept h = refl
inflight_of (some (done hash)) flying times kept h = absurd (omega arith)

release_lem :
    (k : Text) (g : Guard) → find_entry k g ≡ some inflight → release k g ≡ delete_entry k g
unfolding release
release_lem k g h = rw (h, release) refl

finish_settle-IsKept :
    (payer k x : Text) (s : Sending) (r : Receipt) (w : World)
    → IsPlain s
    → contains k w.flying ≡ true
    → IsKept k w
    → IsKept x w
    → IsKept x (finish_settle payer k s r w).0
unfolding finish_settle mark_done
finish_settle-IsKept payer k x (sent hash) r w plain flies own kept =
    rw (find-set_entry k x (done (some hash)) w.guard)
      (ground (arith, entry_same k x w.guard, count-without k x w.flying flies))
finish_settle-IsKept payer k x (threw is_unavailable reached) r w plain flies own kept =
    let at_k = count-without k k w.flying flies in
    let inside =
      inflight_of _ (count k w.flying) (count k w.broadcast) own
        (ground (arith, at_k, text_eq_refl k)) in
    rw (plain, release_lem k w.guard inside, find-delete_entry k x w.guard)
      (ground (arith, entry_same k x w.guard, count-without k x w.flying flies))

abbrev pub IsPlainEvent : Event → Type 0
IsPlainEvent (arrives k) = Unit
IsPlainEvent (ends payer k s r) = IsPlain s

step-IsKept :
    (e : Event) (w : World)
    → IsPlainEvent e
    → ((x : Text) → IsKept x w)
    → (x : Text) → IsKept x (step e w)
unfolding step
step-IsKept (arrives k) w plain kept x = begin_settle-IsKept k x w (kept x)
step-IsKept (ends payer k s r) w plain kept x = elim (Bool-cases (contains k w.flying)) [
  | inl flies ↦ rw flies (finish_settle-IsKept payer k x s r w plain flies (kept k) (kept x))
  | inr missing ↦ rw missing (kept x)
]

run-IsKept :
    (events : List Event) (w : World)
    → All IsPlainEvent events
    → ((x : Text) → IsKept x w)
    → (x : Text) → IsKept x (run events w)
unfolding run
run-IsKept [] w plain kept = kept
run-IsKept (e ∷ rest) w (plain, others) kept =
    run-IsKept rest (step e w) others (step-IsKept e w plain kept)

abbrev pub idle : World
idle = record { guard = []; flying = []; broadcast = [] }

idle-IsKept : (x : Text) → IsKept x idle
unfolding find_entry
idle-IsKept x = (refl, refl)

once :
    (o : Option NonceEntry) (x : Text) (w : World)
    → find_entry x w.guard ≡ o
    → IsCounted o (count x w.flying) (count x w.broadcast)
    → (count x w.broadcast ≤ 1)
      × (1 ≤ count x w.flying + count x w.broadcast
          → (e : NonceEntry) × (begin_settle x w ≡ (w, some (refusal_of e))))
once none x w found kept = (omega arith, λ h. absurd (omega arith))
once (some inflight) x w found kept = (omega arith, λ h. (inflight, begin_old x w inflight found))
once (some (done hash)) x w found kept =
    (omega arith, λ h. (done hash, begin_old x w (done hash) found))

-- In whatever order calls of `settle` come in and their sendings end, if no transaction reaches a
-- node by a sending that throws: of every nonce, as a text, at most one transaction is sent; and
-- while a call with the nonce is on its way, or after its transaction was sent, another call with
-- it changes nothing and is refused with 409.
pub run-BroadcastsOnce :
    (events : List Event) (x : Text)
    → All IsPlainEvent events
    → let w = run events idle in
      (count x w.broadcast ≤ 1)
      × (1 ≤ count x w.flying + count x w.broadcast
          → (e : NonceEntry) × (begin_settle x w ≡ (w, some (refusal_of e))))
run-BroadcastsOnce events x plain =
    once _ x (run events idle) refl (run-IsKept events idle plain idle-IsKept x)
