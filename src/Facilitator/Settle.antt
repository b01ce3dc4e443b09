-- ===== src/Facilitator/Settle.antt =====
-- `NonceGuard` and `SettleExecutor.settle` (zeus-facilitator/src/settle.ts). Another call may run
-- whenever one waits for the chain, so a call is in two parts: what it does at once, and what it
-- does when the sending of its transaction has ended. Signing, gas and fees are part of the sending.
pub mod Once
use zeus_insurance_bot.Prelude.{
  TextMap, find_entry, set_entry, delete_entry, ℕ, suc, Bool, true, false, Option, none, some, List,
  [], ◌∷◌, ◌++◌, Text, text_eq, is_some, if◌then◌else◌,
}

-- `NonceEntry`.
pub data NonceEntry : Type 0 where
  inflight : NonceEntry
  done : Option Text → NonceEntry

abbrev pub Guard : Type 0
Guard = TextMap NonceEntry

-- `claim`: the guard and the entry that was there.
unfoldable pub claim : Text → Guard → Guard × Option NonceEntry
claim k g = elim (find_entry k g) [ none ↦ (set_entry k inflight g, none) | some e ↦ (g, some e) ]

-- `markDone`.
unfoldable pub mark_done : Text → Option Text → Guard → Guard
mark_done k hash g = set_entry k (done hash) g

-- `release`.
unfoldable pub release : Text → Guard → Guard
release k g = elim (find_entry k g) [ some inflight ↦ delete_entry k g | _ ↦ g ]

-- How the sending ends: the node answers with the hash, or something before it or the call itself
-- throws, because no node is reachable or otherwise; the transaction may have reached a node all
-- the same.
pub data Sending : Type 0 where
  sent : Text → Sending
  threw : (is_unavailable reached : Bool) → Sending

-- What is seen of the receipt in time.
pub data Receipt : Type 0 where
  succeeded reverted unseen : Receipt

pub data Refusal : Type 0 where
  duplicate_settle_inflight duplicate_settle_already_broadcast : Refusal
  broadcast_unavailable broadcast_rejected settle_reverted receipt_timeout : Refusal

-- The body of the answer; `transaction` is absent where the source has the empty text.
pub data Body : Type 0 where
  success : (transaction payer : Text) → Body
  failure : Refusal → (transaction : Option Text) → Body

-- The guard, the nonces of the calls that are on their way, and those of the transactions that
-- reached a node.
pub record World : Type 0 where
  pub guard : Guard
  pub flying : List Text
  pub broadcast : List Text

abbrev pub without : Text → List Text → List Text
without k [] = []
without k (j ∷ rest) = if text_eq j k then rest else j ∷ without k rest

abbrev pub contains : Text → List Text → Bool
contains k [] = false
contains k (j ∷ rest) = if text_eq j k then true else contains k rest

abbrev pub refusal_of : NonceEntry → ℕ × Body
refusal_of inflight = (409, failure duplicate_settle_inflight none)
refusal_of (done hash) = (409, failure duplicate_settle_already_broadcast hash)

-- The first part of `settle`; with an answer, the call ends here.
abbrev pub after_claim : Text → World → Guard × Option NonceEntry → World × Option (ℕ × Body)
after_claim k w (guard, some e) = (w, some (refusal_of e))
after_claim k w (guard, none) = (record w { guard = guard; flying = k ∷ w.flying }, none)

unfoldable pub begin_settle : Text → World → World × Option (ℕ × Body)
unfolding claim
begin_settle k w = after_claim k w (claim k w.guard)

-- The answer once the transaction is sent.
abbrev pub by_receipt : Text → Text → Receipt → ℕ × Body
by_receipt payer hash succeeded = (200, success hash payer)
by_receipt payer hash reverted = (200, failure settle_reverted (some hash))
by_receipt payer hash unseen = (504, failure receipt_timeout (some hash))

-- The second part of `settle`.
unfoldable pub finish_settle : Text → Text → Sending → Receipt → World → World × (ℕ × Body)
unfolding mark_done release
finish_settle payer k (sent hash) receipt w = (
  record w {
    guard = mark_done k (some hash) w.guard;
    flying = without k w.flying;
    broadcast = k ∷ w.broadcast;
  },
  by_receipt payer hash receipt,
)
finish_settle payer k (threw is_unavailable reached) receipt w = (
  record w {
    guard = release k w.guard;
    flying = without k w.flying;
    broadcast = if reached then k ∷ w.broadcast else w.broadcast;
  },
  if is_unavailable
      then (503, failure broadcast_unavailable none)
      else (200, failure broadcast_rejected none),
)

-- `settle`, with what the other calls do while this one waits.
unfoldable pub settle :
    (World → World) → Text → Text → Sending → Receipt → World → World × (ℕ × Body)
unfolding begin_settle finish_settle
settle others payer k sending receipt w =
    let (begun, answer) = begin_settle k w in
    elim answer [
      | some b ↦ (begun, b)
      | none ↦ finish_settle payer k sending receipt (others begun)
    ]

-- What happens in the process: a call comes in, or the sending of one ends.
pub data Event : Type 0 where
  arrives : Text → Event
  ends : Text → Text → Sending → Receipt → Event

unfoldable pub step : Event → World → World
unfolding begin_settle finish_settle
step (arrives k) w = (begin_settle k w).0
step (ends payer k sending receipt) w =
    if contains k w.flying then (finish_settle payer k sending receipt w).0 else w

unfoldable pub run : List Event → World → World
unfolding step
run [] w = w
run (e ∷ rest) w = run rest (step e w)
