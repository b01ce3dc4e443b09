-- ===== src/Reconciliation/Transaction/Proofs.antt =====
-- What a transfer found in the logs is (zeus-secretariat/src/core/reconciliation-engine.ts).
use zeus_insurance_bot.Prelude.{◌≡◌, ◌≤◌, inl, inr, some, List, [], ◌∷◌, ℕ, Option-cases, arith}
use zeus_insurance_bot.Reconciliation.Transaction.{
  Log, TransferEvent, Expected, transfer_of, parse_transfer_logs,
}

-- The transfer has the expected parties and token, and at least the expected value.
abbrev pub Matches : Expected → TransferEvent → Type 0
Matches e t =
    (t.sender ≡ e.sender)
    × (t.recipient ≡ e.recipient)
    × (e.min_value ≤ t.value)
    × (t.token_contract ≡ e.token_contract)

transfer_of-Matches :
    (topic : ℕ) (e : Expected) (log : Log) (t : TransferEvent)
    → transfer_of topic e log ≡ some t
    → Matches e t
transfer_of-Matches topic e log t h = ground arith

pub parse_transfer_logs-Matches :
    (topic : ℕ) (e : Expected) (logs : List Log) (t : TransferEvent)
    → parse_transfer_logs topic e logs ≡ some t
    → Matches e t
unfolding parse_transfer_logs
parse_transfer_logs-Matches topic e [] t h = absurd (ground arith)
parse_transfer_logs-Matches topic e (log ∷ logs) t h =
    elim (Option-cases (transfer_of topic e log)) [
      | inl other ↦ parse_transfer_logs-Matches topic e logs t (ground arith)
      | inr (u, found) ↦ transfer_of-Matches topic e log t (ground arith)
    ]
