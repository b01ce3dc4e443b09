-- ===== src/Reconciliation/Transaction.antt =====
-- Transactions as the RPC providers report them, and the search of their logs
-- (zeus-secretariat/src/core/multi-rpc-checker.ts, reconciliation-engine.ts). A hexadecimal text is
-- the number that it denotes, so that letter case and padding play no part but where the source
-- compares it as it is; the data of a log is a text that `BigInt` reads.
pub mod Proofs
use zeus_insurance_bot.Prelude.{
  ℕ, ◌^◌, ◌%◌, Bool, true, false, ◌&&◌, Option, none, some, List, [], ◌∷◌, Ident, Opaque, ltb, leb,
  ◌==◌, get_or, if◌then◌else◌,
}
use zeus_insurance_bot.Intent.Types.{JsNumber}
use zeus_insurance_bot.Reconciliation.Checker.{Projection}

pub data TransactionStatus : Type 0 where
  succeeded reverted pending : TransactionStatus

pub record Log : Type 0 where
  pub address : Ident
  pub topics : List ℕ
  -- Whether the first topic is written in lower case.
  pub is_lower_case : Bool
  pub log_data : ℕ
  pub log_index : ℕ

-- `TransactionCheckResult`.
pub record TransactionCheckResult : Type 0 where
  pub found : Bool
  pub confirmed : Bool
  pub block_number : Option ℕ
  pub status : TransactionStatus
  pub logs : Option (List Log)
  pub confirmations : Option JsNumber
  pub chain_id : Option ℕ
  pub gas_used : Option ℕ

-- `canonicalConsensusJson` on a transaction: the text of it without the fields that the providers'
-- heads decide.
abbrev pub transaction_projection :
    (TransactionCheckResult → Opaque) → Projection TransactionCheckResult
transaction_projection json = record {
  canonical = λ t. json (record t { confirmations = none; chain_id = none });
  confirmations = λ t. t.confirmations;
  with_confirmations = λ n t. record t { confirmations = some n };
}

-- The address in the last 20 bytes of a topic.
abbrev pub address_of : ℕ → Ident
address_of topic = topic % 2 ^ 160

pub record TransferEvent : Type 0 where
  pub sender : Ident
  pub recipient : Ident
  pub value : ℕ
  pub token_contract : Ident

-- What a transfer has to be.
pub record Expected : Type 0 where
  pub sender : Ident
  pub recipient : Ident
  pub min_value : ℕ
  pub token_contract : Ident

module _ (transfer_topic : ℕ) where
  -- One round of `parseTransferLogs`; `none` is `continue`.
  abbrev pub transfer_of : Expected → Log → Option TransferEvent
  transfer_of e log = elim (log.topics) [
    | [] ↦ none
    | t ∷ [] ↦ none
    | t ∷ a ∷ [] ↦ none
    | t ∷ a ∷ b ∷ rest ↦
        if log.address == e.token_contract
          && log.is_lower_case
          && t == transfer_topic
          && address_of a == e.sender
          && address_of b == e.recipient
          && leb e.min_value log.log_data
        then some (record {
          sender = address_of a;
          recipient = address_of b;
          value = log.log_data;
          token_contract = log.address;
        })
        else none
  ]

  -- `parseTransferLogs`.
  unfoldable pub parse_transfer_logs : Expected → List Log → Option TransferEvent
  parse_transfer_logs e [] = none
  parse_transfer_logs e (log ∷ logs) = elim (transfer_of e log) [
    | none ↦ parse_transfer_logs e logs
    | some t ↦ some t
  ]

-- `log.topics[i]?.toLowerCase() === text`, for the first topics.
abbrev pub topics_are : List ℕ → List ℕ → Bool
topics_are [] topics = true
topics_are (t ∷ ts) [] = false
topics_are (t ∷ ts) (u ∷ us) = t == u && topics_are ts us

module _ (authorization_used_topic : ℕ) where
  -- `findAuthorizationUsedLog`.
  unfoldable pub find_authorization_used_log : Ident → Ident → ℕ → List Log → Option ℕ
  find_authorization_used_log token authorizer nonce [] = none
  find_authorization_used_log token authorizer nonce (log ∷ logs) =
      let rest = find_authorization_used_log token authorizer nonce logs in
      if log.address == token
        && topics_are (authorization_used_topic ∷ authorizer ∷ nonce ∷ []) log.topics
      then some log.log_index
      else rest
