-- ===== src/Sender/Batch.antt =====
-- onchain/tx_sender.py: `_BatchSend`, a batch of transactions on nonces in a row. What the node says is
-- an argument, about a transaction by its hash.
pub mod Passes
pub mod Running
pub mod Lengths
pub mod Results
pub mod Complete
use agentpit.Prelude.{
  ℕ, zero, suc, ◌+◌, Bool, true, false, not, ◌&&◌, ◌||◌, Option, none, some, List, [], ◌∷◌, map,
  any, length, ltb, if◌then◌else◌, ◌⊎◌, inl, inr, is_some, max,
}
use agentpit.Prelude.Dict.{put, nat_eq}
use agentpit.Sender.{
  SendError, duplicate, nonce_taken, nonce_invalid, fee_low, queue_full, balance_low, transport,
  other_error, Failure, PendingTx, Fees, Sender, Action, Config, accept, fee_params, new_entry,
}
use agentpit.Sender.Poll.{Poll}
use agentpit.Sender.Send.{
  Round, Outcome, accepted, unknown, refused, read_failed, no_slot, Run, wait_for_slot,
  sign_and_send, pending_tx,
}

-- The single path of an item: the polls of its wait for a slot, its rounds, and whether a read that
-- raises does so for want of the node.
pub record Single : Type 0 where
  pub slot_polls : List Poll
  pub rounds : List Round
  pub polls : List Poll
  pub read_stops : Bool

-- The answer to a batch: one failure, or an answer for each hash, `none` an acceptance.
abbrev pub BatchAnswer : Type 0
BatchAnswer = Failure ⊎ (ℕ → Option Failure)

pub record BatchRound : Type 0 where
  pub now : ℕ
  pub slot_polls : List Poll
  pub pending_nonce : Option ℕ
  pub fees : Option Fees
  pub first : BatchAnswer
  pub second : BatchAnswer
  -- `_find_receipts`
  pub mined : Option (ℕ → Bool)
  pub filler_fees : Option Fees
  pub takes_filler : ℕ → Bool
  pub singles : ℕ → Single

-- What an item's result is: its transaction, an error of a batch, the outcome of its single path, or
-- what stopped the batch before its broadcast.
pub data BatchResult : Type 0 where
  taken : PendingTx → BatchResult
  error : Failure → BatchResult
  single : Option Outcome → BatchResult
  unsent : Outcome → BatchResult

pub record Slot : Type 0 where
  pub action : Action
  pub tx_hash : ℕ
  pub nonce : ℕ
  pub first : Option Failure
  pub result : Option BatchResult
  pub counted : Bool

pub record Progress : Type 0 where
  pub sender : Sender
  -- `_stop`
  pub stop : Option BatchResult
  -- `refused_again`, `refused_too`
  pub gave_up : Bool

-- A step for each item in turn.
unfoldable pub each :
    (Slot → Progress → Slot × Progress) → List Slot → Progress → List Slot × Progress
each step [] g = ([], g)
each step (x ∷ xs) g =
    let (x', g') = step x g in let (xs', g'') = each step xs g' in (x' ∷ xs', g'')

-- `_take`
abbrev pub take : ℕ → Slot → Progress → Slot × Progress
take now x g = (
  record x { result = some (taken (pending_tx x.tx_hash x.nonce)); counted = true },
  record g { sender = accept now x.tx_hash x.nonce x.action.value g.sender },
)

abbrev pub or_stop : Option BatchResult → BatchResult → Option BatchResult
or_stop none r = some r
or_stop (some s) r = some s

-- `_unknowable`
abbrev pub unknowable : ℕ → Failure → Slot → Progress → Slot × Progress
unknowable now f x g = (
  record x { result = some (error f); counted = true },
  record g {
    sender = accept now x.tx_hash x.nonce x.action.value g.sender;
    stop = or_stop g.stop (error f);
  },
)

-- What an answer makes of an item.
pub data Kind : Type 0 where
  is_in is_lost is_refused : Kind

abbrev pub kind_of_error : SendError → Kind
kind_of_error duplicate = is_in
kind_of_error transport = is_lost
kind_of_error _ = is_refused

abbrev pub kind_of : Option Failure → Kind
kind_of none = is_in
kind_of (some f) = kind_of_error f.kind

-- `_RESEND_AFTER`
abbrev pub resend_kind : SendError → Bool
resend_kind fee_low = true
resend_kind nonce_taken = true
resend_kind nonce_invalid = true
resend_kind queue_full = true
resend_kind balance_low = true
resend_kind _ = false

abbrev pub goes_out_again : Option Failure → Bool
goes_out_again none = false
goes_out_again (some f) = resend_kind f.kind
