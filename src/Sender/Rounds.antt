-- ===== src/Sender/Rounds.antt =====
-- onchain/tx_sender.py: the rounds of `_sign_and_send`. What the node and the clock say during one
-- round of its loop is an argument, `none` where a read raises; so are the polls that fit before a
-- wait's deadline. Each broadcast is written down, with whether the node took the copy, which no
-- answer need tell.
use agentpit.Prelude.{ℕ, ◌+◌, Bool, true, false, Option, none, List, [], ◌∷◌, leb, if◌then◌else◌}
use agentpit.Sender.{Failure, PendingTx, Fees, Sender, Config, in_flight_count, any_in_flight}
use agentpit.Sender.Poll.{Poll, poll}

pub record Round : Type 0 where
  pub now : ℕ
  pub pending_nonce : Option ℕ
  pub fees : Option Fees
  -- `none` is the node's acceptance.
  pub answer : Option Failure
  pub committed : Option ℕ
  -- `_own_receipt`: whether ours is mined, and the committed nonce.
  pub own_receipt : Option (Bool × ℕ)
  -- The polls before the deadline of a wait for a slot.
  pub slot_polls : List Poll
  pub took : Bool

pub record Sent : Type 0 where
  pub tx_hash : ℕ
  pub nonce : ℕ
  pub answer : Option Failure
  pub took : Bool
  pub is_first_resend : Bool

pub data Outcome : Type 0 where
  accepted : PendingTx → Outcome
  unknown : PendingTx → Failure → Outcome
  refused : Failure → Outcome
  read_failed no_slot : Outcome

-- An unanswered send: its bytes by their hash, its nonce and its error.
pub record Pinned : Type 0 where
  pub tx_hash : ℕ
  pub nonce : ℕ
  pub first : Failure

pub record Local : Type 0 where
  pub skips : ℕ
  pub resynced : Bool
  pub fee_refreshed : Bool
  pub pinned : Option Pinned
  pub never_connected : Bool
  pub waited : Bool

abbrev pub start : Local
start = record {
  skips = 0;
  resynced = false;
  fee_refreshed = false;
  pinned = none;
  never_connected = false;
  waited = false;
}

-- What a round comes to: the loop's end, or its next round with the polls left before the deadline.
pub data Next : Type 0 where
  stop : Outcome → Sender → Next
  again : Local → List Poll → Sender → Next

pub data Step : Type 0 where
  unsent : Outcome → Sender → Step
  sent : Sent → Next → Step

-- `_wait_for_slot`: whether `need` slots are free in time.
unfoldable pub wait_for_slot : Config → ℕ → List Poll → Sender → Bool × Sender
wait_for_slot c need [] s = (leb (in_flight_count s + need) s.max_in_flight, s)
wait_for_slot c need (p ∷ ps) s =
    let rest = wait_for_slot c need ps (poll c p s) in
    if leb (in_flight_count s + need) s.max_in_flight then (true, s) else rest

-- `_wait_until_done`: the polls left when it returns.
unfoldable pub wait_until_done : Config → List ℕ → List Poll → Sender → List Poll × Sender
wait_until_done c hs [] s = ([], s)
wait_until_done c hs (p ∷ ps) s =
    let rest = wait_until_done c hs ps (poll c p s) in
    if any_in_flight hs s then rest else (p ∷ ps, s)

abbrev pub pending_tx : ℕ → ℕ → PendingTx
pending_tx h nonce = record { tx_hash = h; nonce = nonce }
