-- ===== src/Sender/Send.antt =====
-- onchain/tx_sender.py: `_sign_and_send`, round by round.
pub mod Copies
pub mod Answers
pub mod Once
pub mod Ends
pub use agentpit.Sender.Rounds.{
  Local, Next, Outcome, Pinned, Round, Sent, Step, pending_tx, start, accepted, unknown, refused,
  read_failed, no_slot, stop, again, unsent, sent,
}
unfoldable pub use agentpit.Sender.Rounds.{wait_for_slot, wait_until_done}
use agentpit.Prelude.{
  ℕ, zero, suc, ◌+◌, ◌≤◌, Bool, true, false, not, ◌&&◌, ◌||◌, Option, none, some, List, [], ◌∷◌,
  map, filter, is_nil, ltb, leb, ◌==◌, if◌then◌else◌,
}
use agentpit.Sender.{
  SendError, duplicate, nonce_taken, nonce_invalid, fee_low, queue_full, balance_low, transport,
  other_error, Failure, PendingTx, Entry, Fees, Sender, Action, Config, is_done, accept,
  in_flight_count, any_in_flight, fee_params,
}
use agentpit.Sender.Poll.{Poll, poll, hashes_of}

abbrev accept_it : Round → Action → ℕ → ℕ → Sender → Next
accept_it r a h nonce s = stop (accepted (pending_tx h nonce)) (accept r.now h nonce a.value s)

-- Multi-Transaction Mode is off: one transaction at a time, once there is a slot.
abbrev go_serial : Config → Round → Local → List Poll → Sender → Next
go_serial c r l polls s =
    let (ready, s') = wait_for_slot c 1 r.slot_polls (record s { max_in_flight = 1 }) in
    if ready then again l polls s' else stop no_slot s'

-- The first answer about signed bytes.
pub after_first :
    Config → Action → Round → Local → List Poll → ℕ → ℕ → Sender → Failure → SendError → Next
unfolding accept wait_for_slot
after_first c a r l polls h nonce s f transport =
    again
      (record l {
        pinned = some (record { tx_hash = h; nonce = nonce; first = f });
        never_connected = f.before_connecting;
      })
      polls s
after_first c a r l polls h nonce s f duplicate = accept_it r a h nonce s
after_first c a r l polls h nonce s f nonce_taken =
    if ltb l.skips c.max_skips
    then again (record l { skips = suc l.skips }) polls (record s { next_nonce = some (nonce + 1) })
    else stop (refused f) s
after_first c a r l polls h nonce s f nonce_invalid = elim r.committed [
  | none ↦ stop read_failed s
  | some committed ↦
      if ltb committed nonce && ltb 0 (in_flight_count s)
      then go_serial c r l polls s
      else if not l.resynced
      then again (record l { resynced = true }) polls (record s { next_nonce = some committed })
      else stop (refused f) s
]
after_first c a r l polls h nonce s f fee_low =
    if not l.fee_refreshed
    then again (record l { fee_refreshed = true }) polls
        (record s { fees = none; pinned_fees = none })
    else stop (refused f) s
after_first c a r l polls h nonce s f queue_full = stop (refused f) s
after_first c a r l polls h nonce s f balance_low = stop (refused f) s
after_first c a r l polls h nonce s f other_error = stop (refused f) s

-- Nothing settles the pinned bytes: refused where no copy reached the node, else unknowable.
abbrev give_up : Action → Round → Local → Pinned → Sender → Next
give_up a r l p s =
    if l.never_connected
    then stop (refused p.first) s
    else stop (unknown (pending_tx p.tx_hash p.nonce) p.first)
        (accept r.now p.tx_hash p.nonce a.value s)

-- Ours in flight on lower nonces.
abbrev pub below : ℕ → Sender → List ℕ
below nonce s = hashes_of (filter (λ x. not (is_done x.1) && ltb x.1.nonce nonce) s.entries)

abbrev wait_below : Config → Action → Round → Local → List Poll → Pinned → Sender → Next
wait_below c a r l polls p s =
    let hs = below p.nonce s in
    let (polls', s') = wait_until_done c hs polls s in
    if any_in_flight hs s' then give_up a r l p s' else again (record l { waited = true }) polls' s'

-- The answer to a resend of pinned bytes; `l` has its own part of it already.
pub after_resend : Config → Action → Round → Local → List Poll → Pinned → Sender → SendError → Next
unfolding accept wait_until_done
after_resend c a r l polls p s duplicate = accept_it r a p.tx_hash p.nonce s
after_resend c a r l polls p s nonce_taken =
    if not l.waited && ltb l.skips c.max_skips
    then again (record l { pinned = none; skips = suc l.skips }) polls
        (record s { next_nonce = some (p.nonce + 1) })
    else give_up a r l p s
after_resend c a r l polls p s nonce_invalid = elim r.own_receipt [
  | none ↦ give_up a r l p s
  | some (mined, committed) ↦
      if mined
      then accept_it r a p.tx_hash p.nonce s
      else if ltb committed p.nonce && not (is_nil (below p.nonce s))
      then wait_below c a r l polls p s
      else give_up a r l p s
]
after_resend c a r l polls p s transport = give_up a r l p s
after_resend c a r l polls p s fee_low = give_up a r l p s
after_resend c a r l polls p s queue_full = give_up a r l p s
after_resend c a r l polls p s balance_low = give_up a r l p s
after_resend c a r l polls p s other_error = give_up a r l p s

-- The fees to sign at: a batch's own, or the current ones.
abbrev signing_fees : Config → Round → Sender → Option (Fees × Sender)
signing_fees c r s = elim s.pinned_fees [
  | none ↦ fee_params c r.now r.fees s
  | some f ↦ some (f, s)
]

abbrev next_nonce_of : Round → Sender → Option ℕ
next_nonce_of r s = elim s.next_nonce [ none ↦ r.pending_nonce | some n ↦ some n ]

-- A round with no bytes pinned: sign on the next nonce and broadcast.
pub send_fresh : Config → Action → Round → Local → List Poll → Sender → Step
unfolding after_first fee_params
send_fresh c a r l polls s = elim (next_nonce_of r s) [
  | none ↦ unsent read_failed s
  | some nonce ↦ (elim (signing_fees c r (record s { next_nonce = some nonce })) [
    | none ↦ unsent read_failed (record s { next_nonce = some nonce })
    | some (fees, s') ↦
        let h = c.sign a fees nonce in
        sent
          (record {
            tx_hash = h;
            nonce = nonce;
            answer = r.answer;
            took = r.took;
            is_first_resend = false;
          })
          (elim r.answer [
            | none ↦ accept_it r a h nonce s'
            | some f ↦ after_first c a r l polls h nonce s' f f.kind
          ])
  ])
]

-- A round with pinned bytes: the identical bytes again.
pub send_again : Config → Action → Round → Local → List Poll → Pinned → Sender → Step
unfolding after_resend
send_again c a r l polls p s =
    sent
      (record {
        tx_hash = p.tx_hash;
        nonce = p.nonce;
        answer = r.answer;
        took = r.took;
        is_first_resend = not l.waited;
      })
      (elim r.answer [
        | none ↦ accept_it r a p.tx_hash p.nonce s
        | some f ↦
            after_resend c a r
              (record l { never_connected = l.never_connected && f.before_connecting }) polls p s
              f.kind
      ])

pub send_round : Config → Action → Round → Local → List Poll → Sender → Step
unfolding send_fresh send_again
send_round c a r l polls s = elim l.pinned [
  | none ↦ send_fresh c a r l polls s
  | some p ↦ send_again c a r l polls p s
]

-- What the loop comes to, and its broadcasts, the last one first.
pub record Run : Type 0 where
  pub outcome : Option Outcome
  pub sender : Sender
  pub trace : List Sent

abbrev ran_out : Sender → List Sent → Run
ran_out s trace = record { outcome = none; sender = s; trace = trace }

-- The loop: one element of the list is one round. Without rounds left there is no outcome.
unfoldable pub send_rounds :
    Config → Action → List Round → Local → List Poll → Sender → List Sent → Run
unfolding send_round
send_rounds c a [] l polls s trace = ran_out s trace
send_rounds c a (r ∷ rs) l polls s trace = elim (send_round c a r l polls s) [
  | unsent o s' ↦ record { outcome = some o; sender = s'; trace = trace }
  | sent x (stop o s') ↦ record { outcome = some o; sender = s'; trace = x ∷ trace }
  | sent x (again l' polls' s') ↦ send_rounds c a rs l' polls' s' (x ∷ trace)
]

-- `_sign_and_send`, on rounds and on the polls before the deadline of its waits for lower nonces.
unfoldable pub sign_and_send : Config → Action → List Round → List Poll → Sender → Run
unfolding send_rounds
sign_and_send c a rounds polls s = send_rounds c a rounds start polls s []
