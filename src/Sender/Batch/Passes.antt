-- ===== src/Sender/Batch/Passes.antt =====
-- onchain/tx_sender.py: the passes of `_BatchSend` over its items.
use agentpit.Prelude.{
  ℕ, suc, Bool, true, false, not, ◌&&◌, ◌||◌, Option, none, some, List, [], ◌∷◌, any, ltb,
  if◌then◌else◌, inl, inr, is_some, max,
}
use agentpit.Prelude.Dict.{put, nat_eq}
use agentpit.Sender.{
  SendError, nonce_invalid, Failure, Fees, Sender, Action, Config, fee_params, new_entry,
}
use agentpit.Sender.Send.{
  Outcome, accepted, unknown, refused, read_failed, no_slot, wait_for_slot, sign_and_send,
}
use agentpit.Sender.Batch.{
  BatchRound, Kind, Progress, Single, Slot, each, goes_out_again, kind_of, or_stop, take,
  unknowable, error, single, is_in, is_lost, is_refused,
}

-- The first pass over the answers.
unfoldable pub take_answered : BatchRound → Slot → Progress → Slot × Progress
take_answered r x g = elim (kind_of x.first) [
  | is_in ↦ take r.now x g
  | is_lost ↦ (x, g)
  | is_refused ↦ (x, g)
]

-- An item whose answer was lost, with its error.
abbrev pub lost_error : Slot → Option Failure
lost_error x = elim x.first [
  | none ↦ none
  | some f ↦ (elim (kind_of (some f)) [ is_lost ↦ some f | is_in ↦ none | is_refused ↦ none ])
]

-- Neither copy reached the node.
unfoldable pub never_left : Failure → Slot → Progress → Slot × Progress
never_left whole x g = elim (lost_error x) [
  | none ↦ (x, g)
  | some f ↦
      (record x { result = some (error f) }, record g { stop = or_stop g.stop (error whole) })
]

unfoldable pub lose : BatchRound → Slot → Progress → Slot × Progress
lose r x g = elim (lost_error x) [ none ↦ (x, g) | some f ↦ unknowable r.now f x g ]

abbrev pub is_nonce_invalid : SendError → Bool
is_nonce_invalid nonce_invalid = true
is_nonce_invalid _ = false

abbrev pub needs_lookup : Option Failure → Bool
needs_lookup none = false
needs_lookup (some f) = is_nonce_invalid f.kind

-- The answers to the second copies; one that is "invalid nonce" is looked up after the others.
unfoldable pub resend_one : BatchRound → (ℕ → Option Failure) → Slot → Progress → Slot × Progress
resend_one r again x g = elim (lost_error x) [
  | none ↦ (x, g)
  | some f ↦ if needs_lookup (again x.tx_hash) then (x, g) else elim (kind_of (again x.tx_hash)) [
    | is_in ↦ take r.now x g
    | is_lost ↦ unknowable r.now f x g
    | is_refused ↦ unknowable r.now f x g
  ]
]

abbrev pub is_mined : Option (ℕ → Bool) → ℕ → Bool
is_mined none h = false
is_mined (some mined) h = mined h

unfoldable pub look_up : BatchRound → (ℕ → Option Failure) → Slot → Progress → Slot × Progress
look_up r again x g = elim (lost_error x) [
  | none ↦ (x, g)
  | some f ↦
      if not (needs_lookup (again x.tx_hash))
      then (x, g)
      else if is_mined r.mined x.tx_hash
      then take r.now x g
      else unknowable r.now f x g
]

-- `_resend`
unfoldable pub resend : BatchRound → List Slot → Progress → List Slot × Progress
unfolding each never_left lose resend_one look_up
resend r xs g = elim r.second [
  | inl f ↦ (elim r.first [
    | inl whole ↦
        if whole.before_connecting && f.before_connecting
        then each (never_left whole) xs g
        else each (lose r) xs g
    | inr answers ↦ each (lose r) xs g
  ])
  | inr again ↦ let (xs', g') = each (resend_one r again) xs g in each (look_up r again) xs' g'
]

-- The fillers for the refused nonces below one of ours, at fees read afresh.
abbrev pub last_counted : List Slot → ℕ
last_counted [] = 0
last_counted (x ∷ xs) = if x.counted then max (suc x.nonce) (last_counted xs) else last_counted xs

abbrev pub is_refused_kind : Kind → Bool
is_refused_kind is_refused = true
is_refused_kind _ = false

abbrev is_gap_below : ℕ → Slot → Bool
is_gap_below last x = is_refused_kind (kind_of x.first) && ltb (suc x.nonce) last

unfoldable pub send_fillers : Config → BatchRound → Fees → ℕ → List Slot → Sender → Sender
send_fillers c r fees last [] s = s
send_fillers c r fees last (x ∷ xs) s =
    let h = c.sign_filler fees x.nonce in
    let fills = is_gap_below last x && r.takes_filler x.nonce in
    send_fillers c r fees last xs
      (if fills then record s { entries = put h (new_entry x.nonce r.now 0) s.entries } else s)

-- `_send_one`
unfoldable pub send_one : Config → Action → Single → Sender → Option Outcome × Sender
unfolding wait_for_slot sign_and_send
send_one c a i s =
    let (ready, s') = wait_for_slot c 1 i.slot_polls s in
    let run = sign_and_send c a i.rounds i.polls s' in
    if ready then (run.outcome, run.sender) else (some no_slot, s')

abbrev pub is_transport : Failure → Bool
is_transport f = elim (kind_of (some f)) [ is_lost ↦ true | is_in ↦ false | is_refused ↦ false ]

-- `_stops_sending`
abbrev pub stops_sending : Single → Option Outcome → Bool
stops_sending i none = false
stops_sending i (some (accepted p)) = false
stops_sending i (some (unknown p f)) = is_transport f
stops_sending i (some (refused f)) = is_transport f
stops_sending i (some read_failed) = i.read_stops
stops_sending i (some no_slot) = true

abbrev pub is_accepted : Option Outcome → Bool
is_accepted (some (accepted p)) = true
is_accepted _ = false

-- An item on its own.
unfoldable pub go_single : Config → BatchRound → Slot → Progress → Slot × Progress
unfolding send_one
go_single c r x g =
    let i = r.singles x.nonce in
    let (o, s) = send_one c x.action i g.sender in
    let stops = stops_sending i o in
    (
      record x { result = some (single o) },
      record {
        sender = s;
        stop = if stops then some (single o) else none;
        gave_up = not (is_accepted o) && not stops;
      },
    )

unfoldable pub settle_one : Config → BatchRound → Slot → Progress → Slot × Progress
unfolding go_single
settle_one c r x g = elim x.first [
  | none ↦ (x, g)
  | some f ↦ (elim (kind_of (some f)) [
    | is_in ↦ (x, g)
    | is_lost ↦ (x, g)
    | is_refused ↦
        if not (goes_out_again (some f)) || (is_some g.stop || g.gave_up)
        then (record x { result = some (error f) }, g)
        else go_single c r x g
  ])
]

-- `_settle_refused`
unfoldable pub settle_refused : Config → BatchRound → List Slot → Progress → List Slot × Progress
unfolding each settle_one send_fillers
settle_refused c r xs g =
    if not (any (λ x. is_refused_kind (kind_of x.first)) xs)
    then (xs, g)
    else (let s = record g.sender { fees = none } in
        let last = last_counted xs in
        let filled : Sender = elim (fee_params c r.now r.filler_fees s) [
          | none ↦ s
          | some (fees, s') ↦ send_fillers c r fees last xs s'
        ] in
        let s'' = if any (is_gap_below last) xs then filled else s in
        each (settle_one c r) xs (record g { sender = s'' }))
