-- ===== src/Sender/Send/Once.antt =====
-- onchain/tx_sender.py: the copies of one action that the node holds when `_sign_and_send` ends.
use agentpit.Prelude.{◌≡◌, refl, true, List, [], ◌∷◌, arith, inl, inr, ◌⊎◌}
use agentpit.Sender.{Sender, Action, Config}
use agentpit.Sender.Poll.{Poll}
use agentpit.Sender.Send.{
  Round, Sent, Outcome, Local, start, stop, again, Step, unsent, sent, send_round, send_rounds,
  sign_and_send,
}
use agentpit.Sender.Send.Copies.{is_honest, inv}
use agentpit.Sender.Send.Answers.{send_round-is_fine, is_only_copy_of}

pub Step-cases :
    (t : Step)
    → ((o : Outcome) × (s : Sender) × (t ≡ unsent o s))
      ⊎ ((x : Sent) × (o : Outcome) × (s : Sender) × (t ≡ sent x (stop o s)))
      ⊎ ((x : Sent) × (l : Local) × (polls : List Poll) × (s : Sender) × (t
            ≡ sent x (again l polls s)))
Step-cases (unsent o s) = inl (o, s, refl)
Step-cases (sent x (stop o s)) = inr (inl (x, o, s, refl))
Step-cases (sent x (again l polls s)) = inr (inr (x, l, polls, s, refl))

-- What is honest in the end was so before.
was_honest :
    (c : Config) (a : Action) (rs : List Round) (l : Local) (polls : List Poll) (s : Sender)
    (trace : List Sent)
    → is_honest (send_rounds c a rs l polls s trace).trace ≡ true
    → is_honest trace ≡ true
unfolding send_rounds
was_honest c a [] l polls s trace h = h
was_honest c a (r ∷ rs) l polls s trace h = elim (Step-cases (send_round c a r l polls s)) [
  | inl (o, s', e) ↦ ground (arith, e)
  | inr (inl (x, o, s', e)) ↦ ground (arith, e)
  | inr (inr (x, l', polls', s', e)) ↦ ground (arith, e, was_honest c a rs l' polls' s' (x ∷ trace))
]

send_rounds_once :
    (c : Config) (a : Action) (rs : List Round) (l : Local) (polls : List Poll) (s : Sender)
    (trace : List Sent)
    → inv l.pinned l.never_connected trace ≡ true
    → is_honest (send_rounds c a rs l polls s trace).trace ≡ true
    → is_only_copy_of
        (send_rounds c a rs l polls s trace).outcome
        (send_rounds c a rs l polls s trace).trace
      ≡ true
unfolding send_rounds
send_rounds_once c a [] l polls s trace i h = refl
send_rounds_once c a (r ∷ rs) l polls s trace i h =
    let fine = send_round-is_fine c a r l polls s trace i in
    elim (Step-cases (send_round c a r l polls s)) [
      | inl (o, s', e) ↦ ground (arith, e, fine)
      | inr (inl (x, o, s', e)) ↦ ground (arith, e, fine)
      | inr (inr (x, l', polls', s', e)) ↦ ground (
        arith,
        e,
        fine,
        was_honest c a rs l' polls' s' (x ∷ trace),
        send_rounds_once c a rs l' polls' s' (x ∷ trace),
      )
    ]

-- Whatever the node answers and the reads give, as long as the node is honest: the copies that it
-- took are all of the one transaction that the outcome names, and where the send is refused,
-- or stopped by a read or for want of a slot, it took none.
pub sign_and_send_once :
    (c : Config) (a : Action) (rounds : List Round) (polls : List Poll) (s : Sender)
    → is_honest (sign_and_send c a rounds polls s).trace ≡ true
    → is_only_copy_of
        (sign_and_send c a rounds polls s).outcome
        (sign_and_send c a rounds polls s).trace
      ≡ true
unfolding sign_and_send
sign_and_send_once c a rounds polls s h = send_rounds_once c a rounds start polls s [] refl h
