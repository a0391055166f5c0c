-- ===== src/Sender/Send/Ends.antt =====
-- onchain/tx_sender.py: `_sign_and_send` comes to an end, within a number of rounds known beforehand.
pub mod Waits
use agentpit.Prelude.{
  ℕ, zero, suc, ◌+◌, ◌-◌, ◌*◌, ◌≤◌, ◌<◌, ◌≡◌, refl, sym, ◌∙◌, Bool, true, false, not, ◌&&◌, ◌||◌,
  Option, none, some, List, [], ◌∷◌, ltb, leb, arith, if◌then◌else◌, Bool-cases, Option-cases, inl,
  inr, length, is_some, is_nil,
}
use mathlib.Core.Path.{subst}
use agentpit.Prelude.Dict.{nat_eq, Distinct}
use agentpit.Sender.{
  SendError, duplicate, nonce_taken, nonce_invalid, fee_low, queue_full, balance_low, transport,
  other_error, Failure, Fees, Sender, Action, Config, in_flight_count, any_in_flight, fee_params,
}
use agentpit.Sender.Poll.{Poll}
use agentpit.Sender.Poll.Keeps.{IsKept}
use agentpit.Sender.Poll.Healing.{fee_params_keeps}
use agentpit.Sender.Send.{
  Round, Sent, Pinned, Local, start, Next, stop, again, Step, unsent, sent, after_first,
  after_resend, send_fresh, send_again, send_round, send_rounds, sign_and_send, next_nonce_of,
  signing_fees, wait_for_slot, wait_until_done, below,
}
use agentpit.Sender.Send.Once.{Step-cases}
use agentpit.Sender.Send.Ends.Waits.{serial_slot, wait_below_lem}

abbrev one_if : Bool → ℕ
one_if b = if b then 1 else 0

-- What the refusals that are worth another round, and the polls, have left.
abbrev budget : Config → Local → List Poll → Sender → ℕ
budget c l polls s =
    2 * (c.max_skips - l.skips)
    + one_if (not l.resynced)
    + one_if (not l.fee_refreshed)
    + one_if (ltb 0 (in_flight_count s))
    + length polls

-- More than the rounds that are still to come.
abbrev weight : Config → Local → List Poll → Sender → ℕ
weight c l polls s = elim l.pinned [
  | none ↦ budget c l polls s + 2
  | some p ↦ if l.waited then length polls + 1 else budget c l polls s + 1
]

abbrev IsLighter : Config → ℕ → Next → Type 0
IsLighter c w (stop o s) = Unit
IsLighter c w (again l polls s) = Distinct s.entries × (weight c l polls s < w)

module _ (c : Config) (a : Action) (r : Round) (polls : List Poll) (s : Sender)
    (d : Distinct s.entries) where
  after_first-IsLighter :
      (l : Local) (h nonce : ℕ) (f : Failure) (k : SendError)
      → l.pinned ≡ none
      → IsLighter c (weight c l polls s) (after_first c a r l polls h nonce s f k)
  unfolding after_first
  after_first-IsLighter l h nonce f transport p = ground (arith, d)
  after_first-IsLighter l h nonce f duplicate p = tt
  after_first-IsLighter l h nonce f nonce_taken p = ground (arith, d)
  after_first-IsLighter l h nonce f nonce_invalid p =
      ground (arith, d, serial_slot c r.slot_polls s d)
  after_first-IsLighter l h nonce f fee_low p = ground (arith, d)
  after_first-IsLighter l h nonce f queue_full p = tt
  after_first-IsLighter l h nonce f balance_low p = tt
  after_first-IsLighter l h nonce f other_error p = tt

  after_resend-IsLighter :
      (l : Local) (p : Pinned) (k : SendError)
      → l.pinned ≡ some p
      → IsLighter c (weight c l polls s) (after_resend c a r l polls p s k)
  unfolding after_resend
  after_resend-IsLighter l p duplicate e = tt
  after_resend-IsLighter l p nonce_taken e = ground (arith, d)
  after_resend-IsLighter l p nonce_invalid e = ground (arith, d, wait_below_lem c p.nonce polls s d)
  after_resend-IsLighter l p transport e = ground arith
  after_resend-IsLighter l p fee_low e = ground arith
  after_resend-IsLighter l p queue_full e = ground arith
  after_resend-IsLighter l p balance_low e = ground arith
  after_resend-IsLighter l p other_error e = ground arith

-- A round's broadcast ends the send or leaves it less to do.
abbrev IsLighterStep : Config → ℕ → Step → Type 0
IsLighterStep c w (unsent o s) = Unit
IsLighterStep c w (sent x n) = IsLighter c w n

signing_fees_keeps :
    (c : Config) (r : Round) (s : Sender) (f : Fees) (s' : Sender)
    → signing_fees c r s ≡ some (f, s')
    → s'.entries ≡ s.entries
signing_fees_keeps c r s f s' e = elim (Option-cases s.pinned_fees) [
  | inl current ↦ (fee_params_keeps c r.now r.fees s f s' (ground (arith, current))).1
  | inr (g, own) ↦ ground (arith, own)
]

module _ (c : Config) (a : Action) (r : Round) (polls : List Poll) (s : Sender)
    (d : Distinct s.entries) where
  send_fresh-IsLighter :
      (l : Local)
      → l.pinned ≡ none
      → IsLighterStep c (weight c l polls s) (send_fresh c a r l polls s)
  unfolding send_fresh
  send_fresh-IsLighter l e = elim (Option-cases (next_nonce_of r s)) [
    | inl unread ↦ rw (send_fresh, unread) tt
    | inr (nonce, known) ↦
        (elim (Option-cases (signing_fees c r (record s { next_nonce = some nonce }))) [
          | inl unread ↦ rw (send_fresh, known, unread) tt
          | inr ((fees, s'), priced) ↦
              let same =
                signing_fees_keeps c r (record s { next_nonce = some nonce }) fees s' priced in
              let d' : Distinct s'.entries = rw same d in
              let same_weight : weight c l polls s' ≡ weight c l polls s = rw same refl in
              elim (Option-cases r.answer) [
                | inl taken ↦ rw (send_fresh, known, priced, taken) tt
                | inr (f, failed) ↦
                    rw (send_fresh, known, priced, failed, sym same_weight)
                      (after_first-IsLighter c a r polls s' d' l (c.sign a fees nonce) nonce f
                        f.kind e)
              ]
        ])
  ]

  send_again-IsLighter :
      (l : Local) (p : Pinned)
      → l.pinned ≡ some p
      → IsLighterStep c (weight c l polls s) (send_again c a r l polls p s)
  unfolding send_again
  send_again-IsLighter l p e = elim (Option-cases r.answer) [
    | inl taken ↦ rw (send_again, taken) tt
    | inr (f, failed) ↦
        rw (send_again, failed)
          (after_resend-IsLighter c a r polls s d
            (record l { never_connected = l.never_connected && f.before_connecting }) p f.kind e)
  ]

  send_pinned-IsLighter :
      (l : Local) (o : Option Pinned)
      → l.pinned ≡ o
      → IsLighterStep c
          (weight c l polls s)
          (elim o [ none ↦ send_fresh c a r l polls s | some p ↦ send_again c a r l polls p s ])
  send_pinned-IsLighter l none e = send_fresh-IsLighter l e
  send_pinned-IsLighter l (some p) e = send_again-IsLighter l p e

  send_round-IsLighter :
      (l : Local) → IsLighterStep c (weight c l polls s) (send_round c a r l polls s)
  unfolding send_round
  send_round-IsLighter l = send_pinned-IsLighter l l.pinned refl

weight_pos : (c : Config) (l : Local) (polls : List Poll) (s : Sender) → 0 < weight c l polls s
weight_pos c l polls s = ground arith

send_rounds_ends :
    (c : Config) (a : Action) (rs : List Round) (l : Local) (polls : List Poll) (s : Sender)
    (trace : List Sent)
    → Distinct s.entries
    → weight c l polls s ≤ length rs
    → is_some (send_rounds c a rs l polls s trace).outcome ≡ true
unfolding send_rounds
send_rounds_ends c a [] l polls s trace d enough = ground (arith, weight_pos c l polls s, enough)
send_rounds_ends c a (r ∷ rs) l polls s trace d enough =
    elim (Step-cases (send_round c a r l polls s)) [
      | inl (o, s', e) ↦ rw (send_rounds, e) refl
      | inr (inl (x, o, s', e)) ↦ rw (send_rounds, e) refl
      | inr (inr (x, l', polls', s', e)) ↦
          let lighter : IsLighterStep c (weight c l polls s) (sent x (again l' polls' s')) =
            subst (λ t. IsLighterStep c (weight c l polls s) t) e
              (send_round-IsLighter c a r polls s d l) in
          rw (send_rounds, e)
            (send_rounds_ends c a rs l' polls' s' (x ∷ trace) (lighter.0)
              (omega (arith, lighter.1, enough)))
    ]

-- A send by a sender that has no hash twice among its entries comes to an outcome, whatever the
-- node answers: twice the nonces it may skip and five rounds more, and one for each poll before the
-- deadline of its waits for lower nonces, are enough.
pub sign_and_send_ends :
    (c : Config) (a : Action) (rounds : List Round) (polls : List Poll) (s : Sender)
    → Distinct s.entries
    → 2 * c.max_skips + 5 + length polls ≤ length rounds
    → is_some (sign_and_send c a rounds polls s).outcome ≡ true
unfolding sign_and_send
sign_and_send_ends c a rounds polls s d enough =
    send_rounds_ends c a rounds start polls s [] d (ground arith)
