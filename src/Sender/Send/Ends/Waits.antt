-- ===== src/Sender/Send/Ends/Waits.antt =====
-- onchain/tx_sender.py: what the waits of `_sign_and_send` come to.
use agentpit.Prelude.{
  ℕ, ◌+◌, ◌≤◌, ◌<◌, ◌≡◌, refl, ◌∙◌, true, false, not, ◌&&◌, none, List, [], ◌∷◌, ltb, leb, ==_iff,
  arith, Bool-cases, inl, inr, length, is_nil, any, filter,
}
use agentpit.Prelude.Dict.{get, nat_eq, Distinct}
use agentpit.Sender.{Entry, Sender, Config, is_done, in_flight_count, any_in_flight, is_live}
use agentpit.Sender.Poll.{Poll, poll, hashes_of}
use agentpit.Sender.Poll.Keeps.{IsKept}
use agentpit.Sender.Poll.Healing.{poll-IsKept}
use agentpit.Sender.Send.{wait_for_slot, wait_until_done, below}

wait_for_slot-IsKept :
    (c : Config) (need : ℕ) (ps : List Poll) (s : Sender)
    → Distinct s.entries
    → IsKept s (wait_for_slot c need ps s).1
unfolding wait_for_slot
wait_for_slot-IsKept c need [] s d = (refl, d)
wait_for_slot-IsKept c need (p ∷ ps) s d =
    elim (Bool-cases (leb (in_flight_count s + need) s.max_in_flight)) [
      | inl free ↦ rw (wait_for_slot, free) (refl, d)
      | inr full ↦
          let polled = poll-IsKept c p s d in
          let rest = wait_for_slot-IsKept c need ps (poll c p s) (polled.1) in
          rw (wait_for_slot, full) (rest.0 ∙ polled.0, rest.1)
    ]

wait_for_slot_lem :
    (c : Config) (need : ℕ) (ps : List Poll) (s : Sender)
    → (wait_for_slot c need ps s).0 ≡ true
    → in_flight_count (wait_for_slot c need ps s).1 + need
      ≤ (wait_for_slot c need ps s).1.max_in_flight
unfolding wait_for_slot
wait_for_slot_lem c need [] s e = ground arith
wait_for_slot_lem c need (p ∷ ps) s e =
    elim (Bool-cases (leb (in_flight_count s + need) s.max_in_flight)) [
      | inl free ↦ ground (arith, free)
      | inr full ↦ ground (arith, full, wait_for_slot_lem c need ps (poll c p s))
    ]

-- One transaction at a time: a slot is free when nothing is in flight.
pub serial_slot :
    (c : Config) (ps : List Poll) (s : Sender)
    → Distinct s.entries
    → (wait_for_slot c 1 ps (record s { max_in_flight = 1 })).0 ≡ true
    → Distinct (wait_for_slot c 1 ps (record s { max_in_flight = 1 })).1.entries
      × (in_flight_count (wait_for_slot c 1 ps (record s { max_in_flight = 1 })).1 ≡ 0)
serial_slot c ps s d e =
    let kept = wait_for_slot-IsKept c 1 ps (record s { max_in_flight = 1 }) d in
    let free = wait_for_slot_lem c 1 ps (record s { max_in_flight = 1 }) e in
    (kept.1, omega (arith, kept.0, free))

wait_until_done-IsKept :
    (c : Config) (hs : List ℕ) (ps : List Poll) (s : Sender)
    → Distinct s.entries
    → IsKept s (wait_until_done c hs ps s).1
unfolding wait_until_done
wait_until_done-IsKept c hs [] s d = (refl, d)
wait_until_done-IsKept c hs (p ∷ ps) s d = elim (Bool-cases (any_in_flight hs s)) [
  | inl live ↦
      let polled = poll-IsKept c p s d in
      let rest = wait_until_done-IsKept c hs ps (poll c p s) (polled.1) in
      rw (wait_until_done, live) (rest.0 ∙ polled.0, rest.1)
  | inr done ↦ rw (wait_until_done, done) (refl, d)
]

length-wait_until_done :
    (c : Config) (hs : List ℕ) (ps : List Poll) (s : Sender)
    → length (wait_until_done c hs ps s).0 ≤ length ps
unfolding wait_until_done
length-wait_until_done c hs [] s = ground arith
length-wait_until_done c hs (p ∷ ps) s = elim (Bool-cases (any_in_flight hs s)) [
  | inl live ↦ ground (arith, live, length-wait_until_done c hs ps (poll c p s))
  | inr done ↦ ground (arith, done)
]

-- What was in flight and is so no more took a poll.
wait_until_done_lem :
    (c : Config) (hs : List ℕ) (ps : List Poll) (s : Sender)
    → any_in_flight hs s ≡ true
    → any_in_flight hs (wait_until_done c hs ps s).1 ≡ false
    → length (wait_until_done c hs ps s).0 < length ps
unfolding wait_until_done
wait_until_done_lem c hs [] s live done = ground (arith, live)
wait_until_done_lem c hs (p ∷ ps) s live done =
    ground (arith, live, length-wait_until_done c hs ps (poll c p s))

-- A live entry of the table stands among those of a lower nonce.
abbrev below_of : ℕ → List (ℕ × Entry) → List ℕ
below_of nonce es = hashes_of (filter (λ x. not (is_done x.1) && ltb x.1.nonce nonce) es)

is_live_later :
    (k : ℕ) (e : Entry) (es : List (ℕ × Entry)) (hs : List ℕ)
    → get es k ≡ none
    → any (is_live es) hs ≡ true
    → any (is_live ((k, e) ∷ es)) hs ≡ true
unfolding get
is_live_later k e es [] absent live = ground arith
is_live_later k e es (h ∷ hs) absent live =
    ground (arith, ==_iff k h, is_live_later k e es hs absent)

below_is_live :
    (nonce : ℕ) (es : List (ℕ × Entry))
    → Distinct es
    → is_nil (below_of nonce es) ≡ false
    → any (is_live es) (below_of nonce es) ≡ true
unfolding get
below_is_live nonce [] d some_below = ground arith
below_is_live nonce ((k, e) ∷ es) d some_below =
    elim (Bool-cases (not (is_done e) && ltb e.nonce nonce)) [
      | inl is_below ↦ ground (arith, is_below, ==_iff k k)
      | inr above ↦ ground (
        arith,
        above,
        below_is_live nonce es (d.1),
        is_live_later k e es (below_of nonce es) (d.0),
      )
    ]

-- A wait for transactions on lower nonces that are done in the end took a poll.
pub wait_below_lem :
    (c : Config) (nonce : ℕ) (ps : List Poll) (s : Sender)
    → Distinct s.entries
    → is_nil (below nonce s) ≡ false
    → any_in_flight (below nonce s) (wait_until_done c (below nonce s) ps s).1 ≡ false
    → Distinct (wait_until_done c (below nonce s) ps s).1.entries
      × (length (wait_until_done c (below nonce s) ps s).0 < length ps)
wait_below_lem c nonce ps s d some_below done = (
  (wait_until_done-IsKept c (below nonce s) ps s d).1,
  wait_until_done_lem c (below nonce s) ps s (below_is_live nonce s.entries d some_below) done,
)
