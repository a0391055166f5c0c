-- ===== src/Sender/Poll.antt =====
-- onchain/tx_sender.py: `poll`, which collects receipts and heals a stalled nonce. What the node and
-- the clock say during one poll is an argument, `none` where a read raises.
pub mod Keeps
pub mod Healing
pub mod Drops
use agentpit.Prelude.{
  ℕ, zero, suc, ◌+◌, ◌-◌, ◌<◌, Bool, true, false, not, ◌&&◌, ◌||◌, Option, none, some, List, [],
  ◌∷◌, map, filter, any, length, is_nil, is_some, ltb, leb, ◌==◌, if◌then◌else◌,
}
use agentpit.Prelude.Dict.{get, put, nat_eq}
use agentpit.Sender.{
  Entry, Receipt, Fees, Sender, Config, is_done, new_entry, has_passed, fee_params, debit,
}

pub record Poll : Type 0 where
  pub now : ℕ
  -- Whether no other thread reaps, and whether the send lock is free or ours.
  pub may_reap : Bool
  pub may_heal : Bool
  pub receipts : Option (ℕ → Option Receipt)
  pub committed : Option ℕ
  pub used_receipt : Option (Option Receipt)
  -- The hashes in the node's queue.
  pub queued : Option (ℕ → Bool)
  pub fees : Option Fees
  -- Whether the node takes a filler on the nonce.
  pub takes_filler : ℕ → Bool

abbrev pub Table : Type 0
Table = List (ℕ × Entry)

-- Entries that are done for long are forgotten.
abbrev pub is_expired : Config → ℕ → Entry → Bool
is_expired c now e = elim e.done_at [ none ↦ false | some at ↦ ltb (at + c.forget_done_after) now ]

abbrev pub with_receipt : ℕ → Receipt → Entry → Entry
with_receipt now r e = record e { receipt = some r; done_at = some now }

abbrev pub as_dropped : ℕ → Entry → Entry
as_dropped now e = record e { dropped = true; done_at = some now }

-- The receipts of the entries that wait, each with its debit.
unfoldable pub store_receipts : ℕ → (ℕ → Option Receipt) → List (ℕ × Entry) → Sender → Sender
store_receipts now receipts [] s = s
store_receipts now receipts ((h, e) ∷ waiting) s =
    store_receipts now receipts waiting (elim (receipts h) [
      | none ↦ s
      | some r ↦ debit r e.value (record s { entries = put h (with_receipt now r e) s.entries })
    ])

-- Whether the filler that took an entry's nonce is mined or dropped.
abbrev pub is_settled : Table → Option ℕ → Bool
is_settled t none = false
is_settled t (some h) = elim (get t h) [ none ↦ false | some filler ↦ is_done filler ]

-- One pass of `while changed` over the entries that waited.
unfoldable pub drop_pass : ℕ → List ℕ → Table → Bool × Table
drop_pass now [] t = (false, t)
drop_pass now (h ∷ hs) t = elim (get t h) [
  | none ↦ drop_pass now hs t
  | some e ↦
      if not (is_done e) && is_settled t e.superseded_by
      then (true, (drop_pass now hs (put h (as_dropped now e) t)).1)
      else drop_pass now hs t
]

-- The passes until one changes nothing.
unfoldable pub drop_all : ℕ → ℕ → List ℕ → Table → Table
unfolding drop_pass
drop_all zero now hs t = t
drop_all (suc fuel) now hs t =
    let (changed, t') = drop_pass now hs t in
    let rest = drop_all fuel now hs t' in if changed then rest else t'

abbrev pub waiting_of : Sender → List (ℕ × Entry)
waiting_of s = filter (λ p. not (is_done p.1)) s.entries

abbrev pub hashes_of : List (ℕ × Entry) → List ℕ
hashes_of es = map (λ p. p.0) es

-- `_reap`: a pass drops one entry at the least, so that one pass more than there are is enough.
unfoldable pub reap : Config → Poll → Sender → Sender
unfolding store_receipts drop_all
reap c p s =
    if not p.may_reap || not (has_passed s.last_reap c.half_poll_interval p.now)
    then s
    else (let kept = record s {
      entries = filter (λ x. not (is_expired c p.now x.1)) s.entries;
      last_reap = some p.now;
    } in
        let waiting = waiting_of kept in
        elim p.receipts [
          | none ↦ kept
          | some receipts ↦
              let got = store_receipts p.now receipts waiting kept in
              record got {
                entries = drop_all (suc (length waiting)) p.now (hashes_of waiting) got.entries;
              }
        ])

-- `_settle_used_nonce`
unfoldable pub settle_used_nonce : Config → Poll → ℕ → Entry → Sender → Sender
settle_used_nonce c p h e s = elim p.used_receipt [
  | none ↦ s
  | some (some r) ↦
      debit r e.value (record s { entries = put h (with_receipt p.now r e) s.entries })
  | some none ↦ (elim e.suspect_since [
    | none ↦ record s { entries = put h (record e { suspect_since = some p.now }) s.entries }
    | some since ↦
        if ltb p.now (since + c.stall_after)
        then s
        else record s { entries = put h (as_dropped p.now e) s.entries }
  ])
]

abbrev here : ℕ → Table → Table
here nonce t = filter (λ x. x.1.nonce == nonce) t

-- Whether a nonce is a gap: nothing of ours on it is done, young or queued.
abbrev pub is_gap : Config → ℕ → (ℕ → Bool) → ℕ → Table → Bool
is_gap c now is_queued nonce t =
    not (any (λ x. is_done x.1) (here nonce t))
    && not (
        any
          (λ x.
            not (is_some x.1.superseded_by)
            && (ltb now (x.1.sent_at + c.stall_after) || is_queued x.0))
          (here nonce t))

-- The gaps from `nonce` up, before the first nonce that is none; `left` nonces are below the counter.
unfoldable pub gap_run : Config → ℕ → (ℕ → Bool) → ℕ → ℕ → Table → List ℕ
gap_run c now is_queued zero nonce t = []
gap_run c now is_queued (suc left) nonce t =
    let rest = gap_run c now is_queued left (nonce + 1) t in
    if is_gap c now is_queued nonce t then nonce ∷ rest else []

abbrev mark : ℕ → ℕ → Table → Table
mark nonce filler t =
    map
      (λ x. (
        x.0,
        if x.1.nonce == nonce && not (is_some x.1.superseded_by)
            then record x.1 { superseded_by = some filler }
            else x.1,
      ))
      t

-- `_track_filler`, and the entries that it takes the nonce of.
abbrev pub put_filler : Config → Poll → Fees → ℕ → Table → Table
put_filler c p fees nonce t =
    let h = c.sign_filler fees nonce in put h (new_entry nonce p.now 0) (mark nonce h t)

abbrev pub send_batch : ℕ
send_batch = 100

-- The fillers of a run, `left` more of them in this batch; a refusal ends the run with its batch.
unfoldable pub fill_run : Config → Poll → Fees → ℕ → Bool → List ℕ → Table → Table
fill_run c p fees left refused [] t = t
fill_run c p fees zero refused (n ∷ ns) t =
    let rest =
      fill_run c p fees (send_batch - 1) (not (p.takes_filler n)) ns
        (if p.takes_filler n then put_filler c p fees n t else t) in
    if refused then t else rest
fill_run c p fees (suc left) refused (n ∷ ns) t =
    fill_run c p fees left (refused || not (p.takes_filler n)) ns
      (if p.takes_filler n then put_filler c p fees n t else t)

-- `_fill_gaps`: at fees read afresh.
unfoldable pub fill_gaps : Config → Poll → ℕ → Sender → Sender
unfolding gap_run fill_run
fill_gaps c p committed s = elim p.queued [
  | none ↦ s
  | some is_queued ↦ (elim s.next_nonce [
    | none ↦ record s { fees = none }
    | some next ↦
        let run = gap_run c p.now is_queued (next - committed) committed s.entries in
        if is_nil run
        then record s { fees = none }
        else elim (fee_params c p.now p.fees (record s { fees = none })) [
          | none ↦ record s { fees = none }
          | some (fees, s') ↦ record s' {
            entries = fill_run c p fees send_batch false run s.entries;
          }
        ]
  ])
]

-- The entry with the lowest nonce; of equal ones the first.
unfoldable pub oldest : Table → Option (ℕ × Entry)
oldest [] = none
oldest (x ∷ t) = elim (oldest t) [
  | none ↦ some x
  | some y ↦ if ltb y.1.nonce x.1.nonce then some y else some x
]

-- `_heal_stall`
unfoldable pub heal_stall : Config → Poll → Sender → Sender
unfolding settle_used_nonce fill_gaps oldest
heal_stall c p s =
    if not (has_passed s.last_stall_check c.stall_after p.now) || not p.may_heal
    then s
    else elim (oldest
        (filter (λ x. not (is_done x.1) && not (is_some x.1.superseded_by)) s.entries)) [
          | none ↦ s
          | some (h, e) ↦
              if ltb p.now (e.sent_at + c.stall_after)
              then s
              else (let checked = record s { last_stall_check = some p.now } in
                  elim p.committed [
                    | none ↦ checked
                    | some committed ↦
                        if ltb e.nonce committed
                        then settle_used_nonce c p h e checked
                        else fill_gaps c p committed checked
                  ])
        ]

-- `poll`
unfoldable pub poll : Config → Poll → Sender → Sender
unfolding reap heal_stall
poll c p s = heal_stall c p (reap c p s)
