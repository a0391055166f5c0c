-- ===== src/Sender/Poll/Healing.antt =====
-- onchain/tx_sender.py: what the healing of a stalled nonce, and a whole poll, leave as they are.
use agentpit.Prelude.{
  ℕ, zero, suc, ◌+◌, ◌-◌, ◌≡◌, refl, ◌∙◌, Bool, true, false, not, ◌&&◌, ◌||◌, Option, none, some,
  List, [], ◌∷◌, is_nil, is_some, ltb, arith, if◌then◌else◌, Bool-cases, Option-cases, inl, inr,
  filter,
}
use agentpit.Prelude.Dict.{get, put, nat_eq, Distinct, put-Distinct}
use agentpit.Sender.{
  Entry, Receipt, Fees, Sender, Config, is_done, fee_params, debit, new_entry, has_passed,
}
use agentpit.Sender.Poll.{
  Poll, Table, with_receipt, as_dropped, reap, settle_used_nonce, put_filler, mark, gap_run,
  fill_run, fill_gaps, oldest, heal_stall, poll, send_batch,
}
use agentpit.Sender.Poll.Keeps.{IsKept, debit-entries, reap-IsKept}

-- A record of a receipt in the place of an entry.
put_receipt-IsKept :
    (now h : ℕ) (r : Receipt) (e : Entry) (s : Sender)
    → Distinct s.entries
    → IsKept s (debit r e.value (record s { entries = put h (with_receipt now r e) s.entries }))
put_receipt-IsKept now h r e s d =
    let same =
      debit-entries r e.value (record s { entries = put h (with_receipt now r e) s.entries }) in
    (same.1, rw (same.0) (put-Distinct h (with_receipt now r e) s.entries d))

settle_used_nonce-IsKept :
    (c : Config) (p : Poll) (h : ℕ) (e : Entry) (s : Sender)
    → Distinct s.entries
    → IsKept s (settle_used_nonce c p h e s)
unfolding settle_used_nonce
settle_used_nonce-IsKept c p h e s d = elim (Option-cases p.used_receipt) [
  | inl unread ↦ rw (settle_used_nonce, unread) (refl, d)
  | inr (some r, got) ↦ rw (settle_used_nonce, got) (put_receipt-IsKept p.now h r e s d)
  | inr (none, got) ↦ (elim (Option-cases e.suspect_since) [
    | inl fresh ↦
        rw (settle_used_nonce, got, fresh)
          (refl, put-Distinct h (record e { suspect_since = some p.now }) s.entries d)
    | inr (since, known) ↦ (elim (Bool-cases (ltb p.now (since + c.stall_after))) [
      | inl young ↦ rw (settle_used_nonce, got, known, young) (refl, d)
      | inr old ↦
          rw (settle_used_nonce, got, known, old)
            (refl, put-Distinct h (as_dropped p.now e) s.entries d)
    ])
  ])
]

get-mark : (nonce filler h : ℕ) (t : Table) → get t h ≡ none → get (mark nonce filler t) h ≡ none
unfolding get
get-mark nonce filler h [] absent = refl
get-mark nonce filler h ((k, e) ∷ t) absent = ground (arith, get-mark nonce filler h t)

mark-Distinct : (nonce filler : ℕ) (t : Table) → Distinct t → Distinct (mark nonce filler t)
mark-Distinct nonce filler [] d = d
mark-Distinct nonce filler ((k, e) ∷ t) d =
    (get-mark nonce filler k t (d.0), mark-Distinct nonce filler t (d.1))

put_filler-Distinct :
    (c : Config) (p : Poll) (fees : Fees) (nonce : ℕ) (t : Table)
    → Distinct t
    → Distinct (put_filler c p fees nonce t)
put_filler-Distinct c p fees nonce t d =
    put-Distinct (c.sign_filler fees nonce) (new_entry nonce p.now 0)
      (mark nonce (c.sign_filler fees nonce) t) (mark-Distinct nonce (c.sign_filler fees nonce) t d)

filled-Distinct :
    (c : Config) (p : Poll) (fees : Fees) (n : ℕ) (t : Table)
    → Distinct t
    → Distinct (if p.takes_filler n then put_filler c p fees n t else t)
filled-Distinct c p fees n t d = elim (Bool-cases (p.takes_filler n)) [
  | inl taken ↦ rw taken (put_filler-Distinct c p fees n t d)
  | inr refused ↦ rw refused d
]

fill_run-Distinct :
    (c : Config) (p : Poll) (fees : Fees) (left : ℕ) (refused : Bool) (ns : List ℕ) (t : Table)
    → Distinct t
    → Distinct (fill_run c p fees left refused ns t)
unfolding fill_run
fill_run-Distinct c p fees left refused [] t d = d
fill_run-Distinct c p fees (suc left) refused (n ∷ ns) t d =
    fill_run-Distinct c p fees left (refused || not (p.takes_filler n)) ns _
      (filled-Distinct c p fees n t d)
fill_run-Distinct c p fees zero true (n ∷ ns) t d = d
fill_run-Distinct c p fees zero false (n ∷ ns) t d =
    fill_run-Distinct c p fees (send_batch - 1) (not (p.takes_filler n)) ns _
      (filled-Distinct c p fees n t d)

-- Reading the fees changes no other field.
pub fee_params_keeps :
    (c : Config) (now : ℕ) (quoted : Option Fees) (s : Sender) (f : Fees) (s' : Sender)
    → fee_params c now quoted s ≡ some (f, s')
    → (s'.max_in_flight ≡ s.max_in_flight) × (s'.entries ≡ s.entries)
unfolding fee_params
fee_params_keeps c now quoted s f s' e = ground arith

fill_gaps-IsKept :
    (c : Config) (p : Poll) (committed : ℕ) (s : Sender)
    → Distinct s.entries
    → IsKept s (fill_gaps c p committed s)
unfolding fill_gaps
fill_gaps-IsKept c p committed s d = elim (Option-cases p.queued) [
  | inl unread ↦ rw (fill_gaps, unread) (refl, d)
  | inr (is_queued, read) ↦ (elim (Option-cases s.next_nonce) [
    | inl unknown_nonce ↦ rw (fill_gaps, read, unknown_nonce) (refl, d)
    | inr (next, known) ↦
        let run = gap_run c p.now is_queued (next - committed) committed s.entries in
        elim (Bool-cases (is_nil run)) [
          | inl empty ↦ rw (fill_gaps, read, known, empty) (refl, d)
          | inr gaps ↦ (elim (Option-cases (fee_params c p.now p.fees (record s { fees = none }))) [
            | inl unread ↦ rw (fill_gaps, read, known, gaps, unread) (refl, d)
            | inr ((fees, s'), got) ↦
                rw (fill_gaps, read, known, gaps, got)
                  (
                    (fee_params_keeps c p.now p.fees (record s { fees = none }) fees s' got).0,
                    fill_run-Distinct c p fees send_batch false run s.entries d,
                  )
          ])
        ]
  ])
]

heal_stall-IsKept :
    (c : Config) (p : Poll) (s : Sender) → Distinct s.entries → IsKept s (heal_stall c p s)
unfolding heal_stall
heal_stall-IsKept c p s d =
    elim (Bool-cases (not (has_passed s.last_stall_check c.stall_after p.now) || not p.may_heal)) [
      | inl idle ↦ rw (heal_stall, idle) (refl, d)
      | inr due ↦
          (elim (Option-cases (
            oldest
              (filter (λ x. not (is_done x.1) && not (is_some x.1.superseded_by)) s.entries))) [
                | inl nothing ↦ rw (heal_stall, due, nothing) (refl, d)
                | inr ((h, e), found) ↦ (elim (Bool-cases (ltb p.now (e.sent_at + c.stall_after))) [
                  | inl young ↦ rw (heal_stall, due, found, young) (refl, d)
                  | inr old ↦ (elim (Option-cases p.committed) [
                    | inl unread ↦ rw (heal_stall, due, found, old, unread) (refl, d)
                    | inr (committed, got) ↦ (elim (Bool-cases (ltb e.nonce committed)) [
                      | inl used ↦
                          rw (heal_stall, due, found, old, got, used)
                            (settle_used_nonce-IsKept c p h e
                              (record s { last_stall_check = some p.now }) d)
                      | inr unused ↦
                          rw (heal_stall, due, found, old, got, unused)
                            (fill_gaps-IsKept c p committed
                              (record s { last_stall_check = some p.now }) d)
                    ])
                  ])
                ])
              ])
    ]

pub poll-IsKept : (c : Config) (p : Poll) (s : Sender) → Distinct s.entries → IsKept s (poll c p s)
unfolding poll
poll-IsKept c p s d =
    let reaped = reap-IsKept c p s d in
    let healed = heal_stall-IsKept c p (reap c p s) (reaped.1) in (healed.0 ∙ reaped.0, healed.1)
