-- ===== src/Sender/Poll/Keeps.antt =====
-- onchain/tx_sender.py: what a poll leaves as it is.
use agentpit.Prelude.{
  ℕ, zero, suc, ◌≡◌, refl, ◌∙◌, not, ◌&&◌, ◌||◌, Option, some, List, [], ◌∷◌, arith, Bool-cases,
  Option-cases, inl, inr, filter, length,
}
use agentpit.Prelude.Dict.{get, put, nat_eq, Distinct, put-Distinct, filter-Distinct}
use agentpit.Sender.{Receipt, Sender, Config, is_done, debit, has_passed}
use agentpit.Sender.Poll.{
  Poll, Table, is_settled, with_receipt, as_dropped, store_receipts, drop_pass, drop_all,
  waiting_of, hashes_of, reap, is_expired,
}

-- The dictionary of entries has no hash twice, and the limit is as before.
abbrev pub IsKept : Sender → Sender → Type 0
IsKept s s' = (s'.max_in_flight ≡ s.max_in_flight) × Distinct s'.entries

pub debit-entries :
    (r : Receipt) (value : ℕ) (s : Sender)
    → ((debit r value s).entries ≡ s.entries) × ((debit r value s).max_in_flight ≡ s.max_in_flight)
unfolding debit
debit-entries r value s = ground arith

store_receipts-IsKept :
    (now : ℕ) (receipts : ℕ → Option Receipt) (waiting : Table) (s : Sender)
    → Distinct s.entries
    → IsKept s (store_receipts now receipts waiting s)
unfolding store_receipts
store_receipts-IsKept now receipts [] s d = (refl, d)
store_receipts-IsKept now receipts ((h, e) ∷ waiting) s d = elim (Option-cases (receipts h)) [
  | inl no_receipt ↦
      rw (store_receipts, no_receipt) (store_receipts-IsKept now receipts waiting s d)
  | inr (r, got) ↦
      let put_s = record s { entries = put h (with_receipt now r e) s.entries } in
      let same = debit-entries r e.value put_s in
      let d' : Distinct (debit r e.value put_s).entries =
        rw (same.0) (put-Distinct h (with_receipt now r e) s.entries d) in
      let rest = store_receipts-IsKept now receipts waiting (debit r e.value put_s) d' in
      rw (store_receipts, got) (rest.0 ∙ same.1, rest.1)
]

drop_pass-Distinct :
    (now : ℕ) (hs : List ℕ) (t : Table) → Distinct t → Distinct (drop_pass now hs t).1
unfolding drop_pass
drop_pass-Distinct now [] t d = d
drop_pass-Distinct now (h ∷ hs) t d = elim (Option-cases (get t h)) [
  | inl absent ↦ rw (drop_pass, absent) (drop_pass-Distinct now hs t d)
  | inr (e, there) ↦ (elim (Bool-cases (not (is_done e) && is_settled t e.superseded_by)) [
    | inl drops ↦
        rw (drop_pass, there, drops)
          (drop_pass-Distinct now hs (put h (as_dropped now e) t)
            (put-Distinct h (as_dropped now e) t d))
    | inr stays ↦ rw (drop_pass, there, stays) (drop_pass-Distinct now hs t d)
  ])
]

drop_all-Distinct :
    (fuel now : ℕ) (hs : List ℕ) (t : Table) → Distinct t → Distinct (drop_all fuel now hs t)
unfolding drop_all
drop_all-Distinct zero now hs t d = d
drop_all-Distinct (suc fuel) now hs t d = elim (Bool-cases (drop_pass now hs t).0) [
  | inl changed ↦
      rw changed
        (drop_all-Distinct fuel now hs (drop_pass now hs t).1 (drop_pass-Distinct now hs t d))
  | inr done ↦ rw done (drop_pass-Distinct now hs t d)
]

pub reap-IsKept : (c : Config) (p : Poll) (s : Sender) → Distinct s.entries → IsKept s (reap c p s)
unfolding reap
reap-IsKept c p s d =
    elim (Bool-cases (not p.may_reap || not (has_passed s.last_reap c.half_poll_interval p.now))) [
      | inl idle ↦ rw idle (refl, d)
      | inr busy ↦
          let kept_d = filter-Distinct (λ x. not (is_expired c p.now x.1)) s.entries d in
          elim (Option-cases p.receipts) [
            | inl failed ↦ rw (busy, reap, failed) (refl, kept_d)
            | inr (receipts, got) ↦
                let kept = record s {
                  entries = filter (λ x. not (is_expired c p.now x.1)) s.entries;
                  last_reap = some p.now;
                } in
                let stored = store_receipts-IsKept p.now receipts (waiting_of kept) kept kept_d in
                rw (busy, reap, got)
                  (
                    stored.0,
                    drop_all-Distinct (suc (length (waiting_of kept))) p.now
                        (hashes_of (waiting_of kept)) _ stored.1,
                  )
          ]
    ]
