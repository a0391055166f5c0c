-- ===== src/Sender/Batch/Results.antt =====
-- onchain/tx_sender.py: what `_BatchSend` answers.
use agentpit.Prelude.{
  ℕ, ◌≡◌, refl, Bool, true, false, not, ◌&&◌, Option, none, some, List, [], ◌∷◌, if◌then◌else◌, inl,
  inr, is_some, arith, Bool-cases, Sum-cases,
}
use agentpit.Sender.{Failure, Config}
use agentpit.Sender.Batch.{
  BatchRound, Kind, Progress, Slot, each, goes_out_again, kind_of, single, is_in, is_refused,
}
use agentpit.Sender.Batch.Passes.{
  go_single, look_up, lose, lost_error, needs_lookup, never_left, resend, resend_one, settle_one,
  take_answered,
}

-- Every item satisfies `p`.
abbrev pub all_slots : (Slot → Bool) → List Slot → Bool
all_slots p [] = true
all_slots p (x ∷ xs) = p x && all_slots p xs

pub all_slots-each :
    (step : Slot → Progress → Slot × Progress) (p q : Slot → Bool)
    → ((x : Slot) (g : Progress) → p x ≡ true → q (step x g).0 ≡ true)
    → (xs : List Slot) (g : Progress) → all_slots p xs ≡ true
    → all_slots q (each step xs g).0 ≡ true
unfolding each
all_slots-each step p q h [] g e = refl
all_slots-each step p q h (x ∷ xs) g e =
    ground (arith, h x g, all_slots-each step p q h xs (step x g).1)

-- An item of the kinds that are dealt with has a result, one of the others has none yet; it is sent on
-- its own only after a refusal that says that the node did not take it.
abbrev pub is_due : (Kind → Bool) → Slot → Bool
is_due dealt x = elim x.result [
  | none ↦ not (dealt (kind_of x.first))
  | some (single o) ↦ dealt (kind_of x.first) && goes_out_again x.first
  | some _ ↦ dealt (kind_of x.first)
]

abbrev pub nothing_yet : Kind → Bool
nothing_yet k = false

abbrev pub answered : Kind → Bool
answered is_in = true
answered _ = false

abbrev pub all_but_refused : Kind → Bool
all_but_refused is_refused = false
all_but_refused _ = true

abbrev pub everything : Kind → Bool
everything k = true

pub take_answered_lem :
    (r : BatchRound) (x : Slot) (g : Progress)
    → is_due nothing_yet x ≡ true
    → is_due answered (take_answered r x g).0 ≡ true
unfolding take_answered
take_answered_lem r x g e = ground arith

lose_lem :
    (r : BatchRound) (x : Slot) (g : Progress)
    → is_due answered x ≡ true
    → is_due all_but_refused (lose r x g).0 ≡ true
unfolding lose
lose_lem r x g e = ground arith

never_left_lem :
    (f : Failure) (x : Slot) (g : Progress)
    → is_due answered x ≡ true
    → is_due all_but_refused (never_left f x g).0 ≡ true
unfolding never_left
never_left_lem f x g e = ground arith

-- Between the two passes of a resend an item that is to be looked up has no result.
abbrev is_due_but : (ℕ → Option Failure) → Slot → Bool
is_due_but again x =
    if is_some (lost_error x) && needs_lookup (again x.tx_hash)
    then not (is_some x.result)
    else is_due all_but_refused x

resend_one_lem :
    (r : BatchRound) (again : ℕ → Option Failure) (x : Slot) (g : Progress)
    → is_due answered x ≡ true
    → is_due_but again (resend_one r again x g).0 ≡ true
unfolding resend_one
resend_one_lem r again x g e = ground arith

look_up_lem :
    (r : BatchRound) (again : ℕ → Option Failure) (x : Slot) (g : Progress)
    → is_due_but again x ≡ true
    → is_due all_but_refused (look_up r again x g).0 ≡ true
unfolding look_up
look_up_lem r again x g e = ground arith

pub resend_lem :
    (r : BatchRound) (xs : List Slot) (g : Progress)
    → all_slots (is_due answered) xs ≡ true
    → all_slots (is_due all_but_refused) (resend r xs g).0 ≡ true
unfolding resend
resend_lem r xs g e =
    let lost =
      all_slots-each (lose r) (is_due answered) (is_due all_but_refused) (lose_lem r) xs g e in
    elim (Sum-cases r.second) [
      | inr (again, got) ↦
          rw (resend, got)
            (all_slots-each (look_up r again) (is_due_but again) (is_due all_but_refused)
              (look_up_lem r again) (each (resend_one r again) xs g).0
              (each (resend_one r again) xs g).1
              (all_slots-each (resend_one r again) (is_due answered) (is_due_but again)
                (resend_one_lem r again) xs g e))
      | inl (f, unanswered) ↦ (elim (Sum-cases r.first) [
        | inr (answers, got) ↦ rw (resend, unanswered, got) lost
        | inl (whole, failed) ↦
            (elim (Bool-cases (whole.before_connecting && f.before_connecting)) [
              | inl neither ↦
                  rw (resend, unanswered, failed, neither)
                    (all_slots-each (never_left whole) (is_due answered) (is_due all_but_refused)
                      (never_left_lem whole) xs g e)
              | inr some_copy ↦ rw (resend, unanswered, failed, some_copy) lost
            ])
      ])
    ]

pub settle_one_lem :
    (c : Config) (r : BatchRound) (x : Slot) (g : Progress)
    → is_due all_but_refused x ≡ true
    → is_due everything (settle_one c r x g).0 ≡ true
unfolding settle_one go_single
settle_one_lem c r x g e = ground arith
