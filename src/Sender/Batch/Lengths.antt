-- ===== src/Sender/Batch/Lengths.antt =====
-- onchain/tx_sender.py: the passes of `_BatchSend` keep its items.
use agentpit.Prelude.{
  ◌≡◌, refl, ◌∙◌, ◌&&◌, List, [], ◌∷◌, any, length, inl, inr, arith, Bool-cases, Sum-cases,
}
use agentpit.Sender.{Config}
use agentpit.Sender.Batch.{BatchRound, Progress, Slot, each, kind_of}
use agentpit.Sender.Batch.Passes.{
  never_left, lose, resend_one, look_up, resend, settle_one, settle_refused, is_refused_kind,
}

pub length-each :
    (step : Slot → Progress → Slot × Progress) (xs : List Slot) (g : Progress)
    → length (each step xs g).0 ≡ length xs
unfolding each
length-each step [] g = refl
length-each step (x ∷ xs) g = ground (arith, length-each step xs (step x g).1)

pub length-resend :
    (r : BatchRound) (xs : List Slot) (g : Progress) → length (resend r xs g).0 ≡ length xs
unfolding resend
length-resend r xs g = elim (Sum-cases r.second) [
  | inr (again, got) ↦
      rw (resend, got)
        (length-each (look_up r again) (each (resend_one r again) xs g).0
            (each (resend_one r again) xs g).1
          ∙ length-each (resend_one r again) xs g)
  | inl (f, unanswered) ↦ (elim (Sum-cases r.first) [
    | inr (answers, got) ↦ rw (resend, unanswered, got) (length-each (lose r) xs g)
    | inl (whole, failed) ↦ (elim (Bool-cases (whole.before_connecting && f.before_connecting)) [
      | inl neither ↦ rw (resend, unanswered, failed, neither) (length-each (never_left whole) xs g)
      | inr some_copy ↦ rw (resend, unanswered, failed, some_copy) (length-each (lose r) xs g)
    ])
  ])
]

pub length-settle_refused :
    (c : Config) (r : BatchRound) (xs : List Slot) (g : Progress)
    → length (settle_refused c r xs g).0 ≡ length xs
unfolding settle_refused
length-settle_refused c r xs g =
    elim (Bool-cases (any (λ x. is_refused_kind (kind_of x.first)) xs)) [
      | inl some_refused ↦ rw (settle_refused, some_refused) (length-each (settle_one c r) xs _)
      | inr all_fine ↦ rw (settle_refused, all_fine) refl
    ]
