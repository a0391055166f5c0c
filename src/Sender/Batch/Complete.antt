-- ===== src/Sender/Batch/Complete.antt =====
-- onchain/tx_sender.py: a batch answers each of its items, and signs anew only what the node refused.
use agentpit.Prelude.{
  ℕ, suc, ◌≡◌, refl, ◌∙◌, Bool, true, false, not, ◌&&◌, ◌||◌, Option, none, some, List, [], ◌∷◌,
  any, length, inl, inr, is_some, arith, Bool-cases, Option-cases, Sum-cases,
}
use agentpit.Sender.{fee_params, Failure, Fees, Sender, Action, Config}
use agentpit.Sender.Send.{Outcome, read_failed, no_slot, wait_for_slot}
use agentpit.Sender.Batch.{
  BatchAnswer, BatchResult, BatchRound, Progress, Slot, each, goes_out_again, kind_of, taken, error,
  single, unsent,
}
use agentpit.Sender.Batch.Passes.{
  lost_error, take_answered, go_single, settle_one, settle_refused, is_refused_kind, is_transport,
}
use agentpit.Sender.Batch.Running.{
  go_alone, slots, new_progress, resend_lost, settle_items, settle_batch, broadcast_batch,
  run_batch, BatchRun, not_sent, results_of,
}
use agentpit.Sender.Batch.Results.{
  all_slots, all_slots-each, is_due, nothing_yet, answered, all_but_refused, everything,
  take_answered_lem, resend_lem, settle_one_lem,
}
use agentpit.Sender.Batch.Lengths.{length-each, length-resend, length-settle_refused}

-- None is lost: nothing is due from a resend.
none_lost :
    (xs : List Slot)
    → any (λ x. is_some (lost_error x)) xs ≡ false
    → all_slots (is_due answered) xs ≡ true
    → all_slots (is_due all_but_refused) xs ≡ true
none_lost [] e d = refl
none_lost (x ∷ xs) e d = ground (arith, none_lost xs)

none_refused :
    (xs : List Slot)
    → any (λ x. is_refused_kind (kind_of x.first)) xs ≡ false
    → all_slots (is_due all_but_refused) xs ≡ true
    → all_slots (is_due everything) xs ≡ true
none_refused [] e d = refl
none_refused (x ∷ xs) e d = ground (arith, none_refused xs)

settle_refused_lem :
    (c : Config) (r : BatchRound) (xs : List Slot) (g : Progress)
    → all_slots (is_due all_but_refused) xs ≡ true
    → all_slots (is_due everything) (settle_refused c r xs g).0 ≡ true
unfolding settle_refused
settle_refused_lem c r xs g e =
    elim (Bool-cases (any (λ x. is_refused_kind (kind_of x.first)) xs)) [
      | inl some_refused ↦
          rw (settle_refused, some_refused)
            (all_slots-each (settle_one c r) (is_due all_but_refused) (is_due everything)
              (settle_one_lem c r) xs _ e)
      | inr all_fine ↦ rw (settle_refused, all_fine) (none_refused xs all_fine e)
    ]

-- Whether the batch was refused as a whole.
abbrev pub refused_whole : BatchAnswer → Bool
refused_whole (inl f) = not (is_transport f)
refused_whole (inr answers) = false

-- An item's first answer and its result: there is one, and where the item was sent on its own, the node had refused it
-- before importing it, or the whole batch.
abbrev pub is_answered : Bool → Option Failure → Option BatchResult → Bool
is_answered whole first none = false
is_answered whole first (some (single o)) = goes_out_again first || whole
is_answered whole first (some (taken p)) = true
is_answered whole first (some (error f)) = true
is_answered whole first (some (unsent o)) = true

abbrev pub all_answered : Bool → List (Option Failure × Option BatchResult) → Bool
all_answered whole [] = true
all_answered whole (x ∷ xs) = is_answered whole x.0 x.1 && all_answered whole xs

settled_answered :
    (xs : List Slot)
    → all_slots (is_due everything) xs ≡ true
    → all_answered false (results_of xs) ≡ true
settled_answered [] e = refl
settled_answered (x ∷ xs) e = ground (arith, settled_answered xs)

-- Sent one at a time, each has a result.
go_alone_answered :
    (c : Config) (r : BatchRound) (f : Failure) (xs : List Slot) (g : Progress)
    → all_answered true (results_of (each (go_alone c r f) xs g).0) ≡ true
unfolding each go_alone go_single
go_alone_answered c r f [] g = refl
go_alone_answered c r f (x ∷ xs) g =
    ground (arith, go_alone_answered c r f xs (go_alone c r f x g).1)

slots_due :
    (c : Config) (actions : List Action) (answer : BatchAnswer) (fees : Fees) (nonce : ℕ)
    → (all_slots (is_due nothing_yet) (slots c actions answer fees nonce) ≡ true)
      × (length (slots c actions answer fees nonce) ≡ length actions)
slots_due c [] answer fees nonce = (refl, refl)
slots_due c (a ∷ actions) answer fees nonce =
    let rest = slots_due c actions answer fees (suc nonce) in ground (arith, rest)

resend_lost_lem :
    (r : BatchRound) (q : List Slot × Progress)
    → all_slots (is_due answered) q.0 ≡ true
    → (all_slots (is_due all_but_refused) (resend_lost r q).0 ≡ true)
      × (length (resend_lost r q).0 ≡ length q.0)
unfolding resend_lost
resend_lost_lem r (xs, g) due = elim (Bool-cases (any (λ x. is_some (lost_error x)) xs)) [
  | inl some_lost ↦ rw (resend_lost, some_lost) (resend_lem r xs g due, length-resend r xs g)
  | inr all_known ↦ rw (resend_lost, all_known) (none_lost xs all_known due, refl)
]

settle_items_lem :
    (c : Config) (r : BatchRound) (xs : List Slot) (s : Sender)
    → all_slots (is_due nothing_yet) xs ≡ true
    → (all_slots (is_due everything) (settle_items c r xs s).0 ≡ true)
      × (length (settle_items c r xs s).0 ≡ length xs)
unfolding settle_items
settle_items_lem c r xs s e =
    let first = each (take_answered r) xs (new_progress s) in
    let due =
      all_slots-each (take_answered r) (is_due nothing_yet) (is_due answered) (take_answered_lem r)
        xs (new_progress s) e in
    let lost = resend_lost_lem r first due in
    let q = resend_lost r first in
    (
      settle_refused_lem c r q.0 q.1 (lost.0),
      length-settle_refused c r q.0 q.1
          ∙ (lost.1 ∙ length-each (take_answered r) xs (new_progress s)),
    )

settle_batch_lem :
    (c : Config) (r : BatchRound) (fees : Fees) (xs : List Slot) (s : Sender)
    → all_slots (is_due nothing_yet) xs ≡ true
    → (all_answered (refused_whole r.first) (results_of (settle_batch c r fees xs s).0) ≡ true)
      × (length (settle_batch c r fees xs s).0 ≡ length xs)
unfolding settle_batch
settle_batch_lem c r fees xs s e =
    let items = settle_items_lem c r xs s e in
    let settled = settled_answered (settle_items c r xs s).0 (items.0) in
    elim (Sum-cases r.first) [
      | inr (answers, got) ↦ rw (settle_batch, got) (settled, items.1)
      | inl (f, got) ↦ (elim (Bool-cases (is_transport f)) [
        | inl lost ↦ rw (settle_batch, got, lost) (settled, items.1)
        | inr whole ↦
            let alone = new_progress (record s { pinned_fees = some fees }) in
            rw (settle_batch, got, whole)
              (go_alone_answered c r f xs alone, length-each (go_alone c r f) xs alone)
      ])
    ]

not_sent_answered :
    (whole : Bool) (actions : List Action) (o : Outcome) (s : Sender)
    → (all_answered whole (not_sent actions o s).results ≡ true)
      × (length (not_sent actions o s).results ≡ length actions)
not_sent_answered whole [] o s = (refl, refl)
not_sent_answered whole (a ∷ actions) o s =
    let rest = not_sent_answered whole actions o s in ground (arith, rest)

length-results : (xs : List Slot) → length (results_of xs) ≡ length xs
length-results [] = refl
length-results (x ∷ xs) = ground (arith, length-results xs)

-- Each item has its answer.
abbrev pub IsAnswered : List Action → BatchRound → BatchRun → Type 0
IsAnswered actions r run =
    (all_answered (refused_whole r.first) run.results ≡ true)
    × (length run.results ≡ length actions)

broadcast_batch_lem :
    (c : Config) (actions : List Action) (r : BatchRound) (nonce : ℕ) (s : Sender)
    → IsAnswered actions r (broadcast_batch c actions r nonce s)
unfolding broadcast_batch
broadcast_batch_lem c actions r nonce s =
    elim (Option-cases (fee_params c r.now r.fees (record s { fees = none }))) [
      | inl unread ↦
          rw (broadcast_batch, unread)
            (not_sent_answered (refused_whole r.first) actions read_failed
              (record s { fees = none }))
      | inr ((fees, s'), got) ↦
          let due = slots_due c actions r.first fees nonce in
          let done = settle_batch_lem c r fees (slots c actions r.first fees nonce) s' (due.0) in
          rw (broadcast_batch, got)
            (
              done.0,
              length-results (settle_batch c r fees (slots c actions r.first fees nonce) s').0
                  ∙ (done.1 ∙ due.1),
            )
    ]

-- A batch has one result for each of its items. An item is signed again on its own only where the
-- node refused its first copy before importing it, or refused the batch as a whole.
pub run_batch-IsAnswered :
    (c : Config) (actions : List Action) (r : BatchRound) (s : Sender)
    → IsAnswered actions r (run_batch c actions r s)
unfolding run_batch
run_batch-IsAnswered c actions r s =
    let waited = wait_for_slot c (length actions) r.slot_polls s in
    let whole = refused_whole r.first in
    elim (Bool-cases (not (waited.0))) [
      | inl full ↦ rw (run_batch, full) (not_sent_answered whole actions no_slot (waited.1))
      | inr free ↦ (elim (Option-cases (waited.1.next_nonce)) [
        | inr (nonce, known) ↦
            rw (run_batch, free, known) (broadcast_batch_lem c actions r nonce (waited.1))
        | inl unread ↦ (elim (Option-cases r.pending_nonce) [
          | inl failed ↦
              rw (run_batch, free, unread, failed)
                (not_sent_answered whole actions read_failed (waited.1))
          | inr (nonce, got) ↦
              rw (run_batch, free, unread, got)
                (broadcast_batch_lem c actions r nonce
                  (record waited.1 { next_nonce = some nonce }))
        ])
      ])
    ]
