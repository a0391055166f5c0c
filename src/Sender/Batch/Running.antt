-- ===== src/Sender/Batch/Running.antt =====
-- onchain/tx_sender.py: `_one_at_a_time` and `run` of `_BatchSend`.
use agentpit.Prelude.{
  ℕ, suc, false, not, Option, none, some, List, [], ◌∷◌, map, any, length, if◌then◌else◌, inl, inr,
  is_some,
}
use agentpit.Prelude.Dict.{nat_eq}
use agentpit.Sender.{Failure, Fees, Sender, Action, Config, fee_params}
use agentpit.Sender.Send.{Outcome, read_failed, no_slot, wait_for_slot}
use agentpit.Sender.Batch.{
  BatchAnswer, BatchResult, BatchRound, Progress, Slot, each, error, unsent,
}
use agentpit.Sender.Batch.Passes.{
  go_single, is_transport, lost_error, resend, settle_refused, take_answered,
}

-- One item of `_one_at_a_time`.
unfoldable pub go_alone : Config → BatchRound → Failure → Slot → Progress → Slot × Progress
unfolding go_single
go_alone c r refusal x g = elim g.stop [
  | some e ↦ (record x { result = some e }, g)
  | none ↦ if g.gave_up then (record x { result = some (error refusal) }, g) else go_single c r x g
]

abbrev pub slots : Config → List Action → BatchAnswer → Fees → ℕ → List Slot
slots c [] answer fees nonce = []
slots c (a ∷ actions) answer fees nonce =
    let h = c.sign a fees nonce in
    record {
      action = a;
      tx_hash = h;
      nonce = nonce;
      first = elim answer [ inl f ↦ some f | inr answers ↦ answers h ];
      result = none;
      counted = false;
    }
    ∷ slots c actions answer fees (suc nonce)

abbrev pub new_progress : Sender → Progress
new_progress s = record { sender = s; stop = none; gave_up = false }

unfoldable pub resend_lost : BatchRound → List Slot × Progress → List Slot × Progress
unfolding resend
resend_lost r q = if any (λ x. is_some (lost_error x)) q.0 then resend r q.0 q.1 else q

-- The items that the node answered one by one, or whose answers were lost.
unfoldable pub settle_items : Config → BatchRound → List Slot → Sender → List Slot × Progress
unfolding each take_answered resend_lost settle_refused
settle_items c r xs s =
    let q = resend_lost r (each (take_answered r) xs (new_progress s)) in settle_refused c r q.0 q.1

-- The batch's answer: refused as a whole, or settled item by item.
unfoldable pub settle_batch : Config → BatchRound → Fees → List Slot → Sender → List Slot × Progress
unfolding each settle_items go_alone
settle_batch c r fees xs s = elim r.first [
  | inr answers ↦ settle_items c r xs s
  | inl f ↦
      if is_transport f
      then settle_items c r xs s
      else (let (xs', g) =
            each (go_alone c r f) xs (new_progress (record s { pinned_fees = some fees })) in
          (xs', record g { sender = record g.sender { pinned_fees = none } }))
]

-- `run`: the results, in order, each with the answer to its item's first copy, the error that stops the sending, and the sender.
pub record BatchRun : Type 0 where
  pub results : List (Option Failure × Option BatchResult)
  pub stop : Option BatchResult
  pub sender : Sender

abbrev pub not_sent : List Action → Outcome → Sender → BatchRun
not_sent actions o s = record {
  results = map (λ a. (none, some (unsent o))) actions;
  stop = some (unsent o);
  sender = s;
}

abbrev pub results_of : List Slot → List (Option Failure × Option BatchResult)
results_of xs = map (λ x. (x.first, x.result)) xs

-- The batch signed at fees read afresh, and its broadcast.
unfoldable pub broadcast_batch : Config → List Action → BatchRound → ℕ → Sender → BatchRun
unfolding fee_params settle_batch
broadcast_batch c actions r nonce s = elim (fee_params c r.now r.fees (record s { fees = none })) [
  | none ↦ not_sent actions read_failed (record s { fees = none })
  | some (fees, s') ↦
      let (xs, g) = settle_batch c r fees (slots c actions r.first fees nonce) s' in
      record { results = results_of xs; stop = g.stop; sender = g.sender }
]

unfoldable pub run_batch : Config → List Action → BatchRound → Sender → BatchRun
unfolding wait_for_slot broadcast_batch
run_batch c actions r s =
    let (ready, s1) = wait_for_slot c (length actions) r.slot_polls s in
    if not ready then not_sent actions no_slot s1 else elim s1.next_nonce [
      | none ↦ (elim r.pending_nonce [
        | none ↦ not_sent actions read_failed s1
        | some nonce ↦ broadcast_batch c actions r nonce (record s1 { next_nonce = some nonce })
      ])
      | some nonce ↦ broadcast_batch c actions r nonce s1
    ]
