-- ===== src/Examples/Claims.antt =====
-- The theorem on history rows, at a split that its request and a pass both see mined.
use agentpit.Prelude.{none, true, [], ◌∷◌, refl}
use agentpit.Prelude.Dict.{get, put}
use agentpit.Intents.{
  PendingUserTx, split, Ledger, empty_ledger, mined, on_signed, insert_pending, confirm_pending,
  reconcile, Run, done, then_step, signed, confirmed,
}
use agentpit.Intents.Once.{history-IsOnce, IsOnce}

abbrev intent : PendingUserTx
intent = record {
  api_key = 40;
  transaction_type = split;
  market_id = 1;
  amount = 5000000;
  created_at = 100;
}

abbrev signed_ledger : Ledger
signed_ledger = record empty_ledger { pending = (9, intent) ∷ [] }

run : Run empty_ledger (confirm_pending 9 5000000 signed_ledger).1
unfolding on_signed insert_pending get put
run = then_step (then_step done (signed none 9 intent refl refl)) (confirmed 9 5000000)

history-IsOnce_example :
    IsOnce (confirm_pending 9 5000000 signed_ledger).1
    × IsOnce
        (reconcile 130
          (λ h. mined true 0)
          ((9, intent) ∷ [])
          (confirm_pending 9 5000000 signed_ledger).1).1
history-IsOnce_example = history-IsOnce 130 (λ h. mined true 0) ((9, intent) ∷ []) run
