-- ===== src/Intents/Once.antt =====
-- services/pending_user_txs.py: each transaction has at most one history row.
use agentpit.Prelude.{
  ℕ, ◌+◌, ◌≡◌, refl, false, not, ◌&&◌, ◌||◌, none, some, List, [], ◌∷◌, leb, ◌==◌, ==_iff,
  if◌then◌else◌, arith, All, is_some, Bool-cases, Option-cases, inl, inr,
}
use mathlib.Core.Path.{subst}
use agentpit.Prelude.Dict.{get, put, remove, get-put, get-remove, nat_eq}
use agentpit.Intents.{
  PendingUserTx, HistoryRow, Ledger, empty_ledger, insert_pending, delete_pending, confirm_pending,
  on_signed, Lookup, raised, no_receipt, mined, settle, settle_as, reconcile, is_redeem,
  pending_ttl, has_row, Step, signed, forgotten, confirmed, settled, Run, done, then_step,
}

-- No transaction has two history rows.
abbrev pub OnceIn : List HistoryRow → Type 0
OnceIn [] = Unit
OnceIn (r ∷ rs) = (has_row r.tx_hash rs ≡ false) × OnceIn rs

-- None of the history is pending.
abbrev pub IsSettled : List (ℕ × PendingUserTx) → List HistoryRow → Type 0
IsSettled pending history = All (λ r. get pending r.tx_hash ≡ none) history

abbrev pub IsOnce : Ledger → Type 0
IsOnce l = OnceIn l.history × IsSettled l.pending l.history

remove-IsSettled :
    (h : ℕ) (pending : List (ℕ × PendingUserTx)) (history : List HistoryRow)
    → IsSettled pending history
    → IsSettled (remove h pending) history
remove-IsSettled h pending [] s = tt
remove-IsSettled h pending (r ∷ rs) (s, ss) =
    (ground (arith, get-remove h r.tx_hash pending), remove-IsSettled h pending rs ss)

put-IsSettled :
    (h : ℕ) (row : PendingUserTx) (pending : List (ℕ × PendingUserTx)) (history : List HistoryRow)
    → has_row h history ≡ false
    → IsSettled pending history
    → IsSettled (put h row pending) history
put-IsSettled h row pending [] n s = tt
put-IsSettled h row pending (r ∷ rs) n (s, ss) = (
  ground (arith, get-put h r.tx_hash row pending, ==_iff h r.tx_hash, ==_iff r.tx_hash h),
  put-IsSettled h row pending rs (ground arith) ss,
)

-- A pending transaction has no history row.
pending_new :
    (h : ℕ) (row : PendingUserTx) (pending : List (ℕ × PendingUserTx)) (history : List HistoryRow)
    → get pending h ≡ some row
    → IsSettled pending history
    → has_row h history ≡ false
pending_new h row pending [] p s = refl
pending_new h row pending (r ∷ rs) p (s, ss) =
    ground (arith, ==_iff r.tx_hash h, pending_new h row pending rs p ss)

delete_pending-IsOnce : (h : ℕ) (l : Ledger) → IsOnce l → IsOnce (delete_pending h l)
unfolding delete_pending
delete_pending-IsOnce h l (o, s) = (o, remove-IsSettled h l.pending l.history s)

confirm_pending-IsOnce :
    (h amount : ℕ) (l : Ledger) → IsOnce l → IsOnce (confirm_pending h amount l).1
unfolding confirm_pending
confirm_pending-IsOnce h amount l (o, s) = elim (Option-cases (get l.pending h)) [
  | inl gone ↦ rw (confirm_pending, gone) (o, s)
  | inr (row, there) ↦
      rw (confirm_pending, there)
        (
          (pending_new h row l.pending l.history there s, o),
          (
            ground (arith, get-remove h h l.pending, ==_iff h h),
            remove-IsSettled h l.pending l.history s,
          ),
        )
]

insert_pending-IsOnce :
    (h : ℕ) (row : PendingUserTx) (l l' : Ledger)
    → has_row h l.history ≡ false
    → insert_pending h row l ≡ some l'
    → IsOnce l
    → IsOnce l'
unfolding insert_pending
insert_pending-IsOnce h row l l' n e (o, s) = elim (Bool-cases (is_some (get l.pending h))) [
  | inl there ↦ absurd (ground (arith, there, e))
  | inr free ↦
      let same : record l { pending = put h row l.pending } ≡ l' = ground (arith, free, e) in
      subst IsOnce same (o, put-IsSettled h row l.pending l.history n s)
]

settle_as-IsOnce :
    (now : ℕ) (x : Lookup) (h : ℕ) (row : PendingUserTx) (l : Ledger)
    → IsOnce l
    → IsOnce (settle_as now x h row l).1
unfolding settle_as
settle_as-IsOnce now raised h row l once = once
settle_as-IsOnce now no_receipt h row l once =
    elim (Bool-cases (leb now (row.created_at + pending_ttl))) [
      | inl young ↦ rw (settle_as, young) once
      | inr lost ↦ rw (settle_as, lost) (delete_pending-IsOnce h l once)
    ]
settle_as-IsOnce now (mined success paid) h row l once =
    elim (Bool-cases (not success || (is_redeem row.transaction_type && paid == 0))) [
      | inl nothing ↦ rw (settle_as, nothing) (delete_pending-IsOnce h l once)
      | inr landed ↦
          rw (settle_as, landed)
            (confirm_pending-IsOnce h (if is_redeem row.transaction_type then paid else row.amount)
              l once)
    ]

Step-IsOnce : {l l' : Ledger} → Step l l' → IsOnce l → IsOnce l'
unfolding on_signed
Step-IsOnce {l} {l'} (signed none h row n e) once = insert_pending-IsOnce h row l l' n e once
Step-IsOnce {l} {l'} (signed (some old) h row n e) once =
    insert_pending-IsOnce h row (delete_pending old l) l' n e (delete_pending-IsOnce old l once)
Step-IsOnce {l} (forgotten h) once = delete_pending-IsOnce h l once
Step-IsOnce {l} (confirmed h amount) once = confirm_pending-IsOnce h amount l once
Step-IsOnce {l} (settled now look h row) once = settle_as-IsOnce now (look h) h row l once

-- A pass of the reconciler, over rows that were read before, is such steps.
reconcile-Run :
    {l : Ledger} (now : ℕ) (look : ℕ → Lookup) (rows : List (ℕ × PendingUserTx)) (m : Ledger)
    → Run l m
    → Run l (reconcile now look rows m).1
unfolding reconcile
reconcile-Run now look [] m run = run
reconcile-Run now look ((h, row) ∷ rows) m run =
    reconcile-Run now look rows (settle now look h row m).1 (then_step run (settled now look h row))

Run-IsOnce : {l : Ledger} → Run empty_ledger l → IsOnce l
Run-IsOnce done = (tt, tt)
Run-IsOnce (then_step run step) = Step-IsOnce step (Run-IsOnce run)

-- Whatever requests and reconcilers have done, in whatever order, as long as no hash is signed again
-- once it has a history row, and also after one more pass over rows that were read at any time before:
-- no transaction has two history rows, and none that has one is pending.
pub history-IsOnce :
    {l : Ledger} (now : ℕ) (look : ℕ → Lookup) (rows : List (ℕ × PendingUserTx))
    → Run empty_ledger l
    → IsOnce l × IsOnce (reconcile now look rows l).1
history-IsOnce {l} now look rows run =
    (Run-IsOnce run, Run-IsOnce (reconcile-Run now look rows l run))
