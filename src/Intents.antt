-- ===== src/Intents.antt =====
-- services/pending_user_txs.py and the intent rows of services/position_service.py: the tables
-- `pending_user_txs` and `transactions`. The latter's rows are written down with the hash of the
-- transaction that they stand for, which has no column.
pub mod Once
use agentpit.Prelude.{
  ℕ, ◌+◌, ◌≡◌, Bool, true, false, not, ◌&&◌, ◌||◌, Option, none, some, List, [], ◌∷◌, any, ltb, leb,
  ◌==◌, if◌then◌else◌, is_some,
}
use agentpit.Prelude.Dict.{get, put, remove, nat_eq}

pub data RowType : Type 0 where
  split merge redeem : RowType

-- A row of `pending_user_txs`, without its key TX_HASH; of DETAILS the collateral's amount.
pub record PendingUserTx : Type 0 where
  pub api_key : ℕ
  pub transaction_type : RowType
  pub market_id : ℕ
  pub amount : ℕ
  pub created_at : ℕ

pub record HistoryRow : Type 0 where
  pub tx_hash : ℕ
  pub api_key : ℕ
  pub transaction_type : RowType
  pub market_id : ℕ
  pub amount : ℕ

pub record Ledger : Type 0 where
  pub pending : List (ℕ × PendingUserTx)
  pub history : List HistoryRow

abbrev pub empty_ledger : Ledger
empty_ledger = record { pending = []; history = [] }

abbrev pub pending_ttl : ℕ
pending_ttl = 600

-- `insert_pending_user_tx`: `none` is the unique violation.
unfoldable pub insert_pending : ℕ → PendingUserTx → Ledger → Option Ledger
insert_pending h row l =
    if is_some (get l.pending h) then none else some (record l { pending = put h row l.pending })

-- `delete_pending_user_tx`
unfoldable pub delete_pending : ℕ → Ledger → Ledger
delete_pending h l = record l { pending = remove h l.pending }

-- `confirm_pending_user_tx`: whether it wrote the row.
unfoldable pub confirm_pending : ℕ → ℕ → Ledger → Bool × Ledger
confirm_pending h amount l = elim (get l.pending h) [
  | none ↦ (false, l)
  | some row ↦ (
    true,
    record {
      pending = remove h l.pending;
      history =
          record {
            tx_hash = h;
            api_key = row.api_key;
            transaction_type = row.transaction_type;
            market_id = row.market_id;
            amount = amount;
          }
          ∷ l.history;
    },
  )
]

-- `has_pending_user_tx`, at `in_flight_since(now)`.
unfoldable pub has_pending : ℕ → ℕ → ℕ → Ledger → Bool
has_pending api_key market_id now l =
    any
      (λ x.
        (x.1.api_key == api_key && x.1.market_id == market_id)
        && leb now (x.1.created_at + pending_ttl))
      l.pending

-- `on_signed`: a retry's row replaces that of the refused signature, in one transaction.
unfoldable pub on_signed : Option ℕ → ℕ → PendingUserTx → Ledger → Option Ledger
unfolding insert_pending delete_pending
on_signed none h row l = insert_pending h row l
on_signed (some old) h row l = insert_pending h row (delete_pending old l)

-- What the chain says of a transaction: the read raises, no receipt yet, or a receipt with its
-- success and what a claim of it paid its sender.
pub data Lookup : Type 0 where
  raised no_receipt : Lookup
  mined : Bool → ℕ → Lookup

abbrev pub is_redeem : RowType → Bool
is_redeem redeem = true
is_redeem _ = false

-- `_settle` of one row, after its lookup: whether it wrote the history row.
unfoldable pub settle_as : ℕ → Lookup → ℕ → PendingUserTx → Ledger → Bool × Ledger
unfolding delete_pending confirm_pending
settle_as now raised h row l = (false, l)
settle_as now no_receipt h row l =
    if leb now (row.created_at + pending_ttl) then (false, l) else (false, delete_pending h l)
settle_as now (mined success paid) h row l =
    if not success || (is_redeem row.transaction_type && paid == 0)
    then (false, delete_pending h l)
    else confirm_pending h (if is_redeem row.transaction_type then paid else row.amount) l

abbrev pub settle : ℕ → (ℕ → Lookup) → ℕ → PendingUserTx → Ledger → Bool × Ledger
settle now look h row l = settle_as now (look h) h row l

-- `reconcile_pending_user_txs`: how many history rows it wrote. The rows were read before, and others
-- may have changed them since.
unfoldable pub reconcile : ℕ → (ℕ → Lookup) → List (ℕ × PendingUserTx) → Ledger → ℕ × Ledger
unfolding settle_as
reconcile now look [] l = (0, l)
reconcile now look ((h, row) ∷ rows) l =
    let (wrote, l') = settle now look h row l in
    let (written, l'') = reconcile now look rows l' in (if wrote then written + 1 else written, l'')

abbrev pub has_row : ℕ → List HistoryRow → Bool
has_row h history = any (λ r. r.tx_hash == h) history

-- What the requests and the reconciler do to the tables, each in its own transaction. A hash is
-- signed at most once: a nonce is.
pub data Step : Ledger → Ledger → Type 0 where
  signed :
      {l l' : Ledger} (old : Option ℕ) (h : ℕ) (row : PendingUserTx)
      → has_row h l.history ≡ false
      → on_signed old h row l ≡ some l'
      → Step l l'
  forgotten : {l : Ledger} (h : ℕ) → Step l (delete_pending h l)
  confirmed : {l : Ledger} (h amount : ℕ) → Step l (confirm_pending h amount l).1
  settled :
      {l : Ledger} (now : ℕ) (look : ℕ → Lookup) (h : ℕ) (row : PendingUserTx)
      → Step l (settle now look h row l).1

pub data Run : Ledger → Ledger → Type 0 where
  done : {l : Ledger} → Run l l
  then_step : {l l' l'' : Ledger} → Run l l' → Step l' l'' → Run l l''
