-- ===== src/Orders/Settle.antt =====
-- services/order_service.py: `_settle` and `settle_pending`. What the sender of transactions and
-- the chain report is an argument; the wake-ups of waiting readers (`touch`) keep no state.
pub mod Status
use agentpit.Prelude.{
  ℕ, ◌+◌, ◌<◌, Bool, true, false, not, ◌&&◌, Option, none, some, List, [], ◌∷◌, ◌++◌, map, filter,
  any, min, ltb, leb, ◌==◌, if◌then◌else◌,
}
use agentpit.Store.{
  Db, TradeRow, TradeStatus, pending, confirmed, failed, OrderData, OrderRow, find_order,
  settle_trades, member,
}
use agentpit.Orders.Cancel.{dedup}

-- `sender.submit`: an exception before there was a hash, or the transaction's hash (`TxUnknown`
-- has one too).
pub data Submitted : Type 0 where
  refused : Submitted
  sent : ℕ → Submitted

-- `sender.wait`: a receipt and its status, `TxDropped`, or another exception.
pub data Waited : Type 0 where
  receipt : Bool → Waited
  dropped : Waited
  unsettled : Waited

-- What a settlement reports: whether it failed, and the transaction's hash.
pub record Settlement : Type 0 where
  pub has_failed : Bool
  pub tx_hash : Option ℕ

abbrev pub status_of_wait : Waited → TradeStatus
status_of_wait (receipt true) = confirmed
status_of_wait (receipt false) = failed
status_of_wait dropped = failed
status_of_wait unsettled = pending

abbrev pub is_failure : TradeStatus → Bool
is_failure failed = true
is_failure _ = false

-- `_settle`
unfoldable pub settle : ℕ → ℕ → Bool → Submitted → Waited → Db → Settlement × Db
settle now trade_id wait refused waited db =
    (record { has_failed = true; tx_hash = none }, settle_trades now (trade_id ∷ []) failed none db)
settle now trade_id false (sent hash) waited db = (
  record { has_failed = false; tx_hash = some hash },
  settle_trades now (trade_id ∷ []) pending (some hash) db,
)
settle now trade_id true (sent hash) waited db =
    let sent_db = settle_trades now (trade_id ∷ []) pending (some hash) db in
    let status = status_of_wait waited in
    (
      record { has_failed = is_failure status; tx_hash = some hash },
      settle_trades now (trade_id ∷ []) status (some hash) sent_db,
    )

abbrev pub is_pending : TradeStatus → Bool
is_pending pending = true
is_pending _ = false

abbrev pub receipt_check_after : ℕ
receipt_check_after = 5

abbrev pub forget_done_after : ℕ
forget_done_after = 600

-- `unsent_settlements`: the trades without a hash, each with the house order that it takes.
abbrev pub is_unsent : ℕ → TradeRow → Bool
is_unsent now t = elim t.transaction_hash [
  | none ↦ is_pending t.status && ltb (t.match_time + forget_done_after) now
  | some h ↦ false
]

abbrev pub is_sent : ℕ → TradeRow → Bool
is_sent now t = elim t.transaction_hash [
  | none ↦ false
  | some h ↦ is_pending t.status && ltb (t.match_time + receipt_check_after) now
]

abbrev hash_is : ℕ → TradeRow → Bool
hash_is h t = elim t.transaction_hash [ none ↦ false | some k ↦ k == h ]

-- One job of the sweep: trades, what they became, and the hash they keep.
pub record Job : Type 0 where
  pub trade_ids : List ℕ
  pub status : TradeStatus
  pub tx_hash : Option ℕ

abbrev pub run_job : ℕ → Job → Db → Db
run_job now job = settle_trades now job.trade_ids job.status job.tx_hash

unfoldable pub run_jobs : ℕ → List Job → Db → Db
run_jobs now [] db = db
run_jobs now (job ∷ jobs) db = run_jobs now jobs (run_job now job db)

-- A trade that left no hash is confirmed where the chain has its house order filled.
unfoldable pub unsent_jobs : ℕ → (OrderData → Bool) → List TradeRow → Db → List Job
unsent_jobs now filled [] db = []
unsent_jobs now filled (t ∷ ts) db =
    let rest = unsent_jobs now filled ts db in
    if is_unsent now t
    then elim (find_order t.maker_order_id db) [
      | none ↦ rest
      | some house ↦
          record {
            trade_ids = t.trade_id ∷ [];
            status = if filled house.order then confirmed else failed;
            tx_hash = none;
          }
          ∷ rest
    ]
    else rest

abbrev ids_with : ℕ → ℕ → List TradeRow → List ℕ
ids_with now h trades = map (λ t. t.trade_id) (filter (λ t. is_sent now t && hash_is h t) trades)

-- `MIN(MATCH_TIME) + 600 < now`: a group is forgotten where one of its trades is old enough.
abbrev is_forgotten : ℕ → ℕ → List TradeRow → Bool
is_forgotten now h trades =
    any (λ t. (is_sent now t && hash_is h t) && ltb (t.match_time + forget_done_after) now) trades

abbrev group_job : List ℕ → ℕ → TradeStatus → Job
group_job ids h status = record { trade_ids = ids; status = status; tx_hash = some h }

sent_job : ℕ → (ℕ → Option Bool) → List TradeRow → ℕ → List Job
sent_job now receipts trades h =
    let job = group_job (ids_with now h trades) h in
    elim (receipts h) [
      | none ↦ if is_forgotten now h trades then job failed ∷ [] else []
      | some landed ↦ job (if landed then confirmed else failed) ∷ []
    ]

sent_hashes : ℕ → List TradeRow → List ℕ
sent_hashes now [] = []
sent_hashes now (t ∷ ts) =
    let rest = sent_hashes now ts in
    elim t.transaction_hash [ none ↦ rest | some h ↦ if is_sent now t then h ∷ rest else rest ]

jobs_of : ℕ → (ℕ → Option Bool) → List TradeRow → List ℕ → List Job
unfolding sent_job
jobs_of now receipts trades [] = []
jobs_of now receipts trades (h ∷ hs) =
    sent_job now receipts trades h ++ jobs_of now receipts trades hs

unfoldable pub sent_jobs : ℕ → (ℕ → Option Bool) → List TradeRow → List Job
unfolding jobs_of sent_hashes dedup
sent_jobs now receipts trades = jobs_of now receipts trades (dedup (sent_hashes now trades))

-- `settle_pending`: both lists are read before the first write.
unfoldable pub settle_pending : ℕ → (OrderData → Bool) → (ℕ → Option Bool) → Db → Db
unfolding run_jobs unsent_jobs sent_jobs
settle_pending now filled receipts db =
    run_jobs now (sent_jobs now receipts db.trades)
      (run_jobs now (unsent_jobs now filled db.trades db) db)
