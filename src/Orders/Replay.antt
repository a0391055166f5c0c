-- ===== src/Orders/Replay.antt =====
-- services/order_service.py: the answer of `place_order`, after its settlement or as a replay of an
-- earlier request. Amounts are in micro units where the source prints them as decimals. The trades
-- of an order stand in the table in the order of their times.
use agentpit.Prelude.{
  ℕ, ◌-◌, ◌*◌, ◌/◌, Bool, true, false, not, Option, none, some, List, [], ◌∷◌, map, filter, length,
  sum_by, ◌==◌, if◌then◌else◌,
}
use agentpit.Exchange.{Side, is_buy, price_one}
use agentpit.Exchange.Amounts.{fill_amounts}
use agentpit.Store.{Db, OrderRow, OrderStatus, TradeRow, MatchKind, normal, find_order}
use agentpit.Orders.{Result, ok, err, World, order_missing}
use agentpit.Orders.Cancel.{dedup}
use agentpit.Orders.Fill.{Match}
use agentpit.Orders.Place.{Placement, placed, replayed, refused}
use agentpit.Orders.Settle.{Submitted, Waited, settle, is_failure}

pub record OrderResponse : Type 0 where
  pub success : Bool
  pub order_id : ℕ
  pub status : OrderStatus
  pub hashes : List ℕ
  pub amounts : Option (ℕ × ℕ)
  pub trade_ids : List ℕ

abbrev is_normal : MatchKind → Bool
is_normal normal = true
is_normal _ = false

-- What the taker paid or received for a trade.
abbrev pub trade_collateral : TradeRow → ℕ
trade_collateral t =
    (if is_normal t.kind then t.price else price_one - t.price) * t.trade_size / price_one

abbrev hashes_of : List TradeRow → List ℕ
hashes_of [] = []
hashes_of (t ∷ ts) = elim t.transaction_hash [ none ↦ hashes_of ts | some h ↦ h ∷ hashes_of ts ]

-- The trades that an order took, and those of them that did not fail.
abbrev pub trades_of : ℕ → Db → List TradeRow
trades_of order_id db = filter (λ t. t.taker_order_id == order_id) db.trades

abbrev pub settled_of : List TradeRow → List TradeRow
settled_of ts = filter (λ t. not (is_failure t.status)) ts

-- `_build_replay_response`
unfoldable pub build_replay_response : ℕ → Db → Result OrderResponse
unfolding dedup
build_replay_response order_id db =
    let trades = trades_of order_id db in
    let settled = settled_of trades in
    elim (find_order order_id db) as (λ _. Result OrderResponse) [
      | none ↦ err order_missing
      | some row ↦ ok (record {
        success = length settled == length trades;
        order_id = order_id;
        status = row.status;
        hashes = dedup (hashes_of settled);
        amounts =
            fill_amounts row.order.side (sum_by trade_collateral settled)
              (sum_by (λ t. t.trade_size) settled);
        trade_ids = map (λ t. t.trade_id) settled;
      })
    ]

abbrev list_of : Option ℕ → List ℕ
list_of none = []
list_of (some h) = h ∷ []

-- The answer to a placed order: no amounts, hash or trade where the fill has failed.
abbrev pub answer : Side → Bool → Option ℕ → Option Match → OrderRow → OrderResponse
answer side has_failed hash none row = record {
  success = not has_failed;
  order_id = row.order_id;
  status = row.status;
  hashes = [];
  amounts = none;
  trade_ids = [];
}
answer side has_failed hash (some m) row = record {
  success = not has_failed;
  order_id = row.order_id;
  status = row.status;
  hashes = if has_failed then [] else list_of hash;
  amounts =
      if has_failed
      then none
      else fill_amounts side (if is_buy side then m.agent_amount else m.house_amount) m.size;
  trade_ids = if has_failed then [] else m.trade_id ∷ [];
}

abbrev answer_in : Side → Bool → Option ℕ → Option Match → ℕ → World → Result OrderResponse × World
answer_in side has_failed hash match order_id w = (
  elim (find_order order_id w.db) as (λ _. Result OrderResponse) [
    | none ↦ err order_missing
    | some row ↦ ok (answer side has_failed hash match row)
  ],
  w,
)

-- The settlement of a fill, which `place_order` waits for, and its answer.
unfoldable pub finish :
    ℕ → Side → Submitted → Waited → Placement × World → Result OrderResponse × World
unfolding build_replay_response
finish now side submitted waited (refused e, w) = (err e, w)
finish now side submitted waited (replayed order_id, w) = (build_replay_response order_id w.db, w)
finish now side submitted waited (placed p none, w) = answer_in side false none none p.order_id w
finish now side submitted waited (placed p (some m), w) =
    let (result, db') = settle now m.trade_id true submitted waited w.db in
    answer_in side result.has_failed result.tx_hash (some m) p.order_id (record w { db = db' })
