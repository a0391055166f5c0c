-- ===== src/Orders/Fill.antt =====
-- services/order_service.py: `_take`, one fill of an agent's order against the house.
pub mod Terms
pub mod Rows
pub mod Effects
pub mod Outcome
pub mod Size
use agentpit.Prelude.{
  ℕ, ◌+◌, ◌-◌, ◌*◌, min, Bool, true, false, ◌&&◌, Option, none, some, List, [], ◌∷◌, ◌++◌, ℤ, pos,
  negsuc, sum_by, ltb, eq_bool, ◌==◌, if◌then◌else◌,
}
use agentpit.Exchange.{Side, buy, sell, is_buy, price_one, orders_cross, house_amounts}
use agentpit.Exchange.Amounts.{price_int}
use agentpit.Replica.{Take}
use agentpit.Replica.Depth.{take, total}
use agentpit.Feed.{MarketRef}
use agentpit.Store.{
  Db, OrderData, OrderRow, OrderType, fok, fak, OrderStatus, live, matched, TradeRow, pending,
  MatchKind, normal, mint, update_where, resolve_by_token_id,
}
use agentpit.Orders.{
  Result, ok, err, Tx, Done, Chain, House, Quote, bad_amounts, not_crossing, insert_order, new_row,
  get_order_row, pure, raise, guard, gets, modify, ◌>>=◌, ◌>>◌,
}

-- datastructures/match.py
pub record Match : Type 0 where
  pub takes : List Take
  pub size : ℕ
  pub house_amount : ℕ
  pub agent_amount : ℕ
  pub kind : MatchKind
  pub house_order : OrderData
  pub house_signature : ℕ
  pub trade_id : ℕ

-- The random values of one fill.
pub record Draws : Type 0 where
  pub salt : ℕ
  pub nonce : ℕ

-- What a share of a level costs the agent.
abbrev pub level_cost : Bool → Take → ℕ
level_cost yes_token t = (if yes_token then t.price else price_one - t.price) * t.size

abbrev pub book_bound : Bool → ℕ → ℕ
book_bound yes_token limit = if yes_token then limit else price_one - limit

abbrev pub wanted_of : ℕ → Option ℕ → ℕ
wanted_of remaining none = remaining
wanted_of remaining (some most) = min remaining most

-- What the walk over Polymarket's levels gives an order.
abbrev pub takes_for : ℕ → OrderRow → Quote → Option ℕ → List Take
takes_for tick row (ref, yes_token, rep) at_most =
    take tick (eq_bool (is_buy row.order.side) yes_token) (book_bound yes_token row.price)
      (wanted_of row.remaining at_most) rep

abbrev pub cost_of : Quote → List Take → ℕ
cost_of (ref, yes_token, rep) takes = sum_by (level_cost yes_token) takes

-- The house buys: the other token of the pair from a BUY, the agent's own token from a SELL.
abbrev pub house_order_of : ℕ → House → Bool → OrderData → Quote → ℕ → ℕ → OrderData
house_order_of salt house buying order (ref, yes_token, rep) amount size = record {
  salt = salt;
  maker = house.eth_address;
  signer = house.eth_address;
  taker = 0;
  token_id = if buying then (if yes_token then ref.no_token else ref.yes_token) else order.token_id;
  maker_amount = amount;
  taker_amount = size;
  expiration = 0;
  nonce = 0;
  fee_rate_bps = 0;
  side = buy;
  signature_type = 0;
}

is_fak : OrderType → Bool
is_fak fak = true
is_fak _ = false

-- "live" while something is left of an order that may rest.
unfoldable pub status_after : ℕ → OrderType → OrderStatus
unfolding is_fak
status_after left order_type =
    if left == 0 then matched else if is_fak order_type then matched else live

-- The row with id `i` gets what is left and its status.
unfoldable pub fill_row : ℕ → ℕ → OrderStatus → Db → Db
fill_row i left status db = record db {
  orders =
      update_where (λ row. row.order_id == i)
        (λ row. record row { remaining = left; status = status }) db.orders;
}

-- `_insert_trade`
trade_of : ℕ → OrderRow → OrderRow → Match → ℕ → TradeRow
trade_of now taker maker m market = record {
  trade_id = m.trade_id;
  taker_order_id = taker.order_id;
  maker_order_id = maker.order_id;
  market = market;
  asset_id = taker.order.token_id;
  maker_asset_id = maker.order.token_id;
  kind = m.kind;
  price = maker.price;
  trade_size = m.size;
  remaining_size = taker.remaining;
  side = taker.order.side;
  status = pending;
  match_time = now;
  transaction_hash = none;
  taker_api_key = taker.api_key;
  maker_api_key = maker.api_key;
}

market_of : ℕ → Db → ℕ
market_of token db = elim (resolve_by_token_id token db) [
  | none ↦ token
  | some found ↦ found.condition_id
]

unfoldable pub add_trade : ℕ → OrderRow → OrderRow → Match → Db → Db
unfolding trade_of market_of
add_trade now taker maker m db = record db {
  trades = db.trades ++ trade_of now taker maker m (market_of taker.order.token_id db) ∷ [];
}

abbrev pub insert_trade : ℕ → OrderRow → OrderRow → Match → Tx Done
insert_trade now taker maker m = modify (add_trade now taker maker m)

abbrev price_or_raise : Option ℕ → Tx ℕ
price_or_raise none = raise bad_amounts
price_or_raise (some p) = pure p

-- The rest of `_take`, once the house's amount is known to be between 0 and the size.
unfoldable pub take_house :
    Chain → ℕ → Draws → House → OrderRow → OrderData → Quote → List Take → ℕ → ℕ → Tx (Option Match)
unfolding status_after fill_row
take_house chain now draws house row order quote takes size amount = do
  guard (orders_cross order.maker_amount order.taker_amount row.order.side amount size) not_crossing
  let buying = is_buy row.order.side
  let house_order = house_order_of draws.salt house buying order quote amount size
  let house_id = chain.order_hash house_order
  let signature = chain.sign house.eth_key house_order
  price ← price_or_raise (price_int buy amount size)
  insert_order (new_row house_id house.api_key price now fok house_order signature)
  modify (fill_row house_id 0 matched)
  let left = row.remaining - size
  modify (fill_row row.order_id left (status_after left row.order_type))
  let m : Match = record {
    takes = takes;
    size = size;
    house_amount = amount;
    agent_amount = if buying then size - amount else size;
    kind = if buying then mint else normal;
    house_order = house_order;
    house_signature = signature;
    trade_id = chain.trade_id row.order_id house_id draws.nonce;
  }
  house_row ← get_order_row house_id
  insert_trade now row house_row m
  pure (some m)

-- `_take`; `at_most` caps the fill.
unfoldable pub take_order :
    Chain
    → ℕ
    → ℕ
    → Draws
    → Option House
    → OrderRow
    → OrderData
    → Option Quote
    → Option ℕ
    → Tx (Option Match)
unfolding take_house
take_order chain now tick draws none row order quote at_most = pure none
take_order chain now tick draws (some house) row order none at_most = pure none
take_order chain now tick draws (some house) row order (some quote) at_most =
    let takes = takes_for tick row quote at_most in
    let size = total takes in
    elim (house_amounts order.side order.maker_amount order.taker_amount size
      (cost_of quote takes)) [
        | negsuc n ↦ pure none
        | pos amount ↦
            if ltb 0 amount && ltb amount size
            then take_house chain now draws house row order quote takes size amount
            else pure none
      ]
