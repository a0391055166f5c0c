-- ===== src/Orders/Fill/Terms.antt =====
-- What a fill should be, from the order, the quote and the house: which levels it may take, what
-- they cost, what the house buys, and what is written of it.
use agentpit.Prelude.{
  ℕ, zero, suc, ◌-◌, ◌*◌, ◌≡◌, refl, min, Bool, true, false, Option, none, some, List, sum_by,
  arith, if◌then◌else◌,
}
use agentpit.Exchange.{Side, buy, sell, is_buy, price_one}
use agentpit.Replica.{Take}
use agentpit.Replica.Depth.{take}
use agentpit.Store.{
  OrderData, OrderRow, OrderType, fok, fak, OrderStatus, live, matched, TradeRow, pending,
  MatchKind, normal, mint, MarketRow,
}
use agentpit.Orders.{Chain, House, Quote}
use agentpit.Orders.Fill.{Match, Draws, takes_for, cost_of, status_after, house_order_of}

-- The side of the YES book that an order reaches, and the worst price there: YES is bought from
-- asks and sold to bids; NO is bought from YES bids and sold to YES asks, at the dollar's
-- complement.
abbrev pub reached : Side → Bool → ℕ → Bool × ℕ
reached buy true limit = (true, limit)
reached sell true limit = (false, limit)
reached buy false limit = (false, price_one - limit)
reached sell false limit = (true, price_one - limit)

abbrev pub asked : ℕ → Option ℕ → ℕ
asked remaining none = remaining
asked remaining (some most) = min remaining most

-- The levels that an order gets.
abbrev pub reach : ℕ → OrderRow → Quote → Option ℕ → List Take
reach tick row (ref, yes_token, rep) at_most =
    let (ask, bound) = reached row.order.side yes_token row.price in
    take tick ask bound (asked row.remaining at_most) rep

-- What the order's token costs at those levels: the price of YES, or its complement for NO.
abbrev pub dollars : Bool → List Take → ℕ
dollars true takes = sum_by (λ t. t.price * t.size) takes
dollars false takes = sum_by (λ t. (price_one - t.price) * t.size) takes

abbrev pub cost_in : Quote → List Take → ℕ
cost_in (ref, yes_token, rep) takes = dollars yes_token takes

-- The token that the house buys: the other of the pair beside a BUY, the agent's own from a SELL.
abbrev pub bought : Side → Quote → ℕ → ℕ
bought buy (ref, true, rep) own = ref.no_token
bought buy (ref, false, rep) own = ref.yes_token
bought sell quote own = own

abbrev pub kind_for : Side → MatchKind
kind_for buy = mint
kind_for sell = normal

-- The status of the agent's order with `left` shares to go.
abbrev pub status_with : ℕ → OrderType → OrderStatus
status_with zero order_type = matched
status_with (suc left) fak = matched
status_with (suc left) _ = live

abbrev pub market_key : ℕ → Option MarketRow → ℕ
market_key token none = token
market_key token (some found) = found.condition_id

-- The house's order, its signature, how the two are settled, and the trade's id.
pub record HasTerms (chain : Chain) (draws : Draws) (house : House) (row : OrderRow) (quote : Quote)
    (m : Match) : Type 0 where
  pub house_order : m.house_order ≡ record {
    salt = draws.salt;
    maker = house.eth_address;
    signer = house.eth_address;
    taker = 0;
    token_id = bought row.order.side quote row.order.token_id;
    maker_amount = m.house_amount;
    taker_amount = m.size;
    expiration = 0;
    nonce = 0;
    fee_rate_bps = 0;
    side = buy;
    signature_type = 0;
  }
  pub signature : m.house_signature ≡ chain.sign house.eth_key m.house_order
  pub kind : m.kind ≡ kind_for row.order.side
  pub trade_id :
      m.trade_id ≡ chain.trade_id row.order_id (chain.order_hash m.house_order) draws.nonce

-- The row of the house's order, filled, at its price.
abbrev pub house_row_of : ℕ → House → ℕ → ℕ → Match → OrderRow
house_row_of now house house_id price m = record {
  order_id = house_id;
  api_key = house.api_key;
  price = price;
  order_type = fok;
  order = m.house_order;
  signature = m.house_signature;
  status = matched;
  remaining = 0;
  created_at = now;
}

-- The trade between the two orders, not yet settled.
abbrev pub trade_row_of : ℕ → House → OrderRow → ℕ → ℕ → ℕ → Match → TradeRow
trade_row_of now house row house_id price market m = record {
  trade_id = m.trade_id;
  taker_order_id = row.order_id;
  maker_order_id = house_id;
  market = market;
  asset_id = row.order.token_id;
  maker_asset_id = m.house_order.token_id;
  kind = m.kind;
  price = price;
  trade_size = m.size;
  remaining_size = row.remaining;
  side = row.order.side;
  status = pending;
  match_time = now;
  transaction_hash = none;
  taker_api_key = row.api_key;
  maker_api_key = house.api_key;
}

pub reach_lem :
    (tick : ℕ) (row : OrderRow) (quote : Quote) (at_most : Option ℕ)
    → takes_for tick row quote at_most ≡ reach tick row quote at_most
reach_lem tick row (ref, yes_token, rep) at_most = ground arith

pub cost_in_lem : (quote : Quote) (takes : List Take) → cost_of quote takes ≡ cost_in quote takes
cost_in_lem (ref, true, rep) takes = refl
cost_in_lem (ref, false, rep) takes = refl

pub status_with_lem :
    (left : ℕ) (order_type : OrderType) → status_after left order_type ≡ status_with left order_type
unfolding status_after
status_with_lem zero order_type = ground arith
status_with_lem (suc left) order_type = ground arith

pub house_order_lem :
    (salt : ℕ) (house : House) (order : OrderData) (quote : Quote) (amount size : ℕ)
    → house_order_of salt house (is_buy order.side) order quote amount size ≡ record {
      salt = salt;
      maker = house.eth_address;
      signer = house.eth_address;
      taker = 0;
      token_id = bought order.side quote order.token_id;
      maker_amount = amount;
      taker_amount = size;
      expiration = 0;
      nonce = 0;
      fee_rate_bps = 0;
      side = buy;
      signature_type = 0;
    }
house_order_lem salt house order (ref, yes_token, rep) amount size = ground arith

pub kind_lem : (side : Side) → (if is_buy side then mint else normal) ≡ kind_for side
kind_lem buy = refl
kind_lem sell = refl
