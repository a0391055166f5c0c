-- ===== src/Examples/Data.antt =====
-- A market, its book, an account and an order.
use agentpit.Prelude.{true, false, none, some, pos, negsuc, [], ◌∷◌}
use agentpit.Decimal.{finite}
use agentpit.Exchange.{buy}
use agentpit.Replica.{BookReplica, BookSnapshot, BookMessage, LevelMessage, number}
use agentpit.Feed.{MarketRef, MirrorState}
use agentpit.Feed
use agentpit.Store.{
  Db, OrderData, OrderRow, gtc, fok, live, TradeRow, pending, mint, MarketRow, active, UserRow,
}
use agentpit.Orders.{Chain, House, World}
use agentpit.Orders.Place.{Settings, PlaceOrderRequest}

abbrev pub replica : BookReplica
replica = record {
  asset_id = 7;
  bids = (440000, 50000000) ∷ (450000, 100000000) ∷ [];
  asks = (510000, 30000000) ∷ (500000, 80000000) ∷ [];
  seeded = true;
  used = [];
}

abbrev pub replica_view : BookSnapshot
replica_view = record {
  asset_id = 7;
  bids = (450000, 100000000) ∷ (440000, 50000000) ∷ [];
  asks = (500000, 80000000) ∷ (510000, 30000000) ∷ [];
}

-- The level 0.45 with 12 shares.
abbrev pub level_message : LevelMessage
level_message = record {
  is_dict = true;
  price = number (finite false 45 (negsuc 1));
  size = number (finite false 12 (pos 0));
}

abbrev pub book_message : BookMessage
book_message = record { asset_id = some 7; bids = level_message ∷ []; asks = [] }

abbrev pub ref : MarketRef
ref = record {
  market_id = 1;
  condition_id = 10;
  yes_token = 20;
  no_token = 21;
  pm_yes_token = 7;
  pm_condition = 70;
}

abbrev pub mirror : MirrorState
mirror = Feed.new_state (ref ∷ [])

abbrev pub live_mirror : MirrorState
live_mirror = record mirror { replicas = (7, replica) ∷ [] }

abbrev pub order : OrderData
order = record {
  salt = 5;
  maker = 30;
  signer = 30;
  taker = 0;
  token_id = 20;
  maker_amount = 5100000;
  taker_amount = 10000000;
  expiration = 0;
  nonce = 0;
  fee_rate_bps = 0;
  side = buy;
  signature_type = 0;
}

abbrev pub row : OrderRow
row = record {
  order_id = 5;
  api_key = 40;
  price = 510000;
  order_type = gtc;
  order = order;
  signature = 0;
  status = live;
  remaining = 10000000;
  created_at = 1000;
}

abbrev pub market : MarketRow
market = record {
  market_id = 1;
  condition_id = 10;
  event_id = none;
  tokens = 20 ∷ 21 ∷ [];
  state = active;
  payouts = none;
  resolved_at = none;
}

abbrev pub trade : TradeRow
trade = record {
  trade_id = 8;
  taker_order_id = 5;
  maker_order_id = 9;
  market = 10;
  asset_id = 20;
  maker_asset_id = 21;
  kind = mint;
  price = 490000;
  trade_size = 4000000;
  remaining_size = 14000000;
  side = buy;
  status = pending;
  match_time = 1000;
  transaction_hash = none;
  taker_api_key = 40;
  maker_api_key = 41;
}

abbrev pub user : UserRow
user = record { user_id = 2; api_key = 40; eth_address = 30; eth_key = 31; is_bot = false }

abbrev pub db : Db
db = record {
  orders = row ∷ [];
  trades = trade ∷ [];
  markets = market ∷ [];
  users = user ∷ [];
  competitions = [];
  entries = [];
  transfers = [];
  idempotency = ((40, 77), 5) ∷ [];
  sponsored_gas = [];
}

-- A chain whose hash of an order is its salt.
abbrev pub chain : Chain
chain = record {
  order_hash = λ o. o.salt;
  sign = λ key o. key;
  trade_id = λ taker maker nonce. nonce;
  usd_balance = λ address. 100000000;
  ctf_balance = λ address token. 0;
  gas_paused = false;
}

abbrev pub house : House
house = record { eth_address = 50; eth_key = 51; api_key = 41 }

abbrev pub world : World
world = record { db = db; house = some house; mirror = live_mirror }

abbrev pub settings : Settings
settings = record {
  min_order_notional_micro = 1000000;
  max_live_orders_per_account = 50;
  daily_sponsored_gas_per_account = 5000000;
}

-- Ten shares at 0.51, all or nothing.
abbrev pub request : PlaceOrderRequest
request = record {
  token_id = 20;
  side = buy;
  ticks = 510;
  size = finite false 10 (pos 0);
  order_type = fok;
  expiration = 0;
  client_order_id = none;
}
