-- ===== src/Orders/Place.antt =====
-- services/order_service.py: `place_order`. The checks before the transaction read tables `read`,
-- the transaction and the replay the tables of the world it commits to: other calls may have run
-- between them. The transaction is one step, as the market's lock and the database make it.
pub mod Checks
pub mod Fills
use agentpit.Prelude.{
  ℕ, ◌+◌, ◌*◌, ◌/◌, Bool, true, false, not, ◌&&◌, ◌||◌, Option, none, some, List, [], ◌∷◌, is_some,
  ltb, leb, ◌==◌, if◌then◌else◌,
}
use agentpit.Decimal.{Decimal}
use agentpit.Exchange.{Side, is_buy}
use agentpit.Exchange.Amounts.{decimal_to_micro, amounts_from_price_size, price_int}
use agentpit.Store.{
  Db, OrderData, OrderRow, OrderType, gtc, gtd, fok, fak, UserRow, MarketRow, MarketState, active,
  same_state, find_market, resolve_by_token_id, get_idempotency_order_id, count_live_orders,
  count_live_orders_on_active_markets, halted,
}
use agentpit.Store.Gas.{sponsored_gas_used, reserve_sponsored_gas, claim_idempotency_key}
use agentpit.Store.Holdings.{event_room}
use agentpit.Orders.{
  Error, Result, ok, err, Tx, Done, Chain, World, Quote, house_quote, use_quote, insert_order,
  new_row, get_order_row, guard, pure, raise, gets, modify, ◌>>=◌, ◌>>◌, expires_too_soon,
  unknown_token, bad_size, too_small, too_many_orders, gas_budget_used, gas_paused,
  insufficient_balance, bad_amounts, unique_violation, market_not_active, trading_halted,
  over_event_cap, not_filled,
}
use agentpit.Orders.Fill.{Match, Draws, take_order}
use agentpit.Orders.Fill.Size.{filled_of}

pub record Settings : Type 0 where
  pub min_order_notional_micro : ℕ
  pub max_live_orders_per_account : ℕ
  pub daily_sponsored_gas_per_account : ℕ

-- `PlaceOrderRequest`, past its validator: the price in ticks of 0.001.
pub record PlaceOrderRequest : Type 0 where
  pub token_id : ℕ
  pub side : Side
  pub ticks : ℕ
  pub size : Decimal
  pub order_type : OrderType
  pub expiration : ℕ
  pub client_order_id : Option ℕ

abbrev pub expiry_min_lead : ℕ
expiry_min_lead = 180

abbrev pub seconds_per_day : ℕ
seconds_per_day = 86400

abbrev pub sponsored_gas_per_fill : ℕ
sponsored_gas_per_fill = 250000

abbrev pub is_gtd : OrderType → Bool
is_gtd gtd = true
is_gtd _ = false

abbrev pub may_rest : OrderType → Bool
may_rest gtc = true
may_rest gtd = true
may_rest _ = false

-- `_check_order_limits`
unfoldable pub check_order_limits : ℕ → Settings → UserRow → PlaceOrderRequest → ℕ → ℕ → Tx Done
check_order_limits now settings user payload maker_amount taker_amount = do
  let notional = if is_buy payload.side then maker_amount else taker_amount
  let floor = settings.min_order_notional_micro
  guard (floor == 0 || leb floor notional) too_small
  let cap = settings.max_live_orders_per_account
  plain ← gets (count_live_orders now user.api_key)
  active_count ← gets (count_live_orders_on_active_markets now user.api_key)
  let live_count = if leb cap plain then active_count else plain
  guard (not (may_rest payload.order_type) || ltb live_count cap) too_many_orders

-- `_check_gas_budget`
unfoldable pub check_gas_budget : ℕ → Settings → UserRow → Tx Done
check_gas_budget now settings user = do
  let budget = settings.daily_sponsored_gas_per_account
  used ← gets (sponsored_gas_used user.api_key (now / seconds_per_day))
  guard (budget == 0 || ltb used budget) gas_budget_used

-- `_reserve_sponsored_gas`
unfoldable pub reserve_gas : ℕ → Settings → UserRow → Tx Done
reserve_gas now settings user db =
    let budget = settings.daily_sponsored_gas_per_account in
    if user.is_bot || budget == 0
    then ok (tt, db)
    else (let (granted, db') =
          reserve_sponsored_gas user.api_key (now / seconds_per_day) sponsored_gas_per_fill budget
            db in
        if granted then ok (tt, db') else err gas_budget_used)

-- `_check_balance`
abbrev pub has_balance : Chain → UserRow → Side → ℕ → ℕ → Bool
has_balance chain user side maker_amount token = leb maker_amount (
    if is_buy side
    then chain.usd_balance user.eth_address
    else chain.ctf_balance user.eth_address token)

abbrev or_raise : {A : Type 0} → Error → Option A → Tx A
or_raise e none = raise e
or_raise e (some a) = pure a

abbrev pub order_of : ℕ → UserRow → PlaceOrderRequest → ℕ → ℕ → OrderData
order_of salt user payload maker_amount taker_amount = record {
  salt = salt;
  maker = user.eth_address;
  signer = user.eth_address;
  taker = 0;
  token_id = payload.token_id;
  maker_amount = maker_amount;
  taker_amount = taker_amount;
  expiration = payload.expiration;
  nonce = 0;
  fee_rate_bps = 0;
  side = payload.side;
  signature_type = 0;
}

-- What `place_order` knows once its checks have passed.
pub record Prepared : Type 0 where
  pub market : MarketRow
  pub size_micro : ℕ
  pub order : OrderData
  pub order_id : ℕ
  pub price : ℕ

-- The checks, from the token's market to the order's price, in the order of the source.
unfoldable pub prepare : Chain → ℕ → ℕ → Settings → UserRow → PlaceOrderRequest → Tx Prepared
unfolding check_order_limits check_gas_budget
prepare chain now salt settings user payload = do
  found ← gets (resolve_by_token_id payload.token_id)
  market ← or_raise unknown_token found
  size_micro ← or_raise bad_size (decimal_to_micro payload.size)
  let (maker_amount, taker_amount) = amounts_from_price_size payload.side payload.ticks size_micro
  if user.is_bot
      then pure tt
      else check_order_limits now settings user payload maker_amount taker_amount
  if user.is_bot then pure tt else check_gas_budget now settings user
  guard (not chain.gas_paused) gas_paused
  guard (has_balance chain user payload.side maker_amount payload.token_id) insufficient_balance
  let order = order_of salt user payload maker_amount taker_amount
  price ← or_raise bad_amounts (price_int payload.side maker_amount taker_amount)
  pure (record {
    market = market;
    size_micro = size_micro;
    order = order;
    order_id = chain.order_hash order;
    price = price;
  })

-- The cap of a prize run on a BUY.
abbrev pub within_cap : Side → ℕ → Option ℕ → Bool
within_cap side size none = true
within_cap side size (some room) = not (is_buy side) || leb size room

-- FOK is filled in full and FAK in part, or the transaction raises.
abbrev pub fills_enough : OrderType → ℕ → ℕ → Bool
fills_enough fok size filled = leb size filled
fills_enough fak size filled = ltb 0 filled
fills_enough _ size filled = true

abbrev claim : ℕ → Option ℕ → ℕ → Tx Done
claim api_key none order_id db = ok (tt, db)
claim api_key (some coid) order_id db = elim (claim_idempotency_key api_key coid order_id db) [
  | none ↦ err unique_violation
  | some db' ↦ ok (tt, db')
]

abbrev pub is_active : ℕ → Db → Bool
is_active market_id db = elim (find_market market_id db) [
  | none ↦ false
  | some m ↦ same_state m.state active
]

abbrev reserve_for : ℕ → Settings → UserRow → Option Match → Tx Done
reserve_for now settings user none = pure tt
reserve_for now settings user (some m) = reserve_gas now settings user

-- The transaction, after its checks: the order is inserted and filled, and the fill is charged.
unfoldable pub insert_and_fill :
    Chain
    → ℕ
    → ℕ
    → Draws
    → World
    → Settings
    → UserRow
    → PlaceOrderRequest
    → Prepared
    → Tx (Option Match)
unfolding reserve_gas
insert_and_fill chain now tick draws w settings user payload p = do
  insert_order (
      new_row p.order_id user.api_key p.price now payload.order_type p.order
        (chain.sign user.eth_key p.order))
  row ← get_order_row p.order_id
  match ← take_order chain now tick draws w.house row p.order (house_quote payload.token_id w) none
  guard (fills_enough payload.order_type p.size_micro (filled_of match)) not_filled
  reserve_for now settings user match
  pure match

unfoldable pub transact :
    Chain
    → ℕ
    → ℕ
    → Draws
    → World
    → Settings
    → UserRow
    → PlaceOrderRequest
    → Prepared
    → Tx (Option Match)
unfolding insert_and_fill
transact chain now tick draws w settings user payload p = do
  ready ← gets (is_active p.market.market_id)
  guard ready market_not_active
  stopped ← gets (halted user.user_id now)
  guard (not stopped) trading_halted
  room ← gets (event_room user.api_key p.market.market_id now)
  guard (within_cap payload.side p.size_micro room) over_event_cap
  claim user.api_key payload.client_order_id p.order_id
  insert_and_fill chain now tick draws w settings user payload p

-- What the request comes to before the settlement: an order that was placed, with its fill; the
-- order that an earlier request placed under the same client id; or an exception.
pub data Placement : Type 0 where
  placed : Prepared → Option Match → Placement
  replayed : ℕ → Placement
  refused : Error → Placement

abbrev use_match : ℕ → Option Quote → Option Match → World → World
use_match tick (some quote) (some m) w = record w { mirror = use_quote tick quote m.takes w.mirror }
use_match tick quote match w = w

-- `except UniqueViolation`, in the tables that the violation leaves.
abbrev replay_or_raise : ℕ → Option ℕ → Error → Db → Placement
replay_or_raise api_key (some coid) unique_violation db =
    elim (get_idempotency_order_id api_key coid db) [
      | none ↦ refused unique_violation
      | some order_id ↦ replayed order_id
    ]
replay_or_raise api_key coid e db = refused e

-- The transaction in a world, and the takes that its replica remembers once it is committed.
unfoldable pub commit :
    Chain
    → ℕ
    → ℕ
    → Draws
    → Settings
    → UserRow
    → PlaceOrderRequest
    → Prepared
    → World
    → Placement × World
unfolding transact use_quote
commit chain now tick draws settings user payload p w =
    elim (transact chain now tick draws w settings user payload p w.db) [
      | err e ↦ (replay_or_raise user.api_key payload.client_order_id e w.db, w)
      | ok (match, db') ↦ (
        placed p match,
        use_match tick (house_quote payload.token_id w) match (record w { db = db' }),
      )
    ]

abbrev pub earlier_order : ℕ → Option ℕ → Db → Option ℕ
earlier_order api_key none read = none
earlier_order api_key (some coid) read = get_idempotency_order_id api_key coid read

-- `place_order`, up to its settlement.
unfoldable pub place_order :
    Chain
    → ℕ
    → ℕ
    → ℕ
    → Draws
    → Settings
    → UserRow
    → PlaceOrderRequest
    → Db
    → World
    → Placement × World
unfolding prepare commit
place_order chain now tick salt draws settings user payload read w =
    if is_gtd payload.order_type && ltb payload.expiration (now + expiry_min_lead)
    then (refused expires_too_soon, w)
    else elim (earlier_order user.api_key payload.client_order_id read) [
      | some order_id ↦ (replayed order_id, w)
      | none ↦ elim (prepare chain now salt settings user payload read) [
        | err e ↦ (refused e, w)
        | ok (p, _) ↦ commit chain now tick draws settings user payload p w
      ]
    ]
