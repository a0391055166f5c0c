-- ===== src/Store.antt =====
-- db/table_create.py, db/table_read.py, db/table_write.py: the tables that order placement and
-- settlement share, and their statements. Ids, keys, hashes and addresses are numbers, compared
-- for equality only. A transaction that raises leaves the tables as they were (db/session.py).
pub mod Holdings
pub mod Gas
pub mod Rows
use agentpit.Prelude.{
  ℕ, zero, suc, ◌+◌, ◌-◌, Bool, true, false, not, ◌&&◌, ◌||◌, Option, none, some, List, [], ◌∷◌,
  ◌++◌, map, filter, any, length, ltb, leb, ◌==◌, if◌then◌else◌,
}
use agentpit.Prelude.Dict.{get, put, pairs_eq}
use agentpit.Exchange.{Side}

pub data OrderType : Type 0 where
  gtc gtd fok fak : OrderType

pub data OrderStatus : Type 0 where
  live matched cancelled : OrderStatus

pub data TradeStatus : Type 0 where
  pending confirmed failed mirrored : TradeStatus

pub data MatchKind : Type 0 where
  normal mint merge : MatchKind

pub data MarketState : Type 0 where
  draft active closed resolved cancelled : MarketState

abbrev state_code : MarketState → ℕ
state_code draft = 0
state_code active = 1
state_code closed = 2
state_code resolved = 3
state_code MarketState.cancelled = 4

abbrev pub same_state : MarketState → MarketState → Bool
same_state a b = state_code a == state_code b

-- onchain/order_signer.py: the signed order.
pub record OrderData : Type 0 where
  pub salt : ℕ
  pub maker : ℕ
  pub signer : ℕ
  pub taker : ℕ
  pub token_id : ℕ
  pub maker_amount : ℕ
  pub taker_amount : ℕ
  pub expiration : ℕ
  pub nonce : ℕ
  pub fee_rate_bps : ℕ
  pub side : Side
  pub signature_type : ℕ

-- A row of `orders`: `order` and `signature` stand for the columns that repeat them and for
-- ORDER_JSON, which holds both.
pub record OrderRow : Type 0 where
  pub order_id : ℕ
  pub api_key : ℕ
  pub price : ℕ
  pub order_type : OrderType
  pub order : OrderData
  pub signature : ℕ
  pub status : OrderStatus
  pub remaining : ℕ
  pub created_at : ℕ

-- A row of `trades`: of MAKER_ORDERS the id of the one maker order.
pub record TradeRow : Type 0 where
  pub trade_id : ℕ
  pub taker_order_id : ℕ
  pub maker_order_id : ℕ
  pub market : ℕ
  pub asset_id : ℕ
  pub maker_asset_id : ℕ
  pub kind : MatchKind
  pub price : ℕ
  pub trade_size : ℕ
  pub remaining_size : ℕ
  pub side : Side
  pub status : TradeStatus
  pub match_time : ℕ
  pub transaction_hash : Option ℕ
  pub taker_api_key : ℕ
  pub maker_api_key : ℕ

pub record MarketRow : Type 0 where
  pub market_id : ℕ
  pub condition_id : ℕ
  pub event_id : Option ℕ
  pub tokens : List ℕ
  pub state : MarketState
  pub payouts : Option (ℕ × ℕ)
  pub resolved_at : Option ℕ

pub record UserRow : Type 0 where
  pub user_id : ℕ
  pub api_key : ℕ
  pub eth_address : ℕ
  pub eth_key : ℕ
  pub is_bot : Bool

pub record CompetitionRow : Type 0 where
  pub slug : ℕ
  pub starts_at : ℕ
  pub ends_at : ℕ
  pub has_prizes : Bool

pub record EntryRow : Type 0 where
  pub slug : ℕ
  pub user_id : ℕ
  pub enrolled_at : ℕ
  pub start_raw : Option ℕ
  pub end_raw : Option ℕ

-- A row of `transactions`: the landed splits (true) and merges (false).
pub record TransferRow : Type 0 where
  pub api_key : ℕ
  pub split : Bool
  pub market_id : ℕ
  pub amount : ℕ

pub record Db : Type 0 where
  pub orders : List OrderRow
  pub trades : List TradeRow
  pub markets : List MarketRow
  pub users : List UserRow
  pub competitions : List CompetitionRow
  pub entries : List EntryRow
  pub transfers : List TransferRow
  pub idempotency : List ((ℕ × ℕ) × ℕ)
  pub sponsored_gas : List ((ℕ × ℕ) × ℕ)

abbrev pub expiry_grace : ℕ
expiry_grace = 60

abbrev pub is_live_status : OrderStatus → Bool
is_live_status live = true
is_live_status _ = false

-- `LIVE_ORDER`
abbrev pub live_order : ℕ → OrderRow → Bool
live_order now row =
    is_live_status row.status
    && (row.order.expiration == 0 || ltb (now + expiry_grace) row.order.expiration)

-- The first row that passes a test: a `SELECT ... LIMIT 1`.
abbrev pub find {ℓ} : {A : Type ℓ} → (A → Bool) → List A → Option A
find p [] = none
find p (x ∷ xs) = if p x then some x else find p xs

-- `UPDATE ... WHERE`: the rows that pass the test are rewritten.
abbrev pub update_where {ℓ} : {A : Type ℓ} → (A → Bool) → (A → A) → List A → List A
update_where p f [] = []
update_where p f (x ∷ xs) = (if p x then f x else x) ∷ update_where p f xs

abbrev pub find_order : ℕ → Db → Option OrderRow
find_order i db = find (λ row. row.order_id == i) db.orders

abbrev pub find_market : ℕ → Db → Option MarketRow
find_market i db = find (λ m. m.market_id == i) db.markets

abbrev pub set_status : OrderStatus → OrderRow → OrderRow
set_status s row = record row { status = s }

abbrev pub member : ℕ → List ℕ → Bool
member a l = any (λ b. b == a) l

-- resolve.py: `resolve_by_token_id`, the market that has the token.
unfoldable pub resolve_by_token_id : ℕ → Db → Option MarketRow
resolve_by_token_id token db = find (λ m. member token m.tokens) db.markets

unfoldable pub get_idempotency_order_id : ℕ → ℕ → Db → Option ℕ
get_idempotency_order_id api_key client_id db = get db.idempotency (api_key, client_id)

-- `count_live_orders`
unfoldable pub count_live_orders : ℕ → ℕ → Db → ℕ
count_live_orders now api_key db =
    length (filter (λ row. row.api_key == api_key && live_order now row) db.orders)

abbrev on_active : Db → ℕ → Bool
on_active db token = any (λ m. same_state m.state active && member token m.tokens) db.markets

unfoldable pub count_live_orders_on_active_markets : ℕ → ℕ → Db → ℕ
count_live_orders_on_active_markets now api_key db = length (
    filter
      (λ row. row.api_key == api_key && (on_active db row.order.token_id && live_order now row))
      db.orders)

-- `set_market_state`: whether the row was in the expected state, and the tables after.
unfoldable pub set_market_state :
    ℕ → ℕ → MarketState → MarketState → Option (ℕ × ℕ) → Db → Bool × Db
set_market_state now market_id expected new payouts db =
    let hit = λ (m : MarketRow). m.market_id == market_id && same_state m.state expected in
    (
      any hit db.markets,
      record db {
        markets =
            update_where hit
              (λ m. record m {
                state = new;
                payouts = payouts;
                resolved_at = if same_state new resolved then some now else none;
              })
              db.markets;
      },
    )

-- The tokens of every market of that id.
abbrev pub market_tokens : ℕ → List MarketRow → ℕ → Bool
market_tokens market_id markets token =
    any (λ m. m.market_id == market_id && member token m.tokens) markets

-- `cancel_all_market_orders`
unfoldable pub cancel_all_market_orders : ℕ → ℕ → Db → Db
cancel_all_market_orders now market_id db = record db {
  orders =
      update_where
        (λ row. market_tokens market_id db.markets row.order.token_id && live_order now row)
        (set_status OrderStatus.cancelled) db.orders;
}

abbrev is_failed : TradeStatus → Bool
is_failed failed = true
is_failed _ = false

-- `settle_trades`: a failed trade takes the rest of its live taker order with it.
unfoldable pub settle_trades : ℕ → List ℕ → TradeStatus → Option ℕ → Db → Db
settle_trades now ids status hash db =
    let trades =
      update_where (λ (t : TradeRow). member t.trade_id ids)
        (λ t. record t { status = status; transaction_hash = hash }) db.trades in
    record db {
      trades = trades;
      orders =
          if is_failed status
          then update_where
              (λ row.
                any (λ (t : TradeRow). t.taker_order_id == row.order_id && member t.trade_id ids)
                  trades
                && live_order now row)
              (set_status OrderStatus.cancelled) db.orders
          else db.orders;
    }

-- `halted`: whether an ended competition still owes the account its end value.
abbrev is_none : Option ℕ → Bool
is_none none = true
is_none (some _) = false

unfoldable pub halted : ℕ → ℕ → Db → Bool
halted user_id now db =
    any
      (λ (e : EntryRow).
        (e.user_id == user_id && (not (is_none e.start_raw) && is_none e.end_raw))
        && any (λ (c : CompetitionRow). c.slug == e.slug && leb c.ends_at now) db.competitions)
      db.entries
