-- ===== src/Orders.antt =====
-- services/order_service.py: what the operations of `OrderService` share. A call reads the wall
-- clock once, in seconds, and the monotonic clock once, in nanoseconds. Random values and the
-- hashes are arguments.
pub mod Fill
pub mod Place
pub mod Cancel
pub mod Settle
pub mod Sweep
pub mod Replay
pub mod Legs
pub mod Open
use agentpit.Prelude.{
  ℕ, Bool, true, false, Option, none, some, List, [], ◌∷◌, ◌++◌, ◌==◌, if◌then◌else◌,
}
use agentpit.Prelude.Dict.{put, nat_eq}
use agentpit.Exchange.{Side, is_buy}
use agentpit.Replica.{BookReplica, Take}
use agentpit.Replica.Depth.{use_takes}
use agentpit.Feed.{MirrorState, MarketRef}
use agentpit.Feed
use agentpit.Store.{Db, OrderData, OrderRow, OrderType, OrderStatus, live, find_order}

-- The exceptions that an operation raises.
pub data Error : Type 0 where
  expires_too_soon unknown_token bad_size too_small too_many_orders gas_budget_used gas_paused :
      Error
  insufficient_balance bad_amounts unique_violation market_not_active trading_halted : Error
  over_event_cap not_crossing not_filled order_missing no_account : Error

pub data Result (A : Type 0) : Type 0 where
  ok : A → Result A
  err : Error → Result A

-- A step of a database transaction: one that raises has no tables to go on from.
abbrev pub Tx : Type 0 → Type 0
Tx A = Db → Result (A × Db)

abbrev pub Done : Type 0
Done = Unit {0}

infixl 5 ◌>>=◌ ◌>>◌
abbrev pub ◌>>=◌ : {A B : Type 0} → Tx A → (A → Tx B) → Tx B
◌>>=◌ m f db = elim (m db) [ ok (a, db') ↦ f a db' | err e ↦ err e ]

abbrev pub ◌>>◌ : {B : Type 0} → Tx Done → Tx B → Tx B
m >> k = m >>= λ _. k

abbrev pub pure : {A : Type 0} → A → Tx A
pure a db = ok (a, db)

abbrev pub raise : {A : Type 0} → Error → Tx A
raise e db = err e

abbrev pub guard : Bool → Error → Tx Done
guard true e db = ok (tt, db)
guard false e db = err e

abbrev pub gets : {A : Type 0} → (Db → A) → Tx A
gets f db = ok (f db, db)

abbrev pub modify : (Db → Db) → Tx Done
modify f db = ok (tt, f db)

-- What the service calls and does not implement: the hash of an order, its signature under a key,
-- a trade's id, and the chain's balances and its gas pause.
pub record Chain : Type 0 where
  pub order_hash : OrderData → ℕ
  pub sign : ℕ → OrderData → ℕ
  pub trade_id : ℕ → ℕ → ℕ → ℕ
  pub usd_balance : ℕ → ℕ
  pub ctf_balance : ℕ → ℕ → ℕ
  pub gas_paused : Bool

-- `feed.House`: the house account.
pub record House : Type 0 where
  pub eth_address : ℕ
  pub eth_key : ℕ
  pub api_key : ℕ

pub record World : Type 0 where
  pub db : Db
  pub house : Option House
  pub mirror : MirrorState

-- `feed.quote`
abbrev pub Quote : Type 0
Quote = MarketRef × Bool × BookReplica

unfoldable pub house_quote : ℕ → World → Option Quote
house_quote token w = elim w.house [ none ↦ none | some h ↦ Feed.quote token w.mirror ]

-- `rep.use(takes)` on the mirror's replica.
unfoldable pub use_quote : ℕ → Quote → List Take → MirrorState → MirrorState
use_quote tick (ref, yes_token, rep) takes m = record m {
  replicas = put ref.pm_yes_token (use_takes tick takes rep) m.replicas;
}

-- `_insert_order`: ORDER_ID is the table's primary key.
unfoldable pub insert_order : OrderRow → Tx Done
insert_order row db = elim (find_order row.order_id db) [
  | none ↦ ok (tt, record db { orders = db.orders ++ row ∷ [] })
  | some old ↦ err unique_violation
]

-- The row that an order is inserted as; REMAINING_AMOUNT is in outcome tokens on both sides.
abbrev pub shares_of : OrderData → ℕ
shares_of o = if is_buy o.side then o.taker_amount else o.maker_amount

abbrev pub new_row : ℕ → ℕ → ℕ → ℕ → OrderType → OrderData → ℕ → OrderRow
new_row order_id api_key price now order_type order signature = record {
  order_id = order_id;
  api_key = api_key;
  price = price;
  order_type = order_type;
  order = order;
  signature = signature;
  status = live;
  remaining = shares_of order;
  created_at = now;
}

-- `_get_order_row`
unfoldable pub get_order_row : ℕ → Tx OrderRow
get_order_row i db = elim (find_order i db) [ none ↦ err order_missing | some row ↦ ok (row, db) ]
