-- ===== src/Orders/Cancel.antt =====
-- services/order_service.py: `cancel_orders`, `cancel_all` and `cancel_market_orders`. The read of
-- the ids and the update of a call are at one clock reading, with no other write between them.
pub mod Exact
use agentpit.Prelude.{
  ℕ, Bool, true, false, not, ◌&&◌, Option, none, some, List, [], ◌∷◌, map, filter, any, ◌==◌,
  if◌then◌else◌,
}
use agentpit.Store.{
  Db, OrderRow, OrderStatus, MarketRow, live_order, member, find, update_where, set_status,
}

-- `CancelOrdersResponse`; the reason that goes with an id of `not_canceled` is one fixed text.
pub record CancelOrdersResponse : Type 0 where
  pub canceled : List ℕ
  pub not_canceled : List ℕ

-- `dict.fromkeys`: the first of each, in order.
unfoldable pub dedup : List ℕ → List ℕ
dedup [] = []
dedup (x ∷ xs) = x ∷ filter (λ y. not (y == x)) (dedup xs)

abbrev pub mine : ℕ → ℕ → OrderRow → Bool
mine now api_key row = row.api_key == api_key && live_order now row

abbrev pub ids_of : List OrderRow → List ℕ
ids_of rows = map (λ row. row.order_id) rows

-- The rows that the update takes.
abbrev pub taken : ℕ → ℕ → List ℕ → OrderRow → Bool
taken now api_key ids row = member row.order_id ids && mine now api_key row

abbrev pub update_orders : ℕ → ℕ → List ℕ → Db → Db
update_orders now api_key ids db = record db {
  orders = update_where (taken now api_key ids) (set_status OrderStatus.cancelled) db.orders;
}

abbrev pub response : List ℕ → List ℕ → CancelOrdersResponse
response ids done = record {
  canceled = filter (λ i. member i done) ids;
  not_canceled = filter (λ i. not (member i done)) ids;
}

-- The method returns before the update where no id is left; it takes no row then.
unfoldable pub cancel_orders : ℕ → ℕ → List ℕ → Db → CancelOrdersResponse × Db
unfolding dedup
cancel_orders now api_key order_ids db = elim (dedup order_ids) [
  | [] ↦ (record { canceled = []; not_canceled = [] }, db)
  | i ∷ is ↦
      let ids = i ∷ is in
      (
        response ids (ids_of (filter (taken now api_key ids) db.orders)),
        update_orders now api_key ids db,
      )
]

unfoldable pub cancel_all : ℕ → ℕ → Db → CancelOrdersResponse × Db
unfolding cancel_orders
cancel_all now api_key db =
    cancel_orders now api_key (ids_of (filter (mine now api_key) db.orders)) db

-- The tokens of the market of a condition: none where there is no such market.
abbrev pub condition_tokens : ℕ → List MarketRow → List ℕ
condition_tokens condition_id markets = elim (find (λ m. m.condition_id == condition_id) markets) [
  | none ↦ []
  | some m ↦ m.tokens
]

abbrev pub passes : Option ℕ → Option ℕ → Db → OrderRow → Bool
passes none none db row = true
passes none (some token) db row = row.order.token_id == token
passes (some c) none db row = member row.order.token_id (condition_tokens c db.markets)
passes (some c) (some token) db row =
    row.order.token_id == token && member row.order.token_id (condition_tokens c db.markets)

unfoldable pub cancel_market_orders : ℕ → ℕ → Option ℕ → Option ℕ → Db → CancelOrdersResponse × Db
unfolding cancel_orders
cancel_market_orders now api_key market asset_id db =
    cancel_orders now api_key
      (ids_of (filter (λ row. mine now api_key row && passes market asset_id db row) db.orders)) db
