-- ===== src/Orders/Open.antt =====
-- services/order_service.py: `list_open_orders`. Amounts are in micro units where the source prints
-- them as decimals; of the outcome's label nothing is kept.
use agentpit.Prelude.{
  ℕ, ◌-◌, ◌≡◌, ◌≤◌, refl, Bool, true, ◌&&◌, Option, none, some, List, [], ◌∷◌, filter, leb, ◌==◌,
  if◌then◌else◌, arith, length,
}
use agentpit.Exchange.{Side}
use agentpit.Store.{Db, OrderRow, OrderType, UserRow, resolve_by_token_id, count_live_orders}
use agentpit.Orders.{shares_of}
use agentpit.Orders.Cancel.{mine}

pub record OpenOrder : Type 0 where
  pub id : ℕ
  pub owner : ℕ
  pub maker_address : ℕ
  pub market : ℕ
  pub asset_id : ℕ
  pub side : Side
  pub original_size : ℕ
  pub size_matched : ℕ
  pub price : ℕ
  pub created_at : ℕ
  pub expiration : ℕ
  pub order_type : OrderType

abbrev is_or_any : Option ℕ → ℕ → Bool
is_or_any none n = true
is_or_any (some m) n = n == m

-- The clauses of the query.
abbrev pub selected : ℕ → ℕ → Option ℕ → Option ℕ → OrderRow → Bool
selected now api_key asset_id order_id row =
    mine now api_key row
    && (is_or_any asset_id row.order.token_id && is_or_any order_id row.order_id)

abbrev open_order : UserRow → ℕ → OrderRow → OpenOrder
open_order user condition_id row = record {
  id = row.order_id;
  owner = user.user_id;
  maker_address = row.order.maker;
  market = condition_id;
  asset_id = row.order.token_id;
  side = row.order.side;
  original_size = shares_of row.order;
  size_matched = shares_of row.order - row.remaining;
  price = row.price;
  created_at = row.created_at;
  expiration = row.order.expiration;
  order_type = row.order_type;
}

-- The loop over the rows.
unfoldable pub listed : UserRow → Option ℕ → Db → List OrderRow → List OpenOrder
listed user market db [] = []
listed user market db (row ∷ rows) =
    let rest = listed user market db rows in
    elim (resolve_by_token_id row.order.token_id db) [
      | none ↦ rest
      | some found ↦
          if is_or_any market found.condition_id
          then open_order user found.condition_id row ∷ rest
          else rest
    ]

insert_newest : OrderRow → List OrderRow → List OrderRow
insert_newest row [] = row ∷ []
insert_newest row (x ∷ xs) =
    let rest = insert_newest row xs in
    if leb x.created_at row.created_at then row ∷ x ∷ xs else x ∷ rest

-- `ORDER BY CREATED_AT DESC`
unfoldable pub newest_first : List OrderRow → List OrderRow
unfolding insert_newest
newest_first [] = []
newest_first (x ∷ xs) = insert_newest x (newest_first xs)

unfoldable pub list_open_orders : ℕ → UserRow → Option ℕ → Option ℕ → Option ℕ → Db → List OpenOrder
unfolding listed newest_first
list_open_orders now user market asset_id order_id db =
    listed user market db
      (newest_first (filter (selected now user.api_key asset_id order_id) db.orders))

length-insert_newest :
    (row : OrderRow) (rows : List OrderRow) → length (insert_newest row rows) ≡ length (row ∷ rows)
unfolding insert_newest
length-insert_newest row [] = refl
length-insert_newest row (x ∷ xs) = ground (arith, length-insert_newest row xs)

length-newest_first : (rows : List OrderRow) → length (newest_first rows) ≡ length rows
unfolding newest_first
length-newest_first [] = refl
length-newest_first (x ∷ xs) =
    ground (arith, length-newest_first xs, length-insert_newest x (newest_first xs))

length-listed :
    (user : UserRow) (market : Option ℕ) (db : Db) (rows : List OrderRow)
    → length (listed user market db rows) ≤ length rows
unfolding listed
length-listed user market db [] = omega arith
length-listed user market db (row ∷ rows) = ground (arith, length-listed user market db rows)

length-selected :
    (now api_key : ℕ) (asset_id order_id : Option ℕ) (rows : List OrderRow)
    → length (filter (selected now api_key asset_id order_id) rows)
      ≤ length (filter (mine now api_key) rows)
length-selected now api_key asset_id order_id [] = omega arith
length-selected now api_key asset_id order_id (r ∷ rows) =
    ground (arith, length-selected now api_key asset_id order_id rows)

-- However it is filtered, the list has no more entries than the account has live orders.
length-list_open_orders :
    (now : ℕ) (user : UserRow) (market asset_id order_id : Option ℕ) (db : Db)
    → length (list_open_orders now user market asset_id order_id db)
      ≤ count_live_orders now user.api_key db
unfolding list_open_orders count_live_orders
length-list_open_orders now user market asset_id order_id db =
    let rows = filter (selected now user.api_key asset_id order_id) db.orders in
    omega (
      arith,
      length-listed user market db (newest_first rows),
      length-newest_first rows,
      length-selected now user.api_key asset_id order_id db.orders,
    )
