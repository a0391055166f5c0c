-- ===== src/Orders/Cancel/Exact.antt =====
-- The cancels of services/order_service.py: which orders a call takes and what it answers.
use agentpit.Prelude.{
  ℕ, ◌≡◌, refl, Bool, true, false, not, ◌&&◌, Option, none, some, List, [], ◌∷◌, filter, any,
  length, ◌==◌, ==_iff, arith, if◌then◌else◌, ap, ◌∙◌,
}
use agentpit.Store.{
  Db, OrderRow, OrderStatus, member, find, find_order, update_where, set_status, count_live_orders,
}
use agentpit.Store.Rows.{find-update_by, map_row, find_id}
use agentpit.Orders.Cancel.{
  dedup, mine, ids_of, taken, response, cancel_orders, cancel_all, cancel_market_orders, passes,
}

member-filter : (p : ℕ → Bool) (a : ℕ) (l : List ℕ) → member a (filter p l) ≡ member a l && p a
member-filter p a [] = refl
member-filter p a (x ∷ l) = ground (arith, member-filter p a l, ==_iff x a)

member-dedup : (a : ℕ) (l : List ℕ) → member a (dedup l) ≡ member a l
unfolding dedup
member-dedup a [] = refl
member-dedup a (x ∷ l) =
    ground (arith, member-dedup a l, member-filter (λ y. not (y == x)) a (dedup l))

-- The rows an id selects are one row, as ORDER_ID is the primary key.
abbrev pub UniqueOrders : List OrderRow → Type 0
UniqueOrders [] = Unit
UniqueOrders (r ∷ rows) = (member r.order_id (ids_of rows) ≡ false) × UniqueOrders rows

abbrev pub is_mine : ℕ → ℕ → Option OrderRow → Bool
is_mine now api_key none = false
is_mine now api_key (some r) = mine now api_key r

unselected :
    (p : OrderRow → Bool) (i : ℕ) (rows : List OrderRow)
    → member i (ids_of rows) ≡ false
    → member i (ids_of (filter p rows)) ≡ false
unselected p i [] h = refl
unselected p i (r ∷ rows) h = ground (arith, unselected p i rows)

-- Whether the update returned an id.
member-returned :
    (now api_key : ℕ) (ids : List ℕ) (i : ℕ) (rows : List OrderRow)
    → UniqueOrders rows
    → member i (ids_of (filter (taken now api_key ids) rows))
      ≡ member i ids && is_mine now api_key (find (λ r. r.order_id == i) rows)
member-returned now api_key ids i [] u = ground arith
member-returned now api_key ids i (r ∷ rows) u = ground (
  arith,
  member-returned now api_key ids i rows u.1,
  unselected (taken now api_key ids) i rows,
  ==_iff r.order_id i,
  u.0,
)

update_none :
    (now api_key : ℕ) (rows : List OrderRow)
    → update_where (taken now api_key []) (set_status OrderStatus.cancelled) rows ≡ rows
update_none now api_key [] = refl
update_none now api_key (r ∷ rows) = ap (λ l. r ∷ l) (update_none now api_key rows)

-- The early return takes no row.
cancel_orders_db :
    (now api_key : ℕ) (order_ids : List ℕ) (db : Db)
    → (cancel_orders now api_key order_ids db).1.orders
      ≡ update_where
          (taken now api_key (dedup order_ids))
          (set_status OrderStatus.cancelled)
          db.orders
unfolding cancel_orders
cancel_orders_db now api_key order_ids db = ground (arith, update_none now api_key db.orders)

cancel_orders-response :
    (now api_key : ℕ) (order_ids : List ℕ) (db : Db)
    → (cancel_orders now api_key order_ids db).0
      ≡ response (dedup order_ids) (ids_of (filter (taken now api_key (dedup order_ids)) db.orders))
unfolding cancel_orders
cancel_orders-response now api_key order_ids db = ground arith

taken_at :
    (now api_key : ℕ) (ids : List ℕ) (i : ℕ) (o : Option OrderRow)
    → ((r : OrderRow) → o ≡ some r → r.order_id ≡ i)
    → map_row
        (λ r. if taken now api_key (dedup ids) r then set_status OrderStatus.cancelled r else r)
        o
      ≡ map_row
          (λ r.
            if member i ids && mine now api_key r then set_status OrderStatus.cancelled r else r)
          o
taken_at now api_key ids i none h = refl
taken_at now api_key ids i (some r) h = ground (arith, h r refl, member-dedup i ids)

-- `cancel_orders` cancels the account's live orders that were asked for, and changes no other row.
pub cancel_orders_rows :
    (now api_key : ℕ) (order_ids : List ℕ) (db : Db) (i : ℕ)
    → find_order i (cancel_orders now api_key order_ids db).1
      ≡ map_row
          (λ r.
            if member i order_ids && mine now api_key r
            then set_status OrderStatus.cancelled r
            else r)
          (find_order i db)
cancel_orders_rows now api_key order_ids db i =
    ap (find (λ r. r.order_id == i)) (cancel_orders_db now api_key order_ids db)
    ∙ find-update_by i (taken now api_key (dedup order_ids)) (set_status OrderStatus.cancelled)
        db.orders (λ _. refl)
    ∙ taken_at now api_key order_ids i (find_order i db) (λ r e. find_id i db.orders {r = r} e)

-- With unique order ids, an id is among the cancelled ones exactly where it was asked for and names
-- a live order of the account, and among the others exactly where it was asked for and does not.
pub cancel_orders_answer :
    (now api_key : ℕ) (order_ids : List ℕ) (db : Db) (i : ℕ)
    → UniqueOrders db.orders
    → (member i (cancel_orders now api_key order_ids db).0.canceled
        ≡ member i order_ids && is_mine now api_key (find_order i db))
      × (member i (cancel_orders now api_key order_ids db).0.not_canceled
          ≡ member i order_ids && not (is_mine now api_key (find_order i db)))
cancel_orders_answer now api_key order_ids db i u =
    let done = ids_of (filter (taken now api_key (dedup order_ids)) db.orders) in
    ground (
      arith,
      cancel_orders-response now api_key order_ids db,
      member-filter (λ j. member j done) i (dedup order_ids),
      member-filter (λ j. not (member j done)) i (dedup order_ids),
      member-returned now api_key (dedup order_ids) i db.orders u,
      member-dedup i order_ids,
    )

selected_later :
    (q : OrderRow → Bool) (i : ℕ) (r : OrderRow) (rows : List OrderRow)
    → member i (ids_of (filter q rows)) ≡ true
    → member i (ids_of (filter q (r ∷ rows))) ≡ true
selected_later q i r rows h = ground arith

-- Every selected row is named by a list that has the selected ids.
all_named :
    (q : OrderRow → Bool) (ids : List ℕ) (rows : List OrderRow)
    → ((i : ℕ) → member i (ids_of (filter q rows)) ≡ true → member i ids ≡ true)
    → any (λ r. q r && not (member r.order_id ids)) rows ≡ false
all_named q ids [] h = refl
all_named q ids (r ∷ rows) h =
    let here = h r.order_id in
    let later = all_named q ids rows (λ i e. h i (selected_later q i r rows e)) in
    ground (arith, here, later, ==_iff r.order_id r.order_id)

-- No row passes a test of live orders once the named rows that pass it are cancelled.
none_left :
    (now api_key : ℕ) (ids : List ℕ) (q : OrderRow → Bool) (rows : List OrderRow)
    → ((r : OrderRow) → q (set_status OrderStatus.cancelled r) ≡ false)
    → ((r : OrderRow) → q r ≡ true → mine now api_key r ≡ true)
    → any (λ r. q r && not (member r.order_id ids)) rows ≡ false
    → filter q (update_where (taken now api_key ids) (set_status OrderStatus.cancelled) rows) ≡ []
none_left now api_key ids q [] dead own h = refl
none_left now api_key ids q (r ∷ rows) dead own h =
    ground (arith, none_left now api_key ids q rows dead own, dead r, own r)

-- A call with the ids of the rows that pass a test leaves no row that passes it.
cancel_orders_clears :
    (now api_key : ℕ) (q : OrderRow → Bool) (db : Db)
    → ((r : OrderRow) → q (set_status OrderStatus.cancelled r) ≡ false)
    → ((r : OrderRow) → q r ≡ true → mine now api_key r ≡ true)
    → filter q (cancel_orders now api_key (ids_of (filter q db.orders)) db).1.orders ≡ []
cancel_orders_clears now api_key q db dead own =
    let ids = ids_of (filter q db.orders) in
    let named = all_named q (dedup ids) db.orders (λ i e. member-dedup i ids ∙ e) in
    ap (filter q) (cancel_orders_db now api_key ids db)
    ∙ none_left now api_key (dedup ids) q db.orders dead own named

-- After `cancel_market_orders`, the account has no live order that passes its filters.
cancel_market_orders_clears :
    (now api_key : ℕ) (market asset_id : Option ℕ) (db : Db)
    → filter
        (λ r. mine now api_key r && passes market asset_id db r)
        (cancel_market_orders now api_key market asset_id db).1.orders
      ≡ []
unfolding cancel_market_orders
cancel_market_orders_clears now api_key market asset_id db =
    cancel_orders_clears now api_key (λ r. mine now api_key r && passes market asset_id db r) db
      (λ r. ground arith) (λ r e. ground arith)

-- After `cancel_all`, the account has no live order.
cancel_all_clears :
    (now api_key : ℕ) (db : Db) → count_live_orders now api_key (cancel_all now api_key db).1 ≡ 0
unfolding cancel_all count_live_orders
cancel_all_clears now api_key db =
    ap length
      (cancel_orders_clears now api_key (mine now api_key) db (λ r. ground arith) (λ r e. e))
