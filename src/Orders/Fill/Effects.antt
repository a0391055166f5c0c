-- ===== src/Orders/Fill/Effects.antt =====
-- What one fill writes, and what it cannot do.
use agentpit.Prelude.{
  length, ◌+◌, ℕ, ◌-◌, ◌<◌, ◌≡◌, ◌≢◌, refl, true, none, some, List, [], ◌∷◌, ◌++◌, ==_iff, arith,
  if◌then◌else◌, Option-cases, inl, inr, ◌∙◌,
}
use agentpit.Exchange.{buy, is_buy, orders_cross}
use agentpit.Exchange.Amounts.{price_int}
use agentpit.Replica.{Take}
use agentpit.Store.{
  Db, OrderData, OrderRow, matched, mint, normal, fok, find_order, resolve_by_token_id,
}
use agentpit.Orders.{ok, Chain, House, Quote, insert_order, get_order_row, new_row}
use agentpit.Orders.Fill.Terms.{
  house_row_of, trade_row_of, market_key, status_with, status_with_lem,
}
use agentpit.Orders.Fill.{
  Match, Draws, house_order_of, status_after, take_house, add_trade, trade_of, market_of,
}
use agentpit.Orders.Fill.Rows.{
  filled_row, after_fill, distinct_ids, find-after_fill, length-after_fill,
}

price_int-ne-none : (m t : ℕ) → 0 < m → 0 < t → price_int buy m t ≢ none
unfolding price_int
price_int-ne-none m t h k = ground arith

-- The match that a fill of `size` shares for `amount` of the house's collateral makes.
abbrev pub match_of :
    Chain → Draws → House → OrderRow → OrderData → Quote → List Take → ℕ → ℕ → Match
match_of chain draws house row order quote takes size amount =
    let buying = is_buy row.order.side in
    let house_order = house_order_of draws.salt house buying order quote amount size in
    record {
      takes = takes;
      size = size;
      house_amount = amount;
      agent_amount = if buying then size - amount else size;
      kind = if buying then mint else normal;
      house_order = house_order;
      house_signature = chain.sign house.eth_key house_order;
      trade_id = chain.trade_id row.order_id (chain.order_hash house_order) draws.nonce;
    }

-- What a fill has done to the tables.
pub record Filled (now : ℕ) (house : House) (row : OrderRow) (house_id : ℕ) (db : Db) (m : Match)
    (db' : Db) : Type 0 where
  -- The agent's row has the fill taken off what was left, and rests only if something is left and
  -- the order may rest.
  pub agent_row :
      find_order row.order_id db'
      ≡ some (
          filled_row
            (row.remaining - m.size)
            (status_with (row.remaining - m.size) row.order_type)
            row)
  -- The price of the house's order.
  pub price : ℕ
  pub priced : price_int buy m.house_amount m.size ≡ some price
  -- The house's order is in, filled.
  pub house_row : find_order house_id db' ≡ some (house_row_of now house house_id price m)
  -- It is the only new row, and no other order is touched.
  pub one_more : length db'.orders ≡ length db.orders + 1
  pub others : (i : ℕ) → i ≢ row.order_id → i ≢ house_id → find_order i db' ≡ find_order i db
  -- One trade is added, and no table but the orders and the trades is touched.
  pub tables : db' ≡ record db {
    orders = db'.orders;
    trades =
        db.trades
        ++ trade_row_of now house row house_id price
            (market_key row.order.token_id (resolve_by_token_id row.order.token_id db))
            m
          ∷ [];
  }

find-add_trade :
    (now : ℕ) (taker maker : OrderRow) (m : Match) (db : Db) (i : ℕ)
    → find_order i (add_trade now taker maker m db) ≡ find_order i db
unfolding add_trade
find-add_trade now taker maker m db i = refl

insert_order-fresh :
    (new : OrderRow) (db : Db)
    → find_order new.order_id db ≡ none
    → insert_order new db ≡ ok (tt, record db { orders = db.orders ++ new ∷ [] })
unfolding insert_order
insert_order-fresh new db h = rw (h, insert_order) refl

get_order_row-found :
    (i : ℕ) (db : Db) {row : OrderRow}
    → find_order i db ≡ some row
    → get_order_row i db ≡ ok (row, db)
unfolding get_order_row
get_order_row-found i db h = rw (h, get_order_row) refl

-- The tables with the trade, where only orders were changed before it.
add_trade-tables :
    (now : ℕ) (house : House) (row : OrderRow) (house_id price : ℕ) (m : Match) (db : Db)
    (orders : List OrderRow)
    → add_trade now row (house_row_of now house house_id price m) m (record db { orders = orders })
      ≡ record db {
        orders = orders;
        trades =
            db.trades
            ++ trade_row_of now house row house_id price
                (market_key row.order.token_id (resolve_by_token_id row.order.token_id db))
                m
              ∷ [];
      }
unfolding add_trade trade_of market_of resolve_by_token_id
add_trade-tables now house row house_id price m db orders = ground arith

pub take_house_lem :
    (chain : Chain) (now : ℕ) (draws : Draws) (house : House) (row : OrderRow) (quote : Quote)
    (takes : List Take) (size amount : ℕ) (db : Db)
    → 0 < amount
    → amount < size
    → orders_cross row.order.maker_amount row.order.taker_amount row.order.side amount size ≡ true
    → find_order row.order_id db ≡ some row
    → let m = match_of chain draws house row row.order quote takes size amount in
      let house_id = chain.order_hash m.house_order in
      find_order house_id db ≡ none
      → (db' : Db) × (take_house chain now draws house row row.order quote takes size amount db
          ≡ ok (some m, db'))
        × Filled now house row house_id db m db'
unfolding take_house add_trade
take_house_lem chain now draws house row quote takes size amount db pa lt cross there fresh =
    elim (Option-cases (price_int buy amount size)) [
      | inl bad ↦ absurd (price_int-ne-none amount size pa (omega arith) bad)
      | inr priced ↦
          let m = match_of chain draws house row row.order quote takes size amount in
          let house_id = chain.order_hash m.house_order in
          let new =
            new_row house_id house.api_key priced.0 now fok m.house_order m.house_signature in
          let left = row.remaining - size in
          let found =
            find-after_fill db row new left (status_after left row.order_type) there fresh in
          let db1 = after_fill db row new left (status_after left row.order_type) in
          let house_row = filled_row 0 matched new in
          let house_found : find_order house_id db1 ≡ some house_row = ground (
            arith,
            found house_id,
            distinct_ids db row new left (status_after left row.order_type) there fresh,
            ==_iff row.order_id house_id,
            ==_iff house_id row.order_id,
            ==_iff house_id house_id,
          ) in
          let same = find-add_trade now row house_row m db1 in
          (
            add_trade now row house_row m db1,
            ground (
              arith,
              cross,
              priced.1,
              insert_order-fresh new db fresh,
              get_order_row-found house_id db1 house_found,
            ),
            record {
              agent_row =
                  same row.order_id
                  ∙ ground (
                    arith,
                    found row.order_id,
                    ==_iff row.order_id row.order_id,
                    status_with_lem left row.order_type,
                  );
              price = priced.0;
              priced = priced.1;
              house_row = same house_id ∙ house_found;
              one_more = length-after_fill db row new left (status_after left row.order_type);
              others = λ i a b.
                  same i ∙ ground (arith, found i, ==_iff i row.order_id, ==_iff i house_id);
              tables = add_trade-tables now house row house_id priced.0 m db db1.orders;
            },
          )
    ]
