-- ===== src/Orders/Sweep/Caps.antt =====
-- services/order_service.py: what a fill of the sweep is limited to.
use agentpit.Prelude.{
  ℕ, ◌≡◌, ◌≤◌, true, ◌&&◌, Option, none, some, ◌==◌, arith, inl, inr, Option-cases,
}
use agentpit.Store.{Db, OrderRow, find, live_order}
use agentpit.Orders.{ok, Chain, World, Quote}
use agentpit.Orders.Fill.{Match, Draws, take_order, wanted_of}
use agentpit.Orders.Fill.Size.{take_order_size}
use agentpit.Orders.Place.{Settings, is_active}
use agentpit.Orders.Place.Checks.{Result-cases}
use agentpit.Orders.Sweep.{charge, fill_fresh, sweep_fill, room_of}

module _ (chain : Chain) (now tick : ℕ) (draws : Draws) (settings : Settings) (w : World)
    (quote : Quote) where
  charge_same :
      (row row' : OrderRow) (match : Option Match) (m : Match) (db db' : Db)
      → charge now settings row match db ≡ ok (some (row', m), db')
      → (row ≡ row') × (match ≡ some m)
  unfolding charge
  charge_same row row' none m db db' e = ground (arith, e)
  charge_same row row' (some n) m db db' e = ground (arith, e)

  fill_fresh_size :
      (row row' : OrderRow) (cap : Option ℕ) (m : Match) (db db' : Db)
      → fill_fresh chain now tick draws settings w quote row cap db ≡ ok (some (row', m), db')
      → (row ≡ row') × (m.size ≤ wanted_of row.remaining cap)
  unfolding fill_fresh
  fill_fresh_size row row' cap m db db' e =
      elim (Result-cases
        (take_order chain now tick draws w.house row row.order (some quote) cap db)) [
          | inl (x, raised) ↦ ground (arith, raised)
          | inr ((match, db₁), took) ↦ ground (
            arith,
            took,
            charge_same row row' match m db₁ db',
            take_order_size chain now tick draws row row.order w.house (some quote) cap db match db₁
                took,
          )
        ]

-- Where the sweep's transaction fills an order, the order is live in the tables and its market
-- active, and the fill is for no more than what is left of it and, for a BUY in a prize run, than
-- the room in its event.
pub sweep_fill_limits :
    (chain : Chain) (now tick : ℕ) (draws : Draws) (settings : Settings) (w : World) (quote : Quote)
    (order_id : ℕ) (row : OrderRow) (m : Match) (db db' : Db)
    → sweep_fill chain now tick draws settings w quote order_id db ≡ ok (some (row, m), db')
    → (is_active quote.0.market_id db ≡ true)
      × (find (λ r. r.order_id == order_id && live_order now r) db.orders ≡ some row)
      × (m.size ≤ wanted_of row.remaining (room_of now quote.0.market_id row db))
unfolding sweep_fill
sweep_fill_limits chain now tick draws settings w (ref, yes_token, rep) order_id row m db db' e =
    elim (Option-cases (find (λ r. r.order_id == order_id && live_order now r) db.orders)) [
      | inl none_live ↦ ground (arith, none_live)
      | inr (fresh, there) ↦ ground (
        arith,
        there,
        fill_fresh_size chain now tick draws settings w (ref, yes_token, rep) fresh row
            (room_of now ref.market_id fresh db) m db db',
      )
    ]
