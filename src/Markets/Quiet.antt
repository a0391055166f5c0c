-- ===== src/Markets/Quiet.antt =====
-- services/market_service.py: the orders that a transition leaves.
use agentpit.Prelude.{ℕ, ◌≡◌, refl, Bool, true, false, ◌&&◌, Option, any, arith}
use agentpit.Store.{
  Db, MarketState, live_order, market_tokens, set_market_state, cancel_all_market_orders,
}
use agentpit.Store.Rows.{cancelled_rows}
use agentpit.Markets.{returned, transition}

-- Whether an order that is live rests on a token of the market.
abbrev pub has_live_order : ℕ → ℕ → Db → Bool
has_live_order now market_id db =
    any (λ row. market_tokens market_id db.markets row.order.token_id && live_order now row)
      db.orders

cancel_all-quiet :
    (now market_id : ℕ) (db : Db)
    → has_live_order now market_id (cancel_all_market_orders now market_id db) ≡ false
unfolding cancel_all_market_orders
cancel_all-quiet now market_id db =
    cancelled_rows now (λ row. market_tokens market_id db.markets row.order.token_id) db.orders
      (λ row. refl)

-- After a transition that took place, no order on the market's tokens is live.
pub transition-quiet :
    (now market_id : ℕ) (expected new : MarketState) (payouts : Option (ℕ × ℕ)) (db : Db)
    → (transition now market_id expected new payouts db).0 ≡ returned true
    → has_live_order now market_id (transition now market_id expected new payouts db).1 ≡ false
unfolding transition
transition-quiet now market_id expected new payouts db e =
    let db' = (set_market_state now market_id expected new payouts db).1 in
    ground (arith, cancel_all-quiet now market_id db')
