-- ===== src/Examples/Tables.antt =====
-- The theorems on the tables, at one order, one trade and one market.
use agentpit.Prelude.{
  ◌+◌, ◌*◌, ◌<◌, ◌≡◌, refl, min, true, false, ◌&&◌, not, none, [], ◌∷◌, if◌then◌else◌, arith,
}
use agentpit.Prelude.Dict.{get, pairs_eq}
use agentpit.Store.{Db, OrderStatus, active, closed, find_order, find_market, set_status, member}
use agentpit.Store.Gas.{reserve_times, reserve_times_lem, room_for, sponsored_gas_used}
use agentpit.Store.Rows.{map_row}
use agentpit.Markets.{transition}
use agentpit.Markets.Quiet.{has_live_order, transition-quiet}
use agentpit.Store.{set_market_state}
use agentpit.Markets.Moves.{Moves, pay, operate, operate-Moves}
use agentpit.Orders.Cancel.{mine, cancel_orders}
use agentpit.Orders.Cancel.Exact.{cancel_orders_rows, cancel_orders_answer, is_mine}
use agentpit.Orders.Settle.{sent, receipt, settle, is_failure}
use agentpit.Orders.Settle.Status.{
  final_status, trade_at, map_trade, marked, hash_of, has_live_taker, settle_lem,
}
use agentpit.Store.{TradeRow}
use agentpit.Examples.Data.{db, trade}

reserve_times_lem_example :
    let (k, db') = reserve_times 40 19723 250000 5000000 30 db in
    (k ≡ min 30 (room_for 40 19723 250000 5000000))
    × (sponsored_gas_used 40 19723 db' ≡ k * 250000)
    × (sponsored_gas_used 40 19723 db' < 5000000 + 250000)
unfolding get
reserve_times_lem_example =
    reserve_times_lem 40 19723 250000 5000000 30 db (omega arith) (omega arith) refl

operate-Moves_example :
    Moves (find_market 1 db) (find_market 1 (operate 2000 (λ c. true) 1 (pay (1, 1)) db))
operate-Moves_example = operate-Moves 2000 (λ c. true) 1 (pay (1, 1)) db 1

cancel_orders_rows_example :
    find_order 5 (cancel_orders 2000 40 (5 ∷ 6 ∷ 5 ∷ []) db).1
    ≡ map_row
        (λ r.
          if member 5 (5 ∷ 6 ∷ 5 ∷ []) && mine 2000 40 r
          then set_status OrderStatus.cancelled r
          else r)
        (find_order 5 db)
cancel_orders_rows_example = cancel_orders_rows 2000 40 (5 ∷ 6 ∷ 5 ∷ []) db 5

cancel_orders_answer_example :
    (member 6 (cancel_orders 2000 40 (5 ∷ 6 ∷ 5 ∷ []) db).0.canceled
      ≡ member 6 (5 ∷ 6 ∷ 5 ∷ []) && is_mine 2000 40 (find_order 6 db))
    × (member 6 (cancel_orders 2000 40 (5 ∷ 6 ∷ 5 ∷ []) db).0.not_canceled
        ≡ member 6 (5 ∷ 6 ∷ 5 ∷ []) && not (is_mine 2000 40 (find_order 6 db)))
cancel_orders_answer_example = cancel_orders_answer 2000 40 (5 ∷ 6 ∷ 5 ∷ []) db 6 (refl, tt)

settle_lem_example :
    let status = final_status true (sent 60) (receipt false) in
    let (result, db') = settle 2000 8 true (sent 60) (receipt false) db in
    (trade_at 8 db' ≡ map_trade (marked 8 status (hash_of (sent 60))) (trade_at 8 db))
    × (result.has_failed ≡ is_failure status)
    × (is_failure status && has_live_taker 2000 8 db' ≡ false)
settle_lem_example = settle_lem 2000 8 true (sent 60) (receipt false) db 8

-- The tables once client id 78 is claimed for order 6.
abbrev claimed : Db
claimed = record db { idempotency = ((40, 77), 5) ∷ ((40, 78), 6) ∷ [] }

-- A trade of an account with itself.
abbrev own_trade : TradeRow
own_trade = record trade { maker_api_key = 40 }

transition-quiet_example : has_live_order 2000 1 (transition 2000 1 active closed none db).1 ≡ false
unfolding transition set_market_state
transition-quiet_example = transition-quiet 2000 1 active closed none db refl
