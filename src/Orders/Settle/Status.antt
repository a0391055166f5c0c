-- ===== src/Orders/Settle/Status.antt =====
-- services/order_service.py: what `_settle` makes of a trade and of the order that it filled.
use agentpit.Prelude.{
  ℕ, ◌≡◌, refl, Bool, true, false, ◌&&◌, Option, none, some, List, [], ◌∷◌, any, ◌==◌, ==_iff,
  arith, if◌then◌else◌, ap, ◌∙◌,
}
use agentpit.Store.{
  Db, TradeRow, TradeStatus, pending, confirmed, failed, mirrored, find, update_where,
  settle_trades, live_order, member,
}
use agentpit.Store.Rows.{cancelled_rows}
use agentpit.Orders.Settle.{Submitted, refused, sent, Waited, settle, status_of_wait, is_failure}

-- The status that a trade ends in.
abbrev pub final_status : Bool → Submitted → Waited → TradeStatus
final_status wait refused waited = failed
final_status false (sent h) waited = pending
final_status true (sent h) waited = status_of_wait waited

abbrev pub hash_of : Submitted → Option ℕ
hash_of refused = none
hash_of (sent h) = some h

abbrev pub trade_at : ℕ → Db → Option TradeRow
trade_at i db = find (λ t. t.trade_id == i) db.trades

abbrev pub marked : ℕ → TradeStatus → Option ℕ → TradeRow → TradeRow
marked trade_id status hash t =
    if t.trade_id == trade_id then record t { status = status; transaction_hash = hash } else t

abbrev pub map_trade : (TradeRow → TradeRow) → Option TradeRow → Option TradeRow
map_trade f none = none
map_trade f (some t) = some (f t)

find-mark :
    (i trade_id : ℕ) (status : TradeStatus) (hash : Option ℕ) (ts : List TradeRow)
    → find
        (λ t. t.trade_id == i)
        (update_where
          (λ (t : TradeRow). member t.trade_id (trade_id ∷ []))
          (λ t. record t { status = status; transaction_hash = hash })
          ts)
      ≡ map_trade (marked trade_id status hash) (find (λ t. t.trade_id == i) ts)
find-mark i trade_id status hash [] = refl
find-mark i trade_id status hash (t ∷ ts) = ground (
  arith,
  find-mark i trade_id status hash ts,
  ==_iff t.trade_id trade_id,
  ==_iff trade_id t.trade_id,
)

settle_trades_at :
    (now i trade_id : ℕ) (status : TradeStatus) (hash : Option ℕ) (db : Db)
    → trade_at i (settle_trades now (trade_id ∷ []) status hash db)
      ≡ map_trade (marked trade_id status hash) (trade_at i db)
unfolding settle_trades
settle_trades_at now i trade_id status hash db = find-mark i trade_id status hash db.trades

-- Marking a trade twice leaves the second mark.
mark_twice :
    (trade_id : ℕ) (s s' : TradeStatus) (h : Option ℕ) (o : Option TradeRow)
    → map_trade (marked trade_id s' h) (map_trade (marked trade_id s h) o)
      ≡ map_trade (marked trade_id s' h) o
mark_twice trade_id s s' h none = refl
mark_twice trade_id s s' h (some t) = ground arith

-- Whether a live order is the taker of the trade.
abbrev pub has_live_taker : ℕ → ℕ → Db → Bool
has_live_taker now trade_id db =
    any
      (λ row.
        any
          (λ (t : TradeRow). t.taker_order_id == row.order_id && member t.trade_id (trade_id ∷ []))
          db.trades
        && live_order now row)
      db.orders

failed_takers :
    (now trade_id : ℕ) (status : TradeStatus) (hash : Option ℕ) (db : Db)
    → is_failure status
        && has_live_taker now trade_id (settle_trades now (trade_id ∷ []) status hash db)
      ≡ false
unfolding settle_trades
failed_takers now trade_id failed hash db =
    let trades = (settle_trades now (trade_id ∷ []) failed hash db).trades in
    cancelled_rows now
      (λ row.
        any
          (λ (t : TradeRow). t.taker_order_id == row.order_id && member t.trade_id (trade_id ∷ []))
          trades)
      db.orders (λ row. refl)
failed_takers now trade_id pending hash db = refl
failed_takers now trade_id confirmed hash db = refl
failed_takers now trade_id mirrored hash db = refl

-- `_settle` gives the trade its final status and hash and changes no other trade; it reports a
-- failure exactly where that status is FAILED, and then no live order is the trade's taker.
pub settle_lem :
    (now trade_id : ℕ) (wait : Bool) (submitted : Submitted) (waited : Waited) (db : Db) (i : ℕ)
    → let status = final_status wait submitted waited in
      let (result, db') = settle now trade_id wait submitted waited db in
      (trade_at i db' ≡ map_trade (marked trade_id status (hash_of submitted)) (trade_at i db))
      × (result.has_failed ≡ is_failure status)
      × (is_failure status && has_live_taker now trade_id db' ≡ false)
unfolding settle
settle_lem now trade_id wait refused waited db i = (
  settle_trades_at now i trade_id failed none db,
  refl,
  failed_takers now trade_id failed none db,
)
settle_lem now trade_id false (sent h) waited db i = (
  settle_trades_at now i trade_id pending (some h) db,
  refl,
  failed_takers now trade_id pending (some h) db,
)
settle_lem now trade_id true (sent h) waited db i =
    let status = status_of_wait waited in
    let sent_db = settle_trades now (trade_id ∷ []) pending (some h) db in
    (
      settle_trades_at now i trade_id status (some h) sent_db
          ∙ ap (map_trade (marked trade_id status (some h)))
              (settle_trades_at now i trade_id pending (some h) db)
          ∙ mark_twice trade_id pending status (some h) (trade_at i db),
      refl,
      failed_takers now trade_id status (some h) sent_db,
    )
