-- ===== src/Examples/Trading.antt =====
-- The theorems on orders and fills, at one order of ten shares.
use agentpit.Prelude.{
  ◌==◌, ◌+◌, ◌*◌, ◌^◌, ◌≤◌, ◌<◌, ◌≡◌, ◌⊎◌, refl, true, ◌&&◌, none, some, [], ◌∷◌, arith,
}
use agentpit.Decimal.{Decimal}
use agentpit.Exchange.{buy, house_amounts, orders_cross}
use agentpit.Exchange.Crossing.{house_amounts-cross, house_amounts-limits, WithinLimit, WithinBook}
use agentpit.Prelude.Dict.{get}
use agentpit.Store.{Db, OrderData, mint, fok, get_idempotency_order_id, halted}
use agentpit.Orders.{ok, Quote}
use agentpit.Orders.Fill.{Match, Draws, take_order}
use agentpit.Orders.Fill.Effects.{Filled}
use agentpit.Orders.Fill.Terms.{HasTerms}
use agentpit.Orders.Fill.Outcome.{IsFair, NoHouse, take_order_outcome}
use agentpit.Orders.Place.{PlaceOrderRequest, Prepared, placed, place_order}
use agentpit.Orders.Place.Checks.{has_passed, place_order_once, place_order_passed}
use agentpit.Orders.Place.Fills.{FilledAs, place_order_fills}
use agentpit.Store.{matched, find, live_order}
use agentpit.Orders.Fill.{wanted_of}
use agentpit.Orders.Place.{is_active}
use agentpit.Orders.Sweep.{sweep_fill, room_of}
use agentpit.Orders.Sweep.Caps.{sweep_fill_limits}
use agentpit.Examples.Data.{
  chain, house, row, order, ref, replica, db, world, settings, user, request, market, trade,
}

-- Ten shares bought at 0.51 against levels that cost 5.00: the house pays 5.00 of the ten.
house_amounts-cross_example : orders_cross 5100000 10000000 buy 5000000 10000000 ≡ true
unfolding house_amounts
house_amounts-cross_example =
    house_amounts-cross buy 5100000 10000000 10000000 5000000000000 {h = 5000000} (omega arith) refl

house_amounts-limits_example :
    WithinLimit buy 5100000 10000000 10000000 5000000
    × WithinBook buy 10000000 5000000000000 5000000
unfolding house_amounts
house_amounts-limits_example =
    house_amounts-limits buy 5100000 10000000 10000000 5000000000000 {h = 5000000} (omega arith)
      (omega arith) refl

abbrev draws : Draws
draws = record { salt = 99; nonce = 98 }

abbrev the_quote : Quote
the_quote = (ref, true, replica)

take_order_outcome_example :
    ((take_order chain 1000 100 draws (some house) row order (some the_quote) none db
        ≡ ok (none, db))
      × NoHouse 100 row the_quote none)
    ⊎ ((m : Match) × (db' : Db) × (take_order chain 1000 100 draws
            (some house)
            row
            order
            (some the_quote)
            none
            db
          ≡ ok (some m, db'))
        × IsFair 100 row the_quote none m
        × HasTerms chain draws house row the_quote m
        × Filled 1000 house row (chain.order_hash m.house_order) db m db')
take_order_outcome_example =
    take_order_outcome chain 1000 100 draws house row the_quote none db refl (omega arith)
      (omega arith) (λ amount size. refl)

-- The same request again under a client id that order 5 has claimed since its checks.
abbrev again : PlaceOrderRequest
again = record request { client_order_id = some 77 }

place_order_once_example :
    (place_order chain 1000 100 6 draws settings user again
      (record db { idempotency = [] })
      world).1
    ≡ world
unfolding get_idempotency_order_id get
place_order_once_example =
    place_order_once chain 1000 100 6 draws settings user again world
      (record db { idempotency = [] }) 77 5 refl refl

-- The order that the request becomes, and its fill: all ten shares at 0.50.
abbrev new_order : OrderData
new_order = record order { salt = 6 }

abbrev prepared : Prepared
prepared = record {
  market = market;
  size_micro = 10000000;
  order = new_order;
  order_id = 6;
  price = 510000;
}

abbrev fill : Match
fill = record {
  takes = record { ask = true; price = 500000; size = 10000000 } ∷ [];
  size = 10000000;
  house_amount = 5000000;
  agent_amount = 5000000;
  kind = mint;
  house_order = record order {
    salt = 99;
    maker = 50;
    signer = 50;
    token_id = 21;
    maker_amount = 5000000;
  };
  house_signature = 51;
  trade_id = 98;
}

place_order_run :
    (place_order chain 1000 100 6 draws settings user request db world).0
    ≡ placed prepared (some fill)
unfolding place_order agentpit.Store.resolve_by_token_id agentpit.Exchange.Amounts.decimal_to_micro
    agentpit.Decimal.adjusted_over agentpit.Decimal.digits
    agentpit.Exchange.Amounts.amounts_from_price_size agentpit.Decimal.to_integral
    agentpit.Decimal.scaled agentpit.Decimal.half_up agentpit.Store.Gas.sponsored_gas_used get
    agentpit.Exchange.Amounts.price_int halted agentpit.Store.Holdings.event_room
    agentpit.Orders.insert_order agentpit.Orders.get_order_row take_order
    agentpit.Replica.Depth.take agentpit.Replica.Snapshots.snapshot house_amounts orders_cross
    agentpit.Orders.house_quote agentpit.Feed.quote agentpit.Feed.set_targets
    agentpit.Prelude.Dict.put agentpit.Store.Gas.reserve_sponsored_gas
    agentpit.Orders.Fill.add_trade
place_order_run = refl

place_order_passed_example :
    has_passed chain 1000 100 6 draws settings user request world prepared (some fill) ≡ true
place_order_passed_example =
    place_order_passed chain 1000 100 6 draws settings user request world db prepared (some fill)
      place_order_run

place_order_fills_example : FilledAs fok 10000000 10000000
place_order_fills_example =
    place_order_fills chain 1000 100 6 draws settings user request world db prepared (some fill)
      place_order_run

-- The tables after the sweep has filled the order.
abbrev swept : Db
swept = record db {
  orders =
      record row { status = matched; remaining = 0 }
      ∷ record row {
        order_id = 99;
        api_key = 41;
        price = 500000;
        order_type = fok;
        order = fill.house_order;
        signature = 51;
        status = matched;
        remaining = 0;
        created_at = 2000;
      }
      ∷ [];
  trades =
      trade
      ∷ record trade {
        trade_id = 98;
        maker_order_id = 99;
        price = 500000;
        trade_size = 10000000;
        remaining_size = 10000000;
        match_time = 2000;
      }
      ∷ [];
  sponsored_gas = ((40, 0), 250000) ∷ [];
}

sweep_fill_run :
    sweep_fill chain 2000 100 draws settings world the_quote 5 db ≡ ok (some (row, fill), swept)
unfolding sweep_fill agentpit.Orders.Place.reserve_gas agentpit.Store.resolve_by_token_id
    agentpit.Decimal.digits agentpit.Decimal.to_integral agentpit.Decimal.scaled
    agentpit.Decimal.half_up agentpit.Store.Gas.sponsored_gas_used get
    agentpit.Exchange.Amounts.price_int halted agentpit.Store.Holdings.event_room
    agentpit.Orders.insert_order agentpit.Orders.get_order_row take_order
    agentpit.Replica.Depth.take agentpit.Replica.Snapshots.snapshot house_amounts orders_cross
    agentpit.Orders.house_quote agentpit.Feed.quote agentpit.Feed.set_targets
    agentpit.Prelude.Dict.put agentpit.Store.Gas.reserve_sponsored_gas
    agentpit.Orders.Fill.add_trade
sweep_fill_run = refl

sweep_fill_limits_example :
    (is_active 1 db ≡ true)
    × (find (λ r. r.order_id == 5 && live_order 2000 r) db.orders ≡ some row)
    × (10000000 ≤ wanted_of 10000000 (room_of 2000 1 row db))
sweep_fill_limits_example =
    sweep_fill_limits chain 2000 100 draws settings world the_quote 5 row fill db swept
      sweep_fill_run
