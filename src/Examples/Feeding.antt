-- ===== src/Examples/Feeding.antt =====
-- The theorems on the feed's engine, the tape and the closure check, at one market.
use agentpit.Prelude.{ℕ, ◌≡◌, ◌≢◌, refl, true, false, some, pos, negsuc, [], ◌∷◌, List, arith}
use agentpit.Decimal.{finite}
use agentpit.Replica.{number, buy_side}
use agentpit.Prelude.Dict.{get}
use agentpit.Feed.{MarketRef, MirrorState, TradeEvent, book}
use agentpit.Feed.Targets.{IsMirror-empty}
use agentpit.Engine.Watch.{
  MirrorEngine, keys, refresh, probe, message, new_engine, run, feed_pass, feed_is_stale,
}
use agentpit.Engine.Balance.{Watches}
use agentpit.Engine.Watch.Live.{IsEngine, feed_pass_lem}
use agentpit.Engine.Watch.Kept.{run-IsEngine, new_engine-IsEngine}
use agentpit.Engine.Watch.Stale.{hung-feed_is_stale}
use agentpit.Engine.Tape.{tape_round}
use agentpit.Engine.Tape.Rows.{AddsTapeRows, legs_in, tape_round_lem}
use agentpit.Engine.Closure.{Try, check_closure}
use agentpit.Engine.Closure.Calls.{After, on_tables, answer_of, judged, check_closure_lem}
use agentpit.Store.{Db}
use agentpit.Examples.Data.{ref, mirror, book_message, db, market}
use agentpit.Examples.Mirror.{other_ref}

-- Two markets became targets, the book of one came.
abbrev engine : MirrorEngine
engine =
    run 15000000 (refresh 5 (ref ∷ other_ref ∷ []) ∷ message (book book_message) ∷ []) new_engine

feed_pass_lem_example :
    (e' : MirrorEngine) × (refs : List MarketRef) × (feed_pass (λ i. 100) 1 200 engine
      ≡ some (e', refs))
    × IsEngine 1 e'
    × Watches (keys e'.state.by_asset) e'.conns
    × ((period later : ℕ) → (feed_is_stale period later e').0 ≡ false)
feed_pass_lem_example =
    feed_pass_lem (λ i. 100) 1 200 engine (omega arith)
      (run-IsEngine 1 15000000 (refresh 5 (ref ∷ other_ref ∷ []) ∷ message (book book_message) ∷ [])
        new_engine (new_engine-IsEngine 1))

hung-feed_is_stale_example :
    (feed_is_stale 15000000 60000006 (
      run 15000000
        (refresh 5 (ref ∷ []) ∷ probe 30 ∷ message (book book_message) ∷ [])
        new_engine)).0
    ≡ true
unfolding get
hung-feed_is_stale_example =
    hung-feed_is_stale 15000000 7 5 60000006 (ref ∷ [])
      (probe 30 ∷ message (book book_message) ∷ []) new_engine IsMirror-empty tt refl refl
      (refl, (tt, (tt, tt))) (omega arith)

-- Four shares at 0.49, on the tape.
abbrev print : TradeEvent
print = record {
  asset_id = some 7;
  price = number (finite false 49 (negsuc 1));
  size = number (finite false 4 (pos 0));
  side = buy_side;
  timestamp = some 1700000000000;
}

abbrev printed : MirrorState
printed = record mirror { trades = print ∷ [] }

tape_round_lem_example :
    let (s', db') = tape_round true true 1 (λ i. i) printed db in
    (s'.trades ≡ [])
    × AddsTapeRows 1 db db'
    × ((api_key : ℕ) → api_key ≢ 1 → legs_in api_key db'.trades ≡ legs_in api_key db.trades)
tape_round_lem_example = tape_round_lem true true 1 (λ i. i) printed db

-- The game starts at 5000; the server takes orders first.
abbrev first : Try
first = record {
  clob = some (record { accepting = true; game_start = some 5000 });
  at = 4999;
  now = 4999;
}

abbrev second : Try
second = record {
  clob = some (record { accepting = true; game_start = some 5000 });
  at = 5004;
  now = 5004;
}

-- Another call's client id is forgotten in between.
abbrev others : Db → Db
others d = record d { idempotency = [] }

check_closure_lem_example :
    After 1
      (judged first second)
      (on_tables others db (answer_of first.at first.clob))
      (check_closure ref first second others db)
check_closure_lem_example =
    check_closure_lem ref first second others db {m = market} {m' = market} refl refl refl refl
