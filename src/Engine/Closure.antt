-- ===== src/Engine/Closure.antt =====
-- liquidity/mirror.py: the check of a market whose book was emptied. The answers of the book
-- server are given, each with the times at which it is judged and acted on.
pub mod Calls
use agentpit.Prelude.{ℕ, ◌+◌, Bool, true, false, not, ◌&&◌, Option, none, some, leb, if◌then◌else◌}
use agentpit.Store.{Db, active, closed}
use agentpit.Feed.{MarketRef}
use agentpit.Markets.{transition}

-- polymarket/polymarket_sync.py: what the book server says of a market.
pub record Clob : Type 0 where
  pub accepting : Bool
  pub game_start : Option ℕ

-- One try: the answer, the time it is held against, the time of the tables.
pub record Try : Type 0 where
  pub clob : Option Clob
  pub at : ℕ
  pub now : ℕ

abbrev pub game_start_window : ℕ
game_start_window = 600

abbrev pub game_starts : ℕ → Option ℕ → Bool
game_starts at none = false
game_starts at (some start) = leb start at && leb at (start + game_start_window)

-- A try of the loop: whether it was the last, and the tables after it.
unfoldable pub closure_try : MarketRef → Try → Db → Bool × Db
closure_try ref t db = elim t.clob [
  | none ↦ (true, db)
  | some clob ↦
      if not clob.accepting
      then (true, (transition t.now ref.market_id active closed none db).1)
      else if game_starts t.at clob.game_start
      then (true, (transition t.now ref.market_id active active none db).1)
      else (false, db)
]

abbrev pub second_try : MarketRef → Try → (Db → Db) → Bool × Db → Db
second_try ref t gap (true, db) = db
second_try ref t gap (false, db) = (closure_try ref t (gap db)).1

-- `_check_closure`; `gap` is what others write while it sleeps before the second try.
unfoldable pub check_closure : MarketRef → Try → Try → (Db → Db) → Db → Db
unfolding closure_try
check_closure ref first second gap db = second_try ref second gap (closure_try ref first db)
