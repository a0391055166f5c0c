-- ===== src/Orders/Sweep.antt =====
-- services/order_service.py: `sweep`, which fills resting orders. One order is one step, as the
-- market's lock makes it; an exception other than the gas pause leaves the order for the next sweep.
pub mod Caps
use agentpit.Prelude.{
  ℕ, ◌+◌, ◌/◌, ◌≡◌, ◌≤◌, Bool, true, false, not, ◌&&◌, ◌||◌, Option, none, some, List, [], ◌∷◌,
  filter, any, is_nil, eq_bool, ltb, leb, ◌==◌, if◌then◌else◌, refl, arith, inl, inr, Bool-cases,
}
use agentpit.Exchange.{Side, is_buy}
use agentpit.Replica.{Take}
use agentpit.Replica.Depth.{take}
use agentpit.Store.{Db, OrderRow, OrderData, UserRow, TradeRow, find, live_order, halted}
use agentpit.Store.Gas.{sponsored_gas_used}
use agentpit.Store.Holdings.{event_room}
use agentpit.Orders.{
  Error, Result, ok, err, Tx, Chain, World, Quote, house_quote, use_quote, pure, raise, gets, ◌>>=◌,
  ◌>>◌, no_account,
}
use agentpit.Orders.Fill.{Match, Draws, take_order, book_bound, wanted_of}
use agentpit.Orders.Fill.Size.{filled_of, take_order_size}
use agentpit.Orders.Place.{Settings, is_active, reserve_gas, seconds_per_day}
use agentpit.Orders.Place.Checks.{Result-cases}
use agentpit.Orders.Settle.{Submitted, Waited, unsettled, settle}

abbrev is_halted : ℕ → Db → ℕ → Bool
is_halted now db api_key =
    any (λ (u : UserRow). u.api_key == api_key && halted u.user_id now db) db.users

-- Whether the day's budget of the account is used up; a budget of 0 is none at all.
abbrev is_spent : ℕ → Settings → Db → ℕ → Bool
is_spent now settings db api_key =
    let budget = settings.daily_sponsored_gas_per_account in
    not (budget == 0) && leb budget (sponsored_gas_used api_key (now / seconds_per_day) db)

insert_by_time : OrderRow → List OrderRow → List OrderRow
insert_by_time row [] = row ∷ []
insert_by_time row (x ∷ xs) =
    let rest = insert_by_time row xs in
    if leb row.created_at x.created_at then row ∷ x ∷ xs else x ∷ rest

by_time : List OrderRow → List OrderRow
unfolding insert_by_time
by_time [] = []
by_time (x ∷ xs) = insert_by_time x (by_time xs)

-- The rows that a sweep reads, oldest first.
unfoldable pub resting : ℕ → Settings → Db → List OrderRow
unfolding by_time
resting now settings db = by_time (
    filter
      (λ row.
        live_order now row
        && (not (is_spent now settings db row.api_key) && not (is_halted now db row.api_key)))
      db.orders)

-- The room of a BUY in its event; a SELL has no cap.
abbrev pub room_of : ℕ → ℕ → OrderRow → Db → Option ℕ
room_of now market_id row db =
    if is_buy row.order.side then event_room row.api_key market_id now db else none

abbrev is_full : Option ℕ → Bool
is_full none = false
is_full (some room) = room == 0

-- The fill of a row and its charge.
charge : ℕ → Settings → OrderRow → Option Match → Tx (Option (OrderRow × Match))
charge now settings row none db = ok (none, db)
charge now settings row (some m) db =
    elim (find (λ (u : UserRow). u.api_key == row.api_key) db.users) [
      | none ↦ err no_account
      | some agent ↦ (reserve_gas now settings agent >> pure (some (row, m))) db
    ]

unfoldable pub fill_fresh :
    Chain
    → ℕ
    → ℕ
    → Draws
    → Settings
    → World
    → Quote
    → OrderRow
    → Option ℕ
    → Tx (Option (OrderRow × Match))
unfolding charge
fill_fresh chain now tick draws settings w quote row cap =
    take_order chain now tick draws w.house row row.order (some quote) cap
    >>= charge now settings row

-- The transaction of one resting order.
unfoldable pub sweep_fill :
    Chain → ℕ → ℕ → Draws → Settings → World → Quote → ℕ → Tx (Option (OrderRow × Match))
unfolding fill_fresh
sweep_fill chain now tick draws settings w (ref, yes_token, rep) order_id db =
    if is_active ref.market_id db
    then elim (find (λ r. r.order_id == order_id && live_order now r) db.orders) [
      | none ↦ ok (none, db)
      | some fresh ↦
          let cap = room_of now ref.market_id fresh db in
          if is_full cap
          then ok (none, db)
          else fill_fresh chain now tick draws settings w (ref, yes_token, rep) fresh cap db
    ]
    else ok (none, db)

-- What follows the transaction: the replica remembers the takes, and the fill is sent.
abbrev after_fill :
    ℕ → ℕ → (ℕ → Submitted) → World → Quote → Result (Option (OrderRow × Match) × Db) → World
after_fill now tick submitted w quote (err e) = w
after_fill now tick submitted w quote (ok (none, db')) = record w { db = db' }
after_fill now tick submitted w quote (ok (some (row, m), db')) = record w {
  db = (settle now m.trade_id false (submitted m.trade_id) unsettled db').1;
  mirror = use_quote tick quote m.takes w.mirror;
}

-- One row of a sweep; the first component tells whether the sweep goes on.
unfoldable pub sweep_row :
    Chain → ℕ → ℕ → Draws → Settings → (ℕ → Submitted) → OrderRow → World → Bool × World
unfolding sweep_fill
sweep_row chain now tick draws settings submitted row w = elim (house_quote row.order.token_id w) [
  | none ↦ (true, w)
  | some (ref, yes_token, rep) ↦
      if is_nil (
        take tick (eq_bool (is_buy row.order.side) yes_token) (book_bound yes_token row.price)
          row.remaining rep)
      then (true, w)
      else if chain.gas_paused
      then (false, w)
      else (
        true,
        after_fill now tick submitted w (ref, yes_token, rep)
            (sweep_fill chain now tick draws settings w (ref, yes_token, rep) row.order_id w.db),
      )
]

-- The rows one after another, each with its own random values.
unfoldable pub sweep_rows :
    Chain → ℕ → ℕ → (OrderRow → Draws) → Settings → (ℕ → Submitted) → List OrderRow → World → World
unfolding sweep_row
sweep_rows chain now tick draws settings submitted [] w = w
sweep_rows chain now tick draws settings submitted (row ∷ rows) w =
    let (goes_on, w') = sweep_row chain now tick (draws row) settings submitted row w in
    let rest = sweep_rows chain now tick draws settings submitted rows w' in
    if goes_on then rest else w'

unfoldable pub sweep :
    Chain → ℕ → ℕ → (OrderRow → Draws) → Settings → (ℕ → Submitted) → World → World
unfolding sweep_rows resting
sweep chain now tick draws settings submitted w = elim w.house [
  | none ↦ w
  | some h ↦ sweep_rows chain now tick draws settings submitted (resting now settings w.db) w
]
