-- ===== src/Markets.antt =====
-- services/market_service.py: the life of a market. The registry of locks is not modelled: a
-- transition is one step, as the lock makes it.
pub mod Lifecycle
pub mod Moves
pub mod Quiet
use agentpit.Prelude.{
  ℕ, ◌+◌, Bool, true, false, not, ◌&&◌, ◌||◌, Option, none, some, List, [], ◌∷◌, filter, any, ltb,
  ◌==◌, if◌then◌else◌,
}
use agentpit.Store.{
  Db, MarketRow, MarketState, draft, active, closed, resolved, cancelled, same_state, find_market,
  set_market_state, cancel_all_market_orders,
}

pub data MarketError : Type 0 where
  check_failed not_found wrong_state already_resolved bad_outcome did_not_resolve : MarketError

-- What a call raises or returns, and the tables after it.
pub data Outcome (A : Type 0) : Type 0 where
  returned : A → Outcome A
  raised : MarketError → Outcome A

abbrev pub has_payouts : Option (ℕ × ℕ) → Bool
has_payouts none = false
has_payouts (some p) = true

-- `transition`
unfoldable pub transition :
    ℕ → ℕ → MarketState → MarketState → Option (ℕ × ℕ) → Db → Outcome Bool × Db
transition now market_id expected new payouts db =
    if not (same_state new resolved) || has_payouts payouts
    then (let (hit, db') = set_market_state now market_id expected new payouts db in
        if hit
        then (returned true, cancel_all_market_orders now market_id db')
        else (returned false, db))
    else (raised check_failed, db)

-- `_transition`
abbrev or_wrong_state : ℕ → Outcome Bool × Db → Outcome MarketRow × Db
or_wrong_state market_id (raised e, db) = (raised e, db)
or_wrong_state market_id (returned false, db) = elim (find_market market_id db) [
  | none ↦ (raised not_found, db)
  | some m ↦ (raised wrong_state, db)
]
or_wrong_state market_id (returned true, db) = elim (find_market market_id db) [
  | none ↦ (raised not_found, db)
  | some m ↦ (returned m, db)
]

unfoldable pub change_state : ℕ → ℕ → MarketState → MarketState → Db → Outcome MarketRow × Db
unfolding transition
change_state now market_id expected new db =
    or_wrong_state market_id (transition now market_id expected new none db)

unfoldable pub activate_market : ℕ → ℕ → Db → Outcome MarketRow × Db
unfolding change_state
activate_market now market_id = change_state now market_id draft active

unfoldable pub close_market : ℕ → ℕ → Db → Outcome MarketRow × Db
unfolding change_state
close_market now market_id = change_state now market_id active closed

unfoldable pub cancel_market : ℕ → ℕ → Db → Outcome MarketRow × Db
unfolding change_state
cancel_market now market_id db = elim (find_market market_id db) [
  | none ↦ (raised not_found, db)
  | some m ↦
      if same_state m.state resolved || same_state m.state cancelled
      then (raised wrong_state, db)
      else change_state now market_id m.state cancelled db
]

-- One market of `pay_out`, once the transactions are over: `paid` tells whether the chain has the
-- payouts of a condition.
unfoldable pub pay_out_one : ℕ → (ℕ → Bool) → ℕ → ℕ × ℕ → Db → Db
unfolding transition
pay_out_one now paid market_id payouts db = elim (find_market market_id db) [
  | none ↦ db
  | some m ↦
      if (same_state m.state active || same_state m.state closed) && paid m.condition_id
      then (transition now market_id m.state resolved (some payouts) db).1
      else db
]

unfoldable pub pay_out : ℕ → (ℕ → Bool) → List (ℕ × (ℕ × ℕ)) → Db → Db
unfolding pay_out_one
pay_out now paid [] db = db
pay_out now paid ((i, payouts) ∷ rest) db =
    pay_out now paid rest (pay_out_one now paid i payouts db)

abbrev payouts_of : ℕ → ℕ × ℕ
payouts_of winner = (if winner == 0 then 1 else 0, if winner == 1 then 1 else 0)

-- `resolve_market`
unfoldable pub resolve_market : ℕ → (ℕ → Bool) → ℕ → ℕ → Db → Outcome MarketRow × Db
unfolding pay_out_one
resolve_market now paid market_id winner db = elim (find_market market_id db) [
  | none ↦ (raised not_found, db)
  | some m ↦
      if same_state m.state resolved
      then (raised already_resolved, db)
      else if ltb 1 winner
      then (raised bad_outcome, db)
      else (let db' = pay_out_one now paid market_id (payouts_of winner) db in
          elim (find_market market_id db') [
            | none ↦ (raised not_found, db')
            | some after ↦
                if same_state after.state resolved
                then (returned after, db')
                else (raised did_not_resolve, db')
          ])
]

-- `sweep`: what Polymarket says of a carried market, and whether its book server takes orders.
pub record Upstream : Type 0 where
  pub closed : Option Bool
  pub accepting : Option Bool
  pub clob_accepting : Bool

abbrev says : Bool → Option Bool → Bool
says b none = false
says b (some c) = if b then c else not c

abbrev pub must_close : MarketState → Upstream → Bool
must_close state seen =
    same_state state active && (says true seen.closed || says false seen.accepting)

abbrev pub may_reopen : MarketState → Upstream → Bool
may_reopen state seen =
    same_state state closed
    && (says false seen.closed && (says true seen.accepting && seen.clob_accepting))

-- What the sweep does to the state of a market that it read in `state`.
unfoldable pub sweep_state : ℕ → ℕ → MarketState → Upstream → Db → Db
unfolding transition
sweep_state now market_id state seen db =
    if must_close state seen
    then (transition now market_id active closed none db).1
    else if may_reopen state seen
    then (transition now market_id closed active none db).1
    else db
