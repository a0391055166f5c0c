-- ===== src/Markets/Lifecycle.antt =====
-- services/market_service.py: what a transition does to the rows of `markets`.
use agentpit.Prelude.{
  ℕ, ◌≡◌, refl, Bool, false, not, ◌&&◌, ◌||◌, Option, none, some, List, [], ◌∷◌, any, ◌==◌, arith,
  if◌then◌else◌,
}
use agentpit.Store.{
  Db, MarketRow, MarketState, resolved, same_state, find, find_market, update_where,
  set_market_state, cancel_all_market_orders,
}
use agentpit.Markets.{transition, has_payouts}

abbrev by_market : ℕ → MarketRow → Bool
by_market i m = m.market_id == i

module _ (hit : MarketRow → Bool) (f : MarketRow → MarketRow)
    (keeps : (m : MarketRow) → (f m).market_id ≡ m.market_id) where
  abbrev on_row : Option MarketRow → Option MarketRow
  on_row none = none
  on_row (some m) = some (if hit m then f m else m)

  find-update_market :
      (i : ℕ) (ms : List MarketRow)
      → find (by_market i) (update_where hit f ms) ≡ on_row (find (by_market i) ms)
  find-update_market i [] = refl
  find-update_market i (m ∷ ms) = ground (arith, find-update_market i ms, keeps m)

  -- Where no row is hit, the row that is found is not.
  not_hit :
      (i : ℕ) (ms : List MarketRow)
      → any hit ms ≡ false
      → on_row (find (by_market i) ms) ≡ find (by_market i) ms
  not_hit i [] h = refl
  not_hit i (m ∷ ms) h = ground (arith, not_hit i ms)

abbrev is_hit : ℕ → MarketState → MarketRow → Bool
is_hit market_id expected m = m.market_id == market_id && same_state m.state expected

-- The row of a market after a move from `expected` to `new`.
abbrev moved : ℕ → MarketState → Option (ℕ × ℕ) → MarketRow → MarketRow
moved now new payouts m = record m {
  state = new;
  payouts = payouts;
  resolved_at = if same_state new resolved then some now else none;
}

abbrev may_move : MarketState → Option (ℕ × ℕ) → Bool
may_move new payouts = not (same_state new resolved) || has_payouts payouts

abbrev pub after_move :
    ℕ → ℕ → MarketState → MarketState → Option (ℕ × ℕ) → Option MarketRow → Option MarketRow
after_move now j expected new payouts none = none
after_move now j expected new payouts (some m) = some (
    if may_move new payouts && (m.market_id == j && same_state m.state expected)
    then moved now new payouts m
    else m)

-- A transition gives the named market its new state, payouts and time where it is in the expected
-- state, unless it would resolve without payouts; no other market's row changes.
pub transition_row :
    (now j : ℕ) (expected new : MarketState) (payouts : Option (ℕ × ℕ)) (db : Db) (i : ℕ)
    → find_market i (transition now j expected new payouts db).1
      ≡ after_move now j expected new payouts (find_market i db)
unfolding transition set_market_state cancel_all_market_orders
transition_row now j expected new payouts db i =
    let f = moved now new payouts in
    ground (
      arith,
      find-update_market (is_hit j expected) f (λ m. refl) i db.markets,
      not_hit (is_hit j expected) f (λ m. refl) i db.markets,
    )
