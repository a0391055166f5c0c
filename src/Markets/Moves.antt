-- ===== src/Markets/Moves.antt =====
-- services/market_service.py: the states that the market operations move a market between.
use agentpit.Prelude.{
  ℕ, ◌≡◌, refl, Bool, true, false, ◌&&◌, ◌||◌, Option, none, some, arith, Bool-cases, Option-cases,
  inl, inr, ◌⊎◌,
}
use agentpit.Store.{
  Db, MarketRow, MarketState, draft, active, closed, resolved, same_state, find_market,
}
use agentpit.Markets.{
  transition, change_state, activate_market, close_market, cancel_market, pay_out_one, payouts_of,
  resolve_market, Upstream, must_close, may_reopen, sweep_state,
}
use agentpit.Feed.{MarketRef}
use agentpit.Engine.Closure.{Try, closure_try}
use agentpit.Markets.Lifecycle.{after_move, transition_row}

-- The moves that there are: none from RESOLVED or CANCELLED. An ACTIVE market may move to ACTIVE,
-- which takes its payouts and resolution time away.
abbrev pub edge : MarketState → MarketState → Bool
edge draft active = true
edge draft MarketState.cancelled = true
edge active active = true
edge active closed = true
edge active resolved = true
edge active MarketState.cancelled = true
edge closed active = true
edge closed resolved = true
edge closed MarketState.cancelled = true
edge _ _ = false

-- A row before and after: the same row, or a move of its state.
abbrev pub Moves : Option MarketRow → Option MarketRow → Type 0
Moves none none = Unit
Moves none (some n) = ⊥
Moves (some m) none = ⊥
Moves (some m) (some n) = (m ≡ n) ⊎ (edge m.state n.state ≡ true)

-- The operations on one market. `pay` takes any payouts, a winner's or an even split; `look` is one
-- try of the feed's check of a market whose book was emptied.
pub data Operation : Type 0 where
  activate close cancel : Operation
  resolve : ℕ → Operation
  pay : ℕ × ℕ → Operation
  look : MarketRef → Try → Operation
  sweep : MarketState → Upstream → Operation

unfoldable pub operate : ℕ → (ℕ → Bool) → ℕ → Operation → Db → Db
unfolding activate_market close_market cancel_market resolve_market pay_out_one sweep_state
    closure_try
operate now paid j activate db = (activate_market now j db).1
operate now paid j close db = (close_market now j db).1
operate now paid j cancel db = (cancel_market now j db).1
operate now paid j (resolve winner) db = (resolve_market now paid j winner db).1
operate now paid j (sweep state seen) db = sweep_state now j state seen db
operate now paid j (pay payouts) db = pay_out_one now paid j payouts db
operate now paid j (look ref t) db = (closure_try ref t db).1

same_row : (o : Option MarketRow) → Moves o o
same_row none = tt
same_row (some m) = inl refl

same_state-edge :
    (a b new : MarketState) → same_state a b ≡ true → edge b new ≡ true → edge a new ≡ true
same_state-edge a b new h e = ground arith

after_move-Moves :
    (now j : ℕ) (expected new : MarketState) (payouts : Option (ℕ × ℕ)) (o : Option MarketRow)
    → edge expected new ≡ true
    → Moves o (after_move now j expected new payouts o)
after_move-Moves now j expected new payouts none e = tt
after_move-Moves now j expected new payouts (some m) e =
    ground (arith, same_state-edge m.state expected new)

transition-Moves :
    (now j : ℕ) (expected new : MarketState) (payouts : Option (ℕ × ℕ)) (db : Db) (i : ℕ)
    → edge expected new ≡ true
    → Moves (find_market i db) (find_market i (transition now j expected new payouts db).1)
transition-Moves now j expected new payouts db i e =
    rw (transition_row now j expected new payouts db i)
      (after_move-Moves now j expected new payouts (find_market i db) e)

change_state_db :
    (now j : ℕ) (expected new : MarketState) (db : Db)
    → (change_state now j expected new db).1 ≡ (transition now j expected new none db).1
unfolding change_state
change_state_db now j expected new db = ground arith

may_cancel :
    (s : MarketState)
    → same_state s resolved || same_state s MarketState.cancelled ≡ false
    → edge s MarketState.cancelled ≡ true
may_cancel draft e = refl
may_cancel active e = refl
may_cancel closed e = refl
may_cancel resolved e = ground arith
may_cancel MarketState.cancelled e = ground arith

may_resolve :
    (s : MarketState) → same_state s active || same_state s closed ≡ true → edge s resolved ≡ true
may_resolve draft e = ground arith
may_resolve active e = refl
may_resolve closed e = refl
may_resolve resolved e = ground arith
may_resolve MarketState.cancelled e = ground arith

change_state-Moves :
    (now j : ℕ) (expected new : MarketState) (db : Db) (i : ℕ)
    → edge expected new ≡ true
    → Moves (find_market i db) (find_market i (change_state now j expected new db).1)
change_state-Moves now j expected new db i e =
    rw (change_state_db now j expected new db) (transition-Moves now j expected new none db i e)

cancel_market-Moves :
    (now j : ℕ) (db : Db) (i : ℕ)
    → Moves (find_market i db) (find_market i (cancel_market now j db).1)
unfolding cancel_market
cancel_market-Moves now j db i = elim (Option-cases (find_market j db)) [
  | inl there ↦ rw (there, cancel_market) (same_row (find_market i db))
  | inr (m, there) ↦
      (elim (Bool-cases (same_state m.state resolved || same_state m.state MarketState.cancelled)) [
        | inl final ↦ rw (there, cancel_market, final) (same_row (find_market i db))
        | inr still ↦
            rw (there, cancel_market, still)
              (change_state-Moves now j m.state MarketState.cancelled db i
                (may_cancel m.state still))
      ])
]

pay_out_one-Moves :
    (now : ℕ) (paid : ℕ → Bool) (j : ℕ) (payouts : ℕ × ℕ) (db : Db) (i : ℕ)
    → Moves (find_market i db) (find_market i (pay_out_one now paid j payouts db))
unfolding pay_out_one
pay_out_one-Moves now paid j payouts db i = elim (Option-cases (find_market j db)) [
  | inl there ↦ rw (there, pay_out_one) (same_row (find_market i db))
  | inr (m, there) ↦
      (elim (Bool-cases
        ((same_state m.state active || same_state m.state closed) && paid m.condition_id)) [
          | inl ready ↦
              rw (there, pay_out_one, ready)
                (transition-Moves now j m.state resolved (some payouts) db i
                  (may_resolve m.state (ground (arith, ready))))
          | inr not_ready ↦ rw (there, pay_out_one, not_ready) (same_row (find_market i db))
        ])
]

resolve_market_db :
    (now : ℕ) (paid : ℕ → Bool) (j winner : ℕ) (db : Db)
    → ((resolve_market now paid j winner db).1 ≡ db)
      ⊎ ((resolve_market now paid j winner db).1 ≡ pay_out_one now paid j (payouts_of winner) db)
unfolding resolve_market
resolve_market_db now paid j winner db = ground arith

sweep_state-Moves :
    (now j : ℕ) (state : MarketState) (seen : Upstream) (db : Db) (i : ℕ)
    → Moves (find_market i db) (find_market i (sweep_state now j state seen db))
unfolding sweep_state
sweep_state-Moves now j state seen db i = elim (Bool-cases (must_close state seen)) [
  | inl closes ↦ rw (closes, sweep_state) (transition-Moves now j active closed none db i refl)
  | inr stays ↦ (elim (Bool-cases (may_reopen state seen)) [
    | inl opens ↦
        rw (stays, sweep_state, opens) (transition-Moves now j closed active none db i refl)
    | inr none_of ↦ rw (stays, sweep_state, none_of) (same_row (find_market i db))
  ])
]

look-Moves :
    (ref : MarketRef) (t : Try) (db : Db) (i : ℕ)
    → Moves (find_market i db) (find_market i (closure_try ref t db).1)
unfolding closure_try
look-Moves ref t db i =
    let closes = transition-Moves t.now ref.market_id active closed none db i refl in
    let stays = transition-Moves t.now ref.market_id active active none db i refl in
    let same = same_row (find_market i db) in ground (arith, closes, stays, same)

-- Each operation on a market (its activation, close, cancel and resolution, a payout of any amounts,
-- the sweep, a try of the feed's closure check) leaves every market's row as it is, or moves its
-- state along `edge`: a market that is RESOLVED or CANCELLED keeps its row.
pub operate-Moves :
    (now : ℕ) (paid : ℕ → Bool) (j : ℕ) (op : Operation) (db : Db) (i : ℕ)
    → Moves (find_market i db) (find_market i (operate now paid j op db))
unfolding operate activate_market close_market
operate-Moves now paid j activate db i = change_state-Moves now j draft active db i refl
operate-Moves now paid j close db i = change_state-Moves now j active closed db i refl
operate-Moves now paid j cancel db i = cancel_market-Moves now j db i
operate-Moves now paid j (sweep state seen) db i = sweep_state-Moves now j state seen db i
operate-Moves now paid j (pay payouts) db i = pay_out_one-Moves now paid j payouts db i
operate-Moves now paid j (look ref t) db i = look-Moves ref t db i
operate-Moves now paid j (resolve winner) db i = elim (resolve_market_db now paid j winner db) [
  | inl same ↦ rw same (same_row (find_market i db))
  | inr paid_out ↦ rw paid_out (pay_out_one-Moves now paid j (payouts_of winner) db i)
]
