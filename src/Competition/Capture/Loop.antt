-- ===== src/Competition/Capture/Loop.antt =====
-- services/competition_service.py: the values that a pass takes, and the pass.
use agentpit.Prelude.{
  ℕ, ◌+◌, ◌-◌, Bool, false, not, ◌&&◌, ◌||◌, Option, none, some, List, [], ◌∷◌, filter, any, sum_by,
  is_some, is_nil, ltb, leb, ◌==◌, if◌then◌else◌,
}
use agentpit.Prelude.Dict.{get, put, nat_eq}
use agentpit.Replica.{BookSnapshot}
use agentpit.Feed.{MirrorState, quote, book_of}
use agentpit.Store.{find}
use agentpit.Competition.{Holding, Tables, is_entry, value_at, or_else}
use agentpit.Competition.Capture.{
  mint_lag, end_deadline, book_grace, Exit, into, at_price, Position, Wallet, Reads, Bells, Race,
  Edge, start, end, Pending, Value, capture_entry, pending_captures,
}

-- `feed.ready`
abbrev pub is_ready : {M : Type 0} → Reads M → Bool
is_ready r =
    not r.engine_enabled
    || ((elim r.house as (λ _. Bool) [ none ↦ false | some s ↦ not (is_nil s.by_asset) ])
        || leb book_grace r.uptime)

abbrev is_quoted : Option MirrorState → ℕ → Bool
is_quoted none token = false
is_quoted (some s) token = is_some (quote token s)

abbrev house_book : Option MirrorState → ℕ → Option BookSnapshot
house_book none token = none
house_book (some s) token = book_of token s

-- `feed.booked`
abbrev pub booked : Option MirrorState → ℕ → Bool
booked house token = not (is_quoted house token) || is_some (house_book house token)

has_sides : BookSnapshot → Bool
has_sides b = not (is_nil b.bids) || not (is_nil b.asks)

unfoldable pub exit_state : {M : Type 0} → Option MirrorState → Position M → Option (Exit M)
unfolding has_sides
exit_state house p =
    if p.settled || not (is_quoted house p.asset)
    then some (at_price p.cur_price)
    else elim (house_book house p.asset) [
      | none ↦ none
      | some b ↦ some (if has_sides b then into b else at_price p.cur_price)
    ]

abbrev pub total_of : ℕ → List (ℕ × Holding) → ℕ
total_of cash held = cash + sum_by (λ h. h.1.value) held

bell_value : Pending → Tables → ℕ
bell_value e db = elim (find (is_entry e.slug e.user_id) db.entries) [
  | none ↦ 0
  | some row ↦ value_at row e.ends_at db
]

module _ {M : Type 0} where
  freeze_positions : Option MirrorState → List (Position M) → List (ℕ × Exit M) → List (ℕ × Exit M)
  unfolding exit_state
  freeze_positions house [] bell = bell
  freeze_positions house (p ∷ ps) bell = freeze_positions house ps (
      if is_some (get bell p.asset)
      then bell
      else elim (exit_state house p) [ none ↦ bell | some x ↦ put p.asset x bell ])

  -- `_freeze`
  unfoldable pub freeze : Reads M → List Pending → List (ℕ × Exit M) → List (ℕ × Exit M)
  unfolding freeze_positions
  freeze r [] bell = bell
  freeze r (e ∷ es) bell = elim (r.holdings e.eth_address) [
    | none ↦ freeze r es bell
    | some positions ↦ freeze r es (freeze_positions r.house positions bell)
  ]

  -- The loop over the competitions that end without a bell state.
  unfoldable pub freeze_all : Reads M → List Pending → List Pending → Bells M → Bells M
  unfolding freeze
  freeze_all r ending [] bells = bells
  freeze_all r ending (e ∷ es) bells = freeze_all r ending es (
      if is_some (get bells e.slug)
      then bells
      else put e.slug (freeze r (filter (λ x. x.slug == e.slug) ending) []) bells)

  -- `_take`
  unfoldable pub take_value : Pending → Edge → Value → Race M → Race M
  unfolding capture_entry
  take_value e edge v s = record s { db = capture_entry e.slug e.user_id edge v s.db }

  unfoldable pub held_of : List (Position M) → List (ℕ × Holding) → List (ℕ × Holding)
  held_of [] held = held
  held_of (p ∷ ps) held =
      held_of ps (put p.asset (record { shares = p.shares; value = p.value }) held)

  unfoldable pub take_start : Pending → Wallet M × ℕ → Race M → Race M
  unfolding take_value held_of
  take_start e (w, at) s =
      let held = held_of w.positions [] in
      take_value e start
        (record { value_raw = total_of w.cash_raw held; at = at; block = none; held = some held }) s

  -- `_start`
  unfoldable pub start_entry : Reads M → ℕ → Pending → Race M → Race M
  unfolding take_start
  start_entry r now e s =
      let in_grace = ltb now (e.run_starts_at + book_grace) in
      if e.prize && r.over_cap e.api_key
      then s
      else if e.settling && in_grace
      then s
      else elim (r.wallet e.eth_address) [
        | none ↦ s
        | some w ↦
            if any (λ p. not p.settled && not (booked r.house p.asset)) w.0.positions && in_grace
            then s
            else take_start e w s
      ]

  -- What a position sells into: the bell state of its token, else what it sells into now; `none`
  -- while its value waits for a book.
  unfoldable pub state_for : Reads M → Bool → List (ℕ × Exit M) → Position M → Option (Exit M)
  unfolding exit_state
  state_for r in_grace bell p = elim (get bell p.asset) [
    | some x ↦ some x
    | none ↦ (elim (exit_state r.house p) [
      | some x ↦ some x
      | none ↦ if in_grace then none else some (at_price p.cur_price)
    ])
  ]

  -- The loop of `_end`: the bell state after it and, unless it waits, what is held.
  unfoldable pub sell_all :
      Reads M
      → Bool
      → List (Position M)
      → List (ℕ × Exit M) × List (ℕ × Holding)
      → List (ℕ × Exit M) × Option (List (ℕ × Holding))
  unfolding state_for
  sell_all r in_grace [] (bell, held) = (bell, some held)
  sell_all r in_grace (p ∷ ps) (bell, held) = elim (state_for r in_grace bell p) [
    | none ↦ (bell, none)
    | some x ↦ sell_all r in_grace ps (
      put p.asset x bell,
      put p.asset (record { shares = p.shares; value = r.exit_value p x }) held,
    )
  ]

  abbrev pub take_end : Pending → Wallet M × ℕ → Option (List (ℕ × Holding)) → Race M → Race M
  take_end e w none s = s
  take_end e (w, at) (some held) s = record s {
    db =
        capture_entry e.slug e.user_id end
          (record {
            value_raw = total_of w.cash_raw held;
            at = at;
            block = some w.block;
            held = some held;
          })
          s.db;
  }

  -- `_end`; a competition without a bell state raises.
  unfoldable pub end_entry : Reads M → ℕ → Pending → Race M → Race M
  unfolding sell_all
  end_entry r now e s = elim (r.wallet e.eth_address) [
    | none ↦ s
    | some w ↦ (elim (get s.bells e.slug) [
      | none ↦ s
      | some bell ↦
          let (bell', held) =
            sell_all r (ltb now (e.ends_at + book_grace)) w.0.positions (bell, []) in
          take_end e w held (record s { bells = put e.slug bell' s.bells })
    ])
  ]

  -- `_end_at_bell`
  unfoldable pub end_at_bell : ℕ → Pending → Race M → Race M
  unfolding take_value bell_value
  end_at_bell now e s =
      take_value e end
        (record { value_raw = bell_value e s.db; at = now; block = none; held = none }) s

  unfoldable pub capture_one : Reads M → ℕ → Pending → Race M → Race M
  unfolding start_entry end_at_bell end_entry
  capture_one r now e s =
      if not (is_some e.start_raw)
      then start_entry r now e s
      else if leb (e.ends_at + end_deadline) now
      then end_at_bell now e s
      else if not e.settling && leb e.ends_at (or_else (get s.cursor e.slug) 0)
      then end_entry r now e s
      else s

  unfoldable pub capture_each : Reads M → ℕ → List Pending → Race M → Race M
  unfolding capture_one
  capture_each r now [] s = s
  capture_each r now (e ∷ es) s = capture_each r now es (capture_one r now e s)

  -- `capture`
  unfoldable pub capture : Reads M → ℕ → Race M → Race M
  unfolding freeze_all capture_each pending_captures
  capture r now s =
      let pending = pending_captures now (now - mint_lag) s.db in
      let ending = filter (λ e. is_some e.start_raw) pending in
      if is_ready r
      then capture_each r now pending (record s { bells = freeze_all r ending ending s.bells })
      else s
