-- ===== src/Engine/Tape/Rows.antt =====
-- What a round of the tape leaves in `trades`.
use mathlib.Core.List.{append-nil}
use agentpit.Prelude.{
  ℕ, suc, ◌<◌, ◌≡◌, ◌≢◌, refl, ap, sym, ◌∙◌, Bool, not, ◌&&◌, some, List, [], ◌∷◌, ◌++◌, All,
  is_nil, ==_iff, arith, Option-cases, Bool-cases, inl, inr,
}
use agentpit.Replica.{micro}
use agentpit.Store.{Db, TradeRow, mirrored}
use agentpit.Feed.{MirrorState, TradeEvent}
use agentpit.Orders.Legs.{Leg, legs_for_user}
use agentpit.Engine.Tape.{
  MirroredPrint, print_of, event_print, prints_of, mirrored_row, mirrored_rows,
  insert_mirrored_trades, tape_round,
}

-- A row that the tape wrote: it counts as no order's fill, at a price between 0 and one dollar, of
-- some size, at a time.
abbrev pub IsTapeRow : ℕ → TradeRow → Type 0
IsTapeRow mirror_key row =
    (row.status ≡ mirrored)
    × (row.taker_api_key ≡ mirror_key)
    × (row.maker_api_key ≡ mirror_key)
    × (0 < row.price)
    × (row.price < micro)
    × (0 < row.trade_size)
    × (0 < row.match_time)

abbrev IsPrint : MirroredPrint → Type 0
IsPrint p =
    (0 < p.price_micro) × (p.price_micro < micro) × (0 < p.size_micro) × (0 < p.match_time_s)

event_print-IsPrint :
    (s : MirrorState) (ev : TradeEvent) {p : MirroredPrint} → event_print s ev ≡ some p → IsPrint p
unfolding event_print print_of
event_print-IsPrint s ev {p} e = ground arith

prints_of-IsPrint : (s : MirrorState) (evs : List TradeEvent) → All IsPrint (prints_of s evs)
unfolding prints_of
prints_of-IsPrint s [] = tt
prints_of-IsPrint s (ev ∷ evs) = elim (Option-cases (event_print s ev)) [
  | inl dropped ↦ rw (All, prints_of, dropped) (prints_of-IsPrint s evs)
  | inr (p, e) ↦ rw (All, prints_of, e) (event_print-IsPrint s ev e, prints_of-IsPrint s evs)
]

mirrored_rows-IsTapeRow :
    (mirror_key : ℕ) (drawn : ℕ → ℕ) (i : ℕ) (prints : List MirroredPrint)
    → All IsPrint prints
    → All (IsTapeRow mirror_key) (mirrored_rows mirror_key drawn i prints)
unfolding mirrored_rows mirrored_row
mirrored_rows-IsTapeRow mirror_key drawn i [] v = tt
mirrored_rows-IsTapeRow mirror_key drawn i (p ∷ prints) v = (
  (refl, refl, refl, v.0.0, v.0.1, v.0.2, v.0.3),
  mirrored_rows-IsTapeRow mirror_key drawn (suc i) prints v.1,
)

-- The legs that an account has in the trades.
abbrev pub legs_in : ℕ → List TradeRow → List Leg
legs_in api_key [] = []
legs_in api_key (t ∷ ts) = legs_for_user t api_key ++ legs_in api_key ts

legs_in-tape :
    (api_key mirror_key : ℕ) (old rows : List TradeRow)
    → api_key ≢ mirror_key
    → All (IsTapeRow mirror_key) rows
    → legs_in api_key (old ++ rows) ≡ legs_in api_key old
unfolding legs_for_user
legs_in-tape api_key mirror_key [] [] other v = refl
legs_in-tape api_key mirror_key [] (t ∷ rows) other v =
    ground
      (arith, legs_in-tape api_key mirror_key [] rows other v.1, v.0, ==_iff mirror_key api_key)
legs_in-tape api_key mirror_key (t ∷ old) rows other v =
    rw (legs_in-tape api_key mirror_key old rows other v) refl

-- Mirrored rows only, after the trades that are there.
abbrev pub AddsTapeRows : ℕ → Db → Db → Type 0
AddsTapeRows mirror_key db db' =
    (rows : List TradeRow) × (db' ≡ record db { trades = db.trades ++ rows })
    × All (IsTapeRow mirror_key) rows

tape_round-AddsTapeRows :
    (enabled written : Bool) (mirror_key : ℕ) (drawn : ℕ → ℕ) (s : MirrorState) (db : Db)
    → AddsTapeRows mirror_key db (tape_round enabled written mirror_key drawn s db).1
unfolding tape_round insert_mirrored_trades
tape_round-AddsTapeRows enabled written mirror_key drawn s db =
    let prints = prints_of s s.trades in
    elim (Bool-cases (not (is_nil prints) && (enabled && written))) [
      | inl writes ↦ (
        mirrored_rows mirror_key drawn 0 prints,
        rw (tape_round, writes) refl,
        mirrored_rows-IsTapeRow mirror_key drawn 0 prints (prints_of-IsPrint s s.trades),
      )
      | inr silent ↦ (
        [],
        rw (tape_round, silent) (ap (λ ts. record db { trades = ts }) (sym (append-nil db.trades))),
        tt,
      )
    ]

-- A round of the tape empties its queue and adds mirrored rows only, at valid prices, sizes and
-- times, after the trades that are there; no account but the tape's own gets a leg by it.
pub tape_round_lem :
    (enabled written : Bool) (mirror_key : ℕ) (drawn : ℕ → ℕ) (s : MirrorState) (db : Db)
    → let (s', db') = tape_round enabled written mirror_key drawn s db in
      (s'.trades ≡ [])
      × AddsTapeRows mirror_key db db'
      × ((api_key : ℕ)
          → api_key ≢ mirror_key
          → legs_in api_key db'.trades ≡ legs_in api_key db.trades)
unfolding tape_round
tape_round_lem enabled written mirror_key drawn s db =
    let (rows, eq, tape) = tape_round-AddsTapeRows enabled written mirror_key drawn s db in
    (
      refl,
      (rows, eq, tape),
      λ api_key other.
          ap (λ d. legs_in api_key d.trades) eq
          ∙ legs_in-tape api_key mirror_key db.trades rows other tape,
    )
