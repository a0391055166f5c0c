-- ===== src/Leaderboard.antt =====
-- services/leaderboard_service.py: the board that is assembled from the accounts' snapshots. A
-- percentage is a float: `percent` gives its place in the order of floats. An address is compared as a
-- text: a number stands for its place in that order. A day is a number.
-- Fields that are only copied, such as names and times of trades, are left out.
pub mod Ranks
pub mod Rows
pub mod Places
use agentpit.Prelude.{
  ℕ, zero, suc, ◌+◌, ◌-◌, Bool, true, false, not, ◌&&◌, ◌||◌, Option, none, some, List, [], ◌∷◌,
  map, filter, ltb, leb, ◌==◌, if◌then◌else◌, ℤ, pos, pos_part, neg_part, sub_ℕ, ltb_ℤ,
}
use agentpit.Prelude.Dict.{get, put, nat_eq}

abbrev pub rank_floor : ℕ
rank_floor = 3

-- `compute_earned_raw`
abbrev pub compute_earned_raw : ℕ → ℕ → ℤ
compute_earned_raw capital deposited = sub_ℕ capital deposited

pub record LeaderboardRow : Type 0 where
  pub address : ℕ
  pub capital_raw : ℕ
  pub deposited_raw : ℕ
  pub invested_raw : ℕ
  pub unrealized_raw : ℤ
  pub trades : ℕ
  pub markets : ℕ
  pub trades_today : ℕ
  pub trend_start : Option ℕ
  pub trend : List ℤ
  pub place : Option ℕ
  pub place_change : Option ℤ

pub data Sort : Type 0 where
  by_return by_earned by_capital by_trades : Sort

module _ (percent : ℤ → ℕ → ℤ) where
  -- `compute_return_pct`: the division's float.
  abbrev pub return_pct : LeaderboardRow → ℤ
  return_pct r =
      if r.deposited_raw == 0
      then pos 0
      else percent (compute_earned_raw r.capital_raw r.deposited_raw) r.deposited_raw

  abbrev pub earned_raw : LeaderboardRow → ℤ
  earned_raw r = compute_earned_raw r.capital_raw r.deposited_raw

  -- The key of a sort.
  abbrev pub key : Sort → LeaderboardRow → ℤ × ℤ × ℕ
  key by_return r = (return_pct r, earned_raw r, r.address)
  key by_earned r = (earned_raw r, return_pct r, r.address)
  key by_capital r = (pos r.capital_raw, earned_raw r, r.address)
  key by_trades r = (pos r.trades, return_pct r, r.address)

-- Tuples are compared from the left.
abbrev pub is_above : ℤ × ℤ × ℕ → ℤ × ℤ × ℕ → Bool
is_above (a, b, c) (a', b', c') =
    ltb_ℤ a' a || (not (ltb_ℤ a a') && (ltb_ℤ b' b || (not (ltb_ℤ b b') && ltb c' c)))

module _ (above : LeaderboardRow → LeaderboardRow → Bool) where
  unfoldable pub insert_row : LeaderboardRow → List LeaderboardRow → List LeaderboardRow
  insert_row r [] = r ∷ []
  insert_row r (x ∷ xs) = let rest = insert_row r xs in if above x r then x ∷ rest else r ∷ x ∷ xs

  -- `sorted(…, reverse=True)`: rows of equal keys keep their order.
  unfoldable pub sort_rows : List LeaderboardRow → List LeaderboardRow
  unfolding insert_row
  sort_rows [] = []
  sort_rows (r ∷ rs) = insert_row r (sort_rows rs)

-- `rank_rows`
abbrev pub ahead : (ℤ → ℕ → ℤ) → Sort → LeaderboardRow → LeaderboardRow → Bool
ahead percent sort r x = is_above (key percent sort r) (key percent sort x)

unfoldable pub rank_rows : (ℤ → ℕ → ℤ) → Sort → List LeaderboardRow → List LeaderboardRow
unfolding sort_rows
rank_rows percent sort rows = sort_rows (ahead percent sort) rows

abbrev pub is_ranked : LeaderboardRow → Bool
is_ranked r = leb rank_floor r.markets

-- The dictionary of the places from `k` on.
unfoldable pub number_from : ℕ → List LeaderboardRow → List (ℕ × ℕ) → List (ℕ × ℕ)
number_from k [] d = d
number_from k (r ∷ rs) d = number_from (suc k) rs (put r.address k d)

-- `places`
unfoldable pub places : (ℤ → ℕ → ℤ) → List LeaderboardRow → List (ℕ × ℕ)
unfolding rank_rows number_from
places percent rows = number_from 1 (filter is_ranked (rank_rows percent by_return rows)) []

pub record DailyClose : Type 0 where
  pub day : ℕ
  pub capital : ℕ
  pub deposited : ℕ

abbrev pub earned_by_day : List DailyClose → List (ℕ × ℤ) → List (ℕ × ℤ)
earned_by_day [] d = d
earned_by_day (c ∷ cs) d = earned_by_day cs (put c.day (compute_earned_raw c.capital c.deposited) d)

-- The trend after `last`: a day without a close repeats the one before.
unfoldable pub trend_after : List (ℕ × ℤ) → ℕ → ℕ → ℤ → List ℤ
trend_after earned day zero last = []
trend_after earned day (suc left) last =
    let x : ℤ = elim (get earned day) [ none ↦ last | some v ↦ v ] in
    x ∷ trend_after earned (suc day) left x

-- `daily_trend`
unfoldable pub daily_trend : List DailyClose → ℕ → Option ℕ × List ℤ
unfolding trend_after
daily_trend [] today = (none, [])
daily_trend (c ∷ cs) today =
    let earned = earned_by_day (c ∷ cs) [] in
    let first : ℤ = elim (get earned c.day) [ none ↦ pos 0 | some v ↦ v ] in
    (some c.day, first ∷ trend_after earned (suc c.day) (today - c.day) first)

-- What the board reads of an account: its latest snapshot, its tally and its closes.
pub record Snapshot : Type 0 where
  pub capital : ℕ
  pub deposited : ℕ
  pub invested : ℕ
  pub unrealized : ℤ

pub record Tally : Type 0 where
  pub trades : ℕ
  pub markets : ℕ
  pub trades_before : ℕ
  pub markets_before : ℕ

pub record BoardReads : Type 0 where
  -- The user ids and addresses of the accounts that have traded.
  pub accounts : List (ℕ × ℕ)
  pub latest : List (ℕ × Snapshot)
  pub tallies : List (ℕ × Tally)
  pub closes : List (ℕ × List DailyClose)

abbrev pub closes_of : BoardReads → ℕ → List DailyClose
closes_of b user_id = elim (get b.closes user_id) [ none ↦ [] | some own ↦ own ]

abbrev board_row : ℕ → Snapshot → Tally → List DailyClose → ℕ → LeaderboardRow
board_row address s t own today = record {
  address = address;
  capital_raw = s.capital;
  deposited_raw = s.deposited;
  invested_raw = s.invested;
  unrealized_raw = s.unrealized;
  trades = t.trades;
  markets = t.markets;
  trades_today = t.trades - t.trades_before;
  trend_start = (daily_trend own today).0;
  trend = (daily_trend own today).1;
  place = none;
  place_change = none;
}

-- The last close before today.
abbrev pub last_before : ℕ → List DailyClose → Option DailyClose
last_before today [] = none
last_before today (c ∷ cs) = elim (last_before today cs) [
  | some x ↦ some x
  | none ↦ if ltb c.day today then some c else none
]

abbrev row_then : Tally → DailyClose → LeaderboardRow → LeaderboardRow
row_then t c row = record row {
  capital_raw = c.capital;
  deposited_raw = c.deposited;
  trades = t.trades_before;
  markets = t.markets_before;
}

-- The rows now, and those of yesterday's close.
unfoldable pub board_rows :
    BoardReads → ℕ → List (ℕ × ℕ) → List LeaderboardRow × List LeaderboardRow
unfolding daily_trend
board_rows b today [] = ([], [])
board_rows b today ((user_id, address) ∷ accounts) =
    let (rows, before) = board_rows b today accounts in
    elim (get b.latest user_id) [
      | none ↦ (rows, before)
      | some s ↦ (elim (get b.tallies user_id) [
        | none ↦ (rows, before)
        | some t ↦
            let own = closes_of b user_id in
            let row = board_row address s t own today in
            (
              row ∷ rows,
              elim (last_before today own) [ none ↦ before | some c ↦ row_then t c row ∷ before ],
            )
      ])
    ]

abbrev change_of : Option ℕ → Option ℕ → Option ℤ
change_of (some now) (some before) = some (sub_ℕ before now)
change_of _ _ = none

abbrev with_place : List (ℕ × ℕ) → List (ℕ × ℕ) → LeaderboardRow → LeaderboardRow
with_place now before r = record r {
  place = get now r.address;
  place_change = change_of (get now r.address) (get before r.address);
}

-- `_assemble_board`
unfoldable pub assemble_board : (ℤ → ℕ → ℤ) → BoardReads → ℕ → List LeaderboardRow
unfolding board_rows places
assemble_board percent b today =
    let (rows, before) = board_rows b today b.accounts in
    map (with_place (places percent rows) (places percent before)) rows
