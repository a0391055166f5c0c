-- ===== src/Examples/Board.antt =====
-- The theorem on places, at three rows.
use agentpit.Prelude.{ℕ, ◌*◌, ◌/◌, none, [], ◌∷◌, pos, pos_part, refl, All, List}
use agentpit.Leaderboard.{LeaderboardRow}
use agentpit.Leaderboard.Places.{places_lem, HasPlace}

-- An account that was handed a thousand.
abbrev row_at : ℕ → ℕ → ℕ → LeaderboardRow
row_at address capital markets = record {
  address = address;
  capital_raw = capital;
  deposited_raw = 1000;
  invested_raw = 0;
  unrealized_raw = pos 0;
  trades = 4;
  markets = markets;
  trades_today = 1;
  trend_start = none;
  trend = [];
  place = none;
  place_change = none;
}

-- The second account has played on too few markets.
abbrev rows : List LeaderboardRow
rows = row_at 1 1100 5 ∷ row_at 2 1500 2 ∷ row_at 3 1200 3 ∷ []

places_lem_example :
    All (HasPlace (λ earned deposited. pos (100 * pos_part earned / deposited)) rows) rows
places_lem_example =
    places_lem (λ earned deposited. pos (100 * pos_part earned / deposited)) rows
      ((refl, (refl, tt)), ((refl, tt), (tt, tt)))
