-- ===== src/Competition/Points/Values.antt =====
-- What a point is worth, from the rows that it is taken from.
use agentpit.Prelude.{
  ℕ, ◌≡◌, refl, Bool, false, ◌&&◌, Option, none, some, List, [], ◌∷◌, filter, leb, ltb, ◌==◌, arith,
}
use agentpit.Competition.{
  Competition, Account, AccountSnapshot, CompetitionEntry, Tables, find_competition, find_user,
  still_in, last_capital, or_else, takes_point, value_at,
}

abbrev pub started_before : ℕ → Option ℕ → Bool
started_before t none = false
started_before t (some s) = ltb s t

-- The competition's end is not before `t`, and the account was there to its end.
abbrev pub runs_to : ℕ → Option Account → Option Competition → Bool
runs_to t u none = false
runs_to t u (some c) = leb t c.ends_at && still_in u c.ends_at

-- Whether an entry is in the race of the competition at `t`.
abbrev pub is_racing : ℕ → ℕ → Tables → CompetitionEntry → Bool
is_racing slug t db e =
    e.slug == slug
    && (started_before t e.start_at
        && runs_to t (find_user e.user_id db) (find_competition e.slug db))

pub is_racing_lem :
    (slug t : ℕ) (db : Tables) (e : CompetitionEntry)
    → takes_point slug t e db ≡ is_racing slug t db e
unfolding takes_point
is_racing_lem slug t db e = ground arith

-- The capital of the last snapshot, or `d` where there is none.
abbrev pub newest : ℕ → List AccountSnapshot → ℕ
newest d [] = d
newest d (s ∷ l) = newest s.capital_raw l

abbrev pub is_between : ℕ → ℕ → ℕ → AccountSnapshot → Bool
is_between user_id from t s = s.user_id == user_id && (leb from s.t && ltb s.t t)

-- What an entry is worth at `t`: by its newest snapshot since its start and before `t`, or else its
-- start value.
abbrev pub worth : ℕ → Tables → CompetitionEntry → ℕ
worth t db e =
    newest (or_else e.start_raw 0)
      (filter (is_between e.user_id (or_else e.start_at 0) t) db.snapshots)

newest_lem :
    (user_id from t d : ℕ) (l : List AccountSnapshot)
    → or_else (last_capital user_id from t l) d ≡ newest d (filter (is_between user_id from t) l)
unfolding last_capital
newest_lem user_id from t d [] = refl
newest_lem user_id from t d (s ∷ l) =
    ground (arith, newest_lem user_id from t d l, newest_lem user_id from t s.capital_raw l)

pub worth_lem : (e : CompetitionEntry) (t : ℕ) (db : Tables) → value_at e t db ≡ worth t db e
unfolding value_at
worth_lem e t db =
    newest_lem e.user_id (or_else e.start_at 0) t (or_else e.start_raw 0) db.snapshots
