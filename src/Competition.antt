-- ===== src/Competition.antt =====
-- services/competition_service.py: the loop that writes the points of competitions and takes the
-- start and end values of their entries, and the entering and leaving, with the tables and
-- statements that they need. Accounts, slugs and tokens are numbers that stand in the order of
-- their texts; times are in seconds, values in base units.
pub mod Points
pub mod Capture
pub mod Tick
pub mod Enrolling
use agentpit.Prelude.{
  ℕ, ◌+◌, ◌-◌, ◌*◌, ◌≤◌, max, Bool, true, false, not, ◌&&◌, ◌||◌, Option, none, some, List, [], ◌∷◌,
  ◌++◌, map, filter, any, is_some, ltb, leb, ◌==◌, if◌then◌else◌,
}
use agentpit.Store.{find, update_where}

abbrev pub hour : ℕ
hour = 3600

-- A row of `competitions`.
pub record Competition : Type 0 where
  pub slug : ℕ
  pub starts_at : ℕ
  pub ends_at : ℕ
  pub has_prizes : Bool
  pub final_at : Option ℕ

-- What a capture took of a token: shares and value.
pub record Holding : Type 0 where
  pub shares : ℕ
  pub value : ℕ

-- A row of `competition_entries`.
pub record CompetitionEntry : Type 0 where
  pub slug : ℕ
  pub owner : ℕ
  pub user_id : ℕ
  pub enrolled_at : ℕ
  pub start_raw : Option ℕ
  pub start_at : Option ℕ
  pub start_holdings : Option (List (ℕ × Holding))
  pub end_raw : Option ℕ
  pub end_at : Option ℕ
  pub end_block : Option ℕ
  pub end_holdings : Option (List (ℕ × Holding))

-- A row of `users`, as far as the statements below read it.
pub record Account : Type 0 where
  pub user_id : ℕ
  pub api_key : ℕ
  pub eth_address : ℕ
  pub owner : Option ℕ
  pub is_bot : Bool
  pub peer_flagged : Bool
  pub onboarded : Bool
  pub last_topup_at : Option ℕ
  pub deleted_at : Option ℕ

-- A row of `competition_points`.
pub record Point : Type 0 where
  pub slug : ℕ
  pub t : ℕ
  pub user_id : ℕ
  pub value_raw : ℕ

-- A row of `account_snapshots`; the rows stand in the order of their times and ids.
pub record AccountSnapshot : Type 0 where
  pub user_id : ℕ
  pub t : ℕ
  pub capital_raw : ℕ

-- The tables; `pending_takers` are the keys of the accounts with a PENDING fill that they took.
pub record Tables : Type 0 where
  pub competitions : List Competition
  pub entries : List CompetitionEntry
  pub users : List Account
  pub points : List Point
  pub snapshots : List AccountSnapshot
  pub pending_takers : List ℕ

abbrev pub find_competition : ℕ → Tables → Option Competition
find_competition slug db = find (λ c. c.slug == slug) db.competitions

abbrev pub find_user : ℕ → Tables → Option Account
find_user user_id db = find (λ u. u.user_id == user_id) db.users

abbrev pub at_most : Option ℕ → ℕ → Bool
at_most none t = true
at_most (some x) t = leb x t

-- `u.DELETED_AT IS NULL OR u.DELETED_AT >= c.ENDS_AT`
abbrev pub still_in : Option Account → ℕ → Bool
still_in none ends_at = false
still_in (some u) ends_at = (elim u.deleted_at as (λ _. Bool) [
  | none ↦ true
  | some t ↦ leb ends_at t
])

abbrev pub is_entry : ℕ → ℕ → CompetitionEntry → Bool
is_entry slug user_id e = e.slug == slug && e.user_id == user_id

-- The newest capital of the account taken from `from` on and before `t`.
unfoldable pub last_capital : ℕ → ℕ → ℕ → List AccountSnapshot → Option ℕ
last_capital user_id from t [] = none
last_capital user_id from t (s ∷ rest) =
    let later = last_capital user_id from t rest in
    if is_some later
    then later
    else if s.user_id == user_id && (leb from s.t && ltb s.t t)
    then some s.capital_raw
    else none

abbrev pub or_else : Option ℕ → ℕ → ℕ
or_else none d = d
or_else (some x) d = x

-- What an entry that started is worth at the boundary `t`.
unfoldable pub value_at : CompetitionEntry → ℕ → Tables → ℕ
unfolding last_capital
value_at e t db =
    or_else (last_capital e.user_id (or_else e.start_at 0) t db.snapshots) (or_else e.start_raw 0)

abbrev pub is_point : ℕ → ℕ → ℕ → Point → Bool
is_point slug t user_id p = p.slug == slug && (p.t == t && p.user_id == user_id)

abbrev pub has_point : ℕ → ℕ → ℕ → List Point → Bool
has_point slug t user_id = any (is_point slug t user_id)

-- Whether `write_points` writes a point of the entry at `t`.
unfoldable pub takes_point : ℕ → ℕ → CompetitionEntry → Tables → Bool
takes_point slug t e db = elim (find_competition e.slug db) [
  | none ↦ false
  | some c ↦
      e.slug == slug
      && ((elim e.start_at as (λ _. Bool) [ none ↦ false | some s ↦ ltb s t ])
          && (leb t c.ends_at && still_in (find_user e.user_id db) c.ends_at))
]

-- `INSERT ... ON CONFLICT DO NOTHING` of one row.
unfoldable pub add_point : Point → List Point → List Point
add_point p points = if has_point p.slug p.t p.user_id points then points else points ++ p ∷ []

unfoldable pub points_at : ℕ → ℕ → List CompetitionEntry → Tables → List Point → List Point
points_at slug t [] db points = points
points_at slug t (e ∷ es) db points = points_at slug t es db (
    if takes_point slug t e db
    then add_point (record { slug = slug; t = t; user_id = e.user_id; value_raw = value_at e t db })
        points
    else points)

unfoldable pub points_at_all : ℕ → List ℕ → Tables → List Point → List Point
unfolding points_at
points_at_all slug [] db points = points
points_at_all slug (t ∷ ts) db points =
    points_at_all slug ts db (points_at slug t db.entries db points)

unfoldable pub write_points : ℕ → List ℕ → Tables → Tables
unfolding points_at_all
write_points slug ts db = record db { points = points_at_all slug ts db db.points }

-- `last_point`
unfoldable pub last_point : ℕ → List Point → ℕ
last_point slug [] = 0
last_point slug (p ∷ points) =
    let rest = last_point slug points in if p.slug == slug then max p.t rest else rest
