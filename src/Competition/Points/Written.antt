-- ===== src/Competition/Points/Written.antt =====
-- What a round of the loop for one competition writes.
use agentpit.Prelude.{
  ℕ, ◌≡◌, refl, ◌∙◌, ◌&&◌, Option, none, some, List, [], ◌∷◌, is_some, ◌-◌, ◌==◌, arith,
  if◌then◌else◌, inl, inr,
}
use agentpit.Prelude.Counts.{is_in, is_in-count}
use agentpit.Store.{find}
use agentpit.Prelude.Dict.{get, nat_eq, get-put}
use agentpit.Competition.Points.{start_after, floor, point_lag, last_of, record_one}
use agentpit.Competition.Points.Due.{List-cases, is_due, count-due}
use agentpit.Competition.Points.Rounds.{boundaries, is_boundary, is_within, is_due-max}
use agentpit.Competition.{
  Competition, Point, Tables, is_point, points_at_all, write_points, or_else,
}
use agentpit.Competition.Points.Adds.{first_or, rows, point_of, is_racer, points_at_all-Adds}

-- The last of the boundaries found, or the cursor before where none is found.
abbrev pub latest : Option ℕ → List ℕ → Option ℕ
latest o [] = o
latest o (t ∷ ts) = latest (some t) ts

latest_lem : (t : ℕ) (ts : List ℕ) → latest (some t) ts ≡ some (last_of t ts)
latest_lem t [] = refl
latest_lem t (u ∷ ts) = latest_lem u ts

rows-none :
    (s k u : ℕ) (points : List Point) → find (is_point s k u) points ≡ none → rows s k u points ≡ 0
rows-none s k u [] out = refl
rows-none s k u (p ∷ points) out = ground (arith, rows-none s k u points)

-- What `record_one` leaves in the tables and in the cursors.
record_one_db :
    (now : ℕ) (c : Competition) (db : Tables) (cursor : List (ℕ × ℕ))
    → (record_one now c (db, cursor)).0
      ≡ record db { points = points_at_all c.slug (boundaries now c cursor) db db.points }
unfolding record_one write_points points_at_all
record_one_db now c db cursor = elim (List-cases (boundaries now c cursor)) [
  | inl nil ↦ rw (record_one, nil) refl
  | inr (t, ts, e) ↦ rw (record_one, e) refl
]

record_one_cursor :
    (now : ℕ) (c : Competition) (db : Tables) (cursor : List (ℕ × ℕ)) (b : ℕ)
    → get (record_one now c (db, cursor)).1 b
      ≡ (if c.slug == b then latest (get cursor b) (boundaries now c cursor) else get cursor b)
unfolding record_one
record_one_cursor now c db cursor b = elim (List-cases (boundaries now c cursor)) [
  | inl nil ↦ rw (record_one, nil) (ground arith)
  | inr (t, ts, e) ↦
      rw (record_one, e) (ground (arith, get-put c.slug b (last_of t ts) cursor, latest_lem t ts))
]

-- The point of an account at `k` that a round writes where none is there.
abbrev pub new_point : ℕ → Competition → Tables → List (ℕ × ℕ) → ℕ → ℕ → ℕ → Option Point
new_point now c db cursor s k u =
    if c.slug == s
      && is_within (or_else (get cursor c.slug) 0) c.starts_at (floor now - 1) (now - point_lag)
          (is_boundary c.ends_at k) k
    then point_of c.slug k db (find (is_racer c.slug k u db) db.entries)
    else none

is_in-boundaries :
    (now : ℕ) (c : Competition) (cursor : List (ℕ × ℕ)) (k : ℕ)
    → is_in k (boundaries now c cursor)
      ≡ is_within
          (or_else (get cursor c.slug) 0)
          c.starts_at
          (floor now - 1)
          (now - point_lag)
          (is_boundary c.ends_at k)
          k
is_in-boundaries now c cursor k =
    let after = start_after now c cursor in
    let found : is_in k (boundaries now c cursor) ≡ is_due after (now - point_lag) c.ends_at k =
      ground (
        arith,
        is_in-count k (boundaries now c cursor),
        count-due after (now - point_lag) c.ends_at k,
      ) in
    found
    ∙ is_due-max (or_else (get cursor c.slug) 0) c.starts_at (floor now - 1) (now - point_lag)
        c.ends_at k

-- A round of the loop for one competition writes one point for each boundary since its cursor, its
-- start and the floor, up to `point_lag` ago, and each account with an entry in the race there that
-- has no point there yet: the boundary, and the capital of the entry's newest snapshot since its
-- start and before the boundary, or else its start value. A point that is there stays, and none is
-- written a second time. No other table is touched, and only the competition's cursor moves, to the
-- last boundary found.
pub record_one_points :
    (now : ℕ) (c : Competition) (db : Tables) (cursor : List (ℕ × ℕ)) (s k user_id : ℕ)
    → let old = find (is_point s k user_id) db.points in
      let new = new_point now c db cursor s k user_id in
      let (db', cursor') = record_one now c (db, cursor) in
      (find (is_point s k user_id) db'.points ≡ first_or old new)
      × (rows s k user_id db'.points
          ≡ (if is_some old then rows s k user_id db.points else if is_some new then 1 else 0))
      × (db' ≡ record db { points = db'.points })
      × ((b : ℕ)
          → get cursor' b ≡ (
              if c.slug == b
              then latest (get cursor b) (boundaries now c cursor)
              else get cursor b))
record_one_points now c db cursor s k user_id =
    let ts = boundaries now c cursor in
    let (found, counted) = points_at_all-Adds c.slug db s k user_id ts db.points in
    rw (record_one_db now c db cursor) (
      ground (arith, found, is_in-boundaries now c cursor k),
      ground (arith, counted, is_in-boundaries now c cursor k, rows-none s k user_id db.points),
      refl,
      record_one_cursor now c db cursor,
    )
