-- ===== src/Competition/Points.antt =====
-- services/competition_service.py: `record`. The competitions are taken in the order of the table:
-- each has its own cursor and its own points.
pub mod Due
pub mod Values
pub mod Rounds
pub mod Adds
pub mod Written
use agentpit.Prelude.{
  ℕ, zero, suc, ◌+◌, ◌-◌, ◌*◌, ◌/◌, min, max, Bool, true, false, ◌&&◌, Option, none, some, List, [],
  ◌∷◌, ◌++◌, filter, ltb, leb, is_some, if◌then◌else◌,
}
use agentpit.Prelude.Dict.{get, put, nat_eq}
use agentpit.Competition.{Competition, Tables, hour, or_else, last_point, write_points}

abbrev pub dense_window : ℕ
dense_window = 48 * 3600

abbrev pub point_lag : ℕ
point_lag = 10

-- `range(t, stop, HOUR)`, on fuel.
unfoldable pub hours : ℕ → ℕ → ℕ → List ℕ
hours zero t stop = []
hours (suc fuel) t stop =
    let rest = hours fuel (t + hour) stop in if ltb t stop then t ∷ rest else []

-- The boundaries due after `after` and up to `until`.
unfoldable pub due : ℕ → ℕ → ℕ → List ℕ
unfolding hours
due after until ends_at =
    hours ends_at ((after / hour + 1) * hour) (min (until + 1) ends_at)
    ++ (if ltb after ends_at && leb ends_at until then ends_at ∷ [] else [])

abbrev pub floor : ℕ → ℕ
floor now = now + hour - dense_window

abbrev pub is_recent : ℕ → Competition → Bool
is_recent now c = ltb c.starts_at now && leb (floor now) c.ends_at

-- `ts[-1]`
abbrev pub last_of : ℕ → List ℕ → ℕ
last_of d [] = d
last_of d (t ∷ ts) = last_of t ts

unfoldable pub read_cursors : List Competition → Tables → List (ℕ × ℕ) → List (ℕ × ℕ)
read_cursors [] db cursor = cursor
read_cursors (c ∷ cs) db cursor = read_cursors cs db (
    if is_some (get cursor c.slug) then cursor else put c.slug (last_point c.slug db.points) cursor)

abbrev pub start_after : ℕ → Competition → List (ℕ × ℕ) → ℕ
start_after now c cursor = max (max (or_else (get cursor c.slug) 0) c.starts_at) (floor now - 1)

-- One competition of the loop.
unfoldable pub record_one : ℕ → Competition → Tables × List (ℕ × ℕ) → Tables × List (ℕ × ℕ)
unfolding due
record_one now c (db, cursor) = elim (due (start_after now c cursor) (now - point_lag) c.ends_at) [
  | [] ↦ (db, cursor)
  | t ∷ ts ↦ (write_points c.slug (t ∷ ts) db, put c.slug (last_of t ts) cursor)
]

unfoldable pub record_all : ℕ → List Competition → Tables × List (ℕ × ℕ) → Tables × List (ℕ × ℕ)
unfolding record_one
record_all now [] s = s
record_all now (c ∷ cs) s = record_all now cs (record_one now c s)

unfoldable pub record_points : ℕ → Tables → List (ℕ × ℕ) → Tables × List (ℕ × ℕ)
unfolding record_all read_cursors
record_points now db cursor =
    let recent = filter (is_recent now) db.competitions in
    record_all now recent (db, read_cursors recent db cursor)
