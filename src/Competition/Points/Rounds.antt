-- ===== src/Competition/Points/Rounds.antt =====
-- Rounds of the loop over the points of one competition, one after another.
use agentpit.Prelude.{
  ℕ, ◌+◌, ◌-◌, ◌%◌, ◌≤◌, ◌<◌, max, ◌≡◌, sym, ap, ◌∙◌, Bool, true, false, ◌&&◌, ◌||◌, leb, ◌==◌,
  Option, some, List, [], ◌∷◌, ltb, ==_iff, arith, if◌then◌else◌, inl, inr,
}
use agentpit.Prelude.Counts.{count}
use agentpit.Prelude.Dict.{get, nat_eq, get-put}
use agentpit.Competition.{Competition, Tables, hour, or_else}
use agentpit.Competition.Points.{due, start_after, floor, point_lag, last_of, record_one}
use agentpit.Competition.Points.Due.{List-cases, is_due, count-due, due_below, last_due}

-- The boundaries that a round finds.
abbrev pub boundaries : ℕ → Competition → List (ℕ × ℕ) → List ℕ
boundaries now c cursor = due (start_after now c cursor) (now - point_lag) c.ends_at

abbrev pub is_boundary : ℕ → ℕ → Bool
is_boundary ends_at k = k == ends_at || (ltb k ends_at && k % hour == 0)

-- A time from the latest of three to `until`, where it is a boundary.
abbrev pub is_within : ℕ → ℕ → ℕ → ℕ → Bool → ℕ → Bool
is_within g starts_at low until b k =
    ltb g k && (ltb starts_at k && (ltb low k && (leb k until && b)))

pub is_due-max :
    (g starts_at low until ends_at k : ℕ)
    → is_due (max (max g starts_at) low) until ends_at k
      ≡ is_within g starts_at low until (is_boundary ends_at k) k
is_due-max g starts_at low until ends_at k = ground arith

abbrev one_if : Bool → ℕ
one_if b = if b then 1 else 0

count-boundaries :
    (now : ℕ) (c : Competition) (cursor : List (ℕ × ℕ)) (k : ℕ)
    → count k (boundaries now c cursor)
      ≡ one_if (
          is_within
            (or_else (get cursor c.slug) 0)
            c.starts_at
            (floor now - 1)
            (now - point_lag)
            (is_boundary c.ends_at k)
            k)
count-boundaries now c cursor k =
    count-due (start_after now c cursor) (now - point_lag) c.ends_at k
    ∙ ap one_if (
        is_due-max (or_else (get cursor c.slug) 0) c.starts_at (floor now - 1) (now - point_lag)
          c.ends_at k)

-- Two stretches of time, the second from the last boundary `g'` of the first.
two_stretches :
    (g g' starts_at low low' until until' k : ℕ) (b : Bool)
    → low ≤ low'
    → until ≤ until'
    → g < g'
    → g' ≤ until
    → (is_within g starts_at (low - 1) until b k ≡ true → k ≤ g')
    → one_if (is_within g starts_at (low - 1) until b k)
        + one_if (is_within g' starts_at (low' - 1) until' b k)
      ≡ (if ltb k low'
          then one_if (is_within g starts_at (low - 1) until b k)
          else one_if (is_within g starts_at (low' - 1) until' b k))
two_stretches g g' starts_at low low' until until' k false le1 le2 lt le last = ground arith
two_stretches g g' starts_at low low' until until' k true le1 le2 lt le last = ground arith

after_is :
    (g starts_at low until k : ℕ) (b : Bool) → is_within g starts_at low until b k ≡ true → g < k
after_is g starts_at low until k b h = ground arith

until_is :
    (g starts_at low until k : ℕ) (b : Bool)
    → is_within g starts_at low until b k ≡ true
    → k ≤ until
until_is g starts_at low until k b h = ground arith

-- The boundaries that two rounds find, the later one from the last that the first has found.
rounds_at :
    (now now' : ℕ) (c : Competition) (cursor cursor' : List (ℕ × ℕ)) (t : ℕ) (ts : List ℕ) (k : ℕ)
    → now ≤ now'
    → boundaries now c cursor ≡ t ∷ ts
    → get cursor' c.slug ≡ some (last_of t ts)
    → count k (boundaries now c cursor) + count k (boundaries now' c cursor') ≡ (
        if ltb k (floor now')
        then count k (boundaries now c cursor)
        else count k (boundaries now' c cursor))
rounds_at now now' c cursor cursor' t ts k le found moved =
    let after = start_after now c cursor in
    let until = now - point_lag in
    let g = or_else (get cursor c.slug) 0 in
    let last = last_of t ts in
    let first = count-boundaries now c cursor k in
    let at_last =
      sym (is_due-max g c.starts_at (floor now - 1) until c.ends_at last)
      ∙ last_due after until c.ends_at t ts found in
    let below : is_within g c.starts_at (floor now - 1) until (is_boundary c.ends_at k) k ≡ true
        → k ≤ last =
      λ h. due_below after until c.ends_at t ts found k (omega (arith, first ∙ ap one_if h)) in
    let later : count k (boundaries now' c cursor')
        ≡ one_if (
            is_within last c.starts_at (floor now' - 1) (now' - point_lag) (is_boundary c.ends_at k)
              k) =
      count-boundaries now' c cursor' k
      ∙ ap
          (λ (o : Option ℕ). one_if (
            is_within (or_else o 0) c.starts_at (floor now' - 1) (now' - point_lag)
              (is_boundary c.ends_at k) k))
          moved in
    rw (first, later, count-boundaries now' c cursor k)
      (two_stretches g last c.starts_at (floor now) (floor now') until (now' - point_lag) k
        (is_boundary c.ends_at k) (omega arith) (omega arith)
        (after_is g c.starts_at (floor now - 1) until last (is_boundary c.ends_at last) at_last)
        (until_is g c.starts_at (floor now - 1) until last (is_boundary c.ends_at last) at_last)
        below)

-- A round that finds nothing leaves the cursor, and one that finds boundaries sets it to the last.
cursor_after :
    (now : ℕ) (c : Competition) (db : Tables) (cursor : List (ℕ × ℕ)) (t : ℕ) (ts : List ℕ)
    → boundaries now c cursor ≡ t ∷ ts
    → get (record_one now c (db, cursor)).1 c.slug ≡ some (last_of t ts)
unfolding record_one
cursor_after now c db cursor t ts found =
    rw (record_one, found)
      (ground (arith, get-put c.slug c.slug (last_of t ts) cursor, ==_iff c.slug c.slug))

-- Nothing is found before the floor.
none_before :
    (now : ℕ) (c : Competition) (cursor : List (ℕ × ℕ)) (k : ℕ)
    → k < floor now
    → count k (boundaries now c cursor) ≡ 0
none_before now c cursor k lt = ground (arith, count-boundaries now c cursor k)

no_round :
    (now' : ℕ) (c : Competition) (cursor : List (ℕ × ℕ)) (k : ℕ)
    → count k [] + count k (boundaries now' c cursor)
      ≡ (if ltb k (floor now') then count k [] else count k (boundaries now' c cursor))
unfolding count
no_round now' c cursor k = ground (arith, none_before now' c cursor k)

-- Two rounds of the loop for one competition, the later one from the cursor that the first has left:
-- a boundary that is not before the later round's floor is found as often by the two, together, as
-- by the later round alone; one before it is found by the first round only.
pub record_one_rounds :
    (now now' : ℕ) (c : Competition) (db : Tables) (cursor : List (ℕ × ℕ)) (k : ℕ)
    → now ≤ now'
    → let cursor' = (record_one now c (db, cursor)).1 in
      count k (boundaries now c cursor) + count k (boundaries now' c cursor') ≡ (
        if ltb k (floor now')
        then count k (boundaries now c cursor)
        else count k (boundaries now' c cursor))
unfolding record_one
record_one_rounds now now' c db cursor k le = elim (List-cases (boundaries now c cursor)) [
  | inl nil ↦ rw (record_one, nil) (no_round now' c cursor k)
  | inr (t, ts, found) ↦
      rounds_at now now' c cursor (record_one now c (db, cursor)).1 t ts k le found
        (cursor_after now c db cursor t ts found)
]
