-- ===== src/Competition/Points/Adds.antt =====
-- `write_points`: the rows that it adds.
use agentpit.Prelude.{
  ℕ, ◌≡◌, refl, Bool, true, ◌&&◌, Option, none, some, List, [], ◌∷◌, ◌++◌, any, filter, length,
  is_some, ◌+◌, ◌==◌, ==_iff, arith, if◌then◌else◌,
}
use agentpit.Prelude.Counts.{is_in}
use agentpit.Store.{find}
use agentpit.Prelude.Dict.{nat_eq}
use agentpit.Competition.Points.Values.{is_racing, is_racing_lem, worth, worth_lem}
use agentpit.Competition.{
  Point, CompetitionEntry, Tables, is_point, has_point, takes_point, value_at, add_point, points_at,
  points_at_all,
}

any-find : {A : Type 0} (p : A → Bool) (l : List A) → any p l ≡ is_some (find p l)
any-find p [] = refl
any-find p (x ∷ l) = ground (arith, any-find p l)

-- What is found stays found.
abbrev pub first_or : Option Point → Option Point → Option Point
first_or none new = new
first_or (some p) new = some p

find-append :
    (q : Point → Bool) (xs ys : List Point) → find q (xs ++ ys) ≡ first_or (find q xs) (find q ys)
find-append q [] ys = refl
find-append q (x ∷ xs) ys = ground (arith, find-append q xs ys)

-- How many rows there are of an account at a boundary.
abbrev pub rows : ℕ → ℕ → ℕ → List Point → ℕ
rows slug t user_id points = length (filter (is_point slug t user_id) points)

length-filter_append :
    {A : Type 0} (p : A → Bool) (xs ys : List A)
    → length (filter p (xs ++ ys)) ≡ length (filter p xs) + length (filter p ys)
length-filter_append p [] ys = omega arith
length-filter_append p (x ∷ xs) ys = ground (arith, length-filter_append p xs ys)

-- A first row is written where none is there; rows that are there stay, and stay as many.
abbrev Adds : ℕ → ℕ → ℕ → Option Point → List Point → List Point → Type 0
Adds s k u new old points =
    (find (is_point s k u) points ≡ first_or (find (is_point s k u) old) new)
    × (rows s k u points ≡ (
        if is_some (find (is_point s k u) old)
        then rows s k u old
        else if is_some new
        then rows s k u old + 1
        else rows s k u old))

same_point :
    (s k u : ℕ) (p : Point) (points : List Point)
    → is_point s k u p ≡ true
    → has_point p.slug p.t p.user_id points ≡ is_some (find (is_point s k u) points)
same_point s k u p points same =
    let a = (==_iff p.slug s).0 (ground (arith, same)) in
    let b = (==_iff p.t k).0 (ground (arith, same)) in
    let c = (==_iff p.user_id u).0 (ground (arith, same)) in
    rw (a, b, c) (any-find (is_point s k u) points)

add_point-Adds :
    (s k u : ℕ) (p : Point) (points : List Point)
    → Adds s k u (if is_point s k u p then some p else none) points (add_point p points)
unfolding add_point
add_point-Adds s k u p points = ground (
  arith,
  same_point s k u p points,
  find-append (is_point s k u) points (p ∷ []),
  length-filter_append (is_point s k u) points (p ∷ []),
)

Adds-trans :
    (s k u : ℕ) (a b : Option Point) (old mid points : List Point)
    → Adds s k u a old mid
    → Adds s k u b mid points
    → Adds s k u (first_or a b) old points
Adds-trans s k u a b old mid points h1 h2 = ground arith

-- The point that an entry takes.
abbrev pub point_of : ℕ → ℕ → Tables → Option CompetitionEntry → Option Point
point_of slug t db none = none
point_of slug t db (some e) =
    some (record { slug = slug; t = t; user_id = e.user_id; value_raw = worth t db e })

-- Whether an entry is the account's and is in the race at `t`.
abbrev pub is_racer : ℕ → ℕ → ℕ → Tables → CompetitionEntry → Bool
is_racer slug t user_id db e = e.user_id == user_id && is_racing slug t db e

module _ (slug : ℕ) (db : Tables) (s k u : ℕ) where
  abbrev taken_at : ℕ → List CompetitionEntry → Option Point
  taken_at t es =
      if slug == s && t == k then point_of slug k db (find (is_racer slug k u db) es) else none

  points_at-Adds :
      (t : ℕ) (es : List CompetitionEntry) (points : List Point)
      → Adds s k u (taken_at t es) points (points_at slug t es db points)
  unfolding points_at
  points_at-Adds t [] points = ground arith
  points_at-Adds t (e ∷ es) points =
      let p : Point = record {
        slug = slug;
        t = t;
        user_id = e.user_id;
        value_raw = value_at e t db;
      } in
      let points' = if takes_point slug t e db then add_point p points else points in
      ground (
        arith,
        points_at-Adds t es points',
        add_point-Adds s k u p points,
        is_racing_lem slug t db e,
        worth_lem e t db,
        ==_iff t k,
      )

  pub points_at_all-Adds :
      (ts : List ℕ) (points : List Point)
      → Adds s k u
          (if slug == s && is_in k ts
            then point_of slug k db (find (is_racer slug k u db) db.entries)
            else none)
          points
          (points_at_all slug ts db points)
  unfolding points_at_all
  points_at_all-Adds [] points = ground arith
  points_at_all-Adds (t ∷ ts) points = ground (
    arith,
    points_at_all-Adds ts (points_at slug t db.entries db points),
    points_at-Adds t db.entries points,
  )
