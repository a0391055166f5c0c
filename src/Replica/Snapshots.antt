-- ===== src/Replica/Snapshots.antt =====
-- liquidity/replica.py: `BookReplica.snapshot`.
pub mod Sorting
pub mod Views
use agentpit.Prelude.{
  ℕ, ◌<◌, ◌≤◌, min, max, Bool, true, false, ◌&&◌, ◌||◌, Option, none, some, List, [], ◌∷◌, ltb, leb,
  ◌==◌, if◌then◌else◌,
}
use agentpit.Replica.{Side, BookReplica, BookSnapshot}

-- `<` on the pairs that `sorted` compares.
abbrev pub level_lt : ℕ × ℕ → ℕ × ℕ → Bool
level_lt (p, s) (q, t) = ltb p q || (p == q && ltb s t)

abbrev pub level_gt : ℕ × ℕ → ℕ × ℕ → Bool
level_gt a b = level_lt b a

-- `sorted` with `before` as the order: an element goes in front of the first that it is before.
unfoldable pub insert_by : (ℕ × ℕ → ℕ × ℕ → Bool) → ℕ × ℕ → Side → Side
insert_by before x [] = x ∷ []
insert_by before x (y ∷ ys) = if before x y then x ∷ y ∷ ys else y ∷ insert_by before x ys

unfoldable pub sort_by : (ℕ × ℕ → ℕ × ℕ → Bool) → Side → Side
unfolding insert_by
sort_by before [] = []
sort_by before (x ∷ xs) = insert_by before x (sort_by before xs)

max_from : ℕ → Side → ℕ
max_from m [] = m
max_from m ((p, s) ∷ d) = max_from (max m p) d

min_from : ℕ → Side → ℕ
min_from m [] = m
min_from m ((p, s) ∷ d) = min_from (min m p) d

-- `bids and asks and max(bids) >= min(asks)`
crossed : Side → Side → Bool
unfolding max_from min_from
crossed [] asks = false
crossed (b ∷ bs) [] = false
crossed (b ∷ bs) (a ∷ rest) = leb (min_from a.0 rest) (max_from b.0 bs)

unfoldable pub snapshot : BookReplica → Option BookSnapshot
unfolding crossed sort_by
snapshot r =
    if r.seeded
    then (if crossed r.bids r.asks
        then none
        else some (record {
          asset_id = r.asset_id;
          bids = sort_by level_gt r.bids;
          asks = sort_by level_lt r.asks;
        }))
    else none
