-- ===== src/Replica/Depth/Walk.antt =====
-- liquidity/replica.py: the walk of `BookReplica.take` over a side.
use agentpit.Prelude.{
  ℕ, ◌-◌, ◌≤◌, ◌<◌, ◌≡◌, refl, min, Bool, true, false, none, some, List, [], ◌∷◌, sum_by, All, any,
  ◌&&◌, ◌==◌, ==_iff, leb, sym, arith, if◌then◌else◌, eq_bool, ap, ◌∙◌, Option-cases, inl, inr,
}
use agentpit.Prelude.Dict.{get, nat_eq, pair_eq, pair_beq_iff, Distinct, Entries}
use agentpit.Replica.{Side, BookReplica, BookSnapshot, Take, Used, UseKey}
use agentpit.Replica.Snapshots.{snapshot, sort_by}
use agentpit.Replica.Snapshots.Sorting.{
  BestFirst, NoBetter, before, sort_by-BestFirst, sum_by-sort_by, any-sort_by,
}
use agentpit.Replica.Depth.{live_taken, beyond, walk, side_of, take, total}
use agentpit.Replica.Depth.Memory.{total_at}

beyond_trans :
    (ask : Bool) (bound p q : ℕ)
    → beyond ask bound p ≡ true
    → NoBetter ask p q
    → beyond ask bound q ≡ true
beyond_trans true bound p q h n = ground arith
beyond_trans false bound p q h n = ground arith

-- What a level still offers, if its price is within the bound.
abbrev pub offered : List (UseKey × Used) → ℕ → Bool → ℕ → ℕ × ℕ → ℕ
offered used now ask bound (p, s) =
    if beyond ask bound p then 0 else s - live_taken used now (ask, p)

-- Whether a level is at the take's price and still offers its size.
abbrev pub is_source : List (UseKey × Used) → ℕ → Bool → Take → ℕ × ℕ → Bool
is_source used now ask t l = l.0 == t.price && leb t.size (l.1 - live_taken used now (ask, l.0))

-- A take is of a positive size on the side asked for, at the price of one of the levels `d`, which
-- is within the bound and still offers that size.
abbrev pub IsFrom : List (UseKey × Used) → ℕ → Bool → ℕ → Side → Take → Type 0
IsFrom used now ask bound d t =
    (t.ask ≡ ask)
    × (0 < t.size)
    × (beyond ask bound t.price ≡ false)
    × (any (is_source used now ask t) d ≡ true)

IsFrom-more :
    (used : List (UseKey × Used)) (now : ℕ) (ask : Bool) (bound : ℕ) (l : ℕ × ℕ) (d : Side)
    (takes : List Take)
    → All (IsFrom used now ask bound d) takes
    → All (IsFrom used now ask bound (l ∷ d)) takes
IsFrom-more used now ask bound l d [] h = tt
IsFrom-more used now ask bound l d (t ∷ takes) (h, rest) =
    ((h.0, h.1, h.2, ground arith), IsFrom-more used now ask bound l d takes rest)

IsFrom-sort_by :
    (used : List (UseKey × Used)) (now : ℕ) (ask : Bool) (bound : ℕ) (d : Side) (takes : List Take)
    → All (IsFrom used now ask bound (sort_by (before ask) d)) takes
    → All (IsFrom used now ask bound d) takes
IsFrom-sort_by used now ask bound d [] h = tt
IsFrom-sort_by used now ask bound d (t ∷ takes) (h, rest) = (
  (h.0, h.1, h.2, sym (any-sort_by (before ask) (is_source used now ask t) d) ∙ h.3),
  IsFrom-sort_by used now ask bound d takes rest,
)

module _ (used : List (UseKey × Used)) (now : ℕ) (ask : Bool) (bound : ℕ) where
  abbrev depth_of : Side → ℕ
  depth_of = sum_by (offered used now ask bound)

  -- Behind a level that is beyond the bound there is no depth within it.
  depth_of-beyond :
      (p : ℕ) (d : Side)
      → beyond ask bound p ≡ true
      → Entries (λ q t. NoBetter ask p q) d
      → depth_of d ≡ 0
  depth_of-beyond p [] b h = refl
  depth_of-beyond p ((q, t) ∷ d) b h =
      ground (arith, beyond_trans ask bound p q b h.0, depth_of-beyond p d b h.1)

  total-walk :
      (d : Side) (size : ℕ)
      → BestFirst ask d
      → total (walk used now ask bound d size) ≡ min size (depth_of d)
  unfolding walk
  total-walk [] size h = omega arith
  total-walk ((p, s) ∷ d) size h = ground (
    arith,
    total-walk d (size - min (s - live_taken used now (ask, p)) size) h.1,
    depth_of-beyond p d,
    h.0,
  )

  walk-IsFrom :
      (d : Side) (size : ℕ) → All (IsFrom used now ask bound d) (walk used now ask bound d size)
  unfolding walk
  walk-IsFrom [] size = tt
  walk-IsFrom ((p, s) ∷ d) size =
      let rest = walk used now ask bound d (size - min (s - live_taken used now (ask, p)) size) in
      ground (
        arith,
        walk-IsFrom d (size - min (s - live_taken used now (ask, p)) size),
        IsFrom-more used now ask bound (p, s) d rest,
        ==_iff p p,
      )

abbrev pub shown_at : Side → ℕ → ℕ
shown_at d p = elim (get d p) [ none ↦ 0 | some s ↦ s ]

total_at-walk_absent :
    (used : List (UseKey × Used)) (now : ℕ) (ask : Bool) (bound : ℕ) (d : Side) (size : ℕ)
    (k : UseKey)
    → get d k.1 ≡ none
    → total_at k (walk used now ask bound d size) ≡ 0
unfolding walk get
total_at-walk_absent used now ask bound [] size k h = refl
total_at-walk_absent used now ask bound ((p, s) ∷ d) size k h = ground (
  arith,
  total_at-walk_absent used now ask bound d (size - min (s - live_taken used now (ask, p)) size) k,
)

-- At one level the walk takes no more than the level still offers, and nothing on the other side.
pub total_at-walk :
    (used : List (UseKey × Used)) (now : ℕ) (ask : Bool) (bound : ℕ) (d : Side) (size : ℕ)
    (k : UseKey)
    → Distinct d
    → total_at k (walk used now ask bound d size)
      ≤ (if eq_bool ask k.0 then shown_at d k.1 - live_taken used now k else 0)
unfolding walk get
total_at-walk used now ask bound [] size k h = omega arith
total_at-walk used now ask bound ((p, s) ∷ d) size k h =
    let left = size - min (s - live_taken used now (ask, p)) size in
    ground (
      arith,
      total_at-walk used now ask bound d left k h.1,
      total_at-walk_absent used now ask bound d left k,
      pair_beq_iff (ask, p) k,
    )

abbrev pub levels_of : Bool → BookReplica → Side
levels_of ask r = if ask then r.asks else r.bids

side_of-snapshot :
    (ask : Bool) (r : BookReplica) {b : BookSnapshot}
    → snapshot r ≡ some b
    → side_of ask b ≡ sort_by (before ask) (levels_of ask r)
unfolding snapshot
side_of-snapshot true r e = ground arith
side_of-snapshot false r e = ground arith

pub take-eq-walk :
    (now : ℕ) (ask : Bool) (bound size : ℕ) (r : BookReplica) {b : BookSnapshot}
    → snapshot r ≡ some b
    → take now ask bound size r
      ≡ walk r.used now ask bound (sort_by (before ask) (levels_of ask r)) size
unfolding take
take-eq-walk now ask bound size r e = rw (e, take) (rw (side_of-snapshot ask r e) refl)

-- Where the replica has a snapshot, `take` gets what is asked for, or all the depth within the
-- bound where that is less; each take is at the price of a level of the side asked for that is
-- within the bound, and of a size that the level still offers.
pub take_fills :
    (now : ℕ) (ask : Bool) (bound size : ℕ) (r : BookReplica) {b : BookSnapshot}
    → snapshot r ≡ some b
    → (total (take now ask bound size r)
        ≡ min size (sum_by (offered r.used now ask bound) (levels_of ask r)))
      × All (IsFrom r.used now ask bound (levels_of ask r)) (take now ask bound size r)
take_fills now ask bound size r e =
    let sorted = sort_by (before ask) (levels_of ask r) in
    rw (take-eq-walk now ask bound size r e) (
      total-walk r.used now ask bound sorted size (sort_by-BestFirst ask (levels_of ask r))
          ∙ ap (min size)
              (sum_by-sort_by (before ask) (offered r.used now ask bound) (levels_of ask r)),
      IsFrom-sort_by r.used now ask bound (levels_of ask r) (walk r.used now ask bound sorted size)
          (walk-IsFrom r.used now ask bound sorted size),
    )

-- A walk never takes more than was asked for.
pub total-take-le :
    (now : ℕ) (ask : Bool) (bound size : ℕ) (r : BookReplica)
    → total (take now ask bound size r) ≤ size
unfolding take
total-take-le now ask bound size r = elim (Option-cases (snapshot r)) [
  | inl e ↦ rw (e, take) (omega arith)
  | inr found ↦ omega (arith, (take_fills now ask bound size r found.1).0)
]
