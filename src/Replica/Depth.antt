-- ===== src/Replica/Depth.antt =====
-- liquidity/replica.py: `BookReplica.take` and `BookReplica.use`, the depth that agents share.
pub mod Memory
pub mod Walk
pub mod Session
use agentpit.Prelude.{
  ℕ, ◌+◌, ◌-◌, min, Bool, true, false, ◌||◌, Option, none, some, List, [], ◌∷◌, ◌++◌, filter,
  sum_by, ltb, leb, ◌==◌, if◌then◌else◌,
}
use agentpit.Prelude.Dict.{get, put, pair_eq}
use agentpit.Replica.{Side, BookReplica, BookSnapshot, Take, Used, UseKey, depth_memory}
use agentpit.Replica.Snapshots.{snapshot}

-- `u.taken if u is not None and u.until > now else 0`
unfoldable pub live_taken : List (UseKey × Used) → ℕ → UseKey → ℕ
live_taken used now k = elim (get used k) [
  | none ↦ 0
  | some u ↦ if ltb now u.until then u.taken else 0
]

-- The level is worse than the bound.
abbrev pub beyond : Bool → ℕ → ℕ → Bool
beyond ask bound price = if ask then ltb bound price else ltb price bound

-- The loop of `take`. `shown - taken` stops at 0 where the source's may be negative: both give no
-- take, and `size` stays.
unfoldable pub walk : List (UseKey × Used) → ℕ → Bool → ℕ → Side → ℕ → List Take
unfolding live_taken
walk used now ask bound [] size = []
walk used now ask bound ((price, shown) ∷ levels) size =
    let q = min (shown - live_taken used now (ask, price)) size in
    let rest = walk used now ask bound levels (size - q) in
    if size == 0 || beyond ask bound price
    then []
    else if ltb 0 q
    then record { ask = ask; price = price; size = q } ∷ rest
    else rest

abbrev pub side_of : Bool → BookSnapshot → Side
side_of ask b = if ask then b.asks else b.bids

-- `take`, at the reading `now` of the clock.
unfoldable pub take : ℕ → Bool → ℕ → ℕ → BookReplica → List Take
unfolding walk
take now ask bound size r = elim (snapshot r) [
  | none ↦ []
  | some b ↦ walk r.used now ask bound (side_of ask b) size
]

abbrev pub key_of : Take → UseKey
key_of t = (t.ask, t.price)

abbrev taken_of : Option Used → ℕ
taken_of none = 0
taken_of (some u) = u.taken

-- One round of the loop in `use`.
unfoldable pub use_one : ℕ → List (UseKey × Used) → Take → List (UseKey × Used)
use_one now used t =
    put (key_of t)
      (record { taken = taken_of (get used (key_of t)) + t.size; until = now + depth_memory }) used

use_all : ℕ → List (UseKey × Used) → List Take → List (UseKey × Used)
use_all now used [] = used
use_all now used (t ∷ ts) = use_all now (use_one now used t) ts

abbrev still_used : ℕ → UseKey × Used → Bool
still_used now (k, u) = ltb now u.until

unfoldable pub use_takes : ℕ → List Take → BookReplica → BookReplica
unfolding use_one use_all
use_takes now takes r = record r { used = use_all now (filter (still_used now) r.used) takes }

-- All that is taken.
abbrev pub total : List Take → ℕ
total = sum_by (λ t. t.size)
