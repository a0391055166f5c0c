-- ===== src/Replica/Depth/Memory.antt =====
-- liquidity/replica.py: what `use` leaves in the memory of taken depth.
use agentpit.Prelude.{
  ℕ, ◌+◌, ◌≤◌, ◌<◌, ◌≡◌, refl, Bool, false, some, List, [], ◌∷◌, filter, any, sum_by, arith,
  if◌then◌else◌,
}
use agentpit.Prelude.Dict.{
  get, pair_eq, pair_beq, pair_beq_iff, Distinct, put-Distinct, get-put, get-filter,
  filter-Distinct,
}
use agentpit.Replica.{BookReplica, Take, Used, UseKey, depth_memory}
use agentpit.Replica.Depth.{live_taken, key_of, taken_of, use_one, use_all, still_used, use_takes}

abbrev pub is_at : UseKey → Take → Bool
is_at k t = pair_beq (key_of t) k

-- What a list of takes took at one level.
abbrev pub total_at : UseKey → List Take → ℕ
total_at k = sum_by (λ t. if is_at k t then t.size else 0)

abbrev fresh : ℕ → ℕ → Used
fresh n now = record { taken = n; until = now + depth_memory }

use_all-Distinct :
    (now : ℕ) (used : List (UseKey × Used)) (ts : List Take)
    → Distinct used
    → Distinct (use_all now used ts)
unfolding use_all use_one
use_all-Distinct now used [] h = h
use_all-Distinct now used (t ∷ ts) h =
    use_all-Distinct now (use_one now used t) ts (put-Distinct (key_of t) _ used h)

pub use_takes-Distinct :
    (now : ℕ) (ts : List Take) (r : BookReplica)
    → Distinct r.used
    → Distinct (use_takes now ts r).used
unfolding use_takes
use_takes-Distinct now ts r h =
    use_all-Distinct now (filter (still_used now) r.used) ts
      (filter-Distinct (still_used now) r.used h)

total_at-none : (k : UseKey) (ts : List Take) → any (is_at k) ts ≡ false → total_at k ts ≡ 0
total_at-none k [] h = refl
total_at-none k (t ∷ ts) h = ground (arith, total_at-none k ts)

-- Each level that was taken from is remembered with all that was taken there.
get-use_all :
    (now : ℕ) (k : UseKey) (used : List (UseKey × Used)) (ts : List Take)
    → get (use_all now used ts) k ≡ (
        if any (is_at k) ts
        then some (fresh (taken_of (get used k) + total_at k ts) now)
        else get used k)
unfolding use_all use_one
get-use_all now k used [] = refl
get-use_all now k used (t ∷ ts) = ground (
  arith,
  get-use_all now k (use_one now used t) ts,
  get-put (key_of t) k (fresh (taken_of (get used (key_of t)) + t.size) now) used,
  pair_beq_iff (key_of t) k,
  total_at-none k ts,
)

pub live_taken_mono :
    (used : List (UseKey × Used)) (k : UseKey) (now later : ℕ)
    → now ≤ later
    → live_taken used later k ≤ live_taken used now k
unfolding live_taken
live_taken_mono used k now later h = ground arith

taken_of-filter :
    (now : ℕ) (used : List (UseKey × Used)) (k : UseKey)
    → Distinct used
    → taken_of (get (filter (still_used now) used) k) ≡ live_taken used now k
unfolding live_taken
taken_of-filter now used k h = rw (get-filter (still_used now) k used h) (ground arith)

-- Where no memory key stands twice: after `use`, and until the memory runs out, a level counts as
-- taken what was still remembered of it and what the takes took there, at the least.
pub live_taken-use_takes :
    (now later : ℕ) (ts : List Take) (r : BookReplica) (k : UseKey)
    → Distinct r.used
    → now ≤ later
    → later < now + depth_memory
    → live_taken r.used later k + total_at k ts ≤ live_taken (use_takes now ts r).used later k
unfolding use_takes live_taken
live_taken-use_takes now later ts r k h le lt = ground (
  arith,
  get-use_all now k (filter (still_used now) r.used) ts,
  get-filter (still_used now) k r.used h,
  total_at-none k ts,
)
