-- ===== src/Engine/Counts.antt =====
-- How often an asset stands in a set that others are added to.
use agentpit.Prelude.{
  ℕ, suc, ◌+◌, ◌≤◌, ◌≡◌, false, List, [], ◌∷◌, length, ◌==◌, ==_iff, arith, if◌then◌else◌,
}
use agentpit.Prelude.Counts.{is_in, count, is_in-count}
use agentpit.Feed.{add_once}
use agentpit.Engine.{add_all}

-- An asset that a set has not got is added to it.
count-add_once :
    (k a : ℕ) (set : List ℕ)
    → is_in a set ≡ false
    → count k (add_once a set) ≡ (if a == k then 1 else 0) + count k set
unfolding count
count-add_once k a set out = ground arith

pub count-add_all :
    (l set : List ℕ)
    → ((k : ℕ) → count k l + count k set ≤ 1)
    → (k : ℕ) → count k (add_all l set) ≡ count k l + count k set
unfolding count add_all
count-add_all [] set once k = omega arith
count-add_all (a ∷ l) set once k =
    let out : is_in a set ≡ false = ground (arith, once a, is_in-count a set, ==_iff a a) in
    let added = λ (k : ℕ). count-add_once k a set out in
    omega (arith, added k, count-add_all l (add_once a set) (λ k. omega (arith, once k, added k)) k)

length-add_once : (a : ℕ) (set : List ℕ) → length (add_once a set) ≤ suc (length set)
length-add_once a set = ground arith

pub length-add_all : (l set : List ℕ) → length (add_all l set) ≤ length l + length set
unfolding add_all
length-add_all [] set = omega arith
length-add_all (a ∷ l) set = omega (arith, length-add_all l (add_once a set), length-add_once a set)
