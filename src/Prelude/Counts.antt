-- ===== src/Prelude/Counts.antt =====
-- Lists of numbers, by how often a number stands in them.
use Prim.Native.Nat.{ℕ, suc, ◌+◌, ◌≤◌}
use mathlib.Core.Path.{◌≡◌, refl}
use mathlib.Core.Bool.{Bool, true}
use mathlib.Core.List.{List, [], ◌∷◌, ◌++◌}
use native.Mathlib.Omega.{arith}
use agentpit.Prelude.Tests.{ltb, ◌==◌, ==_iff, if◌then◌else◌}
use agentpit.Prelude.Lists.{filter, any, length, is_nil, sum_by}

abbrev pub is_in : ℕ → List ℕ → Bool
is_in a l = any (λ b. b == a) l

unfoldable pub count : ℕ → List ℕ → ℕ
count k l = sum_by (λ a. if a == k then 1 else 0) l

pub count-append : (k : ℕ) (xs ys : List ℕ) → count k (xs ++ ys) ≡ count k xs + count k ys
unfolding count
count-append k [] ys = omega arith
count-append k (x ∷ xs) ys = omega (arith, count-append k xs ys)

pub count_nil : (k : ℕ) (l : List ℕ) → is_nil l ≡ true → count k l ≡ 0
unfolding count
count_nil k [] nil = refl
count_nil k (a ∷ l) nil = absurd cc

pub is_in-count : (k : ℕ) (l : List ℕ) → is_in k l ≡ ltb 0 (count k l)
unfolding count
is_in-count k [] = refl
is_in-count k (a ∷ l) = ground (arith, is_in-count k l)

pub count-filter :
    (p : ℕ → Bool) (k : ℕ) (l : List ℕ) → count k (filter p l) ≡ (if p k then count k l else 0)
unfolding count
count-filter p k [] = ground arith
count-filter p k (a ∷ l) = ground (arith, count-filter p k l, ==_iff a k)

pub length-filter : (p : ℕ → Bool) (l : List ℕ) → length (filter p l) ≤ length l
length-filter p [] = omega arith
length-filter p (a ∷ l) = ground (arith, length-filter p l)

remove_one : ℕ → List ℕ → List ℕ
remove_one a [] = []
remove_one a (b ∷ l) = let rest = remove_one a l in if b == a then l else b ∷ rest

count-remove_one :
    (k a : ℕ) (l : List ℕ) → count k l ≤ (if a == k then 1 else 0) + count k (remove_one a l)
unfolding count remove_one
count-remove_one k a [] = omega arith
count-remove_one k a (b ∷ l) = ground (arith, count-remove_one k a l, ==_iff a k, ==_iff b a)

length-remove_one :
    (a : ℕ) (l : List ℕ) → is_in a l ≡ true → length l ≡ suc (length (remove_one a l))
unfolding remove_one
length-remove_one a [] there = cc
length-remove_one a (b ∷ l) there = ground (arith, length-remove_one a l)

-- A list that has nothing oftener than another is not longer.
pub length-count : (xs ys : List ℕ) → ((k : ℕ) → count k xs ≤ count k ys) → length xs ≤ length ys
unfolding count
length-count [] ys le = omega arith
length-count (x ∷ xs) ys le =
    let there : is_in x ys ≡ true = ground (arith, le x, is_in-count x ys, ==_iff x x) in
    let fewer =
      length-count xs (remove_one x ys) (λ k. omega (arith, le k, count-remove_one k x ys)) in
    omega (arith, fewer, length-remove_one x ys there)
