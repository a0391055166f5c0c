-- ===== src/Leaderboard/Ranks.antt =====
-- services/leaderboard_service.py: the order that rows are ranked in.
use agentpit.Prelude.{
  ℕ, ◌+◌, ◌≡◌, refl, ap, ◌∙◌, Bool, true, false, not, ◌&&◌, ◌||◌, List, [], ◌∷◌, ltb, ◌==◌,
  if◌then◌else◌, ℤ, pos_part, neg_part, arith, All, sum_by, Bool-cases, inl, inr,
}
use mathlib.Core.Path.{subst}
use agentpit.Leaderboard.{LeaderboardRow, Sort, key, is_above, ahead, insert_row, sort_rows}

abbrev pub Key : Type 0
Key = ℤ × ℤ × ℕ

-- A comparison of two integers and a number, of the integers' parts.
abbrev above_parts : ℕ → ℕ → ℕ → ℕ → ℕ → ℕ → ℕ → ℕ → ℕ → ℕ → Bool
above_parts p n q m c p' n' q' m' c' =
    ltb (p' + n) (p + n')
    || (not (ltb (p + n') (p' + n))
        && (ltb (q' + m) (q + m') || (not (ltb (q + m') (q' + m)) && ltb c' c)))

parts_neg_trans :
    (p n q m c p' n' q' m' c' p'' n'' q'' m'' c'' : ℕ)
    → above_parts p n q m c p' n' q' m' c' ≡ false
    → above_parts p' n' q' m' c' p'' n'' q'' m'' c'' ≡ false
    → above_parts p n q m c p'' n'' q'' m'' c'' ≡ false
parts_neg_trans p n q m c p' n' q' m' c' p'' n'' q'' m'' c'' e f = ground arith

is_above_asym : (a b : Key) → is_above a b ≡ true → is_above b a ≡ false
is_above_asym a b e = ground arith

-- What is not above is not so through a key between.
is_above_neg_trans :
    (a b c : Key) → is_above a b ≡ false → is_above b c ≡ false → is_above a c ≡ false
is_above_neg_trans (a, a', x) (b, b', y) (c, c', z) e f =
    parts_neg_trans (pos_part a) (neg_part a) (pos_part a') (neg_part a') x (pos_part b)
      (neg_part b) (pos_part b') (neg_part b') y (pos_part c) (neg_part c) (pos_part c')
      (neg_part c') z e f

pub is_above_irrefl : (a : Key) → is_above a a ≡ false
is_above_irrefl a = ground arith

-- Keys with different addresses are in some order.
pub is_above_total : (a b : Key) → (a.2 == b.2) ≡ false → is_above a b ≡ false → is_above b a ≡ true
is_above_total a b n e = ground arith

module _ (percent : ℤ → ℕ → ℤ) (sort : Sort) where
  abbrev pub NotAbove : LeaderboardRow → LeaderboardRow → Type 0
  NotAbove r x = ahead percent sort x r ≡ false

  -- No row stands behind one that it is ahead of.
  abbrev pub Ranked : List LeaderboardRow → Type 0
  Ranked [] = Unit
  Ranked (r ∷ rs) = All (NotAbove r) rs × Ranked rs

  ahead_asym :
      (r x : LeaderboardRow) → ahead percent sort r x ≡ true → ahead percent sort x r ≡ false
  ahead_asym r x e = is_above_asym (key percent sort r) (key percent sort x) e

  -- What stands behind `r` stands behind what `r` does not stand ahead of.
  behind :
      (r x : LeaderboardRow) (xs : List LeaderboardRow)
      → NotAbove x r
      → All (NotAbove r) xs
      → All (NotAbove x) xs
  behind r x [] e h = tt
  behind r x (y ∷ ys) e (h, hs) = (
    is_above_neg_trans (key percent sort y) (key percent sort r) (key percent sort x) h e,
    behind r x ys e hs,
  )

module _ (above : LeaderboardRow → LeaderboardRow → Bool) where
  pub insert_row-All :
      (P : LeaderboardRow → Type 0) (r : LeaderboardRow) (xs : List LeaderboardRow)
      → P r
      → All P xs
      → All P (insert_row above r xs)
  unfolding insert_row
  insert_row-All P r [] p h = (p, tt)
  insert_row-All P r (x ∷ xs) p (q, h) = elim (Bool-cases (above x r)) [
    | inl first ↦ rw (insert_row, first) (q, insert_row-All P r xs p h)
    | inr behind_r ↦ rw (insert_row, behind_r) (p, (q, h))
  ]

  pub All-insert_row :
      (P : LeaderboardRow → Type 0) (r : LeaderboardRow) (xs : List LeaderboardRow)
      → All P (insert_row above r xs)
      → P r × All P xs
  unfolding insert_row
  All-insert_row P r [] h = h
  All-insert_row P r (x ∷ xs) h = elim (Bool-cases (above x r)) [
    | inl first ↦
        let h' : All P (x ∷ insert_row above r xs) =
          subst (λ b. All P (if b then x ∷ insert_row above r xs else r ∷ x ∷ xs)) first h in
        let rest = All-insert_row P r xs (h'.1) in (rest.0, (h'.0, rest.1))
    | inr behind_r ↦
        subst (λ b. All P (if b then x ∷ insert_row above r xs else r ∷ x ∷ xs)) behind_r h
  ]

  pub sort_rows-All :
      (P : LeaderboardRow → Type 0) (rs : List LeaderboardRow)
      → All P rs
      → All P (sort_rows above rs)
  unfolding sort_rows
  sort_rows-All P [] h = tt
  sort_rows-All P (r ∷ rs) (p, h) = insert_row-All P r (sort_rows above rs) p (sort_rows-All P rs h)

  pub All-sort_rows :
      (P : LeaderboardRow → Type 0) (rs : List LeaderboardRow)
      → All P (sort_rows above rs)
      → All P rs
  unfolding sort_rows
  All-sort_rows P [] h = tt
  All-sort_rows P (r ∷ rs) h =
      let parts = All-insert_row P r (sort_rows above rs) h in
      (parts.0, All-sort_rows P rs (parts.1))

  sum_rows-insert_row :
      (f : LeaderboardRow → ℕ) (r : LeaderboardRow) (xs : List LeaderboardRow)
      → sum_by f (insert_row above r xs) ≡ f r + sum_by f xs
  unfolding insert_row
  sum_rows-insert_row f r [] = refl
  sum_rows-insert_row f r (x ∷ xs) = ground (arith, sum_rows-insert_row f r xs)

  pub sum_by-sort_rows :
      (f : LeaderboardRow → ℕ) (rs : List LeaderboardRow)
      → sum_by f (sort_rows above rs) ≡ sum_by f rs
  unfolding sort_rows
  sum_by-sort_rows f [] = refl
  sum_by-sort_rows f (r ∷ rs) =
      sum_rows-insert_row f r (sort_rows above rs) ∙ ap (λ n. f r + n) (sum_by-sort_rows f rs)

module _ (percent : ℤ → ℕ → ℤ) (sort : Sort) where
  insert_row-Ranked :
      (r : LeaderboardRow) (xs : List LeaderboardRow)
      → Ranked percent sort xs
      → Ranked percent sort (insert_row (ahead percent sort) r xs)
  unfolding insert_row
  insert_row-Ranked r [] h = (tt, tt)
  insert_row-Ranked r (x ∷ xs) (h, hs) = elim (Bool-cases (ahead percent sort x r)) [
    | inl first ↦
        rw (insert_row, first)
          (
            insert_row-All (ahead percent sort) (NotAbove percent sort x) r xs
                (ahead_asym percent sort x r first) h,
            insert_row-Ranked r xs hs,
          )
    | inr behind_r ↦
        rw (insert_row, behind_r) ((behind_r, behind percent sort x r xs behind_r h), (h, hs))
  ]

  pub sort_rows-Ranked :
      (rs : List LeaderboardRow) → Ranked percent sort (sort_rows (ahead percent sort) rs)
  unfolding sort_rows
  sort_rows-Ranked [] = tt
  sort_rows-Ranked (r ∷ rs) =
      insert_row-Ranked r (sort_rows (ahead percent sort) rs) (sort_rows-Ranked rs)
