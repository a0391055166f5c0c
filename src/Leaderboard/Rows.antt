-- ===== src/Leaderboard/Rows.antt =====
-- services/leaderboard_service.py: lists of rows, sorted and filtered.
use mathlib.Core.Path.{subst}
use agentpit.Prelude.{
  ℕ, ◌≡◌, refl, Bool, true, false, ◌&&◌, List, [], ◌∷◌, ◌==◌, ==_iff, if◌then◌else◌, ℤ, arith, All,
  filter, sum_by, Bool-cases, inl, inr,
}
use agentpit.Prelude.Dict.{nat_eq}
use agentpit.Leaderboard.{LeaderboardRow, by_return, insert_row, sort_rows}
use agentpit.Leaderboard.Ranks.{Ranked, NotAbove, insert_row-All, sort_rows-All}

abbrev pub count : (LeaderboardRow → Bool) → List LeaderboardRow → ℕ
count p xs = sum_by (λ x. if p x then 1 else 0) xs

abbrev pub OtherThan : ℕ → LeaderboardRow → Type 0
OtherThan a x = (x.address == a) ≡ false

-- No address stands twice.
abbrev pub Differ : List LeaderboardRow → Type 0
Differ [] = Unit
Differ (r ∷ rs) = All (OtherThan r.address) rs × Differ rs

OtherThan-sym : (r x : LeaderboardRow) → OtherThan r.address x → OtherThan x.address r
OtherThan-sym r x e = ground (arith, ==_iff r.address x.address, ==_iff x.address r.address)

module _ (above : LeaderboardRow → LeaderboardRow → Bool) where
  insert_row-Differ :
      (r : LeaderboardRow) (xs : List LeaderboardRow)
      → All (OtherThan r.address) xs
      → Differ xs
      → Differ (insert_row above r xs)
  unfolding insert_row
  insert_row-Differ r [] o h = (tt, tt)
  insert_row-Differ r (x ∷ xs) (o, os) (h, hs) = elim (Bool-cases (above x r)) [
    | inl first ↦
        rw (insert_row, first)
          (
            insert_row-All above (OtherThan x.address) r xs (OtherThan-sym r x o) h,
            insert_row-Differ r xs os hs,
          )
    | inr behind_r ↦ rw (insert_row, behind_r) ((o, os), (h, hs))
  ]

  pub sort_rows-Differ : (rs : List LeaderboardRow) → Differ rs → Differ (sort_rows above rs)
  unfolding sort_rows
  sort_rows-Differ [] h = tt
  sort_rows-Differ (r ∷ rs) (o, h) =
      insert_row-Differ r (sort_rows above rs) (sort_rows-All above (OtherThan r.address) rs o)
        (sort_rows-Differ rs h)

-- A filter keeps what holds of all rows, and in a filtered list the rows that pass are all.
filter-All :
    (P : LeaderboardRow → Type 0) (p : LeaderboardRow → Bool) (xs : List LeaderboardRow)
    → All P xs
    → All P (filter p xs)
filter-All P p [] h = tt
filter-All P p (x ∷ xs) (q, h) = elim (Bool-cases (p x)) [
  | inl passes ↦ rw passes (q, filter-All P p xs h)
  | inr fails ↦ rw fails (filter-All P p xs h)
]

pub filter-Differ :
    (p : LeaderboardRow → Bool) (xs : List LeaderboardRow) → Differ xs → Differ (filter p xs)
filter-Differ p [] h = tt
filter-Differ p (x ∷ xs) (o, h) = elim (Bool-cases (p x)) [
  | inl passes ↦ rw passes (filter-All (OtherThan x.address) p xs o, filter-Differ p xs h)
  | inr fails ↦ rw fails (filter-Differ p xs h)
]

pub filter-Ranked :
    (percent : ℤ → ℕ → ℤ) (p : LeaderboardRow → Bool) (xs : List LeaderboardRow)
    → Ranked percent by_return xs
    → Ranked percent by_return (filter p xs)
filter-Ranked percent p [] h = tt
filter-Ranked percent p (x ∷ xs) (o, h) = elim (Bool-cases (p x)) [
  | inl passes ↦
      rw passes (filter-All (NotAbove percent by_return x) p xs o, filter-Ranked percent p xs h)
  | inr fails ↦ rw fails (filter-Ranked percent p xs h)
]

pub count-filter :
    (p q : LeaderboardRow → Bool) (xs : List LeaderboardRow)
    → count q (filter p xs) ≡ count (λ x. p x && q x) xs
count-filter p q [] = refl
count-filter p q (x ∷ xs) = ground (arith, count-filter p q xs)

pub All-filter :
    (P : LeaderboardRow → Type 0) (p : LeaderboardRow → Bool) (xs : List LeaderboardRow)
    → All P (filter p xs)
    → All (λ x. p x ≡ true → P x) xs
All-filter P p [] h = tt
All-filter P p (x ∷ xs) h = elim (Bool-cases (p x)) [
  | inl passes ↦
      let h' : All P (x ∷ filter p xs) =
        subst (λ b. All P (if b then x ∷ filter p xs else filter p xs)) passes h in
      ((λ e. h'.0), All-filter P p xs (h'.1))
  | inr fails ↦
      let h' : All P (filter p xs) =
        subst (λ b. All P (if b then x ∷ filter p xs else filter p xs)) fails h in
      ((λ e. absurd (ground (arith, e, fails))), All-filter P p xs h')
]
