-- ===== src/Competition/Points/Due.antt =====
-- Which boundaries are due, and the last of them.
use mathlib.Core.Path.{subst}
use mathlib.Core.List.{append-nil}
use agentpit.Prelude.{
  ℕ, zero, suc, ◌+◌, ◌*◌, ◌/◌, ◌%◌, ◌≤◌, ◌<◌, min, ◌≡◌, refl, sym, ◌⊎◌, Bool, true, ◌&&◌, ◌||◌,
  List, [], ◌∷◌, ◌++◌, ltb, leb, ◌==◌, ==_iff, arith, if◌then◌else◌, Bool-cases, inl, inr,
}
use agentpit.Prelude.Counts.{count, count-append}
use agentpit.Competition.{hour}
use agentpit.Competition.Points.{hours, due, last_of}

-- A whole hour from `t` on and before `stop`.
abbrev in_range : ℕ → ℕ → ℕ → Bool
in_range t stop k = leb t k && (ltb k stop && k % hour == 0)

count-hours :
    (fuel t stop k : ℕ)
    → t % hour ≡ 0
    → stop ≤ t + fuel
    → count k (hours fuel t stop) ≡ (if in_range t stop k then 1 else 0)
unfolding hours count
count-hours zero t stop k whole le = ground arith
count-hours (suc fuel) t stop k whole le =
    let next : (t + hour) % hour ≡ 0 = omega arith in
    ground (arith, count-hours fuel (t + hour) stop k next (omega arith), ==_iff t k)

-- A boundary in the time from `after` to `until`: a whole hour inside the run, or its end.
abbrev pub is_due : ℕ → ℕ → ℕ → ℕ → Bool
is_due after until ends_at k =
    ltb after k && (leb k until && (k == ends_at || (ltb k ends_at && k % hour == 0)))

-- Each boundary in the time is due exactly once, and nothing else is.
pub count-due :
    (after until ends_at k : ℕ)
    → count k (due after until ends_at) ≡ (if is_due after until ends_at k then 1 else 0)
unfolding due count
count-due after until ends_at k =
    let first = (after / hour + 1) * hour in
    let stop = min (until + 1) ends_at in
    let end = if ltb after ends_at && leb ends_at until then ends_at ∷ [] else [] in
    let whole : first % hour ≡ 0 = omega arith in
    let later : k % hour ≡ 0 → after < k → first ≤ k = λ w lt. omega arith in
    let earlier : first ≤ k → after < k = λ le. omega arith in
    ground (
      arith,
      count-append k (hours ends_at first stop) end,
      count-hours ends_at first stop k whole (omega arith),
      later,
      earlier,
      ==_iff ends_at k,
    )

abbrev Ascending : ℕ → List ℕ → Type 0
Ascending d [] = Unit
Ascending d (t ∷ ts) = (d ≤ t) × Ascending t ts

last_of-ge : (d : ℕ) (l : List ℕ) → Ascending d l → d ≤ last_of d l
last_of-ge d [] up = omega arith
last_of-ge d (t ∷ ts) up = omega (arith, up.0, last_of-ge t ts up.1)

-- Nothing in an ascending list is above its last element.
count-last_of : (d k : ℕ) (l : List ℕ) → Ascending d l → 1 ≤ count k l → k ≤ last_of d l
unfolding count
count-last_of d k [] up there = omega arith
count-last_of d k (t ∷ ts) up there =
    ground (arith, count-last_of t k ts up.1, last_of-ge t ts up.1, ==_iff t k)

last_of-member : (d t : ℕ) (ts : List ℕ) → 1 ≤ count (last_of t ts) (t ∷ ts)
unfolding count
last_of-member d t [] = ground (arith, ==_iff t t)
last_of-member d t (u ∷ ts) = omega (arith, last_of-member d u ts)

hours-Ascending : (fuel d t stop : ℕ) → d ≤ t → Ascending d (hours fuel t stop)
unfolding hours
hours-Ascending zero d t stop le = tt
hours-Ascending (suc fuel) d t stop le =
    ground (arith, hours-Ascending fuel t (t + hour) stop (omega arith))

last_of-hours :
    (fuel d t stop : ℕ)
    → (last_of d (hours fuel t stop) ≡ d) ⊎ (last_of d (hours fuel t stop) < stop)
unfolding hours
last_of-hours zero d t stop = inl refl
last_of-hours (suc fuel) d t stop = ground (arith, last_of-hours fuel t (t + hour) stop)

append-Ascending :
    (d e : ℕ) (l : List ℕ) → Ascending d l → last_of d l ≤ e → Ascending d (l ++ e ∷ [])
append-Ascending d e [] up le = (le, tt)
append-Ascending d e (t ∷ ts) up le = (up.0, append-Ascending t e ts up.1 le)

due-Ascending : (after until ends_at : ℕ) → Ascending after (due after until ends_at)
unfolding due
due-Ascending after until ends_at =
    let first = (after / hour + 1) * hour in
    let stop = min (until + 1) ends_at in
    let l = hours ends_at first stop in
    let up = hours-Ascending ends_at after first stop (omega arith) in
    elim (Bool-cases (ltb after ends_at && leb ends_at until)) [
      | inl ends ↦ rw ends (
          append-Ascending after ends_at l up
            (ground (arith, last_of-hours ends_at after first stop)))
      | inr runs ↦ rw (runs, append-nil l) up
    ]

module _ (after until ends_at t : ℕ) (ts : List ℕ) (e : due after until ends_at ≡ t ∷ ts) where
  pub due_below : (k : ℕ) → 1 ≤ count k (due after until ends_at) → k ≤ last_of t ts
  due_below k there =
      count-last_of after k (t ∷ ts) (subst (Ascending after) e (due-Ascending after until ends_at))
        (subst (λ l. 1 ≤ count k l) e there)

  pub last_due : is_due after until ends_at (last_of t ts) ≡ true
  last_due = ground (
    arith,
    subst (λ l. 1 ≤ count (last_of t ts) l) (sym e) (last_of-member t t ts),
    count-due after until ends_at (last_of t ts),
  )

pub List-cases : (l : List ℕ) → (l ≡ []) ⊎ ((t : ℕ) × (ts : List ℕ) × (l ≡ t ∷ ts))
List-cases [] = inl refl
List-cases (t ∷ ts) = inr (t, ts, refl)
