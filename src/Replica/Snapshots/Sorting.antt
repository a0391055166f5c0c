-- ===== src/Replica/Snapshots/Sorting.antt =====
-- `sorted` on a side of a book: the same levels, best price first.
use agentpit.Prelude.{
  ℕ, ◌+◌, ◌≤◌, ◌≡◌, refl, Bool, true, false, none, [], ◌∷◌, arith, Bool-cases, inl, inr, sum_by,
  any, ◌||◌, ap, ◌∙◌,
}
use agentpit.Prelude.Dict.{get, nat_eq, Distinct, Entries}
use agentpit.Replica.{Side}
use agentpit.Replica.Snapshots.{level_lt, level_gt, insert_by, sort_by}

-- `q` is no better than `p`: an ask no lower, a bid no higher.
abbrev pub NoBetter : Bool → ℕ → ℕ → Type 0
NoBetter true p q = p ≤ q
NoBetter false p q = q ≤ p

abbrev pub BestFirst : Bool → Side → Type 0
BestFirst ask [] = Unit
BestFirst ask ((p, s) ∷ d) = Entries (λ q t. NoBetter ask p q) d × BestFirst ask d

abbrev pub before : Bool → ℕ × ℕ → ℕ × ℕ → Bool
before true = level_lt
before false = level_gt

module _ (P : ℕ → ℕ → Type 0) (b : ℕ × ℕ → ℕ × ℕ → Bool) where
  insert_by-Entries : (x : ℕ × ℕ) (d : Side) → P x.0 x.1 → Entries P d → Entries P (insert_by b x d)
  unfolding insert_by
  insert_by-Entries x [] p h = (p, tt)
  insert_by-Entries x (y ∷ d) p h = ground (arith, insert_by-Entries x d p h.1)

  pub sort_by-Entries : (d : Side) → Entries P d → Entries P (sort_by b d)
  unfolding sort_by
  sort_by-Entries [] h = tt
  sort_by-Entries (x ∷ d) h = insert_by-Entries x (sort_by b d) h.0 (sort_by-Entries d h.1)

-- A level that is no better than `p` has only such levels behind it.
weaken :
    (ask : Bool) (p q : ℕ) (d : Side)
    → NoBetter ask p q
    → Entries (λ r t. NoBetter ask q r) d
    → Entries (λ r t. NoBetter ask p r) d
weaken ask p q [] n h = tt
weaken true p q ((r, t) ∷ d) n h = (omega arith, weaken true p q d n h.1)
weaken false p q ((r, t) ∷ d) n h = (omega arith, weaken false p q d n h.1)

insert_by-BestFirst :
    (ask : Bool) (x : ℕ × ℕ) (d : Side)
    → BestFirst ask d
    → BestFirst ask (insert_by (before ask) x d)
unfolding insert_by
insert_by-BestFirst ask x [] h = (tt, tt)
insert_by-BestFirst true x (y ∷ d) h = elim (Bool-cases (level_lt x y)) [
  | inl lt ↦ rw lt ((ground arith, weaken true x.0 y.0 d (ground arith) h.0), h)
  | inr ge ↦ rw ge (
    insert_by-Entries (λ q t. NoBetter true y.0 q) level_lt x d (ground arith) h.0,
    insert_by-BestFirst true x d h.1,
  )
]
insert_by-BestFirst false x (y ∷ d) h = elim (Bool-cases (level_gt x y)) [
  | inl lt ↦ rw lt ((ground arith, weaken false x.0 y.0 d (ground arith) h.0), h)
  | inr ge ↦ rw ge (
    insert_by-Entries (λ q t. NoBetter false y.0 q) level_gt x d (ground arith) h.0,
    insert_by-BestFirst false x d h.1,
  )
]

pub sort_by-BestFirst : (ask : Bool) (d : Side) → BestFirst ask (sort_by (before ask) d)
unfolding sort_by
sort_by-BestFirst ask [] = tt
sort_by-BestFirst ask (x ∷ d) =
    insert_by-BestFirst ask x (sort_by (before ask) d) (sort_by-BestFirst ask d)

module _ (b : ℕ × ℕ → ℕ × ℕ → Bool) where
  get-insert_by :
      (x : ℕ × ℕ) (d : Side) (k : ℕ) → get d x.0 ≡ none → get (insert_by b x d) k ≡ get (x ∷ d) k
  unfolding insert_by get
  get-insert_by x [] k h = refl
  get-insert_by x (y ∷ d) k h = ground (arith, get-insert_by x d k)

  insert_by-Distinct :
      (x : ℕ × ℕ) (d : Side) → get d x.0 ≡ none → Distinct d → Distinct (insert_by b x d)
  unfolding insert_by get
  insert_by-Distinct x [] n h = (refl, tt)
  insert_by-Distinct x (y ∷ d) n h = ground (arith, insert_by-Distinct x d, get-insert_by x d y.0)

  pub get-sort_by : (d : Side) (k : ℕ) → Distinct d → get (sort_by b d) k ≡ get d k
  unfolding sort_by get
  get-sort_by [] k h = refl
  get-sort_by ((p, s) ∷ d) k h =
      ground (arith, get-insert_by (p, s) (sort_by b d) k, get-sort_by d p h.1, get-sort_by d k h.1)

  pub sort_by-Distinct : (d : Side) → Distinct d → Distinct (sort_by b d)
  unfolding sort_by
  sort_by-Distinct [] h = tt
  sort_by-Distinct ((p, s) ∷ d) h =
      insert_by-Distinct (p, s) (sort_by b d) (get-sort_by d p h.1 ∙ h.0) (sort_by-Distinct d h.1)

  any-insert_by :
      (f : ℕ × ℕ → Bool) (x : ℕ × ℕ) (d : Side) → any f (insert_by b x d) ≡ (f x || any f d)
  unfolding insert_by
  any-insert_by f x [] = refl
  any-insert_by f x (y ∷ d) = ground (arith, any-insert_by f x d)

  pub any-sort_by : (f : ℕ × ℕ → Bool) (d : Side) → any f (sort_by b d) ≡ any f d
  unfolding sort_by
  any-sort_by f [] = refl
  any-sort_by f (x ∷ d) = ground (arith, any-insert_by f x (sort_by b d), any-sort_by f d)

  -- A sum over the levels does not depend on their order.
  sum_levels-insert_by :
      (f : ℕ × ℕ → ℕ) (x : ℕ × ℕ) (d : Side) → sum_by f (insert_by b x d) ≡ f x + sum_by f d
  unfolding insert_by
  sum_levels-insert_by f x [] = refl
  sum_levels-insert_by f x (y ∷ d) = ground (arith, sum_levels-insert_by f x d)

  pub sum_by-sort_by : (f : ℕ × ℕ → ℕ) (d : Side) → sum_by f (sort_by b d) ≡ sum_by f d
  unfolding sort_by
  sum_by-sort_by f [] = refl
  sum_by-sort_by f (x ∷ d) =
      sum_levels-insert_by f x (sort_by b d) ∙ ap (λ n. f x + n) (sum_by-sort_by f d)
