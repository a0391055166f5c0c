-- ===== src/Prelude/Dict.antt =====
-- Python's `dict` in insertion order: a write to a present key keeps its place.
use agentpit.Prelude.Tests.{◌==◌, ==_iff, eq_bool, if◌then◌else◌, Bool-cases}
use agentpit.Prelude.Lists.{filter}
use Prim.Native.Nat.{ℕ}
use mathlib.Core.Path.{◌≡◌, refl, subst}
use mathlib.Core.Logic.{◌↔◌, inl, inr}
use mathlib.Core.Bool.{Bool, true, ◌&&◌}
use mathlib.Core.Option.{Option, none, some}
use mathlib.Core.List.{List, [], ◌∷◌}
use native.Mathlib.Omega.{arith}

pub record Eq {ℓ} (A : Type ℓ) : Type ℓ where
  pub beq : A → A → Bool
  pub beq_iff : (a b : A) → (beq a b ≡ true) ↔ (a ≡ b)

abbrev nat_beq : ℕ → ℕ → Bool
nat_beq a b = a == b

instance abbrev pub nat_eq : Eq ℕ
nat_eq = record { beq = nat_beq; beq_iff = ==_iff }

-- A key made of a flag and a number.
abbrev pub pair_beq : Bool × ℕ → Bool × ℕ → Bool
pair_beq a b = eq_bool a.0 b.0 && (a.1 == b.1)

pub pair_beq_iff : (a b : Bool × ℕ) → (pair_beq a b ≡ true) ↔ (a ≡ b)
pair_beq_iff a b = ground arith

instance abbrev pub pair_eq : Eq (Bool × ℕ)
pair_eq = record { beq = pair_beq; beq_iff = pair_beq_iff }

-- A key made of two numbers.
abbrev pub pairs_beq : ℕ × ℕ → ℕ × ℕ → Bool
pairs_beq a b = (a.0 == b.0) && (a.1 == b.1)

pub pairs_beq_iff : (a b : ℕ × ℕ) → (pairs_beq a b ≡ true) ↔ (a ≡ b)
pairs_beq_iff a b = ground arith

instance abbrev pub pairs_eq : Eq (ℕ × ℕ)
pairs_eq = record { beq = pairs_beq; beq_iff = pairs_beq_iff }

module _ {ℓ} {K V : Type ℓ} ⦃e : Eq K⦄ where
  unfoldable pub get : List (K × V) → K → Option V
  get [] k = none
  get ((j, v) ∷ d) k = if e.beq j k then some v else get d k

  -- `d[k] = v`
  unfoldable pub put : K → V → List (K × V) → List (K × V)
  put k v [] = (k, v) ∷ []
  put k v ((j, w) ∷ d) = if e.beq j k then (k, v) ∷ d else (j, w) ∷ put k v d

  -- `d.pop(k, None)`
  unfoldable pub remove : K → List (K × V) → List (K × V)
  remove k [] = []
  remove k ((j, w) ∷ d) = let rest = remove k d in if e.beq j k then rest else (j, w) ∷ rest

  pub get-put :
      (k j : K) (v : V) (d : List (K × V))
      → get (put k v d) j ≡ (if e.beq k j then some v else get d j)
  unfolding get put
  get-put k j v [] = refl
  get-put k j v ((i, w) ∷ d) =
      ground (arith, e.beq_iff k j, e.beq_iff i k, e.beq_iff i j, get-put k j v d)

  pub get-remove :
      (k j : K) (d : List (K × V)) → get (remove k d) j ≡ (if e.beq k j then none else get d j)
  unfolding get remove
  get-remove k j [] = ground arith
  get-remove k j ((i, w) ∷ d) =
      ground (arith, e.beq_iff k j, e.beq_iff i k, e.beq_iff i j, get-remove k j d)

  -- Every entry satisfies `P`.
  abbrev pub Entries {κ} : (K → V → Type κ) → List (K × V) → Type κ
  Entries P [] = Unit
  Entries P ((k, v) ∷ d) = P k v × Entries P d

  -- No key stands twice.
  abbrev pub Distinct : List (K × V) → Type ℓ
  Distinct [] = Unit
  Distinct ((k, v) ∷ d) = (get d k ≡ none) × Distinct d

  pub put-Entries {κ} :
      (P : K → V → Type κ) (k : K) (v : V) (d : List (K × V))
      → Entries P d
      → P k v
      → Entries P (put k v d)
  unfolding put
  put-Entries P k v [] h p = (p, tt)
  put-Entries P k v ((i, w) ∷ d) h p = ground (arith, put-Entries P k v d h.1 p)

  pub remove-Entries {κ} :
      (P : K → V → Type κ) (k : K) (d : List (K × V)) → Entries P d → Entries P (remove k d)
  unfolding remove
  remove-Entries P k [] h = tt
  remove-Entries P k ((i, w) ∷ d) h = ground (arith, remove-Entries P k d h.1)

  pub put-Distinct : (k : K) (v : V) (d : List (K × V)) → Distinct d → Distinct (put k v d)
  unfolding put get
  put-Distinct k v [] h = (refl, tt)
  put-Distinct k v ((i, w) ∷ d) h =
      ground (arith, put-Distinct k v d h.1, get-put k i v d, e.beq_iff i k, e.beq_iff k i)

  pub remove-Distinct : (k : K) (d : List (K × V)) → Distinct d → Distinct (remove k d)
  unfolding remove
  remove-Distinct k [] h = tt
  remove-Distinct k ((i, w) ∷ d) h = ground (arith, remove-Distinct k d h.1, get-remove k i d)

  pub get-Entries {κ} :
      (P : K → V → Type κ) (k : K) (v : V) (d : List (K × V))
      → Entries P d
      → get d k ≡ some v
      → P k v
  unfolding get
  get-Entries P k v [] h g = cc
  get-Entries P k v ((i, w) ∷ d) h g = ground (arith, get-Entries P k v d h.1, e.beq_iff i k)

  -- What `{k: v for k, v in d.items() if p(k, v)}` finds.
  abbrev pub keep : (K × V → Bool) → K → Option V → Option V
  keep p k none = none
  keep p k (some v) = if p (k, v) then some v else none

  pub get-filter :
      (p : K × V → Bool) (k : K) (d : List (K × V))
      → Distinct d
      → get (filter p d) k ≡ keep p k (get d k)
  unfolding get
  get-filter p k [] h = refl
  get-filter p k ((i, w) ∷ d) h = elim (Bool-cases (e.beq i k)) [
    | inl same ↦
        subst (λ j. get (filter p ((i, w) ∷ d)) j ≡ keep p j (get ((i, w) ∷ d) j))
          ((e.beq_iff i k).0 same)
          (rw ((e.beq_iff i i).1 refl)
            (ground (arith, get-filter p i d h.1, (e.beq_iff i i).1 refl)))
    | inr other ↦ rw other (ground (arith, get-filter p k d h.1))
  ]

  pub filter-Distinct : (p : K × V → Bool) (d : List (K × V)) → Distinct d → Distinct (filter p d)
  filter-Distinct p [] h = tt
  filter-Distinct p ((i, w) ∷ d) h = ground (arith, filter-Distinct p d h.1, get-filter p i d h.1)
