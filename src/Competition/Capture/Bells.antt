-- ===== src/Competition/Capture/Bells.antt =====
-- All end values of a competition sell a token into the same state.
use agentpit.Prelude.{
  ℕ, ◌≡◌, refl, ◌∙◌, Bool, false, some, List, [], ◌∷◌, any, ◌==◌, ==_iff, arith, Option-cases, inl,
  inr,
}
use agentpit.Prelude.Dict.{get, put, nat_eq, get-put}
use agentpit.Competition.{Holding}
use agentpit.Competition.Capture.{Exit, Position, Reads}
use agentpit.Competition.Capture.Loop.{state_for, sell_all}

module _ {M : Type 0} where
  -- No token stands twice among the positions.
  abbrev pub Apart : List (Position M) → Type 0
  Apart [] = Unit
  Apart (p ∷ ps) = (any (λ q. q.asset == p.asset) ps ≡ false) × Apart ps

  -- A token that has its state keeps it.
  abbrev pub Frozen : List (ℕ × Exit M) → List (ℕ × Exit M) → Type 0
  Frozen bell bell' = (a : ℕ) (x : Exit M) → get bell a ≡ some x → get bell' a ≡ some x

  state_for-Frozen :
      (r : Reads M) (in_grace : Bool) (bell : List (ℕ × Exit M)) (p : Position M) (x : Exit M)
      → state_for r in_grace bell p ≡ some x
      → Frozen bell (put p.asset x bell)
  unfolding state_for
  state_for-Frozen r in_grace bell p x e a y found =
      ground (arith, get-put p.asset a x bell, ==_iff p.asset a)

  pub sell_all-Frozen :
      (r : Reads M) (in_grace : Bool) (ps : List (Position M)) (bell : List (ℕ × Exit M))
      (held : List (ℕ × Holding))
      → Frozen bell (sell_all r in_grace ps (bell, held)).0
  unfolding sell_all
  sell_all-Frozen r in_grace [] bell held a x found = found
  sell_all-Frozen r in_grace (p ∷ ps) bell held a x found =
      elim (Option-cases (state_for r in_grace bell p)) [
        | inl waits ↦ rw (sell_all, waits) found
        | inr (y, e) ↦
            rw (sell_all, e)
              (sell_all-Frozen r in_grace ps (put p.asset y bell)
                (put p.asset (record { shares = p.shares; value = r.exit_value p y }) held) a x
                (state_for-Frozen r in_grace bell p y e a x found))
      ]

  -- A sale freezes the states of what it sells, and of no other token.
  pub sell_all_others :
      (r : Reads M) (in_grace : Bool) (ps : List (Position M)) (bell : List (ℕ × Exit M))
      (held : List (ℕ × Holding)) (a : ℕ)
      → any (λ q. q.asset == a) ps ≡ false
      → get (sell_all r in_grace ps (bell, held)).0 a ≡ get bell a
  unfolding sell_all
  sell_all_others r in_grace [] bell held a out = refl
  sell_all_others r in_grace (p ∷ ps) bell held a out =
      elim (Option-cases (state_for r in_grace bell p)) [
        | inl waits ↦ rw (sell_all, waits) refl
        | inr (y, e) ↦
            rw (sell_all, e)
              (sell_all_others r in_grace ps (put p.asset y bell)
                  (put p.asset (record { shares = p.shares; value = r.exit_value p y }) held) a
                  (ground arith)
                ∙ ground (arith, get-put p.asset a y bell))
      ]
