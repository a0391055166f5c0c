-- ===== src/Competition/Capture/Sales.antt =====
-- What `_end` sells the positions of a wallet into, and what it then holds.
use mathlib.Core.Path.{subst}
use mathlib.Core.List.{append-nil, append_assoc}
use agentpit.Prelude.{
  ℕ, ◌≡◌, refl, ◌∙◌, sym, ap, ◌⊎◌, Bool, true, false, not, ◌&&◌, Option, none, some, List, [], ◌∷◌,
  ◌++◌, any, All, is_some, ◌==◌, ==_iff, arith, Option-cases, inl, inr,
}
use agentpit.Prelude.Dict.{get, put, nat_eq, get-put}
use agentpit.Competition.{Holding}
use agentpit.Competition.Capture.{Exit, at_price, Position, Reads}
use agentpit.Competition.Capture.Loop.{exit_state, state_for, sell_all}
use agentpit.Competition.Capture.Bells.{Apart, sell_all-Frozen}

put_new :
    (a : ℕ) (h : Holding) (held : List (ℕ × Holding))
    → get held a ≡ none
    → put a h held ≡ held ++ (a, h) ∷ []
unfolding get put
put_new a h [] new = refl
put_new a h ((b, k) ∷ held) new = ground (arith, put_new a h held)

module _ {M : Type 0} where
  -- What a position is sold into: the state that `bell` has for its token, else what it sells into
  -- now, else, once the grace is over, its mark.
  abbrev pub Into : Reads M → Bool → List (ℕ × Exit M) → Position M → Exit M → Type 0
  Into r in_grace bell p x =
      (get bell p.asset ≡ some x)
      ⊎ ((get bell p.asset ≡ none) × (exit_state r.house p ≡ some x))
      ⊎ ((get bell p.asset ≡ none)
          × (exit_state r.house p ≡ none)
          × (in_grace ≡ false)
          × (x ≡ at_price p.cur_price))

  -- What the end holds: for each position in turn its shares and what they bring, sold into its
  -- token's state, which `bell'` has from then on; and nothing else.
  abbrev pub Sells :
      Reads M
      → Bool
      → List (ℕ × Exit M)
      → List (ℕ × Exit M)
      → List (Position M)
      → List (ℕ × Holding)
      → Type 0
  Sells r in_grace bell bell' [] [] = Unit
  Sells r in_grace bell bell' [] (h ∷ held) = ⊥
  Sells r in_grace bell bell' (p ∷ ps) [] = ⊥
  Sells r in_grace bell bell' (p ∷ ps) ((a, h) ∷ held) =
      ((x : Exit M) × Into r in_grace bell p x
        × (get bell' p.asset ≡ some x)
        × (a ≡ p.asset)
        × (h ≡ record { shares = p.shares; value = r.exit_value p x }))
      × Sells r in_grace bell bell' ps held

  -- Whether a position has neither a state nor anything to sell into now.
  abbrev pub is_waiting : Reads M → List (ℕ × Exit M) → Position M → Bool
  is_waiting r bell p = not (is_some (get bell p.asset)) && not (is_some (exit_state r.house p))

  state_for-Into :
      (r : Reads M) (in_grace : Bool) (bell : List (ℕ × Exit M)) (p : Position M) (x : Exit M)
      → state_for r in_grace bell p ≡ some x
      → Into r in_grace bell p x
  unfolding state_for
  state_for-Into r in_grace bell p x e = ground arith

  -- The same for the positions behind, whose tokens are others.
  Sells-before :
      (r : Reads M) (in_grace : Bool) (bell bell' : List (ℕ × Exit M)) (a : ℕ) (y : Exit M)
      (ps : List (Position M)) (held : List (ℕ × Holding))
      → any (λ q. q.asset == a) ps ≡ false
      → Sells r in_grace (put a y bell) bell' ps held
      → Sells r in_grace bell bell' ps held
  Sells-before r in_grace bell bell' a y [] [] out h = tt
  Sells-before r in_grace bell bell' a y [] (k ∷ held) out h = h
  Sells-before r in_grace bell bell' a y (p ∷ ps) [] out h = h
  Sells-before r in_grace bell bell' a y (p ∷ ps) ((b, k) ∷ held) out h =
      let same : get (put a y bell) p.asset ≡ get bell p.asset =
        ground (arith, get-put a p.asset y bell, ==_iff p.asset a, ==_iff a p.asset) in
      (
        (
          h.0.0,
          subst
              (λ (o : Option (Exit M)).
                (o ≡ some h.0.0)
                ⊎ ((o ≡ none) × (exit_state r.house p ≡ some h.0.0))
                ⊎ ((o ≡ none)
                    × (exit_state r.house p ≡ none)
                    × (in_grace ≡ false)
                    × (h.0.0 ≡ at_price p.cur_price)))
              same h.0.1,
          h.0.2,
          h.0.3,
          h.0.4,
        ),
        Sells-before r in_grace bell bell' a y ps held (ground arith) h.1,
      )

  new_after_put :
      (a : ℕ) (h : Holding) (held : List (ℕ × Holding)) (ps : List (Position M))
      → any (λ q. q.asset == a) ps ≡ false
      → All (λ (p : Position M). get held p.asset ≡ none) ps
      → All (λ (p : Position M). get (put a h held) p.asset ≡ none) ps
  new_after_put a h held [] out new = tt
  new_after_put a h held (p ∷ ps) out new = (
    ground (arith, get-put a p.asset h held, ==_iff p.asset a, ==_iff a p.asset, new.0),
    new_after_put a h held ps (ground arith) new.1,
  )

  -- A sale that does not wait adds to what is held what it sells, and nothing else, where no token
  -- stands twice and none is held already.
  pub sell_all-Sells :
      (r : Reads M) (in_grace : Bool) (ps : List (Position M)) (bell : List (ℕ × Exit M))
      (held held' : List (ℕ × Holding))
      → Apart ps
      → All (λ (p : Position M). get held p.asset ≡ none) ps
      → (sell_all r in_grace ps (bell, held)).1 ≡ some held'
      → (sold : List (ℕ × Holding)) × (held' ≡ held ++ sold)
        × Sells r in_grace bell (sell_all r in_grace ps (bell, held)).0 ps sold
  unfolding sell_all
  sell_all-Sells r in_grace [] bell held held' apart new done =
      ([], ground (arith, append-nil held), tt)
  sell_all-Sells r in_grace (p ∷ ps) bell held held' apart new done =
      elim (Option-cases (state_for r in_grace bell p)) [
        | inl waits ↦ absurd (ground (arith, waits))
        | inr (y, e) ↦
            let h : Holding = record { shares = p.shares; value = r.exit_value p y } in
            let bell1 = put p.asset y bell in
            let held1 = put p.asset h held in
            let next = sell_all r in_grace ps (bell1, held1) in
            let same : sell_all r in_grace (p ∷ ps) (bell, held) ≡ next = rw (sell_all, e) refl in
            let rest : next.1 ≡ some held' = ground (arith, e) in
            let (sold, eq, sells) =
              sell_all-Sells r in_grace ps bell1 held1 held' apart.1
                (new_after_put p.asset h held ps apart.0 new.1) rest in
            let here : get bell1 p.asset ≡ some y =
              ground (arith, get-put p.asset p.asset y bell, ==_iff p.asset p.asset) in
            (
              (p.asset, h) ∷ sold,
              eq
                  ∙ ap (λ l. l ++ sold) (put_new p.asset h held new.0)
                  ∙ append_assoc held ((p.asset, h) ∷ []) sold,
              subst
                  (λ (n : List (ℕ × Exit M) × Option (List (ℕ × Holding))).
                    Sells r in_grace bell n.0 (p ∷ ps) ((p.asset, h) ∷ sold))
                  (sym same)
                  (
                    (
                      y,
                      state_for-Into r in_grace bell p y e,
                      sell_all-Frozen r in_grace ps bell1 held1 p.asset y here,
                      refl,
                      refl,
                    ),
                    Sells-before r in_grace bell next.0 p.asset y ps sold apart.0 sells,
                  ),
            )
      ]

  still_waiting :
      (r : Reads M) (bell : List (ℕ × Exit M)) (a : ℕ) (y : Exit M) (ps : List (Position M))
      → any (is_waiting r (put a y bell)) ps ≡ true
      → any (is_waiting r bell) ps ≡ true
  still_waiting r bell a y [] h = h
  still_waiting r bell a y (p ∷ ps) h =
      ground (arith, still_waiting r bell a y ps, get-put a p.asset y bell)

  -- A sale that waits has a position that waits, and is within the grace.
  pub sell_all-is_waiting :
      (r : Reads M) (in_grace : Bool) (ps : List (Position M)) (bell : List (ℕ × Exit M))
      (held : List (ℕ × Holding))
      → (sell_all r in_grace ps (bell, held)).1 ≡ none
      → (in_grace ≡ true) × (any (is_waiting r bell) ps ≡ true)
  unfolding sell_all state_for
  sell_all-is_waiting r in_grace [] bell held waits = absurd cc
  sell_all-is_waiting r in_grace (p ∷ ps) bell held waits =
      elim (Option-cases (state_for r in_grace bell p)) [
        | inl here ↦ ground (arith, here)
        | inr (y, e) ↦
            let h : Holding = record { shares = p.shares; value = r.exit_value p y } in
            let next : (sell_all r in_grace ps (put p.asset y bell, put p.asset h held)).1 ≡ none =
              ground (arith, e) in
            let (early, later) =
              sell_all-is_waiting r in_grace ps (put p.asset y bell) (put p.asset h held) next in
            (early, ground (arith, still_waiting r bell p.asset y ps later))
      ]
