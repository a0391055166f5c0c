-- ===== src/Competition/Capture/Ends.antt =====
-- The end values that `_end` takes.
use mathlib.Core.Path.{subst}
use agentpit.Prelude.{
  ℕ, ◌+◌, ◌<◌, ◌≡◌, refl, ◌∙◌, sym, ap, ◌⊎◌, true, false, none, some, List, [], ◌∷◌, All, Bool,
  false, any, ◌==◌, sum_by, ltb, Option-cases, inl, inr, ltb→lt,
}
use agentpit.Prelude.Dict.{get, put, nat_eq}
use agentpit.Competition.{Holding}
use agentpit.Competition.Capture.{
  book_grace, Exit, Position, Wallet, Reads, Race, Pending, Value, end, capture_entry,
}
use agentpit.Competition.Capture.Loop.{sell_all, take_end, end_entry}
use agentpit.Competition.Capture.Bells.{Apart, Frozen, sell_all-Frozen, sell_all_others}
use agentpit.Competition.Capture.Sales.{Sells, is_waiting, sell_all-Sells, sell_all-is_waiting}

abbrev pub in_grace_of : ℕ → Pending → Bool
in_grace_of now e = ltb now (e.ends_at + book_grace)

module _ {M : Type 0} where
  -- The end value of a wallet that is sold into `bell`.
  abbrev pub end_value : Wallet M → ℕ → List (ℕ × Holding) → Value
  end_value w at held = record {
    value_raw = w.cash_raw + sum_by (λ h. h.1.value) held;
    at = at;
    block = some w.block;
    held = some held;
  }

  -- What `_end` did: it waits, within the grace and for a position that has nothing to sell into, or
  -- takes the cash and what each position brings.
  abbrev pub EndTaken :
      Reads M
      → ℕ
      → Pending
      → Wallet M × ℕ
      → List (ℕ × Exit M)
      → List (ℕ × Exit M)
      → Race M
      → Race M
      → Type 0
  EndTaken r now e w bell bell' s s' =
      ((now < e.ends_at + book_grace)
        × (any (is_waiting r bell) w.0.positions ≡ true)
        × (s'.db ≡ s.db))
      ⊎ ((held : List (ℕ × Holding)) × Sells r (in_grace_of now e) bell bell' w.0.positions held
          × (s'.db ≡ capture_entry e.slug e.user_id end (end_value w.0 w.1 held) s.db))

  -- The bell state afterwards has what is frozen in `bell`, and the end is taken by it; nothing else
  -- is touched.
  abbrev pub Ended :
      Reads M → ℕ → Pending → Wallet M × ℕ → List (ℕ × Exit M) → Race M → Race M → Type 0
  Ended r now e w bell s s' =
      (bell' : List (ℕ × Exit M)) × (s'.bells ≡ put e.slug bell' s.bells)
      × (s'.cursor ≡ s.cursor)
      × Frozen bell bell'
      × ((a : ℕ) → any (λ q. q.asset == a) w.0.positions ≡ false → get bell' a ≡ get bell a)
      × EndTaken r now e w bell bell' s s'

  none_held :
      (ps : List (Position M)) → All (λ (p : Position M). get {V = Holding} [] p.asset ≡ none) ps
  unfolding get
  none_held [] = tt
  none_held (p ∷ ps) = (refl, none_held ps)

  -- Where the wallet is read, its tokens stand apart and the competition's bell state is frozen,
  -- `_end` keeps every state that is frozen, and freezes none for a token that the wallet has not.
  -- It takes the cash and the value of exactly the wallet's positions, each sold into its token's
  -- state, which is the one that was frozen or, where none was, what the position sells into now or,
  -- past the grace, its mark; or it waits, which it does only within the grace and while a position
  -- has no state and nothing to sell into.
  pub end_entry_lem :
      (r : Reads M) (now : ℕ) (e : Pending) (s : Race M) (w : Wallet M × ℕ)
      (bell : List (ℕ × Exit M))
      → r.wallet e.eth_address ≡ some w
      → get s.bells e.slug ≡ some bell
      → Apart w.0.positions
      → Ended r now e w bell s (end_entry r now e s)
  unfolding end_entry
  end_entry_lem r now e s w bell wallet frozen apart =
      let sold = sell_all r (in_grace_of now e) w.0.positions (bell, []) in
      let s1 = record s { bells = put e.slug sold.0 s.bells } in
      let result : end_entry r now e s ≡ take_end e w sold.1 s1 =
        rw (end_entry, wallet, frozen) refl in
      let kept = sell_all-Frozen r (in_grace_of now e) w.0.positions bell [] in
      let others = λ (a : ℕ). sell_all_others r (in_grace_of now e) w.0.positions bell [] a in
      elim (Option-cases sold.1) [
        | inl waits ↦
            let (early, there) =
              sell_all-is_waiting r (in_grace_of now e) w.0.positions bell [] waits in
            subst (Ended r now e w bell s) (sym (result ∙ ap (λ held. take_end e w held s1) waits))
              (
                sold.0,
                refl,
                refl,
                kept,
                others,
                inl (ltb→lt now (e.ends_at + book_grace) early, there, refl),
              )
        | inr (held, done) ↦
            let (all, eq, sells) =
              sell_all-Sells r (in_grace_of now e) w.0.positions bell [] held apart
                (none_held w.0.positions) done in
            subst (Ended r now e w bell s) (sym (result ∙ ap (λ held. take_end e w held s1) done)) (
              sold.0,
              refl,
              refl,
              kept,
              others,
              inr (
                held,
                subst (Sells r (in_grace_of now e) bell sold.0 w.0.positions) (sym eq) sells,
                refl,
              ),
            )
      ]
