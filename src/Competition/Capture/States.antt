-- ===== src/Competition/Capture/States.antt =====
-- The bell states over a pass of `capture`.
use mathlib.Core.Path.{subst}
use agentpit.Prelude.{
  ℕ, ◌+◌, ◌-◌, ◌≡◌, refl, ◌∙◌, sym, ap, not, ◌&&◌, Option, none, some, List, [], ◌∷◌, filter,
  is_some, ltb, leb, ◌==◌, ==_iff, arith, if◌then◌else◌, Bool-cases, Option-cases, inl, inr, on_if,
}
use agentpit.Prelude.Dict.{get, put, nat_eq, get-put}
use agentpit.Competition.{Holding, or_else}
use agentpit.Competition.Capture.{
  Bells, book_grace, end_deadline, mint_lag, Exit, Wallet, Reads, Race, Pending, pending_captures,
}
use agentpit.Competition.Capture.Loop.{
  sell_all, is_ready, take_value, take_start, take_end, freeze, freeze_all, start_entry, end_entry,
  end_at_bell, capture_one, capture_each, capture,
}
use agentpit.Competition.Capture.Bells.{Frozen, sell_all-Frozen}

module _ {M : Type 0} where
  -- Every bell state that is there keeps what is frozen in it.
  abbrev pub KeepsBells : Race M → Race M → Type 0
  KeepsBells s s' =
      (slug : ℕ) (bell : List (ℕ × Exit M))
      → get s.bells slug ≡ some bell
      → (bell' : List (ℕ × Exit M)) × (get s'.bells slug ≡ some bell') × Frozen bell bell'

  KeepsBells-refl : (s : Race M) → KeepsBells s s
  KeepsBells-refl s slug bell e = (bell, e, λ a x h. h)

  KeepsBells-trans : (s s' s'' : Race M) → KeepsBells s s' → KeepsBells s' s'' → KeepsBells s s''
  KeepsBells-trans s s' s'' h k slug bell e =
      let (b1, e1, f1) = h slug bell e in
      let (b2, e2, f2) = k slug b1 e1 in (b2, e2, λ a x found. f2 a x (f1 a x found))

  -- A bell state of the competition `slug` that grows.
  put-KeepsBells :
      (s s' : Race M) (slug : ℕ) (bell bell' : List (ℕ × Exit M))
      → get s.bells slug ≡ some bell
      → Frozen bell bell'
      → s'.bells ≡ put slug bell' s.bells
      → KeepsBells s s'
  put-KeepsBells s s' slug bell bell' e grows eq i b found = elim (Bool-cases (slug == i)) [
    | inl same ↦
        let b_bell : bell ≡ b = ground (arith, e, found, ==_iff slug i, same) in
        (
          bell',
          ground (arith, eq, get-put slug i bell' s.bells, same),
          subst (λ b. Frozen b bell') b_bell grows,
        )
    | inr other ↦ (b, ground (arith, eq, get-put slug i bell' s.bells, other, found), λ a x h. h)
  ]

  take_end-bells :
      (e : Pending) (w : Wallet M × ℕ) (held : Option (List (ℕ × Holding))) (s : Race M)
      → (take_end e w held s).bells ≡ s.bells
  take_end-bells e w none s = refl
  take_end-bells e w (some held) s = refl

  end_entry-KeepsBells :
      (r : Reads M) (now : ℕ) (e : Pending) (s : Race M) → KeepsBells s (end_entry r now e s)
  unfolding end_entry
  end_entry-KeepsBells r now e s = elim (Option-cases (r.wallet e.eth_address)) [
    | inl unread ↦
        let same : end_entry r now e s ≡ s = rw (end_entry, unread) refl in
        subst (KeepsBells s) (sym same) (KeepsBells-refl s)
    | inr (w, wallet) ↦ elim (Option-cases (get s.bells e.slug)) [
      | inl raises ↦
          let same : end_entry r now e s ≡ s = rw (end_entry, wallet, raises) refl in
          subst (KeepsBells s) (sym same) (KeepsBells-refl s)
      | inr (bell, frozen) ↦
          let in_grace = ltb now (e.ends_at + book_grace) in
          let sold = sell_all r in_grace w.0.positions (bell, []) in
          let s1 = record s { bells = put e.slug sold.0 s.bells } in
          let result : end_entry r now e s ≡ take_end e w sold.1 s1 =
            rw (end_entry, wallet, frozen) refl in
          put-KeepsBells s (end_entry r now e s) e.slug bell sold.0 frozen
            (sell_all-Frozen r in_grace w.0.positions bell [])
            (ap (λ s. s.bells) result ∙ take_end-bells e w sold.1 s1)
    ]
  ]

  same-KeepsBells : (s s' : Race M) → s'.bells ≡ s.bells → KeepsBells s s'
  same-KeepsBells s s' eq slug bell found = (bell, ap (λ b. get b slug) eq ∙ found, λ a x h. h)

  bells-start_entry :
      (r : Reads M) (now : ℕ) (e : Pending) (s : Race M) → (start_entry r now e s).bells ≡ s.bells
  unfolding start_entry take_start take_value
  bells-start_entry r now e s = ground arith

  capture_one-KeepsBells :
      (r : Reads M) (now : ℕ) (e : Pending) (s : Race M) → KeepsBells s (capture_one r now e s)
  unfolding capture_one end_at_bell take_value
  capture_one-KeepsBells r now e s =
      let P = KeepsBells s in
      on_if P (not (is_some e.start_raw))
        (same-KeepsBells s (start_entry r now e s) (bells-start_entry r now e s))
        (on_if P (leb (e.ends_at + end_deadline) now) (same-KeepsBells s (end_at_bell now e s) refl)
          (on_if P (not e.settling && leb e.ends_at (or_else (get s.cursor e.slug) 0))
            (end_entry-KeepsBells r now e s) (KeepsBells-refl s)))

  capture_each-KeepsBells :
      (r : Reads M) (now : ℕ) (es : List Pending) (s : Race M)
      → KeepsBells s (capture_each r now es s)
  unfolding capture_each
  capture_each-KeepsBells r now [] s = KeepsBells-refl s
  capture_each-KeepsBells r now (e ∷ es) s =
      let s' = capture_one r now e s in
      KeepsBells-trans s s' (capture_each r now es s') (capture_one-KeepsBells r now e s)
        (capture_each-KeepsBells r now es s')

  get-freeze_all :
      (r : Reads M) (ending es : List Pending) (bells : Bells M) (slug : ℕ)
      (bell : List (ℕ × Exit M))
      → get bells slug ≡ some bell
      → get (freeze_all r ending es bells) slug ≡ some bell
  unfolding freeze_all
  get-freeze_all r ending [] bells slug bell found = found
  get-freeze_all r ending (e ∷ es) bells slug bell found =
      let frozen = freeze r (filter (λ x. x.slug == e.slug) ending) [] in
      let next = if is_some (get bells e.slug) then bells else put e.slug frozen bells in
      let still : get next slug ≡ some bell =
        ground (arith, get-put e.slug slug frozen bells, ==_iff e.slug slug, found) in
      get-freeze_all r ending es next slug bell still

  -- A pass of `capture` keeps every bell state that is there: a token that has its state in it
  -- sells into the same one afterwards.
  pub capture-KeepsBells : (r : Reads M) (now : ℕ) (s : Race M) → KeepsBells s (capture r now s)
  unfolding capture
  capture-KeepsBells r now s =
      let pending = pending_captures now (now - mint_lag) s.db in
      let ending = filter (λ e. is_some e.start_raw) pending in
      let frozen = record s { bells = freeze_all r ending ending s.bells } in
      on_if (KeepsBells s) (is_ready r)
        (KeepsBells-trans s frozen (capture_each r now pending frozen)
          (λ slug bell found.
            (bell, get-freeze_all r ending ending s.bells slug bell found, λ a x h. h))
          (capture_each-KeepsBells r now pending frozen))
        (KeepsBells-refl s)
