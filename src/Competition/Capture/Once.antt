-- ===== src/Competition/Capture/Once.antt =====
-- A captured value is final.
use agentpit.Prelude.{
  ℕ, ◌+◌, ◌-◌, ◌≡◌, refl, true, not, ◌&&◌, Option, none, some, List, [], ◌∷◌, any, filter, is_some,
  ltb, leb, arith, if◌then◌else◌, on_if, on_option,
}
use agentpit.Prelude.Dict.{get, put, nat_eq}
use agentpit.Store.{update_where}
use agentpit.Competition.{CompetitionEntry, Holding, or_else, is_entry}
use agentpit.Competition.Capture.{
  book_grace, mint_lag, pending_captures, end_deadline, Wallet, Reads, Race, Edge, start, end,
  Pending, Value, capture_entry, untaken, with_value,
}
use agentpit.Competition.Capture.Loop.{
  take_value, take_start, take_end, start_entry, end_entry, end_at_bell, capture_one, is_ready,
  freeze_all, sell_all, booked, capture_each, capture,
}

-- What becomes of an entry: it stays the same account's, and the start and the end that are taken
-- keep their values, times and holdings.
abbrev pub Extends : CompetitionEntry → CompetitionEntry → Type 0
Extends e e' =
    (e'.slug ≡ e.slug)
    × (e'.user_id ≡ e.user_id)
    × (is_some e.start_raw ≡ true
        → (e'.start_raw ≡ e.start_raw)
          × (e'.start_at ≡ e.start_at)
          × (e'.start_holdings ≡ e.start_holdings))
    × (is_some e.end_raw ≡ true
        → (e'.end_raw ≡ e.end_raw) × (e'.end_at ≡ e.end_at) × (e'.end_holdings ≡ e.end_holdings))

-- CompetitionEntry by entry.
abbrev pub Follow : List CompetitionEntry → List CompetitionEntry → Type 0
Follow [] [] = Unit
Follow (e ∷ es) (e' ∷ es') = Extends e e' × Follow es es'
Follow _ _ = ⊥

Extends-refl : (e : CompetitionEntry) → Extends e e
Extends-refl e = (refl, refl, (λ h. (refl, refl, refl)), (λ h. (refl, refl, refl)))

pub Follow-refl : (es : List CompetitionEntry) → Follow es es
Follow-refl [] = tt
Follow-refl (e ∷ es) = (Extends-refl e, Follow-refl es)

Extends-trans : (a b c : CompetitionEntry) → Extends a b → Extends b c → Extends a c
Extends-trans a b c h k = ground arith

pub Follow-trans : (es fs gs : List CompetitionEntry) → Follow es fs → Follow fs gs → Follow es gs
Follow-trans [] [] [] h k = tt
Follow-trans [] [] (c ∷ gs) h k = absurd k
Follow-trans [] (b ∷ fs) gs h k = absurd h
Follow-trans (a ∷ es) [] gs h k = absurd h
Follow-trans (a ∷ es) (b ∷ fs) [] h k = absurd k
Follow-trans (a ∷ es) (b ∷ fs) (c ∷ gs) h k =
    (Extends-trans a b c h.0 k.0, Follow-trans es fs gs h.1 k.1)

captured-Extends :
    (slug user_id : ℕ) (edge : Edge) (v : Value) (e : CompetitionEntry)
    → Extends e (if is_entry slug user_id e && untaken edge e then with_value edge v e else e)
captured-Extends slug user_id start v e = ground arith
captured-Extends slug user_id end v e = ground arith

captured-Follow :
    (slug user_id : ℕ) (edge : Edge) (v : Value) (es : List CompetitionEntry)
    → Follow es
        (update_where (λ e. is_entry slug user_id e && untaken edge e) (with_value edge v) es)
captured-Follow slug user_id edge v [] = tt
captured-Follow slug user_id edge v (e ∷ es) =
    (captured-Extends slug user_id edge v e, captured-Follow slug user_id edge v es)

module _ {M : Type 0} where
  abbrev pub Keeps : Race M → Race M → Type 0
  Keeps s s' = Follow s.db.entries s'.db.entries

  take_value-Keeps :
      (e : Pending) (edge : Edge) (v : Value) (s : Race M) → Keeps s (take_value e edge v s)
  unfolding take_value capture_entry
  take_value-Keeps e edge v s = captured-Follow e.slug e.user_id edge v s.db.entries

  take_start-Keeps : (e : Pending) (w : Wallet M × ℕ) (s : Race M) → Keeps s (take_start e w s)
  unfolding take_start
  take_start-Keeps e w s = take_value-Keeps e start _ s

  start_entry-Keeps :
      (r : Reads M) (now : ℕ) (e : Pending) (s : Race M) → Keeps s (start_entry r now e s)
  unfolding start_entry
  start_entry-Keeps r now e s =
      let P = Keeps s in
      let same = Follow-refl s.db.entries in
      on_if P (e.prize && r.over_cap e.api_key) same (
        on_if P (e.settling && ltb now (e.run_starts_at + book_grace)) same (
          on_option P (r.wallet e.eth_address) same (λ w.
            on_if P
              (any (λ p. not p.settled && not (booked r.house p.asset)) w.0.positions
                && ltb now (e.run_starts_at + book_grace))
              same (take_start-Keeps e w s))))

  take_end-Keeps :
      (e : Pending) (w : Wallet M × ℕ) (held : Option (List (ℕ × Holding))) (s : Race M)
      → Keeps s (take_end e w held s)
  unfolding capture_entry
  take_end-Keeps e w none s = Follow-refl s.db.entries
  take_end-Keeps e w (some held) s = captured-Follow e.slug e.user_id end _ s.db.entries

  end_entry-Keeps :
      (r : Reads M) (now : ℕ) (e : Pending) (s : Race M) → Keeps s (end_entry r now e s)
  unfolding end_entry
  end_entry-Keeps r now e s =
      let P = Keeps s in
      let same = Follow-refl s.db.entries in
      on_option P (r.wallet e.eth_address) same (λ w. on_option P (get s.bells e.slug) same (λ bell.
        let (bell', held) =
          sell_all r (ltb now (e.ends_at + book_grace)) w.0.positions (bell, []) in
        take_end-Keeps e w held (record s { bells = put e.slug bell' s.bells })))

  capture_one-Keeps :
      (r : Reads M) (now : ℕ) (e : Pending) (s : Race M) → Keeps s (capture_one r now e s)
  unfolding capture_one end_at_bell
  capture_one-Keeps r now e s =
      let P = Keeps s in
      on_if P (not (is_some e.start_raw)) (start_entry-Keeps r now e s) (
        on_if P (leb (e.ends_at + end_deadline) now) (take_value-Keeps e end _ s) (
          on_if P (not e.settling && leb e.ends_at (or_else (get s.cursor e.slug) 0))
            (end_entry-Keeps r now e s) (Follow-refl s.db.entries)))

  capture_each-Keeps :
      (r : Reads M) (now : ℕ) (es : List Pending) (s : Race M) → Keeps s (capture_each r now es s)
  unfolding capture_each
  capture_each-Keeps r now [] s = Follow-refl s.db.entries
  capture_each-Keeps r now (e ∷ es) s =
      let s' = capture_one r now e s in
      Follow-trans s.db.entries s'.db.entries (capture_each r now es s').db.entries
        (capture_one-Keeps r now e s) (capture_each-Keeps r now es s')

  pub capture-Keeps : (r : Reads M) (now : ℕ) (s : Race M) → Keeps s (capture r now s)
  unfolding capture
  capture-Keeps r now s =
      let pending = pending_captures now (now - mint_lag) s.db in
      let ending = filter (λ e. is_some e.start_raw) pending in
      let frozen = record s { bells = freeze_all r ending ending s.bells } in
      on_if (Keeps s) (is_ready r) (capture_each-Keeps r now pending frozen)
        (Follow-refl s.db.entries)
