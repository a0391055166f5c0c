-- ===== src/Engine/Turns.antt =====
-- The turn that `run_feed` looks for: where a connection has room, a round finds one.
use mathlib.Core.Path.{subst}
use native.Mathlib.Nat.{add-zero, mod-lt, mod-eq_of_lt, mod-add-mod, add-mod-mod, add-mod_right}
use agentpit.Prelude.{
  ℕ, zero, suc, ◌+◌, ◌-◌, ◌*◌, ◌%◌, ◌<◌, ◌≡◌, refl, ap, sym, ◌∙◌, true, false, some, List, [], ◌∷◌,
  length, sum_by, arith, Bool-cases, inl, inr,
}
use agentpit.Engine.{Planned, load_of, has_room, slot_at, find_room}

unfoldable pub total : List Planned → ℕ
total slots = sum_by load_of slots

slot_at_in :
    (i : ℕ) (slots : List Planned) → i < length slots → (s : Planned) × (slot_at i slots ≡ some s)
unfolding slot_at
slot_at_in i [] lt = absurd (omega arith)
slot_at_in zero (s ∷ slots) lt = (s, refl)
slot_at_in (suc i) (s ∷ slots) lt = slot_at_in i slots (omega arith)

-- What stands at a place, with room.
abbrev pub HasRoomAt : ℕ → ℕ → List Planned → Type 0
HasRoomAt cap i slots = (s : Planned) × (slot_at i slots ≡ some s) × (has_room cap s ≡ true)

-- Below the capacity of all connections, one has room.
some_room :
    (cap : ℕ) (slots : List Planned)
    → total slots < length slots * cap
    → (i : ℕ) × (i < length slots) × HasRoomAt cap i slots
unfolding slot_at total
some_room cap [] lt = absurd (ground arith)
some_room cap (s ∷ slots) lt = elim (Bool-cases (has_room cap s)) [
  | inl room ↦ (0, omega arith, (s, refl, room))
  | inr full ↦
      let (i, below, there) = some_room cap slots (ground arith) in (suc i, omega arith, there)
]

-- Every place has its turn within a round.
reach : (i n turn : ℕ) → i < n → (j : ℕ) × (j < n) × ((turn + j) % n ≡ i)
reach i n turn lt =
    let r = turn % n in
    let back : r < n = mod-lt turn (omega arith) in
    let x = i + (n - r) in
    let around : r + x ≡ i + n = omega arith in
    (
      x % n,
      mod-lt x (omega arith),
      add-mod-mod turn x n
          ∙ sym (mod-add-mod turn n x)
          ∙ ap (λ y. y % n) around
          ∙ add-mod_right i n
          ∙ mod-eq_of_lt lt,
    )

module _ (cap : ℕ) (slots : List Planned) (some_slot : 0 < length slots) where
  later :
      (turn j : ℕ) {s : Planned}
      → slot_at (turn % length slots) slots ≡ some s
      → has_room cap s ≡ false
      → HasRoomAt cap ((turn + j) % length slots) slots
      → 0 < j
  later turn zero {s} here full (s', there, room) =
      let same : some s ≡ some s' =
        sym here ∙ ap (λ t. slot_at (t % length slots) slots) (sym (add-zero turn)) ∙ there in
      absurd (ground arith)
  later turn (suc j) here full there = omega arith

  found :
      (fuel turn j : ℕ)
      → j < fuel
      → HasRoomAt cap ((turn + j) % length slots) slots
      → (t : ℕ) × (find_room fuel cap turn slots ≡ some t) × HasRoomAt cap (t % length slots) slots
  unfolding find_room
  found zero turn j lt there = absurd (omega arith)
  found (suc fuel) turn j lt there =
      let (s, here) = slot_at_in (turn % length slots) slots (mod-lt turn some_slot) in
      elim (Bool-cases (has_room cap s)) [
        | inl room ↦ (turn, ground (arith, here, room), (s, here, room))
        | inr full ↦
            let after = later turn j here full there in
            let same : turn + j ≡ suc turn + (j - 1) = omega arith in
            let (t, e, room) =
              found fuel (suc turn) (j - 1) (omega arith)
                (subst (λ i. HasRoomAt cap (i % length slots) slots) same there) in
            (t, ground (arith, here, full, e), room)
      ]

  -- Below the capacity of all connections, the round from any turn finds one with room.
  pub find_room-total :
      (turn : ℕ)
      → total slots < length slots * cap
      → (t : ℕ) × (find_room (length slots) cap turn slots ≡ some t)
        × HasRoomAt cap (t % length slots) slots
  find_room-total turn lt =
      let (i, below, room) = some_room cap slots lt in
      let (j, soon, here) = reach i (length slots) turn below in
      found (length slots) turn j soon (subst (λ x. HasRoomAt cap x slots) (sym here) room)
