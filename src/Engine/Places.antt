-- ===== src/Engine/Places.antt =====
-- The plan of `run_feed`: each new asset goes to a connection that has room for it.
use agentpit.Prelude.{
  ℕ, zero, suc, ◌+◌, ◌*◌, ◌%◌, ◌≤◌, ◌<◌, ◌≡◌, refl, true, some, List, [], ◌∷◌, length,
  length-append, sum_by, All, arith,
}
use agentpit.Prelude.Counts.{count, count-append}
use agentpit.Engine.{
  Connection, Planned, load_of, has_room, slot_at, append_at, place_new, plan_new, subscribe,
  subscribe_planned,
}
use agentpit.Engine.Counts.{count-add_all, length-add_all}
use agentpit.Engine.Turns.{total, find_room-total}

-- How often an asset is watched or planned.
unfoldable pub held_count : ℕ → List Planned → ℕ
held_count k slots = sum_by (λ s. count k s.0.assets + count k s.1) slots

abbrev pub Fits : ℕ → List Planned → Type 0
Fits cap slots = All (λ s. load_of s ≤ cap) slots

-- The new assets `l` have their places.
pub record IsPlaced (cap : ℕ) (l : List ℕ) (before after : List Planned) : Type 0 where
  pub same_length : length after ≡ length before
  pub adds : total after ≡ length l + total before
  pub holds : (k : ℕ) → held_count k after ≡ count k l + held_count k before
  pub fits : Fits cap after

append_at-IsPlaced :
    (cap a i : ℕ) (slots : List Planned) {s : Planned}
    → slot_at i slots ≡ some s
    → has_room cap s ≡ true
    → Fits cap slots
    → IsPlaced cap (a ∷ []) slots (append_at i a slots)
unfolding append_at slot_at held_count total count
append_at-IsPlaced cap a i [] here room fits = absurd cc
append_at-IsPlaced cap a zero ((c, l) ∷ slots) {s} here room fits = record {
  same_length = refl;
  adds = omega (arith, length-append l (a ∷ []));
  holds = λ k. omega (arith, count-append k l (a ∷ []));
  fits = (ground (arith, length-append l (a ∷ [])), fits.1);
}
append_at-IsPlaced cap a (suc i) (s ∷ slots) here room fits =
    let rest = append_at-IsPlaced cap a i slots here room fits.1 in
    record {
      same_length = omega (arith, rest.same_length);
      adds = omega (arith, rest.adds);
      holds = λ k. omega (arith, rest.holds k);
      fits = (fits.0, rest.fits);
    }

place_new_lem :
    (cap a : ℕ) (slots : List Planned) (turn : ℕ)
    → total slots < length slots * cap
    → Fits cap slots
    → (slots' : List Planned) × (turn' : ℕ) × (place_new cap a slots turn ≡ some (slots', turn'))
      × IsPlaced cap (a ∷ []) slots slots'
unfolding place_new
place_new_lem cap a slots turn lt fits =
    let some_slot : 0 < length slots = ground arith in
    let (t, e, (s, here, room)) = find_room-total cap slots some_slot turn lt in
    (
      append_at (t % length slots) a slots,
      suc t,
      ground (arith, e),
      append_at-IsPlaced cap a (t % length slots) slots here room fits,
    )

-- Where the capacity is enough, every new asset gets its place.
pub plan_new_lem :
    (cap : ℕ) (l : List ℕ) (slots : List Planned) (turn : ℕ)
    → length l + total slots ≤ length slots * cap
    → Fits cap slots
    → (slots' : List Planned) × (turn' : ℕ) × (plan_new cap l slots turn ≡ some (slots', turn'))
      × IsPlaced cap l slots slots'
unfolding plan_new count
plan_new_lem cap [] slots turn le fits = (
  slots,
  turn,
  refl,
  record { same_length = refl; adds = omega arith; holds = λ k. omega arith; fits = fits },
)
plan_new_lem cap (a ∷ l) slots turn le fits =
    let (slots', turn', e, one) = place_new_lem cap a slots turn (omega arith) fits in
    let enough : length l + total slots' ≤ length slots' * cap =
      ground (arith, one.same_length, one.adds) in
    let (slots'', turn'', e', rest) = plan_new_lem cap l slots' turn' enough one.fits in
    (
      slots'',
      turn'',
      ground (arith, e, e'),
      record {
        same_length = omega (arith, one.same_length, rest.same_length);
        adds = omega (arith, one.adds, rest.adds);
        holds = λ k. omega (arith, one.holds k, rest.holds k);
        fits = rest.fits;
      },
    )

-- How often an asset is watched.
unfoldable pub watched : ℕ → List Connection → ℕ
watched k conns = sum_by (λ c. count k c.assets) conns

abbrev pub Within : ℕ → List Connection → Type 0
Within cap conns = All (λ c. length c.assets ≤ cap) conns

-- What is planned once is watched.
pub watched-subscribe_planned :
    (clock : ℕ → ℕ) (i : ℕ) (slots : List Planned)
    → ((k : ℕ) → held_count k slots ≤ 1)
    → (k : ℕ) → watched k (subscribe_planned clock i slots) ≡ held_count k slots
unfolding watched held_count subscribe_planned subscribe count
watched-subscribe_planned clock i [] once k = refl
watched-subscribe_planned clock i ((c, []) ∷ slots) once k =
    omega (arith, watched-subscribe_planned clock (suc i) slots (λ k. omega (arith, once k)) k)
watched-subscribe_planned clock i ((c, a ∷ l) ∷ slots) once k = omega (
  arith,
  watched-subscribe_planned clock (suc i) slots (λ k. omega (arith, once k)) k,
  count-add_all (a ∷ l) c.assets (λ k. omega (arith, once k)) k,
)

pub subscribe_planned-Within :
    (cap : ℕ) (clock : ℕ → ℕ) (i : ℕ) (slots : List Planned)
    → Fits cap slots
    → Within cap (subscribe_planned clock i slots)
unfolding subscribe_planned subscribe
subscribe_planned-Within cap clock i [] fits = tt
subscribe_planned-Within cap clock i ((c, []) ∷ slots) fits =
    (omega (arith, fits.0), subscribe_planned-Within cap clock (suc i) slots fits.1)
subscribe_planned-Within cap clock i ((c, a ∷ l) ∷ slots) fits = (
  omega (arith, fits.0, length-add_all (a ∷ l) c.assets),
  subscribe_planned-Within cap clock (suc i) slots fits.1,
)
