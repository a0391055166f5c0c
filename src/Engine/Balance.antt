-- ===== src/Engine/Balance.antt =====
-- What a pass of `run_feed` comes to.
use agentpit.Prelude.{
  ℕ, ◌+◌, ◌*◌, ◌≤◌, ◌≡◌, refl, not, some, List, [], ◌∷◌, ◌++◌, map, filter, length, length-append,
  sum_by, ltb, arith, if◌then◌else◌,
}
use agentpit.Prelude.Counts.{
  count, count-append, count-filter, count_nil, is_in, is_in-count, length-count, length-filter,
}
use agentpit.Engine.{
  Connection, is_owned, unsubscribe, leave_gone, unplanned, add_connections, new_assets,
  subscribe_planned, subscribe_new, rebalance,
}
use agentpit.Engine.Turns.{total}
use agentpit.Engine.Room.{watched-add_connections, add_connections-Within, add_connections-enough}
use agentpit.Engine.Places.{
  held_count, watched, Fits, Within, plan_new_lem, watched-subscribe_planned,
  subscribe_planned-Within,
}

load : List Connection → ℕ
load conns = sum_by (λ c. length c.assets) conns

pub is_owned-watched :
    (k : ℕ) (conns : List Connection) → is_owned k conns ≡ ltb 0 (watched k conns)
unfolding is_owned watched
is_owned-watched k [] = refl
is_owned-watched k (c ∷ conns) = ground (arith, is_owned-watched k conns, is_in-count k c.assets)

-- What a connection goes on watching.
abbrev of_targets : List ℕ → ℕ → ℕ → ℕ
of_targets targets k n = if is_in k targets then n else 0

count-leave_gone :
    (targets : List ℕ) (k : ℕ) (c : Connection)
    → count k (leave_gone targets c).assets ≡ of_targets targets k (count k c.assets)
unfolding leave_gone unsubscribe
count-leave_gone targets k c =
    let ours = filter (λ a. not (is_in a targets)) c.assets in
    ground (
      arith,
      count-filter (λ a. not (is_in a targets)) k c.assets,
      count-filter (λ a. not (is_in a ours)) k c.assets,
      is_in-count k ours,
      count_nil k ours,
    )

length-leave_gone :
    (targets : List ℕ) (c : Connection) → length (leave_gone targets c).assets ≤ length c.assets
unfolding leave_gone unsubscribe
length-leave_gone targets c =
    let ours = filter (λ a. not (is_in a targets)) c.assets in
    ground (arith, length-filter (λ a. not (is_in a ours)) c.assets)

watched-leave_gone :
    (targets : List ℕ) (k : ℕ) (conns : List Connection)
    → watched k (map (leave_gone targets) conns) ≡ of_targets targets k (watched k conns)
unfolding watched
watched-leave_gone targets k [] = ground arith
watched-leave_gone targets k (c ∷ conns) =
    ground (arith, watched-leave_gone targets k conns, count-leave_gone targets k c)

leave_gone-Within :
    (cap : ℕ) (targets : List ℕ) (conns : List Connection)
    → Within cap conns
    → Within cap (map (leave_gone targets) conns)
leave_gone-Within cap targets [] w = tt
leave_gone-Within cap targets (c ∷ conns) w =
    (omega (arith, w.0, length-leave_gone targets c), leave_gone-Within cap targets conns w.1)

-- All assets of the connections, in one list.
flat : List Connection → List ℕ
flat [] = []
flat (c ∷ conns) = c.assets ++ flat conns

count-flat : (k : ℕ) (conns : List Connection) → count k (flat conns) ≡ watched k conns
unfolding flat watched count
count-flat k [] = refl
count-flat k (c ∷ conns) = omega (arith, count-append k c.assets (flat conns), count-flat k conns)

length-flat : (conns : List Connection) → length (flat conns) ≡ load conns
unfolding flat load
length-flat [] = refl
length-flat (c ∷ conns) = omega (arith, length-append c.assets (flat conns), length-flat conns)

total-unplanned : (conns : List Connection) → total (map unplanned conns) ≡ load conns
unfolding total load
total-unplanned [] = refl
total-unplanned (c ∷ conns) = omega (arith, total-unplanned conns)

held_count-unplanned :
    (k : ℕ) (conns : List Connection) → held_count k (map unplanned conns) ≡ watched k conns
unfolding held_count watched count
held_count-unplanned k [] = refl
held_count-unplanned k (c ∷ conns) = omega (arith, held_count-unplanned k conns)

unplanned-Fits :
    (cap : ℕ) (conns : List Connection) → Within cap conns → Fits cap (map unplanned conns)
unplanned-Fits cap [] w = tt
unplanned-Fits cap (c ∷ conns) w = (omega (arith, w.0), unplanned-Fits cap conns w.1)

length-unplanned : (conns : List Connection) → length (map unplanned conns) ≡ length conns
length-unplanned [] = refl
length-unplanned (c ∷ conns) = omega (arith, length-unplanned conns)

-- What the targets say that the connections watch: each target once, nothing else.
abbrev pub Watches : List ℕ → List Connection → Type 0
Watches targets conns = (k : ℕ) → watched k conns ≡ count k targets

module _ (clock : ℕ → ℕ) (cap : ℕ) (targets : List ℕ) where
  subscribe_new_lem :
      (new : List ℕ) (conns : List Connection) (turn : ℕ)
      → ((k : ℕ) → count k targets ≤ 1)
      → ((k : ℕ) → count k new + watched k conns ≡ count k targets)
      → length targets ≤ length conns * cap
      → Within cap conns
      → (conns' : List Connection) × (turn' : ℕ) × (subscribe_new clock cap new conns turn
          ≡ some (conns', turn'))
        × Watches targets conns'
        × Within cap conns'
  unfolding subscribe_new
  subscribe_new_lem new conns turn once parts enough w =
      let fewer : length new + load conns ≤ length targets = omega (
        arith,
        length-append new (flat conns),
        length-flat conns,
        length-count (new ++ flat conns) targets
            (λ k. omega (arith, count-append k new (flat conns), count-flat k conns, parts k)),
      ) in
      let le : length new + total (map unplanned conns) ≤ length (map unplanned conns) * cap =
        ground (arith, total-unplanned conns, length-unplanned conns, fewer, enough) in
      let (slots, turn', e, placed) =
        plan_new_lem cap new (map unplanned conns) turn le (unplanned-Fits cap conns w) in
      let holds : (k : ℕ) → held_count k slots ≡ count k targets =
        λ k. omega (arith, placed.holds k, held_count-unplanned k conns, parts k) in
      (
        subscribe_planned clock 0 slots,
        turn',
        rw (subscribe_new, e) refl,
        (λ k. omega (
          arith,
          watched-subscribe_planned clock 0 slots (λ k. omega (arith, holds k, once k)) k,
          holds k,
        )),
        subscribe_planned-Within cap clock 0 slots placed.fits,
      )

  -- A pass over targets with no repeats ends. Where no asset was on two connections and each
  -- connection was within the limit of at least one asset, both stay so, and afterwards the
  -- connections watch each target exactly once and nothing else.
  pub rebalance_lem :
      (conns : List Connection) (turn : ℕ)
      → 1 ≤ cap
      → ((k : ℕ) → count k targets ≤ 1)
      → ((k : ℕ) → watched k conns ≤ 1)
      → Within cap conns
      → (conns' : List Connection) × (turn' : ℕ) × (rebalance clock cap targets conns turn
          ≡ some (conns', turn'))
        × Watches targets conns'
        × Within cap conns'
  unfolding rebalance
  rebalance_lem conns turn some_cap once apart w =
      let left = map (leave_gone targets) conns in
      let n = length targets in
      let enough = add_connections n cap n left in
      subscribe_new_lem (new_assets targets conns) enough turn once
        (λ k. ground (
          arith,
          count-filter (λ a. not (is_owned a conns)) k targets,
          is_owned-watched k conns,
          watched-add_connections n cap n k left,
          watched-leave_gone targets k conns,
          is_in-count k targets,
          once k,
          apart k,
        ))
        (add_connections-enough n cap n left some_cap (ground arith))
        (add_connections-Within n cap n left (leave_gone-Within cap targets conns w))
