-- ===== src/Engine/Room.antt =====
-- The connections that `run_feed` adds, and that they are enough.
use native.Mathlib.Nat.{suc-mul}
use agentpit.Prelude.{
  ℕ, zero, suc, ◌+◌, ◌*◌, ◌≤◌, ◌≡◌, refl, ap, ◌∙◌, List, [], ◌∷◌, ◌++◌, length, length-append, ltb,
  arith, Bool-cases, inl, inr,
}
use agentpit.Prelude.Counts.{count}
use agentpit.Engine.{Connection, new_connection, add_connections}
use agentpit.Engine.Places.{watched, Within}

watched-append :
    (k : ℕ) (conns more : List Connection)
    → watched k (conns ++ more) ≡ watched k conns + watched k more
unfolding watched
watched-append k [] more = omega arith
watched-append k (c ∷ conns) more = omega (arith, watched-append k conns more)

pub watched-add_connections :
    (fuel cap wanted k : ℕ) (conns : List Connection)
    → watched k (add_connections fuel cap wanted conns) ≡ watched k conns
unfolding add_connections watched count
watched-add_connections zero cap wanted k conns = refl
watched-add_connections (suc fuel) cap wanted k conns = ground (
  arith,
  watched-add_connections fuel cap wanted k (conns ++ new_connection ∷ []),
  watched-append k conns (new_connection ∷ []),
)

append-Within :
    (cap : ℕ) (conns : List Connection)
    → Within cap conns
    → Within cap (conns ++ new_connection ∷ [])
append-Within cap [] w = (omega arith, tt)
append-Within cap (c ∷ conns) w = (w.0, append-Within cap conns w.1)

pub add_connections-Within :
    (fuel cap wanted : ℕ) (conns : List Connection)
    → Within cap conns
    → Within cap (add_connections fuel cap wanted conns)
unfolding add_connections
add_connections-Within zero cap wanted conns w = w
add_connections-Within (suc fuel) cap wanted conns w =
    elim (Bool-cases (ltb (length conns * cap) wanted)) [
      | inl less ↦ rw less (
          add_connections-Within fuel cap wanted (conns ++ new_connection ∷ [])
            (append-Within cap conns w))
      | inr enough ↦ rw enough w
    ]

-- The loop ends with room for all targets: each turn adds a connection that takes one at least.
pub add_connections-enough :
    (fuel cap wanted : ℕ) (conns : List Connection)
    → 1 ≤ cap
    → wanted ≤ length conns * cap + fuel
    → wanted ≤ length (add_connections fuel cap wanted conns) * cap
unfolding add_connections
add_connections-enough zero cap wanted conns some_cap le = omega arith
add_connections-enough (suc fuel) cap wanted conns some_cap le =
    let longer : length (conns ++ new_connection ∷ []) ≡ suc (length conns) =
      omega (arith, length-append conns (new_connection ∷ [])) in
    let more : length (conns ++ new_connection ∷ []) * cap ≡ length conns * cap + cap =
      ap (λ n. n * cap) longer ∙ suc-mul (length conns) cap in
    elim (Bool-cases (ltb (length conns * cap) wanted)) [
      | inl less ↦ rw less (
          add_connections-enough fuel cap wanted (conns ++ new_connection ∷ []) some_cap
            (omega (arith, more)))
      | inr enough ↦ rw enough (ground arith)
    ]
