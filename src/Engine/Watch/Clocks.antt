-- ===== src/Engine/Watch/Clocks.antt =====
-- When the clock of an asset starts, and that it keeps its time.
use agentpit.Prelude.{
  ℕ, ◌≤◌, ◌≡◌, refl, Bool, not, ◌&&◌, Option, none, some, List, [], ◌∷◌, filter, ==_iff, arith,
  if◌then◌else◌,
}
use agentpit.Prelude.Counts.{count, count-filter, is_in, is_in-count}
use agentpit.Prelude.Dict.{
  get, put, nat_eq, Distinct, get-put, get-filter, put-Distinct, filter-Distinct,
}
use agentpit.Feed.{has_key}
use agentpit.Engine.Watch.{MirrorEngine, keys, missing, start_clocks, note_targets}

pub is_in-keys : {V : Type 0} (k : ℕ) (d : List (ℕ × V)) → is_in k (keys d) ≡ has_key d k
unfolding get
is_in-keys k [] = refl
is_in-keys k ((j, v) ∷ d) = ground (arith, is_in-keys k d)

-- The keys of a dictionary have no repeats.
pub count-keys : {V : Type 0} (d : List (ℕ × V)) → Distinct d → (k : ℕ) → count k (keys d) ≤ 1
unfolding count get
count-keys [] v k = omega arith
count-keys ((j, w) ∷ d) v k =
    ground (arith, count-keys d v.1 k, is_in-keys k d, is_in-count k (keys d), ==_iff j k)

-- The time on a clock, or the present.
abbrev pub or_now : ℕ → Option ℕ → ℕ
or_now now none = now
or_now now (some t) = t

get-start_clocks :
    (now : ℕ) (assets : List ℕ) (seen : List (ℕ × ℕ)) (a : ℕ)
    → get (start_clocks now assets seen) a
      ≡ (if is_in a assets then some (or_now now (get seen a)) else get seen a)
unfolding start_clocks
get-start_clocks now [] seen a = refl
get-start_clocks now (b ∷ assets) seen a = ground (
  arith,
  get-start_clocks now assets (if has_key seen b then seen else put b now seen) a,
  get-put b a now seen,
  ==_iff b a,
)

pub start_clocks-Distinct :
    (now : ℕ) (assets : List ℕ) (seen : List (ℕ × ℕ))
    → Distinct seen
    → Distinct (start_clocks now assets seen)
unfolding start_clocks
start_clocks-Distinct now [] seen v = v
start_clocks-Distinct now (b ∷ assets) seen v =
    start_clocks-Distinct now assets (if has_key seen b then seen else put b now seen)
      (ground (arith, put-Distinct b now seen v))

abbrev pub is_missing : ℕ → MirrorEngine → Bool
is_missing a e = has_key e.state.replicas a && not (is_in a e.subscribed)

is_in-filter : (p : ℕ → Bool) (a : ℕ) (l : List ℕ) → is_in a (filter p l) ≡ (p a && is_in a l)
is_in-filter p a l = ground (arith, is_in-count a (filter p l), is_in-count a l, count-filter p a l)

pub is_in-missing : (a : ℕ) (e : MirrorEngine) → is_in a (missing e) ≡ is_missing a e
is_in-missing a e = ground (
  arith,
  is_in-filter (λ b. not (is_in b e.subscribed)) a (keys e.state.replicas),
  is_in-keys a e.state.replicas,
)

-- Exactly the targets that wait for their subscription have a clock, each from when it was first
-- seen to wait: a clock that runs is left alone.
pub note_targets_clock :
    (now : ℕ) (e : MirrorEngine) (a : ℕ)
    → Distinct e.first_seen
    → get (note_targets now e).first_seen a
      ≡ (if is_missing a e then some (or_now now (get e.first_seen a)) else none)
unfolding note_targets
note_targets_clock now e a v =
    let waits = λ (p : ℕ × ℕ). is_in p.0 (missing e) in
    ground (
      arith,
      get-start_clocks now (missing e) (filter waits e.first_seen) a,
      get-filter waits a e.first_seen v,
      is_in-missing a e,
    )

pub note_targets-Distinct :
    (now : ℕ) (e : MirrorEngine) → Distinct e.first_seen → Distinct (note_targets now e).first_seen
unfolding note_targets
note_targets-Distinct now e v =
    let waits = λ (p : ℕ × ℕ). is_in p.0 (missing e) in
    start_clocks-Distinct now (missing e) (filter waits e.first_seen)
      (filter-Distinct waits e.first_seen v)
