-- ===== src/Engine/Watch.antt =====
-- liquidity/mirror.py: a pass of `run_feed`, the clocks of the assets that wait for it, and the
-- probe that calls it stale. Times and periods are whole microseconds of one clock.
pub mod Clocks
pub mod Stale
pub mod Live
pub mod Kept
use agentpit.Prelude.{
  ℕ, ◌+◌, ◌*◌, max, Bool, not, ◌&&◌, ◌||◌, Option, none, some, List, [], ◌∷◌, ◌++◌, map, filter,
  any, is_nil, ltb, if◌then◌else◌,
}
use agentpit.Prelude.Counts.{is_in}
use agentpit.Prelude.Dict.{get, put, nat_eq}
use agentpit.Feed.{MarketRef, MirrorState, Event, set_targets, handle_event, empty_state, has_key}
use agentpit.Engine.{Connection, any_gone, new_assets, rebalance}

-- The engine, with `conns` and `turn` of `run_feed`.
pub record MirrorEngine : Type 0 where
  pub state : MirrorState
  pub conns : List Connection
  pub turn : ℕ
  pub subscribed : List ℕ
  pub subscribed_at : Option ℕ
  pub first_seen : List (ℕ × ℕ)
  pub checking : List ℕ

abbrev pub new_engine : MirrorEngine
new_engine = record {
  state = empty_state;
  conns = [];
  turn = 0;
  subscribed = [];
  subscribed_at = none;
  first_seen = [];
  checking = [];
}

abbrev pub fst_key : {V : Type 0} → ℕ × V → ℕ
fst_key p = p.0

abbrev pub keys : {V : Type 0} → List (ℕ × V) → List ℕ
keys d = map fst_key d

abbrev pub record_subscription : ℕ → List ℕ → MirrorEngine → MirrorEngine
record_subscription now assets e = record e { subscribed = assets; subscribed_at = some now }

-- The connections that are rebuilt, and what the engine notes of it.
resubscribed : ℕ → List ℕ → MirrorEngine → Option (List Connection × ℕ) → Option MirrorEngine
resubscribed now targets e none = none
resubscribed now targets e (some (conns, turn)) =
    some (record_subscription now targets (record e { conns = conns; turn = turn }))

-- The connections follow the targets, where those have changed.
unfoldable pub sync_connections : (ℕ → ℕ) → ℕ → ℕ → MirrorEngine → Option MirrorEngine
unfolding resubscribed
sync_connections clock cap now e =
    let targets = keys e.state.by_asset in
    if any_gone targets e.conns || not (is_nil (new_assets targets e.conns))
    then resubscribed now targets e (rebalance clock cap targets e.conns e.turn)
    else some e

-- The closure checks that a pass starts, for the assets whose books were emptied.
unfoldable pub start_checks : List ℕ → MirrorEngine → MirrorEngine × List MarketRef
start_checks [] e = (e, [])
start_checks (a ∷ assets) e = elim (get e.state.by_asset a) [
  | none ↦ start_checks assets e
  | some ref ↦
      let (e', refs) = start_checks assets (record e { checking = a ∷ e.checking }) in
      (e', ref ∷ refs)
]

abbrev clear_emptied : MirrorEngine → MirrorEngine
clear_emptied e = record e { state = record e.state { emptied = [] } }

-- One turn of `run_feed`, up to its sleep: `none` where its inner loop would not end.
unfoldable pub feed_pass : (ℕ → ℕ) → ℕ → ℕ → MirrorEngine → Option (MirrorEngine × List MarketRef)
unfolding start_checks
feed_pass clock cap now e = elim (sync_connections clock cap now e) [
  | none ↦ none
  | some e' ↦
      let to_check = filter (λ a. not (is_in a e'.checking)) e'.state.emptied in
      let (e'', refs) = start_checks to_check e' in some (clear_emptied e'', refs)
]

-- A target that no connection was told of.
abbrev pub missing : MirrorEngine → List ℕ
missing e = filter (λ a. not (is_in a e.subscribed)) (keys e.state.replicas)

-- `setdefault(asset, now)` of each
unfoldable pub start_clocks : ℕ → List ℕ → List (ℕ × ℕ) → List (ℕ × ℕ)
start_clocks now [] seen = seen
start_clocks now (a ∷ assets) seen =
    start_clocks now assets (if has_key seen a then seen else put a now seen)

unfoldable pub note_targets : ℕ → MirrorEngine → MirrorEngine
unfolding start_clocks
note_targets now e =
    let kept = filter (λ p. is_in p.0 (missing e)) e.first_seen in
    record e { first_seen = start_clocks now (missing e) kept }

abbrev pub threshold : ℕ → ℕ
threshold refresh = max (3 * refresh) 60000000

-- An asset's clock has run for longer than the threshold.
abbrev pub is_overdue : ℕ → ℕ → ℕ × ℕ → Bool
is_overdue refresh now p = ltb (p.1 + threshold refresh) now

unfoldable pub feed_is_stale : ℕ → ℕ → MirrorEngine → Bool × MirrorEngine
unfolding note_targets
feed_is_stale refresh now e =
    let e' = note_targets now e in (any (is_overdue refresh now) e'.first_seen, e')

-- `_refresh_targets`, with the targets that the tables give.
unfoldable pub refresh_targets : ℕ → List MarketRef → MirrorEngine → MirrorEngine
unfolding note_targets
refresh_targets now refs e = note_targets now (record e { state = set_targets refs e.state })

-- What happens to an engine whose feed hangs.
pub data Step : Type 0 where
  refresh : ℕ → List MarketRef → Step
  probe : ℕ → Step
  message : Event → Step

unfoldable pub step : ℕ → Step → MirrorEngine → MirrorEngine
unfolding refresh_targets feed_is_stale
step period (refresh now refs) e = refresh_targets now refs e
step period (probe now) e = (feed_is_stale period now e).1
step period (message ev) e = record e { state = handle_event ev e.state }

unfoldable pub run : ℕ → List Step → MirrorEngine → MirrorEngine
run period [] e = e
run period (s ∷ steps) e = run period steps (step period s e)
