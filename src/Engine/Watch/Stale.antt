-- ===== src/Engine/Watch/Stale.antt =====
-- When the probe calls the feed stale.
use agentpit.Prelude.{
  ℕ, ◌+◌, ◌<◌, ◌≡◌, refl, Bool, true, false, none, some, List, [], ◌∷◌, any, All, ==_iff, arith,
}
use agentpit.Prelude.Counts.{is_in}
use agentpit.Prelude.Dict.{get, nat_eq, Distinct}
use agentpit.Feed.{MarketRef, MirrorState, has_key, set_targets}
use agentpit.Feed.Targets.{IsMirror, is_target, set_targets-IsMirror, set_targets_replicas}
use agentpit.Feed.Events.{handle_event-IsMirror, by_asset-handle_event}
use agentpit.Engine.Watch.{
  MirrorEngine, Step, refresh, probe, message, threshold, is_overdue, note_targets, feed_is_stale,
  refresh_targets, step, run,
}
use agentpit.Engine.Watch.Clocks.{or_now, note_targets_clock, note_targets-Distinct}

-- The asset has been a target without subscription since `t`, as the engine knows.
record IsWaiting (a t : ℕ) (e : MirrorEngine) : Type 0 where
  mirror : IsMirror e.state
  target : has_key e.state.by_asset a ≡ true
  unsubscribed : is_in a e.subscribed ≡ false
  clocks : Distinct e.first_seen
  since : get e.first_seen a ≡ some t

-- A step after which the asset is a target still.
abbrev pub KeepsTarget : ℕ → Step → Type 0
KeepsTarget a (refresh now refs) = is_target refs a ≡ true
KeepsTarget a (probe now) = Unit
KeepsTarget a (message ev) = Unit

-- A target without subscription waits since its clock's time, or since now.
waits_from :
    (now a t : ℕ) (e : MirrorEngine)
    → IsMirror e.state
    → has_key e.state.by_asset a ≡ true
    → is_in a e.subscribed ≡ false
    → Distinct e.first_seen
    → or_now now (get e.first_seen a) ≡ t
    → IsWaiting a t (note_targets now e)
unfolding note_targets
waits_from now a t e mirror target out clocks at = record {
  mirror = mirror;
  target = target;
  unsubscribed = out;
  clocks = note_targets-Distinct now e clocks;
  since = ground (arith, note_targets_clock now e a clocks, mirror.targets a);
}

note_targets-IsWaiting :
    (now a t : ℕ) (e : MirrorEngine) → IsWaiting a t e → IsWaiting a t (note_targets now e)
note_targets-IsWaiting now a t e w =
    waits_from now a t e w.mirror w.target w.unsubscribed w.clocks (rw w.since refl)

target-set_targets :
    (refs : List MarketRef) (s : MirrorState) (a : ℕ)
    → IsMirror s
    → is_target refs a ≡ true
    → has_key (set_targets refs s).by_asset a ≡ true
target-set_targets refs s a v keeps =
    ground (arith, set_targets_replicas refs s a v, (set_targets-IsMirror refs s v).targets a)

step-IsWaiting :
    (period a t : ℕ) (s : Step) (e : MirrorEngine)
    → KeepsTarget a s
    → IsWaiting a t e
    → IsWaiting a t (step period s e)
unfolding step feed_is_stale refresh_targets
step-IsWaiting period a t (refresh now refs) e keeps w =
    note_targets-IsWaiting now a t (record e { state = set_targets refs e.state })
      (record {
        mirror = set_targets-IsMirror refs e.state w.mirror;
        target = target-set_targets refs e.state a w.mirror keeps;
        unsubscribed = w.unsubscribed;
        clocks = w.clocks;
        since = w.since;
      })
step-IsWaiting period a t (probe now) e keeps w = note_targets-IsWaiting now a t e w
step-IsWaiting period a t (message ev) e keeps w = record {
  mirror = handle_event-IsMirror ev e.state w.mirror;
  target = ground (arith, by_asset-handle_event ev e.state, w.target);
  unsubscribed = w.unsubscribed;
  clocks = w.clocks;
  since = w.since;
}

run-IsWaiting :
    (period a t : ℕ) (steps : List Step) (e : MirrorEngine)
    → All (KeepsTarget a) steps
    → IsWaiting a t e
    → IsWaiting a t (run period steps e)
unfolding run
run-IsWaiting period a t [] e keeps w = w
run-IsWaiting period a t (s ∷ steps) e keeps w =
    run-IsWaiting period a t steps (step period s e) keeps.1
      (step-IsWaiting period a t s e keeps.0 w)

any-get :
    (p : ℕ × ℕ → Bool) (d : List (ℕ × ℕ)) (a t : ℕ)
    → get d a ≡ some t
    → p (a, t) ≡ true
    → any p d ≡ true
unfolding get
any-get p [] a t e h = absurd cc
any-get p ((b, u) ∷ d) a t e h = ground (arith, any-get p d a t, ==_iff b a)

-- A feed that hangs is noticed. In an engine whose mirror keeps its invariant and whose clocks
-- stand under different assets, an asset that is not subscribed and has no clock becomes a
-- target at `t`; whatever events, refreshes that keep it a target and probes follow without a
-- pass of the feed, a probe later than `t` by more than the threshold calls the feed stale.
pub hung-feed_is_stale :
    (period a t now : ℕ) (refs : List MarketRef) (steps : List Step) (e : MirrorEngine)
    → IsMirror e.state
    → Distinct e.first_seen
    → get e.first_seen a ≡ none
    → is_in a e.subscribed ≡ false
    → All (KeepsTarget a) (refresh t refs ∷ steps)
    → t + threshold period < now
    → (feed_is_stale period now (run period (refresh t refs ∷ steps) e)).0 ≡ true
unfolding run step feed_is_stale refresh_targets
hung-feed_is_stale period a t now refs steps e v clocks fresh out keeps late =
    let noted = record e { state = set_targets refs e.state } in
    let start =
      waits_from t a t noted (set_targets-IsMirror refs e.state v)
        (target-set_targets refs e.state a v keeps.0) out clocks (rw fresh refl) in
    let w =
      note_targets-IsWaiting now a t (run period steps (note_targets t noted))
        (run-IsWaiting period a t steps (note_targets t noted) keeps.1 start) in
    any-get (is_overdue period now) _ a t w.since (ground arith)
