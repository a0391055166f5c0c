-- ===== src/Engine/Watch/Kept.antt =====
-- What comes between two passes keeps the engine's invariant.
use mathlib.Core.Path.{subst}
use agentpit.Prelude.{ℕ, refl, sym, List, [], ◌∷◌, map, arith}
use agentpit.Prelude.Dict.{put, nat_eq, Distinct, put-Distinct}
use agentpit.Feed.{MirrorState, dict_from, asset_pair, set_targets, handle_event}
use agentpit.Feed.Targets.{IsMirror, IsMirror-empty, set_targets-IsMirror}
use agentpit.Feed.Events.{handle_event-IsMirror, by_asset-handle_event}
use agentpit.Engine.{is_owned}
use agentpit.Engine.Places.{watched}
use agentpit.Engine.Watch.{
  MirrorEngine, Step, refresh, probe, message, new_engine, note_targets, feed_is_stale,
  refresh_targets, step, run,
}
use agentpit.Engine.Watch.Clocks.{note_targets-Distinct}
use agentpit.Engine.Watch.Live.{IsEngine}

dict_from-Distinct : {V : Type 0} (l d : List (ℕ × V)) → Distinct d → Distinct (dict_from l d)
unfolding dict_from
dict_from-Distinct [] d v = v
dict_from-Distinct ((k, x) ∷ l) d v = dict_from-Distinct l (put k x d) (put-Distinct k x d v)

note_targets-IsEngine :
    (cap now : ℕ) (e : MirrorEngine) → IsEngine cap e → IsEngine cap (note_targets now e)
unfolding note_targets
note_targets-IsEngine cap now e v = record {
  mirror = v.mirror;
  targets = v.targets;
  apart = v.apart;
  within = v.within;
  known = v.known;
  clocks = note_targets-Distinct now e v.clocks;
}

-- Another state of the mirror, with a replica for each of its targets.
with_state-IsEngine :
    (cap : ℕ) (s : MirrorState) (e : MirrorEngine)
    → IsMirror s
    → Distinct s.by_asset
    → IsEngine cap e
    → IsEngine cap (record e { state = s })
with_state-IsEngine cap s e mirror targets v = record {
  mirror = mirror;
  targets = targets;
  apart = v.apart;
  within = v.within;
  known = v.known;
  clocks = v.clocks;
}

step-IsEngine :
    (cap period : ℕ) (s : Step) (e : MirrorEngine) → IsEngine cap e → IsEngine cap (step period s e)
unfolding step feed_is_stale refresh_targets set_targets
step-IsEngine cap period (refresh now refs) e v =
    note_targets-IsEngine cap now (record e { state = set_targets refs e.state })
      (with_state-IsEngine cap (set_targets refs e.state) e
        (set_targets-IsMirror refs e.state v.mirror)
        (dict_from-Distinct (map asset_pair refs) [] tt) v)
step-IsEngine cap period (probe now) e v = note_targets-IsEngine cap now e v
step-IsEngine cap period (message ev) e v =
    with_state-IsEngine cap (handle_event ev e.state) e (handle_event-IsMirror ev e.state v.mirror)
      (subst (λ d. Distinct d) (sym (by_asset-handle_event ev e.state)) v.targets) v

-- Refreshes of the targets, messages and probes, in any order, keep the invariant.
pub run-IsEngine :
    (cap period : ℕ) (steps : List Step) (e : MirrorEngine)
    → IsEngine cap e
    → IsEngine cap (run period steps e)
unfolding run
run-IsEngine cap period [] e v = v
run-IsEngine cap period (s ∷ steps) e v =
    run-IsEngine cap period steps (step period s e) (step-IsEngine cap period s e v)

pub new_engine-IsEngine : (cap : ℕ) → IsEngine cap new_engine
unfolding watched is_owned
new_engine-IsEngine cap = record {
  mirror = IsMirror-empty;
  targets = tt;
  apart = λ k. omega arith;
  within = tt;
  known = λ k. refl;
  clocks = tt;
}
