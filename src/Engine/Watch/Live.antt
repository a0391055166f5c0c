-- ===== src/Engine/Watch/Live.antt =====
-- A pass of the feed keeps the engine's invariant and leaves no target waiting.
use mathlib.Core.Path.{subst}
use agentpit.Prelude.{
  ℕ, ◌≤◌, ◌≡◌, refl, sym, Bool, true, false, not, ◌||◌, none, some, List, [], ◌∷◌, filter, any,
  is_nil, ==_iff, arith, Bool-cases, Option-cases, inl, inr,
}
use agentpit.Prelude.Counts.{count, count-filter, count_nil, is_in, is_in-count}
use agentpit.Prelude.Dict.{get, nat_eq, Distinct}
use agentpit.Feed.{MarketRef}
use agentpit.Feed.Targets.{IsMirror}
use agentpit.Engine.{Connection, is_owned, any_gone, new_assets}
use agentpit.Engine.Places.{watched, Within}
use agentpit.Engine.Balance.{Watches, is_owned-watched, rebalance_lem}
use agentpit.Engine.Watch.{
  MirrorEngine, keys, is_overdue, sync_connections, start_checks, feed_pass, note_targets,
  feed_is_stale,
}
use agentpit.Engine.Watch.Clocks.{is_in-keys, count-keys, note_targets_clock}

-- Between two passes: no asset is on two connections, none of them is over the limit, and the
-- engine knows what they watch.
pub record IsEngine (cap : ℕ) (e : MirrorEngine) : Type 0 where
  pub mirror : IsMirror e.state
  pub targets : Distinct e.state.by_asset
  pub apart : (k : ℕ) → watched k e.conns ≤ 1
  pub within : Within cap e.conns
  pub known : (k : ℕ) → is_in k e.subscribed ≡ is_owned k e.conns
  pub clocks : Distinct e.first_seen

none_outside :
    (targets : List ℕ) (k : ℕ) (l : List ℕ)
    → any (λ a. not (is_in a targets)) l ≡ false
    → is_in k l ≡ true
    → is_in k targets ≡ true
none_outside targets k [] stay own = absurd cc
none_outside targets k (a ∷ l) stay own = ground (arith, none_outside targets k l, ==_iff a k)

-- Where no connection has an asset to leave, what they watch are targets.
any_gone_none :
    (targets : List ℕ) (k : ℕ) (conns : List Connection)
    → any_gone targets conns ≡ false
    → is_owned k conns ≡ true
    → is_in k targets ≡ true
unfolding any_gone is_owned
any_gone_none targets k [] stay own = absurd cc
any_gone_none targets k (c ∷ conns) stay own =
    ground (arith, any_gone_none targets k conns, none_outside targets k c.assets)

-- Targets that leave nothing to do are watched as they should be.
unchanged-Watches :
    (targets : List ℕ) (conns : List Connection)
    → ((k : ℕ) → count k targets ≤ 1)
    → ((k : ℕ) → watched k conns ≤ 1)
    → any_gone targets conns || not (is_nil (new_assets targets conns)) ≡ false
    → Watches targets conns
unchanged-Watches targets conns once apart same k =
    let none_new : is_nil (new_assets targets conns) ≡ true = ground arith in
    let none_gone : any_gone targets conns ≡ false = ground arith in
    ground (
      arith,
      count_nil k (new_assets targets conns) none_new,
      count-filter (λ a. not (is_owned a conns)) k targets,
      any_gone_none targets k conns none_gone,
      is_owned-watched k conns,
      is_in-count k targets,
      once k,
      apart k,
    )

module _ (clock : ℕ → ℕ) (cap now : ℕ) where
  -- The engine that a pass leaves knows that each target is watched.
  sync_connections_lem :
      (e : MirrorEngine)
      → 1 ≤ cap
      → IsEngine cap e
      → (e' : MirrorEngine) × (sync_connections clock cap now e ≡ some e')
        × IsEngine cap e'
        × Watches (keys e'.state.by_asset) e'.conns
  unfolding sync_connections
  sync_connections_lem e some_cap v =
      let targets = keys e.state.by_asset in
      let once = count-keys e.state.by_asset v.targets in
      elim (Bool-cases (any_gone targets e.conns || not (is_nil (new_assets targets e.conns)))) [
        | inl changed ↦
            let (conns, turn, eq, watches, within) =
              rebalance_lem clock cap targets e.conns e.turn some_cap once v.apart v.within in
            (
              record e {
                conns = conns;
                turn = turn;
                subscribed = targets;
                subscribed_at = some now;
              },
              rw (sync_connections, changed, eq) refl,
              record {
                mirror = v.mirror;
                targets = v.targets;
                apart = λ k. ground (arith, watches k, once k);
                within = within;
                known =
                    λ k. ground (arith, watches k, is_in-count k targets, is_owned-watched k conns);
                clocks = v.clocks;
              },
              watches,
            )
        | inr same ↦ (
          e,
          rw (sync_connections, same) refl,
          v,
          unchanged-Watches targets e.conns once v.apart same,
        )
      ]

-- The invariant, with every target watched.
abbrev Synced : ℕ → MirrorEngine → Type 0
Synced cap e = IsEngine cap e × Watches (keys e.state.by_asset) e.conns

checks-Synced :
    (cap : ℕ) (assets : List ℕ) (e : MirrorEngine)
    → Synced cap e
    → Synced cap (start_checks assets e).0
unfolding start_checks
checks-Synced cap [] e h = h
checks-Synced cap (a ∷ assets) e (v, watches) = elim (Option-cases (get e.state.by_asset a)) [
  | inl unknown ↦
      let same : (start_checks (a ∷ assets) e).0 ≡ (start_checks assets e).0 =
        rw (start_checks, unknown) refl in
      subst (Synced cap) (sym same) (checks-Synced cap assets e (v, watches))
  | inr (ref, found) ↦
      let e' = record e { checking = a ∷ e.checking } in
      let v' : IsEngine cap e' = record {
        mirror = v.mirror;
        targets = v.targets;
        apart = v.apart;
        within = v.within;
        known = v.known;
        clocks = v.clocks;
      } in
      let same : (start_checks (a ∷ assets) e).0 ≡ (start_checks assets e').0 =
        rw (start_checks, found) refl in
      subst (Synced cap) (sym same) (checks-Synced cap assets e' (v', watches))
]

cleared-IsEngine :
    (cap : ℕ) (e : MirrorEngine)
    → IsEngine cap e
    → IsEngine cap (record e { state = record e.state { emptied = [] } })
cleared-IsEngine cap e v = record {
  mirror = record {
    distinct = v.mirror.distinct;
    replicas = v.mirror.replicas;
    targets = v.mirror.targets;
    tokens = v.mirror.tokens;
    trades = v.mirror.trades;
  };
  targets = v.targets;
  apart = v.apart;
  within = v.within;
  known = v.known;
  clocks = v.clocks;
}

none_found : (p : ℕ × ℕ → Bool) (d : List (ℕ × ℕ)) → ((a : ℕ) → get d a ≡ none) → any p d ≡ false
unfolding get
none_found p [] empty = refl
none_found p ((a, t) ∷ d) empty = absurd (ground (arith, empty a, ==_iff a a))

-- With all targets watched, and known to be, no probe calls the feed stale.
watched-feed_is_stale :
    (cap period later : ℕ) (e : MirrorEngine)
    → IsEngine cap e
    → Watches (keys e.state.by_asset) e.conns
    → (feed_is_stale period later e).0 ≡ false
unfolding feed_is_stale
watched-feed_is_stale cap period later e v watches =
    none_found (is_overdue period later) (note_targets later e).first_seen (λ a. ground (
      arith,
      note_targets_clock later e a v.clocks,
      v.mirror.targets a,
      is_in-keys a e.state.by_asset,
      is_in-count a (keys e.state.by_asset),
      watches a,
      is_owned-watched a e.conns,
      v.known a,
    ))

-- From an engine that keeps its invariant, with a limit of at least one asset for a connection,
-- a pass of the feed ends; it keeps the invariant; in the engine that it leaves the connections
-- watch each target exactly once and nothing else, and no probe of that engine, at any time,
-- calls the feed stale.
pub feed_pass_lem :
    (clock : ℕ → ℕ) (cap now : ℕ) (e : MirrorEngine)
    → 1 ≤ cap
    → IsEngine cap e
    → (e' : MirrorEngine) × (refs : List MarketRef) × (feed_pass clock cap now e ≡ some (e', refs))
      × IsEngine cap e'
      × Watches (keys e'.state.by_asset) e'.conns
      × ((period later : ℕ) → (feed_is_stale period later e').0 ≡ false)
unfolding feed_pass
feed_pass_lem clock cap now e some_cap v =
    let (e1, eq, v1, w1) = sync_connections_lem clock cap now e some_cap v in
    let to_check = filter (λ a. not (is_in a e1.checking)) e1.state.emptied in
    let (v2, w2) = checks-Synced cap to_check e1 (v1, w1) in
    let e2 = (start_checks to_check e1).0 in
    let v3 = cleared-IsEngine cap e2 v2 in
    (
      record e2 { state = record e2.state { emptied = [] } },
      (start_checks to_check e1).1,
      rw (feed_pass, eq) refl,
      v3,
      w2,
      (λ period later. watched-feed_is_stale cap period later _ v3 w2),
    )
