-- ===== src/Engine.antt =====
-- liquidity/mirror.py and the connections of liquidity/feed.py: which connection watches which
-- asset. A set of assets is a list with no repeats; the frames that a connection sends to its
-- socket are not modelled, nor is the loop that reads it.
pub mod Counts
pub mod Turns
pub mod Places
pub mod Room
pub mod Balance
pub mod Watch
pub mod Tape
pub mod Closure
use agentpit.Prelude.{
  ℕ, zero, suc, ◌+◌, ◌*◌, ◌%◌, Bool, true, false, not, ◌&&◌, ◌||◌, Option, none, some, List, [],
  ◌∷◌, ◌++◌, map, filter, any, length, is_nil, ltb, ◌==◌, if◌then◌else◌,
}
use agentpit.Prelude.Counts.{is_in}
use agentpit.Prelude.Dict.{get, put, remove, nat_eq}
use agentpit.Feed.{add_once}

pub record Connection : Type 0 where
  pub assets : List ℕ
  pub awaiting : List (ℕ × ℕ)

-- `FeedConnection(...)`
abbrev pub new_connection : Connection
new_connection = record { assets = []; awaiting = [] }

-- `set.update`
unfoldable pub add_all : List ℕ → List ℕ → List ℕ
add_all [] set = set
add_all (a ∷ l) set = add_all l (add_once a set)

await_from : ℕ → List ℕ → List (ℕ × ℕ) → List (ℕ × ℕ)
await_from now [] awaiting = awaiting
await_from now (a ∷ l) awaiting = await_from now l (put a now awaiting)

await_no_more : List ℕ → List (ℕ × ℕ) → List (ℕ × ℕ)
await_no_more [] awaiting = awaiting
await_no_more (a ∷ l) awaiting = await_no_more l (remove a awaiting)

unfoldable pub subscribe : ℕ → List ℕ → Connection → Connection
unfolding await_from
subscribe now l c = record { assets = add_all l c.assets; awaiting = await_from now l c.awaiting }

unfoldable pub unsubscribe : List ℕ → Connection → Connection
unfolding await_no_more
unsubscribe l c = record {
  assets = filter (λ a. not (is_in a l)) c.assets;
  awaiting = await_no_more l c.awaiting;
}

-- `set().union(*(c.assets for c in conns))`
unfoldable pub is_owned : ℕ → List Connection → Bool
is_owned a conns = any (λ c. is_in a c.assets) conns

-- `await conn.unsubscribe(list(conn.assets & gone))`, where `gone` is what the connections own and
-- the targets lack.
unfoldable pub leave_gone : List ℕ → Connection → Connection
unfolding unsubscribe
leave_gone targets c =
    let ours = filter (λ a. not (is_in a targets)) c.assets in
    if is_nil ours then c else unsubscribe ours c

-- `while len(conns) * cap < len(targets)`, as often as the fuel allows.
unfoldable pub add_connections : ℕ → ℕ → ℕ → List Connection → List Connection
add_connections zero cap wanted conns = conns
add_connections (suc fuel) cap wanted conns =
    let more = add_connections fuel cap wanted (conns ++ new_connection ∷ []) in
    if ltb (length conns * cap) wanted then more else conns

-- A connection with its part of the plan.
abbrev pub Planned : Type 0
Planned = Connection × List ℕ

abbrev pub load_of : Planned → ℕ
load_of s = length s.0.assets + length s.1

abbrev pub has_room : ℕ → Planned → Bool
has_room cap s = ltb (load_of s) cap

unfoldable pub slot_at : ℕ → List Planned → Option Planned
slot_at i [] = none
slot_at zero (s ∷ slots) = some s
slot_at (suc i) (s ∷ slots) = slot_at i slots

-- `plan[conn].append(a)`
unfoldable pub append_at : ℕ → ℕ → List Planned → List Planned
append_at i a [] = []
append_at zero a ((c, l) ∷ slots) = (c, l ++ a ∷ []) ∷ slots
append_at (suc i) a (s ∷ slots) = s ∷ append_at i a slots

-- The turn whose connection has room, from `turn` on: `none` where no connection has any, with a
-- fuel of one round.
unfoldable pub find_room : ℕ → ℕ → ℕ → List Planned → Option ℕ
find_room zero cap turn slots = none
find_room (suc fuel) cap turn slots =
    let rest = find_room fuel cap (suc turn) slots in
    elim (slot_at (turn % length slots) slots) [
      | none ↦ none
      | some s ↦ if has_room cap s then some turn else rest
    ]

unfoldable pub place_new : ℕ → ℕ → List Planned → ℕ → Option (List Planned × ℕ)
place_new cap a slots turn = elim (find_room (length slots) cap turn slots) [
  | none ↦ none
  | some t ↦ some (append_at (t % length slots) a slots, suc t)
]

unfoldable pub plan_new : ℕ → List ℕ → List Planned → ℕ → Option (List Planned × ℕ)
plan_new cap [] slots turn = some (slots, turn)
plan_new cap (a ∷ l) slots turn = elim (place_new cap a slots turn) [
  | none ↦ none
  | some (slots', turn') ↦ plan_new cap l slots' turn'
]

-- `await conn.subscribe(assets)` of what is planned; `clock` is the loop's time, read for each.
unfoldable pub subscribe_planned : (ℕ → ℕ) → ℕ → List Planned → List Connection
subscribe_planned clock i [] = []
subscribe_planned clock i ((c, l) ∷ slots) =
    (if is_nil l then c else subscribe (clock i) l c) ∷ subscribe_planned clock (suc i) slots

abbrev pub unplanned : Connection → Planned
unplanned c = (c, [])

abbrev pub new_assets : List ℕ → List Connection → List ℕ
new_assets targets conns = filter (λ a. not (is_owned a conns)) targets

-- `owned.difference(targets)` has an asset.
unfoldable pub any_gone : List ℕ → List Connection → Bool
any_gone targets conns = any (λ c. any (λ a. not (is_in a targets)) c.assets) conns

-- The plan for new targets, over the connections that are left and added, and what comes of it.
unfoldable pub subscribe_new :
    (ℕ → ℕ) → ℕ → List ℕ → List Connection → ℕ → Option (List Connection × ℕ)
subscribe_new clock cap new conns turn = elim (plan_new cap new (map unplanned conns) turn) [
  | none ↦ none
  | some (slots, turn') ↦ some (subscribe_planned clock 0 slots, turn')
]

-- The connections, as a pass of `run_feed` rebuilds them for the targets: `none` where its inner
-- loop would not end.
unfoldable pub rebalance : (ℕ → ℕ) → ℕ → List ℕ → List Connection → ℕ → Option (List Connection × ℕ)
rebalance clock cap targets conns turn =
    let left = map (leave_gone targets) conns in
    let enough = add_connections (length targets) cap (length targets) left in
    subscribe_new clock cap (new_assets targets conns) enough turn
