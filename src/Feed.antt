-- ===== src/Feed.antt =====
-- liquidity/feed.py: the state that the websocket feed writes and the order service reads.
-- Token and asset ids are numbers, compared for equality only; a set is a list with no repeats.
pub mod Targets
pub mod Events
use agentpit.Prelude.{
  ℕ, ◌+◌, ◌-◌, Bool, true, false, not, ◌&&◌, ◌||◌, Option, none, some, List, [], ◌∷◌, ◌++◌, map,
  filter, any, length, is_nil, is_some, ltb, ◌==◌, if◌then◌else◌,
}
use agentpit.Prelude.Dict.{get, put, remove, nat_eq}
use agentpit.Replica.{
  BookReplica, BookSnapshot, BookMessage, PriceChange, Wire, SideField, new_replica, apply_book,
  apply_price_change_entry, flipped,
}
use agentpit.Replica.Snapshots.{snapshot}

pub record MarketRef : Type 0 where
  pub market_id : ℕ
  pub condition_id : ℕ
  pub yes_token : ℕ
  pub no_token : ℕ
  pub pm_yes_token : ℕ
  pub pm_condition : ℕ

-- A `last_trade_price` event, as the tape reads it.
pub record TradeEvent : Type 0 where
  pub asset_id : Option ℕ
  pub price : Wire
  pub size : Wire
  pub side : SideField
  pub timestamp : Option ℕ

-- An entry of `price_changes`, which may be no object.
pub data ChangeEntry : Type 0 where
  not_object : ChangeEntry
  object : PriceChange → ChangeEntry

pub data Event : Type 0 where
  book : BookMessage → Event
  price_change : List ChangeEntry → Event
  last_trade_price : TradeEvent → Event
  other : Event

abbrev pub max_trades : ℕ
max_trades = 10000

pub record MirrorState : Type 0 where
  pub by_asset : List (ℕ × MarketRef)
  pub by_token : List (ℕ × (MarketRef × Bool))
  pub by_market : List (ℕ × MarketRef)
  pub replicas : List (ℕ × BookReplica)
  pub emptied : List ℕ
  pub trades : List TradeEvent

abbrev pub empty_state : MirrorState
empty_state = record {
  by_asset = [];
  by_token = [];
  by_market = [];
  replicas = [];
  emptied = [];
  trades = [];
}

-- `dict(pairs)`
unfoldable pub dict_from : {V : Type 0} → List (ℕ × V) → List (ℕ × V) → List (ℕ × V)
dict_from [] d = d
dict_from ((k, v) ∷ l) d = dict_from l (put k v d)

abbrev pub has_key : {V : Type 0} → List (ℕ × V) → ℕ → Bool
has_key d k = is_some (get d k)

-- Assets that are targets no more lose their replica; `old` is the former `by_asset`.
unfoldable pub drop_old :
    List (ℕ × MarketRef) → List (ℕ × MarketRef) → List (ℕ × BookReplica) → List (ℕ × BookReplica)
drop_old new [] reps = reps
drop_old new ((a, r) ∷ old) reps = drop_old new old (if has_key new a then reps else remove a reps)

-- New targets get an empty one.
unfoldable pub add_new :
    List (ℕ × MarketRef) → List (ℕ × MarketRef) → List (ℕ × BookReplica) → List (ℕ × BookReplica)
add_new old [] reps = reps
add_new old ((a, r) ∷ new) reps =
    add_new old new (if has_key old a then reps else put a (new_replica a) reps)

token_pairs : List MarketRef → List (ℕ × (MarketRef × Bool))
token_pairs [] = []
token_pairs (r ∷ refs) = (r.yes_token, (r, true)) ∷ (r.no_token, (r, false)) ∷ token_pairs refs

abbrev pub asset_pair : MarketRef → ℕ × MarketRef
asset_pair r = (r.pm_yes_token, r)

market_pair : MarketRef → ℕ × MarketRef
market_pair r = (r.market_id, r)

abbrev pub assets_of : List MarketRef → List (ℕ × MarketRef)
assets_of refs = dict_from (map asset_pair refs) []

unfoldable pub set_targets : List MarketRef → MirrorState → MirrorState
unfolding dict_from drop_old add_new token_pairs market_pair
set_targets refs s =
    let new = assets_of refs in
    record s {
      replicas = add_new s.by_asset new (drop_old new s.by_asset s.replicas);
      by_asset = new;
      by_market = dict_from (map market_pair refs) [];
      by_token = dict_from (token_pairs refs) [];
    }

-- `MirrorState(refs)`
abbrev pub new_state : List MarketRef → MirrorState
new_state refs = set_targets refs empty_state

-- `set.add`
abbrev pub add_once : ℕ → List ℕ → List ℕ
add_once a l = if any (λ b. b == a) l then l else a ∷ l

abbrev pub has_levels : BookReplica → Bool
has_levels r = not (is_nil r.bids) || not (is_nil r.asks)

-- What follows an update of the replica `old` under `key`: a book that it emptied is noted.
abbrev pub note_update : ℕ → BookReplica → Bool × BookReplica → MirrorState → MirrorState
note_update key old (applied, r) s = record s {
  replicas = put key r s.replicas;
  emptied =
      if applied && (has_levels old && not (has_levels r))
      then add_once r.asset_id s.emptied
      else s.emptied;
}

-- An update of the replica that a message names, where there is one.
abbrev pub on_replica : Option ℕ → (BookReplica → Bool × BookReplica) → MirrorState → MirrorState
on_replica none f s = s
on_replica (some a) f s = elim (get s.replicas a) [ none ↦ s | some r ↦ note_update a r (f r) s ]

unfoldable pub handle_change : ChangeEntry → MirrorState → MirrorState
handle_change not_object s = s
handle_change (object entry) s = on_replica entry.asset_id (apply_price_change_entry entry) s

unfoldable pub handle_changes : List ChangeEntry → MirrorState → MirrorState
handle_changes [] s = s
handle_changes (e ∷ es) s = handle_changes es (handle_change e s)

-- `deque.append`: at the full length the oldest element leaves.
append_trade : TradeEvent → List TradeEvent → List TradeEvent
append_trade ev [] = ev ∷ []
append_trade ev (t ∷ ts) =
    if ltb (length (t ∷ ts)) max_trades then (t ∷ ts) ++ ev ∷ [] else ts ++ ev ∷ []

unfoldable pub handle_event : Event → MirrorState → MirrorState
unfolding handle_changes handle_change append_trade
handle_event (book msg) s = on_replica msg.asset_id (apply_book msg) s
handle_event (price_change entries) s = handle_changes entries s
handle_event (last_trade_price ev) s = elim ev.asset_id [
  | none ↦ s
  | some a ↦ if has_key s.by_asset a then record s { trades = append_trade ev s.trades } else s
]
handle_event other s = s

-- `quote`, where the house is up: the market of a token, whether it is the YES token, the replica.
unfoldable pub quote : ℕ → MirrorState → Option (MarketRef × Bool × BookReplica)
quote token s = elim (get s.by_token token) [
  | none ↦ none
  | some (ref, yes_token) ↦ (elim (get s.replicas ref.pm_yes_token) [
    | none ↦ none
    | some r ↦ some (ref, yes_token, r)
  ])
]

unfoldable pub book_of : ℕ → MirrorState → Option BookSnapshot
unfolding quote
book_of token s = elim (quote token s) [
  | none ↦ none
  | some (ref, yes_token, r) ↦ (elim (snapshot r) [
    | none ↦ none
    | some b ↦ some (if yes_token then b else flipped b)
  ])
]

abbrev best : List (ℕ × ℕ) → Option ℕ
best [] = none
best ((p, s) ∷ l) = some p

-- `tops([token])[token]`, and `(None, None)` where the token has no entry.
unfoldable pub top_of : ℕ → MirrorState → Option ℕ × Option ℕ
unfolding book_of
top_of token s = elim (book_of token s) [
  | none ↦ (none, none)
  | some b ↦ (best b.bids, best b.asks)
]
