-- ===== src/Feed/Events.antt =====
-- What the feed's events do to the mirror.
use agentpit.Prelude.{
  ℕ, ◌≤◌, ◌≡◌, refl, Bool, true, false, not, ◌&&◌, Option, none, some, List, [], ◌∷◌, any, length,
  ◌∙◌, length-append, ==_iff, arith, if◌then◌else◌, Option-cases, inl, inr, Bool-cases,
}
use agentpit.Prelude.Dict.{get, nat_eq, get-put, put-Distinct, put-Entries, get-Entries}
use agentpit.Replica.{
  BookReplica, PriceChange, BookMessage, apply_book, apply_price_change_entry, is_id, clean_levels,
}
use agentpit.Replica.Valid.{IsValid, apply_book-IsValid, apply_price_change_entry-IsValid}
use agentpit.Feed.{
  MirrorState, Event, book, price_change, last_trade_price, other, ChangeEntry, not_object, object,
  TradeEvent, max_trades, has_key, has_levels, add_once, on_replica, note_update, handle_change,
  handle_changes, append_trade, handle_event,
}
use agentpit.Feed.Targets.{IsMirror, OfAsset}

-- The asset of a replica never changes.
asset-apply_book :
    (msg : BookMessage) (r : BookReplica) → (apply_book msg r).1.asset_id ≡ r.asset_id
unfolding apply_book
asset-apply_book msg r = ground arith

asset-apply_price_change_entry :
    (entry : PriceChange) (r : BookReplica)
    → (apply_price_change_entry entry r).1.asset_id ≡ r.asset_id
unfolding apply_price_change_entry
asset-apply_price_change_entry entry r = ground arith

note_update-IsMirror :
    (a : ℕ) (old : BookReplica) (res : Bool × BookReplica) (s : MirrorState)
    → IsMirror s
    → get s.replicas a ≡ some old
    → OfAsset a res.1
    → IsMirror (note_update a old res s)
note_update-IsMirror a old (applied, r) s v e h = record {
  distinct = put-Distinct a r s.replicas v.distinct;
  replicas = put-Entries OfAsset a r s.replicas v.replicas h;
  targets = λ b. ground (arith, get-put a b r s.replicas, v.targets b, ==_iff a b);
  tokens = v.tokens;
  trades = v.trades;
}

-- An update of a replica that keeps its asset and its validity keeps the mirror's.
on_replica-IsMirror :
    (key : Option ℕ) (f : BookReplica → Bool × BookReplica) (s : MirrorState)
    → ((r : BookReplica) → (f r).1.asset_id ≡ r.asset_id)
    → ((r : BookReplica) → IsValid r → IsValid (f r).1)
    → IsMirror s
    → IsMirror (on_replica key f s)
on_replica-IsMirror none f s same keep v = v
on_replica-IsMirror (some a) f s same keep v = elim (Option-cases (get s.replicas a)) [
  | inl e ↦ rw (e, on_replica) v
  | inr found ↦
      let r = found.0 in
      let of_asset = get-Entries OfAsset a r s.replicas v.replicas found.1 in
      rw (found.1, on_replica)
        (note_update-IsMirror a r (f r) s v found.1 (same r ∙ of_asset.0, keep r of_asset.1))
]

handle_change-IsMirror :
    (e : ChangeEntry) (s : MirrorState) → IsMirror s → IsMirror (handle_change e s)
unfolding handle_change
handle_change-IsMirror not_object s v = v
handle_change-IsMirror (object entry) s v =
    on_replica-IsMirror entry.asset_id (apply_price_change_entry entry) s
      (asset-apply_price_change_entry entry) (apply_price_change_entry-IsValid entry) v

handle_changes-IsMirror :
    (es : List ChangeEntry) (s : MirrorState) → IsMirror s → IsMirror (handle_changes es s)
unfolding handle_changes
handle_changes-IsMirror [] s v = v
handle_changes-IsMirror (e ∷ es) s v =
    handle_changes-IsMirror es (handle_change e s) (handle_change-IsMirror e s v)

length-append_trade :
    (ev : TradeEvent) (ts : List TradeEvent)
    → length ts ≤ max_trades
    → length (append_trade ev ts) ≤ max_trades
unfolding append_trade
length-append_trade ev [] h = omega arith
length-append_trade ev (t ∷ ts) h =
    ground (arith, length-append (t ∷ ts) (ev ∷ []), length-append ts (ev ∷ []))

-- Every event keeps the mirror's invariant.
pub handle_event-IsMirror :
    (ev : Event) (s : MirrorState) → IsMirror s → IsMirror (handle_event ev s)
unfolding handle_event
handle_event-IsMirror (book msg) s v =
    on_replica-IsMirror msg.asset_id (apply_book msg) s (asset-apply_book msg)
      (apply_book-IsValid msg) v
handle_event-IsMirror (price_change es) s v = handle_changes-IsMirror es s v
handle_event-IsMirror (last_trade_price ev) s v = elim (Option-cases ev.asset_id) [
  | inl e ↦ rw e v
  | inr found ↦ rw found.1 (elim (Bool-cases (has_key s.by_asset found.0)) [
    | inl known ↦ rw known (record {
      distinct = v.distinct;
      replicas = v.replicas;
      targets = v.targets;
      tokens = v.tokens;
      trades = length-append_trade ev s.trades v.trades;
    })
    | inr unknown ↦ rw unknown v
  ])
]
handle_event-IsMirror other s v = v

abbrev entry_names : ℕ → ChangeEntry → Bool
entry_names a not_object = false
entry_names a (object entry) = is_id entry.asset_id a

-- Whether an event names an asset whose book it may change.
abbrev pub names : ℕ → Event → Bool
names a (book msg) = is_id msg.asset_id a
names a (price_change es) = any (entry_names a) es
names a _ = false

on_replica_others :
    (key : Option ℕ) (f : BookReplica → Bool × BookReplica) (s : MirrorState) (a : ℕ)
    → is_id key a ≡ false
    → get (on_replica key f s).replicas a ≡ get s.replicas a
on_replica_others none f s a h = refl
on_replica_others (some b) f s a h = elim (Option-cases (get s.replicas b)) [
  | inl e ↦ rw (e, on_replica) refl
  | inr found ↦ rw (found.1, on_replica) (ground (arith, get-put b a (f found.0).1 s.replicas))
]

handle_change_others :
    (e : ChangeEntry) (s : MirrorState) (a : ℕ)
    → entry_names a e ≡ false
    → get (handle_change e s).replicas a ≡ get s.replicas a
unfolding handle_change
handle_change_others not_object s a h = refl
handle_change_others (object entry) s a h =
    on_replica_others entry.asset_id (apply_price_change_entry entry) s a h

handle_changes_others :
    (es : List ChangeEntry) (s : MirrorState) (a : ℕ)
    → any (entry_names a) es ≡ false
    → get (handle_changes es s).replicas a ≡ get s.replicas a
unfolding handle_changes
handle_changes_others [] s a h = refl
handle_changes_others (e ∷ es) s a h =
    handle_changes_others es (handle_change e s) a (ground arith)
    ∙ handle_change_others e s a (ground arith)

-- An event changes no book but those of the assets that it names.
handle_event_others :
    (ev : Event) (s : MirrorState) (a : ℕ)
    → names a ev ≡ false
    → get (handle_event ev s).replicas a ≡ get s.replicas a
unfolding handle_event
handle_event_others (book msg) s a h = on_replica_others msg.asset_id (apply_book msg) s a h
handle_event_others (price_change es) s a h = handle_changes_others es s a h
handle_event_others (last_trade_price ev) s a h = ground arith
handle_event_others other s a h = refl

-- In a mirror that keeps its invariant, a book message for a target replaces its book by the
-- levels of the message that are kept, and notes the asset as emptied exactly when the book had
-- levels and has none now.
handle_book :
    (msg : BookMessage) (s : MirrorState) {a : ℕ} {r : BookReplica}
    → IsMirror s
    → msg.asset_id ≡ some a
    → get s.replicas a ≡ some r
    → let s' = handle_event (book msg) s in
      let r' = record r {
        bids = clean_levels msg.bids;
        asks = clean_levels msg.asks;
        seeded = true;
      } in
      (get s'.replicas a ≡ some r')
      × (s'.emptied
          ≡ (if has_levels r && not (has_levels r') then add_once a s.emptied else s.emptied))
unfolding handle_event apply_book
handle_book msg s {a} {r} v names_it found =
    let same = (get-Entries OfAsset a r s.replicas v.replicas found).0 in
    rw (names_it, found, on_replica)
      (
        ground (
          arith,
          get-put a a (apply_book msg r).1 s.replicas,
          same,
          ==_iff a a,
          ==_iff r.asset_id a,
        ),
        ground (arith, same, ==_iff a a),
      )

by_asset-on_replica :
    (key : Option ℕ) (f : BookReplica → Bool × BookReplica) (s : MirrorState)
    → (on_replica key f s).by_asset ≡ s.by_asset
by_asset-on_replica key f s = ground arith

by_asset-handle_changes :
    (es : List ChangeEntry) (s : MirrorState) → (handle_changes es s).by_asset ≡ s.by_asset
unfolding handle_changes handle_change
by_asset-handle_changes [] s = refl
by_asset-handle_changes (e ∷ es) s = by_asset-handle_changes es (handle_change e s) ∙ ground arith

-- An event changes no target.
pub by_asset-handle_event :
    (ev : Event) (s : MirrorState) → (handle_event ev s).by_asset ≡ s.by_asset
unfolding handle_event
by_asset-handle_event (book msg) s = by_asset-on_replica msg.asset_id (apply_book msg) s
by_asset-handle_event (price_change es) s = by_asset-handle_changes es s
by_asset-handle_event (last_trade_price ev) s = ground arith
by_asset-handle_event other s = refl
