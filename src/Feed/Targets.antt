-- ===== src/Feed/Targets.antt =====
-- What a new set of targets does to the replicas.
use agentpit.Prelude.{
  ℕ, ◌≤◌, ◌≡◌, refl, Bool, true, not, ◌&&◌, ◌||◌, Option, none, some, List, [], ◌∷◌, map, any,
  length, ◌==◌, ==_iff, arith, if◌then◌else◌, All, Bool-cases, Option-cases, inl, inr, ◌∙◌,
}
use agentpit.Prelude.Dict.{
  get, put, remove, nat_eq, Distinct, Entries, get-put, get-remove, put-Distinct, remove-Distinct,
  put-Entries, remove-Entries, get-Entries,
}
use agentpit.Replica.{BookReplica, new_replica}
use agentpit.Replica.Valid.{IsValid, here, new_replica-IsValid}
use agentpit.Feed.{
  MarketRef, MirrorState, max_trades, empty_state, dict_from, has_key, drop_old, add_new,
  token_pairs, asset_pair, assets_of, set_targets, quote, new_state,
}

pub has_key-dict_from :
    {V : Type 0} (l d : List (ℕ × V)) (k : ℕ)
    → has_key (dict_from l d) k ≡ (any (λ p. p.0 == k) l || has_key d k)
unfolding dict_from
has_key-dict_from [] d k = refl
has_key-dict_from ((j, v) ∷ l) d k =
    ground (arith, has_key-dict_from l (put j v d) k, get-put j k v d)

get-drop_old :
    (new old : List (ℕ × MarketRef)) (reps : List (ℕ × BookReplica)) (k : ℕ)
    → get (drop_old new old reps) k
      ≡ (if has_key old k && not (has_key new k) then none else get reps k)
unfolding drop_old get
get-drop_old new [] reps k = refl
get-drop_old new ((a, r) ∷ old) reps k = ground (
  arith,
  get-drop_old new old (if has_key new a then reps else remove a reps) k,
  get-remove a k reps,
  ==_iff a k,
)

get-add_new :
    (old new : List (ℕ × MarketRef)) (reps : List (ℕ × BookReplica)) (k : ℕ)
    → get (add_new old new reps) k
      ≡ (if has_key new k && not (has_key old k) then some (new_replica k) else get reps k)
unfolding add_new get
get-add_new old [] reps k = refl
get-add_new old ((a, r) ∷ new) reps k = ground (
  arith,
  get-add_new old new (if has_key old a then reps else put a (new_replica a) reps) k,
  get-put a k (new_replica a) reps,
  ==_iff a k,
)

any-map :
    (refs : List MarketRef) (k : ℕ)
    → any (λ p. p.0 == k) (map asset_pair refs) ≡ any (λ r. r.pm_yes_token == k) refs
any-map [] k = refl
any-map (r ∷ refs) k = ground (arith, any-map refs k)

-- Whether an asset is one of the targets.
abbrev pub is_target : List MarketRef → ℕ → Bool
is_target refs k = any (λ r. r.pm_yes_token == k) refs

has_key-assets_of : (refs : List MarketRef) (k : ℕ) → has_key (assets_of refs) k ≡ is_target refs k
unfolding get
has_key-assets_of refs k =
    ground (arith, has_key-dict_from (map asset_pair refs) [] k, any-map refs k)

-- What stands under a key: a replica of that asset, in a valid state.
abbrev pub OfAsset : ℕ → BookReplica → Type 0
OfAsset a r = (r.asset_id ≡ a) × IsValid r

-- Every target has a replica of its asset and no other asset has one; every known token belongs to
-- a target; the tape's queue is bounded.
pub record IsMirror (s : MirrorState) : Type 0 where
  pub distinct : Distinct s.replicas
  pub replicas : Entries OfAsset s.replicas
  pub targets : (a : ℕ) → has_key s.replicas a ≡ has_key s.by_asset a
  pub tokens : Entries (λ t e. has_key s.by_asset e.0.pm_yes_token ≡ true) s.by_token
  pub trades : length s.trades ≤ max_trades

abbrev pub or_new : ℕ → Option BookReplica → BookReplica
or_new a none = new_replica a
or_new a (some r) = r

-- In a mirror that keeps its invariant, a target that stays keeps its replica, with the depth
-- taken from it; a new one starts empty; an asset that is no target has none.
pub set_targets_replicas :
    (refs : List MarketRef) (s : MirrorState) (a : ℕ)
    → IsMirror s
    → get (set_targets refs s).replicas a
      ≡ (if is_target refs a then some (or_new a (get s.replicas a)) else none)
unfolding set_targets
set_targets_replicas refs s a v = ground (
  arith,
  get-add_new s.by_asset (assets_of refs) (drop_old (assets_of refs) s.by_asset s.replicas) a,
  get-drop_old (assets_of refs) s.by_asset s.replicas a,
  has_key-assets_of refs a,
  v.targets a,
)

module _ {V : Type 0} (P : ℕ → V → Type 0) where
  dict_from-Entries : (l d : List (ℕ × V)) → Entries P l → Entries P d → Entries P (dict_from l d)
  unfolding dict_from
  dict_from-Entries [] d hl hd = hd
  dict_from-Entries ((k, v) ∷ l) d hl hd =
      dict_from-Entries l (put k v d) hl.1 (put-Entries P k v d hd hl.0)

drop_old-Entries :
    (new old : List (ℕ × MarketRef)) (reps : List (ℕ × BookReplica))
    → Distinct reps
    → Entries OfAsset reps
    → Distinct (drop_old new old reps) × Entries OfAsset (drop_old new old reps)
unfolding drop_old
drop_old-Entries new [] reps d h = (d, h)
drop_old-Entries new ((a, r) ∷ old) reps d h = elim (Bool-cases (has_key new a)) [
  | inl there ↦ rw there (drop_old-Entries new old reps d h)
  | inr gone ↦ rw gone (
      drop_old-Entries new old (remove a reps) (remove-Distinct a reps d)
        (remove-Entries OfAsset a reps h))
]

new_replica-OfAsset : (a : ℕ) → OfAsset a (new_replica a)
new_replica-OfAsset a = (refl, new_replica-IsValid a here)

add_new-Entries :
    (old new : List (ℕ × MarketRef)) (reps : List (ℕ × BookReplica))
    → Distinct reps
    → Entries OfAsset reps
    → Distinct (add_new old new reps) × Entries OfAsset (add_new old new reps)
unfolding add_new
add_new-Entries old [] reps d h = (d, h)
add_new-Entries old ((a, r) ∷ new) reps d h = elim (Bool-cases (has_key old a)) [
  | inl there ↦ rw there (add_new-Entries old new reps d h)
  | inr fresh ↦ rw fresh (
      add_new-Entries old new (put a (new_replica a) reps) (put-Distinct a (new_replica a) reps d)
        (put-Entries OfAsset a (new_replica a) reps h (new_replica-OfAsset a)))
]

-- A token of `refs` belongs to a target, whatever the list it is looked up in starts with.
token_pairs-Entries :
    (new : List (ℕ × MarketRef)) (refs : List MarketRef)
    → All (λ r. has_key new r.pm_yes_token ≡ true) refs
    → Entries (λ t e. has_key new e.0.pm_yes_token ≡ true) (token_pairs refs)
unfolding token_pairs
token_pairs-Entries new [] h = tt
token_pairs-Entries new (r ∷ refs) h = (h.0, (h.0, token_pairs-Entries new refs h.1))

targets_known :
    (all refs : List MarketRef)
    → ((a : ℕ) → is_target refs a ≡ true → is_target all a ≡ true)
    → All (λ r. has_key (assets_of all) r.pm_yes_token ≡ true) refs
targets_known all [] sub = tt
targets_known all (r ∷ refs) sub = (
  has_key-assets_of all r.pm_yes_token
      ∙ sub r.pm_yes_token (ground (arith, ==_iff r.pm_yes_token r.pm_yes_token)),
  targets_known all refs (λ a h. sub a (ground arith)),
)

-- A new set of targets keeps the mirror's invariant.
pub set_targets-IsMirror :
    (refs : List MarketRef) (s : MirrorState) → IsMirror s → IsMirror (set_targets refs s)
unfolding set_targets
set_targets-IsMirror refs s v =
    let new = assets_of refs in
    let dropped = drop_old-Entries new s.by_asset s.replicas v.distinct v.replicas in
    let added =
      add_new-Entries s.by_asset new (drop_old new s.by_asset s.replicas) dropped.0 dropped.1 in
    record {
      distinct = added.0;
      replicas = added.1;
      targets = λ a. ground (
        arith,
        get-add_new s.by_asset new (drop_old new s.by_asset s.replicas) a,
        get-drop_old new s.by_asset s.replicas a,
        v.targets a,
      );
      tokens =
          dict_from-Entries (λ t e. has_key new e.0.pm_yes_token ≡ true) (token_pairs refs) []
            (token_pairs-Entries new refs (targets_known refs refs (λ a h. h))) tt;
      trades = v.trades;
    }

pub IsMirror-empty : IsMirror empty_state
unfolding get
IsMirror-empty = record {
  distinct = tt;
  replicas = tt;
  targets = λ a. refl;
  tokens = tt;
  trades = omega arith;
}

-- The state that a list of targets starts from.
pub IsMirror-new : (refs : List MarketRef) → IsMirror (new_state refs)
IsMirror-new refs = set_targets-IsMirror refs empty_state IsMirror-empty

-- In a mirror that keeps its invariant, a token that it knows has a quote: its market, and a valid
-- replica of that market's asset.
pub quote_known :
    (token : ℕ) (s : MirrorState) {ref : MarketRef} {yes_token : Bool}
    → IsMirror s
    → get s.by_token token ≡ some (ref, yes_token)
    → (r : BookReplica) × (quote token s ≡ some (ref, yes_token, r)) × OfAsset ref.pm_yes_token r
unfolding quote
quote_known token s {ref} {yes_token} v e =
    let here_key =
      get-Entries (λ t e. has_key s.by_asset e.0.pm_yes_token ≡ true) token (ref, yes_token)
        s.by_token v.tokens e in
    elim (Option-cases (get s.replicas ref.pm_yes_token)) [
      | inl missing ↦ absurd (ground (arith, v.targets ref.pm_yes_token))
      | inr found ↦ (
        found.0,
        ground (arith, found.1),
        get-Entries OfAsset ref.pm_yes_token found.0 s.replicas v.replicas found.1,
      )
    ]
