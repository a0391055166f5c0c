-- ===== src/Replica/Snapshots/Views.antt =====
-- What a snapshot shows of its replica.
use agentpit.Prelude.{
  ℕ, ◌≤◌, ◌<◌, ◌≡◌, refl, true, false, some, [], ◌∷◌, min, max, leb, arith, Bool-cases, inl, inr,
  ◌⊎◌, ◌↔◌, ◌==◌, sym, ◌∙◌,
}
use agentpit.Prelude.Dict.{get, nat_eq, Distinct, Entries, get-Entries}
use agentpit.Replica.{Side, BookReplica, BookSnapshot}
use agentpit.Replica.Snapshots.{level_lt, level_gt, sort_by, max_from, min_from, crossed, snapshot}
use agentpit.Replica.Snapshots.Sorting.{BestFirst, sort_by-BestFirst, get-sort_by}

max_from-le : (m : ℕ) (d : Side) → (m ≤ max_from m d) × Entries (λ p s. p ≤ max_from m d) d
unfolding max_from
max_from-le m [] = (omega arith, tt)
max_from-le m ((p, s) ∷ d) = let (a, b) = max_from-le (max m p) d in (omega arith, (omega arith, b))

min_from-le : (m : ℕ) (d : Side) → (min_from m d ≤ m) × Entries (λ p s. min_from m d ≤ p) d
unfolding min_from
min_from-le m [] = (omega arith, tt)
min_from-le m ((p, s) ∷ d) = let (a, b) = min_from-le (min m p) d in (omega arith, (omega arith, b))

uncrossed :
    (bids asks : Side) (p s q t : ℕ)
    → crossed bids asks ≡ false
    → get bids p ≡ some s
    → get asks q ≡ some t
    → p < q
unfolding crossed get
uncrossed [] asks p s q t h b a = cc
uncrossed (x ∷ bids) [] p s q t h b a = cc
uncrossed (x ∷ bids) (y ∷ asks) p s q t h b a =
    let top = max_from-le x.0 bids in
    let low = min_from-le y.0 asks in
    let p-le = get-Entries (λ n _. n ≤ max_from x.0 bids) p s (x ∷ bids) (top.0, top.1) b in
    let q-le = get-Entries (λ n _. min_from y.0 asks ≤ n) q t (y ∷ asks) (low.0, low.1) a in
    ground arith

-- A snapshot shows exactly the replica's levels, each side best price first, and no bid reaches an
-- ask.
pub record Shows (r : BookReplica) (b : BookSnapshot) : Type 0 where
  pub asset : b.asset_id ≡ r.asset_id
  pub bids : (p : ℕ) → get b.bids p ≡ get r.bids p
  pub asks : (p : ℕ) → get b.asks p ≡ get r.asks p
  pub best_bid : BestFirst false b.bids
  pub best_ask : BestFirst true b.asks
  pub uncrossed : (p s q t : ℕ) → get b.bids p ≡ some s → get b.asks q ≡ some t → p < q

abbrev sorted_view : BookReplica → BookSnapshot
sorted_view r = record {
  asset_id = r.asset_id;
  bids = sort_by level_gt r.bids;
  asks = sort_by level_lt r.asks;
}

-- A replica that has no price twice and has a snapshot is seeded; the snapshot shows exactly its
-- levels, each side best price first, and no bid reaches an ask.
pub snapshot-Shows :
    (r : BookReplica) {b : BookSnapshot}
    → Distinct r.bids
    → Distinct r.asks
    → snapshot r ≡ some b
    → (r.seeded ≡ true) × Shows r b
unfolding snapshot
snapshot-Shows r {b} db da e = elim (Bool-cases (crossed r.bids r.asks)) [
  | inl yes_crossed ↦ absurd (ground arith)
  | inr apart ↦
      let shown : b ≡ sorted_view r = ground arith in
      (
        ground arith,
        rw shown (record {
          asset = refl;
          bids = λ p. get-sort_by level_gt r.bids p db;
          asks = λ p. get-sort_by level_lt r.asks p da;
          best_bid = sort_by-BestFirst false r.bids;
          best_ask = sort_by-BestFirst true r.asks;
          uncrossed = λ p s q t x y.
              uncrossed r.bids r.asks p s q t apart (sym (get-sort_by level_gt r.bids p db) ∙ x)
                (sym (get-sort_by level_lt r.asks q da) ∙ y);
        }),
      )
]

-- The level at the head of a side is found, whatever stands behind it.
get-head :
    (p s q : ℕ) (d : Side) → (t : ℕ) × (get d q ≡ some t) → (t : ℕ) × (get ((p, s) ∷ d) q ≡ some t)
unfolding get
get-head p s q d (t, e) = elim (Bool-cases (p == q)) [
  | inl same ↦ (s, rw same refl)
  | inr other ↦ (t, rw other e)
]

max_from-attained :
    (m : ℕ) (d : Side) → (max_from m d ≡ m) ⊎ ((t : ℕ) × (get d (max_from m d) ≡ some t))
unfolding max_from get
max_from-attained m [] = inl refl
max_from-attained m ((p, s) ∷ d) = elim (max_from-attained (max m p) d) [
  | inl e ↦ (elim (Bool-cases (leb p m)) [
    | inl le ↦ inl (ground arith)
    | inr gt ↦ inr (s, ground arith)
  ])
  | inr found ↦ inr (get-head p s _ d found)
]

min_from-attained :
    (m : ℕ) (d : Side) → (min_from m d ≡ m) ⊎ ((t : ℕ) × (get d (min_from m d) ≡ some t))
unfolding min_from get
min_from-attained m [] = inl refl
min_from-attained m ((p, s) ∷ d) = elim (min_from-attained (min m p) d) [
  | inl e ↦ (elim (Bool-cases (leb m p)) [
    | inl le ↦ inl (ground arith)
    | inr gt ↦ inr (s, ground arith)
  ])
  | inr found ↦ inr (get-head p s _ d found)
]

max-level : (m s : ℕ) (d : Side) → (t : ℕ) × (get ((m, s) ∷ d) (max_from m d) ≡ some t)
unfolding get
max-level m s d = elim (max_from-attained m d) [
  | inl e ↦ (s, rw e (ground arith))
  | inr found ↦ get-head m s _ d found
]

min-level : (m s : ℕ) (d : Side) → (t : ℕ) × (get ((m, s) ∷ d) (min_from m d) ≡ some t)
unfolding get
min-level m s d = elim (min_from-attained m d) [
  | inl e ↦ (s, rw e (ground arith))
  | inr found ↦ get-head m s _ d found
]

-- Where no bid reaches an ask, the sides do not count as crossed.
apart-crossed :
    (bids asks : Side)
    → ((p s q t : ℕ) → get bids p ≡ some s → get asks q ≡ some t → p < q)
    → crossed bids asks ≡ false
unfolding crossed
apart-crossed [] asks h = refl
apart-crossed (x ∷ bids) [] h = refl
apart-crossed (x ∷ bids) (y ∷ asks) h =
    let (s, top) = max-level x.0 x.1 bids in
    let (t, low) = min-level y.0 y.1 asks in ground (arith, h _ s _ t top low)

-- A replica has a snapshot exactly when it is seeded and no bid reaches an ask.
snapshot_exists :
    (r : BookReplica)
    → ((b : BookSnapshot) × (snapshot r ≡ some b)) ↔ (
        (r.seeded ≡ true) × ((p s q t : ℕ) → get r.bids p ≡ some s → get r.asks q ≡ some t → p < q))
unfolding snapshot
snapshot_exists r = (
  λ (b, e). elim (Bool-cases (crossed r.bids r.asks)) [
    | inl c ↦ absurd (ground arith)
    | inr c ↦ (ground arith, λ p s q t x y. uncrossed r.bids r.asks p s q t c x y)
  ],
  λ (seeded, apart). (sorted_view r, rw (seeded, apart-crossed r.bids r.asks apart) refl),
)
