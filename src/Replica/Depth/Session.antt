-- ===== src/Replica/Depth/Session.antt =====
-- liquidity/replica.py: agents that come one after another and share the depth.
use native.Mathlib.Nat.{le_trans}
use agentpit.Prelude.{
  ℕ, ◌+◌, ◌-◌, ◌≤◌, ◌<◌, ◌≡◌, Bool, true, false, List, [], ◌∷◌, ◌++◌, All, arith, if◌then◌else◌,
  eq_bool, Option-cases, inl, inr,
}
use agentpit.Prelude.Dict.{nat_eq, pair_eq, Distinct}
use agentpit.Replica.{BookReplica, Take, UseKey, depth_memory}
use agentpit.Replica.Snapshots.{snapshot, sort_by}
use agentpit.Replica.Snapshots.Sorting.{before, get-sort_by, sort_by-Distinct}
use agentpit.Replica.Depth.{live_taken, take, use_takes}
use agentpit.Replica.Depth.Memory.{
  total_at, live_taken_mono, live_taken-use_takes, use_takes-Distinct,
}
use agentpit.Replica.Depth.Walk.{shown_at, levels_of, take-eq-walk, total_at-walk}

pub record Request : Type 0 where
  pub now : ℕ
  pub ask : Bool
  pub bound : ℕ
  pub size : ℕ

-- Each request takes and then uses what it took, as `place_order` and `sweep` do under their lock.
unfoldable pub serve_all : List Request → BookReplica → List Take
serve_all [] r = []
serve_all (q ∷ qs) r =
    let ts = take q.now q.ask q.bound q.size r in ts ++ serve_all qs (use_takes q.now ts r)

-- The book as the feed left it: two replicas that differ in nothing but their memory.
abbrev shown : UseKey → BookReplica → ℕ
shown k r = shown_at (levels_of k.0 r) k.1

total_at-append :
    (k : UseKey) (xs ys : List Take) → total_at k (xs ++ ys) ≡ total_at k xs + total_at k ys
total_at-append k [] ys = omega arith
total_at-append k (x ∷ xs) ys = ground (arith, total_at-append k xs ys)

levels_of-Distinct :
    (ask : Bool) (r : BookReplica) → Distinct r.bids → Distinct r.asks → Distinct (levels_of ask r)
levels_of-Distinct true r db da = da
levels_of-Distinct false r db da = db

sorted_limit :
    (ask : Bool) (k : UseKey) (r : BookReplica) (n : ℕ)
    → Distinct r.bids
    → Distinct r.asks
    → (if eq_bool ask k.0 then shown_at (sort_by (before ask) (levels_of ask r)) k.1 - n else 0)
      ≤ shown k r - n
sorted_limit true (true, p) r n db da = ground (arith, get-sort_by (before true) r.asks p da)
sorted_limit true (false, p) r n db da = omega arith
sorted_limit false (true, p) r n db da = omega arith
sorted_limit false (false, p) r n db da = ground (arith, get-sort_by (before false) r.bids p db)

-- One request gets at a level no more than is shown and not remembered as taken.
total_at-take :
    (now : ℕ) (ask : Bool) (bound size : ℕ) (r : BookReplica) (k : UseKey)
    → Distinct r.bids
    → Distinct r.asks
    → total_at k (take now ask bound size r) ≤ shown k r - live_taken r.used now k
total_at-take now ask bound size r k db da = elim (Option-cases (snapshot r)) [
  | inl e ↦ unfold take in rw (e, take) (omega arith)
  | inr found ↦
      let sorted = sort_by (before ask) (levels_of ask r) in
      rw (take-eq-walk now ask bound size r found.1) (
        le_trans
          (total_at-walk r.used now ask bound sorted size k
            (sort_by-Distinct (before ask) (levels_of ask r) (levels_of-Distinct ask r db da)))
          (sorted_limit ask k r (live_taken r.used now k) db da))
]

-- The requests come at times from `start` on, while the memory of the first still lasts.
abbrev pub Within : ℕ → Request → Type 0
Within start q = (start ≤ q.now) × (q.now < start + depth_memory)

serve_all_bound :
    (start : ℕ) (k : UseKey) (before_now : ℕ) (qs : List Request) (r : BookReplica)
    → Distinct r.bids
    → Distinct r.asks
    → Distinct r.used
    → All (Within start) qs
    → before_now ≤ shown k r
    → before_now ≤ live_taken r.used (start + depth_memory - 1) k
    → before_now + total_at k (serve_all qs r) ≤ shown k r
unfolding serve_all use_takes
serve_all_bound start k n [] r db da du w fits held = omega arith
serve_all_bound start k n (q ∷ qs) r db da du w fits held =
    let ts = take q.now q.ask q.bound q.size r in
    let last = start + depth_memory - 1 in
    let got : total_at k ts ≤ shown k r - live_taken r.used q.now k =
      total_at-take q.now q.ask q.bound q.size r k db da in
    let kept = live_taken-use_takes q.now last ts r k du (omega arith) (omega arith) in
    let older = live_taken_mono r.used k q.now last (omega arith) in
    let rest =
      serve_all_bound start k (n + total_at k ts) qs (use_takes q.now ts r) db da
        (use_takes-Distinct q.now ts r du) w.1 (omega arith) (omega arith) in
    omega (arith, total_at-append k ts (serve_all qs (use_takes q.now ts r)))

-- From a replica that has no price and no memory key twice, however many requests are served
-- within the memory's time, and whatever was remembered before, together they get no more of a
-- level than the book shows there.
pub serve_all_no_oversell :
    (start : ℕ) (k : UseKey) (qs : List Request) (r : BookReplica)
    → Distinct r.bids
    → Distinct r.asks
    → Distinct r.used
    → All (Within start) qs
    → total_at k (serve_all qs r) ≤ shown_at (levels_of k.0 r) k.1
serve_all_no_oversell start k qs r db da du w =
    omega (arith, serve_all_bound start k 0 qs r db da du w (omega arith) (omega arith))
