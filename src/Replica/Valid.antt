-- ===== src/Replica/Valid.antt =====
-- liquidity/replica.py: the steps of a replica, and what is kept about its levels.
use agentpit.Prelude.{
  ℕ, zero, suc, ◌%◌, ◌<◌, ◌≡◌, refl, true, false, Option, some, ℤ, pos, List, [], ◌∷◌, arith,
  Bool-cases, inl, inr,
}
use agentpit.Prelude.Dict.{
  put, nat_eq, pair_eq, Distinct, Entries, put-Entries, remove-Entries, put-Distinct,
  remove-Distinct,
}
use agentpit.Replica.{
  is_id, Side, BookReplica, BookMessage, LevelMessage, PriceChange, SideField, buy_side, sell_side,
  Take, micro, tick, on_grid, to_micro, clean_level, clean_from, clean_levels, set_level,
  change_level, new_replica, apply_book, apply_price_change_entry, mark_stale,
}
use agentpit.Replica.Depth.{use_takes}
use agentpit.Replica.Depth.Memory.{use_takes-Distinct}

-- A price inside (0, 1) on the 0.001 grid, with something offered.
abbrev pub OnGrid : ℕ → ℕ → Type 0
OnGrid p s = (0 < p) × (p < micro) × (p % tick ≡ 0) × (0 < s)

abbrev pub IsSide : Side → Type 0
IsSide d = Distinct d × Entries OnGrid d

pub record IsValid (r : BookReplica) : Type 0 where
  pub bids : IsSide r.bids
  pub asks : IsSide r.asks
  pub used : Distinct r.used
  pub unseeded : r.seeded ≡ false → (r.bids ≡ []) × (r.asks ≡ [])

put-IsSide : (p s : ℕ) (d : Side) → IsSide d → on_grid p ≡ true → 0 < s → IsSide (put p s d)
put-IsSide p s d h g q = (put-Distinct p s d h.0, put-Entries OnGrid p s d h.1 (ground arith))

set_level-IsSide : (p s : ℕ) (d : Side) → IsSide d → on_grid p ≡ true → IsSide (set_level p s d)
set_level-IsSide p zero d h g = (remove-Distinct p d h.0, remove-Entries OnGrid p d h.1)
set_level-IsSide p (suc s) d h g = put-IsSide p (suc s) d h g (omega arith)

clean_level-IsSide : (p s : Option ℤ) (d : Side) → IsSide d → IsSide (clean_level p s d)
clean_level-IsSide (some (pos p)) (some (pos (suc s))) d h = elim (Bool-cases (on_grid p)) [
  | inl g ↦ rw g (put-IsSide p (suc s) d h g (omega arith))
  | inr g ↦ rw g h
]
clean_level-IsSide _ _ d h = h

clean_from-IsSide : (ms : List LevelMessage) (d : Side) → IsSide d → IsSide (clean_from ms d)
unfolding clean_from
clean_from-IsSide [] d h = h
clean_from-IsSide (m ∷ ms) d h =
    clean_from-IsSide ms _
      (ground (arith, clean_level-IsSide (to_micro m.price) (to_micro m.size) d h))

-- Whatever levels a message lists, those that are kept are on the grid, once each.
pub clean_levels-IsSide : (ms : List LevelMessage) → IsSide (clean_levels ms)
unfolding clean_levels
clean_levels-IsSide ms = clean_from-IsSide ms [] (tt, tt)

change_level-IsValid :
    (side : SideField) (p s : Option ℤ) (r : BookReplica)
    → IsValid r
    → r.seeded ≡ true
    → IsValid (change_level side p s r).1
change_level-IsValid buy_side (some (pos p)) (some (pos s)) r v on = elim (Bool-cases (on_grid p)) [
  | inl g ↦ rw g (record {
    bids = set_level-IsSide p s r.bids v.bids g;
    asks = v.asks;
    used = v.used;
    unseeded = λ off. cc;
  })
  | inr g ↦ rw g v
]
change_level-IsValid sell_side (some (pos p)) (some (pos s)) r v on =
    elim (Bool-cases (on_grid p)) [
      | inl g ↦ rw g (record {
        bids = v.bids;
        asks = set_level-IsSide p s r.asks v.asks g;
        used = v.used;
        unseeded = λ off. cc;
      })
      | inr g ↦ rw g v
    ]
change_level-IsValid _ _ _ r v on = v

pub apply_price_change_entry-IsValid :
    (entry : PriceChange) (r : BookReplica)
    → IsValid r
    → IsValid (apply_price_change_entry entry r).1
unfolding apply_price_change_entry
apply_price_change_entry-IsValid entry r v =
    ground (arith, change_level-IsValid entry.side (to_micro entry.price) (to_micro entry.size) r v)

pub apply_book-IsValid :
    (msg : BookMessage) (r : BookReplica) → IsValid r → IsValid (apply_book msg r).1
unfolding apply_book
apply_book-IsValid msg r v = elim (Bool-cases (is_id msg.asset_id r.asset_id)) [
  | inl e ↦ rw e (record {
    bids = clean_levels-IsSide msg.bids;
    asks = clean_levels-IsSide msg.asks;
    used = v.used;
    unseeded = λ off. cc;
  })
  | inr e ↦ rw e v
]

-- What happens to a replica: the feed's two kinds of message, a lost connection, and agents that
-- use what they took.
pub data Step : BookReplica → BookReplica → Type 0 where
  book : (msg : BookMessage) (r : BookReplica) → Step r (apply_book msg r).1
  change : (entry : PriceChange) (r : BookReplica) → Step r (apply_price_change_entry entry r).1
  stale : (r : BookReplica) → Step r (mark_stale r)
  taken : (now : ℕ) (ts : List Take) (r : BookReplica) → Step r (use_takes now ts r)

pub data Reach (r : BookReplica) : BookReplica → Type 0 where
  here : Reach r r
  next : {s t : BookReplica} → Reach r s → Step s t → Reach r t

Step-IsValid : {r s : BookReplica} → Step r s → IsValid r → IsValid s
unfolding mark_stale use_takes
Step-IsValid (book msg r) v = apply_book-IsValid msg r v
Step-IsValid (change entry r) v = apply_price_change_entry-IsValid entry r v
Step-IsValid (stale r) v = record {
  bids = (tt, tt);
  asks = (tt, tt);
  used = v.used;
  unseeded = λ off. (refl, refl);
}
Step-IsValid (taken now ts r) v = record {
  bids = v.bids;
  asks = v.asks;
  used = use_takes-Distinct now ts r v.used;
  unseeded = v.unseeded;
}

Reach-IsValid : {r s : BookReplica} → IsValid r → Reach r s → IsValid s
Reach-IsValid v here = v
Reach-IsValid v (next path step) = Step-IsValid step (Reach-IsValid v path)

-- Whatever happens to a new replica, its levels stay on the grid and positive, no price or memory
-- key stands twice, and it is empty while it is not seeded.
pub new_replica-IsValid : (a : ℕ) {r : BookReplica} → Reach (new_replica a) r → IsValid r
new_replica-IsValid a path =
    Reach-IsValid
      (record { bids = (tt, tt); asks = (tt, tt); used = tt; unseeded = λ off. (refl, refl) }) path
