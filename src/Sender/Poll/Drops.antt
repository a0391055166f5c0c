-- ===== src/Sender/Poll/Drops.antt =====
-- onchain/tx_sender.py: the passes of `_reap` that drop what lost its nonce come to an end.
use agentpit.Prelude.{
  ℕ, zero, suc, ◌≤◌, ◌<◌, ◌≡◌, refl, true, false, not, ◌&&◌, List, [], ◌∷◌, length, sum_by, ==_iff,
  arith, if◌then◌else◌, Bool-cases, Option-cases, inl, inr,
}
use agentpit.Prelude.Dict.{get, put, get-put, nat_eq}
use agentpit.Sender.{Entry, is_done, is_live}
use agentpit.Sender.Poll.{Table, as_dropped, is_settled, drop_pass, drop_all}

-- How many of the entries wait.
abbrev waiting_count : Table → List ℕ → ℕ
waiting_count t hs = sum_by (λ h. if is_live t h then 1 else 0) hs

put_dropped :
    (now h : ℕ) (e : Entry) (t : Table) (hs : List ℕ)
    → waiting_count (put h (as_dropped now e) t) hs ≤ waiting_count t hs
put_dropped now h e t [] = omega arith
put_dropped now h e t (k ∷ hs) =
    ground (arith, get-put h k (as_dropped now e) t, put_dropped now h e t hs)

count-drop_pass :
    (now : ℕ) (hs : List ℕ) (t : Table) (ms : List ℕ)
    → waiting_count (drop_pass now hs t).1 ms ≤ waiting_count t ms
unfolding drop_pass
count-drop_pass now [] t ms = omega arith
count-drop_pass now (h ∷ hs) t ms = elim (Option-cases (get t h)) [
  | inl absent ↦ ground (arith, absent, count-drop_pass now hs t ms)
  | inr (e, there) ↦ ground (
    arith,
    there,
    count-drop_pass now hs t ms,
    count-drop_pass now hs (put h (as_dropped now e) t) ms,
    put_dropped now h e t ms,
  )
]

-- A pass that changes something leaves fewer that wait.
drop_pass_lem :
    (now : ℕ) (hs : List ℕ) (t : Table)
    → (drop_pass now hs t).0 ≡ true
    → waiting_count (drop_pass now hs t).1 hs < waiting_count t hs
unfolding drop_pass
drop_pass_lem now [] t e = ground arith
drop_pass_lem now (h ∷ hs) t changed = elim (Option-cases (get t h)) [
  | inl absent ↦ ground (arith, absent, drop_pass_lem now hs t, count-drop_pass now hs t (h ∷ []))
  | inr (e, there) ↦ (elim (Bool-cases (not (is_done e) && is_settled t e.superseded_by)) [
    | inl drops ↦
        let t' = put h (as_dropped now e) t in
        ground (
          arith,
          there,
          drops,
          count-drop_pass now hs t' (h ∷ []),
          count-drop_pass now hs t' hs,
          put_dropped now h e t hs,
          get-put h h (as_dropped now e) t,
          ==_iff h h,
        )
    | inr stays ↦
        ground (arith, there, stays, drop_pass_lem now hs t, count-drop_pass now hs t (h ∷ []))
  ])
]

drop_pass_same :
    (now : ℕ) (hs : List ℕ) (t : Table)
    → (drop_pass now hs t).0 ≡ false
    → (drop_pass now hs t).1 ≡ t
unfolding drop_pass
drop_pass_same now [] t e = refl
drop_pass_same now (h ∷ hs) t e = ground (arith, drop_pass_same now hs t)

count_bound : (t : Table) (hs : List ℕ) → waiting_count t hs ≤ length hs
count_bound t [] = omega arith
count_bound t (h ∷ hs) = ground (arith, count_bound t hs)

drop_all_fuel :
    (fuel now : ℕ) (hs : List ℕ) (t : Table)
    → waiting_count t hs < fuel
    → (drop_pass now hs (drop_all fuel now hs t)).0 ≡ false
unfolding drop_all
drop_all_fuel zero now hs t lt = ground (arith, lt)
drop_all_fuel (suc fuel) now hs t lt = elim (Bool-cases (drop_pass now hs t).0) [
  | inl changed ↦
      rw (drop_all, changed)
        (drop_all_fuel fuel now hs (drop_pass now hs t).1
          (omega (arith, lt, drop_pass_lem now hs t changed)))
  | inr still ↦ rw (drop_all, still, drop_pass_same now hs t still) still
]

-- The fuel that `reap` gives is enough: one more pass changes nothing.
pub drop_all_lem :
    (now : ℕ) (hs : List ℕ) (t : Table)
    → (drop_pass now hs (drop_all (suc (length hs)) now hs t)).0 ≡ false
drop_all_lem now hs t = drop_all_fuel (suc (length hs)) now hs t (omega (arith, count_bound t hs))
