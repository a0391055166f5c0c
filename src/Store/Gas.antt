-- ===== src/Store/Gas.antt =====
-- db/table_write.py: the sponsored-gas budget of a day, and the idempotency keys.
use native.Mathlib.Nat.{div-mul-le_self, lt-div-mul-add, mul-le-mul_right, suc-mul}
use agentpit.Prelude.{
  ℕ, zero, suc, ◌+◌, ◌-◌, ◌*◌, ◌/◌, ◌≤◌, ◌<◌, ◌≡◌, refl, min, Bool, true, false, Option, none, some,
  ltb, arith, if◌then◌else◌, Bool-cases, Option-cases, inl, inr, is_some, ℤ, pos_part, neg_part,
}
use agentpit.Prelude.Dict.{get, put, pairs_eq, pairs_beq_iff, get-put}
use agentpit.Store.{Db, get_idempotency_order_id}

-- `sponsored_gas_used`
unfoldable pub sponsored_gas_used : ℕ → ℕ → Db → ℕ
sponsored_gas_used api_key day db = elim (get db.sponsored_gas (api_key, day)) [
  | none ↦ 0
  | some used ↦ used
]

set_gas : ℕ → ℕ → ℕ → Db → Db
set_gas api_key day gas db = record db { sponsored_gas = put (api_key, day) gas db.sponsored_gas }

-- `reserve_sponsored_gas`: the insert, or the conditional update where the day has a row.
unfoldable pub reserve_sponsored_gas : ℕ → ℕ → ℕ → ℕ → Db → Bool × Db
unfolding set_gas
reserve_sponsored_gas api_key day gas budget db = elim (get db.sponsored_gas (api_key, day)) [
  | none ↦ (true, set_gas api_key day gas db)
  | some used ↦ if ltb used budget then (true, set_gas api_key day (used + gas) db) else (false, db)
]

-- `add_sponsored_gas`: what it takes off was reserved in the same row.
unfoldable pub add_sponsored_gas : ℕ → ℕ → ℤ → Db → Db
unfolding set_gas sponsored_gas_used
add_sponsored_gas api_key day gas db =
    set_gas api_key day (sponsored_gas_used api_key day db + pos_part gas - neg_part gas) db

-- A reservation that is granted is in the row of its day.
pub used-reserve_sponsored_gas :
    (api_key day gas budget : ℕ) (db : Db)
    → (reserve_sponsored_gas api_key day gas budget db).0 ≡ true
    → sponsored_gas_used api_key day (reserve_sponsored_gas api_key day gas budget db).1
      ≡ sponsored_gas_used api_key day db + gas
unfolding set_gas sponsored_gas_used reserve_sponsored_gas
used-reserve_sponsored_gas api_key day gas budget db granted =
    let key : ℕ × ℕ = (api_key, day) in
    elim (Option-cases (get db.sponsored_gas key)) [
      | inl absent ↦
          ground (arith, absent, get-put key key gas db.sponsored_gas, pairs_beq_iff key key)
      | inr (used, there) ↦
          ground
            (arith, there, get-put key key (used + gas) db.sponsored_gas, pairs_beq_iff key key)
    ]

pub used-add_sponsored_gas :
    (api_key day : ℕ) (gas : ℤ) (db : Db)
    → sponsored_gas_used api_key day (add_sponsored_gas api_key day gas db)
      ≡ sponsored_gas_used api_key day db + pos_part gas - neg_part gas
unfolding set_gas sponsored_gas_used add_sponsored_gas
used-add_sponsored_gas api_key day gas db =
    let key : ℕ × ℕ = (api_key, day) in
    ground (
      arith,
      get-put key key (sponsored_gas_used api_key day db + pos_part gas - neg_part gas)
          db.sponsored_gas,
      pairs_beq_iff key key,
    )

-- `claim_idempotency_key`: `none` is the unique violation.
unfoldable pub claim_idempotency_key : ℕ → ℕ → ℕ → Db → Option Db
claim_idempotency_key api_key client_id order_id db =
    if is_some (get db.idempotency (api_key, client_id))
    then none
    else some (record db { idempotency = put (api_key, client_id) order_id db.idempotency })

-- A claim that succeeds finds the key free, makes it name its order, and no later claim of the key
-- succeeds.
claim-get_idempotency_order_id :
    (api_key client_id order_id : ℕ) (db : Db) {db' : Db}
    → claim_idempotency_key api_key client_id order_id db ≡ some db'
    → (get_idempotency_order_id api_key client_id db ≡ none)
      × (get_idempotency_order_id api_key client_id db' ≡ some order_id)
      × ((other : ℕ) → claim_idempotency_key api_key client_id other db' ≡ none)
unfolding claim_idempotency_key get_idempotency_order_id
claim-get_idempotency_order_id a c o db e =
    let key : ℕ × ℕ = (a, c) in
    let there = get-put key key o db.idempotency in
    (
      ground arith,
      ground (arith, there, pairs_beq_iff key key),
      λ other. ground (arith, there, pairs_beq_iff key key),
    )

module _ (api_key day gas budget : ℕ) where
  -- How many of `n` reservations in a row are granted, and the tables after them.
  unfoldable pub reserve_times : ℕ → Db → ℕ × Db
  reserve_times zero db = (0, db)
  reserve_times (suc n) db =
      let (granted, db') = reserve_times n db in
      let (ok, db'') = reserve_sponsored_gas api_key day gas budget db' in
      (if ok then suc granted else granted, db'')

  -- The number of reservations that a budget has room for: the last may overshoot it.
  abbrev pub room_for : ℕ
  room_for = (budget + gas - 1) / gas

  room_for-mul : 0 < gas → (budget ≤ room_for * gas) × (room_for * gas < budget + gas)
  room_for-mul h = (
    omega (arith, lt-div-mul-add {a = budget + gas - 1} {b = gas} h),
    omega (arith, div-mul-le_self (budget + gas - 1) gas),
  )

  -- The row of the day after `k` grants.
  abbrev row_of : ℕ → Option ℕ
  row_of zero = none
  row_of (suc k) = some (suc k * gas)

  used_of : (k : ℕ) → elim (row_of k) as (λ _. ℕ) [ none ↦ 0 | some used ↦ used ] ≡ k * gas
  used_of zero = omega arith
  used_of (suc k) = refl

  -- A used day of `k` grants is under the budget exactly while there is room.
  under_budget : (k : ℕ) → 0 < gas → k ≤ room_for → ltb (k * gas) budget ≡ ltb k room_for
  under_budget k h le = elim (Bool-cases (ltb k room_for)) [
    | inl lt ↦ ground (
      arith,
      room_for-mul h,
      mul-le-mul_right {m = suc k} {n = room_for} gas (ground arith),
      suc-mul k gas,
    )
    | inr ge ↦
        ground (arith, room_for-mul h, mul-le-mul_right {m = room_for} {n = k} gas (ground arith))
  ]

  get-set_gas :
      (g : ℕ) (db : Db) → get (set_gas api_key day g db).sponsored_gas (api_key, day) ≡ some g
  unfolding set_gas
  get-set_gas g db =
      let key : ℕ × ℕ = (api_key, day) in
      ground (arith, get-put key key g db.sponsored_gas, pairs_beq_iff key key)

  one_more :
      (k : ℕ) (db : Db)
      → 0 < gas
      → 0 < budget
      → k ≤ room_for
      → get db.sponsored_gas (api_key, day) ≡ row_of k
      → let (ok, db') = reserve_sponsored_gas api_key day gas budget db in
        let k' = if ok then suc k else k in
        (k' ≡ min (suc k) room_for) × (get db'.sponsored_gas (api_key, day) ≡ row_of k')
  unfolding reserve_sponsored_gas
  one_more zero db hg hb le e =
      rw (e, reserve_sponsored_gas)
        (ground (arith, room_for-mul hg), ground (arith, get-set_gas gas db))
  one_more (suc k) db hg hb le e = elim (Bool-cases (ltb (suc k) room_for)) [
    | inl lt ↦
        rw (e, reserve_sponsored_gas, under_budget (suc k) hg le, lt)
          (ground arith, ground (arith, get-set_gas (suc k * gas + gas) db, suc-mul (suc k) gas))
    | inr ge ↦ rw (e, reserve_sponsored_gas, under_budget (suc k) hg le, ge) (ground arith, e)
  ]

  reserve_times_row :
      (n : ℕ) (db : Db)
      → 0 < gas
      → 0 < budget
      → get db.sponsored_gas (api_key, day) ≡ none
      → let (k, db') = reserve_times n db in
        (k ≡ min n room_for) × (get db'.sponsored_gas (api_key, day) ≡ row_of k)
  unfolding reserve_times
  reserve_times_row zero db hg hb e = (omega arith, e)
  reserve_times_row (suc n) db hg hb e =
      let (k, db') = reserve_times n db in
      let before = reserve_times_row n db hg hb e in
      let after = one_more k db' hg hb (omega (arith, before.0)) before.1 in
      (omega (arith, before.0, after.0), after.1)

  -- For a positive charge and budget, of `n` reservations on a fresh day as many are granted as
  -- the budget has room for, and they use less than one reservation more than the budget.
  pub reserve_times_lem :
      (n : ℕ) (db : Db)
      → 0 < gas
      → 0 < budget
      → get db.sponsored_gas (api_key, day) ≡ none
      → let (k, db') = reserve_times n db in
        (k ≡ min n room_for)
        × (sponsored_gas_used api_key day db' ≡ k * gas)
        × (sponsored_gas_used api_key day db' < budget + gas)
  unfolding sponsored_gas_used
  reserve_times_lem n db hg hb e =
      let (k, db') = reserve_times n db in
      let r = reserve_times_row n db hg hb e in
      let fits = mul-le-mul_right {m = k} {n = room_for} gas (omega (arith, r.0)) in
      let used : sponsored_gas_used api_key day db' ≡ k * gas =
        rw (r.1, sponsored_gas_used) (used_of k) in
      (r.0, used, omega (arith, used, fits, (room_for-mul hg).1))
