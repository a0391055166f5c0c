-- ===== src/Orders/Fill/Rows.antt =====
-- The rows of the orders once a fill is in.
use agentpit.Prelude.{
  length, Bool, ◌+◌, ℕ, ◌≡◌, refl, false, none, some, List, [], ◌∷◌, ◌++◌, ◌==◌, ==_iff, arith,
  if◌then◌else◌, Bool-cases, inl, inr, ap, ◌∙◌,
}
use agentpit.Store.{Db, OrderRow, OrderStatus, matched, find_order, update_where}
use agentpit.Store.Rows.{find-append, find-update_where}
use agentpit.Orders.Fill.{fill_row}

abbrev pub filled_row : ℕ → OrderStatus → OrderRow → OrderRow
filled_row left status row = record row { remaining = left; status = status }

module _ (db : Db) (row new : OrderRow) (left : ℕ) (status : OrderStatus) where
  -- The tables once the house's order is in and both orders carry the fill.
  abbrev pub after_fill : Db
  after_fill =
      fill_row row.order_id left status
        (fill_row new.order_id 0 matched (record db { orders = db.orders ++ new ∷ [] }))

  module _ (there : find_order row.order_id db ≡ some row)
      (fresh : find_order new.order_id db ≡ none) where
    pub distinct_ids : (row.order_id == new.order_id) ≡ false
    distinct_ids = elim (Bool-cases (row.order_id == new.order_id)) [
      | inl same ↦
          let e : row.order_id ≡ new.order_id = (==_iff row.order_id new.order_id).0 same in
          cc (there, fresh, ap (λ (i : ℕ). find_order i db) e)
      | inr other ↦ other
    ]

    pub find-after_fill :
        (i : ℕ)
        → find_order i after_fill ≡ (
            if i == row.order_id
            then some (filled_row left status row)
            else if i == new.order_id
            then some (filled_row 0 matched new)
            else find_order i db)
    unfolding fill_row
    find-after_fill i =
        let added = db.orders ++ new ∷ [] in
        let zero_left = filled_row 0 matched in
        let one = find-update_where i new.order_id zero_left added (λ r. refl) in
        let two =
          find-update_where i row.order_id (filled_row left status)
            (update_where (λ r. r.order_id == new.order_id) zero_left added) (λ r. refl) in
        let appended = find-append i db.orders new in
        elim (Bool-cases (i == row.order_id)) [
          | inl agent ↦
              let e = (==_iff i row.order_id).0 agent in
              let at_i : find_order i db ≡ some row = ap (λ (j : ℕ). find_order j db) e ∙ there in
              let apart : (i == new.order_id) ≡ false = rw e distinct_ids in
              ground (arith, one, two, appended, at_i, agent, apart)
          | inr other ↦ (elim (Bool-cases (i == new.order_id)) [
            | inl house ↦
                let e = (==_iff i new.order_id).0 house in
                let at_i : find_order i db ≡ none = ap (λ (j : ℕ). find_order j db) e ∙ fresh in
                ground (arith, one, two, appended, at_i, other, house, ==_iff new.order_id i, e)
            | inr neither ↦ ground (
              arith,
              one,
              two,
              appended,
              other,
              neither,
              ==_iff new.order_id i,
              ==_iff i new.order_id,
            )
          ])
        ]

length-update_where :
    (p : OrderRow → Bool) (f : OrderRow → OrderRow) (l : List OrderRow)
    → length (update_where p f l) ≡ length l
length-update_where p f [] = refl
length-update_where p f (x ∷ l) = ground (arith, length-update_where p f l)

length_and_one : (l : List OrderRow) (x : OrderRow) → length (l ++ x ∷ []) ≡ length l + 1
length_and_one [] x = refl
length_and_one (y ∷ l) x = omega (arith, length_and_one l x)

pub length-after_fill :
    (db : Db) (row new : OrderRow) (left : ℕ) (status : OrderStatus)
    → length (after_fill db row new left status).orders ≡ length db.orders + 1
unfolding fill_row
length-after_fill db row new left status =
    let added = db.orders ++ new ∷ [] in
    let filled = update_where (λ r. r.order_id == new.order_id) (filled_row 0 matched) added in
    length-update_where (λ r. r.order_id == row.order_id) (filled_row left status) filled
    ∙ length-update_where (λ r. r.order_id == new.order_id) (filled_row 0 matched) added
    ∙ length_and_one db.orders new
