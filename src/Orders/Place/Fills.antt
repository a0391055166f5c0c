-- ===== src/Orders/Place/Fills.antt =====
-- services/order_service.py: how much of an order `place_order` fills.
use agentpit.Prelude.{ℕ, ◌≡◌, ◌≤◌, ◌<◌, true, Option, none, some, arith, ==_iff, inl, inr}
use agentpit.Exchange.Amounts.{amounts_from_price_size}
use agentpit.Store.{Db, OrderRow, OrderType, gtc, gtd, fok, fak, UserRow, find_order}
use agentpit.Store.Rows.{find-append}
use agentpit.Orders.{ok, Chain, World, insert_order, shares_of, new_row, get_order_row, house_quote}
use agentpit.Orders.Fill.{Match, Draws, take_order}
use agentpit.Orders.Fill.Size.{filled_of, take_order_size}
use agentpit.Orders.Place.{
  Settings, PlaceOrderRequest, Prepared, placed, prepare, transact, insert_and_fill, commit,
  place_order, fills_enough, claim,
}
use agentpit.Orders.Place.Checks.{Result-cases, place_order_passed}

-- What each type of order promises of its fill.
abbrev pub FilledAs : OrderType → ℕ → ℕ → Type 0
FilledAs fok size filled = filled ≡ size
FilledAs fak size filled = (0 < filled) × (filled ≤ size)
FilledAs _ size filled = filled ≤ size

filled_as :
    (t : OrderType) (size filled : ℕ)
    → filled ≤ size
    → fills_enough t size filled ≡ true
    → FilledAs t size filled
filled_as fok size filled le e = ground arith
filled_as fak size filled le e = (ground arith, le)
filled_as gtc size filled le e = le
filled_as gtd size filled le e = le

find-insert_order :
    (row : OrderRow) (db db' : Db)
    → insert_order row db ≡ ok (tt, db')
    → find_order row.order_id db' ≡ some row
unfolding insert_order
find-insert_order row db db' e =
    ground (arith, find-append row.order_id db.orders row, ==_iff row.order_id row.order_id)

module _ (chain : Chain) (now tick salt : ℕ) (draws : Draws) (settings : Settings) (user : UserRow)
    (payload : PlaceOrderRequest) (w : World) where
  insert_and_fill_size :
      (p : Prepared) (db : Db) (match : Option Match) (db' : Db)
      → insert_and_fill chain now tick draws w settings user payload p db ≡ ok (match, db')
      → filled_of match ≤ shares_of p.order
  unfolding insert_and_fill get_order_row
  insert_and_fill_size p db match db' e =
      let row =
        new_row p.order_id user.api_key p.price now payload.order_type p.order
          (chain.sign user.eth_key p.order) in
      elim (Result-cases (insert_order row db)) [
        | inl (x, raised) ↦ ground (arith, raised)
        | inr ((u, db₁), done) ↦
            (elim (Result-cases (
              take_order chain now tick draws w.house row p.order (house_quote payload.token_id w)
                none db₁)) [
                  | inl (x, raised) ↦
                      ground (arith, raised, done, find-insert_order row db db₁ done)
                  | inr ((m, db₂), took) ↦ ground (
                    arith,
                    took,
                    done,
                    find-insert_order row db db₁ done,
                    take_order_size chain now tick draws row p.order w.house
                        (house_quote payload.token_id w) none db₁ m db₂ took,
                  )
                ])
      ]

  prepare_size :
      (read : Db) (p : Prepared) (db : Db)
      → prepare chain now salt settings user payload read ≡ ok (p, db)
      → shares_of p.order ≡ p.size_micro
  unfolding prepare amounts_from_price_size
  prepare_size read p db e = ground arith

  transact_size :
      (p : Prepared) (match : Option Match) (db' : Db)
      → transact chain now tick draws w settings user payload p w.db ≡ ok (match, db')
      → filled_of match ≤ shares_of p.order
  unfolding transact
  transact_size p match db' e =
      elim (Result-cases (claim user.api_key payload.client_order_id p.order_id w.db)) [
        | inl (x, raised) ↦ ground (arith, raised)
        | inr ((u, d), done) ↦ ground (arith, done, insert_and_fill_size p d match db')
      ]

  commit_size :
      (p p' : Prepared) (match : Option Match)
      → (commit chain now tick draws settings user payload p w).0 ≡ placed p' match
      → (p ≡ p') × (filled_of match ≤ shares_of p.order)
  unfolding commit
  commit_size p p' match e =
      elim (Result-cases (transact chain now tick draws w settings user payload p w.db)) [
        | inl (x, raised) ↦ ground (arith, raised)
        | inr ((m, db'), done) ↦ ground (arith, done, transact_size p m db' done)
      ]

  -- A placed order is filled as its type promises: FOK for its whole size, FAK for a part of it at
  -- least, and no order for more than its size.
  pub place_order_fills :
      (read : Db) (p : Prepared) (match : Option Match)
      → (place_order chain now tick salt draws settings user payload read w).0 ≡ placed p match
      → FilledAs payload.order_type p.size_micro (filled_of match)
  unfolding place_order
  place_order_fills read p match e =
      let passed =
        place_order_passed chain now tick salt draws settings user payload w read p match e in
      let le : filled_of match ≤ p.size_micro =
        elim (Result-cases (prepare chain now salt settings user payload read)) [
          | inl (x, raised) ↦ ground (arith, raised)
          | inr ((q, db), done) ↦
              ground (arith, done, prepare_size read q db done, commit_size q p match)
        ] in
      filled_as payload.order_type p.size_micro (filled_of match) le (ground (arith, passed))
