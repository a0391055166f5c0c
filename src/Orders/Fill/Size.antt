-- ===== src/Orders/Fill/Size.antt =====
-- services/order_service.py: the size of what `_take` fills.
use agentpit.Prelude.{ℕ, ◌≡◌, ◌≤◌, Option, none, some, List, arith, inl, inr}
use agentpit.Exchange.{house_amounts}
use agentpit.Replica.{Take}
use agentpit.Replica.Depth.{total}
use agentpit.Store.{Db, OrderRow, OrderData}
use agentpit.Orders.{ok, Chain, House, Quote}
use agentpit.Orders.Fill.{Match, Draws, take_order, take_house, takes_for, cost_of, wanted_of}
use agentpit.Orders.Fill.Outcome.{wanted, ℤ-cases}

abbrev pub filled_of : Option Match → ℕ
filled_of none = 0
filled_of (some m) = m.size

module _ (chain : Chain) (now tick : ℕ) (draws : Draws) (row : OrderRow) (order : OrderData) where
  take_house_size :
      (house : House) (quote : Quote) (takes : List Take) (size amount : ℕ) (db : Db)
      (match : Option Match) (db' : Db)
      → take_house chain now draws house row order quote takes size amount db ≡ ok (match, db')
      → filled_of match ≤ size
  unfolding take_house
  take_house_size house quote takes size amount db match db' e = ground arith

  pub take_order_size :
      (house : Option House) (quote : Option Quote) (at_most : Option ℕ) (db : Db)
      (match : Option Match) (db' : Db)
      → take_order chain now tick draws house row order quote at_most db ≡ ok (match, db')
      → filled_of match ≤ wanted_of row.remaining at_most
  unfolding take_order
  take_order_size none quote at_most db match db' e = ground arith
  take_order_size (some h) none at_most db match db' e = ground arith
  take_order_size (some h) (some quote) at_most db match db' e =
      let takes = takes_for tick row quote at_most in
      let most = wanted tick row quote at_most in
      elim (ℤ-cases (
        house_amounts order.side order.maker_amount order.taker_amount (total takes)
          (cost_of quote takes))) [
            | inr (n, amount_is) ↦ ground (arith, amount_is)
            | inl (amount, amount_is) ↦ ground (
              arith,
              amount_is,
              most,
              take_house_size h quote takes (total takes) amount db match db',
            )
          ]
