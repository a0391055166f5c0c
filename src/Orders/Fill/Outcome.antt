-- ===== src/Orders/Fill/Outcome.antt =====
-- The outcome of one fill, whatever the book and the order.
use agentpit.Prelude.{
  ℕ, ◌+◌, ◌-◌, ◌≤◌, ◌<◌, ◌≡◌, refl, ◌&&◌, eq_bool, Option, none, some, ℤ, pos, negsuc, ltb, arith,
  if◌then◌else◌, List, sym, false, Bool-cases, inl, inr, ◌⊎◌,
}
use agentpit.Exchange.{Side, buy, sell, is_buy, house_amounts}
use agentpit.Exchange.Crossing.{house_amounts-cross, house_amounts-limits, WithinLimit, WithinBook}
use agentpit.Replica.{Take}
use agentpit.Replica.Depth.{total}
use agentpit.Replica.Depth.Walk.{total-take-le}
use agentpit.Store.{Db, OrderData, OrderRow, find_order}
use agentpit.Orders.{Result, ok, Chain, House, Quote}
use agentpit.Orders.Fill.Terms.{
  HasTerms, asked, reach, reach_lem, cost_in, cost_in_lem, house_order_lem, kind_lem,
}
use agentpit.Orders.Fill.{
  Match, Draws, house_order_of, takes_for, cost_of, wanted_of, book_bound, take_order,
}
use agentpit.Orders.Fill.Effects.{Filled, match_of, take_house_lem}

-- What the two sides put in: a BUY is met by minting pairs at one dollar each, paid by both
-- together; a SELL gives its shares for the house's collateral.
abbrev pub IsPaid : Side → Match → Type 0
IsPaid buy m = m.agent_amount + m.house_amount ≡ m.size
IsPaid sell m = m.agent_amount ≡ m.size

paid_lem :
    (side : Side) (m : Match)
    → m.agent_amount ≡ (if is_buy side then m.size - m.house_amount else m.size)
    → m.house_amount < m.size
    → IsPaid side m
paid_lem buy m e lt = omega arith
paid_lem sell m e lt = e

pub ℤ-cases : (z : ℤ) → ((n : ℕ) × (z ≡ pos n)) ⊎ ((n : ℕ) × (z ≡ negsuc n))
ℤ-cases (pos n) = inl (n, refl)
ℤ-cases (negsuc n) = inr (n, refl)

pub wanted :
    (tick : ℕ) (row : OrderRow) (quote : Quote) (at_most : Option ℕ)
    → total (takes_for tick row quote at_most) ≤ wanted_of row.remaining at_most
wanted tick row (ref, yes_token, rep) at_most =
    total-take-le tick (eq_bool (is_buy row.order.side) yes_token) (book_bound yes_token row.price)
      (wanted_of row.remaining at_most) rep

-- A match that an order may have.
pub record IsFair (tick : ℕ) (row : OrderRow) (quote : Quote) (at_most : Option ℕ) (m : Match)
    : Type 0 where
  pub size_wanted : m.size ≤ asked row.remaining at_most
  pub size_taken : m.size ≡ total m.takes
  -- The levels are those that the order reaches in the book.
  pub levels : m.takes ≡ reach tick row quote at_most
  pub collateral : (0 < m.house_amount) × (m.house_amount < m.size)
  pub paid : IsPaid row.order.side m
  pub limit :
      WithinLimit row.order.side row.order.maker_amount row.order.taker_amount m.size m.house_amount
  pub book : WithinBook row.order.side m.size (cost_in quote m.takes) m.house_amount

-- What a fill is left for: the house's amount for what the book has is not between 0 and that.
abbrev pub NoHouse : ℕ → OrderRow → Quote → Option ℕ → Type 0
NoHouse tick row quote at_most =
    (amount : ℕ)
    → house_amounts row.order.side row.order.maker_amount row.order.taker_amount
        (total (reach tick row quote at_most)) (cost_in quote (reach tick row quote at_most))
      ≡ pos amount
    → (amount ≡ 0) ⊎ (total (reach tick row quote at_most) ≤ amount)

module _ (chain : Chain) (now tick : ℕ) (draws : Draws) (house : House) (row : OrderRow)
    (quote : Quote) (at_most : Option ℕ) (db : Db) where
  abbrev call : Result (Option Match × Db)
  call = take_order chain now tick draws (some house) row row.order (some quote) at_most db

  abbrev house_order : ℕ → ℕ → OrderData
  house_order = house_order_of draws.salt house (is_buy row.order.side) row.order quote

  wanted_within :
      (size : ℕ)
      → size ≡ total (takes_for tick row quote at_most)
      → size ≤ asked row.remaining at_most
  wanted_within size sized = ground (arith, wanted tick row quote at_most)

  no_house :
      ((amount : ℕ)
        → house_amounts row.order.side row.order.maker_amount row.order.taker_amount
            (total (takes_for tick row quote at_most))
            (cost_of quote (takes_for tick row quote at_most))
          ≡ pos amount
        → (ltb 0 amount && ltb amount (total (takes_for tick row quote at_most))) ≡ false)
      → NoHouse tick row quote at_most
  no_house out amount e =
      let refused = out amount (
        rw (reach_lem tick row quote at_most, cost_in_lem quote (reach tick row quote at_most))
          e) in
      ground (arith, refused, reach_lem tick row quote at_most)

  terms :
      (takes : List Take) (size amount : ℕ)
      → HasTerms chain draws house row quote
          (match_of chain draws house row row.order quote takes size amount)
  terms takes size amount = record {
    house_order = house_order_lem draws.salt house row.order quote amount size;
    signature = refl;
    kind = kind_lem row.order.side;
    trade_id = refl;
  }

  -- A fill of `size` shares, once the house's amount is found to be in range.
  in_range :
      (size amount : ℕ)
      → size ≡ total (takes_for tick row quote at_most)
      → 0 < row.order.maker_amount
      → 0 < row.order.taker_amount
      → house_amounts row.order.side row.order.maker_amount row.order.taker_amount size
          (cost_of quote (takes_for tick row quote at_most))
        ≡ pos amount
      → 0 < amount
      → amount < size
      → IsFair tick row quote at_most (
          match_of chain draws house row row.order quote
            (takes_for tick row quote at_most)
            size
            amount)
  in_range size amount sized pm pt e pa lt =
      let takes = takes_for tick row quote at_most in
      let (own, polymarket) =
        house_amounts-limits row.order.side row.order.maker_amount row.order.taker_amount size
          (cost_of quote takes) pm pt e in
      record {
        size_wanted = wanted_within size sized;
        size_taken = sized;
        levels = reach_lem tick row quote at_most;
        collateral = (pa, lt);
        paid =
            paid_lem row.order.side
              (match_of chain draws house row row.order quote takes size amount) refl lt;
        limit = own;
        book = rw (sym (cost_in_lem quote takes)) polymarket;
      }

  -- A fill of an order that is in the tables, has positive amounts and gets a house order whose id
  -- is new, never raises. It does nothing at all where the house's amount, for the levels that the
  -- order reaches in the book, is not between 0 and their size; else it is fair, on the house's
  -- terms, and has written exactly its effects: the two orders' rows and one trade.
  pub take_order_outcome :
      find_order row.order_id db ≡ some row
      → 0 < row.order.maker_amount
      → 0 < row.order.taker_amount
      → ((amount size : ℕ) → find_order (chain.order_hash (house_order amount size)) db ≡ none)
      → ((call ≡ ok (none, db)) × NoHouse tick row quote at_most)
        ⊎ ((m : Match) × (db' : Db) × (call ≡ ok (some m, db'))
            × IsFair tick row quote at_most m
            × HasTerms chain draws house row quote m
            × Filled now house row (chain.order_hash m.house_order) db m db')
  unfolding take_order
  take_order_outcome there pm pt fresh =
      let takes = takes_for tick row quote at_most in
      let size = total takes in
      elim (ℤ-cases (
        house_amounts row.order.side row.order.maker_amount row.order.taker_amount size
          (cost_of quote takes))) [
            | inr (n, e) ↦ inl (rw (e, take_order) refl, no_house λ a h. absurd (cc (e, h)))
            | inl (amount, e) ↦ (elim (Bool-cases (ltb 0 amount && ltb amount size)) [
              | inr out ↦
                  inl (rw (e, take_order, out) refl, no_house λ a h. ground (arith, e, h, out))
              | inl within ↦
                  let pa : 0 < amount = ground arith in
                  let lt : amount < size = ground arith in
                  let cross =
                    house_amounts-cross row.order.side row.order.maker_amount row.order.taker_amount
                      size (cost_of quote takes) (omega arith) e in
                  let (db', done, filled) =
                    take_house_lem chain now draws house row quote takes size amount db pa lt cross
                      there (fresh amount size) in
                  inr (
                    match_of chain draws house row row.order quote takes size amount,
                    db',
                    rw (e, take_order, within) done,
                    in_range size amount refl pm pt e pa lt,
                    terms takes size amount,
                    filled,
                  )
            ])
          ]
