-- ===== src/Orders/Place/Checks.antt =====
-- services/order_service.py: what an order that `place_order` placed has passed.
use agentpit.Prelude.{ℕ, ◌≡◌, ◌≢◌, refl, Bool, true, not, ◌&&◌, Option, some, arith, inl, inr, ◌⊎◌}
use agentpit.Store.{Db, UserRow, get_idempotency_order_id, halted}
use agentpit.Store.Gas.{claim_idempotency_key}
use agentpit.Store.Holdings.{event_room}
use agentpit.Orders.{Error, Result, ok, err, Chain, World}
use agentpit.Orders.Fill.{Match, Draws}
use agentpit.Orders.Fill.Size.{filled_of}
use agentpit.Orders.Place.{
  Settings, PlaceOrderRequest, Prepared, placed, prepare, transact, insert_and_fill, commit,
  place_order, within_cap, fills_enough, is_active,
}

pub Result-cases :
    {A : Type 0} → (r : Result A) → ((e : Error) × (r ≡ err e)) ⊎ ((a : A) × (r ≡ ok a))
Result-cases (err e) = inl (e, refl)
Result-cases (ok a) = inr (a, refl)

module _ (chain : Chain) (now tick salt : ℕ) (draws : Draws) (settings : Settings) (user : UserRow)
    (payload : PlaceOrderRequest) (w : World) where
  abbrev in_tx : Prepared → Result (Option Match × Db)
  in_tx p = transact chain now tick draws w settings user payload p w.db

  transact_claimed :
      (p : Prepared) (coid order_id : ℕ) (r : Option Match × Db)
      → payload.client_order_id ≡ some coid
      → get_idempotency_order_id user.api_key coid w.db ≡ some order_id
      → in_tx p ≢ ok r
  unfolding transact get_idempotency_order_id claim_idempotency_key
  transact_claimed p coid order_id r e h = ground arith

  -- What an order has passed once it is placed.
  abbrev pub has_passed : Prepared → Option Match → Bool
  has_passed p match =
      is_active p.market.market_id w.db
      && not (halted user.user_id now w.db)
      && within_cap payload.side p.size_micro (event_room user.api_key p.market.market_id now w.db)
      && fills_enough payload.order_type p.size_micro (filled_of match)

  insert_and_fill_enough :
      (p : Prepared) (db : Db) (match : Option Match) (db' : Db)
      → insert_and_fill chain now tick draws w settings user payload p db ≡ ok (match, db')
      → fills_enough payload.order_type p.size_micro (filled_of match) ≡ true
  unfolding insert_and_fill
  insert_and_fill_enough p db match db' e = ground arith

  transact_passed :
      (p : Prepared) (match : Option Match) (db' : Db)
      → in_tx p ≡ ok (match, db')
      → has_passed p match ≡ true
  unfolding transact
  transact_passed p match db' e = ground arith

  commit_claimed :
      (p : Prepared) (coid order_id : ℕ)
      → payload.client_order_id ≡ some coid
      → get_idempotency_order_id user.api_key coid w.db ≡ some order_id
      → (commit chain now tick draws settings user payload p w).1 ≡ w
  unfolding commit
  commit_claimed p coid order_id e h = elim (Result-cases (in_tx p)) [
    | inl (x, raised) ↦ rw (raised, commit) refl
    | inr (r, done) ↦ absurd (transact_claimed p coid order_id r e h done)
  ]

  commit_passed :
      (p p' : Prepared) (match : Option Match)
      → (commit chain now tick draws settings user payload p w).0 ≡ placed p' match
      → has_passed p' match ≡ true
  unfolding commit
  commit_passed p p' match e = elim (Result-cases (in_tx p)) [
    | inl (x, raised) ↦ ground (arith, raised)
    | inr ((m, db'), done) ↦ ground (arith, done, transact_passed p m db' done)
  ]

  -- Where the request's client id is claimed when its transaction would run, `place_order` changes
  -- nothing, even where the checks before it read tables without the claim.
  pub place_order_once :
      (read : Db) (coid order_id : ℕ)
      → payload.client_order_id ≡ some coid
      → get_idempotency_order_id user.api_key coid w.db ≡ some order_id
      → (place_order chain now tick salt draws settings user payload read w).1 ≡ w
  unfolding place_order
  place_order_once read coid order_id e h =
      elim (Result-cases (prepare chain now salt settings user payload read)) [
        | inl (x, raised) ↦ ground (arith, raised)
        | inr ((p, db), done) ↦ ground (arith, done, commit_claimed p coid order_id e h)
      ]

  -- An order is placed only on an active market, by an account that no ended competition halts, within
  -- the cap of its prize runs, and filled as its type asks.
  pub place_order_passed :
      (read : Db) (p : Prepared) (match : Option Match)
      → (place_order chain now tick salt draws settings user payload read w).0 ≡ placed p match
      → has_passed p match ≡ true
  unfolding place_order
  place_order_passed read p match e =
      elim (Result-cases (prepare chain now salt settings user payload read)) [
        | inl (x, raised) ↦ ground (arith, raised)
        | inr ((q, db), done) ↦ ground (arith, done, commit_passed q p match)
      ]
