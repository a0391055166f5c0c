-- ===== src/Exchange/Amounts.antt =====
-- services/order_service.py: `_amounts_from_price_size`, `_price_int`, `_fill_amounts`.
-- A price is in ticks of 0.001, as the request's validator leaves it.
use native.Mathlib.Nat.{mul-le-mul}
use agentpit.Prelude.{
  ℕ, ◌+◌, ◌-◌, ◌*◌, ◌/◌, ◌%◌, ◌^◌, ◌≤◌, ◌<◌, ◌≡◌, ◌||◌, Option, none, some, ℤ, negsuc, sub_ℕ, ◌==◌,
  refl, arith, if◌then◌else◌,
}
use agentpit.Decimal.{
  Decimal, finite, infinite, nan, digits, half_up, fix, excess, precision, to_integral, raise_exp,
  scaled, adjusted_over,
}
use agentpit.Decimal.Laws.{digits-le, half_up_bounds, fix-id}
use agentpit.Exchange.{Side, buy, sell}

-- `Decimal(price) * Decimal(size)`, quantized to an integer: the collateral of an order.
unfoldable pub collateral_of : ℕ → ℕ → ℕ
collateral_of ticks size =
    let p = ticks * size in to_integral half_up (fix p) (raise_exp (negsuc 2) (excess p))

-- (makerAmount, takerAmount)
unfoldable pub amounts_from_price_size : Side → ℕ → ℕ → ℕ × ℕ
unfolding collateral_of
amounts_from_price_size buy ticks size = (collateral_of ticks size, size)
amounts_from_price_size sell ticks size = (size, collateral_of ticks size)

-- `Decimal(a) / Decimal(b)`: a coefficient, rounded to the context's precision, and an exponent. A
-- remainder is kept in the last digit, so that the rounding sees it.
sticky : ℕ → ℕ → ℕ
sticky a b = let q = a / b in if a % b == 0 then q else if q % 5 == 0 then q + 1 else q

unfoldable pub divide : ℕ → ℕ → ℕ × ℤ
unfolding sticky
divide a b =
    let up = digits b + precision + 1 - digits a in
    let down = digits a - (digits b + precision + 1) in
    let q = sticky (a * 10 ^ up) (b * 10 ^ down) in (fix q, sub_ℕ (excess q + down) up)

-- `_price_int`: none is the ValueError for an amount that is not positive.
unfoldable pub price_int : Side → ℕ → ℕ → Option ℕ
unfolding divide
price_int side maker taker = if maker == 0 || taker == 0 then none else elim side [
  | buy ↦ (let (c, e) = divide maker taker in some (scaled half_up c e))
  | sell ↦ (let (c, e) = divide taker maker in some (scaled half_up c e))
]

-- `_fill_amounts`: what was made and what was taken, or none where nothing filled.
unfoldable pub fill_amounts : Side → ℕ → ℕ → Option (ℕ × ℕ)
fill_amounts side collateral shares =
    if shares == 0
    then none
    else elim side [ buy ↦ some (collateral, shares) | sell ↦ some (shares, collateral) ]

-- polymarket/format.py: `decimal_str_to_size_micro` and `decimal_str_to_price_int` on what
-- `Decimal(value)` makes of the text; none is the ValueError.
unfoldable pub decimal_to_micro : Decimal → Option ℕ
decimal_to_micro infinite = none
decimal_to_micro nan = none
decimal_to_micro (finite negative coeff exp) =
    if adjusted_over coeff exp 24
    then none
    else let n = scaled half_up coeff exp in
      if negative then (if n == 0 then some 0 else none) else some n

collateral_of-half_up :
    (ticks size : ℕ)
    → ticks < 1000
    → size ≤ 10 ^ 15
    → collateral_of ticks size ≡ half_up (ticks * size) 1000
unfolding collateral_of to_integral
collateral_of-half_up ticks size h k =
    let small = mul-le-mul {n₁ = ticks} {m₁ = size} {n₂ = 999} {m₂ = 10 ^ 15} (omega arith) k in
    let (same, none_dropped) =
      fix-id (ticks * size) (omega (arith, digits-le (ticks * size) 17 (omega (arith, small)))) in
    rw (same, none_dropped) refl

-- For a price below 1000 ticks and a size of at most 10^15 units, an order's collateral is price
-- times size to the nearest unit.
collateral_of_bounds :
    (ticks size : ℕ)
    → ticks < 1000
    → size ≤ 10 ^ 15
    → (collateral_of ticks size * 2000 ≤ ticks * size * 2 + 1000)
      × (ticks * size * 2 < collateral_of ticks size * 2000 + 1000)
collateral_of_bounds ticks size h k =
    rw (collateral_of-half_up ticks size h k)
      (omega (arith, half_up_bounds (ticks * size) 1000 (omega arith)))

price_int_half : price_int buy 5000000 10000000 ≡ some 500000
unfolding price_int digits half_up fix scaled to_integral
price_int_half = refl
