-- ===== src/Exchange/Crossing.antt =====
-- services/order_service.py: the house's amount against the exchange's check, the agent's order and
-- Polymarket's levels.
use native.Mathlib.Nat.{le-div_iff_mul-le, div-mul-le_self, lt-div-mul-add, mul-le-mul_right}
use agentpit.Prelude.{
  ℕ, ◌+◌, ◌-◌, ◌*◌, ◌/◌, ◌≤◌, ◌<◌, ◌≡◌, true, ℤ, pos, sub_ℕ, pos_part, max_ℤ, arith,
}
use agentpit.Exchange.{
  Side, buy, sell, price_one, exchange_one, exchange_price, orders_cross, ceil_div, complement_ceil,
  house_amounts,
}

ceil_div-mul : (n d : ℕ) → 0 < d → n ≤ ceil_div n d * d
ceil_div-mul n d h = omega (arith, lt-div-mul-add {a = n + d - 1} {b = d} h)

max_ℤ_bounds :
    (a b c : ℤ) {h : ℕ}
    → max_ℤ (max_ℤ a b) c ≡ pos h
    → (pos_part a ≤ h) × (pos_part b ≤ h) × (pos_part c ≤ h)
max_ℤ_bounds a b c e = ground arith

-- An amount that covers `q` parts in `e` of `size` has at least the exchange price `q`.
le-price : (q e size h : ℕ) → 0 < size → 0 < e → ceil_div (q * size) e ≤ h → q ≤ h * e / size
le-price q e size h s p c =
    (le-div_iff_mul-le s).1 (omega (arith, ceil_div-mul (q * size) e p, mul-le-mul_right e c))

module _ (m t size cost : ℕ) {h : ℕ} where
  buy_bounds :
      house_amounts buy m t size cost ≡ pos h
      → (size - cost / price_one ≤ h)
        × (pos_part (complement_ceil (exchange_price m t buy) size) ≤ h)
        × (size - size * m / t ≤ h)
  unfolding house_amounts
  buy_bounds e =
      let (a, b, c) =
        max_ℤ_bounds (sub_ℕ size (cost / price_one)) (complement_ceil (exchange_price m t buy) size)
          (sub_ℕ size (size * m / t)) e in
      (ground arith, b, ground arith)

  sell_bounds :
      house_amounts sell m t size cost ≡ pos h
      → (ceil_div cost price_one ≤ h)
        × (ceil_div (exchange_price m t sell * size) exchange_one ≤ h)
        × (size * t / m ≤ h)
  unfolding house_amounts
  sell_bounds e =
      max_ℤ_bounds (pos (ceil_div cost price_one))
        (pos (ceil_div (exchange_price m t sell * size) exchange_one)) (pos (size * t / m)) e

complement_cross :
    (p size h : ℕ)
    → 0 < size
    → pos_part (complement_ceil p size) ≤ h
    → exchange_one ≤ p + h * exchange_one / size
complement_cross p size h s c =
    ground (arith, le-price (exchange_one - p) exchange_one size h s (omega arith))

-- Where the size is positive and `house_amounts` gives an amount that is not negative, the house's
-- order crosses the agent's, on both sides: the check that `take_house` makes before it writes
-- anything never fails.
pub house_amounts-cross :
    (side : Side) (m t size cost : ℕ) {h : ℕ}
    → 0 < size
    → house_amounts side m t size cost ≡ pos h
    → orders_cross m t side h size ≡ true
unfolding orders_cross
house_amounts-cross buy m t size cost {h} s e =
    ground
      (arith, complement_cross (exchange_price m t buy) size h s (buy_bounds m t size cost e).1)
house_amounts-cross sell m t size cost {h} s e = ground (
  arith,
  le-price (exchange_price m t sell) exchange_one size h s (omega arith)
      (sell_bounds m t size cost e).1,
)

-- What the agent pays for `size` shares (a BUY) or receives for them (a SELL).
abbrev pub WithinLimit : Side → ℕ → ℕ → ℕ → ℕ → Type 0
WithinLimit buy m t size h = (size - h) * t ≤ size * m
WithinLimit sell m t size h = size * t < (h + 1) * m

abbrev pub WithinBook : Side → ℕ → ℕ → ℕ → Type 0
WithinBook buy size cost h = (size - h) * price_one ≤ cost
WithinBook sell size cost h = cost ≤ h * price_one

-- For an order with positive amounts, and where `house_amounts` is not negative, the agent pays at
-- most, or receives at least, what its own order and what Polymarket's levels say, up to the
-- rounding of one unit on a SELL against its own order.
pub house_amounts-limits :
    (side : Side) (m t size cost : ℕ) {h : ℕ}
    → 0 < m
    → 0 < t
    → house_amounts side m t size cost ≡ pos h
    → WithinLimit side m t size h × WithinBook side size cost h
house_amounts-limits buy m t size cost {h} pm pt e =
    let (a, _, c) = buy_bounds m t size cost e in
    (
      omega (
        arith,
        mul-le-mul_right {m = size - h} {n = size * m / t} t (omega arith),
        div-mul-le_self (size * m) t,
      ),
      omega (arith, div-mul-le_self cost price_one),
    )
house_amounts-limits sell m t size cost {h} pm pt e =
    let (a, _, c) = sell_bounds m t size cost e in
    (
      omega (arith, mul-le-mul_right m c, lt-div-mul-add {a = size * t} {b = m} pm),
      omega (arith, ceil_div-mul cost price_one (omega arith)),
    )
