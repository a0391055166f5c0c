-- ===== src/Exchange.antt =====
-- services/order_service.py: the price arithmetic that the CTFExchange repeats on chain.
pub mod Crossing
pub mod Amounts
use agentpit.Prelude.{
  ℕ, ◌+◌, ◌-◌, ◌*◌, ◌/◌, ◌^◌, Bool, true, false, ℤ, pos, sub_ℕ, max_ℤ, leb, ◌==◌, ◌||◌,
  if◌then◌else◌,
}

-- The two sides that the program spells "BUY" and "SELL".
pub data Side : Type 0 where
  buy sell : Side

abbrev pub is_buy : Side → Bool
is_buy buy = true
is_buy sell = false

-- `_PRICE_ONE`: the stored price units of one dollar.
abbrev pub price_one : ℕ
price_one = 1000000

-- `_EXCHANGE_ONE`
abbrev pub exchange_one : ℕ
exchange_one = 10 ^ 18

unfoldable pub exchange_price : ℕ → ℕ → Side → ℕ
exchange_price maker_amount taker_amount buy =
    if taker_amount == 0 then 0 else maker_amount * exchange_one / taker_amount
exchange_price maker_amount taker_amount sell =
    if maker_amount == 0 then 0 else taker_amount * exchange_one / maker_amount

unfoldable pub orders_cross : ℕ → ℕ → Side → ℕ → ℕ → Bool
unfolding exchange_price
orders_cross taker_maker taker_taker taker_side maker_maker maker_taker =
    if taker_taker == 0 || maker_taker == 0
    then true
    else let pa = exchange_price taker_maker taker_taker taker_side in
      let pb = exchange_price maker_maker maker_taker buy in
      if is_buy taker_side then leb exchange_one (pa + pb) else leb pa pb

-- `-(-n // d)`: the quotient rounded up.
abbrev pub ceil_div : ℕ → ℕ → ℕ
ceil_div n d = (n + d - 1) / d

-- `-(-(_EXCHANGE_ONE - p) * size // _EXCHANGE_ONE)`, on both signs of `_EXCHANGE_ONE - p`.
abbrev pub complement_ceil : ℕ → ℕ → ℤ
complement_ceil p size =
    if leb p exchange_one
    then pos (ceil_div ((exchange_one - p) * size) exchange_one)
    else sub_ℕ 0 ((p - exchange_one) * size / exchange_one)

-- The house's collateral for `size` shares against an order of `maker_amount` and `taker_amount`,
-- where Polymarket's levels cost the agent `cost`.
unfoldable pub house_amounts : Side → ℕ → ℕ → ℕ → ℕ → ℤ
unfolding exchange_price
house_amounts buy maker_amount taker_amount size cost =
    let p = exchange_price maker_amount taker_amount buy in
    max_ℤ (max_ℤ (sub_ℕ size (cost / price_one)) (complement_ceil p size))
      (sub_ℕ size (size * maker_amount / taker_amount))
house_amounts sell maker_amount taker_amount size cost =
    let p = exchange_price maker_amount taker_amount sell in
    max_ℤ (max_ℤ (pos (ceil_div cost price_one)) (pos (ceil_div (p * size) exchange_one)))
      (pos (size * taker_amount / maker_amount))
