-- ===== src/Decimal.antt =====
-- Python's `decimal.Decimal`, as the program uses it: values, the default context's 28 digits and
-- the two roundings. It is the language's standard library, so no part of it stands in the
-- repository's sources.
pub mod Laws
use agentpit.Prelude.{
  ℕ, zero, suc, ◌+◌, ◌-◌, ◌*◌, ◌/◌, ◌%◌, ◌^◌, Bool, true, false, ℤ, pos, negsuc, sub_ℕ, pos_part,
  neg_part, ltb, leb, ◌==◌, if◌then◌else◌,
}

-- (-1)^sign * coeff * 10^exp, or a value that is not finite.
pub data Decimal : Type 0 where
  finite : Bool → ℕ → ℤ → Decimal
  infinite : Decimal
  nan : Decimal

-- The number of decimal digits, 1 for 0; `n` rounds are more than it needs.
digits_on : ℕ → ℕ → ℕ
digits_on zero n = 1
digits_on (suc fuel) n = let more = suc (digits_on fuel (n / 10)) in if ltb n 10 then 1 else more

unfoldable pub digits : ℕ → ℕ
unfolding digits_on
digits n = digits_on n n

-- n / d to the nearest integer, a tie to the even one.
unfoldable pub half_even : ℕ → ℕ → ℕ
half_even n d =
    let q = n / d in
    let r = n % d in
    if ltb (r + r) d then q else if ltb d (r + r) then q + 1 else if q % 2 == 0 then q else q + 1

-- n / d to the nearest integer, a tie upwards.
unfoldable pub half_up : ℕ → ℕ → ℕ
half_up n d = (n + n + d) / (d + d)

abbrev pub precision : ℕ
precision = 28

-- The result of an operation is rounded to the context's precision: the digits dropped.
abbrev pub excess : ℕ → ℕ
excess c = digits c - precision

unfoldable pub fix : ℕ → ℕ
unfolding half_even
fix c = if leb (digits c) precision then c else half_even c (10 ^ excess c)

-- coeff * 10^exp to an integer, by the rounding `mode`.
unfoldable pub to_integral : (ℕ → ℕ → ℕ) → ℕ → ℤ → ℕ
to_integral mode c (pos e) = c * 10 ^ e
to_integral mode c (negsuc e) = mode c (10 ^ suc e)

-- exp + n
abbrev pub raise_exp : ℤ → ℕ → ℤ
raise_exp e n = sub_ℕ (pos_part e + n) (neg_part e)

-- `(d * 10**6).to_integral_value(mode)` on the magnitude of `d`.
unfoldable pub scaled : (ℕ → ℕ → ℕ) → ℕ → ℤ → ℕ
unfolding fix to_integral
scaled mode c e = let p = c * 1000000 in to_integral mode (fix p) (raise_exp e (excess p))

-- `d.adjusted() > bound`: the exponent of the first digit is over `bound`.
unfoldable pub adjusted_over : ℕ → ℤ → ℕ → Bool
adjusted_over c e bound = ltb (bound + neg_part e + 1) (digits c + pos_part e)

-- `int` of a magnitude with its sign.
abbrev pub signed : Bool → ℕ → ℤ
signed true (suc n) = negsuc n
signed _ n = pos n
