-- ===== src/Decimal/Laws.antt =====
-- Rounding, and the values that pass through unchanged.
use native.Mathlib.Nat.{pow-suc, mul-div_cancel, mul-mod_left, lt-div-mul-add, div-mul-le_self}
use agentpit.Prelude.{ℕ, zero, suc, ◌+◌, ◌*◌, ◌/◌, ◌^◌, ◌≤◌, ◌<◌, ◌≡◌, negsuc, arith}
use agentpit.Decimal.{digits_on, digits, half_even, half_up, scaled, fix, excess, precision}

digits_on-le : (fuel n k : ℕ) → n < 10 ^ suc k → digits_on fuel n ≤ suc k
unfolding digits_on
digits_on-le zero n k h = omega arith
digits_on-le (suc fuel) n zero h = ground arith
digits_on-le (suc fuel) n (suc k) h =
    ground (arith, digits_on-le fuel (n / 10) k, pow-suc 10 (suc k))

-- A number below 10^(k+1) has at most k+1 digits.
pub digits-le : (n k : ℕ) → n < 10 ^ suc k → digits n ≤ suc k
unfolding digits
digits-le n k h = digits_on-le n n k h

pub half_even-exact : (q d : ℕ) → 0 < d → half_even (q * d) d ≡ q
unfolding half_even
half_even-exact q d h = ground (arith, mul-div_cancel q h, mul-mod_left q d)

-- `half_up` is within half a unit.
pub half_up_bounds :
    (n d : ℕ)
    → 0 < d
    → (half_up n d * (d + d) ≤ n + n + d) × (n + n + d < half_up n d * (d + d) + (d + d))
unfolding half_up
half_up_bounds n d h =
    (div-mul-le_self (n + n + d) (d + d), lt-div-mul-add {a = n + n + d} {b = d + d} (omega arith))

-- A number of micro units, read back from its six decimal places, is itself: no digit is lost to
-- the context's precision.
pub scaled-micro : (n : ℕ) → n < 10 ^ 22 → scaled half_even n (negsuc 5) ≡ n
unfolding scaled
scaled-micro n h =
    ground
      (arith, digits-le (n * 1000000) 27 (omega arith), half_even-exact n 1000000 (omega arith))

-- A coefficient within the context's precision is left alone.
pub fix-id : (c : ℕ) → digits c ≤ precision → (fix c ≡ c) × (excess c ≡ 0)
unfolding fix
fix-id c h = (ground arith, omega arith)
