-- ===== src/Replica/Fields.antt =====
-- liquidity/replica.py: the decimal texts of the feed as micro units.
use agentpit.Prelude.{ℕ, ◌^◌, ◌<◌, ◌≡◌, false, some, pos, negsuc, arith}
use agentpit.Decimal.{finite}
use agentpit.Decimal.Laws.{digits-le, scaled-micro}
use agentpit.Replica.{number, to_micro}

-- A price or size of `n` micro units, `n` below 10^22, written with six decimal places, is read
-- back as `n`.
pub to_micro-six_places :
    (n : ℕ) → n < 10 ^ 22 → to_micro (number (finite false n (negsuc 5))) ≡ some (pos n)
unfolding to_micro
to_micro-six_places n h = ground (arith, digits-le n 21 h, scaled-micro n h)
