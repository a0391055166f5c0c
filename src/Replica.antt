-- ===== src/Replica.antt =====
-- liquidity/replica.py: the in-memory replica of one Polymarket order book.
-- An asset id is a number, compared for equality only. Readings of `time.monotonic()` are numbers
-- of nanoseconds. A field of a message is `Wire`: what `Decimal(str(value))` makes of it.
pub mod Fields
pub mod Valid
pub mod Snapshots
pub mod Depth
use agentpit.Prelude.{
  ℕ, zero, suc, ◌+◌, ◌-◌, ◌*◌, ◌%◌, min, Bool, true, false, not, ◌&&◌, ◌||◌, ℤ, pos, negsuc, Option,
  none, some, List, [], ◌∷◌, map, filter, is_nil, ltb, leb, ◌==◌, if◌then◌else◌,
}
use agentpit.Prelude.Dict.{get, put, remove, nat_eq, pair_eq}
use agentpit.Decimal.{Decimal, finite, infinite, nan, half_even, scaled, adjusted_over, signed}

abbrev pub micro : ℕ
micro = 1000000

abbrev pub tick : ℕ
tick = 1000

abbrev pub depth_memory : ℕ
depth_memory = 60 * 1000000000

-- A message's field: missing or `None`, a text that `Decimal` refuses, or a decimal.
pub data Wire : Type 0 where
  absent junk : Wire
  number : Decimal → Wire

unfoldable pub to_micro : Wire → Option ℤ
unfolding adjusted_over scaled
to_micro absent = none
to_micro junk = none
to_micro (number infinite) = none
to_micro (number nan) = none
to_micro (number (finite sign coeff exp)) =
    if adjusted_over coeff exp 18 then none else some (signed sign (scaled half_even coeff exp))

-- `0 < p < MICRO and not p % TICK`
abbrev pub on_grid : ℕ → Bool
on_grid p = (ltb 0 p && ltb p micro) && p % tick == 0

pub record LevelMessage : Type 0 where
  pub is_dict : Bool
  pub price : Wire
  pub size : Wire

abbrev pub Side : Type 0
Side = List (ℕ × ℕ)

-- One round of the loop in `_clean_levels`, on what its two fields parse to.
abbrev pub clean_level : Option ℤ → Option ℤ → Side → Side
clean_level (some (pos p)) (some (pos (suc s))) out = if on_grid p then put p (suc s) out else out
clean_level _ _ out = out

unfoldable pub clean_from : List LevelMessage → Side → Side
clean_from [] out = out
clean_from (m ∷ ms) out =
    clean_from ms (if m.is_dict then clean_level (to_micro m.price) (to_micro m.size) out else out)

unfoldable pub clean_levels : List LevelMessage → Side
unfolding clean_from
clean_levels ms = clean_from ms []

pub record Used : Type 0 where
  pub taken : ℕ
  pub until : ℕ

-- `UseKey`: whether the level is an ask, and its price.
abbrev pub UseKey : Type 0
UseKey = Bool × ℕ

pub record Take : Type 0 where
  pub ask : Bool
  pub price : ℕ
  pub size : ℕ

pub record BookSnapshot : Type 0 where
  pub asset_id : ℕ
  pub bids : Side
  pub asks : Side

flip_level : ℕ × ℕ → ℕ × ℕ
flip_level (p, s) = (micro - p, s)

unfoldable pub flipped : BookSnapshot → BookSnapshot
unfolding flip_level
flipped b = record {
  asset_id = b.asset_id;
  bids = map flip_level b.asks;
  asks = map flip_level b.bids;
}

pub record BookReplica : Type 0 where
  pub asset_id : ℕ
  pub bids : Side
  pub asks : Side
  pub seeded : Bool
  pub used : List (UseKey × Used)

abbrev pub new_replica : ℕ → BookReplica
new_replica a = record { asset_id = a; bids = []; asks = []; seeded = false; used = [] }

pub record BookMessage : Type 0 where
  pub asset_id : Option ℕ
  pub bids : List LevelMessage
  pub asks : List LevelMessage

-- `x == y` for a field that may be missing.
abbrev pub is_id : Option ℕ → ℕ → Bool
is_id none b = false
is_id (some a) b = a == b

unfoldable pub apply_book : BookMessage → BookReplica → Bool × BookReplica
apply_book msg r =
    if is_id msg.asset_id r.asset_id
    then (
      true,
      record r { bids = clean_levels msg.bids; asks = clean_levels msg.asks; seeded = true },
    )
    else (false, r)

-- The field `side`: "BUY", "SELL" or anything else.
pub data SideField : Type 0 where
  buy_side sell_side other_side : SideField

pub record PriceChange : Type 0 where
  pub asset_id : Option ℕ
  pub side : SideField
  pub price : Wire
  pub size : Wire

-- `book.pop(p, None)` for a size of zero, else `book[p] = s`.
abbrev pub set_level : ℕ → ℕ → Side → Side
set_level p zero d = remove p d
set_level p (suc s) d = put p (suc s) d

abbrev change_level : SideField → Option ℤ → Option ℤ → BookReplica → Bool × BookReplica
change_level buy_side (some (pos p)) (some (pos s)) r =
    if on_grid p then (true, record r { bids = set_level p s r.bids }) else (false, r)
change_level sell_side (some (pos p)) (some (pos s)) r =
    if on_grid p then (true, record r { asks = set_level p s r.asks }) else (false, r)
change_level _ _ _ r = (false, r)

unfoldable pub apply_price_change_entry : PriceChange → BookReplica → Bool × BookReplica
apply_price_change_entry entry r =
    if not (is_id entry.asset_id r.asset_id) || not r.seeded
    then (false, r)
    else change_level entry.side (to_micro entry.price) (to_micro entry.size) r

unfoldable pub mark_stale : BookReplica → BookReplica
mark_stale r = record r { bids = []; asks = []; seeded = false }
