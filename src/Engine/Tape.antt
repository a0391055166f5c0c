-- ===== src/Engine/Tape.antt =====
-- liquidity/mirror.py and liquidity/tape.py: the prints that the tape writes into `trades`. A
-- timestamp is what `int()` reads of it, and `none` where that fails or is below 0. The empty order
-- id is 0; the tape's key is a number that stands for its constant, and the ids that are drawn at
-- random are a list.
pub mod Rows
use agentpit.Prelude.{
  ℕ, suc, ◌/◌, Bool, true, false, not, ◌&&◌, ◌||◌, Option, none, some, List, [], ◌∷◌, ◌++◌, ltb,
  is_nil, ℤ, pos, negsuc, if◌then◌else◌,
}
use agentpit.Prelude.Dict.{get, nat_eq}
use agentpit.Exchange.{Side, buy, sell}
use agentpit.Replica.{micro, to_micro, SideField, buy_side, sell_side, other_side}
use agentpit.Store.{Db, TradeRow, mirrored, normal}
use agentpit.Feed.{MarketRef, MirrorState, TradeEvent}

pub record MirroredPrint : Type 0 where
  pub condition_id : ℕ
  pub yes_token : ℕ
  pub no_token : ℕ
  pub price_micro : ℕ
  pub size_micro : ℕ
  pub side : Side
  pub match_time_s : ℕ

abbrev ref_of : MirrorState → Option ℕ → Option MarketRef
ref_of s none = none
ref_of s (some a) = get s.by_asset a

abbrev side_of : SideField → Option Side
side_of buy_side = some buy
side_of sell_side = some sell
side_of other_side = none

abbrev seconds : Option ℕ → ℕ
seconds none = 0
seconds (some ms) = ms / 1000

-- The print of an event, on what its fields parse to.
print_of : Option MarketRef → Option ℤ → Option ℤ → Option Side → ℕ → Option MirroredPrint
print_of (some ref) (some (pos price)) (some (pos size)) (some side) at =
    if ltb 0 size && (ltb 0 at && (ltb 0 price && ltb price micro))
    then some (record {
      condition_id = ref.condition_id;
      yes_token = ref.yes_token;
      no_token = ref.no_token;
      price_micro = price;
      size_micro = size;
      side = side;
      match_time_s = at;
    })
    else none
print_of _ _ _ _ at = none

unfoldable pub event_print : MirrorState → TradeEvent → Option MirroredPrint
unfolding print_of
event_print s ev =
    print_of (ref_of s ev.asset_id) (to_micro ev.price) (to_micro ev.size) (side_of ev.side)
      (seconds ev.timestamp)

-- The loop that empties the queue.
unfoldable pub prints_of : MirrorState → List TradeEvent → List MirroredPrint
unfolding event_print
prints_of s [] = []
prints_of s (ev ∷ evs) = elim (event_print s ev) [
  | none ↦ prints_of s evs
  | some p ↦ p ∷ prints_of s evs
]

abbrev no_order : ℕ
no_order = 0

unfoldable pub mirrored_row : ℕ → ℕ → MirroredPrint → TradeRow
mirrored_row mirror_key trade_id p = record {
  trade_id = trade_id;
  taker_order_id = no_order;
  maker_order_id = no_order;
  market = p.condition_id;
  asset_id = p.yes_token;
  maker_asset_id = p.no_token;
  kind = normal;
  price = p.price_micro;
  trade_size = p.size_micro;
  remaining_size = 0;
  side = p.side;
  status = mirrored;
  match_time = p.match_time_s;
  transaction_hash = none;
  taker_api_key = mirror_key;
  maker_api_key = mirror_key;
}

-- The rows of the prints, each under a fresh id.
unfoldable pub mirrored_rows : ℕ → (ℕ → ℕ) → ℕ → List MirroredPrint → List TradeRow
unfolding mirrored_row
mirrored_rows mirror_key drawn i [] = []
mirrored_rows mirror_key drawn i (p ∷ prints) =
    mirrored_row mirror_key (drawn i) p ∷ mirrored_rows mirror_key drawn (suc i) prints

unfoldable pub insert_mirrored_trades : ℕ → (ℕ → ℕ) → List MirroredPrint → Db → Db
unfolding mirrored_rows
insert_mirrored_trades mirror_key drawn prints db = record db {
  trades = db.trades ++ mirrored_rows mirror_key drawn 0 prints;
}

-- One round of `run_tape`, up to its sleep; `written` tells whether the write succeeds.
unfoldable pub tape_round : Bool → Bool → ℕ → (ℕ → ℕ) → MirrorState → Db → MirrorState × Db
unfolding prints_of insert_mirrored_trades
tape_round enabled written mirror_key drawn s db =
    let prints = prints_of s s.trades in
    let drained = record s { trades = [] } in
    (
      drained,
      if not (is_nil prints) && (enabled && written)
          then insert_mirrored_trades mirror_key drawn prints db
          else db,
    )
