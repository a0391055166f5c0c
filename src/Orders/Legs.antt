-- ===== src/Orders/Legs.antt =====
-- datastructures/match_leg.py: what each account of a trade did. A trade that the order service
-- wrote has a kind and a maker's asset; its price is below one dollar, so that `MICRO - price` does
-- not stop at 0.
use agentpit.Prelude.{
  ℕ, ◌+◌, ◌-◌, ◌≤◌, ◌≡◌, refl, Bool, true, false, List, [], ◌∷◌, ◌++◌, ◌==◌, arith, if◌then◌else◌,
}
use agentpit.Exchange.{Side, buy, sell, is_buy}
use agentpit.Replica.{micro}
use agentpit.Store.{TradeRow, MatchKind, normal, mint, merge}

pub record Leg : Type 0 where
  pub token_id : ℕ
  pub side : Side
  pub price_micro : ℕ
  pub size_micro : ℕ
  pub is_taker : Bool

abbrev opposite : Side → Side
opposite buy = sell
opposite sell = buy

abbrev side_of_leg : MatchKind → Bool → Side → Side
side_of_leg mint is_taker side = buy
side_of_leg merge is_taker side = sell
side_of_leg normal is_taker side = if is_taker then side else opposite side

abbrev price_of_leg : MatchKind → Bool → ℕ → ℕ
price_of_leg normal is_taker price = price
price_of_leg _ is_taker price = if is_taker then micro - price else price

abbrev token_of_leg : MatchKind → Bool → TradeRow → ℕ
token_of_leg normal is_taker t = t.asset_id
token_of_leg _ is_taker t = if is_taker then t.asset_id else t.maker_asset_id

-- `_leg`
unfoldable pub leg : TradeRow → Bool → Leg
leg t is_taker = record {
  token_id = token_of_leg t.kind is_taker t;
  side = side_of_leg t.kind is_taker t.side;
  price_micro = price_of_leg t.kind is_taker t.price;
  size_micro = t.trade_size;
  is_taker = is_taker;
}

-- `legs_for_user`
unfoldable pub legs_for_user : TradeRow → ℕ → List Leg
unfolding leg
legs_for_user t api_key =
    (if t.taker_api_key == api_key then leg t true ∷ [] else [])
    ++ (if t.maker_api_key == api_key then leg t false ∷ [] else [])

-- How two legs of a trade meet: one token changes hands at one price, or a pair of tokens is made
-- or burnt for one dollar.
abbrev pub Meet : MatchKind → Leg → Leg → Type 0
Meet normal a b =
    (a.token_id ≡ b.token_id)
    × (a.price_micro ≡ b.price_micro)
    × (is_buy a.side ≡ (if is_buy b.side then false else true))
Meet mint a b = (a.side ≡ buy) × (b.side ≡ buy) × (a.price_micro + b.price_micro ≡ micro)
Meet merge a b = (a.side ≡ sell) × (b.side ≡ sell) × (a.price_micro + b.price_micro ≡ micro)

leg-Meet :
    (kind : MatchKind) (t : TradeRow)
    → t.kind ≡ kind
    → t.price ≤ micro
    → Meet kind (leg t true) (leg t false)
unfolding leg
leg-Meet normal t e le = ground (arith, e)
leg-Meet mint t e le = ground (arith, e)
leg-Meet merge t e le = ground (arith, e)

-- Where the price is at most one dollar, an account that is on both sides of a trade has its two
-- legs, and they meet.
legs_for_user_both :
    (t : TradeRow) (api_key : ℕ)
    → t.taker_api_key ≡ api_key
    → t.maker_api_key ≡ api_key
    → t.price ≤ micro
    → (a : Leg) × (b : Leg) × (legs_for_user t api_key ≡ a ∷ b ∷ []) × Meet t.kind a b
unfolding legs_for_user
legs_for_user_both t api_key et em le =
    (leg t true, leg t false, ground (arith, et, em), leg-Meet t.kind t refl le)
