-- ===== src/Store/Holdings.antt =====
-- db/table_read.py: `EVENT_HOLDINGS_CTE` and `event_room`, the shares that an account holds in an
-- event and the room that a prize competition leaves it.
use agentpit.Prelude.{
  ℕ, ◌+◌, ◌-◌, ◌*◌, max, Bool, true, false, ◌&&◌, Option, none, some, List, [], ◌∷◌, map, filter,
  any, sum_by, ltb, leb, ◌==◌, if◌then◌else◌,
}
use agentpit.Prelude.Dict.{pair_beq}
use agentpit.Exchange.{is_buy}
use agentpit.Store.{
  Db, MarketRow, TradeRow, TradeStatus, pending, confirmed, TransferRow, CompetitionRow, EntryRow,
  UserRow, find_market, member,
}

-- `EVENT_SHARES * MICRO`
abbrev pub event_cap : ℕ
event_cap = 20000 * 1000000

-- `COALESCE(EVENT_ID, -MARKET_ID)`
abbrev pub event_key : MarketRow → Bool × ℕ
event_key m = elim m.event_id [ none ↦ (false, m.market_id) | some e ↦ (true, e) ]

abbrev counts : TradeStatus → Bool
counts pending = true
counts confirmed = true
counts _ = false

abbrev unresolved : MarketRow → Bool
unresolved m = elim m.payouts [ none ↦ true | some p ↦ false ]

-- The account's fills in a token of a market, on the side that `wanted` tells.
abbrev fills : ℕ → MarketRow → ℕ → Bool → List TradeRow → ℕ
fills api_key m token wanted = sum_by (λ t.
    if (t.taker_api_key == api_key && counts t.status)
      && ((t.market == m.condition_id && t.asset_id == token)
          && (if is_buy t.side then wanted else if wanted then false else true))
    then t.trade_size
    else 0)

-- Its landed splits (or merges) of a market, which move every outcome.
abbrev moved : ℕ → MarketRow → Bool → List TransferRow → ℕ
moved api_key m wanted = sum_by (λ x.
    if (x.api_key == api_key && x.market_id == m.market_id)
      && (if x.split then wanted else if wanted then false else true)
    then x.amount
    else 0)

-- `GREATEST(SUM(SHARES), 0)` for one token.
unfoldable pub token_shares : ℕ → MarketRow → ℕ → Db → ℕ
token_shares api_key m token db =
    let in_market = λ (n : ℕ). if member token m.tokens then n else 0 in
    fills api_key m token true db.trades
    + in_market (moved api_key m true db.transfers)
    - (fills api_key m token false db.trades + in_market (moved api_key m false db.transfers))

dedup_onto : List ℕ → List ℕ → List ℕ
dedup_onto [] seen = seen
dedup_onto (t ∷ ts) seen = dedup_onto ts (if member t seen then seen else t ∷ seen)

-- The tokens that `legs` groups by: the market's own, and those of its trades.
tokens_of : MarketRow → List TradeRow → List ℕ
unfolding dedup_onto
tokens_of m trades =
    dedup_onto (map (λ t. t.asset_id) (filter (λ t. t.market == m.condition_id) trades))
      (dedup_onto m.tokens [])

-- The account's shares in the event `key`, over its unresolved markets.
unfoldable pub held : ℕ → Bool × ℕ → Db → ℕ
unfolding tokens_of token_shares
held api_key key db =
    sum_by
      (λ m.
        if unresolved m && pair_beq (event_key m) key
        then sum_by (λ token. token_shares api_key m token db) (tokens_of m db.trades)
        else 0)
      db.markets

-- `GREATEST(STARTS_AT, ENROLLED_AT) <= now < ENDS_AT`, in a competition with prizes.
unfoldable pub in_prize_run : ℕ → ℕ → Db → Bool
in_prize_run api_key now db =
    any
      (λ (u : UserRow).
        u.api_key == api_key
        && any
            (λ (e : EntryRow).
              e.user_id == u.user_id
              && any
                  (λ (c : CompetitionRow).
                    (c.slug == e.slug && c.has_prizes)
                    && (leb (max c.starts_at e.enrolled_at) now && ltb now c.ends_at))
                  db.competitions)
            db.entries)
      db.users

-- `event_room`: the room left, or none outside a prize run.
unfoldable pub event_room : ℕ → ℕ → ℕ → Db → Option ℕ
unfolding in_prize_run held
event_room api_key market_id now db = elim (find_market market_id db) [
  | none ↦ none
  | some m ↦
      if in_prize_run api_key now db then some (event_cap - held api_key (event_key m) db) else none
]
