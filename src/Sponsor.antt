-- ===== src/Sponsor.antt =====
-- services/gas_sponsor.py: `UserGasSponsor`, which has the admin pay the gas of what a user's own key
-- signs. What the node and the clock say is an argument, `none` where a read raises. What the admin
-- pays for is written down beside what it gets to know: no answer need tell.
pub mod Sending
pub mod Known
pub mod Books
pub mod Ends
use agentpit.Prelude.{
  ℕ, suc, ◌+◌, ◌-◌, ◌*◌, ◌/◌, ◌%◌, Bool, true, false, not, ◌&&◌, ◌||◌, Option, none, some, List, [],
  ◌∷◌, map, ltb, ◌==◌, if◌then◌else◌, ◌⊎◌, inl, inr,
}
use agentpit.Sender.{
  SendError, duplicate, nonce_taken, nonce_invalid, fee_low, queue_full, balance_low, transport,
  other_error,
}
use agentpit.Store.{Db, UserRow}
use agentpit.Store.Gas.{reserve_sponsored_gas}

pub data SponsorKind : Type 0 where
  claim split merge onboarding : SponsorKind

-- A failed send of a user's transaction: `classify_send_error`, `is_balance_low`,
-- `failed_before_connecting` and whether it is a `TxDropped`.
pub record Failed : Type 0 where
  pub kind : SendError
  pub says_balance_low : Bool
  pub before_connecting : Bool
  pub is_dropped : Bool

pub record UserReceipt : Type 0 where
  pub is_success : Bool
  pub gas_used : ℕ

pub data SendAnswer : Type 0 where
  mined : UserReceipt → SendAnswer
  failed : Failed → SendAnswer
  -- A `BaseException`.
  stopped : SendAnswer

-- What `fund_gas` comes to: `TimeExhausted` or `TxUnknown`; `TxDropped`; another exception, with whether
-- it is a `DomainError`, such as the paused breaker's; a `BaseException`.
pub data FundAnswer : Type 0 where
  funded fund_timeout fund_dropped fund_stopped : FundAnswer
  fund_failed : SendError → Bool → FundAnswer

-- What one sizing reads.
pub record Reading : Type 0 where
  pub price : ℕ
  pub estimate : ℕ → ℕ
  pub balance : ℕ

-- A top-up's answer and whether its transfer mines in the end.
pub record TopUp : Type 0 where
  pub answer : FundAnswer
  pub mines : Bool

-- One turn of the loop: the answer to its send, the gas that this transaction burns in the end, 0
-- where it never mines, and what a resize meets.
pub record Turn : Type 0 where
  pub answer : SendAnswer
  pub burns : ℕ
  pub reading : Option Reading
  pub top_up : TopUp

pub data SponsorError : Type 0 where
  top_up_timeout insufficient_gas price_moved reverted over_ceiling read_failed check_failed
        interrupted :
      SponsorError
  budget_exceeded : ℕ → SponsorError
  send_error : Failed → SponsorError
  fund_error : SendError → SponsorError

pub record SponsorSettings : Type 0 where
  pub sponsor_user_gas : Bool
  pub max_topup_gas : ℕ
  pub daily_sponsored_gas : ℕ

abbrev pub transfer_gas : ℕ
transfer_gas = 21000

abbrev pub gas_buffer_pct : ℕ
gas_buffer_pct = 20

abbrev pub seconds_per_day : ℕ
seconds_per_day = 86400

-- chain_rpc.py: `_REFUSED_AT_IMPORT`
abbrev refused_at_import : SendError → Bool
refused_at_import fee_low = true
refused_at_import balance_low = true
refused_at_import nonce_taken = true
refused_at_import nonce_invalid = true
refused_at_import queue_full = true
refused_at_import _ = false

-- chain_rpc.py: `cannot_mine`
abbrev pub cannot_mine : Failed → Bool
cannot_mine f = refused_at_import f.kind || (f.says_balance_low || f.before_connecting)

abbrev pub is_fee_low : SendError → Bool
is_fee_low fee_low = true
is_fee_low _ = false

abbrev pub is_transport : SendError → Bool
is_transport transport = true
is_transport _ = false

abbrev pub sum : List ℕ → ℕ
sum [] = 0
sum (n ∷ ns) = n + sum ns

-- A call and its gas limit.
abbrev pub Sized : Type 0
Sized = ℕ × ℕ

-- `_limits`, each limit with its call.
abbrev pub limits_of : Reading → List ℕ → List Sized
limits_of m calls = map (λ call. (call, m.estimate call * (100 + gas_buffer_pct) / 100)) calls

abbrev pub gas_of : List Sized → ℕ
gas_of limits = sum (map (λ x. x.1) limits)

-- `_size`: the price, the limits and the shortfall.
unfoldable pub size :
    SponsorSettings → Option Reading → List ℕ → SponsorError ⊎ (ℕ × List Sized × ℕ)
size cfg none calls = inl read_failed
size cfg (some m) calls =
    let limits = limits_of m calls in
    let shortfall = gas_of limits * m.price - m.balance in
    if ltb (cfg.max_topup_gas * m.price) shortfall
    then inl over_ceiling
    else inr (m.price, limits, shortfall)

abbrev is_budgeted : SponsorKind → Bool
is_budgeted split = true
is_budgeted merge = true
is_budgeted _ = false

-- `_reserve`: the gas reserved and the day.
unfoldable pub reserve :
    SponsorSettings → UserRow → SponsorKind → List Sized → ℕ → Db → (SponsorError ⊎ (ℕ × ℕ)) × Db
reserve cfg user kind limits now db =
    let day = now / seconds_per_day in
    if not (is_budgeted kind) || (user.is_bot || cfg.daily_sponsored_gas == 0)
    then (inr (0, day), db)
    else (let gas = gas_of limits + transfer_gas in
        let (accepted, db') =
          reserve_sponsored_gas user.api_key day gas cfg.daily_sponsored_gas db in
        if accepted
        then (inr (gas, day), db')
        else (inl (budget_exceeded (seconds_per_day - now % seconds_per_day)), db'))

-- What the admin or the user broadcast: a top-up, or a call at its
-- limit and price, with the answer and the gas that it burns in the end.
pub data Event : Type 0 where
  topped : TopUp → Event
  broadcast : Sized → ℕ → SendAnswer → ℕ → Event

-- `_Paid`, and what was broadcast, the last one first.
pub record Paid : Type 0 where
  pub topups : ℕ
  pub receipts : List UserReceipt
  pub unseen : Bool
  pub events : List Event

-- `_Paid.gas`
abbrev pub paid_gas : Paid → ℕ
paid_gas p = p.topups * transfer_gas + sum (map (λ r. r.gas_used) p.receipts)

abbrev pub nothing_paid : Paid
nothing_paid = record { topups = 0; receipts = []; unseen = false; events = [] }

-- `_top_up`: the error that it raises and whether it is a `DomainError`.
unfoldable pub top_up : TopUp → Paid → Option (SponsorError × Bool) × Paid
top_up t p =
    let out = record p { unseen = true; events = topped t ∷ p.events } in
    elim t.answer [
      | funded ↦ (none, record out { unseen = false; topups = suc p.topups })
      | fund_timeout ↦ (some (top_up_timeout, true), out)
      | fund_dropped ↦ (some (top_up_timeout, true), record out { unseen = false })
      | fund_stopped ↦ (some (interrupted, false), out)
      | fund_failed kind is_domain ↦
          (some (fund_error kind, is_domain), record out { unseen = is_transport kind })
    ]

-- A `DomainError` stays; any other exception means "busy".
abbrev resize_error : SponsorError → Bool → SponsorError
resize_error interrupted is_domain = interrupted
resize_error e true = e
resize_error e false = top_up_timeout

-- `_resize`: the new price and limits.
unfoldable pub resize :
    SponsorSettings
    → Option Reading
    → TopUp
    → List ℕ
    → Paid
    → (SponsorError ⊎ (ℕ × List Sized)) × Paid
unfolding size top_up
resize cfg reading t calls p = elim (size cfg reading calls) [
  | inl e ↦ (inl top_up_timeout, p)
  | inr (price, limits, shortfall) ↦
      if ltb 0 shortfall
      then (let (error, p') = top_up t p in
          elim error [
            | none ↦ (inr (price, limits), p')
            | some (e, is_domain) ↦ (inl (resize_error e is_domain), p')
          ])
      else (inr (price, limits), p)
]
