-- ===== src/Sponsor/Sending.antt =====
-- services/gas_sponsor.py: the sends of `UserGasSponsor.send` and their booking.
use agentpit.Prelude.{
  ℕ, Bool, true, false, not, ◌&&◌, ◌||◌, Option, none, some, List, [], ◌∷◌, map, ltb, ◌==◌,
  if◌then◌else◌, inl, inr, ℤ, pos, pos_part, neg_part, sub_ℕ, max_ℤ,
}
use agentpit.Store.{Db, UserRow}
use agentpit.Store.Gas.{add_sponsored_gas}
use agentpit.Sponsor.{
  SponsorKind, onboarding, Failed, UserReceipt, mined, failed, stopped, Reading, TopUp, Turn,
  SponsorError, top_up_timeout, insufficient_gas, price_moved, reverted, read_failed, check_failed,
  interrupted, send_error, SponsorSettings, cannot_mine, is_fee_low, Sized, limits_of, size,
  reserve, broadcast, Paid, paid_gas, nothing_paid, top_up, resize,
}

-- What the loop comes to: `none` when it has no turn left, else the error that it raises, if any.
abbrev pub Ending : Type 0
Ending = Option (Option SponsorError) × Paid

-- A raised `TxDropped` becomes "busy, try again".
abbrev raised : Failed → SponsorError
raised f = if f.is_dropped then top_up_timeout else send_error f

-- The turn's record, before the next one.
abbrev pub saw_receipt : Sized → ℕ → Turn → UserReceipt → Paid → Paid
saw_receipt x price t r p = record p {
  unseen = false;
  receipts = r ∷ p.receipts;
  events = broadcast x price t.answer t.burns ∷ p.events;
}

abbrev pub saw_failure : Sized → ℕ → Turn → Failed → Paid → Paid
saw_failure x price t f p = record p {
  unseen = not (f.is_dropped || cannot_mine f);
  events = broadcast x price t.answer t.burns ∷ p.events;
}

abbrev pub saw_stop : Sized → ℕ → Turn → Paid → Paid
saw_stop x price t p = record p {
  unseen = true;
  events = broadcast x price t.answer t.burns ∷ p.events;
}

-- The loop of `_send_sponsored` over the calls that are left: each has one resize and retry.
unfoldable pub send_calls : SponsorSettings → List Turn → List Sized → ℕ → Bool → Paid → Ending
unfolding resize
send_calls cfg turns [] price retried p = (some none, p)
send_calls cfg [] (x ∷ xs) price retried p = (none, p)
send_calls cfg (t ∷ turns) (x ∷ xs) price retried p = elim t.answer [
  | mined r ↦ send_calls cfg turns xs price false (saw_receipt x price t r p)
  | stopped ↦ (some (some interrupted), saw_stop x price t p)
  | failed f ↦
      if not f.says_balance_low && not (is_fee_low f.kind)
      then (some (some (raised f)), saw_failure x price t f p)
      else if retried
      then (
        some (some (if f.says_balance_low then insufficient_gas else price_moved)),
        saw_failure x price t f p,
      )
      else (let (sized, p') =
            resize cfg t.reading t.top_up (map (λ y. y.0) (x ∷ xs)) (saw_failure x price t f p) in
          elim sized [
            | inl e ↦ (some (some e), p')
            | inr (price', xs') ↦ send_calls cfg turns xs' price' true p'
          ])
]

abbrev is_zero : ℤ → Bool
is_zero n = pos_part n == 0 && neg_part n == 0

-- `_book`, where `gas - reserved` may be below 0; `can_write` is false where the write raises.
unfoldable pub book : UserRow → Bool → ℕ → ℕ → ℕ → Bool → Db → Db
book user can_write gas reserved day unseen db =
    let delta = sub_ℕ gas reserved in
    let owed = if unseen then max_ℤ delta (pos 0) else delta in
    if user.is_bot || (is_zero owed || not can_write)
    then db
    else add_sponsored_gas user.api_key day owed db

pub record Sponsored : Type 0 where
  pub outcome : Option (Option SponsorError)
  pub paid : Paid
  -- What `_reserve` reserved.
  pub reserved : ℕ
  pub db : Db

abbrev unpaid : SponsorError → Db → Sponsored
unpaid e db = record { outcome = some (some e); paid = nothing_paid; reserved = 0; db = db }

-- What a send meets before and after its loop.
pub record Meeting : Type 0 where
  pub now : ℕ
  pub reading : Option Reading
  pub top_up : TopUp
  -- Whether `before_send` lets it go on.
  pub passes_check : Bool
  pub turns : List Turn
  pub can_write : Bool

-- The first top-up, where the wallet is short.
unfoldable pub fund_first : Meeting → ℕ → Option (SponsorError × Bool) × Paid
unfolding top_up
fund_first m shortfall =
    if ltb 0 shortfall then top_up m.top_up nothing_paid else (none, nothing_paid)

-- The check and the loop, after the first top-up.
unfoldable pub check_and_send :
    SponsorSettings → Meeting → ℕ → List Sized → Option (SponsorError × Bool) × Paid → Ending
unfolding send_calls
check_and_send cfg m price limits (some (e, is_domain), p) = (some (some e), p)
check_and_send cfg m price limits (none, p) =
    if m.passes_check
    then send_calls cfg m.turns limits price false p
    else (some (some check_failed), p)

-- `_send_sponsored`
unfoldable pub send_sponsored :
    SponsorSettings → UserRow → SponsorKind → List ℕ → Meeting → Db → Sponsored
unfolding size reserve fund_first check_and_send book
send_sponsored cfg user kind calls m db = elim (size cfg m.reading calls) [
  | inl e ↦ unpaid e db
  | inr (price, limits, shortfall) ↦
      (let (granted, db') = reserve cfg user kind limits m.now db in
        elim granted [
          | inl e ↦ unpaid e db'
          | inr (reserved, day) ↦
              let (outcome, p) = check_and_send cfg m price limits (fund_first m shortfall) in
              record {
                outcome = outcome;
                paid = p;
                reserved = reserved;
                db = book user m.can_write (paid_gas p) reserved day p.unseen db';
              }
        ])
]

-- The loop of `_send_unsponsored`: nothing is topped up or booked.
unfoldable pub send_plain : List Turn → List Sized → ℕ → Paid → Ending
send_plain turns [] price p = (some none, p)
send_plain [] (x ∷ xs) price p = (none, p)
send_plain (t ∷ turns) (x ∷ xs) price p = elim t.answer [
  | mined r ↦ send_plain turns xs price (saw_receipt x price t r p)
  | stopped ↦ (some (some interrupted), saw_stop x price t p)
  | failed f ↦ (
    some (some (if f.says_balance_low then insufficient_gas else send_error f)),
    saw_failure x price t f p,
  )
]

-- `_send_unsponsored`
unfoldable pub send_unsponsored : List ℕ → Meeting → Db → Sponsored
unfolding send_plain
send_unsponsored calls m db = elim m.reading [
  | none ↦ unpaid read_failed db
  | some reading ↦
      if not m.passes_check
      then unpaid check_failed db
      else (let (outcome, p) =
            send_plain m.turns (limits_of reading calls) reading.price nothing_paid in
          record { outcome = outcome; paid = p; reserved = 0; db = db })
]

-- The receipts are looked at when all are there.
abbrev pub all_succeeded : List UserReceipt → Bool
all_succeeded [] = true
all_succeeded (r ∷ rs) = r.is_success && all_succeeded rs

abbrev pub with_reverts : Sponsored → Sponsored
with_reverts r = record r {
  outcome = elim r.outcome [
    | some none ↦ if all_succeeded r.paid.receipts then some none else some (some reverted)
    | o ↦ o
  ];
}

abbrev pub is_onboarding : SponsorKind → Bool
is_onboarding onboarding = true
is_onboarding _ = false

-- `send`, inside the user's lock; `exported` is `_exported`.
unfoldable pub send :
    SponsorSettings → UserRow → SponsorKind → Bool → List ℕ → Meeting → Db → Sponsored
unfolding send_sponsored send_unsponsored
send cfg user kind exported calls m db =
    if (not (is_onboarding kind) && not cfg.sponsor_user_gas) || exported
    then with_reverts (send_unsponsored calls m db)
    else with_reverts (send_sponsored cfg user kind calls m db)
