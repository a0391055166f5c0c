-- ===== src/Sender.antt =====
-- onchain/tx_sender.py and onchain/chain_rpc.py: what the admin key's sender keeps, and its parts that
-- ask the node nothing. One thread holds the send lock. Hashes are numbers; a hash is what the
-- signer makes of an action, the fees and the nonce. Clock readings are numbers that do not fall.
pub mod Poll
pub mod Rounds
pub mod Send
pub mod Batch
use agentpit.Prelude.{
  ℕ, suc, ◌+◌, ◌-◌, ◌*◌, ◌<◌, Bool, true, false, not, ◌&&◌, ◌||◌, Option, none, some, List, [], ◌∷◌,
  map, filter, any, length, is_some, ltb, leb, ◌==◌, if◌then◌else◌, ℤ, pos_part, neg_part, sub_ℕ,
}
use agentpit.Prelude.Dict.{get, put, nat_eq}

-- chain_rpc.py: `SendError`
pub data SendError : Type 0 where
  duplicate nonce_taken nonce_invalid fee_low queue_full balance_low transport other_error :
      SendError

-- An exception of a send: what `classify_send_error` and `failed_before_connecting` say of it. Only
-- an unanswered send has failed before connecting.
pub record Failure : Type 0 where
  pub kind : SendError
  pub before_connecting : Bool

pub record Receipt : Type 0 where
  pub is_success : Bool
  pub gas_used : Option ℕ
  pub gas_price : Option ℕ

pub record PendingTx : Type 0 where
  pub tx_hash : ℕ
  pub nonce : ℕ

-- `_Entry`
pub record Entry : Type 0 where
  pub nonce : ℕ
  pub sent_at : ℕ
  pub value : ℕ
  pub receipt : Option Receipt
  pub superseded_by : Option ℕ
  pub dropped : Bool
  pub done_at : Option ℕ
  pub suspect_since : Option ℕ

abbrev pub is_done : Entry → Bool
is_done e = is_some e.receipt || e.dropped

-- (maxFeePerGas, maxPriorityFeePerGas)
abbrev pub Fees : Type 0
Fees = ℕ × ℕ

pub record Sender : Type 0 where
  pub entries : List (ℕ × Entry)
  pub next_nonce : Option ℕ
  pub fees : Option (Fees × ℕ)
  pub pinned_fees : Option Fees
  pub max_in_flight : ℕ
  pub admin_balance : Option ℤ
  pub last_reap : Option ℕ
  pub last_stall_check : Option ℕ

-- What an action sends.
pub record Action : Type 0 where
  pub id : ℕ
  pub gas : ℕ
  pub value : ℕ

-- What is fixed when the sender is made, with the signer and the filler's hash.
pub record Config : Type 0 where
  pub sign : Action → Fees → ℕ → ℕ
  pub sign_filler : Fees → ℕ → ℕ
  pub max_skips : ℕ
  pub stall_after : ℕ
  pub half_poll_interval : ℕ
  pub fee_ttl : ℕ
  pub forget_done_after : ℕ
  pub alarm_gas : ℕ
  pub stop_gas : ℕ

abbrev pub new_entry : ℕ → ℕ → ℕ → Entry
new_entry nonce now value = record {
  nonce = nonce;
  sent_at = now;
  value = value;
  receipt = none;
  superseded_by = none;
  dropped = false;
  done_at = none;
  suspect_since = none;
}

-- `_accept`: the counter never goes back.
unfoldable pub accept : ℕ → ℕ → ℕ → ℕ → Sender → Sender
accept now tx_hash nonce value s = record s {
  entries = put tx_hash (new_entry nonce now value) s.entries;
  next_nonce = elim s.next_nonce [
    | none ↦ some (nonce + 1)
    | some n ↦ some (if leb n nonce then nonce + 1 else n)
  ];
}

-- `_in_flight_count`
abbrev pub count_live : List (ℕ × Entry) → ℕ
count_live es = length (filter (λ p. not (is_done p.1)) es)

abbrev pub in_flight_count : Sender → ℕ
in_flight_count s = count_live s.entries

-- `_any_in_flight`: an entry that is gone counts as done.
abbrev pub is_live : List (ℕ × Entry) → ℕ → Bool
is_live es h = elim (get es h) [ none ↦ false | some e ↦ not (is_done e) ]

abbrev pub any_in_flight : List ℕ → Sender → Bool
any_in_flight hs s = any (is_live s.entries) hs

-- The reading has passed `since` by `wait` at the least, or there is no such time yet.
abbrev pub has_passed : Option ℕ → ℕ → ℕ → Bool
has_passed none wait now = true
has_passed (some since) wait now = leb (since + wait) now

-- `_fee_params`: the cached fees, or those that the node gives, where the read succeeds.
abbrev store_fees : Option Fees → ℕ → Sender → Option (Fees × Sender)
store_fees none now s = none
store_fees (some f) now s = some (f, record s { fees = some (f, now) })

unfoldable pub fee_params : Config → ℕ → Option Fees → Sender → Option (Fees × Sender)
fee_params c now node s = elim s.fees [
  | none ↦ store_fees node now s
  | some (f, at) ↦ if ltb (at + c.fee_ttl) now then store_fees node now s else some (f, s)
]

-- `_debit`
unfoldable pub debit : Receipt → ℕ → Sender → Sender
debit r value s = elim r.gas_used [
  | none ↦ s
  | some used ↦ (elim r.gas_price [
    | none ↦ s
    | some price ↦
        let cost = used * price + (if r.is_success then value else 0) in
        record s {
          admin_balance = elim s.admin_balance [
            | none ↦ none
            | some b ↦ some (sub_ℕ (pos_part b) (neg_part b + cost))
          ];
        }
  ])
]

pub data GasState : Type 0 where
  unknown paused low fine : GasState

-- `balance < gas * price`
abbrev is_below : ℤ → ℕ → Bool
is_below b cost = ltb (pos_part b) (cost + neg_part b)

-- `gas_state`, at the price of the current fees.
unfoldable pub gas_state : Config → ℕ → Sender → GasState
gas_state c price s = elim s.admin_balance [
  | none ↦ unknown
  | some b ↦
      if not (c.stop_gas == 0) && is_below b (c.stop_gas * price)
      then paused
      else if not (c.alarm_gas == 0) && is_below b (c.alarm_gas * price)
      then low
      else fine
]

abbrev is_paused : GasState → Bool
is_paused paused = true
is_paused _ = false

-- `_gate`: whether a send may go on.
unfoldable pub gate : Config → ℕ → Bool → Sender → Bool
unfolding gas_state
gate c price essential s = essential || (c.stop_gas == 0 || not (is_paused (gas_state c price s)))
