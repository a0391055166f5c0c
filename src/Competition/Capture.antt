-- ===== src/Competition/Capture.antt =====
-- services/competition_service.py: `capture`, `_start`, `_end`, `_end_at_bell`, `_take`, `tick`, and
-- their statements. What the chain and the valuations give is an argument; a price is of the
-- type `M`, and the value of a position sold into a state is an argument, as both are floats there.
pub mod Loop
pub mod Once
pub mod Bells
pub mod Sales
pub mod Ends
pub mod States
use agentpit.Prelude.{
  ℕ, ◌+◌, ◌-◌, ◌*◌, max, Bool, true, false, not, ◌&&◌, ◌||◌, Option, none, some, List, [], ◌∷◌,
  ◌++◌, map, filter, any, sum_by, is_some, is_nil, ltb, leb, ◌==◌, if◌then◌else◌,
}
use agentpit.Prelude.Dict.{get, put, remove, nat_eq}
use agentpit.Replica.{BookSnapshot}
use agentpit.Feed.{MirrorState, quote, book_of}
use agentpit.Store.{find, update_where}
use agentpit.Competition.{
  Competition, CompetitionEntry, Account, Holding, Tables, hour, is_entry, find_competition,
  find_user, at_most, still_in, value_at, or_else,
}
use agentpit.Competition.Points.{record_points}

abbrev pub mint_lag : ℕ
mint_lag = 300

abbrev pub end_deadline : ℕ
end_deadline = 3 * 3600

abbrev pub book_grace : ℕ
book_grace = 600

-- What a token sells into: a book, or a price per share.
pub data Exit (M : Type 0) : Type 0 where
  into : BookSnapshot → Exit M
  at_price : M → Exit M

-- A position of a wallet: its token, whether it is settled, its mark, its shares and value in base
-- units.
pub record Position (M : Type 0) : Type 0 where
  pub asset : ℕ
  pub settled : Bool
  pub cur_price : M
  pub shares : ℕ
  pub value : ℕ

pub record Wallet (M : Type 0) : Type 0 where
  pub cash_raw : ℕ
  pub block : ℕ
  pub positions : List (Position M)

-- What a pass reads besides its tables: whether the engine is on, the mirror, the seconds since the
-- process started; the wallet at an address (`none` where the read raises) with the time after it,
-- the last valuation of an address, and whether an account holds over the cap.
pub record Reads (M : Type 0) : Type 0 where
  pub engine_enabled : Bool
  pub house : Option MirrorState
  pub uptime : ℕ
  pub wallet : ℕ → Option (Wallet M × ℕ)
  pub holdings : ℕ → Option (List (Position M))
  pub over_cap : ℕ → Bool
  pub exit_value : Position M → Exit M → ℕ

abbrev pub Bells : Type 0 → Type 0
Bells M = List (ℕ × List (ℕ × Exit M))

pub record Race (M : Type 0) : Type 0 where
  pub db : Tables
  pub cursor : List (ℕ × ℕ)
  pub bells : Bells M

pub data Edge : Type 0 where
  start end : Edge

-- `PendingCapture`
pub record Pending : Type 0 where
  pub slug : ℕ
  pub user_id : ℕ
  pub api_key : ℕ
  pub eth_address : ℕ
  pub run_starts_at : ℕ
  pub ends_at : ℕ
  pub start_raw : Option ℕ
  pub settling : Bool
  pub prize : Bool

-- A capture, as `capture_entry` writes it.
pub record Value : Type 0 where
  pub value_raw : ℕ
  pub at : ℕ
  pub block : Option ℕ
  pub held : Option (List (ℕ × Holding))

abbrev pub untaken : Edge → CompetitionEntry → Bool
untaken start e = not (is_some e.start_raw)
untaken end e = not (is_some e.end_raw)

abbrev pub with_value : Edge → Value → CompetitionEntry → CompetitionEntry
with_value start v e = record e {
  start_raw = some v.value_raw;
  start_holdings = v.held;
  start_at = some v.at;
  end_block = v.block;
}
with_value end v e = record e {
  end_raw = some v.value_raw;
  end_holdings = v.held;
  end_at = some v.at;
  end_block = v.block;
}

unfoldable pub capture_entry : ℕ → ℕ → Edge → Value → Tables → Tables
capture_entry slug user_id edge v db = record db {
  entries =
      update_where (λ e. is_entry slug user_id e && untaken edge e) (with_value edge v) db.entries;
}

abbrev in_run : ℕ → Competition → CompetitionEntry → Bool
in_run now c e = leb (max c.starts_at e.enrolled_at) now && ltb now c.ends_at

abbrev topped_up : ℕ → Option ℕ → Bool
topped_up before none = true
topped_up before (some t) = leb t before

start_due : ℕ → ℕ → Competition → Account → CompetitionEntry → Bool
start_due now before c u e =
    not (is_some e.start_raw)
    && not (is_some u.deleted_at)
    && (in_run now c e && (u.onboarded && topped_up before u.last_topup_at))

end_due : ℕ → Competition → Account → CompetitionEntry → Bool
end_due now c u e =
    is_some e.start_raw
    && not (is_some e.end_raw)
    && (leb c.ends_at now && still_in (some u) c.ends_at)

abbrev pending_of : Competition → Account → CompetitionEntry → Tables → Pending
pending_of c u e db = record {
  slug = e.slug;
  user_id = e.user_id;
  api_key = u.api_key;
  eth_address = u.eth_address;
  run_starts_at = max c.starts_at e.enrolled_at;
  ends_at = c.ends_at;
  start_raw = e.start_raw;
  settling = any (λ k. k == u.api_key) db.pending_takers;
  prize = c.has_prizes;
}

pending_one : ℕ → ℕ → CompetitionEntry → Tables → Option Pending
unfolding start_due end_due
pending_one now before e db = elim (find_competition e.slug db) [
  | none ↦ none
  | some c ↦ (elim (find_user e.user_id db) [
    | none ↦ none
    | some u ↦
        if start_due now before c u e || end_due now c u e then some (pending_of c u e db) else none
  ])
]

-- `ORDER BY e.START_RAW IS NULL, c.ENDS_AT, e.SLUG, e.USER_ID`
abbrev earlier : Pending → Pending → Bool
earlier a b =
    ltb a.ends_at b.ends_at
    || (a.ends_at == b.ends_at
        && (ltb a.slug b.slug || (a.slug == b.slug && leb a.user_id b.user_id)))

abbrev goes_first : Pending → Pending → Bool
goes_first a b =
    if is_some a.start_raw
    then not (is_some b.start_raw) || earlier a b
    else not (is_some b.start_raw) && earlier a b

insert_pending_capture : Pending → List Pending → List Pending
insert_pending_capture p [] = p ∷ []
insert_pending_capture p (q ∷ l) =
    let rest = insert_pending_capture p l in if goes_first p q then p ∷ q ∷ l else q ∷ rest

pending_from : ℕ → ℕ → List CompetitionEntry → Tables → List Pending
unfolding pending_one insert_pending_capture
pending_from now before [] db = []
pending_from now before (e ∷ es) db = elim (pending_one now before e db) [
  | none ↦ pending_from now before es db
  | some p ↦ insert_pending_capture p (pending_from now before es db)
]

unfoldable pub pending_captures : ℕ → ℕ → Tables → List Pending
unfolding pending_from
pending_captures now before db = pending_from now before db.entries db
