-- ===== src/Competition/Enrolling.antt =====
-- services/competition_service.py: `enroll` and `leave`. The first reads of `enroll` come before its
-- transaction: the model takes the tables of both. Whether the agent holds positions that keep it
-- from entering is an argument.
pub mod Seats
pub mod Owners
pub mod Locked
use agentpit.Prelude.{
  ℕ, ◌+◌, ◌-◌, Bool, true, false, not, ◌&&◌, ◌||◌, Option, none, some, List, [], ◌∷◌, ◌++◌, filter,
  any, is_some, ltb, leb, ◌==◌, if◌then◌else◌,
}
use agentpit.Store.{find}
use agentpit.Competition.{
  Competition, CompetitionEntry, Account, Tables, hour, is_entry, find_competition, find_user,
}

abbrev pub lock : ℕ
lock = 86400

pub data Phase : Type 0 where
  upcoming locked live ended : Phase

abbrev pub locks_at : Competition → ℕ
locks_at c = c.starts_at - lock

unfoldable pub phase : ℕ → Competition → Phase
phase now c =
    if ltb now (locks_at c)
    then upcoming
    else if ltb now c.starts_at
    then locked
    else if ltb now c.ends_at
    then live
    else ended

-- An account as a would-be entrant.
pub record Seat : Type 0 where
  pub owner : Option ℕ
  pub eth_address : ℕ
  pub enrolled_at : Option ℕ
  pub taken : Bool

abbrev pub same_option : Option ℕ → Option ℕ → Bool
same_option none none = true
same_option (some a) (some b) = a == b
same_option _ _ = false

abbrev pub same_bool : Bool → Bool → Bool
same_bool a b = if a then b else not b

abbrev pub same_seat : Option Seat → Seat → Bool
same_seat none s = false
same_seat (some t) s =
    same_option t.owner s.owner
    && (t.eth_address == s.eth_address
        && (same_option t.enrolled_at s.enrolled_at && same_bool t.taken s.taken))

abbrev pub has_prizes : Option Competition → Bool
has_prizes none = false
has_prizes (some c) = c.has_prizes

abbrev pub owned_by : ℕ → Option ℕ → CompetitionEntry → Bool
owned_by slug none e = false
owned_by slug (some owner) e = e.slug == slug && e.owner == owner

abbrev enrolled_time : Option CompetitionEntry → Option ℕ
enrolled_time none = none
enrolled_time (some e) = some e.enrolled_at

abbrev eligible : Account → Bool
eligible u = not u.is_bot && not (is_some u.deleted_at) && (not u.peer_flagged && u.onboarded)

unfoldable pub seat_of : ℕ → Account → Tables → Seat
seat_of slug u db = record {
  owner = if eligible u then u.owner else none;
  eth_address = u.eth_address;
  enrolled_at = enrolled_time (find (is_entry slug u.user_id) db.entries);
  taken =
      has_prizes (find_competition slug db)
      && any (λ o. owned_by slug u.owner o && not (o.user_id == u.user_id)) db.entries;
}

-- `TableRead.seat`
unfoldable pub seat : ℕ → ℕ → Tables → Option Seat
unfolding seat_of
seat slug user_id db = elim (find_user user_id db) [
  | none ↦ none
  | some u ↦ some (seat_of slug u db)
]

abbrev pub blank_entry : ℕ → ℕ → ℕ → ℕ → CompetitionEntry
blank_entry slug owner user_id now = record {
  slug = slug;
  owner = owner;
  user_id = user_id;
  enrolled_at = now;
  start_raw = none;
  start_at = none;
  start_holdings = none;
  end_raw = none;
  end_at = none;
  end_block = none;
  end_holdings = none;
}

-- `enter_competition`
unfoldable pub enter_competition : ℕ → ℕ → ℕ → ℕ → Bool → Tables → Bool × Tables
enter_competition slug owner user_id now replace db =
    let kept =
      if replace then filter (λ e. not (owned_by slug (some owner) e)) db.entries else db.entries in
    if any (is_entry slug user_id) kept
    then (false, record db { entries = kept })
    else (true, record db { entries = kept ++ blank_entry slug owner user_id now ∷ [] })

-- What a call comes to: `again` where it calls itself once more.
pub data Enrolled : Type 0 where
  enrolled : ℕ → Enrolled
  not_found refused holds_positions again : Enrolled

abbrev from_lock : Bool → Seat → Option Enrolled
from_lock holds s = if s.taken then some refused else if holds then some holds_positions else none

abbrev late : ℕ → Bool → Competition → Seat → Option Enrolled
late now holds c s = if leb (c.ends_at - hour) now then some refused else from_lock holds s

-- What refuses an agent that is not entered yet; `holds` tells of positions.
abbrev pub refusal : ℕ → Bool → Bool → Competition → Seat → Option Enrolled
refusal now switch holds c s = elim (phase now c) [
  | ended ↦ some refused
  | upcoming ↦
      if leb (c.ends_at - hour) now
      then some refused
      else if s.taken && not switch
      then some refused
      else none
  | locked ↦ late now holds c s
  | live ↦ late now holds c s
]

-- The transaction, under the lock of the owner's row, whose making is not modelled: the entry is
-- written only where the seat is still what was read.
unfoldable pub enter : ℕ → ℕ → ℕ → ℕ → Seat → Tables → Enrolled × Tables
unfolding enter_competition seat
enter slug owner user_id now s db =
    let (entered, db') = enter_competition slug owner user_id now s.taken db in
    if same_seat (seat slug user_id db) s
    then (if entered then enrolled now else again, db')
    else (again, db)

unfoldable pub enroll_seat :
    ℕ → ℕ → ℕ → Bool → Bool → Competition → Option Seat → Tables → Enrolled × Tables
unfolding enter phase
enroll_seat slug user_id now switch holds c none db = (refused, db)
enroll_seat slug user_id now switch holds c (some s) db = elim s.enrolled_at [
  | some at ↦ (enrolled at, db)
  | none ↦ (elim s.owner [
    | none ↦ (refused, db)
    | some owner ↦ (elim (refusal now switch holds c s) [
      | some answer ↦ (answer, db)
      | none ↦ enter slug owner user_id now s db
    ])
  ])
]

-- `enroll`, up to its call of itself: `read` are the tables of its reads.
unfoldable pub enroll : ℕ → ℕ → ℕ → Bool → Bool → Tables → Tables → Enrolled × Tables
unfolding enroll_seat seat
enroll user_id slug now switch holds read db = elim (find_competition slug read) [
  | none ↦ (not_found, db)
  | some c ↦ enroll_seat slug user_id now switch holds c (seat slug user_id read) db
]

-- `leave`: whether it was allowed, and the tables.
unfoldable pub leave : ℕ → ℕ → ℕ → Tables → Tables → Bool × Tables
unfolding phase
leave user_id slug now read db = elim (find_competition slug read) [
  | none ↦ (false, db)
  | some c ↦
      let left = record db { entries = filter (λ e. not (is_entry slug user_id e)) db.entries } in
      elim (phase now c) [
        | upcoming ↦ (true, left)
        | locked ↦ (false, db)
        | live ↦ (false, db)
        | ended ↦ (false, db)
      ]
]
