-- ===== src/Examples/Racing.antt =====
-- The theorems on the loop of the competitions, at one competition with one entry.
use agentpit.Prelude.{
  ℕ, ◌+◌, ◌≡◌, refl, true, false, none, some, [], ◌∷◌, ◌==◌, arith, if◌then◌else◌, ltb, is_some,
}
use agentpit.Prelude.Counts.{count}
use agentpit.Prelude.Dict.{get, nat_eq}
use agentpit.Store.{find}
use agentpit.Competition.{Competition, CompetitionEntry, Account, Point, Tables, is_entry, is_point}
use agentpit.Competition.Points.{floor, record_one}
use agentpit.Competition.Points.Rounds.{boundaries, record_one_rounds}
use agentpit.Competition.Points.Adds.{first_or, rows}
use agentpit.Competition.Points.Written.{latest, record_one_points}
use agentpit.Competition.Capture.{at_price, Position, Wallet, Reads, Race, Pending}
use agentpit.Competition.Capture.Loop.{capture, end_entry}
use agentpit.Competition.Capture.Once.{Extends}
use agentpit.Competition.Capture.Ends.{Ended, end_entry_lem}
use agentpit.Competition.Capture.States.{KeepsBells, capture-KeepsBells}
use agentpit.Competition.Enrolling.{enroll, leave}
use agentpit.Competition.Enrolling.Owners.{OneEach, enroll-OneEach}
use agentpit.Competition.Enrolling.Locked.{Adds, enroll_locked}
use agentpit.Competition.Tick.{ticks}
use agentpit.Competition.Tick.Final.{ticks_keep}

abbrev cup : Competition
cup = record { slug = 1; starts_at = 100000; ends_at = 110000; has_prizes = false; final_at = none }

abbrev entrant : CompetitionEntry
entrant = record {
  slug = 1;
  owner = 60;
  user_id = 2;
  enrolled_at = 90000;
  start_raw = some 1000000;
  start_at = some 100005;
  start_holdings = some [];
  end_raw = none;
  end_at = none;
  end_block = none;
  end_holdings = none;
}

abbrev account : Account
account = record {
  user_id = 2;
  api_key = 40;
  eth_address = 30;
  owner = some 60;
  is_bot = false;
  peer_flagged = false;
  onboarded = true;
  last_topup_at = none;
  deleted_at = none;
}

abbrev tables : Tables
tables = record {
  competitions = cup ∷ [];
  entries = entrant ∷ [];
  users = account ∷ [];
  points = [];
  snapshots = [];
  pending_takers = [];
}

abbrev position : Position ℕ
position = record { asset = 20; settled = false; cur_price = 5; shares = 3000000; value = 1500000 }

abbrev wallet : Wallet ℕ
wallet = record { cash_raw = 250000; block = 77; positions = position ∷ [] }

abbrev reads : Reads ℕ
reads = record {
  engine_enabled = false;
  house = none;
  uptime = 0;
  wallet = λ address. some (wallet, 110020);
  holdings = λ address. some (position ∷ []);
  over_cap = λ key. false;
  exit_value = λ p x. p.value;
}

abbrev race : Race ℕ
race = record { db = tables; cursor = (1, 110000) ∷ []; bells = (1, (20, at_price 4) ∷ []) ∷ [] }

abbrev pending : Pending
pending = record {
  slug = 1;
  user_id = 2;
  api_key = 40;
  eth_address = 30;
  run_starts_at = 100000;
  ends_at = 110000;
  start_raw = some 1000000;
  settling = false;
  prize = false;
}

-- Rounds at 105000 and 110050: the boundary 108000 is found by the second alone.
record_one_rounds_example :
    let cursor' = (record_one 105000 cup (tables, [])).1 in
    count 108000 (boundaries 105000 cup []) + count 108000 (boundaries 110050 cup cursor') ≡ (
      if ltb 108000 (floor 110050)
      then count 108000 (boundaries 105000 cup [])
      else count 108000 (boundaries 110050 cup []))
record_one_rounds_example = record_one_rounds 105000 110050 cup tables [] 108000 (omega arith)

-- The entry's account after the start, then of another account and after the boundary.
abbrev snapped : Tables
snapped = record tables {
  snapshots =
      record { user_id = 2; t = 104000; capital_raw = 1200000 }
      ∷ record { user_id = 3; t = 105000; capital_raw = 5 }
      ∷ record { user_id = 2; t = 109000; capital_raw = 7 }
      ∷ [];
}

-- The point of the account at 108000 is worth what the first of the snapshots has.
record_one_points_example :
    let old = find (is_point 1 108000 2) snapped.points in
    let p : Point = record { slug = 1; t = 108000; user_id = 2; value_raw = 1200000 } in
    let new = some p in
    let (db', cursor') = record_one 110010 cup (snapped, []) in
    (find (is_point 1 108000 2) db'.points ≡ first_or old new)
    × (rows 1 108000 2 db'.points
        ≡ (if is_some old then rows 1 108000 2 snapped.points else if is_some new then 1 else 0))
    × (db' ≡ record snapped { points = db'.points })
    × ((b : ℕ)
        → get cursor' b
          ≡ (if cup.slug == b then latest (get [] b) (boundaries 110010 cup []) else get [] b))
unfolding get
record_one_points_example = record_one_points 110010 cup snapped [] 1 108000 2

ticks_keep_example :
    (e' : CompetitionEntry) × (find
        (is_entry 1 2)
        (ticks ((reads, 110015, 78) ∷ (reads, 110016, 78) ∷ []) race).db.entries
      ≡ some e')
    × Extends entrant e'
ticks_keep_example =
    ticks_keep ((reads, 110015, 78) ∷ (reads, 110016, 78) ∷ []) race 1 2 entrant refl

end_entry_lem_example :
    Ended reads 110015 pending
      (wallet, 110020)
      ((20, at_price 4) ∷ [])
      race
      (end_entry reads 110015 pending race)
unfolding get
end_entry_lem_example =
    end_entry_lem reads 110015 pending race (wallet, 110020) ((20, at_price 4) ∷ []) refl refl
      (refl, tt)

capture-KeepsBells_example : KeepsBells race (capture reads 110015 race)
capture-KeepsBells_example = capture-KeepsBells reads 110015 race

-- Another agent of the same owner.
abbrev sibling : Account
sibling = record account { user_id = 3; api_key = 41; eth_address = 31 }

-- A competition with prizes that the first agent is entered in.
abbrev prized : Tables
prized = record tables {
  competitions = record cup { has_prizes = true } ∷ [];
  users = account ∷ sibling ∷ [];
}

prized-OneEach : OneEach prized
prized-OneEach slug owner prizes = ground arith

enroll-OneEach_example :
    OneEach (enroll 3 1 5000 true false prized prized).1 × OneEach (leave 3 1 5000 prized prized).1
enroll-OneEach_example = enroll-OneEach 3 1 5000 true false prized prized prized-OneEach

enroll_locked_example :
    Adds prized.entries (enroll 3 1 50000 true false prized prized).1.entries
    × (leave 3 1 50000 prized prized ≡ (false, prized))
enroll_locked_example =
    enroll_locked 3 1 50000 true false prized prized (record cup { has_prizes = true }) refl refl
