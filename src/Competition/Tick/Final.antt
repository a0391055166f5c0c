-- ===== src/Competition/Tick/Final.antt =====
-- What the loop leaves of the entries.
use mathlib.Core.Path.{subst}
use agentpit.Prelude.{ℕ, ◌≡◌, refl, ◌∙◌, some, List, [], ◌∷◌, filter, arith, Bool-cases, inl, inr}
use agentpit.Prelude.Dict.{nat_eq}
use agentpit.Store.{find}
use agentpit.Competition.{Competition, CompetitionEntry, Tables, is_entry, write_points}
use agentpit.Competition.Points.{record_one, record_all, is_recent, read_cursors, record_points}
use agentpit.Competition.Capture.{Reads, Race}
use agentpit.Competition.Capture.Loop.{capture}
use agentpit.Competition.Capture.Once.{
  Extends, Follow, Follow-refl, Follow-trans, Keeps, capture-Keeps,
}
use agentpit.Competition.Tick.{stamp_final, tick, ticks}

entries-record_one :
    (now : ℕ) (c : Competition) (s : Tables × List (ℕ × ℕ))
    → (record_one now c s).0.entries ≡ s.0.entries
unfolding record_one write_points
entries-record_one now c (db, cursor) = ground arith

entries-record_all :
    (now : ℕ) (cs : List Competition) (s : Tables × List (ℕ × ℕ))
    → (record_all now cs s).0.entries ≡ s.0.entries
unfolding record_all
entries-record_all now [] s = refl
entries-record_all now (c ∷ cs) s =
    entries-record_all now cs (record_one now c s) ∙ entries-record_one now c s

entries-record_points :
    (now : ℕ) (db : Tables) (cursor : List (ℕ × ℕ))
    → (record_points now db cursor).0.entries ≡ db.entries
unfolding record_points
entries-record_points now db cursor =
    let recent = filter (is_recent now) db.competitions in
    entries-record_all now recent (db, read_cursors recent db cursor)

module _ {M : Type 0} where
  tick-Keeps : (r : Reads M) (now scanned : ℕ) (s : Race M) → Keeps s (tick r now scanned s)
  unfolding tick stamp_final
  tick-Keeps r now scanned s =
      let (db, cursor) = record_points now s.db s.cursor in
      let before = record s { db = db; cursor = cursor } in
      subst (λ es. Follow es (capture r now before).db.entries)
        (entries-record_points now s.db s.cursor) (capture-Keeps r now before)

  ticks-Keeps : (passes : List (Reads M × ℕ × ℕ)) (s : Race M) → Keeps s (ticks passes s)
  unfolding ticks
  ticks-Keeps [] s = Follow-refl s.db.entries
  ticks-Keeps ((r, now, scanned) ∷ rest) s =
      let s' = tick r now scanned s in
      Follow-trans s.db.entries s'.db.entries (ticks rest s').db.entries
        (tick-Keeps r now scanned s) (ticks-Keeps rest s')

find_followed :
    (slug user_id : ℕ) (es fs : List CompetitionEntry) (e : CompetitionEntry)
    → Follow es fs
    → find (is_entry slug user_id) es ≡ some e
    → (e' : CompetitionEntry) × (find (is_entry slug user_id) fs ≡ some e') × Extends e e'
find_followed slug user_id [] fs e h found = absurd cc
find_followed slug user_id (x ∷ es) [] e h found = absurd h
find_followed slug user_id (x ∷ es) (y ∷ fs) e h found =
    let same : is_entry slug user_id y ≡ is_entry slug user_id x = rw (h.0.0, h.0.1) refl in
    elim (Bool-cases (is_entry slug user_id x)) [
      | inl hit ↦
          let here : x ≡ e = ground (arith, hit) in
          (y, ground (arith, same, hit), subst (λ e. Extends e y) here h.0)
      | inr miss ↦
          let rest : find (is_entry slug user_id) es ≡ some e = ground (arith, miss) in
          let (e', found', kept) = find_followed slug user_id es fs e h.1 rest in
          (e', ground (arith, same, miss, found'), kept)
    ]

-- Whatever the passes of the loop read, and however many there are: an entry stays in the tables,
-- and a start or end value that it has keeps its value, its time and its holdings.
pub ticks_keep :
    {M : Type 0} (passes : List (Reads M × ℕ × ℕ)) (s : Race M) (slug user_id : ℕ)
    (e : CompetitionEntry)
    → find (is_entry slug user_id) s.db.entries ≡ some e
    → (e' : CompetitionEntry) × (find (is_entry slug user_id) (ticks passes s).db.entries ≡ some e')
      × Extends e e'
ticks_keep passes s slug user_id e found =
    find_followed slug user_id s.db.entries (ticks passes s).db.entries e (ticks-Keeps passes s)
      found
