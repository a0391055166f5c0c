-- ===== src/Competition/Tick.antt =====
-- services/competition_service.py: `tick`, with `stamp_final`.
pub mod Final
use agentpit.Prelude.{
  ℕ, Bool, true, false, not, ◌&&◌, ◌||◌, Option, none, some, List, [], ◌∷◌, map, filter, any,
  is_some, leb, ◌==◌, if◌then◌else◌,
}
use agentpit.Prelude.Dict.{remove, nat_eq}
use agentpit.Store.{update_where}
use agentpit.Competition.{Competition, CompetitionEntry, Tables, find_user, still_in}
use agentpit.Competition.Points.{record_points}
use agentpit.Competition.Capture.{Reads, Race, Bells}
use agentpit.Competition.Capture.Loop.{capture}

-- A started entry still in its race whose end value is missing.
abbrev pub lacks_end : Competition → Tables → CompetitionEntry → Bool
lacks_end c db e =
    e.slug == c.slug
    && (is_some e.start_raw
        && (not (is_some e.end_raw) && still_in (find_user e.user_id db) c.ends_at))

abbrev unscanned : ℕ → Option ℕ → Bool
unscanned scanned none = false
unscanned scanned (some block) = leb scanned block

abbrev pub turns_final : ℕ → ℕ → Tables → Competition → Bool
turns_final now scanned db c =
    not (is_some c.final_at)
    && (leb c.ends_at now
        && (not (any (lacks_end c db) db.entries)
            && not (any (λ e. e.slug == c.slug && unscanned scanned e.end_block) db.entries)))

unfoldable pub stamp_final : ℕ → ℕ → Tables → List ℕ × Tables
stamp_final now scanned db = (
  map (λ c. c.slug) (filter (turns_final now scanned db) db.competitions),
  record db {
    competitions =
        update_where (turns_final now scanned db) (λ c. record c { final_at = some now })
          db.competitions;
  },
)

module _ {M : Type 0} where
  pop_bells : List ℕ → Bells M → Bells M
  pop_bells [] bells = bells
  pop_bells (slug ∷ slugs) bells = pop_bells slugs (remove slug bells)

  -- `tick`; `scanned` is the first block that the scan of transfers has not read.
  unfoldable pub tick : Reads M → ℕ → ℕ → Race M → Race M
  unfolding stamp_final pop_bells
  tick r now scanned s =
      let (db, cursor) = record_points now s.db s.cursor in
      let after = capture r now (record s { db = db; cursor = cursor }) in
      let (final, db') = stamp_final now scanned after.db in
      record after { db = db'; bells = pop_bells final after.bells }

  -- The loop, with what each pass reads: its time and the scan's next block.
  unfoldable pub ticks : List (Reads M × ℕ × ℕ) → Race M → Race M
  unfolding tick
  ticks [] s = s
  ticks ((r, now, scanned) ∷ rest) s = ticks rest (tick r now scanned s)
