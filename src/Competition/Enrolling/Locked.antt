-- ===== src/Competition/Enrolling/Locked.antt =====
-- From the lock of a competition its entries stay.
use mathlib.Core.Path.{subst}
use agentpit.Prelude.{
  ℕ, ◌≡◌, refl, sym, ◌⊎◌, Bool, false, Option, none, some, List, [], ◌∷◌, ◌++◌, any, ltb, arith,
  inl, inr, on_option, on_known, on_if,
}
use agentpit.Competition.{Competition, CompetitionEntry, Tables, is_entry, find_competition}
use agentpit.Competition.Enrolling.{
  locks_at, phase, Seat, same_seat, seat, Enrolled, refusal, blank_entry, enter_competition, enter,
  enroll_seat, enroll, leave,
}

-- The entries stay, and at most one comes after them.
abbrev pub Adds : List CompetitionEntry → List CompetitionEntry → Type 0
Adds es es' = (es' ≡ es) ⊎ ((e : CompetitionEntry) × (es' ≡ es ++ e ∷ []))

enter_competition-Adds :
    (slug owner user_id now : ℕ) (db : Tables)
    → Adds db.entries (enter_competition slug owner user_id now false db).1.entries
unfolding enter_competition
enter_competition-Adds slug owner user_id now db =
    on_if (λ (r : Bool × Tables). Adds db.entries r.1.entries)
      (any (is_entry slug user_id) db.entries) (inl refl)
      (inr (blank_entry slug owner user_id now, refl))

enter-Adds :
    (slug owner user_id now : ℕ) (s : Seat) (db : Tables)
    → s.taken ≡ false
    → Adds db.entries (enter slug owner user_id now s db).1.entries
unfolding enter
enter-Adds slug owner user_id now s db free =
    on_if (λ (r : Enrolled × Tables). Adds db.entries r.1.entries)
      (same_seat (seat slug user_id db) s)
      (subst (λ b. Adds db.entries (enter_competition slug owner user_id now b db).1.entries)
        (sym free) (enter_competition-Adds slug owner user_id now db))
      (inl refl)

-- From the lock a seat that is taken is refused.
refusal_taken :
    (now : ℕ) (switch holds : Bool) (c : Competition) (s : Seat)
    → ltb now (locks_at c) ≡ false
    → refusal now switch holds c s ≡ none
    → s.taken ≡ false
unfolding phase
refusal_taken now switch holds c s late accepted = ground arith

enroll_seat-Adds :
    (slug user_id now : ℕ) (switch holds : Bool) (c : Competition) (o : Option Seat) (db : Tables)
    → ltb now (locks_at c) ≡ false
    → Adds db.entries (enroll_seat slug user_id now switch holds c o db).1.entries
unfolding enroll_seat
enroll_seat-Adds slug user_id now switch holds c none db late = inl refl
enroll_seat-Adds slug user_id now switch holds c (some s) db late =
    let P : Enrolled × Tables → Type 0 = λ r. Adds db.entries r.1.entries in
    on_option P s.enrolled_at
      (on_option P s.owner (inl refl) (λ owner.
        on_known P (refusal now switch holds c s)
          (λ accepted.
            enter-Adds slug owner user_id now s db
              (refusal_taken now switch holds c s late accepted))
          (λ answer e. inl refl)))
      (λ at. inl refl)

-- Where a call finds a competition that is past its lock, entering removes no entry and adds at
-- most one, and leaving is refused.
pub enroll_locked :
    (user_id slug now : ℕ) (switch holds : Bool) (read db : Tables) (c : Competition)
    → find_competition slug read ≡ some c
    → ltb now (locks_at c) ≡ false
    → Adds db.entries (enroll user_id slug now switch holds read db).1.entries
      × (leave user_id slug now read db ≡ (false, db))
unfolding enroll leave phase
enroll_locked user_id slug now switch holds read db c found late =
    let whole : enroll user_id slug now switch holds read db
        ≡ enroll_seat slug user_id now switch holds c (seat slug user_id read) db =
      rw (enroll, found) refl in
    (
      subst (λ (r : Enrolled × Tables). Adds db.entries r.1.entries) (sym whole)
          (enroll_seat-Adds slug user_id now switch holds c (seat slug user_id read) db late),
      ground (arith, found, late),
    )
