-- ===== src/Competition/Enrolling/Owners.antt =====
-- Who is entered in a competition with prizes.
use mathlib.Core.Path.{subst}
use agentpit.Prelude.{
  ℕ, ◌+◌, ◌≤◌, ◌≡◌, refl, sym, Bool, true, false, not, ◌&&◌, Option, none, some, List, [], ◌∷◌,
  ◌++◌, filter, any, length, ◌==◌, ==_iff, arith, if◌then◌else◌, Bool-cases, inl, inr, on_option,
  on_known,
}
use agentpit.Competition.{Competition, CompetitionEntry, Tables, is_entry, find_competition}
use agentpit.Competition.Enrolling.Seats.{seat_free}
use agentpit.Competition.Enrolling.{
  Phase, upcoming, locked, live, ended, phase, Seat, Enrolled, same_seat, refusal, enter,
  enroll_seat, has_prizes, owned_by, seat, blank_entry, enter_competition, enroll, leave,
}

abbrev pub owned : ℕ → ℕ → List CompetitionEntry → ℕ
owned slug owner es = length (filter (owned_by slug (some owner)) es)

none_owned :
    (slug owner : ℕ) (es : List CompetitionEntry)
    → owned slug owner (filter (λ e. not (owned_by slug (some owner) e)) es) ≡ 0
none_owned slug owner [] = refl
none_owned slug owner (e ∷ es) = ground (arith, none_owned slug owner es)

owned-filter :
    (slug owner : ℕ) (p : CompetitionEntry → Bool) (es : List CompetitionEntry)
    → owned slug owner (filter p es) ≤ owned slug owner es
owned-filter slug owner p [] = omega arith
owned-filter slug owner p (e ∷ es) = ground (arith, owned-filter slug owner p es)

owned-append :
    (slug owner : ℕ) (es : List CompetitionEntry) (e : CompetitionEntry)
    → owned slug owner (es ++ e ∷ [])
      ≡ owned slug owner es + (if owned_by slug (some owner) e then 1 else 0)
owned-append slug owner [] e = ground arith
owned-append slug owner (x ∷ es) e = ground (arith, owned-append slug owner es e)

-- An owner whose other agents are not entered, and neither is this one.
none_entered :
    (slug owner user_id : ℕ) (es : List CompetitionEntry)
    → any (λ o. owned_by slug (some owner) o && not (o.user_id == user_id)) es ≡ false
    → any (is_entry slug user_id) es ≡ false
    → owned slug owner es ≡ 0
none_entered slug owner user_id [] others self = refl
none_entered slug owner user_id (e ∷ es) others self =
    ground (arith, none_entered slug owner user_id es)

-- Each owner has at most one agent in a competition with prizes.
abbrev pub OneEach : Tables → Type 0
OneEach db =
    (slug owner : ℕ)
    → has_prizes (find_competition slug db) ≡ true
    → owned slug owner db.entries ≤ 1

abbrev written : ℕ → ℕ → ℕ → ℕ → List CompetitionEntry → List CompetitionEntry
written slug owner user_id now kept =
    if any (is_entry slug user_id) kept
    then kept
    else kept ++ blank_entry slug owner user_id now ∷ []

owned-written :
    (slug owner user_id now : ℕ) (kept : List CompetitionEntry) (s o : ℕ)
    → owned s o kept ≤ 1
    → (slug ≡ s → owner ≡ o → any (is_entry slug user_id) kept ≡ false → owned s o kept ≡ 0)
    → owned s o (written slug owner user_id now kept) ≤ 1
owned-written slug owner user_id now kept s o one free = ground (
  arith,
  owned-append s o kept (blank_entry slug owner user_id now),
  ==_iff slug s,
  ==_iff owner o,
)

-- An entry is written where its owner has no other one, or instead of that.
enter-OneEach :
    (slug owner user_id now : ℕ) (replace : Bool) (db : Tables)
    → OneEach db
    → (replace ≡ false
        → has_prizes (find_competition slug db) ≡ true
        → any (λ o. owned_by slug (some owner) o && not (o.user_id == user_id)) db.entries ≡ false)
    → OneEach (enter_competition slug owner user_id now replace db).1
unfolding enter_competition
enter-OneEach slug owner user_id now true db one free s o prizes =
    let kept = filter (λ e. not (owned_by slug (some owner) e)) db.entries in
    let prizes' : has_prizes (find_competition s db) ≡ true = ground (arith, prizes) in
    let few = owned-filter s o (λ e. not (owned_by slug (some owner) e)) db.entries in
    let fine =
      owned-written slug owner user_id now kept s o (omega (arith, few, one s o prizes'))
        (λ same_slug same_owner out.
          subst (λ x. owned x o kept ≡ 0) same_slug
            (subst (λ x. owned slug x kept ≡ 0) same_owner (none_owned slug owner db.entries))) in
    ground (arith, fine)
enter-OneEach slug owner user_id now false db one free s o prizes =
    let prizes' : has_prizes (find_competition s db) ≡ true = ground (arith, prizes) in
    let fine =
      owned-written slug owner user_id now db.entries s o (one s o prizes')
        (λ same_slug same_owner out.
          subst (λ x. owned x o db.entries ≡ 0) same_slug
            (subst (λ x. owned slug x db.entries ≡ 0) same_owner
              (none_entered slug owner user_id db.entries
                (free refl
                  (subst (λ x. has_prizes (find_competition x db) ≡ true) (sym same_slug) prizes'))
                out))) in
    ground (arith, fine)

enter_once :
    (slug owner user_id now : ℕ) (s : Seat) (db : Tables)
    → s.owner ≡ some owner
    → OneEach db
    → OneEach (enter slug owner user_id now s db).1
unfolding enter
enter_once slug owner user_id now s db mine one =
    elim (Bool-cases (same_seat (seat slug user_id db) s)) [
      | inl same ↦
          let eq : (enter slug owner user_id now s db).1
              ≡ (enter_competition slug owner user_id now s.taken db).1 =
            rw (enter, same) refl in
          subst OneEach (sym eq) (
            enter-OneEach slug owner user_id now s.taken db one
              (λ free prizes. seat_free slug user_id db s owner same mine free prizes))
      | inr other ↦
          let eq : (enter slug owner user_id now s db).1 ≡ db = rw (enter, other) refl in
          subst OneEach (sym eq) one
    ]

enroll_seat_once :
    (slug user_id now : ℕ) (switch holds : Bool) (c : Competition) (o : Option Seat) (db : Tables)
    → OneEach db
    → OneEach (enroll_seat slug user_id now switch holds c o db).1
unfolding enroll_seat
enroll_seat_once slug user_id now switch holds c none db one = one
enroll_seat_once slug user_id now switch holds c (some s) db one =
    let P : Enrolled × Tables → Type 0 = λ r. OneEach r.1 in
    on_option P s.enrolled_at
      (on_known P s.owner (λ e. one)
        (λ owner mine.
          on_option P (refusal now switch holds c s)
            (enter_once slug owner user_id now s db mine one) (λ answer. one)))
      (λ at. one)

on_phase :
    (P : Bool × Tables → Type 0) (x : Phase) {left stay : Bool × Tables}
    → P left
    → P stay
    → P (elim x as (λ _. Bool × Tables) [
      | upcoming ↦ left
      | locked ↦ stay
      | live ↦ stay
      | ended ↦ stay
    ])
on_phase P upcoming l s = l
on_phase P locked l s = s
on_phase P live l s = s
on_phase P ended l s = s

fewer_owned :
    (slug user_id : ℕ) (db : Tables)
    → OneEach db
    → OneEach (record db { entries = filter (λ e. not (is_entry slug user_id e)) db.entries })
fewer_owned slug user_id db one s o prizes =
    omega (arith, owned-filter s o (λ e. not (is_entry slug user_id e)) db.entries, one s o prizes)

-- Where each owner has at most one agent in every competition with prizes, it stays so when an
-- agent enters, whatever was read before the transaction, and when one leaves.
pub enroll-OneEach :
    (user_id slug now : ℕ) (switch holds : Bool) (read db : Tables)
    → OneEach db
    → OneEach (enroll user_id slug now switch holds read db).1
      × OneEach (leave user_id slug now read db).1
unfolding enroll leave
enroll-OneEach user_id slug now switch holds read db one = (
  on_option (λ (r : Enrolled × Tables). OneEach r.1) (find_competition slug read) one
      (λ c. enroll_seat_once slug user_id now switch holds c (seat slug user_id read) db one),
  on_option (λ (r : Bool × Tables). OneEach r.1) (find_competition slug read) one
      (λ c. on_phase (λ r. OneEach r.1) (phase now c) (fewer_owned slug user_id db one) one),
)
