-- ===== src/Engine/Closure/Calls.antt =====
-- What a closure check comes to, by the answers of the book server.
use mathlib.Core.Path.{subst}
use agentpit.Prelude.{
  ℕ, ◌≡◌, ◌⊎◌, refl, ap, sym, ◌∙◌, Bool, true, false, not, ◌&&◌, Option, none, some, any, List, [],
  ◌∷◌, ◌==◌, ==_iff, arith, if◌then◌else◌, inl, inr, Bool-cases,
}
use agentpit.Store.{
  Db, MarketRow, MarketState, active, closed, resolved, same_state, find, find_market,
  set_market_state,
}
use agentpit.Feed.{MarketRef}
use agentpit.Markets.{transition, returned}
use agentpit.Markets.Lifecycle.{transition_row}
use agentpit.Markets.Quiet.{has_live_order, transition-quiet}
use agentpit.Engine.Closure.{Clob, Try, game_starts, closure_try, second_try, check_closure}

-- How the check reads an answer.
pub data Answer : Type 0 where
  unknown refuses starting takes : Answer

abbrev pub answer_of : ℕ → Option Clob → Answer
answer_of at none = unknown
answer_of at (some clob) =
    if not clob.accepting
    then refuses
    else if game_starts at clob.game_start
    then starting
    else takes

-- The second answer counts where the first one leaves the market open.
abbrev or_second : ℕ → Answer × ℕ → Answer → Answer × ℕ
or_second now second takes = second
or_second now second x = (x, now)

abbrev pub judged : Try → Try → Answer × ℕ
judged first second =
    or_second first.now (answer_of second.at second.clob, second.now)
      (answer_of first.at first.clob)

-- The tables that the answer that counts is acted on.
abbrev pub on_tables : (Db → Db) → Db → Answer → Db
on_tables gap db takes = gap db
on_tables gap db x = db

-- The market that was active, and the tables, after an answer at `now`.
abbrev pub After : ℕ → Answer × ℕ → Db → Db → Type 0
After i (unknown, now) db db' = db' ≡ db
After i (takes, now) db db' = db' ≡ db
After i (refuses, now) db db' =
    (has_live_order now i db' ≡ false)
    × ((m : MarketRow) × (find_market i db' ≡ some m) × (m.state ≡ closed))
After i (starting, now) db db' =
    (has_live_order now i db' ≡ false)
    × ((m : MarketRow) × (find_market i db' ≡ some m) × (m.state ≡ active))

any_found :
    (i : ℕ) (p : MarketRow → Bool) (ms : List MarketRow) {m : MarketRow}
    → find (λ m. m.market_id == i) ms ≡ some m
    → p m ≡ true
    → (m.market_id ≡ i) × (any (λ m. m.market_id == i && p m) ms ≡ true)
any_found i p [] {m} e h = absurd cc
any_found i p (x ∷ ms) {m} e h = ground (arith, any_found i p ms {m = m}, ==_iff x.market_id i)

-- A transition of a market that is in the expected state takes place.
transition_hits :
    (now i : ℕ) (new : MarketState) (db : Db) {m : MarketRow}
    → find_market i db ≡ some m
    → same_state m.state active ≡ true
    → same_state new resolved ≡ false
    → let r = transition now i active new none db in
      (has_live_order now i r.1 ≡ false)
      × ((m' : MarketRow) × (find_market i r.1 ≡ some m') × (m'.state ≡ new))
unfolding transition set_market_state
transition_hits now i new db {m} e h unresolved =
    let (id, hit) = any_found i (λ m. same_state m.state active) db.markets {m = m} e h in
    let took : (transition now i active new none db).0 ≡ returned true =
      rw (transition, unresolved, hit) refl in
    let row = transition_row now i active new none db i in
    (
      transition-quiet now i active new none db took,
      (
        record m { state = new; payouts = none; resolved_at = none },
        row ∙ rw (e, unresolved, h, (==_iff m.market_id i).1 id) refl,
        refl,
      ),
    )

abbrev is_last : Answer → Bool
is_last takes = false
is_last _ = true

-- The last try, by its answer.
abbrev Last : ℕ → ℕ → ℕ → Option Clob → Db → Bool × Db → Type 0
Last i at now answer db r =
    (x : Answer) × (answer_of at answer ≡ x)
    × (is_last x ≡ true)
    × ((r.0 ≡ true) × After i (x, now) db r.1)

-- A try is the last one unless the market takes orders.
try_cases :
    (ref : MarketRef) (answer : Option Clob) (at now : ℕ) (db : Db) {m : MarketRow}
    → find_market ref.market_id db ≡ some m
    → m.state ≡ active
    → let r = closure_try ref (record { clob = answer; at = at; now = now }) db in
      ((answer_of at answer ≡ takes) × (r ≡ (false, db))) ⊎ Last ref.market_id at now answer db r
unfolding closure_try
try_cases ref none at now db {m} e h = inr (unknown, refl, refl, (refl, refl))
try_cases ref (some clob) at now db {m} e h =
    let i = ref.market_id in
    let r = closure_try ref (record { clob = some clob; at = at; now = now }) db in
    let is_active : same_state m.state active ≡ true = rw h refl in
    elim (Bool-cases clob.accepting) [
      | inl accepts ↦ elim (Bool-cases (game_starts at clob.game_start)) [
        | inl starts ↦
            let eq : r ≡ (true, (transition now i active active none db).1) =
              rw (closure_try, accepts, starts) refl in
            inr (
              starting,
              rw (accepts, starts) refl,
              refl,
              subst (λ r. (r.0 ≡ true) × After i (starting, now) db r.1) (sym eq)
                  (refl, transition_hits now i active db {m = m} e is_active refl),
            )
        | inr no_start ↦ inl (rw (accepts, no_start) refl, rw (closure_try, accepts, no_start) refl)
      ]
      | inr refused ↦
          let eq : r ≡ (true, (transition now i active closed none db).1) =
            rw (closure_try, refused) refl in
          inr (
            refuses,
            rw refused refl,
            refl,
            subst (λ r. (r.0 ≡ true) × After i (refuses, now) db r.1) (sym eq)
                (refl, transition_hits now i closed db {m = m} e is_active refl),
          )
    ]

or_second_last :
    (now : ℕ) (second : Answer × ℕ) (x : Answer)
    → is_last x ≡ true
    → or_second now second x ≡ (x, now)
or_second_last now second x h = ground arith

stays :
    (ref : MarketRef) (t : Try) (gap : Db → Db) (r : Bool × Db)
    → r.0 ≡ true
    → second_try ref t gap r ≡ r.1
stays ref t gap (true, db) done = refl
stays ref t gap (false, db) done = absurd cc

on_tables_last : (gap : Db → Db) (db : Db) (x : Answer) → is_last x ≡ true → on_tables gap db x ≡ db
on_tables_last gap db x h = ground arith

by_equations :
    (i : ℕ) {y y' : Answer × ℕ} {b b' d d' : Db}
    → y ≡ y'
    → b ≡ b'
    → d ≡ d'
    → After i y' b' d'
    → After i y b d
by_equations i {y' = y'} {b = b} {b' = b'} {d = d} ey eb ed after =
    subst (λ y. After i y b d) (sym ey)
      (subst (λ b. After i y' b d) (sym eb) (subst (λ d. After i y' b' d) (sym ed) after))

-- A check of a market that is active at both tries leaves the tables alone where the book server is
-- silent or takes orders; it closes the market where the server refuses them, and leaves it active
-- where its game starts; in both cases no order on its tokens is live afterwards. A first answer
-- that leaves the market open gives way to the second, which finds what others wrote between.
pub check_closure_lem :
    (ref : MarketRef) (first second : Try) (gap : Db → Db) (db : Db) {m m' : MarketRow}
    → find_market ref.market_id db ≡ some m
    → m.state ≡ active
    → find_market ref.market_id (gap db) ≡ some m'
    → m'.state ≡ active
    → After ref.market_id
        (judged first second)
        (on_tables gap db (answer_of first.at first.clob))
        (check_closure ref first second gap db)
unfolding check_closure closure_try
check_closure_lem ref first second gap db {m} {m'} e h e' h' =
    let i = ref.market_id in
    let next : Answer × ℕ = (answer_of second.at second.clob, second.now) in
    elim (try_cases ref first.clob first.at first.now db {m = m} e h) [
      | inl (open1, r1) ↦
          let base : on_tables gap db (answer_of first.at first.clob) ≡ gap db = rw open1 refl in
          elim (try_cases ref second.clob second.at second.now (gap db) {m = m'} e' h') [
            | inl (open2, r2) ↦
                by_equations i {y' = (takes, second.now)} (rw (open1, open2) refl) base
                  (rw (check_closure, r1) (ap (λ r. r.1) r2)) refl
            | inr (x, eq, last, (done, after)) ↦
                by_equations i (rw (open1, eq) refl) base (rw (check_closure, r1) refl) after
          ]
      | inr (x, eq, last, (done, after)) ↦
          by_equations i (ap (or_second first.now next) eq ∙ or_second_last first.now next x last)
            (ap (on_tables gap db) eq ∙ on_tables_last gap db x last)
            (stays ref second gap (closure_try ref first db) done) after
    ]
