-- ===== src/Sponsor/Ends.antt =====
-- services/gas_sponsor.py: a send of a user's calls comes to an end.
use agentpit.Prelude.{
  ℕ, ◌+◌, ◌-◌, ◌*◌, ◌≡◌, ◌≤◌, refl, Bool, true, false, not, ◌&&◌, ◌||◌, Option, none, some, List,
  [], ◌∷◌, map, length, is_some, arith, if◌then◌else◌, inl, inr, Bool-cases, Option-cases,
  Sum-cases,
}
use agentpit.Store.{Db, UserRow}
use agentpit.Sponsor.{
  SponsorKind, Reading, TopUp, Turn, SponsorError, SponsorSettings, is_fee_low, Sized, size,
  limits_of, reserve, Paid, nothing_paid, top_up, resize,
}
use agentpit.Sponsor.Known.{Answer-cases}
use agentpit.Sponsor.Sending.{
  Ending, saw_receipt, saw_failure, send_calls, send_plain, Sponsored, Meeting, fund_first,
  check_and_send, send_sponsored, send_unsponsored, all_succeeded, with_reverts, is_onboarding,
  send,
}

-- An end within the turns: without an error there is one receipt more for each call.
abbrev HasEnded : ℕ → ℕ → Ending → Type 0
HasEnded before calls e =
    (is_some e.0 ≡ true) × (e.0 ≡ some none → length e.1.receipts ≡ before + calls)

length-limits_of : (m : Reading) (calls : List ℕ) → length (limits_of m calls) ≡ length calls
length-limits_of m [] = refl
length-limits_of m (call ∷ calls) = ground (arith, length-limits_of m calls)

length-size :
    (cfg : SponsorSettings) (reading : Option Reading) (calls : List ℕ) (y : ℕ × List Sized × ℕ)
    → size cfg reading calls ≡ inr y
    → length y.1 ≡ length calls
unfolding size
length-size cfg none calls y e = ground arith
length-size cfg (some m) calls y e = ground (arith, length-limits_of m calls)

length-calls : (xs : List Sized) → length (map (λ y. y.0) xs) ≡ length xs
length-calls [] = refl
length-calls (x ∷ xs) = ground (arith, length-calls xs)

receipts-resize :
    (cfg : SponsorSettings) (reading : Option Reading) (t : TopUp) (calls : List ℕ) (p : Paid)
    (y : ℕ × List Sized)
    → (resize cfg reading t calls p).0 ≡ inr y
    → ((resize cfg reading t calls p).1.receipts ≡ p.receipts) × (length y.1 ≡ length calls)
unfolding resize top_up
receipts-resize cfg reading t calls p y e = elim (Sum-cases (size cfg reading calls)) [
  | inl (err, unsized) ↦ ground (arith, unsized)
  | inr ((price, limits, shortfall), sized) ↦
      ground (arith, sized, length-size cfg reading calls (price, limits, shortfall) sized)
]

-- The turns that calls need at most: two each, but for the first one's if it has been retried.
abbrev turns_for : List Sized → Bool → ℕ
turns_for xs retried = 2 * length xs - (if retried then 1 else 0)

send_calls_ends :
    (cfg : SponsorSettings) (turns : List Turn) (xs : List Sized) (price : ℕ) (retried : Bool)
    (p : Paid)
    → turns_for xs retried ≤ length turns
    → HasEnded (length p.receipts) (length xs) (send_calls cfg turns xs price retried p)
unfolding send_calls
send_calls_ends cfg turns [] price retried p enough = (refl, (λ e. ground arith))
send_calls_ends cfg [] (x ∷ xs) price retried p enough = ground arith
send_calls_ends cfg (t ∷ turns) (x ∷ xs) price retried p enough = elim (Answer-cases t.answer) [
  | inl (r, e) ↦
      ground (arith, e, send_calls_ends cfg turns xs price false (saw_receipt x price t r p))
  | inr (inr e) ↦ rw (send_calls, e) (refl, (λ e. ground arith))
  | inr (inl (f, e)) ↦ (elim (Bool-cases (not f.says_balance_low && not (is_fee_low f.kind))) [
    | inl final ↦ rw (send_calls, e, final) (refl, (λ e. ground arith))
    | inr again ↦ (elim (Bool-cases retried) [
      | inl twice ↦ rw (send_calls, e, again, twice) (refl, (λ e. ground arith))
      | inr once ↦
          let calls = map (λ y. y.0) (x ∷ xs) in
          let sized = resize cfg t.reading t.top_up calls (saw_failure x price t f p) in
          elim (Sum-cases sized.0) [
            | inl (err, stuck) ↦ rw (send_calls, e, again, once, stuck) (refl, (λ e. ground arith))
            | inr ((price', xs'), ready) ↦
                let kept =
                  receipts-resize cfg t.reading t.top_up calls (saw_failure x price t f p)
                    (price', xs') ready in
                rw (send_calls, e, again, once, ready)
                  (ground (
                    arith,
                    once,
                    kept,
                    length-calls xs,
                    send_calls_ends cfg turns xs' price' true sized.1,
                  ))
          ]
    ])
  ])
]

send_plain_ends :
    (turns : List Turn) (xs : List Sized) (price : ℕ) (p : Paid)
    → length xs ≤ length turns
    → HasEnded (length p.receipts) (length xs) (send_plain turns xs price p)
unfolding send_plain
send_plain_ends turns [] price p enough = (refl, (λ e. ground arith))
send_plain_ends [] (x ∷ xs) price p enough = ground arith
send_plain_ends (t ∷ turns) (x ∷ xs) price p enough = elim (Answer-cases t.answer) [
  | inl (r, e) ↦ ground (arith, e, send_plain_ends turns xs price (saw_receipt x price t r p))
  | inr (inr e) ↦ rw (send_plain, e) (refl, (λ e. ground arith))
  | inr (inl (f, e)) ↦ rw (send_plain, e) (refl, (λ e. ground arith))
]

receipts-fund_first : (m : Meeting) (shortfall : ℕ) → (fund_first m shortfall).1.receipts ≡ []
unfolding fund_first top_up
receipts-fund_first m shortfall = ground arith

check_and_send_ends :
    (cfg : SponsorSettings) (m : Meeting) (price : ℕ) (xs : List Sized)
    (q : Option (SponsorError × Bool) × Paid)
    → 2 * length xs ≤ length m.turns
    → HasEnded (length q.1.receipts) (length xs) (check_and_send cfg m price xs q)
unfolding check_and_send
check_and_send_ends cfg m price xs (some (e, is_domain), p) enough = (refl, (λ e. ground arith))
check_and_send_ends cfg m price xs (none, p) enough =
    ground (arith, send_calls_ends cfg m.turns xs price false p)

send_sponsored_ends :
    (cfg : SponsorSettings) (user : UserRow) (kind : SponsorKind) (calls : List ℕ) (m : Meeting)
    (db : Db)
    → 2 * length calls ≤ length m.turns
    → HasEnded 0 (length calls) (
      (send_sponsored cfg user kind calls m db).outcome,
      (send_sponsored cfg user kind calls m db).paid,
    )
unfolding send_sponsored
send_sponsored_ends cfg user kind calls m db enough = elim (Sum-cases (size cfg m.reading calls)) [
  | inl (e, unsized) ↦ rw (send_sponsored, unsized) (refl, (λ e. ground arith))
  | inr ((price, limits, shortfall), sized) ↦
      (elim (Sum-cases (reserve cfg user kind limits m.now db).0) [
        | inl (e, refused) ↦ rw (send_sponsored, sized, refused) (refl, (λ e. ground arith))
        | inr ((reserved, day), granted) ↦ ground (
          arith,
          sized,
          granted,
          length-size cfg m.reading calls (price, limits, shortfall) sized,
          receipts-fund_first m shortfall,
          check_and_send_ends cfg m price limits (fund_first m shortfall),
        )
      ])
]

send_unsponsored_ends :
    (calls : List ℕ) (m : Meeting) (db : Db)
    → 2 * length calls ≤ length m.turns
    → HasEnded 0
        (length calls)
        ((send_unsponsored calls m db).outcome, (send_unsponsored calls m db).paid)
unfolding send_unsponsored
send_unsponsored_ends calls m db enough = elim (Option-cases m.reading) [
  | inl unread ↦ rw (send_unsponsored, unread) (refl, (λ e. ground arith))
  | inr (reading, got) ↦ ground (
    arith,
    got,
    length-limits_of reading calls,
    send_plain_ends m.turns (limits_of reading calls) reading.price nothing_paid,
  )
]

-- A send that ends, without an error only with a receipt of a success for each call.
abbrev pub IsComplete : List ℕ → Sponsored → Type 0
IsComplete calls r =
    (is_some r.outcome ≡ true)
    × (r.outcome ≡ some none
        → (length r.paid.receipts ≡ length calls) × (all_succeeded r.paid.receipts ≡ true))

with_reverts-IsComplete :
    (calls : List ℕ) (r : Sponsored)
    → HasEnded 0 (length calls) (r.outcome, r.paid)
    → IsComplete calls (with_reverts r)
with_reverts-IsComplete calls r ended = ground arith

-- A send of a user's calls ends within two turns for each call, and where it raises nothing, there is
-- a receipt for each call, all of them of transactions that succeeded.
pub send_ends :
    (cfg : SponsorSettings) (user : UserRow) (kind : SponsorKind) (exported : Bool) (calls : List ℕ)
    (m : Meeting) (db : Db)
    → 2 * length calls ≤ length m.turns
    → IsComplete calls (send cfg user kind exported calls m db)
unfolding send
send_ends cfg user kind exported calls m db enough =
    elim (Bool-cases ((not (is_onboarding kind) && not cfg.sponsor_user_gas) || exported)) [
      | inl off ↦
          rw (send, off)
            (with_reverts-IsComplete calls (send_unsponsored calls m db)
              (send_unsponsored_ends calls m db enough))
      | inr on ↦
          rw (send, on)
            (with_reverts-IsComplete calls (send_sponsored cfg user kind calls m db)
              (send_sponsored_ends cfg user kind calls m db enough))
    ]
