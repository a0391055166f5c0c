-- ===== src/Sponsor/Known.antt =====
-- services/gas_sponsor.py: what `UserGasSponsor` knows of what was paid.
use agentpit.Prelude.{
  ℕ, ◌+◌, ◌≡◌, refl, Bool, true, false, not, ◌&&◌, ◌||◌, Option, none, some, List, [], ◌∷◌, map,
  ltb, ◌==◌, ==_iff, arith, if◌then◌else◌, ◌⊎◌, inl, inr, Bool-cases, Sum-cases,
}
use agentpit.Prelude.Dict.{pairs_eq}
use agentpit.Sponsor.{
  Failed, UserReceipt, SendAnswer, mined, failed, stopped, Reading, TopUp, Turn, SponsorError,
  funded, fund_timeout, fund_dropped, fund_stopped, fund_failed, SponsorSettings, cannot_mine,
  is_fee_low, is_transport, Sized, Event, topped, broadcast, Paid, paid_gas, nothing_paid, top_up,
  resize, transfer_gas,
}
use agentpit.Sponsor.Sending.{
  saw_receipt, saw_failure, send_calls, Meeting, fund_first, check_and_send,
}

-- An answer that settles a broadcast tells the truth: what is funded or has a receipt mined, and what
-- is refused, dropped or never reached the node never does.
abbrev pub is_true_answer : Event → Bool
is_true_answer (topped t) = elim t.answer [
  | funded ↦ t.mines
  | fund_timeout ↦ true
  | fund_dropped ↦ not t.mines
  | fund_stopped ↦ true
  | fund_failed kind is_domain ↦ is_transport kind || not t.mines
]
is_true_answer (broadcast x price (mined r) burns) = burns == r.gas_used
is_true_answer (broadcast x price (failed f) burns) =
    not (f.is_dropped || cannot_mine f) || burns == 0
is_true_answer (broadcast x price stopped burns) = true

abbrev pub all_true : List Event → Bool
all_true [] = true
all_true (e ∷ es) = is_true_answer e && all_true es

-- The gas of a broadcast that mines in the end.
abbrev gas_of_event : Event → ℕ
gas_of_event (topped t) = if t.mines then transfer_gas else 0
gas_of_event (broadcast x price a burns) = burns

abbrev pub gas_burnt : List Event → ℕ
gas_burnt [] = 0
gas_burnt (e ∷ es) = gas_of_event e + gas_burnt es

-- What is known to be paid is what was burnt, unless something is unseen.
abbrev pub IsKnown : Paid → Type 0
IsKnown p = all_true p.events ≡ true → p.unseen ≡ false → gas_burnt p.events ≡ paid_gas p

top_up-IsKnown : (t : TopUp) (p : Paid) → p.unseen ≡ false → IsKnown p → IsKnown (top_up t p).1
unfolding top_up
top_up-IsKnown t p seen known honest seen' = ground (arith, known)

-- A top-up that raises nothing leaves nothing unseen.
top_up_seen : (t : TopUp) (p : Paid) → (top_up t p).0 ≡ none → (top_up t p).1.unseen ≡ false
unfolding top_up
top_up_seen t p e = ground arith

resize-IsKnown :
    (cfg : SponsorSettings) (reading : Option Reading) (t : TopUp) (calls : List ℕ) (p : Paid)
    → p.unseen ≡ false
    → IsKnown p
    → IsKnown (resize cfg reading t calls p).1
unfolding resize
resize-IsKnown cfg reading t calls p seen known honest seen' =
    ground (arith, known, top_up-IsKnown t p seen known)

resize_seen :
    (cfg : SponsorSettings) (reading : Option Reading) (t : TopUp) (calls : List ℕ) (p : Paid)
    (x : ℕ × List Sized)
    → p.unseen ≡ false
    → (resize cfg reading t calls p).0 ≡ inr x
    → (resize cfg reading t calls p).1.unseen ≡ false
unfolding resize
resize_seen cfg reading t calls p x seen e = ground (arith, top_up_seen t p)

pub Answer-cases :
    (a : SendAnswer)
    → ((r : UserReceipt) × (a ≡ mined r)) ⊎ ((f : Failed) × (a ≡ failed f)) ⊎ (a ≡ stopped)
Answer-cases (mined r) = inl (r, refl)
Answer-cases (failed f) = inr (inl (f, refl))
Answer-cases stopped = inr (inr refl)

saw_receipt-IsKnown :
    (x : Sized) (price : ℕ) (t : Turn) (r : UserReceipt) (p : Paid)
    → t.answer ≡ mined r
    → p.unseen ≡ false
    → IsKnown p
    → IsKnown (saw_receipt x price t r p)
saw_receipt-IsKnown x price t r p e seen known honest seen' =
    ground (arith, e, known, ==_iff t.burns r.gas_used)

saw_failure-IsKnown :
    (x : Sized) (price : ℕ) (t : Turn) (f : Failed) (p : Paid)
    → t.answer ≡ failed f
    → p.unseen ≡ false
    → IsKnown p
    → IsKnown (saw_failure x price t f p)
saw_failure-IsKnown x price t f p e seen known honest seen' =
    ground (arith, e, known, ==_iff t.burns 0)

-- What is worth a retry can never mine.
retry_settles :
    (f : Failed)
    → not f.says_balance_low && not (is_fee_low f.kind) ≡ false
    → not (f.is_dropped || cannot_mine f) ≡ false
retry_settles f e = ground arith

send_calls-IsKnown :
    (cfg : SponsorSettings) (turns : List Turn) (xs : List Sized) (price : ℕ) (retried : Bool)
    (p : Paid)
    → p.unseen ≡ false
    → IsKnown p
    → IsKnown (send_calls cfg turns xs price retried p).1
unfolding send_calls
send_calls-IsKnown cfg turns [] price retried p seen known = known
send_calls-IsKnown cfg [] (x ∷ xs) price retried p seen known = known
send_calls-IsKnown cfg (t ∷ turns) (x ∷ xs) price retried p seen known =
    elim (Answer-cases t.answer) [
      | inl (r, e) ↦
          rw (send_calls, e)
            (send_calls-IsKnown cfg turns xs price false (saw_receipt x price t r p) refl
              (saw_receipt-IsKnown x price t r p e seen known))
      | inr (inr e) ↦ rw (send_calls, e) (λ honest seen'. ground arith)
      | inr (inl (f, e)) ↦
          let known' = saw_failure-IsKnown x price t f p e seen known in
          elim (Bool-cases (not f.says_balance_low && not (is_fee_low f.kind))) [
            | inl final ↦ rw (send_calls, e, final) known'
            | inr again ↦ (elim (Bool-cases retried) [
              | inl twice ↦ rw (send_calls, e, again, twice) known'
              | inr once ↦
                  let seen' : (saw_failure x price t f p).unseen ≡ false = retry_settles f again in
                  let sized =
                    resize cfg t.reading t.top_up (map (λ y. y.0) (x ∷ xs))
                      (saw_failure x price t f p) in
                  let known'' =
                    resize-IsKnown cfg t.reading t.top_up (map (λ y. y.0) (x ∷ xs))
                      (saw_failure x price t f p) seen' known' in
                  elim (Sum-cases (sized.0)) [
                    | inl (err, stuck) ↦ rw (send_calls, e, again, once, stuck) known''
                    | inr ((price', xs'), ready) ↦
                        rw (send_calls, e, again, once, ready)
                          (send_calls-IsKnown cfg turns xs' price' true (sized.1)
                            (resize_seen cfg t.reading t.top_up (map (λ y. y.0) (x ∷ xs))
                              (saw_failure x price t f p) (price', xs') seen' ready)
                            known'')
                  ]
            ])
          ]
    ]

-- The payments so far, and whether they raised an error: what is not seen is raised.
abbrev IsKnownEnding : Option (SponsorError × Bool) × Paid → Type 0
IsKnownEnding q = IsKnown q.1 × (q.0 ≡ none → q.1.unseen ≡ false)

pub fund_first-IsKnownEnding :
    (m : Meeting) (shortfall : ℕ) → IsKnownEnding (fund_first m shortfall)
unfolding fund_first
fund_first-IsKnownEnding m shortfall = elim (Bool-cases (ltb 0 shortfall)) [
  | inl short ↦
      rw (fund_first, short)
        (
          top_up-IsKnown m.top_up nothing_paid refl (λ honest seen. refl),
          top_up_seen m.top_up nothing_paid,
        )
  | inr enough ↦ rw (fund_first, enough) ((λ honest seen. refl), (λ e. refl))
]

pub check_and_send-IsKnown :
    (cfg : SponsorSettings) (m : Meeting) (price : ℕ) (limits : List Sized)
    (q : Option (SponsorError × Bool) × Paid)
    → IsKnownEnding q
    → IsKnown (check_and_send cfg m price limits q).1
unfolding check_and_send
check_and_send-IsKnown cfg m price limits (some (e, is_domain), p) known = known.0
check_and_send-IsKnown cfg m price limits (none, p) known = elim (Bool-cases m.passes_check) [
  | inl passes ↦
      rw (check_and_send, passes)
        (send_calls-IsKnown cfg m.turns limits price false p (known.1 refl) (known.0))
  | inr fails ↦ rw (check_and_send, fails) (known.0)
]
