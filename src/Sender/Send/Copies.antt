-- ===== src/Sender/Send/Copies.antt =====
-- onchain/tx_sender.py: what a trace of broadcasts says of the copies that the node holds.
use agentpit.Prelude.{
  ℕ, ◌≡◌, refl, Bool, true, false, not, ◌&&◌, Option, none, some, List, [], ◌∷◌, any, ◌==◌, arith,
}
use agentpit.Sender.{SendError, duplicate, nonce_taken, transport, Failure}
use agentpit.Sender.Send.{
  Sent, Outcome, accepted, unknown, refused, read_failed, no_slot, Pinned, Next, stop, again,
}

-- An answer that proves that the node did not take the copy: a refusal, or no connection at all.
abbrev proves_untaken : Failure → SendError → Bool
proves_untaken f transport = f.before_connecting
proves_untaken f duplicate = false
proves_untaken f _ = true

abbrev pub is_refusal : Option Failure → Bool
is_refusal none = false
is_refusal (some f) = proves_untaken f f.kind

abbrev is_nonce_taken_kind : SendError → Bool
is_nonce_taken_kind nonce_taken = true
is_nonce_taken_kind _ = false

abbrev pub is_nonce_taken : Option Failure → Bool
is_nonce_taken none = false
is_nonce_taken (some f) = is_nonce_taken_kind f.kind

abbrev pub took_any : List Sent → Bool
took_any trace = any (λ o. o.took) trace

abbrev pub took_same : ℕ → List Sent → Bool
took_same h trace = any (λ o. o.took && o.tx_hash == h) trace

abbrev pub took_other : ℕ → List Sent → Bool
took_other h trace = any (λ o. o.took && not (o.tx_hash == h)) trace

-- What the node's answers are relied on for: a copy that is refused or never reached it is not
-- taken; and it knows its own transactions before it looks at their nonces, so that one that
-- answers the first resend of some bytes by "same nonce" holds no copy of them.
abbrev pub is_honest_at : Sent → List Sent → Bool
is_honest_at x older =
    not (is_refusal x.answer && x.took)
    && not (x.is_first_resend && (is_nonce_taken x.answer && took_same x.tx_hash older))

abbrev pub is_honest : List Sent → Bool
is_honest [] = true
is_honest (x ∷ older) = is_honest_at x older && is_honest older

-- While nothing is pinned the node holds no copy; while bytes are, it holds no other.
abbrev pub inv : Option Pinned → Bool → List Sent → Bool
inv none never trace = not (took_any trace)
inv (some p) never trace = not (took_other p.tx_hash trace) && not (never && took_any trace)

-- What an outcome says of the copies: those of the transaction that it names, or none.
abbrev pub is_only_copy : Outcome → List Sent → Bool
is_only_copy (accepted p) trace = not (took_other p.tx_hash trace)
is_only_copy (unknown p f) trace = not (took_other p.tx_hash trace)
is_only_copy (refused f) trace = not (took_any trace)
is_only_copy read_failed trace = not (took_any trace)
is_only_copy no_slot trace = not (took_any trace)

abbrev pub is_fine : Next → List Sent → Bool
is_fine (stop o s) trace = is_only_copy o trace
is_fine (again l polls s) trace = inv l.pinned l.never_connected trace

pub none_took_other :
    (h : ℕ) (trace : List Sent) → took_any trace ≡ false → took_other h trace ≡ false
none_took_other h [] e = refl
none_took_other h (x ∷ trace) e = ground (arith, none_took_other h trace)

pub none_took :
    (h : ℕ) (trace : List Sent)
    → took_same h trace ≡ false
    → took_other h trace ≡ false
    → took_any trace ≡ false
none_took h [] e d = refl
none_took h (x ∷ trace) e d = ground (arith, none_took h trace)
