-- ===== src/Sender/Send/Answers.antt =====
-- onchain/tx_sender.py: what one round of `_sign_and_send` does to the copies that the node holds.
use agentpit.Prelude.{
  ℕ, ◌≡◌, refl, Bool, true, false, not, ◌&&◌, ◌||◌, Option, none, some, List, ◌∷◌, ==_iff, arith,
  Option-cases, inl, inr,
}
use agentpit.Sender.{
  SendError, duplicate, nonce_taken, nonce_invalid, fee_low, queue_full, balance_low, transport,
  other_error, Failure, Sender, Action, Config,
}
use agentpit.Sender.Poll.{Poll}
use agentpit.Sender.Send.{
  Round, Sent, Outcome, Pinned, Local, Step, unsent, sent, after_first, after_resend, send_fresh,
  send_again, send_round, next_nonce_of, signing_fees,
}
use agentpit.Sender.Send.Copies.{
  took_any, took_other, is_honest_at, inv, is_only_copy, is_fine, none_took_other, none_took,
}

module _ (c : Config) (a : Action) (r : Round) (polls : List Poll) (s : Sender) where
  after_first-is_fine :
      (l : Local) (h nonce : ℕ) (f : Failure) (k : SendError) (x : Sent) (trace : List Sent)
      → l.pinned ≡ none
      → f.kind ≡ k
      → x.answer ≡ some f
      → x.tx_hash ≡ h
      → is_honest_at x trace ≡ true
      → took_any trace ≡ false
      → is_fine (after_first c a r l polls h nonce s f k) (x ∷ trace) ≡ true
  unfolding after_first
  after_first-is_fine l h nonce f duplicate x trace p e q m hon none_yet =
      ground (arith, none_took_other h trace, ==_iff h h)
  after_first-is_fine l h nonce f nonce_taken x trace p e q m hon none_yet =
      ground (arith, none_took_other h trace, ==_iff h h)
  after_first-is_fine l h nonce f nonce_invalid x trace p e q m hon none_yet =
      ground (arith, none_took_other h trace, ==_iff h h)
  after_first-is_fine l h nonce f fee_low x trace p e q m hon none_yet =
      ground (arith, none_took_other h trace, ==_iff h h)
  after_first-is_fine l h nonce f queue_full x trace p e q m hon none_yet =
      ground (arith, none_took_other h trace, ==_iff h h)
  after_first-is_fine l h nonce f balance_low x trace p e q m hon none_yet =
      ground (arith, none_took_other h trace, ==_iff h h)
  after_first-is_fine l h nonce f transport x trace p e q m hon none_yet =
      ground (arith, none_took_other h trace, ==_iff h h)
  after_first-is_fine l h nonce f other_error x trace p e q m hon none_yet =
      ground (arith, none_took_other h trace, ==_iff h h)

  -- `l` knows already whether this copy connected.
  after_resend-is_fine :
      (l : Local) (p : Pinned) (f : Failure) (k : SendError) (x : Sent) (trace : List Sent)
      → f.kind ≡ k
      → l.pinned ≡ some p
      → x.answer ≡ some f
      → x.tx_hash ≡ p.tx_hash
      → x.is_first_resend ≡ not l.waited
      → is_honest_at x trace ≡ true
      → took_other p.tx_hash trace ≡ false
      → l.never_connected && not (f.before_connecting) ≡ false
      → l.never_connected && took_any trace ≡ false
      → is_fine (after_resend c a r l polls p s k) (x ∷ trace) ≡ true
  unfolding after_resend
  after_resend-is_fine l p f duplicate x trace e pin q m first hon others conn never =
      ground
        (arith, none_took p.tx_hash trace, ==_iff p.tx_hash p.tx_hash, ==_iff x.tx_hash p.tx_hash)
  after_resend-is_fine l p f nonce_taken x trace e pin q m first hon others conn never =
      ground
        (arith, none_took p.tx_hash trace, ==_iff p.tx_hash p.tx_hash, ==_iff x.tx_hash p.tx_hash)
  after_resend-is_fine l p f nonce_invalid x trace e pin q m first hon others conn never =
      ground
        (arith, none_took p.tx_hash trace, ==_iff p.tx_hash p.tx_hash, ==_iff x.tx_hash p.tx_hash)
  after_resend-is_fine l p f fee_low x trace e pin q m first hon others conn never =
      ground
        (arith, none_took p.tx_hash trace, ==_iff p.tx_hash p.tx_hash, ==_iff x.tx_hash p.tx_hash)
  after_resend-is_fine l p f queue_full x trace e pin q m first hon others conn never =
      ground
        (arith, none_took p.tx_hash trace, ==_iff p.tx_hash p.tx_hash, ==_iff x.tx_hash p.tx_hash)
  after_resend-is_fine l p f balance_low x trace e pin q m first hon others conn never =
      ground
        (arith, none_took p.tx_hash trace, ==_iff p.tx_hash p.tx_hash, ==_iff x.tx_hash p.tx_hash)
  after_resend-is_fine l p f transport x trace e pin q m first hon others conn never =
      ground
        (arith, none_took p.tx_hash trace, ==_iff p.tx_hash p.tx_hash, ==_iff x.tx_hash p.tx_hash)
  after_resend-is_fine l p f other_error x trace e pin q m first hon others conn never =
      ground
        (arith, none_took p.tx_hash trace, ==_iff p.tx_hash p.tx_hash, ==_iff x.tx_hash p.tx_hash)

-- A round's broadcast and what follows it.
abbrev pub round_is_fine : Step → List Sent → Bool
round_is_fine (unsent o s) trace = is_only_copy o trace
round_is_fine (sent x n) trace = not (is_honest_at x trace) || is_fine n (x ∷ trace)

abbrev fresh_copy : Round → ℕ → ℕ → Sent
fresh_copy r h nonce = record {
  tx_hash = h;
  nonce = nonce;
  answer = r.answer;
  took = r.took;
  is_first_resend = false;
}

abbrev same_copy : Round → Local → Pinned → Sent
same_copy r l p = record {
  tx_hash = p.tx_hash;
  nonce = p.nonce;
  answer = r.answer;
  took = r.took;
  is_first_resend = not l.waited;
}

abbrev connected : Local → Failure → Local
connected l f = record l { never_connected = l.never_connected && f.before_connecting }

module _ (c : Config) (a : Action) (r : Round) (polls : List Poll) (s : Sender) where
  send_fresh-is_fine :
      (l : Local) (trace : List Sent)
      → l.pinned ≡ none
      → took_any trace ≡ false
      → round_is_fine (send_fresh c a r l polls s) trace ≡ true
  unfolding send_fresh
  send_fresh-is_fine l trace e none_yet = elim (Option-cases (next_nonce_of r s)) [
    | inl unread ↦ ground (arith, unread)
    | inr (nonce, known) ↦
        (elim (Option-cases (signing_fees c r (record s { next_nonce = some nonce }))) [
          | inl unread ↦ ground (arith, known, unread)
          | inr ((fees, s'), priced) ↦
              let h = c.sign a fees nonce in
              elim (Option-cases r.answer) [
                | inl taken ↦
                    ground (arith, known, priced, taken, none_took_other h trace, ==_iff h h)
                | inr (f, failed) ↦ ground (
                  arith,
                  known,
                  priced,
                  failed,
                  after_first-is_fine c a r polls s' l h nonce f f.kind (fresh_copy r h nonce) trace
                      e refl failed refl,
                )
              ]
        ])
  ]

  send_again-is_fine :
      (l : Local) (p : Pinned) (trace : List Sent)
      → l.pinned ≡ some p
      → inv l.pinned l.never_connected trace ≡ true
      → round_is_fine (send_again c a r l polls p s) trace ≡ true
  unfolding send_again
  send_again-is_fine l p trace e i = elim (Option-cases r.answer) [
    | inl taken ↦ ground (arith, taken, ==_iff p.tx_hash p.tx_hash)
    | inr (f, failed) ↦ ground (
      arith,
      failed,
      after_resend-is_fine c a r polls s (connected l f) p f f.kind (same_copy r l p) trace refl e
          failed refl refl,
    )
  ]

pub send_round-is_fine :
    (c : Config) (a : Action) (r : Round) (l : Local) (polls : List Poll) (s : Sender)
    (trace : List Sent)
    → inv l.pinned l.never_connected trace ≡ true
    → round_is_fine (send_round c a r l polls s) trace ≡ true
unfolding send_round
send_round-is_fine c a r l polls s trace i = elim (Option-cases l.pinned) [
  | inl e ↦ ground (arith, e, send_fresh-is_fine c a r polls s l trace e)
  | inr (p, e) ↦ ground (arith, e, send_again-is_fine c a r polls s l p trace e i)
]

-- An outcome's copies, where there is an outcome.
abbrev pub is_only_copy_of : Option Outcome → List Sent → Bool
is_only_copy_of none trace = true
is_only_copy_of (some o) trace = is_only_copy o trace
