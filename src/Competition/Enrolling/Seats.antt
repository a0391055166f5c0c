-- ===== src/Competition/Enrolling/Seats.antt =====
-- What a seat that is still free tells of the owner's other agents.
use mathlib.Core.Path.{subst}
use agentpit.Prelude.{
  ℕ, ◌≡◌, refl, sym, ◌∙◌, Bool, true, false, not, ◌&&◌, Option, none, some, List, [], ◌∷◌, any,
  ◌==◌, ==_iff, arith, if◌then◌else◌, Option-cases, inl, inr, ap,
}
use agentpit.Store.{find}
use agentpit.Competition.{Account, Tables, find_competition, find_user}
use agentpit.Competition.Enrolling.{
  Seat, same_seat, same_option, same_bool, has_prizes, owned_by, seat_of, seat,
}

find_user_id :
    (user_id : ℕ) (users : List Account) {u : Account}
    → find (λ u. u.user_id == user_id) users ≡ some u
    → u.user_id ≡ user_id
find_user_id user_id [] e = absurd cc
find_user_id user_id (x ∷ users) {u} e =
    ground (arith, find_user_id user_id users {u = u}, ==_iff x.user_id user_id)

ends_of : (a b c d : Bool) → a && (b && (c && d)) ≡ true → (a ≡ true) × (d ≡ true)
ends_of a b c d e = ground arith

without : (a b : Bool) → a ≡ true → a && b ≡ false → b ≡ false
without true b h e = e
without false b h e = absurd cc

same_option_eq : (a b : Option ℕ) → same_option a b ≡ true → a ≡ b
same_option_eq none none e = refl
same_option_eq none (some b) e = absurd cc
same_option_eq (some a) none e = absurd cc
same_option_eq (some a) (some b) e = ap (λ x. some x) ((==_iff a b).0 e)

same_bool_eq : (a b : Bool) → same_bool a b ≡ true → a ≡ b
same_bool_eq true b e = sym e
same_bool_eq false true e = absurd cc
same_bool_eq false false e = refl

of_some :
    (b : Bool) (o : Option ℕ) (owner : ℕ) → (if b then o else none) ≡ some owner → o ≡ some owner
of_some true o owner e = e
of_some false o owner e = absurd cc

-- Where the owner's other agents do not take the seat of an agent, none of them is entered.
pub seat_free :
    (slug user_id : ℕ) (db : Tables) (s : Seat) (owner : ℕ)
    → same_seat (seat slug user_id db) s ≡ true
    → s.owner ≡ some owner
    → s.taken ≡ false
    → has_prizes (find_competition slug db) ≡ true
    → any (λ o. owned_by slug (some owner) o && not (o.user_id == user_id)) db.entries ≡ false
unfolding seat seat_of
seat_free slug user_id db s owner same mine free prizes =
    elim (Option-cases (find_user user_id db)) [
      | inl missing ↦ absurd (ground (arith, missing, same))
      | inr (u, found) ↦
          let t = seat_of slug u db in
          let eq : seat slug user_id db ≡ some t = rw (seat, found) refl in
          let same_t : same_seat (some t) s ≡ true = subst (λ x. same_seat x s ≡ true) eq same in
          let (owners, takens) =
            ends_of (same_option t.owner s.owner) (t.eth_address == s.eth_address)
              (same_option t.enrolled_at s.enrolled_at) (same_bool t.taken s.taken) same_t in
          let mine_u : u.owner ≡ some owner =
            of_some _ u.owner owner (same_option_eq t.owner s.owner owners ∙ mine) in
          let free_t : t.taken ≡ false = same_bool_eq t.taken s.taken takens ∙ free in
          let id = find_user_id user_id db.users {u = u} found in
          let unowned : any (λ o. owned_by slug u.owner o && not (o.user_id == u.user_id))
                db.entries
              ≡ false =
            without (has_prizes (find_competition slug db)) _ prizes free_t in
          subst
            (λ x.
              any (λ o. owned_by slug (some owner) o && not (o.user_id == x)) db.entries ≡ false)
            id
            (subst
              (λ x. any (λ o. owned_by slug x o && not (o.user_id == u.user_id)) db.entries ≡ false)
              mine_u unowned)
    ]
