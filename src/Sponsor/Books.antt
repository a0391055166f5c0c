-- ===== src/Sponsor/Books.antt =====
-- services/gas_sponsor.py: what a sponsored send books.
use agentpit.Prelude.{
  ℕ, ◌+◌, ◌/◌, ◌≡◌, ◌≤◌, max, Bool, true, false, List, arith, if◌then◌else◌, inl, inr, Sum-cases,
  pos, sub_ℕ, max_ℤ,
}
use agentpit.Prelude.Dict.{pairs_eq}
use agentpit.Store.{Db, UserRow}
use agentpit.Store.Gas.{
  sponsored_gas_used, reserve_sponsored_gas, used-reserve_sponsored_gas, used-add_sponsored_gas,
}
use agentpit.Sponsor.{
  SponsorKind, SponsorError, SponsorSettings, Sized, size, reserve, paid_gas, transfer_gas, gas_of,
  seconds_per_day,
}
use agentpit.Sponsor.Sending.{book, Sponsored, Meeting, fund_first, check_and_send, send_sponsored}
use agentpit.Sponsor.Known.{all_true, gas_burnt, fund_first-IsKnownEnding, check_and_send-IsKnown}

used-book :
    (user : UserRow) (gas reserved day : ℕ) (unseen : Bool) (db : Db)
    → user.is_bot ≡ false
    → reserved ≤ sponsored_gas_used user.api_key day db
    → sponsored_gas_used user.api_key day (book user true gas reserved day unseen db) + reserved
      ≡ sponsored_gas_used user.api_key day db + (if unseen then max gas reserved else gas)
unfolding book
used-book user gas reserved day unseen db human le = ground (
  arith,
  used-add_sponsored_gas user.api_key day (sub_ℕ gas reserved) db,
  used-add_sponsored_gas user.api_key day (max_ℤ (sub_ℕ gas reserved) (pos 0)) db,
)

-- What `reserve` reserved is in the row of its day, and a refusal reserves nothing.
used-reserve :
    (cfg : SponsorSettings) (user : UserRow) (kind : SponsorKind) (limits : List Sized) (now : ℕ)
    (db : Db) (y : ℕ × ℕ)
    → (reserve cfg user kind limits now db).0 ≡ inr y
    → (y.1 ≡ now / seconds_per_day)
      × (sponsored_gas_used user.api_key y.1 (reserve cfg user kind limits now db).1
          ≡ sponsored_gas_used user.api_key y.1 db + y.0)
unfolding reserve
used-reserve cfg user kind limits now db y e = ground (
  arith,
  used-reserve_sponsored_gas user.api_key (now / seconds_per_day) (gas_of limits + transfer_gas)
      cfg.daily_sponsored_gas db,
)

refused-reserve :
    (cfg : SponsorSettings) (user : UserRow) (kind : SponsorKind) (limits : List Sized) (now : ℕ)
    (db : Db) (e : SponsorError)
    → (reserve cfg user kind limits now db).0 ≡ inl e
    → (reserve cfg user kind limits now db).1 ≡ db
unfolding reserve reserve_sponsored_gas
refused-reserve cfg user kind limits now db e refused = ground arith

-- What a day's row gains by a send: the gas that was burnt where nothing is left unseen, else what
-- was paid or the reservation, whichever is more.
abbrev pub IsBooked : UserRow → ℕ → Db → Sponsored → Type 0
IsBooked user day db r =
    sponsored_gas_used user.api_key day r.db
    ≡ sponsored_gas_used user.api_key day db
      + (if r.paid.unseen then max (paid_gas r.paid) r.reserved else gas_burnt r.paid.events)

-- A sponsored send for a user who is not the house's, whose booking is written and whose answers are
-- all true, whatever stops it: where nothing is left unseen, the user's row of the day rises by
-- exactly the gas that its top-ups and calls burnt; where something is, by the gas that is known to
-- be paid or by the reservation, whichever is more.
pub send_sponsored_books :
    (cfg : SponsorSettings) (user : UserRow) (kind : SponsorKind) (calls : List ℕ) (m : Meeting)
    (db : Db)
    → user.is_bot ≡ false
    → m.can_write ≡ true
    → all_true (send_sponsored cfg user kind calls m db).paid.events ≡ true
    → IsBooked user (m.now / seconds_per_day) db (send_sponsored cfg user kind calls m db)
unfolding send_sponsored
send_sponsored_books cfg user kind calls m db human written honest =
    elim (Sum-cases (size cfg m.reading calls)) [
      | inl (e, unsized) ↦ rw (send_sponsored, unsized) (ground arith)
      | inr ((price, limits, shortfall), sized) ↦
          (elim (Sum-cases (reserve cfg user kind limits m.now db).0) [
            | inl (e, refused) ↦
                rw
                  (
                    send_sponsored,
                    sized,
                    refused,
                    refused-reserve cfg user kind limits m.now db e refused,
                  )
                  (ground arith)
            | inr ((reserved, day), granted) ↦
                let q = fund_first m shortfall in
                let p = (check_and_send cfg m price limits q).1 in
                let known =
                  check_and_send-IsKnown cfg m price limits q
                    (fund_first-IsKnownEnding m shortfall) in
                let row = used-reserve cfg user kind limits m.now db (reserved, day) granted in
                ground (
                  arith,
                  sized,
                  granted,
                  known,
                  row,
                  used-book user (paid_gas p) reserved day p.unseen
                      (reserve cfg user kind limits m.now db).1 human,
                )
          ])
    ]
