-- ===== src/Examples/Sending.antt =====
-- The theorems on sent transactions and sponsored gas, at an unanswered send and at a resized one.
use agentpit.Prelude.{
  inr, ◌==◌, if◌then◌else◌, ◌+◌, ◌*◌, ◌/◌, ◌≡◌, refl, true, false, none, some, List, [], ◌∷◌, arith,
  is_some,
}
use agentpit.Sender.{Config, Sender, Action, duplicate, transport, fee_low}
use agentpit.Sender.Send.{Round, sign_and_send}
use agentpit.Sender.Send.Answers.{is_only_copy_of}
use agentpit.Sender.Send.Once.{sign_and_send_once}
use agentpit.Sender.Send.Ends.{sign_and_send_ends}
use agentpit.Prelude.Dict.{get}
use agentpit.Sender.Batch.{BatchRound}
use agentpit.Sender.Batch.Running.{run_batch}
use agentpit.Sender.Batch.Complete.{run_batch-IsAnswered, IsAnswered}
use agentpit.Store.Gas.{reserve_sponsored_gas}
use agentpit.Sponsor.{
  split, SponsorSettings, Reading, TopUp, funded, Turn, mined, failed, seconds_per_day,
}
use agentpit.Sponsor.Sending.{Meeting, send_sponsored, send}
use agentpit.Sponsor.Books.{send_sponsored_books, IsBooked}
use agentpit.Sponsor.Ends.{send_ends, IsComplete}
use agentpit.Examples.Data.{db, user}

abbrev config : Config
config = record {
  sign = λ a fees nonce. 1000 * a.id + 10 * nonce + fees.0;
  sign_filler = λ fees nonce. 900000 + nonce;
  max_skips = 1;
  stall_after = 15;
  half_poll_interval = 1;
  fee_ttl = 30;
  forget_done_after = 600;
  alarm_gas = 0;
  stop_gas = 0;
}

abbrev sender : Sender
sender = record {
  entries = [];
  next_nonce = some 4;
  fees = none;
  pinned_fees = none;
  max_in_flight = 64;
  admin_balance = none;
  last_reap = none;
  last_stall_check = none;
}

abbrev action : Action
action = record { id = 3; gas = 21000; value = 0 }

-- The node takes the copy, and its answer is lost.
abbrev lost : Round
lost = record {
  now = 100;
  pending_nonce = none;
  fees = some (2, 1);
  answer = some (record { kind = transport; before_connecting = false });
  committed = none;
  own_receipt = none;
  slot_polls = [];
  took = true;
}

-- The node has the copy already.
abbrev known : Round
known = record lost {
  answer = some (record { kind = duplicate; before_connecting = false });
  took = false;
}

abbrev rounds : List Round
rounds = lost ∷ known ∷ known ∷ known ∷ known ∷ known ∷ known ∷ []

sign_and_send_once_example :
    is_only_copy_of
      (sign_and_send config action rounds [] sender).outcome
      (sign_and_send config action rounds [] sender).trace
    ≡ true
unfolding sign_and_send
sign_and_send_once_example = sign_and_send_once config action rounds [] sender refl

sign_and_send_ends_example : is_some (sign_and_send config action rounds [] sender).outcome ≡ true
sign_and_send_ends_example = sign_and_send_ends config action rounds [] sender tt (omega arith)

abbrev settings : SponsorSettings
settings = record { sponsor_user_gas = true; max_topup_gas = 1000000; daily_sponsored_gas = 500000 }

abbrev reading : Reading
reading = record { price = 2; estimate = λ call. 50000; balance = 100000 }

abbrev top_up : TopUp
top_up = record { answer = funded; mines = true }

-- The node refuses the first copy for its fee; the resized one mines.
abbrev turns : List Turn
turns =
    record {
      answer = failed (record {
        kind = fee_low;
        says_balance_low = false;
        before_connecting = false;
        is_dropped = false;
      });
      burns = 0;
      reading = some (record reading { price = 3; balance = 120000 });
      top_up = top_up;
    }
    ∷ record {
      answer = mined (record { is_success = true; gas_used = 48000 });
      burns = 48000;
      reading = none;
      top_up = top_up;
    }
    ∷ []

abbrev meeting : Meeting
meeting = record {
  now = 1000000;
  reading = some reading;
  top_up = top_up;
  passes_check = true;
  turns = turns;
  can_write = true;
}

send_sponsored_books_example :
    IsBooked user
      (1000000 / seconds_per_day)
      db
      (send_sponsored settings user split (6 ∷ []) meeting db)
unfolding send_sponsored reserve_sponsored_gas get
send_sponsored_books_example =
    send_sponsored_books settings user split (6 ∷ []) meeting db refl refl refl

send_ends_example : IsComplete (6 ∷ []) (send settings user split false (6 ∷ []) meeting db)
send_ends_example = send_ends settings user split false (6 ∷ []) meeting db (omega arith)

-- The first item's answer is lost and its second copy is known, the second one's price is too low.
abbrev batch : BatchRound
batch = record {
  now = 100;
  slot_polls = [];
  pending_nonce = none;
  fees = some (2, 1);
  first = inr (λ h.
      some (record { kind = if h == 3042 then transport else fee_low; before_connecting = false }));
  second = inr (λ h. some (record { kind = duplicate; before_connecting = false }));
  mined = none;
  filler_fees = some (3, 1);
  takes_filler = λ nonce. true;
  singles = λ nonce. record {
    slot_polls = [];
    rounds = record known { fees = some (3, 1) } ∷ [];
    polls = [];
    read_stops = false;
  };
}

run_batch-IsAnswered_example :
    IsAnswered
      (action ∷ record action { id = 5 } ∷ [])
      batch
      (run_batch config (action ∷ record action { id = 5 } ∷ []) batch sender)
run_batch-IsAnswered_example =
    run_batch-IsAnswered config (action ∷ record action { id = 5 } ∷ []) batch sender
