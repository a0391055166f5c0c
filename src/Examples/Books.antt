-- ===== src/Examples/Books.antt =====
-- The theorems on replicas, at the book of `Data`.
use agentpit.Prelude.{
  ◌≤◌, ◌≡◌, refl, true, false, some, pos, negsuc, List, [], ◌∷◌, min, sum_by, All, arith,
}
use agentpit.Prelude.Dict.{get, nat_eq, pair_eq}
use agentpit.Decimal.{finite}
use agentpit.Replica.{Take, to_micro, number, new_replica, apply_book}
use agentpit.Replica.Fields.{to_micro-six_places}
use agentpit.Replica.Valid.{IsValid, here, next, book, taken, new_replica-IsValid}
use agentpit.Replica.Snapshots.{snapshot}
use agentpit.Replica.Snapshots.Views.{Shows, snapshot-Shows}
use agentpit.Replica.Depth.{take, total, use_takes}
use agentpit.Replica.Depth.Memory.{total_at}
use agentpit.Replica.Depth.Walk.{take_fills, IsFrom, offered, levels_of, shown_at}
use agentpit.Replica.Depth.Session.{Request, serve_all, serve_all_no_oversell}
use agentpit.Examples.Data.{replica, replica_view, book_message}

to_micro-six_places_example : to_micro (number (finite false 450000 (negsuc 5))) ≡ some (pos 450000)
to_micro-six_places_example = to_micro-six_places 450000 (omega arith)

abbrev ten_shares : Take
ten_shares = record { ask = true; price = 500000; size = 10000000 }

new_replica-IsValid_example :
    IsValid (use_takes 100 (ten_shares ∷ []) (apply_book book_message (new_replica 7)).1)
new_replica-IsValid_example =
    new_replica-IsValid 7 (next (next here (book book_message _)) (taken 100 (ten_shares ∷ []) _))

snapshot-Shows_example : (replica.seeded ≡ true) × Shows replica replica_view
unfolding snapshot get
snapshot-Shows_example = snapshot-Shows replica (refl, (refl, tt)) (refl, (refl, tt)) refl

take_fills_example :
    (total (take 100 true 510000 90000000 replica)
      ≡ min 90000000 (sum_by (offered replica.used 100 true 510000) (levels_of true replica)))
    × All
        (IsFrom replica.used 100 true 510000 (levels_of true replica))
        (take 100 true 510000 90000000 replica)
unfolding snapshot
take_fills_example = take_fills 100 true 510000 90000000 replica {b = replica_view} refl

abbrev requests : List Request
requests =
    record { now = 100; ask = true; bound = 500000; size = 50000000 }
    ∷ record { now = 200; ask = true; bound = 500000; size = 50000000 }
    ∷ []

serve_all_no_oversell_example :
    total_at (true, 500000) (serve_all requests replica) ≤ shown_at (levels_of true replica) 500000
unfolding get
serve_all_no_oversell_example =
    serve_all_no_oversell 100 (true, 500000) requests replica (refl, (refl, tt)) (refl, (refl, tt))
      tt ((omega arith, omega arith), ((omega arith, omega arith), tt))
