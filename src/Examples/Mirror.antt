-- ===== src/Examples/Mirror.antt =====
-- The theorems on the mirror, at one market.
use agentpit.Prelude.{◌≡◌, refl, false, none, some, [], ◌∷◌, if◌then◌else◌}
use agentpit.Prelude.Dict.{get, put, nat_eq}
use agentpit.Replica.{BookReplica}
use agentpit.Feed.{MarketRef, book, set_targets, handle_event, quote}
use agentpit.Feed.Targets.{
  IsMirror, IsMirror-new, is_target, or_new, OfAsset, set_targets_replicas, set_targets-IsMirror,
  quote_known,
}
use agentpit.Feed.Events.{handle_event-IsMirror}
use agentpit.Examples.Data.{ref, mirror, book_message}

-- Another market, that replaces `ref`.
abbrev pub other_ref : MarketRef
other_ref = record {
  market_id = 2;
  condition_id = 11;
  yes_token = 22;
  no_token = 23;
  pm_yes_token = 9;
  pm_condition = 71;
}

set_targets_replicas_example :
    get (set_targets (other_ref ∷ []) mirror).replicas 7
    ≡ (if is_target (other_ref ∷ []) 7 then some (or_new 7 (get mirror.replicas 7)) else none)
set_targets_replicas_example =
    set_targets_replicas (other_ref ∷ []) mirror 7 (IsMirror-new (ref ∷ []))

set_targets-IsMirror_example : IsMirror (set_targets (other_ref ∷ []) mirror)
set_targets-IsMirror_example =
    set_targets-IsMirror (other_ref ∷ []) mirror (IsMirror-new (ref ∷ []))

quote_known_example :
    (r : BookReplica) × (quote 21 mirror ≡ some (ref, false, r)) × OfAsset ref.pm_yes_token r
unfolding set_targets get put
quote_known_example =
    quote_known 21 mirror {ref = ref} {yes_token = false} (IsMirror-new (ref ∷ [])) refl

handle_event-IsMirror_example : IsMirror (handle_event (book book_message) mirror)
handle_event-IsMirror_example =
    handle_event-IsMirror (book book_message) mirror (IsMirror-new (ref ∷ []))
