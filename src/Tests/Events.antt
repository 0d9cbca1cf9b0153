-- ===== src/Tests/Events.antt =====
-- pkg/event at concrete inputs.
use airfk.Shared.{
  ℕ, ◌+◌, ◌≤◌, ◌<◌, ◌≡◌, ◌≢◌, refl, true, false, none, some, List, [], ◌∷◌, ◌++◌, arith, length,
  All,
}
use airfk.Event.Cases.{Case, find, delete, deactivate, count}
use airfk.Event.Feed
use airfk.Event.Feed.{
  Outcome, done, panicked, blocked, init, subscribe, remove, FeedSub, Pick, unsubscribes, ready,
  Round, send,
}
use airfk.Event.Feed.Loaded.{Carries}
use airfk.Event.Feed.Served.{unsubscriptions}
use airfk.Event.Feed.Send.{IsFeed, send-counts, send-ne-blocked}
use airfk.Event.Feed.Locks.{send_mismatch}
use airfk.Event.Feed.Reach
use airfk.Event.Feed.Reach.{Reach-IsFeed}
use airfk.Event.Scope
use airfk.Event.Scope.{
  SubscriptionScope, zero_scope, track, close, scope_count, occurs, close_ends_all,
}

abbrev case_of : ℕ → Case
case_of ch = record { chan = ch; value = none }

-- Channel 5 is subscribed since an earlier Send, channel 6 since the last one; 9 is removeSub.
abbrev two_feed : Feed.Feed
two_feed = record {
  remove_sub = 9;
  send_lock = true;
  send_cases = case_of 9 ∷ case_of 5 ∷ [];
  mu = false;
  inbox = case_of 6 ∷ [];
  etype = some 1;
}

abbrev two_feed-IsFeed : IsFeed two_feed
two_feed-IsFeed = record { head = case_of 9; subs = case_of 5 ∷ []; front = refl; own = refl }

-- Nobody accepts at once; first channel 6 is unsubscribed, then channel 5 is ready.
abbrev two_rounds : List Round
two_rounds =
    record { accepts = λ _. false; pick = unsubscribes 6 }
    ∷ record { accepts = λ _. false; pick = ready 0 }
    ∷ record { accepts = λ _. true; pick = ready 0 }
    ∷ []

abbrev sent_feed : Feed.Feed
sent_feed = record two_feed { send_cases = case_of 9 ∷ case_of 5 ∷ []; inbox = [] }

send-counts_example :
    (dropped : List Case) × ((c : ℕ)
      → count c (record { chan = 5; value = some 77 } ∷ []) + count c dropped
        ≡ count c (two_feed-IsFeed.subs ++ two_feed.inbox))
    × ((c : ℕ) → count c dropped ≤ unsubscriptions c two_rounds)
    × All (Carries 77) (record { chan = 5; value = some 77 } ∷ [])
    × (1 ≡ length {A = Case} (record { chan = 5; value = some 77 } ∷ []))
unfolding send Feed.typecheck Feed.send_loop Feed.try_all Feed.start_sending Feed.set_values
    Feed.apply_pick find Feed.drop_active delete Feed.sent deactivate
send-counts_example =
    send-counts two_feed sent_feed 1 77 1 two_rounds (record { chan = 5; value = some 77 } ∷ [])
      two_feed-IsFeed ((omega arith), (tt, (tt, tt))) refl

abbrev slow_round : Round
slow_round = record { accepts = λ _. false; pick = ready 0 }

abbrev seven_rounds : List Round
seven_rounds =
    slow_round ∷ slow_round ∷ slow_round ∷ slow_round ∷ slow_round ∷ slow_round ∷ slow_round ∷ []

send-ne-blocked_example : send two_feed 1 77 seven_rounds ≢ blocked
send-ne-blocked_example =
    send-ne-blocked two_feed 1 77 seven_rounds two_feed-IsFeed
      (tt, (tt, (tt, (tt, (tt, (tt, (tt, tt))))))) refl refl (omega arith)

send_mismatch_example :
    (g : Feed.Feed) × (send two_feed 2 77 two_rounds ≡ panicked g)
    × ((elem ch : ℕ) → subscribe g true elem ch ≡ blocked)
    × ((ch : ℕ) → remove g ch ≡ blocked)
    × ((u w : ℕ) (later : List Round) → send g u w later ≡ blocked)
send_mismatch_example = send_mismatch two_feed 2 1 77 two_rounds refl refl refl (omega arith)

abbrev live_sub : FeedSub
live_sub = record { channel = 5; unsubscribed = false }

abbrev ended_sub : FeedSub
ended_sub = record { channel = 5; unsubscribed = true }

abbrev left_feed : Feed.Feed
left_feed = record two_feed { send_cases = case_of 9 ∷ [] }

abbrev one_feed : Feed.Feed
one_feed = record {
  remove_sub = 9;
  send_lock = true;
  send_cases = case_of 9 ∷ [];
  mu = false;
  inbox = case_of 5 ∷ [];
  etype = some 1;
}

one_feed_reached : Reach.Reach 9 one_feed
unfolding init subscribe Feed.typecheck
one_feed_reached = Reach.then_call Reach.starts (Reach.subscribes (init 9) one_feed true 1 5 5 refl)

Reach-IsFeed_example : IsFeed one_feed × (one_feed.remove_sub ≡ 9)
Reach-IsFeed_example = Reach-IsFeed 9 one_feed_reached

abbrev tracked : SubscriptionScope
tracked = (track (track zero_scope).0).0

tracked_reached : Scope.Reach tracked
tracked_reached =
    Scope.then_step (Scope.then_step Scope.starts (Scope.tracks zero_scope))
      (Scope.tracks (track zero_scope).0)

two_tracked : 1 < tracked.fresh
unfolding track
two_tracked = omega arith

close_ends_all_example :
    (scope_count (close tracked) ≡ 0)
    × (1 ≤ occurs 1 (close tracked).calls)
    × (occurs 1 (close tracked).calls ≡ occurs 1 tracked.calls + occurs 1 tracked.subs)
    × (occurs 1 tracked.subs ≤ 1)
    × (track (close tracked) ≡ (close tracked, none))
close_ends_all_example = close_ends_all 1 tracked_reached two_tracked
