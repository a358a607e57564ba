-- ===== src/Event/Tests.antt =====
-- Events at concrete inputs.
use rmw_fastrtps.Prelude.{◌≡◌, refl, true, false, some, none, List, [], ◌∷◌}
use rmw_fastrtps.Event.{
  liveliness_lost, offered_deadline_missed, deadline_policy_id, CountStatus, MatchedStatus,
  AliveStatus, Kept, Callback, Notifier,
}
use rmw_fastrtps.Event.Publisher.{
  PublisherEvent, WriterStatus, WriterCall, deadline_missed, liveliness_was_lost, Operation, report,
  take, set, take_event, set_on_new_event_callback,
}
use rmw_fastrtps.Event.Publisher.Guards.{IsGuarded, run, run-IsGuarded}
use rmw_fastrtps.Event.Publisher.Taken.{
  deadline_kind, liveliness_kind, counts_of, run_calls, take_event-since_last,
}
use rmw_fastrtps.Event.Publisher.Callbacks.{set_callback_drops}

abbrev no_count : CountStatus
no_count = record { total_count = 0; total_count_change = 0; last_policy_id = deadline_policy_id }

abbrev unchanged : Kept CountStatus
unchanged = record { status = no_count; changed = false }

abbrev no_match : MatchedStatus
no_match = record {
  total_count = 0;
  total_count_change = 0;
  current_count = 0;
  current_count_change = 0;
}

abbrev no_alive : AliveStatus
no_alive = record {
  alive_count = 0;
  not_alive_count = 0;
  alive_count_change = 0;
  not_alive_count_change = 0;
}

abbrev callback : Callback
callback = record { function = 1; user_data = 2 }

abbrev notifier : Notifier
notifier = record {
  on_new_event_cb = λ e. none;
  event_guard = λ e. false;
  status_mask = λ b. true;
  unique = [];
  calls = [];
}

abbrev publisher : PublisherEvent
publisher = record {
  deadline = unchanged;
  liveliness = unchanged;
  incompatible_qos = unchanged;
  inconsistent_topic = unchanged;
  matched = record { status = no_match; changed = false };
  notifier = notifier;
}

abbrev writer : WriterStatus
writer = record {
  deadline = no_count;
  liveliness = no_count;
  incompatible_qos = no_count;
  inconsistent_topic = no_count;
  matched = no_match;
}

publisher-IsGuarded : IsGuarded publisher
publisher-IsGuarded = record {
  deadline_guard = refl;
  liveliness_guard = refl;
  qos_guard = refl;
  topic_guard = refl;
  matched_guard = refl;
}

abbrev operations : List Operation
operations =
    report (deadline_missed 1 1)
    ∷ set liveliness_lost (some callback) writer
    ∷ report (liveliness_was_lost 2 2)
    ∷ take offered_deadline_missed writer
    ∷ []

run-IsGuarded_example : IsGuarded (run operations publisher)
run-IsGuarded_example = run-IsGuarded operations publisher publisher-IsGuarded

abbrev calls : List WriterCall
calls = deadline_missed 4 1 ∷ liveliness_was_lost 2 2 ∷ deadline_missed 7 3 ∷ []

take_event-since_last_example :
    counts_of
      (take_event offered_deadline_missed writer
        (run_calls calls (take_event offered_deadline_missed writer publisher).0)).1
    ≡ some (7, 4)
take_event-since_last_example = take_event-since_last deadline_kind writer writer publisher calls

-- Two changes of the liveliness are kept.
abbrev with_changes : PublisherEvent
with_changes = record publisher {
  liveliness = record {
    status = record no_count { total_count = 2; total_count_change = 2 };
    changed = true;
  };
}

set_callback_drops_example :
    let after = set_on_new_event_callback liveliness_lost (some callback) writer with_changes in
    (after.notifier.calls ≡ [])
    × (counts_of (take_event liveliness_lost writer after).1 ≡ some (0, 0))
set_callback_drops_example =
    set_callback_drops liveliness_kind callback writer writer with_changes refl refl
