-- ===== src/Event/Publisher/Callbacks.antt =====
-- What a callback is told of the changes before it was set.
use rmw_fastrtps.Prelude.{ℕ, ◌≡◌, refl, true, some, List, arith}
use rmw_fastrtps.Event.{CountStatus, Kept, Callback, set_callback, report_count}
use rmw_fastrtps.Event.Publisher.{
  PublisherEvent, WriterStatus, take_event, report_event, set_on_new_event_callback,
}
use rmw_fastrtps.Event.Publisher.Taken.{
  CountKind, deadline_kind, liveliness_kind, topic_kind, qos_kind, event_of, kept_of, reported_of,
  counts_of,
}

report_none :
    (c : Callback) (reported : CountStatus) (k : Kept CountStatus) (calls : List (Callback × ℕ))
    → reported.total_count_change ≡ 0
    → report_count c reported k calls ≡ (record k { status = reported }, calls)
unfolding report_count
report_none c reported k calls h = rw (h, report_count) refl

-- Changes that were kept to be taken are lost when a callback is set while Fast DDS has no change to
-- report: the callback is not called, and the next take gives no change.
pub set_callback_drops :
    (k : CountKind) (c : Callback) (dds dds' : WriterStatus) (p : PublisherEvent)
    → (kept_of k p).changed ≡ true
    → (reported_of k dds).total_count_change ≡ 0
    → let after = set_on_new_event_callback (event_of k) (some c) dds p in
      (after.notifier.calls ≡ p.notifier.calls)
      × (counts_of (take_event (event_of k) dds' after).1
          ≡ some ((reported_of k dds).total_count, 0))
unfolding set_on_new_event_callback report_event take_event set_callback report_count
set_callback_drops deadline_kind c dds dds' p changed none_new = ground (arith, changed, none_new)
set_callback_drops liveliness_kind c dds dds' p changed none_new = ground (arith, changed, none_new)
set_callback_drops topic_kind c dds dds' p changed none_new = ground (arith, changed, none_new)
set_callback_drops qos_kind c dds dds' p changed none_new = ground (arith, changed, none_new)
