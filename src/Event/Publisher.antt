-- ===== src/Event/Publisher.antt =====
-- `RMWPublisherEvent` and `CustomDataWriterListener`:
-- rmw_fastrtps_shared_cpp/src/custom_publisher_info.cpp.
pub mod Matched
pub mod Guards
pub mod Taken
pub mod Callbacks
use rmw_fastrtps.Prelude.{
  ℕ, ◌+◌, ◌-◌, ◌%◌, ◌^◌, Bool, true, false, Option, none, some, List, [], ◌∷◌, eqb, if◌then◌else◌,
  length,
}
use rmw_fastrtps.Prelude.Assoc.{insert, remove}
use rmw_fastrtps.Rmw.{Guid, guid_eq}
use rmw_fastrtps.Service.Listener.{minus_one}
use rmw_fastrtps.Event.{
  EventType, liveliness_lost, offered_deadline_missed, offered_qos_incompatible,
  publisher_incompatible_type, publication_matched, PolicyId, CountStatus, MatchedStatus, Kept,
  EventInfo, Callback, Notifier, trigger_event, reset_guard, set_callback, update_count,
  update_matched, read_status, take_count, count_info_of, incompatible_info_of, matched_info_of,
  take_matched, report_count, report_matched,
}

pub record PublisherEvent : Type 0 where
  pub deadline : Kept CountStatus
  pub liveliness : Kept CountStatus
  pub incompatible_qos : Kept CountStatus
  pub inconsistent_topic : Kept CountStatus
  pub matched : Kept MatchedStatus
  pub notifier : Notifier

-- What the writer (and its topic) report.
pub record WriterStatus : Type 0 where
  pub deadline : CountStatus
  pub liveliness : CountStatus
  pub incompatible_qos : CountStatus
  pub inconsistent_topic : CountStatus
  pub matched : MatchedStatus

unfoldable pub update_deadline : ℕ → ℕ → PublisherEvent → PublisherEvent
unfolding update_count trigger_event
update_deadline total_count change p = record p {
  deadline = update_count total_count change p.deadline;
  notifier = trigger_event offered_deadline_missed p.notifier;
}

unfoldable pub update_liveliness_lost : ℕ → ℕ → PublisherEvent → PublisherEvent
unfolding update_count trigger_event
update_liveliness_lost total_count change p = record p {
  liveliness = update_count total_count change p.liveliness;
  notifier = trigger_event liveliness_lost p.notifier;
}

unfoldable pub update_offered_incompatible_qos : PolicyId → ℕ → ℕ → PublisherEvent → PublisherEvent
unfolding update_count trigger_event
update_offered_incompatible_qos policy total_count change p =
    let updated = update_count total_count change p.incompatible_qos in
    record p {
      incompatible_qos = record updated {
        status = record (updated.status) { last_policy_id = policy };
      };
      notifier = trigger_event offered_qos_incompatible p.notifier;
    }

unfoldable pub update_inconsistent_topic : ℕ → ℕ → PublisherEvent → PublisherEvent
unfolding update_count trigger_event
update_inconsistent_topic total_count change p = record p {
  inconsistent_topic = update_count total_count change p.inconsistent_topic;
  notifier = trigger_event publisher_incompatible_type p.notifier;
}

unfoldable pub update_publication_matched : MatchedStatus → PublisherEvent → PublisherEvent
unfolding update_matched trigger_event
update_publication_matched s p = record p {
  matched = update_matched s p.matched;
  notifier = trigger_event publication_matched p.notifier;
}

abbrev pub track_unique_subscription : Guid → PublisherEvent → PublisherEvent
track_unique_subscription guid p = record p {
  notifier = record (p.notifier) { unique = insert guid p.notifier.unique };
}

abbrev pub untrack_unique_subscription : Guid → PublisherEvent → PublisherEvent
untrack_unique_subscription guid p = record p {
  notifier = record (p.notifier) { unique = remove guid p.notifier.unique };
}

abbrev pub subscription_count : PublisherEvent → ℕ
subscription_count p = length p.notifier.unique

-- `CustomDataWriterListener::on_publication_matched`.
unfoldable pub on_publication_matched : MatchedStatus → Guid → PublisherEvent → PublisherEvent
unfolding update_publication_matched
on_publication_matched s guid p =
    if eqb s.current_count_change 1
    then update_publication_matched s (track_unique_subscription guid p)
    else if eqb s.current_count_change minus_one
    then update_publication_matched s (untrack_unique_subscription guid p)
    else p

-- `none` where it returns false.
unfoldable pub take_event :
    EventType → WriterStatus → PublisherEvent → PublisherEvent × Option EventInfo
unfolding reset_guard
take_event liveliness_lost dds p = (
  record p {
    liveliness = take_count p.liveliness dds.liveliness;
    notifier = reset_guard liveliness_lost p.notifier;
  },
  some (count_info_of (read_status p.liveliness dds.liveliness)),
)
take_event offered_deadline_missed dds p = (
  record p {
    deadline = take_count p.deadline dds.deadline;
    notifier = reset_guard offered_deadline_missed p.notifier;
  },
  some (count_info_of (read_status p.deadline dds.deadline)),
)
take_event offered_qos_incompatible dds p = (
  record p {
    incompatible_qos = take_count p.incompatible_qos dds.incompatible_qos;
    notifier = reset_guard offered_qos_incompatible p.notifier;
  },
  some (incompatible_info_of (read_status p.incompatible_qos dds.incompatible_qos)),
)
take_event publisher_incompatible_type dds p = (
  record p {
    inconsistent_topic = take_count p.inconsistent_topic dds.inconsistent_topic;
    notifier = reset_guard publisher_incompatible_type p.notifier;
  },
  some (count_info_of (read_status p.inconsistent_topic dds.inconsistent_topic)),
)
take_event publication_matched dds p = (
  record p {
    matched = take_matched p.matched;
    notifier = reset_guard publication_matched p.notifier;
  },
  some (matched_info_of p.matched dds.matched),
)
take_event _ dds p = (p, none)

-- The switch of `set_on_new_event_callback`.
unfoldable pub report_event : EventType → Callback → WriterStatus → PublisherEvent → PublisherEvent
report_event liveliness_lost c dds p =
    let (kept, calls) = report_count c dds.liveliness p.liveliness p.notifier.calls in
    record p { liveliness = kept; notifier = record (p.notifier) { calls = calls } }
report_event offered_deadline_missed c dds p =
    let (kept, calls) = report_count c dds.deadline p.deadline p.notifier.calls in
    record p { deadline = kept; notifier = record (p.notifier) { calls = calls } }
report_event offered_qos_incompatible c dds p =
    let (kept, calls) = report_count c dds.incompatible_qos p.incompatible_qos p.notifier.calls in
    record p { incompatible_qos = kept; notifier = record (p.notifier) { calls = calls } }
report_event publisher_incompatible_type c dds p =
    let (kept, calls) =
      report_count c dds.inconsistent_topic p.inconsistent_topic p.notifier.calls in
    record p { inconsistent_topic = kept; notifier = record (p.notifier) { calls = calls } }
report_event publication_matched c dds p =
    let (kept, calls) = report_matched c dds.matched p.matched p.notifier.calls in
    record p { matched = kept; notifier = record (p.notifier) { calls = calls } }
report_event _ c dds p = p

unfoldable pub set_on_new_event_callback :
    EventType → Option Callback → WriterStatus → PublisherEvent → PublisherEvent
set_on_new_event_callback e (some c) dds p =
    let reported = report_event e c dds p in
    record reported { notifier = set_callback publication_matched e (some c) reported.notifier }
set_on_new_event_callback e none dds p = record p {
  notifier = set_callback publication_matched e none p.notifier;
}

-- A call by the listener of the writer or of the topic.
pub data WriterCall : Type 0 where
  deadline_missed liveliness_was_lost topic_inconsistent : ℕ → ℕ → WriterCall
  qos_incompatible : PolicyId → ℕ → ℕ → WriterCall
  matched : MatchedStatus → Guid → WriterCall

unfoldable pub on_writer_call : WriterCall → PublisherEvent → PublisherEvent
unfolding update_deadline update_liveliness_lost update_offered_incompatible_qos
    update_inconsistent_topic on_publication_matched
on_writer_call (deadline_missed total_count change) p = update_deadline total_count change p
on_writer_call (liveliness_was_lost total_count change) p =
    update_liveliness_lost total_count change p
on_writer_call (topic_inconsistent total_count change) p =
    update_inconsistent_topic total_count change p
on_writer_call (qos_incompatible policy total_count change) p =
    update_offered_incompatible_qos policy total_count change p
on_writer_call (matched s guid) p = on_publication_matched s guid p

-- An operation on the events of a publisher.
pub data Operation : Type 0 where
  report : WriterCall → Operation
  take : EventType → WriterStatus → Operation
  set : EventType → Option Callback → WriterStatus → Operation

unfoldable pub operate : Operation → PublisherEvent → PublisherEvent
unfolding on_writer_call take_event set_on_new_event_callback
operate (report call) p = on_writer_call call p
operate (take e dds) p = (take_event e dds p).0
operate (set e c dds) p = set_on_new_event_callback e c dds p
