-- ===== src/Event/Subscription.antt =====
-- `RMWSubscriptionEvent` and `CustomDataReaderListener`:
-- rmw_fastrtps_shared_cpp/src/custom_subscriber_info.cpp.
pub mod Taken
use rmw_fastrtps.Prelude.{
  ℕ, ◌+◌, ◌-◌, ◌%◌, ◌^◌, Bool, true, false, not, ◌&&◌, ◌||◌, Option, none, some, List, [], ◌∷◌, eqb,
  ltb, if◌then◌else◌, length,
}
use rmw_fastrtps.Prelude.Assoc.{insert, remove}
use rmw_fastrtps.Rmw.{Guid, guid_eq, is_positive, sign_extend}
use rmw_fastrtps.Service.Listener.{minus_one}
use rmw_fastrtps.Event.{
  EventType, liveliness_changed, requested_deadline_missed, requested_qos_incompatible,
  message_lost, subscription_incompatible_type, subscription_matched, PolicyId, CountStatus,
  MatchedStatus, AliveStatus, Kept, EventInfo, alive_info, Callback, Notifier, trigger_event,
  reset_guard, set_callback, update_count, update_matched, read_status, take_count, count_info_of,
  incompatible_info_of, matched_info_of, take_matched, report_count, report_matched, mask_or,
  mask_and_not, data_available_bit, call_if_set,
}

pub record SubscriptionEvent : Type 0 where
  pub deadline : Kept CountStatus
  pub liveliness : Kept AliveStatus
  pub sample_lost : Kept CountStatus
  pub incompatible_qos : Kept CountStatus
  pub inconsistent_topic : Kept CountStatus
  pub matched : Kept MatchedStatus
  pub on_new_message_cb : Option Callback
  pub notifier : Notifier

-- What the reader and the topic report.
pub record ReaderStatus : Type 0 where
  pub deadline : CountStatus
  pub liveliness : AliveStatus
  pub sample_lost : CountStatus
  pub incompatible_qos : CountStatus
  pub inconsistent_topic : CountStatus
  pub matched : MatchedStatus

unfoldable pub update_requested_deadline_missed : ℕ → ℕ → SubscriptionEvent → SubscriptionEvent
unfolding update_count trigger_event
update_requested_deadline_missed total_count change p = record p {
  deadline = update_count total_count change p.deadline;
  notifier = trigger_event requested_deadline_missed p.notifier;
}

unfoldable pub update_liveliness_changed : AliveStatus → SubscriptionEvent → SubscriptionEvent
unfolding trigger_event
update_liveliness_changed s p =
    let old = p.liveliness.status in
    record p {
      liveliness = record {
        status = record {
          alive_count = s.alive_count;
          not_alive_count = s.not_alive_count;
          alive_count_change = (old.alive_count_change + s.alive_count_change) % 2 ^ 32;
          not_alive_count_change = (old.not_alive_count_change + s.not_alive_count_change) % 2 ^ 32;
        };
        changed = true;
      };
      notifier = trigger_event liveliness_changed p.notifier;
    }

unfoldable pub update_sample_lost : ℕ → ℕ → SubscriptionEvent → SubscriptionEvent
unfolding update_count trigger_event
update_sample_lost total_count change p = record p {
  sample_lost = update_count total_count change p.sample_lost;
  notifier = trigger_event message_lost p.notifier;
}

unfoldable pub update_requested_incompatible_qos :
    PolicyId → ℕ → ℕ → SubscriptionEvent → SubscriptionEvent
unfolding update_count trigger_event
update_requested_incompatible_qos policy total_count change p =
    let updated = update_count total_count change p.incompatible_qos in
    record p {
      incompatible_qos = record updated {
        status = record (updated.status) { last_policy_id = policy };
      };
      notifier = trigger_event requested_qos_incompatible p.notifier;
    }

unfoldable pub update_inconsistent_topic : ℕ → ℕ → SubscriptionEvent → SubscriptionEvent
unfolding update_count trigger_event
update_inconsistent_topic total_count change p = record p {
  inconsistent_topic = update_count total_count change p.inconsistent_topic;
  notifier = trigger_event subscription_incompatible_type p.notifier;
}

unfoldable pub update_subscription_matched : MatchedStatus → SubscriptionEvent → SubscriptionEvent
unfolding update_matched trigger_event
update_subscription_matched s p = record p {
  matched = update_matched s p.matched;
  notifier = trigger_event subscription_matched p.notifier;
}

abbrev pub track_unique_publisher : Guid → SubscriptionEvent → SubscriptionEvent
track_unique_publisher guid p = record p {
  notifier = record (p.notifier) { unique = insert guid p.notifier.unique };
}

abbrev pub untrack_unique_publisher : Guid → SubscriptionEvent → SubscriptionEvent
untrack_unique_publisher guid p = record p {
  notifier = record (p.notifier) { unique = remove guid p.notifier.unique };
}

abbrev pub publisher_count : SubscriptionEvent → ℕ
publisher_count p = length p.notifier.unique

-- `CustomDataReaderListener::on_subscription_matched`.
unfoldable pub on_subscription_matched :
    MatchedStatus → Guid → SubscriptionEvent → SubscriptionEvent
unfolding update_subscription_matched
on_subscription_matched s guid p =
    if eqb s.current_count_change 1
    then update_subscription_matched s (track_unique_publisher guid p)
    else if eqb s.current_count_change minus_one
    then update_subscription_matched s (untrack_unique_publisher guid p)
    else p

abbrev add_call : Option Callback → ℕ → SubscriptionEvent → SubscriptionEvent
add_call c n p = record p {
  notifier = record (p.notifier) { calls = call_if_set c n p.notifier.calls };
}

-- `unread_messages` is what the reader's `get_unread_count(true)` gives.
unfoldable pub update_data_available : ℕ → SubscriptionEvent → SubscriptionEvent
update_data_available unread_messages p =
    if ltb 0 unread_messages then add_call p.on_new_message_cb unread_messages p else p

unfoldable pub notify_buffer_data_available : ℕ → SubscriptionEvent → SubscriptionEvent
notify_buffer_data_available count p =
    if ltb 0 count then add_call p.on_new_message_cb count p else p

unfoldable pub set_on_new_message_callback :
    Option Callback → ℕ → SubscriptionEvent → SubscriptionEvent
set_on_new_message_callback none unread_messages p = record p {
  on_new_message_cb = none;
  notifier = record (p.notifier) {
    status_mask = mask_and_not p.notifier.status_mask (some data_available_bit);
  };
}
set_on_new_message_callback (some c) unread_messages p =
    let told = if ltb 0 unread_messages then add_call (some c) unread_messages p else p in
    record told {
      on_new_message_cb = some c;
      notifier = record (told.notifier) {
        status_mask = mask_or told.notifier.status_mask (some data_available_bit);
      };
    }

abbrev pub take_alive : Kept AliveStatus → AliveStatus → Kept AliveStatus
take_alive k reported = record {
  status = record (read_status k reported) { alive_count_change = 0; not_alive_count_change = 0 };
  changed = false;
}

-- `none` where it returns false.
unfoldable pub take_event :
    EventType → ReaderStatus → SubscriptionEvent → SubscriptionEvent × Option EventInfo
unfolding reset_guard
take_event liveliness_changed dds p = (
  record p {
    liveliness = take_alive p.liveliness dds.liveliness;
    notifier = reset_guard liveliness_changed p.notifier;
  },
  some (alive_info (read_status p.liveliness dds.liveliness)),
)
take_event requested_deadline_missed dds p = (
  record p {
    deadline = take_count p.deadline dds.deadline;
    notifier = reset_guard requested_deadline_missed p.notifier;
  },
  some (count_info_of (read_status p.deadline dds.deadline)),
)
take_event message_lost dds p = (
  record p {
    sample_lost = take_count p.sample_lost dds.sample_lost;
    notifier = reset_guard message_lost p.notifier;
  },
  some (count_info_of (read_status p.sample_lost dds.sample_lost)),
)
take_event requested_qos_incompatible dds p = (
  record p {
    incompatible_qos = take_count p.incompatible_qos dds.incompatible_qos;
    notifier = reset_guard requested_qos_incompatible p.notifier;
  },
  some (incompatible_info_of (read_status p.incompatible_qos dds.incompatible_qos)),
)
take_event subscription_incompatible_type dds p = (
  record p {
    inconsistent_topic = take_count p.inconsistent_topic dds.inconsistent_topic;
    notifier = reset_guard subscription_incompatible_type p.notifier;
  },
  some (count_info_of (read_status p.inconsistent_topic dds.inconsistent_topic)),
)
take_event subscription_matched dds p = (
  record p {
    matched = take_matched p.matched;
    notifier = reset_guard subscription_matched p.notifier;
  },
  some (matched_info_of p.matched dds.matched),
)
take_event _ dds p = (p, none)

-- The sum of the two `int32_t` changes is passed on as a `size_t`.
unfoldable pub report_alive :
    Callback
    → AliveStatus
    → Kept AliveStatus
    → List (Callback × ℕ)
    → Kept AliveStatus × List (Callback × ℕ)
report_alive c reported k calls =
    if is_positive reported.alive_count_change || is_positive reported.not_alive_count_change
    then (
      record k { status = record reported { alive_count_change = 0; not_alive_count_change = 0 } },
      (c, sign_extend ((reported.alive_count_change + reported.not_alive_count_change) % 2 ^ 32))
          ∷ calls,
    )
    else (record k { status = reported }, calls)

-- The switch of `set_on_new_event_callback`.
unfoldable pub report_event :
    EventType → Callback → ReaderStatus → SubscriptionEvent → SubscriptionEvent
report_event liveliness_changed c dds p =
    let (kept, calls) = report_alive c dds.liveliness p.liveliness p.notifier.calls in
    record p { liveliness = kept; notifier = record (p.notifier) { calls = calls } }
report_event requested_deadline_missed c dds p =
    let (kept, calls) = report_count c dds.deadline p.deadline p.notifier.calls in
    record p { deadline = kept; notifier = record (p.notifier) { calls = calls } }
report_event message_lost c dds p =
    let (kept, calls) = report_count c dds.sample_lost p.sample_lost p.notifier.calls in
    record p { sample_lost = kept; notifier = record (p.notifier) { calls = calls } }
report_event requested_qos_incompatible c dds p =
    let (kept, calls) = report_count c dds.incompatible_qos p.incompatible_qos p.notifier.calls in
    record p { incompatible_qos = kept; notifier = record (p.notifier) { calls = calls } }
report_event subscription_incompatible_type c dds p =
    let (kept, calls) =
      report_count c dds.inconsistent_topic p.inconsistent_topic p.notifier.calls in
    record p { inconsistent_topic = kept; notifier = record (p.notifier) { calls = calls } }
report_event subscription_matched c dds p =
    let (kept, calls) = report_matched c dds.matched p.matched p.notifier.calls in
    record p { matched = kept; notifier = record (p.notifier) { calls = calls } }
report_event _ c dds p = p

unfoldable pub set_on_new_event_callback :
    EventType → Option Callback → ReaderStatus → SubscriptionEvent → SubscriptionEvent
set_on_new_event_callback e (some c) dds p =
    let reported = report_event e c dds p in
    record reported { notifier = set_callback subscription_matched e (some c) reported.notifier }
set_on_new_event_callback e none dds p = record p {
  notifier = set_callback subscription_matched e none p.notifier;
}

-- A call by the listener of the reader or of the topic.
pub data ReaderCall : Type 0 where
  deadline_missed was_lost topic_inconsistent : ℕ → ℕ → ReaderCall
  qos_incompatible : PolicyId → ℕ → ℕ → ReaderCall
  alive_changed : AliveStatus → ReaderCall
  matched : MatchedStatus → Guid → ReaderCall
  data_available : ℕ → ReaderCall

unfoldable pub on_reader_call : ReaderCall → SubscriptionEvent → SubscriptionEvent
on_reader_call (deadline_missed total_count change) p =
    update_requested_deadline_missed total_count change p
on_reader_call (was_lost total_count change) p = update_sample_lost total_count change p
on_reader_call (topic_inconsistent total_count change) p =
    update_inconsistent_topic total_count change p
on_reader_call (qos_incompatible policy total_count change) p =
    update_requested_incompatible_qos policy total_count change p
on_reader_call (alive_changed s) p = update_liveliness_changed s p
on_reader_call (matched s guid) p = on_subscription_matched s guid p
on_reader_call (data_available unread_messages) p = update_data_available unread_messages p
