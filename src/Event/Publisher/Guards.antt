-- ===== src/Event/Publisher/Guards.antt =====
-- The guard conditions and the mask of a publisher's events.
use rmw_fastrtps.Prelude.{
  ℕ, ◌≡◌, refl, sym, subst, ◌∙◌, inl, inr, Option, none, some, List, [], ◌∷◌, arith,
}
use rmw_fastrtps.Prelude.Assoc.{insert, remove}
use rmw_fastrtps.Rmw.{Guid, guid_eq}
use rmw_fastrtps.Event.{
  EventType, liveliness_lost, offered_deadline_missed, offered_qos_incompatible,
  publisher_incompatible_type, publication_matched, MatchedStatus, CountStatus, Kept, Callback,
  trigger_event, reset_guard, set_callback, update_count, update_matched, take_count, take_matched,
  report_count, report_matched, liveliness_changed, requested_deadline_missed,
  requested_qos_incompatible, message_lost, subscription_incompatible_type, subscription_matched,
  event_other,
}
use rmw_fastrtps.Event.Publisher.{
  PublisherEvent, WriterStatus, WriterCall, deadline_missed, liveliness_was_lost,
  topic_inconsistent, qos_incompatible, matched, on_writer_call, update_deadline,
  update_liveliness_lost, update_offered_incompatible_qos, update_inconsistent_topic,
  update_publication_matched, on_publication_matched, take_event, report_event,
  set_on_new_event_callback, Operation, report, take, set, operate,
}
use rmw_fastrtps.Event.Publisher.Matched.{matched_cases}

-- Each guard condition is triggered exactly while a status is kept to be taken.
pub record IsGuarded (p : PublisherEvent) : Type 0 where
  pub deadline_guard : p.notifier.event_guard offered_deadline_missed ≡ p.deadline.changed
  pub liveliness_guard : p.notifier.event_guard liveliness_lost ≡ p.liveliness.changed
  pub qos_guard : p.notifier.event_guard offered_qos_incompatible ≡ p.incompatible_qos.changed
  pub topic_guard :
      p.notifier.event_guard publisher_incompatible_type ≡ p.inconsistent_topic.changed
  pub matched_guard : p.notifier.event_guard publication_matched ≡ p.matched.changed

update_publication_matched-IsGuarded :
    (s : MatchedStatus) (p : PublisherEvent)
    → IsGuarded p
    → IsGuarded (update_publication_matched s p)
unfolding update_publication_matched update_matched trigger_event
update_publication_matched-IsGuarded s p g = record {
  deadline_guard = g.deadline_guard;
  liveliness_guard = g.liveliness_guard;
  qos_guard = g.qos_guard;
  topic_guard = g.topic_guard;
  matched_guard = refl;
}

with_unique-IsGuarded :
    (p : PublisherEvent) (guids : List Guid)
    → IsGuarded p
    → IsGuarded (record p { notifier = record (p.notifier) { unique = guids } })
with_unique-IsGuarded p guids g = record {
  deadline_guard = g.deadline_guard;
  liveliness_guard = g.liveliness_guard;
  qos_guard = g.qos_guard;
  topic_guard = g.topic_guard;
  matched_guard = g.matched_guard;
}

matched-IsGuarded :
    (s : MatchedStatus) (guid : Guid) (p : PublisherEvent)
    → IsGuarded p
    → IsGuarded (on_publication_matched s guid p)
matched-IsGuarded s guid p g = elim (matched_cases s guid p) [
  | inl e ↦ subst IsGuarded (sym e) (
      update_publication_matched-IsGuarded s _
        (with_unique-IsGuarded p (insert guid p.notifier.unique) g))
  | inr (inl e) ↦ subst IsGuarded (sym e) (
      update_publication_matched-IsGuarded s _
        (with_unique-IsGuarded p (remove guid p.notifier.unique) g))
  | inr (inr e) ↦ subst IsGuarded (sym e) g
]

on_writer_call-IsGuarded :
    (c : WriterCall) (p : PublisherEvent) → IsGuarded p → IsGuarded (on_writer_call c p)
unfolding on_writer_call update_deadline update_liveliness_lost update_offered_incompatible_qos
    update_inconsistent_topic update_count trigger_event
on_writer_call-IsGuarded (deadline_missed t n) p g = record {
  deadline_guard = refl;
  liveliness_guard = g.liveliness_guard;
  qos_guard = g.qos_guard;
  topic_guard = g.topic_guard;
  matched_guard = g.matched_guard;
}
on_writer_call-IsGuarded (liveliness_was_lost t n) p g = record {
  deadline_guard = g.deadline_guard;
  liveliness_guard = refl;
  qos_guard = g.qos_guard;
  topic_guard = g.topic_guard;
  matched_guard = g.matched_guard;
}
on_writer_call-IsGuarded (topic_inconsistent t n) p g = record {
  deadline_guard = g.deadline_guard;
  liveliness_guard = g.liveliness_guard;
  qos_guard = g.qos_guard;
  topic_guard = refl;
  matched_guard = g.matched_guard;
}
on_writer_call-IsGuarded (qos_incompatible policy t n) p g = record {
  deadline_guard = g.deadline_guard;
  liveliness_guard = g.liveliness_guard;
  qos_guard = refl;
  topic_guard = g.topic_guard;
  matched_guard = g.matched_guard;
}
on_writer_call-IsGuarded (matched s guid) p g = matched-IsGuarded s guid p g

take_event-IsGuarded :
    (e : EventType) (dds : WriterStatus) (p : PublisherEvent)
    → IsGuarded p
    → IsGuarded (take_event e dds p).0
unfolding take_event take_count take_matched reset_guard
take_event-IsGuarded offered_deadline_missed dds p g = record {
  deadline_guard = refl;
  liveliness_guard = g.liveliness_guard;
  qos_guard = g.qos_guard;
  topic_guard = g.topic_guard;
  matched_guard = g.matched_guard;
}
take_event-IsGuarded liveliness_lost dds p g = record {
  deadline_guard = g.deadline_guard;
  liveliness_guard = refl;
  qos_guard = g.qos_guard;
  topic_guard = g.topic_guard;
  matched_guard = g.matched_guard;
}
take_event-IsGuarded offered_qos_incompatible dds p g = record {
  deadline_guard = g.deadline_guard;
  liveliness_guard = g.liveliness_guard;
  qos_guard = refl;
  topic_guard = g.topic_guard;
  matched_guard = g.matched_guard;
}
take_event-IsGuarded publisher_incompatible_type dds p g = record {
  deadline_guard = g.deadline_guard;
  liveliness_guard = g.liveliness_guard;
  qos_guard = g.qos_guard;
  topic_guard = refl;
  matched_guard = g.matched_guard;
}
take_event-IsGuarded publication_matched dds p g = record {
  deadline_guard = g.deadline_guard;
  liveliness_guard = g.liveliness_guard;
  qos_guard = g.qos_guard;
  topic_guard = g.topic_guard;
  matched_guard = refl;
}
take_event-IsGuarded liveliness_changed dds p g = g
take_event-IsGuarded requested_deadline_missed dds p g = g
take_event-IsGuarded requested_qos_incompatible dds p g = g
take_event-IsGuarded message_lost dds p g = g
take_event-IsGuarded subscription_incompatible_type dds p g = g
take_event-IsGuarded subscription_matched dds p g = g
take_event-IsGuarded (event_other n) dds p g = g

report_count_changed :
    (c : Callback) (reported : CountStatus) (k : Kept CountStatus) (calls : List (Callback × ℕ))
    → (report_count c reported k calls).0.changed ≡ k.changed
unfolding report_count
report_count_changed c reported k calls = ground arith

report_matched_changed :
    (c : Callback) (reported : MatchedStatus) (k : Kept MatchedStatus) (calls : List (Callback × ℕ))
    → (report_matched c reported k calls).0.changed ≡ k.changed
unfolding report_matched
report_matched_changed c reported k calls = ground arith

report_event-IsGuarded :
    (e : EventType) (c : Callback) (dds : WriterStatus) (p : PublisherEvent)
    → IsGuarded p
    → IsGuarded (report_event e c dds p)
unfolding report_event
report_event-IsGuarded offered_deadline_missed c dds p g = record {
  deadline_guard =
      g.deadline_guard ∙ sym (report_count_changed c dds.deadline p.deadline p.notifier.calls);
  liveliness_guard = g.liveliness_guard;
  qos_guard = g.qos_guard;
  topic_guard = g.topic_guard;
  matched_guard = g.matched_guard;
}
report_event-IsGuarded liveliness_lost c dds p g = record {
  deadline_guard = g.deadline_guard;
  liveliness_guard =
      g.liveliness_guard
      ∙ sym (report_count_changed c dds.liveliness p.liveliness p.notifier.calls);
  qos_guard = g.qos_guard;
  topic_guard = g.topic_guard;
  matched_guard = g.matched_guard;
}
report_event-IsGuarded offered_qos_incompatible c dds p g = record {
  deadline_guard = g.deadline_guard;
  liveliness_guard = g.liveliness_guard;
  qos_guard =
      g.qos_guard
      ∙ sym (report_count_changed c dds.incompatible_qos p.incompatible_qos p.notifier.calls);
  topic_guard = g.topic_guard;
  matched_guard = g.matched_guard;
}
report_event-IsGuarded publisher_incompatible_type c dds p g = record {
  deadline_guard = g.deadline_guard;
  liveliness_guard = g.liveliness_guard;
  qos_guard = g.qos_guard;
  topic_guard =
      g.topic_guard
      ∙ sym (report_count_changed c dds.inconsistent_topic p.inconsistent_topic p.notifier.calls);
  matched_guard = g.matched_guard;
}
report_event-IsGuarded publication_matched c dds p g = record {
  deadline_guard = g.deadline_guard;
  liveliness_guard = g.liveliness_guard;
  qos_guard = g.qos_guard;
  topic_guard = g.topic_guard;
  matched_guard =
      g.matched_guard ∙ sym (report_matched_changed c dds.matched p.matched p.notifier.calls);
}
report_event-IsGuarded liveliness_changed c dds p g = g
report_event-IsGuarded requested_deadline_missed c dds p g = g
report_event-IsGuarded requested_qos_incompatible c dds p g = g
report_event-IsGuarded message_lost c dds p g = g
report_event-IsGuarded subscription_incompatible_type c dds p g = g
report_event-IsGuarded subscription_matched c dds p g = g
report_event-IsGuarded (event_other n) c dds p g = g

set_callback-IsGuarded :
    (e : EventType) (c : Option Callback) (p : PublisherEvent)
    → IsGuarded p
    → IsGuarded (record p { notifier = set_callback publication_matched e c p.notifier })
unfolding set_callback
set_callback-IsGuarded e none p g = record {
  deadline_guard = g.deadline_guard;
  liveliness_guard = g.liveliness_guard;
  qos_guard = g.qos_guard;
  topic_guard = g.topic_guard;
  matched_guard = g.matched_guard;
}
set_callback-IsGuarded e (some c) p g = record {
  deadline_guard = g.deadline_guard;
  liveliness_guard = g.liveliness_guard;
  qos_guard = g.qos_guard;
  topic_guard = g.topic_guard;
  matched_guard = g.matched_guard;
}

operate-IsGuarded : (o : Operation) (p : PublisherEvent) → IsGuarded p → IsGuarded (operate o p)
unfolding operate set_on_new_event_callback
operate-IsGuarded (report c) p g = on_writer_call-IsGuarded c p g
operate-IsGuarded (take e dds) p g = take_event-IsGuarded e dds p g
operate-IsGuarded (set e none dds) p g = set_callback-IsGuarded e none p g
operate-IsGuarded (set e (some c) dds) p g =
    set_callback-IsGuarded e (some c) (report_event e c dds p) (report_event-IsGuarded e c dds p g)

-- A publisher's events after some operations.
abbrev pub run : List Operation → PublisherEvent → PublisherEvent
run [] p = p
run (o ∷ os) p = run os (operate o p)

-- If each of the five guard conditions is triggered exactly while its status is kept to be taken,
-- that stays so through all notifications, takes, and changes of callbacks, in any order.
pub run-IsGuarded : (os : List Operation) (p : PublisherEvent) → IsGuarded p → IsGuarded (run os p)
run-IsGuarded [] p g = g
run-IsGuarded (o ∷ os) p g = run-IsGuarded os (operate o p) (operate-IsGuarded o p g)
