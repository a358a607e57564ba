-- ===== src/Event/Publisher/Taken.antt =====
-- What is taken of a status that counts is what was reported since it was last taken.
use rmw_fastrtps.Prelude.{
  ℕ, ◌+◌, ◌%◌, ◌^◌, ◌≡◌, refl, sym, ap, ◌∙◌, inl, inr, Bool, true, false, Option, none, some, List,
  [], ◌∷◌, ◌++◌, arith, if◌then◌else◌,
}
use native.Mathlib.Nat.{zero-add}
use rmw_fastrtps.Rmw.{Guid}
use rmw_fastrtps.Event.{
  EventType, liveliness_lost, offered_deadline_missed, offered_qos_incompatible,
  publisher_incompatible_type, MatchedStatus, CountStatus, Kept, EventInfo, count_info,
  incompatible_info, update_count, take_count, read_status,
}
use rmw_fastrtps.Event.Publisher.{
  PublisherEvent, WriterStatus, WriterCall, deadline_missed, liveliness_was_lost,
  topic_inconsistent, qos_incompatible, matched, on_writer_call, update_deadline,
  update_liveliness_lost, update_offered_incompatible_qos, update_inconsistent_topic,
  update_publication_matched, on_publication_matched, take_event,
}
use rmw_fastrtps.Event.Publisher.Matched.{matched_cases}

-- The events of a publisher whose status counts, with their members.
pub data CountKind : Type 0 where
  deadline_kind liveliness_kind topic_kind qos_kind : CountKind

abbrev pub event_of : CountKind → EventType
event_of deadline_kind = offered_deadline_missed
event_of liveliness_kind = liveliness_lost
event_of topic_kind = publisher_incompatible_type
event_of qos_kind = offered_qos_incompatible

abbrev pub kept_of : CountKind → PublisherEvent → Kept CountStatus
kept_of deadline_kind p = p.deadline
kept_of liveliness_kind p = p.liveliness
kept_of topic_kind p = p.inconsistent_topic
kept_of qos_kind p = p.incompatible_qos

abbrev pub reported_of : CountKind → WriterStatus → CountStatus
reported_of deadline_kind dds = dds.deadline
reported_of liveliness_kind dds = dds.liveliness
reported_of topic_kind dds = dds.inconsistent_topic
reported_of qos_kind dds = dds.incompatible_qos

-- The total and the change that a call reports of a kind.
abbrev pub reports_of : CountKind → WriterCall → List (ℕ × ℕ)
reports_of deadline_kind (deadline_missed t n) = (t, n) ∷ []
reports_of liveliness_kind (liveliness_was_lost t n) = (t, n) ∷ []
reports_of topic_kind (topic_inconsistent t n) = (t, n) ∷ []
reports_of qos_kind (qos_incompatible policy t n) = (t, n) ∷ []
reports_of _ _ = []

abbrev pub all_reports : CountKind → List WriterCall → List (ℕ × ℕ)
all_reports k [] = []
all_reports k (c ∷ calls) = reports_of k c ++ all_reports k calls

abbrev pub run_calls : List WriterCall → PublisherEvent → PublisherEvent
run_calls [] p = p
run_calls (c ∷ calls) p = run_calls calls (on_writer_call c p)

abbrev pub sum_changes : List (ℕ × ℕ) → ℕ
sum_changes [] = 0
sum_changes ((t, n) ∷ rs) = n + sum_changes rs

abbrev pub last_total : ℕ → List (ℕ × ℕ) → ℕ
last_total t [] = t
last_total t ((t', n) ∷ rs) = last_total t' rs

-- The total and the change of what is taken.
abbrev pub counts_of : Option EventInfo → Option (ℕ × ℕ)
counts_of (some (count_info t n)) = some (t, n)
counts_of (some (incompatible_info t n kind)) = some (t, n)
counts_of _ = none

abbrev view : Kept CountStatus → ℕ × (ℕ × Bool)
view k = (k.status.total_count, (k.status.total_count_change, k.changed))

abbrev add_reports : ℕ × (ℕ × Bool) → List (ℕ × ℕ) → ℕ × (ℕ × Bool)
add_reports v [] = v
add_reports (t, (n, b)) ((t', n') ∷ rs) = add_reports (t', ((n + n') % 2 ^ 32, true)) rs

add_reports-append :
    (v : ℕ × (ℕ × Bool)) (rs rs' : List (ℕ × ℕ))
    → add_reports v (rs ++ rs') ≡ add_reports (add_reports v rs) rs'
add_reports-append v [] rs' = refl
add_reports-append (t, (n, b)) ((t', n') ∷ rs) rs' =
    add_reports-append (t', ((n + n') % 2 ^ 32, true)) rs rs'

add_reports_total :
    (t n : ℕ) (b : Bool) (r : ℕ × ℕ) (rs : List (ℕ × ℕ))
    → add_reports (t, (n, b)) (r ∷ rs)
      ≡ (last_total t (r ∷ rs), ((n + sum_changes (r ∷ rs)) % 2 ^ 32, true))
add_reports_total t n b (t', n') [] = ground arith
add_reports_total t n b (t', n') (r ∷ rs) =
    add_reports_total t' ((n + n') % 2 ^ 32) true r rs ∙ ground arith

matched-view :
    (k : CountKind) (s : MatchedStatus) (guid : Guid) (p : PublisherEvent)
    → view (kept_of k (on_publication_matched s guid p)) ≡ view (kept_of k p)
unfolding update_publication_matched
matched-view deadline_kind s guid p = elim (matched_cases s guid p) [
  | inl e ↦ ap (λ (r : PublisherEvent). view r.deadline) e
  | inr (inl e) ↦ ap (λ (r : PublisherEvent). view r.deadline) e
  | inr (inr e) ↦ ap (λ (r : PublisherEvent). view r.deadline) e
]
matched-view liveliness_kind s guid p = elim (matched_cases s guid p) [
  | inl e ↦ ap (λ (r : PublisherEvent). view r.liveliness) e
  | inr (inl e) ↦ ap (λ (r : PublisherEvent). view r.liveliness) e
  | inr (inr e) ↦ ap (λ (r : PublisherEvent). view r.liveliness) e
]
matched-view topic_kind s guid p = elim (matched_cases s guid p) [
  | inl e ↦ ap (λ (r : PublisherEvent). view r.inconsistent_topic) e
  | inr (inl e) ↦ ap (λ (r : PublisherEvent). view r.inconsistent_topic) e
  | inr (inr e) ↦ ap (λ (r : PublisherEvent). view r.inconsistent_topic) e
]
matched-view qos_kind s guid p = elim (matched_cases s guid p) [
  | inl e ↦ ap (λ (r : PublisherEvent). view r.incompatible_qos) e
  | inr (inl e) ↦ ap (λ (r : PublisherEvent). view r.incompatible_qos) e
  | inr (inr e) ↦ ap (λ (r : PublisherEvent). view r.incompatible_qos) e
]

on_writer_call-view :
    (k : CountKind) (c : WriterCall) (p : PublisherEvent)
    → view (kept_of k (on_writer_call c p)) ≡ add_reports (view (kept_of k p)) (reports_of k c)
unfolding on_writer_call update_deadline update_liveliness_lost update_offered_incompatible_qos
    update_inconsistent_topic update_count
on_writer_call-view deadline_kind (deadline_missed t n) p = refl
on_writer_call-view deadline_kind (liveliness_was_lost t n) p = refl
on_writer_call-view deadline_kind (topic_inconsistent t n) p = refl
on_writer_call-view deadline_kind (qos_incompatible policy t n) p = refl
on_writer_call-view deadline_kind (matched s guid) p = matched-view deadline_kind s guid p
on_writer_call-view liveliness_kind (deadline_missed t n) p = refl
on_writer_call-view liveliness_kind (liveliness_was_lost t n) p = refl
on_writer_call-view liveliness_kind (topic_inconsistent t n) p = refl
on_writer_call-view liveliness_kind (qos_incompatible policy t n) p = refl
on_writer_call-view liveliness_kind (matched s guid) p = matched-view liveliness_kind s guid p
on_writer_call-view topic_kind (deadline_missed t n) p = refl
on_writer_call-view topic_kind (liveliness_was_lost t n) p = refl
on_writer_call-view topic_kind (topic_inconsistent t n) p = refl
on_writer_call-view topic_kind (qos_incompatible policy t n) p = refl
on_writer_call-view topic_kind (matched s guid) p = matched-view topic_kind s guid p
on_writer_call-view qos_kind (deadline_missed t n) p = refl
on_writer_call-view qos_kind (liveliness_was_lost t n) p = refl
on_writer_call-view qos_kind (topic_inconsistent t n) p = refl
on_writer_call-view qos_kind (qos_incompatible policy t n) p = refl
on_writer_call-view qos_kind (matched s guid) p = matched-view qos_kind s guid p

run_calls-view :
    (k : CountKind) (calls : List WriterCall) (p : PublisherEvent)
    → view (kept_of k (run_calls calls p)) ≡ add_reports (view (kept_of k p)) (all_reports k calls)
run_calls-view k [] p = refl
run_calls-view k (c ∷ calls) p =
    run_calls-view k calls (on_writer_call c p)
    ∙ ap (λ v. add_reports v (all_reports k calls)) (on_writer_call-view k c p)
    ∙ sym (add_reports-append (view (kept_of k p)) (reports_of k c) (all_reports k calls))

-- What is taken of a view.
abbrev taken : ℕ × (ℕ × Bool) → CountStatus → Option (ℕ × ℕ)
taken (t, (n, b)) s = if b then some (t, n) else some (s.total_count, s.total_count_change)

take-view_of :
    (k : Kept CountStatus) (s : CountStatus)
    → some ((read_status k s).total_count, (read_status k s).total_count_change) ≡ taken (view k) s
take-view_of k s = ground arith

take_event-taken :
    (k : CountKind) (dds : WriterStatus) (p : PublisherEvent)
    → counts_of (take_event (event_of k) dds p).1 ≡ taken (view (kept_of k p)) (reported_of k dds)
unfolding take_event
take_event-taken deadline_kind dds p = take-view_of p.deadline dds.deadline
take_event-taken liveliness_kind dds p = take-view_of p.liveliness dds.liveliness
take_event-taken topic_kind dds p = take-view_of p.inconsistent_topic dds.inconsistent_topic
take_event-taken qos_kind dds p = take-view_of p.incompatible_qos dds.incompatible_qos

after_take :
    (k : CountKind) (dds : WriterStatus) (p : PublisherEvent)
    → (t : ℕ) × (view (kept_of k (take_event (event_of k) dds p).0) ≡ (t, (0, false)))
unfolding take_event take_count
after_take deadline_kind dds p = (_, refl)
after_take liveliness_kind dds p = (_, refl)
after_take topic_kind dds p = (_, refl)
after_take qos_kind dds p = (_, refl)

-- What a take gives that follows another one: the last total and the sum of all changes that were
-- reported in between, modulo the word; what Fast DDS reports if there were none.
abbrev pub since_last : List (ℕ × ℕ) → CountStatus → Option (ℕ × ℕ)
since_last [] s = some (s.total_count, s.total_count_change)
since_last (r ∷ rs) s = some (last_total 0 (r ∷ rs), sum_changes (r ∷ rs) % 2 ^ 32)

taken-since :
    (t : ℕ) (rs : List (ℕ × ℕ)) (s : CountStatus)
    → taken (add_reports (t, (0, false)) rs) s ≡ since_last rs s
taken-since t [] s = refl
taken-since t (r ∷ rs) s = rw (add_reports_total t 0 false r rs) (rw zero-add refl)

-- A take of a missed deadline, a lost liveliness, an incompatible QoS or an inconsistent topic gives
-- the last total and the sum of the changes reported since the one before, whatever else was
-- reported in between; with no report in between, what Fast DDS reports.
pub take_event-since_last :
    (k : CountKind) (dds dds' : WriterStatus) (p : PublisherEvent) (calls : List WriterCall)
    → counts_of (take_event (event_of k) dds' (run_calls calls (take_event (event_of k) dds p).0)).1
      ≡ since_last (all_reports k calls) (reported_of k dds')
take_event-since_last k dds dds' p calls =
    let p' = (take_event (event_of k) dds p).0 in
    let (t, e) = after_take k dds p in
    take_event-taken k dds' (run_calls calls p')
    ∙ ap (λ v. taken v (reported_of k dds')) (run_calls-view k calls p')
    ∙ ap (λ v. taken (add_reports v (all_reports k calls)) (reported_of k dds')) e
    ∙ taken-since t (all_reports k calls) (reported_of k dds')
