-- ===== src/Event/Subscription/Taken.antt =====
-- What is taken of the liveliness of a subscription's publishers is what was reported since it was
-- last taken.
use rmw_fastrtps.Prelude.{
  ℕ, ◌+◌, ◌%◌, ◌^◌, ◌≡◌, refl, ap, ◌∙◌, inl, inr, true, false, some, List, [], ◌∷◌, arith, eqb, ltb,
  Bool-cases,
}
use native.Mathlib.Nat.{zero-add}
use rmw_fastrtps.Rmw.{Guid}
use rmw_fastrtps.Service.Listener.{minus_one}
use rmw_fastrtps.Event.{
  liveliness_changed, MatchedStatus, AliveStatus, Kept, alive_info, read_status,
}
use rmw_fastrtps.Event.Subscription.{
  SubscriptionEvent, ReaderStatus, ReaderCall, deadline_missed, was_lost, topic_inconsistent,
  qos_incompatible, alive_changed, matched, data_available, on_reader_call,
  update_requested_deadline_missed, update_sample_lost, update_inconsistent_topic,
  update_requested_incompatible_qos, update_liveliness_changed, update_subscription_matched,
  update_data_available, on_subscription_matched, take_event,
}

abbrev pub alive_reports : List ReaderCall → List AliveStatus
alive_reports [] = []
alive_reports (alive_changed s ∷ calls) = s ∷ alive_reports calls
alive_reports (_ ∷ calls) = alive_reports calls

abbrev pub run_calls : List ReaderCall → SubscriptionEvent → SubscriptionEvent
run_calls [] p = p
run_calls (c ∷ calls) p = run_calls calls (on_reader_call c p)

abbrev pub sum_alive : List AliveStatus → ℕ
sum_alive [] = 0
sum_alive (s ∷ rs) = s.alive_count_change + sum_alive rs

abbrev pub sum_not_alive : List AliveStatus → ℕ
sum_not_alive [] = 0
sum_not_alive (s ∷ rs) = s.not_alive_count_change + sum_not_alive rs

abbrev pub last_report : AliveStatus → List AliveStatus → AliveStatus
last_report s [] = s
last_report s (s' ∷ rs) = last_report s' rs

abbrev add_alive : Kept AliveStatus → AliveStatus → Kept AliveStatus
add_alive k s = record {
  status = record {
    alive_count = s.alive_count;
    not_alive_count = s.not_alive_count;
    alive_count_change = (k.status.alive_count_change + s.alive_count_change) % 2 ^ 32;
    not_alive_count_change = (k.status.not_alive_count_change + s.not_alive_count_change) % 2 ^ 32;
  };
  changed = true;
}

abbrev accumulate : Kept AliveStatus → List AliveStatus → Kept AliveStatus
accumulate k [] = k
accumulate k (s ∷ rs) = accumulate (add_alive k s) rs

matched-liveliness :
    (s : MatchedStatus) (guid : Guid) (p : SubscriptionEvent)
    → (on_subscription_matched s guid p).liveliness ≡ p.liveliness
unfolding on_subscription_matched update_subscription_matched
matched-liveliness s guid p = elim (Bool-cases (eqb s.current_count_change 1)) [
  | inl e ↦ rw e refl
  | inr e ↦ elim (Bool-cases (eqb s.current_count_change minus_one)) [
    | inl e' ↦ rw (e, e') refl
    | inr e' ↦ rw (e, e') refl
  ]
]

available-liveliness :
    (n : ℕ) (p : SubscriptionEvent) → (update_data_available n p).liveliness ≡ p.liveliness
unfolding update_data_available
available-liveliness n p = elim (Bool-cases (ltb 0 n)) [ inl e ↦ rw e refl | inr e ↦ rw e refl ]

run_calls-liveliness :
    (calls : List ReaderCall) (p : SubscriptionEvent)
    → (run_calls calls p).liveliness ≡ accumulate p.liveliness (alive_reports calls)
unfolding on_reader_call update_requested_deadline_missed update_sample_lost
    update_inconsistent_topic update_requested_incompatible_qos update_liveliness_changed
run_calls-liveliness [] p = refl
run_calls-liveliness (deadline_missed t n ∷ calls) p =
    run_calls-liveliness calls (on_reader_call (deadline_missed t n) p)
run_calls-liveliness (was_lost t n ∷ calls) p =
    run_calls-liveliness calls (on_reader_call (was_lost t n) p)
run_calls-liveliness (topic_inconsistent t n ∷ calls) p =
    run_calls-liveliness calls (on_reader_call (topic_inconsistent t n) p)
run_calls-liveliness (qos_incompatible policy t n ∷ calls) p =
    run_calls-liveliness calls (on_reader_call (qos_incompatible policy t n) p)
run_calls-liveliness (alive_changed s ∷ calls) p =
    run_calls-liveliness calls (on_reader_call (alive_changed s) p)
run_calls-liveliness (matched s guid ∷ calls) p =
    run_calls-liveliness calls (on_reader_call (matched s guid) p)
    ∙ ap (λ k. accumulate k (alive_reports calls)) (matched-liveliness s guid p)
run_calls-liveliness (data_available n ∷ calls) p =
    run_calls-liveliness calls (on_reader_call (data_available n) p)
    ∙ ap (λ k. accumulate k (alive_reports calls)) (available-liveliness n p)

abbrev kept_status : ℕ → ℕ → AliveStatus → AliveStatus
kept_status a b s = record {
  alive_count = s.alive_count;
  not_alive_count = s.not_alive_count;
  alive_count_change = a % 2 ^ 32;
  not_alive_count_change = b % 2 ^ 32;
}

accumulate_sums :
    (k : Kept AliveStatus) (r : AliveStatus) (rs : List AliveStatus)
    → accumulate k (r ∷ rs) ≡ record {
      status =
          kept_status
            (k.status.alive_count_change + sum_alive (r ∷ rs))
            (k.status.not_alive_count_change + sum_not_alive (r ∷ rs))
            (last_report r rs);
      changed = true;
    }
accumulate_sums k r [] = ground arith
accumulate_sums k r (r' ∷ rs) = accumulate_sums (add_alive k r) r' rs ∙ ground arith

-- What a take gives that follows another one: the last counts and the sums of all changes that were
-- reported in between, modulo the word; what Fast DDS reports if there were none.
abbrev pub since_last : List AliveStatus → AliveStatus → AliveStatus
since_last [] s = s
since_last (r ∷ rs) s = kept_status (sum_alive (r ∷ rs)) (sum_not_alive (r ∷ rs)) (last_report r rs)

read-since :
    (k : Kept AliveStatus) (rs : List AliveStatus) (s : AliveStatus)
    → k.changed ≡ false
    → k.status.alive_count_change ≡ 0
    → k.status.not_alive_count_change ≡ 0
    → read_status (accumulate k rs) s ≡ since_last rs s
read-since k [] s c a b = rw c refl
read-since k (r ∷ rs) s c a b =
    ap (λ k'. read_status k' s) (accumulate_sums k r rs)
    ∙ rw (a, b) (rw zero-add (rw zero-add refl))

-- A take of the changed liveliness gives the last counts and the sums of the changes that were
-- reported since the take before, whatever else was reported in between; with no report in between,
-- what Fast DDS reports.
pub take_liveliness_since_last :
    (dds dds' : ReaderStatus) (p : SubscriptionEvent) (calls : List ReaderCall)
    → (take_event liveliness_changed dds'
        (run_calls calls (take_event liveliness_changed dds p).0)).1
      ≡ some (alive_info (since_last (alive_reports calls) dds'.liveliness))
unfolding take_event
take_liveliness_since_last dds dds' p calls =
    let p' = (take_event liveliness_changed dds p).0 in
    ap (λ k. some (alive_info (read_status k dds'.liveliness))) (run_calls-liveliness calls p')
    ∙ ap (λ s. some (alive_info s))
        (read-since p'.liveliness (alive_reports calls) dds'.liveliness refl refl refl)
