-- ===== src/Event.antt =====
-- Events of publishers and subscriptions: what both share. rmw_fastrtps_shared_cpp/src/rmw_event.cpp,
-- and the parts that src/custom_publisher_info.cpp and src/custom_subscriber_info.cpp repeat for each
-- kind of event. An `int32_t` is its bit pattern; the mutexes make each operation one step. What Fast
-- DDS reports when the code asks for a status is an argument of the operation that asks.
pub mod Publisher
pub mod Mask
pub mod Init
pub mod Subscription
mod Tests
use rmw_fastrtps.Prelude.{
  ℕ, ◌+◌, ◌-◌, ◌%◌, ◌^◌, Bool, true, false, not, ◌&&◌, ◌||◌, Option, none, some, List, [], ◌∷◌, ltb,
  eqb, if◌then◌else◌,
}
use rmw_fastrtps.Rmw.{Guid, sign_extend, is_positive}

-- `rmw_event_type_t`.
pub data EventType : Type 0 where
  liveliness_changed requested_deadline_missed requested_qos_incompatible message_lost : EventType
  subscription_incompatible_type subscription_matched : EventType
  liveliness_lost offered_deadline_missed offered_qos_incompatible : EventType
  publisher_incompatible_type publication_matched : EventType
  event_other : ℕ → EventType

-- The index of an event in the arrays that the code keeps.
abbrev pub event_index : EventType → ℕ
event_index liveliness_changed = 0
event_index requested_deadline_missed = 1
event_index requested_qos_incompatible = 2
event_index message_lost = 3
event_index subscription_incompatible_type = 4
event_index subscription_matched = 5
event_index liveliness_lost = 6
event_index offered_deadline_missed = 7
event_index offered_qos_incompatible = 8
event_index publisher_incompatible_type = 9
event_index publication_matched = 10
event_index (event_other n) = 11 + n

-- The bits of a `StatusMask` that the code names.
pub data StatusBit : Type 0 where
  liveliness_changed_bit requested_deadline_missed_bit liveliness_lost_bit : StatusBit
  offered_deadline_missed_bit sample_lost_bit offered_incompatible_qos_bit : StatusBit
  requested_incompatible_qos_bit inconsistent_topic_bit subscription_matched_bit : StatusBit
  publication_matched_bit data_available_bit : StatusBit

abbrev pub bit_index : StatusBit → ℕ
bit_index liveliness_changed_bit = 0
bit_index requested_deadline_missed_bit = 1
bit_index liveliness_lost_bit = 2
bit_index offered_deadline_missed_bit = 3
bit_index sample_lost_bit = 4
bit_index offered_incompatible_qos_bit = 5
bit_index requested_incompatible_qos_bit = 6
bit_index inconsistent_topic_bit = 7
bit_index subscription_matched_bit = 8
bit_index publication_matched_bit = 9
bit_index data_available_bit = 10

abbrev pub StatusMask : Type 0
StatusMask = StatusBit → Bool

-- `mask | other`, `mask & ~other` for the mask of one bit, or of none.
abbrev pub mask_or : StatusMask → Option StatusBit → StatusMask
mask_or mask none b = mask b
mask_or mask (some c) b = eqb (bit_index c) (bit_index b) || mask b

abbrev pub mask_and_not : StatusMask → Option StatusBit → StatusMask
mask_and_not mask none b = mask b
mask_and_not mask (some c) b = not (eqb (bit_index c) (bit_index b)) && mask b

abbrev pub rmw_event_to_dds_statusmask : EventType → Option StatusBit
rmw_event_to_dds_statusmask liveliness_changed = some liveliness_changed_bit
rmw_event_to_dds_statusmask requested_deadline_missed = some requested_deadline_missed_bit
rmw_event_to_dds_statusmask liveliness_lost = some liveliness_lost_bit
rmw_event_to_dds_statusmask offered_deadline_missed = some offered_deadline_missed_bit
rmw_event_to_dds_statusmask message_lost = some sample_lost_bit
rmw_event_to_dds_statusmask offered_qos_incompatible = some offered_incompatible_qos_bit
rmw_event_to_dds_statusmask requested_qos_incompatible = some requested_incompatible_qos_bit
rmw_event_to_dds_statusmask subscription_incompatible_type = some inconsistent_topic_bit
rmw_event_to_dds_statusmask publisher_incompatible_type = some inconsistent_topic_bit
rmw_event_to_dds_statusmask subscription_matched = some subscription_matched_bit
rmw_event_to_dds_statusmask publication_matched = some publication_matched_bit
rmw_event_to_dds_statusmask (event_other n) = none

-- `QosPolicyId_t` and `rmw_qos_policy_kind_t`.
pub data PolicyId : Type 0 where
  durability_policy_id deadline_policy_id liveliness_policy_id reliability_policy_id : PolicyId
  history_policy_id lifespan_policy_id : PolicyId
  policy_id_other : ℕ → PolicyId

pub data PolicyKind : Type 0 where
  policy_durability policy_deadline policy_liveliness policy_reliability : PolicyKind
  policy_history policy_lifespan policy_invalid : PolicyKind

abbrev pub dds_qos_policy_to_rmw_qos_policy : PolicyId → PolicyKind
dds_qos_policy_to_rmw_qos_policy durability_policy_id = policy_durability
dds_qos_policy_to_rmw_qos_policy deadline_policy_id = policy_deadline
dds_qos_policy_to_rmw_qos_policy liveliness_policy_id = policy_liveliness
dds_qos_policy_to_rmw_qos_policy reliability_policy_id = policy_reliability
dds_qos_policy_to_rmw_qos_policy history_policy_id = policy_history
dds_qos_policy_to_rmw_qos_policy lifespan_policy_id = policy_lifespan
dds_qos_policy_to_rmw_qos_policy (policy_id_other n) = policy_invalid

-- A status of Fast DDS that counts, with the policy of an incompatible QoS (others leave it alone).
pub record CountStatus : Type 0 where
  pub total_count : ℕ
  pub total_count_change : ℕ
  pub last_policy_id : PolicyId

pub record MatchedStatus : Type 0 where
  pub total_count : ℕ
  pub total_count_change : ℕ
  pub current_count : ℕ
  pub current_count_change : ℕ

pub record AliveStatus : Type 0 where
  pub alive_count : ℕ
  pub not_alive_count : ℕ
  pub alive_count_change : ℕ
  pub not_alive_count_change : ℕ

-- A status that is kept, with its flag `..._changed_`.
pub record Kept (Status : Type 0) : Type 0 where
  pub status : Status
  pub changed : Bool

-- What an event is taken as.
pub data EventInfo : Type 0 where
  count_info : ℕ → ℕ → EventInfo
  incompatible_info : ℕ → ℕ → PolicyKind → EventInfo
  matched_info : ℕ → ℕ → ℕ → ℕ → EventInfo
  alive_info : AliveStatus → EventInfo

pub record Callback : Type 0 where
  pub function : ℕ
  pub user_data : ℕ

-- The members that do not depend on the kind of event: the callbacks with their user data, the guard
-- conditions, the listener's mask, the endpoints matched, and the callback calls made so far, the
-- last one first.
pub record Notifier : Type 0 where
  pub on_new_event_cb : EventType → Option Callback
  pub event_guard : EventType → Bool
  pub status_mask : StatusMask
  pub unique : List Guid
  pub calls : List (Callback × ℕ)

abbrev pub set_at : {A : Type 0} → EventType → A → (EventType → A) → EventType → A
set_at e a f e' = if eqb (event_index e) (event_index e') then a else f e'

abbrev pub call_if_set : Option Callback → ℕ → List (Callback × ℕ) → List (Callback × ℕ)
call_if_set none n calls = calls
call_if_set (some c) n calls = (c, n) ∷ calls

unfoldable pub trigger_event : EventType → Notifier → Notifier
trigger_event e n = record n {
  calls = call_if_set (n.on_new_event_cb e) 1 n.calls;
  event_guard = set_at e true n.event_guard;
}

-- The end of a `take_event` that succeeds.
unfoldable pub reset_guard : EventType → Notifier → Notifier
reset_guard e n = record n { event_guard = set_at e false n.event_guard }

-- The end of `set_on_new_event_callback`; `matched` is the event whose status stays enabled.
unfoldable pub set_callback : EventType → EventType → Option Callback → Notifier → Notifier
set_callback matched e (some c) n = record n {
  on_new_event_cb = set_at e (some c) n.on_new_event_cb;
  status_mask = mask_or n.status_mask (rmw_event_to_dds_statusmask e);
}
set_callback matched e none n = record n {
  on_new_event_cb = set_at e none n.on_new_event_cb;
  status_mask =
      if eqb (event_index matched) (event_index e)
      then n.status_mask
      else mask_and_not n.status_mask (rmw_event_to_dds_statusmask e);
}

-- The totals are assigned, the changes accumulate.
unfoldable pub update_count : ℕ → ℕ → Kept CountStatus → Kept CountStatus
update_count total_count total_count_change k = record {
  status = record (k.status) {
    total_count = total_count;
    total_count_change = (k.status.total_count_change + total_count_change) % 2 ^ 32;
  };
  changed = true;
}

unfoldable pub update_matched : MatchedStatus → Kept MatchedStatus → Kept MatchedStatus
update_matched s k = record {
  status = record {
    total_count = s.total_count;
    total_count_change = (k.status.total_count_change + s.total_count_change) % 2 ^ 32;
    current_count = s.current_count;
    current_count_change = (k.status.current_count_change + s.current_count_change) % 2 ^ 32;
  };
  changed = true;
}

-- The status that a take reads: the one that is kept if it has changed, else the one reported.
abbrev pub read_status : {Status : Type 0} → Kept Status → Status → Status
read_status k reported = if k.changed then k.status else reported

unfoldable pub take_count : Kept CountStatus → CountStatus → Kept CountStatus
take_count k reported = record {
  status = record (read_status k reported) { total_count_change = 0 };
  changed = false;
}

abbrev pub count_info_of : CountStatus → EventInfo
count_info_of s = count_info s.total_count s.total_count_change

abbrev pub incompatible_info_of : CountStatus → EventInfo
incompatible_info_of s =
    incompatible_info s.total_count s.total_count_change
      (dds_qos_policy_to_rmw_qos_policy s.last_policy_id)

-- The two counts of a matched status are read from Fast DDS; the changes that were kept are added.
unfoldable pub matched_info_of : Kept MatchedStatus → MatchedStatus → EventInfo
matched_info_of k s =
    matched_info (sign_extend s.total_count)
      (if k.changed
        then (sign_extend s.total_count_change + sign_extend k.status.total_count_change) % 2 ^ 64
        else sign_extend s.total_count_change)
      (sign_extend s.current_count)
      (if k.changed
        then (s.current_count_change + k.status.current_count_change) % 2 ^ 32
        else s.current_count_change)

unfoldable pub take_matched : Kept MatchedStatus → Kept MatchedStatus
take_matched k = record {
  status = record (k.status) { total_count_change = 0; current_count_change = 0 };
  changed = false;
}

-- What setting a callback does to a status that counts, and the calls that it makes.
unfoldable pub report_count :
    Callback
    → CountStatus
    → Kept CountStatus
    → List (Callback × ℕ)
    → Kept CountStatus × List (Callback × ℕ)
report_count c reported k calls =
    if is_positive reported.total_count_change
    then (
      record k { status = record reported { total_count_change = 0 } },
      (c, reported.total_count_change) ∷ calls,
    )
    else (record k { status = reported }, calls)

unfoldable pub report_matched :
    Callback
    → MatchedStatus
    → Kept MatchedStatus
    → List (Callback × ℕ)
    → Kept MatchedStatus × List (Callback × ℕ)
report_matched c reported k calls =
    if is_positive k.status.total_count_change
    then (
      record k { status = record reported { total_count_change = 0; current_count_change = 0 } },
      (c, k.status.total_count_change) ∷ calls,
    )
    else (k, calls)
