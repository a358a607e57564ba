-- ===== src/WaitSet.antt =====
-- Waiting: rmw_fastrtps_shared_cpp/src/rmw_wait.cpp, src/rmw_guard_condition.cpp and
-- src/rmw_trigger_guard_condition.cpp. Readers and conditions are addresses. What Fast DDS keeps of
-- them, the wait set included, is a state of an interface, `Dds`. The arrays that the caller passes
-- are lists; a null array is an empty one, for each loop over it is skipped.
pub mod Check
pub mod Wait
pub mod Laws
pub mod Outcome
pub mod Attached
pub mod Guards
mod Tests
use rmw_fastrtps.Prelude.{
  ℕ, ◌%◌, ◌^◌, Bool, true, false, ◌&&◌, ◌||◌, not, Option, none, some, List, [], ◌∷◌, ◌++◌, eqb,
  if◌then◌else◌,
}
use rmw_fastrtps.Rmw.{
  RmwRet, ret_ok, ret_error, ret_timeout, ret_invalid_argument, ret_incorrect_rmw_implementation,
}
use rmw_fastrtps.Event.{EventType, StatusBit, StatusMask, rmw_event_to_dds_statusmask}

-- Calls of Fast DDS on a state of its: whether a reader has a sample that was not taken, the trigger
-- value of a condition, the changes that the entity of a status condition reports, and the wait set.
pub record Dds (W : Type 0) : Type 0 where
  pub has_untaken : ℕ → W → Bool
  pub get_trigger_value : ℕ → W → Bool
  pub set_trigger_value : ℕ → Bool → W → W
  pub status_changes : ℕ → W → StatusMask
  pub attach_condition : ℕ → W → W
  pub detach_condition : ℕ → W → W
  pub wait : Option (ℕ × ℕ) → W → W × Bool
  pub is_attached : ℕ → W → Bool

-- What the custom information of a subscription, a client or a service, and an event points at.
pub record Subscriber : Type 0 where
  pub data_reader : ℕ
  pub reader_condition : ℕ
  pub buffer_data_guard : Option ℕ

pub record Endpoint : Type 0 where
  pub endpoint_reader : ℕ
  pub endpoint_condition : ℕ

pub record EventHandle : Type 0 where
  pub event_condition : ℕ
  pub event_guard : EventType → ℕ
  pub event_type : EventType

pub record Waitables : Type 0 where
  pub subscriptions : List Subscriber
  pub guard_conditions : List ℕ
  pub services : List Endpoint
  pub clients : List Endpoint
  pub events : List EventHandle

-- The arrays after the call, an entry that is not ready being null.
pub record Ready : Type 0 where
  pub ready_subscriptions : List (Option Subscriber)
  pub ready_guards : List (Option ℕ)
  pub ready_services : List (Option Endpoint)
  pub ready_clients : List (Option Endpoint)
  pub ready_events : List (Option EventHandle)

pub record WaitSetHandle : Type 0 where
  pub implementation_identifier : ℕ

abbrev pub any : {A : Type 0} → (A → Bool) → List A → Bool
any test [] = false
any test (x ∷ xs) = test x || any test xs

-- A loop that hands a state on and replaces entries.
abbrev pub each : {A B W : Type 0} → (A → W → B × W) → List A → W → List B × W
each body [] w = ([], w)
each body (x ∷ xs) w = let (b, w') = body x w in let (bs, w'') = each body xs w' in (b ∷ bs, w'')

abbrev pub keep_if : {A : Type 0} → Bool → A → Option A
keep_if true a = some a
keep_if false a = none

abbrev pub is_active : Option StatusBit → StatusMask → Bool
is_active none mask = false
is_active (some bit) mask = mask bit

-- `Duration_t`, `none` being infinite.
abbrev pub timeout_of : Option (ℕ × ℕ) → Option (ℕ × ℕ)
timeout_of none = none
timeout_of (some (sec, nsec)) = some (sec % 2 ^ 32, nsec % 2 ^ 32)
