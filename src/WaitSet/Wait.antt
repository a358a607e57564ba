-- ===== src/WaitSet/Wait.antt =====
-- `__rmw_wait` and `__rmw_trigger_guard_condition`.
use rmw_fastrtps.Prelude.{
  ℕ, Bool, true, false, ◌||◌, Option, none, some, List, [], ◌∷◌, ◌++◌, eqb, if◌then◌else◌,
}
use rmw_fastrtps.Rmw.{
  RmwRet, ret_ok, ret_error, ret_timeout, ret_invalid_argument, ret_incorrect_rmw_implementation,
}
use rmw_fastrtps.WaitSet.{
  Dds, Subscriber, Endpoint, EventHandle, Waitables, Ready, WaitSetHandle, timeout_of,
}
use rmw_fastrtps.WaitSet.Check.{has_triggered_condition, check_all}

module _ {W : Type 0} (dds : Dds W) where
  abbrev pub attach_all : List ℕ → W → W
  attach_all [] w = w
  attach_all (c ∷ cs) w = attach_all cs (dds.attach_condition c w)

  abbrev pub detach_all : List ℕ → W → W
  detach_all [] w = w
  detach_all (c ∷ cs) w = detach_all cs (dds.detach_condition c w)

-- The conditions to attach.
abbrev pub conditions_of_subscriptions : List Subscriber → List ℕ
conditions_of_subscriptions [] = []
conditions_of_subscriptions (s ∷ ss) = s.reader_condition ∷ (elim s.buffer_data_guard [
  | none ↦ conditions_of_subscriptions ss
  | some guard ↦ guard ∷ conditions_of_subscriptions ss
])

abbrev pub conditions_of_endpoints : List Endpoint → List ℕ
conditions_of_endpoints [] = []
conditions_of_endpoints (c ∷ cs) = c.endpoint_condition ∷ conditions_of_endpoints cs

abbrev pub conditions_of_events : List EventHandle → List ℕ
conditions_of_events [] = []
conditions_of_events (e ∷ es) =
    e.event_condition ∷ e.event_guard e.event_type ∷ conditions_of_events es

unfoldable pub attached_conditions : Waitables → List ℕ
attached_conditions x =
    conditions_of_subscriptions x.subscriptions
    ++ (conditions_of_endpoints x.clients
        ++ (conditions_of_endpoints x.services
            ++ (conditions_of_events x.events ++ x.guard_conditions)))

module _ {W : Type 0} (dds : Dds W) where
  -- Attaching, waiting and detaching.
  unfoldable pub wait_attached : List ℕ → Option (ℕ × ℕ) → W → W × Bool
  wait_attached conditions timeout w =
      let (w', wait_result) = dds.wait (timeout_of timeout) (attach_all dds conditions w) in
      (detach_all dds conditions w', wait_result)

  abbrev pub wait_unless : Bool → Waitables → Option (ℕ × ℕ) → W → W × Bool
  wait_unless true x timeout w = (w, true)
  wait_unless false x timeout w = wait_attached (attached_conditions x) timeout w

  -- The body of `__rmw_wait`.
  unfoldable pub wait_and_check : Waitables → Option (ℕ × ℕ) → W → RmwRet × Ready × W
  unfolding has_triggered_condition wait_attached attached_conditions check_all
  wait_and_check x timeout w =
      let skip_wait = has_triggered_condition dds x w in
      let (w', wait_result) = wait_unless skip_wait x timeout w in
      let (ready, w'') = check_all dds wait_result x w' in
      (if skip_wait || wait_result then ret_ok else ret_timeout, ready, w'')

-- The arrays as they were passed.
abbrev pub all_kept : {A : Type 0} → List A → List (Option A)
all_kept [] = []
all_kept (a ∷ rest) = some a ∷ all_kept rest

abbrev pub unchanged : Waitables → Ready
unchanged x = record {
  ready_subscriptions = all_kept x.subscriptions;
  ready_guards = all_kept x.guard_conditions;
  ready_services = all_kept x.services;
  ready_clients = all_kept x.clients;
  ready_events = all_kept x.events;
}

module _ {W : Type 0} (dds : Dds W) where
  unfoldable pub rmw_wait :
      ℕ → Waitables → Option WaitSetHandle → Option (ℕ × ℕ) → W → RmwRet × Ready × W
  unfolding wait_and_check
  rmw_wait identifier x none timeout w = (ret_invalid_argument, unchanged x, w)
  rmw_wait identifier x (some wait_set) timeout w =
      let result = wait_and_check dds x timeout w in
      if eqb wait_set.implementation_identifier identifier
      then result
      else (ret_incorrect_rmw_implementation, unchanged x, w)

  -- `__rmw_trigger_guard_condition`, for a handle with its implementation's identifier.
  unfoldable pub trigger_guard_condition : ℕ → ℕ → ℕ → W → RmwRet × W
  trigger_guard_condition identifier handle_identifier guard w =
      if eqb handle_identifier identifier
      then (ret_ok, dds.set_trigger_value guard true w)
      else (ret_error, w)
