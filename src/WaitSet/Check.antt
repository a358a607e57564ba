-- ===== src/WaitSet/Check.antt =====
-- What is triggered before waiting, and what is ready after it.
use rmw_fastrtps.Prelude.{ℕ, Bool, false, ◌||◌, Option, none, some, if◌then◌else◌}
use rmw_fastrtps.Event.{rmw_event_to_dds_statusmask}
use rmw_fastrtps.WaitSet.{
  Dds, Subscriber, Endpoint, EventHandle, Waitables, Ready, any, each, keep_if, is_active,
}

module _ {W : Type 0} (dds : Dds W) where
  abbrev pub guard_triggered : Option ℕ → W → Bool
  guard_triggered none w = false
  guard_triggered (some guard) w = dds.get_trigger_value guard w

  unfoldable pub has_triggered_condition : Waitables → W → Bool
  has_triggered_condition x w =
      any (λ g. dds.get_trigger_value g w) x.guard_conditions
      || any
          (λ (e : EventHandle).
            dds.get_trigger_value e.event_condition w
            || dds.get_trigger_value (e.event_guard e.event_type) w)
          x.events
      || any
          (λ (s : Subscriber).
            dds.has_untaken s.data_reader w || guard_triggered s.buffer_data_guard w)
          x.subscriptions
      || any (λ (c : Endpoint). dds.has_untaken c.endpoint_reader w) x.clients
      || any (λ (s : Endpoint). dds.has_untaken s.endpoint_reader w) x.services

  unfoldable pub check_subscription : Subscriber → W → Option Subscriber × W
  check_subscription s w =
      if dds.has_untaken s.data_reader w then (some s, w) else elim s.buffer_data_guard [
        | none ↦ (none, w)
        | some guard ↦
            if dds.get_trigger_value guard w
            then (some s, dds.set_trigger_value guard false w)
            else (none, w)
      ]

  abbrev pub check_endpoint : Endpoint → W → Option Endpoint × W
  check_endpoint c w = (keep_if (dds.has_untaken c.endpoint_reader w) c, w)

  unfoldable pub check_event : Bool → EventHandle → W → Option EventHandle × W
  check_event wait_result e w =
      let guard = e.event_guard e.event_type in
      let active =
        is_active (rmw_event_to_dds_statusmask e.event_type)
          (dds.status_changes e.event_condition w) in
      if wait_result
      then (if dds.get_trigger_value guard w
          then (some e, dds.set_trigger_value guard false w)
          else (keep_if active e, w))
      else (none, w)

  unfoldable pub check_guard_condition : ℕ → W → Option ℕ × W
  check_guard_condition g w =
      (keep_if (dds.get_trigger_value g w) g, dds.set_trigger_value g false w)

  -- The end of the call: what is ready.
  unfoldable pub check_all : Bool → Waitables → W → Ready × W
  unfolding check_subscription check_event check_guard_condition
  check_all wait_result x w =
      let (subscriptions, w1) = each check_subscription x.subscriptions w in
      let (clients, w2) = each check_endpoint x.clients w1 in
      let (services, w3) = each check_endpoint x.services w2 in
      let (events, w4) = each (check_event wait_result) x.events w3 in
      let (guards, w5) = each check_guard_condition x.guard_conditions w4 in
      (
        record {
          ready_subscriptions = subscriptions;
          ready_guards = guards;
          ready_services = services;
          ready_clients = clients;
          ready_events = events;
        },
        w5,
      )
