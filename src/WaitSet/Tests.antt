-- ===== src/WaitSet/Tests.antt =====
-- Waiting at concrete inputs.
use rmw_fastrtps.Prelude.{
  ℕ, ◌≡◌, ◌⊎◌, refl, Bool, true, false, ◌||◌, none, some, List, [], ◌∷◌, All, if◌then◌else◌, eqb,
  nat_eq,
}
use rmw_fastrtps.Prelude.Assoc.{contains, insert, remove, contains-insert, contains-remove}
use rmw_fastrtps.Rmw.{ret_ok, ret_timeout}
use rmw_fastrtps.Event.{liveliness_lost}
use rmw_fastrtps.WaitSet.{Dds, Waitables, WaitSetHandle, timeout_of}
use rmw_fastrtps.WaitSet.Check.{has_triggered_condition}
use rmw_fastrtps.WaitSet.Wait.{attach_all, attached_conditions, rmw_wait, trigger_guard_condition}
use rmw_fastrtps.WaitSet.Laws.{DdsLaws}
use rmw_fastrtps.WaitSet.Outcome.{IsNone, rmw_wait_timeout}
use rmw_fastrtps.WaitSet.Attached.{rmw_wait-is_attached}
use rmw_fastrtps.WaitSet.Guards.{reported, trigger-rmw_wait}

-- A wait set in which nothing ever arrives, so that waiting times out.
record Quiet : Type 0 where
  attached : List ℕ
  triggered : ℕ → Bool

abbrev quiet : Dds Quiet
quiet = record {
  has_untaken = λ r w. false;
  get_trigger_value = λ c w. w.triggered c;
  set_trigger_value =
      λ c value w. record w { triggered = λ d. if eqb c d then value else w.triggered d };
  status_changes = λ c w bit. false;
  attach_condition = λ c w. record w { attached = insert c w.attached };
  detach_condition = λ c w. record w { attached = remove c w.attached };
  wait = λ timeout w. (w, false);
  is_attached = λ c w. contains c w.attached;
}

quiet_laws : DdsLaws quiet
quiet_laws = record {
  attach_attached = λ c d w. contains-insert c d w.attached;
  detach_attached = λ c d w. contains-remove c d w.attached;
  wait_attached = λ timeout d w. refl;
  set_attached = λ c d value w. refl;
  set_get = λ c d value w. refl;
  set_untaken = λ c r value w. refl;
}

abbrev waitables : Waitables
waitables = record {
  subscriptions =
      record { data_reader = 1; reader_condition = 101; buffer_data_guard = some 102 } ∷ [];
  guard_conditions = 103 ∷ 104 ∷ [];
  services = [];
  clients = record { endpoint_reader = 2; endpoint_condition = 105 } ∷ [];
  events =
      record { event_condition = 106; event_guard = λ e. 107; event_type = liveliness_lost } ∷ [];
}

abbrev start : Quiet
start = record { attached = 7 ∷ []; triggered = λ c. false }

abbrev wait_set : WaitSetHandle
wait_set = record { implementation_identifier = 1 }

rmw_wait_timeout_example :
    let result = rmw_wait quiet 1 waitables (some wait_set) (some (1, 0)) start in
    ((result.0 ≡ ret_ok)
      × ((has_triggered_condition quiet waitables start
            || (quiet.wait
                (timeout_of (some (1, 0)))
                (attach_all quiet (attached_conditions waitables) start)).1)
          ≡ true))
    ⊎ ((result.0 ≡ ret_timeout)
        × (has_triggered_condition quiet waitables start ≡ false)
        × ((quiet.wait
              (timeout_of (some (1, 0)))
              (attach_all quiet (attached_conditions waitables) start)).1
            ≡ false)
        × All IsNone result.1.ready_events)
rmw_wait_timeout_example = rmw_wait_timeout quiet 1 waitables wait_set (some (1, 0)) start refl

rmw_wait-is_attached_example :
    quiet.is_attached 7 (rmw_wait quiet 1 waitables (some wait_set) none start).2
    ≡ quiet.is_attached 7 start
unfolding contains attached_conditions
rmw_wait-is_attached_example =
    rmw_wait-is_attached quiet quiet_laws 7 1 waitables wait_set none start refl refl

trigger-rmw_wait_example :
    let result =
      rmw_wait quiet 1 waitables
        (some wait_set)
        none
        (trigger_guard_condition quiet 1 1 104 start).1 in
    (result.0 ≡ ret_ok)
    × (reported 104 result.1.ready_guards ≡ true)
    × (quiet.get_trigger_value 104 result.2 ≡ false)
unfolding contains
trigger-rmw_wait_example =
    trigger-rmw_wait quiet quiet_laws 104 1 waitables wait_set none start refl refl refl refl
