-- ===== src/WaitSet/Guards.antt =====
-- Guard conditions that are triggered before a call.
use rmw_fastrtps.Prelude.{
  ℕ, ◌≡◌, refl, ◌∙◌, Bool, true, false, ◌||◌, not, ◌&&◌, Option, none, some, List, [], ◌∷◌, arith,
  Option-cases, inl, inr, nat_eq, eq_iff, ◌==◌,
}
use rmw_fastrtps.Prelude.Assoc.{contains}
use rmw_fastrtps.Rmw.{ret_ok}
use rmw_fastrtps.WaitSet.{Dds, Subscriber, EventHandle, Waitables, WaitSetHandle, each, any}
use rmw_fastrtps.WaitSet.Check.{
  has_triggered_condition, check_subscription, check_endpoint, check_event, check_guard_condition,
  check_all,
}
use rmw_fastrtps.WaitSet.Wait.{wait_and_check, rmw_wait, trigger_guard_condition}
use rmw_fastrtps.WaitSet.Laws.{DdsLaws}
use rmw_fastrtps.WaitSet.Outcome.{each_keeps, checked_wait}
use rmw_fastrtps.WaitSet.Attached.{everywhere}

-- Whether a guard condition is among the entries that are left.
abbrev pub reported : ℕ → List (Option ℕ) → Bool
reported g [] = false
reported g (none ∷ entries) = reported g entries
reported g (some h ∷ entries) = h == g || reported g entries

-- The guard conditions that the checks before those of the guard conditions may reset.
abbrev pub buffer_guards : List Subscriber → List ℕ
buffer_guards [] = []
buffer_guards (s ∷ ss) = elim s.buffer_data_guard [
  | none ↦ buffer_guards ss
  | some guard ↦ guard ∷ buffer_guards ss
]

abbrev pub event_guards : List EventHandle → List ℕ
event_guards [] = []
event_guards (e ∷ es) = e.event_guard e.event_type ∷ event_guards es

module _ {W : Type 0} (dds : Dds W) (law : DdsLaws dds) (g : ℕ) where
  guards_reported :
      (gs : List ℕ) (w : W)
      → reported g (each (check_guard_condition dds) gs w).0
        ≡ (contains g gs && dds.get_trigger_value g w)
  unfolding check_guard_condition contains
  guards_reported [] w = refl
  guards_reported (h ∷ gs) w = ground (
    arith,
    guards_reported gs (dds.set_trigger_value h false w),
    law.set_get h g false w,
    eq_iff h g,
  )

  guards_reset :
      (gs : List ℕ) (w : W)
      → dds.get_trigger_value g (each (check_guard_condition dds) gs w).1
        ≡ (not (contains g gs) && dds.get_trigger_value g w)
  unfolding check_guard_condition contains
  guards_reset [] w = refl
  guards_reset (h ∷ gs) w = ground (
    arith,
    guards_reset gs (dds.set_trigger_value h false w),
    law.set_get h g false w,
    eq_iff h g,
  )

  subscription_step :
      (s : Subscriber) (ss : List Subscriber) (w : W)
      → contains g (buffer_guards (s ∷ ss)) ≡ false
      → (dds.get_trigger_value g (check_subscription dds s w).1 ≡ dds.get_trigger_value g w)
        × (contains g (buffer_guards ss) ≡ false)
  unfolding check_subscription contains
  subscription_step s ss w h = elim (Option-cases s.buffer_data_guard) [
    | inl e ↦ ground (arith, e, h)
    | inr (guard, e) ↦ ground (arith, e, h, law.set_get guard g false w)
  ]

  subscriptions_keep :
      (ss : List Subscriber) (w : W)
      → contains g (buffer_guards ss) ≡ false
      → dds.get_trigger_value g (each (check_subscription dds) ss w).1 ≡ dds.get_trigger_value g w
  unfolding check_subscription contains
  subscriptions_keep [] w h = refl
  subscriptions_keep (s ∷ ss) w h =
      let (same, rest) = subscription_step s ss w h in
      subscriptions_keep ss (check_subscription dds s w).1 rest ∙ same

  events_keep :
      (wait_result : Bool) (es : List EventHandle) (w : W)
      → contains g (event_guards es) ≡ false
      → dds.get_trigger_value g (each (check_event dds wait_result) es w).1
        ≡ dds.get_trigger_value g w
  unfolding check_event contains
  events_keep wait_result [] w h = refl
  events_keep wait_result (e ∷ es) w h =
      events_keep wait_result es (check_event dds wait_result e w).1 (ground (arith, h))
      ∙ ground (arith, h, law.set_get (e.event_guard e.event_type) g false w)

  any_triggered :
      (gs : List ℕ) (w : W)
      → contains g gs ≡ true
      → dds.get_trigger_value g w ≡ true
      → any (λ h. dds.get_trigger_value h w) gs ≡ true
  unfolding contains
  any_triggered [] w h t = h
  any_triggered (h ∷ gs) w c t = ground (arith, any_triggered gs w, c, t, eq_iff h g)

  before_guards :
      (wait_result : Bool) (x : Waitables) (w : W)
      → contains g (buffer_guards x.subscriptions) ≡ false
      → contains g (event_guards x.events) ≡ false
      → dds.get_trigger_value g
          (each
            (check_event dds wait_result)
            x.events
            (each
              (check_endpoint dds)
              x.services
              (each
                (check_endpoint dds)
                x.clients
                (each (check_subscription dds) x.subscriptions w).1).1).1).1
        ≡ dds.get_trigger_value g w
  before_guards wait_result x w no_buffer no_event =
      events_keep wait_result x.events _ no_event
      ∙ each_keeps (check_endpoint dds) (dds.get_trigger_value g) x.services _
          (everywhere _ (λ c v. refl) x.services)
      ∙ each_keeps (check_endpoint dds) (dds.get_trigger_value g) x.clients _
          (everywhere _ (λ c v. refl) x.clients)
      ∙ subscriptions_keep x.subscriptions w no_buffer

  checked_guards :
      (wait_result : Bool) (x : Waitables) (w : W)
      → contains g x.guard_conditions ≡ true
      → contains g (buffer_guards x.subscriptions) ≡ false
      → contains g (event_guards x.events) ≡ false
      → dds.get_trigger_value g w ≡ true
      → (reported g (check_all dds wait_result x w).0.ready_guards ≡ true)
        × (dds.get_trigger_value g (check_all dds wait_result x w).1 ≡ false)
  unfolding check_all
  checked_guards wait_result x w c no_buffer no_event t =
      let same = before_guards wait_result x w no_buffer no_event in
      (
        guards_reported x.guard_conditions _ ∙ ground (arith, same, c, t),
        guards_reset x.guard_conditions _ ∙ ground (arith, same, c, t),
      )

  triggered :
      (identifier : ℕ) (w : W)
      → dds.get_trigger_value g (trigger_guard_condition dds identifier identifier g w).1 ≡ true
  unfolding trigger_guard_condition
  triggered identifier w = ground (arith, law.set_get g g true w)

  skips :
      (x : Waitables) (w : W)
      → contains g x.guard_conditions ≡ true
      → dds.get_trigger_value g w ≡ true
      → has_triggered_condition dds x w ≡ true
  unfolding has_triggered_condition
  skips x w c t = rw (any_triggered x.guard_conditions w c t) refl

  -- A guard condition that is triggered, and is one of those that a call with a valid wait set is
  -- given, but none of the conditions of its events and of the buffers of its subscriptions, wakes the
  -- call: whatever the timeout and the state, and whatever the wait of Fast DDS would do, the call
  -- returns RMW_RET_OK, with the guard condition among the ready ones, and leaves it reset.
  pub trigger-rmw_wait :
      (identifier : ℕ) (x : Waitables) (wait_set : WaitSetHandle) (timeout : Option (ℕ × ℕ)) (w : W)
      → wait_set.implementation_identifier ≡ identifier
      → contains g x.guard_conditions ≡ true
      → contains g (buffer_guards x.subscriptions) ≡ false
      → contains g (event_guards x.events) ≡ false
      → let result =
          rmw_wait dds identifier x
            (some wait_set)
            timeout
            (trigger_guard_condition dds identifier identifier g w).1 in
        (result.0 ≡ ret_ok)
        × (reported g result.1.ready_guards ≡ true)
        × (dds.get_trigger_value g result.2 ≡ false)
  unfolding wait_and_check
  trigger-rmw_wait identifier x wait_set timeout w h c no_buffer no_event =
      let w' : W = (trigger_guard_condition dds identifier identifier g w).1 in
      let t : dds.get_trigger_value g w' ≡ true = triggered identifier w in
      let (ready, reset) = checked_guards true x w' c no_buffer no_event t in
      rw (checked_wait dds identifier x wait_set timeout w' h, wait_and_check, skips x w' c t)
        (refl, ready, reset)
