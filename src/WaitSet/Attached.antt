-- ===== src/WaitSet/Attached.antt =====
-- The wait set before and after a call.
use rmw_fastrtps.Prelude.{
  ℕ, ◌≡◌, refl, ◌∙◌, Bool, true, false, ◌||◌, not, ◌&&◌, Option, some, List, [], ◌∷◌, arith, All,
  Option-cases, inl, inr, nat_eq,
}
use rmw_fastrtps.Prelude.Assoc.{contains}
use rmw_fastrtps.WaitSet.{Dds, Subscriber, EventHandle, Waitables, WaitSetHandle, timeout_of}
use rmw_fastrtps.WaitSet.Check.{
  has_triggered_condition, check_subscription, check_endpoint, check_event, check_guard_condition,
  check_all,
}
use rmw_fastrtps.WaitSet.Wait.{
  attach_all, detach_all, attached_conditions, wait_unless, wait_attached, wait_and_check, rmw_wait,
}
use rmw_fastrtps.WaitSet.Laws.{DdsLaws}
use rmw_fastrtps.WaitSet.Outcome.{each_keeps, checked_wait}

pub everywhere : {A : Type 0} (P : A → Type 0) → ((a : A) → P a) → (xs : List A) → All P xs
everywhere P h [] = tt
everywhere P h (x ∷ xs) = (h x, everywhere P h xs)

module _ {W : Type 0} (dds : Dds W) (law : DdsLaws dds) (d : ℕ) where
  attached_all :
      (cs : List ℕ) (w : W)
      → dds.is_attached d (attach_all dds cs w) ≡ (contains d cs || dds.is_attached d w)
  unfolding contains
  attached_all [] w = refl
  attached_all (c ∷ cs) w =
      ground (arith, attached_all cs (dds.attach_condition c w), law.attach_attached c d w)

  detached_all :
      (cs : List ℕ) (w : W)
      → dds.is_attached d (detach_all dds cs w) ≡ (not (contains d cs) && dds.is_attached d w)
  unfolding contains
  detached_all [] w = refl
  detached_all (c ∷ cs) w =
      ground (arith, detached_all cs (dds.detach_condition c w), law.detach_attached c d w)

  -- No condition that is attached for the call is in the wait set already.
  abbrev pub IsFree : Waitables → W → Type 0
  IsFree x w = (contains d (attached_conditions x) && dds.is_attached d w) ≡ false

  wait_keeps :
      (x : Waitables) (timeout : Option (ℕ × ℕ)) (w : W)
      → IsFree x w
      → (skip : Bool) → dds.is_attached d (wait_unless dds skip x timeout w).0 ≡ dds.is_attached d w
  unfolding wait_attached
  wait_keeps x timeout w free true = refl
  wait_keeps x timeout w free false =
      let cs : List ℕ = attached_conditions x in
      ground (
        arith,
        detached_all cs (dds.wait (timeout_of timeout) (attach_all dds cs w)).0,
        law.wait_attached (timeout_of timeout) d (attach_all dds cs w),
        attached_all cs w,
        free,
      )

  subscription_keeps :
      (s : Subscriber) (w : W)
      → dds.is_attached d (check_subscription dds s w).1 ≡ dds.is_attached d w
  unfolding check_subscription
  subscription_keeps s w = elim (Option-cases s.buffer_data_guard) [
    | inl e ↦ ground (arith, e)
    | inr (guard, e) ↦ ground (arith, e, law.set_attached guard d false w)
  ]

  event_keeps :
      (wait_result : Bool) (e : EventHandle) (w : W)
      → dds.is_attached d (check_event dds wait_result e w).1 ≡ dds.is_attached d w
  unfolding check_event
  event_keeps wait_result e w =
      ground (arith, law.set_attached (e.event_guard e.event_type) d false w)

  check_keeps :
      (wait_result : Bool) (x : Waitables) (w : W)
      → dds.is_attached d (check_all dds wait_result x w).1 ≡ dds.is_attached d w
  unfolding check_all check_guard_condition
  check_keeps wait_result x w =
      each_keeps (check_guard_condition dds) (dds.is_attached d) x.guard_conditions _
        (everywhere _ (λ g v. law.set_attached g d false v) x.guard_conditions)
      ∙ each_keeps (check_event dds wait_result) (dds.is_attached d) x.events _
          (everywhere _ (event_keeps wait_result) x.events)
      ∙ each_keeps (check_endpoint dds) (dds.is_attached d) x.services _
          (everywhere _ (λ c v. refl) x.services)
      ∙ each_keeps (check_endpoint dds) (dds.is_attached d) x.clients _
          (everywhere _ (λ c v. refl) x.clients)
      ∙ each_keeps (check_subscription dds) (dds.is_attached d) x.subscriptions w
          (everywhere _ subscription_keeps x.subscriptions)

  -- After a call with a valid wait set, the wait set has the conditions that it had before, whatever
  -- is ready and whether the call waited or not, where none of those of the call was in it before.
  pub rmw_wait-is_attached :
      (identifier : ℕ) (x : Waitables) (wait_set : WaitSetHandle) (timeout : Option (ℕ × ℕ)) (w : W)
      → wait_set.implementation_identifier ≡ identifier
      → IsFree x w
      → dds.is_attached d (rmw_wait dds identifier x (some wait_set) timeout w).2
        ≡ dds.is_attached d w
  unfolding wait_and_check
  rmw_wait-is_attached identifier x wait_set timeout w h free =
      rw (checked_wait dds identifier x wait_set timeout w h)
        (check_keeps _ x _ ∙ wait_keeps x timeout w free (has_triggered_condition dds x w))
