-- ===== src/WaitSet/Outcome.antt =====
-- What a call returns.
use rmw_fastrtps.Prelude.{
  ℕ, ◌≡◌, ◌⊎◌, refl, ◌∙◌, Bool, true, false, ◌||◌, Option, none, some, List, [], ◌∷◌, arith, All,
  Bool-cases, inl, inr,
}
use rmw_fastrtps.Rmw.{ret_ok, ret_timeout}
use rmw_fastrtps.WaitSet.{Dds, EventHandle, Waitables, WaitSetHandle, each, timeout_of}
use rmw_fastrtps.WaitSet.Check.{has_triggered_condition, check_event, check_all}
use rmw_fastrtps.WaitSet.Wait.{
  attach_all, attached_conditions, wait_attached, wait_and_check, rmw_wait,
}

-- A loop keeps what its body keeps.
pub each_keeps :
    {A B W V : Type 0} (body : A → W → B × W) (f : W → V) (xs : List A) (w : W)
    → All (λ x. (w : W) → f (body x w).1 ≡ f w) xs
    → f (each body xs w).1 ≡ f w
each_keeps body f [] w h = refl
each_keeps body f (x ∷ xs) w (h, hs) = each_keeps body f xs (body x w).1 hs ∙ h w

abbrev pub IsNone : {A : Type 0} → Option A → Type 0
IsNone o = o ≡ none

module _ {W : Type 0} (dds : Dds W) where
  no_events : (es : List EventHandle) (w : W) → All IsNone (each (check_event dds false) es w).0
  unfolding check_event
  no_events [] w = tt
  no_events (e ∷ es) w = (refl, no_events es w)

  pub checked_wait :
      (identifier : ℕ) (x : Waitables) (wait_set : WaitSetHandle) (timeout : Option (ℕ × ℕ)) (w : W)
      → wait_set.implementation_identifier ≡ identifier
      → rmw_wait dds identifier x (some wait_set) timeout w ≡ wait_and_check dds x timeout w
  unfolding rmw_wait
  checked_wait identifier x wait_set timeout w h = ground (arith, h)

  -- A call with a valid wait set returns RMW_RET_TIMEOUT only where no condition was triggered before
  -- and the wait of Fast DDS, with the conditions attached and the caller's timeout, did not return
  -- OK, and then no event is ready; in every other case it returns RMW_RET_OK.
  pub rmw_wait_timeout :
      (identifier : ℕ) (x : Waitables) (wait_set : WaitSetHandle) (timeout : Option (ℕ × ℕ)) (w : W)
      → wait_set.implementation_identifier ≡ identifier
      → let result = rmw_wait dds identifier x (some wait_set) timeout w in
        ((result.0 ≡ ret_ok)
          × ((has_triggered_condition dds x w
                || (dds.wait (timeout_of timeout) (attach_all dds (attached_conditions x) w)).1)
              ≡ true))
        ⊎ ((result.0 ≡ ret_timeout)
            × (has_triggered_condition dds x w ≡ false)
            × ((dds.wait (timeout_of timeout) (attach_all dds (attached_conditions x) w)).1 ≡ false)
            × All IsNone result.1.ready_events)
  unfolding wait_and_check wait_attached check_all
  rmw_wait_timeout identifier x wait_set timeout w h =
      rw (checked_wait identifier x wait_set timeout w h)
        (elim (Bool-cases (has_triggered_condition dds x w)) [
          | inl t ↦ inl (rw (wait_and_check, t) refl, rw (t) refl)
          | inr n ↦
              let waited : W × Bool =
                dds.wait (timeout_of timeout) (attach_all dds (attached_conditions x) w) in
              elim (Bool-cases waited.1) [
                | inl ok ↦ inl (rw (wait_and_check, n, wait_attached, ok) refl, rw (n) ok)
                | inr over ↦ inr (
                  rw (wait_and_check, n, wait_attached, over) refl,
                  n,
                  over,
                  rw (wait_and_check, n, wait_attached, over) (no_events x.events _),
                )
              ]
        ])
