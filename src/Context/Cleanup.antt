-- ===== src/Context/Cleanup.antt =====
-- What the pointers of a context are to.
use rmw_fastrtps.Prelude.{◌+◌, ◌^◌, if◌then◌else◌, ◌<◌, ◌≡◌, refl, List, [], ◌∷◌, ltb, arith}
use rmw_fastrtps.Rmw.{ret_ok}
use rmw_fastrtps.Context.{
  ContextImpl, Pointers, null, alive, dangling, Initialization, not_created, not_listening,
  initialized, init_context_impl, Returned, clean_up, decrement_context_impl_ref_count,
  increment_context_impl_ref_count,
}

-- A failure to destroy the publisher or the participant is not returned unless the subscription
-- could not be destroyed either.
pub clean_up_swallows :
    (r : Returned) (pointers : Pointers)
    → r.join_listener_thread ≡ ret_ok
    → r.destroy_subscription ≡ ret_ok
    → (clean_up r pointers).0 ≡ ret_ok
unfolding clean_up
clean_up_swallows r pointers joined subscription = rw (joined, subscription) refl

pub data ContextCall : Type 0 where
  increment : Initialization → ContextCall
  decrement : Returned → ContextCall

abbrev pub on_context : ContextCall → ContextImpl → ContextImpl
on_context (increment init) c = (increment_context_impl_ref_count init c).1
on_context (decrement r) c = (decrement_context_impl_ref_count r c).1

-- The calls, the last one first.
unfoldable pub run : List ContextCall → ContextImpl → ContextImpl
run [] c = c
run (call ∷ calls) c = on_context call (run calls c)

-- The count does not wrap, and a context is decremented only while it is referenced and its listener
-- thread can be joined.
abbrev pub IsAllowed : List ContextCall → ContextImpl → Type 0
IsAllowed [] c = Unit
IsAllowed (increment init ∷ calls) c = ((run calls c).count + 1 < 2 ^ 64) × IsAllowed calls c
IsAllowed (decrement r ∷ calls) c =
    (0 < (run calls c).count)
    × ((run calls c).count < 2 ^ 64)
    × (r.join_listener_thread ≡ ret_ok)
    × IsAllowed calls c

-- What the last calls leave the pointers at when the context is not referenced.
abbrev pub left_at : List ContextCall → Pointers
left_at [] = null
left_at (increment not_created ∷ calls) = left_at calls
left_at (increment not_listening ∷ calls) = dangling
left_at (increment initialized ∷ calls) = alive
left_at (decrement r ∷ calls) = null

abbrev pub IsReferenced : List ContextCall → ContextImpl → Type 0
IsReferenced calls c = c.pointers ≡ (if ltb 0 c.count then alive else left_at calls)

abbrev pub new_context : ContextImpl
new_context = record { count = 0; pointers = null }

increment-IsReferenced :
    (init : Initialization) (calls : List ContextCall) (c : ContextImpl)
    → c.count + 1 < 2 ^ 64
    → IsReferenced calls c
    → IsReferenced (increment init ∷ calls) (increment_context_impl_ref_count init c).1
unfolding increment_context_impl_ref_count init_context_impl
increment-IsReferenced not_created calls c small h = ground (arith, h, small)
increment-IsReferenced not_listening calls c small h = ground (arith, h, small)
increment-IsReferenced initialized calls c small h = ground (arith, h, small)

decrement-IsReferenced :
    (r : Returned) (calls : List ContextCall) (c : ContextImpl)
    → 0 < c.count
    → c.count < 2 ^ 64
    → r.join_listener_thread ≡ ret_ok
    → IsReferenced calls c
    → IsReferenced (decrement r ∷ calls) (decrement_context_impl_ref_count r c).1
unfolding decrement_context_impl_ref_count clean_up
decrement-IsReferenced r calls c pos small joined h = rw (joined) (ground (arith, pos, small, h))

-- Whatever order a context is referenced and released in, whether its initialisations and the
-- destructions of its entities succeed or not, its pointers are to a common context and a participant
-- that exist while its count is above zero. While it is zero, they are null after the last release or
-- at the start, and after an initialisation that came as far as the listener thread and could not
-- start it, they are to objects that have been deleted, until one succeeds. This is for a context that
-- is released only while it is referenced, whose listener thread can be joined each time, and whose
-- count stays below 2 ^ 64.
pub run-IsReferenced :
    (calls : List ContextCall)
    → IsAllowed calls new_context
    → IsReferenced calls (run calls new_context)
unfolding run
run-IsReferenced [] h = refl
run-IsReferenced (increment init ∷ calls) (small, h) =
    increment-IsReferenced init calls (run calls new_context) small (run-IsReferenced calls h)
run-IsReferenced (decrement r ∷ calls) (pos, small, joined, h) =
    decrement-IsReferenced r calls (run calls new_context) pos small joined
      (run-IsReferenced calls h)
