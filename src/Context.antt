-- ===== src/Context.antt =====
-- The reference count of a context: rmw_fastrtps_shared_cpp/src/init_rmw_context_impl.cpp and
-- rmw_fastrtps_cpp/src/init_rmw_context_impl.cpp. What the destructions of its entities return is an
-- argument; the mutex makes each call one step.
pub mod Cleanup
mod Tests
use rmw_fastrtps.Prelude.{
  ℕ, ◌+◌, ◌-◌, ◌%◌, ◌^◌, Bool, true, false, List, [], ◌∷◌, eqb, ltb, if◌then◌else◌, Option, none,
  some,
}
use rmw_fastrtps.Rmw.{RmwRet, ret_ok, ret_error, ret_bad_alloc}

-- What the pointers to the common context and to the participant are: null, to objects that exist, or
-- to objects that have been deleted.
pub data Pointers : Type 0 where
  null alive dangling : Pointers

-- `rmw_context_impl_t`: the count, a `uint64_t`, and its two pointers, which are set together.
pub record ContextImpl : Type 0 where
  pub count : ℕ
  pub pointers : Pointers

-- What the calls of the clean-up return.
pub record Returned : Type 0 where
  pub join_listener_thread : RmwRet
  pub destroy_subscription : RmwRet
  pub destroy_publisher : RmwRet
  pub destroy_participant : RmwRet

abbrev pub is_ok : RmwRet → Bool
is_ok ret_ok = true
is_ok error = false

-- `if (RMW_RET_OK != ret && RMW_RET_OK != err) {ret = err;}`.
abbrev pub second_error : RmwRet → RmwRet → RmwRet
second_error ret err = if is_ok ret then ret else if is_ok err then ret else err

-- What the clean-up returns: of the destructions of the subscription, the publisher and the
-- participant, and then the pointers.
unfoldable pub clean_up : Returned → Pointers → RmwRet × Pointers
clean_up r pointers =
    if is_ok r.join_listener_thread
    then (
      second_error (second_error r.destroy_subscription r.destroy_publisher) r.destroy_participant,
      null,
    )
    else (r.join_listener_thread, pointers)

unfoldable pub decrement_context_impl_ref_count : Returned → ContextImpl → RmwRet × ContextImpl
unfolding clean_up
decrement_context_impl_ref_count r c =
    let count = (c.count + (2 ^ 64 - 1)) % 2 ^ 64 in
    let (ret, pointers) = clean_up r c.pointers in
    if ltb 0 count
    then (ret_ok, record c { count = count })
    else (ret, record { count = count; pointers = pointers })

-- How far the creation of the context's objects comes: one of them is not created, or the listener
-- thread is not started, or it succeeds.
pub data Initialization : Type 0 where
  not_created not_listening initialized : Initialization

-- The pointers are set before the listener thread is started; where that fails, the objects are
-- deleted as the function returns, and the pointers stay.
unfoldable pub init_context_impl : Initialization → Pointers → RmwRet × Pointers
init_context_impl not_created pointers = (ret_bad_alloc, pointers)
init_context_impl not_listening pointers = (ret_error, dangling)
init_context_impl initialized pointers = (ret_ok, alive)

abbrev pub count_if_ok : RmwRet × Pointers → ContextImpl → RmwRet × ContextImpl
count_if_ok (ret, pointers) c =
    if is_ok ret
    then (ret_ok, record { count = (c.count + 1) % 2 ^ 64; pointers = pointers })
    else (ret, record c { pointers = pointers })

unfoldable pub increment_context_impl_ref_count :
    Initialization → ContextImpl → RmwRet × ContextImpl
unfolding init_context_impl
increment_context_impl_ref_count init c =
    let first = count_if_ok (init_context_impl init c.pointers) c in
    if eqb c.count 0 then first else (ret_ok, record c { count = (c.count + 1) % 2 ^ 64 })
