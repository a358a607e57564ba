-- ===== src/Context/Tests.antt =====
-- A context at concrete inputs.
use rmw_fastrtps.Prelude.{◌≡◌, refl, List, [], ◌∷◌, arith}
use rmw_fastrtps.Rmw.{ret_ok, ret_error}
use rmw_fastrtps.Context.{
  dangling, not_created, not_listening, initialized, Returned, increment_context_impl_ref_count,
  decrement_context_impl_ref_count,
}
use rmw_fastrtps.Context.Cleanup.{
  ContextCall, increment, decrement, run, IsAllowed, IsReferenced, new_context, run-IsReferenced,
}

abbrev publisher_fails : Returned
publisher_fails = record {
  join_listener_thread = ret_ok;
  destroy_subscription = ret_ok;
  destroy_publisher = ret_error;
  destroy_participant = ret_ok;
}

-- An initialisation that fails, two references, two releases, and an initialisation that fails late.
abbrev calls : List ContextCall
calls =
    increment not_listening
    ∷ decrement publisher_fails
    ∷ decrement publisher_fails
    ∷ increment initialized
    ∷ increment initialized
    ∷ increment not_created
    ∷ []

calls-IsAllowed : IsAllowed calls new_context
unfolding run increment_context_impl_ref_count decrement_context_impl_ref_count
calls-IsAllowed = (
  omega arith,
  (
    omega arith,
    omega arith,
    refl,
    (omega arith, omega arith, refl, (omega arith, (omega arith, (omega arith, tt)))),
  ),
)

left_dangling : run calls new_context ≡ record { count = 0; pointers = dangling }
unfolding run increment_context_impl_ref_count decrement_context_impl_ref_count
left_dangling = refl

run-IsReferenced_example : IsReferenced calls (run calls new_context)
run-IsReferenced_example = run-IsReferenced calls calls-IsAllowed
