-- ===== src/TypeSupportRegistry/Tests.antt =====
-- The registry of type supports at concrete inputs.
use rmw_fastrtps.Prelude.{ℕ, ◌≡◌, refl, none, some, List, [], ◌∷◌, nat_eq, eqb, if◌then◌else◌}
use rmw_fastrtps.Prelude.Assoc.{find}
use rmw_fastrtps.TypeSupportRegistry.{
  TypesupportIdentifier, introspection_c, introspection_cpp, identifier_other, Types, cleanup,
}
use rmw_fastrtps.TypeSupportRegistry.Spec.{
  Call, get, give_back, Held, hold, run, replay, Implements,
}
use rmw_fastrtps.TypeSupportRegistry.Refinement.{run-Implements}
use rmw_fastrtps.TypeSupportRegistry.Cleanup.{empty_types, none_held, empty-Implements, run-cleanup}

-- The handle 5 is of C, the handle 9 of another kind, the others of C++.
abbrev identifier_of : ℕ → TypesupportIdentifier
identifier_of k =
    if eqb k 5 then introspection_c else if eqb k 9 then identifier_other 1 else introspection_cpp

-- Two clients share the handle 7, one has the handle 5, and one asks for the handle 9 in vain.
abbrev calls : List Call
calls = get 7 ∷ get 5 ∷ get 9 ∷ get 7 ∷ give_back 7 ∷ []

-- What is held then.
abbrev held : Held
held = hold 7 1 (hold 7 2 (hold 5 1 (hold 7 1 none_held)))

replay_calls : replay identifier_of calls none_held ≡ some held
unfolding replay
replay_calls = refl

run-Implements_example :
    (r : Types) × (run identifier_of calls empty_types ≡ some r) × Implements identifier_of held r
run-Implements_example =
    run-Implements identifier_of calls none_held held empty_types (empty-Implements identifier_of)
      replay_calls

run-cleanup_example :
    (r : Types) × (run identifier_of calls empty_types ≡ some r)
    × ((a : ℕ) → find a (cleanup r).heap.live ≡ none)
    × (((k : ℕ) → held k ≡ 0) → (a : ℕ) → find a r.heap.live ≡ none)
run-cleanup_example = run-cleanup identifier_of calls held replay_calls
