-- ===== src/Creation.antt =====
-- The creation of a client or a service, with the scope exits that undo it, and the destruction:
-- rmw_fastrtps_cpp/src/rmw_client.cpp, src/rmw_service.cpp, and rmw_fastrtps_shared_cpp/src/
-- rmw_client.cpp. What the allocator, Fast DDS, the validation of names and the graph cache answer is
-- an argument. The state counts the objects of each kind that exist, beside the topics in use.
pub mod Client
pub mod Triples
pub mod Owned
pub mod TopicSteps
pub mod Restored
pub mod AllOrNothing
pub mod Destruction
mod Tests
use rmw_fastrtps.Prelude.{Bool, true, false, if◌then◌else◌}

-- How a piece of the code ends: it goes on, returns null, or uses a null pointer.
pub data Outcome : Type 0 where
  done failed crashed : Outcome

abbrev pub Step : Type 0 → Type 0
Step S = S → Outcome × S

module _ {S : Type 0} where
  abbrev pub go_on : Step S → Outcome × S → Outcome × S
  go_on g (done, s) = g s
  go_on g (failed, s) = (failed, s)
  go_on g (crashed, s) = (crashed, s)

  infixr 30 ◌⟫◌
  unfoldable pub ◌⟫◌ : Step S → Step S → Step S
  (f ⟫ g) s = go_on g (f s)

  -- `if (!b) {return nullptr;}`.
  unfoldable pub check : Bool → Step S
  check b s = if b then (done, s) else (failed, s)

  abbrev pub undo : (S → S) → Outcome × S → Outcome × S
  undo cleanup (done, s) = (done, s)
  undo cleanup (failed, s) = (failed, cleanup s)
  undo cleanup (crashed, s) = (crashed, s)

  -- A `rcpputils::make_scope_exit` that is cancelled where all that follows succeeds.
  unfoldable pub scope_exit : (S → S) → Step S → Step S
  scope_exit cleanup f s = undo cleanup (f s)
