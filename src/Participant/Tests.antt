-- ===== src/Participant/Tests.antt =====
-- Topics in use, at concrete calls.
use rmw_fastrtps.Prelude.{some, none, List, [], ◌∷◌, arith}
use rmw_fastrtps.Participant.Calls.{
  TopicCall, find_or_create, delete, call_all, IsTallied, call_all-IsTallied,
}

abbrev calls : List TopicCall
calls =
    delete (b'a' ∷ []) none
    ∷ find_or_create (b'a' ∷ []) (some 3)
    ∷ find_or_create (b'b' ∷ []) none
    ∷ find_or_create (b'a' ∷ []) none
    ∷ []

call_all-IsTallied_example : IsTallied calls (call_all calls [])
call_all-IsTallied_example = call_all-IsTallied calls (omega arith)
