-- ===== src/Registry/Tests.antt =====
-- The registry at concrete inputs.
use rmw_fastrtps.Prelude.{ℕ, ◌≡◌, List, [], ◌∷◌}
use rmw_fastrtps.Text.{Text}
use rmw_fastrtps.Gid.{Gid}
use rmw_fastrtps.Registry.{
  BufferEndpointInfo, Side, BufferEndpointRegistry, entries_of, unregister_callbacks,
}
use rmw_fastrtps.Registry.Fired.{Operation, register, notify}
use rmw_fastrtps.Registry.Unregister.{IsOthers, filter, is_other, unregister_callbacks-IsOthers}

abbrev gid : ℕ → Gid
gid n = record { implementation_identifier = 1; bytes = n ∷ [] }

abbrev topic : Text
topic = b'a' ∷ []

abbrev endpoint : BufferEndpointInfo
endpoint = record { gid = gid 5; topic_name = topic; backend_metadata = [] }

-- A callback before the endpoint is known, the endpoint twice, and a callback after.
abbrev operations : List Operation
operations =
    register topic (gid 1) 7 ∷ notify endpoint ∷ notify endpoint ∷ register topic (gid 2) 8 ∷ []

abbrev side : Side
side = record {
  callbacks =
      (
        topic,
        record { registrant_gid = gid 1; callback = 7 }
            ∷ record { registrant_gid = gid 2; callback = 8 }
            ∷ [],
      )
      ∷ [];
  known = endpoint ∷ [];
}

abbrev registry : BufferEndpointRegistry
registry = record { subscribers = side; publishers = side }

unregister_callbacks-IsOthers_example :
    let r = unregister_callbacks 1 (gid 1) registry in
    IsOthers 1 (gid 1) (entries_of topic r.subscribers)
    × IsOthers 1 (gid 1) (entries_of topic r.publishers)
    × (entries_of topic r.subscribers ≡ filter (is_other 1 (gid 1)) (entries_of topic side))
    × (entries_of topic r.publishers ≡ filter (is_other 1 (gid 1)) (entries_of topic side))
unregister_callbacks-IsOthers_example = unregister_callbacks-IsOthers 1 (gid 1) registry topic
