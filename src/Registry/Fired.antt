-- ===== src/Registry/Fired.antt =====
-- What the registry has fired, whatever the order of registrations and discoveries.
use rmw_fastrtps.Prelude.{
  ℕ, ◌+◌, ◌*◌, Bool, true, false, ◌&&◌, none, some, List, [], ◌∷◌, ◌++◌, ◌==◌, list_eq, nat_eq,
}
use rmw_fastrtps.Prelude.Assoc.{find}
use rmw_fastrtps.Text.{Text}
use rmw_fastrtps.Gid.{Gid}
use rmw_fastrtps.Registry.{
  BufferEndpointInfo, CallbackEntry, Side, Firings, register_discovery_callback, entries_of,
  notify_discovered,
}

abbrev one_if : Bool → ℕ
one_if true = 1
one_if false = 0

-- How many of the firings are of a callback and for an endpoint that are asked for, and how many
-- entries and endpoints are.
abbrev pub count_firings : (ℕ → Bool) → (BufferEndpointInfo → Bool) → Firings → ℕ
count_firings p q [] = 0
count_firings p q ((c, i) ∷ log) = one_if (p c && q i) + count_firings p q log

abbrev pub count_entries : (ℕ → Bool) → List CallbackEntry → ℕ
count_entries p [] = 0
count_entries p (e ∷ entries) = one_if (p e.callback) + count_entries p entries

abbrev pub count_infos : (BufferEndpointInfo → Bool) → List BufferEndpointInfo → ℕ
count_infos q [] = 0
count_infos q (i ∷ infos) = one_if (q i) + count_infos q infos

-- The endpoints of one topic.
abbrev pub at_topic : Text → (BufferEndpointInfo → Bool) → BufferEndpointInfo → Bool
at_topic topic q i = (i.topic_name == topic) && q i

abbrev pub entries_at : Text → List (Text × List CallbackEntry) → List CallbackEntry
entries_at topic m = elim (find topic m) [ none ↦ [] | some entries ↦ entries ]

-- A registration or a notification of one side.
pub data Operation : Type 0 where
  register : Text → Gid → ℕ → Operation
  notify : BufferEndpointInfo → Operation

abbrev pub operate : ℕ → Operation → Side → Side × Firings
operate identifier (register topic gid callback) side =
    register_discovery_callback topic gid callback side
operate identifier (notify info) side = notify_discovered identifier info side

-- The side after some operations, with all that they have fired.
abbrev pub run : ℕ → List Operation → Side → Side × Firings
run identifier [] side = (side, [])
run identifier (o ∷ os) side =
    let now = operate identifier o side in
    let later = run identifier os now.0 in (later.0, now.1 ++ later.1)

module _ (identifier : ℕ) (topic : Text) (p : ℕ → Bool) (q : BufferEndpointInfo → Bool) where
  -- The entries of the topic times the known endpoints of the topic, those that are asked for.
  abbrev pub pairs : Side → ℕ
  pairs side = count_entries p (entries_of topic side) * count_infos (at_topic topic q) side.known
