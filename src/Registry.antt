-- ===== src/Registry.antt =====
-- rmw_fastrtps_cpp/src/buffer_endpoint_registry.cpp. The functions for subscribers and those for
-- publishers differ in the members they use, a `Side` of the registry. A callback is the number of
-- the one registered; what an operation fires is its result, in order. The mutex makes each operation
-- one step.
pub mod Fired
pub mod Unregister
mod Tests
use rmw_fastrtps.Prelude.{
  ℕ, ◌+◌, ◌*◌, Bool, true, false, not, Option, none, some, List, [], ◌∷◌, ◌++◌, map, if◌then◌else◌,
  ◌==◌, list_eq, nat_eq,
}
use rmw_fastrtps.Prelude.Assoc.{find}
use rmw_fastrtps.Text.{Text}
use rmw_fastrtps.Rmw.{RmwRet, ret_ok}
use rmw_fastrtps.Gid.{Gid, compare_gids_equal}

pub record BufferEndpointInfo : Type 0 where
  pub gid : Gid
  pub topic_name : Text
  pub backend_metadata : List (Text × Text)

pub record CallbackEntry : Type 0 where
  pub registrant_gid : Gid
  pub callback : ℕ

pub record Side : Type 0 where
  pub callbacks : List (Text × List CallbackEntry)
  pub known : List BufferEndpointInfo

pub record BufferEndpointRegistry : Type 0 where
  pub subscribers : Side
  pub publishers : Side

-- `map[topic].push_back(entry)`.
unfoldable pub push_entry :
    Text → CallbackEntry → List (Text × List CallbackEntry) → List (Text × List CallbackEntry)
push_entry topic entry [] = (topic, entry ∷ []) ∷ []
push_entry topic entry ((t, entries) ∷ rest) =
    let later = push_entry topic entry rest in
    if t == topic then (t, entries ++ (entry ∷ [])) ∷ rest else (t, entries) ∷ later

unfoldable pub on_topic : Text → List BufferEndpointInfo → List BufferEndpointInfo
on_topic topic [] = []
on_topic topic (info ∷ known) =
    let rest = on_topic topic known in if info.topic_name == topic then info ∷ rest else rest

-- The callbacks that an operation fires, each with the endpoint it is given.
abbrev pub Firings : Type 0
Firings = List (ℕ × BufferEndpointInfo)

abbrev pub fire_on_all : ℕ → List BufferEndpointInfo → Firings
fire_on_all callback [] = []
fire_on_all callback (info ∷ infos) = (callback, info) ∷ fire_on_all callback infos

abbrev pub fire_all : List CallbackEntry → BufferEndpointInfo → Firings
fire_all [] info = []
fire_all (entry ∷ entries) info = (entry.callback, info) ∷ fire_all entries info

unfoldable pub register_discovery_callback : Text → Gid → ℕ → Side → Side × Firings
register_discovery_callback topic_name gid callback side = (
  record side {
    callbacks =
        push_entry topic_name (record { registrant_gid = gid; callback = callback }) side.callbacks;
  },
  fire_on_all callback (on_topic topic_name side.known),
)

abbrev pub entries_of : Text → Side → List CallbackEntry
entries_of topic side = elim (find topic side.callbacks) [ none ↦ [] | some entries ↦ entries ]

abbrev pub equal_result : RmwRet × Option Bool → Bool
equal_result (ret_ok, some equal) = equal
equal_result _ = false

module _ (identifier : ℕ) where
  -- The comparison, with a failure taken as a difference.
  unfoldable pub same_gid : Gid → Gid → Bool
  same_gid a b = equal_result (compare_gids_equal identifier (some a) (some b) (some false))

  unfoldable pub is_known : BufferEndpointInfo → List BufferEndpointInfo → Bool
  is_known info [] = false
  is_known info (existing ∷ known) =
      let rest = is_known info known in if same_gid existing.gid info.gid then true else rest

  unfoldable pub notify_discovered : BufferEndpointInfo → Side → Side × Firings
  notify_discovered info side = if is_known info side.known then (side, []) else (
    record side { known = side.known ++ (info ∷ []) },
    fire_all (entries_of info.topic_name side) info,
  )

  unfoldable pub remove_entries : Gid → List CallbackEntry → List CallbackEntry
  remove_entries gid [] = []
  remove_entries gid (e ∷ entries) =
      let rest = remove_entries gid entries in
      if same_gid e.registrant_gid gid then rest else e ∷ rest

  unfoldable pub remove_from :
      Gid → List (Text × List CallbackEntry) → List (Text × List CallbackEntry)
  remove_from gid [] = []
  remove_from gid ((topic, entries) ∷ rest) =
      (topic, remove_entries gid entries) ∷ remove_from gid rest

  unfoldable pub unregister_callbacks : Gid → BufferEndpointRegistry → BufferEndpointRegistry
  unregister_callbacks gid r = record {
    subscribers = record (r.subscribers) { callbacks = remove_from gid r.subscribers.callbacks };
    publishers = record (r.publishers) { callbacks = remove_from gid r.publishers.callbacks };
  }
