-- ===== src/Participant.antt =====
-- The topics that a participant has in use: `CustomTopicListener`, `UseCountTopic` and
-- `CustomParticipantInfo` of rmw_fastrtps_shared_cpp/include/rmw_fastrtps_shared_cpp/
-- custom_participant_info.hpp, src/custom_participant_info.cpp, and `find_and_check_topic_and_type`
-- and `remove_topic_and_type` of src/utils.cpp. A topic is its name, for a participant has one topic
-- of a name; an event listener is its address. `size_t` wraps at 2 ^ 64.
pub mod Topics
pub mod Calls
mod Tests
use rmw_fastrtps.Prelude.{
  ℕ, ◌+◌, ◌-◌, ◌%◌, ◌^◌, Bool, true, false, not, Option, none, some, List, [], ◌∷◌, eqb,
  if◌then◌else◌, ◌==◌, nat_eq, list_eq,
}
use rmw_fastrtps.Prelude.Assoc.{find, erase, assign, insert, remove}
use rmw_fastrtps.Text.{Text}

pub record UseCountTopic : Type 0 where
  pub event_listeners : List ℕ
  pub use_count : ℕ

-- `topic_name_to_topic_`.
abbrev pub TopicMap : Type 0
TopicMap = List (Text × UseCountTopic)

unfoldable pub add_event_listener : Option ℕ → List ℕ → List ℕ
unfolding insert
add_event_listener none listeners = listeners
add_event_listener (some l) listeners = insert l listeners

unfoldable pub remove_event_listener : Option ℕ → List ℕ → List ℕ
unfolding remove
remove_event_listener none listeners = listeners
remove_event_listener (some l) listeners = remove l listeners

-- `create_topic` tells whether Fast DDS creates the topic. Where it does not, the code sets the
-- listener of a null topic, and the result is `none`.
unfoldable pub find_or_create_topic : (Text → Bool) → Text → Option ℕ → TopicMap → Option TopicMap
unfolding find assign add_event_listener
find_or_create_topic create_topic topic_name event_listener topics = elim (find topic_name topics) [
  | none ↦
      if create_topic topic_name
      then some (
          assign topic_name
            (record { event_listeners = add_event_listener event_listener []; use_count = 1 })
            topics)
      else none
  | some it ↦ some (
      assign topic_name
        (record {
          event_listeners = add_event_listener event_listener it.event_listeners;
          use_count = (it.use_count + 1) % 2 ^ 64;
        })
        topics)
]

-- `--` on a `size_t`.
abbrev pub decremented : ℕ → ℕ
decremented n = if eqb n 0 then 2 ^ 64 - 1 else n - 1

unfoldable pub delete_topic : Text → Option ℕ → TopicMap → TopicMap
unfolding find erase assign remove_event_listener
delete_topic topic_name event_listener topics = elim (find topic_name topics) [
  | none ↦ topics
  | some it ↦
      let use_count = decremented it.use_count in
      if eqb use_count 0
      then erase topic_name topics
      else assign topic_name
          (record {
            event_listeners = remove_event_listener event_listener it.event_listeners;
            use_count = use_count;
          })
          topics
]

-- What `lookup_topicdescription` and `find_type` answer: the type name of the topic that is there,
-- and whether the type is registered. The result is `none` where the type is another one.
unfoldable pub find_and_check_topic_and_type : Option Text → Bool → Text → Option Bool
find_and_check_topic_and_type none type_found type_name = some type_found
find_and_check_topic_and_type (some topic_type) type_found type_name =
    if not (topic_type == type_name) then none else some type_found

-- The topic is `none` where the pointer is null. The type is unregistered with Fast DDS, which keeps
-- a type that a topic uses; its registry is not tracked.
unfoldable pub remove_topic_and_type : Option ℕ → Option Text → TopicMap → TopicMap
unfolding delete_topic
remove_topic_and_type event_listener none topics = topics
remove_topic_and_type event_listener (some topic_name) topics =
    delete_topic topic_name event_listener topics
