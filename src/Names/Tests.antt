-- ===== src/Names/Tests.antt =====
-- The names at concrete inputs.
use Prim.Native.Char.{code}
use Prim.Native.String.{String, [] as end_of_text, ◌∷◌ as char_then}
use rmw_fastrtps.Prelude.{
  ◌≤◌, ◌≡◌, ◌≢◌, refl, ◌⊎◌, false, true, none, some, [], ◌∷◌, ◌++◌, arith, take, take_all, length,
}
use rmw_fastrtps.Text.{Text, starts_with, find, rfind, is_empty}
use rmw_fastrtps.Names.{
  slash, ros_topic_prefix, ros_service_requester_prefix, ros_service_response_prefix,
  request_suffix, reply_suffix, demangle_ros_topic_from_topic, create_topic_name, mangle_topic_name,
  demangle_service_from_topic, demangle_service_type_only, resolve_prefix, without_suffix,
  demangle_service, demangle_service_reply_from_topic, demangle_service_request_from_topic,
}
use rmw_fastrtps.Names.Prefix.{demangle-create_topic_name}
use rmw_fastrtps.Names.Service.{demangle-mangle_service, demangle_service_from_topic_sound}
use rmw_fastrtps.Names.Types.{demangle_service_type_only_misplaced}

abbrev bytes : String → Text
bytes end_of_text = []
bytes (char_then c s) = code c ∷ bytes s

abbrev cut_255 : Text → Text
cut_255 s = take 255 s

cut_255_fits : (s : Text) → length s ≤ 255 → cut_255 s ≡ s
cut_255_fits s h = take_all 255 s h

-- A replacement for names in which the pattern does not stand but at the end.
abbrev as_path : Text → Text → Text → Text
as_path [] pattern by = []
as_path (c ∷ []) pattern by = []
as_path (c ∷ d ∷ []) pattern by = by
as_path (c ∷ d ∷ s) pattern by = c ∷ as_path (d ∷ s) pattern by

demangle-create_topic_name_example :
    (demangle_ros_topic_from_topic
        (create_topic_name cut_255 false (some ros_topic_prefix) (slash ∷ bytes "chatter") none)
      ≡ slash ∷ bytes "chatter")
    × (create_topic_name cut_255 true (some ros_topic_prefix) (slash ∷ bytes "chatter") none
        ≡ slash ∷ bytes "chatter")
demangle-create_topic_name_example =
    demangle-create_topic_name cut_255 cut_255_fits (bytes "chatter") (omega arith)

abbrev add_request : Text
add_request =
    mangle_topic_name cut_255 (some ros_service_requester_prefix) (slash ∷ bytes "add")
      (some request_suffix)

abbrev add_reply : Text
add_reply =
    mangle_topic_name cut_255 (some ros_service_response_prefix) (slash ∷ bytes "add")
      (some reply_suffix)

demangle-mangle_service_example :
    (demangle_service_from_topic add_request ≡ slash ∷ bytes "add")
    × (demangle_service_from_topic add_reply ≡ slash ∷ bytes "add")
    × (demangle_service_request_from_topic add_request ≡ slash ∷ bytes "add")
    × (demangle_service_reply_from_topic add_reply ≡ slash ∷ bytes "add")
    × (demangle_service_reply_from_topic add_request ≡ [])
    × (demangle_service_request_from_topic add_reply ≡ [])
    × (demangle_ros_topic_from_topic add_request ≡ [])
    × (demangle_ros_topic_from_topic add_reply ≡ [])
demangle-mangle_service_example =
    demangle-mangle_service cut_255 cut_255_fits (bytes "add") (omega arith)

add_is_read : demangle_service_from_topic (bytes "rr/addReply") ≢ []
unfolding demangle_service_from_topic demangle_service_reply_from_topic demangle_service
    resolve_prefix without_suffix starts_with rfind is_empty
add_is_read e = cc

demangle_service_from_topic_sound_example :
    (ros_service_response_prefix
        ++ (demangle_service_from_topic (bytes "rr/addReply") ++ reply_suffix)
      ≡ bytes "rr/addReply")
    ⊎ (ros_service_requester_prefix
          ++ (demangle_service_from_topic (bytes "rr/addReply") ++ request_suffix)
        ≡ bytes "rr/addReply")
demangle_service_from_topic_sound_example =
    demangle_service_from_topic_sound (bytes "rr/addReply") add_is_read

demangle_service_type_only_misplaced_example :
    demangle_service_type_only as_path (bytes "dds_::Add_Request_Extra_") ≡ [] ++ bytes "Add"
unfolding find rfind starts_with
demangle_service_type_only_misplaced_example =
    demangle_service_type_only_misplaced as_path (bytes "dds_::Add_Request_Extra_") 0 9 refl refl
      refl (omega arith) (omega arith) (omega arith)
