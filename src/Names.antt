-- ===== src/Names.antt =====
-- rmw_fastrtps_shared_cpp/src/namespace_prefix.cpp, src/demangle.cpp and
-- include/rmw_fastrtps_shared_cpp/names.hpp: how the ROS names of topics, services and types are
-- written as DDS names, and read back.
pub mod Prefix
pub mod Service
pub mod Types
mod Tests
use rmw_fastrtps.Prelude.{
  ℕ, ◌+◌, ◌-◌, Bool, true, false, not, Option, none, some, List, [], ◌∷◌, ◌++◌, length, take, drop,
  eqb, if◌then◌else◌,
}
use rmw_fastrtps.Text.{Text, starts_with, find, rfind, substr, is_empty, size_sub}

abbrev pub slash : ℕ
slash = b'/'

abbrev pub ros_topic_prefix : Text
ros_topic_prefix = b'r' ∷ b't' ∷ []

abbrev pub ros_service_requester_prefix : Text
ros_service_requester_prefix = b'r' ∷ b'q' ∷ []

abbrev pub ros_service_response_prefix : Text
ros_service_response_prefix = b'r' ∷ b'r' ∷ []

abbrev pub ros_prefixes : List Text
ros_prefixes = ros_topic_prefix ∷ ros_service_requester_prefix ∷ ros_service_response_prefix ∷ []

-- "Request" and "Reply".
abbrev pub request_suffix : Text
request_suffix = b'R' ∷ b'e' ∷ b'q' ∷ b'u' ∷ b'e' ∷ b's' ∷ b't' ∷ []

abbrev pub reply_suffix : Text
reply_suffix = b'R' ∷ b'e' ∷ b'p' ∷ b'l' ∷ b'y' ∷ []

-- "dds_::", "_Response_", "_Request_", "::" and "/".
abbrev pub dds_namespace : Text
dds_namespace = b'd' ∷ b'd' ∷ b's' ∷ b'_' ∷ b':' ∷ b':' ∷ []

abbrev pub response_type_suffix : Text
response_type_suffix = b'_' ∷ b'R' ∷ b'e' ∷ b's' ∷ b'p' ∷ b'o' ∷ b'n' ∷ b's' ∷ b'e' ∷ b'_' ∷ []

abbrev pub request_type_suffix : Text
request_type_suffix = b'_' ∷ b'R' ∷ b'e' ∷ b'q' ∷ b'u' ∷ b'e' ∷ b's' ∷ b't' ∷ b'_' ∷ []

abbrev pub scope : Text
scope = b':' ∷ b':' ∷ []

pub resolve_prefix : Text → Text → Text
resolve_prefix name prefix =
    if starts_with (prefix ++ slash ∷ []) name then drop (length prefix) name else []

-- The loops over `_ros_prefixes`.
pub first_prefix : List Text → Text → Text
first_prefix [] topic_name = []
first_prefix (prefix ∷ rest) topic_name =
    let next = first_prefix rest topic_name in
    if starts_with (prefix ++ slash ∷ []) topic_name then prefix else next

pub strip_first : List Text → Text → Text
strip_first [] topic_name = topic_name
strip_first (prefix ∷ rest) topic_name =
    let next = strip_first rest topic_name in
    if starts_with (prefix ++ slash ∷ []) topic_name then drop (length prefix) topic_name else next

pub get_ros_prefix_if_exists : Text → Text
unfolding first_prefix
get_ros_prefix_if_exists topic_name = first_prefix ros_prefixes topic_name

pub strip_ros_prefix_if_exists : Text → Text
unfolding strip_first
strip_ros_prefix_if_exists topic_name = strip_first ros_prefixes topic_name

pub demangle_if_ros_topic : Text → Text
unfolding strip_ros_prefix_if_exists
demangle_if_ros_topic topic_name = strip_ros_prefix_if_exists topic_name

pub demangle_ros_topic_from_topic : Text → Text
unfolding resolve_prefix
demangle_ros_topic_from_topic topic_name = resolve_prefix topic_name ros_topic_prefix

-- The part of `_demangle_service_from_topic` behind `_resolve_prefix`.
pub without_suffix : Text → Text → Text
without_suffix service_name suffix =
    if is_empty service_name then [] else elim (rfind suffix service_name) [
      | some suffix_position ↦
          if not (eqb (length service_name - suffix_position - length suffix) 0)
          then []
          else take suffix_position service_name
      | none ↦ []
    ]

pub demangle_service : Text → Text → Text → Text
demangle_service prefix topic_name suffix = without_suffix (resolve_prefix topic_name prefix) suffix

pub demangle_service_request_from_topic : Text → Text
demangle_service_request_from_topic topic_name =
    demangle_service ros_service_requester_prefix topic_name request_suffix

pub demangle_service_reply_from_topic : Text → Text
demangle_service_reply_from_topic topic_name =
    demangle_service ros_service_response_prefix topic_name reply_suffix

pub demangle_service_from_topic : Text → Text
demangle_service_from_topic topic_name =
    let demangled_topic = demangle_service_reply_from_topic topic_name in
    if not (is_empty demangled_topic)
    then demangled_topic
    else demangle_service_request_from_topic topic_name

-- The last byte; `none` where the source reads before the first one.
pub get_last? : Text → Option ℕ
get_last? [] = none
get_last? (c ∷ []) = some c
get_last? (c ∷ d ∷ s) = get_last? (d ∷ s)

-- `rcpputils::find_and_replace` is the parameter `replace`.
module _ (replace : Text → Text → Text → Text) where
  -- `none` is the read out of range that the source makes at an empty name.
  pub demangle_if_ros_type : Text → Option Text
  demangle_if_ros_type dds_type_string = elim (get_last? dds_type_string) [
    | none ↦ none
    | some c ↦
        if not (eqb c b'_')
        then some dds_type_string
        else elim (find dds_namespace dds_type_string) [
          | none ↦ some dds_type_string
          | some substring_position ↦
              let start = substring_position + length dds_namespace in
              some (
                replace (take substring_position dds_type_string) scope (slash ∷ [])
                ++ substr dds_type_string start (length dds_type_string - 1 - start))
        ]
  ]

-- The loop over the two suffixes: a suffix that stands elsewhere than at the end is passed over, but
-- its position stays in `suffix_position`.
pub scan_suffixes : List Text → Text → Option ℕ → Option ℕ
scan_suffixes [] dds_type_name suffix_position = suffix_position
scan_suffixes (suffix ∷ rest) dds_type_name suffix_position = elim (rfind suffix dds_type_name) [
  | some q ↦
      let next = scan_suffixes rest dds_type_name (some q) in
      if not (eqb (length dds_type_name - q - length suffix) 0) then next else some q
  | none ↦ scan_suffixes rest dds_type_name none
]

module _ (replace : Text → Text → Text → Text) where
  pub demangle_service_type_only : Text → Text
  unfolding scan_suffixes
  demangle_service_type_only dds_type_name = elim (find dds_namespace dds_type_name) [
    | none ↦ []
    | some ns_substring_position ↦
        let suffixes = response_type_suffix ∷ request_type_suffix ∷ [] in
        elim (scan_suffixes suffixes dds_type_name (some 0)) [
          | none ↦ []
          | some suffix_position ↦
              let start = ns_substring_position + length dds_namespace in
              replace (take ns_substring_position dds_type_name) scope (slash ∷ [])
              ++ substr dds_type_name start (size_sub suffix_position start)
        ]
  ]

pub identity_demangle : Text → Text
identity_demangle name = name

abbrev pub or_nothing : Option Text → Text
or_nothing none = []
or_nothing (some s) = s

-- `eprosima::fastcdr::string_255` is the parameter `string_255`.
module _ (string_255 : Text → Text) where
  pub mangle_topic_name : Option Text → Text → Option Text → Text
  mangle_topic_name prefix base suffix =
      string_255 (or_nothing prefix ++ (base ++ or_nothing suffix))

  pub create_topic_name : Bool → Option Text → Text → Option Text → Text
  unfolding mangle_topic_name
  create_topic_name avoid_ros_namespace_conventions prefix base suffix =
      mangle_topic_name (if avoid_ros_namespace_conventions then none else prefix) base suffix
