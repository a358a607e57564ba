-- ===== src/Names/Prefix.antt =====
-- The prefixes of namespace_prefix.cpp, and the names of topics.
use rmw_fastrtps.Prelude.{
  ◌+◌, ◌≤◌, ◌≡◌, ◌≢◌, refl, sym, true, false, Option, none, some, List, [], ◌∷◌, ◌++◌, arith,
  length, length-append, drop, drop_append,
}
use mathlib.Core.List.{append_assoc, append-nil}
use rmw_fastrtps.Text.{Text, starts_with}
use rmw_fastrtps.Text.Search.{starts_with_sound, starts_with_left, starts_with-append}
use rmw_fastrtps.Names.{
  slash, ros_topic_prefix, ros_prefixes, or_nothing, first_prefix, strip_first,
  get_ros_prefix_if_exists, strip_ros_prefix_if_exists, resolve_prefix,
  demangle_ros_topic_from_topic, mangle_topic_name, create_topic_name,
}

split_prefix :
    (prefix name : Text)
    → starts_with (prefix ++ slash ∷ []) name ≡ true
    → prefix ++ drop (length prefix) name ≡ name
split_prefix prefix name h =
    sym (starts_with_sound prefix name (starts_with_left prefix (slash ∷ []) name h))

first_prefix-strip_first :
    (prefixes : List Text) (name : Text)
    → first_prefix prefixes name ++ strip_first prefixes name ≡ name
unfolding first_prefix strip_first
first_prefix-strip_first [] name = refl
first_prefix-strip_first (prefix ∷ rest) name =
    ground (arith, first_prefix-strip_first rest name, split_prefix prefix name)

-- Every name is its ROS prefix followed by what stripping leaves of it: stripping takes away exactly
-- the prefix that is reported, and nothing where none is.
pub get_prefix-strip_prefix :
    (topic_name : Text)
    → get_ros_prefix_if_exists topic_name ++ strip_ros_prefix_if_exists topic_name ≡ topic_name
unfolding get_ros_prefix_if_exists strip_ros_prefix_if_exists
get_prefix-strip_prefix topic_name = first_prefix-strip_first ros_prefixes topic_name

-- Only a name that begins with the prefix and a slash is resolved, and then to what follows.
pub resolve_prefix-append :
    (prefix base : Text) → resolve_prefix (prefix ++ (slash ∷ base)) prefix ≡ slash ∷ base
unfolding resolve_prefix
resolve_prefix-append prefix base =
    rw
      (
        ← append_assoc prefix (slash ∷ []) base,
        starts_with-append (prefix ++ slash ∷ []) base,
        append_assoc prefix (slash ∷ []) base,
      )
      (drop_append prefix (slash ∷ base))

pub resolve_prefix_sound :
    (prefix name : Text)
    → resolve_prefix name prefix ≢ []
    → prefix ++ resolve_prefix name prefix ≡ name
unfolding resolve_prefix
resolve_prefix_sound prefix name h = ground (arith, split_prefix prefix name)

module _ (string_255 : Text → Text) (fits : (s : Text) → length s ≤ 255 → string_255 s ≡ s) where
  -- A name that fits is the prefix, the base and the suffix in a row.
  pub mangle_topic_name_lem :
      (prefix : Option Text) (base : Text) (suffix : Option Text)
      → length (or_nothing prefix) + length base + length (or_nothing suffix) ≤ 255
      → mangle_topic_name string_255 prefix base suffix
        ≡ or_nothing prefix ++ (base ++ or_nothing suffix)
  unfolding mangle_topic_name
  mangle_topic_name_lem prefix base suffix h =
      fits (or_nothing prefix ++ (base ++ or_nothing suffix)) (
        omega (
          arith,
          h,
          length-append (or_nothing prefix) (base ++ or_nothing suffix),
          length-append base (or_nothing suffix),
        ))

  -- A topic name that a slash begins and that is short enough, mangled with the topic prefix,
  -- demangles to itself; with `avoid_ros_namespace_conventions` it stays as it is.
  pub demangle-create_topic_name :
      (base : Text)
      → length base ≤ 252
      → (demangle_ros_topic_from_topic
            (create_topic_name string_255 false (some ros_topic_prefix) (slash ∷ base) none)
          ≡ slash ∷ base)
        × (create_topic_name string_255 true (some ros_topic_prefix) (slash ∷ base) none
            ≡ slash ∷ base)
  unfolding demangle_ros_topic_from_topic
  demangle-create_topic_name base h = (
    unfold create_topic_name in
        rw (mangle_topic_name_lem (some ros_topic_prefix) (slash ∷ base) none (omega arith))
          (simp append-nil (resolve_prefix-append ros_topic_prefix base)),
    unfold create_topic_name in
        rw (mangle_topic_name_lem none (slash ∷ base) none (omega arith)) (simp append-nil),
  )
