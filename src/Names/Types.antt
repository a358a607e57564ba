-- ===== src/Names/Types.antt =====
-- The names of types (demangle.cpp).
use rmw_fastrtps.Prelude.{
  ℕ, ◌+◌, ◌-◌, ◌^◌, ◌<◌, ◌≤◌, ◌≡◌, ◌≢◌, refl, sym, ap, ◌∙◌, Option, none, some, [], ◌∷◌, ◌++◌, ◌⊎◌,
  inl, inr, arith, length, length-append, take, drop, take_append, drop_append, drop_append_le,
  drop_add, length-drop, get_elem?, Option-cases, eqb_iff,
}
use mathlib.Core.List.{append_assoc}
use rmw_fastrtps.Text.{Text, find, rfind, substr, size_sub}
use rmw_fastrtps.Text.Search.{starts_with_end, rfind_end, rfind_sound}
use rmw_fastrtps.Names.{
  slash, scope, dds_namespace, response_type_suffix, request_type_suffix, get_last?,
  demangle_if_ros_type, demangle_service_type_only, scan_suffixes,
}

get_last?-append : (s : Text) (c : ℕ) → get_last? (s ++ c ∷ []) ≡ some c
unfolding get_last?
get_last?-append [] c = refl
get_last?-append (a ∷ []) c = refl
get_last?-append (a ∷ b ∷ s) c = get_last?-append (b ∷ s) c

middle :
    (front d body back : Text)
    → substr (front ++ (d ++ (body ++ back))) (length front + length d) (length body) ≡ body
middle front d body back =
    rw
      (
        drop_add (length front) (length d),
        drop_append front (d ++ (body ++ back)),
        drop_append d (body ++ back),
      )
      (take_append body back)

ends_with_underscore :
    (namespace name : Text)
    → get_last? (namespace ++ (dds_namespace ++ (name ++ b'_' ∷ []))) ≡ some b'_'
ends_with_underscore namespace name =
    rw
      (
        ← append_assoc dds_namespace name (b'_' ∷ []),
        ← append_assoc namespace (dds_namespace ++ name) (b'_' ∷ []),
      )
      (get_last?-append (namespace ++ (dds_namespace ++ name)) b'_')

name_length :
    (namespace name : Text)
    → length (namespace ++ (dds_namespace ++ (name ++ b'_' ∷ [])))
        - 1
        - (length namespace + length dds_namespace)
      ≡ length name
name_length namespace name = omega (
  arith,
  length-append namespace (dds_namespace ++ (name ++ b'_' ∷ [])),
  length-append name (b'_' ∷ []),
)

-- A name that does not end in an underscore, or in which "dds_::" does not stand, is no ROS type and
-- stays as it is.
pub demangle_if_ros_type_other :
    (replace : Text → Text → Text → Text) (name : Text) (c : ℕ)
    → get_last? name ≡ some c
    → (c ≢ b'_') ⊎ (find dds_namespace name ≡ none)
    → demangle_if_ros_type replace name ≡ some name
unfolding demangle_if_ros_type
demangle_if_ros_type_other replace name c h (inl other) =
    rw (h, demangle_if_ros_type) (ground (arith, eqb_iff c b'_'))
demangle_if_ros_type_other replace name c h (inr absent) =
    rw (h, absent, demangle_if_ros_type) (ground arith)

-- A namespace, "dds_::", a type and an underscore, where "dds_::" does not stand any earlier,
-- demangle to the namespace with its "::" replaced and the type.
pub demangle_if_ros_type_lem :
    (replace : Text → Text → Text → Text) (namespace name : Text)
    → let whole = namespace ++ (dds_namespace ++ (name ++ b'_' ∷ [])) in
      find dds_namespace whole ≡ some (length namespace)
      → demangle_if_ros_type replace whole ≡ some (replace namespace scope (slash ∷ []) ++ name)
unfolding demangle_if_ros_type
demangle_if_ros_type_lem replace namespace name h =
    rw (ends_with_underscore namespace name, h, demangle_if_ros_type)
      (rw (
        take_append namespace (dds_namespace ++ (name ++ b'_' ∷ [])),
        name_length namespace name,
        middle namespace dds_namespace name (b'_' ∷ []),
      ))

-- "_Response_" does not stand at the end of what ends in "_Request_".
no_response_at_end :
    (x : Text) (q : ℕ)
    → rfind response_type_suffix (x ++ request_type_suffix) ≡ some q
    → length (x ++ request_type_suffix) - q - length response_type_suffix ≢ 0
no_response_at_end x q h short =
    let whole = x ++ request_type_suffix in
    let (at, within) = rfind_sound response_type_suffix whole q h in
    let whole_length = length-append x request_type_suffix in
    let tail : drop q x ++ request_type_suffix ≡ response_type_suffix =
      sym (drop_append_le q x request_type_suffix (omega arith))
      ∙ starts_with_end response_type_suffix (drop q whole) at
          (omega (arith, length-drop q whole)) in
    one_more (drop q x) (omega (arith, length-drop q x)) tail
  where
    one_more : (z : Text) → length z ≡ 1 → z ++ request_type_suffix ≡ response_type_suffix → ⊥
    one_more [] l e = omega arith
    one_more (c ∷ []) l e = ground (arith, ap (λ (s : Text). get_elem? s 1) e)
    one_more (c ∷ d ∷ z) l e = omega arith

scan_response :
    (x : Text)
    → scan_suffixes
        (response_type_suffix ∷ request_type_suffix ∷ [])
        (x ++ response_type_suffix)
        (some 0)
      ≡ some (length x)
unfolding scan_suffixes
scan_response x =
    rw (rfind_end x b'_' (drop 1 response_type_suffix), scan_suffixes)
      (ground (arith, length-append x response_type_suffix))

scan_request_only :
    (x : Text) (p : Option ℕ)
    → scan_suffixes (request_type_suffix ∷ []) (x ++ request_type_suffix) p ≡ some (length x)
unfolding scan_suffixes
scan_request_only x p =
    rw (rfind_end x b'_' (drop 1 request_type_suffix), scan_suffixes)
      (ground (arith, length-append x request_type_suffix))

scan_request :
    (x : Text)
    → scan_suffixes
        (response_type_suffix ∷ request_type_suffix ∷ [])
        (x ++ request_type_suffix)
        (some 0)
      ≡ some (length x)
unfolding scan_suffixes
scan_request x = elim (Option-cases (rfind response_type_suffix (x ++ request_type_suffix))) [
  | inl e ↦ rw (e, scan_suffixes) (scan_request_only x none)
  | inr (q, e) ↦
      rw (e, scan_suffixes) (ground (arith, no_response_at_end x q e, scan_request_only x (some q)))
]

scan_suffix :
    (x suffix : Text)
    → (suffix ≡ response_type_suffix) ⊎ (suffix ≡ request_type_suffix)
    → scan_suffixes (response_type_suffix ∷ request_type_suffix ∷ []) (x ++ suffix) (some 0)
      ≡ some (length x)
scan_suffix x suffix (inl e) = rw e (scan_response x)
scan_suffix x suffix (inr e) = rw e (scan_request x)

grouped :
    (namespace name suffix : Text)
    → namespace ++ (dds_namespace ++ (name ++ suffix))
      ≡ (namespace ++ (dds_namespace ++ name)) ++ suffix
grouped namespace name suffix =
    rw (
      append_assoc namespace (dds_namespace ++ name) suffix,
      append_assoc dds_namespace name suffix,
    )

service_type_at :
    (replace : Text → Text → Text → Text) (namespace name suffix : Text)
    → let whole = namespace ++ (dds_namespace ++ (name ++ suffix)) in
      find dds_namespace whole ≡ some (length namespace)
      → length whole < 2 ^ 64
      → scan_suffixes (response_type_suffix ∷ request_type_suffix ∷ []) whole (some 0)
        ≡ some (length (namespace ++ (dds_namespace ++ name)))
      → demangle_service_type_only replace whole ≡ replace namespace scope (slash ∷ []) ++ name
unfolding demangle_service_type_only
service_type_at replace namespace name suffix at short scanned =
    rw (at, scanned, demangle_service_type_only)
      (rw (
        take_append namespace (dds_namespace ++ (name ++ suffix)),
        name_count,
        middle namespace dds_namespace name suffix,
      ))
  where
    name_count :
        size_sub
          (length (namespace ++ (dds_namespace ++ name)))
          (length namespace + length dds_namespace)
        ≡ length name
    name_count = omega (
      arith,
      length-append namespace (dds_namespace ++ name),
      length-append namespace (dds_namespace ++ (name ++ suffix)),
      length-append name suffix,
    )

-- A namespace, "dds_::", a type and one of the two suffixes of the types of a service, where "dds_::"
-- does not stand any earlier and the length is a `size_t`, demangle to the namespace with its "::"
-- replaced and the type.
pub demangle_service_type_only_lem :
    (replace : Text → Text → Text → Text) (namespace name suffix : Text)
    → let whole = namespace ++ (dds_namespace ++ (name ++ suffix)) in
      (suffix ≡ response_type_suffix) ⊎ (suffix ≡ request_type_suffix)
      → find dds_namespace whole ≡ some (length namespace)
      → length whole < 2 ^ 64
      → demangle_service_type_only replace whole ≡ replace namespace scope (slash ∷ []) ++ name
demangle_service_type_only_lem replace namespace name suffix kind at short =
    service_type_at replace namespace name suffix at short (
      rw (grouped namespace name suffix)
        (scan_suffix (namespace ++ (dds_namespace ++ name)) suffix kind))

-- A type with "dds_::" in which "_Request_" stands last somewhere before the end, and "_Response_"
-- nowhere, is not refused: it is read up to "_Request_", as if nothing followed.
pub demangle_service_type_only_misplaced :
    (replace : Text → Text → Text → Text) (name : Text) (p q : ℕ)
    → find dds_namespace name ≡ some p
    → rfind response_type_suffix name ≡ none
    → rfind request_type_suffix name ≡ some q
    → q + length request_type_suffix < length name
    → p + length dds_namespace ≤ q
    → length name < 2 ^ 64
    → demangle_service_type_only replace name
      ≡ replace (take p name) scope (slash ∷ [])
        ++ substr name (p + length dds_namespace) (q - (p + length dds_namespace))
unfolding demangle_service_type_only
demangle_service_type_only_misplaced replace name p q at absent last early after short =
    rw (at, scanned, demangle_service_type_only) (rw count)
  where
    scanned : scan_suffixes (response_type_suffix ∷ request_type_suffix ∷ []) name (some 0) ≡ some q
    scanned = rw (absent, last, scan_suffixes) (ground arith)

    count : size_sub q (p + length dds_namespace) ≡ q - (p + length dds_namespace)
    count = omega arith
