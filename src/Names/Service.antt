-- ===== src/Names/Service.antt =====
-- The names of the two topics of a service (demangle.cpp).
use rmw_fastrtps.Prelude.{
  ℕ, ◌≤◌, ◌≡◌, ◌≢◌, refl, ap, ◌∙◌, true, false, some, [], ◌∷◌, ◌++◌, inl, inr, arith, length,
  length-append, drop, take_append, take-append-drop, length-drop, Option-cases, ◌⊎◌,
}
use rmw_fastrtps.Text.{Text, starts_with, rfind, is_empty}
use rmw_fastrtps.Text.Search.{starts_with_end, rfind_end, rfind_sound}
use rmw_fastrtps.Names.{
  slash, ros_service_requester_prefix, ros_service_response_prefix, request_suffix, reply_suffix,
  resolve_prefix, without_suffix, demangle_service, demangle_service_request_from_topic,
  demangle_service_reply_from_topic, demangle_service_from_topic, demangle_ros_topic_from_topic,
  mangle_topic_name,
}
use rmw_fastrtps.Names.Prefix.{resolve_prefix-append, resolve_prefix_sound, mangle_topic_name_lem}

without_suffix-append :
    (d : ℕ) (base : Text) (c : ℕ) (suffix : Text)
    → without_suffix (d ∷ (base ++ c ∷ suffix)) (c ∷ suffix) ≡ d ∷ base
unfolding without_suffix
without_suffix-append d base c suffix =
    rw (rfind_end (d ∷ base) c suffix, without_suffix)
      (unfold is_empty in
        ground (arith, length-append base (c ∷ suffix), take_append base (c ∷ suffix)))

without_suffix_sound :
    (name suffix : Text)
    → without_suffix name suffix ≢ []
    → without_suffix name suffix ++ suffix ≡ name
unfolding without_suffix
without_suffix_sound name suffix h = elim (Option-cases (rfind suffix name)) [
  | inl e ↦ absurd (h (rw e (ground arith)))
  | inr (q, e) ↦
      let (at, within) = rfind_sound suffix name q e in
      ground (
        arith,
        e,
        starts_with_end suffix (drop q name) at,
        length-drop q name,
        take-append-drop q name,
      )
]

without_suffix-nil : (suffix : Text) → without_suffix [] suffix ≡ []
unfolding without_suffix is_empty
without_suffix-nil suffix = refl

-- A prefix, a base that a slash begins and a suffix in a row demangle to the base.
demangle_service-append :
    (prefix base : Text) (c : ℕ) (suffix : Text)
    → demangle_service prefix (prefix ++ (slash ∷ (base ++ c ∷ suffix))) (c ∷ suffix) ≡ slash ∷ base
unfolding demangle_service
demangle_service-append prefix base c suffix =
    rw (resolve_prefix-append prefix (base ++ c ∷ suffix))
      (without_suffix-append slash base c suffix)

-- What demangles to a name is the row of the prefix, that name and the suffix.
pub demangle_service_sound :
    (prefix topic_name suffix : Text)
    → demangle_service prefix topic_name suffix ≢ []
    → prefix ++ (demangle_service prefix topic_name suffix ++ suffix) ≡ topic_name
unfolding demangle_service
demangle_service_sound prefix topic_name suffix h =
    let name = resolve_prefix topic_name prefix in
    rw (without_suffix_sound name suffix h) (
      resolve_prefix_sound prefix topic_name
        (λ e. h (ap (λ n. without_suffix n suffix) e ∙ without_suffix-nil suffix)))

empty_cases : (s : Text) → ((is_empty s ≡ true) × (s ≡ [])) ⊎ ((is_empty s ≡ false) × (s ≢ []))
unfolding is_empty
empty_cases [] = inl (refl, refl)
empty_cases (c ∷ s) = inr (refl, λ e. cc)

reply_sound :
    (topic_name : Text)
    → demangle_service_reply_from_topic topic_name ≢ []
    → ros_service_response_prefix ++ (demangle_service_reply_from_topic topic_name ++ reply_suffix)
      ≡ topic_name
unfolding demangle_service_reply_from_topic
reply_sound topic_name = demangle_service_sound ros_service_response_prefix topic_name reply_suffix

request_sound :
    (topic_name : Text)
    → demangle_service_request_from_topic topic_name ≢ []
    → ros_service_requester_prefix
        ++ (demangle_service_request_from_topic topic_name ++ request_suffix)
      ≡ topic_name
unfolding demangle_service_request_from_topic
request_sound topic_name =
    demangle_service_sound ros_service_requester_prefix topic_name request_suffix

-- Every name that `_demangle_service_from_topic` reads out of a topic is that topic without the
-- prefix and the suffix of the requests, or of the replies.
pub demangle_service_from_topic_sound :
    (topic_name : Text)
    → demangle_service_from_topic topic_name ≢ []
    → let name = demangle_service_from_topic topic_name in
      (ros_service_response_prefix ++ (name ++ reply_suffix) ≡ topic_name)
      ⊎ (ros_service_requester_prefix ++ (name ++ request_suffix) ≡ topic_name)
unfolding demangle_service_from_topic
demangle_service_from_topic_sound topic_name h =
    elim (empty_cases (demangle_service_reply_from_topic topic_name)) [
      | inl (e, r) ↦ inr (
          rw (e, demangle_service_from_topic)
            (request_sound topic_name (λ q. h (rw (e, demangle_service_from_topic) q))))
      | inr (e, r) ↦ inl (rw (e, demangle_service_from_topic) (reply_sound topic_name r))
    ]

abbrev request_topic : Text → Text
request_topic base = ros_service_requester_prefix ++ (slash ∷ (base ++ request_suffix))

abbrev reply_topic : Text → Text
reply_topic base = ros_service_response_prefix ++ (slash ∷ (base ++ reply_suffix))

request_topic_as_request :
    (base : Text) → demangle_service_request_from_topic (request_topic base) ≡ slash ∷ base
unfolding demangle_service_request_from_topic
request_topic_as_request base = demangle_service-append ros_service_requester_prefix base _ _

reply_topic_as_reply :
    (base : Text) → demangle_service_reply_from_topic (reply_topic base) ≡ slash ∷ base
unfolding demangle_service_reply_from_topic
reply_topic_as_reply base = demangle_service-append ros_service_response_prefix base _ _

other_prefix :
    (base : Text)
    → (demangle_service_reply_from_topic (request_topic base) ≡ [])
      × (demangle_service_request_from_topic (reply_topic base) ≡ [])
      × (demangle_ros_topic_from_topic (request_topic base) ≡ [])
      × (demangle_ros_topic_from_topic (reply_topic base) ≡ [])
unfolding demangle_service_request_from_topic demangle_service_reply_from_topic demangle_service
    demangle_ros_topic_from_topic resolve_prefix starts_with without_suffix is_empty
other_prefix base = (refl, refl, refl, refl)

request_topic_as_service :
    (base : Text) → demangle_service_from_topic (request_topic base) ≡ slash ∷ base
unfolding demangle_service_from_topic is_empty
request_topic_as_service base = rw ((other_prefix base).0) (request_topic_as_request base)

reply_topic_as_service :
    (base : Text) → demangle_service_from_topic (reply_topic base) ≡ slash ∷ base
unfolding demangle_service_from_topic is_empty
reply_topic_as_service base = rw (reply_topic_as_reply base)

module _ (string_255 : Text → Text) (fits : (s : Text) → length s ≤ 255 → string_255 s ≡ s) where
  request_whole :
      (base : Text)
      → length base ≤ 245
      → mangle_topic_name string_255
          (some ros_service_requester_prefix)
          (slash ∷ base)
          (some request_suffix)
        ≡ request_topic base
  request_whole base h =
      mangle_topic_name_lem string_255 fits (some ros_service_requester_prefix) (slash ∷ base)
        (some request_suffix) (omega arith)

  reply_whole :
      (base : Text)
      → length base ≤ 245
      → mangle_topic_name string_255
          (some ros_service_response_prefix)
          (slash ∷ base)
          (some reply_suffix)
        ≡ reply_topic base
  reply_whole base h =
      mangle_topic_name_lem string_255 fits (some ros_service_response_prefix) (slash ∷ base)
        (some reply_suffix) (omega arith)

  -- The request topic and the reply topic of a service whose name a slash begins and is short enough
  -- both demangle to that name; neither is taken for the other, nor for the topic of a message.
  pub demangle-mangle_service :
      (base : Text)
      → length base ≤ 245
      → let name = slash ∷ base in
        let request =
          mangle_topic_name string_255
            (some ros_service_requester_prefix)
            name
            (some request_suffix) in
        let reply =
          mangle_topic_name string_255
            (some ros_service_response_prefix)
            name
            (some reply_suffix) in
        (demangle_service_from_topic request ≡ name)
        × (demangle_service_from_topic reply ≡ name)
        × (demangle_service_request_from_topic request ≡ name)
        × (demangle_service_reply_from_topic reply ≡ name)
        × (demangle_service_reply_from_topic request ≡ [])
        × (demangle_service_request_from_topic reply ≡ [])
        × (demangle_ros_topic_from_topic request ≡ [])
        × (demangle_ros_topic_from_topic reply ≡ [])
  demangle-mangle_service base h =
      rw (request_whole base h, reply_whole base h)
        (let (a, b, c, d) = other_prefix base in
          (
            request_topic_as_service base,
            reply_topic_as_service base,
            request_topic_as_request base,
            reply_topic_as_reply base,
            a,
            b,
            c,
            d,
          ))
