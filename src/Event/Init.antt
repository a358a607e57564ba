-- ===== src/Event/Init.antt =====
-- `__rmw_init_event` of rmw_fastrtps_shared_cpp/src/rmw_event.cpp. The identifiers are compared as
-- addresses; `endpoint`, the field `data`, is the address of the endpoint, whose enabled statuses are passed on.
use rmw_fastrtps.Prelude.{
  ℕ, ◌≡◌, ◌≢◌, refl, ap, ◌⊎◌, inl, inr, Bool, true, false, not, Option, none, some, eqb, eqb_iff,
  Bool-cases, if◌then◌else◌,
}
use rmw_fastrtps.Rmw.{
  RmwRet, ret_ok, ret_unsupported, ret_invalid_argument, ret_incorrect_rmw_implementation,
}
use rmw_fastrtps.Event.{EventType, event_other, StatusMask, mask_or, rmw_event_to_dds_statusmask}

pub record RmwEvent : Type 0 where
  pub implementation_identifier : ℕ
  pub endpoint : ℕ
  pub event_type : EventType

-- The members of `g_rmw_event_type_set`.
abbrev pub is_event_supported : EventType → Bool
is_event_supported (event_other n) = false
is_event_supported _ = true

-- What a call returns, and the event and the enabled statuses that it leaves.
abbrev pub Initialized : Type 0
Initialized = RmwRet × (Option RmwEvent × StatusMask)

-- The part behind the checks for null.
unfoldable pub init_checked : ℕ → RmwEvent → ℕ → ℕ → EventType → StatusMask → Initialized
init_checked identifier rmw_event endpoint_identifier endpoint event_type enabled =
    if not (eqb endpoint_identifier identifier)
    then (ret_incorrect_rmw_implementation, (some rmw_event, enabled))
    else if not (is_event_supported event_type)
    then (ret_unsupported, (some rmw_event, enabled))
    else (
      ret_ok,
      (
        some (record {
          implementation_identifier = endpoint_identifier;
          endpoint = endpoint;
          event_type = event_type;
        }),
        mask_or enabled (rmw_event_to_dds_statusmask event_type),
      ),
    )

unfoldable pub init_event :
    Option ℕ → Option RmwEvent → Option ℕ → Option ℕ → EventType → StatusMask → Initialized
init_event (some identifier) (some rmw_event) (some endpoint_identifier) (some endpoint) event_type
      enabled =
    init_checked identifier rmw_event endpoint_identifier endpoint event_type enabled
init_event none rmw_event endpoint_identifier endpoint event_type enabled =
    (ret_invalid_argument, (rmw_event, enabled))
init_event (some identifier) none endpoint_identifier endpoint event_type enabled =
    (ret_invalid_argument, (none, enabled))
init_event (some identifier) (some rmw_event) none endpoint event_type enabled =
    (ret_invalid_argument, (some rmw_event, enabled))
init_event (some identifier) (some rmw_event) (some endpoint_identifier) none event_type enabled =
    (ret_invalid_argument, (some rmw_event, enabled))

-- Either the event is supported and set up for an endpoint of this implementation, and its status is
-- enabled beside those that were; or the call fails and leaves all as it was.
abbrev pub IsInit :
    Option ℕ → Option RmwEvent → Option ℕ → Option ℕ → EventType → StatusMask → Initialized → Type 0
IsInit identifier rmw_event endpoint_identifier endpoint event_type enabled
      (code, (event, enabled')) =
    ((code ≡ ret_ok)
      × (is_event_supported event_type ≡ true)
      × (endpoint_identifier ≡ identifier)
      × ((e : RmwEvent) × ((event ≡ some e) × (e.event_type ≡ event_type)))
      × (enabled' ≡ mask_or enabled (rmw_event_to_dds_statusmask event_type)))
    ⊎ ((code ≢ ret_ok) × (event ≡ rmw_event) × (enabled' ≡ enabled))

init_checked-IsInit :
    (identifier : ℕ) (rmw_event : RmwEvent) (endpoint_identifier endpoint : ℕ)
    (event_type : EventType) (enabled : StatusMask)
    → IsInit
        (some identifier)
        (some rmw_event)
        (some endpoint_identifier)
        (some endpoint)
        event_type
        enabled
        (init_checked identifier rmw_event endpoint_identifier endpoint event_type enabled)
unfolding init_checked
init_checked-IsInit i r j d e m = elim (Bool-cases (eqb j i)) [
  | inr differ ↦ rw (differ, init_checked) (inr (λ h. cc, refl, refl))
  | inl same ↦ elim (Bool-cases (is_event_supported e)) [
    | inr unknown ↦ rw (same, unknown, init_checked) (inr (λ h. cc, refl, refl))
    | inl known ↦
        rw (same, known, init_checked)
          (inl (refl, refl, ap some ((eqb_iff j i).0 same), (_, (refl, refl)), refl))
  ]
]

-- An initialisation either succeeds, for a supported event of an endpoint with the caller's
-- identifier, and adds the event's status to those enabled, or fails and changes nothing.
pub init_event-IsInit :
    (identifier : Option ℕ) (rmw_event : Option RmwEvent) (endpoint_identifier endpoint : Option ℕ)
    (event_type : EventType) (enabled : StatusMask)
    → IsInit identifier rmw_event endpoint_identifier endpoint event_type enabled
        (init_event identifier rmw_event endpoint_identifier endpoint event_type enabled)
unfolding init_event
init_event-IsInit (some i) (some r) (some j) (some d) e m = init_checked-IsInit i r j d e m
init_event-IsInit none r j d e m = inr (λ h. cc, refl, refl)
init_event-IsInit (some i) none j d e m = inr (λ h. cc, refl, refl)
init_event-IsInit (some i) (some r) none d e m = inr (λ h. cc, refl, refl)
init_event-IsInit (some i) (some r) (some j) none e m = inr (λ h. cc, refl, refl)
