-- ===== src/Service/Outcomes.antt =====
-- What comes of a response, and of the time stamps of a request.
use rmw_fastrtps.Prelude.{Bool, true, false, Option, none, some, List, [], ◌∷◌, if◌then◌else◌}
use rmw_fastrtps.Prelude.Assoc.{contains}
use rmw_fastrtps.Rmw.{RmwRet, ret_ok, ret_error, ret_timeout, Guid, guid_eq}
use rmw_fastrtps.Service.{WriteParams, Sent}
use rmw_fastrtps.Service.Listener.{ServicePubListener, ListenerCall, apply}

-- The listener at the start, and after each of the calls.
abbrev pub states : ServicePubListener → List ListenerCall → List ServicePubListener
states l [] = l ∷ []
states l (c ∷ calls) = l ∷ states (apply l c) calls

abbrev pub first_with : {A : Type 0} → (A → Bool) → List A → Option A
first_with f [] = none
first_with f (x ∷ xs) = let rest = first_with f xs in if f x then some x else rest

-- The first state on the way in which the guid is subscribed.
abbrev pub first_subscribed :
    ServicePubListener → Guid → List ListenerCall → Option ServicePubListener
first_subscribed l guid calls = first_with (λ s. contains guid s.subscriptions) (states l calls)

abbrev waited : ServicePubListener → Option ServicePubListener → ServicePubListener × Bool
waited last none = (last, false)
waited last (some s) = (s, true)

module _ {Message : Type 0} (write : Message → WriteParams → Bool) where
  abbrev pub not_written : RmwRet → ServicePubListener → Sent Message ServicePubListener
  not_written code l = record { code = code; written = none; left = l }

  abbrev pub written_in :
      Message → WriteParams → ServicePubListener → Sent Message ServicePubListener
  written_in response params l = record {
    code = if write response params then ret_ok else ret_error;
    written = some (response, params);
    left = l;
  }

  -- What is to come of a response, by whether its guid is that of a reader, by the endpoint that it is
  -- paired with, and by the first state in which it is subscribed; `last` is the state after all calls.
  abbrev pub expected_sent :
      ServicePubListener
      → ServicePubListener
      → Message
      → WriteParams
      → Bool
      → Option Guid
      → Option ServicePubListener
      → Sent Message ServicePubListener
  expected_sent l last response params false endpoint subscribed = written_in response params l
  expected_sent l last response params true none subscribed = not_written ret_ok l
  expected_sent l last response params true (some x) none = not_written ret_timeout last
  expected_sent l last response params true (some x) (some s) = written_in response params s
