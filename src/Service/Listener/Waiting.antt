-- ===== src/Service/Listener/Waiting.antt =====
-- The listener during a wait for a client, and what is known of a client that has gone.
use rmw_fastrtps.Prelude.{◌≡◌, none, some, List, [], ◌∷◌, arith, eq_refl}
use rmw_fastrtps.Prelude.Assoc.{find}
use rmw_fastrtps.Rmw.{Guid, guid_eq}
use rmw_fastrtps.Service.Listener.{
  ServicePubListener, ListenerCall, gone, on_publication_matched, on_subscription_matched,
  endpoint_erase_if_exists, apply, check_for_subscription, minus_one, erase_pair,
}
use rmw_fastrtps.Service.Listener.Pairing.{IsPaired, find-erase_pair}

-- The listener after some calls.
abbrev pub run : ServicePubListener → List ListenerCall → ServicePubListener
run l [] = l
run l (c ∷ calls) = run (apply l c) calls

pub check_without_endpoint :
    (l : ServicePubListener) (guid : Guid) (calls : List ListenerCall)
    → find guid l.clients_endpoints ≡ none
    → check_for_subscription l guid calls ≡ (l, gone)
unfolding check_for_subscription
check_without_endpoint l guid calls e = rw (e, check_for_subscription)

erased :
    (g h : Guid) (m : List (Guid × Guid))
    → find g m ≡ some h
    → (find g (erase_pair g m) ≡ none) × (find h (erase_pair g m) ≡ none)
erased g h m e =
    ground (arith, find-erase_pair g h m e g, find-erase_pair g h m e h, eq_refl g, eq_refl h)

abbrev pub IsGone : ServicePubListener → Guid → List ListenerCall → Type 0
IsGone l guid calls = check_for_subscription l guid calls ≡ (l, gone)

-- When the reader of a paired client is unmatched from the service's writer, or its writer from the
-- service's reader, a check for either endpoint says at once that the client is gone.
pub check-unmatched :
    (l : ServicePubListener) (reader writer : Guid) (calls : List ListenerCall)
    → IsPaired l.clients_endpoints
    → find reader l.clients_endpoints ≡ some writer
    → let without_reader = on_publication_matched l minus_one reader in
      let without_writer = on_subscription_matched l minus_one writer in
      IsGone without_reader reader calls
      × IsGone without_reader writer calls
      × IsGone without_writer reader calls
      × IsGone without_writer writer calls
unfolding on_publication_matched on_subscription_matched endpoint_erase_if_exists
check-unmatched l reader writer calls p e =
    let by_reader = erased reader writer l.clients_endpoints e in
    let by_writer = erased writer reader l.clients_endpoints (p.back reader writer e) in
    (
      check_without_endpoint _ reader calls by_reader.0,
      check_without_endpoint _ writer calls by_reader.1,
      check_without_endpoint _ reader calls by_writer.1,
      check_without_endpoint _ writer calls by_writer.0,
    )
