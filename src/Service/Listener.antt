-- ===== src/Service/Listener.antt =====
-- `ServicePubListener` of custom_service_info.hpp.
pub mod Pairing
pub mod Waiting
use rmw_fastrtps.Prelude.{
  ℕ, ◌-◌, ◌^◌, Bool, true, false, not, Option, none, some, List, [], ◌∷◌, eqb, if◌then◌else◌,
}
use rmw_fastrtps.Prelude.Assoc.{find, erase, emplace, contains, insert, remove}
use rmw_fastrtps.Rmw.{Guid, guid_eq}

-- -1 as an `int32_t`.
abbrev pub minus_one : ℕ
minus_one = 2 ^ 32 - 1

-- `client_present_t`: FAILURE, which nothing returns, MAYBE, YES and GONE.
pub data ClientPresent : Type 0 where
  failure maybe present gone : ClientPresent

pub record ServicePubListener : Type 0 where
  pub subscriptions : List Guid
  pub clients_endpoints : List (Guid × Guid)

-- What `on_publication_matched` and `endpoint_erase_if_exists` do to the map of endpoints.
unfoldable pub erase_pair : Guid → List (Guid × Guid) → List (Guid × Guid)
erase_pair guid endpoints = elim (find guid endpoints) [
  | none ↦ endpoints
  | some other ↦ erase guid (erase other endpoints)
]

unfoldable pub on_publication_matched : ServicePubListener → ℕ → Guid → ServicePubListener
on_publication_matched l current_count_change last_subscription =
    if eqb current_count_change 1
    then record l { subscriptions = insert last_subscription l.subscriptions }
    else if eqb current_count_change minus_one
    then record l {
      subscriptions = remove last_subscription l.subscriptions;
      clients_endpoints = erase_pair last_subscription l.clients_endpoints;
    }
    else l

unfoldable pub endpoint_erase_if_exists : ServicePubListener → Guid → ServicePubListener
endpoint_erase_if_exists l guid = record l {
  clients_endpoints = erase_pair guid l.clients_endpoints;
}

unfoldable pub endpoint_add_reader_and_writer :
    ServicePubListener → Guid → Guid → ServicePubListener
endpoint_add_reader_and_writer l reader writer = record l {
  clients_endpoints = emplace writer reader (emplace reader writer l.clients_endpoints);
}

-- `ServiceListener::on_subscription_matched`.
unfoldable pub on_subscription_matched : ServicePubListener → ℕ → Guid → ServicePubListener
on_subscription_matched l current_count_change last_publication =
    if eqb current_count_change minus_one then endpoint_erase_if_exists l last_publication else l

-- A call of the listener by another thread.
pub data ListenerCall : Type 0 where
  publication_matched : ℕ → Guid → ListenerCall
  subscription_matched : ℕ → Guid → ListenerCall
  request_taken : Guid → Guid → ListenerCall

unfoldable pub apply : ServicePubListener → ListenerCall → ServicePubListener
unfolding on_publication_matched on_subscription_matched endpoint_add_reader_and_writer
apply l (publication_matched change guid) = on_publication_matched l change guid
apply l (subscription_matched change guid) = on_subscription_matched l change guid
apply l (request_taken reader writer) = endpoint_add_reader_and_writer l reader writer

-- The calls that the other threads make before the time is over; the state at the end is the one in
-- which the wait ended.
unfoldable pub wait_for_subscription :
    ServicePubListener → Guid → List ListenerCall → ServicePubListener × Bool
wait_for_subscription l guid [] = (l, contains guid l.subscriptions)
wait_for_subscription l guid (call ∷ calls) =
    let later = wait_for_subscription (apply l call) guid calls in
    if contains guid l.subscriptions then (l, true) else later

unfoldable pub check_for_subscription :
    ServicePubListener → Guid → List ListenerCall → ServicePubListener × ClientPresent
check_for_subscription l guid calls = elim (find guid l.clients_endpoints) [
  | none ↦ (l, gone)
  | some _ ↦
      let (l', found) = wait_for_subscription l guid calls in
      (l', if not found then maybe else present)
]
