-- ===== src/Client.antt =====
-- A client's listeners, rmw_fastrtps_shared_cpp/include/rmw_fastrtps_shared_cpp/custom_client_info.hpp,
-- and whether its server is there, src/rmw_service_server_is_available.cpp. What the graph cache of
-- rmw_dds_common counts is a parameter.
pub mod Matched
pub mod Unread
mod Tests
use rmw_fastrtps.Prelude.{
  ℕ, Bool, true, false, ◌&&◌, Option, none, some, List, [], ◌∷◌, eqb, if◌then◌else◌, length,
}
use rmw_fastrtps.Prelude.Assoc.{insert, remove}
use rmw_fastrtps.Text.{Text}
use rmw_fastrtps.Rmw.{
  RmwRet, ret_ok, ret_error, ret_invalid_argument, ret_incorrect_rmw_implementation, Guid, guid_eq,
}
use rmw_fastrtps.Service.Listener.{minus_one}

-- `CustomClientInfo` and the sets of its two listeners.
pub record ClientInfo : Type 0 where
  pub request_topic_name : Text
  pub response_topic_name : Text
  pub publishers : List Guid
  pub subscriptions : List Guid
  pub response_subscriber_matched_count : ℕ
  pub request_publisher_matched_count : ℕ

-- The set after a change of the count, `none` where the code returns early.
abbrev pub matched_set : ℕ → Guid → List Guid → Option (List Guid)
matched_set change guid s =
    if eqb change 1
    then some (insert guid s)
    else if eqb change minus_one
    then some (remove guid s)
    else none

abbrev pub with_publishers : Option (List Guid) → ClientInfo → ClientInfo
with_publishers none info = info
with_publishers (some s) info = record info {
  publishers = s;
  response_subscriber_matched_count = length s;
}

abbrev pub with_subscriptions : Option (List Guid) → ClientInfo → ClientInfo
with_subscriptions none info = info
with_subscriptions (some s) info = record info {
  subscriptions = s;
  request_publisher_matched_count = length s;
}

-- `ClientListener::on_subscription_matched` and `ClientPubListener::on_publication_matched`.
unfoldable pub on_subscription_matched : ℕ → Guid → ClientInfo → ClientInfo
on_subscription_matched change guid info =
    with_publishers (matched_set change guid info.publishers) info

unfoldable pub on_publication_matched : ℕ → Guid → ClientInfo → ClientInfo
on_publication_matched change guid info =
    with_subscriptions (matched_set change guid info.subscriptions) info

pub record NodeHandle : Type 0 where
  pub node_identifier : ℕ

pub record ClientHandle : Type 0 where
  pub client_identifier : ℕ
  pub client_info : Option ClientInfo

-- The queries of the graph cache: the number of readers and of writers on a topic.
pub record GraphCache : Type 0 where
  pub get_reader_count : Text → RmwRet × ℕ
  pub get_writer_count : Text → RmwRet × ℕ

abbrev pub counts_agree : ℕ → ℕ → Bool
counts_agree a b = if eqb 0 a then false else if eqb 0 b then false else eqb a b

-- The tests on the endpoints in the graph, then on those matched.
abbrev pub after_writers : ℕ → RmwRet × ℕ → ClientInfo → RmwRet × Bool
after_writers readers (ret_ok, writers) info =
    if counts_agree readers writers
    then (
      ret_ok,
      counts_agree info.request_publisher_matched_count info.response_subscriber_matched_count,
    )
    else (ret_ok, false)
after_writers readers (error, writers) info = (error, false)

abbrev pub after_readers : RmwRet × ℕ → RmwRet × ℕ → ClientInfo → RmwRet × Bool
after_readers (ret_ok, readers) writers info =
    if eqb 0 readers then (ret_ok, false) else after_writers readers writers info
after_readers (error, readers) writers info = (error, false)

unfoldable pub check_client : GraphCache → Option ClientInfo → RmwRet × Option Bool
check_client graph none = (ret_error, none)
check_client graph (some info) =
    let (ret, available) =
      after_readers (graph.get_reader_count info.request_topic_name)
        (graph.get_writer_count info.response_topic_name) info in
    (ret, some available)

-- `none` for the value where `*is_available` is left as it is.
unfoldable pub service_server_is_available :
    ℕ → GraphCache → Option NodeHandle → Option ClientHandle → Bool → RmwRet × Option Bool
unfolding check_client
service_server_is_available identifier graph none client has_result = (ret_invalid_argument, none)
service_server_is_available identifier graph (some node) none has_result =
    if eqb node.node_identifier identifier
    then (ret_invalid_argument, none)
    else (ret_incorrect_rmw_implementation, none)
service_server_is_available identifier graph (some node) (some client) has_result =
    if eqb node.node_identifier identifier
    then (if eqb client.client_identifier identifier
        then (if has_result
            then check_client graph client.client_info
            else (ret_invalid_argument, none))
        else (ret_incorrect_rmw_implementation, none))
    else (ret_incorrect_rmw_implementation, none)
