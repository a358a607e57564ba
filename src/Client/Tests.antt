-- ===== src/Client/Tests.antt =====
-- A client's listeners at concrete inputs.
use rmw_fastrtps.Prelude.{
  arith, ℕ, ◌+◌, ◌≡◌, ◌<◌, refl, true, false, none, some, List, [], ◌∷◌, replicate,
}
use rmw_fastrtps.Prelude.Assoc.{insert, contains, remove}
use rmw_fastrtps.Text.{Text}
use rmw_fastrtps.Rmw.{ret_ok, Guid}
use rmw_fastrtps.Service.Listener.{minus_one}
use rmw_fastrtps.Client.{
  GraphCache, NodeHandle, ClientHandle, service_server_is_available, on_subscription_matched,
  on_publication_matched,
}
use rmw_fastrtps.Client.Matched.{
  MatchCall, subscription_matched, publication_matched, run, unmatched, is_published, is_subscribed,
  available_matched,
}
use rmw_fastrtps.Client.Unread.{
  Reader, ReaderLaws, ClientListener, ListenerCall, response_arrives, data_available, set_callback,
  mutex_locked, arrivals, listen_all,
}
use rmw_fastrtps.Client.Unread.Told.{unheard, IsTold, listen_all-IsTold}

abbrev topic : Text
topic = b'q' ∷ []

abbrev guid : ℕ → Guid
guid n = record { guid_prefix = replicate 12 n; entity_id = replicate 4 0 }

-- One server on both topics.
abbrev graph : GraphCache
graph = record { get_reader_count = λ t. (ret_ok, 1); get_writer_count = λ t. (ret_ok, 1) }

-- A server has come, and another one has come and gone.
abbrev match_calls : List MatchCall
match_calls =
    publication_matched 1 (guid 3)
    ∷ subscription_matched 1 (guid 4)
    ∷ publication_matched minus_one (guid 1)
    ∷ publication_matched 1 (guid 1)
    ∷ []

abbrev client : ClientHandle
client = record {
  client_identifier = 1;
  client_info = some (run match_calls (unmatched topic topic));
}

abbrev node : NodeHandle
node = record { node_identifier = 1 }

available : service_server_is_available 1 graph (some node) (some client) true ≡ (ret_ok, some true)
unfolding service_server_is_available run on_publication_matched insert contains
    on_subscription_matched remove
available = refl

available_matched_example :
    (n : ℕ) × (graph.get_reader_count topic ≡ (ret_ok, n))
    × (graph.get_writer_count topic ≡ (ret_ok, n))
    × (0 < n)
    × ((g : Guid) × (is_published g match_calls ≡ true))
    × ((g : Guid) × (is_subscribed g match_calls ≡ true))
available_matched_example =
    available_matched 1 graph node client topic topic match_calls refl available

-- A reader that is its number of unread samples.
abbrev counter : Reader ℕ
counter = record { get_unread_count = λ r. (r, 0); receive = λ r. r + 1 }

counter_laws : ReaderLaws counter
counter_laws = record { received = λ r. refl; marked = λ r. refl }

abbrev listener : ClientListener ℕ
listener = record {
  response_reader = 0;
  on_new_response_cb = none;
  data_available_enabled = false;
  setting = [];
  notifications = 0;
  calls = [];
}

listener-IsTold : IsTold counter 0 0 listener
listener-IsTold = record { mask = refl; total = refl; few_unread = omega arith }

-- Two responses, a callback that is set while a third one arrives, a fourth with its notification, and
-- none after the callback is cleared.
abbrev ops : List ListenerCall
ops =
    set_callback none
    ∷ data_available
    ∷ response_arrives
    ∷ mutex_locked 0
    ∷ response_arrives
    ∷ set_callback (some (record { function = 1; user_data = 2 }))
    ∷ response_arrives
    ∷ response_arrives
    ∷ []

told_in_order :
    (listen_all counter ops listener).calls
    ≡ (record { function = 1; user_data = 2 }, 2) ∷ (record { function = 1; user_data = 2 }, 2) ∷ []
unfolding listen_all
told_in_order = refl

listen_all-IsTold_example :
    IsTold counter (arrivals ops) (unheard counter ops listener) (listen_all counter ops listener)
listen_all-IsTold_example = listen_all-IsTold counter counter_laws ops listener listener-IsTold
