-- ===== src/Client/Matched.antt =====
-- The counts of matched endpoints, and what they say of the server.
use rmw_fastrtps.Prelude.{
  ℕ, ◌≡◌, refl, sym, subst, ◌∙◌, Bool, true, false, Option, none, some, List, [], ◌∷◌, arith, eqb,
  if◌then◌else◌, length, ◌<◌, ◌==◌, eq_refl,
}
use rmw_fastrtps.Prelude.Assoc.{contains, contains-insert, contains-remove}
use rmw_fastrtps.Text.{Text}
use rmw_fastrtps.Rmw.{RmwRet, ret_ok, Guid, guid_eq}
use rmw_fastrtps.Service.Listener.{minus_one}
use rmw_fastrtps.Client.{
  ClientInfo, matched_set, with_publishers, with_subscriptions, on_subscription_matched,
  on_publication_matched, NodeHandle, ClientHandle, GraphCache, after_readers, check_client,
  service_server_is_available,
}

-- What Fast DDS reports to the two listeners: a change of the count, and the endpoint.
pub data MatchCall : Type 0 where
  subscription_matched publication_matched : ℕ → Guid → MatchCall

abbrev pub on_call : MatchCall → ClientInfo → ClientInfo
on_call (subscription_matched change guid) info = on_subscription_matched change guid info
on_call (publication_matched change guid) info = on_publication_matched change guid info

-- The calls, the last one first.
unfoldable pub run : List MatchCall → ClientInfo → ClientInfo
run [] info = info
run (call ∷ calls) info = on_call call (run calls info)

-- Whether an endpoint is matched now: by the last change by one that was reported of it.
abbrev pub after_change : ℕ → Bool → Bool
after_change change before =
    if eqb change 1 then true else if eqb change minus_one then false else before

abbrev pub is_subscribed : Guid → List MatchCall → Bool
is_subscribed g [] = false
is_subscribed g (subscription_matched change guid ∷ calls) =
    let before = is_subscribed g calls in if guid == g then after_change change before else before
is_subscribed g (publication_matched change guid ∷ calls) = is_subscribed g calls

abbrev pub is_published : Guid → List MatchCall → Bool
is_published g [] = false
is_published g (publication_matched change guid ∷ calls) =
    let before = is_published g calls in if guid == g then after_change change before else before
is_published g (subscription_matched change guid ∷ calls) = is_published g calls

abbrev pub unmatched : Text → Text → ClientInfo
unmatched request response = record {
  request_topic_name = request;
  response_topic_name = response;
  publishers = [];
  subscriptions = [];
  response_subscriber_matched_count = 0;
  request_publisher_matched_count = 0;
}

module _ (request response : Text) where
  publishers_lem :
      (calls : List MatchCall) (g : Guid)
      → contains g (run calls (unmatched request response)).publishers ≡ is_subscribed g calls
  unfolding run on_subscription_matched on_publication_matched contains
  publishers_lem [] g = refl
  publishers_lem (subscription_matched change guid ∷ calls) g =
      let s : List Guid = (run calls (unmatched request response)).publishers in
      ground (arith, publishers_lem calls g, contains-insert guid g s, contains-remove guid g s)
  publishers_lem (publication_matched change guid ∷ calls) g =
      ground (arith, publishers_lem calls g)

  subscriptions_lem :
      (calls : List MatchCall) (g : Guid)
      → contains g (run calls (unmatched request response)).subscriptions ≡ is_published g calls
  unfolding run on_subscription_matched on_publication_matched contains
  subscriptions_lem [] g = refl
  subscriptions_lem (publication_matched change guid ∷ calls) g =
      let s : List Guid = (run calls (unmatched request response)).subscriptions in
      ground (arith, subscriptions_lem calls g, contains-insert guid g s, contains-remove guid g s)
  subscriptions_lem (subscription_matched change guid ∷ calls) g =
      ground (arith, subscriptions_lem calls g)

  -- The counts are those of the sets, and the topics stay.
  record IsCounted (info : ClientInfo) : Type 0 where
    responses : info.response_subscriber_matched_count ≡ length info.publishers
    requests : info.request_publisher_matched_count ≡ length info.subscriptions
    request_topic : info.request_topic_name ≡ request
    response_topic : info.response_topic_name ≡ response

  with_publishers-IsCounted :
      (o : Option (List Guid)) (info : ClientInfo)
      → IsCounted info
      → IsCounted (with_publishers o info)
  with_publishers-IsCounted none info h = h
  with_publishers-IsCounted (some s) info h = record {
    responses = refl;
    requests = h.requests;
    request_topic = h.request_topic;
    response_topic = h.response_topic;
  }

  with_subscriptions-IsCounted :
      (o : Option (List Guid)) (info : ClientInfo)
      → IsCounted info
      → IsCounted (with_subscriptions o info)
  with_subscriptions-IsCounted none info h = h
  with_subscriptions-IsCounted (some s) info h = record {
    responses = h.responses;
    requests = refl;
    request_topic = h.request_topic;
    response_topic = h.response_topic;
  }

  run-IsCounted : (calls : List MatchCall) → IsCounted (run calls (unmatched request response))
  unfolding run on_subscription_matched on_publication_matched
  run-IsCounted [] = record {
    responses = refl;
    requests = refl;
    request_topic = refl;
    response_topic = refl;
  }
  run-IsCounted (subscription_matched change guid ∷ calls) =
      with_publishers-IsCounted
        (matched_set change guid (run calls (unmatched request response)).publishers) _
        (run-IsCounted calls)
  run-IsCounted (publication_matched change guid ∷ calls) =
      with_subscriptions-IsCounted
        (matched_set change guid (run calls (unmatched request response)).subscriptions) _
        (run-IsCounted calls)

some_member : (s : List Guid) → 0 < length s → (g : Guid) × (contains g s ≡ true)
unfolding contains
some_member [] h = absurd (omega (arith, h))
some_member (g ∷ s) h = (g, rw (eq_refl g) refl)

checked_available :
    (identifier : ℕ) (graph : GraphCache) (node : NodeHandle) (client : ClientHandle)
    (info : ClientInfo)
    → client.client_info ≡ some info
    → service_server_is_available identifier graph (some node) (some client) true
      ≡ (ret_ok, some true)
    → check_client graph (some info) ≡ (ret_ok, some true)
unfolding service_server_is_available
checked_available identifier graph node client info e h =
    subst (λ o. check_client graph o ≡ (ret_ok, some true)) e (ground (arith, h))

queries_agree :
    (readers writers : RmwRet × ℕ) (info : ClientInfo)
    → after_readers readers writers info ≡ (ret_ok, true)
    → (n : ℕ) × (readers ≡ (ret_ok, n))
      × (writers ≡ (ret_ok, n))
      × (0 < n)
      × (0 < info.request_publisher_matched_count)
      × (0 < info.response_subscriber_matched_count)
queries_agree (ret_ok, n) (ret_ok, m) info h =
    (n, refl, ground (arith, h), ground (arith, h), ground (arith, h), ground (arith, h))
queries_agree (ret_ok, n) (other, m) info h = absurd (ground (arith, h))
queries_agree (other, n) writers info h = absurd (ground (arith, h))

unwrapped :
    (result : RmwRet × Bool)
    → ◌≡◌ {A = RmwRet × Option Bool} (result.0, some result.1) (ret_ok, some true)
    → result ≡ (ret_ok, true)
unwrapped result h = ground (arith, h)

-- A server that is reported as available, to a client whose listeners have received any calls, has
-- as many request readers as response writers in the graph, at least one of each, and one endpoint
-- or more is matched with the client's request writer and with its response reader, by what was
-- last reported of it.
pub available_matched :
    (identifier : ℕ) (graph : GraphCache) (node : NodeHandle) (client : ClientHandle)
    (request response : Text) (calls : List MatchCall)
    → client.client_info ≡ some (run calls (unmatched request response))
    → service_server_is_available identifier graph (some node) (some client) true
      ≡ (ret_ok, some true)
    → (n : ℕ) × (graph.get_reader_count request ≡ (ret_ok, n))
      × (graph.get_writer_count response ≡ (ret_ok, n))
      × (0 < n)
      × ((g : Guid) × (is_published g calls ≡ true))
      × ((g : Guid) × (is_subscribed g calls ≡ true))
unfolding check_client
available_matched identifier graph node client request response calls e h =
    let info : ClientInfo = run calls (unmatched request response) in
    let counted = run-IsCounted request response calls in
    let checked = checked_available identifier graph node client info e h in
    let (n, readers, writers, some_there, requests, responses) =
      queries_agree (graph.get_reader_count info.request_topic_name)
        (graph.get_writer_count info.response_topic_name) info (unwrapped _ checked) in
    let (p, p_there) =
      some_member info.subscriptions (subst (λ k. 0 < k) counted.requests requests) in
    let (s, s_there) =
      some_member info.publishers (subst (λ k. 0 < k) counted.responses responses) in
    (
      n,
      subst (λ t. graph.get_reader_count t ≡ (ret_ok, n)) counted.request_topic readers,
      subst (λ t. graph.get_writer_count t ≡ (ret_ok, n)) counted.response_topic writers,
      some_there,
      (p, sym (subscriptions_lem request response calls p) ∙ p_there),
      (s, sym (publishers_lem request response calls s) ∙ s_there),
    )
