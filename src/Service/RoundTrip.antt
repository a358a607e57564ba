-- ===== src/Service/RoundTrip.antt =====
-- A request from the client that sends it to the service, and the response back.
use rmw_fastrtps.Prelude.{
  ℕ, ◌^◌, ◌<◌, ◌≡◌, ◌≢◌, refl, sym, ap, subst, ◌∙◌, inl, inr, Bool, true, Option, none, some, List,
  [], ◌∷◌, arith, Bool-cases, Option-cases, ◌==◌, eq_iff, eq_refl, if◌then◌else◌,
}
use rmw_fastrtps.Prelude.Assoc.{find, emplace, contains, find-emplace, keep_or}
use rmw_fastrtps.Rmw.{ret_ok, ret_error, Guid, guid_eq, IsGuid, unknown_guid}
use rmw_fastrtps.Gid.{copy_from_fastdds_guid_to_byte_array}
use rmw_fastrtps.Gid.Laws.{guid_to_bytes_and_back}
use rmw_fastrtps.Service.{
  SampleIdentity, sequence_number_of, Sample, RequestId, Client, WriteParams, TakeOut,
}
use rmw_fastrtps.Service.Listener.{
  ServicePubListener, ListenerCall, present, check_for_subscription, wait_for_subscription,
  endpoint_add_reader_and_writer,
}
use rmw_fastrtps.Service.Request.{write_request, answered_to, request_out, take_sample}
use rmw_fastrtps.Service.Response.{
  is_reader, related_identity, write_response, after_check, respond, take_response_sample,
}

-- The two halves of a sequence number are words of 32 bits.
pub record IsIdentity (s : SampleIdentity) : Type 0 where
  pub high_word : s.high < 2 ^ 32
  pub low_word : s.low < 2 ^ 32

answered_to-IsIdentity :
    {Payload : Type 0} (sample : Sample Payload)
    → IsIdentity sample.sample_identity
    → IsIdentity (answered_to sample)
unfolding answered_to
answered_to-IsIdentity sample words =
    elim (Bool-cases (sample.related_sample_identity.writer_guid == unknown_guid)) [
      | inl e ↦ rw (e, answered_to) words
      | inr e ↦
          rw (e, answered_to) (record { high_word = words.high_word; low_word = words.low_word })
    ]

-- A header made of an identity leads back to the identity.
related_identity_of_header :
    (s : SampleIdentity) (array : List ℕ)
    → IsIdentity s
    → IsGuid s.writer_guid
    → related_identity (record {
      writer_guid = copy_from_fastdds_guid_to_byte_array s.writer_guid array;
      sequence_number = sequence_number_of s;
    })
      ≡ s
unfolding related_identity
related_identity_of_header s array words v =
    rw ((guid_to_bytes_and_back s.writer_guid array v).0)
      (ground (arith, words.high_word, words.low_word))

module _ {Payload Message : Type 0} (deserialize : Payload → Option Message)
    (sample : Sample Payload) (out : TakeOut Message) (message : Message) where
  -- The header of a request that was taken leads back to the identity that it is answered to.
  pub related_identity-request_out :
      deserialize sample.payload ≡ some message
      → IsIdentity sample.sample_identity
      → IsGuid (answered_to sample).writer_guid
      → related_identity (request_out deserialize sample out).header.request_id ≡ answered_to sample
  unfolding request_out
  related_identity-request_out read words v =
      rw (read, request_out)
        (related_identity_of_header (answered_to sample) out.header.request_id.writer_guid
          (answered_to-IsIdentity sample words) v)

keep_or_some : (o : Option Guid) (v : Guid) → keep_or o v ≢ none
keep_or_some none v e = cc
keep_or_some (some w) v e = cc

find-added : (r w : Guid) (m : List (Guid × Guid)) → find r (emplace w r (emplace r w m)) ≢ none
find-added r w m =
    rw (find-emplace w r r (emplace r w m), find-emplace r r w m, eq_refl r)
      (ground (arith, keep_or_some (find w (emplace r w m)) r, keep_or_some (find r m) w))

-- A client that has an endpoint and is subscribed is found without waiting.
check_present :
    (l : ServicePubListener) (guid : Guid) (calls : List ListenerCall)
    → find guid l.clients_endpoints ≢ none
    → contains guid l.subscriptions ≡ true
    → check_for_subscription l guid calls ≡ (l, present)
unfolding check_for_subscription
check_present l guid calls here subscribed = elim (Option-cases (find guid l.clients_endpoints)) [
  | inl e ↦ absurd (here e)
  | inr (x, e) ↦ rw (e, at_once calls, check_for_subscription)
]
  where
    at_once : (cs : List ListenerCall) → wait_for_subscription l guid cs ≡ (l, true)
    at_once [] = unfold wait_for_subscription in rw subscribed
    at_once (c ∷ cs) = unfold wait_for_subscription in rw subscribed

module _ {Message : Type 0} (write : Message → WriteParams → Bool) where
  -- The response to a client that is known and subscribed is written, with the related identity.
  respond_present :
      (l : ServicePubListener) (header : RequestId) (response : Message) (calls : List ListenerCall)
      → let params = related_identity header in
        find params.writer_guid l.clients_endpoints ≢ none
        → contains params.writer_guid l.subscriptions ≡ true
        → respond write l header response calls ≡ record {
          code = if write response params then ret_ok else ret_error;
          written = some (response, params);
          left = l;
        }
  unfolding respond write_response after_check
  respond_present l header response calls here subscribed =
      let at_once = check_present l (related_identity header).writer_guid calls here subscribed in
      elim (Bool-cases (is_reader (related_identity header).writer_guid)) [
        | inl e ↦ rw (e, at_once, respond)
        | inr e ↦ rw (e, respond)
      ]

module _ {Payload Message : Type 0} (deserialize : Payload → Option Message) where
  take_valid :
      (l : ServicePubListener) (sample : Sample Payload) (out : TakeOut Message)
      → sample.valid_data ≡ true
      → take_sample deserialize l (some sample) out ≡ (
        endpoint_add_reader_and_writer l sample.related_sample_identity.writer_guid
            sample.sample_identity.writer_guid,
        request_out deserialize sample out,
      )
  unfolding take_sample
  take_valid l sample out valid = rw (valid, take_sample)

  answered_to_reader :
      (sample : Sample Payload) (reader : Guid)
      → sample.related_sample_identity.writer_guid ≡ reader
      → reader ≢ unknown_guid
      → answered_to sample ≡ record (sample.sample_identity) { writer_guid = reader }
  unfolding answered_to
  answered_to_reader sample reader e known =
      ground (arith, e, known, eq_iff sample.related_sample_identity.writer_guid unknown_guid)

  -- A response to the reader of a client is taken by that client.
  take_own_response :
      (client : Client) (back : Sample Payload) (out : TakeOut Message) (answer : Message)
      → back.valid_data ≡ true
      → back.related_sample_identity.writer_guid ≡ client.reader_guid
      → deserialize back.payload ≡ some answer
      → let got = take_response_sample deserialize client (some back) out in
        (got.taken ≡ true)
        × (got.message ≡ answer)
        × (got.header.request_id.sequence_number ≡ sequence_number_of back.related_sample_identity)
  unfolding take_response_sample
  take_own_response client back out answer valid own read =
      rw (valid, own, eq_refl client.reader_guid, read, take_response_sample) (refl, refl, refl)

module _ {Message : Type 0} (write : Message → WriteParams → Bool) where
  respond_params :
      (l : ServicePubListener) (header : RequestId) (response : Message) (calls : List ListenerCall)
      (params : WriteParams)
      → related_identity header ≡ params
      → find params.writer_guid l.clients_endpoints ≢ none
      → contains params.writer_guid l.subscriptions ≡ true
      → (respond write l header response calls).written ≡ some (response, params)
  respond_params l header response calls params e here subscribed = rw (← e) (
      ap (λ s. s.written)
        (respond_present write l header response calls (rw e here) (rw e subscribed)))

-- What the service knows of a client once its request has been taken.
known_after_request :
    (l : ServicePubListener) (reader writer : Guid)
    → contains reader l.subscriptions ≡ true
    → let l' = endpoint_add_reader_and_writer l reader writer in
      (find reader l'.clients_endpoints ≢ none) × (contains reader l'.subscriptions ≡ true)
unfolding endpoint_add_reader_and_writer
known_after_request l reader writer subscribed =
    (find-added reader writer l.clients_endpoints, subscribed)

module _ {Payload Request Response : Type 0}
    (write_req : Request → WriteParams → Option SampleIdentity) (default_identity : SampleIdentity)
    (deserialize_req : Payload → Option Request) (write_res : Response → WriteParams → Bool)
    (deserialize_res : Payload → Option Response) where
  -- A request that its client wrote, and that the service takes and deserializes while the client's
  -- response reader is among its subscriptions, is answered to that reader: the response is written
  -- without waiting, and a valid sample with the identity that it was written with is taken by the
  -- client, under the sequence number that the client got when it sent the request.
  pub request_answered :
      (client : Client) (request : Request) (id : ℕ) (given : SampleIdentity)
      (l : ServicePubListener) (sample : Sample Payload) (out : TakeOut Request)
      (received : Request) (response : Response) (calls : List ListenerCall) (back : Sample Payload)
      (out' : TakeOut Response) (answer : Response)
      → write_req request (record default_identity { writer_guid = client.reader_guid })
        ≡ some given
      → IsIdentity given
      → IsGuid client.reader_guid
      → client.reader_guid ≢ unknown_guid
      → sample.valid_data ≡ true
      → sample.sample_identity ≡ given
      → sample.related_sample_identity.writer_guid ≡ client.reader_guid
      → deserialize_req sample.payload ≡ some received
      → contains client.reader_guid l.subscriptions ≡ true
      → let params : WriteParams = record given { writer_guid = client.reader_guid } in
        back.valid_data ≡ true
        → back.related_sample_identity ≡ params
        → deserialize_res back.payload ≡ some answer
        → let request_sent = write_request write_req default_identity client request id in
          let took = take_sample deserialize_req l (some sample) out in
          let sent = respond write_res took.0 took.1.header.request_id response calls in
          let got = take_response_sample deserialize_res client (some back) out' in
          (took.1.message ≡ received)
          × (sent.written ≡ some (response, params))
          × (got.taken ≡ true)
          × (got.message ≡ answer)
          × (got.header.request_id.sequence_number ≡ request_sent.left)
  request_answered client request id given l sample out received response calls back out' answer
        wrote words v known valid same own read subscribed valid' same' read' =
      let reader = client.reader_guid in
      let params : WriteParams = record given { writer_guid = reader } in
      let reader' = sample.related_sample_identity.writer_guid in
      let l' = endpoint_add_reader_and_writer l reader' sample.sample_identity.writer_guid in
      let known_client =
        known_after_request l reader' sample.sample_identity.writer_guid
          (subst (λ g. contains g l.subscriptions ≡ true) (sym own) subscribed) in
      let answered : answered_to sample ≡ params =
        answered_to_reader deserialize_req sample reader own known
        ∙ ap (λ (s : SampleIdentity). record s { writer_guid = reader }) same in
      let related =
        related_identity-request_out deserialize_req sample out received read (rw same words)
          (rw answered v)
        ∙ answered in
      let got = take_own_response deserialize_res client back out' answer valid' (rw same') read' in
      (
        rw (take_valid deserialize_req l sample out valid)
            (unfold request_out in rw (read, request_out)),
        rw (take_valid deserialize_req l sample out valid) (
            respond_params write_res l' (request_out deserialize_req sample out).header.request_id
              response calls params related
              (subst (λ g. find g l'.clients_endpoints ≢ none) own known_client.0)
              (subst (λ g. contains g l'.subscriptions ≡ true) own known_client.1)),
        got.0,
        got.1,
        got.2 ∙ rw same' (unfold write_request in rw (wrote, write_request)),
      )
