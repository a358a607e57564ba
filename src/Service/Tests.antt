-- ===== src/Service/Tests.antt =====
-- Requests and responses at concrete inputs.
use rmw_fastrtps.Prelude.{
  ℕ, ◌≡◌, ◌≢◌, ◌^◌, ◌+◌, refl, inl, Bool, true, false, Option, some, List, [], ◌∷◌, ◌++◌, arith,
}
use rmw_fastrtps.Prelude.Assoc.{find, contains, emplace}
use rmw_fastrtps.Rmw.{Guid, IsGuid, guid_eq, unknown_guid}
use rmw_fastrtps.Service.{SampleIdentity, Sample, RequestId, Client, WriteParams, Sent, TakeOut}
use rmw_fastrtps.Service.Listener.{
  ServicePubListener, ListenerCall, publication_matched, request_taken, apply,
  endpoint_add_reader_and_writer, minus_one, on_publication_matched, on_subscription_matched,
}
use rmw_fastrtps.Service.Listener.Pairing.{
  IsPaired, Reach, here, next, Reach-IsPaired, IsPaired-nil,
}
use rmw_fastrtps.Service.Listener.Waiting.{IsGone, check-unmatched}
use rmw_fastrtps.Service.Request.{write_request, take_sample}
use rmw_fastrtps.Service.Response.{respond, take_response_sample}
use rmw_fastrtps.Service.RoundTrip.{IsIdentity, request_answered}

abbrev prefix : List ℕ
prefix = 1 ∷ 2 ∷ 3 ∷ 4 ∷ 5 ∷ 6 ∷ 7 ∷ 8 ∷ 9 ∷ 10 ∷ 11 ∷ 12 ∷ []

abbrev reader : Guid
reader = record { guid_prefix = prefix; entity_id = 0 ∷ 0 ∷ 18 ∷ 4 ∷ [] }

abbrev writer : Guid
writer = record { guid_prefix = prefix; entity_id = 0 ∷ 0 ∷ 17 ∷ 3 ∷ [] }

abbrev at_start : ServicePubListener
at_start = record { subscriptions = []; clients_endpoints = [] }

abbrev matched : ServicePubListener
matched = record { subscriptions = reader ∷ []; clients_endpoints = [] }

abbrev calls : List ListenerCall
calls = publication_matched 1 reader ∷ request_taken reader writer ∷ []

reader_not_writer : reader ≢ writer
reader_not_writer e = cc

reach : Reach at_start (apply at_start (request_taken reader writer))
unfolding find
reach = next here (request_taken reader writer) (reader_not_writer, inl (refl, refl))

Reach-IsPaired_example : IsPaired (apply at_start (request_taken reader writer)).clients_endpoints
Reach-IsPaired_example = Reach-IsPaired IsPaired-nil reach

abbrev paired : ServicePubListener
paired = record {
  subscriptions = reader ∷ [];
  clients_endpoints = (reader, writer) ∷ (writer, reader) ∷ [];
}

abbrev after_request : ServicePubListener
after_request = apply matched (request_taken reader writer)

Reach-request : Reach matched after_request
unfolding find
Reach-request = next here (request_taken reader writer) (reader_not_writer, inl (refl, refl))

after_request-IsPaired : IsPaired after_request.clients_endpoints
after_request-IsPaired = Reach-IsPaired IsPaired-nil Reach-request

after_request_found : find reader after_request.clients_endpoints ≡ some writer
unfolding find apply endpoint_add_reader_and_writer emplace
after_request_found = refl

check-unmatched_example :
    let without_reader = on_publication_matched after_request minus_one reader in
    let without_writer = on_subscription_matched after_request minus_one writer in
    IsGone without_reader reader calls
    × IsGone without_reader writer calls
    × IsGone without_writer reader calls
    × IsGone without_writer writer calls
check-unmatched_example =
    check-unmatched after_request reader writer calls after_request-IsPaired after_request_found

abbrev given : SampleIdentity
given = record { writer_guid = writer; high = 1; low = 7 }

-- A reader that has an endpoint and whose subscription is matched while the call waits.
abbrev unmatched_yet : ServicePubListener
unmatched_yet = record after_request { subscriptions = [] }

-- The header that the request of the reader is answered with.
abbrev reader_header : RequestId
reader_header = record { writer_guid = prefix ++ reader.entity_id; sequence_number = 2 ^ 32 + 7 }

abbrev answer : Sent ℕ ServicePubListener
answer = respond (λ (m : ℕ) (p : WriteParams). true) unmatched_yet reader_header 5 calls

abbrev client : Client
client = record { implementation_identifier = 1; reader_guid = reader; writer_guid = writer }

-- The writer gives every request the same identity; payloads are the messages.
abbrev write_req : ℕ → WriteParams → Option SampleIdentity
write_req m p = some given

abbrev write_res : ℕ → WriteParams → Bool
write_res m p = true

abbrev request_sample : Sample ℕ
request_sample = record {
  valid_data = true;
  sample_identity = given;
  related_sample_identity = record given { writer_guid = reader };
  source_timestamp = 10;
  reception_timestamp = 11;
  payload = 3;
}

abbrev response_sample : Sample ℕ
response_sample = record {
  valid_data = true;
  sample_identity = given;
  related_sample_identity = record given { writer_guid = reader };
  source_timestamp = 12;
  reception_timestamp = 13;
  payload = 4;
}

abbrev out : TakeOut ℕ
out = record {
  header = record {
    source_timestamp = 0;
    received_timestamp = 0;
    request_id = record { writer_guid = []; sequence_number = 0 };
  };
  message = 0;
  taken = false;
}

given-IsIdentity : IsIdentity given
given-IsIdentity = record { high_word = omega arith; low_word = omega arith }

reader-IsGuid : IsGuid reader
reader-IsGuid = record { prefix_length = refl; entity_length = refl }

reader_known : reader ≢ unknown_guid
reader_known e = cc

request_answered_example :
    let request_sent = write_request write_req given client 3 0 in
    let took = take_sample (λ p. some p) matched (some request_sample) out in
    let sent = respond write_res took.0 took.1.header.request_id 4 calls in
    let got = take_response_sample (λ p. some p) client (some response_sample) out in
    (took.1.message ≡ 3)
    × (sent.written ≡ some (4, record given { writer_guid = reader }))
    × (got.taken ≡ true)
    × (got.message ≡ 4)
    × (got.header.request_id.sequence_number ≡ request_sent.left)
unfolding contains
request_answered_example =
    request_answered write_req given (λ p. some p) write_res (λ p. some p) client 3 0 given matched
      request_sample out 3 4 calls response_sample out 4 refl given-IsIdentity reader-IsGuid
      reader_known refl refl refl refl refl refl refl refl
