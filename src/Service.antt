-- ===== src/Service.antt =====
-- Requests and responses: rmw_fastrtps_shared_cpp/include/rmw_fastrtps_shared_cpp/
-- custom_service_info.hpp (what a service knows of its clients), src/rmw_request.cpp and
-- src/rmw_response.cpp. An `int32_t` is its bit pattern. What other threads do to the listener while
-- `wait_for_subscription` sleeps is a list of calls, after each of which the predicate is evaluated.
pub mod Listener
pub mod Request
pub mod Response
pub mod RoundTrip
pub mod Outcomes
mod Tests
use rmw_fastrtps.Prelude.{
  ℕ, ◌+◌, ◌-◌, ◌*◌, ◌/◌, ◌%◌, ◌^◌, Bool, true, false, not, ◌||◌, Option, none, some, List, [], ◌∷◌,
  get_elem?, eqb, if◌then◌else◌, ◌==◌,
}
use rmw_fastrtps.Rmw.{
  RmwRet, ret_ok, ret_error, ret_timeout, ret_invalid_argument, ret_incorrect_rmw_implementation,
  Guid, guid_eq, unknown_guid,
}
use rmw_fastrtps.Gid.{copy_from_byte_array_to_fastdds_guid, copy_from_fastdds_guid_to_byte_array}
use Listener.{
  ServicePubListener, ListenerCall, ClientPresent, gone, maybe, present, check_for_subscription,
  endpoint_add_reader_and_writer,
}

-- `eprosima::fastdds::rtps::SampleIdentity`, with the two halves of its sequence number.
pub record SampleIdentity : Type 0 where
  pub writer_guid : Guid
  pub high : ℕ
  pub low : ℕ

-- `((int64_t) high) << 32 | low`.
abbrev pub sequence_number_of : SampleIdentity → ℕ
sequence_number_of s = s.high * 2 ^ 32 + s.low

-- The fields of a received sample and its `SampleInfo` that the code reads; `payload` stands for the
-- buffer.
pub record Sample (Payload : Type 0) : Type 0 where
  pub valid_data : Bool
  pub sample_identity : SampleIdentity
  pub related_sample_identity : SampleIdentity
  pub source_timestamp : ℕ
  pub reception_timestamp : ℕ
  pub payload : Payload

-- `rmw_request_id_t` and `rmw_service_info_t`.
pub record RequestId : Type 0 where
  pub writer_guid : List ℕ
  pub sequence_number : ℕ

pub record ServiceInfo : Type 0 where
  pub source_timestamp : ℕ
  pub received_timestamp : ℕ
  pub request_id : RequestId

-- `rmw_client_t` with the parts of its `CustomClientInfo` that the code reads; `rmw_service_t` with
-- the listener of its `CustomServiceInfo`.
pub record Client : Type 0 where
  pub implementation_identifier : ℕ
  pub reader_guid : Guid
  pub writer_guid : Guid

pub record Service : Type 0 where
  pub implementation_identifier : ℕ
  pub pub_listener : ServicePubListener

-- What a write is given beside the message: `WriteParams::related_sample_identity`.
abbrev pub WriteParams : Type 0
WriteParams = SampleIdentity

-- What a call did: the code that it returned, the write that it made, and what it leaves behind (the
-- listener, and the values of the arguments that it may set).
pub record Sent (Message Left : Type 0) : Type 0 where
  pub code : RmwRet
  pub written : Option (Message × WriteParams)
  pub left : Left

-- The arguments of a take that it may set: the header, the message and `*taken`.
pub record TakeOut (Message : Type 0) : Type 0 where
  pub header : ServiceInfo
  pub message : Message
  pub taken : Bool
