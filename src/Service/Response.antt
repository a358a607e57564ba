-- ===== src/Service/Response.antt =====
-- rmw_fastrtps_shared_cpp/src/rmw_response.cpp, with the parameters of `Request`.
use rmw_fastrtps.Prelude.{
  ℕ, ◌/◌, ◌%◌, ◌^◌, Bool, true, false, not, ◌||◌, Option, none, some, List, get_elem?, eqb,
  if◌then◌else◌, ◌==◌,
}
use rmw_fastrtps.Rmw.{
  RmwRet, ret_ok, ret_error, ret_timeout, ret_invalid_argument, ret_incorrect_rmw_implementation,
  Guid, guid_eq,
}
use rmw_fastrtps.Gid.{copy_from_byte_array_to_fastdds_guid}
use rmw_fastrtps.Service.{
  SampleIdentity, sequence_number_of, Sample, RequestId, Client, Service, WriteParams, Sent,
  TakeOut,
}
use rmw_fastrtps.Service.Listener.{
  ServicePubListener, ListenerCall, ClientPresent, failure, gone, maybe, present,
  check_for_subscription,
}

-- `(guid.entityId.value[3] & 0x04) != 0`: readers have this bit on.
unfoldable pub is_reader : Guid → Bool
is_reader guid = elim (get_elem? guid.entity_id 3) [
  | none ↦ false
  | some b ↦ not (eqb (b / 4 % 2) 0)
]

-- The related identity that `__rmw_send_response` makes of the header of the request.
unfoldable pub related_identity : RequestId → SampleIdentity
related_identity request_header = record {
  writer_guid = copy_from_byte_array_to_fastdds_guid request_header.writer_guid;
  high = request_header.sequence_number / 2 ^ 32 % 2 ^ 32;
  low = request_header.sequence_number % 2 ^ 32;
}

module _ {Message : Type 0} (write : Message → WriteParams → Bool) where
  unfoldable pub write_response :
      ServicePubListener → Message → WriteParams → Sent Message ServicePubListener
  write_response l ros_response params = record {
    code = if write ros_response params then ret_ok else ret_error;
    written = some (ros_response, params);
    left = l;
  }

  unfoldable pub after_check :
      Message → WriteParams → ServicePubListener × ClientPresent → Sent Message ServicePubListener
  after_check ros_response params (l, gone) = record { code = ret_ok; written = none; left = l }
  after_check ros_response params (l, maybe) = record {
    code = ret_timeout;
    written = none;
    left = l;
  }
  after_check ros_response params (l, failure) = write_response l ros_response params
  after_check ros_response params (l, present) = write_response l ros_response params

  -- The part behind the checks; `calls` is what other threads do to the listener during the wait.
  unfoldable pub respond :
      ServicePubListener → RequestId → Message → List ListenerCall → Sent Message ServicePubListener
  respond l request_header ros_response calls =
      let params = related_identity request_header in
      if is_reader params.writer_guid
      then after_check ros_response params (check_for_subscription l params.writer_guid calls)
      else write_response l ros_response params

  unfoldable pub send_response :
      ℕ
      → Option Service
      → Option RequestId
      → Option Message
      → List ListenerCall
      → Sent Message (Option ServicePubListener)
  send_response identifier service request_header ros_response calls = elim service [
    | none ↦ record { code = ret_invalid_argument; written = none; left = none }
    | some s ↦
        let refuse : RmwRet → Sent Message (Option ServicePubListener) =
          λ c. record { code = c; written = none; left = some s.pub_listener } in
        if not (eqb s.implementation_identifier identifier)
        then refuse ret_incorrect_rmw_implementation
        else elim request_header [
          | none ↦ refuse ret_invalid_argument
          | some header ↦ elim ros_response [
            | none ↦ refuse ret_invalid_argument
            | some message ↦
                let sent = respond s.pub_listener header message calls in
                record { code = sent.code; written = sent.written; left = some sent.left }
          ]
        ]
  ]

module _ {Payload Message : Type 0} (deserialize : Payload → Option Message) where
  -- The part of `__rmw_take_response` behind the checks: a response for another client is dropped.
  unfoldable pub take_response_sample :
      Client → Option (Sample Payload) → TakeOut Message → TakeOut Message
  take_response_sample info received out = elim received [
    | none ↦ out
    | some sample ↦
        let identity = sample.related_sample_identity in
        if not sample.valid_data
        then out
        else if not
            (identity.writer_guid == info.reader_guid || identity.writer_guid == info.writer_guid)
        then out
        else elim (deserialize sample.payload) [
          | none ↦ out
          | some message ↦ record {
            header = record {
              source_timestamp = sample.source_timestamp;
              received_timestamp = sample.reception_timestamp;
              request_id = record (out.header.request_id) {
                sequence_number = sequence_number_of identity;
              };
            };
            message = message;
            taken = true;
          }
        ]
  ]

  unfoldable pub take_response :
      ℕ
      → Option Client
      → Option (TakeOut Message)
      → Option (Sample Payload)
      → RmwRet × Option (TakeOut Message)
  take_response identifier client arguments received = elim client [
    | none ↦ (ret_invalid_argument, arguments)
    | some info ↦
        if not (eqb info.implementation_identifier identifier)
        then (ret_incorrect_rmw_implementation, arguments)
        else elim arguments [
          | none ↦ (ret_invalid_argument, none)
          | some out ↦
              (ret_ok, some (take_response_sample info received (record out { taken = false })))
        ]
  ]
