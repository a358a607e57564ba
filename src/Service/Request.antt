-- ===== src/Service/Request.antt =====
-- rmw_fastrtps_shared_cpp/src/rmw_request.cpp. The writer, the reader and the type support of Fast
-- DDS are parameters: `write` answers a write with the sample's identity, or `none` where the code is
-- not `RETCODE_OK`; the sample that `take` gives is an argument, and `deserialize` reads its payload.
use rmw_fastrtps.Prelude.{ℕ, true, false, not, Option, none, some, eqb, if◌then◌else◌, ◌==◌}
use rmw_fastrtps.Rmw.{
  RmwRet, ret_ok, ret_error, ret_invalid_argument, ret_incorrect_rmw_implementation, guid_eq,
  unknown_guid,
}
use rmw_fastrtps.Gid.{copy_from_fastdds_guid_to_byte_array}
use rmw_fastrtps.Service.{
  SampleIdentity, sequence_number_of, Sample, Client, Service, WriteParams, Sent, TakeOut,
}
use rmw_fastrtps.Service.Listener.{ServicePubListener, endpoint_add_reader_and_writer}

module _ {Message : Type 0} (write : Message → WriteParams → Option SampleIdentity)
    (default_identity : SampleIdentity) where
  -- The part behind the checks. `left` is `*sequence_id`.
  unfoldable pub write_request : Client → Message → ℕ → Sent Message ℕ
  write_request info ros_request sequence_id =
      let params : WriteParams = record default_identity { writer_guid = info.reader_guid } in
      elim (write ros_request params) [
        | some sample_identity ↦ record {
          code = ret_ok;
          written = some (ros_request, params);
          left = sequence_number_of sample_identity;
        }
        | none ↦ record {
          code = ret_error;
          written = some (ros_request, params);
          left = sequence_id;
        }
      ]

  -- `left` is `none` where `sequence_id` is null.
  unfoldable pub send_request :
      ℕ → Option Client → Option Message → Option ℕ → Sent Message (Option ℕ)
  send_request identifier client ros_request sequence_id =
      let refuse : RmwRet → Sent Message (Option ℕ) =
        λ c. record { code = c; written = none; left = sequence_id } in
      elim client [
        | none ↦ refuse ret_invalid_argument
        | some info ↦
            if not (eqb info.implementation_identifier identifier)
            then refuse ret_incorrect_rmw_implementation
            else elim ros_request [
              | none ↦ refuse ret_invalid_argument
              | some message ↦ elim sequence_id [
                | none ↦ refuse ret_invalid_argument
                | some id ↦
                    let sent = write_request info message id in
                    record { code = sent.code; written = sent.written; left = some sent.left }
              ]
            ]
      ]

-- The identity that a request is answered to: the reader of its client if the request names one.
unfoldable pub answered_to : {Payload : Type 0} → Sample Payload → SampleIdentity
answered_to sample =
    let reader_guid = sample.related_sample_identity.writer_guid in
    if not (reader_guid == unknown_guid)
    then record (sample.sample_identity) { writer_guid = reader_guid }
    else sample.sample_identity

module _ {Payload Message : Type 0} (deserialize : Payload → Option Message) where
  unfoldable pub request_out : Sample Payload → TakeOut Message → TakeOut Message
  unfolding answered_to
  request_out sample out = elim (deserialize sample.payload) [
    | none ↦ out
    | some message ↦
        let identity = answered_to sample in
        record {
          header = record {
            source_timestamp = sample.source_timestamp;
            received_timestamp = sample.source_timestamp;
            request_id = record {
              writer_guid =
                  copy_from_fastdds_guid_to_byte_array identity.writer_guid
                    out.header.request_id.writer_guid;
              sequence_number = sequence_number_of identity;
            };
          };
          message = message;
          taken = true;
        }
  ]

  -- The part behind the checks, for what `take` gave (`none` where its code is not `RETCODE_OK`).
  unfoldable pub take_sample :
      ServicePubListener
      → Option (Sample Payload)
      → TakeOut Message
      → ServicePubListener × TakeOut Message
  take_sample l received out = elim received [
    | none ↦ (l, out)
    | some sample ↦ if not sample.valid_data then (l, out) else (
      endpoint_add_reader_and_writer l sample.related_sample_identity.writer_guid
          sample.sample_identity.writer_guid,
      request_out sample out,
    )
  ]

  -- The arguments `request_header`, `ros_request` and `taken` are null together or not at all here;
  -- the code checks them one after the other, with the same code.
  unfoldable pub take_request :
      ℕ
      → Option Service
      → Option (TakeOut Message)
      → Option (Sample Payload)
      → RmwRet × Option ServicePubListener × Option (TakeOut Message)
  take_request identifier service arguments received = elim service [
    | none ↦ (ret_invalid_argument, none, arguments)
    | some s ↦
        if not (eqb s.implementation_identifier identifier)
        then (ret_incorrect_rmw_implementation, some s.pub_listener, arguments)
        else elim arguments [
          | none ↦ (ret_invalid_argument, some s.pub_listener, none)
          | some out ↦
              let (l, out') = take_sample s.pub_listener received (record out { taken = false }) in
              (ret_ok, some l, some out')
        ]
  ]
