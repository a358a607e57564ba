-- ===== src/Take.antt =====
-- Taking messages: rmw_fastrtps_shared_cpp/src/rmw_take.cpp. The data reader of Fast DDS is an
-- interface, `DataReader`. A loop that takes until a sample is accepted runs on fuel; its result is
-- `none` where the fuel is used up. The arguments that a call may set are passed on.
pub mod Message
pub mod Sequence
pub mod Loan
pub mod Laws
pub mod Accepted
pub mod Filled
pub mod Serialized
pub mod Extended
pub mod Prefix
pub mod Distinct
pub mod Held
pub mod Loaned
mod Tests
use rmw_fastrtps.Prelude.{
  ℕ, zero, suc, Bool, true, false, not, ◌&&◌, Option, none, some, List, replicate, eqb,
  if◌then◌else◌, ◌==◌, list_eq, nat_eq,
}
use rmw_fastrtps.Rmw.{RmwRet, ret_ok, ret_error, ret_incorrect_rmw_implementation, Guid}
use rmw_fastrtps.Gid.{Gid, copy_from_fastdds_guid_to_byte_array}
use rmw_fastrtps.Service.{SampleIdentity, sequence_number_of}

-- `eprosima::fastdds::dds::SampleInfo`, as far as the code reads it; `publication_guid` is the guid
-- that `iHandle2GUID` makes of the publication handle.
pub record SampleInfo : Type 0 where
  pub valid_data : Bool
  pub publication_guid : Guid
  pub sample_identity : SampleIdentity
  pub source_timestamp : ℕ
  pub reception_timestamp : ℕ

-- `rmw_message_info_t`.
pub record MessageInfo : Type 0 where
  pub source_timestamp : ℕ
  pub received_timestamp : ℕ
  pub publication_sequence_number : ℕ
  pub reception_sequence_number : ℕ
  pub publisher_gid : Gid

-- A call of `DataReader::take` for one sample is given what its argument holds and the state of the
-- reader; it answers the sample's info and the two afterwards, or `none` where the code is not
-- `RETCODE_OK`.
pub record DataReader (Message R : Type 0) : Type 0 where
  pub take : Message → R → Option (SampleInfo × Message × R)

-- What `subscription->data` points at, and the subscription.
pub record SubscriberInfo : Type 0 where
  pub reader_guid : Guid

pub record Subscription : Type 0 where
  pub implementation_identifier : ℕ
  pub ignore_local_publications : Bool
  pub can_loan_messages : Bool
  pub subscriber_info : Option SubscriberInfo

-- The arguments of a take; `message_info` may be null.
pub record TakeArguments (Message : Type 0) : Type 0 where
  pub message : Message
  pub message_info : Option MessageInfo
  pub taken : Bool

-- The sizes of a gid's storage, the number that stands for an unsupported sequence number, and the
-- identifier of the implementation.
pub record Settings : Type 0 where
  pub storage_size : ℕ
  pub unsupported : ℕ
  pub identifier : ℕ

unfoldable pub assign_message_info : Settings → SampleInfo → MessageInfo
assign_message_info c sinfo = record {
  source_timestamp = sinfo.source_timestamp;
  received_timestamp = sinfo.reception_timestamp;
  publication_sequence_number = sequence_number_of sinfo.sample_identity;
  reception_sequence_number = c.unsupported;
  publisher_gid = record {
    implementation_identifier = c.identifier;
    bytes =
        copy_from_fastdds_guid_to_byte_array sinfo.sample_identity.writer_guid
          (replicate c.storage_size 0);
  };
}

abbrev pub is_local : SubscriberInfo → SampleInfo → Bool
is_local info sample = sample.publication_guid.guid_prefix == info.reader_guid.guid_prefix

-- Which samples the three loops stop at.
abbrev pub accepts_message : Subscription → SubscriberInfo → SampleInfo → Bool
accepts_message s info sample =
    if s.ignore_local_publications && is_local info sample then false else sample.valid_data

abbrev pub accepts_serialized : Subscription → SubscriberInfo → SampleInfo → Bool
accepts_serialized s info sample =
    if sample.valid_data then not (s.ignore_local_publications && is_local info sample) else false

abbrev pub accepts_dynamic : Subscription → SubscriberInfo → SampleInfo → Bool
accepts_dynamic s info sample = sample.valid_data

module _ {Message R : Type 0} (reader : DataReader Message R) where
  -- Takes until a sample is accepted or none is left: the info of the accepted sample, what the
  -- argument holds, and the reader.
  unfoldable pub take_until :
      (SampleInfo → Bool) → ℕ → Message → R → Option (Option SampleInfo × Message × R)
  take_until accept zero m r = none
  take_until accept (suc fuel) m r = elim (reader.take m r) [
    | none ↦ some (none, m, r)
    | some (sinfo, m', r') ↦ elim (accept sinfo) [
      | true ↦ some (some sinfo, m', r')
      | false ↦ take_until accept fuel m' r'
    ]
  ]
