-- ===== src/Publish.antt =====
-- Publishing: rmw_fastrtps_shared_cpp/src/rmw_publish.cpp, and `serialize`, `deserialize` and
-- `calculate_serialized_size` of src/TypeSupport_impl.cpp. The (de)serialization of ROS messages and
-- of dynamic data is a parameter, and so is the write of Fast DDS.
pub mod RoundTrip
mod Tests
use rmw_fastrtps.Prelude.{
  ℕ, ◌+◌, ◌%◌, ◌^◌, Bool, true, false, not, Option, none, some, List, [], ◌∷◌, ◌++◌, length, take,
  drop, leb, eqb, if◌then◌else◌,
}
use rmw_fastrtps.Rmw.{
  RmwRet, ret_ok, ret_error, ret_unsupported, ret_invalid_argument,
  ret_incorrect_rmw_implementation,
}

-- `SerializedData` by its type. The buffer of a `Cdr` is its bytes and whether it is big-endian.
pub data SerializedData (Message Dynamic : Type 0) : Type 0 where
  ros_message : Message → SerializedData Message Dynamic
  cdr_buffer : List ℕ → Bool → SerializedData Message Dynamic
  dynamic_message : Dynamic → SerializedData Message Dynamic

-- `SerializedPayload_t`.
pub record Payload : Type 0 where
  pub bytes : List ℕ
  pub payload_length : ℕ
  pub max_size : ℕ
  pub big_endian : Bool

-- What the two sides make of a ROS message, bounded by the size of the buffer, and of dynamic data.
pub record Codec (Message Dynamic : Type 0) : Type 0 where
  pub serialize_ros_message : Message → ℕ → Option (List ℕ × Bool)
  pub deserialize_ros_message : List ℕ → Option Message
  pub estimated_serialized_size : SerializedData Message Dynamic → ℕ
  pub serialize_dynamic : Dynamic → Payload → Option Payload
  pub deserialize_dynamic : Payload → Option Dynamic

-- The bytes overwrite the first ones; `length` is a `uint32_t`.
abbrev pub fill_payload : List ℕ → Bool → Payload → Payload
fill_payload bytes big_endian payload = record payload {
  bytes = bytes ++ drop (length bytes) payload.bytes;
  payload_length = length bytes % 2 ^ 32;
  big_endian = big_endian;
}

module _ {Message Dynamic : Type 0} (codec : Codec Message Dynamic) where
  unfoldable pub serialize : SerializedData Message Dynamic → Payload → Option Payload
  serialize (ros_message m) payload = elim (codec.serialize_ros_message m payload.max_size) [
    | none ↦ none
    | some (bytes, big_endian) ↦ some (fill_payload bytes big_endian payload)
  ]
  serialize (cdr_buffer bytes big_endian) payload =
      if leb (length bytes) payload.max_size
      then some (fill_payload bytes big_endian payload)
      else none
  serialize (dynamic_message d) payload = codec.serialize_dynamic d payload

  -- What the data holds afterwards, by what it was; `reserved` tells whether the buffer of a take
  -- could be reserved.
  unfoldable pub deserialize :
      Bool → Payload → SerializedData Message Dynamic → Option (SerializedData Message Dynamic)
  deserialize reserved payload (ros_message m) =
      elim (codec.deserialize_ros_message (take payload.payload_length payload.bytes)) [
        | none ↦ none
        | some m' ↦ some (ros_message m')
      ]
  deserialize reserved payload (cdr_buffer bytes big_endian) =
      if reserved
      then some (cdr_buffer (take payload.payload_length payload.bytes) big_endian)
      else none
  deserialize reserved payload (dynamic_message d) = elim (codec.deserialize_dynamic payload) [
    | none ↦ none
    | some d' ↦ some (dynamic_message d')
  ]

  unfoldable pub calculate_serialized_size : SerializedData Message Dynamic → ℕ
  calculate_serialized_size (cdr_buffer bytes big_endian) = length bytes % 2 ^ 32
  calculate_serialized_size ser_data = codec.estimated_serialized_size ser_data % 2 ^ 32

-- `rmw_publisher_t`; `has_info` tells whether its custom information is set.
pub record Publisher : Type 0 where
  pub implementation_identifier : ℕ
  pub can_loan_messages : Bool
  pub has_info : Bool

-- `write` tells whether the code of `write_w_timestamp` is `RETCODE_OK`.
module _ {Message Dynamic : Type 0} (write : SerializedData Message Dynamic → Bool)
    (identifier : ℕ) where
  abbrev pub write_data : SerializedData Message Dynamic → RmwRet
  write_data ser_data = if write ser_data then ret_ok else ret_error

  -- The checks of the first two functions, and the write that follows them.
  abbrev pub publish_checked : {A : Type 0} → Option Publisher → Option A → (A → RmwRet) → RmwRet
  publish_checked none message write_it = ret_invalid_argument
  publish_checked (some p) message write_it =
      if not (eqb p.implementation_identifier identifier)
      then ret_incorrect_rmw_implementation
      else elim message [
        | none ↦ ret_invalid_argument
        | some m ↦ if not p.has_info then ret_error else write_it m
      ]

  unfoldable pub publish : Option Publisher → Option Message → RmwRet
  publish publisher message = publish_checked publisher message λ m. write_data (ros_message m)

  -- `jump` tells whether the `Cdr` can be moved behind the bytes; `big_endian` is its default.
  unfoldable pub publish_serialized_message :
      (List ℕ → Bool) → Bool → Option Publisher → Option (List ℕ) → RmwRet
  publish_serialized_message jump big_endian publisher message =
      publish_checked publisher message
        λ bytes. if jump bytes then write_data (cdr_buffer bytes big_endian) else ret_error

-- The message of a loan is handed to Fast DDS as it is, and not as a `SerializedData`.
unfoldable pub publish_loaned_message :
    {Message : Type 0} → (Message → Bool) → ℕ → Option Publisher → Option Message → RmwRet
publish_loaned_message write_loan identifier none message = ret_invalid_argument
publish_loaned_message write_loan identifier (some p) message =
    if not (eqb p.implementation_identifier identifier)
    then ret_incorrect_rmw_implementation
    else if not p.can_loan_messages
    then ret_unsupported
    else elim message [
      | none ↦ ret_invalid_argument
      | some m ↦ if write_loan m then ret_ok else ret_error
    ]
