-- ===== src/Qos/Data.antt =====
-- Data readers and writers: fill_data_entity_qos_from_profile, get_datareader_qos and
-- get_datawriter_qos of rmw_fastrtps_shared_cpp/src/qos.cpp. The encodings of type hashes by
-- rmw_dds_common are parameters, `none` where they fail.
pub mod UserData
use rmw_fastrtps.Prelude.{Bool, true, false, Option, none, some, List, [], ◌∷◌, ◌++◌}
use rmw_fastrtps.Text.{Text}
use rmw_fastrtps.Qos.{Profile, EntityQos, Durations, fill_entity_qos_from_profile}
use rmw_fastrtps.Qos.Backends.{encode_buffer_backends}

-- `DataRepresentationId_t`, as far as the code names it.
pub data Representation : Type 0 where
  xcdr_data_representation other_data_representation : Representation

-- `DataReaderQos` and `DataWriterQos`.
pub record DataQos : Type 0 where
  pub entity : EntityQos
  pub user_data : Text
  pub representation : List Representation

abbrev pub text_or_empty : Option Text → Text
text_or_empty none = []
text_or_empty (some text) = text

-- `none` where the pointer to the backends is null.
abbrev pub backends_text : Option (List (Text × Text)) → Text
backends_text none = []
backends_text (some []) = []
backends_text (some (b ∷ backends)) = encode_buffer_backends (b ∷ backends)

-- What follows the policies; a failure leaves the user data and the representation alone.
abbrev pub with_user_data : EntityQos × Bool → Text → DataQos → DataQos × Bool
with_user_data (entity, false) text q = (record q { entity = entity }, false)
with_user_data (entity, true) text q = (record q { entity = entity; user_data = text }, true)

abbrev pub with_representation : DataQos × Bool → DataQos × Bool
with_representation (q, false) = (q, false)
with_representation (q, true) = (record q { representation = xcdr_data_representation ∷ [] }, true)

module _ {Hash : Type 0} (encode_type_hash encode_sertype_hash : Hash → Option Text) where
  abbrev pub hash_text : Hash → Option Hash → Text
  hash_text type_hash none = text_or_empty (encode_type_hash type_hash)
  hash_text type_hash (some ser_type_hash) =
      text_or_empty (encode_type_hash type_hash)
      ++ text_or_empty (encode_sertype_hash ser_type_hash)

  unfoldable pub fill_data_entity_qos_from_profile :
      Durations
      → Profile
      → Hash
      → DataQos
      → Option Hash
      → Option (List (Text × Text))
      → DataQos × Bool
  fill_data_entity_qos_from_profile env qos_policies type_hash q ser_type_hash buffer_backends =
      with_user_data (fill_entity_qos_from_profile env qos_policies q.entity)
        (hash_text type_hash ser_type_hash ++ backends_text buffer_backends) q

  unfoldable pub get_datareader_qos :
      Durations
      → Profile
      → Hash
      → DataQos
      → Option Hash
      → Option (List (Text × Text))
      → DataQos × Bool
  get_datareader_qos env qos_policies type_hash q ser_type_hash buffer_backends =
      with_representation (
        fill_data_entity_qos_from_profile env qos_policies type_hash q ser_type_hash
          buffer_backends)

  abbrev pub get_datawriter_qos :
      Durations
      → Profile
      → Hash
      → DataQos
      → Option Hash
      → Option (List (Text × Text))
      → DataQos × Bool
  get_datawriter_qos env qos_policies type_hash q ser_type_hash buffer_backends =
      with_representation (
        fill_data_entity_qos_from_profile env qos_policies type_hash q ser_type_hash
          buffer_backends)
