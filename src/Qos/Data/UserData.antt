-- ===== src/Qos/Data/UserData.antt =====
-- The buffer backends that an entity announces in its user data.
use rmw_fastrtps.Prelude.{
  ◌≡◌, refl, ap, ◌∙◌, Bool, true, false, Option, some, List, [], ◌∷◌, ◌++◌, All, list_eq, nat_eq,
}
use rmw_fastrtps.Prelude.Assoc.{find, contains}
use rmw_fastrtps.Text.{Text, is_empty}
use rmw_fastrtps.Qos.{Profile, EntityQos, Durations, fill_entity_qos_from_profile}
use rmw_fastrtps.Qos.Profiles.{is_acceptable, fill_entity_qos_result}
use rmw_fastrtps.Qos.Backends.{
  buffer_backend_key, equals, semicolon, encode_buffer_backends, parse_buffer_backends,
  put_backends,
}
use rmw_fastrtps.Qos.Backends.RoundTrip.{
  IsBackend, IsMap, put_not_empty, put_no_semicolon, parsed_back,
}
use rmw_fastrtps.Qos.Data.{
  DataQos, xcdr_data_representation, hash_text, with_user_data, with_representation,
  fill_data_entity_qos_from_profile, get_datareader_qos,
}

-- What rmw's parser promises of an entry that follows some text: its value is found, if it has no
-- semicolon in it and is not empty.
abbrev pub IsParserAfter : (Text → List (Text × Text)) → Text → Type 0
IsParserAfter parse_key_value before =
    (value : Text)
    → is_empty value ≡ false
    → contains semicolon value ≡ false
    → find buffer_backend_key
        (parse_key_value (before ++ (buffer_backend_key ++ (equals ∷ (value ++ (semicolon ∷ []))))))
      ≡ some value

not_empty_after : (s t : Text) → is_empty t ≡ false → is_empty (s ++ t) ≡ false
unfolding is_empty
not_empty_after [] t h = h
not_empty_after (c ∷ s) t h = refl

parse_after :
    (parse_key_value : Text → List (Text × Text)) (before : Text) (b : Text × Text)
    (backends : List (Text × Text))
    → IsParserAfter parse_key_value before
    → All IsBackend (b ∷ backends)
    → IsMap (b ∷ backends)
    → (k : Text)
    → find k (
        parse_buffer_backends parse_key_value
          (some (before ++ encode_buffer_backends (b ∷ backends))))
      ≡ find k (b ∷ backends)
unfolding parse_buffer_backends encode_buffer_backends
parse_after parse before b backends law vs u k =
    rw
      (
        not_empty_after before (encode_buffer_backends (b ∷ backends)) (unfold is_empty in refl),
        law (put_backends true (b ∷ backends)) (put_not_empty b backends)
            (put_no_semicolon true (b ∷ backends) vs),
      )
      (parsed_back b backends vs u k)

-- What `get_datareader_qos` leaves of the outcome of the policies.
abbrev outcome : EntityQos × Bool → Text → DataQos → DataQos × Bool
outcome filling text q = with_representation (with_user_data filling text q)

outcome_of :
    (filling : EntityQos × Bool) (text : Text) (q : DataQos)
    → ((outcome filling text q).1 ≡ filling.1)
      × ((outcome filling text q).1 ≡ true
          → ((outcome filling text q).0.user_data ≡ text)
            × ((outcome filling text q).0.representation ≡ xcdr_data_representation ∷ []))
outcome_of (entity, false) text q = (refl, λ h. cc)
outcome_of (entity, true) text q = (refl, λ h. (refl, refl))

module _ {Hash : Type 0} (encode_type_hash encode_sertype_hash : Hash → Option Text) where
  -- A data reader is configured exactly if its profile can be taken; then its one representation is
  -- XCDR, and the backends parsed out of its user data are those that were given, if there are any,
  -- for names that are not empty and stand once, names and values without separators, and a parser
  -- that finds an entry behind the hashes whose value is not empty and has no semicolon.
  pub parse-get_datareader_qos :
      (env : Durations) (p : Profile) (hash : Hash) (q : DataQos) (ser_hash : Option Hash)
      (b : Text × Text) (backends : List (Text × Text))
      (parse_key_value : Text → List (Text × Text))
      → IsParserAfter parse_key_value (hash_text encode_type_hash encode_sertype_hash hash ser_hash)
      → All IsBackend (b ∷ backends)
      → IsMap (b ∷ backends)
      → let got =
          get_datareader_qos encode_type_hash encode_sertype_hash env p hash q ser_hash
            (some (b ∷ backends)) in
        (got.1 ≡ is_acceptable p q.entity.history_depth)
        × (got.1 ≡ true
            → (got.0.representation ≡ xcdr_data_representation ∷ [])
              × ((k : Text)
                  → find k (parse_buffer_backends parse_key_value (some got.0.user_data))
                    ≡ find k (b ∷ backends)))
  unfolding get_datareader_qos fill_data_entity_qos_from_profile
  parse-get_datareader_qos env p hash q ser_hash b backends parse law vs u =
      let before = hash_text encode_type_hash encode_sertype_hash hash ser_hash in
      let filling = fill_entity_qos_from_profile env p q.entity in
      let (code, rest) = outcome_of filling (before ++ encode_buffer_backends (b ∷ backends)) q in
      (
        code ∙ fill_entity_qos_result env p q.entity,
        λ ok. (
          (rest ok).1,
          λ k.
              ap (λ text. find k (parse_buffer_backends parse (some text))) (rest ok).0
              ∙ parse_after parse before b backends law vs u k,
        ),
      )
