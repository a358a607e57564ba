-- ===== src/Qos/Tests.antt =====
-- Qualities of service at concrete inputs. A duration of Fast DDS is infinite if its seconds are the
-- largest, and 0 stands for an unspecified one.
use rmw_fastrtps.Prelude.{
  ℕ, ◌-◌, ◌≡◌, ◌^◌, ap, refl, inl, inr, Bool, true, false, if◌then◌else◌, ◌&&◌, Option, none, some,
  List, [], ◌∷◌, ◌++◌, arith, eqb, list_eq, nat_eq,
}
use Prim.Native.Nat.{max}
use rmw_fastrtps.Prelude.Assoc.{find, contains}
use rmw_fastrtps.Text.{Text, is_empty}
use rmw_fastrtps.Qos.{
  RmwTime, Duration, Profile, EntityQos, Durations, history_keep_last, reliability_reliable,
  durability_volatile, liveliness_automatic, keep_all_history, transient_local_durability,
  best_effort_reliability, manual_by_topic_liveliness, int32_max, fill_entity_qos_from_profile,
  dds_qos_to_rmw_qos,
}
use rmw_fastrtps.Qos.Profiles.{is_acceptable, fill_entity_qos_result}
use rmw_fastrtps.Qos.RoundTrip.{IsDurations, IsDuration, IsExplicit, dds_qos_to_rmw_qos-fill}
use rmw_fastrtps.Qos.Backends.{semicolon, equals, encode_buffer_backends, parse_buffer_backends}
use rmw_fastrtps.Qos.Backends.RoundTrip.{
  IsBackend, IsMap, IsKeyValueParser, parse-encode_buffer_backends,
}
use rmw_fastrtps.Qos.Data.{DataQos, xcdr_data_representation, get_datareader_qos}
use rmw_fastrtps.Qos.Data.UserData.{IsParserAfter, parse-get_datareader_qos}

abbrev same_time : RmwTime → RmwTime → Bool
same_time s t = eqb s.sec t.sec && eqb s.nsec t.nsec

abbrev infinite_duration : Duration
infinite_duration = record { seconds = int32_max; nanosec = 2 ^ 32 - 1 }

abbrev env : Durations
env = record {
  rmw_time_equal = same_time;
  unspecified = record { sec = 0; nsec = 0 };
  rmw_infinite = record { sec = 2 ^ 33; nsec = 1 };
  clamp_rmw_time_to_dds_time = λ t. t;
  infinite = infinite_duration;
  is_infinite = λ d. eqb d.seconds int32_max && eqb d.nanosec (2 ^ 32 - 1);
  two_thirds = λ d. d;
}

env-IsDurations : IsDurations env
env-IsDurations = record {
  equal_refl = λ t. ground arith;
  infinite_is_infinite = refl;
  only_infinite = λ d h. ground arith;
  clamp_small = λ t small normal. refl;
}

abbrev one_second : RmwTime
one_second = record { sec = 1; nsec = 0 }

abbrev profile : Profile
profile = record {
  history = history_keep_last;
  depth = 10;
  reliability = reliability_reliable;
  durability = durability_volatile;
  deadline = one_second;
  lifespan = record { sec = 2 ^ 33; nsec = 1 };
  liveliness = liveliness_automatic;
  liveliness_lease_duration = one_second;
}

abbrev entity : EntityQos
entity = record {
  history_kind = keep_all_history;
  history_depth = 1;
  durability_kind = transient_local_durability;
  reliability_kind = best_effort_reliability;
  lifespan_duration = infinite_duration;
  deadline_period = infinite_duration;
  liveliness_kind = manual_by_topic_liveliness;
  lease_duration = infinite_duration;
  announcement_period = infinite_duration;
}

fill_entity_qos_result_example :
    (fill_entity_qos_from_profile env profile entity).1 ≡ is_acceptable profile 1
fill_entity_qos_result_example = fill_entity_qos_result env profile entity

one_second-IsDuration : IsDuration env one_second
one_second-IsDuration = (
  refl,
  inr (record {
    not_infinite = refl;
    small = omega arith;
    normal = omega arith;
    not_dds_infinite = λ e. omega (arith, ap (λ (d : Duration). d.nanosec) e);
  }),
)

profile-IsExplicit : IsExplicit env profile
profile-IsExplicit = record {
  names_history = inl refl;
  names_durability = inr refl;
  names_reliability = inl refl;
  names_liveliness = inl refl;
  small_depth = omega arith;
  names_deadline = one_second-IsDuration;
  names_lifespan = (refl, inl refl);
  names_lease = one_second-IsDuration;
}

dds_qos_to_rmw_qos-fill_example :
    let filling = fill_entity_qos_from_profile env profile entity in
    (filling.1 ≡ true) × (dds_qos_to_rmw_qos env filling.0 ≡ record profile { depth = max 10 1 })
dds_qos_to_rmw_qos-fill_example =
    dds_qos_to_rmw_qos-fill env env-IsDurations profile entity profile-IsExplicit (omega arith)

-- A parser of entries `key=value;`: the texts between semicolons, each cut at its first sign of
-- equality; it stops at an empty value.
abbrev put_in_front : ℕ → List Text → List Text
put_in_front c [] = (c ∷ []) ∷ []
put_in_front c (w ∷ ws) = (c ∷ w) ∷ ws

abbrev split : Text → List Text
split [] = []
split (c ∷ s) = let rest = split s in if eqb c semicolon then [] ∷ rest else put_in_front c rest

abbrev cut : Text → Text × Text
cut [] = ([], [])
cut (c ∷ s) = let (key, value) = cut s in if eqb c equals then ([], s) else (c ∷ key, value)

abbrev cut_all : List Text → List (Text × Text)
cut_all [] = []
cut_all (w ∷ ws) = let rest = cut_all ws in if is_empty (cut w).1 then [] else cut w ∷ rest

abbrev parse_key_value : Text → List (Text × Text)
parse_key_value s = cut_all (split s)

split_last : (w : Text) → contains semicolon w ≡ false → split (w ++ (semicolon ∷ [])) ≡ w ∷ []
unfolding contains
split_last [] h = refl
split_last (c ∷ w) h = ground (arith, split_last w)

parse_key_value-IsKeyValueParser : IsKeyValueParser parse_key_value
unfolding find
parse_key_value-IsKeyValueParser value not_empty lacks_semicolon =
    rw (split_last value lacks_semicolon, not_empty) refl

abbrev backends : List (Text × Text)
backends = (b'c' ∷ [], b'1' ∷ []) ∷ (b'd' ∷ [], []) ∷ []

cuda-IsBackend : IsBackend (b'c' ∷ [], b'1' ∷ [])
unfolding contains is_empty
cuda-IsBackend = record {
  named = refl;
  name_no_comma = refl;
  name_no_colon = refl;
  name_no_semicolon = refl;
  aux_no_comma = refl;
  aux_no_semicolon = refl;
}

dma-IsBackend : IsBackend (b'd' ∷ [], [])
unfolding contains is_empty
dma-IsBackend = record {
  named = refl;
  name_no_comma = refl;
  name_no_colon = refl;
  name_no_semicolon = refl;
  aux_no_comma = refl;
  aux_no_semicolon = refl;
}

backends-IsMap : IsMap backends
unfolding find
backends-IsMap = (refl, (refl, tt))

parse-encode_buffer_backends_example :
    find
      (b'd' ∷ [])
      (parse_buffer_backends parse_key_value (some (encode_buffer_backends backends)))
    ≡ find (b'd' ∷ []) backends
unfolding find
parse-encode_buffer_backends_example =
    parse-encode_buffer_backends parse_key_value backends parse_key_value-IsKeyValueParser
      (cuda-IsBackend, (dma-IsBackend, tt)) (refl, (refl, tt)) (b'd' ∷ [])

abbrev data_qos : DataQos
data_qos = record { entity = entity; user_data = []; representation = [] }

-- A type hash is encoded as the text that it is: an entry `th=1;` in front of the backends.
abbrev encode_hash : Text → Option Text
encode_hash hash = some hash

abbrev hash : Text
hash = b't' ∷ b'h' ∷ b'=' ∷ b'1' ∷ b';' ∷ []

after_hash-IsParserAfter : IsParserAfter parse_key_value hash
unfolding find is_empty
after_hash-IsParserAfter value not_empty lacks_semicolon =
    rw (split_last value lacks_semicolon, not_empty) refl

parse-get_datareader_qos_example :
    let got =
      get_datareader_qos encode_hash encode_hash env profile hash data_qos none (some backends) in
    (got.1 ≡ is_acceptable profile 1)
    × (got.1 ≡ true
        → (got.0.representation ≡ xcdr_data_representation ∷ [])
          × ((k : Text)
              → find k (parse_buffer_backends parse_key_value (some got.0.user_data))
                ≡ find k backends))
parse-get_datareader_qos_example =
    parse-get_datareader_qos encode_hash encode_hash env profile hash data_qos none
      (b'c' ∷ [], b'1' ∷ []) ((b'd' ∷ [], []) ∷ []) parse_key_value after_hash-IsParserAfter
      (cuda-IsBackend, (dma-IsBackend, tt)) backends-IsMap
