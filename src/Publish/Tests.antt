-- ===== src/Publish/Tests.antt =====
-- A serialized message at concrete bytes.
use rmw_fastrtps.Prelude.{
  ℕ, ◌^◌, ◌≡◌, refl, true, false, none, some, List, [], ◌∷◌, arith, length, ltb, if◌then◌else◌,
}
use rmw_fastrtps.Rmw.{ret_ok, ret_error}
use rmw_fastrtps.Publish.{cdr_buffer, Payload, Codec, Publisher, publish_serialized_message}
use rmw_fastrtps.Publish.RoundTrip.{
  IsReserving, payload_of, written, taken_from, deserialize-publish,
}

abbrev codec : Codec ℕ ℕ
codec = record {
  serialize_ros_message = λ m n. none;
  deserialize_ros_message = λ bytes. none;
  estimated_serialized_size = λ ser_data. 0;
  serialize_dynamic = λ d p. none;
  deserialize_dynamic = λ p. none;
}

abbrev reserve : ℕ → Payload
reserve n = record {
  bytes = 0 ∷ [];
  payload_length = 0;
  max_size = if ltb n (2 ^ 32) then n else 0;
  big_endian = false;
}

reserve-IsReserving : IsReserving reserve
reserve-IsReserving = record { enough = λ n h. ground arith; word = λ n. ground arith }

abbrev publisher : Publisher
publisher = record { implementation_identifier = 1; can_loan_messages = false; has_info = true }

abbrev bytes : List ℕ
bytes = 4 ∷ 5 ∷ 6 ∷ []

deserialize-publish_example :
    (publish_serialized_message
        (written codec reserve reserve-IsReserving)
        1
        (λ b. true)
        false
        (some publisher)
        (some bytes)
      ≡ (if ltb (length bytes) (2 ^ 32) then ret_ok else ret_error))
    × (taken_from codec reserve reserve-IsReserving
          (payload_of codec reserve reserve-IsReserving (cdr_buffer bytes false))
        ≡ (if ltb (length bytes) (2 ^ 32) then some (cdr_buffer bytes false) else none))
deserialize-publish_example =
    deserialize-publish codec reserve reserve-IsReserving 1 (λ b. true) false publisher bytes refl
      refl refl
