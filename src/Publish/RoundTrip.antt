-- ===== src/Publish/RoundTrip.antt =====
-- A serialized message from its publication to the buffer of a take:
-- rmw_fastrtps_shared_cpp/src/rmw_publish.cpp and src/TypeSupport_impl.cpp.
use rmw_fastrtps.Prelude.{
  ℕ, ◌%◌, ◌^◌, ◌≤◌, ◌<◌, ◌≡◌, refl, ap, ◌∙◌, Bool, true, false, Option, none, some, List, [], ◌++◌,
  length, take, drop, take_append, arith, leb, ltb, eqb, if◌then◌else◌, inl, inr, Bool-cases,
}
use rmw_fastrtps.Rmw.{RmwRet, ret_ok, ret_error}
use rmw_fastrtps.Publish.{
  SerializedData, cdr_buffer, Payload, Codec, fill_payload, serialize, deserialize,
  calculate_serialized_size, Publisher, publish_serialized_message,
}

-- Fast DDS reserves a payload of the size that the type support asks for; `max_size` is a `uint32_t`.
pub record IsReserving (reserve_payload : ℕ → Payload) : Type 0 where
  pub enough : (n : ℕ) → n < 2 ^ 32 → n ≤ (reserve_payload n).max_size
  pub word : (n : ℕ) → (reserve_payload n).max_size < 2 ^ 32

module _ {Message Dynamic : Type 0} (codec : Codec Message Dynamic) (reserve_payload : ℕ → Payload)
    (reserving : IsReserving reserve_payload) where
  -- The payload that a write makes of its data.
  abbrev pub payload_of : SerializedData Message Dynamic → Option Payload
  payload_of ser_data =
      serialize codec ser_data (reserve_payload (calculate_serialized_size codec ser_data))

  abbrev is_written : Option Payload → Bool
  is_written none = false
  is_written (some p) = true

  -- A write that succeeds where the data is serialized.
  abbrev pub written : SerializedData Message Dynamic → Bool
  written ser_data = is_written (payload_of ser_data)

  abbrev write_result : Option Payload → RmwRet
  write_result o = if is_written o then ret_ok else ret_error

  -- What a take into a buffer that can be reserved finds.
  abbrev pub taken_from : Option Payload → Option (SerializedData Message Dynamic)
  taken_from none = none
  taken_from (some p) = deserialize codec true p (cdr_buffer [] false)

  serialized_short :
      (bytes : List ℕ) (big_endian : Bool)
      → length bytes < 2 ^ 32
      → payload_of (cdr_buffer bytes big_endian)
        ≡ some (
            fill_payload bytes big_endian
              (reserve_payload (calculate_serialized_size codec (cdr_buffer bytes big_endian))))
  unfolding serialize calculate_serialized_size
  serialized_short bytes big_endian h =
      let size = length bytes % 2 ^ 32 in
      let fits : leb (length bytes) (reserve_payload size).max_size ≡ true =
        ground (arith, reserving.enough size) in
      rw (serialize, fits) refl

  serialized_long :
      (bytes : List ℕ) (big_endian : Bool)
      → 2 ^ 32 ≤ length bytes
      → payload_of (cdr_buffer bytes big_endian) ≡ none
  unfolding serialize calculate_serialized_size
  serialized_long bytes big_endian h =
      let size = length bytes % 2 ^ 32 in
      let over : leb (length bytes) (reserve_payload size).max_size ≡ false =
        ground (arith, reserving.word size) in
      rw (serialize, over) refl

  taken_bytes :
      (bytes : List ℕ) (big_endian : Bool) (p : Payload)
      → length bytes < 2 ^ 32
      → taken_from (some (fill_payload bytes big_endian p)) ≡ some (cdr_buffer bytes false)
  unfolding deserialize
  taken_bytes bytes big_endian p h =
      let whole : length bytes % 2 ^ 32 ≡ length bytes = omega arith in
      ap (λ b. some (cdr_buffer b false))
        (ap (λ n. take n (bytes ++ drop (length bytes) p.bytes)) whole
          ∙ take_append bytes (drop (length bytes) p.bytes))

  -- The publication of a serialized message by a publisher of this implementation with its custom
  -- information, where the `Cdr` jumps behind the bytes and a write fails only if the data is not
  -- serialized: with fewer than 2 ^ 32 bytes it returns RMW_RET_OK, and a take into a buffer finds
  -- the bytes of the message, all of them and no others; with more, whose number does not fit the
  -- size of a payload, it returns RMW_RET_ERROR and no truncated payload is written.
  pub deserialize-publish :
      (identifier : ℕ) (jump : List ℕ → Bool) (big_endian : Bool) (p : Publisher) (bytes : List ℕ)
      → p.implementation_identifier ≡ identifier
      → p.has_info ≡ true
      → jump bytes ≡ true
      → (publish_serialized_message written identifier jump big_endian (some p) (some bytes)
          ≡ (if ltb (length bytes) (2 ^ 32) then ret_ok else ret_error))
        × (taken_from (payload_of (cdr_buffer bytes big_endian))
            ≡ (if ltb (length bytes) (2 ^ 32) then some (cdr_buffer bytes false) else none))
  unfolding publish_serialized_message deserialize
  deserialize-publish identifier jump big_endian p bytes same info jumps =
      let ours : eqb p.implementation_identifier identifier ≡ true = ground (arith, same) in
      let ser_data : SerializedData Message Dynamic = cdr_buffer bytes big_endian in
      let code : publish_serialized_message written identifier jump big_endian (some p) (some bytes)
          ≡ write_result (payload_of ser_data) =
        rw (publish_serialized_message, ours, info, jumps) refl in
      elim (Bool-cases (ltb (length bytes) (2 ^ 32))) [
        | inl short ↦
            let h : length bytes < 2 ^ 32 = ground arith in
            let made = serialized_short bytes big_endian h in
            rw (short) (
              code ∙ ap write_result made,
              ap taken_from made
                  ∙ taken_bytes bytes big_endian
                      (reserve_payload (calculate_serialized_size codec ser_data)) h,
            )
        | inr long ↦
            let h : 2 ^ 32 ≤ length bytes = ground arith in
            let refused = serialized_long bytes big_endian h in
            rw (long) (code ∙ ap write_result refused, ap taken_from refused)
      ]
