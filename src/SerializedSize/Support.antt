-- ===== src/SerializedSize/Support.antt =====
-- The sizes that a type support keeps: rmw_fastrtps_dynamic_cpp/src/MessageTypeSupport_impl.hpp, whose
-- constructor ends like the two of src/ServiceTypeSupport_impl.hpp, and what
-- rmw_fastrtps_dynamic_cpp/src/TypeSupport_impl.hpp reads of them.
use rmw_fastrtps.Prelude.{ℕ, ◌+◌, ◌*◌, ◌/◌, ◌%◌, ◌^◌, Bool, true, false, ltb, if◌then◌else◌}
use rmw_fastrtps.SerializedSize.{Members, last, member, Access, MembersType}
use rmw_fastrtps.SerializedSize.Estimate.{estimated_size}
use rmw_fastrtps.SerializedSize.Maximum.{Flags, calculate_max_serialized_size}

pub record Sizes : Type 0 where
  pub max_serialized_type_size : ℕ
  pub key_max_serialized_size : ℕ
  pub is_compute_key_provided : Bool
  pub flags : Flags

-- A `size_t` as a `uint32_t`, added to the size of the encapsulation; one byte for no members.
abbrev pub with_encapsulation : Members → ℕ → ℕ
with_encapsulation last size = 5
with_encapsulation (member info k sub rest) size = (4 + size % 2 ^ 32) % 2 ^ 32

-- `(size + 3) & ~3`.
abbrev pub align_submessage : ℕ → ℕ
align_submessage size = (size + 3) % 2 ^ 32 / 4 * 4

abbrev pub max_or_unchanged : Members → ℕ × Flags → Flags → Flags
max_or_unchanged last sized flags = flags
max_or_unchanged (member info k sub rest) sized flags = sized.1

-- Where the type has a key, its size, which shares the flags.
abbrev pub with_key : Bool → ℕ × Flags → Sizes → Sizes
with_key false sized s = s
with_key true sized s = record s {
  key_max_serialized_size = sized.0;
  is_compute_key_provided = true;
  flags = sized.1;
}

module _ (alignment : ℕ → ℕ → ℕ) where
  unfoldable pub calculated : Bool → Members → Bool → Flags → ℕ × Flags
  unfolding calculate_max_serialized_size
  calculated compute_key members has_key flags =
      calculate_max_serialized_size alignment compute_key members has_key 0 flags

  -- The constructor.
  unfoldable pub message_type_support : Members → Bool → Sizes
  unfolding calculated
  message_type_support members has_key =
      let fresh : Flags = record {
        max_size_bound = true;
        is_plain = true;
        is_key_unbounded = false;
      } in
      let sized : ℕ × Flags = calculated false members has_key fresh in
      let flags : Flags = max_or_unchanged members sized fresh in
      with_key has_key (calculated true members has_key flags) (record {
        max_serialized_type_size = align_submessage (with_encapsulation members sized.0);
        key_max_serialized_size = 0;
        is_compute_key_provided = false;
        flags = flags;
      })

  module _ {M : Type 0} (mem : Access M) (lang : MembersType) where
    -- The size that a message is given to serialize it into.
    unfoldable pub get_estimated_serialized_size : Sizes → Members → Bool → M → ℕ
    get_estimated_serialized_size s last has_key ros_message =
        if s.flags.is_plain then s.max_serialized_type_size else 5
    get_estimated_serialized_size s (member info k sub rest) has_key ros_message =
        let size =
          estimated_size alignment mem lang false (member info k sub rest) has_key ros_message 0
            0 in
        if s.flags.is_plain then s.max_serialized_type_size else (4 + size) % 2 ^ 64

    unfoldable pub get_estimated_serialized_key_size : Members → Bool → M → ℕ
    get_estimated_serialized_key_size members has_key ros_message =
        estimated_size alignment mem lang true members has_key ros_message 0 0

    -- The buffer that a key is serialized into: `get_key_hash_from_ros_message` before it serializes.
    unfoldable pub resize_key_buffer : Members → Bool → M → Sizes → Sizes
    unfolding get_estimated_serialized_key_size
    resize_key_buffer members has_key ros_message s =
        let size = get_estimated_serialized_key_size members has_key ros_message in
        if s.flags.is_key_unbounded
        then record s {
          key_max_serialized_size =
              if ltb s.key_max_serialized_size size then size else s.key_max_serialized_size;
        }
        else s
