-- ===== src/SerializedSize/Bounds/KeySequences.antt =====
-- Keys that are sequences without a bound.
use rmw_fastrtps.Prelude.{ℕ, ◌+◌, ◌*◌, ◌^◌, ◌<◌, ◌≡◌, refl, ◌∙◌, true, false, not, eqb, arith}
use rmw_fastrtps.SerializedSize.{
  TypeId, Members, last, member, Access, MembersType, introspection_c, introspection_cpp,
  MemberInfo, kind_of, Width, one, two, four, eight, width, items,
}
use rmw_fastrtps.SerializedSize.Estimate.{
  estimated_size, member_align, next_field_align, sequence_align,
}
use rmw_fastrtps.SerializedSize.Maximum.{
  Flags, calculate_max_serialized_size, max_size, add_member, head_of, finish,
}
use rmw_fastrtps.SerializedSize.Room.{IsAlignment}
use rmw_fastrtps.SerializedSize.Support.{
  calculated, message_type_support, get_estimated_serialized_key_size, resize_key_buffer,
}

-- A member that is a key, of items in a sequence without a bound.
abbrev pub key_sequence : TypeId → ℕ → MemberInfo
key_sequence type_id offset = record {
  type_id = type_id;
  offset = offset;
  is_array = true;
  array_size = 0;
  is_upper_bound = false;
  string_upper_bound = 0;
  is_key = true;
  is_rosidl_buffer = false;
  has_size_function = true;
  has_get_function = true;
}

abbrev fresh : Flags
fresh = record { max_size_bound = true; is_plain = true; is_key_unbounded = false }

abbrev pub one_member : MemberInfo → Members
one_member info = member info false last last

module _ (alignment : ℕ → ℕ → ℕ) (law : IsAlignment alignment) where
  no_padding : alignment 0 4 ≡ 0
  no_padding = omega (arith, law.aligned 0 four, law.less 0 four)

  item_position : (w : Width) → 4 + alignment 4 (width w) < 12
  item_position one = omega (arith, law.less 4 one)
  item_position two = omega (arith, law.less 4 two)
  item_position four = omega (arith, law.less 4 four)
  item_position eight = omega (arith, law.less 4 eight)

  padding_one : alignment 4 1 ≡ 0
  padding_one = omega (arith, law.less 4 one)

  key_maximum :
      (w : Width) (t : TypeId) (offset : ℕ) (flags : Flags)
      → kind_of t ≡ items w
      → ((calculated alignment true (one_member (key_sequence t offset)) true flags).0
          ≡ 4 + alignment 4 (width w))
        × ((calculated alignment true
              (one_member (key_sequence t offset))
              true
              flags).1.is_key_unbounded
            ≡ flags.is_key_unbounded)
  unfolding calculated calculate_max_serialized_size max_size add_member head_of finish
  key_maximum one t offset flags kind = rw (kind, no_padding, padding_one) (refl, refl)
  key_maximum two t offset flags kind =
      rw (kind, no_padding) (omega (arith, item_position two), refl)
  key_maximum four t offset flags kind =
      rw (kind, no_padding) (omega (arith, item_position four), refl)
  key_maximum eight t offset flags kind =
      rw (kind, no_padding) (omega (arith, item_position eight), refl)

  message_flag :
      (w : Width) (t : TypeId) (offset : ℕ) (flags : Flags)
      → kind_of t ≡ items w
      → (calculated alignment false
          (one_member (key_sequence t offset))
          true
          flags).1.is_key_unbounded
        ≡ flags.is_key_unbounded
  unfolding calculated calculate_max_serialized_size max_size add_member head_of finish
  message_flag w t offset flags kind = rw (kind) refl

  support_key :
      (w : Width) (t : TypeId) (offset : ℕ)
      → kind_of t ≡ items w
      → ((message_type_support alignment
            (one_member (key_sequence t offset))
            true).key_max_serialized_size
          ≡ 4 + alignment 4 (width w))
        × ((message_type_support alignment
              (one_member (key_sequence t offset))
              true).flags.is_key_unbounded
            ≡ false)
  unfolding message_type_support
  support_key w t offset kind =
      let sized : ℕ × Flags =
        calculated alignment false (one_member (key_sequence t offset)) true fresh in
      let (size, flag) = key_maximum w t offset sized.1 kind in
      (size, flag ∙ message_flag w t offset fresh kind)

  key_estimate :
      {M : Type 0} (mem : Access M) (lang : MembersType) (w : Width) (t : TypeId) (offset : ℕ)
      (m : M)
      → kind_of t ≡ items w
      → 0 < mem.size_function (mem.field_at m offset)
      → 12 + width w * mem.size_function (mem.field_at m offset) < 2 ^ 64
      → get_estimated_serialized_key_size alignment mem lang
          (one_member (key_sequence t offset))
          true
          m
        ≡ 4 + alignment 4 (width w) + width w * mem.size_function (mem.field_at m offset)
  unfolding get_estimated_serialized_key_size estimated_size member_align next_field_align
      sequence_align
  key_estimate mem introspection_c w t offset m kind some_items small =
      rw (kind, no_padding) (omega (arith, item_position w, small))
  key_estimate mem introspection_cpp w t offset m kind some_items small =
      let n : ℕ = mem.size_function (mem.field_at m offset) in
      let aligned : not (eqb n 0) ≡ true = ground (arith, some_items) in
      rw (kind, aligned, no_padding) (omega (arith, item_position w, small))

  -- For a message whose one member is a key that is a sequence of numbers without a bound, the flag
  -- for keys without a bound is not set, and the buffer into which the key is serialized is too small
  -- for every message in which the sequence is not empty, and short enough for a `size_t`, with
  -- alignments up to the next multiple.
  pub key_sequence_overflows :
      {M : Type 0} (mem : Access M) (lang : MembersType) (w : Width) (t : TypeId) (offset : ℕ)
      (m : M)
      → kind_of t ≡ items w
      → 0 < mem.size_function (mem.field_at m offset)
      → 12 + width w * mem.size_function (mem.field_at m offset) < 2 ^ 64
      → let ms = one_member (key_sequence t offset) in
        let support = message_type_support alignment ms true in
        (support.flags.is_key_unbounded ≡ false)
        × ((resize_key_buffer alignment mem lang ms true m support).key_max_serialized_size
            < get_estimated_serialized_key_size alignment mem lang ms true m)
  unfolding resize_key_buffer
  key_sequence_overflows mem lang w t offset m kind some_items small =
      let (size, flag) = support_key w t offset kind in
      (
        flag,
        rw (flag, key_estimate mem lang w t offset m kind some_items small)
            (omega (arith, size, positive w _ some_items)),
      )
    where
      positive : (w : Width) (n : ℕ) → 0 < n → 0 < width w * n
      positive one n h = omega (arith, h)
      positive two n h = omega (arith, h)
      positive four n h = omega (arith, h)
      positive eight n h = omega (arith, h)
