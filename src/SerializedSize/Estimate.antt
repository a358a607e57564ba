-- ===== src/SerializedSize/Estimate.antt =====
-- `getEstimatedSerializedSize` and `next_field_align`.
use rmw_fastrtps.Prelude.{ℕ, ◌+◌, ◌*◌, Bool, true, false, ◌&&◌, not, Option, none, some, eqb}
use rmw_fastrtps.SerializedSize.{
  width, Kind, items, octets, messages, texts, kind_of, MemberInfo, Members, last, member, Access,
  MembersType, introspection_c, introspection_cpp, is_skipped, is_fixed, advance, distance,
  for_each, align,
}

-- `!data.empty()` in the introspection of C++, no test in that of C.
abbrev pub aligns_items : MembersType → ℕ → Bool
aligns_items introspection_c n = true
aligns_items introspection_cpp n = not (eqb n 0)

module _ {M : Type 0} (alignment : ℕ → ℕ → ℕ) (mem : Access M) (lang : MembersType) where
  -- The length of a sequence, then its items.
  unfoldable pub sequence_align : Bool → ℕ → ℕ → ℕ → ℕ
  sequence_align aligned item_size n current =
      let head = advance 4 (align alignment 4 current) in
      elim aligned [
        | true ↦ advance (item_size * n) (align alignment item_size head)
        | false ↦ head
      ]

  unfoldable pub next_field_align : MemberInfo → M → ℕ → ℕ → ℕ
  unfolding sequence_align
  next_field_align info field item_size current = elim info.is_array [
    | false ↦ advance item_size (align alignment item_size current)
    | true ↦ elim (is_fixed info) [
      | true ↦ advance (item_size * info.array_size) (align alignment item_size current)
      | false ↦
          let n = mem.size_function field in
          sequence_align (aligns_items lang n) item_size n current
    ]
  ]

  -- The case of bytes, with that of a `rosidl::Buffer`.
  unfoldable pub octets_align : MemberInfo → M → ℕ → ℕ
  unfolding sequence_align next_field_align
  octets_align info field current =
      elim (info.is_rosidl_buffer && info.is_array && not (is_fixed info)) [
        | true ↦ let n = mem.size_function field in sequence_align (not (eqb n 0)) 1 n current
        | false ↦ next_field_align info field 1 current
      ]

  unfoldable pub text_align : ℕ → ℕ → Option ℕ → ℕ → ℕ
  text_align character_size extra_char none current = current
  text_align character_size extra_char (some n) current =
      advance (character_size * (n + extra_char)) (advance 4 (align alignment 4 current))

  unfoldable pub next_field_align_string : MemberInfo → M → ℕ → ℕ → ℕ → ℕ
  unfolding text_align
  next_field_align_string info field character_size extra_char current = elim info.is_array [
    | false ↦ text_align character_size extra_char (mem.text_size field) current
    | true ↦
        let each : ℕ → ℕ → ℕ =
          λ i. text_align character_size extra_char (mem.text_size (mem.get_function field i)) in
        elim (is_fixed info) [
          | true ↦ for_each info.array_size 0 each current
          | false ↦
              for_each (mem.size_function field) 0 each (advance 4 (align alignment 4 current))
        ]
  ]

  -- The elements of an array or a sequence of messages.
  unfoldable pub elements_align : (M → ℕ → ℕ) → MemberInfo → M → ℕ → ℕ → Option ℕ
  elements_align size info field n current = elim (not (eqb n 0) && not info.has_get_function) [
    | true ↦ none
    | false ↦ some (for_each n 0 (λ i c. advance (size (mem.get_function field i) c) c) current)
  ]

  -- `none` where the code returns early, for want of an accessor.
  unfoldable pub messages_align : (M → ℕ → ℕ) → MemberInfo → M → ℕ → Option ℕ
  unfolding elements_align
  messages_align size info field current = elim info.is_array [
    | false ↦ some (advance (size field current) current)
    | true ↦ elim (is_fixed info) [
      | true ↦ elements_align size info field info.array_size current
      | false ↦ elim info.has_size_function [
        | false ↦ none
        | true ↦
            elements_align size info field (mem.size_function field)
              (advance (4 + alignment current 4) current)
      ]
    ]
  ]

  unfoldable pub member_align : (M → ℕ → ℕ) → Kind → MemberInfo → M → ℕ → Option ℕ
  unfolding next_field_align octets_align next_field_align_string messages_align
  member_align size (items w) info field current =
      some (next_field_align info field (width w) current)
  member_align size octets info field current = some (octets_align info field current)
  member_align size (texts c extra) info field current =
      some (next_field_align_string info field c extra current)
  member_align size messages info field current = messages_align size info field current

  module _ (compute_key : Bool) where
    -- The loop over the members, behind `initial_alignment`.
    unfoldable pub estimated_size : Members → Bool → M → ℕ → ℕ → ℕ
    unfolding member_align
    estimated_size last has_key ros_message initial current = distance current initial
    estimated_size (member info sub_has_key sub rest) has_key ros_message initial current =
        elim (is_skipped compute_key has_key info) [
          | true ↦ estimated_size rest has_key ros_message initial current
          | false ↦
              elim (member_align (λ m c. estimated_size sub sub_has_key m c c)
                (kind_of info.type_id) info (mem.field_at ros_message info.offset) current) [
                  | none ↦ 0
                  | some next ↦ estimated_size rest has_key ros_message initial next
                ]
        ]
