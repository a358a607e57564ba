-- ===== src/SerializedSize/Maximum.antt =====
-- `calculateMaxSerializedSize`.
use rmw_fastrtps.Prelude.{
  ℕ, zero, suc, ◌+◌, ◌*◌, ◌%◌, ◌^◌, Bool, true, false, ◌&&◌, ◌||◌, eqb, ltb, if◌then◌else◌,
}
use rmw_fastrtps.SerializedSize.{
  Width, one, two, four, eight, width, Kind, items, octets, messages, texts, kind_of, MemberInfo,
  Members, last, member, is_skipped, advance, distance, for_each,
}

pub record Flags : Type 0 where
  pub max_size_bound : Bool
  pub is_plain : Bool
  pub is_key_unbounded : Bool

pub record MaxState : Type 0 where
  pub current_alignment : ℕ
  pub last_member_size : ℕ
  pub flags : Flags

abbrev pub elements_of : MemberInfo → ℕ
elements_of info = if info.is_array then info.array_size else 1

abbrev pub is_sequence : MemberInfo → Bool
is_sequence info = info.is_array && (eqb info.array_size 0 || info.is_upper_bound)

-- The size of a member's type, its flags, and the position behind it.
abbrev pub add_size : ℕ × Flags → MaxState → MaxState
add_size (curr, flags) st = record {
  current_alignment = advance curr st.current_alignment;
  last_member_size = advance curr st.last_member_size;
  flags = flags;
}

unfoldable pub add_messages : ℕ → (ℕ → Flags → ℕ × Flags) → MaxState → MaxState
add_messages zero size st = st
add_messages (suc n) size st =
    add_messages n size (add_size (size st.current_alignment st.flags) st)

module _ (alignment : ℕ → ℕ → ℕ) (compute_key : Bool) where
  -- Whether a member is unbounded, and whether it is a sequence.
  unfoldable pub head_of : MemberInfo → MaxState → MaxState
  head_of info st = record st {
    current_alignment =
        if is_sequence info
        then advance (4 + alignment st.current_alignment 4) st.current_alignment
        else st.current_alignment;
    last_member_size = 0;
    flags = record (st.flags) {
      max_size_bound =
          if info.is_array && eqb info.array_size 0 then false else st.flags.max_size_bound;
      is_plain = if is_sequence info then false else st.flags.is_plain;
    };
  }

  -- No alignment is added for items of one byte.
  abbrev pub item_padding : Width → ℕ → ℕ
  item_padding one current = 0
  item_padding two current = alignment current 2
  item_padding four current = alignment current 4
  item_padding eight current = alignment current 8

  abbrev pub add_items : Width → ℕ → MaxState → MaxState
  add_items w n st = record st {
    current_alignment =
        advance (n * width w + item_padding w st.current_alignment) st.current_alignment;
    last_member_size = (n * width w) % 2 ^ 64;
  }

  abbrev pub add_texts : ℕ → ℕ → ℕ → ℕ → MaxState → MaxState
  add_texts character_size extra_char upper n st = record st {
    current_alignment =
        for_each n 0 (λ i c. advance (4 + alignment c 4 + character_size * (upper + extra_char)) c)
          st.current_alignment;
    flags = record {
      max_size_bound = false;
      is_plain = false;
      is_key_unbounded = compute_key || st.flags.is_key_unbounded;
    };
  }

  unfoldable pub add_member : (ℕ → Flags → ℕ × Flags) → Kind → MemberInfo → MaxState → MaxState
  unfolding add_messages
  add_member size (items w) info st = add_items w (elements_of info) st
  add_member size octets info st = add_items one (elements_of info) st
  add_member size (texts c extra) info st =
      add_texts c extra info.string_upper_bound (elements_of info) st
  add_member size messages info st = add_messages (elements_of info) size st

  -- What follows the loop, with the offset of the last member.
  unfoldable pub finish : ℕ → ℕ → MaxState → ℕ × Flags
  finish initial last_offset st =
      let ret_val = distance st.current_alignment initial in
      (
        ret_val,
        record (st.flags) {
          is_plain =
              if ltb 0 st.last_member_size && st.flags.is_plain
              then eqb (advance st.last_member_size last_offset) ret_val
              else st.flags.is_plain;
        },
      )

  unfoldable pub max_size : Members → Bool → ℕ → ℕ → MaxState → ℕ × Flags
  unfolding head_of add_member finish
  max_size last has_key initial last_offset st = finish initial last_offset st
  max_size (member info sub_has_key sub rest) has_key initial last_offset st =
      elim (is_skipped compute_key has_key info) [
        | true ↦ max_size rest has_key initial info.offset st
        | false ↦ max_size rest has_key initial info.offset (
            add_member
              (λ c flags.
                max_size sub sub_has_key c 0
                  (record { current_alignment = c; last_member_size = 0; flags = flags }))
              (kind_of info.type_id) info (head_of info st))
      ]

  unfoldable pub calculate_max_serialized_size : Members → Bool → ℕ → Flags → ℕ × Flags
  unfolding max_size
  calculate_max_serialized_size members has_key current flags =
      max_size members has_key current 0
        (record { current_alignment = current; last_member_size = 0; flags = flags })
