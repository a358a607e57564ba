-- ===== src/SerializedSize/Bounds/Buffers.antt =====
-- The sizes that a type support keeps, for the buffers of its messages and keys.
use rmw_fastrtps.Prelude.{
  ℕ, ◌+◌, ◌^◌, ◌≤◌, ◌<◌, ◌≡◌, ◌⊎◌, refl, sym, ◌∙◌, Bool, true, false, ◌&&◌, not, eqb, if◌then◌else◌,
  arith, Bool-cases, inl, inr,
}
use rmw_fastrtps.SerializedSize.{
  Members, last, member, Access, MembersType, Kind, items, octets, texts, messages, kind_of,
  is_skipped,
}
use rmw_fastrtps.SerializedSize.Maximum.{Flags, calculate_max_serialized_size}
use rmw_fastrtps.SerializedSize.Room.{IsAlignment, is_bounded_kind, is_bounded, room}
use rmw_fastrtps.SerializedSize.Support.{
  with_encapsulation, align_submessage, max_or_unchanged, calculated, message_type_support,
  get_estimated_serialized_size, get_estimated_serialized_key_size, resize_key_buffer,
}
use rmw_fastrtps.SerializedSize.Bounds.Largest.{IsWithin, estimated-room}
use rmw_fastrtps.SerializedSize.Bounds.Exact.{max_size-is_bounded, max_size-room}

kind_key :
    (a b : Bool) (k : Kind)
    → (a ≡ true → b ≡ true)
    → is_bounded_kind a k ≡ true
    → is_bounded_kind b k ≡ true
unfolding is_bounded_kind
kind_key a b (items w) m h = refl
kind_key a b octets m h = refl
kind_key a b (texts x y) m h = h
kind_key a b messages m h = m h

with_member :
    (skipped finite all key rest key_rest : Bool)
    → (all ≡ true → key ≡ true)
    → (rest ≡ true → key_rest ≡ true)
    → (finite && all && rest) ≡ true
    → (if skipped then key_rest else finite && key && key_rest) ≡ true
with_member skipped finite all key rest key_rest m n h = ground (arith, m, n, h)

-- The key is a part of the message.
is_bounded_key :
    (ms : Members) (has_key : Bool)
    → is_bounded false ms has_key ≡ true
    → is_bounded true ms has_key ≡ true
unfolding is_bounded
is_bounded_key last has_key h = refl
is_bounded_key (member info sub_has_key sub rest) has_key h =
    with_member (is_skipped true has_key info) (not (info.is_array && eqb info.array_size 0))
      (is_bounded_kind (is_bounded false sub sub_has_key) (kind_of info.type_id))
      (is_bounded_kind (is_bounded true sub sub_has_key) (kind_of info.type_id))
      (is_bounded false rest has_key) (is_bounded true rest has_key)
      (kind_key (is_bounded false sub sub_has_key) (is_bounded true sub sub_has_key)
        (kind_of info.type_id) (is_bounded_key sub sub_has_key))
      (is_bounded_key rest has_key) h

both_flags :
    (flag all key : Bool) → flag ≡ (true && all) → (all ≡ true → key ≡ true) → (flag && key) ≡ all
both_flags flag all key h m = ground (arith, h, m)

abbrev fresh : Flags
fresh = record { max_size_bound = true; is_plain = true; is_key_unbounded = false }

module _ (alignment : ℕ → ℕ → ℕ) (law : IsAlignment alignment) where
  -- For a type whose largest message ends below 2 ^ 64, with alignments up to the next multiple: the
  -- flag for a bounded size is left set exactly if it was set and no string and no sequence without a
  -- bound is among the members that count, however deep; and if there is none, the size calculated
  -- is the position behind the largest message, as described without flags and wrap-around.
  pub calculated-room :
      (key : Bool) (ms : Members) (has_key : Bool) (flags : Flags)
      → room alignment key ms has_key 0 < 2 ^ 64
      → ((calculated alignment key ms has_key flags).1.max_size_bound
          ≡ (flags.max_size_bound && is_bounded key ms has_key))
        × ((is_bounded key ms has_key ≡ false)
            ⊎ ((calculated alignment key ms has_key flags).0 ≡ room alignment key ms has_key 0))
  unfolding calculated calculate_max_serialized_size
  calculated-room key ms has_key flags small = (
    max_size-is_bounded alignment key ms has_key 0 0 _,
    elim (Bool-cases (is_bounded key ms has_key)) [
      | inl b ↦
          inr (max_size-room alignment key law ms has_key 0 0 _ b (omega arith) small ∙ omega arith)
      | inr u ↦ inl u
    ],
  )

  calculated_flag :
      (key : Bool) (ms : Members) (has_key : Bool) (flags : Flags)
      → (calculated alignment key ms has_key flags).1.max_size_bound
        ≡ (flags.max_size_bound && is_bounded key ms has_key)
  unfolding calculated calculate_max_serialized_size
  calculated_flag key ms has_key flags = max_size-is_bounded alignment key ms has_key 0 0 _

  support_bound :
      (ms : Members) (has_key : Bool)
      → (message_type_support alignment ms has_key).flags.max_size_bound
        ≡ is_bounded false ms has_key
  unfolding message_type_support is_bounded
  support_bound last false = refl
  support_bound last true = calculated_flag true last true fresh
  support_bound (member info k sub rest) false =
      calculated_flag false (member info k sub rest) false fresh
  support_bound (member info k sub rest) true =
      let ms : Members = member info k sub rest in
      let sized : ℕ × Flags = calculated alignment false ms true fresh in
      calculated_flag true ms true sized.1
      ∙ both_flags sized.1.max_size_bound (is_bounded false ms true) (is_bounded true ms true)
          (calculated_flag false ms true fresh) (is_bounded_key ms true)

  support_size :
      (ms : Members) (has_key : Bool)
      → (message_type_support alignment ms has_key).max_serialized_type_size
        ≡ align_submessage (with_encapsulation ms (calculated alignment false ms has_key fresh).0)
  unfolding message_type_support
  support_size ms false = refl
  support_size ms true = refl

  bounded_size :
      (ms : Members) (has_key : Bool)
      → (message_type_support alignment ms has_key).flags.max_size_bound ≡ true
      → room alignment false ms has_key 0 < 2 ^ 64
      → (calculated alignment false ms has_key fresh).0 ≡ room alignment false ms has_key 0
  bounded_size ms has_key b small =
      ground (arith, calculated-room false ms has_key fresh, support_bound ms has_key, b, small)

  -- Whatever message of a type without strings and without sequences that have no bound is to be
  -- serialized, with its sequences as long as the type allows and alignments up to the next multiple,
  -- the size that it is given is at most the maximum that its type support has announced, where the
  -- largest message, its encapsulation and the padding are below 2 ^ 32.
  pub estimated_fits :
      {M : Type 0} (mem : Access M) (lang : MembersType) (ms : Members) (has_key : Bool)
      (ros_message : M)
      → (message_type_support alignment ms has_key).flags.max_size_bound ≡ true
      → IsWithin mem ms ros_message
      → room alignment false ms has_key 0 + 7 < 2 ^ 32
      → get_estimated_serialized_size alignment mem lang
          (message_type_support alignment ms has_key)
          ms
          has_key
          ros_message
        ≤ (message_type_support alignment ms has_key).max_serialized_type_size
  unfolding get_estimated_serialized_size
  estimated_fits mem lang last has_key ros_message b w small =
      rw (support_size last has_key) (ground arith)
  estimated_fits mem lang (member info k sub rest) has_key ros_message b w small =
      rw (support_size (member info k sub rest) has_key) (
        ground (
          arith,
          bounded_size (member info k sub rest) has_key b (omega (arith, small)),
          estimated-room alignment law mem lang false (member info k sub rest) has_key ros_message 0
              0 0 (sym (support_bound (member info k sub rest) has_key) ∙ b) w (omega arith)
              (omega arith) (omega (arith, small)),
          small,
        ))

  key_size :
      (ms : Members)
      → is_bounded true ms true ≡ true
      → room alignment true ms true 0 < 2 ^ 64
      → (message_type_support alignment ms true).key_max_serialized_size
        ≡ room alignment true ms true 0
  unfolding message_type_support
  key_size ms b small = ground (
    arith,
    calculated-room true ms true
        (max_or_unchanged ms (calculated alignment false ms true fresh) fresh),
    b,
    small,
  )

  -- The buffer into which the key of a message is serialized has room for it, with alignments up to
  -- the next multiple and the largest key below 2 ^ 64, if the flag for keys without a bound is set,
  -- or nothing of the key is a string or a sequence without a bound and the message's sequences are
  -- as long as the type allows.
  pub key_fits :
      {M : Type 0} (mem : Access M) (lang : MembersType) (ms : Members) (ros_message : M)
      → ((message_type_support alignment ms true).flags.is_key_unbounded ≡ true)
        ⊎ ((is_bounded true ms true ≡ true) × IsWithin mem ms ros_message)
      → room alignment true ms true 0 < 2 ^ 64
      → get_estimated_serialized_key_size alignment mem lang ms true ros_message
        ≤ (resize_key_buffer alignment mem lang ms true ros_message
            (message_type_support alignment ms true)).key_max_serialized_size
  unfolding get_estimated_serialized_key_size resize_key_buffer
  key_fits mem lang ms ros_message (inl flagged) small = rw (flagged) (ground arith)
  key_fits mem lang ms ros_message (inr (b, w)) small = ground (
    arith,
    key_size ms b small,
    estimated-room alignment law mem lang true ms true ros_message 0 0 0 b w (omega arith)
        (omega arith) small,
  )
