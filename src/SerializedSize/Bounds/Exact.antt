-- ===== src/SerializedSize/Bounds/Exact.antt =====
-- The maximum that is calculated for a type against the room of the type.
use rmw_fastrtps.Prelude.{
  ℕ, zero, suc, ◌-◌, ◌^◌, ◌≤◌, ◌<◌, ◌≡◌, refl, sym, subst, ap, ◌∙◌, Bool, true, ◌&&◌, ◌||◌, not,
  eqb, arith, Bool-cases, inl, inr,
}
use rmw_fastrtps.SerializedSize.{
  Width, one, two, four, eight, width, Kind, items, octets, messages, texts, kind_of, MemberInfo,
  Members, last, member, is_skipped, advance,
}
use rmw_fastrtps.SerializedSize.Maximum.{
  Flags, MaxState, elements_of, add_size, add_messages, head_of, item_padding, add_member, finish,
  max_size,
}
use rmw_fastrtps.SerializedSize.Room.{
  IsAlignment, repeat, repeat_up, is_bounded_kind, is_bounded, head_room, kind_room, member_room,
  room, room_up, kind_up, member_up,
}

abbrev pub bound_of : MaxState → Bool
bound_of st = st.flags.max_size_bound

-- `add_messages` asks the size of the element as often as there are elements.
messages_bound :
    (n : ℕ) (size : ℕ → Flags → ℕ × Flags) (within : Bool) (st : MaxState)
    → ((c : ℕ) (f : Flags) → (size c f).1.max_size_bound ≡ (f.max_size_bound && within))
    → bound_of (add_messages n size st) ≡ (bound_of st && (eqb n 0 || within))
unfolding add_messages
messages_bound zero size within st h = ground arith
messages_bound (suc n) size within st h = ground (
  arith,
  h st.current_alignment st.flags,
  messages_bound n size within (add_size (size st.current_alignment st.flags) st) h,
)

messages_position :
    (n : ℕ) (size : ℕ → Flags → ℕ × Flags) (sub : ℕ → ℕ) (st : MaxState)
    → ((c : ℕ) → c ≤ sub c)
    → ((c : ℕ) (f : Flags) → sub c < 2 ^ 64 → (size c f).0 ≡ sub c - c)
    → repeat n sub st.current_alignment < 2 ^ 64
    → (add_messages n size st).current_alignment ≡ repeat n sub st.current_alignment
unfolding add_messages
messages_position zero size sub st u h small = refl
messages_position (suc n) size sub st u h small =
    let c : ℕ = st.current_alignment in
    let less : sub c < 2 ^ 64 = omega (arith, small, repeat_up n sub (sub c) u) in
    let next : advance (size c st.flags).0 c ≡ sub c =
      omega (arith, h c st.flags less, u c, less) in
    messages_position n size sub (add_size (size c st.flags) st) u h
      (subst (λ x. repeat n sub x < 2 ^ 64) (sym next) small)
    ∙ ap (repeat n sub) next

module _ (alignment : ℕ → ℕ → ℕ) (key : Bool) where
  member_bound :
      (size : ℕ → Flags → ℕ × Flags) (within : Bool) (kind : Kind) (info : MemberInfo)
      (st : MaxState)
      → ((c : ℕ) (f : Flags) → (size c f).1.max_size_bound ≡ (f.max_size_bound && within))
      → bound_of (add_member alignment key size kind info (head_of alignment key info st)) ≡ (
          bound_of st
          && (not (info.is_array && eqb info.array_size 0) && is_bounded_kind within kind))
  unfolding add_member head_of is_bounded_kind
  member_bound size within (items w) info st h = ground arith
  member_bound size within octets info st h = ground arith
  member_bound size within (texts c x) info st h = ground arith
  member_bound size within messages info st h =
      ground
        (arith, messages_bound (elements_of info) size within (head_of alignment key info st) h)

  -- What becomes of the flag.
  pub max_size-is_bounded :
      (ms : Members) (has_key : Bool) (initial offset : ℕ) (st : MaxState)
      → (max_size alignment key ms has_key initial offset st).1.max_size_bound
        ≡ (bound_of st && is_bounded key ms has_key)
  unfolding max_size finish is_bounded
  max_size-is_bounded last has_key initial offset st = ground arith
  max_size-is_bounded (member info sub_has_key sub rest) has_key initial offset st =
      elim (Bool-cases (is_skipped key has_key info)) [
        | inl e ↦
            rw (max_size, e)
              (ground (arith, max_size-is_bounded rest has_key initial info.offset st, e))
        | inr e ↦
            let size : ℕ → Flags → ℕ × Flags = λ c f.
              max_size alignment key sub sub_has_key c 0
                (record { current_alignment = c; last_member_size = 0; flags = f }) in
            let after : MaxState =
              add_member alignment key size (kind_of info.type_id) info
                (head_of alignment key info st) in
            let here : bound_of after ≡ (
                bound_of st
                && (not (info.is_array && eqb info.array_size 0)
                    && is_bounded_kind (is_bounded key sub sub_has_key) (kind_of info.type_id))) =
              member_bound size (is_bounded key sub sub_has_key) (kind_of info.type_id) info st
                (λ c f.
                  max_size-is_bounded sub sub_has_key c 0
                    (record { current_alignment = c; last_member_size = 0; flags = f })) in
            rw (max_size, e)
              (max_size-is_bounded rest has_key initial info.offset after ∙ ground (arith, here))
      ]

  module _ (law : IsAlignment alignment) where
    padding : (w : Width) (c : ℕ) → item_padding alignment key w c ≡ alignment c (width w)
    padding one c = omega (arith, law.less c one)
    padding two c = refl
    padding four c = refl
    padding eight c = refl

    head_position :
        (info : MemberInfo) (st : MaxState)
        → head_room alignment info st.current_alignment < 2 ^ 64
        → (head_of alignment key info st).current_alignment
          ≡ head_room alignment info st.current_alignment
    unfolding head_of
    head_position info st small = ground (arith, small)

    kind_position :
        (size : ℕ → Flags → ℕ × Flags) (sub : ℕ → ℕ) (within : Bool) (kind : Kind)
        (info : MemberInfo) (st : MaxState)
        → ((c : ℕ) → c ≤ sub c)
        → (within ≡ true → (c : ℕ) (f : Flags) → sub c < 2 ^ 64 → (size c f).0 ≡ sub c - c)
        → is_bounded_kind within kind ≡ true
        → kind_room alignment sub kind (elements_of info) st.current_alignment < 2 ^ 64
        → (add_member alignment key size kind info st).current_alignment
          ≡ kind_room alignment sub kind (elements_of info) st.current_alignment
    unfolding add_member kind_room is_bounded_kind
    kind_position size sub within (items w) info st u h b small =
        omega (arith, padding w st.current_alignment, small)
    kind_position size sub within octets info st u h b small =
        omega (arith, padding one st.current_alignment, small)
    kind_position size sub within (texts c x) info st u h b small = absurd (ground (arith, b))
    kind_position size sub within messages info st u h b small =
        messages_position (elements_of info) size sub st u (h b) small

    -- The maximum of a bounded type is its room.
    pub max_size-room :
        (ms : Members) (has_key : Bool) (initial offset : ℕ) (st : MaxState)
        → is_bounded key ms has_key ≡ true
        → initial ≤ st.current_alignment
        → room alignment key ms has_key st.current_alignment < 2 ^ 64
        → (max_size alignment key ms has_key initial offset st).0
          ≡ room alignment key ms has_key st.current_alignment - initial
    unfolding max_size room is_bounded finish member_room
    max_size-room last has_key initial offset st b start small = omega (arith, start, small)
    max_size-room (member info sub_has_key sub rest) has_key initial offset st b start small =
        elim (Bool-cases (is_skipped key has_key info)) [
          | inl e ↦
              rw (max_size, e)
                (max_size-room rest has_key initial info.offset st (ground (arith, b, e)) start
                  (ground (arith, small, e)))
          | inr e ↦
              let c : ℕ = st.current_alignment in
              let kind : Kind = kind_of info.type_id in
              let n : ℕ = elements_of info in
              let size : ℕ → Flags → ℕ × Flags = λ c f.
                max_size alignment key sub sub_has_key c 0
                  (record { current_alignment = c; last_member_size = 0; flags = f }) in
              let sub_room : ℕ → ℕ = room alignment key sub sub_has_key in
              let sub_up : (c : ℕ) → c ≤ sub_room c = room_up alignment key sub sub_has_key in
              let within : Bool = is_bounded key sub sub_has_key in
              let head : MaxState = head_of alignment key info st in
              let after : MaxState = add_member alignment key size kind info head in
              let room_c : ℕ = member_room alignment sub_room info c in
              let below : room alignment key rest has_key room_c < 2 ^ 64 =
                ground (arith, small, e) in
              let within_room : room_c < 2 ^ 64 =
                omega (arith, below, room_up alignment key rest has_key room_c) in
              let at_head : head.current_alignment ≡ head_room alignment info c =
                head_position info st (
                  omega (
                    arith,
                    within_room,
                    kind_up alignment sub_room kind n (head_room alignment info c) sub_up,
                  )) in
              let behind : after.current_alignment ≡ room_c =
                kind_position size sub_room within kind info head sub_up
                  (λ t x f s.
                    max_size-room sub sub_has_key x 0
                      (record { current_alignment = x; last_member_size = 0; flags = f }) t
                      (omega arith) s)
                  (ground (arith, b, e))
                  (subst (λ x. kind_room alignment sub_room kind n x < 2 ^ 64) (sym at_head)
                    within_room)
                ∙ ap (kind_room alignment sub_room kind n) at_head in
              rw (max_size, e)
                (max_size-room rest has_key initial info.offset after (ground (arith, b, e))
                    (omega (arith, start, behind, member_up alignment sub_room info c sub_up))
                    (subst (λ x. room alignment key rest has_key x < 2 ^ 64) (sym behind) below)
                  ∙ ap (λ x. room alignment key rest has_key x - initial) behind)
        ]
