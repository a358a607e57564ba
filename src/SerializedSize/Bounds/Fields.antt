-- ===== src/SerializedSize/Bounds/Fields.antt =====
-- What a field of a message advances the position by, against the room of its type.
use rmw_fastrtps.Prelude.{
  ℕ, zero, suc, ◌+◌, ◌*◌, ◌^◌, ◌≤◌, ◌<◌, ◌≡◌, Bool, true, false, ◌&&◌, not, some, eqb,
  if◌then◌else◌, arith,
}
use rmw_fastrtps.SerializedSize.{
  Width, one, two, four, eight, width, Kind, items, octets, messages, texts, MemberInfo, Access,
  MembersType, advance, for_each, align,
}
use rmw_fastrtps.SerializedSize.Estimate.{
  aligns_items, sequence_align, next_field_align, octets_align, elements_align, messages_align,
  member_align,
}
use rmw_fastrtps.SerializedSize.Maximum.{elements_of, is_sequence}
use rmw_fastrtps.SerializedSize.Room.{
  IsAlignment, repeat, is_bounded_kind, up, head_room, kind_room, up_mono, repeat_up,
}

-- A position that is not behind another, and within a room.
abbrev pub Between : ℕ → ℕ → ℕ → Type 0
Between low x high = (low ≤ x) × (x ≤ high)

pub advance_fits : (n c k : ℕ) → c + n ≤ k → k < 2 ^ 64 → Between c (advance n c) k
advance_fits n c k h small = (omega (arith, h, small), omega (arith, h, small))

width_mono : (w : Width) (n m : ℕ) → n ≤ m → width w * n ≤ m * width w
width_mono one n m h = omega (arith, h)
width_mono two n m h = omega (arith, h)
width_mono four n m h = omega (arith, h)
width_mono eight n m h = omega (arith, h)

pub loop_fits :
    (n m i : ℕ) (body : ℕ → ℕ → ℕ) (sub : ℕ → ℕ) (c d : ℕ)
    → ((c : ℕ) → c ≤ sub c)
    → ((i c d : ℕ) → c ≤ d → sub d < 2 ^ 64 → Between c (body i c) (sub d))
    → n ≤ m
    → c ≤ d
    → repeat m sub d < 2 ^ 64
    → Between c (for_each n i body c) (repeat m sub d)
unfolding for_each
loop_fits zero m i body sub c d u each h le small =
    (omega arith, omega (arith, le, repeat_up m sub d u))
loop_fits (suc n) zero i body sub c d u each h le small = absurd (omega (arith, h))
loop_fits (suc n) (suc m) i body sub c d u each h le small =
    let (low, high) = each i c d le (omega (arith, small, repeat_up m sub (sub d) u)) in
    let (low', high') =
      loop_fits n m (i + 1) body sub (body i c) (sub d) u each (omega (arith, h)) high small in
    (omega (arith, low, low'), high')

module _ (alignment : ℕ → ℕ → ℕ) (law : IsAlignment alignment) where
  align_fits :
      (w : Width) (c d : ℕ)
      → c ≤ d
      → up alignment w d < 2 ^ 64
      → Between c (align alignment (width w) c) (up alignment w d)
  align_fits w c d h small =
      advance_fits (alignment c (width w)) c (up alignment w d) (up_mono alignment law w c d h)
        small

  items_fit :
      (w : Width) (n m c d : ℕ)
      → n ≤ m
      → c ≤ d
      → up alignment w d + m * width w < 2 ^ 64
      → Between c
          (advance (width w * n) (align alignment (width w) c))
          (up alignment w d + m * width w)
  items_fit w n m c d h le small =
      let (low, high) = align_fits w c d le (omega (arith, small)) in
      let (low', high') =
        advance_fits (width w * n) (align alignment (width w) c) (up alignment w d + m * width w)
          (omega (arith, high, width_mono w n m h)) small in
      (omega (arith, low, low'), high')

  head_fits :
      (c d : ℕ)
      → c ≤ d
      → up alignment four d + 4 < 2 ^ 64
      → Between c (advance 4 (align alignment 4 c)) (up alignment four d + 4)
  head_fits c d h small =
      let (low, high) = align_fits four c d h (omega (arith, small)) in
      let (low', high') =
        advance_fits 4 (align alignment 4 c) (up alignment four d + 4) (omega (arith, high))
          small in
      (omega (arith, low, low'), high')

  module _ {M : Type 0} (mem : Access M) (lang : MembersType) where
    sequence_fits :
        (aligned : Bool) (w : Width) (n m c d : ℕ)
        → n ≤ m
        → c ≤ d
        → up alignment w (up alignment four d + 4) + m * width w < 2 ^ 64
        → Between c
            (sequence_align alignment mem lang aligned (width w) n c)
            (up alignment w (up alignment four d + 4) + m * width w)
    unfolding sequence_align
    sequence_fits true w n m c d h le small =
        let (low, high) = head_fits c d le (omega (arith, small)) in
        let (low', high') = items_fit w n m _ _ h high small in (omega (arith, low, low'), high')
    sequence_fits false w n m c d h le small =
        let (low, high) = head_fits c d le (omega (arith, small)) in (low, omega (arith, high))

    -- The items of a member.
    module _ (info : MemberInfo) (field : M)
        (bounded : (info.is_array && eqb info.array_size 0) ≡ false)
        (size_bound : (if is_sequence info then mem.size_function field else 0)
          ≤ info.array_size) where
      field_fits :
          (w : Width) (c d : ℕ)
          → c ≤ d
          → up alignment w (head_room alignment info d) + elements_of info * width w < 2 ^ 64
          → Between c
              (next_field_align alignment mem lang info field (width w) c)
              (up alignment w (head_room alignment info d) + elements_of info * width w)
      unfolding next_field_align
      field_fits w c d le small =
          let n : ℕ = mem.size_function field in
          let a : ℕ = info.array_size in
          ground (
            arith,
            items_fit w 1 1 c d,
            items_fit w a a c d,
            sequence_fits (aligns_items lang n) w n a c d,
            bounded,
            size_bound,
            le,
            small,
          )

      octets_fits :
          (c d : ℕ)
          → c ≤ d
          → up alignment one (head_room alignment info d) + elements_of info < 2 ^ 64
          → Between c
              (octets_align alignment mem lang info field c)
              (up alignment one (head_room alignment info d) + elements_of info)
      unfolding octets_align
      octets_fits c d le small =
          let n : ℕ = mem.size_function field in
          ground (
            arith,
            field_fits one c d,
            sequence_fits (not (eqb n 0)) one n info.array_size c d,
            bounded,
            size_bound,
            le,
            small,
          )

      -- The elements of a member, each within the room of its type.
      module _ (size : M → ℕ → ℕ) (sub : ℕ → ℕ) (u : (c : ℕ) → c ≤ sub c)
          (one_fits : (c d : ℕ)
            → c ≤ d
            → sub d < 2 ^ 64
            → Between c (advance (size field c) c) (sub d))
          (each_fits : (i c d : ℕ)
            → c ≤ d
            → sub d < 2 ^ 64
            → Between c (advance (size (mem.get_function field i) c) c) (sub d)) where
        elements_fits :
            (n m c d next : ℕ)
            → n ≤ m
            → c ≤ d
            → repeat m sub d < 2 ^ 64
            → elements_align alignment mem lang size info field n c ≡ some next
            → Between c next (repeat m sub d)
        unfolding elements_align
        elements_fits n m c d next h le small e = ground (
          arith,
          loop_fits n m 0 (λ i c. advance (size (mem.get_function field i) c) c) sub c d u
              each_fits,
          h,
          le,
          small,
          e,
        )

        length_fits :
            (c d : ℕ)
            → c ≤ d
            → up alignment four d + 4 < 2 ^ 64
            → Between c (advance (4 + alignment c 4) c) (up alignment four d + 4)
        length_fits c d le small =
            advance_fits (4 + alignment c 4) c (up alignment four d + 4)
              (omega (arith, up_mono alignment law four c d le)) small

        messages_fits :
            (c d next : ℕ)
            → c ≤ d
            → repeat (elements_of info) sub (head_room alignment info d) < 2 ^ 64
            → messages_align alignment mem lang size info field c ≡ some next
            → Between c next (repeat (elements_of info) sub (head_room alignment info d))
        unfolding messages_align
        messages_fits c d next le small e =
            let n : ℕ = mem.size_function field in
            let a : ℕ = info.array_size in
            ground (
              arith,
              one_fits c d,
              elements_fits a a c d next,
              length_fits c d,
              elements_fits n a (advance (4 + alignment c 4) c) (up alignment four d + 4) next,
              repeat_up a sub (up alignment four d + 4) u,
              bounded,
              size_bound,
              le,
              small,
              e,
            )

      pub member_fits :
          (size : M → ℕ → ℕ) (sub : ℕ → ℕ) (within : Bool)
          → ((c : ℕ) → c ≤ sub c)
          → (within ≡ true
              → (c d : ℕ) → c ≤ d
              → sub d < 2 ^ 64
              → Between c (advance (size field c) c) (sub d))
          → (within ≡ true
              → (i c d : ℕ) → c ≤ d
              → sub d < 2 ^ 64
              → Between c (advance (size (mem.get_function field i) c) c) (sub d))
          → (kind : Kind) (c d next : ℕ) → is_bounded_kind within kind ≡ true
          → c ≤ d
          → kind_room alignment sub kind (elements_of info) (head_room alignment info d) < 2 ^ 64
          → member_align alignment mem lang size kind info field c ≡ some next
          → Between c next
              (kind_room alignment sub kind (elements_of info) (head_room alignment info d))
      unfolding member_align kind_room is_bounded_kind
      member_fits size sub within u one_fits each_fits (items w) c d next b le small e =
          ground (arith, field_fits w c d, le, small, e)
      member_fits size sub within u one_fits each_fits octets c d next b le small e =
          ground (arith, octets_fits c d, le, small, e)
      member_fits size sub within u one_fits each_fits (texts x y) c d next b le small e =
          absurd (ground (arith, b))
      member_fits size sub within u one_fits each_fits messages c d next b le small e =
          messages_fits size sub u (one_fits b) (each_fits b) c d next le small e
