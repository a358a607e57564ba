-- ===== src/SerializedSize/Bounds/Largest.antt =====
-- The size estimated for a message against the room of its type.
use rmw_fastrtps.Prelude.{
  ℕ, ◌+◌, ◌^◌, ◌≤◌, ◌<◌, ◌≡◌, Bool, true, false, ◌&&◌, eqb, if◌then◌else◌, arith, Bool-cases,
  Option-cases, inl, inr,
}
use rmw_fastrtps.SerializedSize.{kind_of, Members, last, member, Access, MembersType, is_skipped}
use rmw_fastrtps.SerializedSize.Estimate.{member_align, estimated_size}
use rmw_fastrtps.SerializedSize.Maximum.{is_sequence}
use rmw_fastrtps.SerializedSize.Room.{
  IsAlignment, is_bounded_kind, is_bounded, member_room, room, room_up, member_up,
}
use rmw_fastrtps.SerializedSize.Bounds.Fields.{advance_fits, member_fits}

module _ {M : Type 0} (mem : Access M) where
  -- No sequence of a message is longer than its type allows.
  abbrev pub IsWithin : Members → M → Type 0
  IsWithin last m = Unit
  IsWithin (member info sub_has_key sub rest) m =
      ((if is_sequence info then mem.size_function (mem.field_at m info.offset) else 0)
        ≤ info.array_size)
      × IsWithin sub (mem.field_at m info.offset)
      × ((i : ℕ) → IsWithin sub (mem.get_function (mem.field_at m info.offset) i))
      × IsWithin rest m

module _ (alignment : ℕ → ℕ → ℕ) (law : IsAlignment alignment) {M : Type 0} (mem : Access M)
    (lang : MembersType) (key : Bool) where
  pub estimated-room :
      (ms : Members) (has_key : Bool) (m : M) (initial c d : ℕ)
      → is_bounded key ms has_key ≡ true
      → IsWithin mem ms m
      → initial ≤ c
      → c ≤ d
      → room alignment key ms has_key d < 2 ^ 64
      → initial + estimated_size alignment mem lang key ms has_key m initial c
        ≤ room alignment key ms has_key d
  unfolding estimated_size room is_bounded member_room
  estimated-room last has_key m initial c d b w start le small = omega (arith, start, le, small)
  estimated-room (member info sub_has_key sub rest) has_key m initial c d b (len, w, ws, later)
        start le small =
      elim (Bool-cases (is_skipped key has_key info)) [
        | inl e ↦
            rw (estimated_size, e)
              (ground
                (arith, estimated-room rest has_key m initial c d, later, b, start, le, small, e))
        | inr e ↦
            let field : M = mem.field_at m info.offset in
            let size : M → ℕ → ℕ =
              λ x y. estimated_size alignment mem lang key sub sub_has_key x y y in
            let sub_room : ℕ → ℕ = room alignment key sub sub_has_key in
            let room_d : ℕ = member_room alignment sub_room info d in
            let after : ℕ = room alignment key rest has_key room_d in
            let within : Bool = is_bounded key sub sub_has_key in
            let finite : (info.is_array && eqb info.array_size 0) ≡ false = ground (arith, b, e) in
            let kinds : is_bounded_kind within (kind_of info.type_id) ≡ true =
              ground (arith, b, e) in
            let rests : is_bounded key rest has_key ≡ true = ground (arith, b, e) in
            let below : after < 2 ^ 64 = ground (arith, small, e) in
            let fits =
              member_fits alignment law mem lang info field finite len size sub_room within
                (room_up alignment key sub sub_has_key)
                (λ t x y xy s.
                  advance_fits (size field x) x (sub_room y)
                    (estimated-room sub sub_has_key field x x y t w (omega arith) xy s) s)
                (λ t i x y xy s.
                  advance_fits (size (mem.get_function field i) x) x (sub_room y)
                    (estimated-room sub sub_has_key (mem.get_function field i) x x y t (ws i)
                      (omega arith) xy s)
                    s)
                (kind_of info.type_id) c d in
            let grows : room_d ≤ after = room_up alignment key rest has_key room_d in
            elim (Option-cases
              (member_align alignment mem lang size (kind_of info.type_id) info field c)) [
                | inl n ↦
                    rw (estimated_size, e, n)
                      (omega (
                        arith,
                        start,
                        le,
                        grows,
                        member_up alignment sub_room info d (room_up alignment key sub sub_has_key),
                      ))
                | inr (next, s) ↦
                    rw (estimated_size, e, s)
                      (let (low, high) = fits next kinds le (omega (arith, below, grows)) s in
                        estimated-room rest has_key m initial next room_d rests later
                          (omega (arith, start, low)) high below)
              ]
      ]
