-- ===== src/SerializedSize/Room.antt =====
-- An independent description of the room that a type takes: the position behind any message of it,
-- without wrap-around, and whether it is bounded at all.
use rmw_fastrtps.Prelude.{
  ℕ, zero, suc, ◌+◌, ◌*◌, ◌%◌, ◌≤◌, ◌<◌, ◌≡◌, Bool, true, false, ◌&&◌, not, eqb, if◌then◌else◌,
  arith, Bool-cases, inl, inr,
}
use rmw_fastrtps.SerializedSize.{
  Width, one, two, four, eight, width, Kind, items, octets, messages, texts, kind_of, MemberInfo,
  Members, last, member, is_skipped,
}
use rmw_fastrtps.SerializedSize.Maximum.{elements_of, is_sequence}

-- What is relied on of `Cdr::alignment`: the number of bytes up to the next multiple.
pub record IsAlignment (alignment : ℕ → ℕ → ℕ) : Type 0 where
  pub aligned : (c : ℕ) (w : Width) → (c + alignment c (width w)) % width w ≡ 0
  pub less : (c : ℕ) (w : Width) → alignment c (width w) < width w

abbrev pub repeat : ℕ → (ℕ → ℕ) → ℕ → ℕ
repeat zero f c = c
repeat (suc n) f c = repeat n f (f c)

pub repeat_mono :
    (n : ℕ) (f : ℕ → ℕ) (a b : ℕ)
    → ((a b : ℕ) → a ≤ b → f a ≤ f b)
    → a ≤ b
    → repeat n f a ≤ repeat n f b
repeat_mono zero f a b m h = h
repeat_mono (suc n) f a b m h = repeat_mono n f (f a) (f b) m (m a b h)

pub repeat_up : (n : ℕ) (f : ℕ → ℕ) (c : ℕ) → ((c : ℕ) → c ≤ f c) → c ≤ repeat n f c
repeat_up zero f c u = omega arith
repeat_up (suc n) f c u = omega (arith, u c, repeat_up n f (f c) u)

-- Nothing of it is a string or a sequence without a bound.
unfoldable pub is_bounded_kind : Bool → Kind → Bool
is_bounded_kind sub (items w) = true
is_bounded_kind sub octets = true
is_bounded_kind sub (texts c extra) = false
is_bounded_kind sub messages = sub

unfoldable pub is_bounded : Bool → Members → Bool → Bool
unfolding is_bounded_kind
is_bounded compute_key last has_key = true
is_bounded compute_key (member info sub_has_key sub rest) has_key =
    let within = is_bounded compute_key sub sub_has_key in
    let after = is_bounded compute_key rest has_key in
    if is_skipped compute_key has_key info
    then after
    else not (info.is_array && eqb info.array_size 0)
      && is_bounded_kind within (kind_of info.type_id)
      && after

module _ (alignment : ℕ → ℕ → ℕ) where
  abbrev pub up : Width → ℕ → ℕ
  up w c = c + alignment c (width w)

  abbrev pub head_room : MemberInfo → ℕ → ℕ
  head_room info c = if is_sequence info then up four c + 4 else c

  unfoldable pub kind_room : (ℕ → ℕ) → Kind → ℕ → ℕ → ℕ
  kind_room sub (items w) n c = up w c + n * width w
  kind_room sub octets n c = up one c + n
  kind_room sub (texts a b) n c = c
  kind_room sub messages n c = repeat n sub c

  unfoldable pub member_room : (ℕ → ℕ) → MemberInfo → ℕ → ℕ
  unfolding kind_room
  member_room sub info c =
      kind_room sub (kind_of info.type_id) (elements_of info) (head_room info c)

  unfoldable pub room : Bool → Members → Bool → ℕ → ℕ
  unfolding member_room
  room compute_key last has_key c = c
  room compute_key (member info sub_has_key sub rest) has_key c =
      if is_skipped compute_key has_key info
      then room compute_key rest has_key c
      else room compute_key rest has_key (member_room (room compute_key sub sub_has_key) info c)

  module _ (law : IsAlignment alignment) where
    pub up_mono : (w : Width) (a b : ℕ) → a ≤ b → up w a ≤ up w b
    up_mono one a b h = omega (arith, law.less a one, law.less b one, h)
    up_mono two a b h =
        omega (arith, law.less a two, law.less b two, law.aligned a two, law.aligned b two, h)
    up_mono four a b h =
        omega (arith, law.less a four, law.less b four, law.aligned a four, law.aligned b four, h)
    up_mono eight a b h =
        omega
          (arith, law.less a eight, law.less b eight, law.aligned a eight, law.aligned b eight, h)

  head_up : (info : MemberInfo) (c : ℕ) → c ≤ head_room info c
  head_up info c = ground arith

  pub kind_up : (sub : ℕ → ℕ) (k : Kind) (n c : ℕ) → ((c : ℕ) → c ≤ sub c) → c ≤ kind_room sub k n c
  unfolding kind_room
  kind_up sub (items w) n c u = omega arith
  kind_up sub octets n c u = omega arith
  kind_up sub (texts a b) n c u = omega arith
  kind_up sub messages n c u = repeat_up n sub c u

  pub member_up :
      (sub : ℕ → ℕ) (info : MemberInfo) (c : ℕ) → ((c : ℕ) → c ≤ sub c) → c ≤ member_room sub info c
  unfolding member_room
  member_up sub info c u = omega (
    arith,
    head_up info c,
    kind_up sub (kind_of info.type_id) (elements_of info) (head_room info c) u,
  )

  -- Members only take room.
  pub room_up :
      (compute_key : Bool) (ms : Members) (has_key : Bool) (c : ℕ)
      → c ≤ room compute_key ms has_key c
  unfolding room
  room_up compute_key last has_key c = omega arith
  room_up compute_key (member info sub_has_key sub rest) has_key c =
      let sub_room : ℕ → ℕ = room compute_key sub sub_has_key in
      ground (
        arith,
        room_up compute_key rest has_key c,
        member_up sub_room info c (room_up compute_key sub sub_has_key),
        room_up compute_key rest has_key (member_room sub_room info c),
      )

  module _ (law : IsAlignment alignment) where
    pub kind_mono :
        (sub : ℕ → ℕ) (k : Kind) (n a b : ℕ)
        → ((a b : ℕ) → a ≤ b → sub a ≤ sub b)
        → a ≤ b
        → kind_room sub k n a ≤ kind_room sub k n b
    unfolding kind_room
    kind_mono sub (items w) n a b m h = omega (arith, up_mono law w a b h)
    kind_mono sub octets n a b m h = omega (arith, up_mono law one a b h)
    kind_mono sub (texts x y) n a b m h = h
    kind_mono sub messages n a b m h = repeat_mono n sub a b m h

    pub head_mono : (info : MemberInfo) (a b : ℕ) → a ≤ b → head_room info a ≤ head_room info b
    head_mono info a b h = ground (arith, up_mono law four a b h, h)

    pub member_mono :
        (sub : ℕ → ℕ) (info : MemberInfo) (a b : ℕ)
        → ((a b : ℕ) → a ≤ b → sub a ≤ sub b)
        → a ≤ b
        → member_room sub info a ≤ member_room sub info b
    unfolding member_room
    member_mono sub info a b m h =
        kind_mono sub (kind_of info.type_id) (elements_of info) (head_room info a)
          (head_room info b) m (head_mono info a b h)

    pub room_mono :
        (compute_key : Bool) (ms : Members) (has_key : Bool) (a b : ℕ)
        → a ≤ b
        → room compute_key ms has_key a ≤ room compute_key ms has_key b
    unfolding room
    room_mono compute_key last has_key a b h = h
    room_mono compute_key (member info sub_has_key sub rest) has_key a b h =
        elim (Bool-cases (is_skipped compute_key has_key info)) [
          | inl e ↦ rw (e) (room_mono compute_key rest has_key a b h)
          | inr e ↦
              let sub_room : ℕ → ℕ = room compute_key sub sub_has_key in
              rw (e) (
                room_mono compute_key rest has_key (member_room sub_room info a)
                  (member_room sub_room info b)
                  (member_mono sub_room info a b (room_mono compute_key sub sub_has_key) h))
        ]
