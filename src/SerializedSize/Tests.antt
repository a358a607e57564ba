-- ===== src/SerializedSize/Tests.antt =====
-- Sizes of serialized messages at concrete inputs.
use rmw_fastrtps.Prelude.{ℕ, ◌+◌, ◌-◌, ◌*◌, ◌%◌, ◌≤◌, ◌<◌, ◌≡◌, ◌⊎◌, refl, true, false, none, arith}
use rmw_fastrtps.SerializedSize.{
  TypeId, ros_uint8, ros_float64, ros_message, ros_uint32, Width, one, two, four, eight, width,
  MemberInfo, Members, last, member, Access, introspection_cpp, for_each,
}
use rmw_fastrtps.SerializedSize.Estimate.{estimated_size}
use rmw_fastrtps.SerializedSize.Maximum.{Flags}
use rmw_fastrtps.SerializedSize.Room.{IsAlignment, is_bounded, room}
use rmw_fastrtps.SerializedSize.Support.{
  calculated, message_type_support, get_estimated_serialized_size,
  get_estimated_serialized_key_size, resize_key_buffer,
}
use rmw_fastrtps.SerializedSize.Bounds.Largest.{IsWithin}
use rmw_fastrtps.SerializedSize.Bounds.Buffers.{calculated-room, estimated_fits}
use rmw_fastrtps.SerializedSize.Bounds.KeySequences.{
  key_sequence, one_member, key_sequence_overflows,
}

abbrev alignment : ℕ → ℕ → ℕ
alignment c n = (n - c % n) % n

alignment_law : IsAlignment alignment
alignment_law = record { aligned = aligned; less = less }
  where
    aligned : (c : ℕ) (w : Width) → (c + alignment c (width w)) % width w ≡ 0
    aligned c one = omega arith
    aligned c two = omega arith
    aligned c four = omega arith
    aligned c eight = omega arith

    less : (c : ℕ) (w : Width) → alignment c (width w) < width w
    less c one = omega arith
    less c two = omega arith
    less c four = omega arith
    less c eight = omega arith

-- A byte, then a sequence of at most three points of two doubles; the byte is the key.
abbrev info : TypeId → ℕ → MemberInfo
info t offset = record {
  type_id = t;
  offset = offset;
  is_array = false;
  array_size = 0;
  is_upper_bound = false;
  string_upper_bound = 0;
  is_key = false;
  is_rosidl_buffer = false;
  has_size_function = true;
  has_get_function = true;
}

abbrev point : Members
point = member (info ros_float64 0) false last (member (info ros_float64 8) false last last)

abbrev path : Members
path =
    member (record (info ros_uint8 0) { is_key = true }) false last
      (member
        (record (info ros_message 8) { is_array = true; array_size = 3; is_upper_bound = true })
        false point last)

-- A memory in which a place is a number and every sequence has two elements.
abbrev memory : Access ℕ
memory = record {
  field_at = λ m offset. m + offset;
  size_function = λ m. 2;
  get_function = λ m i. m + 16 * i;
  text_size = λ m. none;
}

abbrev no_flags : Flags
no_flags = record { max_size_bound = true; is_plain = true; is_key_unbounded = false }

point-IsWithin : (m : ℕ) → IsWithin memory point m
point-IsWithin m = (omega arith, tt, λ i. tt, (omega arith, tt, λ i. tt, tt))

path-IsWithin : IsWithin memory path 0
path-IsWithin = (
  omega arith,
  tt,
  λ i. tt,
  (omega arith, point-IsWithin 8, λ i. point-IsWithin (8 + 16 * i), tt),
)

path_size : room alignment false path true 0 ≡ 56
unfolding room
path_size = refl

calculated-room_example :
    ((calculated alignment false path true no_flags).1.max_size_bound ≡ is_bounded false path true)
    × ((is_bounded false path true ≡ false)
        ⊎ ((calculated alignment false path true no_flags).0 ≡ room alignment false path true 0))
calculated-room_example =
    calculated-room alignment alignment_law false path true no_flags (omega (arith, path_size))

support_flag : (message_type_support alignment path true).flags.max_size_bound ≡ true
unfolding message_type_support
support_flag = refl

-- Of two points, in a maximum of three.
estimated_size_of_path :
    get_estimated_serialized_size alignment memory introspection_cpp
      (message_type_support alignment path true)
      path
      true
      0
    ≡ 44
unfolding get_estimated_serialized_size message_type_support estimated_size for_each
estimated_size_of_path = refl

estimated_fits_example :
    get_estimated_serialized_size alignment memory introspection_cpp
      (message_type_support alignment path true)
      path
      true
      0
    ≤ (message_type_support alignment path true).max_serialized_type_size
estimated_fits_example =
    estimated_fits alignment alignment_law memory introspection_cpp path true 0 support_flag
      path-IsWithin (omega (arith, path_size))

key_room : room alignment true path true 0 ≡ 1
unfolding room
key_room = refl

key_bounded : is_bounded true path true ≡ true
unfolding is_bounded
key_bounded = refl

key_sequence_overflows_example :
    let ms = one_member (key_sequence ros_uint32 8) in
    let support = message_type_support alignment ms true in
    (support.flags.is_key_unbounded ≡ false)
    × ((resize_key_buffer alignment memory introspection_cpp ms true 0
          support).key_max_serialized_size
        < get_estimated_serialized_key_size alignment memory introspection_cpp ms true 0)
key_sequence_overflows_example =
    key_sequence_overflows alignment alignment_law memory introspection_cpp four ros_uint32 8 0 refl
      (omega arith) (omega arith)
