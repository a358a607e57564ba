-- ===== src/SerializedSize.antt =====
-- The sizes of serialized messages, by introspection: rmw_fastrtps_dynamic_cpp/src/TypeSupport_impl.hpp.
-- A position in the stream is a `size_t`, with its wrap-around. `Cdr::alignment` of Fast CDR is a
-- parameter, and so are the reads of a message in memory, the accessors that the introspection data
-- points at among them. The model has the types of members that the code has a case for.
pub mod Estimate
pub mod Maximum
pub mod Room
pub mod Support
pub mod Bounds
mod Tests
use rmw_fastrtps.Prelude.{
  ℕ, zero, suc, ◌+◌, ◌-◌, ◌%◌, ◌^◌, Bool, true, false, not, ◌&&◌, ◌||◌, Option, eqb,
}

pub data TypeId : Type 0 where
  ros_bool ros_byte ros_uint8 ros_char ros_int8 ros_float32 ros_float64 ros_int16 : TypeId
  ros_uint16 ros_int32 ros_uint32 ros_int64 ros_uint64 ros_string ros_wstring ros_message : TypeId

-- The sizes that items have.
pub data Width : Type 0 where
  one two four eight : Width

abbrev pub width : Width → ℕ
width one = 1
width two = 2
width four = 4
width eight = 8

-- What the cases of the code's `switch` tell apart: items of a size, octets that a buffer may hold,
-- strings with the size of a character and the number of extra ones, and messages.
pub data Kind : Type 0 where
  items : Width → Kind
  octets messages : Kind
  texts : ℕ → ℕ → Kind

abbrev pub kind_of : TypeId → Kind
kind_of ros_bool = items one
kind_of ros_byte = octets
kind_of ros_uint8 = octets
kind_of ros_char = items one
kind_of ros_int8 = items one
kind_of ros_float32 = items four
kind_of ros_float64 = items eight
kind_of ros_int16 = items two
kind_of ros_uint16 = items two
kind_of ros_int32 = items four
kind_of ros_uint32 = items four
kind_of ros_int64 = items eight
kind_of ros_uint64 = items eight
kind_of ros_string = texts 1 1
kind_of ros_wstring = texts 4 0
kind_of ros_message = messages

-- `MessageMember`, less the members of its type.
pub record MemberInfo : Type 0 where
  pub type_id : TypeId
  pub offset : ℕ
  pub is_array : Bool
  pub array_size : ℕ
  pub is_upper_bound : Bool
  pub string_upper_bound : ℕ
  pub is_key : Bool
  pub is_rosidl_buffer : Bool
  pub has_size_function : Bool
  pub has_get_function : Bool

-- `MessageMembers`: each member has the members of its type, where that is a message, behind
-- whether any of those is a key.
pub data Members : Type 0 where
  last : Members
  member : MemberInfo → Bool → Members → Members → Members

-- What is read of messages in memory: a member at its offset, the size of a sequence, an element of
-- an array or a sequence, and the length of a string, `none` for one of C without data.
pub record Access (M : Type 0) : Type 0 where
  pub field_at : M → ℕ → M
  pub size_function : M → ℕ
  pub get_function : M → ℕ → M
  pub text_size : M → Option ℕ

-- `MembersType`: the introspection of C or that of C++.
pub data MembersType : Type 0 where
  introspection_c introspection_cpp : MembersType

-- `compute_key && !member->is_key_ && members->has_any_key_member_`.
abbrev pub is_skipped : Bool → Bool → MemberInfo → Bool
is_skipped compute_key has_any_key_member info =
    compute_key && not info.is_key && has_any_key_member

-- `member->array_size_ && !member->is_upper_bound_`.
abbrev pub is_fixed : MemberInfo → Bool
is_fixed info = not (eqb info.array_size 0) && not info.is_upper_bound

-- `current_alignment += n`, and the difference of two positions.
abbrev pub advance : ℕ → ℕ → ℕ
advance n current = (current + n) % 2 ^ 64

abbrev pub distance : ℕ → ℕ → ℕ
distance current initial = (current + 2 ^ 64 - initial) % 2 ^ 64

-- The position after a loop of `n` rounds from index `i`.
unfoldable pub for_each : ℕ → ℕ → (ℕ → ℕ → ℕ) → ℕ → ℕ
for_each zero i body current = current
for_each (suc n) i body current = for_each n (i + 1) body (body i current)

module _ (alignment : ℕ → ℕ → ℕ) where
  -- `current_alignment += Cdr::alignment(current_alignment, n)`.
  abbrev pub align : ℕ → ℕ → ℕ
  align n current = (current + alignment current n) % 2 ^ 64
