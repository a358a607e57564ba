-- ===== src/Rmw.antt =====
-- The data types of the rmw and Fast DDS headers that the code passes around, as far as it looks
-- into them. A pointer that may be null is an `Option`, an implementation identifier is the address
-- that the macro `RMW_CHECK_TYPE_IDENTIFIERS_MATCH` compares.
use rmw_fastrtps.Prelude.{
  ◌+◌, ◌-◌, ◌^◌, ltb, if◌then◌else◌, ℕ, ◌<◌, ◌≡◌, ◌↔◌, Bool, ◌&&◌, List, arith, HasTest, nat_eq,
  same_list, same_list_iff, length, All, true, replicate,
}

-- `rmw_ret_t`.
pub data RmwRet : Type 0 where
  ret_ok ret_error ret_timeout ret_unsupported ret_bad_alloc ret_invalid_argument : RmwRet
  ret_incorrect_rmw_implementation : RmwRet

-- `eprosima::fastdds::rtps::GUID_t`: a prefix of 12 bytes and an entity id of 4.
pub record Guid : Type 0 where
  pub guid_prefix : List ℕ
  pub entity_id : List ℕ

abbrev pub prefix_size : ℕ
prefix_size = 12

abbrev pub entity_size : ℕ
entity_size = 4

abbrev pub guid_size : ℕ
guid_size = 16

abbrev pub IsBytes : List ℕ → Type 0
IsBytes s = All (λ b. b < 256) s

pub record IsGuid (g : Guid) : Type 0 where
  pub prefix_length : length g.guid_prefix ≡ prefix_size
  pub entity_length : length g.entity_id ≡ entity_size

abbrev pub same_guid : Guid → Guid → Bool
same_guid g h = same_list g.guid_prefix h.guid_prefix && same_list g.entity_id h.entity_id

pub same_guid_iff : (g h : Guid) → (same_guid g h ≡ true) ↔ (g ≡ h)
same_guid_iff g h =
    ground (arith, same_list_iff g.guid_prefix h.guid_prefix, same_list_iff g.entity_id h.entity_id)

instance abbrev pub guid_eq : HasTest Guid
guid_eq = record { test = same_guid; test_iff = same_guid_iff }

-- `GUID_t::unknown()`: all bytes zero.
abbrev pub unknown_guid : Guid
unknown_guid = record { guid_prefix = replicate prefix_size 0; entity_id = replicate entity_size 0 }

-- An `int32_t` as a `size_t` or `uint64_t`.
abbrev pub sign_extend : ℕ → ℕ
sign_extend n = if ltb n (2 ^ 31) then n else n + 2 ^ 64 - 2 ^ 32

-- `n > 0` for an `int32_t`.
abbrev pub is_positive : ℕ → Bool
is_positive n = ltb 0 n && ltb n (2 ^ 31)
