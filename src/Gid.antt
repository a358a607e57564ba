-- ===== src/Gid.antt =====
-- rmw_fastrtps_shared_cpp/include/rmw_fastrtps_shared_cpp/guid_utils.hpp, src/create_rmw_gid.cpp,
-- src/rmw_compare_gids_equal.cpp, and the two functions of src/qos.cpp that write the gid of an
-- endpoint into user data and read it back. `RMW_GID_STORAGE_SIZE` is the parameter `storage_size`.
pub mod Laws
pub mod UserData
mod Tests
use rmw_fastrtps.Prelude.{
  ℕ, zero, suc, ◌+◌, ◌-◌, ◌*◌, ◌/◌, ◌%◌, ◌^◌, Bool, true, false, not, ◌||◌, ◌&&◌, Option, none,
  some, List, [], ◌∷◌, ◌++◌, length, take, drop, replicate, ltb, leb, eqb, if◌then◌else◌, ◌==◌,
  list_eq, nat_eq,
}
use rmw_fastrtps.Text.{Text, find}
use rmw_fastrtps.Rmw.{
  RmwRet, ret_ok, ret_invalid_argument, ret_incorrect_rmw_implementation, Guid, prefix_size,
  entity_size, guid_size,
}

-- `rmw_gid_t`.
pub record Gid : Type 0 where
  pub implementation_identifier : ℕ
  pub bytes : List ℕ

pub copy_from_byte_array_to_fastdds_guid : List ℕ → Guid
copy_from_byte_array_to_fastdds_guid guid_byte_array = record {
  guid_prefix = take prefix_size guid_byte_array;
  entity_id = take entity_size (drop prefix_size guid_byte_array);
}

-- The two copies overwrite the first 16 bytes.
pub copy_from_fastdds_guid_to_byte_array : Guid → List ℕ → List ℕ
copy_from_fastdds_guid_to_byte_array guid guid_byte_array =
    guid.guid_prefix ++ (guid.entity_id ++ drop guid_size guid_byte_array)

pub create_rmw_gid : ℕ → ℕ → Guid → Gid
unfolding copy_from_fastdds_guid_to_byte_array
create_rmw_gid storage_size identifier guid = record {
  implementation_identifier = identifier;
  bytes = copy_from_fastdds_guid_to_byte_array guid (replicate storage_size 0);
}

-- `memcmp(a, b, n) == 0`.
abbrev pub same_bytes : ℕ → List ℕ → List ℕ → Bool
same_bytes n a b = take n a == take n b

-- The code returned, and what `*result` holds then.
pub compare_gids_equal : ℕ → Option Gid → Option Gid → Option Bool → RmwRet × Option Bool
compare_gids_equal identifier gid1 gid2 result = elim gid1 [
  | none ↦ (ret_invalid_argument, result)
  | some g1 ↦
      if not (eqb g1.implementation_identifier identifier)
      then (ret_incorrect_rmw_implementation, result)
      else elim gid2 [
        | none ↦ (ret_invalid_argument, result)
        | some g2 ↦
            if not (eqb g2.implementation_identifier identifier)
            then (ret_incorrect_rmw_implementation, result)
            else elim result [
              | none ↦ (ret_invalid_argument, none)
              | some _ ↦ (ret_ok, some (same_bytes guid_size g1.bytes g2.bytes))
            ]
      ]
]

-- "0123456789abcdef"[n] for n < 16.
abbrev pub hex_char : ℕ → ℕ
hex_char n = if ltb n 10 then b'0' + n else b'a' + (n - 10)

-- The loop of `gid_to_hex`, with the rounds that the bound on `bytes` leaves.
pub hex_loop : ℕ → List ℕ → Text
hex_loop n [] = []
hex_loop zero (b ∷ rest) = []
hex_loop (suc n) (b ∷ rest) = hex_char (b / 16 % 16) ∷ hex_char (b % 16) ∷ hex_loop n rest

pub gid_to_hex : ℕ → Gid → ℕ → Text
unfolding hex_loop
gid_to_hex storage_size gid n = hex_loop n (take storage_size gid.bytes)

-- `ss << std::hex << std::setfill('0') << std::setw(2) << b` for a byte `b`.
abbrev pub hex_digits : ℕ → Text
hex_digits b = if ltb b 16 then hex_char b ∷ [] else hex_char (b / 16) ∷ hex_char (b % 16) ∷ []

abbrev pub pad_two : Text → Text
pad_two [] = b'0' ∷ b'0' ∷ []
pad_two (c ∷ []) = b'0' ∷ c ∷ []
pad_two s = s

pub put_hex : List ℕ → Text
put_hex [] = []
put_hex (b ∷ rest) = pad_two (hex_digits b) ++ put_hex rest

pub encode_endpoint_gid_for_user_data : ℕ → Gid → Text → Text
unfolding put_hex
encode_endpoint_gid_for_user_data storage_size gid tag =
    tag ++ put_hex (take storage_size gid.bytes)

-- `iss >> std::hex >> val` into an `unsigned`: white space, a sign, a "0x" and the digits; 0 if there
-- is no digit, and the value modulo 2^32 behind a minus sign.
abbrev is_space : ℕ → Bool
is_space c = eqb c 32 || leb 9 c && leb c 13

abbrev digit_value : ℕ → Option ℕ
digit_value c =
    if leb b'0' c && leb c b'9'
    then some (c - b'0')
    else if leb b'a' c && leb c b'f'
    then some (c - b'a' + 10)
    else if leb b'A' c && leb c b'F'
    then some (c - b'A' + 10)
    else none

skip_space : Text → Text
skip_space [] = []
skip_space (c ∷ s) = let rest = skip_space s in if is_space c then rest else c ∷ s

read_digits : ℕ → Text → ℕ
read_digits acc [] = acc
read_digits acc (c ∷ s) = elim (digit_value c) [
  | none ↦ acc
  | some d ↦ read_digits (acc * 16 + d) s
]

skip_base : Text → Text
skip_base [] = []
skip_base (c ∷ []) = c ∷ []
skip_base (c ∷ d ∷ s) = if eqb c b'0' && (eqb d b'x' || eqb d b'X') then s else c ∷ d ∷ s

read_signed : Text → ℕ
unfolding read_digits skip_base
read_signed [] = 0
read_signed (c ∷ s) =
    if eqb c b'-'
    then (2 ^ 32 - read_digits 0 (skip_base s) % 2 ^ 32) % 2 ^ 32
    else if eqb c b'+'
    then read_digits 0 (skip_base s)
    else read_digits 0 (skip_base (c ∷ s))

pub extract_hex : Text → ℕ
unfolding skip_space read_signed
extract_hex s = read_signed (skip_space s)

-- The loop over the pairs of characters; `static_cast<uint8_t>` keeps the low 8 bits.
pub parse_pairs : Text → List ℕ
parse_pairs [] = []
parse_pairs (a ∷ []) = extract_hex (a ∷ []) % 256 ∷ []
parse_pairs (a ∷ b ∷ rest) = extract_hex (a ∷ b ∷ []) % 256 ∷ parse_pairs rest

-- The part of `parse_endpoint_gid_from_user_data` behind the search for the tag.
pub parse_hex_str : ℕ → Text → Gid → Bool × Gid
parse_hex_str storage_size hex_str gid =
    if not (eqb (length hex_str) (storage_size * 2))
    then (false, gid)
    else (true, record gid { bytes = parse_pairs hex_str })

pub parse_endpoint_gid_from_user_data : ℕ → Option Text → Text → Gid → Bool × Gid
parse_endpoint_gid_from_user_data storage_size user_data tag gid = elim user_data [
  | none ↦ (false, gid)
  | some str ↦ if ltb (length str) (length tag) then (false, gid) else elim (find tag str) [
    | none ↦ (false, gid)
    | some pos ↦
        parse_hex_str storage_size (take (storage_size * 2) (drop (pos + length tag) str)) gid
  ]
]
