-- ===== src/Gid/Tests.antt =====
-- Gids at concrete inputs.
use rmw_fastrtps.Prelude.{◌≡◌, refl, true, some, [], ◌∷◌, ◌++◌, arith}
use rmw_fastrtps.Text.{find, starts_with}
use rmw_fastrtps.Gid.{Gid, encode_endpoint_gid_for_user_data, parse_endpoint_gid_from_user_data}
use rmw_fastrtps.Gid.UserData.{IsGid, parse-encode_endpoint_gid}

abbrev small_gid : Gid
small_gid = record { implementation_identifier = 7; bytes = 0xa5 ∷ 0x0b ∷ [] }

small_gid-IsGid : IsGid 2 small_gid
small_gid-IsGid = omega arith

parse-encode_endpoint_gid_example :
    parse_endpoint_gid_from_user_data 2
      (some (b'x' ∷ (encode_endpoint_gid_for_user_data 2 small_gid (b'=' ∷ []) ++ b';' ∷ [])))
      (b'=' ∷ [])
      (record { implementation_identifier = 9; bytes = [] })
    ≡ (true, record { implementation_identifier = 9; bytes = 0xa5 ∷ 0x0b ∷ [] })
unfolding find starts_with encode_endpoint_gid_for_user_data
parse-encode_endpoint_gid_example =
    parse-encode_endpoint_gid 2 small_gid (record { implementation_identifier = 9; bytes = [] })
      (b'=' ∷ []) (b'x' ∷ []) (b';' ∷ []) small_gid-IsGid refl
