-- ===== src/Gid/UserData.antt =====
-- The gid of an endpoint in the user data: encode_endpoint_gid_for_user_data and
-- parse_endpoint_gid_from_user_data of qos.cpp, and gid_to_hex of guid_utils.hpp.
use rmw_fastrtps.Prelude.{
  ℕ, zero, suc, ◌+◌, ◌*◌, ◌/◌, ◌%◌, ◌≤◌, ◌<◌, ◌≡◌, refl, ap, ◌∙◌, Bool, true, false, ◌&&◌, Option,
  some, none, List, [], ◌∷◌, ◌++◌, arith, length, length-append, take, drop, take_append,
  drop_append, ◌⊎◌, inl, inr, drop_add, ltb, Bool-cases, Option-cases, eqb, eqb_iff, take_all,
  same_list, same_list_iff, nat_eq,
}
use mathlib.Core.List.{append_assoc}
use rmw_fastrtps.Text.{Text, find}
use rmw_fastrtps.Rmw.{IsBytes}
use rmw_fastrtps.Gid.{
  Gid, hex_loop, gid_to_hex, hex_char, hex_digits, pad_two, put_hex, extract_hex, parse_pairs,
  parse_hex_str, encode_endpoint_gid_for_user_data, parse_endpoint_gid_from_user_data,
}

-- A test that every byte up to a bound passes, for tables.
module _ (test : ℕ → Bool) where
  passes_to : ℕ → Bool
  passes_to (suc bound) = passes_to bound && test bound
  passes_to zero = true

  passes_at : (bound b : ℕ) → b < bound → passes_to bound ≡ true → test b ≡ true
  unfolding passes_to
  passes_at (suc bound) b below passed = ground (arith, passes_at bound b)
  passes_at zero b below passed = absurd (omega arith)

abbrev two_digits : ℕ → Text
two_digits b = hex_char (b / 16 % 16) ∷ hex_char (b % 16) ∷ []

extract_table : passes_to (λ b. eqb (extract_hex (two_digits b) % 256) b) 256 ≡ true
unfolding passes_to extract_hex
extract_table = refl

extract-two_digits : (b : ℕ) → b < 256 → extract_hex (two_digits b) % 256 ≡ b
extract-two_digits b h =
    (eqb_iff _ b).0
      (passes_at (λ x. eqb (extract_hex (two_digits x) % 256) x) 256 b h extract_table)

pad_table : passes_to (λ b. same_list (pad_two (hex_digits b)) (two_digits b)) 256 ≡ true
unfolding passes_to
pad_table = refl

pad_two-hex_digits : (b : ℕ) → b < 256 → pad_two (hex_digits b) ≡ two_digits b
pad_two-hex_digits b h =
    (same_list_iff (pad_two (hex_digits b)) (two_digits b)).0
      (passes_at (λ x. same_list (pad_two (hex_digits x)) (two_digits x)) 256 b h pad_table)

put_hex-hex_loop : (n : ℕ) (s : List ℕ) → IsBytes s → length s ≤ n → put_hex s ≡ hex_loop n s
unfolding put_hex hex_loop
put_hex-hex_loop n [] v h = refl
put_hex-hex_loop zero (b ∷ s) v h = absurd (omega arith)
put_hex-hex_loop (suc n) (b ∷ s) v h =
    rw (pad_two-hex_digits b v.0, put_hex-hex_loop n s v.1 (omega arith))

-- What `rmw_gid_t::data` holds: `RMW_GID_STORAGE_SIZE` bytes.
pub record IsGid (storage_size : ℕ) (gid : Gid) : Type 0 where
  pub storage : length gid.bytes ≡ storage_size
  pub in_range : IsBytes gid.bytes

-- The stream that writes a gid into user data and the table lookup of `gid_to_hex` write the same
-- digits.
pub encode_endpoint_gid-gid_to_hex :
    (storage_size : ℕ) (gid : Gid) (tag : Text)
    → IsGid storage_size gid
    → encode_endpoint_gid_for_user_data storage_size gid tag
      ≡ tag ++ gid_to_hex storage_size gid storage_size
unfolding encode_endpoint_gid_for_user_data gid_to_hex
encode_endpoint_gid-gid_to_hex n gid tag v =
    rw (take_all n gid.bytes (omega arith))
      (ap (λ s. tag ++ s) (put_hex-hex_loop n gid.bytes v.in_range (omega arith)))

put_hex_byte : (b : ℕ) (s : List ℕ) → b < 256 → put_hex (b ∷ s) ≡ two_digits b ++ put_hex s
unfolding put_hex
put_hex_byte b s h = rw (pad_two-hex_digits b h)

length-put_hex : (s : List ℕ) → IsBytes s → length (put_hex s) ≡ length s * 2
length-put_hex [] v = unfold put_hex in refl
length-put_hex (b ∷ s) v = rw (put_hex_byte b s v.0) (omega (arith, length-put_hex s v.1))

parse_two_digits :
    (b : ℕ) (s : Text) → b < 256 → parse_pairs (two_digits b ++ s) ≡ b ∷ parse_pairs s
unfolding parse_pairs
parse_two_digits b s h = rw (extract-two_digits b h)

parse_pairs-put_hex : (s : List ℕ) → IsBytes s → parse_pairs (put_hex s) ≡ s
parse_pairs-put_hex [] v = unfold put_hex parse_pairs in refl
parse_pairs-put_hex (b ∷ s) v =
    rw (put_hex_byte b s v.0, parse_two_digits b (put_hex s) v.0, parse_pairs-put_hex s v.1)

take_of_length {ℓ} : {A : Type ℓ} (n : ℕ) (xs ys : List A) → length xs ≡ n → take n (xs ++ ys) ≡ xs
take_of_length n xs ys h = rw (← h) (take_append xs ys)

found_hex :
    (n : ℕ) (hex tag before after : Text)
    → length hex ≡ n
    → take n (drop (length before + length tag) (before ++ ((tag ++ hex) ++ after))) ≡ hex
found_hex n hex tag before after h =
    rw
      (
        append_assoc tag hex after,
        drop_add (length before) (length tag),
        drop_append before (tag ++ (hex ++ after)),
        drop_append tag (hex ++ after),
      )
      (take_of_length n hex after h)

encode_endpoint_gid_lem :
    (n : ℕ) (gid : Gid) (tag : Text)
    → IsGid n gid
    → encode_endpoint_gid_for_user_data n gid tag ≡ tag ++ put_hex gid.bytes
unfolding encode_endpoint_gid_for_user_data
encode_endpoint_gid_lem n gid tag v = rw (take_all n gid.bytes (omega arith))

parse_hex_str-put_hex :
    (n : ℕ) (gid result : Gid)
    → IsGid n gid
    → parse_hex_str n (put_hex gid.bytes) result ≡ (true, record result { bytes = gid.bytes })
unfolding parse_hex_str
parse_hex_str-put_hex n gid result v =
    rw (parse_pairs-put_hex gid.bytes v.in_range)
      (ground (arith, length-put_hex gid.bytes v.in_range))

parse_at :
    (n pos : ℕ) (str hex tag : Text) (result : Gid)
    → find tag str ≡ some pos
    → length tag ≤ length str
    → take (n * 2) (drop (pos + length tag) str) ≡ hex
    → parse_endpoint_gid_from_user_data n (some str) tag result ≡ parse_hex_str n hex result
unfolding parse_endpoint_gid_from_user_data
parse_at n pos str hex tag result at long cut =
    rw (at, ← cut, parse_endpoint_gid_from_user_data) (ground arith)

-- A gid that is written into user data, with any text before in which the tag does not stand any
-- earlier and any text behind, is read back byte for byte; the identifier of the result stays.
pub parse-encode_endpoint_gid :
    (storage_size : ℕ) (gid result : Gid) (tag before after : Text)
    → IsGid storage_size gid
    → let written = encode_endpoint_gid_for_user_data storage_size gid tag in
      find tag (before ++ (written ++ after)) ≡ some (length before)
      → parse_endpoint_gid_from_user_data storage_size
          (some (before ++ (written ++ after)))
          tag
          result
        ≡ (true, record result { bytes = gid.bytes })
parse-encode_endpoint_gid n gid result tag before after v at =
    let hex = put_hex gid.bytes in
    let hex_length = length-put_hex gid.bytes v.in_range in
    let str = before ++ ((tag ++ hex) ++ after) in
    let at' = rw (encode_endpoint_gid_lem n gid tag v) at at in
    rw (encode_endpoint_gid_lem n gid tag v) (
      parse_at n (length before) str hex tag result at'
        (omega (
          arith,
          length-append before ((tag ++ hex) ++ after),
          length-append (tag ++ hex) after,
          length-append tag hex,
        ))
        (found_hex (n * 2) hex tag before after (omega arith))
      ∙ parse_hex_str-put_hex n gid result v)

parse_pairs-IsBytes : (s : Text) → IsBytes (parse_pairs s)
unfolding parse_pairs
parse_pairs-IsBytes [] = tt
parse_pairs-IsBytes (a ∷ []) = (omega arith, tt)
parse_pairs-IsBytes (a ∷ b ∷ s) = (omega arith, parse_pairs-IsBytes s)

length-parse_pairs : (n : ℕ) (s : Text) → length s ≡ n * 2 → length (parse_pairs s) ≡ n
unfolding parse_pairs
length-parse_pairs zero [] h = refl
length-parse_pairs (suc n) [] h = omega arith
length-parse_pairs n (a ∷ []) h = absurd (omega arith)
length-parse_pairs zero (a ∷ b ∷ s) h = absurd (omega arith)
length-parse_pairs (suc n) (a ∷ b ∷ s) h = ap suc (length-parse_pairs n s (omega arith))

abbrev pub IsReadGid : ℕ → Gid → Bool × Gid → Type 0
IsReadGid storage_size gid (found, gid') =
    ((found ≡ true) × IsGid storage_size gid') ⊎ ((found ≡ false) × (gid' ≡ gid))

parse_hex_str_result : (n : ℕ) (s : Text) (gid : Gid) → IsReadGid n gid (parse_hex_str n s gid)
unfolding parse_hex_str
parse_hex_str_result n s gid = elim (Bool-cases (eqb (length s) (n * 2))) [
  | inl e ↦
      rw (e, parse_hex_str)
        (inl (
          refl,
          record {
            storage = length-parse_pairs n s ((eqb_iff _ _).0 e);
            in_range = parse_pairs-IsBytes s;
          },
        ))
  | inr e ↦ rw (e, parse_hex_str) (inr (refl, refl))
]

-- On success the gid holds `RMW_GID_STORAGE_SIZE` bytes; on failure it is as it was.
pub parse_endpoint_gid_result :
    (storage_size : ℕ) (user_data : Option Text) (tag : Text) (gid : Gid)
    → IsReadGid storage_size gid (parse_endpoint_gid_from_user_data storage_size user_data tag gid)
unfolding parse_endpoint_gid_from_user_data
parse_endpoint_gid_result n none tag gid = inr (refl, refl)
parse_endpoint_gid_result n (some str) tag gid = elim (Bool-cases (ltb (length str) (length tag))) [
  | inl short ↦ rw (short, parse_endpoint_gid_from_user_data) (inr (refl, refl))
  | inr long ↦ elim (Option-cases (find tag str)) [
    | inl absent ↦ rw (long, absent, parse_endpoint_gid_from_user_data) (inr (refl, refl))
    | inr (pos, at) ↦
        rw (long, at, parse_endpoint_gid_from_user_data)
          (parse_hex_str_result n (take (n * 2) (drop (pos + length tag) str)) gid)
  ]
]
