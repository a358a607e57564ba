-- ===== src/Gid/Laws.antt =====
-- Guids as bytes, and the comparison of gids.
use rmw_fastrtps.Prelude.{
  ℕ, ◌+◌, ◌≡◌, refl, sym, ap, ◌∙◌, Bool, ◌&&◌, some, List, [], ◌∷◌, ◌++◌, arith, length,
  length-append, take, drop, take_append, drop_append, replicate, take-append-drop, drop_add,
  eqb_iff, same_list, list_eq, nat_eq,
}
use mathlib.Core.List.{append_assoc}
use rmw_fastrtps.Rmw.{ret_ok, Guid, IsGuid, same_guid, guid_size, prefix_size, entity_size}
use rmw_fastrtps.Gid.{
  copy_from_byte_array_to_fastdds_guid, copy_from_fastdds_guid_to_byte_array, create_rmw_gid,
  compare_gids_equal,
}

take_of_length {ℓ} : {A : Type ℓ} (n : ℕ) (xs ys : List A) → length xs ≡ n → take n (xs ++ ys) ≡ xs
take_of_length n xs ys h = rw (← h) (take_append xs ys)

drop_of_length {ℓ} : {A : Type ℓ} (n : ℕ) (xs ys : List A) → length xs ≡ n → drop n (xs ++ ys) ≡ ys
drop_of_length n xs ys h = rw (← h) (drop_append xs ys)

-- Writing a guid over an array and reading it back gives the guid; what the array holds behind the 16
-- bytes stays.
pub guid_to_bytes_and_back :
    (g : Guid) (array : List ℕ)
    → IsGuid g
    → (copy_from_byte_array_to_fastdds_guid (copy_from_fastdds_guid_to_byte_array g array) ≡ g)
      × (drop guid_size (copy_from_fastdds_guid_to_byte_array g array) ≡ drop guid_size array)
unfolding copy_from_byte_array_to_fastdds_guid copy_from_fastdds_guid_to_byte_array
guid_to_bytes_and_back g array v =
    let rest = drop guid_size array in
    let whole = take_of_length prefix_size g.guid_prefix (g.entity_id ++ rest) v.prefix_length in
    let back = drop_of_length prefix_size g.guid_prefix (g.entity_id ++ rest) v.prefix_length in
    (
      cc (whole, back, take_of_length entity_size g.entity_id rest v.entity_length),
      drop_add prefix_size entity_size (g.guid_prefix ++ (g.entity_id ++ rest))
          ∙ ap (drop entity_size) back
          ∙ drop_of_length entity_size g.entity_id rest v.entity_length,
    )

take_add {ℓ} :
    {A : Type ℓ} (m n : ℕ) (xs : List A) → take m xs ++ (take n (drop m xs) ++ drop (m + n) xs) ≡ xs
take_add m n xs = rw (drop_add m n xs, take-append-drop n (drop m xs)) (take-append-drop m xs)

-- Reading a guid from an array and writing it back over that array changes no byte.
pub bytes_to_guid_and_back :
    (array : List ℕ)
    → copy_from_fastdds_guid_to_byte_array (copy_from_byte_array_to_fastdds_guid array) array
      ≡ array
unfolding copy_from_byte_array_to_fastdds_guid copy_from_fastdds_guid_to_byte_array
bytes_to_guid_and_back array = take_add prefix_size entity_size array

same_list-append :
    (p q r s : List ℕ)
    → length p ≡ length q
    → same_list (p ++ r) (q ++ s) ≡ (same_list p q && same_list r s)
same_list-append [] [] r s h = refl
same_list-append [] (y ∷ q) r s h = absurd (omega arith)
same_list-append (x ∷ p) [] r s h = absurd (omega arith)
same_list-append (x ∷ p) (y ∷ q) r s h = ground (arith, same_list-append p q r s)

first_sixteen :
    (n id : ℕ) (g : Guid)
    → IsGuid g
    → take guid_size (create_rmw_gid n id g).bytes ≡ g.guid_prefix ++ g.entity_id
unfolding create_rmw_gid copy_from_fastdds_guid_to_byte_array
first_sixteen n id g v =
    rw (← append_assoc g.guid_prefix g.entity_id (drop guid_size (replicate n 0))) (
      take_of_length guid_size (g.guid_prefix ++ g.entity_id) (drop guid_size (replicate n 0))
        (omega (arith, v, length-append g.guid_prefix g.entity_id)))

identifier-create_rmw_gid :
    (n id : ℕ) (g : Guid) → (create_rmw_gid n id g).implementation_identifier ≡ id
unfolding create_rmw_gid
identifier-create_rmw_gid n id g = refl

same_list-same_guid :
    (g h : Guid)
    → IsGuid g
    → IsGuid h
    → same_list (g.guid_prefix ++ g.entity_id) (h.guid_prefix ++ h.entity_id) ≡ same_guid g h
same_list-same_guid g h v w =
    same_list-append g.guid_prefix h.guid_prefix g.entity_id h.entity_id
      (v.prefix_length ∙ sym w.prefix_length)

-- Two gids that one implementation made of two guids compare as equal exactly if the guids are equal.
pub compare-create_rmw_gid :
    (n id : ℕ) (g h : Guid) (previous : Bool)
    → IsGuid g
    → IsGuid h
    → compare_gids_equal id
        (some (create_rmw_gid n id g))
        (some (create_rmw_gid n id h))
        (some previous)
      ≡ (ret_ok, some (same_guid g h))
unfolding compare_gids_equal
compare-create_rmw_gid n id g h previous v w =
    rw
      (
        identifier-create_rmw_gid n id g,
        identifier-create_rmw_gid n id h,
        first_sixteen n id g v,
        first_sixteen n id h w,
        compare_gids_equal,
      )
      (ground (arith, eqb_iff id id, same_list-same_guid g h v w))
