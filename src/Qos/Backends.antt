-- ===== src/Qos/Backends.antt =====
-- Buffer backends in user data: encode_buffer_backends_for_user_data and
-- parse_buffer_backends_from_user_data of rmw_fastrtps_shared_cpp/src/qos.cpp. An unordered map is the
-- list of its entries in the order of its iteration; `parse_key_value` of rmw is a parameter.
pub mod RoundTrip
use rmw_fastrtps.Prelude.{
  ℕ, ◌+◌, ◌||◌, ◌≡◌, ◌≢◌, refl, sym, ap, ◌∙◌, ◌⊎◌, inl, inr, Bool, true, false, not, ◌&&◌, Option,
  none, some, List, [], ◌∷◌, ◌++◌, map, arith, All, take, drop, length, eqb, eqb_iff, Bool-cases,
  Option-cases, if◌then◌else◌, HasTest, ◌==◌, eq_iff, eq_refl, list_eq, nat_eq, take_append,
  drop_append,
}
use rmw_fastrtps.Prelude.Assoc.{find, erase, contains, find-erase}
use native.Mathlib.Nat.{suc-add}
use mathlib.Core.List.{append-nil}
use rmw_fastrtps.Text
use rmw_fastrtps.Text.{Text, is_empty, substr}

-- "bufbe"
abbrev pub buffer_backend_key : Text
buffer_backend_key = 98 ∷ 117 ∷ 102 ∷ 98 ∷ 101 ∷ []

abbrev pub comma : ℕ
comma = 44

abbrev pub colon : ℕ
colon = 58

abbrev pub semicolon : ℕ
semicolon = 59

abbrev pub equals : ℕ
equals = 61

-- The loop of the encoder.
unfoldable pub put_backends : Bool → List (Text × Text) → Text
put_backends first [] = []
put_backends first ((name, aux) ∷ backends) =
    (if not first then comma ∷ [] else []) ++ (name ++ (colon ∷ aux)) ++ put_backends false backends

unfoldable pub encode_buffer_backends : List (Text × Text) → Text
encode_buffer_backends [] = []
encode_buffer_backends (b ∷ backends) =
    buffer_backend_key ++ (equals ∷ (put_backends true (b ∷ backends) ++ (semicolon ∷ [])))

abbrev put_first : ℕ → List Text → List Text
put_first c [] = (c ∷ []) ∷ []
put_first c (entry ∷ entries) = (c ∷ entry) ∷ entries

-- What `std::getline(ss, entry, ',')` gives one after the other.
unfoldable pub getlines : Text → List Text
getlines [] = []
getlines (c ∷ s) = let rest = getlines s in if eqb c comma then [] ∷ rest else put_first c rest

-- The assignment `result[name] = aux`.
abbrev pub assign : Text → Text → List (Text × Text) → List (Text × Text)
assign name aux m = (name, aux) ∷ erase name m

abbrev put_name : Text → Text → List (Text × Text) → List (Text × Text)
put_name name aux result = if not (is_empty name) then assign name aux result else result

unfoldable pub parse_entry : List (Text × Text) → Text → List (Text × Text)
parse_entry result entry = if is_empty entry then result else elim (Text.find (colon ∷ []) entry) [
  | none ↦ put_name entry [] result
  | some i ↦ put_name (take i entry) (drop (i + 1) entry) result
]

unfoldable pub parse_entries : List (Text × Text) → List Text → List (Text × Text)
parse_entries result [] = result
parse_entries result (entry ∷ entries) = parse_entries (parse_entry result entry) entries

module _ (parse_key_value : Text → List (Text × Text)) where
  -- `data` is `none` where it is null.
  unfoldable pub parse_buffer_backends : Option Text → List (Text × Text)
  parse_buffer_backends user_data = elim user_data [
    | none ↦ []
    | some text ↦
        if is_empty text then [] else elim (find buffer_backend_key (parse_key_value text)) [
          | none ↦ []
          | some value ↦ parse_entries [] (getlines value)
        ]
  ]
