-- ===== src/Qos/Backends/RoundTrip.antt =====
-- The buffer backends that are encoded are those that are parsed.
use rmw_fastrtps.Prelude.{
  ℕ, ◌+◌, ◌||◌, ◌≡◌, refl, subst, ap, ◌∙◌, inl, inr, Bool, true, false, Option, none, some, List,
  [], ◌∷◌, ◌++◌, map, arith, All, drop, length, Bool-cases, if◌then◌else◌, ◌==◌, eq_iff, list_eq,
  nat_eq, take_append,
}
use rmw_fastrtps.Prelude.Assoc.{find, contains, find-erase}
use native.Mathlib.Nat.{suc-add}
use mathlib.Core.List.{append-nil}
use rmw_fastrtps.Text
use rmw_fastrtps.Text.{Text, is_empty, substr}
use rmw_fastrtps.Qos.Backends.{
  buffer_backend_key, comma, colon, semicolon, equals, put_backends, encode_buffer_backends,
  getlines, assign, parse_entry, parse_entries, parse_buffer_backends,
}

-- An entry that can be encoded: a name, and no character that separates.
pub record IsBackend (b : Text × Text) : Type 0 where
  pub named : is_empty b.0 ≡ false
  pub name_no_comma : contains comma b.0 ≡ false
  pub name_no_colon : contains colon b.0 ≡ false
  pub name_no_semicolon : contains semicolon b.0 ≡ false
  pub aux_no_comma : contains comma b.1 ≡ false
  pub aux_no_semicolon : contains semicolon b.1 ≡ false

-- Entries of a map: each name stands once.
abbrev pub IsMap : List (Text × Text) → Type 0
IsMap [] = Unit
IsMap ((name, aux) ∷ m) = (find name m ≡ none) × IsMap m

contains-append : (c : ℕ) (s t : Text) → contains c (s ++ t) ≡ (contains c s || contains c t)
unfolding contains
contains-append c [] t = refl
contains-append c (d ∷ s) t = ground (arith, contains-append c s t)

getlines_last :
    (c : ℕ) (w : Text) → contains comma (c ∷ w) ≡ false → getlines (c ∷ w) ≡ (c ∷ w) ∷ []
unfolding contains getlines
getlines_last c [] h = ground arith
getlines_last c (d ∷ w) h = ground (arith, getlines_last d w)

getlines_next :
    (w rest : Text) → contains comma w ≡ false → getlines (w ++ (comma ∷ rest)) ≡ w ∷ getlines rest
unfolding contains getlines
getlines_next [] rest h = refl
getlines_next (c ∷ w) rest h = ground (arith, getlines_next w rest)

find-colon :
    (name aux : Text)
    → contains colon name ≡ false
    → Text.find (colon ∷ []) (name ++ (colon ∷ aux)) ≡ some (length name)
unfolding contains Text.find Text.starts_with
find-colon [] aux h = refl
find-colon (c ∷ name) aux h = ground (arith, find-colon name aux)

drop_after : (c : ℕ) (w aux : Text) → drop (length w + 1) (w ++ (c ∷ aux)) ≡ aux
drop_after c [] aux = refl
drop_after c (d ∷ w) aux = rw (suc-add (length w) 1) (drop_after c w aux)

is_empty_entry : (name aux : Text) → is_empty (name ++ (colon ∷ aux)) ≡ false
unfolding is_empty
is_empty_entry [] aux = refl
is_empty_entry (c ∷ name) aux = refl

parse_entry_back :
    (result : List (Text × Text)) (name aux : Text)
    → IsBackend (name, aux)
    → parse_entry result (name ++ (colon ∷ aux)) ≡ assign name aux result
unfolding parse_entry
parse_entry_back result name aux b =
    rw
      (
        parse_entry,
        is_empty_entry name aux,
        find-colon name aux b.name_no_colon,
        take_append name (colon ∷ aux),
        drop_after colon name aux,
        b.named,
      )
      refl

-- The entries of the encoded text.
abbrev entry_of : Text × Text → Text
entry_of (name, aux) = name ++ (colon ∷ aux)

entry_no_comma : (b : Text × Text) → IsBackend b → contains comma (entry_of b) ≡ false
unfolding contains
entry_no_comma (name, aux) b =
    rw (contains-append comma name (colon ∷ aux), b.name_no_comma) b.aux_no_comma

getlines_entry :
    (name aux : Text)
    → contains comma (name ++ (colon ∷ aux)) ≡ false
    → getlines (name ++ (colon ∷ aux)) ≡ (name ++ (colon ∷ aux)) ∷ []
getlines_entry [] aux h = getlines_last colon aux h
getlines_entry (c ∷ name) aux h = getlines_last c (name ++ (colon ∷ aux)) h

getlines_entries :
    (b : Text × Text) (backends : List (Text × Text))
    → IsBackend b
    → All IsBackend backends
    → getlines (entry_of b ++ put_backends false backends) ≡ map entry_of (b ∷ backends)
unfolding put_backends
getlines_entries b [] v vs =
    rw (append-nil (entry_of b)) (getlines_entry b.0 b.1 (entry_no_comma b v))
getlines_entries b (b' ∷ backends) v (v', vs) =
    getlines_next (entry_of b) (entry_of b' ++ put_backends false backends) (entry_no_comma b v)
    ∙ ap (λ rest. entry_of b ∷ rest) (getlines_entries b' backends v' vs)

find-assign :
    (k name aux : Text) (m : List (Text × Text))
    → find k (assign name aux m) ≡ (if name == k then some aux else find k m)
unfolding find
find-assign k name aux m = ground (arith, find-erase name k m, eq_iff name k)

abbrev or_else : Option Text → Option Text → Option Text
or_else (some v) o = some v
or_else none o = o

assign_before :
    (k name aux : Text) (m backends : List (Text × Text))
    → find name backends ≡ none
    → or_else (find k backends) (find k (assign name aux m))
      ≡ or_else (if name == k then some aux else find k backends) (find k m)
assign_before k name aux m backends fresh = elim (Bool-cases (name == k)) [
  | inl e ↦
      rw
        (
          find-assign k name aux m,
          e,
          subst (λ j. find j backends ≡ none) ((eq_iff name k).0 e) fresh,
        )
        refl
  | inr e ↦ rw (find-assign k name aux m, e) refl
]

parse_entries_back :
    (k : Text) (m backends : List (Text × Text))
    → All IsBackend backends
    → IsMap backends
    → find k (parse_entries m (map entry_of backends)) ≡ or_else (find k backends) (find k m)
unfolding parse_entries find
parse_entries_back k m [] vs u = refl
parse_entries_back k m ((name, aux) ∷ backends) (v, vs) (fresh, u) =
    ap (λ r. find k (parse_entries r (map entry_of backends))) (parse_entry_back m name aux v)
    ∙ parse_entries_back k (assign name aux m) backends vs u
    ∙ assign_before k name aux m backends fresh

-- What rmw's parser promises: the value of the key of an entry `key=value;`, where the value has no
-- semicolon in it and is not empty, which the parser refuses.
abbrev pub IsKeyValueParser : (Text → List (Text × Text)) → Type 0
IsKeyValueParser parse_key_value =
    (value : Text)
    → is_empty value ≡ false
    → contains semicolon value ≡ false
    → find buffer_backend_key
        (parse_key_value (buffer_backend_key ++ (equals ∷ (value ++ (semicolon ∷ [])))))
      ≡ some value

entry_no_semicolon : (b : Text × Text) → IsBackend b → contains semicolon (entry_of b) ≡ false
unfolding contains
entry_no_semicolon (name, aux) b =
    rw (contains-append semicolon name (colon ∷ aux), b.name_no_semicolon) b.aux_no_semicolon

pub put_no_semicolon :
    (first : Bool) (backends : List (Text × Text))
    → All IsBackend backends
    → contains semicolon (put_backends first backends) ≡ false
unfolding contains put_backends
put_no_semicolon first [] vs = refl
put_no_semicolon true (b ∷ backends) (v, vs) =
    rw
      (contains-append semicolon (entry_of b) (put_backends false backends), entry_no_semicolon b v)
      (put_no_semicolon false backends vs)
put_no_semicolon false (b ∷ backends) (v, vs) =
    rw
      (contains-append semicolon (entry_of b) (put_backends false backends), entry_no_semicolon b v)
      (put_no_semicolon false backends vs)

is_empty_append : (s t : Text) → is_empty s ≡ false → is_empty (s ++ t) ≡ false
unfolding is_empty
is_empty_append [] t h = cc
is_empty_append (c ∷ s) t h = refl

pub put_not_empty :
    (b : Text × Text) (backends : List (Text × Text))
    → is_empty (put_backends true (b ∷ backends)) ≡ false
unfolding put_backends
put_not_empty (name, aux) backends =
    is_empty_append (name ++ (colon ∷ aux)) (put_backends false backends) (is_empty_entry name aux)

value_lines :
    (b : Text × Text) (backends : List (Text × Text))
    → IsBackend b
    → All IsBackend backends
    → getlines (put_backends true (b ∷ backends)) ≡ map entry_of (b ∷ backends)
unfolding put_backends
value_lines b backends v vs = getlines_entries b backends v vs

or_none : (o : Option Text) → or_else o none ≡ o
or_none none = refl
or_none (some v) = refl

-- What is encoded behind the key is parsed to the same map.
pub parsed_back :
    (b : Text × Text) (backends : List (Text × Text))
    → All IsBackend (b ∷ backends)
    → IsMap (b ∷ backends)
    → (k : Text)
    → find k (parse_entries [] (getlines (put_backends true (b ∷ backends))))
      ≡ find k (b ∷ backends)
unfolding find
parsed_back b backends (v, vs) u k =
    rw (value_lines b backends v vs)
      (parse_entries_back k [] (b ∷ backends) (v, vs) u ∙ or_none (find k (b ∷ backends)))

module _ (parse_key_value : Text → List (Text × Text)) where
  -- Backends that are encoded and parsed again are the same map, provided that each name stands
  -- once, that no name is empty, and that the separators stand in no name and, but for the colon,
  -- in no value, and that the parser of entries finds the value of an entry of the backends' key that
  -- is not empty and has no semicolon.
  pub parse-encode_buffer_backends :
      (backends : List (Text × Text))
      → IsKeyValueParser parse_key_value
      → All IsBackend backends
      → IsMap backends
      → (k : Text)
      → find k (parse_buffer_backends parse_key_value (some (encode_buffer_backends backends)))
        ≡ find k backends
  unfolding parse_buffer_backends encode_buffer_backends is_empty find
  parse-encode_buffer_backends [] law vs u k = refl
  parse-encode_buffer_backends (b ∷ backends) law vs u k =
      rw
        (law (put_backends true (b ∷ backends)) (put_not_empty b backends)
          (put_no_semicolon true (b ∷ backends) vs))
        (parsed_back b backends vs u k)
