-- ===== src/Text.antt =====
-- Text as the list of its bytes, with the searches and slices that the code takes from
-- `std::string`: `rfind(p, 0) == 0`, `find(p)`, `rfind(p)`, `substr(pos, n)`, `substr(pos)`.
-- A position is `none` where the source compares with `std::string::npos`.
pub mod Search
use rmw_fastrtps.Prelude.{
  ℕ, zero, suc, ◌+◌, ◌-◌, ◌%◌, ◌^◌, Bool, true, false, ◌&&◌, Option, none, some, List, [], ◌∷◌,
  take, drop, eqb, if◌then◌else◌,
}
use mathlib.Core.Option

abbrev pub Text : Type 0
Text = List ℕ

unfoldable pub starts_with : Text → Text → Bool
starts_with [] s = true
starts_with (c ∷ p) [] = false
starts_with (c ∷ p) (d ∷ s) = eqb c d && starts_with p s

-- The first position at which `p` stands in `s`.
unfoldable pub find : Text → Text → Option ℕ
find p [] = if starts_with p [] then some 0 else none
find p (d ∷ s) =
    let later = Option.map suc (find p s) in if starts_with p (d ∷ s) then some 0 else later

-- The last position at which `p` stands in `s`.
unfoldable pub rfind : Text → Text → Option ℕ
rfind p [] = if starts_with p [] then some 0 else none
rfind p (d ∷ s) =
    let here = if starts_with p (d ∷ s) then some 0 else none in
    elim (rfind p s) [ some i ↦ some (suc i) | none ↦ here ]

-- `s.substr(pos, n)` for a position within `s`.
abbrev pub substr : Text → ℕ → ℕ → Text
substr s pos n = take n (drop pos s)

unfoldable pub is_empty : Text → Bool
is_empty [] = true
is_empty (c ∷ s) = false

-- `a - b` on `size_t`.
abbrev pub size_sub : ℕ → ℕ → ℕ
size_sub a b = (a + 2 ^ 64 - b) % 2 ^ 64
