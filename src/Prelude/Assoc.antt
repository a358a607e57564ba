-- ===== src/Prelude/Assoc.antt =====
-- Maps as association lists and sets as lists, with the operations that the code uses of the
-- standard containers: `find`, `erase` and `emplace`, which keeps an entry that is there.
use mathlib.Core.Path.{◌≡◌, refl}
use mathlib.Core.Logic.{inl, inr}
use mathlib.Core.Bool.{Bool, false, ◌||◌}
use mathlib.Core.Option.{Option, none, some}
use mathlib.Core.List.{List, [], ◌∷◌}
use native.Mathlib.Omega.{arith}
use rmw_fastrtps.Prelude.Tests.{if◌then◌else◌, Option-cases}
use rmw_fastrtps.Prelude.Equality.{HasTest, ◌==◌, eq_iff}

abbrev pub keep_or {ι} : {A : Type ι} → Option A → A → Option A
keep_or (some w) v = some w
keep_or none v = some v

module _ {ℓ κ} {K : Type ℓ} {V : Type κ} ⦃e : HasTest K⦄ where
  unfoldable pub find : K → List (K × V) → Option V
  find k [] = none
  find k ((j, v) ∷ m) = if j == k then some v else find k m

  unfoldable pub erase : K → List (K × V) → List (K × V)
  erase k [] = []
  erase k ((j, v) ∷ m) = let rest = erase k m in if j == k then rest else (j, v) ∷ rest

  unfoldable pub emplace : K → V → List (K × V) → List (K × V)
  emplace k v m = elim (find k m) [ some w ↦ m | none ↦ (k, v) ∷ m ]

  pub find-erase :
      (k j : K) (m : List (K × V)) → find j (erase k m) ≡ (if k == j then none else find j m)
  unfolding find erase
  find-erase k j [] = ground arith
  find-erase k j ((i, v) ∷ m) = ground (arith, find-erase k j m, eq_iff i k, eq_iff i j, eq_iff k j)

  pub find-emplace :
      (k j : K) (v : V) (m : List (K × V))
      → find j (emplace k v m) ≡ (if k == j then keep_or (find k m) v else find j m)
  unfolding find emplace
  find-emplace k j v m = elim (Option-cases (find k m)) [
    | inl absent ↦ rw (absent, emplace, find) refl
    | inr (w, there) ↦ rw (there, emplace) (ground (arith, eq_iff k j))
  ]

  -- `m[k] = v`.
  unfoldable pub assign : K → V → List (K × V) → List (K × V)
  assign k v m = (k, v) ∷ erase k m

  pub find-assign :
      (k j : K) (v : V) (m : List (K × V))
      → find j (assign k v m) ≡ (if k == j then some v else find j m)
  unfolding find assign
  find-assign k j v m = ground (arith, find-erase k j m, eq_iff k j)

module _ {ℓ} {K : Type ℓ} ⦃e : HasTest K⦄ where
  -- Membership, insertion and removal of a `std::set` or `std::unordered_set`.
  unfoldable pub contains : K → List K → Bool
  contains k [] = false
  contains k (j ∷ s) = j == k || contains k s

  unfoldable pub insert : K → List K → List K
  insert k s = if contains k s then s else k ∷ s

  unfoldable pub remove : K → List K → List K
  remove k [] = []
  remove k (j ∷ s) = let rest = remove k s in if j == k then rest else j ∷ rest

  pub contains-insert : (k j : K) (s : List K) → contains j (insert k s) ≡ (k == j || contains j s)
  unfolding contains insert
  contains-insert k j s = ground (arith, eq_iff k j)

  pub contains-remove :
      (k j : K) (s : List K) → contains j (remove k s) ≡ (if k == j then false else contains j s)
  unfolding contains remove
  contains-remove k j [] = ground arith
  contains-remove k j (i ∷ s) =
      ground (arith, contains-remove k j s, eq_iff i k, eq_iff i j, eq_iff k j)
