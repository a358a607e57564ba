-- ===== src/Take/Extended.antt =====
-- Arrays whose first entries are filled in order, as `_take_sequence` of
-- rmw_fastrtps_shared_cpp/src/rmw_take.cpp fills them.
use mathlib.Core.List.{append_assoc}
use rmw_fastrtps.Prelude.{
  ℕ, zero, suc, ◌+◌, ◌<◌, ◌≡◌, refl, sym, ap, ◌∙◌, some, List, [], ◌∷◌, ◌++◌, length, take,
  get_elem?, arith,
}
use rmw_fastrtps.Take.Sequence.{set}

-- The first `k'` entries of an array are the first `k` of the old one and the items.
abbrev pub IsExtended : {A : Type 0} → ℕ → ℕ → List A → List A → List A → Type 0
IsExtended k k' items xs xs' = (take k' xs' ≡ take k xs ++ items) × (length xs' ≡ length xs)

module _ {A : Type 0} where
  length-set : (xs : List A) (i : ℕ) (v : A) → length (set xs i v) ≡ length xs
  length-set [] i v = refl
  length-set (x ∷ xs) zero v = refl
  length-set (x ∷ xs) (suc i) v = ap suc (length-set xs i v)

  take-set : (xs : List A) (i : ℕ) (v : A) → take i (set xs i v) ≡ take i xs
  take-set [] i v = refl
  take-set (x ∷ xs) zero v = refl
  take-set (x ∷ xs) (suc i) v = ap (◌∷◌ x) (take-set xs i v)

  take_suc-set :
      (xs : List A) (i : ℕ) (v : A)
      → i < length xs
      → take (suc i) (set xs i v) ≡ take i xs ++ (v ∷ [])
  take_suc-set [] i v h = absurd (omega arith)
  take_suc-set (x ∷ xs) zero v h = refl
  take_suc-set (x ∷ xs) (suc i) v h = ap (◌∷◌ x) (take_suc-set xs i v (omega arith))

  pub append_none : (xs : List A) → xs ++ [] ≡ xs
  append_none [] = refl
  append_none (x ∷ xs) = ap (◌∷◌ x) (append_none xs)

  pub get_elem?-some : (xs : List A) (i : ℕ) → i < length xs → (x : A) × (get_elem? xs i ≡ some x)
  get_elem?-some [] i h = absurd (omega arith)
  get_elem?-some (x ∷ xs) zero h = (x, refl)
  get_elem?-some (x ∷ xs) (suc i) h = get_elem?-some xs i (omega arith)

  pub set-IsExtended :
      (xs : List A) (i : ℕ) (v : A) → i < length xs → IsExtended i (i + 1) (v ∷ []) xs (set xs i v)
  set-IsExtended xs i v h =
      let more : i + 1 ≡ suc i = omega arith in
      (ap (λ k. take k (set xs i v)) more ∙ take_suc-set xs i v h, length-set xs i v)

  pub untaken-IsExtended : (xs : List A) (i : ℕ) (v : A) → IsExtended i i [] xs (set xs i v)
  untaken-IsExtended xs i v = (take-set xs i v ∙ sym (append_none (take i xs)), length-set xs i v)

  pub IsExtended-trans :
      (i j k : ℕ) (xs ys zs s t : List A)
      → IsExtended i j s xs ys
      → IsExtended j k t ys zs
      → IsExtended i k (s ++ t) xs zs
  IsExtended-trans i j k xs ys zs s t p q =
      (q.0 ∙ ap (λ l. l ++ t) (p.0) ∙ append_assoc (take i xs) s t, q.1 ∙ p.1)
