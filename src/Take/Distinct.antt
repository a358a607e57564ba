-- ===== src/Take/Distinct.antt =====
-- Lists of different addresses, as the loans of a subscription are
-- (rmw_fastrtps_shared_cpp/src/rmw_take.cpp), and what `LoanManager::erase_item` does to them.
use rmw_fastrtps.Prelude.{ℕ, ◌≡◌, refl, false, ◌||◌, List, [], ◌∷◌, ◌++◌, arith, eqb, nat_eq}
use rmw_fastrtps.Prelude.Assoc.{contains, remove}
use rmw_fastrtps.Take.Loan.{erase_item}

abbrev pub IsDistinct : List ℕ → Type 0
IsDistinct [] = Unit
IsDistinct (x ∷ xs) = (contains x xs ≡ false) × IsDistinct xs

pub contains-append :
    (m n : ℕ) (xs : List ℕ) → contains m (xs ++ (n ∷ [])) ≡ (contains m xs || eqb n m)
unfolding contains
contains-append m n [] = ground arith
contains-append m n (x ∷ xs) = ground (arith, contains-append m n xs)

pub append-IsDistinct :
    (n : ℕ) (xs : List ℕ) → contains n xs ≡ false → IsDistinct xs → IsDistinct (xs ++ (n ∷ []))
unfolding contains
append-IsDistinct n [] h d = ground arith
append-IsDistinct n (x ∷ xs) h d = ground (arith, append-IsDistinct n xs, contains-append x n xs)

pub remove_absent : (n : ℕ) (xs : List ℕ) → contains n xs ≡ false → remove n xs ≡ xs
unfolding contains remove
remove_absent n [] h = refl
remove_absent n (x ∷ xs) h = ground (arith, remove_absent n xs)

pub remove-append : (n : ℕ) (xs : List ℕ) → contains n xs ≡ false → remove n (xs ++ (n ∷ [])) ≡ xs
unfolding contains remove
remove-append n [] h = ground arith
remove-append n (x ∷ xs) h = ground (arith, remove-append n xs)

pub contains-remove_same : (n : ℕ) (xs : List ℕ) → contains n (remove n xs) ≡ false
unfolding contains remove
contains-remove_same n [] = refl
contains-remove_same n (x ∷ xs) = ground (arith, contains-remove_same n xs)

pub contains-remove_le :
    (m n : ℕ) (xs : List ℕ) → contains m xs ≡ false → contains m (remove n xs) ≡ false
unfolding contains remove
contains-remove_le m n [] h = refl
contains-remove_le m n (x ∷ xs) h = ground (arith, contains-remove_le m n xs)

pub remove-IsDistinct : (n : ℕ) (xs : List ℕ) → IsDistinct xs → IsDistinct (remove n xs)
unfolding contains remove
remove-IsDistinct n [] d = d
remove-IsDistinct n (x ∷ xs) d = ground (arith, remove-IsDistinct n xs, contains-remove_le x n xs)

pub erase_item-found : (n : ℕ) (xs : List ℕ) → (erase_item n xs).0 ≡ contains n xs
unfolding erase_item contains
erase_item-found n [] = refl
erase_item-found n (x ∷ xs) = ground (arith, erase_item-found n xs)

pub erase_item-remove : (n : ℕ) (xs : List ℕ) → IsDistinct xs → (erase_item n xs).1 ≡ remove n xs
unfolding erase_item remove contains
erase_item-remove n [] d = refl
erase_item-remove n (x ∷ xs) d = ground (arith, erase_item-remove n xs, remove_absent n xs)
