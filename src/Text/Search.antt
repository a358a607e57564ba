-- ===== src/Text/Search.antt =====
-- What the searches find.
use rmw_fastrtps.Prelude.{
  ℕ, zero, suc, ◌+◌, ◌≤◌, ◌<◌, ◌≡◌, refl, true, none, some, [], ◌∷◌, ◌++◌, arith, length, drop,
  eqb_iff,
}
use rmw_fastrtps.Text.{Text, starts_with, find, rfind}

pub starts_with-append : (p s : Text) → starts_with p (p ++ s) ≡ true
unfolding starts_with
starts_with-append [] s = refl
starts_with-append (c ∷ p) s = ground (arith, starts_with-append p s, eqb_iff c c)

pub starts_with_sound : (p s : Text) → starts_with p s ≡ true → s ≡ p ++ drop (length p) s
unfolding starts_with
starts_with_sound [] s h = refl
starts_with_sound (c ∷ p) [] h = cc
starts_with_sound (c ∷ p) (d ∷ s) h = ground (arith, starts_with_sound p s, eqb_iff c d)

pub starts_with-length : (p s : Text) → starts_with p s ≡ true → length p ≤ length s
unfolding starts_with
starts_with-length [] s h = omega arith
starts_with-length (c ∷ p) [] h = cc
starts_with-length (c ∷ p) (d ∷ s) h = ground (arith, starts_with-length p s)

pub starts_with_left : (p q s : Text) → starts_with (p ++ q) s ≡ true → starts_with p s ≡ true
unfolding starts_with
starts_with_left [] q s h = refl
starts_with_left (c ∷ p) q [] h = cc
starts_with_left (c ∷ p) q (d ∷ s) h = ground (arith, starts_with_left p q s)

-- A text that begins with a pattern and is no longer is that pattern.
pub starts_with_end : (p s : Text) → starts_with p s ≡ true → length s ≤ length p → s ≡ p
unfolding starts_with
starts_with_end [] [] h fits = refl
starts_with_end [] (d ∷ s) h fits = absurd (omega arith)
starts_with_end (c ∷ p) [] h fits = cc
starts_with_end (c ∷ p) (d ∷ s) h fits = ground (arith, starts_with_end p s, eqb_iff c d)

-- A pattern that is found at `i` stands there, within the text.
pub find_sound :
    (p s : Text) (i : ℕ)
    → find p s ≡ some i
    → (starts_with p (drop i s) ≡ true) × (i + length p ≤ length s)
unfolding find
find_sound p [] zero h = ground (arith, starts_with-length p [])
find_sound p [] (suc i) h = ground arith
find_sound p (d ∷ s) zero h = ground (arith, starts_with-length p (d ∷ s))
find_sound p (d ∷ s) (suc i) h = ground (arith, find_sound p s i)

pub rfind_sound :
    (p s : Text) (i : ℕ)
    → rfind p s ≡ some i
    → (starts_with p (drop i s) ≡ true) × (i + length p ≤ length s)
unfolding rfind
rfind_sound p [] zero h = ground (arith, starts_with-length p [])
rfind_sound p [] (suc i) h = ground arith
rfind_sound p (d ∷ s) zero h = ground (arith, starts_with-length p (d ∷ s))
rfind_sound p (d ∷ s) (suc i) h = ground (arith, rfind_sound p s i)

pub find_start : (p s : Text) → find p (p ++ s) ≡ some 0
unfolding find starts_with
find_start [] [] = refl
find_start [] (d ∷ s) = refl
find_start (c ∷ p) s = ground (arith, starts_with-append p s, eqb_iff c c)

-- A text that is too short for the pattern does not hold it.
pub rfind_short : (p s : Text) → length s < length p → rfind p s ≡ none
unfolding rfind
rfind_short p [] h = ground (arith, starts_with-length p [])
rfind_short p (d ∷ s) h = ground (arith, rfind_short p s, starts_with-length p (d ∷ s))

starts_with_self : (p : Text) → starts_with p p ≡ true
unfolding starts_with
starts_with_self [] = refl
starts_with_self (c ∷ p) = ground (arith, starts_with_self p, eqb_iff c c)

-- A pattern at the end of a text is where `rfind` finds it.
pub rfind_end : (x : Text) (c : ℕ) (p : Text) → rfind (c ∷ p) (x ++ c ∷ p) ≡ some (length x)
unfolding rfind
rfind_end [] c p = ground (arith, rfind_short (c ∷ p) p, starts_with_self (c ∷ p))
rfind_end (d ∷ x) c p = ground (arith, rfind_end x c p)
