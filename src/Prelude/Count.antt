-- ===== src/Prelude/Count.antt =====
-- How often a number stands in a list: the list with its order forgotten.
use relay_os.Prelude.{
  ℕ, ◌+◌, ◌≡◌, refl, List, [], ◌∷◌, ◌++◌, arith, ◌==◌, not, length, filter, if◌then◌else◌,
}

abbrev pub times : ℕ → List ℕ → ℕ
times p [] = 0
times p (q ∷ rest) = (if q == p then 1 else 0) + times p rest

pub times-snoc :
    (p q : ℕ) (before : List ℕ)
    → times p (before ++ (q ∷ [])) ≡ times p before + (if q == p then 1 else 0)
times-snoc p q [] = omega arith
times-snoc p q (r ∷ before) = omega (arith, times-snoc p q before)

-- Every occurrence of `b` goes, and no other element.
pub times-filter_ne :
    (a b : ℕ) (xs : List ℕ)
    → times a (filter (λ x. not (x == b)) xs) ≡ (if a == b then 0 else times a xs)
times-filter_ne a b [] = ground arith
times-filter_ne a b (x ∷ xs) = ground (arith, times-filter_ne a b xs)

pub length-filter_ne :
    (b : ℕ) (xs : List ℕ) → length (filter (λ x. not (x == b)) xs) + times b xs ≡ length xs
length-filter_ne b [] = refl
length-filter_ne b (x ∷ xs) = ground (arith, length-filter_ne b xs)
