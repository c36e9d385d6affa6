-- ===== src/Prelude/Slices.antt =====
-- Front parts and rests of a list: what a write leaves of them.
use Prim.Native.Nat.{ℕ, zero, suc, ◌+◌, ◌-◌, ◌≤◌, ◌<◌, min}
use mathlib.Core.Path.{◌≡◌, refl, ap, sym, ◌∙◌}
use mathlib.Core.List.{List, [], ◌∷◌, ◌++◌}
use native.Mathlib.Omega.{arith}
use mathlib.Core.Bool.{◌&&◌}
use relay_os.Prelude.Tests.{ltb, leb, if◌then◌else◌}
use relay_os.Prelude.Access.{get_or-append, get_or-take, get_or-drop}
use relay_os.Prelude.Lists.{
  length, get_or, set, take, drop, slice, splice, length-take, length-drop, length-append,
}

module _ {ℓ} {A : Type ℓ} where
  -- `take` of the array after a write at the end of what is taken
  pub take-set_end :
      (xs : List A) (n : ℕ) (v : A)
      → n < length xs
      → take (n + 1) (set xs n v) ≡ take n xs ++ v ∷ []
  take-set_end [] n v h = absurd (omega arith)
  take-set_end (x ∷ xs) zero v h = refl
  take-set_end (x ∷ xs) (suc n) v h =
      let end : suc n + 1 ≡ suc (n + 1) = omega arith in
      ap (λ k. take k (x ∷ set xs n v)) end ∙ ap (λ l. x ∷ l) (take-set_end xs n v (omega arith))

  pub drop_split :
      (xs : List A) (i : ℕ) (d : A) → i < length xs → drop i xs ≡ get_or xs i d ∷ drop (i + 1) xs
  drop_split [] i d h = absurd (omega arith)
  drop_split (x ∷ xs) zero d h = refl
  drop_split (x ∷ xs) (suc i) d h =
      let end : suc (i + 1) ≡ suc i + 1 = omega arith in
      drop_split xs i d (omega arith) ∙ ap (λ k. get_or xs i d ∷ drop k (x ∷ xs)) end

  pub take-take : (m n : ℕ) (xs : List A) → m ≤ n → take m (take n xs) ≡ take m xs
  take-take zero n xs h = refl
  take-take (suc m) zero xs h = absurd (omega arith)
  take-take (suc m) (suc n) [] h = refl
  take-take (suc m) (suc n) (x ∷ xs) h = ap (λ l. x ∷ l) (take-take m n xs (omega arith))

  pub drop-set_below : (xs : List A) (k n : ℕ) (v : A) → k < n → drop n (set xs k v) ≡ drop n xs
  drop-set_below xs k zero v h = absurd (omega arith)
  drop-set_below [] k (suc n) v h = refl
  drop-set_below (x ∷ xs) zero (suc n) v h = refl
  drop-set_below (x ∷ xs) (suc k) (suc n) v h = drop-set_below xs k n v (omega arith)

  pub nil_of_length : (xs : List A) → length xs ≡ 0 → xs ≡ []
  nil_of_length [] e = refl
  nil_of_length (x ∷ xs) e = absurd (omega arith)

  pub take-nil : (n : ℕ) → take {A = A} n [] ≡ []
  take-nil zero = refl
  take-nil (suc n) = refl

  pub drop-nil : (n : ℕ) → drop {A = A} n [] ≡ []
  drop-nil zero = refl
  drop-nil (suc n) = refl

  pub take-min : (m : ℕ) (xs : List A) → take (min m (length xs)) xs ≡ take m xs
  take-min m [] = take-nil (min m 0) ∙ sym (take-nil m)
  take-min zero (x ∷ xs) = let e : min 0 (suc (length xs)) ≡ 0 = omega arith in rw e
  take-min (suc m) (x ∷ xs) =
      let e : min (suc m) (suc (length xs)) ≡ suc (min m (length xs)) = omega arith in
      rw e (ap (λ l. x ∷ l) (take-min m xs))

  pub drop-min : (m : ℕ) (xs : List A) → drop (min m (length xs)) xs ≡ drop m xs
  drop-min m [] = drop-nil (min m 0) ∙ sym (drop-nil m)
  drop-min zero (x ∷ xs) = let e : min 0 (suc (length xs)) ≡ 0 = omega arith in rw e
  drop-min (suc m) (x ∷ xs) =
      let e : min (suc m) (suc (length xs)) ≡ suc (min m (length xs)) = omega arith in
      rw e (drop-min m xs)

  pub length-slice :
      (xs : List A) (start n : ℕ) → start + n ≤ length xs → length (slice xs start n) ≡ n
  length-slice xs start n h = omega (arith, length-take n (drop start xs), length-drop start xs)

  pub get_or-slice :
      (xs : List A) (start n i : ℕ) (d : A)
      → i < n
      → get_or (slice xs start n) i d ≡ get_or xs (start + i) d
  get_or-slice xs start n i d h = get_or-take n (drop start xs) i d h ∙ get_or-drop start xs i d

  pub length-splice :
      (xs : List A) (at : ℕ) (ys : List A)
      → at + length ys ≤ length xs
      → length (splice xs at ys) ≡ length xs
  length-splice xs at ys h = omega (
    arith,
    length-append {ℓ} (take at xs) (ys ++ drop (at + length ys) xs),
    length-append {ℓ} ys (drop (at + length ys) xs),
    length-take at xs,
    length-drop (at + length ys) xs,
  )

module _ {A : Type 0} where
  -- What stands at `j` after a copy: the copied element, or what stood there.
  pub get_or-splice :
      (xs : List A) (at : ℕ) (ys : List A) (j : ℕ) (d : A)
      → at + length ys ≤ length xs
      → get_or (splice xs at ys) j d
        ≡ (if leb at j && ltb j (at + length ys) then get_or ys (j - at) d else get_or xs j d)
  get_or-splice xs at ys j d h = ground (
    arith,
    get_or-append (take at xs) (ys ++ drop (at + length ys) xs) j d,
    get_or-append ys (drop (at + length ys) xs) (j - length (take at xs)) d,
    length-take at xs,
    get_or-take at xs j d,
    get_or-drop (at + length ys) xs (j - length (take at xs) - length ys) d,
  )
