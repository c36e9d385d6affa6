-- ===== src/Heap/Bytes.antt =====
-- crates/heap/src/lib.rs: the blocks that cover the same bytes have the same sizes together.
use relay_os.Prelude.{
  ℕ, zero, suc, ◌+◌, ◌-◌, ◌^◌, ◌≤◌, ◌≡◌, refl, arith, min, Bool, true, ◌&&◌, List, [], ◌∷◌, leb,
}
use relay_os.Heap.{FreeBlock, Layout, sum_sizes}
use relay_os.Heap.Cover.{holds, covered, is_sound, is_sound_block}
use relay_os.Heap.Small.{class_covered, small_covered, Placed, AllPlaced}
use relay_os.Heap.Alloc.{piece_size}

-- The sum of a function below a bound.
unfoldable sum_below : (ℕ → ℕ) → ℕ → ℕ
sum_below f zero = 0
sum_below f (suc n) = sum_below f n + f n

sum_below-ext : (f g : ℕ → ℕ) (n : ℕ) → ((x : ℕ) → f x ≡ g x) → sum_below f n ≡ sum_below g n
unfolding sum_below
sum_below-ext f g zero h = refl
sum_below-ext f g (suc n) h = omega (arith, sum_below-ext f g n h, h n)

sum_below-add : (f g : ℕ → ℕ) (n : ℕ) → sum_below (λ x. f x + g x) n ≡ sum_below f n + sum_below g n
unfolding sum_below
sum_below-add f g zero = refl
sum_below-add f g (suc n) = omega (arith, sum_below-add f g n)

sum_below-nothing : (n : ℕ) → sum_below (λ _. 0) n ≡ 0
unfolding sum_below
sum_below-nothing zero = refl
sum_below-nothing (suc n) = omega (arith, sum_below-nothing n)

sum_below-le : (f : ℕ → ℕ) (n : ℕ) → ((x : ℕ) → f x ≤ 1) → sum_below f n ≤ n
unfolding sum_below
sum_below-le f zero h = omega arith
sum_below-le f (suc n) h = omega (arith, sum_below-le f n h, h n)

sum_below-part : (a s n : ℕ) → sum_below (holds a s) n ≡ min n (a + s) - min n a
unfolding sum_below
sum_below-part a s zero = omega arith
sum_below-part a s (suc n) = ground (arith, sum_below-part a s n)

sum_below-holds : (a s n : ℕ) → a + s ≤ n → sum_below (holds a s) n ≡ s
sum_below-holds a s n fit = omega (arith, sum_below-part a s n, fit)

-- A list of blocks that all end at most at a bound.
abbrev pub is_ended : ℕ → List FreeBlock → Bool
is_ended n [] = true
is_ended n ((a, s) ∷ blocks) = leb (a + s) n && is_ended n blocks

pub is_sound-is_ended : (l : List FreeBlock) → is_sound l ≡ true → is_ended (2 ^ 62) l ≡ true
is_sound-is_ended [] h = refl
is_sound-is_ended ((a, s) ∷ l) h = ground (arith, h, is_sound-is_ended l (ground (arith, h)))

sum_below-covered :
    (n : ℕ) (l : List FreeBlock)
    → is_ended n l ≡ true
    → sum_below (λ x. covered x l) n ≡ sum_sizes l
sum_below-covered n [] h = sum_below-nothing n
sum_below-covered n ((a, s) ∷ l) h = omega (
  arith,
  sum_below-add (holds a s) (λ x. covered x l) n,
  sum_below-holds a s n (ground (arith, h)),
  sum_below-covered n l (ground (arith, h)),
)

-- The sizes of the blocks of a class, and of all classes.
abbrev pub class_sum : ℕ → List ℕ → ℕ
class_sum size [] = 0
class_sum size (a ∷ free) = size + class_sum size free

abbrev pub small_sum : List ℕ → List (List ℕ) → ℕ
small_sum [] classes = 0
small_sum (s ∷ sizes) [] = 0
small_sum (s ∷ sizes) (free ∷ classes) = class_sum s free + small_sum sizes classes

sum_below-class :
    (n size : ℕ) (free : List ℕ)
    → 2 ^ 62 ≤ n
    → Placed size free
    → sum_below (λ x. class_covered x size free) n ≡ class_sum size free
sum_below-class n size [] big p = sum_below-nothing n
sum_below-class n size (a ∷ free) big (sound, _, rest) = omega (
  arith,
  sum_below-add (holds a size) (λ x. class_covered x size free) n,
  sum_below-holds a size n (ground (arith, sound, big)),
  sum_below-class n size free big rest,
)

sum_below-small :
    (n : ℕ) (sizes : List ℕ) (classes : List (List ℕ))
    → 2 ^ 62 ≤ n
    → AllPlaced sizes classes
    → sum_below (λ x. small_covered x sizes classes) n ≡ small_sum sizes classes
sum_below-small n [] classes big p = sum_below-nothing n
sum_below-small n (s ∷ sizes) [] big p = sum_below-nothing n
sum_below-small n (s ∷ sizes) (free ∷ classes) big (here, rest) = omega (
  arith,
  sum_below-add (λ x. class_covered x s free) (λ x. small_covered x sizes classes) n,
  sum_below-class n s free big here,
  sum_below-small n sizes classes big rest,
)

-- The pieces that are handed out: the address and the layout of each.
abbrev pub Piece : Type 0
Piece = ℕ × Layout

abbrev pub live_covered : ℕ → List Piece → ℕ
live_covered x [] = 0
live_covered x ((a, l) ∷ live) = holds a (piece_size l) x + live_covered x live

abbrev pub live_sum : List Piece → ℕ
live_sum [] = 0
live_sum ((a, l) ∷ live) = piece_size l + live_sum live

abbrev pub all_sound : List Piece → Bool
all_sound [] = true
all_sound ((a, l) ∷ live) = is_sound_block a (piece_size l) && all_sound live

sum_below-live :
    (n : ℕ) (live : List Piece)
    → 2 ^ 62 ≤ n
    → all_sound live ≡ true
    → sum_below (λ x. live_covered x live) n ≡ live_sum live
sum_below-live n [] big h = sum_below-nothing n
sum_below-live n ((a, l) ∷ live) big h = omega (
  arith,
  sum_below-add (holds a (piece_size l)) (λ x. live_covered x live) n,
  sum_below-holds a (piece_size l) n (ground (arith, h, big)),
  sum_below-live n live big (ground (arith, h)),
)

-- If each byte is in as many free blocks and pieces as regions, the sizes add up.
pub sums-conserved :
    (n : ℕ) (large regions : List FreeBlock) (sizes : List ℕ) (classes : List (List ℕ))
    (live : List Piece)
    → 2 ^ 62 ≤ n
    → is_ended n large ≡ true
    → is_ended n regions ≡ true
    → AllPlaced sizes classes
    → all_sound live ≡ true
    → ((x : ℕ)
        → covered x large + small_covered x sizes classes + live_covered x live ≡ covered x regions)
    → sum_sizes large + small_sum sizes classes + live_sum live ≡ sum_sizes regions
sums-conserved n large regions sizes classes live big h g placed sound same = omega (
  arith,
  sum_below-ext _ _ n same,
  sum_below-add (λ x. covered x large + small_covered x sizes classes) (λ x. live_covered x live) n,
  sum_below-add (λ x. covered x large) (λ x. small_covered x sizes classes) n,
  sum_below-covered n large h,
  sum_below-covered n regions g,
  sum_below-small n sizes classes big placed,
  sum_below-live n live big sound,
)

-- Regions that do not overlap have at most as many bytes as there are addresses.
pub sum_sizes-bound :
    (n : ℕ) (regions : List FreeBlock)
    → is_ended n regions ≡ true
    → ((x : ℕ) → covered x regions ≤ 1)
    → sum_sizes regions ≤ n
sum_sizes-bound n regions h single =
    omega (arith, sum_below-covered n regions h, sum_below-le (λ x. covered x regions) n single)
