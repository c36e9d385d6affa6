-- ===== src/Heap/Small.antt =====
-- crates/heap/src/lib.rs: the small blocks: which bytes they cover, and where they start.
use relay_os.Prelude.{
  ℕ, zero, suc, ◌+◌, ◌*◌, ◌/◌, ◌^◌, ◌≤◌, ◌<◌, ◌≡◌, inl, inr, refl, sym, ap, subst, ◌∙◌, arith, max,
  Bool, true, false, ◌&&◌, Option, none, some, List, [], ◌∷◌, ◌==◌, leb, if◌then◌else◌, Bool-cases,
  length, get_or, set, position,
}
use relay_os.Prelude.Masks.{power_multiple, power_below}
use native.Mathlib.Nat.{mul_assoc}
use relay_os.Prelude.Bits.{every_below, every_below-holds}
use relay_os.Heap.{Layout, size_classes, slab_size, min_block, class_of, large_size, carve}
use relay_os.Heap.Cover.{holds, holds-join, is_sound_block, Multiple, next_multiple_of_lem}

-- In how many blocks of a class, and of all classes, a byte is.
abbrev pub class_covered : ℕ → ℕ → List ℕ → ℕ
class_covered x size [] = 0
class_covered x size (a ∷ free) = holds a size x + class_covered x size free

abbrev pub small_covered : ℕ → List ℕ → List (List ℕ) → ℕ
small_covered x [] classes = 0
small_covered x (s ∷ sizes) [] = 0
small_covered x (s ∷ sizes) (free ∷ classes) =
    class_covered x s free + small_covered x sizes classes

pub small_covered-set :
    (x : ℕ) (sizes : List ℕ) (classes : List (List ℕ)) (c : ℕ) (new : List ℕ)
    → c < length sizes
    → c < length classes
    → small_covered x sizes (set classes c new)
        + class_covered x (get_or sizes c 0) (get_or classes c [])
      ≡ small_covered x sizes classes + class_covered x (get_or sizes c 0) new
small_covered-set x [] classes c new h g = absurd (omega arith)
small_covered-set x (s ∷ sizes) [] c new h g = absurd (omega arith)
small_covered-set x (s ∷ sizes) (free ∷ classes) zero new h g = omega arith
small_covered-set x (s ∷ sizes) (free ∷ classes) (suc c) new h g =
    omega (arith, small_covered-set x sizes classes c new (omega arith) (omega arith))

-- Small blocks are sound and start at multiples of their size.
abbrev pub Placed : ℕ → List ℕ → Type 0
Placed size [] = Unit
Placed size (a ∷ free) = (is_sound_block a size ≡ true) × Multiple size a × Placed size free

abbrev pub AllPlaced : List ℕ → List (List ℕ) → Type 0
AllPlaced [] classes = Unit
AllPlaced (s ∷ sizes) [] = Unit
AllPlaced (s ∷ sizes) (free ∷ classes) = Placed s free × AllPlaced sizes classes

pub AllPlaced-get :
    (sizes : List ℕ) (classes : List (List ℕ)) (c : ℕ)
    → c < length sizes
    → AllPlaced sizes classes
    → Placed (get_or sizes c 0) (get_or classes c [])
AllPlaced-get [] classes c h p = absurd (omega arith)
AllPlaced-get (s ∷ sizes) [] c h p = tt
AllPlaced-get (s ∷ sizes) (free ∷ classes) zero h (here, rest) = here
AllPlaced-get (s ∷ sizes) (free ∷ classes) (suc c) h (here, rest) =
    AllPlaced-get sizes classes c (omega arith) rest

pub AllPlaced-set :
    (sizes : List ℕ) (classes : List (List ℕ)) (c : ℕ) (new : List ℕ)
    → Placed (get_or sizes c 0) new
    → AllPlaced sizes classes
    → AllPlaced sizes (set classes c new)
AllPlaced-set [] classes c new n p = tt
AllPlaced-set (s ∷ sizes) [] c new n p = tt
AllPlaced-set (s ∷ sizes) (free ∷ classes) zero new n (here, rest) = (n, rest)
AllPlaced-set (s ∷ sizes) (free ∷ classes) (suc c) new n (here, rest) =
    (here, AllPlaced-set sizes classes c new n rest)

-- The blocks of a slab cover it, and are placed.
pub class_covered-carve :
    (n a size x : ℕ) (free : List ℕ)
    → class_covered x size (carve n a size free) ≡ holds a (n * size) x + class_covered x size free
class_covered-carve zero a size x free = ground arith
class_covered-carve (suc n) a size x free =
    let whole : suc n * size ≡ size + n * size = grind arith in
    omega (
      arith,
      class_covered-carve n (a + size) size x free,
      holds-join a size (n * size) x,
      ap (λ k. holds a k x) whole,
    )

pub carve-Placed :
    (n a size : ℕ) (free : List ℕ)
    → 0 < a
    → 0 < size
    → a + n * size ≤ 2 ^ 62
    → Multiple size a
    → Placed size free
    → Placed size (carve n a size free)
carve-Placed zero a size free pos some_size fit at p = p
carve-Placed (suc n) a size free pos some_size fit (q, at) p =
    let next : suc n * size ≡ size + n * size = grind arith in
    (
      ground (arith, pos, some_size, fit, next),
      (q, at),
      carve-Placed n (a + size) size free (omega arith) some_size (omega (arith, fit, next))
          (q + 1, grind arith) p,
    )

abbrev PositionOf : {A : Type 0} → (A → Bool) → List A → A → Option ℕ → Type 0
PositionOf p xs d none = Unit
PositionOf p xs d (some i) = (i < length xs) × (p (get_or xs i d) ≡ true)

position-PositionOf :
    {A : Type 0} (p : A → Bool) (xs : List A) (d : A) → PositionOf p xs d (position p xs)
position-PositionOf p [] d = tt
position-PositionOf {A} p (x ∷ xs) d = one (p x) (position p xs) refl (position-PositionOf p xs d)
  where
    one :
        (c : Bool) (o : Option ℕ)
        → p x ≡ c
        → PositionOf p xs d o
        → PositionOf p
            (x ∷ xs)
            d
            (if c then some 0 else (elim o [ none ↦ none | some i ↦ some (suc i) ]))
    one true o e h = (omega arith, e)
    one false none e h = tt
    one false (some i) e (lt, hit) = (omega arith, hit)

-- A class is a power of two, from 2 ^ 4 on, and divides the slab.
class_table :
    every_below
      (λ c.
        get_or size_classes c 0 == 2 ^ (c + 4)
        && slab_size / get_or size_classes c 0 * get_or size_classes c 0 == slab_size)
      8
    ≡ true
unfolding every_below
class_table = refl

pub class_power :
    (c : ℕ)
    → c < 8
    → (get_or size_classes c 0 ≡ 2 ^ (c + 4))
      × (slab_size / get_or size_classes c 0 * get_or size_classes c 0 ≡ slab_size)
class_power c lt =
    let h = every_below-holds _ 8 c class_table lt in (ground (arith, h), ground (arith, h))

-- `Layout` promises: an alignment that is a power of two, and a size that, rounded up to it, is at
-- most `isize::MAX`.
pub record IsLayout (l : Layout) : Type 0 where
  pub power : (k : ℕ) × (l.align ≡ 2 ^ k)
  pub small : l.size + l.align ≤ 2 ^ 63

-- What `class_of` chooses holds the layout.
abbrev pub ClassOf : Layout → Option ℕ → Type 0
ClassOf l none = Unit
ClassOf l (some c) =
    (c < 8) × (l.size ≤ get_or size_classes c 0) × (l.align ≤ get_or size_classes c 0)

pub class_of-ClassOf : (l : Layout) → ClassOf l (class_of l)
unfolding class_of
class_of-ClassOf l =
    one (position (λ c. leb (max l.size l.align) c) size_classes)
      (position-PositionOf (λ c. leb (max l.size l.align) c) size_classes 0)
  where
    one :
        (o : Option ℕ) → PositionOf (λ c. leb (max l.size l.align) c) size_classes 0 o → ClassOf l o
    one none h = tt
    one (some c) (lt, hit) = (lt, ground (arith, hit), ground (arith, hit))

-- A multiple of a multiple.
pub Multiple-trans : (l m a : ℕ) → Multiple l m → Multiple m a → Multiple l a
Multiple-trans l m a (p, inner) (q, outer) =
    (q * p, outer ∙ ap (λ t. q * t) inner ∙ sym (mul_assoc q p l))

power_order : (k n : ℕ) → 2 ^ k ≤ 2 ^ n → k ≤ n
power_order k n h = elim (Bool-cases (leb k n)) [
  | inl le ↦ ground (arith, le)
  | inr gt ↦ absurd (omega (arith, h, power_below k n (ground (arith, gt))))
]

-- A power of two below another divides it.
power_divides : (k n a b : ℕ) → a ≡ 2 ^ k → b ≡ 2 ^ n → a ≤ b → Multiple a b
power_divides k n a b small big le =
    let (m, whole) = power_multiple n k (power_order k n (omega (arith, small, big, le))) in
    (m, big ∙ whole ∙ ap (λ t. m * t) (sym small))

-- A multiple of a class's size is one of a layout's alignment that is at most that size.
pub class-aligned :
    (l : Layout) (c a : ℕ)
    → IsLayout l
    → c < 8
    → l.align ≤ get_or size_classes c 0
    → Multiple (get_or size_classes c 0) a
    → Multiple l.align a
class-aligned l c a v lt fits multiple =
    let (k, power) = v.power in
    let (size, _) = class_power c lt in
    Multiple-trans l.align (get_or size_classes c 0) a
      (power_divides k (c + 4) l.align (get_or size_classes c 0) power size fits) multiple

-- So is a multiple of the greater of the alignment and 16.
pub large-aligned :
    (l : Layout) (a : ℕ) → IsLayout l → Multiple (max l.align min_block) a → Multiple l.align a
large-aligned l a v multiple =
    let (k, power) = v.power in
    Multiple-trans l.align (max l.align min_block) a
      (elim (Bool-cases (leb l.align min_block)) [
        | inl le ↦
            let greater : max l.align min_block ≡ min_block = ground (arith, le) in
            subst (Multiple l.align) (sym greater)
              (power_divides k 4 l.align min_block power refl (ground (arith, le)))
        | inr gt ↦ (1, ground (arith, gt))
      ])
      multiple

-- The size of a large piece.
pub large_size_lem :
    (l : Layout)
    → IsLayout l
    → (l.size ≤ large_size l)
      × (0 < large_size l)
      × (large_size l + max l.align min_block ≤ 2 ^ 63 + 64)
large_size_lem l v =
    let (low, high, _) = next_multiple_of_lem (max l.size min_block) min_block (omega arith) in
    let small = v.small in (omega (arith, low), omega (arith, low), omega (arith, high, small))
