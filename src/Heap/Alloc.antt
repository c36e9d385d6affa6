-- ===== src/Heap/Alloc.antt =====
-- crates/heap/src/lib.rs: what `alloc` and `dealloc` do to the bytes of the heap, on every branch.
use relay_os.Prelude.{
  ℕ, zero, suc, ◌+◌, ◌-◌, ◌*◌, ◌/◌, ◌^◌, ◌≤◌, ◌<◌, ◌≡◌, refl, sym, ap, subst, ◌∙◌, arith, max, Bool,
  true, false, Option, none, some, List, [], ◌∷◌, ◌==◌, if◌then◌else◌, ◌>>=◌, length, get_or, set,
  length-set, get_or-set_self,
}
use native.Mathlib.Nat.{mul_assoc}
use relay_os.Prelude.Masks.{power_pos}
use relay_os.Heap.{
  FreeBlock, Layout, Heap, is_usize, size_classes, slab_size, min_block, class_of, large_size,
  alloc_large, carve, refill, pop_small, alloc_small,
}
use relay_os.Heap.Cover.{holds, covered, is_sound, is_sound_block, Multiple}
use relay_os.Heap.Pieces.{none_fits, Large, alloc_large-Large}
use relay_os.Heap.Small.{
  class_covered, small_covered, small_covered-set, Placed, AllPlaced, AllPlaced-get, AllPlaced-set,
  class_covered-carve, carve-Placed, class_power, IsLayout, ClassOf, class-aligned,
}

-- The free bytes: in how many free blocks a byte is.
abbrev pub free_covered : ℕ → Heap → ℕ
free_covered x h = covered x h.large + small_covered x size_classes h.classes

pub record IsTidy (h : Heap) : Type 0 where
  pub eight : length h.classes ≡ 8
  pub large_sound : is_sound h.large ≡ true
  pub small_placed : AllPlaced size_classes h.classes

-- The bytes that a layout takes.
abbrev pub piece_size : Layout → ℕ
piece_size l = elim (class_of l) [ some c ↦ get_or size_classes c 0 | none ↦ large_size l ]

-- A block of a class starts at a multiple of its size.
abbrev pub PieceAt : Layout → Option ℕ → ℕ → Type 0
PieceAt l none a = Unit
PieceAt l (some c) a = Multiple (get_or size_classes c 0) a

-- No free block serves the layout.
abbrev pub Exhausted : Heap → Layout → Option ℕ → Type 0
Exhausted h l none = none_fits (large_size l) (max l.align min_block) h.large ≡ true
Exhausted h l (some c) =
    (get_or h.classes c [] ≡ []) × (none_fits slab_size slab_size h.large ≡ true)

-- What `alloc` promises: a block of `size` bytes that were free, aligned and not at 0, nothing else
-- changed; or none, if no free block serves the layout, and then nothing changed.
abbrev pub Given : Heap → Layout → ℕ → Option (Option ℕ × Heap) → Type 0
Given h l size none = ⊥
Given h l size (some (none, h')) = (h' ≡ h) × Exhausted h l (class_of l)
Given h l size (some (some a, h')) =
    Multiple l.align a
    × PieceAt l (class_of l) a
    × (l.size ≤ size)
    × (is_sound_block a size ≡ true)
    × IsTidy h'
    × (h'.used ≡ h.used + size)
    × (h'.start ≡ h.start)
    × (h'.end ≡ h.end)
    × (h'.total ≡ h.total)
    × ((x : ℕ) → free_covered x h ≡ holds a size x + free_covered x h')

some_factor : (n m : ℕ) → n * m ≡ 4096 → 0 < n
some_factor zero m e = absurd (grind (arith, e))
some_factor (suc n) m e = omega arith

factor_le : (n m : ℕ) → n * m ≡ 4096 → m ≤ 4096
factor_le zero m e = absurd (grind (arith, e))
factor_le (suc n) m e = grind (arith, e)

-- The first block of a class, in a heap that has the free bytes of `h`.
pop_small-Given :
    (h g : Heap) (l : Layout) (c a : ℕ) (rest : List ℕ)
    → IsLayout l
    → class_of l ≡ some c
    → ClassOf l (some c)
    → IsTidy g
    → get_or g.classes c [] ≡ a ∷ rest
    → g.used ≡ h.used
    → g.start ≡ h.start
    → g.end ≡ h.end
    → g.total ≡ h.total
    → h.used ≤ 2 ^ 62
    → ((x : ℕ) → free_covered x h ≡ free_covered x g)
    → Given h l (get_or size_classes c 0) (pop_small g c)
pop_small-Given h g l c a rest v class (lt, size, align) tidy first used start end total few same =
    let piece = get_or size_classes c 0 in
    let popped : Heap = record g { classes = set g.classes c rest; used = g.used + piece } in
    let (_, whole) = class_power c lt in
    let fit : is_usize (g.used + piece) ≡ true = ground (arith, used, few, factor_le _ _ whole) in
    let value : pop_small g c ≡ some (some a, popped) = rw (first, fit, pop_small) refl in
    let placed =
      subst (Placed piece) first (AllPlaced-get size_classes g.classes c lt tidy.small_placed) in
    let (sound, multiple, later) = placed in
    let covers : (x : ℕ) → free_covered x g ≡ holds a piece x + free_covered x popped = λ x. omega (
      arith,
      small_covered-set x size_classes g.classes c rest lt (omega (arith, lt, tidy.eight)),
      ap (class_covered x piece) first,
    ) in
    let kept : IsTidy popped = record {
      eight = length-set g.classes c rest ∙ tidy.eight;
      large_sound = tidy.large_sound;
      small_placed = AllPlaced-set size_classes g.classes c rest later tidy.small_placed;
    } in
    subst (Given h l piece) (sym value) (
      class-aligned l c a v lt align multiple,
      subst (λ o. PieceAt l o a) (sym class) multiple,
      size,
      sound,
      kept,
      omega (arith, used),
      start,
      end,
      total,
      λ x. same x ∙ covers x,
    )

-- A slab carved into the blocks of an empty class: the same free bytes.
carved : Heap → ℕ → ℕ → List FreeBlock → Heap
carved h c slab large =
    let size = get_or size_classes c 0 in
    record h {
      large = large;
      classes = set h.classes c (carve (slab_size / size) slab size (get_or h.classes c []));
    }

carved-same :
    (h : Heap) (c slab : ℕ) (large : List FreeBlock)
    → c < 8
    → IsTidy h
    → is_sound_block slab slab_size ≡ true
    → ((x : ℕ) → covered x h.large ≡ holds slab slab_size x + covered x large)
    → (x : ℕ) → free_covered x h ≡ free_covered x (carved h c slab large)
unfolding carved
carved-same h c slab large lt tidy sound cover x =
    let size = get_or size_classes c 0 in
    let free = get_or h.classes c [] in
    let (_, whole) = class_power c lt in
    omega (
      arith,
      cover x,
      small_covered-set x size_classes h.classes c (carve (slab_size / size) slab size free) lt
          (omega (arith, lt, tidy.eight)),
      class_covered-carve (slab_size / size) slab size x free,
      ap (λ k. holds slab k x) whole,
    )

carved-IsTidy :
    (h : Heap) (c slab : ℕ) (large : List FreeBlock)
    → c < 8
    → IsTidy h
    → Multiple slab_size slab
    → is_sound_block slab slab_size ≡ true
    → is_sound large ≡ true
    → IsTidy (carved h c slab large)
unfolding carved
carved-IsTidy h c slab large lt tidy (q, at) sound rest =
    let size = get_or size_classes c 0 in
    let free = get_or h.classes c [] in
    let (power, whole) = class_power c lt in
    record {
      eight = length-set h.classes c _ ∙ tidy.eight;
      large_sound = rest;
      small_placed =
          AllPlaced-set size_classes h.classes c _
            (carve-Placed (slab_size / size) slab size free (ground (arith, sound))
              (omega (arith, power, power_pos (c + 4))) (ground (arith, sound, whole))
              (
                q * (slab_size / size),
                at ∙ ap (λ t. q * t) (sym whole) ∙ sym (mul_assoc q (slab_size / size) size),
              )
              (AllPlaced-get size_classes h.classes c lt tidy.small_placed))
            tidy.small_placed;
    }

carve-first :
    (n a size : ℕ) (free : List ℕ)
    → 0 < n
    → carve n a size free ≡ a ∷ carve (n - 1) (a + size) size free
carve-first zero a size free pos = absurd (omega arith)
carve-first (suc n) a size free pos =
    let less : suc n - 1 ≡ n = omega arith in ap (λ k. a ∷ carve k (a + size) size free) (sym less)

-- The class is empty: a slab is carved, if there is one.
refill-Given :
    (h : Heap) (l : Layout) (c : ℕ)
    → IsLayout l
    → class_of l ≡ some c
    → ClassOf l (some c)
    → IsTidy h
    → h.used ≤ 2 ^ 62
    → get_or h.classes c [] ≡ []
    → Given h l
        (get_or size_classes c 0)
        (refill h c >>= λ r. elim r [ none ↦ some (none, h) | some h' ↦ pop_small h' c ])
unfolding refill carved
refill-Given h l c v class (lt, size, align) tidy few nothing =
    found (alloc_large h.large slab_size slab_size) (
      alloc_large-Large h.large slab_size slab_size (omega arith) (omega arith) (omega arith)
        tidy.large_sound)
  where
    guarded :
        (slab : ℕ) (large : List FreeBlock) (c0 : Bool)
        → (slab == 0) ≡ c0
        → Large slab_size slab_size h.large (some (some (slab, large)))
        → Given h l (get_or size_classes c 0) (
            (if c0 then none else some (some (carved h c slab large))) >>= λ r. elim r [
              | none ↦ some (none, h)
              | some h' ↦ pop_small h' c
            ])
    guarded slab large true e (multiple, sound, rest, cover) = absurd (ground (arith, e, sound))
    guarded slab large false e (multiple, sound, rest, cover) =
        let piece = get_or size_classes c 0 in
        let n = slab_size / piece in
        let free = get_or h.classes c [] in
        let (_, whole) = class_power c lt in
        let some_blocks : 0 < n = some_factor n piece whole in
        let first =
          get_or-set_self h.classes c (carve n slab piece free) [] (omega (arith, lt, tidy.eight))
          ∙ carve-first n slab piece free some_blocks in
        pop_small-Given h (carved h c slab large) l c slab (carve (n - 1) (slab + piece) piece free)
          v class (lt, size, align) (carved-IsTidy h c slab large lt tidy multiple sound rest) first
          refl refl refl refl few (carved-same h c slab large lt tidy sound cover)

    found :
        (o : Option (Option (ℕ × List FreeBlock)))
        → Large slab_size slab_size h.large o
        → Given h l (get_or size_classes c 0) (
            (o >>= λ r. elim r as (λ _. Option (Option Heap)) [
              | none ↦ some none
              | some (slab, large) ↦ if slab == 0 then none else some (some (carved h c slab large))
            ])
            >>= λ r. elim r [ none ↦ some (none, h) | some h' ↦ pop_small h' c ])
    found none f = f
    found (some none) f = (refl, subst (Exhausted h l) (sym class) (nothing, f))
    found (some (some (slab, large))) f = guarded slab large (slab == 0) refl f

pub alloc_small-Given :
    (h : Heap) (l : Layout) (c : ℕ)
    → IsLayout l
    → class_of l ≡ some c
    → ClassOf l (some c)
    → IsTidy h
    → h.used ≤ 2 ^ 62
    → Given h l (get_or size_classes c 0) (alloc_small h c)
unfolding alloc_small
alloc_small-Given h l c v class fits tidy few =
    one (get_or h.classes c []) refl (refill-Given h l c v class fits tidy few)
  where
    one :
        (free : List ℕ)
        → get_or h.classes c [] ≡ free
        → (get_or h.classes c [] ≡ []
            → Given h l
                (get_or size_classes c 0)
                (refill h c >>= λ r. elim r [ none ↦ some (none, h) | some h' ↦ pop_small h' c ]))
        → Given h l (get_or size_classes c 0) (elim free [
          | _ ∷ _ ↦ pop_small h c
          | [] ↦ refill h c >>= λ r. elim r [ none ↦ some (none, h) | some h' ↦ pop_small h' c ]
        ])
    one [] e rest = rest e
    one (a ∷ free) e rest =
        pop_small-Given h h l c a free v class fits tidy e refl refl refl refl few (λ x. refl)
