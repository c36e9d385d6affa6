-- ===== src/Heap/Calls.antt =====
-- crates/heap/src/lib.rs: what `alloc` does, on every branch.
use relay_os.Prelude.{
  ℕ, ◌+◌, ◌^◌, ◌≤◌, ◌≡◌, refl, sym, subst, arith, max, Bool, true, false, Option, none, some, List,
  ◌==◌, if◌then◌else◌, ◌>>=◌, get_or,
}
use relay_os.Heap.{
  FreeBlock, Layout, Heap, size_classes, min_block, class_of, large_size, alloc_large, alloc_small,
  non_null, alloc_address, alloc, is_usize,
}
use relay_os.Heap.Pieces.{Large, alloc_large-Large}
use relay_os.Heap.Small.{IsLayout, ClassOf, class_of-ClassOf, large-aligned, large_size_lem}
use relay_os.Heap.Alloc.{IsTidy, piece_size, PieceAt, Exhausted, Given, alloc_small-Given}

-- A guard that holds.
pub passes :
    {A : Type 0} (P : Option A → Type 0) (c : Bool) (r : Option A)
    → c ≡ true
    → P r
    → P (if c then r else none)
passes P true r e g = g
passes P false r e g = absurd (ground (arith, e))

alloc_address-Given :
    (h : Heap) (l : Layout)
    → IsLayout l
    → IsTidy h
    → h.used ≤ 2 ^ 62
    → Given h l (piece_size l) (alloc_address h l)
unfolding alloc_address
alloc_address-Given h l v tidy few = one (class_of l) refl (class_of-ClassOf l)
  where
    large :
        (o : Option (Option (ℕ × List FreeBlock)))
        → class_of l ≡ none
        → Large (large_size l) (max l.align min_block) h.large o
        → Given h l (large_size l) (
            o >>= λ r. elim r [
              | none ↦ some (none, h)
              | some (a, blocks) ↦
                  if is_usize (h.used + large_size l)
                  then some (some a, record h { large = blocks; used = h.used + large_size l })
                  else none
            ])
    large none class f = f
    large (some none) class f = (refl, subst (Exhausted h l) (sym class) f)
    large (some (some (a, blocks))) class (multiple, sound, tidy', cover) =
        passes (Given h l (large_size l)) (is_usize (h.used + large_size l)) _
          (ground (arith, few, (large_size_lem l v).2))
          (
            large-aligned l a v multiple,
            subst (λ o. PieceAt l o a) (sym class) tt,
            (large_size_lem l v).0,
            sound,
            record { eight = tidy.eight; large_sound = tidy'; small_placed = tidy.small_placed },
            refl,
            refl,
            refl,
            refl,
            λ x. omega (arith, cover x),
          )

    one :
        (o : Option ℕ)
        → class_of l ≡ o
        → ClassOf l o
        → Given h l
            (elim o [ some c ↦ get_or size_classes c 0 | none ↦ large_size l ])
            (elim o [
              | some c ↦ alloc_small h c
              | none ↦ alloc_large h.large (large_size l) (max l.align min_block) >>= λ r. elim r [
                | none ↦ some (none, h)
                | some (a, blocks) ↦
                    if is_usize (h.used + large_size l)
                    then some (some a, record h { large = blocks; used = h.used + large_size l })
                    else none
              ]
            ])
    one (some c) class fits = alloc_small-Given h l c v class fits tidy few
    one none class fits =
        let (_, some_size, small) = large_size_lem l v in
        large (alloc_large h.large (large_size l) (max l.align min_block)) class (
          alloc_large-Large h.large (large_size l) (max l.align min_block) (omega arith) some_size
            small tidy.large_sound)

-- What `alloc` does with a layout, for a heap whose lists are sound (blocks with bytes, not at 0, ending
-- at most at 2 ^ 62, small blocks at multiples of their size) and that counts at most 2 ^ 62 bytes used:
-- it does not panic. It gives out a block of the layout's rounded size that holds the layout, aligned,
-- not at 0, whose bytes were free; every other free byte stays free, `used` grows by the rounded size,
-- and nothing else changes. Or it gives none and changes nothing, and then no free block can serve the
-- layout: none of its class and no aligned slab, or no large block that holds it aligned.
pub alloc-Given :
    (h : Heap) (l : Layout)
    → IsLayout l
    → IsTidy h
    → h.used ≤ 2 ^ 62
    → Given h l (piece_size l) (alloc h l)
unfolding alloc
alloc-Given h l v tidy few = kept (alloc_address h l) (alloc_address-Given h l v tidy few)
  where
    guarded :
        (a : ℕ) (h' : Heap) (c : Bool)
        → (a == 0) ≡ c
        → Given h l (piece_size l) (some (some a, h'))
        → Given h l (piece_size l) (some (if c then none else some a, h'))
    guarded a h' true e (_, _, _, sound, _, _, _, _, _, _) = absurd (ground (arith, e, sound))
    guarded a h' false e g = g

    kept :
        (o : Option (Option ℕ × Heap))
        → Given h l (piece_size l) o
        → Given h l (piece_size l) (o >>= λ r. some (non_null r.0, r.1))
    kept none g = g
    kept (some (none, h')) g = g
    kept (some (some a, h')) g = guarded a h' (a == 0) refl g
