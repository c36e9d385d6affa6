-- ===== src/Heap/Back.antt =====
-- crates/heap/src/lib.rs: what `dealloc` and `add` do, on every branch.
use relay_os.Prelude.{
  ℕ, ◌+◌, ◌-◌, ◌%◌, ◌^◌, ◌≤◌, ◌<◌, ◌≡◌, refl, ◌∙◌, arith, min, max, Bool, true, false, ◌&&◌, Option,
  none, some, List, [], ◌∷◌, ◌==◌, leb, ltb, if◌then◌else◌, ◌>>=◌, get_or, set, length-set,
}
use relay_os.Heap.{
  FreeBlock, Layout, Heap, size_classes, min_block, class_of, large_size, insert_free, dealloc, add,
  is_usize,
}
use relay_os.Heap.Cover.{holds, is_sound_block, Grows, insert_free-Grows}
use relay_os.Heap.Small.{small_covered-set, AllPlaced-get, AllPlaced-set, ClassOf, class_of-ClassOf}
use relay_os.Heap.Alloc.{free_covered, IsTidy, piece_size, PieceAt}
use relay_os.Heap.Calls.{passes}

-- A heap whose free bytes grew by a block.
abbrev pub Returned : Heap → ℕ → ℕ → Option Heap → Type 0
Returned h a size none = ⊥
Returned h a size (some h') =
    IsTidy h'
    × (h'.used + size ≡ h.used)
    × (h'.start ≡ h.start)
    × (h'.end ≡ h.end)
    × (h'.total ≡ h.total)
    × ((x : ℕ) → free_covered x h' ≡ holds a size x + free_covered x h)

-- `dealloc` of a block that lies in the heap, with the size and the place of the layout's blocks.
pub dealloc_lem :
    (h : Heap) (a : ℕ) (l : Layout)
    → IsTidy h
    → h.start ≤ a
    → a < h.end
    → piece_size l ≤ h.used
    → is_sound_block a (piece_size l) ≡ true
    → PieceAt l (class_of l) a
    → Returned h a (piece_size l) (dealloc h a l)
unfolding dealloc
dealloc_lem h a l tidy low high enough sound at =
    passes (Returned h a (piece_size l)) (leb h.start a && ltb a h.end) _
      (ground (arith, low, high)) (one (class_of l) (class_of-ClassOf l) enough sound at)
  where
    large :
        (o : Option (List FreeBlock))
        → large_size l ≤ h.used
        → Grows h.large (holds a (large_size l)) o
        → Returned h a (large_size l) (
            o >>= λ large.
            if leb (large_size l) h.used
            then some (record h { large = large; used = h.used - large_size l })
            else none)
    large none enough g = g
    large (some blocks) enough (sound', cover) =
        passes (Returned h a (large_size l)) (leb (large_size l) h.used) _ (ground (arith, enough))
          (
            record { eight = tidy.eight; large_sound = sound'; small_placed = tidy.small_placed },
            omega (arith, enough),
            refl,
            refl,
            refl,
            λ x. omega (arith, cover x),
          )

    one :
        (o : Option ℕ)
        → ClassOf l o
        → elim o [ some c ↦ get_or size_classes c 0 | none ↦ large_size l ] ≤ h.used
        → is_sound_block a (elim o [ some c ↦ get_or size_classes c 0 | none ↦ large_size l ])
          ≡ true
        → PieceAt l o a
        → Returned h a
            (elim o [ some c ↦ get_or size_classes c 0 | none ↦ large_size l ])
            (elim o [
              | some c ↦
                  if leb (get_or size_classes c 0) h.used
                  then some record h {
                    classes = set h.classes c (a ∷ get_or h.classes c []);
                    used = h.used - get_or size_classes c 0;
                  }
                  else none
              | none ↦ insert_free a (large_size l) h.large >>= λ large.
                  if leb (large_size l) h.used
                  then some (record h { large = large; used = h.used - large_size l })
                  else none
            ])
    one none fits enough sound at =
        large (insert_free a (large_size l) h.large) enough
          (insert_free-Grows a (large_size l) h.large sound tidy.large_sound)
    one (some c) (lt, _, _) enough sound at =
        let placed = AllPlaced-get size_classes h.classes c lt tidy.small_placed in
        passes (Returned h a (get_or size_classes c 0)) (leb (get_or size_classes c 0) h.used) _
          (ground (arith, enough))
          (
            record {
              eight = length-set h.classes c _ ∙ tidy.eight;
              large_sound = tidy.large_sound;
              small_placed =
                  AllPlaced-set size_classes h.classes c _ (sound, at, placed) tidy.small_placed;
            },
            omega (arith, enough),
            refl,
            refl,
            refl,
            λ x. omega (
              arith,
              small_covered-set x size_classes h.classes c (a ∷ get_or h.classes c []) lt
                  (omega (arith, lt, tidy.eight)),
            ),
          )

-- What `add` does: the whole 16-byte units of the region are free, and inside the heap's bounds.
abbrev pub whole_part : ℕ → ℕ
whole_part size = size - size % min_block

abbrev pub Added : Heap → ℕ → ℕ → Option Heap → Type 0
Added h start whole none = ⊥
Added h start whole (some h') =
    IsTidy h'
    × (h'.used ≡ h.used)
    × (h'.total ≡ h.total + whole)
    × (0 < whole → (h'.start ≤ start) × (start + whole ≤ h'.end))
    × (h'.start ≤ h.start)
    × (h.end ≤ h'.end)
    × ((x : ℕ) → free_covered x h' ≡ holds start whole x + free_covered x h)

pub add_lem :
    (h : Heap) (start size : ℕ)
    → IsTidy h
    → start % min_block ≡ 0
    → 0 < start
    → start + size ≤ 2 ^ 62
    → h.total ≤ 2 ^ 62
    → Added h start (whole_part size) (add h start size)
unfolding add
add_lem h start size tidy at pos fit few =
    passes (Added h start (whole_part size)) (start % min_block == 0) _ (ground (arith, at))
      (part (whole_part size == 0) refl)
  where
    grown :
        (o : Option (List FreeBlock))
        → Grows h.large (holds start (whole_part size)) o
        → Added h start (whole_part size) (
            o >>= λ large. some (record h {
              start = min h.start start;
              end = max h.end (start + whole_part size);
              total = h.total + whole_part size;
              large = large;
            }))
    grown none g = g
    grown (some blocks) (sound', cover) = (
      record { eight = tidy.eight; large_sound = sound'; small_placed = tidy.small_placed },
      refl,
      refl,
      λ _. (omega arith, omega arith),
      omega arith,
      omega arith,
      λ x. omega (arith, cover x),
    )

    part :
        (c : Bool)
        → (whole_part size == 0) ≡ c
        → Added h start (whole_part size) (
            if c
            then some h
            else if is_usize (start + whole_part size) && is_usize (h.total + whole_part size)
            then (insert_free start (whole_part size) h.large >>= λ large. some (record h {
              start = min h.start start;
              end = max h.end (start + whole_part size);
              total = h.total + whole_part size;
              large = large;
            }))
            else none)
    part true e =
        let nothing : whole_part size ≡ 0 = ground (arith, e) in
        (
          tidy,
          refl,
          omega (arith, nothing),
          λ some_bytes. absurd (omega (arith, some_bytes, nothing)),
          omega arith,
          omega arith,
          λ x. ground (arith, nothing),
        )
    part false e =
        passes (Added h start (whole_part size))
          (is_usize (start + whole_part size) && is_usize (h.total + whole_part size)) _
          (ground (arith, fit, few))
          (grown (insert_free start (whole_part size) h.large) (
            insert_free-Grows start (whole_part size) h.large (ground (arith, e, pos, fit))
              tidy.large_sound))
