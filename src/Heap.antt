-- ===== src/Heap.antt =====
-- crates/heap/src/lib.rs: the heap allocator. A free list is the list of its blocks: the source keeps
-- the links in the free memory itself, which nobody else writes. `none` is a panic: an address 0, a
-- pointer that is not the heap's, a count below 0, or a sum past `usize`.
mod Cover
mod Pieces
mod Small
mod Alloc
mod Calls
mod Back
mod Bytes
mod Live
mod Order
mod Leaves
mod Merged
mod Shared
mod Sorted
mod Tests
use relay_os.Prelude.{
  ℕ, zero, suc, ◌+◌, ◌-◌, ◌*◌, ◌/◌, ◌%◌, ◌^◌, min, max, Bool, true, false, ◌&&◌, Option, none, some,
  List, [], ◌∷◌, ◌++◌, ◌==◌, leb, ltb, if◌then◌else◌, ◌>>=◌, length, get_or, set, position,
  replicate,
}

abbrev pub size_classes : List ℕ
size_classes = 16 ∷ 32 ∷ 64 ∷ 128 ∷ 256 ∷ 512 ∷ 1024 ∷ 2048 ∷ []

abbrev pub slab_size : ℕ
slab_size = 4096

abbrev pub min_block : ℕ
min_block = 16

-- The address and the size of a free large block.
abbrev pub FreeBlock : Type 0
FreeBlock = ℕ × ℕ

-- `core::alloc::Layout`
pub record Layout : Type 0 where
  pub size : ℕ
  pub align : ℕ

-- `classes`: the addresses of the free blocks of each size class.
pub record Heap : Type 0 where
  pub start : ℕ
  pub end : ℕ
  pub total : ℕ
  pub classes : List (List ℕ)
  pub large : List FreeBlock
  pub used : ℕ

pub record HeapStats : Type 0 where
  pub total : ℕ
  pub used : ℕ
  pub free_large : ℕ
  pub largest_free : ℕ

abbrev pub is_usize : ℕ → Bool
is_usize n = ltb n (2 ^ 64)

unfoldable pub class_of : Layout → Option ℕ
class_of l = let size = max l.size l.align in position (λ c. leb size c) size_classes

-- `usize::next_multiple_of`
abbrev pub next_multiple_of : ℕ → ℕ → ℕ
next_multiple_of x m = let r = x % m in if r == 0 then x else x + (m - r)

abbrev pub large_size : Layout → ℕ
large_size l = next_multiple_of (max l.size min_block) min_block

abbrev pub empty : Heap
empty = record {
  start = 2 ^ 64 - 1;
  end = 0;
  total = 0;
  classes = replicate 8 [];
  large = [];
  used = 0;
}

-- The loop of `insert_free`: the blocks below an address, and the others.
abbrev pub below : ℕ → List FreeBlock → List FreeBlock
below addr [] = []
below addr ((a, s) ∷ blocks) =
    let rest = below addr blocks in if ltb a addr then (a, s) ∷ rest else []

abbrev pub not_below : ℕ → List FreeBlock → List FreeBlock
not_below addr [] = []
not_below addr ((a, s) ∷ blocks) =
    let rest = not_below addr blocks in if ltb a addr then rest else (a, s) ∷ blocks

-- The new block, merged with the next one if they meet.
abbrev pub merge_next : ℕ → ℕ → List FreeBlock → List FreeBlock
merge_next addr size [] = (addr, size) ∷ []
merge_next addr size ((n, s) ∷ blocks) =
    if addr + size == n then (addr, size + s) ∷ blocks else (addr, size) ∷ (n, s) ∷ blocks

-- The blocks before the new one; the last of them is merged with it if they meet.
abbrev pub attach : List FreeBlock → List FreeBlock → List FreeBlock
attach [] blocks = blocks
attach ((p, s) ∷ []) [] = (p, s) ∷ []
attach ((p, s) ∷ []) ((a, t) ∷ blocks) =
    if p + s == a then (p, s + t) ∷ blocks else (p, s) ∷ (a, t) ∷ blocks
attach (b ∷ (c ∷ before)) blocks = b ∷ attach (c ∷ before) blocks

unfoldable pub insert_free : ℕ → ℕ → List FreeBlock → Option (List FreeBlock)
insert_free addr size blocks =
    if addr == 0
    then none
    else some (attach (below addr blocks) (merge_next addr size (not_below addr blocks)))

unfoldable pub add : Heap → ℕ → ℕ → Option Heap
unfolding insert_free
add h start size =
    if start % min_block == 0
    then (let whole = size - size % min_block in
        if whole == 0
        then some h
        else if is_usize (start + whole) && is_usize (h.total + whole)
        then (insert_free start whole h.large >>= λ large. some (record h {
          start = min h.start start;
          end = max h.end (start + whole);
          total = h.total + whole;
          large = large;
        }))
        else none)
    else none

-- The first block that fits, and the others; `none` is an overflow.
abbrev pub first_fit : ℕ → ℕ → List FreeBlock → Option (Option (FreeBlock × List FreeBlock))
first_fit size align [] = some none
first_fit size align ((a, s) ∷ blocks) =
    let rest = first_fit size align blocks in
    if is_usize (next_multiple_of a align + size)
    then if leb (next_multiple_of a align + size) (a + s)
      then some (some ((a, s), blocks))
      else (rest >>= λ r.
          some (elim r [ none ↦ none | some (b, others) ↦ some (b, (a, s) ∷ others) ]))
    else none

-- What is left of a block before and after.
abbrev pub cut : ℕ → ℕ → FreeBlock → List FreeBlock → Option (List FreeBlock)
cut size align (start, bsize) blocks =
    let aligned = next_multiple_of start align in
    let tail = start + bsize - (aligned + size) in
    (if ltb start aligned then insert_free start (aligned - start) blocks else some blocks) >>= λ l.
    if ltb 0 tail then insert_free (aligned + size) tail l else some l

unfoldable pub alloc_large : List FreeBlock → ℕ → ℕ → Option (Option (ℕ × List FreeBlock))
unfolding insert_free
alloc_large blocks size align = first_fit size align blocks >>= λ r. elim r [
  | none ↦ some none
  | some (b, others) ↦ cut size align b others >>= λ l. some (some (next_multiple_of b.0 align, l))
]

-- The slab's blocks, pushed from the last to the first.
abbrev pub carve : ℕ → ℕ → ℕ → List ℕ → List ℕ
carve zero addr size free = free
carve (suc n) addr size free = addr ∷ carve n (addr + size) size free

unfoldable pub refill : Heap → ℕ → Option (Option Heap)
unfolding alloc_large
refill h c = alloc_large h.large slab_size slab_size >>= λ r. elim r [
  | none ↦ some none
  | some (slab, large) ↦
      let size = get_or size_classes c 0 in
      if slab == 0
      then none
      else (let carved = record h {
        large = large;
        classes = set h.classes c (carve (slab_size / size) slab size (get_or h.classes c []));
      } in
          some (some carved))
]

-- The first block of a class leaves its list.
abbrev pub pop_small : Heap → ℕ → Option (Option ℕ × Heap)
pop_small h c = elim (get_or h.classes c []) [
  | [] ↦ some (none, h)
  | b ∷ rest ↦
      if is_usize (h.used + get_or size_classes c 0)
      then some (
        some b,
        record h { classes = set h.classes c rest; used = h.used + get_or size_classes c 0 },
      )
      else none
]

unfoldable pub alloc_small : Heap → ℕ → Option (Option ℕ × Heap)
unfolding refill
alloc_small h c = elim (get_or h.classes c []) [
  | _ ∷ _ ↦ pop_small h c
  | [] ↦ refill h c >>= λ r. elim r [ none ↦ some (none, h) | some h' ↦ pop_small h' c ]
]

-- `NonNull::new`
abbrev pub non_null : Option ℕ → Option ℕ
non_null none = none
non_null (some a) = if a == 0 then none else some a

-- The `match` of `alloc`.
unfoldable pub alloc_address : Heap → Layout → Option (Option ℕ × Heap)
unfolding alloc_small alloc_large
alloc_address h l = elim (class_of l) [
  | some c ↦ alloc_small h c
  | none ↦ alloc_large h.large (large_size l) (max l.align min_block) >>= λ r. elim r [
    | none ↦ some (none, h)
    | some (a, large) ↦
        if is_usize (h.used + large_size l)
        then some (some a, record h { large = large; used = h.used + large_size l })
        else none
  ]
]

unfoldable pub alloc : Heap → Layout → Option (Option ℕ × Heap)
unfolding alloc_address
alloc h l = alloc_address h l >>= λ r. some (non_null r.0, r.1)

unfoldable pub dealloc : Heap → ℕ → Layout → Option Heap
unfolding insert_free
dealloc h addr l =
    if leb h.start addr && ltb addr h.end
    then (elim (class_of l) [
      | some c ↦
          if leb (get_or size_classes c 0) h.used
          then some record h {
            classes = set h.classes c (addr ∷ get_or h.classes c []);
            used = h.used - get_or size_classes c 0;
          }
          else none
      | none ↦ insert_free addr (large_size l) h.large >>= λ large.
          if leb (large_size l) h.used
          then some (record h { large = large; used = h.used - large_size l })
          else none
    ])
    else none

abbrev pub sum_sizes : List FreeBlock → ℕ
sum_sizes [] = 0
sum_sizes ((a, s) ∷ blocks) = s + sum_sizes blocks

abbrev pub largest : List FreeBlock → ℕ
largest [] = 0
largest ((a, s) ∷ blocks) = max s (largest blocks)

abbrev pub stats : Heap → HeapStats
stats h = record {
  total = h.total;
  used = h.used;
  free_large = sum_sizes h.large;
  largest_free = largest h.large;
}
