-- ===== src/Heap/Tests.antt =====
-- The heap over one region of 64 KiB.
use relay_os.Prelude.{
  ◌+◌, ◌≡◌, ◌-◌, ℕ, refl, arith, true, none, some, List, [], ◌∷◌, ◌++◌, replicate,
}
use relay_os.Heap.{
  Layout, Heap, class_of, empty, insert_free, add, alloc_large, refill, alloc_small, alloc_address,
  alloc, dealloc,
}
use relay_os.Heap.Small.{IsLayout}
use relay_os.Heap.Alloc.{IsTidy, piece_size, Given}
use relay_os.Heap.Calls.{alloc-Given}
use relay_os.Heap.Back.{Returned}
use relay_os.Heap.Bytes.{Piece}
use relay_os.Heap.Order.{is_merged}
use relay_os.Heap.Sorted.{Reach-is_merged}
use relay_os.Heap.Shared.{
  Reach, fresh, added, allocated, IsPartition, Reach-IsPartition, Reach-dealloc,
}

abbrev base : ℕ
base = 0x100000

-- The region as it is added.
abbrev first : Heap
first = record {
  start = base;
  end = base + 0x10000;
  total = 0x10000;
  classes = replicate 8 [];
  large = (base, 0x10000) ∷ [];
  used = 0;
}

abbrev half_page : Layout
half_page = record { size = 2000; align = 8 }

abbrev pages : Layout
pages = record { size = 10000; align = 4096 }

half_page-IsLayout : IsLayout half_page
half_page-IsLayout = record { power = (3, refl); small = omega arith }

pages-IsLayout : IsLayout pages
pages-IsLayout = record { power = (12, refl); small = omega arith }

-- A small and a large piece.
abbrev second : Heap
second = record first {
  classes = replicate 7 [] ++ (((base + 2048) ∷ []) ∷ []);
  large = (base + 4096, 0xF000) ∷ [];
  used = 2048;
}

abbrev third : Heap
third = record second { large = (base + 4096 + 10000, 0xF000 - 10000) ∷ []; used = 2048 + 10000 }

added_first : add empty base (0x10000 + 7) ≡ some first
unfolding add insert_free
added_first = refl

small_piece : alloc first half_page ≡ some (some base, second)
unfolding alloc alloc_address alloc_small refill alloc_large insert_free class_of
small_piece = refl

large_piece : alloc second pages ≡ some (some (base + 4096), third)
unfolding alloc alloc_address alloc_small refill alloc_large insert_free class_of
large_piece = refl

merged : dealloc third (base + 4096) pages ≡ some second
unfolding dealloc insert_free class_of
merged = refl

foreign : dealloc third 4096 pages ≡ none
unfolding dealloc insert_free class_of
foreign = refl

too_large : alloc first record { size = 0x10001; align = 1 } ≡ some (none, first)
unfolding alloc alloc_address alloc_small refill alloc_large insert_free class_of
too_large = refl

abbrev live : List Piece
live = (base + 4096, pages) ∷ (base, half_page) ∷ []

reach : Reach third ((base, 0x10000) ∷ []) live
reach =
    allocated pages
      (allocated half_page
        (added base (0x10000 + 7) fresh refl (omega arith) (omega arith) (λ x. ground arith)
          added_first)
        half_page-IsLayout small_piece)
      pages-IsLayout large_piece

first-IsTidy : IsTidy first
first-IsTidy = record {
  eight = refl;
  large_sound = refl;
  small_placed = (tt, (tt, (tt, (tt, (tt, (tt, (tt, (tt, tt))))))));
}

alloc-Given_example : Given first half_page (piece_size half_page) (alloc first half_page)
alloc-Given_example = alloc-Given first half_page half_page-IsLayout first-IsTidy (omega arith)

Reach-IsPartition_example : IsPartition third ((base, 0x10000) ∷ []) live
Reach-IsPartition_example = Reach-IsPartition reach

Reach-dealloc_example : Returned third base (piece_size half_page) (dealloc third base half_page)
Reach-dealloc_example = Reach-dealloc ((base + 4096, pages) ∷ []) base half_page [] reach

Reach-is_merged_example : is_merged third.large ≡ true
Reach-is_merged_example = Reach-is_merged reach
