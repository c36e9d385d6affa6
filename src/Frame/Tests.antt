-- ===== src/Frame/Tests.antt =====
-- The frame allocator at a small map and a bitmap of one word.
use relay_os.Prelude.{◌*◌, ◌<◌, ◌≡◌, ◌≢◌, refl, arith, none, some, List, [], ◌∷◌}
use relay_os.Frame.{
  frame_size, MemoryRegion, usable, bootloader, FrameAllocator, bitmap_words, place_bitmap,
  align_up, written, used, set_used, find_run, taken, alloc, free_run, before_count, reserve,
  add_region, new,
}
use relay_os.Frame.Calls.{IsValid, Allocated, Freed, alloc_lem, free_run_lem}
use relay_os.Frame.Restore.{Restored, free_run-alloc}
use relay_os.Frame.Shared.{Reach, booted, allocated, IsShared, Reach-IsShared, Reach-frees}
use relay_os.Frame.Boot.{IsBootable, Built, new_lem}
use relay_os.Frame.Placed.{bitmap_words-cover}

-- The first four of 64 frames are used.
abbrev small : FrameAllocator
small = record { bits = 15 ∷ []; free = 60; total = 64; next = 0 }

small-IsValid : IsValid small
small-IsValid = record { counted = refl; next_in = omega arith; fits = omega arith }

abbrev regions : List MemoryRegion
regions =
    record { start = 0; len = 0xA0000; kind = usable }
    ∷ record { start = 0x100000; len = 0x3000; kind = usable }
    ∷ record { start = 0x103000; len = 0x1000; kind = bootloader }
    ∷ record { start = 0x104800; len = 0x2000; kind = usable }
    ∷ []

bootable : IsBootable regions 5 0x100000
bootable = record { ends = refl; place = omega arith; few = omega arith }

words : bitmap_words regions ≡ some 5
words = refl

placed : place_bitmap regions 40 ≡ some (some 0x100000)
placed = refl

aligned_run :
    alloc small 8 4
    ≡ some (some (4 * frame_size), record { bits = 0xFFF ∷ []; free = 52; total = 64; next = 0 })
unfolding alloc find_run taken align_up used set_used written
aligned_run = refl

double_free : free_run small (4 * frame_size) 1 ≡ none
unfolding free_run used set_used written
double_free = refl

alloc_lem_example : Allocated small 8 4 (alloc small 8 4)
alloc_lem_example = alloc_lem small 8 4 small-IsValid (omega arith) (omega arith) refl

free_run_lem_example : Freed small 0 4 (free_run small 0 4)
free_run_lem_example = free_run_lem small 0 4 small-IsValid (omega arith)

free_run-alloc_example : Restored small 8 (alloc small 8 4)
free_run-alloc_example = free_run-alloc small 8 4 small-IsValid (omega arith) (omega arith) refl

new_lem_example : Built regions 5 0x100000 (new regions 5 0x100000)
new_lem_example = new_lem regions 5 0x100000 bootable

covered : 0x105 < 5 * 64
covered = bitmap_words-cover regions 5 0x105 refl refl

-- What `new` makes of the regions: frames 257, 258 and 261 are clear.
abbrev at_first : FrameAllocator
at_first = record {
  bits =
      0xFFFFFFFFFFFFFFFF ∷ 0xFFFFFFFFFFFFFFFF ∷ 0xFFFFFFFFFFFFFFFF ∷ 0xFFFFFFFFFFFFFFFF
      ∷ 0xFFFFFFFFFFFFFFD9 ∷ [];
  free = 3;
  total = 164;
  next = 0;
}

abbrev one_taken : FrameAllocator
one_taken = record at_first {
  bits =
      0xFFFFFFFFFFFFFFFF ∷ 0xFFFFFFFFFFFFFFFF ∷ 0xFFFFFFFFFFFFFFFF ∷ 0xFFFFFFFFFFFFFFFF
      ∷ 0xFFFFFFFFFFFFFFDB ∷ [];
  free = 2;
  next = 258;
}

first_allocator : new regions 5 0x100000 ≡ some at_first
unfolding new before_count reserve add_region set_used written
first_allocator = refl

first_run : alloc at_first 1 1 ≡ some (some (257 * frame_size), one_taken)
unfolding alloc find_run taken align_up used set_used written
first_run = refl

one_held : Reach regions 5 0x100000 one_taken ((257, 1) ∷ [])
one_held = allocated 1 1 (booted first_allocator) (omega arith) (omega arith) refl first_run

Reach-IsShared_example : IsShared regions 5 0x100000 one_taken ((257, 1) ∷ [])
Reach-IsShared_example = Reach-IsShared regions 5 0x100000 bootable one_held

Reach-frees_example : free_run one_taken (257 * frame_size) 1 ≢ none
Reach-frees_example = Reach-frees regions 5 0x100000 [] 257 1 [] bootable one_held
