-- ===== src/Frame.antt =====
-- kernel/src/mm/frame.rs: the physical frame allocator, one bit per frame of 4 KiB. A word of the
-- bitmap is a number below 2 ^ 64. `none` is a panic: an index out of range, a failed `assert!`, a
-- count that would go below 0, or a sum of the caller's numbers past 64 bits.
mod Bitmap
mod Search
mod Calls
mod Restore
mod Boot
mod Placed
mod Shared
mod Tests
use relay_os.Prelude.{
  ℕ, zero, suc, ◌+◌, ◌-◌, ◌*◌, ◌/◌, ◌%◌, ◌^◌, min, max, bit_and, bit_or, Bool, true, false, ◌||◌,
  ◌&&◌, not, Option, none, some, List, [], ◌∷◌, ◌==◌, leb, ltb, if◌then◌else◌, ◌>>=◌, length,
  get_or, get_elem?, set, replicate, any, tabulate, ◌⊎◌, inl, inr,
}

abbrev pub frame_size : ℕ
frame_size = 4096

abbrev pub low_limit : ℕ
low_limit = 0x100000

-- `!0` of a `u64`.
abbrev pub all_ones : ℕ
all_ones = 2 ^ 64 - 1

-- crates/boot-info/src/lib.rs
pub data MemoryKind : Type 0 where
  usable bootloader acpi_reclaimable acpi_nvs reserved mmio kernel : MemoryKind

pub record MemoryRegion : Type 0 where
  pub start : ℕ
  pub len : ℕ
  pub kind : MemoryKind

abbrev pub region_end : MemoryRegion → ℕ
region_end r = r.start + r.len

-- A sum that is not a `u64` panics (`overflow-checks` is on).
abbrev pub is_u64 : ℕ → Bool
is_u64 n = ltb n (2 ^ 64)

abbrev pub is_usable : MemoryRegion → Bool
is_usable r = elim r.kind [ usable ↦ true | _ ↦ false ]

abbrev pub div_ceil : ℕ → ℕ → ℕ
div_ceil x d = x / d + (if x % d == 0 then 0 else 1)

-- The largest `end` of the usable regions.
abbrev pub highest : List MemoryRegion → ℕ
highest [] = 0
highest (r ∷ map) = let h = highest map in if is_usable r then max (region_end r) h else h

abbrev pub ends_fit : List MemoryRegion → Bool
ends_fit [] = true
ends_fit (r ∷ map) = (not (is_usable r) || is_u64 (region_end r)) && ends_fit map

abbrev pub bitmap_words : List MemoryRegion → Option ℕ
bitmap_words map = if ends_fit map then some (div_ceil (highest map / frame_size) 64) else none

-- The closure of `find_map`.
abbrev pub place_in : MemoryRegion → ℕ → Option (Option ℕ)
place_in r size =
    let start = div_ceil (max r.start low_limit) frame_size * frame_size in
    if is_u64 (start + size) && is_u64 (region_end r)
    then some (if leb (start + size) (region_end r) then some start else none)
    else none

abbrev pub place_each : List MemoryRegion → ℕ → Option (Option ℕ)
place_each [] size = some none
place_each (r ∷ map) size =
    let rest = place_each map size in
    if is_usable r
    then (place_in r size >>= λ p. elim p [ some start ↦ some (some start) | none ↦ rest ])
    else rest

abbrev pub place_bitmap : List MemoryRegion → ℕ → Option (Option ℕ)
place_bitmap map bytes =
    let size = div_ceil bytes frame_size * frame_size in
    if is_u64 size then place_each map size else none

pub record FrameAllocator : Type 0 where
  pub bits : List ℕ
  pub free : ℕ
  pub total : ℕ
  pub next : ℕ

-- The bit of a frame in the words, 0 for one without a word.
abbrev pub is_used : List ℕ → ℕ → Bool
is_used bits i = not (bit_and (get_or bits (i / 64) 0) (2 ^ (i % 64)) == 0)

-- The words with the bit of one frame written.
unfoldable pub written : List ℕ → ℕ → Bool → List ℕ
written bits i used =
    let w = get_or bits (i / 64) 0 in
    set bits (i / 64)
      (if used then bit_or w (2 ^ (i % 64)) else bit_and w (all_ones - 2 ^ (i % 64)))

unfoldable pub used : FrameAllocator → ℕ → Option Bool
used a i = if ltb (i / 64) (length a.bits) then some (is_used a.bits i) else none

unfoldable pub set_used : FrameAllocator → ℕ → Bool → Option FrameAllocator
unfolding written
set_used a i u =
    if ltb (i / 64) (length a.bits) then some (record a { bits = written a.bits i u }) else none

-- The loops `for j in i..i + n { self.set(j, u) }`.
abbrev pub set_each : ℕ → FrameAllocator → ℕ → Bool → Option FrameAllocator
set_each zero a i u = some a
set_each (suc n) a i u = set_used a i u >>= λ a'. set_each n a' (suc i) u

-- The sum is a `u64` wherever `find` calls it with frame numbers and an alignment of a `usize`.
unfoldable pub align_up : ℕ → ℕ → ℕ
align_up x align = bit_and (x + align - 1) (all_ones - (align - 1))

abbrev pub is_power_of_two : ℕ → Bool
is_power_of_two n = any (λ e. n == 2 ^ e) (tabulate 64 (λ e. e))

-- `(i..i + n).find(|&j| self.used(j))`
abbrev pub first_used : ℕ → FrameAllocator → ℕ → Option (Option ℕ)
first_used zero a i = some none
first_used (suc n) a i = used a i >>= λ u. if u then some (some i) else first_used n a (suc i)

-- `i.is_multiple_of(64) && self.bits[i / 64] == !0`
abbrev pub full_word : FrameAllocator → ℕ → Option Bool
full_word a i =
    if i % 64 == 0 then get_elem? a.bits (i / 64) >>= (λ w. some (w == all_ones)) else some false

-- The body of the loop: where to go on, or the run found.
abbrev pub look : FrameAllocator → ℕ → ℕ → ℕ → Option (ℕ ⊎ ℕ)
look a i count align = full_word a i >>= λ full.
    if full
    then some (inl (align_up (i + 64) align))
    else first_used count a i >>= λ r.
        some (elim r [ none ↦ inr i | some j ↦ inl (align_up (j + 1) align) ])

abbrev pub find_loop : ℕ → FrameAllocator → ℕ → ℕ → ℕ → ℕ → Option (Option ℕ)
find_loop zero a i to count align = none
find_loop (suc fuel) a i to count align = elim (is_u64 (i + count)) [
  | false ↦ none
  | true ↦ elim (leb (i + count) to) [
    | false ↦ some none
    | true ↦ look a i count align >>= λ r. elim r [
      | inl i' ↦ find_loop fuel a i' to count align
      | inr k ↦ some (some k)
    ]
  ]
]

-- Every round goes on by a frame at least.
unfoldable pub find_run : FrameAllocator → ℕ → ℕ → ℕ → ℕ → Option (Option ℕ)
unfolding align_up
find_run a from to count align = find_loop (suc to) a (align_up from align) to count align

-- A first frame's run marked used and counted.
unfoldable pub taken : FrameAllocator → ℕ → ℕ → Bool → Option (Option ℕ × FrameAllocator)
taken a i count single = set_each count a i true >>= λ a'.
    if leb count a'.free
    then some (
      some (i * frame_size),
      record a' { next = if single then i + 1 else a.next; free = a.free - count },
    )
    else none

unfoldable pub alloc : FrameAllocator → ℕ → ℕ → Option (Option ℕ × FrameAllocator)
unfolding find_run taken
alloc a count align =
    if ltb 0 count && is_power_of_two align
    then (let n = length a.bits * 64 in
        let single = count == 1 && align == 1 in
        find_run a (if single then a.next else 0) n count align >>= λ r.
        (elim r [ some i ↦ some (some i) | none ↦ find_run a 0 n count align ]) >>= λ r'. elim r' [
          | none ↦ some (none, a)
          | some i ↦ taken a i count single
        ])
    else none

-- The loop of `free`.
abbrev pub free_each : ℕ → FrameAllocator → ℕ → Option FrameAllocator
free_each zero a i = some a
free_each (suc n) a i =
    used a i >>= λ u. if u then (set_used a i false >>= λ a'. free_each n a' (suc i)) else none

-- `free`
unfoldable pub free_run : FrameAllocator → ℕ → ℕ → Option FrameAllocator
free_run a phys count =
    let first = phys / frame_size in
    free_each count a first >>= λ a'.
    some (record a' { free = a.free + count; next = min a.next first })

-- The frames that lie wholly in a usable region, counted and marked clear.
unfoldable pub add_region : FrameAllocator → MemoryRegion → Option FrameAllocator
add_region a r =
    let first = div_ceil r.start frame_size in
    let n = min (region_end r / frame_size) (length a.bits * 64) - first in
    if is_u64 (region_end r)
    then (set_each n a first false >>= λ a'. some (record a' { total = a.total + n }))
    else none

abbrev pub add_regions : FrameAllocator → List MemoryRegion → Option FrameAllocator
add_regions a [] = some a
add_regions a (r ∷ map) =
    (if is_usable r then add_region a r else some a) >>= λ a'. add_regions a' map

unfoldable pub reserve : FrameAllocator → ℕ → ℕ → Option FrameAllocator
reserve a start end =
    let first = start / frame_size in
    set_each (min (div_ceil end frame_size) (length a.bits * 64) - first) a first true

-- `(0..n).filter(|&i| !a.used(i)).count()`
abbrev pub clear_below : ℕ → (ℕ → Bool) → ℕ
clear_below zero f = 0
clear_below (suc n) f = clear_below n f + (if f n then 0 else 1)

-- The body of `new` before it counts; `words` is the length of the slice that becomes the bitmap.
unfoldable pub before_count : List MemoryRegion → ℕ → ℕ → Option FrameAllocator
unfolding reserve add_region
before_count map words bitmap_phys =
    let filled : FrameAllocator = record {
      bits = replicate words all_ones;
      free = 0;
      total = 0;
      next = 0;
    } in
    add_regions filled map >>= λ a. reserve a 0 low_limit >>= λ a.
    (let end = bitmap_phys + length a.bits * 8 in
      if is_u64 end then reserve a bitmap_phys end else none)

unfoldable pub new : List MemoryRegion → ℕ → ℕ → Option FrameAllocator
unfolding before_count
new map words bitmap_phys = before_count map words bitmap_phys >>= λ a.
    some (record a { free = clear_below (length a.bits * 64) (is_used a.bits) })
