-- ===== src/Frame/Boot.antt =====
-- kernel/src/mm/frame.rs: the allocator that `new` builds from the memory map.
use relay_os.Prelude.{
  ℕ, zero, suc, ◌+◌, ◌-◌, ◌*◌, ◌/◌, ◌^◌, min, ◌≤◌, ◌<◌, ◌≡◌, refl, ap, ◌∙◌, arith, Bool, true,
  false, ◌||◌, ◌&&◌, not, Option, none, some, List, [], ◌∷◌, leb, ltb, if◌then◌else◌, ◌>>=◌, length,
  get_or, any, replicate, length-replicate,
}
use relay_os.Frame.{
  frame_size, low_limit, all_ones, MemoryRegion, region_end, is_u64, ends_fit, is_usable, div_ceil,
  FrameAllocator, is_used, set_each, add_region, add_regions, reserve, clear_below, before_count,
  new,
}
use relay_os.Frame.Bitmap.{frames, in_run, Marks, set_each-span, full_word-used}
use relay_os.Frame.Calls.{IsValid}

-- Whether a frame lies wholly in a usable region.
abbrev pub usable_frame : List MemoryRegion → ℕ → Bool
usable_frame map j =
    any
      (λ r.
        is_usable r && (leb (div_ceil r.start frame_size) j && ltb j (region_end r / frame_size)))
      map

-- A call on `a` returned with the bits below `frames a` that `f` says, and as many words.
abbrev Sets : FrameAllocator → (ℕ → Bool) → Option FrameAllocator → Type 0
Sets a f none = ⊥
Sets a f (some a') =
    (length a'.bits ≡ length a.bits)
    × (a'.next ≡ a.next)
    × ((j : ℕ) → j < frames a → is_used a'.bits j ≡ f j)

spanned :
    (first last n bound j : ℕ) (u x y : Bool)
    → j < bound
    → n ≡ min last bound - first
    → x ≡ (if in_run first n j then u else y)
    → x ≡ (if leb first j && ltb j last then u else y)
spanned first last n bound j u x y lt e h = ground (arith, h, e, lt)

span-Sets :
    (a : FrameAllocator) (first last : ℕ) (u : Bool)
    → Sets a
        (λ j. if leb first j && ltb j last then u else is_used a.bits j)
        (set_each (min last (frames a) - first) a first u)
span-Sets a first last u =
    marked (set_each (min last (frames a) - first) a first u) (set_each-span a first last u)
  where
    marked :
        (o : Option FrameAllocator)
        → Marks first (min last (frames a) - first) u a o
        → Sets a (λ j. if leb first j && ltb j last then u else is_used a.bits j) o
    marked none w = w
    marked (some a') w = (
      w.size,
      w.same_next,
      λ j lt.
          spanned first last (min last (frames a) - first) (frames a) j u (is_used a'.bits j)
            (is_used a.bits j) lt refl (w.reads j),
    )

Sets-total :
    (a : FrameAllocator) (f : ℕ → Bool) (o : Option FrameAllocator) (n : ℕ)
    → Sets a f o
    → Sets a f (o >>= λ a'. some (record a' { total = n }))
Sets-total a f none n h = h
Sets-total a f (some a') n h = h

-- Two calls, one after the other.
Sets-then :
    (a : FrameAllocator) (f g : ℕ → Bool) (o : Option FrameAllocator)
    (next : FrameAllocator → Option FrameAllocator)
    → Sets a f o
    → ((a' : FrameAllocator)
        → length a'.bits ≡ length a.bits
        → ((j : ℕ) → j < frames a → is_used a'.bits j ≡ f j)
        → Sets a' g (next a'))
    → Sets a g (o >>= next)
Sets-then a f g none next h k = h
Sets-then a f g (some a') next (size, at, reads) k = joined (next a') (k a' size reads)
  where
    joined : (o : Option FrameAllocator) → Sets a' g o → Sets a g o
    joined none h = h
    joined (some b) (size', at', reads') =
        (size' ∙ size, at' ∙ at, λ j lt. reads' j (omega (arith, size, lt)))

-- The same bits by another description.
Sets-as :
    (a : FrameAllocator) (f g : ℕ → Bool) (o : Option FrameAllocator)
    → ((j : ℕ) → j < frames a → f j ≡ g j)
    → Sets a f o
    → Sets a g o
Sets-as a f g none e h = h
Sets-as a f g (some a') e (size, at, reads) = (size, at, λ j lt. reads j lt ∙ e j lt)

abbrev pub in_region : MemoryRegion → ℕ → Bool
in_region r j = leb (div_ceil r.start frame_size) j && ltb j (region_end r / frame_size)

if-Sets :
    (a : FrameAllocator) (f : ℕ → Bool) (c : Bool) (o : Option FrameAllocator)
    → c ≡ true
    → Sets a f o
    → Sets a f (if c then o else none)
if-Sets a f true o e h = h
if-Sets a f false o e h = absurd (ground (arith, e))

either :
    (c d x : Bool)
    → (if d then false else (if c then false else x))
      ≡ (if (if c then true else d) then false else x)
either c d x = ground arith

one_region-Sets :
    (a : FrameAllocator) (r : MemoryRegion) (u : Bool)
    → (not u || is_u64 (region_end r)) ≡ true
    → Sets a
        (λ j. if u && in_region r j then false else is_used a.bits j)
        (if u then add_region a r else some a)
unfolding add_region
one_region-Sets a r true e = if-Sets a _ (is_u64 (region_end r)) _ e (
    Sets-total a _ _ _
      (span-Sets a (div_ceil r.start frame_size) (region_end r / frame_size) false))
one_region-Sets a r false e = (refl, refl, λ j lt. refl)

add_regions-Sets :
    (map : List MemoryRegion) (a : FrameAllocator)
    → ends_fit map ≡ true
    → Sets a (λ j. if usable_frame map j then false else is_used a.bits j) (add_regions a map)
add_regions-Sets [] a e = (refl, refl, λ j lt. refl)
add_regions-Sets (r ∷ map) a e =
    Sets-then a (λ j. if is_usable r && in_region r j then false else is_used a.bits j)
      (λ j. if usable_frame (r ∷ map) j then false else is_used a.bits j)
      (if is_usable r then add_region a r else some a) (λ a'. add_regions a' map)
      (one_region-Sets a r (is_usable r) (ground (arith, e)))
      (λ a' size reads.
        Sets-as a' _ (λ j. if usable_frame (r ∷ map) j then false else is_used a.bits j)
          (add_regions a' map)
          (λ j lt.
            ap (λ b. if usable_frame map j then false else b) (reads j (omega (arith, size, lt)))
            ∙ either (is_usable r && in_region r j) (usable_frame map j) (is_used a.bits j))
          (add_regions-Sets map a' (ground (arith, e))))

get_or-replicate : (n i v d : ℕ) → i < n → get_or (replicate n v) i d ≡ v
get_or-replicate zero i v d h = absurd (omega arith)
get_or-replicate (suc n) zero v d h = refl
get_or-replicate (suc n) (suc i) v d h = get_or-replicate n i v d (omega arith)

all_ones-used : (words j : ℕ) → j < words * 64 → is_used (replicate words all_ones) j ≡ true
all_ones-used words j lt =
    full_word-used (replicate words all_ones) (j / 64 * 64) j (omega arith)
      (get_or-replicate words (j / 64 * 64 / 64) all_ones 0 (omega arith)) (omega arith)
      (omega arith)

-- The frames that are free at first: in a usable region, above `low_limit`, and not the bitmap's.
abbrev pub free_at_first : List MemoryRegion → ℕ → ℕ → ℕ → Bool
free_at_first map words phys j =
    usable_frame map j
    && (leb (low_limit / frame_size) j
        && not (leb (phys / frame_size) j && ltb j (div_ceil (phys + words * 8) frame_size)))

-- The bitmap and the regions end below 2 ^ 64, and the frames are fewer than 2 ^ 52.
pub record IsBootable (map : List MemoryRegion) (words phys : ℕ) : Type 0 where
  pub ends : ends_fit map ≡ true
  pub place : phys + words * 8 < 2 ^ 64
  pub few : words * 64 + 64 ≤ 2 ^ 52

abbrev pub Built : List MemoryRegion → ℕ → ℕ → Option FrameAllocator → Type 0
Built map words phys none = ⊥
Built map words phys (some a) =
    (length a.bits ≡ words)
    × ((j : ℕ) → j < words * 64 → is_used a.bits j ≡ not (free_at_first map words phys j))
    × IsValid a

chosen :
    (u l b low x y : Bool)
    → y ≡ (if u then false else true)
    → x ≡ (if l then true else y)
    → low ≡ not l
    → (if b then true else x) ≡ not (u && (low && not b))
chosen u l b low x y e f g = ground (arith, e, f, g)

before_count-Sets :
    (map : List MemoryRegion) (words phys : ℕ)
    → IsBootable map words phys
    → Sets
        (record { bits = replicate words all_ones; free = 0; total = 0; next = 0 })
        (λ j. not (free_at_first map words phys j))
        (before_count map words phys)
unfolding before_count reserve
before_count-Sets map words phys v =
    let filled : FrameAllocator = record {
      bits = replicate words all_ones;
      free = 0;
      total = 0;
      next = 0;
    } in
    let size = length-replicate words all_ones in
    let goal : ℕ → Bool = λ j. not (free_at_first map words phys j) in
    Sets-then filled _ goal (add_regions filled map) _ (add_regions-Sets map filled v.ends)
      (λ a size' reads.
        Sets-then a _ goal (reserve a 0 low_limit) _ (span-Sets a 0 (low_limit / frame_size) true)
          (λ a' size'' reads'.
            let end = phys + length a'.bits * 8 in
            let n_words : length a'.bits ≡ words = size'' ∙ size' ∙ size in
            if-Sets a' goal (is_u64 end) _ (ground (arith, v.place, n_words)) (
              Sets-as a' _ goal _
                (λ j lt.
                  let last : Bool → Bool = λ b. if b then true else is_used a'.bits j in
                  ap
                    (λ n.
                      last
                        (leb (phys / frame_size) j && ltb j (div_ceil (phys + n * 8) frame_size)))
                    n_words
                  ∙ chosen (usable_frame map j) (leb 0 j && ltb j (low_limit / frame_size))
                      (leb (phys / frame_size) j && ltb j (div_ceil (phys + words * 8) frame_size))
                      (leb (low_limit / frame_size) j) (is_used a'.bits j) (is_used a.bits j)
                      (reads j (omega (arith, lt, size'', size'))
                        ∙ ap (λ b. if usable_frame map j then false else b)
                            (all_ones-used words j (omega (arith, lt, n_words))))
                      (reads' j (omega (arith, lt, size''))) (ground arith))
                (span-Sets a' (phys / frame_size) (div_ceil end frame_size) true))))

-- For a map and a bitmap whose addresses are below 2 ^ 64 and that has fewer than 2 ^ 52 frames, `new`
-- returns, with a clear bit for just the frames that lie wholly in a usable region, at or above
-- `LOW_LIMIT` and outside the bitmap itself, and with their number as the count.
pub new_lem :
    (map : List MemoryRegion) (words phys : ℕ)
    → IsBootable map words phys
    → Built map words phys (new map words phys)
unfolding new
new_lem map words phys v =
    finished (before_count map words phys) (before_count-Sets map words phys v)
  where
    finished :
        (o : Option FrameAllocator)
        → Sets
            (record { bits = replicate words all_ones; free = 0; total = 0; next = 0 })
            (λ j. not (free_at_first map words phys j))
            o
        → Built map words phys (
            o >>= λ a. some (record a { free = clear_below (length a.bits * 64) (is_used a.bits) }))
    finished none h = h
    finished (some a) (size, at, reads) =
        let words_in : length a.bits ≡ words = size ∙ length-replicate words all_ones in
        (
          words_in,
          λ j lt. reads j (omega (arith, lt, length-replicate words all_ones)),
          record {
            counted = refl;
            next_in = omega (arith, at);
            fits = omega (arith, v.few, words_in);
          },
        )
