-- ===== src/Frame/Placed.antt =====
-- kernel/src/mm/frame.rs: the bitmap has a bit for every usable frame, and a place in usable memory.
use relay_os.Prelude.{
  ℕ, ◌+◌, ◌*◌, ◌/◌, ◌%◌, max, ◌≤◌, ◌<◌, ◌≡◌, inl, inr, refl, arith, Bool, true, false, ◌||◌, ◌&&◌,
  not, ◌>>=◌, Option, none, some, List, [], ◌∷◌, leb, if◌then◌else◌, any, Bool-cases,
}
use relay_os.Frame.{
  frame_size, low_limit, MemoryRegion, region_end, is_u64, ends_fit, is_usable, div_ceil, highest,
  bitmap_words, place_each, place_bitmap,
}
use relay_os.Frame.Boot.{usable_frame, in_region}

usable_frame-below :
    (map : List MemoryRegion) (j : ℕ) → usable_frame map j ≡ true → j < highest map / frame_size
usable_frame-below [] j h = absurd (ground (arith, h))
usable_frame-below (r ∷ map) j h = elim (Bool-cases (is_usable r && in_region r j)) [
  | inl here ↦ ground (arith, here)
  | inr other ↦
      let below = usable_frame-below map j (ground (arith, h, other)) in ground (arith, below)
]

-- Every frame that lies wholly in a usable region has a bit in a bitmap of `bitmap_words` words.
pub bitmap_words-cover :
    (map : List MemoryRegion) (words j : ℕ)
    → bitmap_words map ≡ some words
    → usable_frame map j ≡ true
    → j < words * 64
bitmap_words-cover map words j e h = counted (ends_fit map) e (usable_frame-below map j h)
  where
    counted :
        (c : Bool)
        → (if c then some (div_ceil (highest map / frame_size) 64) else none) ≡ some words
        → j < highest map / frame_size
        → j < words * 64
    counted true e below = ground (arith, e, below)
    counted false e below = absurd (ground (arith, e))

-- Whether one usable region holds the `n` frames at an address.
abbrev pub held : List MemoryRegion → ℕ → ℕ → Bool
held map n at =
    any (λ r. is_usable r && (leb r.start at && leb (at + n * frame_size) (region_end r))) map

held-usable :
    (map : List MemoryRegion) (n at j : ℕ)
    → at % frame_size ≡ 0
    → held map n at ≡ true
    → at / frame_size ≤ j
    → j < at / frame_size + n
    → usable_frame map j ≡ true
held-usable [] n at j e h low high = absurd (ground (arith, h))
held-usable (r ∷ map) n at j e h low high =
    elim (Bool-cases
      (is_usable r && (leb r.start at && leb (at + n * frame_size) (region_end r)))) [
        | inl here ↦
            ground (
              arith,
              within r n at j e low high (ground (arith, here)) (ground (arith, here)),
              here,
            )
        | inr other ↦
            let rest = held-usable map n at j e (ground (arith, h, other)) low high in
            ground (arith, rest)
      ]
  where
    within :
        (r : MemoryRegion) (n at j : ℕ)
        → at % frame_size ≡ 0
        → at / frame_size ≤ j
        → j < at / frame_size + n
        → r.start ≤ at
        → at + n * frame_size ≤ region_end r
        → in_region r j ≡ true
    within r n at j e low high from to = ground arith

-- A place for `n` frames at an address of a frame, not below `low_limit`, in one usable region; or
-- there is none.
abbrev pub Placed : List MemoryRegion → ℕ → Option (Option ℕ) → Type 0
Placed map n none = ⊥
Placed map n (some none) = (at : ℕ) → low_limit ≤ at → at % frame_size ≡ 0 → held map n at ≡ false
Placed map n (some (some at)) = (low_limit ≤ at) × (at % frame_size ≡ 0) × (held map n at ≡ true)

-- The sums that `place_bitmap` computes for the regions are below 2 ^ 64.
abbrev sums_fit : MemoryRegion → ℕ → Bool
sums_fit r size =
    is_u64 (div_ceil (max r.start low_limit) frame_size * frame_size + size)
    && is_u64 (region_end r)

abbrev pub all_sums_fit : List MemoryRegion → ℕ → Bool
all_sums_fit [] size = is_u64 size
all_sums_fit (r ∷ map) size = (not (is_usable r) || sums_fit r size) && all_sums_fit map size

place_each-Placed :
    (map : List MemoryRegion) (n : ℕ)
    → all_sums_fit map (n * frame_size) ≡ true
    → Placed map n (place_each map (n * frame_size))
place_each-Placed [] n h = λ at low e. refl
place_each-Placed (r ∷ map) n h =
    one (is_usable r) (leb (start + n * frame_size) (region_end r)) (sums_fit r (n * frame_size))
      (place_each map (n * frame_size)) refl refl (ground (arith, h))
      (place_each-Placed map n (ground (arith, h)))
  where
    start : ℕ
    start = div_ceil (max r.start low_limit) frame_size * frame_size

    one :
        (u c k : Bool) (o : Option (Option ℕ))
        → is_usable r ≡ u
        → leb (start + n * frame_size) (region_end r) ≡ c
        → (not u || k) ≡ true
        → Placed map n o
        → Placed (r ∷ map) n (
            if u
            then ((if k then some (if c then some start else none) else none) >>= λ p. elim p [
              | some at ↦ some (some at)
              | none ↦ o
            ])
            else o)
    one true true true o is fit sums h = (ground arith, ground arith, ground (arith, is, fit))
    one true false true none is fit sums h = h
    one true false true (some none) is fit sums h = λ at low e. ground (arith, is, fit, h at low e)
    one true false true (some (some at)) is fit sums (low, e, in_map) =
        (low, e, ground (arith, in_map))
    one true c false o is fit sums h = absurd (ground (arith, sums))
    one false c k none is fit sums h = h
    one false c k (some none) is fit sums h = λ at low e. ground (arith, is, h at low e)
    one false c k (some (some at)) is fit sums (low, e, in_map) = (low, e, ground (arith, in_map))

abbrev pub PlacedUsable : List MemoryRegion → ℕ → Option (Option ℕ) → Type 0
PlacedUsable map n none = ⊥
PlacedUsable map n (some none) = Placed map n (some none)
PlacedUsable map n (some (some at)) =
    Placed map n (some (some at))
    × ((j : ℕ) → at / frame_size ≤ j → j < at / frame_size + n → usable_frame map j ≡ true)

Placed-usable :
    (map : List MemoryRegion) (n : ℕ) (o : Option (Option ℕ))
    → Placed map n o
    → PlacedUsable map n o
Placed-usable map n none h = h
Placed-usable map n (some none) h = h
Placed-usable map n (some (some at)) (low, e, in_map) =
    ((low, e, in_map), λ j from to. held-usable map n at j e in_map from to)

all_sums_fit-size :
    (map : List MemoryRegion) (size : ℕ) → all_sums_fit map size ≡ true → is_u64 size ≡ true
all_sums_fit-size [] size h = h
all_sums_fit-size (r ∷ map) size h = all_sums_fit-size map size (ground (arith, h))

-- Where no address that it computes reaches 2 ^ 64, `place_bitmap` gives the address of a frame, not
-- below `LOW_LIMIT`, from which one usable region holds all frames of the bitmap, so each of them is
-- usable; and it gives none only if there is no such address.
pub place_bitmap_lem :
    (map : List MemoryRegion) (bytes : ℕ)
    → all_sums_fit map (div_ceil bytes frame_size * frame_size) ≡ true
    → PlacedUsable map (div_ceil bytes frame_size) (place_bitmap map bytes)
place_bitmap_lem map bytes h =
    let n = div_ceil bytes frame_size in
    let placed = Placed-usable map n _ (place_each-Placed map n h) in
    if-PlacedUsable (is_u64 (n * frame_size)) (place_each map (n * frame_size))
      (all_sums_fit-size map (n * frame_size) h) placed
  where
    if-PlacedUsable :
        (c : Bool) (o : Option (Option ℕ))
        → c ≡ true
        → PlacedUsable map (div_ceil bytes frame_size) o
        → PlacedUsable map (div_ceil bytes frame_size) (if c then o else none)
    if-PlacedUsable true o e h = h
    if-PlacedUsable false o e h = absurd (ground (arith, e))
