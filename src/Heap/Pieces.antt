-- ===== src/Heap/Pieces.antt =====
-- crates/heap/src/lib.rs: what `alloc_large` takes out of the free list, and when it finds nothing.
use relay_os.Prelude.{
  ℕ, ◌+◌, ◌-◌, ◌^◌, ◌≤◌, ◌<◌, ◌≡◌, refl, arith, Bool, true, false, ◌&&◌, Option, none, some, List,
  [], ◌∷◌, leb, ltb, if◌then◌else◌, ◌>>=◌,
}
use relay_os.Heap.{FreeBlock, is_usize, next_multiple_of, insert_free, first_fit, cut, alloc_large}
use relay_os.Heap.Cover.{
  holds, covered, is_sound, is_sound_block, Grows, insert_free-Grows, Multiple,
  next_multiple_of_lem,
}

-- No block holds `size` bytes at a multiple of `align`.
abbrev pub none_fits : ℕ → ℕ → List FreeBlock → Bool
none_fits size align [] = true
none_fits size align ((a, s) ∷ blocks) =
    ltb (a + s) (next_multiple_of a align + size) && none_fits size align blocks

-- A block that fits, and the others; or that none does.
abbrev pub Fits : ℕ → ℕ → List FreeBlock → Option (Option (FreeBlock × List FreeBlock)) → Type 0
Fits size align blocks none = ⊥
Fits size align blocks (some none) = none_fits size align blocks ≡ true
Fits size align blocks (some (some ((a, s), others))) =
    (next_multiple_of a align + size ≤ a + s)
    × (is_sound_block a s ≡ true)
    × (is_sound others ≡ true)
    × ((x : ℕ) → covered x blocks ≡ holds a s x + covered x others)

if-Fits :
    (size align : ℕ) (blocks : List FreeBlock) (c : Bool)
    (r t : Option (Option (FreeBlock × List FreeBlock)))
    → (c ≡ true → Fits size align blocks r)
    → (c ≡ false → Fits size align blocks t)
    → Fits size align blocks (if c then r else t)
if-Fits size align blocks true r t g h = g refl
if-Fits size align blocks false r t g h = h refl

further :
    (size align a s : ℕ) (blocks : List FreeBlock)
    (o : Option (Option (FreeBlock × List FreeBlock)))
    → is_sound_block a s ≡ true
    → leb (next_multiple_of a align + size) (a + s) ≡ false
    → Fits size align blocks o
    → Fits size align
        ((a, s) ∷ blocks)
        (o >>= λ r. some (elim r [ none ↦ none | some (b, others) ↦ some (b, (a, s) ∷ others) ]))
further size align a s blocks none g miss h = h
further size align a s blocks (some none) g miss h = ground (arith, miss, h)
further size align a s blocks (some (some ((b, t), others))) g miss (fit, sound, rest, cover) =
    (fit, sound, ground (arith, g, rest), λ x. omega (arith, cover x))

pub first_fit-Fits :
    (size align : ℕ) (blocks : List FreeBlock)
    → 0 < align
    → size + align ≤ 2 ^ 63 + 64
    → is_sound blocks ≡ true
    → Fits size align blocks (first_fit size align blocks)
first_fit-Fits size align [] pos small h = refl
first_fit-Fits size align ((a, s) ∷ blocks) pos small h =
    let (low, high, _) = next_multiple_of_lem a align pos in
    if-Fits size align ((a, s) ∷ blocks) (is_usize (next_multiple_of a align + size)) _ none
      (λ _.
        if-Fits size align ((a, s) ∷ blocks) (leb (next_multiple_of a align + size) (a + s))
          (some (some ((a, s), blocks))) _
          (λ fit. (ground (arith, fit), ground (arith, h), ground (arith, h), λ x. refl))
          (λ miss.
            further size align a s blocks (first_fit size align blocks) (ground (arith, h)) miss
              (first_fit-Fits size align blocks pos small (ground (arith, h)))))
      (λ over. absurd (ground (arith, over, h, high, small)))

-- What the large list promises.
abbrev pub Large : ℕ → ℕ → List FreeBlock → Option (Option (ℕ × List FreeBlock)) → Type 0
Large size align blocks none = ⊥
Large size align blocks (some none) = none_fits size align blocks ≡ true
Large size align blocks (some (some (a, l))) =
    Multiple align a
    × (is_sound_block a size ≡ true)
    × (is_sound l ≡ true)
    × ((x : ℕ) → covered x blocks ≡ holds a size x + covered x l)

pub part-Grows :
    (a s : ℕ) (blocks : List FreeBlock) (c : Bool)
    → (c ≡ true → is_sound_block a s ≡ true)
    → (c ≡ false → s ≡ 0)
    → is_sound blocks ≡ true
    → Grows blocks (holds a s) (if c then insert_free a s blocks else some blocks)
part-Grows a s blocks true g z h = insert_free-Grows a s blocks (g refl) h
part-Grows a s blocks false g z h = (h, λ x. ground (arith, z refl))

Grows-then :
    (blocks : List FreeBlock) (f g : ℕ → ℕ) (o : Option (List FreeBlock))
    (next : List FreeBlock → Option (List FreeBlock))
    → Grows blocks f o
    → ((l : List FreeBlock) → is_sound l ≡ true → Grows l g (next l))
    → Grows blocks (λ x. f x + g x) (o >>= next)
Grows-then blocks f g none next h k = h
Grows-then blocks f g (some l) next (sound, cover) k = joined (next l) (k l sound)
  where
    joined : (r : Option (List FreeBlock)) → Grows l g r → Grows blocks (λ x. f x + g x) r
    joined none h = h
    joined (some m) (sound', cover') = (sound', λ x. omega (arith, cover x, cover' x))

cut-Grows :
    (size align a s : ℕ) (blocks : List FreeBlock)
    → 0 < align
    → 0 < size
    → next_multiple_of a align + size ≤ a + s
    → is_sound_block a s ≡ true
    → is_sound blocks ≡ true
    → Grows blocks
        (λ x.
          holds a (next_multiple_of a align - a) x
          + holds (next_multiple_of a align + size) (a + s - (next_multiple_of a align + size)) x)
        (cut size align (a, s) blocks)
cut-Grows size align a s blocks pos some_size fit sound h =
    let r = next_multiple_of a align in
    let (low, _, _) = next_multiple_of_lem a align pos in
    let tail = a + s - (r + size) in
    Grows-then blocks (holds a (r - a)) (holds (r + size) tail)
      (if ltb a r then insert_free a (r - a) blocks else some blocks)
      (λ l. if ltb 0 tail then insert_free (r + size) tail l else some l)
      (part-Grows a (r - a) blocks (ltb a r) (λ head. ground (arith, head, fit, sound, low))
        (λ nothing. ground (arith, nothing, low)) h)
      (λ l h'.
        part-Grows (r + size) tail l (ltb 0 tail) (λ rest. ground (arith, rest, fit, sound, low))
          (λ nothing. ground (arith, nothing)) h')

pub holds-cut :
    (a s r size x : ℕ)
    → a ≤ r
    → r + size ≤ a + s
    → holds a s x ≡ holds a (r - a) x + holds (r + size) (a + s - (r + size)) x + holds r size x
holds-cut a s r size x low fit = ground arith

pub alloc_large-Large :
    (blocks : List FreeBlock) (size align : ℕ)
    → 0 < align
    → 0 < size
    → size + align ≤ 2 ^ 63 + 64
    → is_sound blocks ≡ true
    → Large size align blocks (alloc_large blocks size align)
unfolding alloc_large
alloc_large-Large blocks size align pos some_size small h =
    found (first_fit size align blocks) (first_fit-Fits size align blocks pos small h)
  where
    taken :
        (a s : ℕ) (others : List FreeBlock) (o : Option (List FreeBlock))
        → next_multiple_of a align + size ≤ a + s
        → is_sound_block a s ≡ true
        → ((x : ℕ) → covered x blocks ≡ holds a s x + covered x others)
        → Grows others
            (λ x.
              holds a (next_multiple_of a align - a) x
              + holds
                  (next_multiple_of a align + size)
                  (a + s - (next_multiple_of a align + size))
                  x)
            o
        → Large size align blocks (o >>= λ l. some (some (next_multiple_of a align, l)))
    taken a s others none fit sound cover g = g
    taken a s others (some l) fit sound cover (sound', cover') =
        let (low, _, multiple) = next_multiple_of_lem a align pos in
        (
          multiple,
          ground (arith, sound, fit, low, some_size),
          sound',
          λ x.
              omega
                (arith, cover x, cover' x, holds-cut a s (next_multiple_of a align) size x low fit),
        )

    found :
        (o : Option (Option (FreeBlock × List FreeBlock)))
        → Fits size align blocks o
        → Large size align blocks (
            o >>= λ r. elim r [
              | none ↦ some none
              | some (b, others) ↦
                  cut size align b others >>= λ l. some (some (next_multiple_of b.0 align, l))
            ])
    found none f = f
    found (some none) f = f
    found (some (some ((a, s), others))) (fit, sound, rest, cover) =
        taken a s others (cut size align (a, s) others) fit sound cover
          (cut-Grows size align a s others pos some_size fit sound rest)
