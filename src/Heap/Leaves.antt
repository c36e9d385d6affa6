-- ===== src/Heap/Leaves.antt =====
-- crates/heap/src/lib.rs: `alloc_large` keeps the list in order and its neighbours merged.
use relay_os.Prelude.{
  ℕ, ◌+◌, ◌-◌, ◌^◌, ◌≤◌, ◌<◌, ◌≡◌, refl, arith, Bool, true, false, Option, none, some, List, [],
  ◌∷◌, leb, ltb, if◌then◌else◌, ◌>>=◌,
}
use relay_os.Heap.{FreeBlock, is_usize, next_multiple_of, insert_free, first_fit, cut, alloc_large}
use relay_os.Heap.Cover.{holds, covered, is_sound, is_sound_block, Grows, next_multiple_of_lem}
use relay_os.Heap.Pieces.{Fits, first_fit-Fits, part-Grows, holds-cut}
use relay_os.Heap.Order.{after_gap, after_gap-weaken, is_merged, Merges, insert_free-Merges}

-- The blocks that do not fit, and those after the one that does, stay in order.
abbrev Others : ℕ → Option (Option (FreeBlock × List FreeBlock)) → Type 0
Others e none = Unit
Others e (some none) = Unit
Others e (some (some (b, others))) = after_gap e others ≡ true

if-Others :
    (e : ℕ) (c : Bool) (r t : Option (Option (FreeBlock × List FreeBlock)))
    → Others e r
    → Others e t
    → Others e (if c then r else t)
if-Others e true r t g h = g
if-Others e false r t g h = h

first_fit-Others :
    (e size align : ℕ) (blocks : List FreeBlock)
    → after_gap e blocks ≡ true
    → Others e (first_fit size align blocks)
first_fit-Others e size align [] h = tt
first_fit-Others e size align ((a, s) ∷ blocks) h =
    if-Others e (is_usize (next_multiple_of a align + size)) _ none
      (if-Others e (leb (next_multiple_of a align + size) (a + s)) (some (some ((a, s), blocks))) _
        (after_gap-weaken e (a + s) blocks (ground (arith, h)) (ground (arith, h)))
        (further (first_fit size align blocks)
          (first_fit-Others (a + s) size align blocks (ground (arith, h)))))
      tt
  where
    further :
        (o : Option (Option (FreeBlock × List FreeBlock)))
        → Others (a + s) o
        → Others e (
            o >>= λ r. some (elim r [ none ↦ none | some (b, others) ↦ some (b, (a, s) ∷ others) ]))
    further none g = tt
    further (some none) g = tt
    further (some (some (b, others))) g = ground (arith, h, g)

part-Merges :
    (a s : ℕ) (blocks : List FreeBlock) (c : Bool)
    → (c ≡ true → is_sound_block a s ≡ true)
    → is_sound blocks ≡ true
    → is_merged blocks ≡ true
    → ((x : ℕ) → holds a s x + covered x blocks ≤ 1)
    → Merges (if c then insert_free a s blocks else some blocks)
part-Merges a s blocks true g sound h apart = insert_free-Merges a s blocks (g refl) sound h apart
part-Merges a s blocks false g sound h apart = h

cut-Merges :
    (size align a s : ℕ) (blocks : List FreeBlock)
    → 0 < align
    → 0 < size
    → next_multiple_of a align + size ≤ a + s
    → is_sound_block a s ≡ true
    → is_sound blocks ≡ true
    → is_merged blocks ≡ true
    → ((x : ℕ) → holds a s x + covered x blocks ≤ 1)
    → Merges (cut size align (a, s) blocks)
cut-Merges size align a s blocks pos some_size fit block sound h apart =
    let (low, _, _) = next_multiple_of_lem a align pos in
    both
      (if ltb a (next_multiple_of a align)
        then insert_free a (next_multiple_of a align - a) blocks
        else some blocks)
      (part-Grows a (next_multiple_of a align - a) blocks (ltb a (next_multiple_of a align))
        (λ head. ground (arith, head, fit, block, low)) (λ nothing. ground (arith, nothing, low))
        sound)
      (part-Merges a (next_multiple_of a align - a) blocks (ltb a (next_multiple_of a align))
        (λ head. ground (arith, head, fit, block, low)) sound h
        (λ x. omega (arith, apart x, holds-cut a s (next_multiple_of a align) size x low fit)))
  where
    both :
        (o : Option (List FreeBlock))
        → Grows blocks (holds a (next_multiple_of a align - a)) o
        → Merges o
        → Merges (
            o >>= λ l.
            if ltb 0 (a + s - (next_multiple_of a align + size))
            then insert_free
                (next_multiple_of a align + size)
                (a + s - (next_multiple_of a align + size))
                l
            else some l)
    both none g m = tt
    both (some l) (sound', cover) m =
        let (low, _, _) = next_multiple_of_lem a align pos in
        part-Merges (next_multiple_of a align + size) (a + s - (next_multiple_of a align + size)) l
          (ltb 0 (a + s - (next_multiple_of a align + size)))
          (λ rest. ground (arith, rest, fit, block, low)) sound' m
          (λ x.
            omega
              (arith, apart x, cover x, holds-cut a s (next_multiple_of a align) size x low fit))

-- What a call of the large list leaves.
abbrev pub Leaves : Option (Option (ℕ × List FreeBlock)) → Type 0
Leaves none = Unit
Leaves (some none) = Unit
Leaves (some (some (a, l))) = is_merged l ≡ true

pub alloc_large-Leaves :
    (blocks : List FreeBlock) (size align : ℕ)
    → 0 < align
    → 0 < size
    → size + align ≤ 2 ^ 63 + 64
    → is_sound blocks ≡ true
    → is_merged blocks ≡ true
    → ((x : ℕ) → covered x blocks ≤ 1)
    → Leaves (alloc_large blocks size align)
unfolding alloc_large
alloc_large-Leaves blocks size align pos some_size small sound h single =
    found (first_fit size align blocks) (first_fit-Fits size align blocks pos small sound)
      (first_fit-Others 0 size align blocks h)
  where
    taken :
        (r : ℕ) (o : Option (List FreeBlock)) → Merges o → Leaves (o >>= λ l. some (some (r, l)))
    taken r none m = tt
    taken r (some l) m = m

    found :
        (o : Option (Option (FreeBlock × List FreeBlock)))
        → Fits size align blocks o
        → Others 0 o
        → Leaves (
            o >>= λ r. elim r [
              | none ↦ some none
              | some (b, others) ↦
                  cut size align b others >>= λ l. some (some (next_multiple_of b.0 align, l))
            ])
    found none f g = tt
    found (some none) f g = tt
    found (some (some ((a, s), others))) (fit, block, rest, cover) g =
        taken (next_multiple_of a align) (cut size align (a, s) others) (
          cut-Merges size align a s others pos some_size fit block rest g
            (λ x. omega (arith, single x, cover x)))
