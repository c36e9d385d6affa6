-- ===== src/Heap/Live.antt =====
-- crates/heap/src/lib.rs: the pieces that are handed out, and the regions, as lists.
use relay_os.Prelude.{
  ℕ, ◌+◌, ◌≤◌, ◌<◌, ◌≡◌, refl, arith, Bool, true, false, ◌&&◌, ◌||◌, List, [], ◌∷◌, ◌++◌, ◌==◌, leb,
  ltb,
}
use relay_os.Heap.{FreeBlock, Layout, class_of}
use relay_os.Heap.Cover.{holds, covered, is_sound_block}
use relay_os.Heap.Alloc.{piece_size, PieceAt}
use relay_os.Heap.Bytes.{Piece, live_covered, live_sum, all_sound}

-- The regions lie in the heap's bounds.
abbrev pub all_inside : ℕ → ℕ → List FreeBlock → Bool
all_inside low high [] = true
all_inside low high ((a, s) ∷ regions) =
    (s == 0 || (leb low a && leb (a + s) high)) && all_inside low high regions

-- Each piece starts where a block of its class may.
abbrev pub AllAt : List Piece → Type 0
AllAt [] = Unit
AllAt ((a, l) ∷ live) = PieceAt l (class_of l) a × AllAt live

pub all_inside-widen :
    (low high low' high' : ℕ) (regions : List FreeBlock)
    → low' ≤ low
    → high ≤ high'
    → all_inside low high regions ≡ true
    → all_inside low' high' regions ≡ true
all_inside-widen low high low' high' [] down up h = refl
all_inside-widen low high low' high' ((a, s) ∷ regions) down up h =
    ground
      (arith, h, down, up, all_inside-widen low high low' high' regions down up (ground (arith, h)))

-- A byte of a region is inside the bounds.
pub covered-inside :
    (low high : ℕ) (regions : List FreeBlock) (x : ℕ)
    → all_inside low high regions ≡ true
    → 0 < covered x regions
    → (low ≤ x) × (x < high)
covered-inside low high [] x h pos = absurd (omega (arith, pos))
covered-inside low high ((a, s) ∷ regions) x h pos =
    one (leb a x && ltb x (a + s)) refl (covered-inside low high regions x (ground (arith, h)))
  where
    one :
        (c : Bool)
        → (leb a x && ltb x (a + s)) ≡ c
        → (0 < covered x regions → (low ≤ x) × (x < high))
        → (low ≤ x) × (x < high)
    one true e rest = (ground (arith, h, e), ground (arith, h, e))
    one false e rest = rest (ground (arith, pos, e))

pub live_covered-middle :
    (x : ℕ) (before : List Piece) (a : ℕ) (l : Layout) (after : List Piece)
    → live_covered x (before ++ (a, l) ∷ after)
      ≡ holds a (piece_size l) x + live_covered x (before ++ after)
live_covered-middle x [] a l after = refl
live_covered-middle x ((b, m) ∷ before) a l after =
    omega (arith, live_covered-middle x before a l after)

pub live_sum-middle :
    (before : List Piece) (a : ℕ) (l : Layout) (after : List Piece)
    → live_sum (before ++ (a, l) ∷ after) ≡ piece_size l + live_sum (before ++ after)
live_sum-middle [] a l after = refl
live_sum-middle ((b, m) ∷ before) a l after = omega (arith, live_sum-middle before a l after)

pub all_sound-middle :
    (before : List Piece) (a : ℕ) (l : Layout) (after : List Piece)
    → all_sound (before ++ (a, l) ∷ after) ≡ true
    → (is_sound_block a (piece_size l) ≡ true) × (all_sound (before ++ after) ≡ true)
all_sound-middle [] a l after h = (ground (arith, h), ground (arith, h))
all_sound-middle ((b, m) ∷ before) a l after h =
    let (sound, rest) = all_sound-middle before a l after (ground (arith, h)) in
    (sound, ground (arith, h, rest))

pub AllAt-middle :
    (before : List Piece) (a : ℕ) (l : Layout) (after : List Piece)
    → AllAt (before ++ (a, l) ∷ after)
    → PieceAt l (class_of l) a × AllAt (before ++ after)
AllAt-middle [] a l after (here, rest) = (here, rest)
AllAt-middle ((b, m) ∷ before) a l after (other, rest) =
    let (here, others) = AllAt-middle before a l after rest in (here, (other, others))
