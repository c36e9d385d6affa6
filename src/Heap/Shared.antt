-- ===== src/Heap/Shared.antt =====
-- crates/heap/src/lib.rs: after any calls, each byte of the regions is free once or in one piece that was
-- handed out, and no other byte is.
use relay_os.Prelude.{
  ℕ, ◌+◌, ◌%◌, ◌^◌, ◌≤◌, ◌<◌, ◌≡◌, refl, sym, subst, ◌∙◌, arith, Bool, true, false, none, some,
  List, [], ◌∷◌, ◌++◌, ltb,
}
use relay_os.Heap.{
  FreeBlock, Layout, Heap, size_classes, min_block, empty, alloc, dealloc, add, sum_sizes, stats,
}
use relay_os.Heap.Cover.{holds, covered}
use relay_os.Heap.Small.{IsLayout}
use relay_os.Heap.Alloc.{free_covered, IsTidy, piece_size, Given}
use relay_os.Heap.Calls.{alloc-Given}
use relay_os.Heap.Back.{Returned, dealloc_lem, whole_part, Added, add_lem}
use relay_os.Heap.Live.{
  all_inside, AllAt, all_inside-widen, covered-inside, live_covered-middle, live_sum-middle,
  all_sound-middle, AllAt-middle,
}
use relay_os.Heap.Bytes.{
  is_ended, is_sound-is_ended, small_sum, Piece, live_covered, live_sum, all_sound, sums-conserved,
  sum_sizes-bound,
}

-- Any calls after `Heap::empty`: regions that do not overlap are added, and what goes back is a piece
-- that was handed out, with its layout, and did not go back since.
pub data Reach : Heap → List FreeBlock → List Piece → Type 0 where
  fresh : Reach empty [] []
  added :
      {h h' : Heap} {regions : List FreeBlock} {live : List Piece} (start size : ℕ)
      → Reach h regions live
      → start % min_block ≡ 0
      → 0 < start
      → start + size ≤ 2 ^ 62
      → ((x : ℕ) → holds start size x + covered x regions ≤ 1)
      → add h start size ≡ some h'
      → Reach h' ((start, whole_part size) ∷ regions) live
  allocated :
      {h h' : Heap} {regions : List FreeBlock} {live : List Piece} {a : ℕ} (l : Layout)
      → Reach h regions live
      → IsLayout l
      → alloc h l ≡ some (some a, h')
      → Reach h' regions ((a, l) ∷ live)
  refused :
      {h h' : Heap} {regions : List FreeBlock} {live : List Piece} (l : Layout)
      → Reach h regions live
      → IsLayout l
      → alloc h l ≡ some (none, h')
      → Reach h' regions live
  freed :
      {h h' : Heap} {regions : List FreeBlock} (before : List Piece) (a : ℕ) (l : Layout)
      (after : List Piece)
      → Reach h regions (before ++ (a, l) ∷ after)
      → dealloc h a l ≡ some h'
      → Reach h' regions (before ++ after)

-- Each byte of a region is in exactly one free block or piece, and no other byte is in any; `used` and
-- `total` count the bytes of the pieces and of the regions.
pub record IsPartition (h : Heap) (regions : List FreeBlock) (live : List Piece) : Type 0 where
  pub once : (x : ℕ) → free_covered x h + live_covered x live ≡ covered x regions
  pub single : (x : ℕ) → covered x regions ≤ 1
  pub pieces : all_sound live ≡ true
  pub placed : AllAt live
  pub tidy : IsTidy h
  pub used_sum : h.used ≡ live_sum live
  pub total_sum : h.total ≡ sum_sizes regions
  pub ended : is_ended (2 ^ 62) regions ≡ true
  pub inside : all_inside h.start h.end regions ≡ true

-- What the heap counts, from the bytes.
pub bytes-counted :
    (h : Heap) (regions : List FreeBlock) (live : List Piece)
    → IsPartition h regions live
    → (sum_sizes h.large + small_sum size_classes h.classes + h.used ≡ h.total) × (h.total ≤ 2 ^ 62)
bytes-counted h regions live s =
    let sums =
      sums-conserved (2 ^ 62) h.large regions size_classes h.classes live (omega arith)
        (is_sound-is_ended h.large s.tidy.large_sound) s.ended s.tidy.small_placed s.pieces
        s.once in
    let most = sum_sizes-bound (2 ^ 62) regions s.ended s.single in
    (omega (arith, sums, s.used_sum, s.total_sum), omega (arith, most, s.total_sum))

holds-whole : (start size x : ℕ) → holds start (whole_part size) x ≤ holds start size x
holds-whole start size x = ground arith

Added-IsPartition :
    (h h' : Heap) (regions : List FreeBlock) (live : List Piece) (start size : ℕ)
    → IsPartition h regions live
    → start + size ≤ 2 ^ 62
    → ((x : ℕ) → holds start size x + covered x regions ≤ 1)
    → Added h start (whole_part size) (some h')
    → IsPartition h' ((start, whole_part size) ∷ regions) live
Added-IsPartition h h' regions live start size s fit apart
      (tidy, used, total, bounds, down, up, cover) =
    record {
      once = λ x. omega (arith, cover x, s.once x);
      single = λ x. omega (arith, apart x, holds-whole start size x);
      pieces = s.pieces;
      placed = s.placed;
      tidy = tidy;
      used_sum = used ∙ s.used_sum;
      total_sum = omega (arith, total, s.total_sum);
      ended = ground (arith, fit, s.ended);
      inside = new_inside (whole_part size) bounds;
    }
  where
    new_inside :
        (whole : ℕ)
        → (0 < whole → (h'.start ≤ start) × (start + whole ≤ h'.end))
        → all_inside h'.start h'.end ((start, whole) ∷ regions) ≡ true
    new_inside whole bounds =
        let rest = all_inside-widen h.start h.end h'.start h'.end regions down up s.inside in
        one (ltb 0 whole) refl rest
      where
        one :
            (c : Bool)
            → ltb 0 whole ≡ c
            → all_inside h'.start h'.end regions ≡ true
            → all_inside h'.start h'.end ((start, whole) ∷ regions) ≡ true
        one true e rest =
            let (low, high) = bounds (ground (arith, e)) in ground (arith, low, high, rest)
        one false e rest = ground (arith, e, rest)

Given-IsPartition :
    (h h' : Heap) (regions : List FreeBlock) (live : List Piece) (a : ℕ) (l : Layout)
    → IsPartition h regions live
    → Given h l (piece_size l) (some (some a, h'))
    → IsPartition h' regions ((a, l) ∷ live)
Given-IsPartition h h' regions live a l s (_, at, _, sound, tidy, used, start, end, total, cover) =
    record {
      once = λ x. omega (arith, cover x, s.once x);
      single = s.single;
      pieces = ground (arith, sound, s.pieces);
      placed = (at, s.placed);
      tidy = tidy;
      used_sum = omega (arith, used, s.used_sum);
      total_sum = total ∙ s.total_sum;
      ended = s.ended;
      inside =
          all_inside-widen h.start h.end h'.start h'.end regions (omega (arith, start))
            (omega (arith, end)) s.inside;
    }

Returned-IsPartition :
    (h h' : Heap) (regions : List FreeBlock) (before : List Piece) (a : ℕ) (l : Layout)
    (after : List Piece)
    → IsPartition h regions (before ++ (a, l) ∷ after)
    → Returned h a (piece_size l) (some h')
    → IsPartition h' regions (before ++ after)
Returned-IsPartition h h' regions before a l after s (tidy, used, start, end, total, cover) =
    let (_, rest) = all_sound-middle before a l after s.pieces in
    let (_, others) = AllAt-middle before a l after s.placed in
    record {
      once = λ x. omega (arith, cover x, s.once x, live_covered-middle x before a l after);
      single = s.single;
      pieces = rest;
      placed = others;
      tidy = tidy;
      used_sum = omega (arith, used, s.used_sum, live_sum-middle before a l after);
      total_sum = total ∙ s.total_sum;
      ended = s.ended;
      inside =
          all_inside-widen h.start h.end h'.start h'.end regions (omega (arith, start))
            (omega (arith, end)) s.inside;
    }

-- A piece that is out can go back.
piece-Returned :
    (h : Heap) (regions : List FreeBlock) (before : List Piece) (a : ℕ) (l : Layout)
    (after : List Piece)
    → IsPartition h regions (before ++ (a, l) ∷ after)
    → Returned h a (piece_size l) (dealloc h a l)
piece-Returned h regions before a l after s =
    let (sound, _) = all_sound-middle before a l after s.pieces in
    let (at, _) = AllAt-middle before a l after s.placed in
    let mine : holds a (piece_size l) a ≡ 1 = ground (arith, sound) in
    let (low, high) =
      covered-inside h.start h.end regions a s.inside
        (omega (arith, s.once a, live_covered-middle a before a l after, mine)) in
    dealloc_lem h a l s.tidy low high (omega (arith, s.used_sum, live_sum-middle before a l after))
      sound at

empty-IsPartition : IsPartition empty [] []
empty-IsPartition = record {
  once = λ x. refl;
  single = λ x. omega arith;
  pieces = refl;
  placed = tt;
  tidy = record {
    eight = refl;
    large_sound = refl;
    small_placed = (tt, (tt, (tt, (tt, (tt, (tt, (tt, (tt, tt))))))));
  };
  used_sum = refl;
  total_sum = refl;
  ended = refl;
  inside = refl;
}

-- After any calls: each byte of a region that was added is in exactly one free block or piece that was
-- handed out, and no other byte is in any, so pieces overlap neither each other nor the free blocks; the
-- free blocks are sound, `used` is the sum of the pieces' sizes and `total` that of the regions. The
-- regions start at positive multiples of 16, do not overlap and end at most at 2 ^ 62; a layout's
-- alignment is a power of two, and its size and alignment are together at most 2 ^ 63.
pub Reach-IsPartition :
    {h : Heap} {regions : List FreeBlock} {live : List Piece}
    → Reach h regions live
    → IsPartition h regions live
Reach-IsPartition fresh = empty-IsPartition
Reach-IsPartition (added {h} {h'} {regions} {live} start size r at pos fit apart e) =
    let s = Reach-IsPartition r in
    let (_, most) = bytes-counted h regions live s in
    Added-IsPartition h h' regions live start size s fit apart
      (subst (Added h start (whole_part size)) e (add_lem h start size s.tidy at pos fit most))
Reach-IsPartition (allocated {h} {h'} {regions} {live} {a} l r v e) =
    let s = Reach-IsPartition r in
    let (sum, most) = bytes-counted h regions live s in
    Given-IsPartition h h' regions live a l s
      (subst (Given h l (piece_size l)) e (alloc-Given h l v s.tidy (omega (arith, sum, most))))
Reach-IsPartition (refused {h} {h'} {regions} {live} l r v e) =
    let s = Reach-IsPartition r in
    let (sum, most) = bytes-counted h regions live s in
    let g =
      subst (Given h l (piece_size l)) e (alloc-Given h l v s.tidy (omega (arith, sum, most))) in
    subst (λ k. IsPartition k regions live) (sym g.0) s
Reach-IsPartition (freed {h} {h'} {regions} before a l after r e) =
    let s = Reach-IsPartition r in
    Returned-IsPartition h h' regions before a l after s
      (subst (Returned h a (piece_size l)) e (piece-Returned h regions before a l after s))

-- After any calls, under their bounds: the bytes of the free blocks and those in use are together the
-- heap's bytes, which are at most 2 ^ 62.
pub Reach-stats :
    {h : Heap} {regions : List FreeBlock} {live : List Piece}
    → Reach h regions live
    → ((stats h).free_large + small_sum size_classes h.classes + (stats h).used ≡ (stats h).total)
      × ((stats h).total ≤ 2 ^ 62)
Reach-stats {h} {regions} {live} r = bytes-counted h regions live (Reach-IsPartition r)

-- After any calls, under their bounds, `dealloc` of a piece that was handed out and did not go back,
-- with its layout, does not panic: just its bytes become free, `used` falls by its rounded size, and the
-- heap's bounds and total stay.
pub Reach-dealloc :
    {h : Heap} {regions : List FreeBlock} (before : List Piece) (a : ℕ) (l : Layout)
    (after : List Piece)
    → Reach h regions (before ++ (a, l) ∷ after)
    → Returned h a (piece_size l) (dealloc h a l)
Reach-dealloc {h} {regions} before a l after r =
    piece-Returned h regions before a l after (Reach-IsPartition r)
