-- ===== src/Heap/Sorted.antt =====
-- crates/heap/src/lib.rs: after any calls, the large list is in order and has no two blocks that meet.
use relay_os.Prelude.{ℕ, ◌≤◌, ◌≡◌, refl, subst, arith, true, none, List, ◌∷◌, ◌++◌}
use relay_os.Heap.{FreeBlock, Layout, Heap, class_of, large_size, insert_free}
use relay_os.Heap.Cover.{covered}
use relay_os.Heap.Alloc.{piece_size}
use relay_os.Heap.Bytes.{Piece}
use relay_os.Heap.Order.{is_merged, Merges, insert_free-Merges}
use relay_os.Heap.Merged.{Kept, KeptHeap, alloc-Kept, dealloc-KeptHeap, add-KeptHeap}
use relay_os.Heap.Live.{live_covered-middle, all_sound-middle}
use relay_os.Heap.Shared.{
  Reach, fresh, added, allocated, refused, freed, IsPartition, Reach-IsPartition,
}

-- A byte is in at most one large block.
large_once :
    (h : Heap) (regions : List FreeBlock) (live : List Piece)
    → IsPartition h regions live
    → (x : ℕ) → covered x h.large ≤ 1
large_once h regions live s x = omega (arith, s.once x, s.single x)

freed-Merges :
    (h : Heap) (regions : List FreeBlock) (before : List Piece) (a : ℕ) (l : Layout)
    (after : List Piece)
    → IsPartition h regions (before ++ (a, l) ∷ after)
    → is_merged h.large ≡ true
    → Merges (insert_free a (piece_size l) h.large)
freed-Merges h regions before a l after s m =
    let (sound, _) = all_sound-middle before a l after s.pieces in
    insert_free-Merges a (piece_size l) h.large sound s.tidy.large_sound m
      (λ x. omega (arith, s.once x, s.single x, live_covered-middle x before a l after))

large_piece : (l : Layout) → class_of l ≡ none → piece_size l ≡ large_size l
large_piece l e = rw (e, piece_size) refl

-- After any calls, the free large blocks are in the order of their addresses, and between any two of
-- them is a gap: neighbours are merged. For regions that start at positive multiples of 16, do not
-- overlap and end at most at 2 ^ 62, and layouts whose alignment is a power of two and whose size and
-- alignment are together at most 2 ^ 63.
pub Reach-is_merged :
    {h : Heap} {regions : List FreeBlock} {live : List Piece}
    → Reach h regions live
    → is_merged h.large ≡ true
Reach-is_merged fresh = refl
Reach-is_merged (added {h} {h'} {regions} {live} start size r at pos fit apart e) =
    let s = Reach-IsPartition r in
    subst KeptHeap e (
      add-KeptHeap h start size pos fit s.tidy.large_sound (Reach-is_merged r)
        (λ x. omega (arith, apart x, s.once x)))
Reach-is_merged (allocated {h} {h'} {regions} {live} l r v e) =
    let s = Reach-IsPartition r in
    subst Kept e
      (alloc-Kept h l v s.tidy.large_sound (Reach-is_merged r) (large_once h regions live s))
Reach-is_merged (refused {h} {h'} {regions} {live} l r v e) =
    let s = Reach-IsPartition r in
    subst Kept e
      (alloc-Kept h l v s.tidy.large_sound (Reach-is_merged r) (large_once h regions live s))
Reach-is_merged (freed {h} {h'} {regions} before a l after r e) =
    let s = Reach-IsPartition r in
    let m = Reach-is_merged r in
    subst KeptHeap e (
      dealloc-KeptHeap h a l m (λ class.
        subst (λ size. Merges (insert_free a size h.large)) (large_piece l class)
          (freed-Merges h regions before a l after s m)))
