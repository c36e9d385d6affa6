-- ===== src/Heap/Merged.antt =====
-- crates/heap/src/lib.rs: every call keeps the large list in order and its neighbours merged.
use relay_os.Prelude.{
  ℕ, ◌+◌, ◌-◌, ◌%◌, ◌/◌, ◌^◌, ◌≤◌, ◌<◌, ◌≡◌, refl, arith, min, max, Bool, true, false, ◌&&◌, Option,
  none, some, List, [], ◌∷◌, ◌==◌, leb, ltb, if◌then◌else◌, ◌>>=◌, get_or, set,
}
use relay_os.Heap.{
  FreeBlock, Layout, Heap, size_classes, slab_size, min_block, is_usize, class_of, large_size,
  insert_free, alloc_large, carve, refill, pop_small, alloc_small, non_null, alloc_address, alloc,
  dealloc, add,
}
use relay_os.Heap.Cover.{holds, covered, is_sound}
use relay_os.Heap.Small.{IsLayout, large_size_lem}
use relay_os.Heap.Order.{is_merged, Merges, insert_free-Merges}
use relay_os.Heap.Leaves.{Leaves, alloc_large-Leaves}

-- What a call leaves.
abbrev pub Kept : Option (Option ℕ × Heap) → Type 0
Kept none = Unit
Kept (some (a, h)) = is_merged h.large ≡ true

abbrev pub KeptHeap : Option Heap → Type 0
KeptHeap none = Unit
KeptHeap (some h) = is_merged h.large ≡ true

guard-Kept : (c : Bool) (r : Option (Option ℕ × Heap)) → Kept r → Kept (if c then r else none)
guard-Kept true r g = g
guard-Kept false r g = tt

guard-KeptHeap : (c : Bool) (r : Option Heap) → KeptHeap r → KeptHeap (if c then r else none)
guard-KeptHeap true r g = g
guard-KeptHeap false r g = tt

pop_small-Kept : (h : Heap) (c : ℕ) → is_merged h.large ≡ true → Kept (pop_small h c)
pop_small-Kept h c m = one (get_or h.classes c [])
  where
    one :
        (free : List ℕ)
        → Kept (elim free [
          | [] ↦ some (none, h)
          | b ∷ rest ↦
              if is_usize (h.used + get_or size_classes c 0)
              then some (
                some b,
                record h {
                  classes = set h.classes c rest;
                  used = h.used + get_or size_classes c 0;
                },
              )
              else none
        ])
    one [] = m
    one (b ∷ rest) = guard-Kept (is_usize (h.used + get_or size_classes c 0)) _ m

refill-Kept :
    (h : Heap) (c : ℕ)
    → is_merged h.large ≡ true
    → Leaves (alloc_large h.large slab_size slab_size)
    → Kept (refill h c >>= λ r. elim r [ none ↦ some (none, h) | some h' ↦ pop_small h' c ])
unfolding refill
refill-Kept h c m leaves = found (alloc_large h.large slab_size slab_size) leaves
  where
    carved : ℕ → List FreeBlock → Heap
    carved slab large =
        let size = get_or size_classes c 0 in
        record h {
          large = large;
          classes = set h.classes c (carve (slab_size / size) slab size (get_or h.classes c []));
        }

    guarded :
        (slab : ℕ) (large : List FreeBlock) (b : Bool)
        → is_merged large ≡ true
        → Kept (
            (if b then none else some (some (carved slab large))) >>= λ r. elim r [
              | none ↦ some (none, h)
              | some h' ↦ pop_small h' c
            ])
    guarded slab large true m = tt
    guarded slab large false m = pop_small-Kept (carved slab large) c m

    found :
        (o : Option (Option (ℕ × List FreeBlock)))
        → Leaves o
        → Kept (
            (o >>= λ r. elim r as (λ _. Option (Option Heap)) [
              | none ↦ some none
              | some (slab, large) ↦ if slab == 0 then none else some (some (carved slab large))
            ])
            >>= λ r. elim r [ none ↦ some (none, h) | some h' ↦ pop_small h' c ])
    found none l = tt
    found (some none) l = m
    found (some (some (slab, large))) l = guarded slab large (slab == 0) l

alloc_small-Kept :
    (h : Heap) (c : ℕ)
    → is_merged h.large ≡ true
    → Leaves (alloc_large h.large slab_size slab_size)
    → Kept (alloc_small h c)
unfolding alloc_small
alloc_small-Kept h c m leaves = one (get_or h.classes c [])
  where
    one :
        (free : List ℕ)
        → Kept (elim free [
          | _ ∷ _ ↦ pop_small h c
          | [] ↦ refill h c >>= λ r. elim r [ none ↦ some (none, h) | some h' ↦ pop_small h' c ]
        ])
    one [] = refill-Kept h c m leaves
    one (a ∷ free) = pop_small-Kept h c m

pub alloc-Kept :
    (h : Heap) (l : Layout)
    → IsLayout l
    → is_sound h.large ≡ true
    → is_merged h.large ≡ true
    → ((x : ℕ) → covered x h.large ≤ 1)
    → Kept (alloc h l)
unfolding alloc alloc_address
alloc-Kept h l v sound m single = last (alloc_address h l) (one (class_of l))
  where
    last : (o : Option (Option ℕ × Heap)) → Kept o → Kept (o >>= λ r. some (non_null r.0, r.1))
    last none g = tt
    last (some (a, h')) g = g

    large :
        (o : Option (Option (ℕ × List FreeBlock)))
        → Leaves o
        → Kept (
            o >>= λ r. elim r [
              | none ↦ some (none, h)
              | some (a, blocks) ↦
                  if is_usize (h.used + large_size l)
                  then some (some a, record h { large = blocks; used = h.used + large_size l })
                  else none
            ])
    large none g = tt
    large (some none) g = m
    large (some (some (a, blocks))) g = guard-Kept (is_usize (h.used + large_size l)) _ g

    one :
        (o : Option ℕ)
        → Kept (elim o [
          | some c ↦ alloc_small h c
          | none ↦ alloc_large h.large (large_size l) (max l.align min_block) >>= λ r. elim r [
            | none ↦ some (none, h)
            | some (a, blocks) ↦
                if is_usize (h.used + large_size l)
                then some (some a, record h { large = blocks; used = h.used + large_size l })
                else none
          ]
        ])
    one (some c) = alloc_small-Kept h c m (
        alloc_large-Leaves h.large slab_size slab_size (omega arith) (omega arith) (omega arith)
          sound m single)
    one none =
        let (_, some_size, small) = large_size_lem l v in
        large (alloc_large h.large (large_size l) (max l.align min_block)) (
          alloc_large-Leaves h.large (large_size l) (max l.align min_block) (omega arith) some_size
            small sound m single)

pub dealloc-KeptHeap :
    (h : Heap) (a : ℕ) (l : Layout)
    → is_merged h.large ≡ true
    → (class_of l ≡ none → Merges (insert_free a (large_size l) h.large))
    → KeptHeap (dealloc h a l)
unfolding dealloc
dealloc-KeptHeap h a l m inserted =
    guard-KeptHeap (leb h.start a && ltb a h.end) _ (one (class_of l) inserted)
  where
    large :
        (o : Option (List FreeBlock))
        → Merges o
        → KeptHeap (
            o >>= λ large.
            if leb (large_size l) h.used
            then some (record h { large = large; used = h.used - large_size l })
            else none)
    large none g = tt
    large (some blocks) g = guard-KeptHeap (leb (large_size l) h.used) _ g

    one :
        (o : Option ℕ)
        → (o ≡ none → Merges (insert_free a (large_size l) h.large))
        → KeptHeap (elim o [
          | some c ↦
              if leb (get_or size_classes c 0) h.used
              then some record h {
                classes = set h.classes c (a ∷ get_or h.classes c []);
                used = h.used - get_or size_classes c 0;
              }
              else none
          | none ↦ insert_free a (large_size l) h.large >>= λ large.
              if leb (large_size l) h.used
              then some (record h { large = large; used = h.used - large_size l })
              else none
        ])
    one none inserted = large (insert_free a (large_size l) h.large) (inserted refl)
    one (some c) inserted = guard-KeptHeap (leb (get_or size_classes c 0) h.used) _ m

pub add-KeptHeap :
    (h : Heap) (start size : ℕ)
    → 0 < start
    → start + size ≤ 2 ^ 62
    → is_sound h.large ≡ true
    → is_merged h.large ≡ true
    → ((x : ℕ) → holds start size x + covered x h.large ≤ 1)
    → KeptHeap (add h start size)
unfolding add
add-KeptHeap h start size pos fit sound m apart =
    guard-KeptHeap (start % min_block == 0) _ (part (whole == 0) refl)
  where
    whole : ℕ
    whole = size - size % min_block

    grown :
        (o : Option (List FreeBlock))
        → Merges o
        → KeptHeap (
            o >>= λ large. some (record h {
              start = min h.start start;
              end = max h.end (start + whole);
              total = h.total + whole;
              large = large;
            }))
    grown none g = tt
    grown (some blocks) g = g

    part :
        (c : Bool)
        → (whole == 0) ≡ c
        → KeptHeap (
            if c
            then some h
            else if is_usize (start + whole) && is_usize (h.total + whole)
            then (insert_free start whole h.large >>= λ large. some (record h {
              start = min h.start start;
              end = max h.end (start + whole);
              total = h.total + whole;
              large = large;
            }))
            else none)
    part true e = m
    part false e = guard-KeptHeap (is_usize (start + whole) && is_usize (h.total + whole)) _ (
        grown (insert_free start whole h.large) (
          insert_free-Merges start whole h.large (ground (arith, e, pos, fit)) sound m
            (λ x. ground (arith, apart x))))
