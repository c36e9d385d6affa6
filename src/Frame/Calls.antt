-- ===== src/Frame/Calls.antt =====
-- kernel/src/mm/frame.rs: what `alloc` and `free` do, on every branch.
use relay_os.Prelude.{
  ℕ, zero, suc, ◌+◌, ◌-◌, ◌*◌, ◌/◌, ◌^◌, min, ◌≤◌, ◌<◌, ◌≡◌, inl, inr, refl, sym, ap, subst, arith,
  Bool, true, false, ◌&&◌, Option, none, some, ◌==◌, leb, ltb, if◌then◌else◌, ◌>>=◌, length, any,
  tabulate, Bool-cases,
}
use relay_os.Frame.{
  frame_size, FrameAllocator, is_used, set_each, is_power_of_two, find_run, taken, alloc, free_each,
  free_run, clear_below,
}
use relay_os.Frame.Bitmap.{
  frames, in_run, clear_below-run, Marks, HasHole, AllUsed, free_each-cases, free_each-past,
  set_each-Marks, free_each-Marks,
}
use relay_os.Frame.Search.{Multiple, HasUsed, IsClear, Found, find_run_lem}

pub record IsValid (a : FrameAllocator) : Type 0 where
  -- `free` is the number of clear bits.
  pub counted : a.free ≡ clear_below (frames a) (is_used a.bits)
  pub next_in : a.next ≤ frames a
  -- Addresses of frames are below 2 ^ 64.
  pub fits : frames a + 64 ≤ 2 ^ 52

-- What `alloc` promises: a run that was clear, is aligned and is marked used, with nothing else
-- changed; or, if it gives none, that there is no such run.
abbrev pub Allocated : FrameAllocator → ℕ → ℕ → Option (Option ℕ × FrameAllocator) → Type 0
Allocated a count align none = ⊥
Allocated a count align (some (none, a')) =
    (a' ≡ a) × ((k : ℕ) → Multiple align k → k + count ≤ frames a → HasUsed a k count)
Allocated a count align (some (some phys, a')) =
    (i : ℕ) × (phys ≡ i * frame_size)
    × Multiple align i
    × (i + count ≤ frames a)
    × IsClear a i count
    × ((j : ℕ) → is_used a'.bits j ≡ (if in_run i count j then true else is_used a.bits j))
    × (length a'.bits ≡ length a.bits)
    × (a'.free + count ≡ a.free)
    × IsValid a'

if-Allocated :
    (a : FrameAllocator) (count align : ℕ) (c : Bool) (x y : Option (Option ℕ × FrameAllocator))
    → (c ≡ true → Allocated a count align x)
    → (c ≡ false → Allocated a count align y)
    → Allocated a count align (if c then x else y)
if-Allocated a count align true x y g h = g refl
if-Allocated a count align false x y g h = h refl

power_found :
    (n : ℕ) (f : ℕ → ℕ) (align : ℕ)
    → any (λ e. align == 2 ^ e) (tabulate n f) ≡ true
    → (k : ℕ) × (k < n) × (align ≡ 2 ^ f k)
power_found zero f align h = absurd (ground (arith, h))
power_found (suc n) f align h = elim (Bool-cases (align == 2 ^ f 0)) [
  | inl here ↦ (0, omega arith, ground (arith, here))
  | inr other ↦
      let (k, lt, e) = power_found n (λ j. f (suc j)) align (ground (arith, h, other)) in
      (suc k, omega arith, e)
]

taken-Allocated :
    (a : FrameAllocator) (i count align : ℕ) (single : Bool)
    → IsValid a
    → 0 < count
    → Multiple align i
    → i + count ≤ frames a
    → IsClear a i count
    → Allocated a count align (taken a i count single)
unfolding taken
taken-Allocated a i count align single v pos at fit clear =
    next (set_each count a i true) (set_each-Marks count a i true fit)
  where
    next :
        (o : Option FrameAllocator)
        → Marks i count true a o
        → Allocated a count align (
            o >>= λ a'.
            if leb count a'.free
            then some (
              some (i * frame_size),
              record a' { next = if single then i + 1 else a.next; free = a.free - count },
            )
            else none)
    next none w = w
    next (some a') w =
        let fewer =
          clear_below-run (frames a) i count (is_used a.bits) (is_used a'.bits) fit
            (λ j _. w.reads j) clear in
        let words : frames a' ≡ frames a = omega (arith, w.size) in
        let same = ap (λ n. clear_below n (is_used a'.bits)) words in
        if-Allocated a count align (leb count a'.free) _ _
          (λ _. (
            i,
            refl,
            at,
            fit,
            clear,
            w.reads,
            w.size,
            omega (arith, fewer, v.counted),
            record {
              counted = omega (arith, fewer, v.counted, same);
              next_in = ground (arith, v.next_in, words, fit, pos);
              fits = omega (arith, v.fits, words);
            },
          ))
          (λ out. absurd (ground (arith, out, fewer, v.counted, w.same_free)))

-- A run found, or none, in a search from the start.
searched-Allocated :
    (a : FrameAllocator) (count align : ℕ) (single : Bool) (o : Option (Option ℕ))
    → IsValid a
    → 0 < count
    → Found a 0 count align o
    → Allocated a count align
        (o >>= λ r. elim r [ none ↦ some (none, a) | some i ↦ taken a i count single ])
searched-Allocated a count align single none v pos h = h
searched-Allocated a count align single (some none) v pos h =
    (refl, λ k at fit. h k at (omega arith) fit)
searched-Allocated a count align single (some (some i)) v pos (at, low, fit, clear) =
    taken-Allocated a i count align single v pos at fit clear

-- The search from the hint, then from the start.
hinted-Allocated :
    (a : FrameAllocator) (from count align : ℕ) (single : Bool) (o : Option (Option ℕ))
    → IsValid a
    → 0 < count
    → Found a from count align o
    → Found a 0 count align (find_run a 0 (frames a) count align)
    → Allocated a count align (
        o >>= λ r.
        ((elim r [ some i ↦ some (some i) | none ↦ find_run a 0 (frames a) count align ]) >>= λ r'.
        elim r' [ none ↦ some (none, a) | some i ↦ taken a i count single ]))
hinted-Allocated a from count align single none v pos h g = h
hinted-Allocated a from count align single (some none) v pos h g =
    searched-Allocated a count align single (find_run a 0 (frames a) count align) v pos g
hinted-Allocated a from count align single (some (some i)) v pos (at, low, fit, clear) g =
    taken-Allocated a i count align single v pos at fit clear

-- For a positive count below 2 ^ 63 and an alignment that is a power of two, `alloc` returns. A run it gives was
-- clear, lies in the bitmap and starts at a multiple of the alignment; just its frames are marked
-- used, and `free` is less by the count and still right. It gives none only if every such run has a
-- used frame, and then changes nothing.
pub alloc_lem :
    (a : FrameAllocator) (count align : ℕ)
    → IsValid a
    → 0 < count
    → count < 2 ^ 63
    → is_power_of_two align ≡ true
    → Allocated a count align (alloc a count align)
unfolding alloc
alloc_lem a count align v pos small power =
    let (e, lt, is_power) = power_found 64 (λ e. e) align power in
    let single = count == 1 && align == 1 in
    let from = if single then a.next else 0 in
    let from_in : from ≤ frames a = ground (arith, v.next_in) in
    let here =
      subst (λ m. Found a from count m (find_run a from (frames a) count m)) (sym is_power)
        (find_run_lem a from count e lt (omega (arith, v.fits)) small pos from_in) in
    let start =
      subst (λ m. Found a 0 count m (find_run a 0 (frames a) count m)) (sym is_power)
        (find_run_lem a 0 count e lt (omega (arith, v.fits)) small pos (omega arith)) in
    if-Allocated a count align (ltb 0 count && is_power_of_two align) _ _
      (λ _.
        hinted-Allocated a from count align single (find_run a from (frames a) count align) v pos
          here start)
      (λ out. absurd (ground (arith, out, pos, power)))

-- What `free` promises: it returns only if each frame of the run is used, and panics only if one is
-- not.
abbrev pub Freed : FrameAllocator → ℕ → ℕ → Option FrameAllocator → Type 0
Freed a first count none = HasHole a first count
Freed a first count (some a') =
    AllUsed a first count
    × ((j : ℕ) → is_used a'.bits j ≡ (if in_run first count j then false else is_used a.bits j))
    × (length a'.bits ≡ length a.bits)
    × (a'.free ≡ a.free + count)
    × (a'.next ≤ first)
    × IsValid a'

Marks-Freed :
    (a : FrameAllocator) (first count : ℕ)
    → IsValid a
    → AllUsed a first count
    → (o : Option FrameAllocator) → Marks first count false a o
    → Freed a first count
        (o >>= λ a'. some (record a' { free = a.free + count; next = min a.next first }))
Marks-Freed a first count v (fit, all) none w = absurd w
Marks-Freed a first count v (fit, all) (some a') w =
    let words : frames a' ≡ frames a = omega (arith, w.size) in
    let back : (j : ℕ)
        → is_used a.bits j ≡ (if in_run first count j then true else is_used a'.bits j) =
      λ j. was_used j (w.reads j) in
    let more =
      clear_below-run (frames a) first count (is_used a'.bits) (is_used a.bits) fit (λ j _. back j)
        (λ j low high. ground (arith, w.reads j, low, high)) in
    let same = ap (λ n. clear_below n (is_used a'.bits)) words in
    (
      (fit, all),
      w.reads,
      w.size,
      refl,
      omega arith,
      record {
        counted = omega (arith, more, v.counted, same);
        next_in = omega (arith, v.next_in, words);
        fits = omega (arith, v.fits, words);
      },
    )
  where
    was_used :
        (j : ℕ)
        → is_used a'.bits j ≡ (if in_run first count j then false else is_used a.bits j)
        → is_used a.bits j ≡ (if in_run first count j then true else is_used a'.bits j)
    was_used j e = elim (Bool-cases (in_run first count j)) [
      | inl inside ↦ ground (arith, inside, all j (ground (arith, inside)) (ground (arith, inside)))
      | inr outside ↦ ground (arith, outside, e)
    ]

-- For a positive count, `free` panics only if a frame of the run has a clear bit or none (a double
-- free, say). If it returns, every frame of the run was used; just these are clear now, `free` is
-- more by the count and still right, and the next search starts at the run at the latest.
pub free_run_lem :
    (a : FrameAllocator) (phys count : ℕ)
    → IsValid a
    → 0 < count
    → Freed a (phys / frame_size) count (free_run a phys count)
unfolding free_run
free_run_lem a phys count v pos =
    let first = phys / frame_size in
    elim (Bool-cases (leb first (frames a))) [
      | inl inside ↦ elim (free_each-cases count a first (ground (arith, inside))) [
        | inl (stops, hole) ↦
            subst
              (λ (o : Option FrameAllocator). Freed a first count (
                o >>= λ (a' : FrameAllocator).
                some (record a' { free = a.free + count; next = min a.next first })))
              (sym stops) hole
        | inr (fit, all) ↦
            Marks-Freed a first count v (fit, all) (free_each count a first)
              (free_each-Marks count a first fit all)
      ]
      | inr past ↦
          let out : frames a ≤ first = ground (arith, past) in
          subst
            (λ (o : Option FrameAllocator). Freed a first count (
              o >>= λ (a' : FrameAllocator).
              some (record a' { free = a.free + count; next = min a.next first })))
            (sym (free_each-past count a first pos out)) (first, omega arith, omega arith, inl out)
    ]
