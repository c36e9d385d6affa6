-- ===== src/Frame/Shared.antt =====
-- kernel/src/mm/frame.rs: after any calls, each available frame is clear or in just one run that was
-- handed out, and no other frame is.
use relay_os.Prelude.{
  ℕ, ◌+◌, ◌*◌, ◌/◌, ◌^◌, ◌≤◌, ◌<◌, ◌≡◌, ◌≢◌, inl, inr, refl, sym, subst, ◌∙◌, arith, Bool, true,
  false, ◌&&◌, Option, none, some, List, [], ◌∷◌, ◌++◌, leb, ltb, if◌then◌else◌, length,
}
use relay_os.Frame.{
  frame_size, MemoryRegion, FrameAllocator, is_used, is_power_of_two, alloc, free_run, new,
}
use relay_os.Frame.Bitmap.{in_run}
use relay_os.Frame.Calls.{IsValid, Allocated, Freed, alloc_lem, free_run_lem}
use relay_os.Frame.Boot.{free_at_first, IsBootable, Built, new_lem}

-- A run that was handed out: its first frame and its length.
abbrev pub Run : Type 0
Run = ℕ × ℕ

-- In how many of the runs a frame is.
abbrev pub owners : List Run → ℕ → ℕ
owners [] j = 0
owners ((i, n) ∷ held) j = (if in_run i n j then 1 else 0) + owners held j

abbrev all_within : ℕ → List Run → Bool
all_within bound [] = true
all_within bound ((i, n) ∷ held) = leb (i + n) bound && (ltb 0 n && all_within bound held)

owners-middle :
    (before : List Run) (i n : ℕ) (after : List Run) (j : ℕ)
    → owners (before ++ (i, n) ∷ after) j
      ≡ (if in_run i n j then 1 else 0) + owners (before ++ after) j
owners-middle [] i n after j = refl
owners-middle ((k, m) ∷ before) i n after j = omega (arith, owners-middle before i n after j)

all_within-middle :
    (bound : ℕ) (before : List Run) (i n : ℕ) (after : List Run)
    → all_within bound (before ++ (i, n) ∷ after) ≡ true
    → (i + n ≤ bound) × (0 < n) × (all_within bound (before ++ after) ≡ true)
all_within-middle bound [] i n after h = (ground (arith, h), ground (arith, h), ground (arith, h))
all_within-middle bound ((k, m) ∷ before) i n after h =
    let (fit, pos, rest) = all_within-middle bound before i n after (ground (arith, h)) in
    (fit, pos, ground (arith, h, rest))

taken_once :
    (r u u' : Bool) (own there : ℕ)
    → (r ≡ true → u ≡ false)
    → u' ≡ (if r then true else u)
    → own + (if u then 0 else 1) ≡ there
    → (if r then 1 else 0) + own + (if u' then 0 else 1) ≡ there
taken_once true u u' own there clear e h = ground (arith, clear refl, e, h)
taken_once false u u' own there clear e h = ground (arith, e, h)

freed_once :
    (r u u' : Bool) (all own there : ℕ)
    → (r ≡ true → u ≡ true)
    → u' ≡ (if r then false else u)
    → all ≡ (if r then 1 else 0) + own
    → all + (if u then 0 else 1) ≡ there
    → own + (if u' then 0 else 1) ≡ there
freed_once true u u' all own there used e m h = ground (arith, used refl, e, m, h)
freed_once false u u' all own there used e m h = ground (arith, e, m, h)

module _ (map : List MemoryRegion) (words phys : ℕ) where
  -- Any calls after `new`; what is freed is a run that was handed out and not freed since.
  pub data Reach : FrameAllocator → List Run → Type 0 where
    booted : {a : FrameAllocator} → new map words phys ≡ some a → Reach a []
    allocated :
        {a a' : FrameAllocator} {held : List Run} {at : ℕ} (count align : ℕ)
        → Reach a held
        → 0 < count
        → count < 2 ^ 63
        → is_power_of_two align ≡ true
        → alloc a count align ≡ some (some at, a')
        → Reach a' ((at / frame_size, count) ∷ held)
    refused :
        {a a' : FrameAllocator} {held : List Run} (count align : ℕ)
        → Reach a held
        → 0 < count
        → count < 2 ^ 63
        → is_power_of_two align ≡ true
        → alloc a count align ≡ some (none, a')
        → Reach a' held
    freed :
        {a a' : FrameAllocator} (before : List Run) (i n : ℕ) (after : List Run)
        → Reach a (before ++ (i, n) ∷ after)
        → free_run a (i * frame_size) n ≡ some a'
        → Reach a' (before ++ after)

  -- Each frame that was available at first is clear or in one run; no other frame is.
  pub record IsShared (a : FrameAllocator) (held : List Run) : Type 0 where
    pub valid : IsValid a
    pub size : length a.bits ≡ words
    pub within : all_within (words * 64) held ≡ true
    pub once :
        (j : ℕ)
        → j < words * 64
        → owners held j + (if is_used a.bits j then 0 else 1)
          ≡ (if free_at_first map words phys j then 1 else 0)

  booted-IsShared : (a : FrameAllocator) → Built map words phys (some a) → IsShared a []
  booted-IsShared a (size, reads, v) = record {
    valid = v;
    size = size;
    within = refl;
    once = λ j lt. ground (arith, reads j lt);
  }

  Allocated-IsShared :
      (a a' : FrameAllocator) (held : List Run) (at count align : ℕ)
      → IsShared a held
      → 0 < count
      → Allocated a count align (some (some at, a'))
      → IsShared a' ((at / frame_size, count) ∷ held)
  Allocated-IsShared a a' held at count align s pos (i, is, _, fit, clear, reads, size, _, v) =
      let first : at / frame_size ≡ i = omega (arith, is) in
      subst (λ k. IsShared a' ((k, count) ∷ held)) (sym first)
        record {
          valid = v;
          size = size ∙ s.size;
          within = ground (arith, s.within, fit, pos, s.size);
          once = λ j lt.
              taken_once (in_run i count j) (is_used a.bits j) (is_used a'.bits j) (owners held j) _
                (λ inside. clear j (ground (arith, inside)) (ground (arith, inside))) (reads j)
                (s.once j lt);
        }

  Freed-IsShared :
      (a a' : FrameAllocator) (before : List Run) (i n : ℕ) (after : List Run)
      → IsShared a (before ++ (i, n) ∷ after)
      → Freed a i n (some a')
      → IsShared a' (before ++ after)
  Freed-IsShared a a' before i n after s ((fit, all), reads, size, _, _, v) =
      let (_, _, rest) = all_within-middle (words * 64) before i n after s.within in
      record {
        valid = v;
        size = size ∙ s.size;
        within = rest;
        once = λ j lt.
            freed_once (in_run i n j) (is_used a.bits j) (is_used a'.bits j)
              (owners (before ++ (i, n) ∷ after) j) (owners (before ++ after) j) _
              (λ inside. all j (ground (arith, inside)) (ground (arith, inside))) (reads j)
              (owners-middle before i n after j) (s.once j lt);
      }

  alloc-IsShared :
      (a a' : FrameAllocator) (held : List Run) (count align at : ℕ)
      → IsShared a held
      → 0 < count
      → count < 2 ^ 63
      → is_power_of_two align ≡ true
      → alloc a count align ≡ some (some at, a')
      → IsShared a' ((at / frame_size, count) ∷ held)
  alloc-IsShared a a' held count align at s pos small power e =
      Allocated-IsShared a a' held at count align s pos
        (subst (Allocated a count align) e (alloc_lem a count align s.valid pos small power))

  refused-IsShared :
      (a a' : FrameAllocator) (held : List Run) (count align : ℕ)
      → IsShared a held
      → 0 < count
      → count < 2 ^ 63
      → is_power_of_two align ≡ true
      → alloc a count align ≡ some (none, a')
      → IsShared a' held
  refused-IsShared a a' held count align s pos small power e =
      let h = subst (Allocated a count align) e (alloc_lem a count align s.valid pos small power) in
      subst (λ b. IsShared b held) (sym h.0) s

  -- What `free` does to a run, by its first frame.
  free_run-Freed :
      (a : FrameAllocator) (i n : ℕ) (o : Option FrameAllocator)
      → IsValid a
      → 0 < n
      → free_run a (i * frame_size) n ≡ o
      → Freed a i n o
  free_run-Freed a i n o v pos e =
      let first : i * frame_size / frame_size ≡ i = omega arith in
      subst (λ k. Freed a k n o) first
        (subst (Freed a (i * frame_size / frame_size) n) e
          (free_run_lem a (i * frame_size) n v pos))

  free-IsShared :
      (a a' : FrameAllocator) (before : List Run) (i n : ℕ) (after : List Run)
      → IsShared a (before ++ (i, n) ∷ after)
      → free_run a (i * frame_size) n ≡ some a'
      → IsShared a' (before ++ after)
  free-IsShared a a' before i n after s e =
      let (_, pos, _) = all_within-middle (words * 64) before i n after s.within in
      Freed-IsShared a a' before i n after s (free_run-Freed a i n (some a') s.valid pos e)

  -- After any calls: each frame that was available at first (usable memory, not below `LOW_LIMIT`, not
  -- the bitmap's) is either clear or in exactly one run that was handed out, and no other frame is; so
  -- runs do not overlap, and the count of `free` is right. For a map and a bitmap whose
  -- addresses are below 2 ^ 64, fewer than 2 ^ 52 frames, and counts below 2 ^ 63.
  pub Reach-IsShared :
      {a : FrameAllocator} {held : List Run}
      → IsBootable map words phys
      → Reach a held
      → IsShared a held
  Reach-IsShared fits (booted {a} e) =
      booted-IsShared a (subst (Built map words phys) e (new_lem map words phys fits))
  Reach-IsShared fits (allocated {a} {a'} {held} {at} count align r pos small power e) =
      alloc-IsShared a a' held count align at (Reach-IsShared fits r) pos small power e
  Reach-IsShared fits (refused {a} {a'} {held} count align r pos small power e) =
      refused-IsShared a a' held count align (Reach-IsShared fits r) pos small power e
  Reach-IsShared fits (freed {a} {a'} before i n after r e) =
      free-IsShared a a' before i n after (Reach-IsShared fits r) e

  -- Freeing a run that was handed out and not freed since does not panic, under the same bounds.
  pub Reach-frees :
      {a : FrameAllocator} (before : List Run) (i n : ℕ) (after : List Run)
      → IsBootable map words phys
      → Reach a (before ++ (i, n) ∷ after)
      → free_run a (i * frame_size) n ≢ none
  Reach-frees {a} before i n after fits r e =
      let s = Reach-IsShared fits r in
      let (fit, pos, _) = all_within-middle (words * 64) before i n after s.within in
      let (j, low, high, hole) = free_run-Freed a i n none s.valid pos e in
      elim hole [
        | inl out ↦ omega (arith, out, high, fit, s.size)
        | inr clear ↦ ground (
          arith,
          s.once j (omega (arith, high, fit)),
          owners-middle before i n after j,
          low,
          high,
          clear,
        )
      ]
