-- ===== src/Frame/Restore.antt =====
-- kernel/src/mm/frame.rs: `free` undoes `alloc`.
use relay_os.Prelude.{
  ℕ, ◌/◌, ◌^◌, ◌<◌, ◌≡◌, inl, inr, subst, arith, true, Option, none, some, Bool-cases,
}
use relay_os.Frame.{frame_size, FrameAllocator, is_used, is_power_of_two, alloc, free_run}
use relay_os.Frame.Bitmap.{in_run}
use relay_os.Frame.Calls.{IsValid, Allocated, Freed, alloc_lem, free_run_lem}

-- The bits and the count of `a` are back once the run is freed.
abbrev IsBack : FrameAllocator → Option FrameAllocator → Type 0
IsBack a none = ⊥
IsBack a (some b) = ((j : ℕ) → is_used b.bits j ≡ is_used a.bits j) × (b.free ≡ a.free)

abbrev pub Restored : FrameAllocator → ℕ → Option (Option ℕ × FrameAllocator) → Type 0
Restored a count none = ⊥
Restored a count (some (none, a')) = a' ≡ a
Restored a count (some (some phys, a')) = IsBack a (free_run a' phys count)

Allocated-Restored :
    (a : FrameAllocator) (count align : ℕ) (r : Option (Option ℕ × FrameAllocator))
    → 0 < count
    → Allocated a count align r
    → Restored a count r
Allocated-Restored a count align none pos h = h
Allocated-Restored a count align (some (none, a')) pos (same, _) = same
Allocated-Restored a count align (some (some phys, a')) pos
      (i, at, _, fit, clear, reads, size, less, v) =
    let first : phys / frame_size ≡ i = omega (arith, at) in
    back (free_run a' phys count) (
      subst (λ k. Freed a' k count (free_run a' phys count)) first
        (free_run_lem a' phys count v pos))
  where
    back : (o : Option FrameAllocator) → Freed a' i count o → IsBack a o
    back none (j, low, high, inl out) = absurd (omega (arith, out, size, fit, high))
    back none (j, low, high, inr unused) = absurd (ground (arith, unused, low, high, reads j))
    back (some b) (_, reads', _, more, _, _) = (
      λ j. elim (Bool-cases (in_run i count j)) [
        | inl inside ↦
            ground
              (arith, reads' j, inside, clear j (ground (arith, inside)) (ground (arith, inside)))
        | inr outside ↦ ground (arith, reads' j, reads j, outside)
      ],
      omega (arith, more, less),
    )

-- For a positive count below 2 ^ 63 and an alignment that is a power of two, freeing the run that `alloc` gave
-- returns, with every bit and the count as they were before `alloc`.
pub free_run-alloc :
    (a : FrameAllocator) (count align : ℕ)
    → IsValid a
    → 0 < count
    → count < 2 ^ 63
    → is_power_of_two align ≡ true
    → Restored a count (alloc a count align)
free_run-alloc a count align v pos small power =
    Allocated-Restored a count align (alloc a count align) pos
      (alloc_lem a count align v pos small power)
