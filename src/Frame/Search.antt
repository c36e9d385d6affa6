-- ===== src/Frame/Search.antt =====
-- kernel/src/mm/frame.rs: `find` returns the lowest run that fits.
use relay_os.Prelude.{
  ℕ, zero, suc, ◌+◌, ◌-◌, ◌*◌, ◌/◌, ◌%◌, ◌^◌, ◌≤◌, ◌<◌, ◌≡◌, ◌⊎◌, inl, inr, refl, sym, ap, subst,
  ◌∙◌, arith, bit_and, Bool, true, false, Option, none, some, ◌==◌, leb, ltb, if◌then◌else◌, ◌>>=◌,
  get_or, Bool-cases, get_elem?-eq-get_or,
}
use relay_os.Prelude.Masks.{
  bit_and-high, halved, halved-bounds, power_pos, power_le, power_multiple,
}
use relay_os.Frame.{
  all_ones, FrameAllocator, is_used, align_up, first_used, full_word, is_u64, look, find_loop,
  find_run,
}
use relay_os.Frame.Bitmap.{frames, full_word-used, used-returns}

abbrev pub Multiple : ℕ → ℕ → Type 0
Multiple m x = (q : ℕ) × (x ≡ q * m)

-- `align_up` is the least multiple that is not below.
pub record IsAlignedUp (x m r : ℕ) : Type 0 where
  pub above : x ≤ r
  pub multiple : Multiple m r
  pub least : (k : ℕ) → Multiple m k → x ≤ k → r ≤ k
  pub bounded : r ≤ 2 ^ 63

least_quotient : (q p m : ℕ) → q * m < (p + 1) * m → q ≤ p
least_quotient q p m h = grind arith

times_suc : (q m : ℕ) → (q + 1) * m ≡ q * m + m
times_suc q m = grind arith

times_le : (q p m : ℕ) → q ≤ p → q * m ≤ p * m
times_le q p m h = grind arith

pub align_up_lem : (x e : ℕ) → e < 64 → x ≤ 2 ^ 63 → IsAlignedUp x (2 ^ e) (align_up x (2 ^ e))
unfolding align_up
align_up_lem x e lt h =
    let m = 2 ^ e in
    let y = x + m - 1 in
    let pos = power_pos e in
    let below = power_le 63 e (omega arith) in
    let mask : all_ones - (m - 1) ≡ 2 ^ 64 - m = omega (arith, pos, below) in
    let value : bit_and y (all_ones - (m - 1)) ≡ halved e y * m =
      ap (bit_and y) mask ∙ bit_and-high 64 e y (omega arith) (omega (arith, h, below, pos)) in
    let (low, high) = halved-bounds e y in
    let next = times_suc (halved e y) m in
    let least : (k : ℕ) → Multiple m k → x ≤ k → halved e y * m ≤ k = λ k (p, at) le. omega (
      arith,
      times_le (halved e y) p m
          (least_quotient (halved e y) p m (omega (arith, low, times_suc p m, at, le, pos))),
      at,
    ) in
    let r : IsAlignedUp x m (halved e y * m) = record {
      above = omega (arith, high, next, pos);
      multiple = (halved e y, refl);
      least = least;
      bounded = least (2 ^ 63) (power_multiple 63 e (omega arith)) h;
    } in
    subst (IsAlignedUp x m) (sym value) r

-- In a run of frames, one that is used; or none.
abbrev pub HasUsed : FrameAllocator → ℕ → ℕ → Type 0
HasUsed a i n = (j : ℕ) × (i ≤ j) × (j < i + n) × (is_used a.bits j ≡ true)

abbrev pub IsClear : FrameAllocator → ℕ → ℕ → Type 0
IsClear a i n = (j : ℕ) → i ≤ j → j < i + n → is_used a.bits j ≡ false

abbrev FirstUsed : FrameAllocator → ℕ → ℕ → Option (Option ℕ) → Type 0
FirstUsed a i n none = ⊥
FirstUsed a i n (some none) = IsClear a i n
FirstUsed a i n (some (some j)) = (i ≤ j) × (j < i + n) × (is_used a.bits j ≡ true)

first_used_lem :
    (n : ℕ) (a : FrameAllocator) (i : ℕ) → i + n ≤ frames a → FirstUsed a i n (first_used n a i)
first_used_lem zero a i h = λ j low high. absurd (omega arith)
first_used_lem (suc n) a i h = rw (used-returns a i (omega arith)) (
    if-FirstUsed (is_used a.bits i) _ _ (λ e. (omega arith, omega arith, e))
      (λ e. later (first_used n a (suc i)) e (first_used_lem n a (suc i) (omega arith))))
  where
    if-FirstUsed :
        (c : Bool) (x y : Option (Option ℕ))
        → (c ≡ true → FirstUsed a i (suc n) x)
        → (c ≡ false → FirstUsed a i (suc n) y)
        → FirstUsed a i (suc n) (if c then x else y)
    if-FirstUsed true x y g h = g refl
    if-FirstUsed false x y g h = h refl

    later :
        (o : Option (Option ℕ))
        → is_used a.bits i ≡ false
        → FirstUsed a (suc i) n o
        → FirstUsed a i (suc n) o
    later none e v = v
    later (some none) e v = λ j low high. elim (Bool-cases (j == i)) [
      | inl at ↦ let same : j ≡ i = ground (arith, at) in ap (is_used a.bits) same ∙ e
      | inr past ↦ v j (ground (arith, past)) (omega arith)
    ]
    later (some (some j)) e (low, high, hit) = (omega arith, omega arith, hit)

-- Where to go on: no run that starts before it is clear.
abbrev Looked : FrameAllocator → ℕ → ℕ → ℕ → Option (ℕ ⊎ ℕ) → Type 0
Looked a i count m none = ⊥
Looked a i count m (some (inr k)) = (k ≡ i) × IsClear a i count
Looked a i count m (some (inl i')) =
    (x : ℕ) × (i' ≡ align_up x m)
    × (i < x)
    × (x ≤ frames a + 64)
    × ((k : ℕ) → i ≤ k → k < x → HasUsed a k count)

-- What the loop finds from `i` on.
abbrev pub Found : FrameAllocator → ℕ → ℕ → ℕ → Option (Option ℕ) → Type 0
Found a i count m none = ⊥
Found a i count m (some none) =
    (k : ℕ) → Multiple m k → i ≤ k → k + count ≤ frames a → HasUsed a k count
Found a i count m (some (some k)) =
    Multiple m k × (i ≤ k) × (k + count ≤ frames a) × IsClear a k count

full_word_lem :
    (a : FrameAllocator) (i : ℕ)
    → i < frames a
    → ((full_word a i ≡ some true) × (i % 64 ≡ 0) × (get_or a.bits (i / 64) 0 ≡ all_ones))
      ⊎ (full_word a i ≡ some false)
full_word_lem a i h =
    let w = get_or a.bits (i / 64) 0 in
    let read = get_elem?-eq-get_or a.bits (i / 64) 0 (omega arith) in
    elim (Bool-cases (i % 64 == 0)) [
      | inl start ↦ elim (Bool-cases (w == all_ones)) [
        | inl full ↦
            inl (rw (start, read) (ap some full), ground (arith, start), ground (arith, full))
        | inr other ↦ inr (rw (start, read) (ap some other))
      ]
      | inr inside ↦ inr (rw inside refl)
    ]

look_lem :
    (a : FrameAllocator) (i count m : ℕ)
    → 0 < count
    → i + count ≤ frames a
    → Looked a i count m (look a i count m)
look_lem a i count m pos h = elim (full_word_lem a i (omega arith)) [
  | inl (e, start, full) ↦ rw e (
    i + 64,
    refl,
    omega arith,
    omega arith,
    λ k low high. (k, omega arith, omega arith, full_word-used a.bits i k start full low high),
  )
  | inr e ↦ rw e (searched (first_used count a i) (first_used_lem count a i h))
]
  where
    searched :
        (o : Option (Option ℕ))
        → FirstUsed a i count o
        → Looked a i count m
            (o >>= λ r. some (elim r [ none ↦ inr i | some j ↦ inl (align_up (j + 1) m) ]))
    searched none v = v
    searched (some none) v = (refl, v)
    searched (some (some j)) (low, high, hit) =
        (j + 1, refl, omega arith, omega arith, λ k from to. (j, omega arith, omega arith, hit))

-- What is found further on, with nothing before it.
Found-further :
    (a : FrameAllocator) (i x i' count m : ℕ) (o : Option (Option ℕ))
    → i ≤ x
    → IsAlignedUp x m i'
    → ((k : ℕ) → i ≤ k → k < x → HasUsed a k count)
    → Found a i' count m o
    → Found a i count m o
Found-further a i x i' count m none lt up before v = v
Found-further a i x i' count m (some none) lt up before v = λ k at low fit.
    elim (Bool-cases (ltb k x)) [
      | inl near ↦ before k low (ground (arith, near))
      | inr far ↦ v k at (up.least k at (ground (arith, far))) fit
    ]
Found-further a i x i' count m (some (some k)) lt up before (at, low, fit, clear) =
    (at, omega (arith, up.above), fit, clear)

-- A round, and the rounds after it.
followed :
    (fuel : ℕ) (a : FrameAllocator) (i count e : ℕ) (o : Option (ℕ ⊎ ℕ))
    → e < 64
    → frames a + 64 ≤ 2 ^ 63
    → Multiple (2 ^ e) i
    → i + count ≤ frames a
    → Looked a i count (2 ^ e) o
    → ((i' : ℕ)
        → i < i'
        → Multiple (2 ^ e) i'
        → i' ≤ 2 ^ 63
        → Found a i' count (2 ^ e) (find_loop fuel a i' (frames a) count (2 ^ e)))
    → Found a i count (2 ^ e) (
        o >>= λ r. elim r [
          | inl i' ↦ find_loop fuel a i' (frames a) count (2 ^ e)
          | inr k ↦ some (some k)
        ])
followed fuel a i count e none lt fits at fit v rest = v
followed fuel a i count e (some (inr k)) lt fits at fit (same, clear) rest =
    subst (λ k'. Found a i count (2 ^ e) (some (some k'))) (sym same) (at, omega arith, fit, clear)
followed fuel a i count e (some (inl i')) lt fits at fit (x, up, past, bound, before) rest =
    let aligned = subst (IsAlignedUp x (2 ^ e)) (sym up) (align_up_lem x e lt (omega arith)) in
    Found-further a i x i' count (2 ^ e) _ (omega arith) aligned before
      (rest i' (omega (arith, aligned.above)) aligned.multiple aligned.bounded)

elim-Found :
    (a : FrameAllocator) (i count m : ℕ) (c : Bool) (x y : Option (Option ℕ))
    → (c ≡ true → Found a i count m x)
    → (c ≡ false → Found a i count m y)
    → Found a i count m (elim c [ false ↦ y | true ↦ x ])
elim-Found a i count m true x y g h = g refl
elim-Found a i count m false x y g h = h refl

find_loop_lem :
    (fuel : ℕ) (a : FrameAllocator) (i count e : ℕ)
    → e < 64
    → frames a + 64 ≤ 2 ^ 63
    → count < 2 ^ 63
    → 0 < count
    → 0 < fuel
    → frames a < fuel + i
    → Multiple (2 ^ e) i
    → i ≤ 2 ^ 63
    → Found a i count (2 ^ e) (find_loop fuel a i (frames a) count (2 ^ e))
find_loop_lem zero a i count e lt fits small pos some_fuel enough at low = absurd (omega arith)
find_loop_lem (suc fuel) a i count e lt fits small pos some_fuel enough at low =
    elim-Found a i count (2 ^ e) (is_u64 (i + count)) _ _
      (λ _.
        elim-Found a i count (2 ^ e) (leb (i + count) (frames a)) _ _
          (λ h.
            followed fuel a i count e (look a i count (2 ^ e)) lt fits at (ground (arith, h))
              (look_lem a i count (2 ^ e) pos (ground (arith, h)))
              (λ i' past at' low'.
                find_loop_lem fuel a i' count e lt fits small pos (ground (arith, h)) (omega arith)
                  at' low'))
          (λ over k _ low fit. absurd (ground (arith, over))))
      (λ over. absurd (ground (arith, over, small, low)))

pub find_run_lem :
    (a : FrameAllocator) (from count e : ℕ)
    → e < 64
    → frames a + 64 ≤ 2 ^ 63
    → count < 2 ^ 63
    → 0 < count
    → from ≤ frames a
    → Found a from count (2 ^ e) (find_run a from (frames a) count (2 ^ e))
unfolding find_run
find_run_lem a from count e lt fits small pos h =
    let up = align_up_lem from e lt (omega arith) in
    Found-further a from from (align_up from (2 ^ e)) count (2 ^ e)
      (find_run a from (frames a) count (2 ^ e)) (omega arith) up
      (λ k low high. absurd (omega arith))
      (find_loop_lem (suc (frames a)) a (align_up from (2 ^ e)) count e lt fits small pos
        (omega arith) (omega arith) up.multiple up.bounded)
