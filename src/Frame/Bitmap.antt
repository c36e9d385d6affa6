-- ===== src/Frame/Bitmap.antt =====
-- kernel/src/mm/frame.rs: what `used` and `set` do to the bits, and how many are clear.
use relay_os.Prelude.{
  ℕ, zero, suc, ◌+◌, ◌-◌, ◌*◌, ◌/◌, ◌%◌, ◌^◌, ◌≤◌, ◌<◌, ◌≡◌, ◌⊎◌, refl, sym, ap, subst, ◌∙◌, inl,
  inr, arith, bit_and, bit_or, Bool, true, false, ◌&&◌, not, Option, none, some, List, ◌==◌, leb,
  ltb, if◌then◌else◌, min, length, get_or, set, length-set, get_or-set_self, get_or-set_ne,
  Bool-cases,
}
use relay_os.Prelude.Masks.{
  bit, bit_and-power, power_pos, bit-bit_or, bit-cleared, bit-full, bit-le,
}
use relay_os.Frame.{
  all_ones, FrameAllocator, is_used, written, used, set_used, set_each, free_each, clear_below,
}

abbrev pub frames : FrameAllocator → ℕ
frames a = length a.bits * 64

word-bit : (w k : ℕ) → (not (bit_and w (2 ^ k) == 0)) ≡ (bit k w == 1)
word-bit w k = grind (arith, bit_and-power k w, power_pos k, bit-le k w)

is_used-bit :
    (bits : List ℕ) (i : ℕ) → is_used bits i ≡ (bit (i % 64) (get_or bits (i / 64) 0) == 1)
is_used-bit bits i = word-bit (get_or bits (i / 64) 0) (i % 64)

word_below : (bits : List ℕ) (i : ℕ) → i < length bits * 64 → i / 64 < length bits
word_below bits i h = omega arith

same_word :
    (bits : List ℕ) (i j : ℕ) → j / 64 ≡ i / 64 → get_or bits (j / 64) 0 ≡ get_or bits (i / 64) 0
same_word bits i j e = ap (λ q. get_or bits q 0) e

read-set :
    (bits : List ℕ) (i j v k : ℕ)
    → i / 64 < length bits
    → bit k (get_or (set bits (i / 64) v) (j / 64) 0)
      ≡ (if j / 64 == i / 64 then bit k v else bit k (get_or bits (j / 64) 0))
read-set bits i j v k h = elim (Bool-cases (j / 64 == i / 64)) [
  | inl e ↦
      let same : j / 64 ≡ i / 64 = ground (arith, e) in
      let at : get_or (set bits (i / 64) v) (j / 64) 0 ≡ v =
        ap (λ q. get_or (set bits (i / 64) v) q 0) same ∙ get_or-set_self bits (i / 64) v 0 h in
      ground (arith, ap (bit k) at, e)
  | inr e ↦
      let other : get_or (set bits (i / 64) v) (j / 64) 0 ≡ get_or bits (j / 64) 0 =
        get_or-set_ne bits (i / 64) (j / 64) v 0 (λ q. absurd (ground (arith, q, e))) in
      ground (arith, ap (bit k) other, e)
]

-- A written bit reads as written, and no other bit changes.
pub is_used-written :
    (bits : List ℕ) (i j : ℕ) (u : Bool)
    → i < length bits * 64
    → is_used (written bits i u) j ≡ (if j == i then u else is_used bits j)
unfolding written
is_used-written bits i j true h =
    let w = get_or bits (i / 64) 0 in
    is_used-bit _ j
    ∙ grind (
      arith,
      read-set bits i j (bit_or w (2 ^ (i % 64))) (j % 64) (word_below bits i h),
      bit-bit_or (i % 64) w (j % 64),
      is_used-bit bits j,
      same_word bits i j,
    )
is_used-written bits i j false h =
    let w = get_or bits (i / 64) 0 in
    is_used-bit _ j
    ∙ grind (
      arith,
      read-set bits i j (bit_and w (all_ones - 2 ^ (i % 64))) (j % 64) (word_below bits i h),
      bit-cleared 64 (i % 64) w (j % 64) (omega arith) (omega arith),
      is_used-bit bits j,
      same_word bits i j,
    )

pub full_word-used :
    (bits : List ℕ) (i j : ℕ)
    → i % 64 ≡ 0
    → get_or bits (i / 64) 0 ≡ all_ones
    → i ≤ j
    → j < i + 64
    → is_used bits j ≡ true
full_word-used bits i j e full le lt =
    let at : j / 64 ≡ i / 64 = omega arith in
    let word : get_or bits (j / 64) 0 ≡ all_ones = ap (λ q. get_or bits q 0) at ∙ full in
    is_used-bit bits j ∙ ground (arith, ap (bit (j % 64)) word, bit-full 64 (j % 64) (omega arith))

abbrev pub in_run : ℕ → ℕ → ℕ → Bool
in_run i n j = leb i j && ltb j (i + n)

clear_below-same :
    (n : ℕ) (f g : ℕ → Bool) → ((j : ℕ) → j < n → g j ≡ f j) → clear_below n g ≡ clear_below n f
clear_below-same zero f g e = refl
clear_below-same (suc n) f g e =
    let rest = clear_below-same n f g (λ j lt. e j (omega arith)) in
    ground (arith, rest, e n (omega arith))

-- A run of clear frames that is marked is that many fewer.
pub clear_below-run :
    (n i m : ℕ) (f g : ℕ → Bool)
    → i + m ≤ n
    → ((j : ℕ) → j < n → g j ≡ (if in_run i m j then true else f j))
    → ((j : ℕ) → i ≤ j → j < i + m → f j ≡ false)
    → clear_below n g + m ≡ clear_below n f
clear_below-run n i zero f g le e clear =
    let same = clear_below-same n f g (λ j lt. ground (arith, e j lt)) in omega (arith, same)
clear_below-run zero i (suc m) f g le e clear = absurd (omega arith)
clear_below-run (suc n) i (suc m) f g le e clear = elim (Bool-cases (leb (i + suc m) n)) [
  | inl more ↦
      let rest =
        clear_below-run n i (suc m) f g (ground (arith, more)) (λ j lt. e j (omega arith)) clear in
      ground (arith, rest, more, e n (omega arith))
  | inr last ↦
      let at : n ≡ i + m = ground (arith, last) in
      let rest =
        clear_below-run n i m f g (omega (arith, at))
          (λ j lt. ground (arith, at, e j (omega arith)))
          (λ j low high. clear j low (omega arith)) in
      ground (arith, rest, at, e n (omega arith), clear n (omega (arith, at)) (omega (arith, at)))
]

-- `a'` is `a` with the bits of `n` frames from `i` on written.
pub record IsMarked (i n : ℕ) (u : Bool) (a a' : FrameAllocator) : Type 0 where
  pub size : length a'.bits ≡ length a.bits
  pub same_free : a'.free ≡ a.free
  pub same_next : a'.next ≡ a.next
  pub same_total : a'.total ≡ a.total
  pub reads : (j : ℕ) → is_used a'.bits j ≡ (if in_run i n j then u else is_used a.bits j)

abbrev pub Marks : ℕ → ℕ → Bool → FrameAllocator → Option FrameAllocator → Type 0
Marks i n u a none = ⊥
Marks i n u a (some a') = IsMarked i n u a a'

set_used-returns :
    (a : FrameAllocator) (i : ℕ) (u : Bool)
    → i < frames a
    → set_used a i u ≡ some (record a { bits = written a.bits i u })
unfolding set_used
set_used-returns a i u h = ground (arith, word_below a.bits i h)

written-size : (bits : List ℕ) (i : ℕ) (u : Bool) → length (written bits i u) ≡ length bits
unfolding written
written-size bits i u = length-set bits (i / 64) _

IsMarked-none : (a : FrameAllocator) (i : ℕ) (u : Bool) → IsMarked i 0 u a a
IsMarked-none a i u = record {
  size = refl;
  same_free = refl;
  same_next = refl;
  same_total = refl;
  reads = λ j. ground arith;
}

-- One frame, then the ones after it.
Marks-next :
    (a : FrameAllocator) (i n : ℕ) (u : Bool) (o : Option FrameAllocator)
    → i < frames a
    → Marks (suc i) n u (record a { bits = written a.bits i u }) o
    → Marks i (suc n) u a o
Marks-next a i n u none h v = v
Marks-next a i n u (some a') h v = record {
  size = v.size ∙ written-size a.bits i u;
  same_free = v.same_free;
  same_next = v.same_next;
  same_total = v.same_total;
  reads = λ j. ground (arith, v.reads j, is_used-written a.bits i j u h);
}

pub set_each-Marks :
    (n : ℕ) (a : FrameAllocator) (i : ℕ) (u : Bool)
    → i + n ≤ frames a
    → Marks i n u a (set_each n a i u)
set_each-Marks zero a i u h = IsMarked-none a i u
set_each-Marks (suc n) a i u h =
    let after : FrameAllocator = record a { bits = written a.bits i u } in
    let rest =
      Marks-next a i n u (set_each n after (suc i) u) (omega arith)
        (set_each-Marks n after (suc i) u (omega (arith, written-size a.bits i u))) in
    rw (set_used-returns a i u (omega arith)) rest

pub used-returns : (a : FrameAllocator) (i : ℕ) → i < frames a → used a i ≡ some (is_used a.bits i)
unfolding used
used-returns a i h = ground (arith, word_below a.bits i h)

pub free_each-Marks :
    (n : ℕ) (a : FrameAllocator) (i : ℕ)
    → i + n ≤ frames a
    → ((j : ℕ) → i ≤ j → j < i + n → is_used a.bits j ≡ true)
    → Marks i n false a (free_each n a i)
free_each-Marks zero a i h all = IsMarked-none a i false
free_each-Marks (suc n) a i h all =
    let after : FrameAllocator = record a { bits = written a.bits i false } in
    let rest = Marks-next a i n false (free_each n after (suc i)) (omega arith) (
      free_each-Marks n after (suc i) (omega (arith, written-size a.bits i false)) (λ j low high.
        ground (
          arith,
          is_used-written a.bits i j false (omega arith),
          all j (omega arith) (omega arith),
        ))) in
    let first = used-returns a i (omega arith) ∙ ap some (all i (omega arith) (omega arith)) in
    rw (first, set_used-returns a i false (omega arith)) rest

-- A frame of a run that cannot be freed: it has no bit, or a clear one.
abbrev pub HasHole : FrameAllocator → ℕ → ℕ → Type 0
HasHole a i n = (j : ℕ) × (i ≤ j) × (j < i + n) × ((frames a ≤ j) ⊎ (is_used a.bits j ≡ false))

abbrev pub AllUsed : FrameAllocator → ℕ → ℕ → Type 0
AllUsed a i n = (i + n ≤ frames a) × ((j : ℕ) → i ≤ j → j < i + n → is_used a.bits j ≡ true)

set_used-past : (a : FrameAllocator) (i : ℕ) → frames a ≤ i → used a i ≡ none
unfolding used
set_used-past a i h = let past : ltb (i / 64) (length a.bits) ≡ false = ground (arith, h) in rw past

pub free_each-cases :
    (n : ℕ) (a : FrameAllocator) (i : ℕ)
    → i ≤ frames a
    → ((free_each n a i ≡ none) × HasHole a i n) ⊎ AllUsed a i n
free_each-cases zero a i h = inr (omega arith, λ j low high. absurd (omega arith))
free_each-cases (suc n) a i h = elim (Bool-cases (ltb i (frames a))) [
  | inr past ↦ inl (
    rw (set_used-past a i (ground (arith, past))) refl,
    (i, omega arith, omega arith, inl (ground (arith, past))),
  )
  | inl inside ↦
      let lt : i < frames a = ground (arith, inside) in
      elim (Bool-cases (is_used a.bits i)) [
        | inr clear ↦
            inl (rw (used-returns a i lt, clear) refl, (i, omega arith, omega arith, inr clear))
        | inl taken ↦
            let after : FrameAllocator = record a { bits = written a.bits i false } in
            let size = written-size a.bits i false in
            let kept : (j : ℕ) → i < j → is_used after.bits j ≡ is_used a.bits j =
              λ j past. ground (arith, is_used-written a.bits i j false lt) in
            elim (free_each-cases n after (suc i) (omega (arith, size))) [
              | inl (stops, (j, low, high, hole)) ↦ inl (
                rw (used-returns a i lt ∙ ap some taken, set_used-returns a i false lt) stops,
                (
                  j,
                  omega arith,
                  omega arith,
                  elim hole [
                    | inl out ↦ inl (omega (arith, size, out))
                    | inr clear ↦ inr (sym (kept j (omega arith)) ∙ clear)
                  ],
                ),
              )
              | inr (fit, all) ↦ inr (
                omega (arith, size, fit),
                λ j low high. elim (Bool-cases (j == i)) [
                  | inl here ↦
                      let same : j ≡ i = ground (arith, here) in ap (is_used a.bits) same ∙ taken
                  | inr other ↦
                      let past : i < j = ground (arith, other) in
                      sym (kept j past) ∙ all j (omega arith) (omega arith)
                ],
              )
            ]
      ]
]

pub free_each-past :
    (n : ℕ) (a : FrameAllocator) (i : ℕ) → 0 < n → frames a ≤ i → free_each n a i ≡ none
free_each-past zero a i pos h = absurd (omega arith)
free_each-past (suc n) a i pos h = rw (set_used-past a i h) refl

-- The frames from `first` up to `last`, as far as the bitmap goes.
pub set_each-span :
    (a : FrameAllocator) (first last : ℕ) (u : Bool)
    → Marks first
        (min last (frames a) - first)
        u
        a
        (set_each (min last (frames a) - first) a first u)
set_each-span a first last u = elim (Bool-cases (leb first (min last (frames a)))) [
  | inl some_frames ↦
      set_each-Marks (min last (frames a) - first) a first u (ground (arith, some_frames))
  | inr nothing ↦
      let nil : min last (frames a) - first ≡ 0 = ground (arith, nothing) in
      subst (λ n. Marks first n u a (set_each n a first u)) (sym nil) (IsMarked-none a first u)
]
