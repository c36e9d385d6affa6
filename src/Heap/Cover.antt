-- ===== src/Heap/Cover.antt =====
-- crates/heap/src/lib.rs: which bytes the free blocks cover, and what the large list's operations do to
-- that.
use relay_os.Prelude.{
  ℕ, ◌+◌, ◌-◌, ◌*◌, ◌/◌, ◌%◌, ◌^◌, ◌≤◌, ◌<◌, ◌≡◌, inl, inr, refl, ap, arith, Bool, true, false,
  ◌&&◌, Option, none, some, List, [], ◌∷◌, ◌==◌, leb, ltb, if◌then◌else◌, Bool-cases,
}
use native.Mathlib.Nat.{div-add-mod', mod-lt}
use relay_os.Heap.{FreeBlock, next_multiple_of, below, not_below, merge_next, attach, insert_free}

-- Whether a byte is in the block, as a number.
abbrev pub holds : ℕ → ℕ → ℕ → ℕ
holds a s x = if leb a x && ltb x (a + s) then 1 else 0

-- In how many blocks a byte is.
abbrev pub covered : ℕ → List FreeBlock → ℕ
covered x [] = 0
covered x ((a, s) ∷ blocks) = holds a s x + covered x blocks

pub holds-join : (a s t x : ℕ) → holds a (s + t) x ≡ holds a s x + holds (a + s) t x
holds-join a s t x = ground arith

if-covered :
    (x v : ℕ) (c : Bool) (l m : List FreeBlock)
    → (c ≡ true → covered x l ≡ v)
    → (c ≡ false → covered x m ≡ v)
    → covered x (if c then l else m) ≡ v
if-covered x v true l m g h = g refl
if-covered x v false l m g h = h refl

covered-merge_next :
    (a s : ℕ) (blocks : List FreeBlock) (x : ℕ)
    → covered x (merge_next a s blocks) ≡ holds a s x + covered x blocks
covered-merge_next a s [] x = refl
covered-merge_next a s ((n, t) ∷ blocks) x =
    if-covered x _ (a + s == n) _ _
      (λ meet.
        let at : a + s ≡ n = ground (arith, meet) in
        omega (arith, holds-join a s t x, ap (λ k. holds k t x) at))
      (λ _. refl)

covered-attach :
    (before blocks : List FreeBlock) (x : ℕ)
    → covered x (attach before blocks) ≡ covered x before + covered x blocks
covered-attach [] blocks x = omega arith
covered-attach ((p, s) ∷ []) [] x = omega arith
covered-attach ((p, s) ∷ []) ((a, t) ∷ blocks) x =
    if-covered x _ (p + s == a) _ _
      (λ meet.
        let at : p + s ≡ a = ground (arith, meet) in
        omega (arith, holds-join p s t x, ap (λ k. holds k t x) at))
      (λ _. omega arith)
covered-attach (b ∷ (c ∷ before)) blocks x = omega (arith, covered-attach (c ∷ before) blocks x)

covered-split :
    (a : ℕ) (blocks : List FreeBlock) (x : ℕ)
    → covered x (below a blocks) + covered x (not_below a blocks) ≡ covered x blocks
covered-split a [] x = refl
covered-split a ((b, s) ∷ blocks) x = both (ltb b a) (covered-split a blocks x)
  where
    both :
        (c : Bool)
        → covered x (below a blocks) + covered x (not_below a blocks) ≡ covered x blocks
        → covered x (if c then (b, s) ∷ below a blocks else [])
            + covered x (if c then not_below a blocks else (b, s) ∷ blocks)
          ≡ holds b s x + covered x blocks
    both true rest = omega (arith, rest)
    both false rest = omega arith

-- A multiple of `m`.
abbrev pub Multiple : ℕ → ℕ → Type 0
Multiple m x = (q : ℕ) × (x ≡ q * m)

-- The next multiple: not below, and less than `m` above.
pub next_multiple_of_lem :
    (x m : ℕ)
    → 0 < m
    → (x ≤ next_multiple_of x m)
      × (next_multiple_of x m < x + m)
      × Multiple m (next_multiple_of x m)
next_multiple_of_lem x m pos = elim (Bool-cases (x % m == 0)) [
  | inl whole ↦
      let value : next_multiple_of x m ≡ x = ground (arith, whole) in
      (
        omega (arith, value),
        omega (arith, value),
        (x / m, omega (arith, value, div-add-mod' x m, ground_zero whole)),
      )
  | inr part ↦
      let value : next_multiple_of x m ≡ x + (m - x % m) = ground (arith, part) in
      let rest = mod-lt x pos in
      let some_rest : 0 < x % m = ground (arith, part) in
      (
        omega (arith, value),
        omega (arith, value, some_rest),
        (x / m + 1, omega (arith, value, div-add-mod' x m, times_suc (x / m) m, rest)),
      )
]
  where
    ground_zero : (x % m == 0) ≡ true → x % m ≡ 0
    ground_zero h = ground (arith, h)

    times_suc : (q m : ℕ) → (q + 1) * m ≡ q * m + m
    times_suc q m = grind arith

-- Every block has bytes, none is at address 0, and all end at most at 2 ^ 62.
abbrev pub is_sound_block : ℕ → ℕ → Bool
is_sound_block a s = ltb 0 a && (ltb 0 s && leb (a + s) (2 ^ 62))

abbrev pub is_sound : List FreeBlock → Bool
is_sound [] = true
is_sound ((a, s) ∷ blocks) = is_sound_block a s && is_sound blocks

if_sound :
    (c : Bool) (l m : List FreeBlock)
    → (c ≡ true → is_sound l ≡ true)
    → (c ≡ false → is_sound m ≡ true)
    → is_sound (if c then l else m) ≡ true
if_sound true l m g h = g refl
if_sound false l m g h = h refl

is_sound-below :
    (a : ℕ) (blocks : List FreeBlock) → is_sound blocks ≡ true → is_sound (below a blocks) ≡ true
is_sound-below a [] h = refl
is_sound-below a ((b, s) ∷ blocks) h =
    let rest = is_sound-below a blocks (ground (arith, h)) in
    if_sound (ltb b a) _ _ (λ _. ground (arith, h, rest)) (λ _. refl)

is_sound-not_below :
    (a : ℕ) (blocks : List FreeBlock)
    → is_sound blocks ≡ true
    → is_sound (not_below a blocks) ≡ true
is_sound-not_below a [] h = refl
is_sound-not_below a ((b, s) ∷ blocks) h =
    let rest = is_sound-not_below a blocks (ground (arith, h)) in
    if_sound (ltb b a) _ _ (λ _. rest) (λ _. h)

is_sound-merge_next :
    (a s : ℕ) (blocks : List FreeBlock)
    → is_sound_block a s ≡ true
    → is_sound blocks ≡ true
    → is_sound (merge_next a s blocks) ≡ true
is_sound-merge_next a s [] g h = ground (arith, g)
is_sound-merge_next a s ((n, t) ∷ blocks) g h =
    if_sound (a + s == n) _ _ (λ meet. ground (arith, g, h, meet)) (λ _. ground (arith, g, h))

is_sound-attach :
    (before blocks : List FreeBlock)
    → is_sound before ≡ true
    → is_sound blocks ≡ true
    → is_sound (attach before blocks) ≡ true
is_sound-attach [] blocks g h = h
is_sound-attach ((p, s) ∷ []) [] g h = g
is_sound-attach ((p, s) ∷ []) ((a, t) ∷ blocks) g h =
    if_sound (p + s == a) _ _ (λ meet. ground (arith, g, h, meet)) (λ _. ground (arith, g, h))
is_sound-attach ((p, s) ∷ ((q, t) ∷ before)) blocks g h =
    let rest = is_sound-attach ((q, t) ∷ before) blocks (ground (arith, g)) h in
    ground (arith, g, rest)

-- A list that is sound, with the bytes that `more` counts beside those of `blocks`.
abbrev pub Grows : List FreeBlock → (ℕ → ℕ) → Option (List FreeBlock) → Type 0
Grows blocks more none = ⊥
Grows blocks more (some l) =
    (is_sound l ≡ true) × ((x : ℕ) → covered x l ≡ more x + covered x blocks)

pub insert_free-Grows :
    (a s : ℕ) (blocks : List FreeBlock)
    → is_sound_block a s ≡ true
    → is_sound blocks ≡ true
    → Grows blocks (holds a s) (insert_free a s blocks)
unfolding insert_free
insert_free-Grows a s blocks g h =
    let after = not_below a blocks in
    let merged = merge_next a s after in
    if-Grows (a == 0) (some (attach (below a blocks) merged)) (λ zero. ground (arith, zero, g))
      (λ _. (
        is_sound-attach (below a blocks) merged (is_sound-below a blocks h)
            (is_sound-merge_next a s after g (is_sound-not_below a blocks h)),
        λ x. omega (
          arith,
          covered-attach (below a blocks) merged x,
          covered-merge_next a s after x,
          covered-split a blocks x,
        ),
      ))
  where
    if-Grows :
        (c : Bool) (r : Option (List FreeBlock))
        → (c ≡ true → ⊥)
        → (c ≡ false → Grows blocks (holds a s) r)
        → Grows blocks (holds a s) (if c then none else r)
    if-Grows true r g h = absurd (g refl)
    if-Grows false r g h = h refl
