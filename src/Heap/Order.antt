-- ===== src/Heap/Order.antt =====
-- crates/heap/src/lib.rs: `insert_free` keeps the list in the order of the addresses, with a gap between
-- any two blocks.
use relay_os.Prelude.{
  ℕ, ◌+◌, ◌≤◌, ◌<◌, ◌≡◌, refl, subst, arith, Bool, true, false, ◌&&◌, Option, none, some, List, [],
  ◌∷◌, ◌==◌, leb, ltb, if◌then◌else◌,
}
use relay_os.Heap.{FreeBlock, below, not_below, merge_next, attach, insert_free}
use relay_os.Heap.Cover.{holds, covered, is_sound, is_sound_block}

-- In order, with a gap before each block, the first of which is after `e`.
abbrev pub after_gap : ℕ → List FreeBlock → Bool
after_gap e [] = true
after_gap e ((a, s) ∷ blocks) = ltb e a && after_gap (a + s) blocks

-- In order, from `m` on.
abbrev starts_from : ℕ → List FreeBlock → Bool
starts_from m [] = true
starts_from m ((a, s) ∷ blocks) = leb m a && after_gap (a + s) blocks

pub after_gap-weaken :
    (e f : ℕ) (blocks : List FreeBlock)
    → e ≤ f
    → after_gap f blocks ≡ true
    → after_gap e blocks ≡ true
after_gap-weaken e f [] le h = refl
after_gap-weaken e f ((a, s) ∷ blocks) le h = ground (arith, h, le)

if-after_gap :
    (e : ℕ) (c : Bool) (l m : List FreeBlock)
    → (c ≡ true → after_gap e l ≡ true)
    → (c ≡ false → after_gap e m ≡ true)
    → after_gap e (if c then l else m) ≡ true
if-after_gap e true l m g h = g refl
if-after_gap e false l m g h = h refl

-- A new block and what follows it.
after_gap-merge_next :
    (e a s : ℕ) (blocks : List FreeBlock)
    → e < a
    → starts_from (a + s) blocks ≡ true
    → after_gap e (merge_next a s blocks) ≡ true
after_gap-merge_next e a s [] lt h = ground (arith, lt)
after_gap-merge_next e a s ((n, t) ∷ blocks) lt h =
    if-after_gap e (a + s == n) _ _
      (λ meet.
        let at : n + t ≡ a + (s + t) = ground (arith, meet) in
        let rest : after_gap (n + t) blocks ≡ true = ground (arith, h) in
        let moved = subst (λ m. after_gap m blocks ≡ true) at rest in ground (arith, lt, moved))
      (λ apart. ground (arith, lt, h, apart))

-- A block, a new block after it, and what follows.
after_gap-attach :
    (e b t a s : ℕ) (blocks : List FreeBlock)
    → e < b
    → b + t ≤ a
    → starts_from (a + s) blocks ≡ true
    → after_gap e (attach ((b, t) ∷ []) (merge_next a s blocks)) ≡ true
after_gap-attach e b t a s [] lt le h = joined (b + t == a) refl
  where
    joined :
        (c : Bool)
        → (b + t == a) ≡ c
        → after_gap e (if c then (b, t + s) ∷ [] else (b, t) ∷ (a, s) ∷ []) ≡ true
    joined true meet = ground (arith, lt)
    joined false apart = ground (arith, lt, le, apart)
after_gap-attach e b t a s ((n, u) ∷ blocks) lt le h =
    next (a + s == n) refl (ground (arith, h)) (ground (arith, h))
  where
    joined :
        (c : Bool) (v : ℕ) (r : List FreeBlock)
        → (b + t == a) ≡ c
        → after_gap (a + v) r ≡ true
        → after_gap e (if c then (b, t + v) ∷ r else (b, t) ∷ (a, v) ∷ r) ≡ true
    joined true v r meet h =
        let at : a + v ≡ b + (t + v) = ground (arith, meet) in
        let moved = subst (λ m. after_gap m r ≡ true) at h in ground (arith, lt, moved)
    joined false v r apart h = ground (arith, lt, le, apart, h)

    next :
        (c : Bool)
        → (a + s == n) ≡ c
        → a + s ≤ n
        → after_gap (n + u) blocks ≡ true
        → after_gap e
            (attach ((b, t) ∷ []) (if c then (a, s + u) ∷ blocks else (a, s) ∷ (n, u) ∷ blocks))
          ≡ true
    next true meet high rest =
        let at : n + u ≡ a + (s + u) = ground (arith, meet) in
        joined (b + t == a) (s + u) blocks refl (subst (λ m. after_gap m blocks ≡ true) at rest)
    next false apart high rest =
        joined (b + t == a) s ((n, u) ∷ blocks) refl (ground (arith, apart, high, rest))

-- What is not below a new block starts after it, as they do not overlap.
starts_from-not_below :
    (e a s : ℕ) (blocks : List FreeBlock)
    → after_gap e blocks ≡ true
    → is_sound blocks ≡ true
    → ((x : ℕ) → holds a s x + covered x blocks ≤ 1)
    → starts_from (a + s) (not_below a blocks) ≡ true
starts_from-not_below e a s [] h sound apart = refl
starts_from-not_below e a s ((b, t) ∷ blocks) h sound apart =
    one (ltb b a) refl
      (starts_from-not_below (b + t) a s blocks (ground (arith, h)) (ground (arith, sound)))
  where
    one :
        (c : Bool)
        → ltb b a ≡ c
        → (((x : ℕ) → holds a s x + covered x blocks ≤ 1)
            → starts_from (a + s) (not_below a blocks) ≡ true)
        → starts_from (a + s) (if c then not_below a blocks else (b, t) ∷ blocks) ≡ true
    one true lt rest = rest (λ x. omega (arith, apart x))
    one false ge rest =
        let mine : holds b t b ≡ 1 = ground (arith, sound) in
        let none_there : holds a s b ≡ 0 = omega (arith, apart b, mine) in
        ground (arith, ge, h, none_there)

-- A block below `a` after a gap from `e`.
below-first :
    (e a : ℕ) (b : FreeBlock) (before blocks : List FreeBlock)
    → below a blocks ≡ b ∷ before
    → after_gap e blocks ≡ true
    → e < a
below-first e a b before [] first h = absurd (ground (arith, first))
below-first e a b before ((n, t) ∷ blocks) first h = one (ltb n a) refl first
  where
    one :
        (c : Bool) → ltb n a ≡ c → (if c then (n, t) ∷ below a blocks else []) ≡ b ∷ before → e < a
    one true lt first = ground (arith, lt, h)
    one false ge first = absurd (ground (arith, first))

after_gap-insert :
    (e a s : ℕ) (blocks : List FreeBlock)
    → e < a
    → after_gap e blocks ≡ true
    → is_sound blocks ≡ true
    → ((x : ℕ) → holds a s x + covered x blocks ≤ 1)
    → 0 < s
    → after_gap e (attach (below a blocks) (merge_next a s (not_below a blocks))) ≡ true
after_gap-insert e a s [] lt h sound apart pos = ground (arith, lt)
after_gap-insert e a s ((b, t) ∷ blocks) lt h sound apart pos =
    one (ltb b a) refl (starts_from-not_below e a s ((b, t) ∷ blocks) h sound apart) (λ gap less.
      after_gap-insert (b + t) a s blocks gap (ground (arith, h)) (ground (arith, sound)) less pos)
  where
    less : (x : ℕ) → holds a s x + covered x blocks ≤ 1
    less x = omega (arith, apart x)

    behind :
        (before : List FreeBlock)
        → below a blocks ≡ before
        → b < a
        → starts_from (a + s) (not_below a blocks) ≡ true
        → (b + t < a
            → after_gap (b + t) (attach (below a blocks) (merge_next a s (not_below a blocks)))
              ≡ true)
        → after_gap e (attach ((b, t) ∷ before) (merge_next a s (not_below a blocks))) ≡ true
    behind [] first less_start starts rest =
        let mine : holds a s a ≡ 1 = ground (arith, pos) in
        let none_there : holds b t a ≡ 0 = omega (arith, apart a, mine) in
        after_gap-attach e b t a s (not_below a blocks) (ground (arith, h))
          (ground (arith, none_there, less_start)) starts
    behind (c ∷ before) first less_start starts rest =
        let gap = below-first (b + t) a c before blocks first (ground (arith, h)) in
        let tail : after_gap (b + t) (attach (c ∷ before) (merge_next a s (not_below a blocks)))
            ≡ true =
          subst (λ l. after_gap (b + t) (attach l (merge_next a s (not_below a blocks))) ≡ true)
            first (rest gap) in
        ground (arith, h, tail)

    one :
        (c : Bool)
        → ltb b a ≡ c
        → starts_from (a + s) (if c then not_below a blocks else (b, t) ∷ blocks) ≡ true
        → (b + t < a
            → ((x : ℕ) → holds a s x + covered x blocks ≤ 1)
            → after_gap (b + t) (attach (below a blocks) (merge_next a s (not_below a blocks)))
              ≡ true)
        → after_gap e (
            attach
              (if c then (b, t) ∷ below a blocks else [])
              (merge_next a s (if c then not_below a blocks else (b, t) ∷ blocks)))
          ≡ true
    one true less_start starts rest =
        behind (below a blocks) refl (ground (arith, less_start)) starts (λ gap. rest gap less)
    one false ge starts rest = after_gap-merge_next e a s ((b, t) ∷ blocks) lt starts

-- In order, with a gap between any two blocks.
abbrev pub is_merged : List FreeBlock → Bool
is_merged blocks = after_gap 0 blocks

abbrev pub Merges : Option (List FreeBlock) → Type 0
Merges none = Unit
Merges (some blocks) = is_merged blocks ≡ true

pub insert_free-Merges :
    (a s : ℕ) (blocks : List FreeBlock)
    → is_sound_block a s ≡ true
    → is_sound blocks ≡ true
    → is_merged blocks ≡ true
    → ((x : ℕ) → holds a s x + covered x blocks ≤ 1)
    → Merges (insert_free a s blocks)
unfolding insert_free
insert_free-Merges a s blocks new sound h apart = one (a == 0)
  where
    one :
        (c : Bool)
        → Merges (
            if c
            then none
            else some (attach (below a blocks) (merge_next a s (not_below a blocks))))
    one true = tt
    one false =
        after_gap-insert 0 a s blocks (ground (arith, new)) h sound apart (ground (arith, new))
