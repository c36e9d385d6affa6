-- ===== src/Fd/Child.antt =====
-- kernel/src/fd.rs: the descriptors that a child gets from `for_child`.
use relay_os.Prelude.{
  ℕ, zero, suc, ◌≤◌, ◌<◌, ◌≡◌, refl, ap, sym, ◌++◌, ◌⊎◌, ◌||◌, ◌∙◌, inl, inr, arith, Bool, true,
  false, ◌&&◌, not, Option, none, some, List, [], ◌∷◌, ◌==◌, ltb, if◌then◌else◌, is_none, is_some,
  length, get_elem?, set, replicate, any, length-set, length-replicate, Option-cases, Bool-cases,
}
use relay_os.Errno.{Errno, ebadf, einval, Result, ok, err}
use relay_os.Fd.{FdMap, FdTable, fds, spawn_fds, slot_of, new, get, give_each, for_child}
use relay_os.Fd.Slots.{slot_of-set}

module _ {F : Type 0} where
  -- The file that the pairs give to a child's descriptor.
  abbrev pub given : FdTable F → List FdMap → ℕ → Result F
  given t [] fd = err ebadf
  given t (m ∷ maps) fd = if m.child == fd then get t m.parent else given t maps fd

  slot_of-elem :
      (t : FdTable F) (fd : ℕ) (slot : Option F)
      → get_elem? t fd ≡ some slot
      → (fd < length t) × (slot_of t fd ≡ slot)
  slot_of-elem [] fd slot e = absurd (ground (arith, e))
  slot_of-elem (s ∷ t) zero slot e = (omega arith, ground (arith, e))
  slot_of-elem (s ∷ t) (suc fd) slot e =
      let (lt, same) = slot_of-elem t fd slot e in (omega arith, same)

  -- What a call promises when it gives the child a table: a descriptor has what it had before, and
  -- what the pairs give it where it had nothing.
  abbrev Gives : FdTable F → FdTable F → List FdMap → Result (FdTable F) → Type 0
  Gives t child maps (err e) = Unit
  Gives t child maps (ok child') =
      (length child' ≡ length child)
      × ((fd : ℕ)
          → get child' fd ≡ (if is_some (slot_of child fd) then get child fd else given t maps fd))

  Gives-step :
      (t child : FdTable F) (m : FdMap) (maps : List FdMap) (file : F)
      → slot_of t m.parent ≡ some file
      → slot_of child m.child ≡ none
      → m.child < length child
      → (r : Result (FdTable F)) → Gives t (set child m.child (some file)) maps r
      → Gives t child (m ∷ maps) r
  unfolding get
  Gives-step t child m maps file e free lt (err _) h = record {}
  Gives-step t child m maps file e free lt (ok child') (len, h) = (
    len ∙ length-set child m.child (some file),
    λ fd. ground (arith, h fd, slot_of-set child m.child fd (some file) lt, e, free),
  )

  give_each-Gives :
      (t child : FdTable F) (maps : List FdMap) → Gives t child maps (give_each t child maps)
  unfolding give_each get
  give_each-Gives t child [] = (refl, λ fd. ground arith)
  give_each-Gives t child (m ∷ maps) = elim (Option-cases (slot_of t m.parent)) [
    | inl closed ↦ rw (closed, give_each) (record {})
    | inr (file, e) ↦
        rw (e, give_each)
          (elim (Option-cases (get_elem? child m.child)) [
            | inl outside ↦ rw (outside, give_each) (record {})
            | inr (some held, at) ↦ rw (at, give_each) (record {})
            | inr (none, at) ↦
                let (lt, free) = slot_of-elem child m.child none at in
                rw (at, give_each)
                  (Gives-step t child m maps file e free lt
                    (give_each t (set child m.child (some file)) maps)
                    (give_each-Gives t (set child m.child (some file)) maps))
          ])
  ]

  abbrev pub is_ok : Result (FdTable F) → Bool
  is_ok (ok _) = true
  is_ok (err _) = false

  -- Pairs that a table can be made of: parents that are open, children in range that are free and
  -- named once.
  abbrev pub fits : FdTable F → FdTable F → List FdMap → Bool
  fits t child [] = true
  fits t child (m ∷ maps) =
      is_some (slot_of t m.parent)
      && ((ltb m.child (length child) && is_none (slot_of child m.child))
          && (not (any (λ m'. m'.child == m.child) maps) && fits t child maps))

  fits-set :
      (t child : FdTable F) (c : ℕ) (file : F) (maps : List FdMap)
      → c < length child
      → fits t (set child c (some file)) maps
        ≡ not (any (λ m'. m'.child == c) maps) && fits t child maps
  fits-set t child c file [] lt = refl
  fits-set t child c file (m ∷ maps) lt = ground (
    arith,
    slot_of-set child c m.child (some file) lt,
    length-set child c (some file),
    fits-set t child c file maps lt,
  )

  slot_of-past : (t : FdTable F) (fd : ℕ) → get_elem? t fd ≡ none → length t ≤ fd
  slot_of-past [] fd e = omega arith
  slot_of-past (s ∷ t) zero e = absurd (ground (arith, e))
  slot_of-past (s ∷ t) (suc fd) e = omega (arith, slot_of-past t fd e)

  give_each-fits :
      (t child : FdTable F) (maps : List FdMap) → is_ok (give_each t child maps) ≡ fits t child maps
  unfolding give_each get
  give_each-fits t child [] = refl
  give_each-fits t child (m ∷ maps) = elim (Option-cases (slot_of t m.parent)) [
    | inl closed ↦ rw (closed, give_each) refl
    | inr (file, e) ↦
        rw (e, give_each)
          (elim (Option-cases (get_elem? child m.child)) [
            | inl outside ↦
                rw (outside, give_each) (ground (arith, slot_of-past child m.child outside))
            | inr (some held, at) ↦
                rw (at, give_each) (ground (arith, slot_of-elem child m.child (some held) at))
            | inr (none, at) ↦
                let (lt, free) = slot_of-elem child m.child none at in
                rw (at, give_each)
                  (ground (
                    arith,
                    free,
                    lt,
                    fits-set t child m.child file maps lt,
                    give_each-fits t (set child m.child (some file)) maps,
                  ))
          ])
  ]

  slot_of-replicate : (n fd : ℕ) → slot_of {F = F} (replicate n none) fd ≡ none
  slot_of-replicate zero fd = refl
  slot_of-replicate (suc n) zero = refl
  slot_of-replicate (suc n) (suc fd) = slot_of-replicate n fd

  -- The pair that cannot be given, which is the first such: `EBADF` if its parent descriptor is not open
  -- or its child descriptor out of range, `EINVAL` if both are right and the child has a file already or
  -- is named by a pair before.
  abbrev pub Clash : FdTable F → FdTable F → List FdMap → FdMap → Errno → Type 0
  Clash t child before m e =
      ((e ≡ ebadf) × ((slot_of t m.parent ≡ none) ⊎ (length child ≤ m.child)))
      ⊎ ((e ≡ einval)
          × (is_some (slot_of t m.parent) ≡ true)
          × (m.child < length child)
          × ((is_some (slot_of child m.child) || any (λ m'. m'.child == m.child) before) ≡ true))

  abbrev pub FirstClash : FdTable F → FdTable F → List FdMap → Result (FdTable F) → Type 0
  FirstClash t child maps (ok child') = Unit
  FirstClash t child maps (err e) =
      (before : List FdMap) × (m : FdMap) × (after : List FdMap) × (maps ≡ before ++ m ∷ after)
      × (fits t child before ≡ true)
      × Clash t child before m e

  Clash-set :
      (t child : FdTable F) (c : ℕ) (file : F) (m0 : FdMap) (before : List FdMap) (m : FdMap)
      (e : Errno)
      → m0.child ≡ c
      → c < length child
      → Clash t (set child c (some file)) before m e
      → Clash t child (m0 ∷ before) m e
  Clash-set t child c file m0 before m e is lt (inl (bad, inl closed)) = inl (bad, inl closed)
  Clash-set t child c file m0 before m e is lt (inl (bad, inr out)) =
      inl (bad, inr (omega (arith, out, length-set child c (some file))))
  Clash-set t child c file m0 before m e is lt (inr (bad, opened, inside, held)) = inr (
    bad,
    opened,
    omega (arith, inside, length-set child c (some file)),
    ground (arith, held, is, slot_of-set child c m.child (some file) lt),
  )

  FirstClash-step :
      (t child : FdTable F) (m0 : FdMap) (maps : List FdMap) (file : F)
      → slot_of t m0.parent ≡ some file
      → slot_of child m0.child ≡ none
      → m0.child < length child
      → (r : Result (FdTable F)) → FirstClash t (set child m0.child (some file)) maps r
      → FirstClash t child (m0 ∷ maps) r
  FirstClash-step t child m0 maps file opened free lt (ok _) h = record {}
  FirstClash-step t child m0 maps file opened free lt (err e) (before, m, after, is, fit, clash) = (
    m0 ∷ before,
    m,
    after,
    ap (λ l. m0 ∷ l) is,
    ground (arith, opened, free, lt, fit, fits-set t child m0.child file before lt),
    Clash-set t child m0.child file m0 before m e refl lt clash,
  )

  give_each-FirstClash :
      (t child : FdTable F) (maps : List FdMap) → FirstClash t child maps (give_each t child maps)
  unfolding give_each get
  give_each-FirstClash t child [] = record {}
  give_each-FirstClash t child (m ∷ maps) = elim (Option-cases (slot_of t m.parent)) [
    | inl closed ↦ rw (closed, give_each) ([], m, maps, refl, refl, inl (refl, inl closed))
    | inr (file, e) ↦
        let opened : is_some (slot_of t m.parent) ≡ true = ap is_some e in
        rw (e, give_each)
          (elim (Option-cases (get_elem? child m.child)) [
            | inl outside ↦
                rw (outside, give_each)
                  ([], m, maps, refl, refl, inl (refl, inr (slot_of-past child m.child outside)))
            | inr (some held, at) ↦
                let (lt, there) = slot_of-elem child m.child (some held) at in
                let full : (is_some (slot_of child m.child) || false) ≡ true =
                  ground (arith, there) in
                rw (at, give_each) ([], m, maps, refl, refl, inr (refl, opened, lt, full))
            | inr (none, at) ↦
                let (lt, free) = slot_of-elem child m.child none at in
                rw (at, give_each)
                  (FirstClash-step t child m maps file e free lt
                    (give_each t (set child m.child (some file)) maps)
                    (give_each-FirstClash t (set child m.child (some file)) maps))
          ])
  ]

  -- What `for_child` promises of its result.
  abbrev pub ChildSpec : FdTable F → List FdMap → Result (FdTable F) → Type 0
  ChildSpec t maps (err e) =
      ((8 < length maps) × (e ≡ einval))
      ⊎ ((length maps ≤ 8) × FirstClash t (replicate fds none) maps (err e))
  ChildSpec t maps (ok child) =
      (length child ≡ fds)
      × ((fd : ℕ) → get child fd ≡ given t maps fd)
      × (length maps ≤ 8)
      × (fits t (replicate fds none) maps ≡ true)

  ChildSpec-few :
      (t : FdTable F) (maps : List FdMap)
      → length maps ≤ 8
      → (r : Result (FdTable F)) → is_ok r ≡ fits t (replicate fds none) maps
      → Gives t (replicate fds none) maps r
      → FirstClash t (replicate fds none) maps r
      → ChildSpec t maps r
  unfolding get
  ChildSpec-few t maps few (err e) ends gives clash = inr (few, clash)
  ChildSpec-few t maps few (ok child) ends (len, gives) clash = (
    len ∙ length-replicate {A = Option F} fds none,
    λ fd. ground (arith, gives fd, slot_of-replicate fds fd),
    few,
    sym ends,
  )

  -- `for_child` gives each child descriptor the file of the parent descriptor that a pair names for
  -- it and leaves every other one closed, if there are at most 8 pairs, every parent descriptor is
  -- open, and the child descriptors are below 32 and differ. With more than 8 pairs it is `EINVAL`;
  -- otherwise the first pair that cannot be given decides: `EBADF` if its parent descriptor is not
  -- open or its child descriptor not below 32, and otherwise `EINVAL`, its child descriptor being
  -- named by a pair before it.
  pub for_child_lem : (t : FdTable F) (maps : List FdMap) → ChildSpec t maps (for_child t maps)
  unfolding for_child new
  for_child_lem t maps =
      let table : FdTable F = replicate fds none in
      elim (Bool-cases (ltb spawn_fds (length maps))) [
        | inl many ↦ rw (many, for_child) (inl (ground (arith, many), refl))
        | inr few ↦
            rw (few, for_child)
              (ChildSpec-few t maps (ground (arith, few)) (give_each t table maps)
                (give_each-fits t table maps) (give_each-Gives t table maps)
                (give_each-FirstClash t table maps))
      ]
