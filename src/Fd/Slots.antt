-- ===== src/Fd/Slots.antt =====
-- kernel/src/fd.rs: what `insert` and `remove` do to every descriptor.
use relay_os.Prelude.{
  ℕ, zero, suc, ◌<◌, ◌≡◌, refl, ap, subst, inl, inr, arith, Bool, true, false, Option, none, some,
  [], ◌∷◌, ◌==◌, if◌then◌else◌, is_none, is_some, length, set, position, length-set, Option-cases,
}
use relay_os.Errno.{emfile, ebadf, Result, ok, err}
use relay_os.Fd.{FdTable, slot_of, insert, remove, get, open_fds}

module _ {F : Type 0} where
  pub slot_of-set :
      (t : FdTable F) (fd i : ℕ) (slot : Option F)
      → fd < length t
      → slot_of (set t fd slot) i ≡ (if i == fd then slot else slot_of t i)
  slot_of-set [] fd i slot lt = absurd (omega arith)
  slot_of-set (s ∷ t) zero zero slot lt = ground arith
  slot_of-set (s ∷ t) zero (suc i) slot lt = ground arith
  slot_of-set (s ∷ t) (suc fd) zero slot lt = ground arith
  slot_of-set (s ∷ t) (suc fd) (suc i) slot lt =
      ground (arith, slot_of-set t fd i slot (omega arith))

  -- Every descriptor below `n` is open.
  abbrev pub open_below : FdTable F → ℕ → Bool
  open_below t zero = true
  open_below [] (suc n) = false
  open_below (s ∷ t) (suc n) = if is_some s then open_below t n else false

  position-lowest :
      (t : FdTable F) (fd : ℕ)
      → position is_none t ≡ some fd
      → (fd < length t) × (slot_of t fd ≡ none) × (open_below t fd ≡ true)
  position-lowest [] fd e = absurd (ground (arith, e))
  position-lowest (none ∷ t) fd e =
      let here : 0 ≡ fd = ground (arith, e) in
      subst
        (λ i.
          (i < suc (length t)) × (slot_of (none ∷ t) i ≡ none) × (open_below (none ∷ t) i ≡ true))
        here (omega arith, refl, refl)
  position-lowest (some file ∷ t) fd e = elim (Option-cases (position is_none t)) [
    | inl nothing ↦ absurd (ground (arith, e, nothing))
    | inr (i, at) ↦
        let next : suc i ≡ fd = ground (arith, e, at) in
        let (lt, free, below) = position-lowest t i at in
        subst
          (λ j.
            (j < suc (length t))
            × (slot_of (some file ∷ t) j ≡ none)
            × (open_below (some file ∷ t) j ≡ true))
          next (omega arith, free, below)
  ]

  position-full : (t : FdTable F) → position is_none t ≡ none → open_below t (length t) ≡ true
  position-full [] e = refl
  position-full (none ∷ t) e = absurd (ground (arith, e))
  position-full (some file ∷ t) e = elim (Option-cases (position is_none t)) [
    | inl nothing ↦ position-full t nothing
    | inr (i, at) ↦ absurd (ground (arith, e, at))
  ]

  open_fds-set :
      (t : FdTable F) (fd : ℕ) (file : F)
      → fd < length t
      → slot_of t fd ≡ none
      → open_fds (set t fd (some file)) ≡ suc (open_fds t)
  unfolding open_fds
  open_fds-set [] fd file lt e = absurd (omega arith)
  open_fds-set (none ∷ t) zero file lt e = refl
  open_fds-set (some old ∷ t) zero file lt e = absurd (ground (arith, e))
  open_fds-set (none ∷ t) (suc fd) file lt e = open_fds-set t fd file (omega arith) e
  open_fds-set (some old ∷ t) (suc fd) file lt e = ap suc (open_fds-set t fd file (omega arith) e)

  open_fds-clear :
      (t : FdTable F) (fd : ℕ) (file : F)
      → slot_of t fd ≡ some file
      → (fd < length t) × (suc (open_fds (set t fd none)) ≡ open_fds t)
  unfolding open_fds
  open_fds-clear [] fd file e = absurd (ground (arith, e))
  open_fds-clear (none ∷ t) zero file e = absurd (ground (arith, e))
  open_fds-clear (some old ∷ t) zero file e = (omega arith, refl)
  open_fds-clear (none ∷ t) (suc fd) file e =
      let (lt, same) = open_fds-clear t fd file e in (omega arith, same)
  open_fds-clear (some old ∷ t) (suc fd) file e =
      let (lt, same) = open_fds-clear t fd file e in (omega arith, ap suc same)

  -- What `insert` promises of its result.
  abbrev pub Inserted : FdTable F → F → Result ℕ × FdTable F → Type 0
  Inserted t file (err e, t') = (e ≡ emfile) × (t' ≡ t) × (open_below t (length t) ≡ true)
  Inserted t file (ok fd, t') =
      (get t fd ≡ err ebadf)
      × (open_below t fd ≡ true)
      × (length t' ≡ length t)
      × (open_fds t' ≡ suc (open_fds t))
      × ((i : ℕ) → get t' i ≡ (if i == fd then ok file else get t i))

  -- `insert` opens the file at the lowest descriptor that is free and changes no other; when all are
  -- in use it is `EMFILE` and changes nothing.
  pub insert_lowest : (t : FdTable F) (file : F) → Inserted t file (insert t file)
  unfolding insert get
  insert_lowest t file = elim (Option-cases (position is_none t)) [
    | inl full ↦ rw (full, insert) (refl, refl, position-full t full)
    | inr (fd, e) ↦
        let (lt, free, below) = position-lowest t fd e in
        rw (e, insert)
          (
            rw (free, get) refl,
            below,
            length-set t fd (some file),
            open_fds-set t fd file lt free,
            λ i. ground (arith, slot_of-set t fd i (some file) lt),
          )
  ]

  -- What `remove` promises of its result.
  abbrev pub Removed : FdTable F → ℕ → Result F × FdTable F → Type 0
  Removed t fd (err e, t') = (e ≡ ebadf) × (t' ≡ t) × (get t fd ≡ err ebadf)
  Removed t fd (ok file, t') =
      (get t fd ≡ ok file)
      × (length t' ≡ length t)
      × (suc (open_fds t') ≡ open_fds t)
      × ((i : ℕ) → get t' i ≡ (if i == fd then err ebadf else get t i))

  -- `remove` returns the file of an open descriptor, closes that one and no other; `EBADF` and no
  -- change if it is not open.
  pub remove_closes : (t : FdTable F) (fd : ℕ) → Removed t fd (remove t fd)
  unfolding remove get
  remove_closes t fd = elim (Option-cases (slot_of t fd)) [
    | inl closed ↦ rw (closed, remove) (refl, refl, rw (closed, get) refl)
    | inr (file, e) ↦
        let (lt, fewer) = open_fds-clear t fd file e in
        rw (e, remove)
          (
            rw (e, get) refl,
            length-set t fd none,
            fewer,
            λ i. ground (arith, slot_of-set t fd i none lt),
          )
  ]
