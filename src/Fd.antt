-- ===== src/Fd.antt =====
-- kernel/src/fd.rs: the file descriptors of a process, 32 slots. A file is a parameter: slots share
-- files, so that a slot holds what stands for the file. `follow`, which marks
-- files of the VFS, is not modelled.
mod Slots
mod Child
mod Tests
use relay_os.Prelude.{
  ℕ, ◌+◌, Bool, true, false, not, Option, none, some, List, [], ◌∷◌, ◌==◌, ltb, if◌then◌else◌,
  ◌>>=◌, is_none, is_some, length, get_elem?, get_or, set, replicate, filter, position,
}
use relay_os.Errno.{Errno, emfile, ebadf, einval, Result, ok, err}

abbrev pub fds : ℕ
fds = 32

-- The most pairs that `spawn` takes (`SPAWN_FDS` of crates/relay-abi/src/spawn.rs).
abbrev pub spawn_fds : ℕ
spawn_fds = 8

pub record FdMap : Type 0 where
  pub child : ℕ
  pub parent : ℕ

abbrev pub FdTable : Type 0 → Type 0
FdTable F = List (Option F)

module _ {F : Type 0} where
  unfoldable pub new : FdTable F
  new = replicate fds none

  -- `console` is the file for the three slots.
  unfoldable pub console_table : F → FdTable F
  unfolding new
  console_table console = set (set (set new 0 (some console)) 1 (some console)) 2 (some console)

  -- `none`: `fd` is not below 32, and the source panics.
  unfoldable pub set_fd : FdTable F → ℕ → F → Option (FdTable F)
  set_fd t fd file = if ltb fd (length t) then some (set t fd (some file)) else none

  unfoldable pub insert : FdTable F → F → Result ℕ × FdTable F
  insert t file = elim (position is_none t) [
    | none ↦ (err emfile, t)
    | some fd ↦ (ok fd, set t fd (some file))
  ]

  -- The slot's file, `none` for a slot that is empty or out of range.
  abbrev pub slot_of : FdTable F → ℕ → Option F
  slot_of t fd = elim (get_elem? t fd) [ none ↦ none | some slot ↦ slot ]

  unfoldable pub remove : FdTable F → ℕ → Result F × FdTable F
  remove t fd = elim (slot_of t fd) [ none ↦ (err ebadf, t) | some file ↦ (ok file, set t fd none) ]

  unfoldable pub get : FdTable F → ℕ → Result F
  get t fd = elim (slot_of t fd) [ none ↦ err ebadf | some file ↦ ok file ]

  -- The loop over `maps`.
  unfoldable pub give_each : FdTable F → FdTable F → List FdMap → Result (FdTable F)
  unfolding get
  give_each t child [] = ok child
  give_each t child (m ∷ maps) = elim (get t m.parent) [
    | err e ↦ err e
    | ok file ↦ elim (get_elem? child m.child) [
      | none ↦ err ebadf
      | some (some held) ↦ err einval
      | some none ↦ give_each t (set child m.child (some file)) maps
    ]
  ]

  unfoldable pub for_child : FdTable F → List FdMap → Result (FdTable F)
  unfolding new give_each
  for_child t maps = if ltb spawn_fds (length maps) then err einval else give_each t new maps

  unfoldable pub open_fds : FdTable F → ℕ
  open_fds t = length (filter is_some t)

  -- `self.slots.iter().flatten()`
  abbrev pub files : FdTable F → List F
  files [] = []
  files (none ∷ slots) = files slots
  files (some file ∷ slots) = file ∷ files slots
