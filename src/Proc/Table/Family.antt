-- ===== src/Proc/Table/Family.antt =====
-- Parents and children: what `insert`, `end` and `reap` do to the table.
use relay_os.Prelude.{
  ℕ, ◌≤◌, ◌≡◌, ◌≢◌, refl, Bool, true, false, ◌&&◌, Option, none, some, List, [], ◌∷◌, ◌++◌, arith,
  ◌==◌, if◌then◌else◌, find, Bool-cases, inl, inr, any, ◌⊎◌, ◌<◌, ◌+◌, ◌-◌, ◌^◌, length, ltb,
}
use relay_os.Errno.{eperm, eagain, echild, Result, ok, err}
use relay_os.Proc.Queue.{contents}
use relay_os.Proc.Queue.Order.{pushed, push-eq-some, contents-pushed}
use relay_os.Proc.Process.{Process, ready, is_zombie}
use relay_os.Proc.Table.{
  Table, Group, parent, new_group, join, group_of, may_join, Want, get, has_pid, has_room, refused,
  insert, new_process, entered, is_mine,
}
use relay_os.Proc.Table.Agree.{Agree-insert}
use relay_os.Proc.Table.Tally.{tally, find_zero}
use relay_os.Proc.Table.Valid.{IsValid}
use relay_os.Proc.Table.Starts.{has_room-length, has_room-next}

module _ {ℓ} {R : Type ℓ} where
  find-append :
      (f : Process R → Bool) (ps : List (Process R)) (p : Process R)
      → find f (ps ++ p ∷ [])
        ≡ (elim (find f ps) [ some q ↦ some q | none ↦ if f p then some p else none ])
  find-append f [] p = refl
  find-append f (q ∷ ps) p = ground (arith, find-append f ps p)

  -- What `reap` returns and leaves.
  abbrev pub Reaped : Table R → ℕ → Want → Result (Option (Process R)) × Table R → Type ℓ
  Reaped t ppid want (err e, t') =
      (e ≡ echild) × (t' ≡ t) × (any (is_mine ppid want) t.procs ≡ false)
  Reaped t ppid want (ok none, t') =
      (t' ≡ t)
      × (any (is_mine ppid want) t.procs ≡ true)
      × (any (λ p. is_mine ppid want p && is_zombie p.state) t.procs ≡ false)
  Reaped t ppid want (ok (some p), t') =
      (is_mine ppid want p ≡ true)
      × (is_zombie p.state ≡ true)
      × (get t p.pid ≡ some p)
      × ((a : ℕ) → get t' a ≡ (if p.pid == a then none else get t a))

  fresh : (t : Table R) → IsValid t → t.next_pid ≢ 0 → tally (has_pid t.next_pid) t.procs ≡ 0
  fresh t v left = ground (arith, v.pids t.next_pid)

  -- The group of a new process: the one it joins, which must be that of a child of its parent, ended
  -- or not; its parent's; or a new one, also when it has no parent.
  abbrev pub IsGroup : Table R → ℕ → Group → ℕ → Type 0
  IsGroup t ppid (join g) n = (n ≡ g) × (any (λ p. p.ppid == ppid && p.pgid == g) t.procs ≡ true)
  IsGroup t ppid parent n = n ≡ (elim (get t ppid) [ none ↦ t.next_pid | some p ↦ p.pgid ])
  IsGroup t ppid new_group n = n ≡ t.next_pid

  -- A group that no child of the parent is in.
  abbrev pub IsForeign : Table R → ℕ → Group → Type 0
  IsForeign t ppid (join g) = any (λ p. p.ppid == ppid && p.pgid == g) t.procs ≡ false
  IsForeign t ppid _ = ⊥

  pub record IsNew (t : Table R) (ppid : ℕ) (group : Group) (name : List ℕ) (res : R)
      (p : Process R) : Type ℓ where
    pub pid_is : p.pid ≡ t.next_pid
    pub ppid_is : p.ppid ≡ ppid
    pub pgid_is : IsGroup t ppid group p.pgid
    pub name_is : p.name ≡ name
    pub state_is : p.state ≡ ready
    pub killed_is : p.killed ≡ none
    pub ticks_is : p.ticks ≡ 0
    pub res_is : p.res ≡ res

  -- An entry and a pid are left.
  abbrev pub IsRoomy : Table R → Type 0
  IsRoomy t = (length t.procs < 64) × (t.next_pid ≢ 0)

  -- What `insert` returns and leaves.
  abbrev pub Inserted : Table R → ℕ → Group → List ℕ → R → Result ℕ × Table R → Type ℓ
  Inserted t ppid group name res (err e, t') =
      (t' ≡ t)
      × (((e ≡ eagain) × ((64 ≤ length t.procs) ⊎ (t.next_pid ≡ 0)))
          ⊎ ((e ≡ eperm) × IsRoomy t × IsForeign t ppid group))
  Inserted t ppid group name res (ok pid, t') =
      IsRoomy t
      × (pid ≡ t.next_pid)
      × (get t pid ≡ none)
      × ((p : Process R) × IsNew t ppid group name res p
          × ((a : ℕ) → get t' a ≡ (if pid == a then some p else get t a)))
      × (contents t'.queue ≡ contents t.queue ++ pid ∷ [])
      × (t'.next_pid ≡ (if t.next_pid == 2 ^ 32 - 1 then 0 else t.next_pid + 1))
      × (t'.current ≡ t.current)
      × (t'.slice_left ≡ t.slice_left)
      × (t'.console ≡ t.console)

  roomy : (t : Table R) → has_room t ≡ true → IsRoomy t
  roomy t room = (has_room-length t room, has_room-next t room)

  -- Of `refused`: why, and otherwise the new process's group.
  refused-IsForeign :
      (t : Table R) (ppid : ℕ) (group : Group)
      → refused t ppid group ≡ true
      → IsForeign t ppid group
  unfolding may_join
  refused-IsForeign t ppid parent e = absurd (ground (arith, e))
  refused-IsForeign t ppid new_group e = absurd (ground (arith, e))
  refused-IsForeign t ppid (join g) e = ground (arith, e)

  group_of-IsGroup :
      (t : Table R) (ppid : ℕ) (group : Group)
      → refused t ppid group ≡ false
      → IsGroup t ppid group (group_of group (get t ppid) t.next_pid)
  unfolding may_join
  group_of-IsGroup t ppid parent e = own (get t ppid)
    where
      own :
          (o : Option (Process R))
          → group_of parent o t.next_pid ≡ (elim o [ none ↦ t.next_pid | some p ↦ p.pgid ])
      own none = refl
      own (some p) = refl
  group_of-IsGroup t ppid new_group e = refl
  group_of-IsGroup t ppid (join g) e = (refl, ground (arith, e))

  no_room : (t : Table R) → has_room t ≡ false → (64 ≤ length t.procs) ⊎ (t.next_pid ≡ 0)
  unfolding has_room
  no_room t e = elim (Bool-cases (ltb (length t.procs) 64)) [
    | inl few ↦ inr (ground (arith, e, few))
    | inr many ↦ inl (ground (arith, many))
  ]

  -- In a valid table `insert` does not panic, and on every branch: `err eagain` if 64 processes exist or no pid is left,
  -- otherwise `err eperm` for joining a group that no child of the parent is in, and the table stays;
  -- otherwise a pid that no process has. Its process is ready, unkilled, with the parent, name and
  -- resources that were given, and in the group that it joins, its parent's, or one numbered with its
  -- pid (for a new group, or with no parent); it is the last of the run queue. The next pid is one
  -- more (0 after the last), and every other process, whose turn it is and the console stay.
  pub insert_lem :
      (t : Table R) (ppid : ℕ) (group : Group) (name : List ℕ) (res : R)
      → IsValid t
      → (r : Result ℕ × Table R) × (insert t ppid group name res ≡ some r)
        × Inserted t ppid group name res r
  unfolding insert get
  insert_lem t ppid group name res v = elim (Bool-cases (has_room t)) [
    | inl room ↦ elim (Bool-cases (refused t ppid group)) [
      | inl no_group ↦ (
        (err eperm, t),
        rw (room, no_group),
        (refl, inr (refl, roomy t room, refused-IsForeign t ppid group no_group)),
      )
      | inr allowed ↦
          let p = new_process t ppid group name res in
          let left = has_room-next t room in
          let (lt, _) =
            Agree-insert t.procs t.queue v.agree p refl (fresh t v left) (has_room-length t room) in
          let q = pushed t.queue t.next_pid in
          (
            (ok t.next_pid, entered t p q),
            rw (room, allowed, push-eq-some t.queue t.next_pid lt),
            (
              roomy t room,
              refl,
              find_zero (has_pid t.next_pid) t.procs (fresh t v left),
              (
                p,
                record {
                  pid_is = refl;
                  ppid_is = refl;
                  pgid_is = group_of-IsGroup t ppid group allowed;
                  name_is = refl;
                  state_is = refl;
                  killed_is = refl;
                  ticks_is = refl;
                  res_is = refl;
                },
                λ a. ground (
                  arith,
                  find-append (has_pid a) t.procs p,
                  find_zero (has_pid t.next_pid) t.procs (fresh t v left),
                ),
              ),
              contents-pushed t.queue t.next_pid v.agree.valid lt,
              refl,
              refl,
              refl,
              refl,
            ),
          )
    ]
    | inr full ↦ ((err eagain, t), rw full, (refl, inl (refl, no_room t full)))
  ]
