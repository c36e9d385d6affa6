-- ===== src/Proc/Table/Exit.antt =====
-- What `end` makes of the process that ends, of its children, and of who waits for it.
use mathlib.Core.Option
use relay_os.Prelude.{ℕ, Bool, ◌&&◌, Option, ◌==◌, if◌then◌else◌, any}
use relay_os.Proc.Process.{Process, WaitStatus, ready, zombie, is_zombie, is_waiting}
use relay_os.Proc.Table.{Table, update, in_state, orphan}

module _ {ℓ} {R : Type ℓ} where
  -- A process that waits for a child, told that one has ended.
  abbrev pub told : Process R → Process R
  told p = if is_waiting p.state then in_state ready p else p

  -- The ended process and its children, before anyone is told.
  abbrev pub parted : ℕ → WaitStatus → ℕ → Option (Process R) → Option (Process R)
  parted pid status a o =
      Option.map (orphan pid) (if pid == a then Option.map (in_state (zombie status)) o else o)

  -- Whether one of the children that pass to process 1 has ended already.
  abbrev pub leaves_zombie : Table R → ℕ → WaitStatus → Bool
  leaves_zombie t pid status =
      any (λ c. c.ppid == pid && is_zombie c.state) (update pid (in_state (zombie status)) t.procs)
