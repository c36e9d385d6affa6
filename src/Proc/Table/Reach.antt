-- ===== src/Proc/Table/Reach.antt =====
-- The process table under any sequence of calls: the kernel makes them one at a time, under its
-- lock, and `block` only for the process that runs.
use relay_os.Prelude.{ℕ, ◌+◌, ◌<◌, ◌^◌, ◌≡◌, false, Option, some, List, ◌>>=◌, ap, subst, refl}
use relay_os.Prelude.Int.{ℤ}
use relay_os.Proc.Process.{Process, WaitStatus, Blocked, is_ready}
use relay_os.Proc.Table.{
  Table, Group, Want, new, get, schedule, block, wake, wake_all, wake_waiting, wake_sleepers, tick,
  end, insert, reap, kill, kill_all_but_init, give_console, take_console,
}
use relay_os.Proc.Table.Clock.{ran-room}
use relay_os.Proc.Table.Valid.{IsValid, new-IsValid, wake-IsValid}
use relay_os.Proc.Table.Keeps.{Keeps, schedule-IsValid, block-IsValid, wake_each-IsValid}
use relay_os.Proc.Table.Ends.{
  tick-IsValid, wake_sleepers-IsValid, mark-IsValid, end-IsValid, kill-IsValid, reap-IsValid,
}
use relay_os.Proc.Table.Starts.{take_console-IsValid, give_console-IsValid, insert-IsValid}

-- The calls that change the table.
pub data Call {ℓ} (R : Type ℓ) : Type ℓ where
  insert_call : ℕ → Group → List ℕ → R → Call R
  schedule_call tick_call take_console_call : Call R
  block_call : Blocked → Call R
  wake_call : ℕ → Call R
  wake_all_call : Blocked → Call R
  wake_waiting_call : ℕ → Call R
  wake_sleepers_call : ℕ → Call R
  end_call : ℕ → WaitStatus → Call R
  reap_call : ℕ → Want → Call R
  kill_call : ℤ → ℕ → Call R
  kill_all_call : ℕ → Call R
  give_console_call : ℕ → ℕ → Call R

module _ {ℓ} {R : Type ℓ} where
  -- The table after a call; `none` where it panics.
  abbrev pub after : Table R → Call R → Option (Table R)
  after t (insert_call ppid group name res) = insert t ppid group name res >>= λ r. some r.1
  after t schedule_call = schedule t >>= λ r. some r.0
  after t tick_call = tick t >>= λ r. some r.0
  after t take_console_call = some (take_console t)
  after t (block_call why) = some (block t why)
  after t (wake_call pid) = wake t pid >>= λ r. some r.0
  after t (wake_all_call why) = wake_all t why
  after t (wake_waiting_call pgid) = wake_waiting t pgid
  after t (wake_sleepers_call now) = wake_sleepers t now
  after t (end_call pid status) = end t pid status
  after t (reap_call ppid want) = some (reap t ppid want).1
  after t (kill_call target reason) = kill t target reason >>= λ r. some r.1
  after t (kill_all_call reason) = kill_all_but_init t reason
  after t (give_console_call pid to) = give_console t pid to >>= λ r. some r.1

  -- The kernel blocks a process while it runs, never one that waits in the queue; and no process runs
  -- for 2 ^ 64 ticks.
  abbrev pub Allowed : Table R → Call R → Type ℓ
  Allowed t (block_call why) = (p : Process R) → get t t.current ≡ some p → is_ready p.state ≡ false
  Allowed t tick_call = (p : Process R) → get t t.current ≡ some p → p.ticks + 1 < 2 ^ 64
  Allowed t _ = Unit

  pub data Reach : Table R → Type ℓ where
    start : Reach new
    next : {t u : Table R} (c : Call R) → Reach t → Allowed t c → after t c ≡ some u → Reach u

  pub after-IsValid : (t : Table R) (c : Call R) → IsValid t → Allowed t c → Keeps (after t c)
  unfolding wake_all wake_waiting kill_all_but_init
  after-IsValid t (insert_call ppid group name res) v a =
      let (r, run, valid) = insert-IsValid t v ppid group name res in
      (r.1, ap (λ o. o >>= λ r. some r.1) run, valid)
  after-IsValid t schedule_call v a =
      let (r, run, valid) = schedule-IsValid t v in (r.0, ap (λ o. o >>= λ r. some r.0) run, valid)
  after-IsValid t tick_call v a =
      let (r, run, valid) = tick-IsValid t v (ran-room t a) in
      (r.0, ap (λ o. o >>= λ r. some r.0) run, valid)
  after-IsValid t take_console_call v a = (take_console t, refl, take_console-IsValid t v)
  after-IsValid t (block_call why) v a = (block t why, refl, block-IsValid t v why a)
  after-IsValid t (wake_call pid) v a =
      let (r, run, valid) = wake-IsValid t v pid in (r.0, ap (λ o. o >>= λ r. some r.0) run, valid)
  after-IsValid t (wake_all_call why) v a = wake_each-IsValid t _ v
  after-IsValid t (wake_waiting_call pgid) v a = wake_each-IsValid t _ v
  after-IsValid t (wake_sleepers_call now) v a = wake_sleepers-IsValid t v now
  after-IsValid t (end_call pid status) v a = end-IsValid t v pid status
  after-IsValid t (reap_call ppid want) v a =
      ((reap t ppid want).1, refl, reap-IsValid t v ppid want)
  after-IsValid t (kill_call target reason) v a =
      let (r, run, valid) = kill-IsValid t v target reason in
      (r.1, ap (λ o. o >>= λ r. some r.1) run, valid)
  after-IsValid t (kill_all_call reason) v a = mark-IsValid t v _ reason
  after-IsValid t (give_console_call pid to) v a =
      let (r, run, valid) = give_console-IsValid t v pid to in
      (r.1, ap (λ o. o >>= λ r. some r.1) run, valid)

  -- In every table that calls can reach from an empty one (where they block only a current process that
  -- is not in the run queue, and tick only while its count has room): the run queue holds exactly the
  -- ready processes, each once; pids are distinct, positive and below the next one; no process but the
  -- current one runs; and the console's chain is well formed.
  pub Reach-IsValid : {t : Table R} → Reach t → IsValid t
  Reach-IsValid start = new-IsValid
  Reach-IsValid (next {t} {u} c r a e) =
      let (u', run, valid) = after-IsValid t c (Reach-IsValid r) a in
      let same : u' ≡ u = cc (run, e) in subst IsValid same valid

  -- After any calls from the empty table, a call does not panic: not by an overfull run queue, nor by
  -- more wakeups than the array of them holds, an index out of the console's array, or a count of ticks
  -- past 64 bits. For calls (before, and this one) that block only a current process that is not in the
  -- run queue, as one that runs is not, and tick only while the current process's count is below
  -- 2 ^ 64 - 1.
  pub Reach-no_panic :
      {t : Table R} (c : Call R) → Reach t → Allowed t c → (u : Table R) × (after t c ≡ some u)
  Reach-no_panic {t} c r a = let (u, run, _) = after-IsValid t c (Reach-IsValid r) a in (u, run)
