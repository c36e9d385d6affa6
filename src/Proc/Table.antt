-- ===== src/Proc/Table.antt =====
-- `Table` of kernel/src/proc/table.rs: who exists, who waits for what, and whose turn is next.
-- A call that would panic (an overfull run queue, more wakeups than the array of them holds, an index
-- out of the console's array, a count of ticks past 64 bits) returns `none`.
pub mod Tally
pub mod Agree
pub mod Valid
pub mod Keeps
pub mod Ends
pub mod Starts
pub mod Lookup
pub mod Reach
pub mod Kill
pub mod Clock
pub mod Turns
pub mod Family
pub mod Exit
use relay_os.Prelude.{
  ℕ, zero, suc, ◌+◌, ◌-◌, ◌^◌, Bool, true, false, ◌&&◌, not, Option, none, some, List, [], ◌∷◌,
  ◌++◌, map, ltb, leb, ◌==◌, if◌then◌else◌, ◌>>=◌, is_none, is_some, length, any, find, filter,
  position, remove_at, get_elem?,
}
use relay_os.Prelude.Int.{ℤ, pos, negsuc}
use relay_os.Errno.{Errno, eperm, eagain, esrch, echild, Result, ok, err}
use relay_os.Proc.Queue
use relay_os.Proc.Queue.{Queue, max_procs}
use relay_os.Proc.Holders
use relay_os.Proc.Holders.{Holders, init_pid}
use relay_os.Proc.Process.{
  WaitStatus, Blocked, wait_ctrl_c, State, ready, running, blocked, zombie, is_ready, is_running,
  is_blocked, is_zombie, is_waiting, is_blocked_on, is_due, Process,
}

-- The group that a new process goes into.
pub data Group : Type 0 where
  parent new_group : Group
  join : ℕ → Group

-- Which child `wait` waits for.
pub data Want : Type 0 where
  any_child : Want
  child : ℕ → Want

-- Timer ticks in a time slice.
abbrev pub slice : ℕ
slice = 10

abbrev pub pid_max : ℕ
pid_max = 2 ^ 32 - 1

pub record Table {ℓ} (R : Type ℓ) : Type ℓ where
  pub procs : List (Process R)
  pub next_pid : ℕ
  pub queue : Queue
  pub current : ℕ
  pub slice_left : ℕ
  pub console : Holders

abbrev pub has_pid {ℓ} : {R : Type ℓ} → ℕ → Process R → Bool
has_pid pid p = p.pid == pid

-- A write through `get_mut`: to the first process with this pid, if there is one.
abbrev pub update {ℓ} :
    {R : Type ℓ} → ℕ → (Process R → Process R) → List (Process R) → List (Process R)
update pid f [] = []
update pid f (p ∷ ps) = let rest = update pid f ps in if p.pid == pid then f p ∷ ps else p ∷ rest

abbrev pub in_state {ℓ} : {R : Type ℓ} → State → Process R → Process R
in_state s p = record p { state = s }

-- The first reason to be killed stays.
abbrev pub first_reason : ℕ → Option ℕ → Option ℕ
first_reason reason none = some reason
first_reason reason (some r) = some r

module _ {ℓ} {R : Type ℓ} where
  unfoldable pub new : Table R
  new = record {
    procs = [];
    next_pid = 1;
    queue = Queue.new;
    current = 0;
    slice_left = slice;
    console = Holders.new;
  }

  unfoldable pub get : Table R → ℕ → Option (Process R)
  get t pid = find (has_pid pid) t.procs

  -- A group with a process that has not ended.
  unfoldable pub has_group : Table R → ℕ → Bool
  has_group t pgid = any (λ p. p.pgid == pgid && not (is_zombie p.state)) t.procs

  unfoldable pub may_change_console : Table R → ℕ → Option Bool
  may_change_console t pid = elim (get t pid) [
    | none ↦ some false
    | some p ↦ Holders.holds t.console p.pgid
  ]

  unfoldable pub give_console : Table R → ℕ → ℕ → Option (Result (Unit {0}) × Table R)
  give_console t pid to = elim (get t pid) [
    | none ↦ some (err eperm, t)
    | some p ↦ Holders.give t.console p.pgid to (λ g. any (λ q. q.pgid == g) t.procs) >>= λ r.
        some (r.0, record t { console = r.1 })
  ]

  unfoldable pub take_console : Table R → Table R
  take_console t = record t { console = Holders.reset t.console }

  unfoldable pub has_room : Table R → Bool
  has_room t = ltb (length t.procs) max_procs && not (t.next_pid == 0)

  unfoldable pub may_join : Table R → ℕ → ℕ → Bool
  may_join t ppid pgid = any (λ p. p.ppid == ppid && p.pgid == pgid) t.procs

  -- The group that `insert` refuses to join.
  abbrev pub refused : Table R → ℕ → Group → Bool
  refused t ppid (join g) = not (may_join t ppid g)
  refused t ppid _ = false

  abbrev pub group_of : Group → Option (Process R) → ℕ → ℕ
  group_of (join g) _ pid = g
  group_of parent (some p) pid = p.pgid
  group_of _ _ pid = pid

  abbrev pub new_process : Table R → ℕ → Group → List ℕ → R → Process R
  new_process t ppid group name res = record {
    pid = t.next_pid;
    ppid = ppid;
    pgid = group_of group (get t ppid) t.next_pid;
    name = name;
    state = ready;
    killed = none;
    ticks = 0;
    res = res;
  }

  -- `p` is in the table, and its pid used.
  abbrev pub entered : Table R → Process R → Queue → Table R
  entered t p q = record t {
    procs = t.procs ++ p ∷ [];
    next_pid = if t.next_pid == pid_max then 0 else t.next_pid + 1;
    queue = q;
  }

  unfoldable pub insert : Table R → ℕ → Group → List ℕ → R → Option (Result ℕ × Table R)
  insert t ppid group name res =
      if not (has_room t)
      then some (err eagain, t)
      else if refused t ppid group
      then some (err eperm, t)
      else (Queue.push t.queue t.next_pid >>= λ q.
          some (ok t.next_pid, entered t (new_process t ppid group name res) q))

  -- The first half of `schedule`: the running process stays ready.
  unfoldable pub yield_current : Table R → Option (Table R)
  yield_current t = elim (get t t.current) [
    | none ↦ some t
    | some p ↦
        (if is_running p.state
          then (Queue.push t.queue t.current >>= λ q.
              some (record t { procs = update t.current (in_state ready) t.procs; queue = q }))
          else some t)
  ]

  -- The second half: the next one runs, or the idle task (process 0).
  unfoldable pub run_next : Table R → Table R × ℕ
  run_next t = elim (Queue.pop t.queue) [
    | none ↦ (
      record t { procs = update 0 (in_state running) t.procs; current = 0; slice_left = slice },
      0,
    )
    | some (next, q) ↦ (
      record t {
        procs = update next (in_state running) t.procs;
        queue = q;
        current = next;
        slice_left = slice;
      },
      next,
    )
  ]

  unfoldable pub schedule : Table R → Option (Table R × ℕ)
  unfolding yield_current run_next
  schedule t = yield_current t >>= λ t'. some (run_next t')

  unfoldable pub block : Table R → Blocked → Table R
  block t why = record t { procs = update t.current (in_state (blocked why)) t.procs }

  unfoldable pub wake : Table R → ℕ → Option (Table R × Bool)
  wake t pid = elim (get t pid) [
    | none ↦ some (t, false)
    | some p ↦
        (if is_blocked p.state
          then (Queue.push t.queue pid >>= λ q.
              some (record t { procs = update pid (in_state ready) t.procs; queue = q }, true))
          else some (t, false))
  ]

  -- The loops `for pid in pids { self.wake(pid); }`.
  unfoldable pub wake_each : Table R → List ℕ → Option (Table R)
  wake_each t [] = some t
  wake_each t (pid ∷ pids) = wake t pid >>= λ (t', _). wake_each t' pids

  abbrev pub pids_of : (Process R → Bool) → Table R → List ℕ
  pids_of f t = map (λ p. p.pid) (filter f t.procs)

  unfoldable pub wake_all : Table R → Blocked → Option (Table R)
  wake_all t why = wake_each t (pids_of (λ p. is_blocked_on why p.state) t)

  unfoldable pub wake_waiting : Table R → ℕ → Option (Table R)
  wake_waiting t pgid =
      wake_each t (pids_of (λ p. p.pgid == pgid && is_blocked_on wait_ctrl_c p.state) t)

  -- The pids are gathered in an array of `MAX` first: one more panics.
  abbrev pub wake_gathered : Table R → List ℕ → Option (Table R)
  wake_gathered t pids = if leb (length pids) max_procs then wake_each t pids else none

  unfoldable pub wake_sleepers : Table R → ℕ → Option (Table R)
  wake_sleepers t now = wake_gathered t (pids_of (λ p. is_due now p.state) t)

  unfoldable pub others_ready : Table R → Bool
  others_ready t = ltb 0 t.queue.len

  -- The running process's count: it panics past 64 bits.
  unfoldable pub count_tick : Table R → Option (List (Process R))
  count_tick t = elim (get t t.current) [
    | none ↦ some t.procs
    | some p ↦
        if ltb (p.ticks + 1) (2 ^ 64)
        then some (update t.current (λ p. record p { ticks = p.ticks + 1 }) t.procs)
        else none
  ]

  unfoldable pub tick : Table R → Option (Table R × Bool)
  unfolding count_tick others_ready
  tick t = count_tick t >>= λ procs.
      let t' : Table R = record t { procs = procs; slice_left = t.slice_left - 1 } in
      if ltb 0 t'.slice_left
      then some (t', false)
      else some (record t' { slice_left = slice }, others_ready t')

  -- A process that waits for a child is woken.
  unfoldable pub notify : Table R → ℕ → Option (Table R)
  notify t pid = elim (get t pid) [
    | none ↦ some t
    | some p ↦ if is_waiting p.state then (wake t pid >>= λ (t', _). some t') else some t
  ]

  abbrev pub orphan : ℕ → Process R → Process R
  orphan pid c = if c.ppid == pid then record c { ppid = init_pid } else c

  -- `end`, once the process is known to exist: it is a zombie, and its children process 1's.
  unfoldable pub bury : Table R → ℕ → Process R → WaitStatus → Option (Table R)
  bury t pid p status =
      let procs = update pid (in_state (zombie status)) t.procs in
      (if is_ready p.state then Queue.remove t.queue pid else some t.queue) >>= λ q.
      some (record t { procs = map (orphan pid) procs; queue = q })

  unfoldable pub end : Table R → ℕ → WaitStatus → Option (Table R)
  unfolding bury notify
  end t pid status = elim (get t pid) [
    | none ↦ some t
    | some p ↦
        let orphaned_zombie =
          any (λ c. c.ppid == pid && is_zombie c.state)
            (update pid (in_state (zombie status)) t.procs) in
        bury t pid p status >>= λ t'.
        notify t' p.ppid >>= λ t''. if orphaned_zombie then notify t'' init_pid else some t''
  ]

  abbrev pub wanted : Want → Process R → Bool
  wanted any_child p = true
  wanted (child pid) p = p.pid == pid

  abbrev pub is_mine : ℕ → Want → Process R → Bool
  is_mine ppid want p = p.ppid == ppid && wanted want p

  unfoldable pub reap : Table R → ℕ → Want → Result (Option (Process R)) × Table R
  reap t ppid want =
      if not (any (is_mine ppid want) t.procs)
      then (err echild, t)
      else elim (position (λ p. is_mine ppid want p && is_zombie p.state) t.procs) [
        | none ↦ (ok none, t)
        | some i ↦ (ok (get_elem? t.procs i), record t { procs = remove_at i t.procs })
      ]

  -- What `kill` aims at: a pid, or the group of a negated number. -2^63 has no negation.
  abbrev pub is_hit : ℤ → Process R → Bool
  is_hit (pos zero) p = false
  is_hit (pos (suc n)) p = p.pid == suc n
  is_hit (negsuc n) p = ltb n (2 ^ 63 - 1) && n + 1 == p.pgid

  abbrev pub marked : (Process R → Bool) → ℕ → Process R → Process R
  marked hit reason p =
      if hit p && not (is_zombie p.state)
      then record p { killed = first_reason reason p.killed }
      else p

  unfoldable pub mark : Table R → (Process R → Bool) → ℕ → Option (Table R)
  mark t hit reason =
      wake_gathered (record t { procs = map (marked hit reason) t.procs })
        (pids_of (λ p. hit p && is_blocked p.state) t)

  unfoldable pub kill : Table R → ℤ → ℕ → Option (Result (Unit {0}) × Table R)
  unfolding mark
  kill t target reason =
      if not (any (is_hit target) t.procs)
      then some (err esrch, t)
      else if any (λ p. is_hit target p && p.pid == init_pid) t.procs
      then some (err eperm, t)
      else (mark t (is_hit target) reason >>= λ t'. some (ok tt, t'))

  unfoldable pub kill_all_but_init : Table R → ℕ → Option (Table R)
  unfolding mark
  kill_all_but_init t reason = mark t (λ p. not (p.pid == init_pid)) reason
