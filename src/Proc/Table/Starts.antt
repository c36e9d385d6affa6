-- ===== src/Proc/Table/Starts.antt =====
-- `insert` and the calls about the console keep what `IsValid` says, and do not panic.
use relay_os.Prelude.{
  ℕ, ◌<◌, ◌≡◌, ◌≢◌, refl, true, false, some, List, [], ◌∷◌, arith, ◌==◌, length, Bool-cases,
  Option-cases, inl, inr, any,
}
use relay_os.Errno.{eperm, eagain, Result, ok, err}
use relay_os.Proc.Queue
use relay_os.Proc.Queue.{Queue, contents}
use relay_os.Proc.Queue.Order.{pushed, push-eq-some}
use relay_os.Proc.Holders
use relay_os.Proc.Holders.{init_pid}
use relay_os.Proc.Holders.Chain
use relay_os.Proc.Process.{Process, is_ready, is_running}
use relay_os.Proc.Table.{
  Table, Group, has_pid, get, insert, has_room, new_process, entered, give_console, take_console,
  refused,
}
use relay_os.Proc.Table.Agree.{Agree-insert}
use relay_os.Proc.Table.Tally.{tally, tally-append}
use relay_os.Proc.Table.Valid.{IsValid, runs, runs_as}

pub has_room-length {ℓ} : {R : Type ℓ} (t : Table R) → has_room t ≡ true → length t.procs < 64
unfolding has_room
has_room-length t h = ground arith

pub has_room-next {ℓ} : {R : Type ℓ} (t : Table R) → has_room t ≡ true → t.next_pid ≢ 0
unfolding has_room
has_room-next t h = ground arith

module _ {ℓ} {R : Type ℓ} (t : Table R) (v : IsValid t) where
  pub take_console-IsValid : IsValid (take_console t)
  unfolding take_console Holders.reset
  take_console-IsValid = record {
    agree = v.agree;
    next_in = v.next_in;
    pids = v.pids;
    one_runs = v.one_runs;
    console = record { size = v.console.size; len_pos = omega arith; len_in = omega arith };
  }

  pub give_console-IsValid :
      (pid to : ℕ)
      → (r : Result (Unit {0}) × Table R) × (give_console t pid to ≡ some r) × IsValid r.1
  unfolding give_console
  give_console-IsValid pid to = elim (Option-cases (get t pid)) [
    | inl absent ↦ ((err eperm, t), rw (absent, give_console), v)
    | inr (p, found) ↦
        let (r, run, _, valid) =
          Chain.give_refines t.console p.pgid to (λ g. any (λ q. q.pgid == g) t.procs) v.console in
        (
          (r.0, record t { console = r.1 }),
          rw (found, give_console) (rw run),
          record {
            agree = v.agree;
            next_in = v.next_in;
            pids = v.pids;
            one_runs = v.one_runs;
            console = valid;
          },
        )
  ]

  -- A process with a pid not given out yet.
  pub inserted-IsValid :
      (p : Process R)
      → p.pid ≡ t.next_pid
      → is_ready p.state ≡ true
      → is_running p.state ≡ false
      → length t.procs < 64
      → t.next_pid ≢ 0
      → (q : Queue) × (Queue.push t.queue t.next_pid ≡ some q) × IsValid (entered t p q)
  inserted-IsValid p numbered is_new idle room left =
      let fresh : tally (has_pid p.pid) t.procs ≡ 0 = ground (arith, v.pids p.pid) in
      let (lt, agree) = Agree-insert t.procs t.queue v.agree p is_new fresh room in
      (
        pushed t.queue p.pid,
        rw numbered (push-eq-some t.queue t.next_pid lt),
        record {
          agree = agree;
          next_in = ground (arith, v.next_in);
          pids = λ a pos. ground (
            arith,
            pos,
            v.next_in,
            numbered,
            v.pids a,
            tally-append (has_pid a) t.procs (p ∷ []),
          );
          one_runs = ground (
            arith,
            v.one_runs,
            idle,
            tally-append runs t.procs (p ∷ []),
            tally-append (runs_as t.current) t.procs (p ∷ []),
          );
          console = v.console;
        },
      )

  pub insert-IsValid :
      (ppid : ℕ) (group : Group) (name : List ℕ) (res : R)
      → (r : Result ℕ × Table R) × (insert t ppid group name res ≡ some r) × IsValid r.1
  unfolding insert
  insert-IsValid ppid group name res = elim (Bool-cases (has_room t)) [
    | inl room ↦ elim (Bool-cases (refused t ppid group)) [
      | inl no_group ↦ ((err eperm, t), rw (room, no_group), v)
      | inr allowed ↦
          let (q, run, valid) =
            inserted-IsValid (new_process t ppid group name res) refl refl refl
              (has_room-length t room) (has_room-next t room) in
          (
            (ok t.next_pid, entered t (new_process t ppid group name res) q),
            rw (room, allowed, run),
            valid,
          )
    ]
    | inr full ↦ ((err eagain, t), rw full, v)
  ]
