-- ===== src/Proc/Table/Ends.antt =====
-- `tick`, `wake_sleepers`, `kill`, `end` and `reap` keep what `IsValid` says, and do not panic.
use relay_os.Prelude.{
  ℕ, ◌+◌, ◌-◌, ◌^◌, ◌<◌, ◌≤◌, ◌≡◌, refl, Bool, ◌&&◌, some, map, arith, ◌==◌, length, filter,
  position, ltb, Bool-cases, Option-cases, inl, inr, any, length-map,
}
use relay_os.Prelude.Int.{ℤ}
use relay_os.Errno.{eperm, esrch, Result, ok, err}
use relay_os.Proc.Queue.{Queue}
use relay_os.Proc.Queue.Order.{remove_lem}
use relay_os.Proc.Holders.{init_pid}
use relay_os.Proc.Process.{is_due, Process, WaitStatus, zombie, is_ready, is_blocked, is_zombie}
use relay_os.Proc.Table.{
  Table, Want, slice, has_pid, update, in_state, get, wake_sleepers, pids_of, tick, orphan, bury,
  end, reap, is_mine, mark, marked, is_hit, kill,
}
use relay_os.Proc.Table.Clock.{ran, ticked, tick-ticked}
use relay_os.Proc.Table.Agree.{Agree-keep, Agree-drop, Agree-remove_at}
use relay_os.Proc.Table.Tally.{tally-remove_at}
use relay_os.Proc.Table.Valid.{IsValid, runs, runs_as, update-IsValid}
use relay_os.Proc.Table.Keeps.{
  Keeps, slice-IsValid, counted-IsValid, map-IsValid, notify-IsValid, gathered-IsValid,
  length-filter-le,
}

module _ {ℓ} {R : Type ℓ} (t : Table R) (v : IsValid t) where
  ticked-IsValid : IsValid (ticked t).0
  ticked-IsValid = elim (Bool-cases (ltb 0 (t.slice_left - 1))) [
    | inl left ↦ rw left (slice-IsValid counted counted_ok (t.slice_left - 1))
    | inr used ↦ rw used (slice-IsValid counted counted_ok slice)
  ]
    where
      counted : Table R
      counted = record t {
        procs = update t.current (λ p. record p { ticks = p.ticks + 1 }) t.procs;
      }

      counted_ok : IsValid counted
      counted_ok = counted-IsValid t v

  pub tick-IsValid : ran t + 1 < 2 ^ 64 → (r : Table R × Bool) × (tick t ≡ some r) × IsValid r.0
  tick-IsValid room = (ticked t, tick-ticked t room, ticked-IsValid)

  pids_of-le : (f : Process R → Bool) → length (pids_of f t) ≤ 64
  pids_of-le f = omega (
    arith,
    length-map (λ (p : Process R). p.pid) (filter f t.procs),
    length-filter-le f t.procs,
    v.agree.size,
  )

  pub wake_sleepers-IsValid : (now : ℕ) → Keeps (wake_sleepers t now)
  unfolding wake_sleepers
  wake_sleepers-IsValid now = gathered-IsValid t _ v (pids_of-le (λ p. is_due now p.state))

  pub mark-IsValid : (hit : Process R → Bool) (reason : ℕ) → Keeps (mark t hit reason)
  unfolding mark
  mark-IsValid hit reason =
      gathered-IsValid (record t { procs = map (marked hit reason) t.procs }) _
        (map-IsValid t v (marked hit reason) (λ p. ground arith) (λ p. ground arith))
        (pids_of-le (λ p. hit p && is_blocked p.state))

  -- `end` of a process in any state: it leaves the queue if it stood there.
  pub bury-IsValid :
      (pid : ℕ) (p : Process R) (status : WaitStatus)
      → get t pid ≡ some p
      → Keeps (bury t pid p status)
  unfolding bury get
  bury-IsValid pid p status found = elim (Bool-cases (is_ready p.state)) [
    | inl was ↦
        let (q, run, valid, order) = remove_lem t.queue pid v.agree.valid in
        (
          record t {
            procs = map (orphan pid) (update pid (in_state (zombie status)) t.procs);
            queue = q;
          },
          rw was (rw run),
          orphaned q (
              update-IsValid t v pid p found (in_state (zombie status)) q refl (λ e. cc)
                (Agree-drop t.procs t.queue v.agree pid p found (zombie status) q was refl valid
                  order)),
        )
    | inr other ↦ (
      record t { procs = map (orphan pid) (update pid (in_state (zombie status)) t.procs) },
      rw other,
      orphaned t.queue (
          update-IsValid t v pid p found (in_state (zombie status)) t.queue refl (λ e. cc)
            (Agree-keep t.procs t.queue v.agree pid p found (in_state (zombie status)) refl other)),
    )
  ]
    where
      orphaned :
          (q : Queue)
          → IsValid (record t { procs = update pid (in_state (zombie status)) t.procs; queue = q })
          → IsValid (record t {
            procs = map (orphan pid) (update pid (in_state (zombie status)) t.procs);
            queue = q;
          })
      orphaned q w = map-IsValid _ w (orphan pid) (λ p. ground arith) (λ p. ground arith)

  pub end-IsValid : (pid : ℕ) (status : WaitStatus) → Keeps (end t pid status)
  unfolding end
  end-IsValid pid status = elim (Option-cases (get t pid)) [
    | inl absent ↦ (t, rw (absent, end), v)
    | inr (p, found) ↦
        let (t1, buried, v1) = bury-IsValid pid p status found in
        let (t2, told, v2) = notify-IsValid t1 v1 p.ppid in
        elim (Bool-cases (
          any (λ c. c.ppid == pid && is_zombie c.state)
            (update pid (in_state (zombie status)) t.procs))) [
              | inl zombies ↦
                  let (t3, told_init, v3) = notify-IsValid t2 v2 init_pid in
                  (t3, rw (found, end) (rw buried (rw told (rw (zombies, told_init)))), v3)
              | inr none_left ↦ (t2, rw (found, end) (rw buried (rw told (rw none_left))), v2)
            ]
  ]

  pub kill-IsValid :
      (target : ℤ) (reason : ℕ)
      → (r : Result (Unit {0}) × Table R) × (kill t target reason ≡ some r) × IsValid r.1
  unfolding kill
  kill-IsValid target reason = elim (Bool-cases (any (is_hit target) t.procs)) [
    | inl some_hit ↦ elim (Bool-cases (any (λ p. is_hit target p && p.pid == init_pid) t.procs)) [
      | inl init_hit ↦ ((err eperm, t), rw (some_hit, init_hit), v)
      | inr safe ↦
          let (t', run, valid) = mark-IsValid (is_hit target) reason in
          ((ok tt, t'), rw (some_hit, safe, run), valid)
    ]
    | inr no_hit ↦ ((err esrch, t), rw no_hit, v)
  ]

  pub reap-IsValid : (ppid : ℕ) (want : Want) → IsValid (reap t ppid want).1
  unfolding reap
  reap-IsValid ppid want = elim (Bool-cases (any (is_mine ppid want) t.procs)) [
    | inl mine ↦
        elim (Option-cases (position (λ p. is_mine ppid want p && is_zombie p.state) t.procs)) [
          | inl alive ↦ rw mine (rw alive v)
          | inr (i, at) ↦ rw mine (
              rw at record {
                agree =
                    Agree-remove_at t.procs t.queue v.agree
                      (λ p. is_mine ppid want p && is_zombie p.state) i at (λ p h. ground arith);
                next_in = v.next_in;
                pids = λ a pos. v.pids a (
                    let (_, _, _, rest, _) =
                      tally-remove_at (has_pid a) (λ p. is_mine ppid want p && is_zombie p.state)
                        t.procs i at in
                    omega (arith, pos, rest));
                one_runs =
                    let (p, _, passes, rest, _) =
                      tally-remove_at runs (λ p. is_mine ppid want p && is_zombie p.state) t.procs i
                        at in
                    let (p', _, passes', rest', _) =
                      tally-remove_at (runs_as t.current)
                        (λ p. is_mine ppid want p && is_zombie p.state) t.procs i at in
                    ground (arith, v.one_runs, rest, rest', passes, passes');
                console = v.console;
              })
        ]
    | inr childless ↦ rw childless v
  ]
