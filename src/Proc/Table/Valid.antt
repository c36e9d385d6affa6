-- ===== src/Proc/Table/Valid.antt =====
-- What holds of the process table between calls, and that the calls which change one process or
-- the queue keep it.
use relay_os.Prelude.{
  ℕ, ◌≤◌, ◌<◌, ◌≡◌, ◌⊎◌, refl, Bool, true, false, ◌&&◌, none, some, List, [], ◌∷◌, arith, find,
  Bool-cases, Option-cases, inl, inr,
}
use relay_os.Proc.Queue
use relay_os.Proc.Queue.{Queue, contents}
use relay_os.Proc.Queue.Order
use relay_os.Proc.Queue.Order.{pushed, push-eq-some, popped, pop_cons, pop_empty}
use relay_os.Proc.Holders
use relay_os.Proc.Holders.Chain
use relay_os.Proc.Process.{Process, ready, running, is_ready, is_running, is_blocked}
use relay_os.Proc.Table.{
  Table, pid_max, has_pid, update, in_state, new, get, yield_current, run_next, wake,
}
use relay_os.Proc.Table.Agree.{Agree, Agree-room, Agree-requeue, Agree-next, Agree-pop}
use relay_os.Proc.Table.Tally.{
  tally, find-passes, tally-update, update_absent, tally_absent, tally_present, find_fails,
  tally-and-le,
}

-- A pid that was given out: from 1 on, and below the next one while there is one.
abbrev pub IsGiven : ℕ → ℕ → Type 0
IsGiven next a = (1 ≤ a) × (a ≤ pid_max) × ((next ≡ 0) ⊎ (a < next))

module _ {ℓ} {R : Type ℓ} where
  abbrev pub runs : Process R → Bool
  runs p = is_running p.state

  abbrev pub runs_as : ℕ → Process R → Bool
  runs_as a p = has_pid a p && is_running p.state

  -- The queue holds the ready processes, each once; pids are distinct, count from 1 and stay below
  -- the next one; only the current process runs; the console's chain is well formed.
  pub record IsValid (t : Table R) : Type ℓ where
    pub agree : Agree t.procs t.queue
    pub next_in : t.next_pid ≤ pid_max
    pub pids : (a : ℕ) → 0 < tally (has_pid a) t.procs → IsGiven t.next_pid a
    pub one_runs : tally runs t.procs ≤ tally (runs_as t.current) t.procs
    pub console : Chain.IsValid t.console

  pub new-IsValid : IsValid new
  unfolding new Queue.new Holders.new
  new-IsValid = record {
    agree = record {
      size = omega arith;
      valid = Order.new-IsValid;
      total = refl;
      same = λ a. refl;
      unique = λ a. omega arith;
    };
    next_in = omega arith;
    pids = λ a h. absurd (omega arith);
    one_runs = omega arith;
    console = record { size = refl; len_pos = omega arith; len_in = omega arith };
  }

-- The entry of one process changes, and the queue with it.
module _ {ℓ} {R : Type ℓ} (t : Table R) (v : IsValid t) (pid : ℕ) (p : Process R)
    (found : get t pid ≡ some p) where
  pub update-IsValid :
      (g : Process R → Process R) (q : Queue)
      → (g p).pid ≡ p.pid
      → (is_running (g p).state ≡ true → is_running p.state ≡ true)
      → Agree (update pid g t.procs) q
      → IsValid (record t { procs = update pid g t.procs; queue = q })
  unfolding get
  update-IsValid g q same_pid h agree = record {
    agree = agree;
    next_in = v.next_in;
    pids = λ a pos.
        v.pids a (ground (arith, pos, same_pid, tally-update (has_pid a) pid g t.procs p found));
    one_runs = ground (
      arith,
      v.one_runs,
      same_pid,
      h,
      tally-update runs pid g t.procs p found,
      tally-update (runs_as t.current) pid g t.procs p found,
    );
    console = v.console;
  }

  -- A process that is not ready is made so: it joins the queue, which has room.
  pub requeue-IsValid :
      is_ready p.state ≡ false
      → (q : Queue) × (Queue.push t.queue pid ≡ some q)
        × IsValid (record t { procs = update pid (in_state ready) t.procs; queue = q })
  unfolding get
  requeue-IsValid h = (
    pushed t.queue pid,
    push-eq-some t.queue pid (Agree-room t.procs t.queue v.agree pid p found h),
    update-IsValid (in_state ready) (pushed t.queue pid) refl (λ e. cc)
        (Agree-requeue t.procs t.queue v.agree pid p found h),
  )

module _ {ℓ} {R : Type ℓ} (t : Table R) (v : IsValid t) where
  -- `wake` does not panic.
  pub wake-IsValid : (pid : ℕ) → (r : Table R × Bool) × (wake t pid ≡ some r) × IsValid r.0
  unfolding wake
  wake-IsValid pid = elim (Option-cases (get t pid)) [
    | inl absent ↦ ((t, false), rw (absent, wake), v)
    | inr (p, found) ↦ elim (Bool-cases (is_blocked p.state)) [
      | inl b ↦
          let (q, room, valid) = requeue-IsValid t v pid p found (ground arith) in
          (
            (record t { procs = update pid (in_state ready) t.procs; queue = q }, true),
            rw (found, wake) (rw (b, room)),
            valid,
          )
      | inr other ↦ ((t, false), rw (found, wake) (rw other), v)
    ]
  ]

  -- The first half of `schedule`: it does not panic, and then no process runs.
  pub yield-IsValid :
      (t' : Table R) × (yield_current t ≡ some t') × IsValid t' × (tally runs t'.procs ≡ 0)
  unfolding yield_current get
  yield-IsValid = elim (Option-cases (get t t.current)) [
    | inl absent ↦ (
      t,
      rw (absent, yield_current),
      v,
      omega (
        arith,
        v.one_runs,
        tally_absent (has_pid t.current) t.procs absent,
        tally-and-le (has_pid t.current) runs t.procs,
      ),
    )
    | inr (p, found) ↦ elim (Bool-cases (is_running p.state)) [
      | inl r ↦
          let (q, room, valid) = requeue-IsValid t v t.current p found (ground arith) in
          (
            record t { procs = update t.current (in_state ready) t.procs; queue = q },
            rw (found, yield_current) (rw (r, room)),
            valid,
            ground (
              arith,
              r,
              v.one_runs,
              v.agree.unique t.current,
              tally-and-le (has_pid t.current) runs t.procs,
              tally-update runs t.current (in_state ready) t.procs p found,
            ),
          )
      | inr other ↦ (
        t,
        rw (found, yield_current) (rw other),
        v,
        omega (
          arith,
          v.one_runs,
          find_fails (has_pid t.current) runs t.procs p (v.agree.unique t.current) found other,
        ),
      )
    ]
  ]

  -- The second half: what `schedule` picks runs, and nothing else does.
  pub run_next-IsValid : tally runs t.procs ≡ 0 → IsValid (run_next t).0
  unfolding run_next
  run_next-IsValid idle = go (contents t.queue) refl
    where
      no_zero : find (has_pid 0) t.procs ≡ none
      no_zero = elim (Option-cases (find (has_pid 0) t.procs)) [
        | inl absent ↦ absent
        | inr (p, found) ↦
            absurd (omega (arith, v.pids 0 (tally_present (has_pid 0) t.procs p found)))
      ]

      go : (xs : List ℕ) → contents t.queue ≡ xs → IsValid (run_next t).0
      go [] e =
          rw (pop_empty t.queue e, run_next)
            (rw (update_absent 0 (in_state running) t.procs no_zero) record {
              agree = v.agree;
              next_in = v.next_in;
              pids = v.pids;
              one_runs = omega (arith, idle);
              console = v.console;
            })
      go (next ∷ rest) e =
          let (q, took, valid, e') = pop_cons t.queue next rest v.agree.valid e in
          let (p, found, was) = Agree-next t.procs t.queue v.agree next rest e in
          rw (took, run_next)
            record {
              agree = Agree-pop t.procs t.queue v.agree next rest q running e valid e' refl;
              next_in = v.next_in;
              pids = λ a pos. v.pids a (
                  ground
                    (arith, pos, tally-update (has_pid a) next (in_state running) t.procs p found));
              one_runs = ground (
                arith,
                idle,
                was,
                find-passes (has_pid next) t.procs p found,
                tally-update runs next (in_state running) t.procs p found,
                tally-update (runs_as next) next (in_state running) t.procs p found,
              );
              console = v.console;
            }
