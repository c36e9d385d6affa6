-- ===== src/Proc/Table/Keeps.antt =====
-- `schedule`, `block` and the wakeups keep what `IsValid` says, and do not panic.
use relay_os.Prelude.{
  ℕ, ◌+◌, ◌≤◌, ◌≡◌, refl, ap, Bool, false, Option, some, List, [], ◌∷◌, map, arith, length, filter,
  le→leb, Bool-cases, Option-cases, inl, inr,
}
use relay_os.Proc.Process.{Process, blocked, Blocked, is_ready, is_waiting}
use relay_os.Proc.Table.{
  Table, has_pid, update, in_state, get, run_next, schedule, block, wake_each, wake_gathered,
  notify,
}
use relay_os.Proc.Table.Agree.{Agree-keep, Agree-map}
use relay_os.Proc.Table.Tally.{tally-map, update_absent}
use relay_os.Proc.Table.Valid.{
  IsValid, runs, runs_as, update-IsValid, wake-IsValid, yield-IsValid, run_next-IsValid,
}

pub length-filter-le {ℓ} :
    {A : Type ℓ} (f : A → Bool) (xs : List A) → length (filter f xs) ≤ length xs
length-filter-le f [] = omega arith
length-filter-le f (x ∷ xs) = ground (arith, length-filter-le f xs)

-- A call that may panic does not, and what it leaves is valid.
abbrev pub Keeps {ℓ} : {R : Type ℓ} → Option (Table R) → Type ℓ
Keeps {R = R} o = (t' : Table R) × (o ≡ some t') × IsValid t'

module _ {ℓ} {R : Type ℓ} (t : Table R) (v : IsValid t) where
  pub schedule-IsValid : (r : Table R × ℕ) × (schedule t ≡ some r) × IsValid r.0
  unfolding schedule
  schedule-IsValid =
      let (t', half, valid, idle) = yield-IsValid t v in
      (run_next t', rw half, run_next-IsValid t' valid idle)

  -- What is blocked must not stand in the queue: only a process that is not ready blocks.
  pub block-IsValid :
      (why : Blocked)
      → ((p : Process R) → get t t.current ≡ some p → is_ready p.state ≡ false)
      → IsValid (block t why)
  unfolding block get
  block-IsValid why h = elim (Option-cases (get t t.current)) [
    | inl absent ↦ rw (update_absent t.current (in_state (blocked why)) t.procs absent) v
    | inr (p, found) ↦
        update-IsValid t v t.current p found (in_state (blocked why)) t.queue refl (λ e. cc)
          (Agree-keep t.procs t.queue v.agree t.current p found (in_state (blocked why)) refl
            (h p found))
  ]

  pub slice-IsValid : (n : ℕ) → IsValid (record t { slice_left = n })
  slice-IsValid n = record {
    agree = v.agree;
    next_in = v.next_in;
    pids = v.pids;
    one_runs = v.one_runs;
    console = v.console;
  }

  pub counted-IsValid :
      IsValid
        (record t { procs = update t.current (λ p. record p { ticks = p.ticks + 1 }) t.procs })
  unfolding get
  counted-IsValid = elim (Option-cases (get t t.current)) [
    | inl absent ↦
        rw (update_absent t.current (λ p. record p { ticks = p.ticks + 1 }) t.procs absent) v
    | inr (p, found) ↦
        update-IsValid t v t.current p found (λ p. record p { ticks = p.ticks + 1 }) t.queue refl
          (λ e. e)
          (Agree-keep t.procs t.queue v.agree t.current p found
            (λ p. record p { ticks = p.ticks + 1 }) refl refl)
  ]

  pub map-IsValid :
      (g : Process R → Process R)
      → ((p : Process R) → (g p).pid ≡ p.pid)
      → ((p : Process R) → (g p).state ≡ p.state)
      → IsValid (record t { procs = map g t.procs })
  map-IsValid g same_pid same_state = record {
    agree = Agree-map t.procs t.queue v.agree g same_pid (λ p. ap is_ready (same_state p));
    next_in = v.next_in;
    pids = λ a. rw (tally-map (has_pid a) g t.procs (λ p. rw (same_pid p))) (v.pids a);
    one_runs =
        rw
          (
            tally-map runs g t.procs (λ p. rw (same_state p)),
            tally-map (runs_as t.current) g t.procs (λ p. rw (same_pid p, same_state p)),
          )
          v.one_runs;
    console = v.console;
  }

  pub notify-IsValid : (pid : ℕ) → Keeps (notify t pid)
  unfolding notify
  notify-IsValid pid = elim (Option-cases (get t pid)) [
    | inl absent ↦ (t, rw (absent, notify), v)
    | inr (p, found) ↦ elim (Bool-cases (is_waiting p.state)) [
      | inl w ↦
          let ((t', woke), run, valid) = wake-IsValid t v pid in
          (t', rw (found, notify) (rw (w, run)), valid)
      | inr other ↦ (t, rw (found, notify) (rw other), v)
    ]
  ]

pub wake_each-IsValid {ℓ} :
    {R : Type ℓ} (t : Table R) (pids : List ℕ) → IsValid t → Keeps (wake_each t pids)
unfolding wake_each
wake_each-IsValid t [] v = (t, refl, v)
wake_each-IsValid t (pid ∷ pids) v =
    let (r, run, valid) = wake-IsValid t v pid in
    let (t', rest, valid') = wake_each-IsValid r.0 pids valid in (t', rw run rest, valid')

pub gathered-IsValid {ℓ} :
    {R : Type ℓ} (t : Table R) (pids : List ℕ)
    → IsValid t
    → length pids ≤ 64
    → Keeps (wake_gathered t pids)
gathered-IsValid t pids v h = rw (le→leb (length pids) 64 h) (wake_each-IsValid t pids v)
