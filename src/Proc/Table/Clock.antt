-- ===== src/Proc/Table/Clock.antt =====
-- `tick`, where the running process's count of ticks has room.
use relay_os.Prelude.{
  ℕ, ◌+◌, ◌-◌, ◌^◌, ◌≤◌, ◌<◌, ◌≡◌, refl, ap, sym, Bool, true, false, none, some, arith, ltb,
  if◌then◌else◌, Option-cases, inl, inr,
}
use relay_os.Proc.Process.{Process}
use relay_os.Proc.Table.{Table, slice, update, get, count_tick, tick, others_ready}
use relay_os.Proc.Table.Tally.{update_absent}
use relay_os.Proc.Table.Lookup.{get-update}

module _ {ℓ} {R : Type ℓ} where
  -- How many ticks the current process has run for; 0 for the idle task.
  unfoldable pub ran : Table R → ℕ
  ran t = elim (get t t.current) [ none ↦ 0 | some p ↦ p.ticks ]

  pub ran-room :
      (t : Table R)
      → ((p : Process R) → get t t.current ≡ some p → p.ticks + 1 < 2 ^ 64)
      → ran t + 1 < 2 ^ 64
  unfolding ran
  ran-room t h = elim (Option-cases (get t t.current)) [
    | inl absent ↦ ground (arith, absent)
    | inr (p, found) ↦ let room = h p found in ground (arith, found, room)
  ]

  -- The table and the answer after a tick.
  abbrev pub ticked : Table R → Table R × Bool
  ticked t =
      let t' : Table R = record t {
        procs = update t.current (λ p. record p { ticks = p.ticks + 1 }) t.procs;
        slice_left = t.slice_left - 1;
      } in
      if ltb 0 t'.slice_left
      then (t', false)
      else (record t' { slice_left = slice }, others_ready t')

  count_tick-update :
      (t : Table R)
      → ran t + 1 < 2 ^ 64
      → count_tick t ≡ some (update t.current (λ p. record p { ticks = p.ticks + 1 }) t.procs)
  unfolding count_tick ran get
  count_tick-update t room = elim (Option-cases (get t t.current)) [
    | inl absent ↦
        rw (absent, count_tick)
          (ap (λ ps. some ps)
            (sym (update_absent t.current (λ p. record p { ticks = p.ticks + 1 }) t.procs absent)))
    | inr (p, found) ↦
        let fits : ltb (p.ticks + 1) (2 ^ 64) ≡ true = ground (arith, room, found) in
        rw (found, count_tick) (rw fits refl)
  ]

  -- `tick` does not panic while the count has room.
  pub tick-ticked : (t : Table R) → ran t + 1 < 2 ^ 64 → tick t ≡ some (ticked t)
  unfolding tick
  tick-ticked t room = rw (count_tick-update t room) (last _ _ (ltb 0 (t.slice_left - 1)))
    where
      last :
          {A : Type ℓ} (a b : A) (c : Bool)
          → (if c then some a else some b) ≡ some (if c then a else b)
      last a b true = refl
      last a b false = refl

  ran-counted :
      (t : Table R) (n : ℕ)
      → ran (record t {
        procs = update t.current (λ p. record p { ticks = p.ticks + 1 }) t.procs;
        slice_left = n;
      })
        ≤ ran t + 1
  unfolding ran get
  ran-counted t n = ground (
    arith,
    get-update t.current t.current (λ p. record p { ticks = p.ticks + 1 }) t.procs (λ p. refl),
  )

  if-ran :
      (n : ℕ) (c : Bool) (r s : Table R × Bool)
      → ran r.0 ≤ n
      → ran s.0 ≤ n
      → (λ (u : Table R × Bool). ran u.0 ≤ n) (if c then r else s)
  if-ran n true r s h g = h
  if-ran n false r s h g = g

  pub ran-ticked : (t : Table R) → ran (ticked t).0 ≤ ran t + 1
  ran-ticked t =
      if-ran (ran t + 1) (ltb 0 (t.slice_left - 1)) _ _ (ran-counted t (t.slice_left - 1))
        (ran-counted t slice)
