-- ===== src/Proc/Table/Turns.antt =====
-- Whose turn is next: `schedule` is round-robin, and `tick` ends a slice in time.
use relay_os.Prelude.{
  ℕ, zero, suc, ◌≤◌, ◌≡◌, ◌+◌, ◌-◌, ◌<◌, ◌^◌, ltb, refl, ap, sym, subst, ◌∙◌, Bool, true, false,
  Option, none, some, List, [], ◌∷◌, ◌++◌, arith, if◌then◌else◌, length, leb, Bool-cases,
  Option-cases, inl, inr, ◌>>=◌, append_assoc, append-nil,
}
use relay_os.Proc.Queue.{contents}
use relay_os.Proc.Queue.Order.{push-eq-some, contents-pushed, pop_cons, pop_empty}
use relay_os.Proc.Process.{is_running}
use relay_os.Proc.Table.{
  Table, get, update, slice, schedule, yield_current, run_next, tick, others_ready,
}
use relay_os.Proc.Table.Clock.{ran, ticked, tick-ticked, ran-ticked}
use relay_os.Proc.Table.Agree.{Agree-room}
use relay_os.Proc.Table.Valid.{IsValid, yield-IsValid, run_next-IsValid}

module _ {ℓ} {R : Type ℓ} where
  -- The running process, if there is one: it joins the end of the queue when it gives up the CPU.
  abbrev pub stays : Table R → List ℕ
  stays t = elim (get t t.current) [
    | none ↦ []
    | some p ↦ if is_running p.state then t.current ∷ [] else []
  ]

  -- The pid that `schedule` picks, and what waits after it.
  abbrev pub Picks : List ℕ → Table R × ℕ → Type 0
  Picks [] (t', pid) = (pid ≡ 0) × (t'.current ≡ 0) × (contents t'.queue ≡ [])
  Picks (next ∷ rest) (t', pid) = (pid ≡ next) × (t'.current ≡ next) × (contents t'.queue ≡ rest)

  yield-contents :
      (t t' : Table R)
      → IsValid t
      → yield_current t ≡ some t'
      → contents t'.queue ≡ contents t.queue ++ stays t
  unfolding yield_current get
  yield-contents t t' v e = elim (Option-cases (get t t.current)) [
    | inl absent ↦ ground (arith, absent, append-nil (contents t.queue))
    | inr (p, found) ↦ elim (Bool-cases (is_running p.state)) [
      | inl r ↦ ground (
        arith,
        found,
        r,
        push-eq-some t.queue t.current,
        Agree-room t.procs t.queue v.agree t.current p found,
        contents-pushed t.queue t.current v.agree.valid,
      )
      | inr other ↦ ground (arith, found, other, append-nil (contents t.queue))
    ]
  ]

  run_next-Picks :
      (t : Table R) (xs : List ℕ) → IsValid t → contents t.queue ≡ xs → Picks xs (run_next t)
  unfolding run_next
  run_next-Picks t [] v e = rw (pop_empty t.queue e, run_next) (refl, refl, e)
  run_next-Picks t (next ∷ rest) v e =
      let (q, took, valid, e') = pop_cons t.queue next rest v.agree.valid e in
      rw (took, run_next) (refl, refl, e')

  -- `schedule` is round-robin: the running process goes to the end of the queue, the first of the
  -- queue runs and leaves it, and the others keep their order; the idle task (0) runs only if nobody
  -- is ready.
  pub schedule_lem :
      (t : Table R)
      → IsValid t
      → (r : Table R × ℕ) × (schedule t ≡ some r)
        × IsValid r.0
        × Picks (contents t.queue ++ stays t) r
  unfolding schedule
  schedule_lem t v =
      let (t', half, valid, idle) = yield-IsValid t v in
      (
        run_next t',
        rw half,
        run_next-IsValid t' valid idle,
        run_next-Picks t' _ valid (yield-contents t t' v half),
      )

  -- `n` turns one after the other.
  abbrev pub turns : ℕ → Table R → Option (Table R)
  turns zero t = some t
  turns (suc n) t = schedule t >>= λ r. turns n r.0

  -- A ready process waits its turn and no longer: with `pre` before it in the queue it runs after
  -- one turn for each of them and one more.
  pub turns-fair :
      (pre post : List ℕ) (pid : ℕ) (t : Table R)
      → IsValid t
      → contents t.queue ≡ pre ++ pid ∷ post
      → (t' : Table R) × (turns (suc (length pre)) t ≡ some t') × (t'.current ≡ pid)
  turns-fair [] post pid t v e =
      let (r, run, valid, picks) = schedule_lem t v in
      let (_, is_next, _) = rw e at picks in (r.0, rw run, is_next)
  turns-fair (x ∷ pre) post pid t v e =
      let (r, run, valid, picks) = schedule_lem t v in
      let (_, _, rest) = rw e at picks in
      let (t', runs, is_next) =
        turns-fair pre (post ++ stays t) pid r.0 valid
          (rest ∙ append_assoc pre (pid ∷ post) (stays t)) in
      (t', rw run runs, is_next)

  -- Timer ticks, up to the one that says that the process should give up the CPU.
  unfoldable pub ticks : ℕ → Table R → Option (Table R × Bool)
  ticks zero t = some (t, false)
  ticks (suc n) t = tick t >>= λ r. let rest = ticks n r.0 in if r.1 then some r else rest

  -- With a tick of its slice left, while another process is ready and its count of ticks stays below
  -- 2 ^ 64, `tick` does not panic, and the running process keeps the CPU for what is left of its slice,
  -- and not a tick longer.
  pub ticks-slice :
      (n : ℕ) (t : Table R)
      → 1 ≤ t.slice_left
      → others_ready t ≡ true
      → ran t + n < 2 ^ 64
      → (u : Table R) × (ticks n t ≡ some (u, leb t.slice_left n))
  unfolding ticks others_ready
  ticks-slice zero t h o room =
      let none_yet : false ≡ leb t.slice_left 0 = ground (arith, h) in
      (t, ap (λ b. some (t, b)) none_yet)
  ticks-slice (suc n) t h o room = elim (Bool-cases (ltb 0 (t.slice_left - 1))) [
    | inl left ↦
        let u : Table R = record t {
          procs = update t.current (λ p. record p { ticks = p.ticks + 1 }) t.procs;
          slice_left = t.slice_left - 1;
        } in
        let value : tick t ≡ some (u, false) = tick-ticked t (omega (arith, room)) ∙ rw left refl in
        let same : u ≡ (ticked t).0 = rw left refl in
        let counted = ran-ticked t in
        let (w, run) =
          ticks-slice n u (ground (arith, left)) o
            (subst (λ k. ran k + n < 2 ^ 64) (sym same) (omega (arith, room, counted))) in
        let later : leb (t.slice_left - 1) n ≡ leb t.slice_left (suc n) = ground (arith, left) in
        (w, rw value (run ∙ ap (λ b. some (w, b)) later))
    | inr used ↦
        let u : Table R = record t {
          procs = update t.current (λ p. record p { ticks = p.ticks + 1 }) t.procs;
          slice_left = slice;
        } in
        let value : tick t ≡ some (u, others_ready u) =
          tick-ticked t (omega (arith, room)) ∙ rw used refl in
        let now : true ≡ leb t.slice_left (suc n) = ground (arith, used) in
        (u, rw value (rw o (ap (λ b. some (u, b)) now)))
  ]
