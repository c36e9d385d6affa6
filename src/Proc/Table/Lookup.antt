-- ===== src/Proc/Table/Lookup.antt =====
-- What `get` finds after the calls that change processes in place.
use mathlib.Core.Option
use relay_os.Prelude.{
  ℕ, ◌≡◌, refl, Bool, ◌&&◌, none, some, List, [], ◌∷◌, map, arith, ◌==◌, not, if◌then◌else◌, find,
  filter, Bool-cases, Option-cases, inl, inr, any,
}
use relay_os.Proc.Process.{Process, ready, is_blocked, is_zombie}
use relay_os.Proc.Table.{
  Table, has_pid, update, in_state, get, wake, wake_each, pids_of, mark, marked,
}
use relay_os.Proc.Table.Tally.{tally, tally_found, find_fails}
use relay_os.Proc.Table.Valid.{IsValid}

abbrev pub member : ℕ → List ℕ → Bool
member a xs = any (λ x. x == a) xs

module _ {ℓ} {R : Type ℓ} where
  pub get-update :
      (a pid : ℕ) (g : Process R → Process R) (ps : List (Process R))
      → ((p : Process R) → (g p).pid ≡ p.pid)
      → find (has_pid a) (update pid g ps)
        ≡ (if pid == a then Option.map g (find (has_pid a) ps) else find (has_pid a) ps)
  get-update a pid g [] h = ground arith
  get-update a pid g (p ∷ ps) h = ground (arith, h p, get-update a pid g ps h)

  pub get-map :
      (a : ℕ) (g : Process R → Process R) (ps : List (Process R))
      → ((p : Process R) → (g p).pid ≡ p.pid)
      → find (has_pid a) (map g ps) ≡ Option.map g (find (has_pid a) ps)
  get-map a g [] h = refl
  get-map a g (p ∷ ps) h = ground (arith, h p, get-map a g ps h)

  -- What `wake` makes of a process.
  abbrev pub awake : Process R → Process R
  awake p = if is_blocked p.state then in_state ready p else p

  -- `wake` changes the process it names, and no other.
  pub get-wake :
      (t : Table R) (pid a : ℕ) (r : Table R × Bool)
      → wake t pid ≡ some r
      → get r.0 a ≡ (if pid == a then Option.map awake (get t a) else get t a)
  unfolding wake get
  get-wake t pid a r e = ground (arith, get-update a pid (in_state ready) t.procs (λ p. refl))

  pub get-wake_each :
      (t : Table R) (pids : List ℕ) (a : ℕ) (t' : Table R)
      → wake_each t pids ≡ some t'
      → get t' a ≡ (if member a pids then Option.map awake (get t a) else get t a)
  unfolding wake_each
  get-wake_each t [] a t' e = cc
  get-wake_each t (pid ∷ pids) a t' e = elim (Option-cases (wake t pid)) [
    | inl stuck ↦ cc
    | inr (r, run) ↦
        ground (arith, get-wake t pid a r run, get-wake_each r.0 pids a t' (rw run at e))
  ]

  member-pids_of :
      (f : Process R → Bool) (a : ℕ) (ps : List (Process R))
      → member a (map (λ p. p.pid) (filter f ps)) ≡ not (tally (λ p. has_pid a p && f p) ps == 0)
  member-pids_of f a [] = refl
  member-pids_of f a (p ∷ ps) = ground (arith, member-pids_of f a ps)

  -- What a mark for `reason` makes of a process that `hit` names: the first reason stays, and who
  -- waits is ready.
  abbrev pub doomed : (Process R → Bool) → ℕ → Process R → Process R
  doomed hit reason p =
      if hit p && not (is_zombie p.state)
      then awake (record p { killed = (elim p.killed [ none ↦ some reason | some r ↦ some r ]) })
      else p

  pub get-mark :
      (t : Table R) (hit : Process R → Bool) (reason a : ℕ) (t' : Table R)
      → IsValid t
      → mark t hit reason ≡ some t'
      → get t' a ≡ Option.map (doomed hit reason) (get t a)
  unfolding mark get
  get-mark t hit reason a t' v e = elim (Option-cases (get t a)) [
    | inl absent ↦ ground (arith, absent, woken, get-map a (marked hit reason) t.procs same_pid)
    | inr (p, found) ↦ elim (Bool-cases (hit p && is_blocked p.state)) [
      | inl wakes ↦ ground (
        arith,
        found,
        wakes,
        woken,
        get-map a (marked hit reason) t.procs same_pid,
        member-pids_of (λ p. hit p && is_blocked p.state) a t.procs,
        tally_found (has_pid a) (λ p. hit p && is_blocked p.state) t.procs p found wakes,
      )
      | inr sleeps ↦ ground (
        arith,
        found,
        sleeps,
        woken,
        get-map a (marked hit reason) t.procs same_pid,
        member-pids_of (λ p. hit p && is_blocked p.state) a t.procs,
        find_fails (has_pid a) (λ p. hit p && is_blocked p.state) t.procs p (v.agree.unique a) found
            sleeps,
      )
    ]
  ]
    where
      same_pid : (p : Process R) → (marked hit reason p).pid ≡ p.pid
      same_pid p = ground arith

      marked_table : Table R
      marked_table = record t { procs = map (marked hit reason) t.procs }

      pids : List ℕ
      pids = pids_of (λ p. hit p && is_blocked p.state) t

      woken :
          get t' a
          ≡ (if member a pids then Option.map awake (get marked_table a) else get marked_table a)
      woken = get-wake_each marked_table pids a t' (ground arith)
