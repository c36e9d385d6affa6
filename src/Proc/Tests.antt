-- ===== src/Proc/Tests.antt =====
-- The process table at concrete inputs: process 1 has started a shell, and waits for it.
use mathlib.Core.Option
use relay_os.Prelude.{
  ℕ, ◌≡◌, refl, none, some, [], ◌∷◌, ◌++◌, ◌==◌, arith, replicate, not, leb, ◌-◌, ◌^◌,
}
use relay_os.Errno.{Result, ok}
use relay_os.Proc.Queue
use relay_os.Proc.Queue.{Queue, contents}
use relay_os.Proc.Queue.Order
use relay_os.Proc.Holders
use relay_os.Proc.Holders.{Holders, chain}
use relay_os.Proc.Holders.Chain
use relay_os.Proc.Process.{Process, State, running, ready, blocked, wait}
use relay_os.Proc.Table.{
  Table, parent, new_group, get, tick, count_tick, insert, schedule, block, has_room, others_ready,
  new,
}
use relay_os.Proc.Table.Valid.{IsValid}
use relay_os.Proc.Table.Reach.{
  Reach, start, next, insert_call, schedule_call, block_call, after, Reach-IsValid, Reach-no_panic,
}
use relay_os.Proc.Table.Clock.{ran}
use relay_os.Proc.Table.Turns.{turns, turns-fair, ticks, ticks-slice}
use relay_os.Proc.Table.Family.{Inserted, insert_lem}

abbrev init : State → Process ℕ
init s = record {
  pid = 1;
  ppid = 0;
  pgid = 1;
  name = b'i' ∷ [];
  state = s;
  killed = none;
  ticks = 0;
  res = 10;
}

abbrev shell : State → Process ℕ
shell s = record {
  pid = 2;
  ppid = 1;
  pgid = 2;
  name = b's' ∷ [];
  state = s;
  killed = none;
  ticks = 0;
  res = 20;
}

abbrev waiters : ℕ → ℕ → Queue
waiters head len = record { pids = 1 ∷ 2 ∷ replicate 62 0; head = head; len = len }

-- Process 1 runs and the shell waits its turn.
abbrev started : Table ℕ
started = record {
  procs = init running ∷ shell ready ∷ [];
  next_pid = 3;
  queue = waiters 1 1;
  current = 1;
  slice_left = 10;
  console = Holders.new;
}

-- Process 1 waits for the shell, which runs.
abbrev shell_runs : Table ℕ
shell_runs = record {
  procs = init (blocked wait) ∷ shell running ∷ [];
  next_pid = 3;
  queue = waiters 2 0;
  current = 2;
  slice_left = 10;
  console = Holders.new;
}

started-Reach : Reach started
unfolding insert schedule has_room get Queue.push Queue.pop new Queue.new
started-Reach =
    next schedule_call
      (next (insert_call 1 new_group (b's' ∷ []) 20)
        (next (insert_call 0 parent (b'i' ∷ []) 10) start tt refl) tt refl)
      tt refl

shell_runs-Reach : Reach shell_runs
unfolding schedule block get Queue.push Queue.pop
shell_runs-Reach =
    next schedule_call (next (block_call wait) started-Reach (λ p e. ground arith) refl) tt refl

started-IsValid : IsValid started
started-IsValid = Reach-IsValid started-Reach

shell_runs-IsValid : IsValid shell_runs
shell_runs-IsValid = Reach-IsValid shell_runs-Reach

Reach-IsValid_example : IsValid shell_runs
Reach-IsValid_example = Reach-IsValid shell_runs-Reach

Reach-no_panic_example : (u : Table ℕ) × (after shell_runs (block_call wait) ≡ some u)
unfolding get
Reach-no_panic_example = Reach-no_panic (block_call wait) shell_runs-Reach (λ p e. ground arith)

turns-fair_example : (t' : Table ℕ) × (turns 1 started ≡ some t') × (t'.current ≡ 2)
turns-fair_example = turns-fair [] [] 2 started started-IsValid refl

ticks-slice_example : (u : Table ℕ) × (ticks 12 started ≡ some (u, leb 10 12))
unfolding others_ready ran get
ticks-slice_example = ticks-slice 12 started (omega arith) refl (omega arith)

-- The count of ticks that is full.
tick_overflow :
    tick (record shell_runs {
      procs = init (blocked wait) ∷ record (shell running) { ticks = 2 ^ 64 - 1 } ∷ [];
    })
    ≡ none
unfolding tick count_tick get
tick_overflow = refl

insert_lem_example :
    (r : Result ℕ × Table ℕ) × (insert shell_runs 2 parent (b'l' ∷ []) 30 ≡ some r)
    × Inserted shell_runs 2 parent (b'l' ∷ []) 30 r
insert_lem_example = insert_lem shell_runs 2 parent (b'l' ∷ []) 30 shell_runs-IsValid

full_round : Queue
full_round = record { pids = 7 ∷ 8 ∷ replicate 61 0 ++ 9 ∷ []; head = 63; len = 3 }

full_round-IsValid : Order.IsValid full_round
unfolding full_round
full_round-IsValid = record { size = refl; head_in = omega arith; len_in = omega arith }

remove_runs : (contents full_round ≡ 9 ∷ 7 ∷ 8 ∷ [])
unfolding full_round
remove_runs = refl

-- Process 1's group gave the console to group 2, and that one to group 3.
abbrev nested : Holders
nested = record { groups = 1 ∷ 2 ∷ 3 ∷ replicate 61 0; len = 3 }

nested-IsValid : Chain.IsValid nested
nested-IsValid = record { size = refl; len_pos = omega arith; len_in = omega arith }

give_refines_example :
    (r : Result (Unit {0}) × Holders) × (Holders.give nested 2 4 (λ g. not (g == 3)) ≡ some r)
    × ((r.0, chain r.1) ≡ Chain.given 2 4 (Chain.live_chain (λ g. not (g == 3)) (chain nested)))
    × Chain.IsValid r.1
give_refines_example = Chain.give_refines nested 2 4 (λ g. not (g == 3)) nested-IsValid

given_runs :
    Chain.given 2 4 (Chain.live_chain (λ g. not (g == 3)) (chain nested)) ≡ (ok tt, 1 ∷ 2 ∷ 4 ∷ [])
given_runs = refl
