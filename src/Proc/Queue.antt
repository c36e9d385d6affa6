-- ===== src/Proc/Queue.antt =====
-- `Queue` of kernel/src/proc/table.rs: the ready processes, in an array of `MAX` used as a ring.
-- A call that would panic (`push` on a full queue) returns `none`.
pub mod Order
use relay_os.Prelude.{
  ℕ, zero, suc, ◌+◌, ◌-◌, ◌%◌, Option, none, some, List, [], ◌∷◌, ltb, ◌==◌, if◌then◌else◌, ◌>>=◌,
  get_or, set, replicate, tabulate,
}

abbrev pub max_procs : ℕ
max_procs = 64

pub record Queue : Type 0 where
  pub pids : List ℕ
  pub head : ℕ
  pub len : ℕ

unfoldable pub new : Queue
new = record { pids = replicate max_procs 0; head = 0; len = 0 }

unfoldable pub push : Queue → ℕ → Option Queue
push q pid =
    if ltb q.len max_procs
    then some (record q { pids = set q.pids ((q.head + q.len) % max_procs) pid; len = q.len + 1 })
    else none

-- The pid that leaves, and the queue after it.
unfoldable pub pop : Queue → Option (ℕ × Queue)
pop q =
    if q.len == 0
    then none
    else some
        (get_or q.pids q.head 0, record q { head = (q.head + 1) % max_procs; len = q.len - 1 })

-- The loop of `remove`: `rounds` bounds it, `len` of them empty the queue.
unfoldable pub keep_others : ℕ → ℕ → Queue → Queue → Option Queue
keep_others zero pid q kept = some kept
keep_others (suc rounds) pid q kept = elim (pop q) [
  | none ↦ some kept
  | some (p, q') ↦
      ((if p == pid then some kept else push kept p) >>= λ kept'. keep_others rounds pid q' kept')
]

unfoldable pub remove : Queue → ℕ → Option Queue
unfolding keep_others push pop new
remove q pid = keep_others (q.len + 1) pid q new

-- What waits, the next first.
abbrev pub contents : Queue → List ℕ
contents q = tabulate q.len (λ i. get_or q.pids ((q.head + i) % max_procs) 0)
