-- ===== src/Proc/Holders.antt =====
-- `Holders` of kernel/src/proc/holders.rs: the chain of process groups that handed the console on,
-- process 1's at the bottom and the foreground group at the top. `none` is the panic of an index or a
-- range that is not in the array.
pub mod Chain
use relay_os.Prelude.{
  ℕ, zero, suc, ◌+◌, ◌-◌, Bool, Option, none, some, List, [], ◌∷◌, ltb, ◌==◌, if◌then◌else◌,
  get_elem?, set, ◌&&◌, not, leb, length, ◌>>=◌, replicate, take, any, position,
}
use relay_os.Errno.{Errno, eperm, eagain, Result, ok, err}
use relay_os.Proc.Queue.{max_procs}

abbrev pub init_pid : ℕ
init_pid = 1

pub record Holders : Type 0 where
  pub groups : List ℕ
  pub len : ℕ

unfoldable pub new : Holders
new = record { groups = init_pid ∷ replicate 63 0; len = 1 }

-- The groups of the chain, process 1's first: `groups[..len]`.
abbrev pub chain : Holders → List ℕ
chain h = take h.len h.groups

unfoldable pub foreground : Holders → Option ℕ
foreground h = if h.len == 0 then none else get_elem? h.groups (h.len - 1)

unfoldable pub holds : Holders → ℕ → Option Bool
holds h pgid = if leb h.len (length h.groups) then some (any (λ g. g == pgid) (chain h)) else none

unfoldable pub position_of : Holders → ℕ → Option (Option ℕ)
position_of h pgid =
    if leb h.len (length h.groups) then some (position (λ g. g == pgid) (chain h)) else none

-- The loop of `give`: `rounds` indices from `i` on are left, and `kept` entries stay. It returns
-- the array and `kept`.
unfoldable pub compact : (ℕ → Bool) → ℕ → ℕ → List ℕ → ℕ → Option (List ℕ × ℕ)
compact exists zero i groups kept = some (groups, kept)
compact exists (suc rounds) i groups kept = get_elem? groups i >>= λ g.
    let rest =
      compact exists rounds (i + 1) (if exists g then set groups kept g else groups)
        (if exists g then kept + 1 else kept) in
    if exists g && not (ltb kept (length groups)) then none else rest

-- The end of `give`: the chain has been cut back to the giver.
unfoldable pub give_top : Holders → ℕ → Option (Result (Unit {0}) × Holders)
unfolding position_of
give_top h to = position_of h to >>= λ at. elim at [
  | some below ↦ some (ok tt, record h { len = below + 1 })
  | none ↦
      (if ltb h.len max_procs
        then (if ltb h.len (length h.groups)
            then some (ok tt, record h { groups = set h.groups h.len to; len = h.len + 1 })
            else none)
        else some (err eagain, h))
]

unfoldable pub give : Holders → ℕ → ℕ → (ℕ → Bool) → Option (Result (Unit {0}) × Holders)
unfolding compact position_of give_top
give h by to exists = compact exists (h.len - 1) 1 h.groups 1 >>= λ (groups, kept).
    let live : Holders = record { groups = groups; len = kept } in
    position_of live by >>= λ found. elim found [
      | none ↦ some (err eperm, live)
      | some at ↦ give_top (record live { len = at + 1 }) to
    ]

unfoldable pub reset : Holders → Holders
reset h = record h { len = 1 }
