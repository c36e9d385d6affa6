-- ===== src/Proc/Table/Kill.antt =====
-- Whom `kill` marks, whom it refuses, and what becomes of them.
use mathlib.Core.Option
use relay_os.Prelude.{ℕ, ◌≡◌, ◌&&◌, ◌==◌, not, if◌then◌else◌, any}
use relay_os.Prelude.Int.{ℤ}
use relay_os.Errno.{eperm, esrch, Result, ok, err}
use relay_os.Proc.Holders.{init_pid}
use relay_os.Proc.Table.{Table, get, is_hit}
use relay_os.Proc.Table.Lookup.{doomed}

module _ {ℓ} {R : Type ℓ} where
  -- What `kill` leaves: the table as it was, or with the processes it hits marked and awake.
  abbrev pub Killed : Table R → ℤ → ℕ → Result (Unit {0}) → Table R → Type ℓ
  Killed t target reason r t' =
      if not (any (is_hit target) t.procs)
      then (r ≡ err esrch) × (t' ≡ t)
      else if any (λ p. is_hit target p && p.pid == init_pid) t.procs
      then (r ≡ err eperm) × (t' ≡ t)
      else (r ≡ ok tt) × ((a : ℕ) → get t' a ≡ Option.map (doomed (is_hit target) reason) (get t a))
