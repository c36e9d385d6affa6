-- ===== src/Pipe.antt =====
-- kernel/src/pipe.rs: a ring of 16 KiB between the processes that have a pipe's read end and those
-- that have its write end. `read` and `write` say when the caller must wait; waiting and waking are
-- the kernel's, so an end that closes returns the id whose waiters are woken.
pub mod Fifo
pub mod Calls
pub mod Stream
mod Tests
use relay_os.Prelude.{
  ℕ, ◌+◌, ◌-◌, ◌*◌, ◌%◌, min, Bool, ◌&&◌, not, Option, none, some, List, [], ◌++◌, ◌==◌,
  if◌then◌else◌, length, take, slice, splice,
}
use relay_os.Errno.{Errno, epipe, Result, ok, err}

-- The ring's size.
abbrev pub size : ℕ
size = 16 * 1024

-- `memory` is the `size` bytes of the ring.
pub record Ring : Type 0 where
  pub memory : List ℕ
  pub start : ℕ
  pub len : ℕ
  pub readers : ℕ
  pub writers : ℕ

pub data Side : Type 0 where
  read_end write_end : Side

unfoldable pub new : List ℕ → Ring
new memory = record { memory = memory; start = 0; len = 0; readers = 1; writers = 1 }

-- `none`: the caller must wait. Otherwise the bytes that the buffer of `room` bytes gets.
unfoldable pub read : Ring → ℕ → Option (List ℕ) × Ring
read r room =
    if r.len == 0
    then (if r.writers == 0 then (some [], r) else (none, r))
    else let n = min room r.len in
      let first = min n (size - r.start) in
      (
        some (slice r.memory r.start first ++ slice r.memory 0 (n - first)),
        record r { start = (r.start + n) % size; len = r.len - n },
      )

-- `ok none`: the caller must wait. Otherwise how many of `bytes` the ring took.
unfoldable pub write : Ring → List ℕ → Result (Option ℕ) × Ring
write r bytes =
    if r.readers == 0
    then (err epipe, r)
    else let n = min (length bytes) (size - r.len) in
      if n == 0 && not (length bytes == 0)
      then (ok none, r)
      else let at = (r.start + r.len) % size in
        let first = min n (size - at) in
        (
          ok (some n),
          record r {
            memory =
                splice (splice r.memory at (take first bytes)) 0 (slice bytes first (n - first));
            len = r.len + n;
          },
        )

-- The last fd of an end closes: the waiters on the pipe `id` are woken. `none` is the panic of a
-- count that goes below 0.
unfoldable pub drop_end : ℕ → Side → Ring → Option (ℕ × Ring)
drop_end id read_end r =
    if r.readers == 0 then none else some (id, record r { readers = r.readers - 1 })
drop_end id write_end r =
    if r.writers == 0 then none else some (id, record r { writers = r.writers - 1 })
