-- ===== src/Errno.antt =====
-- crates/vfs/src/errno.rs and crates/relay-abi/src/errno.rs: the error numbers that the system calls
-- return, and `Result` over them.
mod Tests
use relay_os.Prelude.{ℕ, Option, none, some, List, [], ◌∷◌, ◌==◌, find, ◌≡◌, refl}

pub data Errno : Type 0 where
  enoent eexist enotdir eisdir enotempty enospc eio erofs einval enametoolong : Errno
  exdev ebusy efbig e2big enoexec ebadf echild eagain enomem efault enosys esrch : Errno
  eperm eintr emfile erange epipe : Errno

pub data Result {ℓ} (A : Type ℓ) : Type ℓ where
  ok : A → Result A
  err : Errno → Result A

-- Linux's values.
abbrev pub number : Errno → ℕ
number eperm = 1
number enoent = 2
number esrch = 3
number eintr = 4
number eio = 5
number e2big = 7
number enoexec = 8
number ebadf = 9
number echild = 10
number eagain = 11
number enomem = 12
number efault = 14
number ebusy = 16
number eexist = 17
number exdev = 18
number enotdir = 20
number eisdir = 21
number einval = 22
number emfile = 24
number efbig = 27
number enospc = 28
number erofs = 30
number epipe = 32
number erange = 34
number enametoolong = 36
number enosys = 38
number enotempty = 39

-- `Errno::ALL`
abbrev pub all : List Errno
all =
    enoent ∷ eexist ∷ enotdir ∷ eisdir ∷ enotempty ∷ enospc ∷ eio ∷ erofs ∷ einval ∷ enametoolong
    ∷ exdev ∷ ebusy ∷ efbig ∷ e2big ∷ enoexec ∷ ebadf ∷ echild ∷ eagain ∷ enomem ∷ efault ∷ enosys
    ∷ esrch ∷ eperm ∷ eintr ∷ emfile ∷ erange ∷ epipe ∷ []

abbrev or_eio : Option Errno → Errno
or_eio none = eio
or_eio (some e) = e

unfoldable pub from_number : ℕ → Errno
from_number n = or_eio (find (λ e. number e == n) all)

-- Every error comes back from its number, so no two errors share one.
pub from_number-number : (e : Errno) → from_number (number e) ≡ e
unfolding from_number
from_number-number enoent = refl
from_number-number _ = refl
