-- ===== src/Proc/Process.antt =====
-- A process and its states, of kernel/src/proc/table.rs, with crates/relay-abi/src/wait.rs (how a
-- child ended) and the state numbers of crates/relay-abi/src/proc.rs.
use relay_os.Prelude.{ℕ, Bool, true, false, Option, List, ◌==◌, leb, ◌&&◌}

pub record WaitStatus : Type 0 where
  pub how : ℕ
  pub code : ℕ
  pub fault : ℕ
  pub detail : ℕ
  pub address : ℕ
  pub ip : ℕ

-- `EXITED`, `KILLED`, `KILLED_FAULT`, `FAULT_PAGE` and `FAULT_OTHER`.
abbrev pub how_exited : ℕ
how_exited = 1

abbrev pub how_killed : ℕ
how_killed = 2

abbrev pub killed_fault : ℕ
killed_fault = 1

abbrev pub fault_page : ℕ
fault_page = 1

abbrev pub fault_other : ℕ
fault_other = 7

unfoldable pub exited : ℕ → WaitStatus
exited code = record { how = how_exited; code = code; fault = 0; detail = 0; address = 0; ip = 0 }

unfoldable pub killed_for : ℕ → WaitStatus
killed_for reason = record {
  how = how_killed;
  code = reason;
  fault = 0;
  detail = 0;
  address = 0;
  ip = 0;
}

unfoldable pub faulted : ℕ → ℕ → ℕ → ℕ → WaitStatus
faulted fault detail address ip = record {
  how = how_killed;
  code = killed_fault;
  fault = fault;
  detail = detail;
  address = address;
  ip = ip;
}

unfoldable pub is_known_fault : WaitStatus → Bool
is_known_fault w =
    w.how == how_killed
    && w.code == killed_fault
    && leb fault_page w.fault
    && leb w.fault fault_other

-- What a blocked process waits for.
pub data Blocked : Type 0 where
  wait wait_ctrl_c console : Blocked
  sleep : ℕ → Blocked
  pipe : ℕ → Blocked

pub data State : Type 0 where
  ready running : State
  blocked : Blocked → State
  zombie : WaitStatus → State

-- The numbers `STATE_RUN` to `STATE_ZOMBIE`.
unfoldable pub state_number : State → ℕ
state_number running = 1
state_number ready = 2
state_number (blocked wait) = 3
state_number (blocked wait_ctrl_c) = 3
state_number (blocked console) = 4
state_number (blocked (sleep _)) = 5
state_number (blocked (pipe _)) = 6
state_number (zombie _) = 7

-- The derived `==` of `Blocked`.
abbrev pub same_reason : Blocked → Blocked → Bool
same_reason wait wait = true
same_reason wait_ctrl_c wait_ctrl_c = true
same_reason console console = true
same_reason (sleep a) (sleep b) = a == b
same_reason (pipe a) (pipe b) = a == b
same_reason _ _ = false

abbrev pub is_ready : State → Bool
is_ready ready = true
is_ready _ = false

abbrev pub is_running : State → Bool
is_running running = true
is_running _ = false

abbrev pub is_blocked : State → Bool
is_blocked (blocked _) = true
is_blocked _ = false

abbrev pub is_zombie : State → Bool
is_zombie (zombie _) = true
is_zombie _ = false

-- Blocked in `wait`, for a child or a Ctrl-C.
abbrev pub is_waiting : State → Bool
is_waiting (blocked wait) = true
is_waiting (blocked wait_ctrl_c) = true
is_waiting _ = false

abbrev pub is_blocked_on : Blocked → State → Bool
is_blocked_on why (blocked b) = same_reason b why
is_blocked_on why _ = false

-- Asleep, and its time has come at tick `now`.
abbrev pub is_due : ℕ → State → Bool
is_due now (blocked (sleep t)) = leb t now
is_due now _ = false

-- `R` is what a process owns besides.
pub record Process {ℓ} (R : Type ℓ) : Type ℓ where
  pub pid : ℕ
  pub ppid : ℕ
  pub pgid : ℕ
  pub name : List ℕ
  pub state : State
  pub killed : Option ℕ
  pub ticks : ℕ
  pub res : R
