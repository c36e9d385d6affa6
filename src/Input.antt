-- ===== src/Input.antt =====
-- kernel/src/input.rs: the bytes typed on the console, from the keyboard and the serial port, until
-- they are read: raw ones here, in line mode by the line discipline. Keys are those of
-- crates/usb/src/hid/keymap.rs. Times are milliseconds.
mod Keys
mod Bounds
mod Modes
mod Handback
mod Tests
use relay_os.Prelude.{
  ℕ, zero, suc, ◌+◌, ◌-◌, ◌*◌, min, bit_and, Bool, true, false, ◌&&◌, ◌||◌, not, Option, none, some,
  List, [], ◌∷◌, ◌++◌, ◌==◌, ltb, leb, if◌then◌else◌, length, get_or, take, drop, any, position,
}
use relay_os.Line
use relay_os.Line.{LineDiscipline, take_all, set_after_cr, has_line, interrupt}

abbrev pub queue_max : ℕ
queue_max = 4096

abbrev pub sequence_max : ℕ
sequence_max = 8

abbrev pub esc_timeout_ms : ℕ
esc_timeout_ms = 50

pub record InputQueue : Type 0 where
  pub bytes : List ℕ
  pub taken_cr : Bool
  pub echoed : ℕ
  pub sequence : List ℕ
  pub sequence_since : ℕ
  pub line_mode : Bool
  pub line : LineDiscipline
  pub echo : List ℕ
  pub interrupted : Bool

unfoldable pub new : InputQueue
new = record {
  bytes = [];
  taken_cr = false;
  echoed = 0;
  sequence = [];
  sequence_since = 0;
  line_mode = false;
  line = Line.new;
  echo = [];
  interrupted = false;
}

-- `(0x40..=0x7E).contains(&b)`
abbrev pub is_final : ℕ → Bool
is_final b = leb 64 b && leb b 126

-- How many bytes the first key has.
abbrev pub key_length : List ℕ → ℕ
key_length [] = 0
key_length (b ∷ []) = 1
key_length (b ∷ (c ∷ tail)) =
    if b == 27 && c == 91
    then 2 + (elim (position is_final tail) [ none ↦ length tail | some i ↦ i + 1 ])
    else 1

abbrev pub keys_loop : ℕ → List ℕ → List (List ℕ)
keys_loop zero rest = []
keys_loop (suc fuel) [] = []
keys_loop (suc fuel) (b ∷ rest) =
    let n = key_length (b ∷ rest) in take n (b ∷ rest) ∷ keys_loop fuel (drop n (b ∷ rest))

unfoldable pub keys : List ℕ → List (List ℕ)
keys bytes = keys_loop (length bytes) bytes

-- The loops `for key in keys(…)`: whether one was a Ctrl-C, the echo, and the line discipline.
abbrev pub feed : List (List ℕ) → Bool → List ℕ → LineDiscipline → Bool × List ℕ × LineDiscipline
feed [] hit echo d = (hit, echo, d)
feed (key ∷ ks) hit echo d =
    let (c, echo', d') = Line.input d key echo in feed ks (hit || c) echo' d'

abbrev pub has_interrupt : List ℕ → Bool
has_interrupt bytes = any (λ b. b == interrupt) bytes

-- The bytes from the last Ctrl-C on (`rposition`).
abbrev pub from_interrupt : List ℕ → Option (List ℕ)
from_interrupt [] = none
from_interrupt (b ∷ bytes) = elim (from_interrupt bytes) [
  | some last ↦ some last
  | none ↦ if b == interrupt then some (b ∷ bytes) else none
]

-- As many as there is room for.
abbrev pub extend : InputQueue → List ℕ → InputQueue
extend q bytes = record q {
  bytes = q.bytes ++ take (min (length bytes) (queue_max - length q.bytes)) bytes;
}

abbrev pub push_line : InputQueue → List ℕ → InputQueue
push_line q bytes =
    let (hit, echo, d) = feed (keys bytes) q.interrupted q.echo q.line in
    record q {
      interrupted = hit;
      echo = echo;
      line = d;
      sequence = if has_interrupt bytes then [] else q.sequence;
    }

abbrev pub push_raw : InputQueue → List ℕ → InputQueue
push_raw q bytes = elim (from_interrupt bytes) [
  | none ↦ extend q bytes
  | some last ↦ extend (record q { bytes = []; echoed = 0; sequence = [] }) last
]

unfoldable pub push : InputQueue → List ℕ → InputQueue
push q bytes = if q.line_mode then push_line q bytes else push_raw q bytes

-- The first branch of `set_line_mode`, with the mode set.
unfoldable pub to_line_mode : InputQueue → InputQueue
unfolding push
to_line_mode q =
    let ahead = q.bytes in
    let quiet = min q.echoed (length ahead) in
    let (hit, _, d) =
      feed (keys (take quiet ahead)) q.interrupted [] (set_after_cr q.line q.taken_cr) in
    push
      (record q {
        bytes = [];
        taken_cr = false;
        echoed = 0;
        line_mode = true;
        line = d;
        interrupted = hit;
      })
      (drop quiet ahead)

-- The second one.
unfoldable pub to_raw_mode : InputQueue → InputQueue
unfolding push
to_raw_mode q =
    let (typed, d) = take_all q.line in
    let emptied = record q { line_mode = false; line = d; interrupted = false } in
    let stopped = if q.interrupted then push emptied (interrupt ∷ []) else emptied in
    let filled = push stopped typed in record filled { echoed = length filled.bytes }

unfoldable pub set_line_mode : InputQueue → Bool → Bool × InputQueue
unfolding to_line_mode to_raw_mode
set_line_mode q line = (
  q.line_mode,
  if line && not q.line_mode
      then to_line_mode q
      else if not line && q.line_mode
      then to_raw_mode q
      else record q { line_mode = line },
)

unfoldable pub pop : InputQueue → Option ℕ × InputQueue
pop q = elim q.bytes [
  | [] ↦ (none, q)
  | b ∷ bytes ↦ (some b, record q { bytes = bytes; taken_cr = b == 13; echoed = q.echoed - 1 })
]

unfoldable pub has_raw_interrupt : InputQueue → Bool
has_raw_interrupt q = elim q.bytes [ [] ↦ false | b ∷ _ ↦ b == interrupt ]

unfoldable pub take_raw_interrupt : InputQueue → Bool × InputQueue
unfolding pop has_raw_interrupt
take_raw_interrupt q = if has_raw_interrupt q then (true, (pop q).1) else (false, q)

unfoldable pub take_line_interrupt : InputQueue → Bool × InputQueue
take_line_interrupt q = (q.interrupted, record q { interrupted = false })

unfoldable pub take_line_interrupt_for : InputQueue → Bool → Bool × InputQueue
unfolding take_line_interrupt
take_line_interrupt_for q alive = if alive then take_line_interrupt q else (false, q)

unfoldable pub take_echo : InputQueue → List ℕ × InputQueue
take_echo q = (q.echo, record q { echo = [] })

-- The bytes that a buffer of `room` bytes gets; `none` if nothing waits.
unfoldable pub read : InputQueue → ℕ → Option (List ℕ) × InputQueue
read q room =
    if q.line_mode
    then (let (r, d) = Line.read q.line room in (r, record q { line = d }))
    else if room == 0
    then (some [], q)
    else if length q.bytes == 0
    then (none, q)
    else let n = min room (length q.bytes) in
      (
        some (take n q.bytes),
        record q {
          bytes = drop n q.bytes;
          taken_cr = get_or q.bytes (n - 1) 0 == 13;
          echoed = q.echoed - n;
        },
      )

unfoldable pub push_serial : InputQueue → ℕ → ℕ → InputQueue
unfolding push
push_serial q b now =
    if b == interrupt || (length q.sequence == 0 && not (b == 27))
    then push q (b ∷ [])
    else let s = q.sequence ++ (b ∷ []) in
      let begun = record q {
        sequence = s;
        sequence_since = if length q.sequence == 0 then now else q.sequence_since;
      } in
      if (length s == 2 && not (get_or s 1 0 == 91)) || (ltb 2 (length s) && is_final b)
      then (let taken = record begun { sequence = [] } in
          if leb (length q.bytes + length s) queue_max then push taken s else taken)
      else if leb sequence_max (length s)
      then record begun { sequence = [] }
      else begun

unfoldable pub expire : InputQueue → ℕ → InputQueue
unfolding push
expire q now =
    if length q.sequence == 0 || ltb (now - q.sequence_since) esc_timeout_ms
    then q
    else let taken = record q { sequence = [] } in
      if length q.sequence == 1 && get_or q.sequence 0 0 == 27 then push taken q.sequence else taken

unfoldable pub is_empty : InputQueue → Bool
is_empty q = length q.bytes == 0 && not (has_line q.line)

-- The enum `Key` and the structs that hold it.
pub data Key : Type 0 where
  char : ℕ → Key
  enter escape backspace tab caps_lock : Key
  function : ℕ → Key
  print_screen scroll_lock pause insert home page_up delete end page_down : Key
  right left down up num_lock menu : Key

pub record Modifiers : Type 0 where
  pub shift : Bool
  pub ctrl : Bool
  pub alt : Bool
  pub caps_lock_on : Bool

pub record KeyEvent : Type 0 where
  pub key : Key
  pub modifiers : Modifiers
  pub pressed : Bool

abbrev pub sequence_of : Key → Option (List ℕ)
sequence_of up = some (27 ∷ 91 ∷ 65 ∷ [])
sequence_of down = some (27 ∷ 91 ∷ 66 ∷ [])
sequence_of right = some (27 ∷ 91 ∷ 67 ∷ [])
sequence_of left = some (27 ∷ 91 ∷ 68 ∷ [])
sequence_of home = some (27 ∷ 91 ∷ 72 ∷ [])
sequence_of end = some (27 ∷ 91 ∷ 70 ∷ [])
sequence_of insert = some (27 ∷ 91 ∷ 50 ∷ 126 ∷ [])
sequence_of delete = some (27 ∷ 91 ∷ 51 ∷ 126 ∷ [])
sequence_of page_up = some (27 ∷ 91 ∷ 53 ∷ 126 ∷ [])
sequence_of page_down = some (27 ∷ 91 ∷ 54 ∷ 126 ∷ [])
sequence_of _ = none

-- Ctrl with a letter or `[ \ ] ^ _` is its control code.
abbrev pub control_code : ℕ → ℕ
control_code c =
    if (leb 97 c && leb c 122) || (leb 65 c && leb c 95)
    then bit_and c 31
    else if c == 63
    then 127
    else c

abbrev pub byte_of : KeyEvent → Option ℕ
byte_of e = elim e.key [
  | char c ↦ some (if e.modifiers.ctrl then control_code c else c)
  | enter ↦ some 13
  | tab ↦ some 9
  | backspace ↦ some 127
  | escape ↦ some 27
  | _ ↦ none
]

unfoldable pub push_key : InputQueue → KeyEvent → InputQueue
unfolding push
push_key q e = if not e.pressed then q else (elim (sequence_of e.key) [
  | some s ↦ if leb (length q.bytes + length s) queue_max then push q s else q
  | none ↦ elim (byte_of e) [ some b ↦ push q (b ∷ []) | none ↦ q ]
])
