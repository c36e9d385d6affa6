-- ===== src/Line.antt =====
-- kernel/src/line.rs: the console's line discipline. A key is the bytes that it sends; what the
-- screen should show is added to `echo`.
pub mod Bounds
pub mod Delivery
pub mod Clean
mod Tests
use relay_os.Prelude.{
  ℕ, ◌+◌, ◌-◌, min, bit_and, Bool, true, false, ◌&&◌, ◌||◌, not, Option, none, some, List, [], ◌∷◌,
  ◌++◌, reverse, ◌==◌, ltb, leb, if◌then◌else◌, length, take, drop,
}

abbrev pub line_max : ℕ
line_max = 4096

abbrev pub interrupt : ℕ
interrupt = 3

abbrev pub end_key : ℕ
end_key = 4

abbrev pub is_erase : ℕ → Bool
is_erase b = b == 127 || b == 8

abbrev pub esc : ℕ
esc = 27

-- `ready`: the lines that wait, oldest first; `none` is end of input.
pub record LineDiscipline : Type 0 where
  pub line : List ℕ
  pub ready : List (Option (List ℕ))
  pub waiting : ℕ
  pub after_cr : Bool

unfoldable pub new : LineDiscipline
new = record { line = []; ready = []; waiting = 0; after_cr = false }

unfoldable pub hand_over : LineDiscipline → LineDiscipline
hand_over d = record d {
  line = [];
  ready = d.ready ++ (some d.line ∷ []);
  waiting = d.waiting + length d.line;
}

-- The loop that pops a character: `line` is the line from its last byte back.
abbrev pub pop_character : List ℕ → List ℕ
pop_character [] = []
pop_character (c ∷ line) = if bit_and c 192 == 128 then pop_character line else line

-- The tail of `b'\t' | 0x20..=0x7E | 0x80..`
abbrev pub is_text : ℕ → Bool
is_text b = b == 9 || ((leb 32 b && leb b 126) || leb 128 b)

abbrev Typed : Type 0
Typed = Bool × List ℕ × LineDiscipline

-- One arm of the match each, with `after_cr` taken.
unfoldable pub on_interrupt : LineDiscipline → List ℕ → Typed
on_interrupt d echo = (true, echo, record d { line = []; ready = []; waiting = 0 })

unfoldable pub on_enter : LineDiscipline → ℕ → List ℕ → Typed
unfolding hand_over
on_enter d b echo =
    let cr = record d { after_cr = b == 13 } in
    if ltb (d.waiting + length d.line) line_max
    then (false, echo ++ (10 ∷ []), hand_over (record cr { line = d.line ++ (10 ∷ []) }))
    else (false, echo, cr)

unfoldable pub on_end : LineDiscipline → List ℕ → Typed
unfolding hand_over
on_end d echo =
    if length d.line == 0
    then (if ltb d.waiting line_max
        then (false, echo, record d { ready = d.ready ++ (none ∷ []); waiting = d.waiting + 1 })
        else (false, echo, d))
    else (false, echo, hand_over d)

unfoldable pub on_erase : LineDiscipline → List ℕ → Typed
on_erase d echo = if length d.line == 0 then (false, echo, d) else (
  false,
  echo ++ (8 ∷ 32 ∷ 8 ∷ []),
  record d { line = reverse (pop_character (reverse d.line)) },
)

unfoldable pub on_text : LineDiscipline → ℕ → List ℕ → Typed
on_text d b echo =
    if leb (d.waiting + length d.line + 2) line_max
    then (false, echo ++ (b ∷ []), record d { line = d.line ++ (b ∷ []) })
    else (false, echo, d)

unfoldable pub input : LineDiscipline → List ℕ → List ℕ → Typed
unfolding on_interrupt on_enter on_end on_erase on_text
input d key echo =
    let taken = record d { after_cr = false } in
    elim key [
      | b ∷ [] ↦
          if b == interrupt
          then on_interrupt taken echo
          else if b == 10 && d.after_cr
          then (false, echo, taken)
          else if b == 13 || b == 10
          then on_enter taken b echo
          else if b == end_key
          then on_end taken echo
          else if is_erase b
          then on_erase taken echo
          else if b == esc
          then (false, echo, taken)
          else if is_text b
          then on_text taken b echo
          else (false, echo, taken)
      | _ ↦ (false, echo, taken)
    ]

-- The setter `after_cr`.
unfoldable pub set_after_cr : LineDiscipline → Bool → LineDiscipline
set_after_cr d cr = record d { after_cr = cr }

unfoldable pub has_line : LineDiscipline → Bool
has_line d = not (length d.ready == 0)

-- The bytes that a buffer of `room` bytes gets; `none` when no line waits. `waiting` is a `usize`.
unfoldable pub read : LineDiscipline → ℕ → Option (List ℕ) × LineDiscipline
read d room = if room == 0 then (some [], d) else elim d.ready [
  | [] ↦ (none, d)
  | none ∷ ready ↦ (some [], record d { ready = ready; waiting = d.waiting - 1 })
  | some line ∷ ready ↦
      let n = min room (length line) in
      let rest = if n == length line then ready else some (drop n line) ∷ ready in
      (some (take n line), record d { ready = rest; waiting = d.waiting - n })
]

-- `self.ready.drain(..).flatten().flatten()`
abbrev pub flattened : List (Option (List ℕ)) → List ℕ
flattened [] = []
flattened (none ∷ ready) = flattened ready
flattened (some line ∷ ready) = line ++ flattened ready

unfoldable pub take_all : LineDiscipline → List ℕ × LineDiscipline
take_all d =
    (flattened d.ready ++ d.line, record { line = []; ready = []; waiting = 0; after_cr = false })
