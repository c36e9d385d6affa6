-- ===== src/Term/Ansi.antt =====
-- crates/term/src/ansi.rs: the parser of UTF-8 text and escape sequences. `advance` gives the actions
-- that the source hands to `out`, in order.
mod Utf8
pub mod Bounds
mod Tests
use relay_os.Prelude.{
  ℕ, suc, ◌+◌, ◌-◌, ◌*◌, ◌%◌, ◌^◌, min, bit_and, bit_or, Bool, true, false, ◌||◌, ◌&&◌, not, Option,
  none, some, List, [], ◌∷◌, ◌++◌, ◌==◌, leb, ltb, if◌then◌else◌, length, get_or, set, replicate,
}

abbrev pub max_params : ℕ
max_params = 8

pub data Action : Type 0 where
  print control : ℕ → Action
  -- The parameters, how many there are, whether the sequence is private, and its final byte.
  control_sequence : List ℕ → ℕ → Bool → ℕ → Action
  full_reset : Action

-- `utf8`: the code point so far and the bytes still expected.
pub data State : Type 0 where
  ground_state escape csi : State
  utf8 : ℕ → ℕ → State

pub record Parser : Type 0 where
  pub state : State
  pub params : List ℕ
  pub len : ℕ
  pub private : Bool

unfoldable pub new : Parser
new = record { state = ground_state; params = replicate max_params 0; len = 0; private = false }

abbrev pub latin1 : ℕ → ℕ
latin1 cp = if (leb 32 cp && leb cp 126) || (leb 160 cp && leb cp 255) then cp else 63

abbrev Stepped : Type 0
Stepped = List Action × Parser

abbrev pub to : State → Parser → Parser
to s p = record p { state = s }

unfoldable pub in_ground : Parser → ℕ → Stepped
in_ground p b =
    if b == 27
    then ([], to escape p)
    else if b == 10 || (b == 13 || (b == 8 || b == 9))
    then (control b ∷ [], p)
    else if leb 32 b && leb b 126
    then (print b ∷ [], p)
    else if leb 194 b && leb b 223
    then ([], to (utf8 (bit_and b 31) 1) p)
    else if leb 224 b && leb b 239
    then ([], to (utf8 (bit_and b 15) 2) p)
    else if leb 240 b && leb b 244
    then ([], to (utf8 (bit_and b 7) 3) p)
    else if leb 128 b
    then (print 63 ∷ [], p)
    else ([], p)

-- `u16::saturating_mul` and `saturating_add`.
abbrev pub saturated : ℕ → ℕ
saturated n = min n 65535

-- `if let Some(p) = self.params.get_mut(self.len - 1)`; a write out of range changes nothing.
unfoldable pub in_csi : Parser → ℕ → Stepped
in_csi p b =
    let begun = if p.len == 0 then 1 else p.len in
    if leb 48 b && leb b 57
    then (
      [],
      record p {
        len = begun;
        params =
            set p.params (begun - 1)
              (saturated (saturated (get_or p.params (begun - 1) 0 * 10) + (b - 48)));
      },
    )
    else if b == 59
    then ([], record p { len = min (begun + 1) (max_params + 1) })
    else if b == 63 || (b == 62 || b == 61)
    then ([], record p { private = true })
    else if leb 64 b && leb b 126
    then (control_sequence p.params (min p.len max_params) p.private b ∷ [], to ground_state p)
    else if b == 27
    then ([], to escape p)
    else ([], p)

-- The arm of `State::Utf8`.
unfoldable pub in_utf8 : Parser → ℕ → ℕ → ℕ → Stepped
unfolding in_ground
in_utf8 p cp remaining b =
    if not (bit_and b 192 == 128)
    then (let (actions, after) = in_ground (to ground_state p) b in (print 63 ∷ actions, after))
    else let longer = bit_or (cp * 64 % 2 ^ 32) (bit_and b 63) in
      if ltb 1 remaining
      then ([], to (utf8 longer (remaining - 1)) p)
      else (print (latin1 longer) ∷ [], to ground_state p)

abbrev pub in_escape : Parser → ℕ → Stepped
in_escape p b =
    if b == 91
    then ([], record { state = csi; params = replicate max_params 0; len = 0; private = false })
    else if b == 99
    then (full_reset ∷ [], to ground_state p)
    else ([], to ground_state p)

unfoldable pub advance : Parser → ℕ → Stepped
unfolding in_ground in_utf8 in_csi
advance p b = elim p.state [
  | ground_state ↦ in_ground p b
  | utf8 cp remaining ↦ in_utf8 p cp remaining b
  | escape ↦ in_escape p b
  | csi ↦ in_csi p b
]

-- The parser's part of `write_bytes`.
abbrev pub advance_all : Parser → List ℕ → Stepped
advance_all p [] = ([], p)
advance_all p (b ∷ bytes) =
    let (actions, p') = advance p b in
    let (rest, p'') = advance_all p' bytes in (actions ++ rest, p'')
