-- ===== src/Term/Ansi/Bounds.antt =====
-- crates/term/src/ansi.rs: the parser's numbers stay in their types, and what it hands out is in range.
use relay_os.Prelude.{
  ℕ, zero, suc, ◌+◌, ◌-◌, ◌*◌, ◌%◌, ◌^◌, ◌≤◌, ◌<◌, ◌≡◌, refl, ◌∙◌, arith, bit_and, bit_or, Bool,
  true, false, ◌||◌, ◌&&◌, not, List, [], ◌∷◌, ◌++◌, ◌==◌, leb, ltb, if◌then◌else◌, length, get_or,
  set, length-set,
}
use relay_os.Term.Ansi.{
  max_params, Action, print, control, control_sequence, full_reset, State, ground_state, utf8,
  escape, csi, Parser, new, to, latin1, saturated, in_ground, in_csi, in_utf8, in_escape, advance,
  advance_all,
}

-- Every parameter fits 16 bits.
abbrev pub all_u16 : List ℕ → Bool
all_u16 [] = true
all_u16 (n ∷ ns) = ltb n 65536 && all_u16 ns

pub record IsValid (p : Parser) : Type 0 where
  pub eight : length p.params ≡ max_params
  pub words : all_u16 p.params ≡ true
  pub counted : p.len ≤ max_params + 1

-- A character to draw is printable Latin-1; a sequence has at most eight parameters, each of 16 bits.
abbrev pub in_range : Action → Bool
in_range (print c) = (leb 32 c && leb c 126) || (leb 160 c && leb c 255)
in_range (control c) = c == 10 || (c == 13 || (c == 8 || c == 9))
in_range (control_sequence params len private final) =
    length params == max_params
    && (leb len max_params && (all_u16 params && (leb 64 final && leb final 126)))
in_range full_reset = true

abbrev pub all_in_range : List Action → Bool
all_in_range [] = true
all_in_range (a ∷ actions) = in_range a && all_in_range actions

all_u16-set : (xs : List ℕ) (i v : ℕ) → all_u16 xs ≡ true → v < 65536 → all_u16 (set xs i v) ≡ true
all_u16-set [] i v h lt = refl
all_u16-set (x ∷ xs) zero v h lt = ground arith
all_u16-set (x ∷ xs) (suc i) v h lt = ground (arith, all_u16-set xs i v (ground arith) lt)

-- What a step promises.
abbrev pub Good : List Action × Parser → Type 0
Good (actions, p) = (all_in_range actions ≡ true) × IsValid p

if-Good :
    (c : Bool) (x y : List Action × Parser)
    → (c ≡ true → Good x)
    → (c ≡ false → Good y)
    → Good (if c then x else y)
if-Good true x y g h = g refl
if-Good false x y g h = h refl

to-IsValid : (s : State) (p : Parser) → IsValid p → IsValid (to s p)
to-IsValid s p v = record { eight = v.eight; words = v.words; counted = v.counted }

latin1-in_range : (cp : ℕ) → in_range (print (latin1 cp)) ≡ true
latin1-in_range cp = ground arith

in_ground-Good : (p : Parser) (b : ℕ) → IsValid p → b < 256 → Good (in_ground p b)
unfolding in_ground
in_ground-Good p b v lt =
    if-Good (b == 27) _ _ (λ _. (refl, to-IsValid escape p v))
      (λ _.
        if-Good (b == 10 || (b == 13 || (b == 8 || b == 9))) _ _ (λ h. (ground (arith, h), v))
          (λ _.
            if-Good (leb 32 b && leb b 126) _ _ (λ h. (ground (arith, h), v))
              (λ _.
                if-Good (leb 194 b && leb b 223) _ _ (λ _. (refl, to-IsValid _ p v))
                  (λ _.
                    if-Good (leb 224 b && leb b 239) _ _ (λ _. (refl, to-IsValid _ p v))
                      (λ _.
                        if-Good (leb 240 b && leb b 244) _ _ (λ _. (refl, to-IsValid _ p v))
                          (λ _. if-Good (leb 128 b) _ _ (λ _. (refl, v)) (λ _. (refl, v))))))))

in_csi-Good : (p : Parser) (b : ℕ) → IsValid p → Good (in_csi p b)
unfolding in_csi
in_csi-Good p b v =
    let begun = if p.len == 0 then 1 else p.len in
    let grown = saturated (saturated (get_or p.params (begun - 1) 0 * 10) + (b - 48)) in
    if-Good (leb 48 b && leb b 57) _ _
      (λ _. (
        refl,
        record {
          eight = length-set p.params (begun - 1) grown ∙ v.eight;
          words = all_u16-set p.params (begun - 1) grown v.words (omega arith);
          counted = ground (arith, v.counted);
        },
      ))
      (λ _.
        if-Good (b == 59) _ _
          (λ _. (refl, record { eight = v.eight; words = v.words; counted = omega arith }))
          (λ _.
            if-Good (b == 63 || (b == 62 || b == 61)) _ _
              (λ _. (refl, record { eight = v.eight; words = v.words; counted = v.counted }))
              (λ _.
                if-Good (leb 64 b && leb b 126) _ _
                  (λ h. (ground (arith, h, v.eight, v.words), to-IsValid ground_state p v))
                  (λ _.
                    if-Good (b == 27) _ _ (λ _. (refl, to-IsValid escape p v)) (λ _. (refl, v))))))

in_utf8-Good :
    (p : Parser) (cp remaining b : ℕ) → IsValid p → b < 256 → Good (in_utf8 p cp remaining b)
unfolding in_utf8
in_utf8-Good p cp remaining b v lt =
    let longer = bit_or (cp * 64 % 2 ^ 32) (bit_and b 63) in
    if-Good (not (bit_and b 192 == 128)) _ _
      (λ _.
        let (actions, after) =
          in_ground-Good (to ground_state p) b (to-IsValid ground_state p v) lt in
        (actions, after))
      (λ _.
        if-Good (ltb 1 remaining) _ _ (λ _. (refl, to-IsValid _ p v))
          (λ _. (ground (arith, latin1-in_range longer), to-IsValid ground_state p v)))

in_escape-Good : (p : Parser) (b : ℕ) → IsValid p → Good (in_escape p b)
in_escape-Good p b v =
    if-Good (b == 91) _ _
      (λ _. (refl, record { eight = refl; words = refl; counted = omega arith }))
      (λ _.
        if-Good (b == 99) _ _ (λ _. (refl, to-IsValid ground_state p v))
          (λ _. (refl, to-IsValid ground_state p v)))

pub advance-Good : (p : Parser) (b : ℕ) → IsValid p → b < 256 → Good (advance p b)
unfolding advance
advance-Good p b v lt =
    elim p.state
      as (λ s. Good (elim s [
        | ground_state ↦ in_ground p b
        | utf8 cp remaining ↦ in_utf8 p cp remaining b
        | escape ↦ in_escape p b
        | csi ↦ in_csi p b
      ])) [
        | ground_state ↦ in_ground-Good p b v lt
        | utf8 cp remaining ↦ in_utf8-Good p cp remaining b v lt
        | escape ↦ in_escape-Good p b v
        | csi ↦ in_csi-Good p b v
      ]

abbrev pub all_bytes : List ℕ → Bool
all_bytes [] = true
all_bytes (b ∷ bytes) = ltb b 256 && all_bytes bytes

all_in_range-append :
    (xs ys : List Action) → all_in_range (xs ++ ys) ≡ all_in_range xs && all_in_range ys
all_in_range-append [] ys = refl
all_in_range-append (x ∷ xs) ys = ground (arith, all_in_range-append xs ys)

pub new-IsValid : IsValid new
unfolding new
new-IsValid = record { eight = refl; words = refl; counted = omega arith }

-- Whatever bytes it is fed, the parser's parameters stay eight numbers of 16 bits, and every action it
-- hands out is in range: a character of printable Latin-1, one of the four controls, or a sequence
-- with at most eight parameters and a final byte from `@` to `~`.
pub advance_all-Good :
    (p : Parser) (bytes : List ℕ) → IsValid p → all_bytes bytes ≡ true → Good (advance_all p bytes)
advance_all-Good p [] v h = (refl, v)
advance_all-Good p (b ∷ bytes) v h =
    let (actions, after) = advance-Good p b v (ground arith) in
    let (rest, last) = advance_all-Good (advance p b).1 bytes after (ground arith) in
    (
      ground (
        arith,
        actions,
        rest,
        all_in_range-append (advance p b).0 (advance_all (advance p b).1 bytes).0,
      ),
      last,
    )
