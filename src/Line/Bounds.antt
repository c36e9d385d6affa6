-- ===== src/Line/Bounds.antt =====
-- kernel/src/line.rs: the invariant of the line discipline. What is kept stays within `LINE_MAX`,
-- and `waiting` is the count of what waits.
use relay_os.Prelude.{
  ℕ, ◌+◌, ◌≤◌, ◌<◌, ◌≡◌, refl, ap, inl, inr, arith, min, Bool, true, false, ◌&&◌, ◌||◌, Option,
  none, some, List, [], ◌∷◌, ◌++◌, reverse, reverse_aux, ◌==◌, ltb, leb, if◌then◌else◌, length,
  length-append, length-drop, Bool-cases, List-cases,
}
use relay_os.Line.{
  LineDiscipline, line_max, new, hand_over, pop_character, on_interrupt, on_enter, on_end, on_erase,
  on_text, input, interrupt, end_key, is_erase, esc, is_text, set_after_cr, read, take_all,
}

-- The bytes of the lines that wait, an end of input counting as one.
abbrev pub total : List (Option (List ℕ)) → ℕ
total [] = 0
total (none ∷ ready) = 1 + total ready
total (some line ∷ ready) = length line + total ready

-- Room for the `\n` of a line that was begun.
pub record IsValid (d : LineDiscipline) : Type 0 where
  pub counted : d.waiting ≡ total d.ready
  pub bounded : d.waiting ≤ line_max
  pub room : 0 < length d.line → d.waiting + length d.line < line_max

total-snoc :
    (ready : List (Option (List ℕ))) (last : Option (List ℕ))
    → total (ready ++ (last ∷ [])) ≡ total ready + total (last ∷ [])
total-snoc [] none = omega arith
total-snoc [] (some line) = omega arith
total-snoc (none ∷ ready) last = ground (arith, total-snoc ready last)
total-snoc (some line ∷ ready) last = ground (arith, total-snoc ready last)

length-reverse_aux : (xs r : List ℕ) → length (reverse_aux xs r) ≡ length xs + length r
length-reverse_aux [] r = omega arith
length-reverse_aux (x ∷ xs) r = omega (arith, length-reverse_aux xs (x ∷ r))

length-reverse : (xs : List ℕ) → length (reverse xs) ≡ length xs
length-reverse xs = omega (arith, length-reverse_aux xs [])

length-pop_character : (xs : List ℕ) → 0 < length xs → length (pop_character xs) < length xs
length-pop_character [] lt = absurd (omega arith)
length-pop_character (c ∷ []) lt = ground arith
length-pop_character (c ∷ (x ∷ xs)) lt = ground (arith, length-pop_character (x ∷ xs) (omega arith))

pub new-IsValid : IsValid new
unfolding new
new-IsValid = record { counted = refl; bounded = omega arith; room = λ lt. absurd (omega arith) }

hand_over-IsValid :
    (d : LineDiscipline) (v : IsValid d)
    → d.waiting + length d.line ≤ line_max
    → IsValid (hand_over d)
unfolding hand_over
hand_over-IsValid d v le = record {
  counted = ground (arith, v.counted, total-snoc d.ready (some d.line));
  bounded = le;
  room = λ lt. absurd (omega arith);
}

on_erase-IsValid :
    (d : LineDiscipline) (echo : List ℕ) (v : IsValid d) → IsValid (on_erase d echo).2
unfolding on_erase
on_erase-IsValid d echo v = elim (Bool-cases (length d.line == 0)) [
  | inl empty ↦ rw empty v
  | inr begun ↦
      let shorter : length (reverse (pop_character (reverse d.line))) < length d.line = omega (
        arith,
        length-reverse (pop_character (reverse d.line)),
        length-reverse d.line,
        length-pop_character (reverse d.line) (ground (arith, length-reverse d.line)),
      ) in
      rw begun (record {
        counted = v.counted;
        bounded = v.bounded;
        room = λ lt. omega (arith, v.room (omega arith));
      })
]

on_text-IsValid :
    (d : LineDiscipline) (b : ℕ) (echo : List ℕ) (v : IsValid d) → IsValid (on_text d b echo).2
unfolding on_text
on_text-IsValid d b echo v = elim (Bool-cases (leb (d.waiting + length d.line + 2) line_max)) [
  | inl fits ↦ rw fits (record {
    counted = v.counted;
    bounded = v.bounded;
    room = λ lt. ground (arith, length-append d.line (b ∷ []));
  })
  | inr full ↦ rw full v
]

on_enter-IsValid :
    (d : LineDiscipline) (b : ℕ) (echo : List ℕ) (v : IsValid d) → IsValid (on_enter d b echo).2
unfolding on_enter hand_over
on_enter-IsValid d b echo v = elim (Bool-cases (ltb (d.waiting + length d.line) line_max)) [
  | inl fits ↦ rw fits (record {
    counted = ground (
      arith,
      v.counted,
      length-append d.line (10 ∷ []),
      total-snoc d.ready (some (d.line ++ (10 ∷ []))),
    );
    bounded = ground (arith, length-append d.line (10 ∷ []));
    room = λ lt. absurd (omega arith);
  })
  | inr full ↦ rw full (record { counted = v.counted; bounded = v.bounded; room = v.room })
]

on_end-IsValid : (d : LineDiscipline) (echo : List ℕ) (v : IsValid d) → IsValid (on_end d echo).2
unfolding on_end
on_end-IsValid d echo v = elim (Bool-cases (length d.line == 0)) [
  | inl empty ↦ rw empty (elim (Bool-cases (ltb d.waiting line_max)) [
    | inl fits ↦ rw fits (record {
      counted = ground (arith, v.counted, total-snoc d.ready none);
      bounded = ground arith;
      room = λ lt. ground arith;
    })
    | inr full ↦ rw full v
  ])
  | inr begun ↦ rw begun (hand_over-IsValid d v (ground (arith, v.room)))
]

-- A flag says nothing about what is kept.
pub flag-IsValid :
    (d : LineDiscipline) (cr : Bool) (v : IsValid d) → IsValid (record d { after_cr = cr })
flag-IsValid d cr v = record { counted = v.counted; bounded = v.bounded; room = v.room }

if-IsValid :
    (c : Bool) (x y : Bool × List ℕ × LineDiscipline)
    → IsValid x.2
    → IsValid y.2
    → IsValid (if c then x else y).2
if-IsValid true x y v w = v
if-IsValid false x y v w = w

pub input-IsValid :
    (d : LineDiscipline) (key echo : List ℕ) (v : IsValid d) → IsValid (input d key echo).2
unfolding input on_interrupt
input-IsValid d [] echo v = flag-IsValid d false v
input-IsValid d (b ∷ []) echo v =
    let taken = record d { after_cr = false } in
    let kept = flag-IsValid d false v in
    if-IsValid (b == interrupt) _ _
      (record { counted = refl; bounded = omega arith; room = λ lt. absurd (omega arith) })
      (if-IsValid (b == 10 && d.after_cr) _ _ kept (
        if-IsValid (b == 13 || b == 10) _ _ (on_enter-IsValid taken b echo kept) (
          if-IsValid (b == end_key) _ _ (on_end-IsValid taken echo kept) (
            if-IsValid (is_erase b) _ _ (on_erase-IsValid taken echo kept) (
              if-IsValid (b == esc) _ _ kept
                (if-IsValid (is_text b) _ _ (on_text-IsValid taken b echo kept) kept))))))
input-IsValid d (b ∷ (c ∷ key)) echo v = flag-IsValid d false v

pub read-IsValid : (d : LineDiscipline) (room : ℕ) (v : IsValid d) → IsValid (read d room).1
unfolding read
read-IsValid d room v = elim (Bool-cases (room == 0)) [
  | inl nothing ↦ rw nothing v
  | inr some_room ↦ rw some_room (elim (List-cases d.ready) [
    | inl empty ↦ rw (empty, read) v
    | inr (none, ready, e) ↦
        rw (e, read)
          (record {
            counted = ground (arith, v.counted, ap total e);
            bounded = ground (arith, v.bounded);
            room = λ lt. ground (arith, v.room lt);
          })
    | inr (some line, ready, e) ↦
        let n = min room (length line) in
        rw (e, read)
          (record {
            counted = ground (arith, v.counted, ap total e, length-drop n line);
            bounded = ground (arith, v.bounded);
            room = λ lt. ground (arith, v.room lt);
          })
  ])
]

pub take_all-IsValid : (d : LineDiscipline) → IsValid (take_all d).1
unfolding take_all
take_all-IsValid d = record {
  counted = refl;
  bounded = omega arith;
  room = λ lt. absurd (omega arith);
}

-- One call of the line discipline, with what it was given.
pub data Step : LineDiscipline → LineDiscipline → Type 0 where
  typed : (d : LineDiscipline) (key echo : List ℕ) → Step d (input d key echo).2
  reads : (d : LineDiscipline) (room : ℕ) → Step d (read d room).1
  drained : (d : LineDiscipline) → Step d (take_all d).1
  flagged : (d : LineDiscipline) (cr : Bool) → Step d (set_after_cr d cr)

pub data Reach : LineDiscipline → Type 0 where
  fresh : Reach new
  next : {d d' : LineDiscipline} → Reach d → Step d d' → Reach d'

Step-IsValid : {d d' : LineDiscipline} → Step d d' → IsValid d → IsValid d'
unfolding set_after_cr
Step-IsValid (typed d key echo) v = input-IsValid d key echo v
Step-IsValid (reads d room) v = read-IsValid d room v
Step-IsValid (drained d) v = take_all-IsValid d
Step-IsValid (flagged d cr) v = flag-IsValid d cr v

-- After any sequence of calls, `waiting` is the number of bytes that wait, an end of input counting
-- as one, at most `LINE_MAX` of them, and a line that was begun has room for its newline, so Enter
-- always ends it.
pub Reach-kept : {d : LineDiscipline} → Reach d → IsValid d
Reach-kept fresh = new-IsValid
Reach-kept (next r s) = Step-IsValid s (Reach-kept r)
