-- ===== src/Line/Delivery.antt =====
-- kernel/src/line.rs: what is typed is what is read. `content` is all that was typed and not read.
use relay_os.Prelude.{
  ℕ, zero, suc, ◌+◌, ◌≡◌, refl, sym, ap, ◌∙◌, inl, inr, arith, min, Bool, true, false, ◌&&◌, ◌||◌,
  not, Option, none, some, List, [], ◌∷◌, ◌++◌, append-nil, append_assoc, ◌==◌, ltb, leb,
  if◌then◌else◌, length, take, drop, Bool-cases, List-cases,
}
use relay_os.Line.{
  LineDiscipline, line_max, interrupt, end_key, is_erase, esc, is_text, hand_over, on_enter, on_end,
  on_text, input, read, flattened,
}

abbrev pub content : LineDiscipline → List ℕ
content d = flattened d.ready ++ d.line

-- The call added to the content what it added to the echo, at their ends.
abbrev Grows : LineDiscipline → List ℕ → Bool × List ℕ × LineDiscipline → Type 0
Grows d echo t = (new : List ℕ) × (t.1 ≡ echo ++ new) × (content t.2 ≡ content d ++ new)

flattened-snoc :
    (ready : List (Option (List ℕ))) (line : List ℕ)
    → flattened (ready ++ (some line ∷ [])) ≡ flattened ready ++ line
flattened-snoc [] line = append-nil line
flattened-snoc (none ∷ ready) line = flattened-snoc ready line
flattened-snoc (some first ∷ ready) line =
    ap (λ rest. first ++ rest) (flattened-snoc ready line)
    ∙ sym (append_assoc first (flattened ready) line)

flattened-end :
    (ready : List (Option (List ℕ))) → flattened (ready ++ (none ∷ [])) ≡ flattened ready
flattened-end [] = refl
flattened-end (none ∷ ready) = flattened-end ready
flattened-end (some first ∷ ready) = ap (λ rest. first ++ rest) (flattened-end ready)

content-hand_over : (d : LineDiscipline) → content (hand_over d) ≡ content d
unfolding hand_over
content-hand_over d = append-nil _ ∙ flattened-snoc d.ready d.line

if-Grows :
    (d : LineDiscipline) (echo : List ℕ) (c : Bool) (x y : Bool × List ℕ × LineDiscipline)
    → (c ≡ true → Grows d echo x)
    → (c ≡ false → Grows d echo y)
    → Grows d echo (if c then x else y)
if-Grows d echo true x y g h = g refl
if-Grows d echo false x y g h = h refl

same-Grows :
    (d d' : LineDiscipline) (echo : List ℕ) (hit : Bool)
    → content d' ≡ content d
    → Grows d echo (hit, echo, d')
same-Grows d d' echo hit e = ([], sym (append-nil echo), e ∙ sym (append-nil (content d)))

line-Grows :
    (d : LineDiscipline) (b : ℕ) → flattened d.ready ++ (d.line ++ (b ∷ [])) ≡ content d ++ (b ∷ [])
line-Grows d b = sym (append_assoc (flattened d.ready) d.line (b ∷ []))

on_enter-Grows : (d : LineDiscipline) (b : ℕ) (echo : List ℕ) → Grows d echo (on_enter d b echo)
unfolding on_enter
on_enter-Grows d b echo =
    let cr = record d { after_cr = b == 13 } in
    if-Grows d echo (ltb (d.waiting + length d.line) line_max) _ _
      (λ _. (
        10 ∷ [],
        refl,
        content-hand_over (record cr { line = d.line ++ (10 ∷ []) }) ∙ line-Grows d 10,
      ))
      (λ _. same-Grows d cr echo false refl)

on_text-Grows : (d : LineDiscipline) (b : ℕ) (echo : List ℕ) → Grows d echo (on_text d b echo)
unfolding on_text
on_text-Grows d b echo =
    if-Grows d echo (leb (d.waiting + length d.line + 2) line_max) _ _
      (λ _. (b ∷ [], refl, line-Grows d b)) (λ _. same-Grows d d echo false refl)

on_end-Grows : (d : LineDiscipline) (echo : List ℕ) → Grows d echo (on_end d echo)
unfolding on_end
on_end-Grows d echo =
    if-Grows d echo (length d.line == 0) _ _
      (λ _.
        if-Grows d echo (ltb d.waiting line_max) _ _
          (λ _.
            same-Grows d (record d { ready = d.ready ++ (none ∷ []); waiting = d.waiting + 1 }) echo
              false (ap (λ s. s ++ d.line) (flattened-end d.ready)))
          (λ _. same-Grows d d echo false refl))
      (λ _. same-Grows d (hand_over d) echo false (content-hand_over d))

-- Neither Ctrl-C nor Backspace.
abbrev pub adds : List ℕ → Bool
adds (b ∷ []) = not (b == interrupt) && not (is_erase b)
adds _ = true

input-Grows :
    (d : LineDiscipline) (key echo : List ℕ) → adds key ≡ true → Grows d echo (input d key echo)
unfolding input
input-Grows d [] echo h = same-Grows d (record d { after_cr = false }) echo false refl
input-Grows d (b ∷ (c ∷ key)) echo h = same-Grows d (record d { after_cr = false }) echo false refl
input-Grows d (b ∷ []) echo h =
    let taken = record d { after_cr = false } in
    let nothing : Grows d echo (false, echo, taken) = same-Grows d taken echo false refl in
    if-Grows d echo (b == interrupt) _ _ (λ e. absurd (ground (arith, e)))
      (λ _.
        if-Grows d echo (b == 10 && d.after_cr) _ _ (λ _. nothing)
          (λ _.
            if-Grows d echo (b == 13 || b == 10) _ _ (λ _. on_enter-Grows taken b echo)
              (λ _.
                if-Grows d echo (b == end_key) _ _ (λ _. on_end-Grows taken echo)
                  (λ _.
                    if-Grows d echo (is_erase b) _ _ (λ e. absurd (ground (arith, e)))
                      (λ _.
                        if-Grows d echo (b == esc) _ _ (λ _. nothing)
                          (λ _.
                            if-Grows d echo (is_text b) _ _ (λ _. on_text-Grows taken b echo)
                              (λ _. nothing)))))))

take-drop : (n : ℕ) (xs : List ℕ) → take n xs ++ drop n xs ≡ xs
take-drop zero xs = refl
take-drop (suc n) [] = refl
take-drop (suc n) (x ∷ xs) = ap (λ ys. x ∷ ys) (take-drop n xs)

take-all : (xs : List ℕ) → take (length xs) xs ≡ xs
take-all [] = refl
take-all (x ∷ xs) = ap (λ ys. x ∷ ys) (take-all xs)

-- The bytes of a read, if it gave any.
abbrev pub given : Option (List ℕ) → List ℕ
given none = []
given (some bytes) = bytes

read-content :
    (d : LineDiscipline) (room : ℕ) → given (read d room).0 ++ content (read d room).1 ≡ content d
unfolding read
read-content d room = elim (Bool-cases (room == 0)) [
  | inl nothing ↦ rw nothing refl
  | inr some_room ↦ rw some_room (elim (List-cases d.ready) [
    | inl empty ↦ rw (empty, read) (ap (λ r. flattened r ++ d.line) empty)
    | inr (none, ready, e) ↦ rw (e, read) refl
    | inr (some line, ready, e) ↦
        let n = min room (length line) in
        rw (e, read)
          (elim (Bool-cases (n == length line)) [
            | inl whole ↦
                let all : take n line ≡ line =
                  (let same : n ≡ length line = ground arith in
                    ap (λ k. take k line) same ∙ take-all line) in
                rw whole (
                  ap (λ s. s ++ (flattened ready ++ d.line)) all
                  ∙ sym (append_assoc line (flattened ready) d.line))
            | inr part ↦ rw part (
                sym (append_assoc (take n line) (drop n line ++ flattened ready) d.line)
                ∙ ap (λ s. s ++ d.line)
                    (sym (append_assoc (take n line) (drop n line) (flattened ready))
                      ∙ ap (λ s. s ++ flattened ready) (take-drop n line)))
          ])
  ])
]

-- What the console is asked for: a key, or a read into a buffer of some size.
pub data Request : Type 0 where
  key : List ℕ → Request
  reading : ℕ → Request

abbrev pub all_add : List Request → Bool
all_add [] = true
all_add (key k ∷ requests) = adds k && all_add requests
all_add (reading room ∷ requests) = all_add requests

-- What was read in all, the echo in all, and the line discipline after it.
abbrev pub run : LineDiscipline → List Request → List ℕ → List ℕ × List ℕ × LineDiscipline
run d [] echo = ([], echo, d)
run d (key k ∷ requests) echo = run (input d k echo).2 requests (input d k echo).1
run d (reading room ∷ requests) echo =
    let after = run (read d room).1 requests echo in
    (given (read d room).0 ++ after.0, after.1, after.2)

-- With no Ctrl-C and no Backspace among the keys, every byte that the screen has shown is read once
-- and in order, or still waits behind what was read.
pub run-content :
    (d : LineDiscipline) (requests : List Request) (echo : List ℕ)
    → all_add requests ≡ true
    → (new : List ℕ) × ((run d requests echo).1 ≡ echo ++ new)
      × ((run d requests echo).0 ++ content (run d requests echo).2 ≡ content d ++ new)
run-content d [] echo h = ([], sym (append-nil echo), sym (append-nil (content d)))
run-content d (key k ∷ requests) echo h =
    let (first, e, f) = input-Grows d k echo (ground arith) in
    let (rest, e', f') =
      run-content (input d k echo).2 requests (input d k echo).1 (ground arith) in
    (
      first ++ rest,
      e' ∙ ap (λ s. s ++ rest) e ∙ append_assoc echo first rest,
      f' ∙ ap (λ s. s ++ rest) f ∙ append_assoc (content d) first rest,
    )
run-content d (reading room ∷ requests) echo h =
    let (new, e, f) = run-content (read d room).1 requests echo h in
    (
      new,
      e,
      append_assoc (given (read d room).0) _ _
          ∙ ap (λ s. given (read d room).0 ++ s) f
          ∙ sym (append_assoc (given (read d room).0) (content (read d room).1) new)
          ∙ ap (λ s. s ++ new) (read-content d room),
    )
