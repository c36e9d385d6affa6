-- ===== src/Line/Clean.antt =====
-- kernel/src/line.rs: no Ctrl-C is ever part of a line.
use relay_os.Prelude.{
  ℕ, zero, suc, ◌+◌, ◌≡◌, refl, sym, ap, ◌∙◌, inl, inr, arith, min, Bool, true, false, ◌&&◌, ◌||◌,
  Option, none, some, List, [], ◌∷◌, ◌++◌, reverse, reverse_aux, ◌==◌, ltb, leb, if◌then◌else◌,
  length, take, drop, any, Bool-cases, List-cases,
}
use relay_os.Line.{
  LineDiscipline, line_max, interrupt, end_key, is_erase, esc, is_text, hand_over, pop_character,
  on_interrupt, on_enter, on_end, on_erase, on_text, input, read, flattened, take_all,
}

abbrev pub is_interrupt : ℕ → Bool
is_interrupt b = b == interrupt

pub any-append : (p : ℕ → Bool) (xs ys : List ℕ) → any p (xs ++ ys) ≡ any p xs || any p ys
any-append p [] ys = refl
any-append p (x ∷ xs) ys = ground (arith, any-append p xs ys)

any-reverse_aux : (p : ℕ → Bool) (xs r : List ℕ) → any p (reverse_aux xs r) ≡ any p xs || any p r
any-reverse_aux p [] r = refl
any-reverse_aux p (x ∷ xs) r = ground (arith, any-reverse_aux p xs (x ∷ r))

pub any-take : (p : ℕ → Bool) (n : ℕ) (xs : List ℕ) → any p xs ≡ false → any p (take n xs) ≡ false
any-take p zero xs h = refl
any-take p (suc n) [] h = refl
any-take p (suc n) (x ∷ xs) h = ground (arith, any-take p n xs)

pub any-drop : (p : ℕ → Bool) (n : ℕ) (xs : List ℕ) → any p xs ≡ false → any p (drop n xs) ≡ false
any-drop p zero xs h = h
any-drop p (suc n) [] h = refl
any-drop p (suc n) (x ∷ xs) h = any-drop p n xs (ground arith)

any-pop_character :
    (p : ℕ → Bool) (xs : List ℕ) → any p xs ≡ false → any p (pop_character xs) ≡ false
any-pop_character p [] h = refl
any-pop_character p (x ∷ xs) h = ground (arith, any-pop_character p xs (ground arith))

any-flattened :
    (p : ℕ → Bool) (ready : List (Option (List ℕ))) (last : List ℕ)
    → any p (flattened (ready ++ (some last ∷ []))) ≡ any p (flattened ready) || any p last
any-flattened p [] last = ground (arith, any-append p last [])
any-flattened p (none ∷ ready) last = any-flattened p ready last
any-flattened p (some line ∷ ready) last = ground (
  arith,
  any-append p line (flattened (ready ++ (some last ∷ []))),
  any-append p line (flattened ready),
  any-flattened p ready last,
)

any-end :
    (p : ℕ → Bool) (ready : List (Option (List ℕ)))
    → any p (flattened (ready ++ (none ∷ []))) ≡ any p (flattened ready)
any-end p [] = refl
any-end p (none ∷ ready) = any-end p ready
any-end p (some line ∷ ready) = ground (
  arith,
  any-append p line (flattened (ready ++ (none ∷ []))),
  any-append p line (flattened ready),
  any-end p ready,
)

-- No Ctrl-C among what is kept.
pub record IsClean (d : LineDiscipline) : Type 0 where
  pub ready_clean : any is_interrupt (flattened d.ready) ≡ false
  pub line_clean : any is_interrupt d.line ≡ false

hand_over-IsClean : (d : LineDiscipline) (v : IsClean d) → IsClean (hand_over d)
unfolding hand_over
hand_over-IsClean d v = record {
  ready_clean =
      ground (arith, any-flattened is_interrupt d.ready d.line, v.ready_clean, v.line_clean);
  line_clean = refl;
}

if-IsClean :
    (c : Bool) (x y : Bool × List ℕ × LineDiscipline)
    → (c ≡ true → IsClean x.2)
    → (c ≡ false → IsClean y.2)
    → IsClean (if c then x else y).2
if-IsClean true x y v w = v refl
if-IsClean false x y v w = w refl

on_enter-IsClean :
    (d : LineDiscipline) (b : ℕ) (echo : List ℕ) (v : IsClean d) → IsClean (on_enter d b echo).2
unfolding on_enter
on_enter-IsClean d b echo v =
    let cr = record d { after_cr = b == 13 } in
    let same : IsClean cr = record { ready_clean = v.ready_clean; line_clean = v.line_clean } in
    let ended : IsClean (record cr { line = d.line ++ (10 ∷ []) }) = record {
      ready_clean = v.ready_clean;
      line_clean = ground (arith, v.line_clean, any-append is_interrupt d.line (10 ∷ []));
    } in
    if-IsClean (ltb (d.waiting + length d.line) line_max) _ _
      (λ _. hand_over-IsClean (record cr { line = d.line ++ (10 ∷ []) }) ended) (λ _. same)

on_end-IsClean : (d : LineDiscipline) (echo : List ℕ) (v : IsClean d) → IsClean (on_end d echo).2
unfolding on_end
on_end-IsClean d echo v =
    if-IsClean (length d.line == 0) _ _
      (λ _.
        if-IsClean (ltb d.waiting line_max) _ _
          (λ _. record {
            ready_clean = ground (arith, any-end is_interrupt d.ready, v.ready_clean);
            line_clean = v.line_clean;
          })
          (λ _. v))
      (λ _. hand_over-IsClean d v)

on_erase-IsClean :
    (d : LineDiscipline) (echo : List ℕ) (v : IsClean d) → IsClean (on_erase d echo).2
unfolding on_erase
on_erase-IsClean d echo v =
    if-IsClean (length d.line == 0) _ _ (λ _. v)
      (λ _. record {
        ready_clean = v.ready_clean;
        line_clean =
            (let back : any is_interrupt (reverse d.line) ≡ false =
                ground (arith, v.line_clean, any-reverse_aux is_interrupt d.line []) in
              ground (
                arith,
                any-pop_character is_interrupt (reverse d.line) back,
                any-reverse_aux is_interrupt (pop_character (reverse d.line)) [],
              ));
      })

on_text-IsClean :
    (d : LineDiscipline) (b : ℕ) (echo : List ℕ) (v : IsClean d)
    → b == interrupt ≡ false
    → IsClean (on_text d b echo).2
unfolding on_text
on_text-IsClean d b echo v h =
    if-IsClean (leb (d.waiting + length d.line + 2) line_max) _ _
      (λ _. record {
        ready_clean = v.ready_clean;
        line_clean = ground (arith, v.line_clean, any-append is_interrupt d.line (b ∷ []));
      })
      (λ _. v)

pub flag-IsClean :
    (d : LineDiscipline) (cr : Bool) (v : IsClean d) → IsClean (record d { after_cr = cr })
flag-IsClean d cr v = record { ready_clean = v.ready_clean; line_clean = v.line_clean }

pub input-IsClean :
    (d : LineDiscipline) (key echo : List ℕ) (v : IsClean d) → IsClean (input d key echo).2
unfolding input on_interrupt
input-IsClean d [] echo v = flag-IsClean d false v
input-IsClean d (b ∷ (c ∷ key)) echo v = flag-IsClean d false v
input-IsClean d (b ∷ []) echo v =
    let taken = record d { after_cr = false } in
    let kept = flag-IsClean d false v in
    if-IsClean (b == interrupt) _ _ (λ _. record { ready_clean = refl; line_clean = refl })
      (λ other.
        if-IsClean (b == 10 && d.after_cr) _ _ (λ _. kept)
          (λ _.
            if-IsClean (b == 13 || b == 10) _ _ (λ _. on_enter-IsClean taken b echo kept)
              (λ _.
                if-IsClean (b == end_key) _ _ (λ _. on_end-IsClean taken echo kept)
                  (λ _.
                    if-IsClean (is_erase b) _ _ (λ _. on_erase-IsClean taken echo kept)
                      (λ _.
                        if-IsClean (b == esc) _ _ (λ _. kept)
                          (λ _.
                            if-IsClean (is_text b) _ _
                              (λ _. on_text-IsClean taken b echo kept other) (λ _. kept)))))))

pub read-IsClean : (d : LineDiscipline) (room : ℕ) (v : IsClean d) → IsClean (read d room).1
unfolding read
read-IsClean d room v = elim (Bool-cases (room == 0)) [
  | inl nothing ↦ rw nothing v
  | inr some_room ↦ rw some_room (elim (List-cases d.ready) [
    | inl empty ↦ rw (empty, read) v
    | inr (none, ready, e) ↦
        rw (e, read)
          (record {
            ready_clean = ground (arith, v.ready_clean, ap (λ r. any is_interrupt (flattened r)) e);
            line_clean = v.line_clean;
          })
    | inr (some line, ready, e) ↦
        let n = min room (length line) in
        let parts = any-append is_interrupt line (flattened ready) in
        let whole : any is_interrupt (line ++ flattened ready) ≡ false =
          sym (ap (λ r. any is_interrupt (flattened r)) e) ∙ v.ready_clean in
        rw (e, read)
          (record {
            ready_clean = ground (
              arith,
              whole,
              parts,
              any-drop is_interrupt n line (ground arith),
              any-append is_interrupt (drop n line) (flattened ready),
            );
            line_clean = v.line_clean;
          })
  ])
]

pub take_all-clean :
    (d : LineDiscipline) (v : IsClean d)
    → (any is_interrupt (take_all d).0 ≡ false) × IsClean (take_all d).1
unfolding take_all
take_all-clean d v = (
  ground (arith, v.ready_clean, v.line_clean, any-append is_interrupt (flattened d.ready) d.line),
  record { ready_clean = refl; line_clean = refl },
)
