-- ===== src/Pattern/Parser.antt =====
-- crates/shell/src/pattern.rs: what `Pattern::parse` returns.
use relay_os.Prelude.{
  ℕ, zero, suc, ◌≤◌, ◌<◌, ◌≡◌, refl, sym, inl, inr, arith, Bool, true, false, ◌&&◌, ◌||◌, not,
  Option, none, some, List, [], ◌∷◌, ◌++◌, ◌==◌, ltb, leb, if◌then◌else◌, subst, length,
  length-drop, drop, Bool-cases, Option-cases,
}
use relay_os.Pattern.{
  Item, byte, any_byte, byte_set, Piece, Pattern, Parsed, parsed, refused, starts_with, range_end,
  class_mark, dangling, repeat_last, once, unsupported_escape, set_loop, parse_set, parse_loop,
  parse,
}

-- Every range of a set has its ends in order.
abbrev in_order : List (ℕ × ℕ) → Bool
in_order [] = true
in_order ((low, high) ∷ ranges) = leb low high && in_order ranges

abbrev item_ok : Item → Bool
item_ok (byte_set ranges negated) = in_order ranges
item_ok _ = true

abbrev pub pieces_ok : List Piece → Bool
pieces_ok [] = true
pieces_ok (p ∷ pieces) = item_ok p.item && pieces_ok pieces

in_order-append :
    (ranges : List (ℕ × ℕ)) (low high : ℕ)
    → in_order (ranges ++ ((low, high) ∷ [])) ≡ in_order ranges && leb low high
in_order-append [] low high = ground arith
in_order-append ((l, h) ∷ ranges) low high = ground (arith, in_order-append ranges low high)

pieces_ok-append :
    (pieces : List Piece) (p : Piece)
    → pieces_ok (pieces ++ (p ∷ [])) ≡ pieces_ok pieces && item_ok p.item
pieces_ok-append [] p = ground arith
pieces_ok-append (q ∷ pieces) p = ground (arith, pieces_ok-append pieces p)

-- A result: a refusal, or an ordered set and at most `n` bytes that follow it.
abbrev within : ℕ → Option (Parsed (Item × List ℕ)) → Bool
within n none = false
within n (some (refused e)) = true
within n (some (parsed (item, after))) = item_ok item && leb (length after) n

within_mono :
    (m n : ℕ) (o : Option (Parsed (Item × List ℕ))) → m ≤ n → within m o ≡ true → within n o ≡ true
within_mono m n none le h = h
within_mono m n (some (refused e)) le h = refl
within_mono m n (some (parsed (item, after))) le h = ground arith

range_end-shorter :
    (rest : List ℕ) (end : ℕ) (after : List ℕ)
    → range_end rest ≡ some (end, after)
    → length after < length rest
range_end-shorter [] end after e = absurd (ground (arith, e))
range_end-shorter (a ∷ []) end after e = absurd (ground (arith, e))
range_end-shorter (a ∷ (b ∷ rest)) end after e = ground (arith, e)

set_loop-within :
    (fuel : ℕ) (negated first : Bool) (ranges : List (ℕ × ℕ)) (rest : List ℕ)
    → length rest < fuel
    → in_order ranges ≡ true
    → within (length rest) (set_loop fuel negated first ranges rest) ≡ true
unfolding set_loop
set_loop-within zero negated first ranges rest lt ok = absurd (omega arith)
set_loop-within (suc fuel) negated first ranges [] lt ok = refl
set_loop-within (suc fuel) negated first ranges (b ∷ rest) lt ok =
    let single =
      set_loop-within fuel negated false (ranges ++ ((b, b) ∷ [])) rest (omega arith)
        (ground (arith, in_order-append ranges b b)) in
    let n : length rest ≤ suc (length rest) = omega arith in
    let longer =
      λ (end : ℕ) (after : List ℕ) (e : range_end rest ≡ some (end, after))
          (up : ltb end b || dangling after ≡ false).
        within_mono (length after) (suc (length rest))
          (set_loop fuel negated false (ranges ++ ((b, end) ∷ [])) after)
          (omega (arith, range_end-shorter rest end after e))
          (set_loop-within fuel negated false (ranges ++ ((b, end) ∷ [])) after
            (omega (arith, range_end-shorter rest end after e))
            (ground (arith, in_order-append ranges b end))) in
    elim (Bool-cases (b == 93 && not first)) [
      | inl closing ↦ rw (closing, set_loop) (ground arith)
      | inr member ↦
          rw (member, set_loop)
            (elim (Option-cases (if b == 91 then class_mark rest else none)) [
              | inr (kind, e) ↦ rw (e, set_loop) refl
              | inl plain ↦
                  rw (plain, set_loop)
                    (elim (Option-cases (range_end rest)) [
                      | inl alone ↦
                          rw (alone, set_loop)
                            (within_mono (length rest) (suc (length rest))
                              (set_loop fuel negated false (ranges ++ ((b, b) ∷ [])) rest) n single)
                      | inr ((end, after), e) ↦
                          rw (e, set_loop)
                            (elim (Bool-cases (ltb end b || dangling after)) [
                              | inl bad ↦ rw (bad, set_loop) refl
                              | inr up ↦ rw (up, set_loop) (longer end after e up)
                            ])
                    ])
            ])
    ]

parse_set-within :
    (rest : List ℕ) → within (length rest) (parse_set (suc (length rest)) rest) ≡ true
unfolding parse_set
parse_set-within rest =
    let members = if starts_with 94 rest then drop 1 rest else rest in
    let le : length members ≤ length rest = ground (arith, length-drop 1 rest) in
    elim (Bool-cases (leb (length members) 0)) [
      | inl nothing ↦ rw nothing refl
      | inr some_member ↦ rw some_member (
          within_mono (length members) (length rest)
            (set_loop (suc (length rest)) (starts_with 94 rest) true [] members) le
            (set_loop-within (suc (length rest)) (starts_with 94 rest) true [] members
              (omega (arith, le)) refl))
    ]

-- A result of the loop: a refusal, or pieces with ordered sets.
abbrev found_ok : Option (Parsed (List Piece × Bool)) → Bool
found_ok none = false
found_ok (some (refused e)) = true
found_ok (some (parsed (pieces, at_end))) = pieces_ok pieces

repeat_last-ok :
    (pieces starred : List Piece)
    → repeat_last pieces ≡ some starred
    → pieces_ok pieces ≡ true
    → pieces_ok starred ≡ true
repeat_last-ok [] starred e ok = absurd (ground (arith, e))
repeat_last-ok (p ∷ []) starred e ok = ground (arith, e)
repeat_last-ok (p ∷ (q ∷ pieces)) starred e ok = elim (Option-cases (repeat_last (q ∷ pieces))) [
  | inl nothing ↦ absurd (ground (arith, e, nothing))
  | inr (rest, e') ↦ ground (arith, e, e', repeat_last-ok (q ∷ pieces) rest e' (ground arith))
]

-- What every branch of the loop hands on: one more piece, and fewer bytes.
abbrev Pushes : ℕ → List Piece → Type 0
Pushes fuel pieces =
    (item : Item)
    → item_ok item ≡ true
    → (after : List ℕ) → length after ≤ fuel
    → found_ok (parse_loop fuel (pieces ++ (once item ∷ [])) after) ≡ true

escape-ok :
    (fuel : ℕ) (pieces : List Piece) (rest : List ℕ)
    → Pushes fuel pieces
    → length rest ≤ fuel
    → found_ok (parse_loop (suc fuel) pieces (92 ∷ rest)) ≡ true
unfolding parse_loop
escape-ok fuel pieces [] push le = refl
escape-ok fuel pieces (c ∷ after) push le = elim (Option-cases (unsupported_escape c)) [
  | inl plain ↦ rw (plain, parse_loop) (push (byte c) refl after (omega arith))
  | inr (feature, e) ↦ rw (e, parse_loop) refl
]

set-ok :
    (fuel : ℕ) (pieces : List Piece) (rest : List ℕ)
    → Pushes fuel pieces
    → length rest ≤ fuel
    → found_ok (parse_loop (suc fuel) pieces (91 ∷ rest)) ≡ true
unfolding parse_loop
set-ok fuel pieces rest push le =
    let ends = parse_set-within rest in
    elim (Option-cases (parse_set (suc (length rest)) rest)) [
      | inl nothing ↦ absurd (ground (arith, nothing, ends))
      | inr (refused e, at) ↦ rw (at, parse_loop) refl
      | inr (parsed (item, after), at) ↦
          rw (at, parse_loop)
            (let good = subst (λ o. within (length rest) o ≡ true) at ends in
              push item (ground arith) after (ground arith))
    ]

star-ok :
    (fuel : ℕ) (pieces : List Piece) (rest : List ℕ)
    → Pushes fuel pieces
    → length rest ≤ fuel
    → ((starred : List Piece)
        → repeat_last pieces ≡ some starred
        → found_ok (parse_loop fuel starred rest) ≡ true)
    → found_ok (parse_loop (suc fuel) pieces (42 ∷ rest)) ≡ true
unfolding parse_loop
star-ok fuel pieces rest push le starred = elim (Option-cases (repeat_last pieces)) [
  | inl nothing ↦ rw (nothing, parse_loop) (push (byte 42) refl rest le)
  | inr (repeated, e) ↦ rw (e, parse_loop) (starred repeated e)
]

parse_loop-ok :
    (fuel : ℕ) (pieces : List Piece) (rest : List ℕ)
    → length rest ≤ fuel
    → pieces_ok pieces ≡ true
    → found_ok (parse_loop fuel pieces rest) ≡ true
unfolding parse_loop
parse_loop-ok fuel pieces [] le ok = ok
parse_loop-ok zero pieces (b ∷ rest) le ok = absurd (omega arith)
parse_loop-ok (suc fuel) pieces (b ∷ rest) le ok =
    let push : Pushes fuel pieces = λ item good after shorter.
      parse_loop-ok fuel (pieces ++ (once item ∷ [])) after shorter
        (ground (arith, pieces_ok-append pieces (once item))) in
    let starred : (starred : List Piece)
        → repeat_last pieces ≡ some starred
        → found_ok (parse_loop fuel starred rest) ≡ true =
      λ starred e.
        parse_loop-ok fuel starred rest (omega arith) (repeat_last-ok pieces starred e ok) in
    let at : (c : ℕ)
        → b == c ≡ true
        → found_ok (parse_loop (suc fuel) pieces (c ∷ rest)) ≡ true
        → found_ok (parse_loop (suc fuel) pieces (b ∷ rest)) ≡ true =
      λ c e h.
        let same : b ≡ c = ground arith in
        subst (λ x. found_ok (parse_loop (suc fuel) pieces (x ∷ rest)) ≡ true) (sym same) h in
    elim (Bool-cases (b == 92)) [
      | inl e ↦ at 92 e (escape-ok fuel pieces rest push (omega arith))
      | inr not_escape ↦ elim (Bool-cases (b == 42)) [
        | inl e ↦ at 42 e (star-ok fuel pieces rest push (omega arith) starred)
        | inr not_star ↦ elim (Bool-cases (b == 91)) [
          | inl e ↦ at 91 e (set-ok fuel pieces rest push (omega arith))
          | inr not_set ↦
              ground (
                arith,
                push any_byte refl rest (omega arith),
                push (byte b) refl rest (omega arith),
              )
        ]
      ]
    ]

-- A pattern whose sets all have ordered ranges; a refusal is one as well.
abbrev pub Ordered : Parsed Pattern → Type 0
Ordered (refused e) = Unit
Ordered (parsed r) = pieces_ok r.pieces ≡ true

-- `Pattern::parse` returns for every pattern, and the ranges of the sets of what it returns all have
-- their ends in order.
pub parse-returns :
    (p : List ℕ) (ignore_case : Bool)
    → (result : Parsed Pattern) × (parse p ignore_case ≡ some result) × Ordered result
unfolding parse
parse-returns p ignore_case =
    let rest = if starts_with 94 p then drop 1 p else p in
    let le : length rest ≤ length p = ground (arith, length-drop 1 p) in
    let ok = parse_loop-ok (length p) [] rest le refl in
    elim (Option-cases (parse_loop (length p) [] rest)) [
      | inl nothing ↦ absurd (ground (arith, nothing, ok))
      | inr (refused e, at) ↦ rw at (refused e, refl, record {})
      | inr (parsed (pieces, at_end), at) ↦ rw at (_, refl, subst (λ o. found_ok o ≡ true) at ok)
    ]
