-- ===== src/Term/Ansi/Utf8.antt =====
-- crates/term/src/ansi.rs: text in UTF-8 is printed character by character.
use relay_os.Prelude.{
  ℕ, suc, ◌+◌, ◌-◌, ◌*◌, ◌/◌, ◌%◌, ◌^◌, ◌≤◌, ◌<◌, ◌≡◌, refl, sym, ap, subst, ◌∙◌, arith, bit_and,
  bit_or, Bool, true, ◌||◌, ◌&&◌, List, [], ◌∷◌, ◌++◌, append_assoc, inl, inr, Bool-cases, map,
  ◌==◌, leb, ltb, if◌then◌else◌,
}
use relay_os.Prelude.Bits.{every_below, every_below-holds, bit_or-six}
use relay_os.Term.Ansi.{
  Action, print, ground_state, utf8, Parser, to, latin1, in_ground, in_utf8, advance, advance_all,
}

-- Whether a code point is text: printable ASCII, or beyond ASCII.
abbrev pub is_text : ℕ → Bool
is_text cp = (leb 32 cp && leb cp 126) || (leb 128 cp && ltb cp 0x110000)

-- UTF-8's encoding of a code point.
abbrev pub encode : ℕ → List ℕ
encode cp =
    if ltb cp 128
    then cp ∷ []
    else if ltb cp 2048
    then (192 + cp / 64) ∷ (128 + cp % 64) ∷ []
    else if ltb cp 65536
    then (224 + cp / 4096) ∷ (128 + cp / 64 % 64) ∷ (128 + cp % 64) ∷ []
    else (240 + cp / 262144) ∷ (128 + cp / 4096 % 64) ∷ (128 + cp / 64 % 64) ∷ (128 + cp % 64) ∷ []

abbrev pub encode_all : List ℕ → List ℕ
encode_all [] = []
encode_all (cp ∷ text) = encode cp ++ encode_all text

abbrev pub all_text : List ℕ → Bool
all_text [] = true
all_text (cp ∷ text) = is_text cp && all_text text

-- What the masks leave of a leading byte, and of one that continues.
abbrev masks_hold : ℕ → Bool
masks_hold b =
    if ltb b 128
    then true
    else if ltb b 192
    then bit_and b 192 == 128 && bit_and b 63 == b - 128
    else if ltb b 224
    then bit_and b 31 == b - 192
    else if ltb b 240
    then bit_and b 15 == b - 224
    else if ltb b 248
    then bit_and b 7 == b - 240
    else true

masks : (b : ℕ) → b < 256 → masks_hold b ≡ true
unfolding every_below
masks b lt = every_below-holds masks_hold 256 b refl lt

-- A byte that continues adds six bits.
continues :
    (p : Parser) (cp c : ℕ) (more : ℕ)
    → c < 64
    → cp < 2 ^ 26
    → in_utf8 p cp more (128 + c) ≡ (
        if ltb 1 more
        then ([], to (utf8 (cp * 64 + c) (more - 1)) p)
        else (print (latin1 (cp * 64 + c)) ∷ [], to ground_state p))
unfolding in_utf8
continues p cp c more lt small =
    let table = masks (128 + c) (omega arith) in
    let same : bit_and (128 + c) 63 ≡ c = ground arith in
    let high : bit_and (128 + c) 192 == 128 ≡ true = ground arith in
    let longer : bit_or (cp * 64 % 2 ^ 32) (bit_and (128 + c) 63) ≡ cp * 64 + c =
      (let e : cp * 64 % 2 ^ 32 ≡ cp * 64 = omega arith in rw (same, e) (bit_or-six cp c lt)) in
    rw (high, longer) refl

-- Leading bytes of two, three and four.
leads_two : (p : Parser) (c : ℕ) → 2 ≤ c → c < 32 → in_ground p (192 + c) ≡ ([], to (utf8 c 1) p)
unfolding in_ground
leads_two p c le lt =
    let table = masks (192 + c) (omega arith) in
    let same : bit_and (192 + c) 31 ≡ c = ground arith in ground (arith, same)

leads_three : (p : Parser) (c : ℕ) → c < 16 → in_ground p (224 + c) ≡ ([], to (utf8 c 2) p)
unfolding in_ground
leads_three p c lt =
    let table = masks (224 + c) (omega arith) in
    let same : bit_and (224 + c) 15 ≡ c = ground arith in ground (arith, same)

leads_four : (p : Parser) (c : ℕ) → c < 5 → in_ground p (240 + c) ≡ ([], to (utf8 c 3) p)
unfolding in_ground
leads_four p c lt =
    let table = masks (240 + c) (omega arith) in
    let same : bit_and (240 + c) 7 ≡ c = ground arith in ground (arith, same)

plain : (p : Parser) (cp : ℕ) → 32 ≤ cp → cp < 127 → in_ground p cp ≡ (print (latin1 cp) ∷ [], p)
unfolding in_ground
plain p cp le lt = ground arith

advance-then :
    (p q r : Parser) (b : ℕ) (bytes : List ℕ) (first rest : List Action)
    → advance p b ≡ (first, q)
    → advance_all q bytes ≡ (rest, r)
    → advance_all p (b ∷ bytes) ≡ (first ++ rest, r)
advance-then p q r b bytes first rest e f =
    ap (λ t. let after = advance_all t.1 bytes in (t.0 ++ after.0, after.1)) e
    ∙ ap (λ after. (first ++ after.0, after.1)) f

module _ (p : Parser) where
  abbrev home : Parser
  home = to ground_state p

  -- The last byte of a character.
  last :
      (cp c total : ℕ)
      → c < 64
      → cp < 2 ^ 26
      → cp * 64 + c ≡ total
      → advance_all (to (utf8 cp 1) p) ((128 + c) ∷ []) ≡ (print (latin1 total) ∷ [], home)
  unfolding advance
  last cp c total lt small e =
      advance-then (to (utf8 cp 1) p) home home (128 + c) [] (print (latin1 total) ∷ []) []
        (continues (to (utf8 cp 1) p) cp c 1 lt small ∙ ap (λ n. (print (latin1 n) ∷ [], home)) e)
        refl

  middle :
      (cp c more next : ℕ) (bytes : List ℕ) (rest : List Action)
      → c < 64
      → cp < 2 ^ 26
      → 0 < more
      → cp * 64 + c ≡ next
      → advance_all (to (utf8 next more) p) bytes ≡ (rest, home)
      → advance_all (to (utf8 cp (suc more)) p) ((128 + c) ∷ bytes) ≡ (rest, home)
  unfolding advance
  middle cp c more next bytes rest lt small pos e f =
      advance-then (to (utf8 cp (suc more)) p) (to (utf8 next more) p) home (128 + c) bytes [] rest
        (continues (to (utf8 cp (suc more)) p) cp c (suc more) lt small
          ∙ (let more_left : ltb 1 (suc more) ≡ true = ground arith in
              let fewer : suc more - 1 ≡ more = omega arith in rw (more_left, fewer, e) refl))
        f

  encode-home :
      (cp : ℕ) → is_text cp ≡ true → advance_all home (encode cp) ≡ (print (latin1 cp) ∷ [], home)
  unfolding advance
  encode-home cp text =
      let one_left = (128 + cp % 64) ∷ [] in
      let two_left = (128 + cp / 64 % 64) ∷ one_left in
      let three_left = (128 + cp / 4096 % 64) ∷ two_left in
      elim (Bool-cases (ltb cp 128)) [
        | inl one ↦ rw one (
            advance-then home home home cp [] (print (latin1 cp) ∷ []) []
              (plain home cp (ground arith) (ground arith)) refl)
        | inr more ↦ elim (Bool-cases (ltb cp 2048)) [
          | inl two ↦
              rw (more, two)
                (advance-then home (to (utf8 (cp / 64) 1) p) home (192 + cp / 64) one_left []
                  (print (latin1 cp) ∷ []) (leads_two home (cp / 64) (ground arith) (ground arith))
                  (last (cp / 64) (cp % 64) cp (omega arith) (ground arith) (omega arith)))
          | inr more_still ↦ elim (Bool-cases (ltb cp 65536)) [
            | inl three ↦
                rw (more, more_still, three)
                  (advance-then home (to (utf8 (cp / 4096) 2) p) home (224 + cp / 4096) two_left []
                    (print (latin1 cp) ∷ []) (leads_three home (cp / 4096) (ground arith))
                    (middle (cp / 4096) (cp / 64 % 64) 1 (cp / 64) one_left (print (latin1 cp) ∷ [])
                      (omega arith) (ground arith) (omega arith) (omega arith)
                      (last (cp / 64) (cp % 64) cp (omega arith) (ground arith) (omega arith))))
            | inr four ↦
                rw (more, more_still, four)
                  (advance-then home (to (utf8 (cp / 262144) 3) p) home (240 + cp / 262144)
                    three_left [] (print (latin1 cp) ∷ [])
                    (leads_four home (cp / 262144) (ground arith))
                    (middle (cp / 262144) (cp / 4096 % 64) 2 (cp / 4096) two_left
                      (print (latin1 cp) ∷ []) (omega arith) (ground arith) (omega arith)
                      (omega arith)
                      (middle (cp / 4096) (cp / 64 % 64) 1 (cp / 64) one_left
                        (print (latin1 cp) ∷ []) (omega arith) (ground arith) (omega arith)
                        (omega arith)
                        (last (cp / 64) (cp % 64) cp (omega arith) (ground arith) (omega arith)))))
          ]
        ]
      ]

-- The encoding of a character, from the state of plain text, prints it and comes back there.
encode-prints :
    (p : Parser) (cp : ℕ)
    → p.state ≡ ground_state
    → is_text cp ≡ true
    → advance_all p (encode cp) ≡ (print (latin1 cp) ∷ [], p)
encode-prints p cp at text =
    subst (λ q. advance_all q (encode cp) ≡ (print (latin1 cp) ∷ [], q)) (sym (ap (λ s. to s p) at))
      (encode-home p cp text)

advance_all-append :
    (p : Parser) (xs ys : List ℕ)
    → advance_all p (xs ++ ys) ≡ (
      (advance_all p xs).0 ++ (advance_all (advance_all p xs).1 ys).0,
      (advance_all (advance_all p xs).1 ys).1,
    )
advance_all-append p [] ys = refl
advance_all-append p (b ∷ xs) ys =
    let q = (advance p b).1 in
    let first = (advance p b).0 in
    ap (λ (t : List Action × Parser). (first ++ t.0, t.1)) (advance_all-append q xs ys)
    ∙ ap (λ actions. (actions, (advance_all (advance_all q xs).1 ys).1))
        (sym (append_assoc first (advance_all q xs).0 (advance_all (advance_all q xs).1 ys).0))

-- Text in UTF-8, from the state of plain text, is printed character by character, one of Latin-1 as
-- itself and any other as `?`, and leaves the parser as it was.
pub text-prints :
    (p : Parser) (text : List ℕ)
    → p.state ≡ ground_state
    → all_text text ≡ true
    → advance_all p (encode_all text) ≡ (map (λ cp. print (latin1 cp)) text, p)
text-prints p [] at h = refl
text-prints p (cp ∷ text) at h =
    advance_all-append p (encode cp) (encode_all text)
    ∙ ap
        (λ (t : List Action × Parser).
          let rest = advance_all t.1 (encode_all text) in (t.0 ++ rest.0, rest.1))
        (encode-prints p cp at (ground arith))
    ∙ ap (λ (t : List Action × Parser). (print (latin1 cp) ∷ t.0, t.1))
        (text-prints p text at (ground arith))
