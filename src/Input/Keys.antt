-- ===== src/Input/Keys.antt =====
-- kernel/src/input.rs: where `keys` cuts bytes into keys.
use relay_os.Prelude.{
  ℕ, zero, suc, ◌+◌, ◌≤◌, ◌≡◌, refl, ap, sym, subst, ◌∙◌, inl, inr, arith, Bool, true, false, ◌&&◌,
  not, none, some, List, [], ◌∷◌, ◌++◌, ◌==◌, leb, length, take, drop, length-drop, position,
  Bool-cases, Option-cases,
}
use relay_os.Input.{is_final, key_length, keys_loop, keys}

abbrev pub joined : List (List ℕ) → List ℕ
joined [] = []
joined (k ∷ ks) = k ++ joined ks

-- No byte of these ends an escape sequence.
abbrev pub no_end : List ℕ → Bool
no_end [] = true
no_end (b ∷ bytes) = not (leb 0x40 b && leb b 0x7E) && no_end bytes

-- `ESC` before a `[`.
abbrev pub begins_sequence : ℕ → List ℕ → Bool
begins_sequence b [] = false
begins_sequence b (c ∷ rest) = b == 27 && c == 91

-- The first key before the bytes after it: `ESC [` to the first byte that ends the sequence, or to the
-- end of the bytes if none does; or one byte that does not begin a sequence.
pub data IsKey : List ℕ → List ℕ → Type 0 where
  sequence :
      (body : List ℕ) (last : ℕ) (rest : List ℕ)
      → no_end body ≡ true
      → 0x40 ≤ last
      → last ≤ 0x7E
      → IsKey (27 ∷ 91 ∷ body ++ last ∷ []) rest
  unfinished : (body : List ℕ) → no_end body ≡ true → IsKey (27 ∷ 91 ∷ body) []
  single : (b : ℕ) (rest : List ℕ) → begins_sequence b rest ≡ false → IsKey (b ∷ []) rest

pub data AreKeys : List (List ℕ) → Type 0 where
  no_keys : AreKeys []
  key : {k : List ℕ} {ks : List (List ℕ)} → IsKey k (joined ks) → AreKeys ks → AreKeys (k ∷ ks)

take-drop : (n : ℕ) (xs : List ℕ) → take n xs ++ drop n xs ≡ xs
take-drop zero xs = refl
take-drop (suc n) [] = refl
take-drop (suc n) (x ∷ xs) = ap (λ ys. x ∷ ys) (take-drop n xs)

take_whole : (xs : List ℕ) → take (length xs) xs ≡ xs
take_whole [] = refl
take_whole (x ∷ xs) = ap (λ ys. x ∷ ys) (take_whole xs)

drop_whole : (xs : List ℕ) → drop (length xs) xs ≡ []
drop_whole [] = refl
drop_whole (x ∷ xs) = drop_whole xs

-- What `position` finds.
final_absent : (xs : List ℕ) → position is_final xs ≡ none → no_end xs ≡ true
final_absent [] e = refl
final_absent (x ∷ xs) e = ground (arith, e, final_absent xs)

final_found :
    (xs : List ℕ) (i : ℕ)
    → position is_final xs ≡ some i
    → (body : List ℕ) × (last : ℕ) × (take (i + 1) xs ≡ body ++ last ∷ [])
      × (no_end body ≡ true)
      × (0x40 ≤ last)
      × (last ≤ 0x7E)
final_found [] i e = absurd (ground (arith, e))
final_found (x ∷ xs) i e = elim (Bool-cases (is_final x)) [
  | inl here ↦
      let z : i ≡ 0 = ground (arith, e, here) in
      ([], x, ap (λ k. take (k + 1) (x ∷ xs)) z, refl, ground (arith, here), ground (arith, here))
  | inr other ↦ elim (Option-cases (position is_final xs)) [
    | inl absent ↦ absurd (ground (arith, e, other, absent))
    | inr (j, found) ↦
        let (body, last, same, none_before, low, high) = final_found xs j found in
        let next : i + 1 ≡ suc (j + 1) = ground (arith, e, other, found) in
        (
          x ∷ body,
          last,
          ap (λ k. take k (x ∷ xs)) next ∙ ap (λ ys. x ∷ ys) same,
          ground (arith, other, none_before),
          low,
          high,
        )
  ]
]

-- The first `n` bytes are a key, before the others.
abbrev FirstKey : List ℕ → ℕ → Type 0
FirstKey bytes n = IsKey (take n bytes) (drop n bytes)

sequence-FirstKey :
    (tail : List ℕ)
    → FirstKey
        (27 ∷ (91 ∷ tail))
        (2 + (elim (position is_final tail) [ none ↦ length tail | some i ↦ i + 1 ]))
sequence-FirstKey tail = elim (Option-cases (position is_final tail)) [
  | inl absent ↦
      let whole : 2 + length tail ≡ suc (suc (length tail)) = omega arith in
      rw absent (
        subst (FirstKey (27 ∷ (91 ∷ tail))) (sym whole) (
          subst (λ k. IsKey (27 ∷ (91 ∷ k)) (drop (length tail) tail)) (sym (take_whole tail))
            (subst (IsKey (27 ∷ (91 ∷ tail))) (sym (drop_whole tail))
              (unfinished tail (final_absent tail absent)))))
  | inr (i, found) ↦
      let (body, last, same, none_before, low, high) = final_found tail i found in
      let part : 2 + (i + 1) ≡ suc (suc (i + 1)) = omega arith in
      rw found (
        subst (FirstKey (27 ∷ (91 ∷ tail))) (sym part) (
          subst (λ k. IsKey (27 ∷ (91 ∷ k)) (drop (i + 1) tail)) (sym same)
            (sequence body last (drop (i + 1) tail) none_before low high)))
]

key_length-FirstKey : (b : ℕ) (rest : List ℕ) → FirstKey (b ∷ rest) (key_length (b ∷ rest))
key_length-FirstKey b [] = single b [] refl
key_length-FirstKey b (c ∷ tail) = elim (Bool-cases (b == 27 && c == 91)) [
  | inl begins ↦
      let esc : 27 ≡ b = ground (arith, begins) in
      let bracket : 91 ≡ c = ground (arith, begins) in
      rw begins (
        subst
          (λ x.
            FirstKey (x ∷ (c ∷ tail))
              (2 + (elim (position is_final tail) [ none ↦ length tail | some i ↦ i + 1 ])))
          esc
          (subst
            (λ y.
              FirstKey (27 ∷ (y ∷ tail))
                (2 + (elim (position is_final tail) [ none ↦ length tail | some i ↦ i + 1 ])))
            bracket (sequence-FirstKey tail)))
  | inr plain ↦ rw plain (single b (c ∷ tail) plain)
]

key_length-pos : (b : ℕ) (rest : List ℕ) → 1 ≤ key_length (b ∷ rest)
key_length-pos b [] = omega arith
key_length-pos b (c ∷ tail) = ground arith

keys_loop-AreKeys :
    (fuel : ℕ) (bytes : List ℕ)
    → length bytes ≤ fuel
    → (joined (keys_loop fuel bytes) ≡ bytes) × AreKeys (keys_loop fuel bytes)
keys_loop-AreKeys zero [] le = (refl, no_keys)
keys_loop-AreKeys zero (b ∷ bytes) le = absurd (omega arith)
keys_loop-AreKeys (suc fuel) [] le = (refl, no_keys)
keys_loop-AreKeys (suc fuel) (b ∷ bytes) le =
    let n = key_length (b ∷ bytes) in
    let pos = key_length-pos b bytes in
    let (flat, rest) =
      keys_loop-AreKeys fuel (drop n (b ∷ bytes)) (omega (arith, length-drop n (b ∷ bytes))) in
    (
      ap (λ s. take n (b ∷ bytes) ++ s) flat ∙ take-drop n (b ∷ bytes),
      key (subst (IsKey (take n (b ∷ bytes))) (sym flat) (key_length-FirstKey b bytes)) rest,
    )

-- `keys` cuts any bytes into keys that hold them all in order. Each key is `ESC [` up to and with the
-- first byte from 0x40 to 0x7E after it, or to the end where there is none; or one single byte, which
-- is not an `ESC` before a `[`.
pub keys-AreKeys : (bytes : List ℕ) → (joined (keys bytes) ≡ bytes) × AreKeys (keys bytes)
unfolding keys
keys-AreKeys bytes = keys_loop-AreKeys (length bytes) bytes (omega arith)
