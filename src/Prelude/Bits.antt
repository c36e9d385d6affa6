-- ===== src/Prelude/Bits.antt =====
-- `&` and `|` on native numbers as arithmetic: a table for bytes, and `|` of two fields.
use Prim.Native.Nat.{
  ℕ, zero, suc, ◌+◌, ◌*◌, ◌/◌, ◌%◌, ◌≤◌, ◌<◌, max, digits, bit_or, bit_or-bitwise,
}
use mathlib.Core.Path.{◌≡◌, refl, sym, ap, ◌∙◌}
use mathlib.Core.Bool.{Bool, true, ◌&&◌}
use native.Mathlib.Omega.{arith}

-- Whether `p` holds of every byte below `n`.
unfoldable pub every_below : (ℕ → Bool) → ℕ → Bool
every_below p zero = true
every_below p (suc n) = every_below p n && p n

pub every_below-holds : (p : ℕ → Bool) (n b : ℕ) → every_below p n ≡ true → b < n → p b ≡ true
unfolding every_below
every_below-holds p zero b h lt = absurd (omega arith)
every_below-holds p (suc n) b h lt = ground (arith, every_below-holds p n b (ground arith))

-- A fuel above the first number changes nothing.
or_digits : ℕ → ℕ → ℕ → ℕ
or_digits n a b = digits (λ x. x) max n a b

or_digits-zero : (n b : ℕ) → or_digits n 0 b ≡ b
unfolding or_digits
or_digits-zero zero b = refl
or_digits-zero (suc n) b = refl

or_digits-more : (n m a b : ℕ) → a ≤ n → n ≤ m → or_digits m a b ≡ or_digits n a b
unfolding or_digits
or_digits-more zero m zero b le more = or_digits-zero m b
or_digits-more zero m (suc a) b le more = absurd (omega arith)
or_digits-more (suc n) m zero b le more = or_digits-zero m b
or_digits-more (suc n) zero (suc a) b le more = absurd (omega arith)
or_digits-more (suc n) (suc m) (suc a) b le more =
    ap (λ t. t * 2 + max (suc a % 2) (b % 2))
      (or_digits-more n m (suc a / 2) (b / 2) (omega arith) (omega arith))

pub bit_or-halves : (a b : ℕ) → bit_or a b ≡ bit_or (a / 2) (b / 2) * 2 + max (a % 2) (b % 2)
unfolding or_digits
bit_or-halves zero b =
    let e : b ≡ b / 2 * 2 + max 0 (b % 2) = omega arith in
    bit_or-bitwise 0 b ∙ e ∙ ap (λ t. t * 2 + max 0 (b % 2)) (sym (bit_or-bitwise 0 (b / 2)))
bit_or-halves (suc a) b =
    bit_or-bitwise (suc a) b
    ∙ ap (λ t. t * 2 + max (suc a % 2) (b % 2))
        (or_digits-more (suc a / 2) a (suc a / 2) (b / 2) (omega arith) (omega arith)
          ∙ sym (bit_or-bitwise (suc a / 2) (b / 2)))

bit_or-nothing_fuel : (n a : ℕ) → a ≤ n → bit_or a 0 ≡ a
bit_or-nothing_fuel zero a le = let e : a ≡ 0 = omega arith in rw e refl
bit_or-nothing_fuel (suc n) zero le = refl
bit_or-nothing_fuel (suc n) (suc a) le =
    omega (arith, bit_or-halves (suc a) 0, bit_or-nothing_fuel n (suc a / 2) (omega arith))

pub bit_or-nothing : (a : ℕ) → bit_or a 0 ≡ a
bit_or-nothing a = bit_or-nothing_fuel a a (omega arith)

bit_or-one : (a c : ℕ) → bit_or (a * 2) c ≡ bit_or a (c / 2) * 2 + c % 2
bit_or-one a c =
    let half : a * 2 / 2 ≡ a = omega arith in
    omega (arith, bit_or-halves (a * 2) c, ap (λ t. bit_or t (c / 2)) half)

-- `(a << 6) | c` with `c` six bits wide.
pub bit_or-six : (a c : ℕ) → c < 64 → bit_or (a * 64) c ≡ a * 64 + c
bit_or-six a c lt =
    let e : a * 64 ≡ a * 2 * 2 * 2 * 2 * 2 * 2 = omega arith in
    let none_left : c / 2 / 2 / 2 / 2 / 2 / 2 ≡ 0 = omega arith in
    omega (
      arith,
      ap (λ t. bit_or t c) e,
      bit_or-one (a * 2 * 2 * 2 * 2 * 2) c,
      bit_or-one (a * 2 * 2 * 2 * 2) (c / 2),
      bit_or-one (a * 2 * 2 * 2) (c / 2 / 2),
      bit_or-one (a * 2 * 2) (c / 2 / 2 / 2),
      bit_or-one (a * 2) (c / 2 / 2 / 2 / 2),
      bit_or-one a (c / 2 / 2 / 2 / 2 / 2),
      ap (bit_or a) none_left,
      bit_or-nothing a,
    )
