-- ===== src/Prelude/Masks.antt =====
-- Single bits of a word: what `&` and `|` with a mask of one bit, or of the high bits, do to each.
use Prim.Native.Nat.{
  ℕ, zero, suc, ◌+◌, ◌-◌, ◌*◌, ◌/◌, ◌%◌, ◌^◌, ◌≤◌, ◌<◌, min, digits, bit_and, bit_or,
  bit_and-bitwise,
}
use mathlib.Core.Path.{◌≡◌, refl, sym, ap, ◌∙◌}
use native.Mathlib.Nat.{mul_assoc, pow-suc}
use native.Mathlib.Omega.{arith}
use relay_os.Prelude.Tests.{◌==◌, if◌then◌else◌}
use relay_os.Prelude.Bits.{bit_or-halves, bit_or-nothing}

and_digits : ℕ → ℕ → ℕ → ℕ
and_digits n a b = digits (λ _. 0) min n a b

and_digits-zero : (n b : ℕ) → and_digits n 0 b ≡ 0
unfolding and_digits
and_digits-zero zero b = refl
and_digits-zero (suc n) b = refl

and_digits-more : (n m a b : ℕ) → a ≤ n → n ≤ m → and_digits m a b ≡ and_digits n a b
unfolding and_digits
and_digits-more zero m zero b le more = and_digits-zero m b
and_digits-more zero m (suc a) b le more = absurd (omega arith)
and_digits-more (suc n) m zero b le more = and_digits-zero m b
and_digits-more (suc n) zero (suc a) b le more = absurd (omega arith)
and_digits-more (suc n) (suc m) (suc a) b le more =
    ap (λ t. t * 2 + min (suc a % 2) (b % 2))
      (and_digits-more n m (suc a / 2) (b / 2) (omega arith) (omega arith))

pub bit_and-halves : (a b : ℕ) → bit_and a b ≡ bit_and (a / 2) (b / 2) * 2 + min (a % 2) (b % 2)
unfolding and_digits
bit_and-halves zero b = omega (arith, bit_and-bitwise 0 b, bit_and-bitwise 0 (b / 2))
bit_and-halves (suc a) b =
    bit_and-bitwise (suc a) b
    ∙ ap (λ t. t * 2 + min (suc a % 2) (b % 2))
        (and_digits-more (suc a / 2) a (suc a / 2) (b / 2) (omega arith) (omega arith)
          ∙ sym (bit_and-bitwise (suc a / 2) (b / 2)))

bit_and-nothing_fuel : (n a : ℕ) → a ≤ n → bit_and a 0 ≡ 0
bit_and-nothing_fuel n zero le = bit_and-bitwise 0 0
bit_and-nothing_fuel zero (suc a) le = absurd (omega arith)
bit_and-nothing_fuel (suc n) (suc a) le =
    omega (arith, bit_and-halves (suc a) 0, bit_and-nothing_fuel n (suc a / 2) (omega arith))

bit_and-nothing : (a : ℕ) → bit_and a 0 ≡ 0
bit_and-nothing a = bit_and-nothing_fuel a a (omega arith)

-- Bit `k` of a number, 0 or 1.
abbrev pub bit : ℕ → ℕ → ℕ
bit zero w = w % 2
bit (suc k) w = bit k (w / 2)

-- `bit_and` with an even number, and with an odd one.
and_even : (w m : ℕ) → bit_and w (m * 2) ≡ bit_and (w / 2) m * 2
and_even w m =
    let half : m * 2 / 2 ≡ m = omega arith in
    omega (arith, bit_and-halves w (m * 2), ap (bit_and (w / 2)) half)

and_odd : (w m : ℕ) → bit_and w (m * 2 + 1) ≡ bit_and (w / 2) m * 2 + w % 2
and_odd w m =
    let half : (m * 2 + 1) / 2 ≡ m = omega arith in
    omega (arith, bit_and-halves w (m * 2 + 1), ap (bit_and (w / 2)) half)

pub or_even : (w m : ℕ) → bit_or w (m * 2) ≡ bit_or (w / 2) m * 2 + w % 2
or_even w m =
    let half : m * 2 / 2 ≡ m = omega arith in
    omega (arith, bit_or-halves w (m * 2), ap (bit_or (w / 2)) half)

bit-double : (k m r : ℕ) → r < 2 → bit (suc k) (m * 2 + r) ≡ bit k m
bit-double k m r lt = let half : (m * 2 + r) / 2 ≡ m = omega arith in ap (bit k) half

pub bit_and-power : (k w : ℕ) → bit_and w (2 ^ k) ≡ bit k w * 2 ^ k
bit_and-power zero w = omega (arith, and_odd w 0, bit_and-nothing (w / 2))
bit_and-power (suc k) w = grind (arith, and_even w (2 ^ k), bit_and-power k (w / 2))

pub double : (n : ℕ) → 2 ^ suc n ≡ 2 ^ n * 2
double n = pow-suc 2 n

pub doubled : (m e : ℕ) → m * 2 ^ e * 2 ≡ m * 2 ^ suc e
doubled m e = mul_assoc m (2 ^ e) 2 ∙ ap (λ t. m * t) (sym (double e))

pub power_pos : (k : ℕ) → 0 < 2 ^ k
power_pos zero = omega arith
power_pos (suc k) = omega (arith, power_pos k)

if_suc : (j k a b : ℕ) → (if j == k then a else b) ≡ (if suc j == suc k then a else b)
if_suc j k a b = ground arith

pub bit-bit_or : (k w j : ℕ) → bit j (bit_or w (2 ^ k)) ≡ (if j == k then 1 else bit j w)
bit-bit_or zero w zero = omega (arith, bit_or-halves w 1)
bit-bit_or zero w (suc j) =
    let half : bit_or w 1 / 2 ≡ w / 2 = omega (arith, bit_or-halves w 1, bit_or-nothing (w / 2)) in
    ground (arith, ap (bit j) half)
bit-bit_or (suc k) w zero = grind (arith, ap (bit_or w) (double k), or_even w (2 ^ k))
bit-bit_or (suc k) w (suc j) =
    ap (bit (suc j)) (ap (bit_or w) (double k) ∙ or_even w (2 ^ k))
    ∙ bit-double j (bit_or (w / 2) (2 ^ k)) (w % 2) (omega arith)
    ∙ bit-bit_or k (w / 2) j
    ∙ if_suc j k 1 (bit j (w / 2))

-- The lowest `n` bits kept.
bit-all_ones : (n w j : ℕ) → j < n → bit j (bit_and w (2 ^ n - 1)) ≡ bit j w
bit-all_ones zero w j lt = absurd (omega arith)
bit-all_ones (suc n) w zero lt =
    let odd : 2 ^ suc n - 1 ≡ (2 ^ n - 1) * 2 + 1 = omega (arith, power_pos n, double n) in
    omega (arith, ap (bit_and w) odd, and_odd w (2 ^ n - 1))
bit-all_ones (suc n) w (suc j) lt =
    let odd : 2 ^ suc n - 1 ≡ (2 ^ n - 1) * 2 + 1 = omega (arith, power_pos n, double n) in
    ap (bit (suc j)) (ap (bit_and w) odd ∙ and_odd w (2 ^ n - 1))
    ∙ bit-double j (bit_and (w / 2) (2 ^ n - 1)) (w % 2) (omega arith)
    ∙ bit-all_ones n (w / 2) j (omega arith)

pub power_below : (n k : ℕ) → k < n → 2 ^ k < 2 ^ n
power_below zero k lt = absurd (omega arith)
power_below (suc n) zero lt = omega (arith, power_pos n, double n)
power_below (suc n) (suc k) lt = omega (arith, power_below n k (omega arith), double n, double k)

pub power_le : (n k : ℕ) → k ≤ n → 2 ^ k ≤ 2 ^ n
power_le n zero le = power_pos n
power_le zero (suc k) le = absurd (omega arith)
power_le (suc n) (suc k) le = omega (arith, power_le n k (omega arith), double n, double k)

odd_mask : (n k : ℕ) → k < n → 2 ^ suc n - 1 - 2 ^ suc k ≡ (2 ^ n - 1 - 2 ^ k) * 2 + 1
odd_mask n k lt = omega (arith, power_below n k lt, double n, double k)

-- `w & !(1 << k)` of `n` bits.
pub bit-cleared :
    (n k w j : ℕ)
    → k < n
    → j < n
    → bit j (bit_and w (2 ^ n - 1 - 2 ^ k)) ≡ (if j == k then 0 else bit j w)
bit-cleared zero k w j lt lt' = absurd (omega arith)
bit-cleared (suc n) zero w zero lt lt' =
    let even : 2 ^ suc n - 1 - 2 ^ 0 ≡ (2 ^ n - 1) * 2 = omega (arith, power_pos n, double n) in
    omega (arith, ap (bit_and w) even, and_even w (2 ^ n - 1))
bit-cleared (suc n) zero w (suc j) lt lt' =
    let even : 2 ^ suc n - 1 - 2 ^ 0 ≡ (2 ^ n - 1) * 2 = omega (arith, power_pos n, double n) in
    let half : bit_and w (2 ^ suc n - 1 - 2 ^ 0) / 2 ≡ bit_and (w / 2) (2 ^ n - 1) =
      omega (arith, ap (bit_and w) even, and_even w (2 ^ n - 1)) in
    ground (arith, ap (bit j) half, bit-all_ones n (w / 2) j (omega arith))
bit-cleared (suc n) (suc k) w zero lt lt' =
    grind (arith, ap (bit_and w) (odd_mask n k (omega arith)), and_odd w (2 ^ n - 1 - 2 ^ k))
bit-cleared (suc n) (suc k) w (suc j) lt lt' =
    let half : bit_and w (2 ^ suc n - 1 - 2 ^ suc k) / 2 ≡ bit_and (w / 2) (2 ^ n - 1 - 2 ^ k) =
      omega (arith, ap (bit_and w) (odd_mask n k (omega arith)), and_odd w (2 ^ n - 1 - 2 ^ k)) in
    ap (bit j) half
    ∙ bit-cleared n k (w / 2) j (omega arith) (omega arith)
    ∙ if_suc j k 0 (bit j (w / 2))

pub bit-full : (n j : ℕ) → j < n → bit j (2 ^ n - 1) ≡ 1
bit-full zero j lt = absurd (omega arith)
bit-full (suc n) zero lt = omega (arith, power_pos n)
bit-full (suc n) (suc j) lt =
    let half : (2 ^ suc n - 1) / 2 ≡ 2 ^ n - 1 = omega (arith, power_pos n, double n) in
    ap (bit j) half ∙ bit-full n j (omega arith)

pub bit-le : (k w : ℕ) → bit k w < 2
bit-le zero w = omega arith
bit-le (suc k) w = bit-le k (w / 2)

-- `e` times halved.
abbrev pub halved : ℕ → ℕ → ℕ
halved zero y = y
halved (suc e) y = halved e (y / 2)

-- `y & !((1 << e) - 1)` of `n` bits: rounded down.
pub bit_and-high : (n e y : ℕ) → e ≤ n → y < 2 ^ n → bit_and y (2 ^ n - 2 ^ e) ≡ halved e y * 2 ^ e
bit_and-high n zero y le lt = omega (arith, kept n y lt)
  where
    kept : (n y : ℕ) → y < 2 ^ n → bit_and y (2 ^ n - 1) ≡ y
    kept zero y lt = omega (arith, ap (λ t. bit_and t 0) (zero_of y lt))
      where
        zero_of : (y : ℕ) → y < 1 → y ≡ 0
        zero_of y lt = omega arith
    kept (suc n) y lt =
        let odd : 2 ^ suc n - 1 ≡ (2 ^ n - 1) * 2 + 1 = omega (arith, power_pos n, double n) in
        omega (
          arith,
          ap (bit_and y) odd,
          and_odd y (2 ^ n - 1),
          kept n (y / 2) (omega (arith, double n)),
        )
bit_and-high zero (suc e) y le lt = absurd (omega arith)
bit_and-high (suc n) (suc e) y le lt =
    let even : 2 ^ suc n - 2 ^ suc e ≡ (2 ^ n - 2 ^ e) * 2 = omega (arith, double n, double e) in
    ap (bit_and y) even
    ∙ and_even y (2 ^ n - 2 ^ e)
    ∙ ap (λ t. t * 2) (bit_and-high n e (y / 2) (omega arith) (omega (arith, double n)))
    ∙ doubled (halved e (y / 2)) e

pub halved-bounds : (e y : ℕ) → (halved e y * 2 ^ e ≤ y) × (y < (halved e y + 1) * 2 ^ e)
halved-bounds zero y = (omega arith, omega arith)
halved-bounds (suc e) y =
    let (low, high) = halved-bounds e (y / 2) in
    (
      omega (arith, low, doubled (halved e (y / 2)) e),
      omega (arith, high, doubled (halved e (y / 2) + 1) e),
    )

pub power_multiple : (n e : ℕ) → e ≤ n → (q : ℕ) × (2 ^ n ≡ q * 2 ^ e)
power_multiple n zero le = (2 ^ n, omega arith)
power_multiple zero (suc e) le = absurd (omega arith)
power_multiple (suc n) (suc e) le =
    let (q, at) = power_multiple n e (omega arith) in
    (q, double n ∙ ap (λ t. t * 2) at ∙ doubled q e)
