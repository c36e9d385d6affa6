-- ===== src/Xhci/Words.antt =====
-- crates/usb/src/xhci/trb.rs: what the bits of a TRB's last dword say.
use relay_os.Prelude.{
  ℕ, zero, suc, ◌+◌, ◌-◌, ◌*◌, ◌/◌, ◌%◌, ◌^◌, ◌<◌, ◌≡◌, refl, sym, ap, ◌∙◌, arith, Bool, true,
  false, ◌==◌, if◌then◌else◌,
}
use Prim.Native.Nat.{bit_and, bit_or, bit_or-bitwise}
use relay_os.Prelude.Bits.{bit_or-halves, bit_or-nothing}
use relay_os.Prelude.Masks.{bit_and-power, bit_and-high, or_even, double, doubled}
use relay_os.Xhci.{
  Trb, link, link_type, chain_bit, has_cycle, chain, with_cycle, trb_type, lap_link,
}

-- `c | a << k` with `c` of `k` bits.
bit_or-shifted : (k c a : ℕ) → c < 2 ^ k → bit_or c (a * 2 ^ k) ≡ a * 2 ^ k + c
bit_or-shifted zero c a lt =
    let none_left : c ≡ 0 = omega arith in
    omega (arith, ap (λ t. bit_or t (a * 1)) none_left, bit_or-bitwise 0 (a * 1))
bit_or-shifted (suc k) c a lt = omega (
  arith,
  ap (bit_or c) (sym (doubled a k)),
  doubled a k,
  or_even c (a * 2 ^ k),
  bit_or-shifted k (c / 2) a (omega (arith, lt, double k)),
)

-- The two dwords of an aligned address, put together.
pub pointer-back :
    (p : ℕ)
    → p % 64 ≡ 0
    → p < 2 ^ 64
    → bit_and (bit_or (p % 2 ^ 32) (p / 2 ^ 32 % 2 ^ 32 * 2 ^ 32)) (2 ^ 64 - 1 - 0xF) ≡ p
pointer-back p aligned small =
    let whole : bit_or (p % 2 ^ 32) (p / 2 ^ 32 % 2 ^ 32 * 2 ^ 32) ≡ p =
      omega (arith, bit_or-shifted 32 (p % 2 ^ 32) (p / 2 ^ 32 % 2 ^ 32) (omega arith), small) in
    omega (
      arith,
      ap (λ t. bit_and t (2 ^ 64 - 1 - 0xF)) whole,
      bit_and-high 64 4 p (omega arith) small,
      aligned,
    )

control-with_cycle :
    (t : Trb) (c : Bool)
    → t.control < 2 ^ 32
    → (with_cycle t c).control ≡ t.control / 2 * 2 + (if c then 1 else 0)
unfolding with_cycle
control-with_cycle t c small =
    let even : bit_and t.control (2 ^ 32 - 2) ≡ t.control / 2 * 2 =
      bit_and-high 32 1 t.control (omega arith) small in
    ap (λ w. bit_or w (if c then 1 else 0)) even ∙ last c
  where
    last :
        (c : Bool)
        → bit_or (t.control / 2 * 2) (if c then 1 else 0) ≡ t.control / 2 * 2 + (if c then 1 else 0)
    last true =
        let half : t.control / 2 * 2 / 2 ≡ t.control / 2 = omega arith in
        omega (
          arith,
          bit_or-halves (t.control / 2 * 2) 1,
          ap (λ w. bit_or w 0) half,
          bit_or-nothing (t.control / 2),
        )
    last false = omega (arith, bit_or-nothing (t.control / 2 * 2))

pub has_cycle-with_cycle :
    (t : Trb) (c : Bool) → t.control < 2 ^ 32 → has_cycle (with_cycle t c) ≡ c
has_cycle-with_cycle t c small =
    let value = control-with_cycle t c small in
    let low = bit_and-power 0 (with_cycle t c).control in one c value low
  where
    one :
        (b : Bool)
        → (with_cycle t c).control ≡ t.control / 2 * 2 + (if b then 1 else 0)
        → bit_and (with_cycle t c).control 1 ≡ (with_cycle t c).control % 2 * 1
        → has_cycle (with_cycle t c) ≡ b
    one true value low = ground (arith, value, low)
    one false value low = ground (arith, value, low)

pub trb_type-with_cycle :
    (t : Trb) (c : Bool) → t.control < 2 ^ 32 → trb_type (with_cycle t c) ≡ trb_type t
trb_type-with_cycle t c small = ap (λ w. bit_and w 0x3F) (kept c (control-with_cycle t c small))
  where
    kept :
        (b : Bool)
        → (with_cycle t c).control ≡ t.control / 2 * 2 + (if b then 1 else 0)
        → (with_cycle t c).control / 2 ^ 10 ≡ t.control / 2 ^ 10
    kept true value = omega (arith, value)
    kept false value = omega (arith, value)

-- A Link TRB back to the start that toggles the cycle state.
pub record IsLink (phys : ℕ) (t : Trb) : Type 0 where
  pub low_is : t.low ≡ phys % 2 ^ 32
  pub high_is : t.high ≡ phys / 2 ^ 32 % 2 ^ 32
  pub kind : (trb_type t == link_type) ≡ true
  pub toggles : (bit_and t.control 2 == 0) ≡ false

pub link-IsLink : (phys : ℕ) → IsLink phys (link phys)
link-IsLink phys = record { low_is = refl; high_is = refl; kind = refl; toggles = refl }

pub lap_link-IsLink : (phys : ℕ) (t : Trb) (c : Bool) → IsLink phys (with_cycle (lap_link phys t) c)
unfolding with_cycle
lap_link-IsLink phys t c = both (chain t) c
  where
    both :
        (b c : Bool)
        → IsLink phys (
            with_cycle
              (if b
                then record (link phys) { control = bit_or (link phys).control chain_bit }
                else link phys)
              c)
    both true true = record { low_is = refl; high_is = refl; kind = refl; toggles = refl }
    both true false = record { low_is = refl; high_is = refl; kind = refl; toggles = refl }
    both false true = record { low_is = refl; high_is = refl; kind = refl; toggles = refl }
    both false false = record { low_is = refl; high_is = refl; kind = refl; toggles = refl }

pub lap_link-small : (phys : ℕ) (t : Trb) → (lap_link phys t).control < 2 ^ 32
lap_link-small phys t = both (chain t)
  where
    both :
        (b : Bool)
        → (if b
            then record (link phys) { control = bit_or (link phys).control chain_bit }
            else link phys).control
          < 2 ^ 32
    both true = omega arith
    both false = omega arith
