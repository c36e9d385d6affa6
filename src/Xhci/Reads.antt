-- ===== src/Xhci/Reads.antt =====
-- crates/usb/src/xhci/ring.rs and crates/usb/src/testing/xhci/commands.rs: what the controller's next read
-- of a producer ring finds.
use relay_os.Prelude.{
  ℕ, zero, suc, ◌+◌, ◌-◌, ◌*◌, ◌/◌, ◌%◌, ◌^◌, ◌≤◌, ◌<◌, ◌≡◌, inl, inr, refl, sym, ap, subst, ◌∙◌,
  arith, Bool, true, false, not, Option, none, some, List, [], ◌∷◌, ◌++◌, ◌==◌, ltb, if◌then◌else◌,
  ◌>>=◌, Bool-cases,
}
use Prim.Native.Nat.{bit_and, bit_or}
use relay_os.Xhci.{
  link_type, has_cycle, trb_type, ProducerRing, Consumer, read_at, same, peek_loop, peek, advance,
  past, take_next,
}
use relay_os.Xhci.Words.{pointer-back}
use relay_os.Xhci.Lap.{trb_of, cycle_at, IsLap}
use relay_os.Xhci.Runs.{
  Entry, run, waiting, IsAt, phase-same, phase-wrapped, IsAt-same, IsAt-wrapped, waiting-same,
  waiting-wrapped,
}

-- The first of what waits, and the consumer past it; or none, when nothing waits.
unfoldable pub Taken : ProducerRing → List Entry → Option (Option Entry × Consumer) → Type 0
Taken r w none = ⊥
Taken r w (some (none, c)) = (w ≡ []) × ((ci : ℕ) × IsAt r c ci × (waiting r ci ≡ []))
Taken r w (some (some x, c)) = (ci : ℕ) × IsAt r c ci × (w ≡ x ∷ waiting r ci)

trb-read_at :
    (r : ProducerRing) (c : Consumer) (ci : ℕ) → IsAt r c ci → read_at r c.dequeue ≡ trb_of r ci
trb-read_at r c ci at =
    let index : (c.dequeue - r.phys) / 16 ≡ ci = omega (arith, at.address) in ap (trb_of r) index

same-equal : (a b : Bool) → a ≡ b → same a b ≡ true
same-equal true b e = sym e
same-equal false true e = absurd (ground (arith, e))
same-equal false false e = refl

same-differs : (a b : Bool) → a ≡ not b → same a b ≡ false
same-differs true true e = absurd (ground (arith, e))
same-differs true false e = refl
same-differs false true e = refl
same-differs false false e = absurd (ground (arith, e))

run-first :
    (r : ProducerRing) (i n : ℕ)
    → 0 < n
    → run r.phys r.segment i n
      ≡ (r.phys + i * 16, trb_of r i) ∷ run r.phys r.segment (i + 1) (n - 1)
run-first r i zero pos = absurd (omega arith)
run-first r i (suc n) pos =
    let next : suc i ≡ i + 1 = omega arith in
    let less : n ≡ suc n - 1 = omega arith in
    ap (λ k. (r.phys + i * 16, trb_of r i) ∷ run r.phys r.segment k n) next
    ∙ ap (λ k. (r.phys + i * 16, trb_of r i) ∷ run r.phys r.segment (i + 1) k) less

-- The cycle bit matches: a TRB that was handed over.
present :
    (n : ℕ) (r : ProducerRing) (c : Consumer) (ci : ℕ)
    → IsLap r
    → IsAt r c ci
    → ci < 255
    → cycle_at r ci ≡ c.cycle
    → peek_loop (suc n) r c ≡ some (some (r.phys + ci * 16, trb_of r ci), c)
present n r c ci v at lt e =
    let there = trb-read_at r c ci at in
    let matches : same (has_cycle (read_at r c.dequeue)) c.cycle ≡ true =
      same-equal _ _ (ap has_cycle there ∙ v.lap ci (omega (arith, lt)) ∙ e) in
    let plain : (trb_type (read_at r c.dequeue) == link_type) ≡ false =
      ap (λ t. trb_type t == link_type) there ∙ v.plain ci lt in
    let value : peek_loop (suc n) r c ≡ some (some (c.dequeue, read_at r c.dequeue), c) =
      rw (matches, plain) refl in
    value
    ∙ ap (λ a. some (some (a, read_at r c.dequeue), c)) at.address
    ∙ ap (λ t. some (some (r.phys + ci * 16, t), c)) there

-- It does not: nothing was handed over.
missing :
    (n : ℕ) (r : ProducerRing) (c : Consumer) (ci : ℕ)
    → IsLap r
    → IsAt r c ci
    → ci < 255
    → cycle_at r ci ≡ not c.cycle
    → peek_loop (suc n) r c ≡ some (none, c)
missing n r c ci v at lt e =
    let differs : same (has_cycle (read_at r c.dequeue)) c.cycle ≡ false =
      same-differs _ _ (ap has_cycle (trb-read_at r c ci at) ∙ v.lap ci (omega (arith, lt)) ∙ e) in
    rw differs refl

cycle_at-before : (r : ProducerRing) (i : ℕ) → i < r.index → cycle_at r i ≡ r.cycle
cycle_at-before r i lt =
    let e : ltb i r.index ≡ true = ground (arith, lt) in
    ap (λ b. if b then r.cycle else not r.cycle) e

cycle_at-from : (r : ProducerRing) (i : ℕ) → r.index ≤ i → cycle_at r i ≡ not r.cycle
cycle_at-from r i le =
    let e : ltb i r.index ≡ false = ground (arith, le) in
    ap (λ b. if b then r.cycle else not r.cycle) e

-- Before the link, with any rounds left.
reads :
    (n : ℕ) (r : ProducerRing) (c : Consumer) (ci : ℕ)
    → IsLap r
    → IsAt r c ci
    → ci < 255
    → Taken r (waiting r ci) (peek_loop (suc n) r c >>= past)
unfolding Taken
reads n r c ci v at lt = elim (Bool-cases (ltb r.index ci)) [
  | inl w ↦
      let less : r.index < ci = ground (arith, w) in
      let phase = phase-wrapped r c ci at less in
      subst (λ o. Taken r (waiting r ci) (o >>= past))
        (sym (present n r c ci v at lt (cycle_at-from r ci (omega (arith, less)) ∙ sym phase)))
        (
          ci + 1,
          IsAt-wrapped r (advance c) (ci + 1) (omega (arith, lt)) (omega (arith, at.address))
              (omega (arith, less)) phase,
          waiting-wrapped r ci less
              ∙ ap (λ m. m ++ run r.phys r.segment 0 r.index)
                  (run-first r ci (255 - ci) (omega (arith, lt)))
              ∙ ap
                  (λ k.
                    (r.phys + ci * 16, trb_of r ci)
                    ∷ (run r.phys r.segment (ci + 1) k ++ run r.phys r.segment 0 r.index))
                  (one_less 255)
              ∙ ap (λ m. (r.phys + ci * 16, trb_of r ci) ∷ m)
                  (sym (waiting-wrapped r (ci + 1) (omega (arith, less)))),
        )
  | inr ahead ↦
      let le : ci ≤ r.index = ground (arith, ahead) in
      let phase = phase-same r c ci at le in
      (elim (Bool-cases (ltb ci r.index)) [
        | inl some_wait ↦
            let less : ci < r.index = ground (arith, some_wait) in
            subst (λ o. Taken r (waiting r ci) (o >>= past))
              (sym (present n r c ci v at lt (cycle_at-before r ci less ∙ sym phase)))
              (
                ci + 1,
                IsAt-same r (advance c) (ci + 1) (omega (arith, lt)) (omega (arith, at.address))
                    (omega (arith, less)) phase,
                waiting-same r ci le
                    ∙ run-first r ci (r.index - ci) (omega (arith, less))
                    ∙ ap (λ k. (r.phys + ci * 16, trb_of r ci) ∷ run r.phys r.segment (ci + 1) k)
                        (one_less r.index)
                    ∙ ap (λ m. (r.phys + ci * 16, trb_of r ci) ∷ m)
                        (sym (waiting-same r (ci + 1) (omega (arith, less)))),
              )
        | inr none_wait ↦
            let e : r.index ≡ ci = ground (arith, none_wait, le) in
            let nothing : waiting r ci ≡ [] =
              waiting-same r ci le ∙ ap (run r.phys r.segment ci) (the_difference e) in
            subst (λ o. Taken r (waiting r ci) (o >>= past))
              (sym (
                missing n r c ci v at lt
                  (cycle_at-from r ci (omega (arith, e)) ∙ ap not (sym phase))))
              (nothing, (ci, at, nothing))
      ])
]
  where
    one_less : (b : ℕ) → b - ci - 1 ≡ b - (ci + 1)
    one_less b = omega arith

    the_difference : r.index ≡ ci → r.index - ci ≡ 0
    the_difference e = omega (arith, e)

-- At the link: on to the start, in the producer's lap.
at_link :
    (r : ProducerRing) (c : Consumer)
    → IsLap r
    → IsAt r c 255
    → peek_loop 2 r c ≡ peek_loop 1 r record { dequeue = r.phys; cycle = not c.cycle }
at_link r c v at =
    let there = trb-read_at r c 255 at in
    let phase = phase-wrapped r c 255 at v.index_in in
    let matches : same (has_cycle (read_at r c.dequeue)) c.cycle ≡ true = same-equal _ _ (
      ap has_cycle there
      ∙ v.lap 255 (omega arith)
      ∙ cycle_at-from r 255 (omega (arith, v.index_in))
      ∙ sym phase) in
    let is_link : (trb_type (read_at r c.dequeue) == link_type) ≡ true =
      ap (λ t. trb_type t == link_type) there ∙ v.linked.kind in
    let toggles : (bit_and (read_at r c.dequeue).control 2 == 0) ≡ false =
      ap (λ t. bit_and t.control 2 == 0) there ∙ v.linked.toggles in
    let back : bit_and (bit_or (read_at r c.dequeue).low ((read_at r c.dequeue).high * 2 ^ 32))
          (2 ^ 64 - 1 - 0xF)
        ≡ r.phys =
      ap (λ t. bit_and (bit_or t.low (t.high * 2 ^ 32)) (2 ^ 64 - 1 - 0xF)) there
      ∙ ap (λ w. bit_and (bit_or w ((trb_of r 255).high * 2 ^ 32)) (2 ^ 64 - 1 - 0xF))
          v.linked.low_is
      ∙ ap (λ w. bit_and (bit_or (r.phys % 2 ^ 32) (w * 2 ^ 32)) (2 ^ 64 - 1 - 0xF))
          v.linked.high_is
      ∙ pointer-back r.phys v.aligned v.below in
    rw (matches, is_link, toggles, back) refl

pub take_next-Taken :
    (r : ProducerRing) (c : Consumer) (ci : ℕ)
    → IsLap r
    → IsAt r c ci
    → Taken r (waiting r ci) (take_next r c)
unfolding take_next peek
take_next-Taken r c ci v at = elim (Bool-cases (ltb ci 255)) [
  | inl lt ↦ reads 1 r c ci v at (ground (arith, lt))
  | inr last ↦
      let e : ci ≡ 255 = ground (arith, last, at.inside) in
      let here : IsAt r c 255 = subst (IsAt r c) e at in
      let phase = phase-wrapped r c 255 here v.index_in in
      let start : Consumer = record { dequeue = r.phys; cycle = not c.cycle } in
      let begun : IsAt r start 0 =
        IsAt-same r start 0 (omega arith) (omega arith) (omega arith)
          (ap not phase ∙ twice r.cycle) in
      let waits : waiting r 0 ≡ waiting r ci =
        waiting-same r 0 (omega arith)
        ∙ ap (run r.phys r.segment 0) (whole r.index)
        ∙ sym (waiting-wrapped r 255 v.index_in)
        ∙ ap (waiting r) (sym e) in
      subst (λ o. Taken r (waiting r ci) (o >>= past)) (sym (at_link r c v here))
        (subst (λ w. Taken r w (peek_loop 1 r start >>= past)) waits
          (reads 0 r start 0 v begun (omega arith)))
]
  where
    twice : (c : Bool) → not (not c) ≡ c
    twice true = refl
    twice false = refl

    whole : (n : ℕ) → n - 0 ≡ n
    whole n = omega arith
