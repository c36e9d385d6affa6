-- ===== src/Xhci/Moves.antt =====
-- crates/usb/src/xhci/ring.rs: what a push does to what waits in a producer ring.
use relay_os.Prelude.{
  ℕ, ◌+◌, ◌-◌, ◌*◌, ◌≤◌, ◌<◌, ◌≡◌, inl, inr, refl, sym, ap, subst, ◌∙◌, arith, Bool, true, false,
  not, Option, none, some, [], ◌∷◌, ◌++◌, append_assoc, append-nil, ltb, Bool-cases, length, set,
  length-append,
}
use relay_os.Xhci.{Trb, with_cycle, lap_link, ProducerRing, push, Consumer}
use relay_os.Xhci.Lap.{
  IsLap, IsPlain, filled, turned, push-filled, push-turned, filled-IsLap, turned-IsLap,
}
use relay_os.Xhci.Runs.{
  run, waiting, IsAt, length-run, run-set, run-end, waiting-wrapped, waiting-same, phase-same,
  phase-wrapped, IsAt-same, IsAt-wrapped,
}

-- What a push appends, and that the consumer stays where it is.
unfoldable pub Pushed : ProducerRing → Consumer → ℕ → Trb → Option (ℕ × ProducerRing) → Type 0
Pushed r c ci t none = ⊥
Pushed r c ci t (some (a, r')) =
    IsLap r' × IsAt r' c ci × (waiting r' ci ≡ waiting r ci ++ ((a, with_cycle t r.cycle) ∷ []))

push-same :
    (r : ProducerRing) (c : Consumer) (ci : ℕ) (t : Trb)
    → IsLap r
    → IsAt r c ci
    → IsPlain t
    → r.index < 254
    → ci ≤ r.index
    → Pushed r c ci t (push r t)
unfolding Pushed
push-same r c ci t v at p lt le = subst (Pushed r c ci t) (sym (push-filled r t lt)) (
  filled-IsLap r t v p lt,
  IsAt-same (filled r t) c ci at.inside at.address (omega (arith, le)) (phase-same r c ci at le),
  waiting-same (filled r t) ci (omega (arith, le))
      ∙ run-end r.phys r.segment ci r.index (r.index + 1 - ci) (with_cycle t r.cycle) le
          (omega (arith, v.size, lt)) refl
      ∙ ap (λ m. m ++ ((r.phys + r.index * 16, with_cycle t r.cycle) ∷ []))
          (sym (waiting-same r ci le)),
)

push-wrapped :
    (r : ProducerRing) (c : Consumer) (ci : ℕ) (t : Trb)
    → IsLap r
    → IsAt r c ci
    → IsPlain t
    → r.index < 254
    → r.index + 1 < ci
    → Pushed r c ci t (push r t)
unfolding Pushed
push-wrapped r c ci t v at p lt less =
    let new = with_cycle t r.cycle in
    let here = run r.phys r.segment ci (255 - ci) in
    let whole : r.index - 0 ≡ r.index = omega arith in
    subst (Pushed r c ci t) (sym (push-filled r t lt)) (
      filled-IsLap r t v p lt,
      IsAt-wrapped (filled r t) c ci at.inside at.address less
          (phase-wrapped r c ci at (omega (arith, less))),
      waiting-wrapped (filled r t) ci less
          ∙ ap (λ m. m ++ run r.phys (set r.segment r.index new) 0 (r.index + 1))
              (run-set r.phys r.segment ci (255 - ci) r.index new (inl (omega (arith, less))))
          ∙ ap (λ m. here ++ m)
              (run-end r.phys r.segment 0 r.index (r.index + 1) new (omega arith)
                (omega (arith, v.size, lt)) (omega arith))
          ∙ ap (λ k. here ++ (run r.phys r.segment 0 k ++ ((r.phys + r.index * 16, new) ∷ [])))
              whole
          ∙ sym (
              append_assoc here (run r.phys r.segment 0 r.index)
                ((r.phys + r.index * 16, new) ∷ []))
          ∙ ap (λ m. m ++ ((r.phys + r.index * 16, new) ∷ []))
              (sym (waiting-wrapped r ci (omega (arith, less)))),
    )

push-turn :
    (r : ProducerRing) (c : Consumer) (ci : ℕ) (t : Trb)
    → IsLap r
    → IsAt r c ci
    → IsPlain t
    → r.index ≡ 254
    → 0 < ci
    → ci ≤ 254
    → Pushed r c ci t (push r t)
unfolding Pushed
push-turn r c ci t v at p e pos le =
    let new = with_cycle t r.cycle in
    let one = set r.segment r.index new in
    subst (Pushed r c ci t) (sym (push-turned r t e)) (
      turned-IsLap r t v p e,
      IsAt-wrapped (turned r t) c ci at.inside at.address pos
          (phase-same r c ci at (omega (arith, le, e)) ∙ twice r.cycle),
      waiting-wrapped (turned r t) ci pos
          ∙ append-nil (run r.phys (turned r t).segment ci (255 - ci))
          ∙ run-set r.phys one ci (255 - ci) 255 (with_cycle (lap_link r.phys t) r.cycle)
              (inr (omega (arith, le)))
          ∙ run-end r.phys r.segment ci r.index (255 - ci) new (omega (arith, le, e))
              (omega (arith, v.size, e)) (omega (arith, e))
          ∙ ap (λ m. m ++ ((r.phys + r.index * 16, new) ∷ []))
              (sym (waiting-same r ci (omega (arith, le, e)))),
    )
  where
    twice : (c : Bool) → c ≡ not (not c)
    twice true = refl
    twice false = refl

length-waiting-same :
    (r : ProducerRing) (ci : ℕ) → ci ≤ r.index → length (waiting r ci) ≡ r.index - ci
length-waiting-same r ci le =
    ap length (waiting-same r ci le) ∙ length-run r.phys r.segment ci (r.index - ci)

length-waiting-wrapped :
    (r : ProducerRing) (ci : ℕ) → r.index < ci → length (waiting r ci) ≡ 255 - ci + r.index
length-waiting-wrapped r ci lt = omega (
  arith,
  ap length (waiting-wrapped r ci lt),
  length-append (run r.phys r.segment ci (255 - ci)) (run r.phys r.segment 0 r.index),
  length-run r.phys r.segment ci (255 - ci),
  length-run r.phys r.segment 0 r.index,
)

pub push-Pushed :
    (r : ProducerRing) (c : Consumer) (ci : ℕ) (t : Trb)
    → IsLap r
    → IsAt r c ci
    → IsPlain t
    → length (waiting r ci) < 254
    → Pushed r c ci t (push r t)
push-Pushed r c ci t v at p room =
    let index_in = v.index_in in
    let inside = at.inside in
    elim (Bool-cases (ltb r.index ci)) [
      | inl wrapped ↦
          let lt : r.index < ci = ground (arith, wrapped) in
          let count = length-waiting-wrapped r ci lt in
          push-wrapped r c ci t v at p (omega (arith, room, count, lt, inside))
            (omega (arith, room, count, lt, inside))
      | inr ahead ↦
          let le : ci ≤ r.index = ground (arith, ahead) in
          let count = length-waiting-same r ci le in
          (elim (Bool-cases (ltb r.index 254)) [
            | inl lt ↦ push-same r c ci t v at p (ground (arith, lt)) le
            | inr last ↦
                let e : r.index ≡ 254 = ground (arith, last, index_in) in
                push-turn r c ci t v at p e (omega (arith, room, count, e)) (omega (arith, e, le))
          ])
    ]
