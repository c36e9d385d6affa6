-- ===== src/Input/Handback.antt =====
-- kernel/src/input.rs: what a raw reader gets when line mode ends.
use relay_os.Prelude.{
  ℕ, ◌-◌, ◌≡◌, refl, sym, ap, subst, ◌∙◌, inl, inr, arith, min, true, false, none, some, List, [],
  ◌∷◌, ◌++◌, if◌then◌else◌, length, take, nil_of_length, take-min, Bool-cases,
}
use relay_os.Line.{interrupt, take_all}
use relay_os.Line.Clean.{take_all-clean}
use relay_os.Line.Delivery.{content}
use relay_os.Input.{
  InputQueue, queue_max, has_interrupt, from_interrupt, extend, push_line, push_raw, push,
  to_raw_mode, set_line_mode,
}
use relay_os.Input.Bounds.{IsValid}
use relay_os.Input.Modes.{emptied}

from_interrupt-clean : (bytes : List ℕ) → has_interrupt bytes ≡ false → from_interrupt bytes ≡ none
from_interrupt-clean [] h = refl
from_interrupt-clean (b ∷ bytes) h = ground (arith, from_interrupt-clean bytes (ground arith))

-- What a raw reader gets of a Ctrl-C that nobody took and of what was typed.
abbrev pub handed_back : InputQueue → List ℕ
handed_back q = if q.interrupted then interrupt ∷ content q.line else content q.line

push-clean :
    (q : InputQueue) (bytes : List ℕ)
    → q.line_mode ≡ false
    → has_interrupt bytes ≡ false
    → push q bytes ≡ extend q bytes
unfolding push
push-clean q bytes raw clean =
    ap (λ b. if b then push_line q bytes else push_raw q bytes) raw
    ∙ ap
        (λ o. elim o [
          | none ↦ extend q bytes
          | some last ↦ extend (record q { bytes = []; echoed = 0; sequence = [] }) last
        ])
        (from_interrupt-clean bytes clean)

take-room : (n : ℕ) (xs : List ℕ) → take (min (length xs) n) xs ≡ take n xs
take-room n xs =
    let e : min (length xs) n ≡ min n (length xs) = omega arith in
    ap (λ k. take k xs) e ∙ take-min n xs

push-interrupt :
    (q : InputQueue)
    → q.line_mode ≡ false
    → push q (interrupt ∷ [])
      ≡ extend (record q { bytes = []; echoed = 0; sequence = [] }) (interrupt ∷ [])
unfolding push
push-interrupt q raw =
    ap (λ b. if b then push_line q (interrupt ∷ []) else push_raw q (interrupt ∷ [])) raw

to_raw_mode-bytes :
    (q : InputQueue)
    → IsValid q
    → q.line_mode ≡ true
    → ((to_raw_mode q).bytes ≡ take queue_max (handed_back q))
      × ((to_raw_mode q).echoed ≡ length (take queue_max (handed_back q)))
      × ((to_raw_mode q).line_mode ≡ false)
unfolding to_raw_mode take_all
to_raw_mode-bytes q v line =
    let typed = content q.line in
    let clean = (take_all-clean q.line v.clean).0 in
    let none_there : q.bytes ≡ [] = nil_of_length q.bytes (v.lined line) in
    let all : InputQueue → InputQueue = λ p. record p { echoed = length p.bytes } in
    elim (Bool-cases q.interrupted) [
      | inl hit ↦
          let stopped =
            extend (record (emptied q) { bytes = []; echoed = 0; sequence = [] })
              (interrupt ∷ []) in
          let e : to_raw_mode q ≡ all (extend stopped typed) =
            ap (λ b. all (push (if b then push (emptied q) (interrupt ∷ []) else emptied q) typed))
              hit
            ∙ ap (λ p. all (push p typed)) (push-interrupt (emptied q) refl)
            ∙ ap all (push-clean stopped typed refl clean) in
          let handed : handed_back q ≡ interrupt ∷ typed =
            ap (λ b. if b then interrupt ∷ typed else typed) hit in
          let same : (to_raw_mode q).bytes ≡ take queue_max (handed_back q) =
            ap (λ (p : InputQueue). p.bytes) e
            ∙ ap (λ xs. interrupt ∷ xs) (take-room 4095 typed)
            ∙ ap (take queue_max) (sym handed) in
          (
            same,
            ap (λ (p : InputQueue). p.echoed) e
                ∙ ap length (sym (ap (λ (p : InputQueue). p.bytes) e) ∙ same),
            ap (λ (p : InputQueue). p.line_mode) e,
          )
      | inr quiet ↦
          let e : to_raw_mode q ≡ all (extend (emptied q) typed) =
            ap (λ b. all (push (if b then push (emptied q) (interrupt ∷ []) else emptied q) typed))
              quiet
            ∙ ap all (push-clean (emptied q) typed refl clean) in
          let handed : handed_back q ≡ typed =
            ap (λ b. if b then interrupt ∷ typed else typed) quiet in
          let same : (to_raw_mode q).bytes ≡ take queue_max (handed_back q) =
            ap (λ (p : InputQueue). p.bytes) e
            ∙ ap (λ xs. xs ++ take (min (length typed) (queue_max - length xs)) typed) none_there
            ∙ take-room queue_max typed
            ∙ ap (take queue_max) (sym handed) in
          (
            same,
            ap (λ (p : InputQueue). p.echoed) e
                ∙ ap length (sym (ap (λ (p : InputQueue). p.bytes) e) ∙ same),
            ap (λ (p : InputQueue). p.line_mode) e,
          )
    ]

-- Going back to raw mode, in a queue that the calls can make, hands all that was typed and not read
-- to the raw reader: a Ctrl-C that nobody took first, then the lines and the line being typed, as far
-- as `QUEUE_MAX` bytes go, and all of it counts as echoed.
pub to_raw_mode-content :
    (q : InputQueue)
    → IsValid q
    → q.line_mode ≡ true
    → ((set_line_mode q false).1.bytes ≡ take queue_max (handed_back q))
      × ((set_line_mode q false).1.echoed ≡ length (take queue_max (handed_back q)))
      × ((set_line_mode q false).1.line_mode ≡ false)
unfolding set_line_mode
to_raw_mode-content q v line =
    let (bytes, echoed, mode) = to_raw_mode-bytes q v line in
    subst
      (λ b.
        let after = if b then to_raw_mode q else record q { line_mode = false } in
        (after.bytes ≡ take queue_max (handed_back q))
        × (after.echoed ≡ length (take queue_max (handed_back q)))
        × (after.line_mode ≡ false))
      (sym line) (bytes, echoed, mode)
