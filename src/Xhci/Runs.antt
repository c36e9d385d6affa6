-- ===== src/Xhci/Runs.antt =====
-- crates/usb/src/xhci/ring.rs: what waits in a producer ring for the controller, and where the
-- consumer is.
use relay_os.Prelude.{
  ℕ, zero, suc, ◌+◌, ◌-◌, ◌*◌, ◌≤◌, ◌<◌, ◌≡◌, ◌≢◌, ◌⊎◌, inl, inr, refl, sym, ap, ◌∙◌, arith, true,
  false, not, List, [], ◌∷◌, ◌++◌, ltb, if◌then◌else◌, length, get_or, set, get_or-set_ne,
  get_or-set_self,
}
use relay_os.Xhci.{Trb, blank, ProducerRing, Consumer}

-- A TRB and its address.
abbrev pub Entry : Type 0
Entry = ℕ × Trb

-- The `n` entries from an index on.
abbrev pub run : ℕ → List Trb → ℕ → ℕ → List Entry
run phys l i zero = []
run phys l i (suc n) = (phys + i * 16, get_or l i blank) ∷ run phys l (suc i) n

-- What waits, from the consumer's index on: to the producer's, or to the link and round.
abbrev pub waiting : ProducerRing → ℕ → List Entry
waiting r ci =
    if ltb r.index ci
    then run r.phys r.segment ci (255 - ci) ++ run r.phys r.segment 0 r.index
    else run r.phys r.segment ci (r.index - ci)

-- Where the consumer is: in this lap, or in the one before.
pub record IsAt (r : ProducerRing) (c : Consumer) (ci : ℕ) : Type 0 where
  pub inside : ci ≤ 255
  pub address : c.dequeue ≡ r.phys + ci * 16
  pub phase : c.cycle ≡ (if ltb r.index ci then not r.cycle else r.cycle)

pub length-run : (phys : ℕ) (l : List Trb) (i n : ℕ) → length (run phys l i n) ≡ n
length-run phys l i zero = refl
length-run phys l i (suc n) = omega (arith, length-run phys l (suc i) n)

pub run-set :
    (phys : ℕ) (l : List Trb) (i n k : ℕ) (t : Trb)
    → (k < i) ⊎ (i + n ≤ k)
    → run phys (set l k t) i n ≡ run phys l i n
run-set phys l i zero k t out = refl
run-set phys l i (suc n) k t out =
    let apart : k ≢ i = λ e. both out e in
    ap (λ u. (phys + i * 16, u) ∷ run phys (set l k t) (suc i) n)
      (get_or-set_ne l k i t blank apart)
    ∙ ap (λ m. (phys + i * 16, get_or l i blank) ∷ m) (run-set phys l (suc i) n k t (next out))
  where
    both : (k < i) ⊎ (i + suc n ≤ k) → k ≡ i → ⊥
    both (inl lt) e = omega (arith, lt, e)
    both (inr le) e = omega (arith, le, e)

    next : (k < i) ⊎ (i + suc n ≤ k) → (k < suc i) ⊎ (suc i + n ≤ k)
    next (inl lt) = inl (omega (arith, lt))
    next (inr le) = inr (omega (arith, le))

-- An entry written behind a run joins it.
run-snoc :
    (phys : ℕ) (l : List Trb) (i n : ℕ) (t : Trb)
    → i + n < length l
    → run phys (set l (i + n) t) i (n + 1) ≡ run phys l i n ++ ((phys + (i + n) * 16, t) ∷ [])
run-snoc phys l i zero t lt =
    let at : i + 0 ≡ i = omega arith in
    ap (λ k. run phys (set l k t) i 1) at
    ∙ ap (λ u. (phys + i * 16, u) ∷ []) (get_or-set_self l i t blank (omega (arith, lt)))
    ∙ ap (λ k. (phys + k * 16, t) ∷ []) (sym at)
run-snoc phys l i (suc n) t lt =
    let step : i + suc n ≡ suc i + n = omega arith in
    let long : suc n + 1 ≡ suc (n + 1) = omega arith in
    let apart : i + suc n ≢ i = λ e. omega (arith, e) in
    ap (run phys (set l (i + suc n) t) i) long
    ∙ ap (λ u. (phys + i * 16, u) ∷ run phys (set l (i + suc n) t) (suc i) (n + 1))
        (get_or-set_ne l (i + suc n) i t blank apart)
    ∙ ap (λ m. (phys + i * 16, get_or l i blank) ∷ m)
        (ap (λ k. run phys (set l k t) (suc i) (n + 1)) step
          ∙ run-snoc phys l (suc i) n t (omega (arith, lt))
          ∙ ap (λ k. run phys l (suc i) n ++ ((phys + k * 16, t) ∷ [])) (sym step))

pub waiting-wrapped :
    (r : ProducerRing) (ci : ℕ)
    → r.index < ci
    → waiting r ci ≡ run r.phys r.segment ci (255 - ci) ++ run r.phys r.segment 0 r.index
waiting-wrapped r ci lt = let e : ltb r.index ci ≡ true = ground (arith, lt) in rw e refl

pub waiting-same :
    (r : ProducerRing) (ci : ℕ)
    → ci ≤ r.index
    → waiting r ci ≡ run r.phys r.segment ci (r.index - ci)
waiting-same r ci le = let e : ltb r.index ci ≡ false = ground (arith, le) in rw e refl

-- The entry behind a run, for a run that ends at the producer.
pub run-end :
    (phys : ℕ) (l : List Trb) (ci k n : ℕ) (t : Trb)
    → ci ≤ k
    → k < length l
    → n ≡ k + 1 - ci
    → run phys (set l k t) ci n ≡ run phys l ci (k - ci) ++ ((phys + k * 16, t) ∷ [])
run-end phys l ci k n t le lt e =
    let at : k ≡ ci + (k - ci) = omega (arith, le) in
    let count : n ≡ k - ci + 1 = omega (arith, le, e) in
    ap (run phys (set l k t) ci) count
    ∙ ap (λ m. run phys (set l m t) ci (k - ci + 1)) at
    ∙ run-snoc phys l ci (k - ci) t (omega (arith, le, lt))
    ∙ ap (λ m. run phys l ci (k - ci) ++ ((phys + m * 16, t) ∷ [])) (sym at)

pub phase-same :
    (r : ProducerRing) (c : Consumer) (ci : ℕ) → IsAt r c ci → ci ≤ r.index → c.cycle ≡ r.cycle
phase-same r c ci at le =
    let e : ltb r.index ci ≡ false = ground (arith, le) in
    at.phase ∙ ap (λ b. if b then not r.cycle else r.cycle) e

pub phase-wrapped :
    (r : ProducerRing) (c : Consumer) (ci : ℕ) → IsAt r c ci → r.index < ci → c.cycle ≡ not r.cycle
phase-wrapped r c ci at lt =
    let e : ltb r.index ci ≡ true = ground (arith, lt) in
    at.phase ∙ ap (λ b. if b then not r.cycle else r.cycle) e

pub IsAt-same :
    (r : ProducerRing) (c : Consumer) (ci : ℕ)
    → ci ≤ 255
    → c.dequeue ≡ r.phys + ci * 16
    → ci ≤ r.index
    → c.cycle ≡ r.cycle
    → IsAt r c ci
IsAt-same r c ci inside address le phase =
    let e : ltb r.index ci ≡ false = ground (arith, le) in
    record {
      inside = inside;
      address = address;
      phase = phase ∙ ap (λ b. if b then not r.cycle else r.cycle) (sym e);
    }

pub IsAt-wrapped :
    (r : ProducerRing) (c : Consumer) (ci : ℕ)
    → ci ≤ 255
    → c.dequeue ≡ r.phys + ci * 16
    → r.index < ci
    → c.cycle ≡ not r.cycle
    → IsAt r c ci
IsAt-wrapped r c ci inside address lt phase =
    let e : ltb r.index ci ≡ true = ground (arith, lt) in
    record {
      inside = inside;
      address = address;
      phase = phase ∙ ap (λ b. if b then not r.cycle else r.cycle) (sym e);
    }
