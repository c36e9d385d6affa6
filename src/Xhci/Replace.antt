-- ===== src/Xhci/Replace.antt =====
-- crates/usb/src/xhci/ring.rs: what `replace` does to a producer ring.
use relay_os.Prelude.{
  ℕ, zero, suc, ◌+◌, ◌-◌, ◌*◌, ◌/◌, ◌%◌, ◌<◌, ◌≡◌, refl, sym, ap, subst, ◌∙◌, arith, Bool, true,
  false, ◌&&◌, Option, none, some, List, [], ◌∷◌, ◌++◌, map, ◌==◌, leb, ltb, if◌then◌else◌, length,
  get_or, set, length-set,
}
use relay_os.Xhci.{
  Trb, blank, link_type, has_cycle, with_cycle, trb_type, ProducerRing, replace, Consumer,
}
use relay_os.Xhci.Words.{has_cycle-with_cycle, trb_type-with_cycle, IsLink}
use relay_os.Xhci.Lap.{trb_of, cycle_at, IsLap, IsPlain, get_or-written, get_or-unwritten, if-holds}
use relay_os.Xhci.Runs.{Entry, run, waiting, IsAt}

-- An entry, or the new TRB with the cycle bit of the entry where that is at the address.
abbrev pub swapped : ℕ → Trb → Entry → Entry
swapped a t (b, u) = (b, if b == a then with_cycle t (has_cycle u) else u)

-- A ring with a TRB replaced.
abbrev with_replaced : ProducerRing → ℕ → Trb → ProducerRing
with_replaced r k t = record r { segment = set r.segment k (with_cycle t (has_cycle (trb_of r k))) }

run-replaced :
    (phys : ℕ) (l : List Trb) (k : ℕ) (t : Trb) (i n : ℕ)
    → k < length l
    → run phys (set l k (with_cycle t (has_cycle (get_or l k blank)))) i n
      ≡ map (swapped (phys + k * 16) t) (run phys l i n)
run-replaced phys l k t i zero lt = refl
run-replaced phys l k t i (suc n) lt =
    let new = with_cycle t (has_cycle (get_or l k blank)) in
    let address : (i == k) ≡ (phys + i * 16 == phys + k * 16) = ground arith in
    ap (λ u. (phys + i * 16, u) ∷ run phys (set l k new) (suc i) n)
      (get_or-written l k i new lt
        ∙ here (i == k) refl
        ∙ ap (λ b. if b then with_cycle t (has_cycle (get_or l i blank)) else get_or l i blank)
            address)
    ∙ ap (λ m. swapped (phys + k * 16) t (phys + i * 16, get_or l i blank) ∷ m)
        (run-replaced phys l k t (suc i) n lt)
  where
    here :
        (c : Bool)
        → (i == k) ≡ c
        → (if c then with_cycle t (has_cycle (get_or l k blank)) else get_or l i blank)
          ≡ (if c then with_cycle t (has_cycle (get_or l i blank)) else get_or l i blank)
    here true e =
        let at : k ≡ i = ground (arith, e) in
        ap (λ m. with_cycle t (has_cycle (get_or l m blank))) at
    here false e = refl

map-append : (f : Entry → Entry) (xs ys : List Entry) → map f (xs ++ ys) ≡ map f xs ++ map f ys
map-append f [] ys = refl
map-append f (x ∷ xs) ys = ap (λ m. f x ∷ m) (map-append f xs ys)

-- What waits is the same but for the entry at the address.
waiting-replaced :
    (r : ProducerRing) (k : ℕ) (t : Trb) (ci : ℕ)
    → k < length r.segment
    → waiting (with_replaced r k t) ci ≡ map (swapped (r.phys + k * 16) t) (waiting r ci)
waiting-replaced r k t ci lt = both (ltb r.index ci)
  where
    f : Entry → Entry
    f = swapped (r.phys + k * 16) t

    new : List Trb
    new = (with_replaced r k t).segment

    both :
        (c : Bool)
        → (if c
            then run r.phys new ci (255 - ci) ++ run r.phys new 0 r.index
            else run r.phys new ci (r.index - ci))
          ≡ map f (
              if c
              then run r.phys r.segment ci (255 - ci) ++ run r.phys r.segment 0 r.index
              else run r.phys r.segment ci (r.index - ci))
    both true =
        ap (λ m. m ++ run r.phys new 0 r.index) (run-replaced r.phys r.segment k t ci (255 - ci) lt)
        ∙ ap (λ m. map f (run r.phys r.segment ci (255 - ci)) ++ m)
            (run-replaced r.phys r.segment k t 0 r.index lt)
        ∙ sym (map-append f (run r.phys r.segment ci (255 - ci)) (run r.phys r.segment 0 r.index))
    both false = run-replaced r.phys r.segment k t ci (r.index - ci) lt

replaced-IsLap :
    (r : ProducerRing) (k : ℕ) (t : Trb)
    → IsLap r
    → IsPlain t
    → k < 255
    → IsLap (with_replaced r k t)
replaced-IsLap r k t v p lt =
    let new = with_cycle t (has_cycle (trb_of r k)) in
    let at = λ (i : ℕ). get_or-written r.segment k i new (omega (arith, v.size, lt)) in
    let other : (255 == k) ≡ false = ground (arith, lt) in
    record {
      size = length-set r.segment k new ∙ v.size;
      index_in = v.index_in;
      aligned = v.aligned;
      below = v.below;
      lap = λ i inside.
          subst (λ u. has_cycle u ≡ cycle_at r i) (sym (at i))
            (if-holds (λ u. has_cycle u ≡ cycle_at r i) (i == k) new (trb_of r i)
              (λ here.
                let is : k ≡ i = ground (arith, here) in
                has_cycle-with_cycle t (has_cycle (trb_of r k)) p.small
                ∙ ap (λ j. has_cycle (trb_of r j)) is
                ∙ v.lap i inside)
              (λ _. v.lap i inside));
      linked = subst (IsLink r.phys) (sym (get_or-unwritten r.segment k 255 new other)) v.linked;
      plain = λ i inside.
          subst (λ u. (trb_type u == link_type) ≡ false) (sym (at i))
            (if-holds (λ u. (trb_type u == link_type) ≡ false) (i == k) new (trb_of r i)
              (λ _.
                ap (λ w. w == link_type) (trb_type-with_cycle t (has_cycle (trb_of r k)) p.small)
                ∙ p.no_link)
              (λ _. v.plain i inside));
    }

-- What a replacement leaves, for a consumer at an index: a panic, or the queue with the entry swapped.
unfoldable pub Replaced : ProducerRing → Consumer → ℕ → ℕ → Trb → Option ProducerRing → Type 0
Replaced r c ci a t none = Unit
Replaced r c ci a t (some r') =
    IsLap r' × IsAt r' c ci × (waiting r' ci ≡ map (swapped a t) (waiting r ci))

pub replace-Replaced :
    (r : ProducerRing) (c : Consumer) (ci a : ℕ) (t : Trb)
    → IsLap r
    → IsAt r c ci
    → IsPlain t
    → Replaced r c ci a t (replace r a t)
unfolding replace Replaced
replace-Replaced r c ci a t v at p =
    valid (leb r.phys a && (ltb (a - r.phys) (255 * 16) && (a - r.phys) % 16 == 0)) refl
  where
    stored :
        (b : Bool)
        → (a - r.phys) / 16 < 255
        → r.phys + (a - r.phys) / 16 * 16 ≡ a
        → Replaced r c ci a t (if b then some (with_replaced r ((a - r.phys) / 16) t) else none)
    stored false lt is = tt
    stored true lt is = (
      replaced-IsLap r ((a - r.phys) / 16) t v p lt,
      record { inside = at.inside; address = at.address; phase = at.phase },
      waiting-replaced r ((a - r.phys) / 16) t ci (omega (arith, v.size, lt))
          ∙ ap (λ b. map (swapped b t) (waiting r ci)) is,
    )

    valid :
        (b : Bool)
        → (leb r.phys a && (ltb (a - r.phys) (255 * 16) && (a - r.phys) % 16 == 0)) ≡ b
        → Replaced r c ci a t (
            if b
            then (if ltb ((a - r.phys) / 16) 256
                then some (with_replaced r ((a - r.phys) / 16) t)
                else none)
            else none)
    valid false e = tt
    valid true e = stored (ltb ((a - r.phys) / 16) 256) (ground (arith, e)) (ground (arith, e))
