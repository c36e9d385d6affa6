-- ===== src/Xhci/Lap.antt =====
-- crates/usb/src/xhci/ring.rs: the cycle bits of a producer ring: those of this lap, then those of the lap
-- before.
use relay_os.Prelude.{
  ℕ, zero, suc, ◌+◌, ◌*◌, ◌%◌, ◌^◌, ◌<◌, ◌≡◌, refl, sym, ap, subst, ◌∙◌, arith, Bool, true, false,
  not, some, List, ◌==◌, ltb, if◌then◌else◌, length, get_or, set, replicate, length-set,
  get_or-set_self, get_or-set_ne,
}
use relay_os.Xhci.{
  Trb, blank, link, link_type, trbs, has_cycle, with_cycle, trb_type, lap_link, ProducerRing, new,
  push,
}
use relay_os.Xhci.Words.{
  has_cycle-with_cycle, trb_type-with_cycle, IsLink, link-IsLink, lap_link-IsLink, lap_link-small,
}

abbrev pub trb_of : ProducerRing → ℕ → Trb
trb_of r i = get_or r.segment i blank

-- The cycle bit at an index of a ring.
abbrev pub cycle_at : ProducerRing → ℕ → Bool
cycle_at r i = if ltb i r.index then r.cycle else not r.cycle

pub record IsLap (r : ProducerRing) : Type 0 where
  pub size : length r.segment ≡ 256
  pub index_in : r.index < 255
  pub aligned : r.phys % 64 ≡ 0
  pub below : r.phys < 2 ^ 64
  pub lap : (i : ℕ) → i < 256 → has_cycle (trb_of r i) ≡ cycle_at r i
  pub linked : IsLink r.phys (trb_of r 255)
  pub plain : (i : ℕ) → i < 255 → (trb_type (trb_of r i) == link_type) ≡ false

-- What is at each index after a write.
pub get_or-written :
    (l : List Trb) (k i : ℕ) (t : Trb)
    → k < length l
    → get_or (set l k t) i blank ≡ (if i == k then t else get_or l i blank)
get_or-written l k i t lt = one (i == k) refl
  where
    one :
        (c : Bool) → (i == k) ≡ c → get_or (set l k t) i blank ≡ (if c then t else get_or l i blank)
    one true e =
        let at : i ≡ k = ground (arith, e) in
        ap (λ m. get_or (set l k t) m blank) at ∙ get_or-set_self l k t blank lt
    one false e = get_or-set_ne l k i t blank (λ at. ground (arith, e, at))

pub get_or-unwritten :
    (l : List Trb) (k i : ℕ) (t : Trb)
    → (i == k) ≡ false
    → get_or (set l k t) i blank ≡ get_or l i blank
get_or-unwritten l k i t e = get_or-set_ne l k i t blank (λ at. ground (arith, e, at))

get_or-replicate : (n i : ℕ) → get_or (replicate n blank) i blank ≡ blank
get_or-replicate zero i = refl
get_or-replicate (suc n) zero = refl
get_or-replicate (suc n) (suc i) = get_or-replicate n i

length-replicate : (n : ℕ) → length (replicate n blank) ≡ n
length-replicate zero = refl
length-replicate (suc n) = omega (arith, length-replicate n)

pub if-holds :
    {A : Type 0} (P : A → Type 0) (c : Bool) (x y : A)
    → (c ≡ true → P x)
    → (c ≡ false → P y)
    → P (if c then x else y)
if-holds P true x y g h = g refl
if-holds P false x y g h = h refl

none_before : (i : ℕ) (a b : Bool) → b ≡ (if ltb i 0 then a else b)
none_before i a b =
    if-holds (λ c. b ≡ c) (ltb i 0) a b (λ less. absurd (ground (arith, less))) (λ _. refl)

-- A ring with a TRB written at its index, and the index moved on.
abbrev pub filled : ProducerRing → Trb → ProducerRing
filled r t = record r {
  segment = set r.segment r.index (with_cycle t r.cycle);
  index = r.index + 1;
}

-- The same at the end of a lap.
abbrev pub turned : ProducerRing → Trb → ProducerRing
turned r t = record r {
  segment =
      set (set r.segment r.index (with_cycle t r.cycle)) 255
        (with_cycle (lap_link r.phys t) r.cycle);
  index = 0;
  cycle = not r.cycle;
}

pub push-filled :
    (r : ProducerRing) (t : Trb)
    → r.index < 254
    → push r t ≡ some (r.phys + r.index * 16, filled r t)
unfolding push
push-filled r t lt =
    let inside : ltb r.index 256 ≡ true = ground (arith, lt) in
    let more : (r.index + 1 == 255) ≡ false = ground (arith, lt) in rw (inside, more) refl

pub push-turned :
    (r : ProducerRing) (t : Trb)
    → r.index ≡ 254
    → push r t ≡ some (r.phys + r.index * 16, turned r t)
unfolding push
push-turned r t e =
    let inside : ltb r.index 256 ≡ true = ground (arith, e) in
    let last : (r.index + 1 == 255) ≡ true = ground (arith, e) in rw (inside, last) refl

-- What may be pushed: four dwords that are not a link.
pub record IsPlain (t : Trb) : Type 0 where
  pub small : t.control < 2 ^ 32
  pub no_link : (trb_type t == link_type) ≡ false

written-plain :
    (r : ProducerRing) (t : Trb) (i : ℕ)
    → IsLap r
    → IsPlain t
    → i < 255
    → (trb_type (get_or (set r.segment r.index (with_cycle t r.cycle)) i blank) == link_type)
      ≡ false
written-plain r t i v p lt =
    subst (λ u. (trb_type u == link_type) ≡ false)
      (sym (
        get_or-written r.segment r.index i (with_cycle t r.cycle)
          (omega (arith, v.size, v.index_in))))
      (if-holds (λ u. (trb_type u == link_type) ≡ false) (i == r.index) (with_cycle t r.cycle)
        (trb_of r i)
        (λ _. ap (λ k. k == link_type) (trb_type-with_cycle t r.cycle p.small) ∙ p.no_link)
        (λ _. v.plain i lt))

pub filled-IsLap :
    (r : ProducerRing) (t : Trb) → IsLap r → IsPlain t → r.index < 254 → IsLap (filled r t)
filled-IsLap r t v p lt =
    let at = λ (i : ℕ).
      get_or-written r.segment r.index i (with_cycle t r.cycle) (omega (arith, v.size, lt)) in
    let other : (255 == r.index) ≡ false = ground (arith, lt) in
    let unchanged = get_or-unwritten r.segment r.index 255 (with_cycle t r.cycle) other in
    record {
      size = length-set r.segment r.index (with_cycle t r.cycle) ∙ v.size;
      index_in = omega (arith, lt);
      aligned = v.aligned;
      below = v.below;
      lap = λ i inside.
          subst (λ u. has_cycle u ≡ cycle_at (filled r t) i) (sym (at i))
            (if-holds (λ u. has_cycle u ≡ cycle_at (filled r t) i) (i == r.index)
              (with_cycle t r.cycle) (trb_of r i)
              (λ here.
                has_cycle-with_cycle t r.cycle p.small
                ∙ if-holds (λ b. r.cycle ≡ b) (ltb i (r.index + 1)) r.cycle (not r.cycle)
                    (λ _. refl) (λ out. absurd (ground (arith, here, out))))
              (λ there.
                v.lap i inside
                ∙ ap (λ b. if b then r.cycle else not r.cycle) (ground (arith, there))));
      linked = subst (IsLink r.phys) (sym unchanged) v.linked;
      plain = λ i inside. written-plain r t i v p inside;
    }

pub turned-IsLap :
    (r : ProducerRing) (t : Trb) → IsLap r → IsPlain t → r.index ≡ 254 → IsLap (turned r t)
turned-IsLap r t v p e =
    let one = set r.segment r.index (with_cycle t r.cycle) in
    let ended = with_cycle (lap_link r.phys t) r.cycle in
    let size : length one ≡ 256 = length-set r.segment r.index (with_cycle t r.cycle) ∙ v.size in
    let at = λ (i : ℕ). get_or-written one 255 i ended (omega (arith, size)) in
    let before = λ (i : ℕ).
      get_or-written r.segment r.index i (with_cycle t r.cycle) (omega (arith, v.size, e)) in
    record {
      size = length-set one 255 ended ∙ size;
      index_in = omega arith;
      aligned = v.aligned;
      below = v.below;
      lap = λ i inside. ends i (
          subst (λ u. has_cycle u ≡ not (not r.cycle)) (sym (at i))
            (if-holds (λ u. has_cycle u ≡ not (not r.cycle)) (i == 255) ended (get_or one i blank)
              (λ _.
                has_cycle-with_cycle (lap_link r.phys t) r.cycle (lap_link-small r.phys t)
                ∙ twice r.cycle)
              (λ there.
                subst (λ u. has_cycle u ≡ not (not r.cycle)) (sym (before i))
                  (if-holds (λ u. has_cycle u ≡ not (not r.cycle)) (i == r.index)
                    (with_cycle t r.cycle) (trb_of r i)
                    (λ _. has_cycle-with_cycle t r.cycle p.small ∙ twice r.cycle)
                    (λ earlier.
                      let less : ltb i r.index ≡ true = ground (arith, there, earlier, inside, e) in
                      v.lap i inside
                      ∙ ap (λ b. if b then r.cycle else not r.cycle) less
                      ∙ twice r.cycle)))));
      linked = subst (IsLink r.phys) (sym (at 255)) (lap_link-IsLink r.phys t r.cycle);
      plain = λ i inside.
          subst (λ u. (trb_type u == link_type) ≡ false)
            (sym (get_or-unwritten one 255 i ended (ground (arith, inside))))
            (written-plain r t i v p inside);
    }
  where
    ends :
        (i : ℕ) {b : Bool}
        → b ≡ not (not r.cycle)
        → b ≡ (if ltb i 0 then not r.cycle else not (not r.cycle))
    ends i h = h ∙ none_before i (not r.cycle) (not (not r.cycle))

    twice : (c : Bool) → c ≡ not (not c)
    twice true = refl
    twice false = refl

-- A new ring: a lap with nothing in it.
abbrev pub fresh_ring : ℕ → ProducerRing
fresh_ring phys = record {
  phys = phys;
  segment = set (replicate trbs blank) 255 (link phys);
  index = 0;
  cycle = true;
}

pub new-fresh_ring : (phys : ℕ) → new (some phys) ≡ some (fresh_ring phys)
unfolding new
new-fresh_ring phys = refl

pub fresh_ring-IsLap : (phys : ℕ) → phys % 64 ≡ 0 → phys < 2 ^ 64 → IsLap (fresh_ring phys)
fresh_ring-IsLap phys aligned below =
    let at = λ (i : ℕ).
      get_or-written (replicate trbs blank) 255 i (link phys)
        (omega (arith, length-replicate trbs)) in
    record {
      size = length-set (replicate trbs blank) 255 (link phys) ∙ length-replicate trbs;
      index_in = omega arith;
      aligned = aligned;
      below = below;
      lap = λ i inside.
          subst (λ u. has_cycle u ≡ false) (sym (at i))
            (if-holds (λ u. has_cycle u ≡ false) (i == 255) (link phys)
              (get_or (replicate trbs blank) i blank) (λ _. refl)
              (λ _. ap has_cycle (get_or-replicate trbs i)))
          ∙ none_before i true false;
      linked = subst (IsLink phys) (sym (at 255)) (link-IsLink phys);
      plain = λ i inside.
          ap (λ u. trb_type u == link_type)
            (get_or-unwritten (replicate trbs blank) 255 i (link phys) (ground (arith, inside))
              ∙ get_or-replicate trbs i);
    }
