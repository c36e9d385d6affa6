-- ===== src/Xhci/Order.antt =====
-- crates/usb/src/xhci/ring.rs: any sequence of the driver's pushes and replacements and the controller's reads.
use relay_os.Prelude.{
  ℕ, ◌+◌, ◌%◌, ◌^◌, ◌<◌, ◌≡◌, ◌≢◌, refl, sym, ap, subst, ◌∙◌, arith, true, Option, none, some, List,
  [], ◌∷◌, ◌++◌, map, append_assoc, length, length-append,
}
use relay_os.Xhci.{Trb, with_cycle, ProducerRing, new, push, replace, Consumer, take_next}
use relay_os.Xhci.Lap.{IsLap, IsPlain, fresh_ring, new-fresh_ring, fresh_ring-IsLap}
use relay_os.Xhci.Runs.{Entry, waiting, IsAt, IsAt-same, waiting-same}
use relay_os.Xhci.Moves.{Pushed, push-Pushed}
use mathlib.Core.List.{append_cancel_left}
use relay_os.Xhci.Replace.{swapped, Replaced, replace-Replaced}
use relay_os.Xhci.Reads.{Taken, take_next-Taken}

-- Any pushes, replacements and reads after `new`, on memory that is 64-byte aligned. `sent` are the
-- addresses that `push` returned with the TRBs as they were written or replaced before they were read,
-- `got` what the controller read.
pub data Reach : ProducerRing → Consumer → List Entry → List Entry → Type 0 where
  started :
      {r : ProducerRing} (phys : ℕ)
      → phys % 64 ≡ 0
      → phys < 2 ^ 64
      → new (some phys) ≡ some r
      → Reach r record { dequeue = phys; cycle = true } [] []
  pushed :
      {r r' : ProducerRing} {c : Consumer} {sent got : List Entry} {a : ℕ} (t : Trb)
      → Reach r c sent got
      → IsPlain t
      → length sent < length got + 254
      → push r t ≡ some (a, r')
      → Reach r' c (sent ++ (a, with_cycle t r.cycle) ∷ []) got
  took :
      {r : ProducerRing} {c c' : Consumer} {sent got : List Entry} {x : Entry}
      → Reach r c sent got
      → take_next r c ≡ some (some x, c')
      → Reach r c' sent (got ++ x ∷ [])
  idle :
      {r : ProducerRing} {c c' : Consumer} {sent got : List Entry}
      → Reach r c sent got
      → take_next r c ≡ some (none, c')
      → Reach r c' sent got
  replaced :
      {r r' : ProducerRing} {c : Consumer} {sent got : List Entry} (rest : List Entry) (a : ℕ)
      (t : Trb)
      → Reach r c sent got
      → sent ≡ got ++ rest
      → IsPlain t
      → replace r a t ≡ some r'
      → Reach r' c (got ++ map (swapped a t) rest) got

-- The ring and the consumer agree on what waits.
record IsAgreed (r : ProducerRing) (c : Consumer) (sent got : List Entry) : Type 0 where
  lap : IsLap r
  place : (ci : ℕ) × IsAt r c ci × (sent ≡ got ++ waiting r ci)

started-IsAgreed :
    (phys : ℕ) (r : ProducerRing)
    → phys % 64 ≡ 0
    → phys < 2 ^ 64
    → some (fresh_ring phys) ≡ some r
    → IsAgreed r record { dequeue = phys; cycle = true } [] []
started-IsAgreed phys r aligned below e =
    let same : fresh_ring phys ≡ r = cc (e) in
    subst (λ s. IsAgreed s record { dequeue = phys; cycle = true } [] []) same
      record {
        lap = fresh_ring-IsLap phys aligned below;
        place = (
          0,
          IsAt-same (fresh_ring phys) record { dequeue = phys; cycle = true } 0 (omega arith)
              (omega arith) (omega arith) refl,
          sym (waiting-same (fresh_ring phys) 0 (omega arith)),
        );
      }

waiting-room :
    (r : ProducerRing) (ci : ℕ) (sent got : List Entry)
    → sent ≡ got ++ waiting r ci
    → length sent < length got + 254
    → length (waiting r ci) < 254
waiting-room r ci sent got e room =
    omega (arith, room, ap length e, length-append got (waiting r ci))

pushed-IsAgreed :
    (r r' : ProducerRing) (c : Consumer) (sent got : List Entry) (a : ℕ) (t : Trb)
    → IsAgreed r c sent got
    → IsPlain t
    → length sent < length got + 254
    → push r t ≡ some (a, r')
    → IsAgreed r' c (sent ++ (a, with_cycle t r.cycle) ∷ []) got
unfolding Pushed
pushed-IsAgreed r r' c sent got a t s p room e =
    let (ci, at, all) = s.place in
    let (lap, at', more) =
      subst (Pushed r c ci t) e
        (push-Pushed r c ci t s.lap at p (waiting-room r ci sent got all room)) in
    record {
      lap = lap;
      place = (
        ci,
        at',
        ap (λ m. m ++ (a, with_cycle t r.cycle) ∷ []) all
            ∙ append_assoc got (waiting r ci) ((a, with_cycle t r.cycle) ∷ [])
            ∙ ap (λ m. got ++ m) (sym more),
      );
    }

took-IsAgreed :
    (r : ProducerRing) (c c' : Consumer) (sent got : List Entry) (x : Entry)
    → IsAgreed r c sent got
    → take_next r c ≡ some (some x, c')
    → IsAgreed r c' sent (got ++ x ∷ [])
unfolding Taken
took-IsAgreed r c c' sent got x s e =
    let (ci, at, all) = s.place in
    let (ci', at', first) = subst (Taken r (waiting r ci)) e (take_next-Taken r c ci s.lap at) in
    record {
      lap = s.lap;
      place = (
        ci',
        at',
        all ∙ ap (λ m. got ++ m) first ∙ sym (append_assoc got (x ∷ []) (waiting r ci')),
      );
    }

idle-IsAgreed :
    (r : ProducerRing) (c c' : Consumer) (sent got : List Entry)
    → IsAgreed r c sent got
    → take_next r c ≡ some (none, c')
    → IsAgreed r c' sent got
unfolding Taken
idle-IsAgreed r c c' sent got s e =
    let (ci, at, all) = s.place in
    let (nothing, (ci', at', none_left)) =
      subst (Taken r (waiting r ci)) e (take_next-Taken r c ci s.lap at) in
    record { lap = s.lap; place = (ci', at', all ∙ ap (λ m. got ++ m) (nothing ∙ sym none_left)) }

replaced-IsAgreed :
    (r r' : ProducerRing) (c : Consumer) (sent got rest : List Entry) (a : ℕ) (t : Trb)
    → IsAgreed r c sent got
    → sent ≡ got ++ rest
    → IsPlain t
    → replace r a t ≡ some r'
    → IsAgreed r' c (got ++ map (swapped a t) rest) got
unfolding Replaced
replaced-IsAgreed r r' c sent got rest a t s is p e =
    let (ci, at, all) = s.place in
    let (lap, at', swap) = subst (Replaced r c ci a t) e (replace-Replaced r c ci a t s.lap at p) in
    let waits : rest ≡ waiting r ci = append_cancel_left got rest (waiting r ci) (sym is ∙ all) in
    record {
      lap = lap;
      place = (ci, at', ap (λ m. got ++ map (swapped a t) m) waits ∙ ap (λ m. got ++ m) (sym swap));
    }

Reach-IsAgreed :
    {r : ProducerRing} {c : Consumer} {sent got : List Entry}
    → Reach r c sent got
    → IsAgreed r c sent got
Reach-IsAgreed (started {r} phys aligned below e) =
    started-IsAgreed phys r aligned below (sym (new-fresh_ring phys) ∙ e)
Reach-IsAgreed (pushed {r} {r'} {c} {sent} {got} {a} t h p room e) =
    pushed-IsAgreed r r' c sent got a t (Reach-IsAgreed h) p room e
Reach-IsAgreed (took {r} {c} {c'} {sent} {got} {x} h e) =
    took-IsAgreed r c c' sent got x (Reach-IsAgreed h) e
Reach-IsAgreed (replaced {r} {r'} {c} {sent} {got} rest a t h is p e) =
    replaced-IsAgreed r r' c sent got rest a t (Reach-IsAgreed h) is p e
Reach-IsAgreed (idle {r} {c} {c'} {sent} {got} h e) =
    idle-IsAgreed r c c' sent got (Reach-IsAgreed h) e

-- What a read of a queue gives: its first entry, or nothing when it is empty.
abbrev pub ReadOf : List Entry → Option (Option Entry × Consumer) → Type 0
ReadOf [] o = (c : Consumer) × (o ≡ some (none, c))
ReadOf (x ∷ xs) o = (c : Consumer) × (o ≡ some (some x, c))

Taken-ReadOf :
    (r : ProducerRing) (w : List Entry) (o : Option (Option Entry × Consumer))
    → Taken r w o
    → ReadOf w o
unfolding Taken
Taken-ReadOf r w none h = absurd h
Taken-ReadOf r w (some (none, c)) (e, _) = subst (λ l. ReadOf l (some (none, c))) (sym e) (c, refl)
Taken-ReadOf r w (some (some x, c)) (_, _, e) =
    subst (λ l. ReadOf l (some (some x, c))) (sym e) (c, refl)

-- The ring is a queue: whatever pushes (with fewer than 254 TRBs unread), replacements (both of four
-- dwords that are not a Link TRB) and reads were made, what the controller got is the first part of what
-- the driver sent, in order, each TRB once and at the address that `push` returned, across the link and
-- any number of laps; and its next read gives the oldest TRB it has not got, or none exactly when it has
-- got all. A replacement changes just the unread TRB at its address, all but the cycle bit.
pub Reach-queue :
    {r : ProducerRing} {c : Consumer} {sent got : List Entry}
    → Reach r c sent got
    → (rest : List Entry) × (sent ≡ got ++ rest) × ReadOf rest (take_next r c)
Reach-queue {r} {c} {sent} {got} h =
    let s = Reach-IsAgreed h in
    let (ci, at, all) = s.place in
    (
      waiting r ci,
      all,
      Taken-ReadOf r (waiting r ci) (take_next r c) (take_next-Taken r c ci s.lap at),
    )

-- With fewer than 254 TRBs unread, a push of four dwords that are not a Link TRB does not panic.
pub Reach-pushes :
    {r : ProducerRing} {c : Consumer} {sent got : List Entry} (t : Trb)
    → Reach r c sent got
    → IsPlain t
    → length sent < length got + 254
    → push r t ≢ none
unfolding Pushed
Reach-pushes {r} {c} {sent} {got} t h p room e =
    let s = Reach-IsAgreed h in
    let (ci, at, all) = s.place in
    subst (Pushed r c ci t) e
      (push-Pushed r c ci t s.lap at p (waiting-room r ci sent got all room))
