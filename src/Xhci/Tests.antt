-- ===== src/Xhci/Tests.antt =====
-- A producer ring at a fixed address.
use relay_os.Prelude.{
  ℕ, ◌+◌, ◌*◌, ◌≡◌, refl, arith, true, none, some, List, [], ◌∷◌, ◌++◌, map, drop,
}
use relay_os.Xhci.{
  Trb, blank, with_cycle, ProducerRing, new, push, replace, Consumer, peek, take_next,
}
use relay_os.Xhci.Lap.{IsPlain, fresh_ring}
use relay_os.Xhci.Runs.{Entry}
use relay_os.Xhci.Replace.{swapped}
use relay_os.Xhci.Order.{Reach, started, pushed, replaced, Reach-queue, ReadOf}

abbrev base : ℕ
base = 0x10000

abbrev no_op : Trb
no_op = record blank { control = 23 * 1024 }

no_op-IsPlain : IsPlain no_op
no_op-IsPlain = record { small = omega arith; no_link = refl }

abbrev empty_ring : ProducerRing
empty_ring = fresh_ring base

abbrev filled_once : ProducerRing
filled_once = record empty_ring {
  segment = record no_op { control = 23 * 1024 + 1 } ∷ drop 1 empty_ring.segment;
  index = 1;
}

abbrev start : Consumer
start = record { dequeue = base; cycle = true }

begun : new (some base) ≡ some empty_ring
unfolding new
begun = refl

first_push : push empty_ring no_op ≡ some (base, filled_once)
unfolding push with_cycle
first_push = refl

nothing_yet : take_next empty_ring start ≡ some (none, start)
unfolding take_next peek
nothing_yet = refl

first_read :
    take_next filled_once start
    ≡ some (
      some (base, record no_op { control = 23 * 1024 + 1 }),
      record start { dequeue = base + 16 },
    )
unfolding take_next peek
first_read = refl

replaced_outside : replace filled_once (base + 1) no_op ≡ none
unfolding replace
replaced_outside = refl

-- A replacement before the read.
abbrev other : Trb
other = record blank { control = 9 * 1024 }

other-IsPlain : IsPlain other
other-IsPlain = record { small = omega arith; no_link = refl }

abbrev replaced_once : ProducerRing
replaced_once = record filled_once {
  segment = record other { control = 9 * 1024 + 1 } ∷ drop 1 empty_ring.segment;
}

replaced_first : replace filled_once base other ≡ some replaced_once
unfolding replace with_cycle
replaced_first = refl

abbrev sent : List Entry
sent = (base, with_cycle no_op true) ∷ []

reach : Reach filled_once start sent []
reach = pushed no_op (started base refl (omega arith) begun) no_op-IsPlain (omega arith) first_push

Reach-queue_example :
    (rest : List Entry) × ([] ++ map (swapped base other) sent ≡ [] ++ rest)
    × ReadOf rest (take_next replaced_once start)
Reach-queue_example = Reach-queue (replaced sent base other reach refl other-IsPlain replaced_first)
