-- ===== src/Xhci.antt =====
-- crates/usb/src/xhci/ring.rs: the rings that the driver and the controller share, with the TRBs of
-- crates/usb/src/xhci/trb.rs, and the controller's side of them as the fake controller of
-- crates/usb/src/testing/xhci has it (commands.rs). A ring's memory is the list of its TRBs; a TRB is
-- written as one step, since its last dword hands it over. `none` is a panic.
mod Words
mod Lap
mod Runs
mod Moves
mod Reads
mod Replace
mod Order
mod Tests
use relay_os.Prelude.{
  ℕ, zero, suc, ◌+◌, ◌-◌, ◌*◌, ◌/◌, ◌%◌, ◌^◌, Bool, true, false, not, ◌&&◌, Option, none, some,
  List, [], ◌∷◌, ◌++◌, ◌==◌, leb, ltb, if◌then◌else◌, ◌>>=◌, get_or, set, replicate,
}
use Prim.Native.Nat.{bit_and, bit_or}

abbrev pub trbs : ℕ
trbs = 256

abbrev pub trb_size : ℕ
trb_size = 16

abbrev pub link_index : ℕ
link_index = trbs - 1

-- The four dwords.
pub record Trb : Type 0 where
  pub low : ℕ
  pub high : ℕ
  pub status : ℕ
  pub control : ℕ

abbrev pub blank : Trb
blank = record { low = 0; high = 0; status = 0; control = 0 }

abbrev pub link_type : ℕ
link_type = 6

abbrev pub cycle_bit : ℕ
cycle_bit = 1

abbrev pub toggle_cycle : ℕ
toggle_cycle = 2

abbrev pub chain_bit : ℕ
chain_bit = 16

abbrev pub with_pointer : ℕ → ℕ → ℕ → Trb
with_pointer pointer status control = record {
  low = pointer % 2 ^ 32;
  high = pointer / 2 ^ 32 % 2 ^ 32;
  status = status;
  control = control;
}

abbrev pub link : ℕ → Trb
link segment = with_pointer segment 0 (bit_or (link_type * 2 ^ 10) toggle_cycle)

abbrev pub has_cycle : Trb → Bool
has_cycle t = not (bit_and t.control cycle_bit == 0)

abbrev pub chain : Trb → Bool
chain t = not (bit_and t.control chain_bit == 0)

unfoldable pub with_cycle : Trb → Bool → Trb
with_cycle t cycle = record t {
  control = bit_or (bit_and t.control (2 ^ 32 - 1 - cycle_bit)) (if cycle then 1 else 0);
}

abbrev pub trb_type : Trb → ℕ
trb_type t = bit_and (t.control / 2 ^ 10) 0x3F

pub record ProducerRing : Type 0 where
  pub phys : ℕ
  pub segment : List Trb
  pub index : ℕ
  pub cycle : Bool

abbrev write : ProducerRing → ℕ → Trb → Option ProducerRing
write r index t =
    if ltb index trbs then some (record r { segment = set r.segment index t }) else none

-- The address of the memory that the driver was given, zeroed; without any, `NoMemory`.
unfoldable pub new : Option ℕ → Option ProducerRing
new none = none
new (some phys) =
    write record { phys = phys; segment = replicate trbs blank; index = 0; cycle = true } link_index
      (link phys)

-- The link that ends a lap.
abbrev pub lap_link : ℕ → Trb → Trb
lap_link phys t =
    if chain t
    then record (link phys) { control = bit_or (link phys).control chain_bit }
    else link phys

unfoldable pub push : ProducerRing → Trb → Option (ℕ × ProducerRing)
unfolding with_cycle
push r t =
    let addr = r.phys + r.index * trb_size in
    write r r.index (with_cycle t r.cycle) >>= λ filled.
    if r.index + 1 == link_index
    then (write filled link_index (with_cycle (lap_link r.phys t) r.cycle) >>= λ linked.
        some (addr, record linked { cycle = not r.cycle; index = 0 }))
    else some (addr, record filled { index = r.index + 1 })

unfoldable pub replace : ProducerRing → ℕ → Trb → Option ProducerRing
unfolding with_cycle
replace r addr t =
    let offset = addr - r.phys in
    let index = offset / trb_size in
    if leb r.phys addr && (ltb offset (link_index * trb_size) && offset % trb_size == 0)
    then write r index (with_cycle t (has_cycle (get_or r.segment index blank)))
    else none

abbrev pub enqueue_pointer : ProducerRing → ℕ
enqueue_pointer r = bit_or (r.phys + r.index * trb_size) (if r.cycle then 1 else 0)

-- The controller's side: where it reads, and its cycle state.
pub record Consumer : Type 0 where
  pub dequeue : ℕ
  pub cycle : Bool

-- The TRB at an address of the ring.
abbrev pub read_at : ProducerRing → ℕ → Trb
read_at r at = get_or r.segment ((at - r.phys) / trb_size) blank

abbrev pub same : Bool → Bool → Bool
same true c = c
same false c = not c

-- The loop of `peek`, on the rounds left.
abbrev pub peek_loop : ℕ → ProducerRing → Consumer → Option (Option (ℕ × Trb) × Consumer)
peek_loop zero r c = none
peek_loop (suc n) r c =
    let t = read_at r c.dequeue in
    let followed : Consumer = record {
      dequeue = bit_and (bit_or t.low (t.high * 2 ^ 32)) (2 ^ 64 - 1 - 0xF);
      cycle = if bit_and t.control 2 == 0 then c.cycle else not c.cycle;
    } in
    let rest = peek_loop n r followed in
    if same (has_cycle t) c.cycle
    then if trb_type t == link_type then rest else some (some (c.dequeue, t), c)
    else some (none, c)

unfoldable pub peek : ProducerRing → Consumer → Option (Option (ℕ × Trb) × Consumer)
peek r c = peek_loop 2 r c

abbrev pub advance : Consumer → Consumer
advance c = record c { dequeue = c.dequeue + 16 }

-- One round of the controller's loop: the next TRB, and past it.
abbrev pub past : Option (ℕ × Trb) × Consumer → Option (Option (ℕ × Trb) × Consumer)
past (none, c) = some (none, c)
past (some x, c) = some (some x, advance c)

unfoldable pub take_next : ProducerRing → Consumer → Option (Option (ℕ × Trb) × Consumer)
unfolding peek
take_next r c = peek r c >>= past
