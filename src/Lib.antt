-- ===== src/Lib.antt =====
-- Relay OS, an operating system in Rust: the parts of its kernel and libraries that keep books
-- and whose correctness is a matter of data rather than of hardware, modelled as functions and
-- proved.
--
-- The parts and the files that model them:
-- - Prelude: names shared by all, lists indexed by native numbers, and the tests on them;
--   Prelude/Bits.antt has facts on `&` and `|` of small numbers, checked by tables.
-- - Errno: crates/vfs/src/errno.rs and the numbers of crates/relay-abi/src/errno.rs.
-- - Proc: the process table of kernel/src/proc/table.rs. Proc/Queue.antt is its `Queue` (the run
--   queue, a ring of `MAX` pids), Proc/Holders.antt is `Holders` of kernel/src/proc/holders.rs
--   (who may change the console), Proc/Process.antt has `Process`, `State` and `WaitStatus`
--   (crates/relay-abi/src/wait.rs), and Proc/Table.antt has one function for each method of
--   `Table`, under the method's name. Its children prove: Tally and Agree (the queue holds the
--   ready processes), Valid, Keeps, Ends and Starts (the invariant), Reach (any sequence of
--   calls), Lookup, Kill, Exit, Family, Clock and Turns (what each call does).
-- - Pipe: kernel/src/pipe.rs. Pipe/Fifo.antt has the bytes that wait as a list, Pipe/Calls.antt
--   what `read` and `write` do, Pipe/Stream.antt any sequence of them.
-- - Line: kernel/src/line.rs, the console's line discipline; `input` has one function for each
--   arm of its match. Line/Bounds.antt has the invariant, Line/Delivery.antt what is read of what
--   is typed.
-- - Input: kernel/src/input.rs, the input queue over the line discipline of Line; its keys are
--   those of crates/usb/src/hid/keymap.rs. Input/Keys.antt is about how bytes are cut into keys,
--   Input/Bounds.antt and Input/Modes.antt have the invariant, Input/Handback.antt what the
--   switch from line mode to raw mode hands over. Line/Clean.antt has the fact about the line
--   discipline that they use.
-- - Term: crates/term. Term/Ansi.antt is the parser of crates/term/src/ansi.rs;
--   Term/Ansi/Utf8.antt has the round trip of text, Term/Ansi/Bounds.antt the ranges.
--   Term/Screen.antt is the grid of crates/term/src/terminal.rs, without its pixels;
--   Term/Screen/Grid.antt and Term/Screen/Bounds.antt prove that it stays in its bounds, with the
--   ranges that the parser's actions have.
-- - Frame: kernel/src/mm/frame.rs, the allocator of physical frames, with the memory regions of
--   crates/boot-info/src/lib.rs. A word of its bitmap is a number, and `!`, `&` and `|` are those
--   of 64 bits; the methods `set`, `find` and `free` of the source are `set_used`, `find_run` and
--   `free_run`. Frame/Bitmap.antt is about single bits and runs of them, Frame/Search.antt about
--   `find`, Frame/Calls.antt about `alloc` and `free`, Frame/Restore.antt about one after the
--   other, Frame/Boot.antt about `new`, Frame/Placed.antt about where the bitmap goes,
--   Frame/Shared.antt about any sequence of calls. Prelude/Masks.antt has the facts on single
--   bits.
-- - Heap: crates/heap/src/lib.rs, the heap of the kernel and of programs. A free list is the list
--   of its blocks, and a block is its address and its size: the source keeps the links in the
--   free memory, which nobody else writes. Heap/Cover.antt counts in how many blocks a byte is,
--   Heap/Pieces.antt is about `alloc_large`, Heap/Small.antt about the size classes,
--   Heap/Alloc.antt, Heap/Calls.antt and Heap/Back.antt about each call, Heap/Bytes.antt and
--   Heap/Live.antt about the pieces that are handed out, Heap/Order.antt, Heap/Leaves.antt and
--   Heap/Merged.antt about the order of the free list, Heap/Shared.antt and Heap/Sorted.antt
--   about any sequence of calls. `Layout` (of core) is a record with what its documentation
--   promises.
-- - Xhci: the producer ring of crates/usb/src/xhci/ring.rs, with the TRBs of
--   crates/usb/src/xhci/trb.rs, and the controller that reads it as the fake controller of
--   crates/usb/src/testing/xhci/commands.rs does (`peek`, `advance`). The ring's memory is the
--   list of its TRBs, zeroed at first as the documentation of `Hal::alloc_dma` says.
--   Xhci/Words.antt is about the bits of a TRB, Xhci/Lap.antt about the cycle bits of a ring,
--   Xhci/Runs.antt about what waits in it, Xhci/Moves.antt, Xhci/Reads.antt and Xhci/Replace.antt
--   about a push, a read and a replacement, Xhci/Order.antt about any sequence of them. The event
--   ring is not modelled.
-- - Fd: kernel/src/fd.rs, the table of file descriptors. Fd/Slots.antt is about `insert` and
--   `remove`, Fd/Child.antt about `for_child`.
-- - Jobs: crates/shell/src/jobs.rs, the shell's background jobs; `collect` takes the call of the
--   trait `Programs` as a parameter. Jobs/Query.antt has the methods that only read,
--   Jobs/Numbers.antt the invariant.
-- - Pattern: crates/shell/src/pattern.rs, grep's patterns. Pattern/Reference.antt has the
--   backtracking matcher that the theorem compares `is_match` with, Pattern/States.antt and
--   Pattern/Search.antt the proof, Pattern/Parser.antt the parser.
-- - PathSyntax: crates/vfs/src/path.rs. PathSyntax/Print.antt has the round trip of `parse`,
--   PathSyntax/Names.antt what it says of the names.
-- - Tee: kernel/src/tee.rs, the files that get a copy of the console. Tee/Bounds.antt has the
--   bounds on their number.
--
-- A method that changes its object returns the new object beside its result. Where the source
-- panics (an overfull run queue, an index out of an array, a count of ticks past 64 bits, a sum
-- of addresses past 64 bits, a double free) the model returns `none`. Loops are recursion on a
-- list, or on a count of rounds that the caller gives: `Queue::remove` runs `len + 1` rounds, one
-- more than there are entries, and `Holders::give` compacts in `len - 1` rounds, one for each
-- group above the first. `Pattern::parse` runs as many rounds as the pattern has bytes, and
-- `parse_set` one more than the bytes after the `[`; every round takes a byte at least, so they
-- are enough. The frame allocator's `find` runs one round more than the bitmap has frames; each
-- goes on by a frame at least, so they are enough.
--
-- Locks are not modelled: the kernel makes these calls one at a time, so a sequence of calls is
-- what can happen. What a process owns (memory, stack, fds) is a type parameter of the table, as
-- in the source. Not modelled: the drivers (block, pci, acpi, and of usb all but the keys and the
-- producer ring), the architecture code, paging, the ext2 and sysimg filesystems, the shell's
-- interpreter, the terminal's pixels, the boot loader and the build tool: most of that is I/O and
-- hardware, and none of the modules here uses it. The sums `used` and `total` of the heap are
-- checked against `usize`, as the source's build does.
pub mod Prelude
pub mod Errno
pub mod Proc
pub mod Pipe
pub mod Pattern
pub mod Line
pub mod Fd
pub mod Jobs
pub mod Frame
pub mod Heap
pub mod PathSyntax
pub mod Tee
pub mod Input
pub mod Term
pub mod Xhci
