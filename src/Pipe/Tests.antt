-- ===== src/Pipe/Tests.antt =====
-- A pipe at concrete inputs: two bytes wait round the end of a ring.
use relay_os.Prelude.{◌≡◌, refl, List, [], ◌∷◌, ◌++◌, replicate, arith}
use relay_os.Pipe.{Ring, read, write}
use relay_os.Pipe.Fifo.{IsValid, contents}
use relay_os.Pipe.Calls.{Reads, Writes, read_lem, write_lem}
use relay_os.Pipe.Stream.{Op, read_op, write_op, run, run-stream}

abbrev wrapped : Ring
wrapped = record {
  memory = b'b' ∷ replicate 16382 0 ++ b'a' ∷ [];
  start = 16383;
  len = 2;
  readers = 1;
  writers = 1;
}

wrapped-IsValid : IsValid wrapped
wrapped-IsValid = record { memory = refl; start_in = omega arith; len_in = omega arith }

wrapped_holds : contents wrapped ≡ b'a' ∷ b'b' ∷ []
wrapped_holds = refl

read_lem_example : Reads wrapped 1 (read wrapped 1)
read_lem_example = read_lem wrapped 1 wrapped-IsValid

write_lem_example : Writes wrapped (b'c' ∷ []) (write wrapped (b'c' ∷ []))
write_lem_example = write_lem wrapped (b'c' ∷ []) wrapped-IsValid

abbrev calls : List Op
calls = write_op (b'c' ∷ []) ∷ read_op 2 ∷ read_op 5 ∷ []

run-stream_example :
    let (received, accepted, last) = run wrapped calls in
    IsValid last × (received ++ contents last ≡ contents wrapped ++ accepted)
run-stream_example = run-stream wrapped calls wrapped-IsValid
