-- ===== src/Pipe/Stream.antt =====
-- A pipe carries a stream of bytes, whatever reads and writes come in which order.
use relay_os.Prelude.{
  ℕ, ◌≡◌, ap, subst, sym, ◌∙◌, Option, none, some, List, [], ◌∷◌, ◌++◌, take, append_assoc,
  append-nil, take-append-drop,
}
use relay_os.Errno.{Result, ok, err}
use relay_os.Pipe.{Ring, read, write}
use relay_os.Pipe.Fifo.{IsValid, contents}
use relay_os.Pipe.Calls.{Reads, Writes, read_lem, write_lem}

-- A call by one of the processes at the pipe's ends.
pub data Op : Type 0 where
  read_op : ℕ → Op
  write_op : List ℕ → Op

-- The bytes that a read returns: none when it must wait, or at the end.
abbrev pub bytes_of : Option (List ℕ) → List ℕ
bytes_of none = []
bytes_of (some got) = got

-- The bytes of `bytes` that a write took: none when it must wait, or fails.
abbrev pub taken_of : List ℕ → Result (Option ℕ) → List ℕ
taken_of bytes (err e) = []
taken_of bytes (ok none) = []
taken_of bytes (ok (some n)) = take n bytes

-- The calls in order: all bytes that reads returned, all that writes took, and the ring left.
abbrev pub run : Ring → List Op → List ℕ × List ℕ × Ring
run r [] = ([], [], r)
run r (read_op room ∷ ops) =
    let (got, r') = read r room in
    let (received, accepted, last) = run r' ops in (bytes_of got ++ received, accepted, last)
run r (write_op bytes ∷ ops) =
    let (took, r') = write r bytes in
    let (received, accepted, last) = run r' ops in (received, taken_of bytes took ++ accepted, last)

read-splits :
    (r : Ring) (room : ℕ) (res : Option (List ℕ) × Ring)
    → IsValid r
    → Reads r room res
    → IsValid res.1 × (bytes_of res.0 ++ contents res.1 ≡ contents r)
read-splits r room (none, r') v (same, _, _) = (subst IsValid (sym same) v, ap contents same)
read-splits r room (some got, r') v (valid, took, rest, _, _, _) =
    (valid, rw (took, rest) (take-append-drop room (contents r)))

write-extends :
    (r : Ring) (bytes : List ℕ) (res : Result (Option ℕ) × Ring)
    → IsValid r
    → Writes r bytes res
    → IsValid res.1 × (contents res.1 ≡ contents r ++ taken_of bytes res.0)
write-extends r bytes (err e, r') v (_, same, _) =
    (subst IsValid (sym same) v, ap contents same ∙ sym (append-nil (contents r)))
write-extends r bytes (ok none, r') v (same, _, _, _) =
    (subst IsValid (sym same) v, ap contents same ∙ sym (append-nil (contents r)))
write-extends r bytes (ok (some n), r') v (valid, _, _, _, added, _, _) = (valid, added)

-- No byte is lost, repeated or overtaken: what the reads got, then what still waits, is what waited
-- at first, then what the writes took.
pub run-stream :
    (r : Ring) (ops : List Op)
    → IsValid r
    → let (received, accepted, last) = run r ops in
      IsValid last × (received ++ contents last ≡ contents r ++ accepted)
run-stream r [] v = (v, sym (append-nil (contents r)))
run-stream r (read_op room ∷ ops) v =
    let (valid, splits) = read-splits r room (read r room) v (read_lem r room v) in
    let (valid', same) = run-stream (read r room).1 ops valid in
    let got = bytes_of (read r room).0 in
    let (received, accepted, last) = run (read r room).1 ops in
    (
      valid',
      append_assoc got received (contents last)
          ∙ ap (λ l. got ++ l) same
          ∙ sym (append_assoc got (contents (read r room).1) accepted)
          ∙ ap (λ l. l ++ accepted) splits,
    )
run-stream r (write_op bytes ∷ ops) v =
    let (valid, adds) = write-extends r bytes (write r bytes) v (write_lem r bytes v) in
    let (valid', same) = run-stream (write r bytes).1 ops valid in
    let (received, accepted, last) = run (write r bytes).1 ops in
    (
      valid',
      same
          ∙ ap (λ l. l ++ accepted) adds
          ∙ append_assoc (contents r) (taken_of bytes (write r bytes).0) accepted,
    )
