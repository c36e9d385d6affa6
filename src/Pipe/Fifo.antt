-- ===== src/Pipe/Fifo.antt =====
-- A pipe is a first-in first-out queue of bytes.
use relay_os.Prelude.{
  ℕ, ◌+◌, ◌-◌, ◌%◌, ◌≤◌, ◌<◌, min, ◌≡◌, refl, ap, sym, ◌∙◌, ◌&&◌, List, ◌++◌, arith, if◌then◌else◌,
  length, ltb, leb, ltb→lt, Bool-cases, inl, inr, get_or, take, drop, slice, splice, tabulate,
  length-tabulate, length-append, length-take, length-drop, length-slice, length-splice,
  get_or-tabulate, get_or-append, get_or-take, get_or-drop, get_or-slice, get_or-splice, list_ext,
}
use relay_os.Pipe.{Ring, size}

pub record IsValid (r : Ring) : Type 0 where
  pub memory : length r.memory ≡ 16384
  pub start_in : r.start < 16384
  pub len_in : r.len ≤ 16384

-- The byte that the ring holds `i` places behind the oldest.
abbrev pub byte_at : Ring → ℕ → ℕ
byte_at r i = get_or r.memory ((r.start + i) % size) 0

-- The bytes that wait, the oldest first.
abbrev pub contents : Ring → List ℕ
contents r = tabulate r.len (byte_at r)

pub contents-length : (r : Ring) → length (contents r) ≡ r.len
contents-length r = length-tabulate r.len (byte_at r)

-- The two slices that `read` copies are the oldest `n` bytes.
pub read_slices :
    (r : Ring) (n : ℕ)
    → IsValid r
    → n ≤ r.len
    → let first = min n (size - r.start) in
      slice r.memory r.start first ++ slice r.memory 0 (n - first) ≡ take n (contents r)
read_slices r n v h =
    list_ext _ _ 0 (omega (arith, total, length-take n (contents r), contents-length r))
      λ i p. at i (omega (arith, total))
  where
    first : ℕ
    first = min n (size - r.start)

    total : length (slice r.memory r.start first ++ slice r.memory 0 (n - first)) ≡ n
    total = omega (
      arith,
      length-append {0} (slice r.memory r.start first) (slice r.memory 0 (n - first)),
      length-slice r.memory r.start first (omega (arith, v.memory, v.start_in)),
      length-slice r.memory 0 (n - first) (omega (arith, v.memory, v.len_in)),
    )

    at :
        (i : ℕ)
        → i < n
        → get_or (slice r.memory r.start first ++ slice r.memory 0 (n - first)) i 0
          ≡ get_or (take n (contents r)) i 0
    at i p =
        get_or-append (slice r.memory r.start first) (slice r.memory 0 (n - first)) i 0
        ∙ (rw (length-slice r.memory r.start first (omega (arith, v.memory, v.start_in)))
            (elim (Bool-cases (ltb i first)) [
              | inl low ↦ rw low (
                  get_or-slice r.memory r.start first i 0 (ltb→lt i first low)
                  ∙ ap (λ k. get_or r.memory k 0) (let lt = ltb→lt i first low in omega arith)
                  ∙ sym (in_contents i p))
              | inr high ↦
                  let le : first ≤ i = ground arith in
                  rw high (
                    get_or-slice r.memory 0 (n - first) (i - first) 0 (omega arith)
                    ∙ ap (λ k. get_or r.memory k 0) (omega arith)
                    ∙ sym (in_contents i p))
            ]))
      where
        in_contents : (i : ℕ) → i < n → get_or (take n (contents r)) i 0 ≡ byte_at r i
        in_contents i p =
            get_or-take n (contents r) i 0 p ∙ get_or-tabulate r.len (byte_at r) i 0 (omega arith)

-- What `read` leaves is the rest of the bytes.
pub read_rest :
    (r : Ring) (n : ℕ)
    → IsValid r
    → n ≤ r.len
    → contents (record r { start = (r.start + n) % size; len = r.len - n }) ≡ drop n (contents r)
read_rest r n v h =
    list_ext _ _ 0
      (omega (arith, contents-length rest, length-drop n (contents r), contents-length r))
      λ i p.
        let lt : i < r.len - n = omega (arith, contents-length rest) in
        get_or-tabulate (r.len - n) (byte_at rest) i 0 lt
        ∙ ap (λ k. get_or r.memory k 0) (omega arith)
        ∙ sym (
            get_or-drop n (contents r) i 0
            ∙ get_or-tabulate r.len (byte_at r) (n + i) 0 (omega arith))
  where
    rest : Ring
    rest = record r { start = (r.start + n) % size; len = r.len - n }

-- The ring after `write` has taken the first `n` bytes.
abbrev pub filled : Ring → List ℕ → ℕ → Ring
filled r bytes n =
    let at = (r.start + r.len) % size in
    let first = min n (size - at) in
    record r {
      memory = splice (splice r.memory at (take first bytes)) 0 (slice bytes first (n - first));
      len = r.len + n;
    }

-- Two copies into the ring, from `at` on and then from its start, put the new bytes round its end.
copies_at :
    (memory bytes : List ℕ) (at first n j : ℕ)
    → length memory ≡ 16384
    → at < 16384
    → first ≡ min n (16384 - at)
    → n ≤ 16384
    → n ≤ length bytes
    → get_or (splice (splice memory at (take first bytes)) 0 (slice bytes first (n - first))) j 0
      ≡ (if ltb j (n - first)
          then get_or bytes (first + j) 0
          else if leb at j && ltb j (at + first)
          then get_or bytes (j - at) 0
          else get_or memory j 0)
copies_at memory bytes at first n j size at_in e fits h =
    get_or-splice (splice memory at (take first bytes)) 0 (slice bytes first (n - first)) j 0
      (omega (arith, tail, length-splice memory at (take first bytes) (omega (arith, head))))
    ∙ ground (
      arith,
      head,
      tail,
      get_or-splice memory at (take first bytes) j 0 (omega (arith, head)),
      get_or-slice bytes first (n - first) j 0,
      get_or-take first bytes (j - at) 0,
    )
  where
    head : length (take first bytes) ≡ first
    head = omega (arith, length-take first bytes)

    tail : length (slice bytes first (n - first)) ≡ n - first
    tail = length-slice bytes first (n - first) (omega arith)

-- The two copies of `write` put the new bytes behind those that wait.
write_at :
    (r : Ring) (bytes : List ℕ) (n i : ℕ)
    → IsValid r
    → n ≤ length bytes
    → n ≤ 16384 - r.len
    → i < r.len + n
    → byte_at (filled r bytes n) i
      ≡ (if ltb i r.len then byte_at r i else get_or bytes (i - r.len) 0)
write_at r bytes n i v h room p =
    copies_at r.memory bytes at (min n (size - at)) n j v.memory (omega arith) refl (omega arith) h
    ∙ ground arith
  where
    at : ℕ
    at = (r.start + r.len) % size

    j : ℕ
    j = (r.start + i) % size

pub contents-filled :
    (r : Ring) (bytes : List ℕ) (n : ℕ)
    → IsValid r
    → n ≤ length bytes
    → n ≤ 16384 - r.len
    → contents (filled r bytes n) ≡ contents r ++ take n bytes
contents-filled r bytes n v h room =
    list_ext _ _ 0
      (omega (
        arith,
        contents-length (filled r bytes n),
        length-append {0} (contents r) (take n bytes),
        contents-length r,
        length-take n bytes,
      ))
      λ i p. at i (omega (arith, contents-length (filled r bytes n)))
  where
    at :
        (i : ℕ)
        → i < r.len + n
        → get_or (contents (filled r bytes n)) i 0 ≡ get_or (contents r ++ take n bytes) i 0
    at i p = ground (
      arith,
      get_or-tabulate (r.len + n) (byte_at (filled r bytes n)) i 0 p,
      write_at r bytes n i v h room p,
      get_or-append (contents r) (take n bytes) i 0,
      contents-length r,
      get_or-tabulate r.len (byte_at r) i 0,
      get_or-take n bytes (i - r.len) 0,
    )

pub filled-IsValid :
    (r : Ring) (bytes : List ℕ) (n : ℕ)
    → IsValid r
    → n ≤ length bytes
    → n ≤ 16384 - r.len
    → IsValid (filled r bytes n)
filled-IsValid r bytes n v h room = record {
  memory =
      length-splice (splice r.memory at (take first bytes)) 0 (slice bytes first (n - first))
        (omega (arith, tail, whole, v.memory))
      ∙ whole
      ∙ v.memory;
  start_in = v.start_in;
  len_in = omega (arith, v.len_in);
}
  where
    at : ℕ
    at = (r.start + r.len) % size

    first : ℕ
    first = min n (size - at)

    tail : length (slice bytes first (n - first)) ≡ n - first
    tail = length-slice bytes first (n - first) (omega arith)

    whole : length (splice r.memory at (take first bytes)) ≡ length r.memory
    whole =
        length-splice r.memory at (take first bytes)
          (omega (arith, length-take first bytes, v.memory))
