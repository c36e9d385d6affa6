-- ===== src/Pipe/Calls.antt =====
-- What `read` and `write` return, on every branch, and what they leave in the pipe.
use relay_os.Prelude.{
  ℕ, ◌-◌, min, ◌≡◌, ◌≢◌, ◌<◌, ◌⊎◌, refl, false, ◌∷◌, ap, sym, ◌∙◌, ◌&&◌, Option, none, some, List,
  [], ◌++◌, arith, ◌==◌, not, length, Bool-cases, inl, inr, take, drop, nil_of_length, take-nil,
  drop-nil, take-min, drop-min,
}
use relay_os.Errno.{epipe, Result, ok, err}
use relay_os.Pipe.{Ring, size, read, write}
use relay_os.Pipe.Fifo.{
  IsValid, contents, contents-length, contents-filled, filled-IsValid, read_slices, read_rest,
}

-- What a pipe's `read` promises of the bytes that wait.
abbrev pub Reads : Ring → ℕ → Option (List ℕ) × Ring → Type 0
Reads r room (none, r') = (r' ≡ r) × (contents r ≡ []) × (r.writers ≢ 0)
Reads r room (some got, r') =
    IsValid r'
    × (got ≡ take room (contents r))
    × (contents r' ≡ drop room (contents r))
    × (contents r ≡ [] → r.writers ≡ 0)
    × (r'.readers ≡ r.readers)
    × (r'.writers ≡ r.writers)

empty_contents : (r : Ring) → r.len ≡ 0 → contents r ≡ []
empty_contents r e = nil_of_length (contents r) (contents-length r ∙ e)

-- `read`, on every branch: the caller must wait exactly if no byte waits and a write end is open;
-- otherwise it gets the oldest bytes, as many as its buffer has room for (none at the end of the
-- data), and exactly those leave the pipe.
pub read_lem : (r : Ring) (room : ℕ) → IsValid r → Reads r room (read r room)
unfolding read
read_lem r room v = elim (Bool-cases (r.len == 0)) [
  | inl empty ↦ rw empty (elim (Bool-cases (r.writers == 0)) [
    | inl closed ↦ rw closed (
        let nothing = empty_contents r (ground arith) in
        (
          v,
          rw nothing (sym (take-nil room)),
          rw nothing (sym (drop-nil room)),
          λ _. ground arith,
          refl,
          refl,
        ))
    | inr open_end ↦ rw open_end (refl, empty_contents r (ground arith), ground arith)
  ])
  | inr holds ↦ rw holds (
      let n = min room r.len in
      let e : min room (length (contents r)) ≡ n = rw (contents-length r) in
      (
        record { memory = v.memory; start_in = omega arith; len_in = omega (arith, v.len_in) },
        read_slices r n v (omega arith)
            ∙ ap (λ k. take k (contents r)) (sym e)
            ∙ take-min room (contents r),
        read_rest r n v (omega arith)
            ∙ ap (λ k. drop k (contents r)) (sym e)
            ∙ drop-min room (contents r),
        λ none_left. absurd (ground (arith, contents-length r, ap length none_left)),
        refl,
        refl,
      ))
]

-- What `write` promises.
abbrev pub Writes : Ring → List ℕ → Result (Option ℕ) × Ring → Type 0
Writes r bytes (err e, r') = (e ≡ epipe) × (r' ≡ r) × (r.readers ≡ 0)
Writes r bytes (ok none, r') =
    (r' ≡ r) × (r.readers ≢ 0) × (length (contents r) ≡ size) × (bytes ≢ [])
Writes r bytes (ok (some n), r') =
    IsValid r'
    × (r.readers ≢ 0)
    × (n ≡ min (length bytes) (size - length (contents r)))
    × ((bytes ≡ []) ⊎ (0 < n))
    × (contents r' ≡ contents r ++ take n bytes)
    × (r'.readers ≡ r.readers)
    × (r'.writers ≡ r.writers)

-- A count of 0 is no wait only for no bytes.
some_taken :
    (bytes : List ℕ) (n : ℕ) → (n == 0 && not (length bytes == 0)) ≡ false → (bytes ≡ []) ⊎ (0 < n)
some_taken [] n e = inl refl
some_taken (b ∷ bytes) n e = inr (ground (arith, e))

-- In a valid ring `write` gives, on every branch: `err epipe` if no read end is open, and only then; the caller must wait
-- if it has bytes and the pipe is full, and only then; otherwise the pipe takes as many bytes as fit
-- (0 only of no bytes), the first ones, behind those that wait.
pub write_lem : (r : Ring) (bytes : List ℕ) → IsValid r → Writes r bytes (write r bytes)
unfolding write
write_lem r bytes v = elim (Bool-cases (r.readers == 0)) [
  | inl closed ↦ rw closed (refl, refl, ground arith)
  | inr open_end ↦
      rw open_end
        (elim (Bool-cases (min (length bytes) (size - r.len) == 0 && not (length bytes == 0))) [
          | inl full ↦ rw full (
            refl,
            ground arith,
            ground (arith, contents-length r, v.len_in),
            λ e. ground (arith, ap length e),
          )
          | inr fits ↦ rw fits (
            filled-IsValid r bytes (min (length bytes) (size - r.len)) v (omega arith)
                (omega arith),
            ground arith,
            ap (λ k. min (length bytes) (size - k)) (sym (contents-length r)),
            some_taken bytes (min (length bytes) (size - r.len)) fits,
            contents-filled r bytes (min (length bytes) (size - r.len)) v (omega arith)
                (omega arith),
            refl,
            refl,
          )
        ])
]
