-- ===== src/Tee/Bounds.antt =====
-- kernel/src/tee.rs: how many tees there are, in all and of one process.
use relay_os.Prelude.{
  ℕ, ◌+◌, ◌≤◌, ◌≡◌, refl, ◌⊎◌, subst, inl, inr, arith, Bool, not, none, some, List, [], ◌∷◌, ◌++◌,
  map, reverse, reverse_aux, ◌==◌, leb, ◌||◌, length, filter, length-append, Bool-cases,
  Option-cases,
}
use relay_os.Errno.{Errno, Result, ok, err}
use relay_os.Tee.{
  Tee, TeeStack, Writer, tees_max, tees_each, chunk, new, owned_by, push, copy_to, add, echo_to,
  add_echo, write_out, flush_each, flush, take_newest, pop, end,
}

Result-cases : (r : Result (Unit {0})) → ((u : Unit {0}) × (r ≡ ok u)) ⊎ ((e : Errno) × (r ≡ err e))
Result-cases (ok u) = inl (u, refl)
Result-cases (err e) = inr (e, refl)

module _ {F : Type 0} where
  abbrev pub owned : ℕ → List (Tee F) → ℕ
  owned pid tees = length (filter (owned_by pid) tees)

  pub record IsValid (s : TeeStack F) : Type 0 where
    pub few : length s.tees ≤ tees_max
    pub few_each : (pid : ℕ) → owned pid s.tees ≤ tees_each

  -- The same tees, as far as owners go, or fewer.
  abbrev Fewer : List (Tee F) → List (Tee F) → Type 0
  Fewer tees' tees = (length tees' ≤ length tees) × ((pid : ℕ) → owned pid tees' ≤ owned pid tees)

  Fewer-IsValid : (s s' : TeeStack F) (v : IsValid s) → Fewer s'.tees s.tees → IsValid s'
  Fewer-IsValid s s' v (shorter, each) = record {
    few = omega (arith, v.few);
    few_each = λ pid. omega (arith, v.few_each pid, each pid);
  }

  owned-append :
      (pid : ℕ) (xs ys : List (Tee F)) → owned pid (xs ++ ys) ≡ owned pid xs + owned pid ys
  owned-append pid [] ys = omega arith
  owned-append pid (t ∷ xs) ys = ground (arith, owned-append pid xs ys)

  map-Fewer :
      (f : Tee F → Tee F) (tees : List (Tee F))
      → ((t : Tee F) → (f t).owner ≡ t.owner)
      → Fewer (map f tees) tees
  map-Fewer f [] h = (omega arith, λ pid. omega arith)
  map-Fewer f (t ∷ tees) h =
      let (shorter, each) = map-Fewer f tees h in
      (omega arith, λ pid. ground (arith, h t, each pid))

  owned-reverse_aux :
      (pid : ℕ) (xs r : List (Tee F)) → owned pid (reverse_aux xs r) ≡ owned pid xs + owned pid r
  owned-reverse_aux pid [] r = omega arith
  owned-reverse_aux pid (t ∷ xs) r = ground (arith, owned-reverse_aux pid xs (t ∷ r))

  length-reverse_aux : (xs r : List (Tee F)) → length (reverse_aux xs r) ≡ length xs + length r
  length-reverse_aux [] r = omega arith
  length-reverse_aux (t ∷ xs) r = omega (arith, length-reverse_aux xs (t ∷ r))

  filter-Fewer : (p : Tee F → Bool) (tees : List (Tee F)) → Fewer (filter p tees) tees
  filter-Fewer p [] = (omega arith, λ pid. omega arith)
  filter-Fewer p (t ∷ tees) =
      let (shorter, each) = filter-Fewer p tees in (ground arith, λ pid. ground (arith, each pid))

  pub new-IsValid : IsValid new
  unfolding new
  new-IsValid = record { few = omega arith; few_each = λ pid. omega arith }

  pub push-IsValid :
      (s : TeeStack F) (pid : ℕ) (file : F) (v : IsValid s) → IsValid (push s pid file).1
  unfolding push
  push-IsValid s pid file v =
      elim (Bool-cases (leb tees_each (owned pid s.tees) || leb tees_max (length s.tees))) [
        | inl full ↦ rw full v
        | inr room ↦
            let t : Tee F = record { owner = pid; file = some file; pending = []; error = none } in
            rw room (record {
              few = ground (arith, length-append s.tees (t ∷ []));
              few_each = λ a. ground (arith, owned-append a s.tees (t ∷ []), v.few_each a);
            })
      ]

  take_newest-Fewer :
      (pid : ℕ) (tees : List (Tee F)) (t : Tee F) (others : List (Tee F))
      → take_newest pid tees ≡ some (t, others)
      → Fewer others tees
  take_newest-Fewer pid [] t others e = absurd (ground (arith, e))
  take_newest-Fewer pid (x ∷ tees) t others e = elim (Bool-cases (owned_by pid x)) [
    | inl mine ↦
        let e' = rw mine at e in
        let same : tees ≡ others = ground (arith, e') in
        subst (λ ts. Fewer ts (x ∷ tees)) same (omega arith, λ a. ground arith)
    | inr other ↦ elim (Option-cases (take_newest pid tees)) [
      | inl nothing ↦ absurd (ground (arith, e, nothing, other))
      | inr ((found, rest), at) ↦
          let (shorter, each) = take_newest-Fewer pid tees found rest at in
          let same : (x ∷ rest) ≡ others = ground (arith, e, at, other) in
          subst (λ ts. Fewer ts (x ∷ tees)) same (omega arith, λ a. ground (arith, each a))
    ]
  ]

  module _ {W : Type 0} (write : Writer F W) where
    owner-write_out : (w : W) (t : Tee F) → (write_out write w t).1.owner ≡ t.owner
    unfolding write_out
    owner-write_out w t = elim (Option-cases t.file) [
      | inl closed ↦ rw (closed, write_out) refl
      | inr (file, e) ↦
          rw (e, write_out)
            (elim (Bool-cases (length t.pending == 0)) [
              | inl nothing ↦ rw nothing refl
              | inr waiting ↦ rw waiting (elim (Result-cases (write w file t.pending).0) [
                | inl (u, done) ↦ rw (done, write_out) refl
                | inr (x, failed) ↦ rw (failed, write_out) refl
              ])
            ])
    ]

    flush_each-Fewer :
        (all : Bool) (w : W) (tees : List (Tee F)) → Fewer (flush_each write all w tees).1 tees
    unfolding flush_each
    flush_each-Fewer all w [] = (omega arith, λ pid. omega arith)
    flush_each-Fewer all w (t ∷ tees) = elim (Bool-cases (all || leb chunk (length t.pending))) [
      | inl writes ↦
          let (shorter, each) = flush_each-Fewer all (write_out write w t).2 tees in
          rw writes (omega arith, λ pid. ground (arith, owner-write_out w t, each pid))
      | inr waits ↦
          let (shorter, each) = flush_each-Fewer all w tees in
          rw waits (omega arith, λ pid. ground (arith, each pid))
    ]

    pub flush-IsValid :
        (w : W) (s : TeeStack F) (all : Bool) (v : IsValid s) → IsValid (flush write w s all).1
    unfolding flush
    flush-IsValid w s all v = Fewer-IsValid s _ v (flush_each-Fewer all w s.tees)

    pub pop-IsValid :
        (w : W) (s : TeeStack F) (pid : ℕ) (v : IsValid s) → IsValid (pop write w s pid).1
    unfolding pop
    pop-IsValid w s pid v = elim (Option-cases (take_newest pid (reverse s.tees))) [
      | inl nothing ↦ rw (nothing, pop) v
      | inr ((t, others), e) ↦
          let (shorter, each) = take_newest-Fewer pid (reverse s.tees) t others e in
          rw (e, pop)
            (record {
              few = omega (
                arith,
                v.few,
                shorter,
                length-reverse_aux s.tees [],
                length-reverse_aux others [],
              );
              few_each = λ a. omega (
                arith,
                v.few_each a,
                each a,
                owned-reverse_aux a s.tees [],
                owned-reverse_aux a others [],
              );
            })
    ]

  end-IsValid : (s : TeeStack F) (pid : ℕ) (v : IsValid s) → IsValid (end s pid)
  unfolding end
  end-IsValid s pid v = Fewer-IsValid s _ v (filter-Fewer (λ t. not (owned_by pid t)) s.tees)

  copy-owner : (bytes : List ℕ) (t : Tee F) → (copy_to bytes t).owner ≡ t.owner
  copy-owner bytes t = ground arith

  echo-owner : (bytes : List ℕ) (t : Tee F) → (echo_to bytes t).owner ≡ t.owner
  echo-owner bytes t = ground arith

  add-IsValid : (s : TeeStack F) (bytes : List ℕ) (v : IsValid s) → IsValid (add s bytes)
  unfolding add
  add-IsValid s bytes v = Fewer-IsValid s _ v (map-Fewer (copy_to bytes) s.tees (copy-owner bytes))

  add_echo-IsValid : (s : TeeStack F) (bytes : List ℕ) (v : IsValid s) → IsValid (add_echo s bytes)
  unfolding add_echo
  add_echo-IsValid s bytes v =
      Fewer-IsValid s _ v (map-Fewer (echo_to bytes) s.tees (echo-owner bytes))

module _ {F W : Type 0} (write : Writer F W) where
  -- One call of the stack.
  pub data Step : TeeStack F → TeeStack F → Type 0 where
    pushes : (s : TeeStack F) (pid : ℕ) (file : F) → Step s (push s pid file).1
    copies : (s : TeeStack F) (bytes : List ℕ) → Step s (add s bytes)
    echoes : (s : TeeStack F) (bytes : List ℕ) → Step s (add_echo s bytes)
    flushes : (w : W) (s : TeeStack F) (all : Bool) → Step s (flush write w s all).1
    pops : (w : W) (s : TeeStack F) (pid : ℕ) → Step s (pop write w s pid).1
    ends : (s : TeeStack F) (pid : ℕ) → Step s (end s pid)

  pub data Reach : TeeStack F → Type 0 where
    fresh : Reach new
    next : {s s' : TeeStack F} → Reach s → Step s s' → Reach s'

  Step-IsValid : {s s' : TeeStack F} → Step s s' → IsValid s → IsValid s'
  Step-IsValid (pushes s pid file) v = push-IsValid s pid file v
  Step-IsValid (copies s bytes) v = add-IsValid s bytes v
  Step-IsValid (echoes s bytes) v = add_echo-IsValid s bytes v
  Step-IsValid (flushes w s all) v = flush-IsValid write w s all v
  Step-IsValid (pops w s pid) v = pop-IsValid write w s pid v
  Step-IsValid (ends s pid) v = end-IsValid s pid v

  -- After any sequence of calls, whatever the writer answers, there are at most 64 tees, and at most
  -- 4 of each process.
  pub Reach-few : {s : TeeStack F} → Reach s → IsValid s
  Reach-few fresh = new-IsValid
  Reach-few (next r s) = Step-IsValid s (Reach-few r)
