-- ===== src/Proc/Queue/Order.antt =====
-- The run queue keeps order: `push` adds at the end, `pop` takes the first, `remove` keeps the
-- others as they stand.
use mathlib.Core.Path.{ap₂}
use relay_os.Prelude.{
  ℕ, zero, suc, ◌+◌, ◌-◌, ◌%◌, ◌≤◌, ◌<◌, ◌≡◌, refl, ap, sym, ◌∙◌, none, some, List, [], ◌∷◌, ◌++◌,
  arith, ltb, ◌==◌, not, if◌then◌else◌, get_or, set, tabulate, length, filter, length-set,
  length-append, length-tabulate, get_or-tabulate, get_or-append, get_or-set_self, get_or-set_ne,
  list_ext, Bool-cases, inl, inr, append_assoc, append-nil,
}
use relay_os.Proc.Queue.{Queue, max_procs, new, push, pop, keep_others, remove, contents}

pub record IsValid (q : Queue) : Type 0 where
  pub size : length q.pids ≡ 64
  pub head_in : q.head < 64
  pub len_in : q.len ≤ 64

pub new-IsValid : IsValid new
unfolding new
new-IsValid = record { size = refl; head_in = omega arith; len_in = omega arith }

pub contents-new : contents new ≡ []
unfolding new
contents-new = refl

pub length-contents : (q : Queue) → length (contents q) ≡ q.len
length-contents q = length-tabulate q.len (λ i. get_or q.pids ((q.head + i) % max_procs) 0)

-- The queue after a `push` that has room.
abbrev pub pushed : Queue → ℕ → Queue
pushed q pid = record q { pids = set q.pids ((q.head + q.len) % max_procs) pid; len = q.len + 1 }

pub push-eq-some : (q : Queue) (pid : ℕ) → q.len < 64 → push q pid ≡ some (pushed q pid)
unfolding push
push-eq-some q pid h = ground arith

pub pushed-IsValid : (q : Queue) (pid : ℕ) → IsValid q → q.len < 64 → IsValid (pushed q pid)
pushed-IsValid q pid v h = record {
  size = length-set q.pids ((q.head + q.len) % 64) pid ∙ v.size;
  head_in = v.head_in;
  len_in = omega arith;
}

-- What `push` writes does not reach the entries that wait.
slot-pushed :
    (q : Queue) (pid i : ℕ)
    → IsValid q
    → q.len < 64
    → i < q.len + 1
    → get_or (set q.pids ((q.head + q.len) % 64) pid) ((q.head + i) % 64) 0
      ≡ (if ltb i q.len then get_or q.pids ((q.head + i) % 64) 0 else pid)
slot-pushed q pid i v h p = elim (Bool-cases (ltb i q.len)) [
  | inl e ↦ rw e (
      get_or-set_ne q.pids ((q.head + q.len) % 64) ((q.head + i) % 64) pid 0
        (let lt : i < q.len = ground arith in omega (arith, v.head_in)))
  | inr e ↦
      let eq : i ≡ q.len = ground arith in
      rw (e, eq) (get_or-set_self q.pids ((q.head + q.len) % 64) pid 0 (omega (arith, v.size)))
]

pub contents-pushed :
    (q : Queue) (pid : ℕ)
    → IsValid q
    → q.len < 64
    → contents (pushed q pid) ≡ contents q ++ pid ∷ []
contents-pushed q pid v h =
    list_ext _ _ 0
      (omega (
        arith,
        length-contents (pushed q pid),
        length-append {0} (contents q) (pid ∷ []),
        length-contents q,
      ))
      λ i p. at i (omega (arith, length-contents (pushed q pid)))
  where
    at :
        (i : ℕ)
        → i < q.len + 1
        → get_or (contents (pushed q pid)) i 0 ≡ get_or (contents q ++ pid ∷ []) i 0
    at i p = ground (
      arith,
      get_or-tabulate (q.len + 1)
          (λ i. get_or (set q.pids ((q.head + q.len) % 64) pid) ((q.head + i) % 64) 0) i 0 p,
      get_or-append (contents q) (pid ∷ []) i 0,
      length-contents q,
      get_or-tabulate q.len (λ i. get_or q.pids ((q.head + i) % 64) 0) i 0,
      slot-pushed q pid i v h p,
    )

pub pop_empty : (q : Queue) → contents q ≡ [] → pop q ≡ none
unfolding pop
pop_empty q e = let z : q.len ≡ 0 = omega (arith, length-contents q, ap length e) in ground arith

tabulate_ext : (n : ℕ) (f g : ℕ → ℕ) → ((i : ℕ) → i < n → f i ≡ g i) → tabulate n f ≡ tabulate n g
tabulate_ext zero f g h = refl
tabulate_ext (suc n) f g h =
    ap₂ ◌∷◌ (h 0 (omega arith))
      (tabulate_ext n (λ i. f (suc i)) (λ i. g (suc i)) (λ i p. h (suc i) (omega arith)))

tabulate_split :
    (n : ℕ) (f : ℕ → ℕ) → 0 < n → tabulate n f ≡ f 0 ∷ tabulate (n - 1) (λ i. f (suc i))
tabulate_split zero f h = absurd (omega arith)
tabulate_split (suc n) f h = ap (λ k. f 0 ∷ tabulate k (λ i. f (suc i))) (omega arith)

-- The queue that `pop` leaves.
abbrev pub popped : Queue → Queue
popped q = record q { head = (q.head + 1) % max_procs; len = q.len - 1 }

contents-popped :
    (q : Queue) → IsValid q → 0 < q.len → contents q ≡ get_or q.pids q.head 0 ∷ contents (popped q)
contents-popped q v h =
    tabulate_split q.len (λ i. get_or q.pids ((q.head + i) % 64) 0) h
    ∙ ap₂ ◌∷◌ (ap (λ k. get_or q.pids k 0) (omega (arith, v.head_in))) (
        tabulate_ext (q.len - 1) _ _
          (λ i p. ap (λ k. get_or q.pids k 0) (omega (arith, v.head_in))))

-- `pop` takes the first of what waits.
abbrev pub Popped : Queue → ℕ → List ℕ → Type 0
Popped q pid rest = (q' : Queue) × (pop q ≡ some (pid, q')) × IsValid q' × (contents q' ≡ rest)

pub pop_cons :
    (q : Queue) (pid : ℕ) (rest : List ℕ) → IsValid q → contents q ≡ pid ∷ rest → Popped q pid rest
unfolding pop
pop_cons q pid rest v e =
    let pos : 0 < q.len = omega (arith, length-contents q, ap length e) in
    let split = contents-popped q v pos in
    let first : get_or q.pids q.head 0 ≡ pid = cc (split, e) in
    (popped q, ground arith, omega (arith, v.head_in, v.len_in, v.size), cc (split, e))

-- The loop of `remove`: it moves all but `pid`, in order, to the end of `kept`.
keep_others_lem :
    (rounds pid : ℕ) (q kept : Queue) (xs : List ℕ)
    → IsValid q
    → IsValid kept
    → contents q ≡ xs
    → length xs < rounds
    → length xs + kept.len ≤ 64
    → (r : Queue) × (keep_others rounds pid q kept ≡ some r)
      × IsValid r
      × (contents r ≡ contents kept ++ filter (λ x. not (x == pid)) xs)
unfolding keep_others
keep_others_lem zero pid q kept xs v w e n m = absurd (omega arith)
keep_others_lem (suc rounds) pid q kept [] v w e n m =
    (kept, rw (pop_empty q e, keep_others), w, sym (append-nil (contents kept)))
keep_others_lem (suc rounds) pid q kept (x ∷ xs) v w e n m =
    let (q', took, v', e') = pop_cons q x xs v e in
    elim (Bool-cases (x == pid)) [
      | inl same ↦
          let (r, run, valid, order) =
            keep_others_lem rounds pid q' kept xs v' w e' (omega arith) (omega arith) in
          (r, rw (took, keep_others) (rw same run), valid, rw same order)
      | inr other ↦
          let (r, run, valid, order) =
            keep_others_lem rounds pid q' (pushed kept x) xs v'
              (pushed-IsValid kept x w (omega arith)) e' (omega arith) (omega arith) in
          (
            r,
            rw (took, keep_others) (rw (other, push-eq-some kept x (omega arith)) run),
            valid,
            rw other (
                order
                ∙ ap (λ l. l ++ filter (λ x. not (x == pid)) xs)
                    (contents-pushed kept x w (omega arith))
                ∙ append_assoc (contents kept) (x ∷ []) (filter (λ x. not (x == pid)) xs)),
          )
    ]

-- `remove` takes every `pid` out and keeps the others' order; it does not panic.
pub remove_lem :
    (q : Queue) (pid : ℕ)
    → IsValid q
    → (r : Queue) × (remove q pid ≡ some r)
      × IsValid r
      × (contents r ≡ filter (λ x. not (x == pid)) (contents q))
unfolding remove
remove_lem q pid v =
    keep_others_lem (q.len + 1) pid q new (contents q) v new-IsValid refl
      (omega (arith, length-contents q)) (omega (arith, length-contents q, v.len_in))
