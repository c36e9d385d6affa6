-- ===== src/Proc/Table/Tally.antt =====
-- How many processes of a list pass a test, and what each change of the list does to that number.
use relay_os.Prelude.{
  zero, suc, ℕ, suc, ◌+◌, ◌≤◌, ◌<◌, ◌≡◌, refl, any, ==-refl, ap, Bool, true, false, none, some,
  List, [], ◌∷◌, ◌++◌, map, arith, ◌&&◌, if◌then◌else◌, length, find, position, remove_at,
  get_elem?, Bool-cases, inl, inr, Option-cases,
}
use relay_os.Proc.Process.{Process}
use relay_os.Proc.Table.{has_pid, update}

abbrev pub one_if : Bool → ℕ
one_if b = if b then 1 else 0

module _ {ℓ} {R : Type ℓ} where
  abbrev pub tally : (Process R → Bool) → List (Process R) → ℕ
  tally f [] = 0
  tally f (p ∷ ps) = one_if (f p) + tally f ps

  pub tally-le-length : (f : Process R → Bool) (ps : List (Process R)) → tally f ps ≤ length ps
  tally-le-length f [] = omega arith
  tally-le-length f (p ∷ ps) = ground (arith, tally-le-length f ps)

  pub tally-append :
      (f : Process R → Bool) (ps qs : List (Process R))
      → tally f (ps ++ qs) ≡ tally f ps + tally f qs
  tally-append f [] qs = omega arith
  tally-append f (p ∷ ps) qs = omega (arith, tally-append f ps qs)

  pub tally-map :
      (f : Process R → Bool) (g : Process R → Process R) (ps : List (Process R))
      → ((p : Process R) → f (g p) ≡ f p)
      → tally f (map g ps) ≡ tally f ps
  tally-map f g [] h = refl
  tally-map f g (p ∷ ps) h = rw (h p) (ap (λ n. one_if (f p) + n) (tally-map f g ps h))

  pub find-passes :
      (f : Process R → Bool) (ps : List (Process R)) (p : Process R)
      → find f ps ≡ some p
      → f p ≡ true
  find-passes f [] p e = cc
  find-passes f (q ∷ ps) p e = elim (Bool-cases (f q)) [
    | inl h ↦ let same : q ≡ p = ground arith in rw (← same) h
    | inr h ↦ find-passes f ps p (ground arith)
  ]

  -- One entry changes, from `p` to `g p`.
  pub tally-update :
      (f : Process R → Bool) (pid : ℕ) (g : Process R → Process R) (ps : List (Process R))
      (p : Process R)
      → find (has_pid pid) ps ≡ some p
      → tally f (update pid g ps) + one_if (f p) ≡ tally f ps + one_if (f (g p))
  tally-update f pid g [] p e = cc
  tally-update f pid g (q ∷ ps) p e = ground (arith, tally-update f pid g ps p)

  pub update_absent :
      (pid : ℕ) (g : Process R → Process R) (ps : List (Process R))
      → find (has_pid pid) ps ≡ none
      → update pid g ps ≡ ps
  update_absent pid g [] e = refl
  update_absent pid g (q ∷ ps) e = ground (arith, update_absent pid g ps)

  pub length-update :
      (pid : ℕ) (g : Process R → Process R) (ps : List (Process R))
      → length (update pid g ps) ≡ length ps
  length-update pid g [] = refl
  length-update pid g (q ∷ ps) = ground (arith, length-update pid g ps)

  -- Someone who fails the test is not in the tally.
  pub tally-lt-length :
      (f : Process R → Bool) (pid : ℕ) (ps : List (Process R)) (p : Process R)
      → find (has_pid pid) ps ≡ some p
      → f p ≡ false
      → tally f ps < length ps
  tally-lt-length f pid [] p e h = cc
  tally-lt-length f pid (q ∷ ps) p e h =
      ground (arith, tally-lt-length f pid ps p, tally-le-length f ps)

  pub tally_pos-find :
      (f : Process R → Bool) (ps : List (Process R))
      → 0 < tally f ps
      → (p : Process R) × (find f ps ≡ some p)
  tally_pos-find f [] h = absurd (omega arith)
  tally_pos-find f (q ∷ ps) h = elim (Bool-cases (f q)) [
    | inl e ↦ (q, rw e)
    | inr e ↦ rw e (tally_pos-find f ps (ground arith))
  ]

  pub tally-remove_at :
      (f g : Process R → Bool) (ps : List (Process R)) (i : ℕ)
      → position g ps ≡ some i
      → (p : Process R) × (get_elem? ps i ≡ some p)
        × (g p ≡ true)
        × (tally f (remove_at i ps) + one_if (f p) ≡ tally f ps)
        × (length (remove_at i ps) + 1 ≡ length ps)
  tally-remove_at f g [] i e = cc
  tally-remove_at f g (q ∷ ps) i e = elim (Bool-cases (g q)) [
    | inl h ↦ let z : i ≡ 0 = ground arith in rw z (q, refl, h, omega arith, omega arith)
    | inr h ↦ elim (Option-cases (position g ps)) [
      | inl absent ↦ absurd (ground arith)
      | inr (j, found) ↦
          let next : i ≡ suc j = ground arith in
          let (p, at, passes, rest, size) = tally-remove_at f g ps j found in
          rw next (p, at, passes, omega arith, omega arith)
    ]
  ]

  pub tally-and-le :
      (f g : Process R → Bool) (ps : List (Process R)) → tally (λ p. f p && g p) ps ≤ tally f ps
  tally-and-le f g [] = omega arith
  tally-and-le f g (p ∷ ps) = ground (arith, tally-and-le f g ps)

  -- Where one process at most passes `f`, the first that passes is the one that passes `g` too.
  pub find_only :
      (f g : Process R → Bool) (ps : List (Process R))
      → tally f ps ≤ 1
      → 0 < tally (λ p. f p && g p) ps
      → (p : Process R) × (find f ps ≡ some p) × (g p ≡ true)
  find_only f g [] one h = absurd (omega arith)
  find_only f g (q ∷ ps) one h = elim (Bool-cases (f q)) [
    | inl e ↦ (q, rw e, ground (arith, tally-and-le f g ps))
    | inr e ↦
        let (p, found, passes) = find_only f g ps (ground arith) (ground arith) in
        (p, rw e found, passes)
  ]

  pub tally_absent :
      (f : Process R → Bool) (ps : List (Process R)) → find f ps ≡ none → tally f ps ≡ 0
  tally_absent f [] e = refl
  tally_absent f (q ∷ ps) e = ground (arith, tally_absent f ps)

  pub tally_present :
      (f : Process R → Bool) (ps : List (Process R)) (p : Process R)
      → find f ps ≡ some p
      → 0 < tally f ps
  tally_present f [] p e = cc
  tally_present f (q ∷ ps) p e = ground (arith, tally_present f ps p)

  pub tally_mono :
      (f g : Process R → Bool) (ps : List (Process R))
      → ((p : Process R) → f p ≡ true → g p ≡ true)
      → tally f ps ≤ tally g ps
  tally_mono f g [] h = omega arith
  tally_mono f g (q ∷ ps) h = ground (arith, tally_mono f g ps h, h q)

  -- Where one process at most passes `f`, and the first that does fails `g`, none passes both.
  pub find_fails :
      (f g : Process R → Bool) (ps : List (Process R)) (p : Process R)
      → tally f ps ≤ 1
      → find f ps ≡ some p
      → g p ≡ false
      → tally (λ p. f p && g p) ps ≡ 0
  find_fails f g [] p one e h = refl
  find_fails f g (q ∷ ps) p one e h = ground (arith, find_fails f g ps p, tally-and-le f g ps)

  pub tally_found :
      (f g : Process R → Bool) (ps : List (Process R)) (p : Process R)
      → find f ps ≡ some p
      → g p ≡ true
      → 0 < tally (λ p. f p && g p) ps
  tally_found f g [] p e h = cc
  tally_found f g (q ∷ ps) p e h = ground (arith, tally_found f g ps p)

  pub find_zero : (f : Process R → Bool) (ps : List (Process R)) → tally f ps ≡ 0 → find f ps ≡ none
  find_zero f [] e = refl
  find_zero f (q ∷ ps) e = ground (arith, find_zero f ps)

  pub tally_at :
      (f : Process R → Bool) (ps : List (Process R)) (i : ℕ) (p : Process R)
      → get_elem? ps i ≡ some p
      → one_if (f p) ≤ tally f ps
  tally_at f [] i p e = cc
  tally_at f (q ∷ ps) zero p e = ground arith
  tally_at f (q ∷ ps) (suc i) p e = omega (arith, tally_at f ps i p e)

  -- With distinct pids an entry is the one that its pid finds.
  pub find_at :
      (ps : List (Process R)) (i : ℕ) (p : Process R)
      → get_elem? ps i ≡ some p
      → tally (has_pid p.pid) ps ≤ 1
      → find (has_pid p.pid) ps ≡ some p
  find_at [] i p e one = cc
  find_at (q ∷ ps) zero p e one = ground (arith, e)
  find_at (q ∷ ps) (suc i) p e one =
      ground (arith, find_at ps i p e, tally_at (has_pid p.pid) ps i p e, ==-refl p.pid)

  pub position-none :
      (f : Process R → Bool) (ps : List (Process R)) → position f ps ≡ none → any f ps ≡ false
  position-none f [] e = refl
  position-none f (q ∷ ps) e = ground (arith, position-none f ps)
