-- ===== src/PathSyntax/Names.antt =====
-- crates/vfs/src/path.rs: the names that `parse` finds pass `check_name`.
use relay_os.Prelude.{
  ℕ, ◌≡◌, refl, ◌⊎◌, inl, inr, arith, Bool, true, false, ◌&&◌, ◌||◌, not, List, [], ◌∷◌, ◌==◌, ltb,
  if◌then◌else◌, length, filter, Bool-cases,
}
use relay_os.Errno.{enoent, enametoolong, einval, Result, ok, err}
use relay_os.PathSyntax.{
  Component, current, parent, name, SplitPath, contains, same_bytes, dot, dot_dot, extend, split,
  components_of, is_empty, name_max, path_max, starts_with_slash, ends_with_slash, parse,
  check_name,
}

-- Every part of a split is free of slashes and, with the path, of NULs.
abbrev clean : List (List ℕ) → Bool
clean [] = true
clean (n ∷ names) = (not (contains n 47) && not (contains n 0)) && clean names

clean-extend :
    (b : ℕ) (parts : List (List ℕ))
    → b == 47 ≡ false
    → b == 0 ≡ false
    → clean parts ≡ true
    → clean (extend b parts) ≡ true
clean-extend b [] e z h = ground arith
clean-extend b (part ∷ parts) e z h = ground arith

clean-split : (path : List ℕ) → contains path 0 ≡ false → clean (split path) ≡ true
clean-split [] h = refl
clean-split (b ∷ path) h = elim (Bool-cases (b == 47)) [
  | inl slash ↦ rw slash (ground (arith, clean-split path (ground arith)))
  | inr other ↦
      rw other (clean-extend b (split path) other (ground arith) (clean-split path (ground arith)))
]

-- What `components_of` makes a `name` of passes `check_name`.
abbrev pub NamesPass : List Component → Type 0
NamesPass [] = Unit
NamesPass (name n ∷ rest) = (check_name n ≡ ok (record {})) × NamesPass rest
NamesPass (_ ∷ rest) = NamesPass rest

abbrev NamesOk : Result (List Component) → Type 0
NamesOk (err e) = e ≡ enametoolong
NamesOk (ok components) = NamesPass components

check_name-ok :
    (n : List ℕ)
    → is_empty n ≡ false
    → contains n 47 ≡ false
    → contains n 0 ≡ false
    → same_bytes n dot ≡ false
    → same_bytes n dot_dot ≡ false
    → ltb name_max (length n) ≡ false
    → check_name n ≡ ok (record {})
unfolding check_name
check_name-ok n filled slash nul here up short = rw (filled, here, up, slash, nul, short) refl

cons-NamesOk :
    (n : List ℕ) (r : Result (List Component))
    → is_empty n ≡ false
    → contains n 47 ≡ false
    → contains n 0 ≡ false
    → (not (same_bytes n dot || same_bytes n dot_dot) && ltb name_max (length n)) ≡ false
    → NamesOk r
    → NamesOk (elim r [
      | err e ↦ err e
      | ok components ↦ ok (
          (if same_bytes n dot then current else if same_bytes n dot_dot then parent else name n)
          ∷ components)
    ])
cons-NamesOk n (err e) filled slash nul short h = h
cons-NamesOk n (ok components) filled slash nul short h = elim (Bool-cases (same_bytes n dot)) [
  | inl here ↦ rw here h
  | inr not_here ↦ elim (Bool-cases (same_bytes n dot_dot)) [
    | inl up ↦ rw (not_here, up) h
    | inr not_up ↦
        rw (not_here, not_up) (check_name-ok n filled slash nul not_here not_up (ground arith), h)
  ]
]

components_of-NamesOk :
    (names : List (List ℕ))
    → clean names ≡ true
    → NamesOk (components_of (filter (λ n. not (is_empty n)) names))
components_of-NamesOk [] h = record {}
components_of-NamesOk ([] ∷ names) h = components_of-NamesOk names h
components_of-NamesOk ((b ∷ n) ∷ names) h =
    let long =
      not (same_bytes (b ∷ n) dot || same_bytes (b ∷ n) dot_dot) && ltb name_max (length (b ∷ n)) in
    let r = components_of (filter (λ m. not (is_empty m)) names) in
    elim (Bool-cases long) [
      | inl too_long ↦ rw too_long refl
      | inr short ↦ rw short (
          cons-NamesOk (b ∷ n) r refl (ground arith) (ground arith) short
            (components_of-NamesOk names (ground arith)))
    ]

-- What `parse` promises of its result.
abbrev pub Checked : List ℕ → Result SplitPath → Type 0
Checked path (ok p) = NamesPass p.components
Checked path (err e) = (e ≡ enoent) ⊎ ((e ≡ enametoolong) ⊎ (e ≡ einval))

Checked-components :
    (path : List ℕ) (r : Result (List Component))
    → NamesOk r
    → Checked path (elim r [
      | err e ↦ err e
      | ok components ↦ ok record {
        absolute = starts_with_slash path;
        components = components;
        trailing_slash = ends_with_slash path && not (is_empty components);
      }
    ])
Checked-components path (err e) h = inr (inl h)
Checked-components path (ok components) h = h

-- Each name of a path that `parse` splits passes `check_name`; what it refuses is `ENOENT`,
-- `ENAMETOOLONG` or `EINVAL`.
pub parse_checks : (path : List ℕ) → Checked path (parse path)
unfolding parse
parse_checks path = elim (Bool-cases (is_empty path)) [
  | inl none_there ↦ rw none_there (inl refl)
  | inr filled ↦ elim (Bool-cases (ltb path_max (length path))) [
    | inl long ↦ rw (filled, long) (inr (inl refl))
    | inr short ↦ elim (Bool-cases (contains path 0)) [
      | inl nul ↦ rw (filled, short, nul) (inr (inr refl))
      | inr without ↦
          rw (filled, short, without)
            (Checked-components path (components_of (filter (λ n. not (is_empty n)) (split path)))
              (components_of-NamesOk (split path) (clean-split path without)))
    ]
  ]
]
