-- ===== src/PathSyntax/Print.antt =====
-- crates/vfs/src/path.rs: a path that is printed from its names splits into them again.
use relay_os.Prelude.{
  ℕ, ◌≤◌, ◌≡◌, refl, ap, ◌∙◌, inl, inr, arith, Bool, true, false, ◌&&◌, ◌||◌, not, List, [], ◌∷◌,
  ◌++◌, append-nil, map, ◌==◌, ltb, length, filter, Bool-cases,
}
use relay_os.Errno.{ok}
use relay_os.PathSyntax.{
  name, contains, same_bytes, dot, dot_dot, split, components_of, ends_with_slash, is_empty,
  name_max, path_max, parse,
}

-- `/` before each name.
abbrev pub absolute_path : List (List ℕ) → List ℕ
absolute_path [] = []
absolute_path (n ∷ names) = 47 ∷ (n ++ absolute_path names)

-- A name that may be created.
abbrev pub is_name : List ℕ → Bool
is_name n =
    not (is_empty n)
    && (not (same_bytes n dot || (same_bytes n dot_dot || (contains n 47 || contains n 0)))
        && not (ltb name_max (length n)))

abbrev pub all_names : List (List ℕ) → Bool
all_names [] = true
all_names (n ∷ names) = is_name n && all_names names

split-name :
    (n : List ℕ) (names : List (List ℕ)) (rest : List ℕ)
    → contains n 47 ≡ false
    → split rest ≡ [] ∷ names
    → split (n ++ rest) ≡ n ∷ names
split-name [] names rest h e = e
split-name (b ∷ n) names rest h e = elim (Bool-cases (b == 47)) [
  | inl slash ↦ absurd (ground arith)
  | inr other ↦ rw (other, split-name n names rest (ground arith) e) refl
]

split-absolute_path :
    (names : List (List ℕ)) → all_names names ≡ true → split (absolute_path names) ≡ [] ∷ names
split-absolute_path [] h = refl
split-absolute_path (n ∷ names) h =
    ap (λ parts. [] ∷ parts)
      (split-name n names (absolute_path names) (ground arith)
        (split-absolute_path names (ground arith)))

components_of-names :
    (names : List (List ℕ))
    → all_names names ≡ true
    → components_of (filter (λ n. not (is_empty n)) names) ≡ ok (map name names)
components_of-names [] h = refl
components_of-names ([] ∷ names) h = absurd (ground arith)
components_of-names ((b ∷ n) ∷ names) h =
    let here : same_bytes (b ∷ n) dot ≡ false = ground arith in
    let up : same_bytes (b ∷ n) dot_dot ≡ false = ground arith in
    let short : ltb name_max (length (b ∷ n)) ≡ false = ground arith in
    rw (components_of-names names (ground arith), here, up, short) refl

contains-append : (xs ys : List ℕ) (b : ℕ) → contains (xs ++ ys) b ≡ contains xs b || contains ys b
contains-append [] ys b = refl
contains-append (x ∷ xs) ys b = ground (arith, contains-append xs ys b)

without_nul :
    (names : List (List ℕ)) → all_names names ≡ true → contains (absolute_path names) 0 ≡ false
without_nul [] h = refl
without_nul (n ∷ names) h =
    ground (arith, contains-append n (absolute_path names) 0, without_nul names (ground arith))

ends-slash : (n : List ℕ) → contains n 47 ≡ false → ends_with_slash n ≡ false
ends-slash [] h = refl
ends-slash (b ∷ []) h = ground arith
ends-slash (b ∷ (c ∷ n)) h = ends-slash (c ∷ n) (ground arith)

ends_with_slash-append :
    (xs : List ℕ) (b : ℕ) (ys : List ℕ)
    → ends_with_slash (xs ++ (b ∷ ys)) ≡ ends_with_slash (b ∷ ys)
ends_with_slash-append [] b ys = refl
ends_with_slash-append (x ∷ []) b ys = refl
ends_with_slash-append (x ∷ (c ∷ xs)) b ys = ends_with_slash-append (c ∷ xs) b ys

without_trailing :
    (n : List ℕ) (names : List (List ℕ))
    → all_names (n ∷ names) ≡ true
    → ends_with_slash (absolute_path (n ∷ names)) ≡ false
without_trailing [] names h = absurd (ground arith)
without_trailing (b ∷ n) [] h =
    ap ends_with_slash (append-nil (b ∷ n)) ∙ ends-slash (b ∷ n) (ground arith)
without_trailing (b ∷ n) (m ∷ names) h =
    ends_with_slash-append (b ∷ n) 47 (m ++ absolute_path names)
    ∙ without_trailing m names (ground arith)

-- The path that has `/` before each of one or more names splits into just these names when it is at
-- most `PATH_MAX` bytes long and each name is not empty, not `.` or `..`, free of slashes and NULs
-- and at most `NAME_MAX` bytes long.
pub parse-absolute_path :
    (n : List ℕ) (names : List (List ℕ))
    → all_names (n ∷ names) ≡ true
    → length (absolute_path (n ∷ names)) ≤ path_max
    → parse (absolute_path (n ∷ names))
      ≡ ok record { absolute = true; components = map name (n ∷ names); trailing_slash = false }
unfolding parse
parse-absolute_path n names h le =
    let short : ltb path_max (length (absolute_path (n ∷ names))) ≡ false = ground arith in
    let found : components_of (filter (λ m. not (is_empty m)) (split (absolute_path (n ∷ names))))
        ≡ ok (map name (n ∷ names)) =
      ap (λ parts. components_of (filter (λ m. not (is_empty m)) parts))
        (split-absolute_path (n ∷ names) h)
      ∙ components_of-names (n ∷ names) h in
    rw (short, without_nul (n ∷ names) h, found, without_trailing n names h) refl
