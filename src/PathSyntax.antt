-- ===== src/PathSyntax.antt =====
-- crates/vfs/src/path.rs: the syntax of paths, which are raw bytes. `display`, which is for the
-- screen, is not modelled.
mod Names
mod Print
mod Tests
use relay_os.Prelude.{
  ℕ, ◌+◌, Bool, true, false, ◌&&◌, ◌||◌, not, Option, none, some, List, [], ◌∷◌, ◌++◌, reverse,
  ◌==◌, ltb, if◌then◌else◌, length, any, filter,
}
use relay_os.Errno.{Errno, enoent, enametoolong, einval, Result, ok, err}

abbrev pub name_max : ℕ
name_max = 255

abbrev pub path_max : ℕ
path_max = 4096

pub data Component : Type 0 where
  current parent : Component
  name : List ℕ → Component

pub record SplitPath : Type 0 where
  pub absolute : Bool
  pub components : List Component
  pub trailing_slash : Bool

abbrev pub contains : List ℕ → ℕ → Bool
contains xs b = any (λ x. x == b) xs

abbrev pub same_bytes : List ℕ → List ℕ → Bool
same_bytes [] [] = true
same_bytes (x ∷ xs) (y ∷ ys) = x == y && same_bytes xs ys
same_bytes _ _ = false

-- `b"."` and `b".."`
abbrev pub dot : List ℕ
dot = 46 ∷ []

abbrev pub dot_dot : List ℕ
dot_dot = 46 ∷ 46 ∷ []

-- A byte before the first part of a split.
abbrev pub extend : ℕ → List (List ℕ) → List (List ℕ)
extend b [] = (b ∷ []) ∷ []
extend b (part ∷ parts) = (b ∷ part) ∷ parts

-- `path.split(|&b| b == b'/')`
abbrev pub split : List ℕ → List (List ℕ)
split [] = [] ∷ []
split (b ∷ path) = let parts = split path in if b == 47 then [] ∷ parts else extend b parts

-- The loop over the names.
abbrev pub components_of : List (List ℕ) → Result (List Component)
components_of [] = ok []
components_of (n ∷ names) =
    let rest = components_of names in
    let component =
      if same_bytes n dot then current else if same_bytes n dot_dot then parent else name n in
    if not (same_bytes n dot || same_bytes n dot_dot) && ltb name_max (length n)
    then err enametoolong
    else (elim rest [ err e ↦ err e | ok components ↦ ok (component ∷ components) ])

abbrev pub starts_with_slash : List ℕ → Bool
starts_with_slash [] = false
starts_with_slash (b ∷ _) = b == 47

abbrev pub ends_with_slash : List ℕ → Bool
ends_with_slash [] = false
ends_with_slash (b ∷ []) = b == 47
ends_with_slash (b ∷ (c ∷ path)) = ends_with_slash (c ∷ path)

abbrev pub is_empty {ℓ} : {A : Type ℓ} → List A → Bool
is_empty [] = true
is_empty (_ ∷ _) = false

unfoldable pub parse : List ℕ → Result SplitPath
parse path =
    if is_empty path
    then err enoent
    else if ltb path_max (length path)
    then err enametoolong
    else if contains path 0
    then err einval
    else (elim (components_of (filter (λ n. not (is_empty n)) (split path))) [
      | err e ↦ err e
      | ok components ↦ ok record {
        absolute = starts_with_slash path;
        components = components;
        trailing_slash = ends_with_slash path && not (is_empty components);
      }
    ])

unfoldable pub check_name : List ℕ → Result (Unit {0})
check_name n =
    if is_empty n
    then err enoent
    else if same_bytes n dot || (same_bytes n dot_dot || (contains n 47 || contains n 0))
    then err einval
    else if ltb name_max (length n)
    then err enametoolong
    else ok (record {})

unfoldable pub join : List ℕ → List ℕ → List ℕ
join dir n = if not (is_empty dir) && not (ends_with_slash dir) then dir ++ (47 ∷ n) else dir ++ n
