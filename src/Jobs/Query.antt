-- ===== src/Jobs/Query.antt =====
-- crates/shell/src/jobs.rs: what the shell asks of its jobs.
use relay_os.Prelude.{
  ℕ, ◌+◌, ◌-◌, ◌*◌, ◌^◌, Bool, false, ◌&&◌, ◌||◌, not, Option, none, some, List, [], ◌∷◌, ◌++◌, map,
  ◌==◌, leb, ltb, if◌then◌else◌, length, get_elem?, filter, find, any, is_none, is_some,
}
use relay_os.Jobs.{Job, Jobs, finished, last, status_of, all_procs}

abbrev pub find_job : Jobs → ℕ → Option Job
find_job js number = find (λ j. j.number == number) js.jobs

abbrev pub has : Jobs → ℕ → Bool
has js number = is_some (find_job js number)

-- Decimal digits only, and a `u32`.
abbrev pub is_digit : ℕ → Bool
is_digit b = leb 48 b && leb b 57

abbrev pub digits_value : ℕ → List ℕ → ℕ
digits_value v [] = v
digits_value v (b ∷ bytes) = digits_value (v * 10 + (b - 48)) bytes

abbrev pub number_of : List ℕ → Option ℕ
number_of n =
    if length n == 0 || any (λ b. not (is_digit b)) n
    then none
    else let v = digits_value 0 n in if ltb v (2 ^ 32) then some v else none

abbrev pub newest : Jobs → ℕ → Option ℕ
newest js k =
    if leb k (length js.jobs)
    then (elim (get_elem? js.jobs (length js.jobs - k)) [ none ↦ none | some j ↦ some j.number ])
    else none

abbrev is_byte : List ℕ → ℕ → Bool
is_byte bytes b = elim bytes [ c ∷ [] ↦ c == b | _ ↦ false ]

unfoldable pub spec : Jobs → List ℕ → Option ℕ
spec js s =
    if length s == 0 || (is_byte s 37 || is_byte s 43)
    then newest js 1
    else if is_byte s 45
    then (elim (newest js 2) [ some n ↦ some n | none ↦ newest js 1 ])
    else (elim (number_of s) [ some n ↦ if has js n then some n else none | none ↦ none ])

unfoldable pub of_pid : Jobs → ℕ → Option ℕ
of_pid js pid = elim (find (λ j. any (λ p. p.0 == pid) j.procs) js.jobs) [
  | none ↦ none
  | some j ↦ some j.number
]

unfoldable pub status_of_pid : Jobs → ℕ → Option ℕ
status_of_pid js pid = elim (find (λ p. p.0 == pid) (all_procs js.jobs)) [
  | none ↦ none
  | some p ↦ elim p.1 [ none ↦ none | some w ↦ some (status_of w) ]
]

unfoldable pub pgid_of : Jobs → ℕ → Option ℕ
pgid_of js number = elim (find_job js number) [ none ↦ none | some j ↦ some j.pgid ]

unfoldable pub running : Jobs → ℕ → List ℕ
running js number = elim (find_job js number) [
  | none ↦ []
  | some j ↦ map (λ p. p.0) (filter (λ p. is_none p.1) j.procs)
]

abbrev pub running_each : Jobs → List Job → List ℕ
unfolding running
running_each js [] = []
running_each js (j ∷ jobs) = running js j.number ++ running_each js jobs

abbrev pub all_running : Jobs → List ℕ
all_running js = running_each js js.jobs

unfoldable pub status : Jobs → ℕ → Option ℕ
status js number = elim (find_job js number) [
  | none ↦ none
  | some j ↦
      if finished j then (elim (last j) [ none ↦ none | some w ↦ some (status_of w) ]) else none
]
