-- ===== src/Jobs.antt =====
-- crates/shell/src/jobs.rs: the shell's background jobs, with the exit statuses of
-- crates/shell/src/killed.rs. A line is the record of what it is made of: how it is laid out as text
-- is not modelled. `none` of `add` is the panic of a number past 32 bits.
mod Query
mod Numbers
mod Tests
use relay_os.Prelude.{
  ℕ, zero, suc, ◌+◌, ◌-◌, ◌*◌, ◌^◌, Bool, true, false, ◌&&◌, ◌||◌, not, Option, none, some, List,
  [], ◌∷◌, ◌++◌, map, ◌==◌, leb, ltb, if◌then◌else◌, length, get_elem?, drop, filter, find,
  position, remove_at, any, is_none, is_some,
}
use relay_os.Proc.Process.{WaitStatus, how_exited, how_killed, is_known_fault}

-- A process, and how it ended.
abbrev pub JobProc : Type 0
JobProc = ℕ × Option WaitStatus

pub record Job : Type 0 where
  pub number : ℕ
  pub pgid : ℕ
  pub text : List ℕ
  pub procs : List JobProc

pub record Jobs : Type 0 where
  pub jobs : List Job
  pub gone : List (ℕ × WaitStatus)

-- `GONE`, which is `PROC_MAX`.
abbrev pub gone_max : ℕ
gone_max = 64

abbrev pub new : Jobs
new = record { jobs = []; gone = [] }

abbrev pub last_of {ℓ} : {A : Type ℓ} → List A → Option A
last_of [] = none
last_of (x ∷ []) = some x
last_of (x ∷ (y ∷ rest)) = last_of (y ∷ rest)

abbrev pub finished : Job → Bool
finished j = not (any (λ p. is_none p.1) j.procs)

abbrev pub last : Job → Option WaitStatus
last j = elim (last_of j.procs) [ none ↦ none | some p ↦ p.1 ]

abbrev pub is_empty : Jobs → Bool
is_empty js = length js.jobs == 0

unfoldable pub add : Jobs → ℕ → List ℕ → List ℕ → Option (ℕ × Jobs)
add js pgid pids text =
    let number : ℕ = elim (last_of js.jobs) [ none ↦ 1 | some j ↦ j.number + 1 ] in
    if ltb number (2 ^ 32)
    then some (
      number,
      record js {
        jobs =
            js.jobs
            ++ record {
              number = number;
              pgid = pgid;
              text = text;
              procs = map (λ p. (p, none)) pids;
            }
              ∷ [];
      },
    )
    else none

-- `job.procs.iter_mut().find(…)`, and the status written there.
abbrev pub end_proc : ℕ → WaitStatus → List JobProc → Option (List JobProc)
end_proc pid status [] = none
end_proc pid status ((p, w) ∷ procs) =
    let rest = end_proc pid status procs in
    if p == pid && is_none w
    then some ((p, some status) ∷ procs)
    else (elim rest [ none ↦ none | some after ↦ some ((p, w) ∷ after) ])

-- The loop of `ended`.
abbrev pub end_job : ℕ → WaitStatus → List Job → Option (List Job)
end_job pid status [] = none
end_job pid status (j ∷ jobs) =
    let rest = end_job pid status jobs in
    elim (end_proc pid status j.procs) [
      | some procs ↦ some (record j { procs = procs } ∷ jobs)
      | none ↦ elim rest [ none ↦ none | some after ↦ some (j ∷ after) ]
    ]

unfoldable pub ended : Jobs → ℕ → WaitStatus → Bool × Jobs
ended js pid status = elim (end_job pid status js.jobs) [
  | some jobs ↦ (true, record js { jobs = jobs })
  | none ↦ (false, js)
]

-- `collect` of the trait `Programs` is a parameter: what ended next, if anything did.
module _ {S : Type 0} (next : S → Option (ℕ × WaitStatus) × S) where
  abbrev pub collect_loop : ℕ → Jobs → S → Jobs × S
  collect_loop zero js s = (js, s)
  collect_loop (suc n) js s =
      let (o, s') = next s in
      elim o [ none ↦ (js, s') | some (pid, status) ↦ collect_loop n (ended js pid status).1 s' ]

  unfoldable pub collect : Jobs → S → Jobs × S
  collect js s = if is_empty js then (js, s) else collect_loop 64 js s

-- crates/shell/src/killed.rs: the exit status, without the words.
abbrev pub killed_status : WaitStatus → ℕ
unfolding is_known_fault
killed_status w =
    if w.how == how_killed && w.code == 2
    then 130
    else if not (is_known_fault w)
    then 137
    else 128 + (if w.fault == 3 then 4 else if w.fault == 4 || w.fault == 5 then 8 else 11)

abbrev pub status_of : WaitStatus → ℕ
status_of w = if w.how == how_exited then w.code else killed_status w

abbrev pub all_procs : List Job → List JobProc
all_procs [] = []
all_procs (j ∷ jobs) = j.procs ++ all_procs jobs

-- The words of `line` and of `signal_words`.
pub data Words : Type 0 where
  running_word done killed_word : Words
  exit_word : ℕ → Words
  segmentation_fault illegal_instruction floating_point_exception interrupt_word : Words

abbrev pub signal_words : ℕ → Words
signal_words s =
    if s == 139
    then segmentation_fault
    else if s == 132
    then illegal_instruction
    else if s == 136
    then floating_point_exception
    else if s == 130
    then interrupt_word
    else killed_word

-- `mark` is the byte of `+`, `-` or a blank; `amp`: whether ` &` follows the text.
pub record Line : Type 0 where
  pub number : ℕ
  pub mark : ℕ
  pub state : Words
  pub text : List ℕ
  pub amp : Bool

abbrev pub words_of : Job → Words
words_of j = if not (finished j) then running_word else (elim (last j) [
  | none ↦ killed_word
  | some w ↦
      if w.how == how_exited
      then if w.code == 0 then done else exit_word w.code
      else signal_words (status_of w)
])

abbrev pub line : Jobs → ℕ × Job → Line
line js (i, j) =
    let after = length js.jobs - i in
    record {
      number = j.number;
      mark = if after == 1 then 43 else if after == 2 then 45 else 32;
      state = words_of j;
      text = j.text;
      amp = not (finished j);
    }

-- The jobs with their indices, from `i` on.
abbrev pub indexed : ℕ → List Job → List (ℕ × Job)
indexed i [] = []
indexed i (j ∷ jobs) = (i, j) ∷ indexed (suc i) jobs

-- The statuses of the processes of a job that leaves.
abbrev pub ended_procs : List JobProc → List (ℕ × WaitStatus)
ended_procs [] = []
ended_procs ((p, none) ∷ procs) = ended_procs procs
ended_procs ((p, some w) ∷ procs) = (p, w) ∷ ended_procs procs

unfoldable pub drop_jobs : Jobs → (Job → Bool) → Jobs
drop_jobs js which =
    let all = js.gone ++ ended_procs (all_procs (filter which js.jobs)) in
    record { gone = drop (length all - gone_max) all; jobs = filter (λ j. not (which j)) js.jobs }

-- The jobs that `list` shows.
abbrev pub listed_in : List ℕ → List (ℕ × Job) → List (ℕ × Job)
listed_in [] all = []
listed_in (k ∷ named) all =
    let rest = listed_in named all in
    elim (find (λ p. p.1.number == k) all) [ none ↦ rest | some p ↦ p ∷ rest ]

unfoldable pub list : Jobs → Option (List ℕ) → List Line × Jobs
unfolding drop_jobs
list js named =
    let all = indexed 0 js.jobs in
    let order : List (ℕ × Job) = elim named [ none ↦ all | some n ↦ listed_in n all ] in
    let listed : Job → Bool =
      λ j. elim named [ none ↦ true | some n ↦ any (λ k. k == j.number) n ] in
    (map (line js) order, drop_jobs js (λ j. listed j && finished j))

unfoldable pub report : Jobs → List Line × Jobs
unfolding drop_jobs
report js = (map (line js) (filter (λ p. finished p.1) (indexed 0 js.jobs)), drop_jobs js finished)

unfoldable pub take : Jobs → ℕ → Option Line × Jobs
unfolding drop_jobs
take js number = elim (find (λ p. p.1.number == number && finished p.1) (indexed 0 js.jobs)) [
  | none ↦ (none, js)
  | some p ↦ (some (line js p), drop_jobs js (λ j. j.number == number))
]

abbrev pub was_killed : Job → Bool
was_killed j = finished j && (elim (last j) [ none ↦ false | some w ↦ not (w.how == how_exited) ])

unfoldable pub report_killed : Jobs → List Line × Jobs
unfolding drop_jobs
report_killed js =
    (map (line js) (filter (λ p. was_killed p.1) (indexed 0 js.jobs)), drop_jobs js finished)

unfoldable pub take_gone : Jobs → ℕ → Option ℕ × Jobs
take_gone js pid = elim (position (λ p. p.0 == pid) js.gone) [
  | none ↦ (none, js)
  | some i ↦ elim (get_elem? js.gone i) [
    | none ↦ (none, js)
    | some p ↦ (some (status_of p.1), record js { gone = remove_at i js.gone })
  ]
]
