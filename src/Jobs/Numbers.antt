-- ===== src/Jobs/Numbers.antt =====
-- crates/shell/src/jobs.rs: the jobs' numbers rise, and the statuses kept are bounded.
use relay_os.Prelude.{
  ℕ, zero, suc, ◌+◌, ◌-◌, ◌^◌, ◌≤◌, ◌<◌, ◌≡◌, inl, inr, refl, subst, arith, Bool, true, false, ◌&&◌,
  not, Option, none, some, List, [], ◌∷◌, ◌++◌, map, ◌==◌, ltb, if◌then◌else◌, length, filter, find,
  position, get_elem?, remove_at, length-drop, Bool-cases,
}
use relay_os.Proc.Process.{WaitStatus}
use relay_os.Jobs.{
  JobProc, Job, Jobs, gone_max, new, last_of, add, end_proc, end_job, ended, collect_loop, collect,
  is_empty, drop_jobs, list, report, take, report_killed, take_gone, all_procs, ended_procs,
  finished, indexed, Line, line, status_of,
}

-- The numbers rise from above `n`.
abbrev pub rising : ℕ → List Job → Bool
rising n [] = true
rising n (j ∷ jobs) = ltb n j.number && rising j.number jobs

-- The last number, or `n`.
abbrev last_number : ℕ → List Job → ℕ
last_number n [] = n
last_number n (j ∷ jobs) = last_number j.number jobs

next_number :
    (jobs : List Job)
    → (elim (last_of jobs) [ none ↦ 1 | some j ↦ j.number + 1 ]) ≡ last_number 0 jobs + 1
next_number [] = refl
next_number (j ∷ []) = refl
next_number (j ∷ (k ∷ jobs)) = next_number (k ∷ jobs)

rising-snoc :
    (n : ℕ) (jobs : List Job) (j : Job)
    → rising n jobs ≡ true
    → last_number n jobs < j.number
    → rising n (jobs ++ j ∷ []) ≡ true
rising-snoc n [] j h lt = ground (arith, lt)
rising-snoc n (k ∷ jobs) j h lt =
    ground (arith, h, rising-snoc k.number jobs j (ground (arith, h)) lt)

rising-lower : (m n : ℕ) (jobs : List Job) → m ≤ n → rising n jobs ≡ true → rising m jobs ≡ true
rising-lower m n [] le h = refl
rising-lower m n (j ∷ jobs) le h = ground (arith, le, h)

-- Some leave: the others' numbers still rise.
rising-filter :
    (n : ℕ) (jobs : List Job) (p : Job → Bool)
    → rising n jobs ≡ true
    → rising n (filter p jobs) ≡ true
rising-filter n [] p h = refl
rising-filter n (j ∷ jobs) p h =
    let rest = rising-filter j.number jobs p (ground (arith, h)) in
    elim (Bool-cases (p j)) [
      | inl stays ↦ ground (arith, stays, h, rest)
      | inr leaves ↦
          ground (arith, leaves, rising-lower n j.number (filter p jobs) (ground (arith, h)) rest)
    ]

-- An end changes no number.
abbrev Rises : ℕ → Option (List Job) → Type 0
Rises n none = Unit
Rises n (some jobs) = rising n jobs ≡ true

end_job-Rises :
    (n pid : ℕ) (w : WaitStatus) (jobs : List Job)
    → rising n jobs ≡ true
    → Rises n (end_job pid w jobs)
end_job-Rises n pid w [] h = tt
end_job-Rises n pid w (j ∷ jobs) h =
    one (end_proc pid w j.procs) (end_job pid w jobs)
      (end_job-Rises j.number pid w jobs (ground (arith, h)))
  where
    one :
        (o : Option (List JobProc)) (r : Option (List Job))
        → Rises j.number r
        → Rises n (elim o [
          | some procs ↦ some (record j { procs = procs } ∷ jobs)
          | none ↦ elim r [ none ↦ none | some after ↦ some (j ∷ after) ]
        ])
    one (some procs) r k = ground (arith, h)
    one none none k = tt
    one none (some after) k = ground (arith, h, k)

-- The numbers rise from 1, and at most `GONE` statuses are kept.
pub record IsNumbered (js : Jobs) : Type 0 where
  pub numbers : rising 0 js.jobs ≡ true
  pub few : length js.gone ≤ gone_max

abbrev Numbered : Option (ℕ × Jobs) → Type 0
Numbered none = Unit
Numbered (some (number, js)) = IsNumbered js

if-Numbered :
    (c : Bool) (x y : Option (ℕ × Jobs)) → Numbered x → Numbered y → Numbered (if c then x else y)
if-Numbered true x y g h = g
if-Numbered false x y g h = h

add-Numbered :
    (js : Jobs) (pgid : ℕ) (pids text : List ℕ) → IsNumbered js → Numbered (add js pgid pids text)
unfolding add
add-Numbered js pgid pids text v =
    let job : Job = record {
      number = elim (last_of js.jobs) [ none ↦ 1 | some j ↦ j.number + 1 ];
      pgid = pgid;
      text = text;
      procs = map (λ p. (p, none)) pids;
    } in
    let longer : Jobs = record js { jobs = js.jobs ++ job ∷ [] } in
    let made : IsNumbered longer = record {
      numbers = rising-snoc 0 js.jobs job v.numbers (omega (arith, next_number js.jobs));
      few = v.few;
    } in
    if-Numbered (ltb job.number (2 ^ 32)) (some (job.number, longer)) none made tt

ended-IsNumbered :
    (js : Jobs) (pid : ℕ) (w : WaitStatus) → IsNumbered js → IsNumbered (ended js pid w).1
unfolding ended
ended-IsNumbered js pid w v = kept (end_job pid w js.jobs) (end_job-Rises 0 pid w js.jobs v.numbers)
  where
    kept :
        (o : Option (List Job))
        → Rises 0 o
        → IsNumbered
            (elim o as (λ _. Bool × Jobs) [
              | some jobs ↦ (true, record js { jobs = jobs })
              | none ↦ (false, js)
            ]).1
    kept none h = v
    kept (some jobs) h = record { numbers = h; few = v.few }

drop_jobs-IsNumbered :
    (js : Jobs) (which : Job → Bool) → IsNumbered js → IsNumbered (drop_jobs js which)
unfolding drop_jobs
drop_jobs-IsNumbered js which v =
    let all = js.gone ++ ended_procs (all_procs (filter which js.jobs)) in
    record {
      numbers = rising-filter 0 js.jobs (λ j. not (which j)) v.numbers;
      few = omega (arith, length-drop (length all - gone_max) all);
    }

collect_loop-IsNumbered :
    {S : Type 0} (next : S → Option (ℕ × WaitStatus) × S) (n : ℕ) (js : Jobs) (s : S)
    → IsNumbered js
    → IsNumbered (collect_loop next n js s).0
collect_loop-IsNumbered next zero js s v = v
collect_loop-IsNumbered {S} next (suc n) js s v = one (next s).0 (λ pid w.
    collect_loop-IsNumbered next n (ended js pid w).1 (next s).1 (ended-IsNumbered js pid w v))
  where
    one :
        (o : Option (ℕ × WaitStatus))
        → ((pid : ℕ) (w : WaitStatus)
            → IsNumbered (collect_loop next n (ended js pid w).1 (next s).1).0)
        → IsNumbered
            (elim o as (λ _. Jobs × S) [
              | none ↦ (js, (next s).1)
              | some (pid, status) ↦ collect_loop next n (ended js pid status).1 (next s).1
            ]).0
    one none rest = v
    one (some (pid, w)) rest = rest pid w

collect-IsNumbered :
    {S : Type 0} (next : S → Option (ℕ × WaitStatus) × S) (js : Jobs) (s : S)
    → IsNumbered js
    → IsNumbered (collect next js s).0
unfolding collect
collect-IsNumbered next js s v = one (is_empty js) (collect_loop-IsNumbered next 64 js s v)
  where
    one :
        (c : Bool)
        → IsNumbered (collect_loop next 64 js s).0
        → IsNumbered (if c then (js, s) else collect_loop next 64 js s).0
    one true h = v
    one false h = h

length-remove_at : (i : ℕ) (xs : List (ℕ × WaitStatus)) → length (remove_at i xs) ≤ length xs
length-remove_at i [] = omega arith
length-remove_at zero (x ∷ xs) = omega arith
length-remove_at (suc i) (x ∷ xs) = omega (arith, length-remove_at i xs)

take-IsNumbered : (js : Jobs) (number : ℕ) → IsNumbered js → IsNumbered (take js number).1
unfolding take
take-IsNumbered js number v =
    one (find (λ p. p.1.number == number && finished p.1) (indexed 0 js.jobs))
  where
    one :
        (o : Option (ℕ × Job))
        → IsNumbered
            (elim o as (λ _. Option Line × Jobs) [
              | none ↦ (none, js)
              | some p ↦ (some (line js p), drop_jobs js (λ j. j.number == number))
            ]).1
    one none = v
    one (some p) = drop_jobs-IsNumbered js (λ j. j.number == number) v

take_gone-IsNumbered : (js : Jobs) (pid : ℕ) → IsNumbered js → IsNumbered (take_gone js pid).1
unfolding take_gone
take_gone-IsNumbered js pid v = one (position (λ p. p.0 == pid) js.gone)
  where
    found :
        (i : ℕ) (o : Option (ℕ × WaitStatus))
        → IsNumbered
            (elim o as (λ _. Option ℕ × Jobs) [
              | none ↦ (none, js)
              | some p ↦ (some (status_of p.1), record js { gone = remove_at i js.gone })
            ]).1
    found i none = v
    found i (some p) = record {
      numbers = v.numbers;
      few = omega (arith, v.few, length-remove_at i js.gone);
    }

    one :
        (o : Option ℕ)
        → IsNumbered
            (elim o as (λ _. Option ℕ × Jobs) [
              | none ↦ (none, js)
              | some i ↦ elim (get_elem? js.gone i) [
                | none ↦ (none, js)
                | some p ↦ (some (status_of p.1), record js { gone = remove_at i js.gone })
              ]
            ]).1
    one none = v
    one (some i) = found i (get_elem? js.gone i)

-- Any calls after `new`.
pub data Reach : Jobs → Type 1 where
  fresh : Reach new
  added :
      {js js' : Jobs} {number : ℕ} (pgid : ℕ) (pids text : List ℕ)
      → Reach js
      → add js pgid pids text ≡ some (number, js')
      → Reach js'
  ended_one : {js : Jobs} (pid : ℕ) (w : WaitStatus) → Reach js → Reach (ended js pid w).1
  collected :
      {js : Jobs} {S : Type 0} (next : S → Option (ℕ × WaitStatus) × S) (s : S)
      → Reach js
      → Reach (collect next js s).0
  listed : {js : Jobs} (named : Option (List ℕ)) → Reach js → Reach (list js named).1
  reported : {js : Jobs} → Reach js → Reach (report js).1
  killed_reported : {js : Jobs} → Reach js → Reach (report_killed js).1
  taken : {js : Jobs} (number : ℕ) → Reach js → Reach (take js number).1
  gone_taken : {js : Jobs} (pid : ℕ) → Reach js → Reach (take_gone js pid).1

-- After any calls the jobs' numbers rise from 1, so no two jobs have the same and a new one's is above
-- all of them, and the statuses of at most `GONE` processes of jobs that left are kept.
pub Reach-IsNumbered : {js : Jobs} → Reach js → IsNumbered js
unfolding list report report_killed
Reach-IsNumbered fresh = record { numbers = refl; few = omega arith }
Reach-IsNumbered (added {js} {js'} {number} pgid pids text r e) =
    subst Numbered e (add-Numbered js pgid pids text (Reach-IsNumbered r))
Reach-IsNumbered (ended_one {js} pid w r) = ended-IsNumbered js pid w (Reach-IsNumbered r)
Reach-IsNumbered (collected {js} next s r) = collect-IsNumbered next js s (Reach-IsNumbered r)
Reach-IsNumbered (listed {js} named r) = drop_jobs-IsNumbered js _ (Reach-IsNumbered r)
Reach-IsNumbered (reported {js} r) = drop_jobs-IsNumbered js finished (Reach-IsNumbered r)
Reach-IsNumbered (killed_reported {js} r) = drop_jobs-IsNumbered js finished (Reach-IsNumbered r)
Reach-IsNumbered (taken {js} number r) = take-IsNumbered js number (Reach-IsNumbered r)
Reach-IsNumbered (gone_taken {js} pid r) = take_gone-IsNumbered js pid (Reach-IsNumbered r)
