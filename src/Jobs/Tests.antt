-- ===== src/Jobs/Tests.antt =====
-- The shell's jobs at two background lines.
use relay_os.Prelude.{◌≡◌, refl, false, none, some, [], ◌∷◌}
use relay_os.Proc.Process.{exited}
use relay_os.Jobs.{Job, Jobs, new, add, ended, drop_jobs, report, take_gone, done}
use relay_os.Jobs.Query.{spec}
use relay_os.Jobs.Numbers.{fresh, added, ended_one, reported, IsNumbered, Reach-IsNumbered}

abbrev first : Job
first = record { number = 1; pgid = 10; text = 97 ∷ []; procs = (10, none) ∷ [] }

abbrev second : Job
second = record { number = 2; pgid = 11; text = 98 ∷ []; procs = (11, none) ∷ (12, none) ∷ [] }

abbrev one : Jobs
one = record { jobs = first ∷ []; gone = [] }

abbrev two : Jobs
two = record { jobs = first ∷ second ∷ []; gone = [] }

added_first : add new 10 (10 ∷ []) (97 ∷ []) ≡ some (1, one)
unfolding add
added_first = refl

added_second : add one 11 (11 ∷ 12 ∷ []) (98 ∷ []) ≡ some (2, two)
unfolding add
added_second = refl

reported_first :
    (report (ended two 10 (exited 0)).1).0
    ≡ record { number = 1; mark = 45; state = done; text = 97 ∷ []; amp = false } ∷ []
unfolding report drop_jobs ended exited
reported_first = refl

asked_once : (take_gone (report (ended two 10 (exited 3)).1).1 10).0 ≡ some 3
unfolding report drop_jobs ended exited take_gone
asked_once = refl

current : spec two (43 ∷ []) ≡ some 2
unfolding spec
current = refl

previous : spec two (45 ∷ []) ≡ some 1
unfolding spec
previous = refl

Reach-IsNumbered_example : IsNumbered (report (ended two 10 (exited 0)).1).1
Reach-IsNumbered_example = Reach-IsNumbered (
    reported (
      ended_one 10 (exited 0) (
        added 11 (11 ∷ 12 ∷ []) (98 ∷ []) (added 10 (10 ∷ []) (97 ∷ []) fresh added_first)
          added_second)))
