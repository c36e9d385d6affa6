-- ===== src/Tee/Tests.antt =====
-- Tees at concrete values: files are numbers, and the writer keeps what it was given.
use relay_os.Prelude.{ℕ, ◌≡◌, refl, List, [], ◌∷◌, ◌++◌, ◌==◌, if◌then◌else◌}
use relay_os.Errno.{enospc, ok, err}
use relay_os.Tee.{TeeStack, Writer, new, push, add, write_out, pop}
use relay_os.Tee.Bounds.{IsValid, pushes, copies, pops, fresh, next, Reach-few}

-- File 9 has no room.
abbrev keep : Writer ℕ (List ℕ)
keep written file bytes =
    if file == 9 then (err enospc, written) else (ok (record {}), written ++ (file ∷ bytes))

abbrev pushed : TeeStack ℕ
pushed = (push new 2 5).1

copied : (pop keep [] (add pushed (104 ∷ 105 ∷ [])) 2).2 ≡ 5 ∷ 104 ∷ 105 ∷ []
unfolding pop add push new write_out
copied = refl

full_disk : (pop keep [] (add (push new 2 9).1 (104 ∷ [])) 2).0 ≡ err enospc
unfolding pop add push new write_out
full_disk = refl

Reach-few_example : IsValid (pop keep [] (add pushed (104 ∷ 105 ∷ [])) 2).1
Reach-few_example = Reach-few keep (
    next (next (next (fresh) (pushes new 2 5)) (copies pushed (104 ∷ 105 ∷ [])))
      (pops [] (add pushed (104 ∷ 105 ∷ [])) 2))
