-- ===== src/Fd/Tests.antt =====
-- Descriptors at concrete values: files are numbers.
use relay_os.Prelude.{ℕ, ◌≡◌, refl, none, some, List, [], ◌∷◌}
use relay_os.Errno.{einval, ok, err}
use relay_os.Fd.{FdMap, FdTable, new, console_table, insert, get, give_each, for_child, open_fds}
use relay_os.Fd.Slots.{Inserted, insert_lowest}
use relay_os.Fd.Child.{ChildSpec, for_child_lem}

abbrev console : FdTable ℕ
console = some 7 ∷ some 7 ∷ some 7 ∷ none ∷ none ∷ []

abbrev maps : List FdMap
maps = record { child = 0; parent = 0 } ∷ record { child = 31; parent = 2 } ∷ []

starts : open_fds (console_table {F = ℕ} 7) ≡ 3
unfolding console_table new open_fds
starts = refl

lowest : (insert {F = ℕ} console 9).0 ≡ ok 3
unfolding insert
lowest = refl

twice :
    for_child console (record { child = 1; parent = 0 } ∷ record { child = 1; parent = 2 } ∷ [])
    ≡ err einval
unfolding for_child new give_each get
twice = refl

insert_lowest_example : Inserted console 9 (insert console 9)
insert_lowest_example = insert_lowest console 9

for_child_lem_example : ChildSpec console maps (for_child console maps)
for_child_lem_example = for_child_lem console maps
