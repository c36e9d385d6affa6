-- ===== src/Term/Screen/Tests.antt =====
-- The terminal at a small screen.
use relay_os.Prelude.{ℕ, refl, arith, false, List, [], ◌∷◌, replicate}
use relay_os.Term.Ansi
use relay_os.Term.Ansi.Bounds.{new-IsValid}
use relay_os.Term.Screen.{Terminal, blank_cell, write_bytes}
use relay_os.Term.Screen.Grid.{IsValid, Fine}
use relay_os.Term.Screen.Bounds.{write_bytes-Fine}

-- Three columns and two rows.
abbrev small : Terminal
small = record {
  cells = replicate 6 blank_cell;
  cols = 3;
  rows = 2;
  cx = 0;
  cy = 0;
  fg = 7;
  bg = 0;
  bold = false;
  parser = Ansi.new;
}

small-IsValid : IsValid small
small-IsValid = record {
  wide = omega arith;
  high = omega arith;
  enough = omega arith;
  on_row = omega arith;
  on_col = omega arith;
  fg_in = omega arith;
  bg_in = omega arith;
  parsing = new-IsValid;
}

-- Text that wraps and scrolls, a colour, a move too far right, and an erased line.
abbrev bytes : List ℕ
bytes =
    97 ∷ 98 ∷ 99 ∷ 100 ∷ 10 ∷ 27 ∷ 91 ∷ 51 ∷ 49 ∷ 109 ∷ 101 ∷ 27 ∷ 91 ∷ 57 ∷ 67 ∷ 102 ∷ 27 ∷ 91 ∷ 75
    ∷ []

write_bytes-Fine_example : Fine small (write_bytes small bytes)
write_bytes-Fine_example = write_bytes-Fine small bytes small-IsValid refl
