-- ===== src/Term/Screen/Bounds.antt =====
-- crates/term/src/terminal.rs: no bytes make the terminal panic, and the cursor stays on the grid.
use relay_os.Prelude.{
  ℕ, ◌+◌, ◌-◌, ◌*◌, ◌/◌, ◌≡◌, refl, ◌∙◌, arith, min, Bool, true, false, ◌||◌, ◌&&◌, Option, none,
  some, List, [], ◌∷◌, ◌==◌, leb, ltb, if◌then◌else◌, ◌>>=◌, length, take, splice, replicate,
  length-splice, length-replicate,
}
use relay_os.Term.Ansi.{Action, print, control, control_sequence, full_reset, advance}
use relay_os.Term.Ansi.Bounds.{all_in_range, in_range, all_bytes, advance-Good}
use relay_os.Term.Screen.Grid.{
  IsValid, Fine, if-Fine, then-Fine, Fine-same, cells-IsValid, cursor-IsValid, colours-IsValid,
  put-Fine, clear_span-Fine, clear_rows-Fine, line_feed-Fine, Ready, wrapped-Ready,
}
use relay_os.Term.Screen.{
  Cell, Terminal, blank_cell, reset, put, clear_span, line_feed, sgr, sgr_each, clear_rows,
  erase_display, erase_line, csi, arg, move_cursor, effective_fg, print_char, apply, apply_all,
  write_bytes,
}

if-Kept :
    (t : Terminal) (c : Bool) (x y : Terminal)
    → (c ≡ true → Fine t (some x))
    → (c ≡ false → Fine t (some y))
    → Fine t (some (if c then x else y))
if-Kept t true x y g h = g refl
if-Kept t false x y g h = h refl

sgr-IsValid :
    (t : Terminal) (n : ℕ)
    → IsValid t
    → IsValid (sgr t n) × ((sgr t n).cols ≡ t.cols) × ((sgr t n).rows ≡ t.rows)
unfolding sgr
sgr-IsValid t n v =
    if-Kept t (n == 0) _ _
      (λ _. (colours-IsValid t 7 0 false v (omega arith) (omega arith), refl, refl))
      (λ _.
        if-Kept t (n == 1) _ _
          (λ _. (colours-IsValid t t.fg t.bg true v v.fg_in v.bg_in, refl, refl))
          (λ _.
            if-Kept t (n == 22) _ _
              (λ _. (colours-IsValid t t.fg t.bg false v v.fg_in v.bg_in, refl, refl))
              (λ _.
                if-Kept t (leb 30 n && leb n 37) _ _
                  (λ h. (
                    colours-IsValid t (n - 30) t.bg t.bold v (ground (arith, h)) v.bg_in,
                    refl,
                    refl,
                  ))
                  (λ _.
                    if-Kept t (n == 39) _ _
                      (λ _. (colours-IsValid t 7 t.bg t.bold v (omega arith) v.bg_in, refl, refl))
                      (λ _.
                        if-Kept t (leb 40 n && leb n 47) _ _
                          (λ h. (
                            colours-IsValid t t.fg (n - 40) t.bold v v.fg_in (ground (arith, h)),
                            refl,
                            refl,
                          ))
                          (λ _.
                            if-Kept t (n == 49) _ _
                              (λ _. (
                                colours-IsValid t t.fg 0 t.bold v v.fg_in (omega arith),
                                refl,
                                refl,
                              ))
                              (λ _.
                                if-Kept t (leb 90 n && leb n 97) _ _
                                  (λ h. (
                                    colours-IsValid t (n - 90 + 8) t.bg t.bold v (ground (arith, h))
                                        v.bg_in,
                                    refl,
                                    refl,
                                  ))
                                  (λ _.
                                    if-Kept t (leb 100 n && leb n 107) _ _
                                      (λ h. (
                                        colours-IsValid t t.fg (n - 100 + 8) t.bold v v.fg_in
                                            (ground (arith, h)),
                                        refl,
                                        refl,
                                      ))
                                      (λ _. (v, refl, refl))))))))))

sgr_each-Fine : (t : Terminal) (vs : List ℕ) → IsValid t → Fine t (some (sgr_each t vs))
sgr_each-Fine t [] v = (v, refl, refl)
sgr_each-Fine t (n ∷ vs) v =
    let (w, cols, rows) = sgr-IsValid t n v in
    let (u, cols', rows') = sgr_each-Fine (sgr t n) vs w in (u, cols' ∙ cols, rows' ∙ rows)

erase_display-Fine : (t : Terminal) (mode : ℕ) → IsValid t → Fine t (erase_display t mode)
unfolding erase_display
erase_display-Fine t mode v =
    if-Fine t (mode == 0) _ _
      (λ _.
        then-Fine t (clear_span t t.cy (min t.cx t.cols) t.cols)
          (λ t'. clear_rows (t.rows - (t.cy + 1)) t' (t.cy + 1))
          (clear_span-Fine t t.cy (min t.cx t.cols) t.cols v (omega arith) (omega arith) v.on_row)
          (λ t' w cols rows.
            clear_rows-Fine (t.rows - (t.cy + 1)) t' (t.cy + 1) w (omega (arith, rows, v.on_row))))
      (λ _.
        if-Fine t (mode == 1) _ _
          (λ _.
            then-Fine t (clear_rows t.cy t 0) (λ t'. clear_span t' t.cy 0 (min (t.cx + 1) t.cols))
              (clear_rows-Fine t.cy t 0 v (omega (arith, v.on_row)))
              (λ t' w cols rows.
                clear_span-Fine t' t.cy 0 (min (t.cx + 1) t.cols) w (omega arith)
                  (omega (arith, cols)) (omega (arith, rows, v.on_row))))
          (λ _.
            if-Fine t (mode == 2 || mode == 3) _ _ (λ _. clear_rows-Fine t.rows t 0 v (omega arith))
              (λ _. (v, refl, refl))))

erase_line-Fine : (t : Terminal) (mode : ℕ) → IsValid t → Fine t (erase_line t mode)
unfolding erase_line
erase_line-Fine t mode v =
    if-Fine t (mode == 0) _ _
      (λ _. clear_span-Fine t t.cy (min t.cx t.cols) t.cols v (omega arith) (omega arith) v.on_row)
      (λ _.
        if-Fine t (mode == 1) _ _
          (λ _.
            clear_span-Fine t t.cy 0 (min (t.cx + 1) t.cols) v (omega arith) (omega arith) v.on_row)
          (λ _.
            if-Fine t (mode == 2) _ _
              (λ _. clear_span-Fine t t.cy 0 t.cols v (omega arith) (omega arith) v.on_row)
              (λ _. (v, refl, refl))))

move_cursor-Fine :
    (t : Terminal) (p : List ℕ) (final : ℕ) → IsValid t → Fine t (some (move_cursor t p final))
unfolding move_cursor
move_cursor-Fine t p final v =
    let low = v.on_row in
    let up = t.cy - arg p 0 1 in
    let down = min (t.cy + arg p 0 1) (t.rows - 1) in
    let right = min (t.cx + arg p 0 1) (t.cols - 1) in
    let left = min t.cx (t.cols - 1) - arg p 0 1 in
    let row = min (arg p 0 1 - 1) (t.rows - 1) in
    let col = min (arg p 1 1 - 1) (t.cols - 1) in
    if-Kept t (final == 72 || final == 102) _ _
      (λ _. (cursor-IsValid t col row v (omega arith) (omega (arith, v.high)), refl, refl))
      (λ _.
        if-Kept t (final == 65) _ _
          (λ _. (cursor-IsValid t t.cx up v v.on_col (omega (arith, low)), refl, refl))
          (λ _.
            if-Kept t (final == 66) _ _
              (λ _. (cursor-IsValid t t.cx down v v.on_col (omega (arith, v.high)), refl, refl))
              (λ _.
                if-Kept t (final == 67) _ _
                  (λ _. (cursor-IsValid t right t.cy v (omega arith) low, refl, refl))
                  (λ _.
                    if-Kept t (final == 68) _ _
                      (λ _. (cursor-IsValid t left t.cy v (omega arith) low, refl, refl))
                      (λ _. (v, refl, refl))))))

csi-Fine : (t : Terminal) (p : List ℕ) (final : ℕ) → IsValid t → Fine t (csi t p final)
unfolding csi
csi-Fine t p final v =
    if-Fine t (final == 109) _ _ (λ _. sgr_each-Fine t (if length p == 0 then 0 ∷ [] else p) v)
      (λ _.
        if-Fine t (final == 74) _ _ (λ _. erase_display-Fine t (arg p 0 0) v)
          (λ _.
            if-Fine t (final == 75) _ _ (λ _. erase_line-Fine t (arg p 0 0) v)
              (λ _. move_cursor-Fine t p final v)))

print_char-Fine : (t : Terminal) (ch : ℕ) → IsValid t → Fine t (print_char t ch)
unfolding print_char
print_char-Fine t ch v =
    next (if leb t.cols t.cx then line_feed (record t { cx = 0 }) else some t) (wrapped-Ready t v)
  where
    next :
        (o : Option Terminal)
        → Ready t o
        → Fine t (
            o >>= λ t'.
            put t' t'.cx t'.cy (record { ch = ch; fg = effective_fg t'; bg = t'.bg }) >>= λ t''.
            some (record t'' { cx = t'.cx + 1 }))
    next none h = absurd h
    next (some t') (w, cols, rows, h) =
        let c : Cell = record { ch = ch; fg = effective_fg t'; bg = t'.bg } in
        Fine-same t t' _ cols rows (
          then-Fine t' (put t' t'.cx t'.cy c) (λ t''. some (record t'' { cx = t'.cx + 1 }))
            (put-Fine t' t'.cx t'.cy c w h w.on_row)
            (λ t'' u cols' rows'. (
              cursor-IsValid t'' (t'.cx + 1) t''.cy u (omega (arith, cols', h)) u.on_row,
              refl,
              refl,
            )))

reset-Fine : (t : Terminal) → IsValid t → Fine t (reset t)
unfolding reset
reset-Fine t v =
    let whole = replicate (t.cols * t.rows) blank_cell in
    let same =
      length-splice t.cells 0 whole
        (omega (arith, length-replicate (t.cols * t.rows) blank_cell, v.enough)) in
    let w = cells-IsValid t (splice t.cells 0 whole) v same in
    let w' = colours-IsValid _ 7 0 false w (omega arith) (omega arith) in
    if-Fine t (leb (t.cols * t.rows) (length t.cells)) _ _
      (λ _. (cursor-IsValid _ 0 0 w' (omega arith) v.high, refl, refl))
      (λ out. absurd (ground (arith, out, v.enough)))

apply-Fine : (t : Terminal) (a : Action) → IsValid t → in_range a ≡ true → Fine t (apply t a)
unfolding apply
apply-Fine t (print ch) v h = print_char-Fine t ch v
apply-Fine t (control b) v h =
    if-Fine t (b == 10) _ _
      (λ _. line_feed-Fine (record t { cx = 0 }) (cursor-IsValid t 0 t.cy v (omega arith) v.on_row))
      (λ _.
        if-Kept t (b == 13) _ _
          (λ _. (cursor-IsValid t 0 t.cy v (omega arith) v.on_row, refl, refl))
          (λ _.
            if-Kept t (b == 8) _ _
              (λ _. (
                cursor-IsValid t (min t.cx (t.cols - 1) - 1) t.cy v (omega arith) v.on_row,
                refl,
                refl,
              ))
              (λ _.
                if-Kept t (b == 9 && ltb t.cx t.cols) _ _
                  (λ _. (
                    cursor-IsValid t (min ((t.cx / 8 + 1) * 8) (t.cols - 1)) t.cy v (omega arith)
                        v.on_row,
                    refl,
                    refl,
                  ))
                  (λ _. (v, refl, refl)))))
apply-Fine t (control_sequence params len private final) v h =
    if-Fine t private _ _ (λ _. (v, refl, refl))
      (λ _.
        if-Fine t (ltb (length params) len) _ _ (λ out. absurd (ground (arith, h, out)))
          (λ _. csi-Fine t (take len params) final v))
apply-Fine t full_reset v h = reset-Fine t v

apply_all-Fine :
    (t : Terminal) (actions : List Action)
    → IsValid t
    → all_in_range actions ≡ true
    → Fine t (apply_all t actions)
apply_all-Fine t [] v h = (v, refl, refl)
apply_all-Fine t (a ∷ actions) v h =
    then-Fine t (apply t a) (λ t'. apply_all t' actions) (apply-Fine t a v (ground arith))
      (λ t' w _ _. apply_all-Fine t' actions w (ground arith))

-- Whatever bytes are written, a valid terminal touches no cell outside its grid: the call returns a
-- terminal that is valid again, of the same size, so the cursor is on the grid or one past its row's
-- end and the colours are in the palette.
pub write_bytes-Fine :
    (t : Terminal) (bytes : List ℕ)
    → IsValid t
    → all_bytes bytes ≡ true
    → Fine t (write_bytes t bytes)
unfolding write_bytes
write_bytes-Fine t [] v h = (v, refl, refl)
write_bytes-Fine t (b ∷ bytes) v h =
    let (good, parsing) = advance-Good t.parser b v.parsing (ground arith) in
    let u : Terminal = record t { parser = (advance t.parser b).1 } in
    let w : IsValid u = record {
      wide = v.wide;
      high = v.high;
      enough = v.enough;
      on_row = v.on_row;
      on_col = v.on_col;
      fg_in = v.fg_in;
      bg_in = v.bg_in;
      parsing = parsing;
    } in
    then-Fine u (apply_all u (advance t.parser b).0) (λ t'. write_bytes t' bytes)
      (apply_all-Fine u (advance t.parser b).0 w good)
      (λ t' w' _ _. write_bytes-Fine t' bytes w' (ground arith))
