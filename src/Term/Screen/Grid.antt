-- ===== src/Term/Screen/Grid.antt =====
-- crates/term/src/terminal.rs: what draws on the grid stays in its bounds.
use relay_os.Prelude.{
  ℕ, zero, suc, ◌+◌, ◌-◌, ◌*◌, ◌≤◌, ◌<◌, ◌≡◌, refl, ◌∙◌, arith, Bool, true, false, Option, none,
  some, List, leb, ltb, if◌then◌else◌, ◌>>=◌, length, set, slice, splice, length-set, length-splice,
  length-slice,
}
use relay_os.Term.Ansi
use relay_os.Term.Ansi.{Action, print, control, control_sequence, full_reset, Parser, advance}
use relay_os.Term.Ansi.Bounds
use relay_os.Term.Ansi.Bounds.{all_in_range, in_range, all_bytes, advance-Good}
use relay_os.Term.Screen.{
  Cell, Terminal, blank, put, clear_cells, clear_span, scroll_up, line_feed, clear_rows,
}

pub record IsValid (t : Terminal) : Type 0 where
  pub wide : 0 < t.cols
  pub high : 0 < t.rows
  pub enough : t.cols * t.rows ≤ length t.cells
  pub on_row : t.cy < t.rows
  -- One past the last column after a character was drawn there.
  pub on_col : t.cx ≤ t.cols
  pub fg_in : t.fg < 16
  pub bg_in : t.bg < 16
  pub parsing : Ansi.Bounds.IsValid t.parser

-- A call on `t` returned: a valid terminal of the same size.
abbrev pub Fine : Terminal → Option Terminal → Type 0
Fine t none = ⊥
Fine t (some t') = IsValid t' × (t'.cols ≡ t.cols) × (t'.rows ≡ t.rows)

pub if-Fine :
    (t : Terminal) (c : Bool) (x y : Option Terminal)
    → (c ≡ true → Fine t x)
    → (c ≡ false → Fine t y)
    → Fine t (if c then x else y)
if-Fine t true x y g h = g refl
if-Fine t false x y g h = h refl

pub Fine-same :
    (t t' : Terminal) (o : Option Terminal)
    → t'.cols ≡ t.cols
    → t'.rows ≡ t.rows
    → Fine t' o
    → Fine t o
Fine-same t t' none c r h = h
Fine-same t t' (some u) c r (v, c', r') = (v, c' ∙ c, r' ∙ r)

-- Only calls that return go on.
pub then-Fine :
    (t : Terminal) (o : Option Terminal) (f : Terminal → Option Terminal)
    → Fine t o
    → ((t' : Terminal) → IsValid t' → t'.cols ≡ t.cols → t'.rows ≡ t.rows → Fine t' (f t'))
    → Fine t (o >>= f)
then-Fine t none f h g = absurd h
then-Fine t (some t') f (v, cols, rows) g = Fine-same t t' (f t') cols rows (g t' v cols rows)

index_in : (row col cols rows : ℕ) → row < rows → col < cols → row * cols + col < cols * rows
index_in row col cols rows h g = grind arith

row_fits : (cols rows : ℕ) → 0 < rows → cols ≤ cols * rows
row_fits cols rows h = grind arith

-- The same terminal with other cells, as many, and with the cursor or the colours elsewhere in range.
pub cells-IsValid :
    (t : Terminal) (cells : List Cell)
    → IsValid t
    → length cells ≡ length t.cells
    → IsValid (record t { cells = cells })
cells-IsValid t cells v e = record {
  wide = v.wide;
  high = v.high;
  enough = omega (arith, v.enough, e);
  on_row = v.on_row;
  on_col = v.on_col;
  fg_in = v.fg_in;
  bg_in = v.bg_in;
  parsing = v.parsing;
}

pub cursor-IsValid :
    (t : Terminal) (cx cy : ℕ)
    → IsValid t
    → cx ≤ t.cols
    → cy < t.rows
    → IsValid (record t { cx = cx; cy = cy })
cursor-IsValid t cx cy v c r = record {
  wide = v.wide;
  high = v.high;
  enough = v.enough;
  on_row = r;
  on_col = c;
  fg_in = v.fg_in;
  bg_in = v.bg_in;
  parsing = v.parsing;
}

pub colours-IsValid :
    (t : Terminal) (fg bg : ℕ) (bold : Bool)
    → IsValid t
    → fg < 16
    → bg < 16
    → IsValid (record t { fg = fg; bg = bg; bold = bold })
colours-IsValid t fg bg bold v f b = record {
  wide = v.wide;
  high = v.high;
  enough = v.enough;
  on_row = v.on_row;
  on_col = v.on_col;
  fg_in = f;
  bg_in = b;
  parsing = v.parsing;
}

pub put-Fine :
    (t : Terminal) (col row : ℕ) (c : Cell)
    → IsValid t
    → col < t.cols
    → row < t.rows
    → Fine t (put t col row c)
unfolding put
put-Fine t col row c v h g =
    let i = row * t.cols + col in
    if-Fine t (ltb i (length t.cells)) _ _
      (λ _. (cells-IsValid t (set t.cells i c) v (length-set t.cells i c), refl, refl))
      (λ out. absurd (ground (arith, out, index_in row col t.cols t.rows g h, v.enough)))

clear_cells-Fine :
    (n : ℕ) (t : Terminal) (row from : ℕ) (c : Cell)
    → IsValid t
    → from + n ≤ t.cols
    → row < t.rows
    → Fine t (clear_cells n t row from c)
clear_cells-Fine zero t row from c v h g = (v, refl, refl)
clear_cells-Fine (suc n) t row from c v h g =
    then-Fine t (put t from row c) (λ t'. clear_cells n t' row (suc from) c)
      (put-Fine t from row c v (omega arith) g)
      (λ t' v' cols rows.
        clear_cells-Fine n t' row (suc from) c v' (omega (arith, cols)) (omega (arith, rows)))

pub clear_span-Fine :
    (t : Terminal) (row from to : ℕ)
    → IsValid t
    → from ≤ t.cols
    → to ≤ t.cols
    → row < t.rows
    → Fine t (clear_span t row from to)
unfolding clear_span
clear_span-Fine t row from to v h g r =
    clear_cells-Fine (to - from) t row from (blank t) v (omega arith) r

pub clear_rows-Fine :
    (n : ℕ) (t : Terminal) (row : ℕ) → IsValid t → row + n ≤ t.rows → Fine t (clear_rows n t row)
clear_rows-Fine zero t row v h = (v, refl, refl)
clear_rows-Fine (suc n) t row v h =
    then-Fine t (clear_span t row 0 t.cols) (λ t'. clear_rows n t' (suc row))
      (clear_span-Fine t row 0 t.cols v (omega arith) (omega arith) (omega arith))
      (λ t' v' cols rows. clear_rows-Fine n t' (suc row) v' (omega (arith, rows)))

scroll_up-Fine : (t : Terminal) → IsValid t → Fine t (scroll_up t)
unfolding scroll_up
scroll_up-Fine t v =
    let kept = slice t.cells t.cols (t.cols * t.rows - t.cols) in
    let whole = row_fits t.cols t.rows v.high in
    let kept_length =
      length-slice t.cells t.cols (t.cols * t.rows - t.cols) (omega (arith, whole, v.enough)) in
    let same = length-splice t.cells 0 kept (omega (arith, kept_length, v.enough)) in
    let moved : Terminal = record t { cells = splice t.cells 0 kept } in
    let w : IsValid moved = cells-IsValid t (splice t.cells 0 kept) v same in
    if-Fine t (leb (t.cols * t.rows) (length t.cells)) _ _
      (λ _.
        clear_span-Fine moved (t.rows - 1) 0 t.cols w (omega arith) (omega arith)
          (omega (arith, v.high)))
      (λ out. absurd (ground (arith, out, v.enough)))

pub line_feed-Fine : (t : Terminal) → IsValid t → Fine t (line_feed t)
unfolding line_feed
line_feed-Fine t v =
    if-Fine t (ltb (t.cy + 1) t.rows) _ _
      (λ h. (cursor-IsValid t t.cx (t.cy + 1) v v.on_col (ground (arith, h)), refl, refl))
      (λ _. scroll_up-Fine t v)

-- The cursor's column, of a call that returns.
abbrev At : ℕ → Option Terminal → Type 0
At x none = Unit
At x (some t) = t.cx ≡ x

if-At : (x : ℕ) (c : Bool) (y z : Option Terminal) → At x y → At x z → At x (if c then y else z)
if-At x true y z g h = g
if-At x false y z g h = h

then-At :
    (x : ℕ) (o : Option Terminal) (f : Terminal → Option Terminal)
    → At x o
    → ((t : Terminal) → t.cx ≡ x → At x (f t))
    → At x (o >>= f)
then-At x none f h g = tt
then-At x (some t) f h g = g t h

clear_cells-At :
    (n : ℕ) (t : Terminal) (x row from : ℕ) (c : Cell)
    → t.cx ≡ x
    → At x (clear_cells n t row from c)
unfolding put
clear_cells-At zero t x row from c h = h
clear_cells-At (suc n) t x row from c h =
    then-At x (put t from row c) (λ t'. clear_cells n t' row (suc from) c)
      (if-At x (ltb (row * t.cols + from) (length t.cells)) _ _ h tt)
      (λ t' h'. clear_cells-At n t' x row (suc from) c h')

line_feed-At : (t : Terminal) → At t.cx (line_feed t)
unfolding line_feed scroll_up clear_span
line_feed-At t =
    let moved = record t {
      cells = splice t.cells 0 (slice t.cells t.cols (t.cols * t.rows - t.cols));
    } in
    if-At t.cx (ltb (t.cy + 1) t.rows) _ _ refl (
      if-At t.cx (leb (t.cols * t.rows) (length t.cells)) _ _
        (clear_cells-At (t.cols - 0) moved t.cx (t.rows - 1) 0 (blank moved) refl) tt)

-- The next character's place is on the grid.
abbrev pub Ready : Terminal → Option Terminal → Type 0
Ready t none = ⊥
Ready t (some t') = IsValid t' × (t'.cols ≡ t.cols) × (t'.rows ≡ t.rows) × (t'.cx < t'.cols)

pub wrapped-Ready :
    (t : Terminal)
    → IsValid t
    → Ready t (if leb t.cols t.cx then line_feed (record t { cx = 0 }) else some t)
wrapped-Ready t v =
    if-Ready (leb t.cols t.cx) _ _
      (λ _.
        joined (line_feed (record t { cx = 0 }))
          (line_feed-Fine (record t { cx = 0 }) (cursor-IsValid t 0 t.cy v (omega arith) v.on_row))
          (line_feed-At (record t { cx = 0 })))
      (λ h. (v, refl, refl, ground (arith, h)))
  where
    if-Ready :
        (c : Bool) (x y : Option Terminal)
        → (c ≡ true → Ready t x)
        → (c ≡ false → Ready t y)
        → Ready t (if c then x else y)
    if-Ready true x y g h = g refl
    if-Ready false x y g h = h refl

    joined : (o : Option Terminal) → Fine (record t { cx = 0 }) o → At 0 o → Ready t o
    joined none h g = absurd h
    joined (some t') (w, cols, rows) g = (w, cols, rows, omega (arith, w.wide, g))
