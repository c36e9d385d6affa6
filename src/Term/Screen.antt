-- ===== src/Term/Screen.antt =====
-- crates/term/src/terminal.rs: the grid of cells, the cursor and the colours, and what the parser's
-- actions do to them. The pixels drawn from the cells (the shadow buffer, the cursor's picture, the
-- rows to flush) are not modelled: nothing here reads them. `none` is a panic, by an index that is out
-- of range or by what `new` asserts of the grid and its cells; it refuses a grid without columns or
-- rows, so `cols - 1` and `rows - 1` never go below 0.
pub mod Grid
mod Bounds
mod Tests
use relay_os.Prelude.{
  ℕ, zero, suc, ◌+◌, ◌-◌, ◌*◌, ◌/◌, min, Bool, true, false, ◌||◌, ◌&&◌, not, Option, none, some,
  List, [], ◌∷◌, ◌++◌, ◌==◌, leb, ltb, if◌then◌else◌, ◌>>=◌, length, get_elem?, get_or, set, take,
  drop, slice, splice, replicate,
}
use relay_os.Term.Ansi
use relay_os.Term.Ansi.{Action, print, control, control_sequence, full_reset, Parser, advance}

abbrev pub max_rows : ℕ
max_rows = 128

abbrev pub glyph_w : ℕ
glyph_w = 8

abbrev pub glyph_h : ℕ
glyph_h = 16

abbrev pub default_fg : ℕ
default_fg = 7

abbrev pub default_bg : ℕ
default_bg = 0

pub record Cell : Type 0 where
  pub ch : ℕ
  pub fg : ℕ
  pub bg : ℕ

abbrev pub blank_cell : Cell
blank_cell = record { ch = 32; fg = default_fg; bg = default_bg }

pub record Terminal : Type 0 where
  pub cells : List Cell
  pub cols : ℕ
  pub rows : ℕ
  pub cx : ℕ
  pub cy : ℕ
  pub fg : ℕ
  pub bg : ℕ
  pub bold : Bool
  pub parser : Parser

-- Columns, rows and scale.
unfoldable pub geometry : ℕ → ℕ → ℕ × ℕ × ℕ
geometry width height =
    let scale = if leb 1600 width then 2 else 1 in
    (width / (glyph_w * scale), min (height / (glyph_h * scale)) max_rows, scale)

unfoldable pub reset : Terminal → Option Terminal
reset t =
    if leb (t.cols * t.rows) (length t.cells)
    then some record t {
      fg = default_fg;
      bg = default_bg;
      bold = false;
      cx = 0;
      cy = 0;
      cells = splice t.cells 0 (replicate (t.cols * t.rows) blank_cell);
    }
    else none

unfoldable pub new : ℕ → ℕ → List Cell → Option Terminal
unfolding reset geometry
new width height cells =
    let (cols, rows, _) = geometry width height in
    if ltb 0 cols && (ltb 0 rows && leb (cols * rows) (length cells))
    then reset record {
      cells = cells;
      cols = cols;
      rows = rows;
      cx = 0;
      cy = 0;
      fg = default_fg;
      bg = default_bg;
      bold = false;
      parser = Ansi.new;
    }
    else none

abbrev pub effective_fg : Terminal → ℕ
effective_fg t = if t.bold && ltb t.fg 8 then t.fg + 8 else t.fg

abbrev pub blank : Terminal → Cell
blank t = record { ch = 32; fg = effective_fg t; bg = t.bg }

unfoldable pub put : Terminal → ℕ → ℕ → Cell → Option Terminal
put t col row c =
    let i = row * t.cols + col in
    if ltb i (length t.cells) then some (record t { cells = set t.cells i c }) else none

-- `n` columns from `from` on, with the blank that the caller's colours make.
abbrev pub clear_cells : ℕ → Terminal → ℕ → ℕ → Cell → Option Terminal
clear_cells zero t row from c = some t
clear_cells (suc n) t row from c = put t from row c >>= λ t'. clear_cells n t' row (suc from) c

unfoldable pub clear_span : Terminal → ℕ → ℕ → ℕ → Option Terminal
clear_span t row from to = clear_cells (to - from) t row from (blank t)

unfoldable pub scroll_up : Terminal → Option Terminal
unfolding clear_span
scroll_up t =
    if leb (t.cols * t.rows) (length t.cells)
    then (let moved = record t {
      cells = splice t.cells 0 (slice t.cells t.cols (t.cols * t.rows - t.cols));
    } in
        clear_span moved (t.rows - 1) 0 t.cols)
    else none

unfoldable pub line_feed : Terminal → Option Terminal
unfolding scroll_up
line_feed t = if ltb (t.cy + 1) t.rows then some (record t { cy = t.cy + 1 }) else scroll_up t

unfoldable pub sgr : Terminal → ℕ → Terminal
sgr t v =
    if v == 0
    then record t { fg = default_fg; bg = default_bg; bold = false }
    else if v == 1
    then record t { bold = true }
    else if v == 22
    then record t { bold = false }
    else if leb 30 v && leb v 37
    then record t { fg = v - 30 }
    else if v == 39
    then record t { fg = default_fg }
    else if leb 40 v && leb v 47
    then record t { bg = v - 40 }
    else if v == 49
    then record t { bg = default_bg }
    else if leb 90 v && leb v 97
    then record t { fg = v - 90 + 8 }
    else if leb 100 v && leb v 107
    then record t { bg = v - 100 + 8 }
    else t

abbrev pub sgr_each : Terminal → List ℕ → Terminal
sgr_each t [] = t
sgr_each t (v ∷ vs) = sgr_each (sgr t v) vs

-- A parameter; one that is missing or 0 is the default.
abbrev pub arg : List ℕ → ℕ → ℕ → ℕ
arg p i default = let v = get_or p i 0 in if v == 0 then default else v

-- `n` whole rows from `row` on.
abbrev pub clear_rows : ℕ → Terminal → ℕ → Option Terminal
clear_rows zero t row = some t
clear_rows (suc n) t row = clear_span t row 0 t.cols >>= λ t'. clear_rows n t' (suc row)

unfoldable pub erase_display : Terminal → ℕ → Option Terminal
unfolding clear_span
erase_display t mode =
    if mode == 0
    then (clear_span t t.cy (min t.cx t.cols) t.cols >>= λ t'.
        clear_rows (t.rows - (t.cy + 1)) t' (t.cy + 1))
    else if mode == 1
    then (clear_rows t.cy t 0 >>= λ t'. clear_span t' t.cy 0 (min (t.cx + 1) t.cols))
    else if mode == 2 || mode == 3
    then clear_rows t.rows t 0
    else some t

unfoldable pub erase_line : Terminal → ℕ → Option Terminal
unfolding clear_span
erase_line t mode =
    if mode == 0
    then clear_span t t.cy (min t.cx t.cols) t.cols
    else if mode == 1
    then clear_span t t.cy 0 (min (t.cx + 1) t.cols)
    else if mode == 2
    then clear_span t t.cy 0 t.cols
    else some t

-- The arms that move the cursor.
unfoldable pub move_cursor : Terminal → List ℕ → ℕ → Terminal
move_cursor t p final =
    if final == 72 || final == 102
    then record t { cy = min (arg p 0 1 - 1) (t.rows - 1); cx = min (arg p 1 1 - 1) (t.cols - 1) }
    else if final == 65
    then record t { cy = t.cy - arg p 0 1 }
    else if final == 66
    then record t { cy = min (t.cy + arg p 0 1) (t.rows - 1) }
    else if final == 67
    then record t { cx = min (t.cx + arg p 0 1) (t.cols - 1) }
    else if final == 68
    then record t { cx = min t.cx (t.cols - 1) - arg p 0 1 }
    else t

unfoldable pub csi : Terminal → List ℕ → ℕ → Option Terminal
unfolding sgr erase_display erase_line move_cursor
csi t p final =
    if final == 109
    then some (sgr_each t (if length p == 0 then 0 ∷ [] else p))
    else if final == 74
    then erase_display t (arg p 0 0)
    else if final == 75
    then erase_line t (arg p 0 0)
    else some (move_cursor t p final)

unfoldable pub print_char : Terminal → ℕ → Option Terminal
unfolding line_feed put
print_char t ch = (if leb t.cols t.cx then line_feed (record t { cx = 0 }) else some t) >>= λ t'.
    put t' t'.cx t'.cy (record { ch = ch; fg = effective_fg t'; bg = t'.bg }) >>= λ t''.
    some (record t'' { cx = t'.cx + 1 })

unfoldable pub apply : Terminal → Action → Option Terminal
unfolding print_char line_feed csi reset
apply t (print ch) = print_char t ch
apply t (control b) =
    if b == 10
    then line_feed (record t { cx = 0 })
    else some (
        if b == 13
        then record t { cx = 0 }
        else if b == 8
        then record t { cx = min t.cx (t.cols - 1) - 1 }
        else if b == 9 && ltb t.cx t.cols
        then record t { cx = min ((t.cx / 8 + 1) * 8) (t.cols - 1) }
        else t)
apply t (control_sequence params len private final) =
    if private
    then some t
    else if ltb (length params) len
    then none
    else csi t (take len params) final
apply t full_reset = reset t

abbrev pub apply_all : Terminal → List Action → Option Terminal
apply_all t [] = some t
apply_all t (a ∷ actions) = apply t a >>= λ t'. apply_all t' actions

unfoldable pub write_bytes : Terminal → List ℕ → Option Terminal
write_bytes t [] = some t
write_bytes t (b ∷ bytes) =
    let (actions, parser) = advance t.parser b in
    apply_all (record t { parser = parser }) actions >>= λ t'. write_bytes t' bytes
