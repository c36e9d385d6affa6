-- ===== src/Pattern/Reference.antt =====
-- A reference for `is_match` of crates/shell/src/pattern.rs: the backtracking matcher, a piece after
-- the other, a repeated one any number of times, tried from every place of the line.
use relay_os.Prelude.{ℕ, Bool, true, false, ◌&&◌, ◌||◌, not, List, [], ◌∷◌, if◌then◌else◌}
use relay_os.Pattern.{Piece, Pattern, matches}

-- `accept` at some place of the line that bytes which pass `pass` lead to.
abbrev pub star : (ℕ → Bool) → (List ℕ → Bool) → List ℕ → Bool
star pass accept [] = accept []
star pass accept (c ∷ line) = accept (c ∷ line) || (pass c && star pass accept line)

abbrev pub one : (ℕ → Bool) → (List ℕ → Bool) → List ℕ → Bool
one pass accept [] = false
one pass accept (c ∷ line) = pass c && accept line

-- Whether a start of the line, the whole line when `at_end`, has the form of the pieces.
abbrev pub match_here : Bool → Bool → List Piece → List ℕ → Bool
match_here ignore_case at_end [] [] = true
match_here ignore_case at_end [] (_ ∷ _) = not at_end
match_here ignore_case at_end (p ∷ pieces) line =
    let accept = match_here ignore_case at_end pieces in
    if p.repeated
    then star (matches ignore_case p.item) accept line
    else one (matches ignore_case p.item) accept line

abbrev pub somewhere : (List ℕ → Bool) → List ℕ → Bool
somewhere accept [] = accept []
somewhere accept (c ∷ line) = accept (c ∷ line) || somewhere accept line

abbrev pub search : Pattern → List ℕ → Bool
search r line =
    let accept = match_here r.ignore_case r.at_end r.pieces in
    if r.at_start then accept line else somewhere accept line
