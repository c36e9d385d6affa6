-- ===== src/Pattern/Tests.antt =====
-- Patterns at concrete values: `^[a-c]*x$` parsed and run, and refusals.
use relay_os.Prelude.{ℕ, ◌≡◌, refl, true, false, some, List, [], ◌∷◌}
use relay_os.Pattern.{
  byte, byte_set, Pattern, Parsed, parsed, refused, unmatched_bracket, trailing_backslash,
  unsupported_escape, set_loop, parse_set, parse_loop, parse, matches, enter, step, is_match,
}
use relay_os.Pattern.Reference.{search}
use relay_os.Pattern.Parser.{Ordered, parse-returns}
use relay_os.Pattern.Search.{is_match-search}

abbrev source : List ℕ
source = 94 ∷ 91 ∷ 97 ∷ 45 ∷ 99 ∷ 93 ∷ 42 ∷ 120 ∷ 36 ∷ []

abbrev pattern : Pattern
pattern = record {
  pieces =
      record { item = byte_set ((97, 99) ∷ []) false; repeated = true }
      ∷ record { item = byte 120; repeated = false }
      ∷ [];
  at_start = true;
  at_end = true;
  ignore_case = true;
}

parsed_source : parse source true ≡ some (parsed pattern)
unfolding parse parse_loop parse_set set_loop unsupported_escape
parsed_source = refl

parsed_back : parse (97 ∷ 92 ∷ []) true ≡ some (refused trailing_backslash)
unfolding parse parse_loop parse_set set_loop unsupported_escape
parsed_back = refl

parsed_open : parse (97 ∷ 91 ∷ 93 ∷ []) true ≡ some (refused unmatched_bracket)
unfolding parse parse_loop parse_set set_loop unsupported_escape
parsed_open = refl

abbrev line : List ℕ
line = 66 ∷ 97 ∷ 99 ∷ 120 ∷ []

matched : is_match pattern line ≡ true
unfolding is_match step enter matches
matched = refl

is_match-search_example : is_match pattern line ≡ search pattern line
is_match-search_example = is_match-search pattern line

parse-returns_example :
    (result : Parsed Pattern) × (parse source true ≡ some result) × Ordered result
parse-returns_example = parse-returns source true
