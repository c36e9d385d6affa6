-- ===== src/Pattern.antt =====
-- crates/shell/src/pattern.rs: the patterns of `grep`, their parser and their matcher, which runs
-- every state of the pattern at once over the line. A position in the pattern is the list of the
-- bytes from there on, so `i == p.len()` is the empty list.
mod Parser
mod Reference
mod States
mod Search
mod Tests
use relay_os.Prelude.{
  ℕ, zero, suc, ◌+◌, ◌-◌, Bool, true, false, ◌&&◌, ◌||◌, not, Option, none, some, List, [], ◌∷◌,
  ◌++◌, ◌==◌, ltb, leb, if◌then◌else◌, ◌>>=◌, is_some, length, get_or, set, drop, replicate, any,
}

pub data Item : Type 0 where
  byte : ℕ → Item
  any_byte : Item
  byte_set : List (ℕ × ℕ) → Bool → Item

pub record Piece : Type 0 where
  pub item : Item
  pub repeated : Bool

pub record Pattern : Type 0 where
  pub pieces : List Piece
  pub at_start : Bool
  pub at_end : Bool
  pub ignore_case : Bool

-- The `&'static str` of `Unsupported`.
pub data Feature : Type 0 where
  groups intervals alternation plus question words back_reference classes : Feature

pub data PatternError : Type 0 where
  invalid unmatched_bracket trailing_backslash invalid_range_end : PatternError
  unsupported : Feature → PatternError

pub data Parsed (A : Type 0) : Type 0 where
  parsed : A → Parsed A
  refused : PatternError → Parsed A

-- b"<>bBwWsS`'"
abbrev word_escapes : List ℕ
word_escapes = 60 ∷ 62 ∷ 98 ∷ 66 ∷ 119 ∷ 87 ∷ 115 ∷ 83 ∷ 96 ∷ 39 ∷ []

unfoldable pub unsupported_escape : ℕ → Option Feature
unsupported_escape b =
    if b == 40 || b == 41
    then some groups
    else if b == 123 || b == 125
    then some intervals
    else if b == 124
    then some alternation
    else if b == 43
    then some plus
    else if b == 63
    then some question
    else if any (λ c. b == c) word_escapes
    then some words
    else if leb 49 b && leb b 57
    then some back_reference
    else none

-- `p.first() == Some(&b)`
abbrev pub starts_with : ℕ → List ℕ → Bool
starts_with b [] = false
starts_with b (c ∷ _) = c == b

-- `windows(2).any(|w| w == [kind, b']'])`
abbrev pub closes : ℕ → List ℕ → Bool
closes kind [] = false
closes kind (a ∷ rest) = (a == kind && starts_with 93 rest) || closes kind rest

-- `p.get(i + 1)` after a `[`, when it is `:`, `.` or `=`.
abbrev class_mark : List ℕ → Option ℕ
class_mark [] = none
class_mark (k ∷ _) = if k == 58 || (k == 46 || k == 61) then some k else none

-- The end of the range that the bytes after its first one make, and what follows it: a `-`, and a
-- byte that is not `]`.
abbrev range_end : List ℕ → Option (ℕ × List ℕ)
range_end (d ∷ (e ∷ rest)) = if d == 45 && not (e == 93) then some (e, rest) else none
range_end _ = none

-- What may not follow a range: a `-` that a `]` does not follow.
abbrev pub dangling : List ℕ → Bool
dangling [] = false
dangling (d ∷ rest) = d == 45 && not (starts_with 93 rest)

-- The loop of `parse_set`; `none` is out of fuel.
unfoldable pub set_loop : ℕ → Bool → Bool → List (ℕ × ℕ) → List ℕ → Option (Parsed (Item × List ℕ))
set_loop zero negated first ranges rest = none
set_loop (suc fuel) negated first ranges [] = some (refused unmatched_bracket)
set_loop (suc fuel) negated first ranges (b ∷ rest) = elim (b == 93 && not first) [
  | true ↦ some (parsed (byte_set ranges negated, rest))
  | false ↦ elim (if b == 91 then class_mark rest else none) [
    | some kind ↦
        some
          (refused (if closes kind (drop 1 rest) then unsupported classes else unmatched_bracket))
    | none ↦ elim (range_end rest) [
      | some (end, after) ↦ elim (ltb end b || dangling after) [
        | true ↦ some (refused invalid_range_end)
        | false ↦ set_loop fuel negated false (ranges ++ ((b, end) ∷ [])) after
      ]
      | none ↦ set_loop fuel negated false (ranges ++ ((b, b) ∷ [])) rest
    ]
  ]
]

unfoldable pub parse_set : ℕ → List ℕ → Option (Parsed (Item × List ℕ))
parse_set fuel rest =
    let negated = starts_with 94 rest in
    let members = if negated then drop 1 rest else rest in
    if leb (length members) 0 then some (refused invalid) else set_loop fuel negated true [] members

-- `last.repeated = true`; `none` when there is no piece.
abbrev pub repeat_last : List Piece → Option (List Piece)
repeat_last [] = none
repeat_last (p ∷ []) = some (record p { repeated = true } ∷ [])
repeat_last (p ∷ (q ∷ ps)) = repeat_last (q ∷ ps) >>= λ rest. some (p ∷ rest)

abbrev pub once : Item → Piece
once item = record { item = item; repeated = false }

-- The loop of `Pattern::parse`: the pieces, and whether the pattern ends in an anchor.
unfoldable pub parse_loop : ℕ → List Piece → List ℕ → Option (Parsed (List Piece × Bool))
parse_loop fuel pieces [] = some (parsed (pieces, false))
parse_loop zero pieces (b ∷ rest) = none
parse_loop (suc fuel) pieces (b ∷ rest) = elim (b == 92) [
  | true ↦ elim rest [
    | [] ↦ some (refused trailing_backslash)
    | c ∷ after ↦ elim (unsupported_escape c) [
      | some feature ↦ some (refused (unsupported feature))
      | none ↦ parse_loop fuel (pieces ++ (once (byte c) ∷ [])) after
    ]
  ]
  | false ↦ elim (b == 46) [
    | true ↦ parse_loop fuel (pieces ++ (once any_byte ∷ [])) rest
    | false ↦ elim (b == 42) [
      | true ↦ elim (repeat_last pieces) [
        | some starred ↦ parse_loop fuel starred rest
        | none ↦ parse_loop fuel (pieces ++ (once (byte 42) ∷ [])) rest
      ]
      | false ↦ elim (b == 36 && leb (length rest) 0) [
        | true ↦ some (parsed (pieces, true))
        | false ↦ elim (b == 91) [
          | true ↦ elim (parse_set (suc (length rest)) rest) [
            | none ↦ none
            | some (refused e) ↦ some (refused e)
            | some (parsed (item, after)) ↦ parse_loop fuel (pieces ++ (once item ∷ [])) after
          ]
          | false ↦ parse_loop fuel (pieces ++ (once (byte b) ∷ [])) rest
        ]
      ]
    ]
  ]
]

unfoldable pub parse : List ℕ → Bool → Option (Parsed Pattern)
parse p ignore_case =
    let at_start = starts_with 94 p in
    parse_loop (length p) [] (if at_start then drop 1 p else p) >>= λ result. elim result [
      | refused e ↦ some (refused e)
      | parsed (pieces, at_end) ↦ some (
          parsed record {
            pieces = pieces;
            at_start = at_start;
            at_end = at_end;
            ignore_case = ignore_case;
          })
    ]

-- Rust's `u8::is_ascii_alphabetic`, `to_ascii_lowercase` and `to_ascii_uppercase`.
abbrev pub is_upper : ℕ → Bool
is_upper c = leb 65 c && leb c 90

abbrev pub is_lower : ℕ → Bool
is_lower c = leb 97 c && leb c 122

abbrev pub to_lower : ℕ → ℕ
to_lower c = if is_upper c then c + 32 else c

abbrev pub to_upper : ℕ → ℕ
to_upper c = if is_lower c then c - 32 else c

-- The closure `one`.
abbrev pub in_item : Item → ℕ → Bool
in_item (byte b) c = b == c
in_item any_byte c = true
in_item (byte_set ranges negated) c =
    let inside = any (λ (low, high). leb low c && leb c high) ranges in
    if negated then not inside else inside

unfoldable pub matches : Bool → Item → ℕ → Bool
matches ignore_case item c =
    if not ignore_case || not (is_upper c || is_lower c)
    then in_item item c
    else let lower = in_item item (to_lower c) in
      let upper = in_item item (to_upper c) in
      elim item [ byte_set _ true ↦ lower && upper | _ ↦ lower || upper ]

-- The loop of `enter`: `pieces` are those from state `k` on.
abbrev pub enter_from : List Piece → List Bool → ℕ → List Bool
enter_from [] states k = set states k true
enter_from (p ∷ pieces) states k =
    let entered = set states k true in
    if p.repeated then enter_from pieces entered (suc k) else entered

unfoldable pub enter : List Piece → List Bool → ℕ → List Bool
enter pieces states k = enter_from (drop k pieces) states k

-- The loop over `self.pieces`, from piece `k` on, for one byte of the line.
abbrev pub advance : Pattern → List Bool → ℕ → ℕ → List Piece → List Bool → List Bool
advance r now c k [] next = next
advance r now c k (p ∷ pieces) next = advance r now c (suc k) pieces (
    if get_or now k false && matches r.ignore_case p.item c
    then enter r.pieces next (if p.repeated then k else suc k)
    else next)

unfoldable pub step : Pattern → List Bool → ℕ → List Bool
step r now c =
    let next = advance r now c 0 r.pieces (replicate (suc (length r.pieces)) false) in
    if r.at_start then next else enter r.pieces next 0

-- The loop over the line.
abbrev pub run : Pattern → List Bool → List ℕ → Bool
run r now [] = get_or now (length r.pieces) false
run r now (c ∷ line) =
    if get_or now (length r.pieces) false && not r.at_end then true else run r (step r now c) line

unfoldable pub is_match : Pattern → List ℕ → Bool
is_match r line = run r (enter r.pieces (replicate (suc (length r.pieces)) false) 0) line
