-- ===== src/Pattern/Search.antt =====
-- crates/shell/src/pattern.rs: `is_match` is the search of the backtracking matcher.
use relay_os.Prelude.{
  ℕ, zero, suc, ◌+◌, ◌≤◌, ◌≡◌, refl, sym, ap, ◌∙◌, inl, inr, arith, Bool, true, false, ◌&&◌, ◌||◌,
  not, List, [], ◌∷◌, if◌then◌else◌, length, get_or, replicate, Bool-cases, length-replicate,
}
use relay_os.Pattern.{Piece, Pattern, matches, enter, advance, step, run, is_match}
use relay_os.Pattern.Reference.{match_here, somewhere, search}
use relay_os.Pattern.States.{
  live, Closed, Closed-tail, Almost, live_here, live-enter, length-enter, live-advance, moves-live,
  Closed-enter_from,
}

get_or-replicate : (n i : ℕ) → get_or (replicate n false) i false ≡ false
get_or-replicate zero i = refl
get_or-replicate (suc n) zero = refl
get_or-replicate (suc n) (suc i) = get_or-replicate n i

-- The places after the first.
abbrev later : (List ℕ → Bool) → List ℕ → Bool
later accept [] = false
later accept (c ∷ line) = somewhere accept line

module _ (r : Pattern) where
  abbrev accept : List ℕ → Bool
  accept = match_here r.ignore_case r.at_end r.pieces

  abbrev off : List Bool
  off = replicate (suc (length r.pieces)) false

  live-off :
      (n k : ℕ) (pieces : List Piece) (line : List ℕ)
      → live r (replicate n false) k pieces line ≡ false
  live-off n k [] line = ground (arith, get_or-replicate n k)
  live-off n k (p ∷ pieces) line =
      ground (arith, get_or-replicate n k, live-off n (suc k) pieces line)

  -- With the line at its end, the last state decides.
  live-nil :
      (on : List Bool) (k : ℕ) (pieces : List Piece)
      → Closed r on k pieces
      → live r on k pieces [] ≡ get_or on (k + length pieces) false
  live-nil on k [] closed =
      let e : k + 0 ≡ k = omega arith in ground (arith, ap (λ j. get_or on j false) e)
  live-nil on k (p ∷ pieces) closed =
      let e : k + suc (length pieces) ≡ suc k + length pieces = omega arith in
      let next : p.repeated ≡ true → get_or on k false ≡ true → get_or on (suc k) false ≡ true =
        closed k 0 p (omega arith) refl in
      ground (
        arith,
        next,
        ap (λ j. get_or on j false) e,
        live_here r on (suc k) pieces [],
        live-nil on (suc k) pieces (Closed-tail r on k p pieces closed),
      )

  Closed-enter :
      (on : List Bool) (k : ℕ)
      → Closed r on 0 r.pieces
      → suc (length r.pieces) ≡ length on
      → k ≤ length r.pieces
      → Closed r (enter r.pieces on k) 0 r.pieces
  unfolding enter
  Closed-enter on k closed len le =
      let almost : Almost r on k =
        λ j p elem rep h. ground (arith, closed j j p (omega arith) elem rep h) in
      Closed-enter_from r on k _ almost refl len le

  Closed-advance :
      (on next : List Bool) (c k : ℕ) (pieces : List Piece)
      → k + length pieces ≡ length r.pieces
      → Closed r next 0 r.pieces
      → suc (length r.pieces) ≡ length next
      → Closed r (advance r on c k pieces next) 0 r.pieces
  Closed-advance on next c k [] e closed len = closed
  Closed-advance on next c k (p ∷ pieces) e closed len =
      let to = if p.repeated then k else suc k in
      let deeper =
        λ (states : List Bool). Closed-advance on states c (suc k) pieces (omega (arith, e)) in
      elim (Bool-cases (get_or on k false && matches r.ignore_case p.item c)) [
        | inl holds ↦ rw holds (
            deeper (enter r.pieces next to) (Closed-enter next to closed len (ground arith))
              (len ∙ sym (length-enter r next to)))
        | inr fails ↦ rw fails (deeper next closed len)
      ]

  length-advance :
      (on next : List Bool) (c k : ℕ) (pieces : List Piece)
      → length (advance r on c k pieces next) ≡ length next
  length-advance on next c k [] = refl
  length-advance on next c k (p ∷ pieces) =
      let to = if p.repeated then k else suc k in
      ground (
        arith,
        length-advance on next c (suc k) pieces,
        length-advance on (enter r.pieces next to) c (suc k) pieces,
        length-enter r next to,
      )

  live-step :
      (now : List Bool) (c : ℕ) (line : List ℕ)
      → Closed r now 0 r.pieces
      → live r (step r now c) 0 r.pieces line
          || (get_or now (length r.pieces) false && not r.at_end)
        ≡ live r now 0 r.pieces (c ∷ line) || (not r.at_start && accept line)
  unfolding step
  live-step now c line closed =
      let next = advance r now c 0 r.pieces off in
      ground (
        arith,
        moves-live r now c 0 r.pieces line closed,
        live-advance r now off c 0 r.pieces line refl (sym (length-replicate _ false)),
        live-off (suc (length r.pieces)) 0 r.pieces line,
        live-enter r next 0 r.pieces line refl (omega arith)
            (sym (length-replicate _ false) ∙ sym (length-advance now off c 0 r.pieces)),
      )

  Closed-step : (now : List Bool) (c : ℕ) → Closed r (step r now c) 0 r.pieces
  unfolding step
  Closed-step now c =
      let next = advance r now c 0 r.pieces off in
      let nothing : Closed r off 0 r.pieces =
        λ j i p at elem rep h. ground (arith, h, get_or-replicate (suc (length r.pieces)) j) in
      let closed =
        Closed-advance now off c 0 r.pieces (omega arith) nothing
          (sym (length-replicate _ false)) in
      elim r.at_start
        as (λ at_start. Closed r (if at_start then next else enter r.pieces next 0) 0 r.pieces) [
          | true ↦ closed
          | false ↦
              Closed-enter next 0 closed
                (sym (length-replicate _ false) ∙ sym (length-advance now off c 0 r.pieces))
                (omega arith)
        ]

  somewhere-later : (line : List ℕ) → somewhere accept line ≡ accept line || later accept line
  somewhere-later [] = ground arith
  somewhere-later (c ∷ line) = refl

  run-live :
      (now : List Bool) (line : List ℕ)
      → Closed r now 0 r.pieces
      → run r now line ≡ live r now 0 r.pieces line || (not r.at_start && later accept line)
  run-live now [] closed = ground (arith, live-nil now 0 r.pieces closed)
  run-live now (c ∷ line) closed = ground (
    arith,
    live-step now c line closed,
    moves-live r now c 0 r.pieces line closed,
    run-live (step r now c) line (Closed-step now c),
    somewhere-later line,
  )

-- `is_match` finds what the backtracking search finds, for every pattern and line.
pub is_match-search : (r : Pattern) (line : List ℕ) → is_match r line ≡ search r line
unfolding is_match
is_match-search r line =
    let len : suc (length r.pieces) ≡ length (off r) = sym (length-replicate _ false) in
    let nothing : Closed r (off r) 0 r.pieces =
      λ j i p at elem rep h. ground (arith, h, get_or-replicate (suc (length r.pieces)) j) in
    ground (
      arith,
      run-live r (enter r.pieces (off r) 0) line
          (Closed-enter r (off r) 0 nothing len (omega arith)),
      live-enter r (off r) 0 r.pieces line refl (omega arith) len,
      live-off r (suc (length r.pieces)) 0 r.pieces line,
      somewhere-later r line,
    )
