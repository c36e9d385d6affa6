-- ===== src/Pattern/States.antt =====
-- crates/shell/src/pattern.rs: the set of states of the matcher, by what they accept of the rest of
-- the line.
use relay_os.Prelude.{
  ℕ, zero, suc, ◌+◌, ◌≤◌, ◌<◌, ◌≡◌, refl, sym, ap, ◌∙◌, inl, inr, arith, Bool, true, false, ◌&&◌,
  ◌||◌, not, some, List, [], ◌∷◌, ◌==◌, ltb, if◌then◌else◌, length, get_elem?, get_or, set, drop,
  Bool-cases, length-set, length-drop,
}
use relay_os.Pattern.Reference.{match_here}
use relay_os.Pattern.{Piece, Pattern, matches, enter_from, enter, advance}

get_or-set_on :
    (on : List Bool) (j k : ℕ)
    → get_or (set on j true) k false ≡ get_or on k false || (j == k && ltb j (length on))
get_or-set_on [] j k = ground arith
get_or-set_on (b ∷ on) zero zero = ground arith
get_or-set_on (b ∷ on) zero (suc k) = ground arith
get_or-set_on (b ∷ on) (suc j) zero = ground arith
get_or-set_on (b ∷ on) (suc j) (suc k) = ground (arith, get_or-set_on on j k)

get_elem?-lt : {A : Type 0} (xs : List A) (i : ℕ) (a : A) → get_elem? xs i ≡ some a → i < length xs
get_elem?-lt [] i a e = absurd (ground (arith, e))
get_elem?-lt (x ∷ xs) zero a e = omega arith
get_elem?-lt (x ∷ xs) (suc i) a e = omega (arith, get_elem?-lt xs i a e)

module _ {A : Type 0} (p : A) (ps : List A) where
  drop-next : (xs : List A) (k : ℕ) → (p ∷ ps) ≡ drop k xs → ps ≡ drop (suc k) xs
  drop-next [] zero e = absurd (ground (arith, e))
  drop-next [] (suc k) e = absurd (ground (arith, e))
  drop-next (x ∷ xs) zero e = ground (arith, e)
  drop-next (x ∷ xs) (suc k) e = drop-next xs k e

  drop-elem : (xs : List A) (k : ℕ) → (p ∷ ps) ≡ drop k xs → get_elem? xs k ≡ some p
  drop-elem [] zero e = absurd (ground (arith, e))
  drop-elem [] (suc k) e = absurd (ground (arith, e))
  drop-elem (x ∷ xs) zero e = ground (arith, e)
  drop-elem (x ∷ xs) (suc k) e = drop-elem xs k e

  drop-lt : (xs : List A) (k : ℕ) → (p ∷ ps) ≡ drop k xs → k < length xs
  drop-lt xs k e = omega (arith, ap length e, length-drop k xs)

module _ (r : Pattern) where
  -- From some state that is on, from state `k` on, the rest of the line is accepted.
  abbrev pub live : List Bool → ℕ → List Piece → List ℕ → Bool
  live on k [] line = get_or on k false && match_here r.ignore_case r.at_end [] line
  live on k (p ∷ pieces) line =
      (get_or on k false && match_here r.ignore_case r.at_end (p ∷ pieces) line)
      || live on (suc k) pieces line

  -- What one byte does to the states that are on.
  abbrev pub moves : List Bool → ℕ → ℕ → List Piece → List ℕ → Bool
  moves on c k [] line = false
  moves on c k (p ∷ pieces) line =
      (get_or on k false
        && (matches r.ignore_case p.item c
            && match_here r.ignore_case r.at_end (if p.repeated then p ∷ pieces else pieces) line))
      || moves on c (suc k) pieces line

  -- Where a repeated piece's state is on, so is the next one.
  abbrev pub Closed : List Bool → ℕ → List Piece → Type 0
  Closed on k pieces =
      (j i : ℕ) (p : Piece)
      → j ≡ k + i
      → get_elem? pieces i ≡ some p
      → p.repeated ≡ true
      → get_or on j false ≡ true
      → get_or on (suc j) false ≡ true

  pub Closed-tail :
      (on : List Bool) (k : ℕ) (p : Piece) (pieces : List Piece)
      → Closed on k (p ∷ pieces)
      → Closed on (suc k) pieces
  Closed-tail on k p pieces closed j i q e = closed j (suc i) q (omega arith)

  -- The same, but for the step to state `k`.
  abbrev pub Almost : List Bool → ℕ → Type 0
  Almost on k =
      (j : ℕ) (p : Piece)
      → get_elem? r.pieces j ≡ some p
      → p.repeated ≡ true
      → get_or on j false ≡ true
      → get_or on (suc j) false || (suc j == k) ≡ true

  live-set_below :
      (on : List Bool) (j k : ℕ) (pieces : List Piece) (line : List ℕ)
      → j < k
      → live (set on j true) k pieces line ≡ live on k pieces line
  live-set_below on j k [] line lt = ground (arith, get_or-set_on on j k)
  live-set_below on j k (p ∷ pieces) line lt =
      ground (arith, get_or-set_on on j k, live-set_below on j (suc k) pieces line (omega arith))

  live-set :
      (on : List Bool) (j k i : ℕ) (pieces : List Piece) (line : List ℕ)
      → j ≡ k + i
      → i ≤ length pieces
      → j < length on
      → live (set on j true) k pieces line
        ≡ live on k pieces line || match_here r.ignore_case r.at_end (drop i pieces) line
  live-set on j k zero [] line e le lt = ground (arith, get_or-set_on on j k)
  live-set on j k zero (p ∷ pieces) line e le lt =
      ground (arith, get_or-set_on on j k, live-set_below on j (suc k) pieces line (omega arith))
  live-set on j k (suc i) [] line e le lt = absurd (omega arith)
  live-set on j k (suc i) (p ∷ pieces) line e le lt = ground (
    arith,
    get_or-set_on on j k,
    live-set on j (suc k) i pieces line (omega arith) (omega arith) lt,
  )

  -- A state that is on accepts what its pieces do.
  pub live_here :
      (on : List Bool) (k : ℕ) (pieces : List Piece) (line : List ℕ)
      → get_or on k false ≡ true
      → match_here r.ignore_case r.at_end pieces line ≡ true
      → live on k pieces line ≡ true
  live_here on k [] line h a = ground arith
  live_here on k (p ∷ pieces) line h a = ground arith

  live-enter_from :
      (on : List Bool) (k : ℕ) (pieces : List Piece) (line : List ℕ)
      → pieces ≡ drop k r.pieces
      → k ≤ length r.pieces
      → suc (length r.pieces) ≡ length on
      → live (enter_from pieces on k) 0 r.pieces line
        ≡ live on 0 r.pieces line || match_here r.ignore_case r.at_end pieces line
  live-enter_from on k [] line e le len =
      rw (live-set on k 0 k r.pieces line (omega arith) le (omega (arith, len)), ← e) refl
  live-enter_from on k (p ∷ pieces) line e le len = ground (
    arith,
    live-set on k 0 k r.pieces line (omega arith) le (omega (arith, len)),
    ap (λ ps. match_here r.ignore_case r.at_end ps line) e,
    live-enter_from (set on k true) (suc k) pieces line (drop-next p pieces r.pieces k e)
        (drop-lt p pieces r.pieces k e) (len ∙ sym (length-set on k true)),
  )

  pub moves-live :
      (on : List Bool) (c k : ℕ) (pieces : List Piece) (line : List ℕ)
      → Closed on k pieces
      → live on k pieces (c ∷ line)
        ≡ moves on c k pieces line || (get_or on (k + length pieces) false && not r.at_end)
  moves-live on c k [] line closed =
      let e : k + 0 ≡ k = omega arith in ground (arith, ap (λ j. get_or on j false) e)
  moves-live on c k (p ∷ pieces) line closed =
      let e : k + suc (length pieces) ≡ suc k + length pieces = omega arith in
      let next : p.repeated ≡ true → get_or on k false ≡ true → get_or on (suc k) false ≡ true =
        closed k 0 p (omega arith) refl in
      ground (
        arith,
        next,
        ap (λ j. get_or on j false) e,
        live_here on (suc k) pieces (c ∷ line),
        moves-live on c (suc k) pieces line (Closed-tail on k p pieces closed),
      )

  length-enter_from :
      (on : List Bool) (k : ℕ) (pieces : List Piece) → length (enter_from pieces on k) ≡ length on
  length-enter_from on k [] = length-set on k true
  length-enter_from on k (p ∷ pieces) =
      ground (arith, length-set on k true, length-enter_from (set on k true) (suc k) pieces)

  pub live-enter :
      (on : List Bool) (k : ℕ) (pieces : List Piece) (line : List ℕ)
      → pieces ≡ drop k r.pieces
      → k ≤ length r.pieces
      → suc (length r.pieces) ≡ length on
      → live (enter r.pieces on k) 0 r.pieces line
        ≡ live on 0 r.pieces line || match_here r.ignore_case r.at_end pieces line
  unfolding enter
  live-enter on k pieces line e le len = rw (← e) (live-enter_from on k pieces line e le len)

  pub length-enter : (on : List Bool) (k : ℕ) → length (enter r.pieces on k) ≡ length on
  unfolding enter
  length-enter on k = length-enter_from on k (drop k r.pieces)

  -- `advance` turns on what the moves lead to.
  pub live-advance :
      (on next : List Bool) (c k : ℕ) (pieces : List Piece) (line : List ℕ)
      → pieces ≡ drop k r.pieces
      → suc (length r.pieces) ≡ length next
      → live (advance r on c k pieces next) 0 r.pieces line
        ≡ live next 0 r.pieces line || moves on c k pieces line
  live-advance on next c k [] line e len = ground arith
  live-advance on next c k (p ∷ pieces) line e len =
      let lt = drop-lt p pieces r.pieces k e in
      let tail = drop-next p pieces r.pieces k e in
      let deeper = λ (states : List Bool). live-advance on states c (suc k) pieces line tail in
      elim p.repeated
        as (λ repeated.
          live
            (advance r on c (suc k) pieces (
              if get_or on k false && matches r.ignore_case p.item c
              then enter r.pieces next (if repeated then k else suc k)
              else next))
            0 r.pieces line
          ≡ live next 0 r.pieces line
            || ((get_or on k false
                  && (matches r.ignore_case p.item c
                      && match_here r.ignore_case r.at_end (if repeated then p ∷ pieces else pieces)
                          line))
                || moves on c (suc k) pieces line)) [
                  | true ↦ ground (
                    arith,
                    live-enter next k (p ∷ pieces) line e (omega arith) len,
                    length-enter next k,
                    deeper next len,
                    deeper (enter r.pieces next k) (len ∙ sym (length-enter next k)),
                  )
                  | false ↦ ground (
                    arith,
                    live-enter next (suc k) pieces line tail (omega arith) len,
                    length-enter next (suc k),
                    deeper next len,
                    deeper (enter r.pieces next (suc k)) (len ∙ sym (length-enter next (suc k))),
                  )
                ]

  Closed-set :
      (on : List Bool) (k : ℕ) → Almost on k → k < length on → Almost (set on k true) (suc k)
  Closed-set on k almost lt j q at starred h =
      ground (arith, get_or-set_on on k j, get_or-set_on on k (suc j), almost j q at starred)

  pub Closed-enter_from :
      (on : List Bool) (k : ℕ) (pieces : List Piece)
      → Almost on k
      → pieces ≡ drop k r.pieces
      → suc (length r.pieces) ≡ length on
      → k ≤ length r.pieces
      → Closed (enter_from pieces on k) 0 r.pieces
  Closed-enter_from on k [] almost e len le j i p at elem rep =
      let same : j ≡ i = omega arith in
      λ h. ground (
        arith,
        same,
        get_or-set_on on k i,
        get_or-set_on on k (suc i),
        almost i p elem rep,
        get_elem?-lt r.pieces i p elem,
        ap length e,
        length-drop k r.pieces,
      )
  Closed-enter_from on k (q ∷ pieces) almost e len le j i p at elem rep =
      let same : j ≡ i = omega arith in
      elim (Bool-cases q.repeated) [
        | inl holds ↦ rw holds (
            Closed-enter_from (set on k true) (suc k) pieces
              (Closed-set on k almost (omega (arith, len))) (drop-next q pieces r.pieces k e)
              (len ∙ sym (length-set on k true)) (drop-lt q pieces r.pieces k e) j i p at elem rep)
        | inr fails ↦ rw fails (λ h. ground (
          arith,
          same,
          get_or-set_on on k i,
          get_or-set_on on k (suc i),
          almost i p elem rep,
          drop-elem q pieces r.pieces k e,
          elem,
        ))
      ]
