-- ===== src/Proc/Holders/Chain.antt =====
-- The console's chain as a list: what `give` does to it.
use relay_os.Prelude.{
  ℕ, zero, suc, ◌+◌, ◌-◌, ◌≤◌, ◌<◌, ◌≡◌, refl, ap, sym, ◌∙◌, Bool, true, false, none, some, List,
  [], ◌∷◌, ◌++◌, arith, ltb, leb, ◌&&◌, not, some, ◌==◌, if◌then◌else◌, get_or, set, take, drop,
  take-take, take-set_end, drop_split, drop-set_below, get_elem?-eq-get_or, get_or-take, any,
  position, filter, length, length-set, length-take, ltb→lt, Bool-cases, Option-cases, append-nil,
  append_assoc, inl, inr,
}
use relay_os.Errno.{eperm, eagain, Result, ok, err}
use relay_os.Proc.Holders.{Holders, chain, foreground, position_of, compact, give_top, give}

pub record IsValid (h : Holders) : Type 0 where
  pub size : length h.groups ≡ 64
  pub len_pos : 1 ≤ h.len
  pub len_in : h.len ≤ 64

-- The first entries, up to and with the first `g`.
abbrev pub cut_back : ℕ → List ℕ → List ℕ
cut_back g [] = []
cut_back g (x ∷ xs) = let rest = cut_back g xs in if x == g then x ∷ [] else x ∷ rest

abbrev pub contains : ℕ → List ℕ → Bool
contains g xs = any (λ x. x == g) xs

-- The chain's bottom stays; of the others, those that exist.
abbrev pub live_chain : (ℕ → Bool) → List ℕ → List ℕ
live_chain exists [] = []
live_chain exists (x ∷ xs) = x ∷ filter exists xs

-- The end of `give`: cut back to `to`, or `to` on top where there is room.
abbrev pub topped : ℕ → List ℕ → Result (Unit {0}) × List ℕ
topped to xs =
    if contains to xs
    then (ok tt, cut_back to xs)
    else if ltb (length xs) 64
    then (ok tt, xs ++ to ∷ [])
    else (err eagain, xs)

-- What `give` promises, of the groups of the chain that exist.
abbrev pub given : ℕ → ℕ → List ℕ → Result (Unit {0}) × List ℕ
given by to live = if contains by live then topped to (cut_back by live) else (err eperm, live)

position-contains : (g : ℕ) (xs : List ℕ) → position (λ x. x == g) xs ≡ none → contains g xs ≡ false
position-contains g [] e = refl
position-contains g (x ∷ xs) e = ground (arith, position-contains g xs)

position-cut_back :
    (g i : ℕ) (xs : List ℕ)
    → position (λ x. x == g) xs ≡ some i
    → (contains g xs ≡ true) × (cut_back g xs ≡ take (i + 1) xs) × (i < length xs)
position-cut_back g i [] e = cc
position-cut_back g i (x ∷ xs) e = elim (Bool-cases (x == g)) [
  | inl same ↦ let z : i ≡ 0 = ground arith in rw (same, z) (refl, refl, omega arith)
  | inr other ↦ elim (Option-cases (position (λ x. x == g) xs)) [
    | inl absent ↦ absurd (ground arith)
    | inr (j, found) ↦
        let (in_rest, cut, lt) = position-cut_back g j xs found in
        let next : i ≡ suc j = ground arith in
        let end : suc (j + 1) ≡ suc j + 1 = omega arith in
        rw (other, next)
          (in_rest, ap (λ l. x ∷ l) cut ∙ ap (λ k. take k (x ∷ xs)) end, omega (arith, lt))
  ]
]

-- One round of `compact`: the array and `kept` after it.
compact_round :
    (exists : ℕ → Bool) (rounds i : ℕ) (groups : List ℕ) (kept : ℕ)
    → kept ≤ i
    → i + suc rounds ≤ length groups
    → let g = get_or groups i 0 in
      let groups' = if exists g then set groups kept g else groups in
      let kept' = if exists g then kept + 1 else kept in
      (length groups' ≡ length groups)
      × (kept ≤ kept')
      × (kept' ≤ kept + 1)
      × (take kept' groups' ++ filter exists (take rounds (drop (i + 1) groups'))
          ≡ take kept groups ++ filter exists (take (suc rounds) (drop i groups)))
compact_round exists rounds i groups kept b c =
    rw (drop_split groups i 0 (omega arith)) (elim (Bool-cases (exists g)) [
      | inl e ↦ rw e (
        length-set groups kept g,
        omega arith,
        omega arith,
        rw
            (
              take-set_end groups kept g (omega arith),
              drop-set_below groups kept (i + 1) g (omega arith),
            )
            (append_assoc (take kept groups) (g ∷ [])
              (filter exists (take rounds (drop (i + 1) groups)))),
      )
      | inr e ↦ rw e (refl, omega arith, omega arith, refl)
    ])
  where
    g : ℕ
    g = get_or groups i 0

compact_lem :
    (exists : ℕ → Bool) (rounds i : ℕ) (groups : List ℕ) (kept : ℕ)
    → kept ≤ i
    → i + rounds ≤ length groups
    → (r : List ℕ × ℕ) × (compact exists rounds i groups kept ≡ some r)
      × (length r.0 ≡ length groups)
      × (kept ≤ r.1)
      × (r.1 ≤ kept + rounds)
      × (take r.1 r.0 ≡ take kept groups ++ filter exists (take rounds (drop i groups)))
unfolding compact
compact_lem exists zero i groups kept b c =
    ((groups, kept), refl, refl, omega arith, omega arith, sym (append-nil (take kept groups)))
compact_lem exists (suc rounds) i groups kept b c =
    let (size, up, one, same) = compact_round exists rounds i groups kept b c in
    let (r, run, size', up', most, rest) =
      compact_lem exists rounds (i + 1)
        (if exists (get_or groups i 0) then set groups kept (get_or groups i 0) else groups)
        (if exists (get_or groups i 0) then kept + 1 else kept) (omega arith) (omega arith) in
    let found = get_elem?-eq-get_or groups i 0 (omega (arith, c)) in
    let inside : ltb kept (length groups) ≡ true = ground (arith, b, c) in
    let guard : (exists (get_or groups i 0) && not (ltb kept (length groups))) ≡ false =
      ground (arith, inside) in
    (r, rw found (rw guard run), size' ∙ size, omega arith, omega arith, rest ∙ same)

-- In a valid array the slices are in range.
position_of_lem :
    (h : Holders) (g : ℕ) → IsValid h → position_of h g ≡ some (position (λ x. x == g) (chain h))
unfolding position_of
position_of_lem h g v =
    let inside : leb h.len (length h.groups) ≡ true = ground (arith, v.size, v.len_in) in
    rw inside refl

give_top_lem :
    (h : Holders) (to : ℕ)
    → IsValid h
    → (r : Result (Unit {0}) × Holders) × (give_top h to ≡ some r)
      × ((r.0, chain r.1) ≡ topped to (chain h))
      × IsValid r.1
unfolding give_top
give_top_lem h to v =
    let slice = position_of_lem h to v in
    elim (Option-cases (position (λ g. g == to) (chain h))) [
      | inl absent ↦
          let no_to = position-contains to (chain h) absent in
          let size : length (chain h) ≡ h.len =
            omega (arith, length-take h.len h.groups, v.size, v.len_in) in
          elim (Bool-cases (ltb h.len 64)) [
            | inl room ↦
                let lt = ltb→lt h.len 64 room in
                let inside : ltb h.len (length h.groups) ≡ true = ground (arith, v.size, lt) in
                (
                  (ok tt, record h { groups = set h.groups h.len to; len = h.len + 1 }),
                  rw slice (rw absent (rw (room, inside) refl)),
                  rw (no_to, size)
                      (rw room (
                        ap (λ l. (ok tt, l))
                          (take-set_end h.groups h.len to (omega (arith, v.size))))),
                  record {
                    size = length-set h.groups h.len to ∙ v.size;
                    len_pos = omega arith;
                    len_in = omega arith;
                  },
                )
            | inr full ↦ (
              (err eagain, h),
              rw slice (rw absent (rw full refl)),
              rw (no_to, size) (rw full refl),
              v,
            )
          ]
      | inr (below, found) ↦
          let (has, cut, lt) = position-cut_back to below (chain h) found in
          let within : below < h.len = omega (arith, lt, length-take h.len h.groups) in
          (
            (ok tt, record h { len = below + 1 }),
            rw slice (rw found refl),
            rw (has, cut)
                (ap (λ l. (ok tt, l)) (sym (take-take (below + 1) h.len h.groups (omega arith)))),
            record { size = v.size; len_pos = omega arith; len_in = omega (arith, v.len_in) },
          )
    ]

live_chain-take :
    (exists : ℕ → Bool) (xs : List ℕ) (n : ℕ)
    → 1 ≤ n
    → 1 ≤ length xs
    → take 1 xs ++ filter exists (take (n - 1) (drop 1 xs)) ≡ live_chain exists (take n xs)
live_chain-take exists [] n a b = absurd (omega arith)
live_chain-take exists (x ∷ xs) zero a b = absurd (omega arith)
live_chain-take exists (x ∷ xs) (suc n) a b =
    let e : suc n - 1 ≡ n = omega arith in ap (λ k. x ∷ filter exists (take k xs)) e

-- What `give` finds once the groups that are gone have left the chain.
live_lem :
    (h : Holders) (exists : ℕ → Bool)
    → IsValid h
    → (r : List ℕ × ℕ) × (compact exists (h.len - 1) 1 h.groups 1 ≡ some r)
      × (take r.1 r.0 ≡ live_chain exists (chain h))
      × IsValid record { groups = r.0; len = r.1 }
live_lem h exists v =
    let (r, run, size, up, most, same) =
      compact_lem exists (h.len - 1) 1 h.groups 1 (omega arith)
        (omega (arith, v.size, v.len_pos, v.len_in)) in
    (
      r,
      run,
      same ∙ live_chain-take exists h.groups h.len v.len_pos (omega (arith, v.size)),
      record {
        size = size ∙ v.size;
        len_pos = up;
        len_in = omega (arith, most, v.len_in, v.len_pos);
      },
    )

-- From a valid chain `give` does not panic, returns what the specification `given` says, and leaves its
-- chain and a valid array: `err eperm` exactly if the giver holds none of the console among the groups
-- that exist (which then still leave the chain), `err eagain` only if 64 groups stand below.
pub give_refines :
    (h : Holders) (by to : ℕ) (exists : ℕ → Bool)
    → IsValid h
    → (r : Result (Unit {0}) × Holders) × (give h by to exists ≡ some r)
      × ((r.0, chain r.1) ≡ given by to (live_chain exists (chain h)))
      × IsValid r.1
unfolding give
give_refines h by to exists v =
    let (l, run, same, valid) = live_lem h exists v in
    let live : Holders = record { groups = l.0; len = l.1 } in
    let slice = position_of_lem live by valid in
    elim (Option-cases (position (λ g. g == by) (take l.1 l.0))) [
      | inl absent ↦ (
        (err eperm, live),
        rw run (rw slice (rw absent refl)),
        rw (← same, position-contains by (take l.1 l.0) absent) refl,
        valid,
      )
      | inr (at, found) ↦
          let (has, cut, lt) = position-cut_back by at (take l.1 l.0) found in
          let within : at < l.1 = omega (arith, lt, length-take l.1 l.0) in
          let (r, top, spec, valid') =
            give_top_lem (record { groups = l.0; len = at + 1 }) to
              (record {
                size = valid.size;
                len_pos = omega arith;
                len_in = omega (arith, valid.len_in, within);
              }) in
          (
            r,
            rw run (rw slice (rw found top)),
            rw (← same, has, cut) (rw (take-take (at + 1) l.1 l.0 (omega arith)) spec),
            valid',
          )
    ]

-- `foreground` reads the chain's last entry, and does not panic.
pub foreground_lem :
    (h : Holders) → IsValid h → foreground h ≡ some (get_or (chain h) (length (chain h) - 1) 0)
unfolding foreground
foreground_lem h v = ground (
  arith,
  get_elem?-eq-get_or h.groups (h.len - 1) 0,
  get_or-take h.len h.groups (h.len - 1) 0,
  length-take h.len h.groups,
)
