-- ===== src/Input/Bounds.antt =====
-- kernel/src/input.rs: the invariant of the input queue, and that adding input keeps it.
use relay_os.Prelude.{
  ℕ, zero, suc, ◌+◌, ◌-◌, ◌≤◌, ◌<◌, ◌≡◌, refl, sym, ap, subst, ◌∙◌, inl, inr, arith, min, Bool,
  true, false, ◌&&◌, ◌||◌, not, none, some, List, [], ◌∷◌, ◌++◌, ◌==◌, ltb, leb, if◌then◌else◌,
  length, take, drop, length-append, length-take, Bool-cases, Option-cases, get_or,
}
use relay_os.Line
use relay_os.Line.{LineDiscipline, interrupt}
use relay_os.Line.Bounds
use relay_os.Line.Bounds.{input-IsValid}
use relay_os.Line.Clean.{IsClean, input-IsClean, any-append, any-take, is_interrupt}
use relay_os.Input.{
  InputQueue, queue_max, sequence_max, feed, keys, has_interrupt, from_interrupt, extend, push_line,
  push_raw, push, push_serial, expire, KeyEvent, push_key, sequence_of, byte_of, is_final,
  esc_timeout_ms,
}

-- Only the first byte may be a Ctrl-C.
abbrev pub only_first : List ℕ → Bool
only_first [] = true
only_first (b ∷ bytes) = not (has_interrupt bytes)

pub record IsValid (q : InputQueue) : Type 0 where
  pub fits : length q.bytes ≤ queue_max
  pub in_step : q.echoed ≤ length q.bytes
  pub front : only_first q.bytes ≡ true
  pub short : length q.sequence < sequence_max
  pub plain : has_interrupt q.sequence ≡ false
  pub lined : q.line_mode ≡ true → length q.bytes ≡ 0
  pub quiet : q.line_mode ≡ false → q.interrupted ≡ false
  pub idle : q.line_mode ≡ false → (length q.line.ready ≡ 0) × (length q.line.line ≡ 0)
  pub kept : Line.Bounds.IsValid q.line
  pub clean : IsClean q.line

only_first-append :
    (xs ys : List ℕ)
    → only_first xs ≡ true
    → has_interrupt ys ≡ false
    → only_first (xs ++ ys) ≡ true
only_first-append [] [] h g = refl
only_first-append [] (y ∷ ys) h g = ground arith
only_first-append (x ∷ xs) ys h g = ground (arith, any-append is_interrupt xs ys)

only_first-take : (n : ℕ) (xs : List ℕ) → only_first xs ≡ true → only_first (take n xs) ≡ true
only_first-take zero xs h = refl
only_first-take (suc n) [] h = refl
only_first-take (suc n) (x ∷ xs) h = ground (arith, any-take is_interrupt n xs (ground arith))

pub clean-first : (xs : List ℕ) → has_interrupt xs ≡ false → only_first xs ≡ true
clean-first [] h = refl
clean-first (x ∷ xs) h = ground arith

pub only_first-drop : (n : ℕ) (xs : List ℕ) → only_first xs ≡ true → only_first (drop n xs) ≡ true
only_first-drop zero xs h = h
only_first-drop (suc n) [] h = refl
only_first-drop (suc n) (x ∷ xs) h = only_first-drop n xs (clean-first xs (ground arith))

pub from_interrupt-none :
    (bytes : List ℕ) → from_interrupt bytes ≡ none → has_interrupt bytes ≡ false
from_interrupt-none [] e = refl
from_interrupt-none (b ∷ bytes) e = elim (Option-cases (from_interrupt bytes)) [
  | inl nothing ↦ ground (arith, e, nothing, from_interrupt-none bytes nothing)
  | inr (last, at) ↦ absurd (ground (arith, e, at))
]

pub from_interrupt-some :
    (bytes last : List ℕ) → from_interrupt bytes ≡ some last → only_first last ≡ true
from_interrupt-some [] last e = absurd (ground (arith, e))
from_interrupt-some (b ∷ bytes) last e = elim (Option-cases (from_interrupt bytes)) [
  | inr (deeper, at) ↦
      let same : deeper ≡ last = ground (arith, e, at) in
      from_interrupt-some bytes last (at ∙ ap some same)
  | inl nothing ↦
      let same : (b ∷ bytes) ≡ last = ground (arith, e, nothing) in
      subst (λ l. only_first l ≡ true) same (ground (arith, from_interrupt-none bytes nothing))
]

pub feed-keeps :
    (ks : List (List ℕ)) (hit : Bool) (echo : List ℕ) (d : LineDiscipline)
    → Line.Bounds.IsValid d
    → IsClean d
    → Line.Bounds.IsValid (feed ks hit echo d).2 × IsClean (feed ks hit echo d).2
feed-keeps [] hit echo d v c = (v, c)
feed-keeps (k ∷ ks) hit echo d v c =
    feed-keeps ks (hit || (Line.input d k echo).0) (Line.input d k echo).1 (Line.input d k echo).2
      (input-IsValid d k echo v) (input-IsClean d k echo c)

pub extend-IsValid :
    (q : InputQueue) (bytes : List ℕ) (v : IsValid q)
    → q.line_mode ≡ false
    → (q.bytes ≡ [] → only_first bytes ≡ true)
    → (has_interrupt bytes ≡ true → q.bytes ≡ [])
    → IsValid (extend q bytes)
extend-IsValid q bytes v raw first empty =
    let n = min (length bytes) (queue_max - length q.bytes) in
    record {
      fits = omega (arith, v.fits, length-append q.bytes (take n bytes), length-take n bytes);
      in_step = omega (arith, v.in_step, length-append q.bytes (take n bytes));
      front = elim (Bool-cases (has_interrupt bytes)) [
        | inl some_there ↦
            let e = empty some_there in
            subst (λ xs. only_first (xs ++ take n bytes) ≡ true) (sym e)
              (only_first-take n bytes (first e))
        | inr without ↦
            only_first-append q.bytes (take n bytes) v.front (any-take is_interrupt n bytes without)
      ];
      short = v.short;
      plain = v.plain;
      lined = λ h. absurd (ground (arith, h));
      quiet = v.quiet;
      idle = v.idle;
      kept = v.kept;
      clean = v.clean;
    }

pub if-IsValid :
    (c : Bool) (x y : InputQueue)
    → (c ≡ true → IsValid x)
    → (c ≡ false → IsValid y)
    → IsValid (if c then x else y)
if-IsValid true x y v w = v refl
if-IsValid false x y v w = w refl

push_raw-IsValid :
    (q : InputQueue) (bytes : List ℕ) (v : IsValid q)
    → q.line_mode ≡ false
    → IsValid (push_raw q bytes)
push_raw-IsValid q bytes v raw = elim (Option-cases (from_interrupt bytes)) [
  | inl nothing ↦
      let without = from_interrupt-none bytes nothing in
      rw (nothing, push_raw)
        (extend-IsValid q bytes v raw (λ _. clean-first bytes without) (λ h. absurd (ground arith)))
  | inr (last, e) ↦
      let emptied = record q { bytes = []; echoed = 0; sequence = [] } in
      let w : IsValid emptied = record {
        fits = omega arith;
        in_step = omega arith;
        front = refl;
        short = omega arith;
        plain = refl;
        lined = λ _. refl;
        quiet = v.quiet;
        idle = v.idle;
        kept = v.kept;
        clean = v.clean;
      } in
      rw (e, push_raw)
        (extend-IsValid emptied last w raw (λ _. from_interrupt-some bytes last e) (λ _. refl))
]

push_line-IsValid :
    (q : InputQueue) (bytes : List ℕ) (v : IsValid q)
    → q.line_mode ≡ true
    → IsValid (push_line q bytes)
push_line-IsValid q bytes v line =
    let (kept, clean) = feed-keeps (keys bytes) q.interrupted q.echo q.line v.kept v.clean in
    record {
      fits = v.fits;
      in_step = v.in_step;
      front = v.front;
      short = ground (arith, v.short);
      plain = ground (arith, v.plain);
      lined = v.lined;
      quiet = λ h. absurd (ground (arith, h));
      idle = λ h. absurd (ground (arith, h));
      kept = kept;
      clean = clean;
    }

pub push-IsValid : (q : InputQueue) (bytes : List ℕ) (v : IsValid q) → IsValid (push q bytes)
unfolding push
push-IsValid q bytes v =
    if-IsValid q.line_mode _ _ (push_line-IsValid q bytes v) (push_raw-IsValid q bytes v)

-- Nothing but the serial sequence, without a Ctrl-C, is other than before.
sequence-IsValid :
    (q : InputQueue) (s : List ℕ) (since : ℕ) (v : IsValid q)
    → length s < sequence_max
    → has_interrupt s ≡ false
    → IsValid (record q { sequence = s; sequence_since = since })
sequence-IsValid q s since v short plain = record {
  fits = v.fits;
  in_step = v.in_step;
  front = v.front;
  short = short;
  plain = plain;
  lined = v.lined;
  quiet = v.quiet;
  idle = v.idle;
  kept = v.kept;
  clean = v.clean;
}

pub expire-IsValid : (q : InputQueue) (now : ℕ) (v : IsValid q) → IsValid (expire q now)
unfolding expire
expire-IsValid q now v =
    let taken = sequence-IsValid q [] q.sequence_since v (omega arith) refl in
    if-IsValid (length q.sequence == 0 || ltb (now - q.sequence_since) esc_timeout_ms) _ _ (λ _. v)
      (λ _.
        if-IsValid (length q.sequence == 1 && get_or q.sequence 0 0 == 27) _ _
          (λ _. push-IsValid (record q { sequence = [] }) q.sequence taken) (λ _. taken))

pub push_serial-IsValid :
    (q : InputQueue) (b now : ℕ) (v : IsValid q) → IsValid (push_serial q b now)
unfolding push_serial
push_serial-IsValid q b now v =
    let s = q.sequence ++ (b ∷ []) in
    let since = if length q.sequence == 0 then now else q.sequence_since in
    let taken = sequence-IsValid q [] since v (omega arith) refl in
    let alone = b == interrupt || (length q.sequence == 0 && not (b == 27)) in
    let done = (length s == 2 && not (get_or s 1 0 == 91)) || (ltb 2 (length s) && is_final b) in
    if-IsValid alone _ _ (λ _. push-IsValid q (b ∷ []) v)
      (λ (other : alone ≡ false).
        if-IsValid done _ _
          (λ _.
            if-IsValid (leb (length q.bytes + length s) queue_max) _ _
              (λ _. push-IsValid (record q { sequence = []; sequence_since = since }) s taken)
              (λ _. taken))
          (λ _.
            if-IsValid (leb sequence_max (length s)) _ _ (λ _. taken)
              (λ (shorter : leb sequence_max (length s) ≡ false).
                sequence-IsValid q s since v (ground arith)
                  (ground (arith, v.plain, any-append is_interrupt q.sequence (b ∷ []))))))

pub push_key-IsValid : (q : InputQueue) (e : KeyEvent) (v : IsValid q) → IsValid (push_key q e)
unfolding push_key
push_key-IsValid q e v =
    if-IsValid (not e.pressed) _ _ (λ _. v)
      (λ _. elim (Option-cases (sequence_of e.key)) [
        | inl plain ↦
            rw (plain, push_key)
              (elim (Option-cases (byte_of e)) [
                | inl nothing ↦ rw (nothing, push_key) v
                | inr (b, at) ↦ rw (at, push_key) (push-IsValid q (b ∷ []) v)
              ])
        | inr (s, at) ↦ rw (at, push_key) (if-IsValid _ _ _ (λ _. push-IsValid q s v) (λ _. v))
      ])
