-- ===== src/Input/Modes.antt =====
-- kernel/src/input.rs: going from one mode to the other, and the invariant after any calls.
use relay_os.Prelude.{
  ℕ, ◌-◌, ◌≡◌, refl, ap, subst, inl, inr, arith, min, Bool, true, false, ◌&&◌, not, Option, List,
  [], ◌∷◌, ◌==◌, if◌then◌else◌, length, take, drop, length-drop, Bool-cases, List-cases,
}
use relay_os.Line
use relay_os.Line.{LineDiscipline, interrupt, take_all, set_after_cr, flattened}
use relay_os.Line.Bounds.{read-IsValid, take_all-IsValid, flag-IsValid, new-IsValid}
use relay_os.Line.Clean.{read-IsClean, take_all-clean, flag-IsClean}
use relay_os.Input.{
  InputQueue, new, feed, keys, push, to_line_mode, to_raw_mode, set_line_mode, pop,
  has_raw_interrupt, take_raw_interrupt, take_line_interrupt, take_line_interrupt_for, take_echo,
  read, push_serial, expire, KeyEvent, push_key,
}
use relay_os.Input.Bounds.{
  IsValid, only_first-drop, feed-keeps, push-IsValid, push_serial-IsValid, expire-IsValid,
  push_key-IsValid, if-IsValid,
}

-- The queue after `take_all`, in raw mode and without the Ctrl-C.
abbrev pub emptied : InputQueue → InputQueue
emptied q = record q { line_mode = false; line = (take_all q.line).1; interrupted = false }

emptied-IsValid : (q : InputQueue) (v : IsValid q) → IsValid (emptied q)
unfolding take_all
emptied-IsValid q v = record {
  fits = v.fits;
  in_step = v.in_step;
  front = v.front;
  short = v.short;
  plain = v.plain;
  lined = λ h. absurd (ground (arith, h));
  quiet = λ _. refl;
  idle = λ _. (refl, refl);
  kept = take_all-IsValid q.line;
  clean = (take_all-clean q.line v.clean).1;
}

echoed-IsValid : (q : InputQueue) (v : IsValid q) → IsValid (record q { echoed = length q.bytes })
echoed-IsValid q v = record {
  fits = v.fits;
  in_step = omega arith;
  front = v.front;
  short = v.short;
  plain = v.plain;
  lined = v.lined;
  quiet = v.quiet;
  idle = v.idle;
  kept = v.kept;
  clean = v.clean;
}

to_raw_mode-IsValid : (q : InputQueue) (v : IsValid q) → IsValid (to_raw_mode q)
unfolding to_raw_mode
to_raw_mode-IsValid q v =
    let e = emptied-IsValid q v in
    let stopped = if q.interrupted then push (emptied q) (interrupt ∷ []) else emptied q in
    let w : IsValid stopped =
      if-IsValid q.interrupted _ _ (λ _. push-IsValid (emptied q) (interrupt ∷ []) e) (λ _. e) in
    echoed-IsValid (push stopped (take_all q.line).0) (push-IsValid stopped (take_all q.line).0 w)

to_line_mode-IsValid : (q : InputQueue) (v : IsValid q) → IsValid (to_line_mode q)
unfolding to_line_mode set_after_cr
to_line_mode-IsValid q v =
    let quiet = min q.echoed (length q.bytes) in
    let fed = feed (keys (take quiet q.bytes)) q.interrupted [] (set_after_cr q.line q.taken_cr) in
    let (kept, clean) =
      feed-keeps (keys (take quiet q.bytes)) q.interrupted [] (set_after_cr q.line q.taken_cr)
        (flag-IsValid q.line q.taken_cr v.kept) (flag-IsClean q.line q.taken_cr v.clean) in
    let lined : InputQueue = record q {
      bytes = [];
      taken_cr = false;
      echoed = 0;
      line_mode = true;
      line = fed.2;
      interrupted = fed.0;
    } in
    let w : IsValid lined = record {
      fits = omega arith;
      in_step = omega arith;
      front = refl;
      short = v.short;
      plain = v.plain;
      lined = λ _. refl;
      quiet = λ h. absurd (ground (arith, h));
      idle = λ h. absurd (ground (arith, h));
      kept = kept;
      clean = clean;
    } in
    push-IsValid lined (drop quiet q.bytes) w

set_line_mode-IsValid :
    (q : InputQueue) (line : Bool) (v : IsValid q) → IsValid (set_line_mode q line).1
unfolding set_line_mode
set_line_mode-IsValid q line v =
    if-IsValid (line && not q.line_mode) _ _ (λ _. to_line_mode-IsValid q v)
      (λ (stays : (line && not q.line_mode) ≡ false).
        if-IsValid (not line && q.line_mode) _ _ (λ _. to_raw_mode-IsValid q v)
          (λ (same : (not line && q.line_mode) ≡ false).
            let mode : q.line_mode ≡ line = ground arith in
            subst (λ m. IsValid (record q { line_mode = m })) mode v))

taken-IsValid : (q : InputQueue) (v : IsValid q) → IsValid (record q { interrupted = false })
taken-IsValid q v = record {
  fits = v.fits;
  in_step = v.in_step;
  front = v.front;
  short = v.short;
  plain = v.plain;
  lined = v.lined;
  quiet = λ _. refl;
  idle = v.idle;
  kept = v.kept;
  clean = v.clean;
}

read-raw_IsValid :
    (q : InputQueue) (n : ℕ) (cr : Bool) (v : IsValid q)
    → IsValid (record q { bytes = drop n q.bytes; taken_cr = cr; echoed = q.echoed - n })
read-raw_IsValid q n cr v = record {
  fits = omega (arith, v.fits, length-drop n q.bytes);
  in_step = omega (arith, v.in_step, length-drop n q.bytes);
  front = only_first-drop n q.bytes v.front;
  short = v.short;
  plain = v.plain;
  lined = λ h. omega (arith, v.lined h, length-drop n q.bytes);
  quiet = v.quiet;
  idle = v.idle;
  kept = v.kept;
  clean = v.clean;
}

pop-IsValid : (q : InputQueue) (v : IsValid q) → IsValid (pop q).1
unfolding pop
pop-IsValid q v = elim (List-cases q.bytes) [
  | inl empty ↦ rw (empty, pop) v
  | inr (b, bytes, e) ↦
      rw (e, pop)
        (subst (λ t. IsValid (record q { bytes = t; taken_cr = b == 13; echoed = q.echoed - 1 }))
          (ap (drop 1) e) (read-raw_IsValid q 1 (b == 13) v))
]

if-IsValid_read :
    (c : Bool) (x y : Option (List ℕ) × InputQueue)
    → (c ≡ true → IsValid x.1)
    → (c ≡ false → IsValid y.1)
    → IsValid (if c then x else y).1
if-IsValid_read true x y v w = v refl
if-IsValid_read false x y v w = w refl

read-IsValid_queue : (q : InputQueue) (room : ℕ) (v : IsValid q) → IsValid (read q room).1
unfolding read
read-IsValid_queue q room v =
    if-IsValid_read q.line_mode _ _
      (λ line. record {
        fits = v.fits;
        in_step = v.in_step;
        front = v.front;
        short = v.short;
        plain = v.plain;
        lined = v.lined;
        quiet = v.quiet;
        idle = λ h. absurd (ground (arith, h, line));
        kept = read-IsValid q.line room v.kept;
        clean = read-IsClean q.line room v.clean;
      })
      (λ raw.
        if-IsValid_read (room == 0) _ _ (λ _. v)
          (λ _.
            if-IsValid_read (length q.bytes == 0) _ _ (λ _. v)
              (λ _. read-raw_IsValid q (min room (length q.bytes)) _ v)))

echo-IsValid : (q : InputQueue) (v : IsValid q) → IsValid (record q { echo = [] })
echo-IsValid q v = record {
  fits = v.fits;
  in_step = v.in_step;
  front = v.front;
  short = v.short;
  plain = v.plain;
  lined = v.lined;
  quiet = v.quiet;
  idle = v.idle;
  kept = v.kept;
  clean = v.clean;
}

-- One call of the queue.
pub data Step : InputQueue → InputQueue → Type 0 where
  pushes : (q : InputQueue) (bytes : List ℕ) → Step q (push q bytes)
  serial : (q : InputQueue) (b now : ℕ) → Step q (push_serial q b now)
  expires : (q : InputQueue) (now : ℕ) → Step q (expire q now)
  keyed : (q : InputQueue) (e : KeyEvent) → Step q (push_key q e)
  switches : (q : InputQueue) (line : Bool) → Step q (set_line_mode q line).1
  pops : (q : InputQueue) → Step q (pop q).1
  reads : (q : InputQueue) (room : ℕ) → Step q (read q room).1
  raw_taken : (q : InputQueue) → Step q (take_raw_interrupt q).1
  line_taken : (q : InputQueue) (alive : Bool) → Step q (take_line_interrupt_for q alive).1
  echo_taken : (q : InputQueue) → Step q (take_echo q).1

pub data Reach : InputQueue → Type 0 where
  fresh : Reach new
  next : {q q' : InputQueue} → Reach q → Step q q' → Reach q'

fresh-IsValid : IsValid new
unfolding new Line.new
fresh-IsValid = record {
  fits = omega arith;
  in_step = omega arith;
  front = refl;
  short = omega arith;
  plain = refl;
  lined = λ _. refl;
  quiet = λ _. refl;
  idle = λ _. (refl, refl);
  kept = new-IsValid;
  clean = record { ready_clean = refl; line_clean = refl };
}

Step-IsValid : {q q' : InputQueue} → Step q q' → IsValid q → IsValid q'
unfolding take_raw_interrupt take_line_interrupt_for take_line_interrupt take_echo
Step-IsValid (pushes q bytes) v = push-IsValid q bytes v
Step-IsValid (serial q b now) v = push_serial-IsValid q b now v
Step-IsValid (expires q now) v = expire-IsValid q now v
Step-IsValid (keyed q e) v = push_key-IsValid q e v
Step-IsValid (switches q line) v = set_line_mode-IsValid q line v
Step-IsValid (pops q) v = pop-IsValid q v
Step-IsValid (reads q room) v = read-IsValid_queue q room v
Step-IsValid (raw_taken q) v = elim (Bool-cases (has_raw_interrupt q)) [
  | inl there ↦ rw (there, take_raw_interrupt) (pop-IsValid q v)
  | inr not_there ↦ rw (not_there, take_raw_interrupt) v
]
Step-IsValid (line_taken q true) v = taken-IsValid q v
Step-IsValid (line_taken q false) v = v
Step-IsValid (echo_taken q) v = echo-IsValid q v

-- After any sequence of calls: at most `QUEUE_MAX` raw bytes, and none in line mode; only the first of
-- them can be a Ctrl-C, and no line holds one; the bytes echoed already are among them; the serial
-- sequence is shorter than `SEQUENCE_MAX`; in raw mode the line discipline keeps nothing.
pub Reach-ordered : {q : InputQueue} → Reach q → IsValid q
Reach-ordered fresh = fresh-IsValid
Reach-ordered (next r s) = Step-IsValid s (Reach-ordered r)
