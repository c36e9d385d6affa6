-- ===== src/Input/Tests.antt =====
-- The input queue at concrete bytes: a Ctrl-C among typed bytes, an arrow key over serial, and a
-- switch of modes.
use relay_os.Prelude.{ℕ, ◌≡◌, refl, true, false, List, [], ◌∷◌, take, length}
use relay_os.Line
use relay_os.Line.{hand_over, on_text, on_enter, on_interrupt, set_after_cr, take_all}
use relay_os.Input.{
  InputQueue, queue_max, new, keys, push, set_line_mode, to_line_mode, to_raw_mode, push_serial,
  push_key, up,
}
use relay_os.Input.Keys.{joined, AreKeys, keys-AreKeys}
use relay_os.Input.Bounds.{IsValid}
use relay_os.Input.Modes.{Reach, fresh, next, pushes, switches, Reach-ordered}
use relay_os.Input.Handback.{handed_back, to_raw_mode-content}

abbrev typed : List ℕ
typed = 97 ∷ 27 ∷ 91 ∷ 65 ∷ 98 ∷ []

cut : keys typed ≡ (97 ∷ []) ∷ (27 ∷ 91 ∷ 65 ∷ []) ∷ (98 ∷ []) ∷ []
unfolding keys
cut = refl

keys-AreKeys_example : (joined (keys typed) ≡ typed) × AreKeys (keys typed)
keys-AreKeys_example = keys-AreKeys typed

stopped : (push new (97 ∷ 3 ∷ 98 ∷ [])).bytes ≡ 3 ∷ 98 ∷ []
unfolding push new
stopped = refl

arrow : (push_serial (push_serial (push_serial new 27 0) 91 1) 65 2).bytes ≡ 27 ∷ 91 ∷ 65 ∷ []
unfolding push_serial push new
arrow = refl

pressed :
    (push_key new record {
      key = up;
      modifiers = record { shift = false; ctrl = false; alt = false; caps_lock_on = false };
      pressed = true;
    }).bytes
    ≡ 27 ∷ 91 ∷ 65 ∷ []
unfolding push_key push new
pressed = refl

abbrev in_line : InputQueue
in_line = push (set_line_mode (push new (104 ∷ [])) true).1 (105 ∷ 13 ∷ 106 ∷ [])

in_line-Reach : Reach in_line
in_line-Reach =
    next (next (next fresh (pushes new (104 ∷ []))) (switches (push new (104 ∷ [])) true))
      (pushes (set_line_mode (push new (104 ∷ [])) true).1 (105 ∷ 13 ∷ 106 ∷ []))

Reach-ordered_example : IsValid in_line
Reach-ordered_example = Reach-ordered in_line-Reach

back_again : (set_line_mode in_line false).1.bytes ≡ 104 ∷ 105 ∷ 10 ∷ 106 ∷ []
unfolding set_line_mode to_line_mode to_raw_mode push new keys set_after_cr take_all Line.input
    Line.new on_text on_enter hand_over
back_again = refl

in_line-mode : in_line.line_mode ≡ true
unfolding set_line_mode to_line_mode push new
in_line-mode = refl

to_raw_mode-content_example :
    ((set_line_mode in_line false).1.bytes ≡ take queue_max (handed_back in_line))
    × ((set_line_mode in_line false).1.echoed ≡ length (take queue_max (handed_back in_line)))
    × ((set_line_mode in_line false).1.line_mode ≡ false)
to_raw_mode-content_example = to_raw_mode-content in_line (Reach-ordered in_line-Reach) in_line-mode
