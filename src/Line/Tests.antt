-- ===== src/Line/Tests.antt =====
-- The line discipline at concrete keys: two characters, one erased, Enter as CR LF, and reads.
use relay_os.Prelude.{ℕ, ◌≡◌, refl, List, [], ◌∷◌, ◌++◌}
use relay_os.Line.{new, hand_over, on_enter, on_text, input, read}
use relay_os.Line.Bounds.{IsValid, fresh, next, typed, reads, Reach-kept}
use relay_os.Line.Delivery.{Request, key, reading, run, content, run-content}

abbrev session : List Request
session =
    key (104 ∷ [])
    ∷ key (105 ∷ [])
    ∷ key (27 ∷ 91 ∷ 65 ∷ [])
    ∷ key (13 ∷ [])
    ∷ key (10 ∷ [])
    ∷ reading 2
    ∷ key (120 ∷ [])
    ∷ reading 8
    ∷ reading 8
    ∷ []

session_read : (run new session []).0 ≡ 104 ∷ 105 ∷ 10 ∷ []
unfolding new input on_text on_enter hand_over read
session_read = refl

session_echo : (run new session []).1 ≡ 104 ∷ 105 ∷ 10 ∷ 120 ∷ []
unfolding new input on_text on_enter hand_over read
session_echo = refl

run-content_example :
    (shown : List ℕ) × ((run new session []).1 ≡ [] ++ shown)
    × ((run new session []).0 ++ content (run new session []).2 ≡ content new ++ shown)
run-content_example = run-content new session [] refl

Reach-kept_example : IsValid (read (input new (104 ∷ []) []).2 4).1
Reach-kept_example =
    Reach-kept (next (next fresh (typed new (104 ∷ []) [])) (reads (input new (104 ∷ []) []).2 4))
