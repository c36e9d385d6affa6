-- ===== src/Term/Ansi/Tests.antt =====
-- The parser at concrete bytes: `é` and a colour sequence.
use relay_os.Prelude.{ℕ, ◌≡◌, refl, false, List, [], ◌∷◌, replicate}
use relay_os.Term.Ansi.{
  print, control_sequence, new, in_ground, in_utf8, in_csi, advance, advance_all,
}
use relay_os.Term.Ansi.Utf8.{encode_all, text-prints}
use relay_os.Term.Ansi.Bounds.{Good, new-IsValid, advance_all-Good}

abbrev text : List ℕ
text = 97 ∷ 233 ∷ 0x20AC ∷ 0x1F600 ∷ []

coloured :
    (advance_all new (27 ∷ 91 ∷ 49 ∷ 59 ∷ 51 ∷ 49 ∷ 109 ∷ [])).0
    ≡ control_sequence (1 ∷ 31 ∷ replicate 6 0) 2 false 109 ∷ []
unfolding advance in_ground in_csi new
coloured = refl

cut_short : (advance_all new (195 ∷ 97 ∷ [])).0 ≡ print 63 ∷ print 97 ∷ []
unfolding advance in_ground in_utf8 new
cut_short = refl

text-prints_example :
    advance_all new (encode_all text) ≡ (print 97 ∷ print 233 ∷ print 63 ∷ print 63 ∷ [], new)
unfolding new
text-prints_example = text-prints new text refl refl

advance_all-Good_example : Good (advance_all new (27 ∷ 91 ∷ 49 ∷ 109 ∷ 195 ∷ 169 ∷ []))
advance_all-Good_example =
    advance_all-Good new (27 ∷ 91 ∷ 49 ∷ 109 ∷ 195 ∷ 169 ∷ []) new-IsValid refl
