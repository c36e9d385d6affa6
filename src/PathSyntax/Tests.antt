-- ===== src/PathSyntax/Tests.antt =====
-- Paths at concrete values: `/a/b` and others.
use relay_os.Prelude.{ℕ, ◌≡◌, refl, arith, true, false, List, [], ◌∷◌}
use relay_os.Errno.{einval, ok, err}
use relay_os.PathSyntax.{parent, name, parse, check_name, join}
use relay_os.PathSyntax.Names.{Checked, parse_checks}
use relay_os.PathSyntax.Print.{absolute_path, parse-absolute_path}

-- `a//../b/`
abbrev relative : List ℕ
relative = 97 ∷ 47 ∷ 47 ∷ 46 ∷ 46 ∷ 47 ∷ 98 ∷ 47 ∷ []

split_relative :
    parse relative
    ≡ ok record {
      absolute = false;
      components = name (97 ∷ []) ∷ parent ∷ name (98 ∷ []) ∷ [];
      trailing_slash = true;
    }
unfolding parse
split_relative = refl

no_dots : check_name (46 ∷ 46 ∷ []) ≡ err einval
unfolding check_name
no_dots = refl

joined : join (47 ∷ []) (97 ∷ []) ≡ 47 ∷ 97 ∷ []
unfolding join
joined = refl

parse_checks_example : Checked relative (parse relative)
parse_checks_example = parse_checks relative

parse-absolute_path_example :
    parse (absolute_path ((97 ∷ []) ∷ (98 ∷ 46 ∷ []) ∷ []))
    ≡ ok record {
      absolute = true;
      components = name (97 ∷ []) ∷ name (98 ∷ 46 ∷ []) ∷ [];
      trailing_slash = false;
    }
parse-absolute_path_example = parse-absolute_path (97 ∷ []) ((98 ∷ 46 ∷ []) ∷ []) refl (omega arith)
