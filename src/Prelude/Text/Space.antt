-- ===== src/Prelude/Text/Space.antt =====
-- Texts with no white space, which strings.TrimSpace leaves.
use Prim.Native.Char.{code}
use Prim.Native.String.{String, ◌++◌}
use mathlib.Core.Path.{◌≡◌, refl, sym, ap, ◌∙◌}
use mathlib.Core.Bool.{Bool, true, false, ◌&&◌, not}
use native.Mathlib.Omega.{arith}
use text.Mathlib.TextLemmas.{cons-append, nil-append}
use natbox.Prelude.Text.{is_space, trim_left, trim_right, trim_space}

unfoldable pub spaceless : String → Bool
spaceless String.[] = true
spaceless (String.◌∷◌ c s) = not (is_space (code c)) && spaceless s

pub spaceless-append :
    (s t : String) → spaceless s ≡ true → spaceless t ≡ true → spaceless (s ++ t) ≡ true
unfolding spaceless
spaceless-append String.[] t h k = rw nil-append k
spaceless-append (String.◌∷◌ c s) t h k = rw cons-append (ground (arith, spaceless-append s t))

line_right : trim_right ("" ++ "\n") ≡ ""
unfolding trim_right is_space
line_right = refl

line_space : trim_space ("" ++ "\n") ≡ ""
unfolding trim_space
line_space = refl

trim_right-line : (s : String) → spaceless s ≡ true → trim_right (s ++ "\n") ≡ s
unfolding spaceless trim_right
trim_right-line String.[] h = line_right
trim_right-line (String.◌∷◌ c s) h = rw cons-append (ground (arith, trim_right-line s))

-- A line of such a text, with the line break at its end.
pub trim_space-line : (s : String) → spaceless s ≡ true → trim_space (s ++ "\n") ≡ s
unfolding spaceless trim_space trim_left
trim_space-line String.[] h = line_space
trim_space-line (String.◌∷◌ c s) h =
    let start : is_space (code c) ≡ false = ground arith in
    rw (cons-append, start)
      (sym (ap trim_right (cons-append c s "\n")) ∙ trim_right-line (String.◌∷◌ c s) h)
