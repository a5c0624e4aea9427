-- ===== src/Prelude/Text/Cut.antt =====
-- Trimming and cutting a text at one character, as Go's package strings does.
use Prim.Native.Nat.{ℕ}
use Prim.Native.Char.{Char, code}
use Prim.Native.String.{String, ◌++◌}
use mathlib.Core.Path.{◌≡◌, refl}
use mathlib.Core.Bool.{false, ◌&&◌}
use mathlib.Core.Option.{Option, none, some}
use native.Mathlib.Omega.{arith}
use text.Mathlib.TextLemmas.{cons-append, nil-append}
use natbox.Prelude.Tests.{◌==◌, ◌=ₛ◌, if◌then◌else◌}
use natbox.Prelude.Text.Decimal.{cons_not_empty}

unfoldable pub trim_left_of : ℕ → String → String
trim_left_of c String.[] = ""
trim_left_of c (String.◌∷◌ x s) = if code x == c then trim_left_of c s else String.◌∷◌ x s

unfoldable pub trim_right_of : ℕ → String → String
trim_right_of c String.[] = ""
trim_right_of c (String.◌∷◌ x s) =
    let rest = trim_right_of c s in if rest =ₛ "" && code x == c then "" else String.◌∷◌ x rest

-- strings.Trim for one character.
unfoldable pub trim_of : ℕ → String → String
unfolding trim_left_of trim_right_of
trim_of c s = trim_right_of c (trim_left_of c s)

-- strings.TrimSuffix for one character.
unfoldable pub trim_last : ℕ → String → String
trim_last c String.[] = ""
trim_last c (String.◌∷◌ x s) =
    let rest = trim_last c s in if s =ₛ "" && code x == c then "" else String.◌∷◌ x rest

append_not_empty : (s t : String) → (t =ₛ "") ≡ false → (s ++ t =ₛ "") ≡ false
append_not_empty String.[] t h = rw nil-append h
append_not_empty (String.◌∷◌ x s) t h = rw cons-append (cons_not_empty x (s ++ t))

pub ended_not_empty : (c : Char) (s : String) → (s ++ String.◌∷◌ c "" =ₛ "") ≡ false
ended_not_empty c s = append_not_empty s (String.◌∷◌ c "") (cons_not_empty c "")

-- A suffix that is there.
pub trim_last-append : (c : Char) (s : String) → trim_last (code c) (s ++ String.◌∷◌ c "") ≡ s
unfolding trim_last
trim_last-append c String.[] = rw nil-append (ground arith)
trim_last-append c (String.◌∷◌ x s) =
    rw (cons-append, trim_last-append c s, ended_not_empty c s) refl

abbrev push_front : Option (String × String) → Char → Option (String × String)
push_front none x = none
push_front (some (before, after)) x = some (String.◌∷◌ x before, after)

-- strings.Cut at one character: what is before and behind its first occurrence.
unfoldable pub cut_at : ℕ → String → Option (String × String)
cut_at c String.[] = none
cut_at c (String.◌∷◌ x s) =
    let rest = cut_at c s in if code x == c then some ("", s) else push_front rest x
