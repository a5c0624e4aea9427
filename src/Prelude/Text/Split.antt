-- ===== src/Prelude/Text/Split.antt =====
-- Splitting a text at a separator that its parts do not hold.
use Prim.Native.Nat.{ℕ, zero, suc, ◌<◌, ◌/◌, ◌%◌}
use Prim.Native.Char.{Char, code}
use Prim.Native.String.{String, ◌++◌}
use mathlib.Core.Path.{◌≡◌, refl}
use mathlib.Core.Bool.{Bool, true, false, ◌&&◌, not}
use mathlib.Core.Logic.{inl, inr}
use mathlib.Core.List.{[], ◌∷◌}
use native.Mathlib.Omega.{arith}
use text.Mathlib.TextLemmas.{cons-append, nil-append}
use natbox.Prelude.Tests.{ltb, ◌==◌, Bool-cases}
use natbox.Prelude.Text.{split_on, add_to_first, digit_char, itoa_fuel, itoa}
use natbox.Prelude.Text.Decimal.{code-digit_char}

-- The character is not in the text.
unfoldable pub lacks : ℕ → String → Bool
lacks sep String.[] = true
lacks sep (String.◌∷◌ c s) = not (code c == sep) && lacks sep s

pub split_on-lacks : (sep : ℕ) (s : String) → lacks sep s ≡ true → split_on sep s ≡ s ∷ []
unfolding lacks split_on
split_on-lacks sep String.[] h = refl
split_on-lacks sep (String.◌∷◌ c s) h = elim (Bool-cases (code c == sep)) [
  | inl same ↦ ground arith
  | inr differs ↦ rw (differs, split_on-lacks sep s (ground arith), add_to_first)
]

pub split_on-append :
    (sep : ℕ) (c : Char) (s t : String)
    → code c ≡ sep
    → lacks sep s ≡ true
    → split_on sep (s ++ String.◌∷◌ c t) ≡ s ∷ split_on sep t
unfolding lacks split_on
split_on-append sep c String.[] t e h = rw nil-append (ground arith)
split_on-append sep c (String.◌∷◌ x s) t e h = rw cons-append (
    let differs : (code x == sep) ≡ false = ground arith in
    rw (differs, split_on-append sep c s t e (ground arith), add_to_first))

pub lacks-append :
    (sep : ℕ) (s t : String) → lacks sep s ≡ true → lacks sep t ≡ true → lacks sep (s ++ t) ≡ true
unfolding lacks
lacks-append sep String.[] t h k = rw nil-append k
lacks-append sep (String.◌∷◌ c s) t h k = rw cons-append (ground (arith, lacks-append sep s t))

lacks-itoa_fuel : (sep f n : ℕ) → 57 < sep → lacks sep (itoa_fuel f n) ≡ true
unfolding lacks itoa_fuel
lacks-itoa_fuel sep zero n h = refl
lacks-itoa_fuel sep (suc f) n h =
    let last : lacks sep (String.◌∷◌ (digit_char (n % 10)) "") ≡ true =
      ground (arith, code-digit_char (n % 10)) in
    elim (Bool-cases (ltb n 10)) [
      | inl small ↦ rw small last
      | inr big ↦
          rw big (lacks-append sep (itoa_fuel f (n / 10)) _ (lacks-itoa_fuel sep f (n / 10) h) last)
    ]

pub lacks-itoa : (sep n : ℕ) → 57 < sep → lacks sep (itoa n) ≡ true
unfolding itoa
lacks-itoa sep n h = lacks-itoa_fuel sep (suc n) n h
