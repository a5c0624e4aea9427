-- ===== src/Prelude/Text/Fields.antt =====
-- Splitting a text into its words at white space.
use Prim.Native.Nat.{ℕ, zero, suc, ◌<◌, ◌/◌, ◌%◌}
use Prim.Native.Char.{Char, code}
use Prim.Native.String.{String, ◌++◌}
use mathlib.Core.Path.{◌≡◌, refl}
use mathlib.Core.Bool.{true, false}
use mathlib.Core.Logic.{inl, inr}
use mathlib.Core.List.{List, [], ◌∷◌}
use native.Mathlib.Omega.{arith}
use text.Mathlib.TextLemmas.{cons-append, nil-append}
use natbox.Prelude.Tests.{ltb, ◌=ₛ◌, Bool-cases, if◌then◌else◌}
use natbox.Prelude.Text.{is_space, digit_char, itoa_fuel, itoa}
use natbox.Prelude.Text.Space.{spaceless, spaceless-append}
use natbox.Prelude.Text.Decimal.{code-digit_char}

add_char : Char → List String → List String
add_char c [] = String.◌∷◌ c "" ∷ []
add_char c (word ∷ words) = String.◌∷◌ c word ∷ words

split_space : String → List String
unfolding is_space add_char
split_space String.[] = "" ∷ []
split_space (String.◌∷◌ c s) =
    let rest = split_space s in if is_space (code c) then "" ∷ rest else add_char c rest

not_empty : List String → List String
not_empty [] = []
not_empty (word ∷ words) = if word =ₛ "" then not_empty words else word ∷ not_empty words

-- strings.Fields
unfoldable pub fields : String → List String
unfolding split_space not_empty
fields s = not_empty (split_space s)

split_space-word : (s : String) → spaceless s ≡ true → split_space s ≡ s ∷ []
unfolding spaceless split_space
split_space-word String.[] h = refl
split_space-word (String.◌∷◌ c s) h =
    let differs : is_space (code c) ≡ false = ground arith in
    rw (differs, split_space-word s (ground arith), add_char)

split_space-append :
    (c : Char) (s t : String)
    → is_space (code c) ≡ true
    → spaceless s ≡ true
    → split_space (s ++ String.◌∷◌ c t) ≡ s ∷ split_space t
unfolding spaceless split_space
split_space-append c String.[] t e h = rw (nil-append, e) refl
split_space-append c (String.◌∷◌ x s) t e h = rw cons-append (
    let differs : is_space (code x) ≡ false = ground arith in
    rw (differs, split_space-append c s t e (ground arith), add_char))

-- White space in front of a text.
pub fields-space :
    (c : Char) (t : String) → is_space (code c) ≡ true → fields (String.◌∷◌ c t) ≡ fields t
unfolding fields split_space
fields-space c t e = rw (e, not_empty) refl

-- One word.
pub fields-word : (s : String) → (s =ₛ "") ≡ false → spaceless s ≡ true → fields s ≡ s ∷ []
unfolding fields
fields-word s n h = rw (split_space-word s h, not_empty, n) refl

-- A word in front of white space.
pub fields-append :
    (c : Char) (s t : String)
    → is_space (code c) ≡ true
    → (s =ₛ "") ≡ false
    → spaceless s ≡ true
    → fields (s ++ String.◌∷◌ c t) ≡ s ∷ fields t
unfolding fields
fields-append c s t e n h = rw (split_space-append c s t e h, not_empty, n) refl

digit-spaceless : (d : ℕ) → d < 10 → spaceless (String.◌∷◌ (digit_char d) "") ≡ true
unfolding spaceless is_space
digit-spaceless d h = ground (arith, code-digit_char d)

itoa_fuel-spaceless : (f n : ℕ) → spaceless (itoa_fuel f n) ≡ true
unfolding itoa_fuel spaceless
itoa_fuel-spaceless zero n = refl
itoa_fuel-spaceless (suc f) n =
    let last = digit-spaceless (n % 10) (omega arith) in
    elim (Bool-cases (ltb n 10)) [
      | inl small ↦ rw small last
      | inr big ↦
          rw big (spaceless-append (itoa_fuel f (n / 10)) _ (itoa_fuel-spaceless f (n / 10)) last)
    ]

pub itoa-spaceless : (n : ℕ) → spaceless (itoa n) ≡ true
unfolding itoa
itoa-spaceless n = itoa_fuel-spaceless (suc n) n
