-- ===== src/Prelude/Text/Decimal.antt =====
-- Decimal numbers, printed and read.
use Prim.Native.Nat.{ℕ, zero, suc, ◌+◌, ◌*◌, ◌/◌, ◌%◌, ◌^◌, ◌<◌}
use Prim.Native.Char.{Char, code}
use Prim.Native.String.{String, ◌++◌}
use mathlib.Core.Path.{◌≡◌, refl, ap, ◌∙◌}
use mathlib.Core.Bool.{Bool, true, false, ◌&&◌}
use mathlib.Core.Logic.{inl, inr}
use mathlib.Core.Option.{some}
use native.Mathlib.Omega.{arith}
use text.Mathlib.TextLemmas.{cons-append, nil-append, cons-ne-nil}
use text.Mathlib.TextEquality.{eq_iff}
use natbox.Prelude.Tests.{ltb, leb, ◌=ₛ◌, Bool-cases, Option-cases}
use natbox.Prelude.Int.{pos}
use natbox.Prelude.Text.{digit_char, itoa_fuel, itoa, digit_value?, digits_from, parse_int}

abbrev pub is_digit : ℕ → Bool
is_digit c = leb b'0' c && leb c b'9'

pub code-digit_char : (d : ℕ) → d < 10 → code (digit_char d) ≡ 48 + d
unfolding digit_char
code-digit_char zero h = refl
code-digit_char (suc zero) h = refl
code-digit_char (suc (suc zero)) h = refl
code-digit_char (suc (suc (suc zero))) h = refl
code-digit_char (suc (suc (suc (suc zero)))) h = refl
code-digit_char (suc (suc (suc (suc (suc zero))))) h = refl
code-digit_char (suc (suc (suc (suc (suc (suc zero)))))) h = refl
code-digit_char (suc (suc (suc (suc (suc (suc (suc zero))))))) h = refl
code-digit_char (suc (suc (suc (suc (suc (suc (suc (suc zero)))))))) h = refl
code-digit_char (suc (suc (suc (suc (suc (suc (suc (suc (suc zero))))))))) h = refl
code-digit_char (suc (suc (suc (suc (suc (suc (suc (suc (suc (suc n)))))))))) h =
    absurd (omega arith)

digit_value-digit_char : (d : ℕ) → d < 10 → digit_value? (digit_char d) ≡ some d
unfolding digit_value?
digit_value-digit_char d h = ground (arith, code-digit_char d)

pub digits_from-append :
    (acc m : ℕ) (s t : String)
    → digits_from acc s ≡ some m
    → digits_from acc (s ++ t) ≡ digits_from m t
unfolding digits_from
digits_from-append acc m String.[] t h = rw nil-append (ground arith)
digits_from-append acc m (String.◌∷◌ c s) t h =
    rw cons-append (elim (Option-cases (digit_value? c)) [
      | inl bad ↦ ground arith
      | inr (d, good) ↦ ground (arith, digits_from-append (acc * 10 + d) m s t)
    ])

digits_from-last :
    (m d : ℕ) → d < 10 → digits_from m (String.◌∷◌ (digit_char d) "") ≡ some (m * 10 + d)
unfolding digits_from
digits_from-last m d h = rw (digit_value-digit_char d h, digits_from)

digits_from-itoa_fuel : (f n : ℕ) → n < f → digits_from 0 (itoa_fuel f n) ≡ some n
unfolding itoa_fuel
digits_from-itoa_fuel zero n h = absurd (omega arith)
digits_from-itoa_fuel (suc f) n h = elim (Bool-cases (ltb n 10)) [
  | inl small ↦ rw small (digits_from-last 0 (n % 10) (omega arith) ∙ ground arith)
  | inr big ↦ rw big (
      digits_from-append 0 (n / 10) (itoa_fuel f (n / 10)) _
        (digits_from-itoa_fuel f (n / 10) (ground arith))
      ∙ digits_from-last (n / 10) (n % 10) (omega arith)
      ∙ ap some (omega arith))
]

-- A number begins with a digit.
head_digit :
    (f n : ℕ)
    → n < f
    → (c : Char) × (s : String) × (itoa_fuel f n ≡ String.◌∷◌ c s) × (is_digit (code c) ≡ true)
unfolding itoa_fuel
head_digit zero n h = absurd (omega arith)
head_digit (suc f) n h = elim (Bool-cases (ltb n 10)) [
  | inl small ↦ (digit_char (n % 10), "", rw small, ground (arith, code-digit_char (n % 10)))
  | inr big ↦
      let (c, s, e, d) = head_digit f (n / 10) (ground arith) in
      (c, s ++ String.◌∷◌ (digit_char (n % 10)) "", rw (big, e) (cons-append _ _ _), d)
]

-- The text of a number: a digit, behind which the rest reads back as the number.
itoa_shape :
    (n : ℕ)
    → (c : Char) × (s : String) × (itoa n ≡ String.◌∷◌ c s)
      × (is_digit (code c) ≡ true)
      × (digits_from 0 (String.◌∷◌ c s) ≡ some n)
itoa_shape n =
    let (c, s, e, d) = head_digit (suc n) n (omega arith) in
    (c, s, (unfold itoa in e), d, rw (← e) (digits_from-itoa_fuel (suc n) n (omega arith)))

pub cons_not_empty : (c : Char) (s : String) → (String.◌∷◌ c s =ₛ "") ≡ false
cons_not_empty c s = elim (Bool-cases (String.◌∷◌ c s =ₛ "")) [
  | inl same ↦ absurd (cons-ne-nil c s ((eq_iff (String.◌∷◌ c s) "").0 same))
  | inr differs ↦ differs
]

pub parse_int-itoa : (n : ℕ) → n < 2 ^ 63 → parse_int (itoa n) ≡ some (pos n)
unfolding parse_int
parse_int-itoa n h =
    let (c, s, e, d, read) = itoa_shape n in rw (e, cons_not_empty c s, read) (ground arith)

pub digits_from-itoa : (n : ℕ) → digits_from 0 (itoa n) ≡ some n
digits_from-itoa n = let (c, s, e, d, read) = itoa_shape n in rw e read

pub itoa_not_empty : (n : ℕ) → (itoa n =ₛ "") ≡ false
itoa_not_empty n = let (c, s, e, d, read) = itoa_shape n in rw e (cons_not_empty c s)
