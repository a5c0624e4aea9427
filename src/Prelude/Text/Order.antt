-- ===== src/Prelude/Text/Order.antt =====
-- The order of texts is total and transitive.
use Prim.Native.Nat.{Ordering, compare as compare_ℕ}
use Prim.Native.Char.{Char, code}
use Prim.Native.String.{String, compare, then}
use Prim.Native.String.compare
use mathlib.Core.Path.{◌≡◌, refl, sym, ap, ◌∙◌}
use mathlib.Core.Bool.{Bool, true, false}
use mathlib.Core.Logic.{◌⊎◌, inl, inr}
use native.Mathlib.Omega.{arith}
use text.Mathlib.TextEquality.{Char-path}
use natbox.Prelude.Tests.{str_le}

-- Two texts by their first characters, and then by the rest.
abbrev le_by : Ordering → Bool → Bool
le_by Ordering.lt b = true
le_by Ordering.eq b = b
le_by Ordering.gt b = false

abbrev not_after : Ordering → Bool
not_after Ordering.gt = false
not_after o = true

le_then : (o r : Ordering) → not_after (then o r) ≡ le_by o (not_after r)
le_then Ordering.lt r = refl
le_then Ordering.eq r = refl
le_then Ordering.gt r = refl

cons_le :
    (c d : Char) (s t : String)
    → str_le (String.◌∷◌ c s) (String.◌∷◌ d t) ≡ le_by (compare_ℕ (code c) (code d)) (str_le s t)
cons_le c d s t =
    ap not_after (compare.cons-cons c d s t) ∙ (le_then (compare_ℕ (code c) (code d)) (compare s t))

nil_le : (s : String) → str_le "" s ≡ true
nil_le String.[] = refl
nil_le (String.◌∷◌ c s) = ap not_after (compare.nil-cons c s)

cons_nil : (c : Char) (s : String) → str_le (String.◌∷◌ c s) "" ≡ false
cons_nil c s = ap not_after (compare.cons-nil c s)

pub str_le_total : (s t : String) → (str_le s t ≡ true) ⊎ (str_le t s ≡ true)
str_le_total String.[] t = inl (nil_le t)
str_le_total (String.◌∷◌ c s) String.[] = inr (nil_le (String.◌∷◌ c s))
str_le_total (String.◌∷◌ c s) (String.◌∷◌ d t) =
    rw (cons_le c d s t, cons_le d c t s) (ground (arith, str_le_total s t))

pub str_le_trans : (s t u : String) → str_le s t ≡ true → str_le t u ≡ true → str_le s u ≡ true
str_le_trans String.[] t u h k = nil_le u
str_le_trans (String.◌∷◌ c s) String.[] u h k = ground (arith, cons_nil c s, h)
str_le_trans (String.◌∷◌ c s) (String.◌∷◌ d t) String.[] h k = ground (arith, cons_nil d t, k)
str_le_trans (String.◌∷◌ c s) (String.◌∷◌ d t) (String.◌∷◌ e u) h k =
    let left : le_by (compare_ℕ (code c) (code d)) (str_le s t) ≡ true =
      sym (cons_le c d s t) ∙ h in
    let right : le_by (compare_ℕ (code d) (code e)) (str_le t u) ≡ true =
      sym (cons_le d e t u) ∙ k in
    cons_le c e s u ∙ ground (arith, left, right, str_le_trans s t u)

pub str_le_antisym : (s t : String) → str_le s t ≡ true → str_le t s ≡ true → s ≡ t
str_le_antisym String.[] String.[] h k = refl
str_le_antisym String.[] (String.◌∷◌ d t) h k = ground (arith, cons_nil d t, k)
str_le_antisym (String.◌∷◌ c s) String.[] h k = ground (arith, cons_nil c s, h)
str_le_antisym (String.◌∷◌ c s) (String.◌∷◌ d t) h k =
    let left : le_by (compare_ℕ (code c) (code d)) (str_le s t) ≡ true =
      sym (cons_le c d s t) ∙ h in
    let right : le_by (compare_ℕ (code d) (code c)) (str_le t s) ≡ true =
      sym (cons_le d c t s) ∙ k in
    let same : code c ≡ code d = ground (arith, left, right) in
    let rest : s ≡ t =
      str_le_antisym s t (ground (arith, left, right)) (ground (arith, left, right)) in
    ap (λ x. String.◌∷◌ x s) (Char-path c d same) ∙ ap (String.◌∷◌ d) rest
