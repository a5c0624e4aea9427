-- ===== src/Auth/Compare.antt =====
-- admin_auth.go: the comparison of two texts in constant time, over their bytes.
use Prim.Native.Nat.{bit_or, bit_xor}
use natbox.Prelude.{
  ℕ, ◌<◌, ◌≡◌, ◌↔◌, refl, ap, Bool, true, false, ◌&&◌, List, [], ◌∷◌, arith, length, All, ltb, ◌==◌,
  ==_iff, if◌then◌else◌, Bool-cases, inl, inr, passes_under, passes_under-lookup,
}

abbrev pub Bytes : Type 0
Bytes = List ℕ

abbrev pub AreBytes : Bytes → Type 0
AreBytes = All (λ b. b < 256)

-- The loop: `difference |= left[index] ^ right[index]`. The source ranges over the characters of `left`,
-- which are its bytes for the texts that it is given: random tokens in base64.
unfoldable pub differences : ℕ → Bytes → Bytes → ℕ
differences d (a ∷ left) (b ∷ right) = differences (bit_or d (bit_xor a b)) left right
differences d _ _ = d

unfoldable pub subtle_constant_compare : Bytes → Bytes → Bool
unfolding differences
subtle_constant_compare left right =
    if length left == length right then differences 0 left right == 0 else false

abbrev same : Bool → Bool → Bool
same true b = b
same false true = false
same false false = true

-- On bytes: an exclusive or is a byte, and zero only for equal ones.
abbrev xor_law : ℕ → ℕ → Bool
xor_law a b = ltb (bit_xor a b) 256 && same (bit_xor a b == 0) (a == b)

-- A disjunction is a byte, and zero only for two zeros.
abbrev or_law : ℕ → ℕ → Bool
or_law a b = ltb (bit_or a b) 256 && same (bit_or a b == 0) (a == 0 && b == 0)

xor_table : passes_under (λ a. passes_under (xor_law a) 256) 256 ≡ true
unfolding passes_under
xor_table = refl

or_table : passes_under (λ a. passes_under (or_law a) 256) 256 ≡ true
unfolding passes_under
or_table = refl

xor_lem : (a b : ℕ) → a < 256 → b < 256 → xor_law a b ≡ true
xor_lem a b h k = passes_under-lookup (xor_law a) 256 b k (passes_under-lookup _ 256 a h xor_table)

or_lem : (a b : ℕ) → a < 256 → b < 256 → or_law a b ≡ true
or_lem a b h k = passes_under-lookup (or_law a) 256 b k (passes_under-lookup _ 256 a h or_table)

-- The loop ends with zero exactly if it began so and met no difference.
differences_lem :
    (d : ℕ) (left right : Bytes)
    → d < 256
    → AreBytes left
    → AreBytes right
    → length left ≡ length right
    → (differences d left right ≡ 0) ↔ ((d ≡ 0) × (left ≡ right))
unfolding differences
differences_lem d [] [] h bl br e = ((λ z. (z, refl)), λ p. p.0)
differences_lem d [] (b ∷ right) h bl br e = absurd (omega arith)
differences_lem d (a ∷ left) [] h bl br e = absurd (omega arith)
differences_lem d (a ∷ left) (b ∷ right) h bl br e =
    let x = xor_lem a b bl.0 br.0 in
    let small : bit_xor a b < 256 = ground arith in
    let o = or_lem d (bit_xor a b) h small in
    let ih =
      differences_lem (bit_or d (bit_xor a b)) left right (ground arith) bl.1 br.1 (omega arith) in
    (
      (λ z.
          let rest = ih.0 z in
          let none_set : d ≡ 0 = ground arith in
          let equal : a ≡ b = ground arith in (none_set, ground arith)),
      λ p.
          let heads : a ≡ b = ground arith in
          let tails : left ≡ right = ground arith in ih.1 (ground arith, tails),
    )

-- On byte texts, subtleConstantCompare is equality, although it looks at every byte of both.
pub subtle_constant_compare-eq :
    (left right : Bytes)
    → AreBytes left
    → AreBytes right
    → (subtle_constant_compare left right ≡ true) ↔ (left ≡ right)
unfolding subtle_constant_compare
subtle_constant_compare-eq left right bl br = elim (Bool-cases (length left == length right)) [
  | inl long ↦
      let e : length left ≡ length right = ground arith in
      let law = differences_lem 0 left right (omega arith) bl br e in
      rw long (
        (λ z. (law.0 ((==_iff (differences 0 left right) 0).0 z)).1),
        λ p. (==_iff (differences 0 left right) 0).1 (law.1 (refl, p)),
      )
  | inr short ↦
      rw short ((λ z. cc), λ p. cc (short, (==_iff (length left) (length right)).1 (ap length p)))
]
