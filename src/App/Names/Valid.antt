-- ===== src/App/Names/Valid.antt =====
-- main.go: the names that bulkNames returns.
use Prim.Native.String.{len}
use Prim.Native.String.len
use Prim.Native.Nat.{◌/◌, ◌%◌}
use text.Mathlib.TextLemmas.{cons-append, nil-append}
use text.Mathlib.TextPositions.{len_utf8-pos}
use natbox.Prelude.{
  Char, ℕ, zero, suc, ◌+◌, ◌-◌, ◌≤◌, ◌≡◌, refl, sym, ap, ◌∙◌, Bool, true, false, ◌&&◌, ◌||◌, String,
  ◌+ₛ◌, List, [], ◌∷◌, ◌++◌, arith, ℤ, pos, pos_part, ltb, ◌=ₛ◌, eq_iff, any, All, length, code,
  count_chars, itoa, itoa_fuel, digit_char, name_pattern, name_tail, is_name_char, ok, Bool-cases,
  inl, inr,
}
use natbox.Prelude.Text.Decimal.{code-digit_char}
use natbox.Incus.Runner.{valid_name}
use natbox.App.Names.{zeros, pad, bulk_loop, bulk_names, bulk_width}

-- Every character is a letter, a digit, a dot or a hyphen.
name_chars : String → Bool
name_chars String.[] = true
name_chars (String.◌∷◌ c s) = is_name_char (code c) && name_chars s

name_tail-split :
    (n : ℕ) (s : String) → name_tail n s ≡ true → (name_chars s ≡ true) × (count_chars s ≤ n)
unfolding name_tail name_chars count_chars
name_tail-split n String.[] h = (refl, omega arith)
name_tail-split zero (String.◌∷◌ c s) h = cc
name_tail-split (suc n) (String.◌∷◌ c s) h = ground (arith, name_tail-split n s)

name_tail-join :
    (n : ℕ) (s : String) → name_chars s ≡ true → count_chars s ≤ n → name_tail n s ≡ true
unfolding name_tail name_chars count_chars
name_tail-join n String.[] h k = refl
name_tail-join zero (String.◌∷◌ c s) h k = absurd (omega arith)
name_tail-join (suc n) (String.◌∷◌ c s) h k = ground (arith, name_tail-join n s)

name_chars-append :
    (s t : String) → name_chars s ≡ true → name_chars t ≡ true → name_chars (s +ₛ t) ≡ true
unfolding name_chars
name_chars-append String.[] t h k = rw nil-append k
name_chars-append (String.◌∷◌ c s) t h k = rw cons-append (ground (arith, name_chars-append s t))

count_chars-append : (s t : String) → count_chars (s +ₛ t) ≡ count_chars s + count_chars t
unfolding count_chars
count_chars-append String.[] t = rw nil-append (omega arith)
count_chars-append (String.◌∷◌ c s) t = rw cons-append (omega (arith, count_chars-append s t))

-- A text has at most as many characters as bytes.
count_chars-le-len : (s : String) → count_chars s ≤ len s
unfolding count_chars
count_chars-le-len String.[] = omega arith
count_chars-le-len (String.◌∷◌ c s) =
    let (k, e) = len_utf8-pos c in rw (len.cons c s, e) (omega (arith, count_chars-le-len s))

count_chars-cons : (c : Char) (s : String) → count_chars (String.◌∷◌ c s) ≡ suc (count_chars s)
unfolding count_chars
count_chars-cons c s = refl

name_chars-zeros : (n : ℕ) → name_chars (zeros n) ≡ true
unfolding zeros name_chars is_name_char
name_chars-zeros zero = refl
name_chars-zeros (suc n) = rw (cons-append, nil-append) (name_chars-zeros n)

name_chars-itoa_fuel : (f n : ℕ) → name_chars (itoa_fuel f n) ≡ true
unfolding name_chars itoa_fuel is_name_char
name_chars-itoa_fuel zero n = refl
name_chars-itoa_fuel (suc f) n =
    let last : name_chars (String.◌∷◌ (digit_char (n % 10)) "") ≡ true =
      ground (arith, code-digit_char (n % 10)) in
    elim (Bool-cases (ltb n 10)) [
      | inl small ↦ rw small last
      | inr big ↦
          rw big (name_chars-append (itoa_fuel f (n / 10)) _ (name_chars-itoa_fuel f (n / 10)) last)
    ]

name_chars-pad : (width n : ℕ) → name_chars (pad width n) ≡ true
unfolding pad itoa
name_chars-pad width n =
    name_chars-append (zeros _) (itoa_fuel (suc n) n) (name_chars-zeros _)
      (name_chars-itoa_fuel (suc n) n)

-- A prefix with a padded number is a valid name if it is not too long.
valid_name-prefix :
    (prefix : String) (width n : ℕ)
    → name_pattern 58 prefix ≡ true
    → len (prefix +ₛ pad width n) ≤ 63
    → valid_name (prefix +ₛ pad width n) ≡ true
unfolding name_pattern
valid_name-prefix String.[] width n p h = cc
valid_name-prefix (String.◌∷◌ c s) width n p h =
    let (chars, _) = name_tail-split 58 s (ground arith) in
    let whole = s +ₛ pad width n in
    let size : count_chars whole + 1 ≤ 63 = omega (
      arith,
      count_chars-cons c whole,
      count_chars-le-len (String.◌∷◌ c whole),
      rw cons-append at h,
    ) in
    rw cons-append (
      ground (
        arith,
        name_tail-join 62 whole (name_chars-append s (pad width n) chars (name_chars-pad width n))
            (omega (arith, size)),
      ))

-- The names that a batch stands for: the prefix with the padded indices from `i` on.
abbrev pub numbered : String → ℕ → ℕ → ℕ → List String
numbered prefix width zero i = []
numbered prefix width (suc rounds) i =
    (prefix +ₛ pad width i) ∷ numbered prefix width rounds (i + 1)

-- No name occurs twice.
abbrev pub Distinct : List String → Type 0
Distinct [] = Unit
Distinct (x ∷ xs) = (any (λ n. n =ₛ x) xs ≡ false) × Distinct xs

any-append :
    (x : String) (xs ys : List String)
    → any (λ n. n =ₛ x) (xs ++ ys) ≡ (any (λ n. n =ₛ x) xs || any (λ n. n =ₛ x) ys)
any-append x [] ys = refl
any-append x (y ∷ xs) ys = ground (arith, any-append x xs ys)

append-Distinct :
    (xs : List String) (x : String)
    → Distinct xs
    → any (λ n. n =ₛ x) xs ≡ false
    → Distinct (xs ++ x ∷ [])
append-Distinct [] x d h = (refl, tt)
append-Distinct (y ∷ xs) x d h =
    ground (arith, eq_iff y x, eq_iff x y, any-append y xs (x ∷ []), append-Distinct xs x d.1)

append-All :
    (P : String → Type 0) (xs : List String) (x : String) → All P xs → P x → All P (xs ++ x ∷ [])
append-All P [] x a h = (h, tt)
append-All P (y ∷ xs) x a h = (a.0, append-All P xs x a.1 h)

append_one :
    (xs : List String) (x : String) (ys : List String) → (xs ++ x ∷ []) ++ ys ≡ xs ++ x ∷ ys
append_one [] x ys = refl
append_one (y ∷ xs) x ys = ap (λ l. y ∷ l) (append_one xs x ys)

append_none : (xs : List String) → xs ++ [] ≡ xs
append_none [] = refl
append_none (x ∷ xs) = ap (λ l. x ∷ l) (append_none xs)

length-numbered :
    (prefix : String) (width rounds i : ℕ) → length (numbered prefix width rounds i) ≡ rounds
length-numbered prefix width zero i = refl
length-numbered prefix width (suc rounds) i = ap suc (length-numbered prefix width rounds (i + 1))

abbrev pub IsNameable : String → Type 0
IsNameable name = valid_name name ≡ true

module _ (prefix : String) (width : ℕ) (pattern_ : name_pattern 58 prefix ≡ true) where
  bulk_loop_lem :
      (rounds i : ℕ) (names out : List String)
      → bulk_loop prefix width rounds i names ≡ ok out
      → All IsNameable names
      → Distinct names
      → (out ≡ names ++ numbered prefix width rounds i) × All IsNameable out × Distinct out
  unfolding bulk_loop
  bulk_loop_lem zero i names out h a d =
      let same : out ≡ names = ground arith in rw same (sym (append_none names), a, d)
  bulk_loop_lem (suc rounds) i names out h a d =
      elim (Bool-cases (ltb 63 (len name) || any (λ n. n =ₛ name) names)) [
        | inl stop ↦ absurd (cc ((rw (stop, bulk_loop) at h)))
        | inr go ↦
            let short : len name ≤ 63 = ground arith in
            let new : any (λ n. n =ₛ name) names ≡ false = ground arith in
            let rest =
              bulk_loop_lem rounds (i + 1) (names ++ name ∷ []) out (rw (go, bulk_loop) at h)
                (append-All IsNameable names name a
                  (valid_name-prefix prefix width i pattern_ short))
                (append-Distinct names name d new) in
            (rest.0 ∙ append_one names name (numbered prefix width rounds (i + 1)), rest.1, rest.2)
      ]
    where
      name : String
      name = prefix +ₛ pad width i

-- A batch that is accepted is the prefix with consecutive indices, as many as were asked for, each
-- with at least the width's digits; every name fits the runtime's pattern and none occurs twice.
pub bulk_names_lem :
    (prefix : String) (start count : ℤ) (names : List String)
    → bulk_names prefix start count ≡ ok names
    → (names
        ≡ numbered prefix
            (bulk_width (pos_part start + pos_part count - 1))
            (pos_part count)
            (pos_part start))
      × (count ≡ pos (length names))
      × All IsNameable names
      × Distinct names
unfolding bulk_names
bulk_names_lem prefix start count names h =
    let width = bulk_width (pos_part start + pos_part count - 1) in
    let plain : name_pattern 58 prefix ≡ true = ground arith in
    let counted : count ≡ pos (pos_part count) = ground arith in
    let looped : bulk_loop prefix width (pos_part count) (pos_part start) [] ≡ ok names =
      ground arith in
    let (same, valid, distinct) =
      bulk_loop_lem prefix width plain (pos_part count) (pos_part start) [] names looped tt tt in
    (
      same,
      counted
          ∙ ap pos (
              sym
                (ap length same ∙ length-numbered prefix width (pos_part count) (pos_part start))),
      valid,
      distinct,
    )
