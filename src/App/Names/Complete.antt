-- ===== src/App/Names/Complete.antt =====
-- main.go: the loop of bulkNames over its indices.
use Prim.Native.String.{len}
use native.Mathlib.Numerals.{add-one}
use text.Mathlib.TextLemmas.{cons-append, nil-append, append_cancel_left}
use natbox.Prelude.{
  ℕ, zero, suc, ◌+◌, ◌-◌, ◌≤◌, ◌<◌, ◌≡◌, refl, sym, ap, ◌∙◌, true, false, String, ◌+ₛ◌, List, [],
  ◌∷◌, ◌++◌, arith, pos, ltb, ◌=ₛ◌, eq_iff, any, All, itoa, digits_from, some, name_pattern, ok,
  Bool-cases, inl, inr,
}
use natbox.Prelude.Text.Decimal.{digits_from-itoa}
use natbox.App.Names.{zeros, pad, bulk_loop, bulk_names, bulk_width}
use natbox.App.Names.Valid.{numbered}

digits_from-zeros : (k : ℕ) (t : String) → digits_from 0 (zeros k +ₛ t) ≡ digits_from 0 t
unfolding zeros digits_from
digits_from-zeros zero t = rw nil-append
digits_from-zeros (suc k) t = rw (cons-append, nil-append, cons-append) (digits_from-zeros k t)

digits_from-pad : (width n : ℕ) → digits_from 0 (pad width n) ≡ some n
unfolding pad
digits_from-pad width n = digits_from-zeros _ (itoa n) ∙ digits_from-itoa n

-- Padded numbers are the same text only for the same number.
pad-injective : (width n m : ℕ) → pad width n ≡ pad width m → n ≡ m
pad-injective width n m e =
    cc (sym (digits_from-pad width n) ∙ ap (digits_from 0) e ∙ digits_from-pad width m)

-- The name is the prefix with an index below `i`.
abbrev Earlier : String → ℕ → ℕ → String → Type 0
Earlier prefix width i x = (j : ℕ) × (j < i) × (x ≡ prefix +ₛ pad width j)

Earlier-new :
    (prefix : String) (width i : ℕ) (names : List String)
    → All (Earlier prefix width i) names
    → any (λ n. n =ₛ (prefix +ₛ pad width i)) names ≡ false
Earlier-new prefix width i [] a = refl
Earlier-new prefix width i (x ∷ names) a = elim (Bool-cases (x =ₛ (prefix +ₛ pad width i))) [
  | inr differs ↦ rw differs (Earlier-new prefix width i names a.1)
  | inl same ↦
      let (j, lt, e) = a.0 in
      let n : j ≡ i =
        pad-injective width j i
          (append_cancel_left prefix _ _ (sym e ∙ (eq_iff x (prefix +ₛ pad width i)).0 same)) in
      absurd (omega arith)
]

Earlier-next :
    (prefix : String) (width i : ℕ) (names : List String)
    → All (Earlier prefix width i) names
    → All (Earlier prefix width (suc i)) (names ++ (prefix +ₛ pad width i) ∷ [])
Earlier-next prefix width i [] a = ((i, omega arith, refl), tt)
Earlier-next prefix width i (x ∷ names) a =
    let (j, lt, e) = a.0 in ((j, omega arith, e), Earlier-next prefix width i names a.1)

abbrev pub Fits : String → Type 0
Fits name = len name ≤ 63

module _ (prefix : String) (width : ℕ) where
  bulk_loop_complete :
      (rounds i : ℕ) (names : List String)
      → All Fits (numbered prefix width rounds i)
      → All (Earlier prefix width i) names
      → (out : List String) × (bulk_loop prefix width rounds i names ≡ ok out)
  unfolding bulk_loop
  bulk_loop_complete zero i names fits earlier = (names, refl)
  bulk_loop_complete (suc rounds) i names fits earlier =
      let short : ltb 63 (len (prefix +ₛ pad width i)) ≡ false = ground arith in
      rw (short, Earlier-new prefix width i names earlier)
        (bulk_loop_complete rounds (i + 1) (names ++ (prefix +ₛ pad width i) ∷ []) fits.1
          (rw add-one (Earlier-next prefix width i names earlier)))

-- With a valid prefix, a start index up to 999999 and a count from 1 to 32, a batch is refused only if
-- one of its names is longer than 63 bytes: no name comes up twice.
pub bulk_names_complete :
    (prefix : String) (start count : ℕ)
    → name_pattern 58 prefix ≡ true
    → start ≤ 999999
    → 1 ≤ count
    → count ≤ 32
    → All Fits (numbered prefix (bulk_width (start + count - 1)) count start)
    → (names : List String) × (bulk_names prefix (pos start) (pos count) ≡ ok names)
unfolding bulk_names
bulk_names_complete prefix start count plain bounded some_names few fits =
    let (out, looped) =
      bulk_loop_complete prefix (bulk_width (start + count - 1)) count start [] fits tt in
    (out, ground arith)
