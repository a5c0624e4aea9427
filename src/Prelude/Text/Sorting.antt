-- ===== src/Prelude/Text/Sorting.antt =====
-- Sorting texts, as sort.Strings does.
use Prim.Native.String.{String}
use mathlib.Core.Path.{◌≡◌, refl}
use mathlib.Core.Bool.{Bool, true, false, ◌||◌}
use mathlib.Core.Logic.{inl, inr}
use mathlib.Core.List.{List, [], ◌∷◌}
use native.Mathlib.Omega.{arith}
use natbox.Prelude.Tests.{str_le, Bool-cases, if◌then◌else◌}
use natbox.Prelude.Lists.{All, any, keep, length}
use natbox.Prelude.Text.Order.{str_le_total, str_le_trans}

-- sort.Strings
unfoldable pub insert_text : String → List String → List String
insert_text s [] = s ∷ []
insert_text s (t ∷ ts) = if str_le s t then s ∷ t ∷ ts else t ∷ insert_text s ts

unfoldable pub sort_texts : List String → List String
unfolding insert_text
sort_texts [] = []
sort_texts (s ∷ ss) = insert_text s (sort_texts ss)

abbrev pub NotBefore : String → List String → Type 0
NotBefore s = All (λ t. str_le s t ≡ true)

unfoldable pub IsSorted : List String → Type 0
IsSorted [] = Unit
IsSorted (s ∷ ss) = NotBefore s ss × IsSorted ss

NotBefore-trans :
    (s t : String) (ts : List String) → str_le s t ≡ true → NotBefore t ts → NotBefore s ts
NotBefore-trans s t [] h k = tt
NotBefore-trans s t (u ∷ us) h (k, ks) = (str_le_trans s t u h k, NotBefore-trans s t us h ks)

NotBefore-insert_text :
    (s t : String) (ts : List String)
    → str_le s t ≡ true
    → NotBefore s ts
    → NotBefore s (insert_text t ts)
unfolding insert_text
NotBefore-insert_text s t [] h k = (h, tt)
NotBefore-insert_text s t (u ∷ us) h (k, ks) = elim (Bool-cases (str_le t u)) [
  | inl before ↦ rw before (h, (k, ks))
  | inr after ↦ rw after (k, NotBefore-insert_text s t us h ks)
]

turned : (s t : String) → str_le s t ≡ false → str_le t s ≡ true
turned s t h = ground (arith, h, str_le_total s t)

insert_text-IsSorted : (s : String) (ts : List String) → IsSorted ts → IsSorted (insert_text s ts)
unfolding insert_text IsSorted
insert_text-IsSorted s [] h = (tt, tt)
insert_text-IsSorted s (t ∷ ts) (k, ks) = elim (Bool-cases (str_le s t)) [
  | inl before ↦ rw before ((before, NotBefore-trans s t ts before k), (k, ks))
  | inr after ↦
      rw after (NotBefore-insert_text t s ts (turned s t after) k, insert_text-IsSorted s ts ks)
]

pub sort_texts-IsSorted : (ss : List String) → IsSorted (sort_texts ss)
unfolding sort_texts IsSorted
sort_texts-IsSorted [] = tt
sort_texts-IsSorted (s ∷ ss) = insert_text-IsSorted s (sort_texts ss) (sort_texts-IsSorted ss)

-- Sorting keeps the number of elements that pass a test.
module _ (p : String → Bool) where
  keep-insert_text :
      (s : String) (ts : List String)
      → length (keep p (insert_text s ts)) ≡ length (keep p (s ∷ ts))
  unfolding insert_text
  keep-insert_text s [] = refl
  keep-insert_text s (t ∷ ts) = ground (arith, keep-insert_text s ts)

  pub keep-sort_texts : (ss : List String) → length (keep p (sort_texts ss)) ≡ length (keep p ss)
  unfolding sort_texts
  keep-sort_texts [] = refl
  keep-sort_texts (s ∷ ss) = ground (arith, keep-insert_text s (sort_texts ss), keep-sort_texts ss)

  any-insert_text : (s : String) (ts : List String) → any p (insert_text s ts) ≡ (p s || any p ts)
  unfolding insert_text
  any-insert_text s [] = refl
  any-insert_text s (t ∷ ts) = ground (arith, any-insert_text s ts)

  pub any-sort_texts : (ss : List String) → any p (sort_texts ss) ≡ any p ss
  unfolding sort_texts
  any-sort_texts [] = refl
  any-sort_texts (s ∷ ss) = ground (arith, any-insert_text s (sort_texts ss), any-sort_texts ss)
