-- ===== src/App/Host/Meminfo.antt =====
-- host_linux.go: the lines of /proc/meminfo, as the kernel prints them, and how they are read.
use natbox.Prelude.{
  ℕ, zero, suc, ◌*◌, ◌^◌, ◌<◌, ◌≡◌, refl, ap, Bool, List, true, false, String, ◌+ₛ◌, code, is_space,
  [], ◌∷◌, pos, itoa, ◌=ₛ◌, arith,
}
use natbox.Prelude.Text.Space.{spaceless, spaceless-append}
use natbox.Prelude.Text.Decimal.{parse_int-itoa, itoa_not_empty}
use natbox.Prelude.Text.Cut.{trim_last-append, ended_not_empty}
use natbox.Prelude.Text.Fields.{fields, fields-space, fields-word, fields-append, itoa-spaceless}
use natbox.App.Capacity.Fits.{mul64-pos}
use natbox.App.Host.{Values, read_words}

pub record MemoryRow : Type 0 where
  pub name : String
  pub width : ℕ
  pub amount : ℕ
  pub in_kib : Bool

abbrev pub size : ℕ → Bool → ℕ
size amount true = amount * 1024
size amount false = amount

abbrev pub bytes : MemoryRow → ℕ
bytes row = size row.amount row.in_kib

-- At least one blank, then the text.
abbrev padded : ℕ → String → String
padded zero s = String.◌∷◌ " " s
padded (suc n) s = String.◌∷◌ " " (padded n s)

abbrev figures : ℕ → Bool → String
figures amount true = itoa amount +ₛ " kB"
figures amount false = itoa amount

-- The line of a row, such as "MemTotal:       16316412 kB".
abbrev pub shown : MemoryRow → String
shown row = (row.name +ₛ ":") +ₛ padded row.width (figures row.amount row.in_kib)

-- A name without white space, and a size that fits int64.
pub record IsRow (row : MemoryRow) : Type 0 where
  pub word : spaceless row.name ≡ true
  pub fits : bytes row < 2 ^ 63

blank : is_space (code " ") ≡ true
unfolding is_space
blank = refl

spaceless_kb : spaceless "kB" ≡ true
unfolding spaceless is_space
spaceless_kb = refl

fields-padded : (n : ℕ) (s : String) → fields (padded n s) ≡ fields s
fields-padded zero s = fields-space " " s blank
fields-padded (suc n) s = rw (fields-space " " (padded n s) blank) (fields-padded n s)

fields-behind :
    (n : ℕ) (w s : String)
    → (w =ₛ "") ≡ false
    → spaceless w ≡ true
    → fields (w +ₛ padded n s) ≡ w ∷ fields s
fields-behind zero w s e h = fields-append " " w s blank e h
fields-behind (suc n) w s e h =
    rw (fields-append " " w (padded n s) blank e h, fields-padded n s) refl

abbrev unit : Bool → List String
unit true = "kB" ∷ []
unit false = []

fields-figures :
    (amount : ℕ) (in_kib : Bool) → fields (figures amount in_kib) ≡ itoa amount ∷ unit in_kib
fields-figures amount true =
    rw (fields-append " " (itoa amount) "kB" blank (itoa_not_empty amount) (itoa-spaceless amount))
      (ap (λ words. itoa amount ∷ words) (fields-word "kB" refl spaceless_kb))
fields-figures amount false =
    fields-word (itoa amount) (itoa_not_empty amount) (itoa-spaceless amount)

colon_spaceless : (name : String) → spaceless name ≡ true → spaceless (name +ₛ ":") ≡ true
unfolding spaceless is_space
colon_spaceless name h = spaceless-append name ":" h refl

fields-shown :
    (row : MemoryRow)
    → IsRow row
    → fields (shown row) ≡ (row.name +ₛ ":") ∷ fields (figures row.amount row.in_kib)
fields-shown row h =
    fields-behind row.width (row.name +ₛ ":") (figures row.amount row.in_kib)
      (ended_not_empty ":" row.name) (colon_spaceless row.name h.word)

read_words-row :
    (name : String) (amount : ℕ) (in_kib : Bool) (values : Values)
    → size amount in_kib < 2 ^ 63
    → read_words ((name +ₛ ":") ∷ itoa amount ∷ unit in_kib) values
      ≡ (name, pos (size amount in_kib)) ∷ values
unfolding read_words
read_words-row name amount true values h =
    rw
      (
        read_words,
        parse_int-itoa amount (omega arith),
        trim_last-append ":" name,
        mul64-pos amount 1024 h,
      )
      refl
read_words-row name amount false values h =
    rw (read_words, parse_int-itoa amount h, trim_last-append ":" name) refl

pub read_words-shown :
    (row : MemoryRow) (values : Values)
    → IsRow row
    → read_words (fields (shown row)) values ≡ (row.name, pos (bytes row)) ∷ values
read_words-shown row values h =
    rw (fields-shown row h, fields-figures row.amount row.in_kib)
      (read_words-row row.name row.amount row.in_kib values h.fits)
