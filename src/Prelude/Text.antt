-- ===== src/Prelude/Text.antt =====
-- The parts of Go's packages strings and strconv that the program uses, over the native texts.
pub mod Base64
pub mod Cut
pub mod Decimal
pub mod Fields
pub mod Order
pub mod Sorting
pub mod Space
pub mod Split
use Prim.Native.Nat.{ℕ, zero, suc, ◌+◌, ◌-◌, ◌*◌, ◌/◌, ◌%◌, ◌^◌}
use Prim.Native.Char.{Char, code}
use Prim.Native.String.{String, ◌++◌}
use mathlib.Core.Bool.{Bool, true, false, ◌&&◌, ◌||◌}
use mathlib.Core.Option.{Option, none, some}
use mathlib.Core.List.{List, [], ◌∷◌}
use text.Mathlib.Text.{starts_with}
use natbox.Prelude.Tests.{ltb, leb, ◌==◌, ◌=ₛ◌, if◌then◌else◌}
use natbox.Prelude.Int.{ℤ, pos, negsuc}

abbrev pub codes : String → List ℕ
codes String.[] = []
codes (String.◌∷◌ c s) = code c ∷ codes s

-- unicode.IsSpace
unfoldable pub is_space : ℕ → Bool
is_space c =
    (leb 9 c && leb c 13)
    || c == 32
    || c == 0x85
    || c == 0xa0
    || c == 0x1680
    || (leb 0x2000 c && leb c 0x200a)
    || c == 0x2028
    || c == 0x2029
    || c == 0x202f
    || c == 0x205f
    || c == 0x3000

unfoldable pub trim_left : String → String
trim_left String.[] = ""
trim_left (String.◌∷◌ c s) = if is_space (code c) then trim_left s else String.◌∷◌ c s

unfoldable pub trim_right : String → String
trim_right String.[] = ""
trim_right (String.◌∷◌ c s) =
    let rest = trim_right s in if rest =ₛ "" && is_space (code c) then "" else String.◌∷◌ c rest

-- strings.TrimSpace
unfoldable pub trim_space : String → String
unfolding is_space trim_left trim_right
trim_space s = trim_right (trim_left s)

-- strings.ToLower changes no other ASCII character; letters outside ASCII are left as they are.
unfoldable pub lower_char : Char → Char
lower_char c =
    if code c == b'A'
    then "a"
    else if code c == b'B'
    then "b"
    else if code c == b'C'
    then "c"
    else if code c == b'D'
    then "d"
    else if code c == b'E'
    then "e"
    else if code c == b'F'
    then "f"
    else if code c == b'G'
    then "g"
    else if code c == b'H'
    then "h"
    else if code c == b'I'
    then "i"
    else if code c == b'J'
    then "j"
    else if code c == b'K'
    then "k"
    else if code c == b'L'
    then "l"
    else if code c == b'M'
    then "m"
    else if code c == b'N'
    then "n"
    else if code c == b'O'
    then "o"
    else if code c == b'P'
    then "p"
    else if code c == b'Q'
    then "q"
    else if code c == b'R'
    then "r"
    else if code c == b'S'
    then "s"
    else if code c == b'T'
    then "t"
    else if code c == b'U'
    then "u"
    else if code c == b'V'
    then "v"
    else if code c == b'W'
    then "w"
    else if code c == b'X'
    then "x"
    else if code c == b'Y'
    then "y"
    else if code c == b'Z'
    then "z"
    else c

unfoldable pub to_lower : String → String
unfolding lower_char
to_lower String.[] = ""
to_lower (String.◌∷◌ c s) = String.◌∷◌ (lower_char c) (to_lower s)

-- strings.Contains
unfoldable pub contains : String → String → Bool
contains String.[] t = t =ₛ ""
contains (String.◌∷◌ c s) t = starts_with (String.◌∷◌ c s) t || contains s t

-- The rest of a text behind its first `n` characters.
unfoldable pub drop_chars : ℕ → String → String
drop_chars zero s = s
drop_chars (suc n) String.[] = ""
drop_chars (suc n) (String.◌∷◌ c s) = drop_chars n s

unfoldable pub count_chars : String → ℕ
count_chars String.[] = 0
count_chars (String.◌∷◌ c s) = suc (count_chars s)

-- strings.TrimPrefix
unfoldable pub trim_prefix : String → String → String
unfolding drop_chars count_chars
trim_prefix s p = if starts_with s p then drop_chars (count_chars p) s else s

add_to_first : Char → List String → List String
add_to_first c [] = String.◌∷◌ c "" ∷ []
add_to_first c (part ∷ parts) = String.◌∷◌ c part ∷ parts

-- strings.Split at one character: never the empty list.
unfoldable pub split_on : ℕ → String → List String
unfolding add_to_first
split_on sep String.[] = "" ∷ []
split_on sep (String.◌∷◌ c s) =
    let rest = split_on sep s in if code c == sep then "" ∷ rest else add_to_first c rest

unfoldable pub digit_char : ℕ → Char
digit_char n =
    if n == 0
    then "0"
    else if n == 1
    then "1"
    else if n == 2
    then "2"
    else if n == 3
    then "3"
    else if n == 4
    then "4"
    else if n == 5
    then "5"
    else if n == 6
    then "6"
    else if n == 7
    then "7"
    else if n == 8
    then "8"
    else "9"

unfoldable pub itoa_fuel : ℕ → ℕ → String
unfolding digit_char
itoa_fuel zero n = ""
itoa_fuel (suc f) n =
    let front = itoa_fuel f (n / 10) in
    let last = String.◌∷◌ (digit_char (n % 10)) "" in if ltb n 10 then last else front ++ last

-- strconv.Itoa of a number that is not negative. A number has no more digits than its value plus 1.
unfoldable pub itoa : ℕ → String
unfolding itoa_fuel
itoa n = itoa_fuel (suc n) n

-- `%d`
unfoldable pub format_int : ℤ → String
format_int (pos n) = itoa n
format_int (negsuc n) = "-" ++ itoa (suc n)

-- `%q`, for a text with no character that wants an escape.
unfoldable pub quoted : String → String
quoted s = "\"" ++ s ++ "\""

digit_value? : Char → Option ℕ
digit_value? c = if leb b'0' (code c) && leb (code c) b'9' then some (code c - b'0') else none

-- Reads decimal digits to the end of the text.
unfoldable pub digits_from : ℕ → String → Option ℕ
unfolding digit_value?
digits_from n String.[] = some n
digits_from n (String.◌∷◌ c s) = elim (digit_value? c) [
  | none ↦ none
  | some d ↦ digits_from (n * 10 + d) s
]

unfoldable pub parse_digits : String → Option ℕ
unfolding digits_from
parse_digits s = if s =ₛ "" then none else digits_from 0 s

-- What fits int64, with the sign of the text.
unfoldable pub signed_in_range : Bool → Option ℕ → Option ℤ
signed_in_range negative none = none
signed_in_range true (some n) =
    if ltb (2 ^ 63) n then none else some (if n == 0 then pos 0 else negsuc (n - 1))
signed_in_range false (some n) = if ltb n (2 ^ 63) then some (pos n) else none

-- strconv.ParseInt in base 10 with 64 bits, and strconv.Atoi; `none` is an error.
unfoldable pub parse_int : String → Option ℤ
unfolding signed_in_range parse_digits
parse_int String.[] = none
parse_int (String.◌∷◌ c s) =
    if code c == b'-'
    then signed_in_range true (parse_digits s)
    else if code c == b'+'
    then signed_in_range false (parse_digits s)
    else signed_in_range false (parse_digits (String.◌∷◌ c s))

-- A Go map with string keys as an association list: the value of the first entry for the key.
unfoldable pub lookup {ℓ} : {V : Type ℓ} → String → List (String × V) → Option V
lookup k [] = none
lookup k ((j, v) ∷ m) = if j =ₛ k then some v else lookup k m

abbrev is_letter_or_digit : ℕ → Bool
is_letter_or_digit c =
    (leb b'A' c && leb c b'Z') || (leb b'a' c && leb c b'z') || (leb b'0' c && leb c b'9')

-- [A-Za-z0-9.-]
unfoldable pub is_name_char : ℕ → Bool
is_name_char c = is_letter_or_digit c || c == b'.' || c == b'-'

-- [A-Za-z0-9.-]{0,n}
unfoldable pub name_tail : ℕ → String → Bool
unfolding is_name_char
name_tail n String.[] = true
name_tail zero (String.◌∷◌ c s) = false
name_tail (suc n) (String.◌∷◌ c s) = is_name_char (code c) && name_tail n s

-- ^[A-Za-z0-9][A-Za-z0-9.-]{0,n}$
unfoldable pub name_pattern : ℕ → String → Bool
unfolding name_tail
name_pattern n String.[] = false
name_pattern n (String.◌∷◌ c s) = is_letter_or_digit (code c) && name_tail n s

-- [0-9]{0,n}%
percent_tail : ℕ → String → Bool
percent_tail n String.[] = false
percent_tail zero (String.◌∷◌ c s) = code c == b'%' && s =ₛ ""
percent_tail (suc n) (String.◌∷◌ c s) =
    (leb b'0' (code c) && leb (code c) b'9' && percent_tail n s) || (code c == b'%' && s =ₛ "")

-- ^[1-9][0-9]{0,2}%$
unfoldable pub cpu_pattern : String → Bool
unfolding percent_tail
cpu_pattern String.[] = false
cpu_pattern (String.◌∷◌ c s) = leb b'1' (code c) && leb (code c) b'9' && percent_tail 2 s
