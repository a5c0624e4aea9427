-- ===== src/Prelude/Text/Base64.antt =====
-- Base64 in the standard alphabet and with no padding, as encoding/base64 writes and reads it.
use Prim.Native.Nat.{ℕ, ◌+◌, ◌-◌, ◌*◌, ◌/◌, ◌%◌, ◌<◌}
use Prim.Native.Char.{code}
use Prim.Native.String.{String, char_at}
use mathlib.Core.Path.{◌≡◌, refl}
use mathlib.Core.Bool.{Bool, true, false, not, ◌&&◌, ◌||◌}
use mathlib.Core.Option.{Option, none, some}
use mathlib.Core.List.{List, [], ◌∷◌}
use native.Mathlib.Omega.{arith}
use natbox.Prelude.Tests.{leb, ◌==◌, if◌then◌else◌, passes_under, passes_under-lookup}
use natbox.Prelude.Lists.{All}
use natbox.Prelude.Text.{is_space}
use natbox.Prelude.Text.Space.{spaceless}
use natbox.Prelude.Text.Split.{lacks}

abbrev pub alphabet : String
alphabet = "ABCDEFGHIJKLMNOPQRSTUVWXYZabcdefghijklmnopqrstuvwxyz0123456789+/"

-- The six-bit groups of the bytes; the last one is filled up with zeros.
unfoldable pub sextets : List ℕ → List ℕ
sextets [] = []
sextets (a ∷ []) = a / 4 ∷ a % 4 * 16 ∷ []
sextets (a ∷ b ∷ []) = a / 4 ∷ (a % 4 * 16 + b / 16) ∷ b % 16 * 4 ∷ []
sextets (a ∷ b ∷ c ∷ rest) =
    a / 4 ∷ (a % 4 * 16 + b / 16) ∷ (b % 16 * 4 + c / 64) ∷ c % 64 ∷ sextets rest

unfoldable pub letters : List ℕ → String
letters [] = ""
letters (n ∷ ns) = String.◌∷◌ (char_at alphabet n) (letters ns)

-- RawStdEncoding.EncodeToString
unfoldable pub encode_raw : List ℕ → String
unfolding sextets letters
encode_raw bytes = letters (sextets bytes)

sextet_of : ℕ → Option ℕ
sextet_of c =
    if leb b'A' c && leb c b'Z'
    then some (c - b'A')
    else if leb b'a' c && leb c b'z'
    then some (c - b'a' + 26)
    else if leb b'0' c && leb c b'9'
    then some (c - b'0' + 52)
    else if c == b'+'
    then some 62
    else if c == b'/'
    then some 63
    else none

add_sextet : Option ℕ → Option (List ℕ) → Option (List ℕ)
add_sextet (some n) (some ns) = some (n ∷ ns)
add_sextet _ _ = none

-- Line breaks are passed over.
read_sextets : String → Option (List ℕ)
unfolding sextet_of add_sextet
read_sextets String.[] = some []
read_sextets (String.◌∷◌ c s) =
    let rest = read_sextets s in
    if code c == b'\n' || code c == b'\r' then rest else add_sextet (sextet_of (code c)) rest

push_three : ℕ → ℕ → ℕ → Option (List ℕ) → Option (List ℕ)
push_three a b c none = none
push_three a b c (some rest) = some (a ∷ b ∷ c ∷ rest)

-- The bytes of six-bit groups; a single last group is an error.
bytes_from : List ℕ → Option (List ℕ)
unfolding push_three
bytes_from [] = some []
bytes_from (p ∷ []) = none
bytes_from (p ∷ q ∷ []) = some ((p * 4 + q / 16) ∷ [])
bytes_from (p ∷ q ∷ r ∷ []) = some ((p * 4 + q / 16) ∷ (q % 16 * 16 + r / 4) ∷ [])
bytes_from (p ∷ q ∷ r ∷ t ∷ rest) =
    push_three (p * 4 + q / 16) (q % 16 * 16 + r / 4) (r % 4 * 64 + t) (bytes_from rest)

abbrev then_bytes : Option (List ℕ) → Option (List ℕ)
then_bytes none = none
then_bytes (some ns) = bytes_from ns

-- RawStdEncoding.DecodeString; `none` is an error.
unfoldable pub decode_raw : String → Option (List ℕ)
unfolding read_sextets bytes_from
decode_raw s = then_bytes (read_sextets s)

-- What is wanted of the letter of a six-bit number.
abbrev has_value : Option ℕ → ℕ → Bool
has_value none n = false
has_value (some m) n = m == n

abbrev letter_law : ℕ → Bool
letter_law n =
    let c = code (char_at alphabet n) in
    not (c == b'\n') && not (c == b'\r') && not (c == b'$') && has_value (sextet_of c) n

letter_table : passes_under letter_law 64 ≡ true
unfolding passes_under sextet_of
letter_table = refl

letter_lem : (n : ℕ) → n < 64 → letter_law n ≡ true
letter_lem n h = passes_under-lookup letter_law 64 n h letter_table

value_lem : (o : Option ℕ) (n : ℕ) → has_value o n ≡ true → o ≡ some n
value_lem none n h = ground arith
value_lem (some m) n h = ground arith

four_parts :
    (a b c d : Bool)
    → (not a && not b && not c && d) ≡ true
    → (a ≡ false) × (b ≡ false) × (c ≡ false) × (d ≡ true)
four_parts a b c d h = ground arith

-- The letter of a six-bit number is no line break and no `$`, and has the number's value.
letter_facts :
    (n : ℕ)
    → n < 64
    → ((code (char_at alphabet n) == b'\n') ≡ false)
      × ((code (char_at alphabet n) == b'\r') ≡ false)
      × ((code (char_at alphabet n) == b'$') ≡ false)
      × (has_value (sextet_of (code (char_at alphabet n))) n ≡ true)
letter_facts n h =
    four_parts (code (char_at alphabet n) == b'\n') (code (char_at alphabet n) == b'\r')
      (code (char_at alphabet n) == b'$') (has_value (sextet_of (code (char_at alphabet n))) n)
      (letter_lem n h)

read_sextets-letters : (ns : List ℕ) → All (λ n. n < 64) ns → read_sextets (letters ns) ≡ some ns
unfolding read_sextets letters add_sextet
read_sextets-letters [] small = refl
read_sextets-letters (n ∷ ns) (h, hs) =
    let (no_feed, no_return, no_dollar, valued) = letter_facts n h in
    rw (no_feed, no_return, value_lem _ n valued, read_sextets-letters ns hs) refl

-- No letter is the `$` between the parts of a password's hash.
lacks-letters : (ns : List ℕ) → All (λ n. n < 64) ns → lacks b'$' (letters ns) ≡ true
unfolding lacks letters
lacks-letters [] small = refl
lacks-letters (n ∷ ns) (h, hs) =
    let (no_feed, no_return, no_dollar, valued) = letter_facts n h in
    rw (no_dollar, lacks-letters ns hs) refl

sextets_small : (bytes : List ℕ) → All (λ b. b < 256) bytes → All (λ n. n < 64) (sextets bytes)
unfolding sextets
sextets_small [] h = tt
sextets_small (a ∷ []) h = ground arith
sextets_small (a ∷ b ∷ []) h = ground arith
sextets_small (a ∷ b ∷ c ∷ rest) (ha, (hb, (hc, hs))) =
    (ground arith, (ground arith, (ground arith, (ground arith, sextets_small rest hs))))

one_of_two : (a b : ℕ) → a < 256 → b < 256 → a / 4 * 4 + (a % 4 * 16 + b / 16) / 16 ≡ a
one_of_two a b ha hb = omega arith

two_of_three :
    (a b c : ℕ)
    → a < 256
    → b < 256
    → c < 256
    → (a % 4 * 16 + b / 16) % 16 * 16 + (b % 16 * 4 + c / 64) / 4 ≡ b
two_of_three a b c ha hb hc = omega arith

three_of_three : (b c : ℕ) → b < 256 → c < 256 → (b % 16 * 4 + c / 64) % 4 * 64 + c % 64 ≡ c
three_of_three b c hb hc = omega arith

last_of_two : (a b : ℕ) → a < 256 → b < 256 → (a % 4 * 16 + b / 16) % 16 * 16 + b % 16 * 4 / 4 ≡ b
last_of_two a b ha hb = omega arith

alone_lem : (a : ℕ) → a < 256 → a / 4 * 4 + a % 4 * 16 / 16 ≡ a
alone_lem a ha = omega arith

bytes_from-sextets :
    (bytes : List ℕ) → All (λ b. b < 256) bytes → bytes_from (sextets bytes) ≡ some bytes
unfolding bytes_from sextets push_three
bytes_from-sextets [] h = refl
bytes_from-sextets (a ∷ []) (ha, _) = rw (alone_lem a ha) refl
bytes_from-sextets (a ∷ b ∷ []) (ha, (hb, _)) =
    rw (one_of_two a b ha hb, last_of_two a b ha hb) refl
bytes_from-sextets (a ∷ b ∷ c ∷ rest) (ha, (hb, (hc, hs))) =
    rw
      (
        one_of_two a b ha hb,
        two_of_three a b c ha hb hc,
        three_of_three b c hb hc,
        bytes_from-sextets rest hs,
      )
      refl

-- What is encoded is read back.
pub decode_raw-encode_raw :
    (bytes : List ℕ) → All (λ b. b < 256) bytes → decode_raw (encode_raw bytes) ≡ some bytes
unfolding decode_raw encode_raw
decode_raw-encode_raw bytes h =
    rw (read_sextets-letters (sextets bytes) (sextets_small bytes h)) (bytes_from-sextets bytes h)

pub lacks-encode_raw :
    (bytes : List ℕ) → All (λ b. b < 256) bytes → lacks b'$' (encode_raw bytes) ≡ true
unfolding encode_raw
lacks-encode_raw bytes h = lacks-letters (sextets bytes) (sextets_small bytes h)

spaceless_letter : ℕ → Bool
unfolding is_space
spaceless_letter n = not (is_space (code (char_at alphabet n)))

spaceless_table : passes_under spaceless_letter 64 ≡ true
unfolding passes_under spaceless_letter
spaceless_table = refl

spaceless-letters : (ns : List ℕ) → All (λ n. n < 64) ns → spaceless (letters ns) ≡ true
unfolding spaceless letters spaceless_letter
spaceless-letters [] small = refl
spaceless-letters (n ∷ ns) (h, hs) =
    rw (passes_under-lookup spaceless_letter 64 n h spaceless_table, spaceless-letters ns hs) refl

-- No letter is white space.
pub spaceless-encode_raw :
    (bytes : List ℕ) → All (λ b. b < 256) bytes → spaceless (encode_raw bytes) ≡ true
unfolding encode_raw
spaceless-encode_raw bytes h = spaceless-letters (sextets bytes) (sextets_small bytes h)
