-- ===== src/Auth/Password.antt =====
-- internal/auth/password.go, and newAdminAuth of admin_auth.go.
-- argon2 is a parameter: `idkey password salt iterations memory parallelism length`. A Go string of a
-- password is its bytes.
pub mod RoundTrip
pub mod Parsed
pub mod Command
pub mod SignIn
use natbox.Prelude.{
  ℕ, ◌^◌, ◌%◌, ◌≡◌, ◌≢◌, ◌↔◌, refl, sym, ap, ◌∙◌, Bool, true, false, not, ◌&&◌, ◌||◌, String, ◌+ₛ◌,
  Option, none, some, List, [], ◌∷◌, arith, ◌=ₛ◌, ◌==◌, ltb, if◌then◌else◌, length, split_on,
  parse_digits, itoa, lookup, trim_space, Error, failure, error_text, Result, ok, err,
}
use natbox.Prelude.Text.Cut.{cut_at}
use natbox.Prelude.Text.Base64.{encode_raw, decode_raw}
use natbox.Auth.Compare.{Bytes}
use natbox.Auth.Sessions.{AdminAuth, is_empty}

abbrev pub default_memory : ℕ
default_memory = 65536

abbrev pub default_iterations : ℕ
default_iterations = 3

abbrev pub default_parallelism : ℕ
default_parallelism = 2

abbrev pub default_key_length : ℕ
default_key_length = 32

abbrev pub default_salt_length : ℕ
default_salt_length = 16

pub record PasswordHash : Type 0 where
  pub memory : ℕ
  pub iterations : ℕ
  pub parallelism : ℕ
  pub salt : Bytes
  pub hash : Bytes

abbrev pub Idkey : Type 0
Idkey = Bytes → Bytes → ℕ → ℕ → ℕ → ℕ → Bytes

abbrev fits : ℕ → Option ℕ → Option ℕ
fits bits none = none
fits bits (some n) = if ltb n (2 ^ bits) then some n else none

-- strconv.ParseUint in base 10; `none` is an error.
unfoldable pub parse_uint : ℕ → String → Option ℕ
parse_uint bits s = fits bits (parse_digits s)

-- The parameters of the third part: a later one counts. The error is that of an item with no `=`.
unfoldable pub read_params : List (String × String) → List String → Option (List (String × String))
read_params params [] = some params
read_params params (item ∷ items) = elim (cut_at b'=' item) [
  | none ↦ none
  | some (key, value) ↦ read_params ((key, value) ∷ params) items
]

-- A key that is missing has the value "".
abbrev value_of : Option String → String
value_of none = ""
value_of (some value) = value

abbrev pub param : String → List (String × String) → String
param key params = value_of (lookup key params)

abbrev pub invalid_hash : Error
invalid_hash = failure "invalid argon2id password hash"

-- The checks behind the parsing of the numbers and the decoding of salt and hash.
unfoldable pub checked_hash :
    Option ℕ → Option ℕ → Option ℕ → Option Bytes → Option Bytes → Result PasswordHash
checked_hash (some memory) (some iterations) (some parallelism) (some salt) (some hash) =
    if ltb memory 8192
      || ltb iterations 1
      || ltb parallelism 1
      || ltb (length salt) 8
      || ltb (length hash) 16
    then err invalid_hash
    else ok (record {
      memory = memory;
      iterations = iterations;
      parallelism = parallelism;
      salt = salt;
      hash = hash;
    })
checked_hash _ _ _ _ _ = err invalid_hash

unfoldable pub parse_fields :
    String → String → Option (List (String × String)) → Result PasswordHash
unfolding checked_hash
parse_fields salt hash none = err (failure "invalid argon2id parameters")
parse_fields salt hash (some params) =
    checked_hash (parse_uint 32 (param "m" params)) (parse_uint 32 (param "t" params))
      (parse_uint 8 (param "p" params)) (decode_raw salt) (decode_raw hash)

unfoldable pub parse_parts : List String → Result PasswordHash
unfolding parse_fields
parse_parts (_ ∷ kind ∷ version ∷ params ∷ salt ∷ hash ∷ []) =
    if not (kind =ₛ "argon2id") || not (version =ₛ "v=19")
    then err invalid_hash
    else parse_fields salt hash (read_params [] (split_on b',' params))
parse_parts _ = err invalid_hash

unfoldable pub parse : String → Result PasswordHash
unfolding parse_parts
parse encoded = parse_parts (split_on b'$' encoded)

-- subtle.ConstantTimeCompare, of package crypto/subtle: whether two byte strings are the same.
unfoldable pub bytes_equal : Bytes → Bytes → Bool
bytes_equal [] [] = true
bytes_equal (a ∷ left) (b ∷ right) = a == b && bytes_equal left right
bytes_equal _ _ = false

abbrev opens : Idkey → Bytes → Result PasswordHash → Bool
opens idkey password (err e) = false
opens idkey password (ok p) =
    not (is_empty password)
    && bytes_equal
        (idkey password p.salt p.iterations p.memory p.parallelism (length p.hash % 2 ^ 32)) p.hash

unfoldable pub verify_password : Idkey → String → Bytes → Bool
verify_password idkey encoded password = opens idkey password (parse encoded)

abbrev pub hash_head : String
hash_head = "$argon2id$v=19$m=65536,t=3,p=2$"

hash_with : Idkey → Bytes → Result Bytes → Result String
hash_with idkey password (err e) = err (failure ("generate password salt: " +ₛ error_text e))
hash_with idkey password (ok salt) =
    let hash =
      idkey password salt default_iterations default_memory default_parallelism
        default_key_length in
    ok (
      "$argon2id$v=19$m="
      +ₛ itoa default_memory
      +ₛ ",t="
      +ₛ itoa default_iterations
      +ₛ ",p="
      +ₛ itoa default_parallelism
      +ₛ "$"
      +ₛ encode_raw salt
      +ₛ "$"
      +ₛ encode_raw hash)

-- `salt` is what the random generator gives: 16 bytes, or an error.
unfoldable pub hash_password : Idkey → Result Bytes → Bytes → Result String
unfolding hash_with
hash_password idkey salt password =
    if ltb (length password) 12 || ltb 1024 (length password)
    then err (failure "password must be between 12 and 1024 bytes")
    else hash_with idkey password salt

abbrev started_auth : String → AdminAuth
started_auth hash = record { hash = hash; sessions = []; failures = [] }

abbrev if_parsed : String → Result PasswordHash → Result AdminAuth
if_parsed hash (ok parsed) = ok (started_auth hash)
if_parsed hash (err e) = err e

-- newAdminAuth
unfoldable pub new_admin_auth : String → Result AdminAuth
new_admin_auth text =
    let hash = trim_space text in
    if hash =ₛ "" then ok (started_auth hash) else if_parsed hash (parse hash)
