-- ===== src/Incus/Ssh.antt =====
-- internal/incus/client.go: ConfigureSSH.
use natbox.Prelude.{
  ℕ, ◌+◌, ◌*◌, ◌/◌, ◌%◌, Bool, true, false, not, ◌&&◌, ◌||◌, String, ◌+ₛ◌, Option, none, some, List,
  [], ◌∷◌, ◌++◌, code, codes, ltb, leb, ◌==◌, ◌=ₛ◌, any, if◌then◌else◌, trim_space, Exec, refuse,
  ◌>>◌,
}
use Prim.Native.String.{len, char_at}
use natbox.Prelude.Text.Base64.{alphabet}
use natbox.Prelude.Text.Fields.{fields}
use natbox.Incus.Runner.{Runtime, validate_name, command}

-- The UTF-8 bytes of a text.
char_bytes : ℕ → List ℕ
char_bytes c =
    if ltb c 0x80
    then c ∷ []
    else if ltb c 0x800
    then (0xc0 + c / 64) ∷ (0x80 + c % 64) ∷ []
    else if ltb c 0x10000
    then (0xe0 + c / 4096) ∷ (0x80 + c / 64 % 64) ∷ (0x80 + c % 64) ∷ []
    else (0xf0 + c / 262144) ∷ (0x80 + c / 4096 % 64) ∷ (0x80 + c / 64 % 64) ∷ (0x80 + c % 64) ∷ []

bytes_of : String → List ℕ
unfolding char_bytes
bytes_of String.[] = []
bytes_of (String.◌∷◌ c s) = char_bytes (code c) ++ bytes_of s

abbrev sextet : ℕ → String
sextet n = String.◌∷◌ (char_at alphabet n) ""

-- base64.StdEncoding.EncodeToString
unfoldable pub encode_base64 : List ℕ → String
encode_base64 [] = ""
encode_base64 (a ∷ []) = sextet (a / 4) +ₛ sextet (a % 4 * 16) +ₛ "=="
encode_base64 (a ∷ b ∷ []) =
    sextet (a / 4) +ₛ sextet (a % 4 * 16 + b / 16) +ₛ sextet (b % 16 * 4) +ₛ "="
encode_base64 (a ∷ b ∷ c ∷ rest) =
    sextet (a / 4)
    +ₛ sextet (a % 4 * 16 + b / 16)
    +ₛ sextet (b % 16 * 4 + c / 64)
    +ₛ sextet (c % 64)
    +ₛ encode_base64 rest

abbrev is_base64 : ℕ → Bool
is_base64 c =
    (leb b'A' c && leb c b'Z')
    || (leb b'a' c && leb c b'z')
    || (leb b'0' c && leb c b'9')
    || c == b'+'
    || c == b'/'

abbrev no_more : List ℕ → Bool
no_more [] = true
no_more (c ∷ cs) = false

-- base64.StdEncoding.DecodeString accepts the text, which holds no line break.
unfoldable pub valid_base64 : List ℕ → Bool
valid_base64 [] = true
valid_base64 (a ∷ b ∷ c ∷ d ∷ rest) =
    let more = valid_base64 rest in
    is_base64 a
    && is_base64 b
    && ((is_base64 c && is_base64 d && more)
        || (is_base64 c && d == b'=' && no_more rest)
        || (c == b'=' && d == b'=' && no_more rest))
valid_base64 _ = false

abbrev allowed : String → Bool
allowed kind =
    kind =ₛ "ssh-ed25519"
    || kind =ₛ "ssh-rsa"
    || kind =ₛ "ecdsa-sha2-nistp256"
    || kind =ₛ "ecdsa-sha2-nistp384"
    || kind =ₛ "ecdsa-sha2-nistp521"

abbrev key_fields : List String → Option String
key_fields (kind ∷ body ∷ rest) =
    if not (allowed kind)
    then some "unsupported public key type"
    else if not (valid_base64 (codes body))
    then some "invalid public key encoding"
    else none
key_fields _ = some "invalid public key format"

-- validatePublicKey: the text of its error; the key it returns is the trimmed value.
unfoldable pub public_key_fault : String → Option String
unfolding fields valid_base64
public_key_fault value =
    let key = trim_space value in
    if key =ₛ "" || ltb 8192 (len key) || any (λ c. c == 13 || c == 10) (codes key)
    then some "public key must be one line and no longer than 8192 bytes"
    else key_fields (fields key)

abbrev script : String
script =
    "set -eu\napk add --no-cache openssh-server\ninstall -d -m 700 /root/.ssh\nprintf '%s' \"$1\" | base64 -d > /root/.ssh/authorized_keys\nchmod 600 /root/.ssh/authorized_keys\nrc-update add sshd default || true\nrc-service sshd start || rc-service sshd restart"

unfoldable pub configure_ssh : (rt : Runtime) → String → String → Exec rt.World (Unit {0})
unfolding bytes_of
configure_ssh rt name public_key = do
  validate_name name
  refuse (public_key_fault public_key)
  command rt "configure ssh" (
      "exec"
      ∷ name
      ∷ "--"
      ∷ "sh"
      ∷ "-c"
      ∷ script
      ∷ "natbox"
      ∷ encode_base64 (bytes_of (trim_space public_key))
      ∷ [])
