-- ===== src/Auth/Tests.antt =====
-- admin_auth.go and authMiddleware on small inputs.
use natbox.Prelude.{
  ℕ, zero, suc, ap, length, parse_digits, split_on, ok, ◌≢◌, ◌%◌, ◌<◌, ◌+◌, ◌*◌, ◌≤◌, ◌≡◌, ◌↔◌,
  refl, Bool, true, String, some, List, [], ◌∷◌, arith, lookup, ◌=ₛ◌, trim_prefix, drop_chars,
  count_chars, All,
}
use natbox.Auth.Compare.{Bytes, AreBytes}
use natbox.Prelude.Text.Cut.{cut_at}
use natbox.Prelude.Text.Base64.{encode_raw, decode_raw}
use natbox.Prelude.Text.{codes}
use natbox.Auth.Password.{new_admin_auth}
use natbox.Auth.Password.Command.{prompt, hash_command}
use natbox.Auth.Password.SignIn.{checks, hash_command-login}
use natbox.Auth.Password
use natbox.Auth.Password.RoundTrip.{IsIdkey, default_key, hash_text, hash_password-verify_password}
use natbox.Auth.Password.Parsed.{IsUsable, parse-IsUsable}
use natbox.Auth.Sessions.{
  AdminAuth, AdminSession, logged_in, login, entered, session, csrf_valid, allow_attempt, accepted,
  session_lifetime, second, clear_failure, remove,
}
use natbox.Auth.Sessions.Laws.{login-session}
use natbox.Auth.Sessions.Racing.{
  LoginEvent, enters, finishes, let_in, at_once, IsGuess, let_in-at_once,
}
use natbox.Auth.Middleware.{
  HttpRequest, auth_middleware, Authorised, auth_middleware_sound, canonical_api_path,
}

-- A check that takes one password.
abbrev verify : String → String → Bool
verify hash password = password =ₛ "correct"

abbrev noon : ℕ
noon = 43200 * second

abbrev admin : AdminSession
admin = record { csrf = 97 ∷ 98 ∷ []; expires_at = noon }

abbrev auth : AdminAuth
auth = record { hash = "argon2id"; sessions = ("c1", admin) ∷ []; failures = [] }

abbrev get_host : HttpRequest
get_host = record {
  method = "GET";
  path = "/api/v1/host";
  authorization = "";
  cookie = some "c1";
  csrf_header = [];
}

auth_middleware_sound_example : Authorised "" 5 get_host auth
unfolding canonical_api_path auth_middleware session csrf_valid trim_prefix lookup drop_chars
    count_chars
auth_middleware_sound_example = auth_middleware_sound "" 5 get_host auth refl refl

login-session_example :
    (accepted verify auth.hash (some "correct") ≡ true)
    × (allow_attempt 7 "10.0.0.1" auth ≡ true)
    × ((session 9 (some "c2") (login verify 7 "10.0.0.1" (some "correct") "c2" (99 ∷ []) auth).1).0
        ≡ some (record { csrf = 99 ∷ []; expires_at = 7 + session_lifetime }))
unfolding login allow_attempt lookup clear_failure remove
login-session_example =
    login-session verify 7 9 "10.0.0.1" "c2" "c2" (some "correct") (99 ∷ []) (99 ∷ [])
      (7 + session_lifetime) auth refl (omega arith)

abbrev guess : ℕ → LoginEvent
guess now = finishes now (some "guess") "c3" (99 ∷ [])

-- Ten logins that are let in before the first of them has counted its failure.
abbrev burst : List LoginEvent
burst =
    enters 1
    ∷ enters 1
    ∷ enters 1
    ∷ enters 1
    ∷ enters 1
    ∷ enters 1
    ∷ enters 1
    ∷ enters 1
    ∷ enters 1
    ∷ enters 1
    ∷ []

all_at_once : let_in verify "10.0.0.9" 0 burst auth ≡ 10
unfolding let_in entered allow_attempt lookup
all_at_once = refl

abbrev interleaved : List LoginEvent
interleaved = enters 1 ∷ enters 2 ∷ guess 3 ∷ enters 4 ∷ guess 5 ∷ []

let_in-at_once_example :
    let_in verify "10.0.0.9" 0 interleaved auth ≤ 4 + at_once verify "10.0.0.9" 0 interleaved auth
unfolding lookup
let_in-at_once_example = let_in-at_once verify "10.0.0.9" 1 interleaved auth (omega arith) refl sent
  where
    sent : All (IsGuess verify "10.0.0.9" auth.hash 1) interleaved
    sent = (
      (omega arith, omega arith),
      (
        (omega arith, omega arith),
        (
          (refl, omega arith, omega arith),
          ((omega arith, omega arith), ((refl, omega arith, omega arith), tt)),
        ),
      ),
    )

-- A key that forgets all but the length of the password.
abbrev filled : ℕ → ℕ → Bytes
filled zero b = []
filled (suc n) b = b ∷ filled n b

abbrev idkey : Password.Idkey
idkey password salt t m p n = filled n (length password % 256)

filled_long : (n b : ℕ) → length (filled n b) ≡ n
filled_long zero b = refl
filled_long (suc n) b = ap suc (filled_long n b)

filled_bytes : (n b : ℕ) → b < 256 → AreBytes (filled n b)
filled_bytes zero b h = tt
filled_bytes (suc n) b h = (h, filled_bytes n b h)

idkey-IsIdkey : IsIdkey idkey
idkey-IsIdkey = record {
  long = λ password salt t m p n. filled_long n (length password % 256);
  bytes = λ password salt t m p n. filled_bytes n (length password % 256) (omega arith);
}

abbrev salt : Bytes
salt = filled 16 7

abbrev secret : Bytes
secret = filled 12 97

abbrev guessed_secret : Bytes
guessed_secret = filled 3 98

abbrev secret_text : String
secret_text = hash_text salt (default_key idkey salt secret)

hash_password-verify_password_example :
    (Password.hash_password idkey (ok salt) secret ≡ ok secret_text)
    × ((Password.verify_password idkey secret_text guessed_secret ≡ true) ↔ (
        (guessed_secret ≢ [])
        × (default_key idkey salt guessed_secret ≡ default_key idkey salt secret)))
    × (Password.verify_password idkey secret_text secret ≡ true)
hash_password-verify_password_example =
    hash_password-verify_password idkey salt secret guessed_secret idkey-IsIdkey
      (filled_bytes 16 7 (omega arith)) refl (omega arith) (omega arith)

parse-IsUsable_example : IsUsable (record {
  memory = 65536;
  iterations = 3;
  parallelism = 2;
  salt = salt;
  hash = default_key idkey salt secret;
})
unfolding Password.parse Password.read_params Password.parse_uint parse_digits lookup cut_at
    split_on decode_raw encode_raw
parse-IsUsable_example =
    parse-IsUsable secret_text
      (record {
        memory = 65536;
        iterations = 3;
        parallelism = 2;
        salt = salt;
        hash = default_key idkey salt secret;
      })
      refl

-- A text's bytes, where it is ASCII.
abbrev typed : Bytes
typed = codes "correct horse"

hash_command-login_example :
    let printed = hash_command idkey (ok salt) (ok typed) in
    (line : String) × (a : AdminAuth) × (printed
      ≡ record { stdout = prompt ∷ "\n" ∷ line ∷ []; stderr = []; status = 0 })
    × (new_admin_auth line ≡ ok a)
    × ((login (checks idkey codes) 7 "10.0.0.1" (some "correct horse") "c2" (99 ∷ []) a).0
        ≡ logged_in "c2" (99 ∷ []) (7 + session_lifetime))
hash_command-login_example =
    hash_command-login idkey codes salt "correct horse" 7 "10.0.0.1" "c2" (99 ∷ []) idkey-IsIdkey
      (filled_bytes 16 7 (omega arith)) refl (omega arith) (omega arith) (λ e. cc)
      (λ e. ground (arith, e))
