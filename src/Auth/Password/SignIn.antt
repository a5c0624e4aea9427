-- ===== src/Auth/Password/SignIn.antt =====
-- cmd/natbox-hash/main.go, internal/auth/password.go and admin_auth.go: from the printed hash to a login.
use Prim.Native.Char.{Char}
use text.Mathlib.TextLemmas.{cons-append}
use natbox.Prelude.{
  is_space, Bool-cases, inl, inr, count_chars, lookup, Option, ℕ, ◌+◌, ◌≤◌, ◌≡◌, ◌≢◌, refl, ap, ◌∙◌,
  Bool, true, false, String, ◌+ₛ◌, some, [], ◌∷◌, arith, ◌=ₛ◌, length, ok, eq_iff,
}
use natbox.Prelude.Text.Space.{spaceless, spaceless-append, trim_space-line}
use natbox.Prelude.Text.Base64.{encode_raw, spaceless-encode_raw}
use natbox.Auth.Compare.{Bytes, AreBytes}
use natbox.Auth.Sessions.{
  AdminAuth, login, entered, finished, logged_in, session_lifetime, is_empty, allow_attempt,
  accepted,
}
use natbox.Auth.Password
use natbox.Auth.Password.{new_admin_auth, started_auth, verify_password, hash_head}
use natbox.Auth.Password.RoundTrip.{
  IsIdkey, default_key, hash_text, parse-hash_text, hash_password-verify_password,
}
use natbox.Auth.Password.Command.{prompt, hash_command}

is_empty-filled : (b : Bytes) → b ≢ [] → is_empty b ≡ false
is_empty-filled [] h = elim (h refl) [ ]
is_empty-filled (x ∷ b) h = refl

head_spaceless : spaceless hash_head ≡ true
unfolding spaceless is_space
head_spaceless = refl

dollar_spaceless : spaceless "$" ≡ true
unfolding spaceless is_space
dollar_spaceless = refl

spaceless-hash_text :
    (salt key : Bytes) → AreBytes salt → AreBytes key → spaceless (hash_text salt key) ≡ true
spaceless-hash_text salt key bs bk =
    spaceless-append hash_head (encode_raw salt +ₛ ("$" +ₛ encode_raw key)) head_spaceless (
      spaceless-append (encode_raw salt) ("$" +ₛ encode_raw key) (spaceless-encode_raw salt bs)
        (spaceless-append "$" (encode_raw key) dollar_spaceless (spaceless-encode_raw key bk)))

unlike : (s t : String) → s ≢ t → (s =ₛ t) ≡ false
unlike s t h = elim (Bool-cases (s =ₛ t)) [
  | inl same ↦ absurd (h ((eq_iff s t).0 same))
  | inr other ↦ other
]

filled_lem : (c : Char) (s : String) → (String.◌∷◌ c s =ₛ "") ≡ false
unfolding count_chars
filled_lem c s = unlike (String.◌∷◌ c s) "" λ e. absurd (omega (arith, ap count_chars e))

hash_text-filled : (salt key : Bytes) → (hash_text salt key =ₛ "") ≡ false
hash_text-filled salt key =
    ap (λ t. t =ₛ "") (cons-append "$" "argon2id$v=19$m=65536,t=3,p=2$" _) ∙ filled_lem "$" _

-- The printed line, with its line break, is accepted as the administrator's hash.
new_admin_auth-line :
    (salt key : Bytes)
    → AreBytes salt
    → AreBytes key
    → length salt ≡ 16
    → length key ≡ 32
    → new_admin_auth (hash_text salt key +ₛ "\n") ≡ ok (started_auth (hash_text salt key))
unfolding new_admin_auth
new_admin_auth-line salt key bs bk ls lk =
    rw
      (
        trim_space-line (hash_text salt key) (spaceless-hash_text salt key bs bk),
        hash_text-filled salt key,
        parse-hash_text salt key bs bk (omega arith) (omega arith),
      )
      refl

-- The server's check of a password, given the bytes of a text.
abbrev pub checks : Password.Idkey → (String → Bytes) → String → String → Bool
checks idkey bytes_of hash password = verify_password idkey hash (bytes_of password)

first_attempt : (now : ℕ) (ip hash : String) → allow_attempt now ip (started_auth hash) ≡ true
unfolding allow_attempt lookup
first_attempt now ip hash = refl

-- The login of an allowed attempt with an accepted password.
login_succeeds :
    (verify : String → String → Bool) (now : ℕ) (ip sid : String) (password : Option String)
    (csrf : Bytes) (a : AdminAuth)
    → (a.hash =ₛ "") ≡ false
    → allow_attempt now ip a ≡ true
    → accepted verify a.hash password ≡ true
    → (sid =ₛ "") ≡ false
    → is_empty csrf ≡ false
    → (login verify now ip password sid csrf a).0 ≡ logged_in sid csrf (now + session_lifetime)
unfolding login entered finished
login_succeeds verify now ip sid password csrf a h allowed right made token = ground arith

-- natbox-hash and the server fit together: for a password of 12 to 1024 bytes the command ends with the
-- status 0 and prints a line which, as it is printed, the server accepts as the administrator's hash;
-- and a login with that password then succeeds, whenever and from wherever it comes first, if the
-- random tokens could be made.
pub hash_command-login :
    (idkey : Password.Idkey) (bytes_of : String → Bytes) (salt : Bytes) (password : String)
    (now : ℕ) (ip sid : String) (csrf : Bytes)
    → IsIdkey idkey
    → AreBytes salt
    → length salt ≡ Password.default_salt_length
    → 12 ≤ length (bytes_of password)
    → length (bytes_of password) ≤ 1024
    → sid ≢ ""
    → csrf ≢ []
    → let printed = hash_command idkey (ok salt) (ok (bytes_of password)) in
      (line : String) × (a : AdminAuth) × (printed
        ≡ record { stdout = prompt ∷ "\n" ∷ line ∷ []; stderr = []; status = 0 })
      × (new_admin_auth line ≡ ok a)
      × ((login (checks idkey bytes_of) now ip (some password) sid csrf a).0
          ≡ logged_in sid csrf (now + session_lifetime))
unfolding hash_command
hash_command-login idkey bytes_of salt password now ip sid csrf law bs ls low high made token =
    let key = default_key idkey salt (bytes_of password) in
    let text = hash_text salt key in
    let known =
      hash_password-verify_password idkey salt (bytes_of password) (bytes_of password) law bs ls low
        high in
    (
      text +ₛ "\n",
      started_auth text,
      rw (known.0) refl,
      new_admin_auth-line salt key bs (law.bytes _ _ _ _ _ _) ls (law.long _ _ _ _ _ _),
      login_succeeds (checks idkey bytes_of) now ip sid (some password) csrf (started_auth text)
          (hash_text-filled salt key) (first_attempt now ip text) known.2 (unlike sid "" made)
          (is_empty-filled csrf token),
    )
