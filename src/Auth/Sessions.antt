-- ===== src/Auth/Sessions.antt =====
-- admin_auth.go: logins, sessions and the limit on failed attempts.
-- Instants are numbers, from Go's zero time on. A map is an association list whose first entry for a
-- key counts. Each function that takes the mutex is one step. `entered` and `finished` are the two sides
-- of the password check (argon2), between which other requests run; `login` is both with no other
-- request between them, and its readings of the clock, which follow each other at once, are one. The
-- password check and the random tokens are arguments.
pub mod Laws
pub mod Racing
use natbox.Prelude.{
  ℕ, suc, ◌+◌, ◌*◌, Bool, true, false, not, ◌&&◌, ◌||◌, String, Option, none, some, List, [], ◌∷◌,
  ltb, leb, ◌=ₛ◌, if◌then◌else◌, lookup,
}
use natbox.Auth.Compare.{Bytes, subtle_constant_compare}

abbrev pub second : ℕ
second = 1000000000

abbrev pub session_lifetime : ℕ
session_lifetime = 12 * 3600 * second

abbrev pub failure_window : ℕ
failure_window = 5 * 60 * second

pub record AdminSession : Type 0 where
  pub csrf : Bytes
  pub expires_at : ℕ

pub record LoginFailure : Type 0 where
  pub count : ℕ
  pub reset_at : ℕ

pub record AdminAuth : Type 0 where
  pub hash : String
  pub sessions : List (String × AdminSession)
  pub failures : List (String × LoginFailure)

-- delete(m, k)
unfoldable pub remove : {V : Type 0} → String → List (String × V) → List (String × V)
remove k [] = []
remove k ((j, v) ∷ m) = let rest = remove k m in if j =ₛ k then rest else (j, v) ∷ rest

-- m[k] = v
abbrev pub put : {V : Type 0} → String → V → List (String × V) → List (String × V)
put k v m = (k, v) ∷ m

abbrev pub enabled : AdminAuth → Bool
enabled a = not (a.hash =ₛ "")

-- `!ok || now.After(item.ResetAt)`, or fewer than five failures.
abbrev may_try : ℕ → Option LoginFailure → Bool
may_try now none = true
may_try now (some item) = ltb item.reset_at now || ltb item.count 5

unfoldable pub allow_attempt : ℕ → String → AdminAuth → Bool
allow_attempt now ip a = may_try now (lookup ip a.failures)

-- The zero value of a missing entry has the zero time.
abbrev pub or_zero : Option LoginFailure → LoginFailure
or_zero none = record { count = 0; reset_at = 0 }
or_zero (some item) = item

abbrev pub counted : ℕ → LoginFailure → LoginFailure
counted now item =
    if ltb item.reset_at now
    then record { count = 1; reset_at = now + failure_window }
    else record { count = suc item.count; reset_at = item.reset_at }

unfoldable pub failed : ℕ → String → AdminAuth → AdminAuth
failed now ip a = record a {
  failures = put ip (counted now (or_zero (lookup ip a.failures))) a.failures;
}

unfoldable pub clear_failure : String → AdminAuth → AdminAuth
clear_failure ip a = record a { failures = remove ip a.failures }

pub data LoginReply : Type 0 where
  auth_disabled rate_limited invalid_credentials session_error : LoginReply
  logged_in : String → Bytes → ℕ → LoginReply

-- A login: `password` is none for a body that cannot be decoded; `session_id` and `csrf` are the two
-- random tokens, empty where the generator failed.
abbrev pub accepted : (String → String → Bool) → String → Option String → Bool
accepted verify hash none = false
accepted verify hash (some password) = verify hash password

abbrev pub is_empty : Bytes → Bool
is_empty [] = true
is_empty (b ∷ bs) = false

-- The first step of a login: what refuses it before its password is looked at.
unfoldable pub entered : ℕ → String → AdminAuth → Option LoginReply
entered now ip a =
    if not (enabled a)
    then some auth_disabled
    else if not (allow_attempt now ip a)
    then some rate_limited
    else none

-- The steps behind the check of the password, for one that was let in.
unfoldable pub finished :
    (String → String → Bool)
    → ℕ
    → String
    → Option String
    → String
    → Bytes
    → AdminAuth
    → LoginReply × AdminAuth
unfolding failed clear_failure
finished verify now ip password session_id csrf a =
    if not (accepted verify a.hash password)
    then (invalid_credentials, failed now ip a)
    else let cleared = clear_failure ip a in
      if session_id =ₛ "" || is_empty csrf then (session_error, cleared) else (
        logged_in session_id csrf (now + session_lifetime),
        record cleared {
          sessions =
              put session_id (record { csrf = csrf; expires_at = now + session_lifetime })
                cleared.sessions;
        },
      )

unfoldable pub login :
    (String → String → Bool)
    → ℕ
    → String
    → Option String
    → String
    → Bytes
    → AdminAuth
    → LoginReply × AdminAuth
unfolding entered finished
login verify now ip password session_id csrf a = elim (entered now ip a) [
  | some refusal ↦ (refusal, a)
  | none ↦ finished verify now ip password session_id csrf a
]

-- logout: `cookie` is the value of the session cookie, if the request has one.
unfoldable pub logout : Option String → AdminAuth → AdminAuth
logout none a = a
logout (some cookie) a = record a { sessions = remove cookie a.sessions }

abbrev live : ℕ → Option AdminSession → Option AdminSession
live now none = none
live now (some s) = if ltb s.expires_at now then none else some s

-- The session of a request; one that has run out is deleted.
abbrev looked_up : String → Option AdminSession → AdminAuth → Option AdminSession × AdminAuth
looked_up cookie none a = (none, record a { sessions = remove cookie a.sessions })
looked_up cookie (some s) a = (some s, a)

abbrev with_cookie : ℕ → Option String → AdminAuth → Option AdminSession × AdminAuth
with_cookie now none a = (none, a)
with_cookie now (some cookie) a =
    if cookie =ₛ "" then (none, a) else looked_up cookie (live now (lookup cookie a.sessions)) a

unfoldable pub session : ℕ → Option String → AdminAuth → Option AdminSession × AdminAuth
session now cookie a = if not (enabled a) then (none, a) else with_cookie now cookie a

abbrev pub token_matches : Bytes → Option AdminSession → Bool
token_matches header none = false
token_matches header (some s) = not (is_empty header) && subtle_constant_compare s.csrf header

-- The header X-CSRF-Token is the session's token.
unfoldable pub csrf_valid : ℕ → Option String → Bytes → AdminAuth → Bool × AdminAuth
csrf_valid now cookie header a = let (s, a') = session now cookie a in (token_matches header s, a')
