-- ===== src/Auth/Middleware.antt =====
-- main.go: authMiddleware, canonicalAPIPath and versionedAPI.
use natbox.Prelude.{
  ℕ, ◌≡◌, ◌≢◌, ◌⊎◌, inl, inr, refl, Bool, true, false, not, ◌&&◌, ◌||◌, String, ◌+ₛ◌, Option, none,
  some, arith, eq_iff, ◌=ₛ◌, if◌then◌else◌, starts_with, trim_prefix, drop_chars, count_chars,
  Bool-cases, starts_with-append, append_assoc, ap, sym, ◌∙◌,
}
use text.Mathlib.TextLemmas.{cons-append, nil-append, cons-ne-nil}
use natbox.Auth.Compare.{Bytes}
use natbox.Auth.Sessions.{AdminAuth, AdminSession, enabled, session, csrf_valid, token_matches}

pub record HttpRequest : Type 0 where
  pub method : String
  pub path : String
  pub authorization : String
  pub cookie : Option String
  pub csrf_header : Bytes

unfoldable pub canonical_api_path : String → String
canonical_api_path path =
    if starts_with path "/api/v1/" then "/api" +ₛ trim_prefix path "/api/v1" else path

abbrev rooted : String → String
rooted path = if starts_with path "/" then path else "/" +ₛ path

-- The path that versionedAPI passes on to the routes.
unfoldable pub versioned_path : String → String
versioned_path path =
    let rest = trim_prefix path "/api/v1" in "/api" +ₛ rooted (if rest =ₛ "" then "/" else rest)

-- What is served to everybody.
abbrev pub is_open : String → Bool
is_open api_path =
    not (starts_with api_path "/api/")
    || api_path =ₛ "/api/health"
    || api_path =ₛ "/api/auth/status"
    || api_path =ₛ "/api/auth/login"

abbrev pub bearer_ok : String → HttpRequest → Bool
bearer_ok token r = not (token =ₛ "") && r.authorization =ₛ ("Bearer " +ₛ token)

abbrev pub is_safe : HttpRequest → Bool
is_safe r = r.method =ₛ "GET" || r.method =ₛ "HEAD"

pub data Verdict : Type 0 where
  passes auth_required csrf_required : Verdict

-- The CSRF check behind a live session, which looks the session up again.
abbrev check_csrf : ℕ → HttpRequest → AdminAuth → Verdict × AdminAuth
check_csrf now r a =
    if not (is_safe r) && not (canonical_api_path r.path =ₛ "/api/auth/logout")
    then (let (valid, a') = csrf_valid now r.cookie r.csrf_header a in
        (if valid then passes else csrf_required, a'))
    else (passes, a)

abbrev with_session : ℕ → HttpRequest → Option AdminSession → AdminAuth → Verdict × AdminAuth
with_session now r none a = (auth_required, a)
with_session now r (some s) a = check_csrf now r a

-- authMiddleware: whether the request reaches its handler.
unfoldable pub auth_middleware : String → ℕ → HttpRequest → AdminAuth → Verdict × AdminAuth
auth_middleware token now r a =
    if is_open (canonical_api_path r.path)
    then (passes, a)
    else if bearer_ok token r
    then (passes, a)
    else if enabled a
    then (let (s, a') = session now r.cookie a in with_session now r s a')
    else if not (token =ₛ "")
    then (auth_required, a)
    else (passes, a)

-- What lets a request to a protected path through: the bearer token; or a live session, with the CSRF
-- token where the method may change something; or that neither a token nor an administrator is set up.
abbrev pub Authorised : String → ℕ → HttpRequest → AdminAuth → Type 0
Authorised token now r a =
    (bearer_ok token r ≡ true)
    ⊎ (((s : AdminSession) × (enabled a ≡ true)
          × ((session now r.cookie a).0 ≡ some s)
          × ((is_safe r ≡ true)
              ⊎ ((canonical_api_path r.path ≡ "/api/auth/logout")
                  ⊎ (token_matches r.csrf_header (some s) ≡ true))))
        ⊎ ((token ≡ "") × (enabled a ≡ false)))

-- A live session is found again, unchanged, when it is looked up a second time.
session_again :
    (now : ℕ) (cookie : Option String) (a : AdminAuth) (s : AdminSession)
    → (session now cookie a).0 ≡ some s
    → session now cookie (session now cookie a).1 ≡ (some s, (session now cookie a).1)
unfolding session
session_again now cookie a s h = ground arith

-- A request that passes the CSRF check is of a safe method, a logout, or carries the session's token.
check_csrf_passes :
    (now : ℕ) (r : HttpRequest) (a a' : AdminAuth) (s : AdminSession)
    → session now r.cookie a' ≡ (some s, a')
    → (check_csrf now r a').0 ≡ passes
    → (is_safe r ≡ true)
      ⊎ ((canonical_api_path r.path ≡ "/api/auth/logout")
          ⊎ (token_matches r.csrf_header (some s) ≡ true))
unfolding csrf_valid
check_csrf_passes now r a a' s again h =
    ground (arith, eq_iff (canonical_api_path r.path) "/api/auth/logout")

auth_required_ne_passes : auth_required ≢ passes
auth_required_ne_passes h = ground arith

-- The part of the middleware behind the session lookup.
with_session_passes :
    (token : String) (now : ℕ) (r : HttpRequest) (a : AdminAuth)
    → enabled a ≡ true
    → (found : Option AdminSession) → (session now r.cookie a).0 ≡ found
    → (with_session now r found (session now r.cookie a).1).0 ≡ passes
    → Authorised token now r a
with_session_passes token now r a on none e h = elim (auth_required_ne_passes h) [ ]
with_session_passes token now r a on (some s) e h = inr (
    inl (
      s,
      on,
      e,
      check_csrf_passes now r a (session now r.cookie a).1 s (session_again now r.cookie a s e) h,
    ))

-- No request to a protected path reaches its handler unless it is authorised.
pub auth_middleware_sound :
    (token : String) (now : ℕ) (r : HttpRequest) (a : AdminAuth)
    → is_open (canonical_api_path r.path) ≡ false
    → (auth_middleware token now r a).0 ≡ passes
    → Authorised token now r a
unfolding auth_middleware
auth_middleware_sound token now r a protected h = elim (Bool-cases (bearer_ok token r)) [
  | inl bearer ↦ inl bearer
  | inr no_bearer ↦ elim (Bool-cases (enabled a)) [
    | inl on ↦ with_session_passes token now r a on (session now r.cookie a).0 refl (ground arith)
    | inr off ↦ inr (inr (ground (arith, eq_iff token ""), off))
  ]
]

drop_chars-append : (p t : String) → drop_chars (count_chars p) (p +ₛ t) ≡ t
unfolding drop_chars count_chars
drop_chars-append String.[] t = nil-append t
drop_chars-append (String.◌∷◌ c p) t = rw (cons-append c p t) (drop_chars-append p t)

trim_prefix-append : (p t : String) → trim_prefix (p +ₛ t) p ≡ t
unfolding trim_prefix
trim_prefix-append p t = rw (starts_with-append p t) (drop_chars-append p t)

slash : (t : String) → "/" +ₛ t ≡ String.◌∷◌ "/" t
slash t = cons-append "/" "" t ∙ ap (λ u. String.◌∷◌ "/" u) (nil-append t)

after_version : (t : String) → trim_prefix ("/api/v1/" +ₛ t) "/api/v1" ≡ String.◌∷◌ "/" t
after_version t =
    ap (λ u. trim_prefix u "/api/v1") (append_assoc "/api/v1" "/" t)
    ∙ trim_prefix-append "/api/v1" ("/" +ₛ t)
    ∙ slash t

-- A path that begins with a slash stays as it is.
rooted_slash : (t : String) → rooted (String.◌∷◌ "/" t) ≡ String.◌∷◌ "/" t
rooted_slash t = rw (sym (slash t), starts_with-append "/" t) refl

slash_nonempty : (t : String) → (String.◌∷◌ "/" t =ₛ "") ≡ false
slash_nonempty t = ground (arith, eq_iff (String.◌∷◌ "/" t) "", cons-ne-nil "/" t)

pub versioned_path-append : (t : String) → versioned_path ("/api/v1/" +ₛ t) ≡ "/api/" +ₛ t
unfolding versioned_path
versioned_path-append t =
    rw (after_version t, slash_nonempty t, rooted_slash t, sym (slash t))
      (sym (append_assoc "/api" "/" t))

-- A versioned path is served under the path that the middleware has judged.
pub versioned_path-canonical :
    (t : String) → versioned_path ("/api/v1/" +ₛ t) ≡ canonical_api_path ("/api/v1/" +ₛ t)
unfolding versioned_path canonical_api_path
versioned_path-canonical t =
    rw (starts_with-append "/api/v1/" t, after_version t, slash_nonempty t, rooted_slash t) refl
