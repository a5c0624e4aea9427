-- ===== src/Auth/Sessions/Laws.antt =====
-- admin_auth.go: the life of a session, from login to logout or expiry.
use natbox.Prelude.{
  ℕ, ◌+◌, ◌≤◌, ◌<◌, ◌≡◌, ◌↔◌, Bool, true, false, String, Option, none, some, List, [], ◌∷◌, arith,
  eq_iff, eq_refl, ◌=ₛ◌, if◌then◌else◌, lookup,
}
use natbox.Auth.Compare.{Bytes, AreBytes, subtle_constant_compare-eq}
use natbox.Auth.Sessions.{
  AdminAuth, AdminSession, logged_in, remove, allow_attempt, login, logout, session, csrf_valid,
  session_lifetime, accepted, is_empty,
}

pub lookup-remove :
    {V : Type 0} (k j : String) (m : List (String × V))
    → lookup j (remove k m) ≡ (if k =ₛ j then none else lookup j m)
unfolding lookup remove
lookup-remove k j [] = ground arith
lookup-remove k j ((i, v) ∷ m) =
    ground (arith, eq_iff i k, eq_iff i j, eq_iff k j, lookup-remove k j m)

-- A login that succeeds was with an accepted password and an attempt that was allowed, and gives a
-- session: until twelve hours later its cookie is answered by the CSRF token of the reply.
pub login-session :
    (verify : String → String → Bool) (now later : ℕ) (ip sid sid' : String)
    (password : Option String) (csrf csrf' : Bytes) (until : ℕ) (a : AdminAuth)
    → (login verify now ip password sid csrf a).0 ≡ logged_in sid' csrf' until
    → later ≤ now + session_lifetime
    → (accepted verify a.hash password ≡ true)
      × (allow_attempt now ip a ≡ true)
      × ((session later (some sid') (login verify now ip password sid csrf a).1).0
          ≡ some (record { csrf = csrf'; expires_at = until }))
unfolding login session lookup
login-session verify now later ip sid sid' password csrf csrf' until a h le =
    ground (arith, eq_refl sid)

-- A login that fails opens no session.
login_fails :
    (verify : String → String → Bool) (now : ℕ) (ip sid : String) (password : Option String)
    (csrf : Bytes) (a : AdminAuth)
    → accepted verify a.hash password ≡ false
    → ((login verify now ip password sid csrf a).1.sessions ≡ a.sessions)
      × ((login verify now ip password sid csrf a).1.hash ≡ a.hash)
unfolding login
login_fails verify now ip sid password csrf a h = ground arith

-- After a logout its cookie opens no session, and every other cookie what it did before.
logout-session :
    (now : ℕ) (cookie other : String) (a : AdminAuth)
    → ((session now (some cookie) (logout (some cookie) a)).0 ≡ none)
      × ((session now (some other) (logout (some cookie) a)).0
          ≡ (if cookie =ₛ other then none else (session now (some other) a).0))
unfolding logout session
logout-session now cookie other a = ground (
  arith,
  eq_refl cookie,
  eq_iff cookie other,
  lookup-remove cookie cookie a.sessions,
  lookup-remove cookie other a.sessions,
)

-- A session that has run out is refused and forgotten, so its cookie stays refused at every time.
session_expired :
    (now later : ℕ) (cookie : String) (s : AdminSession) (a : AdminAuth)
    → lookup cookie a.sessions ≡ some s
    → s.expires_at < now
    → ((session now (some cookie) a).0 ≡ none)
      × ((session later (some cookie) (session now (some cookie) a).1).0 ≡ none)
unfolding session
session_expired now later cookie s a found over =
    ground (arith, lookup-remove cookie cookie a.sessions, eq_refl cookie)

-- For a request with a live session, whose token and whose header are byte texts, the CSRF check passes
-- exactly if the header is the session's token and not empty.
csrf_valid-session :
    (now : ℕ) (cookie : Option String) (header : Bytes) (a : AdminAuth) (s : AdminSession)
    → (session now cookie a).0 ≡ some s
    → AreBytes s.csrf
    → AreBytes header
    → ((csrf_valid now cookie header a).0 ≡ true) ↔ ((is_empty header ≡ false) × (s.csrf ≡ header))
unfolding csrf_valid
csrf_valid-session now cookie header a s found bs bh =
    let law = subtle_constant_compare-eq s.csrf header bs bh in
    rw found
      ((λ t. (ground arith, law.0 (ground arith))), λ p. let same = law.1 p.1 in ground arith)
