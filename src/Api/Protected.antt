-- ===== src/Api/Protected.antt =====
-- main.go: what a server that has started is protected by.
use Prim.Native.String.{len}
use Prim.Native.String.len
use natbox.Prelude.{
  ℕ, ◌≤◌, ◌≡◌, ◌≢◌, refl, sym, ap, ◌∙◌, Bool, true, false, not, ◌&&◌, String, some, pos, arith, ltb,
  ◌=ₛ◌, ◌⊎◌, inl, inr, Result-cases, ok, err, Exec, reject, ◌>>◌,
}
use mathlib.Core.Path.{subst}
use natbox.Auth.Password.{new_admin_auth}
use natbox.Auth.Sessions.{AdminAuth, AdminSession, session, token_matches}
use natbox.Auth.Middleware.{
  HttpRequest, passes, auth_middleware, auth_middleware_sound, canonical_api_path, is_open,
  bearer_ok, is_safe,
}
use natbox.Api.Startup
use natbox.Api.Startup.{
  Net, Environment, Started, in_range, is_loopback_listen, validate_range, check_started,
  started_of, start,
}

-- A configuration that the checks accept.
record IsAccepted (net : Net) (env : Environment) (st : Started) : Type 0 where
  pub ports : in_range st.config.port_min st.config.port_max (pos 1) (pos 65535) ≡ true
  pub nested :
      in_range st.config.ssh_port_start st.config.ssh_port_end st.config.port_min st.config.port_max
      ≡ true
  pub shielded : (is_loopback_listen net st.listen ≡ true) ⊎ (16 ≤ len st.token)
  pub paired : (st.cert_file =ₛ "") ≡ (st.key_file =ₛ "")
  pub secured : (env "NATBOX_REQUIRE_TLS" =ₛ "1" && st.cert_file =ₛ "") ≡ false

behind_reject :
    {A : Type 0} (b : Bool) (text : String) (n : Exec Unit A) (s : Unit) (a : A)
    → ((reject b text >> n) s).0 ≡ ok a
    → (b ≡ false) × ((n s).0 ≡ ok a)
behind_reject true text n s a h = ground arith
behind_reject false text n s a h = (refl, h)

accepted_last :
    (b : Bool) (text : String) (s : Unit) (a : Unit {0}) → (reject b text s).0 ≡ ok a → b ≡ false
accepted_last true text s a h = ground arith
accepted_last false text s a h = refl

true_of_negated : (b : Bool) → not b ≡ false → b ≡ true
true_of_negated b h = ground arith

local_or_long : (b : Bool) (n : ℕ) → (not b && ltb n 16) ≡ false → (b ≡ true) ⊎ (16 ≤ n)
local_or_long true n h = inl refl
local_or_long false n h = inr (ground arith)

same_eq : (a b : Bool) → not (Startup.same a b) ≡ false → a ≡ b
same_eq a b h = ground arith

check_started-IsAccepted :
    (net : Net) (env : Environment) (st : Started) (s : Unit) (a : Unit {0})
    → (check_started net env st s).0 ≡ ok a
    → IsAccepted net env st
unfolding check_started validate_range
check_started-IsAccepted net env st s a h =
    let (ports, h1) =
      behind_reject (not (in_range st.config.port_min st.config.port_max (pos 1) (pos 65535))) _ _ s
        a h in
    let (nested, h2) =
      behind_reject
        (not (
          in_range st.config.ssh_port_start st.config.ssh_port_end st.config.port_min
            st.config.port_max))
        _ _ s a h1 in
    let (shielded, h3) =
      behind_reject (not (is_loopback_listen net st.listen) && ltb (len st.token) 16) _ _ s a h2 in
    let (paired, h4) =
      behind_reject (not (Startup.same (st.cert_file =ₛ "") (st.key_file =ₛ ""))) _ _ s a h3 in
    record {
      ports = true_of_negated _ ports;
      nested = true_of_negated _ nested;
      shielded = local_or_long (is_loopback_listen net st.listen) (len st.token) shielded;
      paired = same_eq (st.cert_file =ₛ "") (st.key_file =ₛ "") paired;
      secured = accepted_last (env "NATBOX_REQUIRE_TLS" =ₛ "1" && st.cert_file =ₛ "") _ s a h4;
    }

ok_path : (a b : Started) → ok a ≡ ok b → a ≡ b
ok_path a b h = ap (λ r. elim r [ ok x ↦ x | err e ↦ a ]) h

start_ok :
    (net : Net) (env : Environment) (auth : AdminAuth) (a : Unit {0})
    → new_admin_auth (env "NATBOX_ADMIN_PASSWORD_HASH") ≡ ok auth
    → (check_started net env (started_of env auth) tt).0 ≡ ok a
    → (start net env tt).0 ≡ ok (started_of env auth)
unfolding start
start_ok net env auth a parsed checked = rw (parsed, checked) refl

-- A server starts only with port ranges that are valid and nested, on a loopback address or with a token of at
-- least 16 bytes, and with a certificate and a key or neither, both where TLS is required.
start-IsAccepted :
    (net : Net) (env : Environment) (st : Started)
    → (start net env tt).0 ≡ ok st
    → IsAccepted net env st
unfolding start
start-IsAccepted net env st h =
    elim (Result-cases (new_admin_auth (env "NATBOX_ADMIN_PASSWORD_HASH"))) [
      | inr (e, broke) ↦ ground (arith, broke, h)
      | inl (auth, parsed) ↦
          elim (Result-cases (check_started net env (started_of env auth) tt).0) [
            | inr (e, refused) ↦ ground (arith, parsed, refused, h)
            | inl (a, checked) ↦
                let accepted =
                  check_started-IsAccepted net env (started_of env auth) tt a checked in
                let same_start : started_of env auth ≡ st =
                  ok_path (started_of env auth) st
                    (sym (start_ok net env auth a parsed checked) ∙ h) in
                subst (IsAccepted net env) same_start accepted
          ]
    ]

token_set : (token : String) → 16 ≤ len token → token ≢ ""
token_set token long e = ground (arith, long, ap len e, len.nil)

-- On a server that has started and listens beyond the loopback interface, a request to a protected path reaches
-- its handler only with the bearer token, or in a live session and, where its method needs one, with the CSRF token.
pub start_protected :
    (net : Net) (env : Environment) (st : Started) (now : ℕ) (r : HttpRequest) (a : AdminAuth)
    → (start net env tt).0 ≡ ok st
    → is_loopback_listen net st.listen ≡ false
    → is_open (canonical_api_path r.path) ≡ false
    → (auth_middleware st.token now r a).0 ≡ passes
    → (bearer_ok st.token r ≡ true)
      ⊎ ((s : AdminSession) × ((session now r.cookie a).0 ≡ some s)
          × ((is_safe r ≡ true)
              ⊎ ((canonical_api_path r.path ≡ "/api/auth/logout")
                  ⊎ (token_matches r.csrf_header (some s) ≡ true))))
start_protected net env st now r a started remote protected h =
    elim (auth_middleware_sound st.token now r a protected h) [
      | inl bearer ↦ inl bearer
      | inr (inl (s, on, live, covered)) ↦ inr (s, live, covered)
      | inr (inr (no_token, off)) ↦ elim (start-IsAccepted net env st started).shielded [
        | inl near ↦ ground (arith, near, remote)
        | inr long ↦ elim (token_set st.token long no_token) [ ]
      ]
    ]
