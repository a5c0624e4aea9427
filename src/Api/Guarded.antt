-- ===== src/Api/Guarded.antt =====
-- main.go: requests that the middleware has no reason to let through.
use natbox.Prelude.{
  ℕ, ◌≡◌, refl, ap, true, false, String, Option, none, some, List, arith, ◌⊎◌, inl, inr, Bool-cases,
  ◌=ₛ◌, attempt,
}
use natbox.Incus.Runner.{Runtime}
use natbox.Store.{ManagedContainer}
use natbox.App.Base.{System, record_audit}
use natbox.App.Audited.{record_audit-containers}
use natbox.Auth.Sessions.{AdminAuth}
use natbox.Auth.Middleware.{
  HttpRequest, Verdict, passes, auth_required, csrf_required, auth_middleware,
  auth_middleware_sound, Authorised, canonical_api_path, is_open,
}
use natbox.Api.Answer.{Call, Setup, Moment, Server, failed, request_of}
use natbox.Api.Targets
use natbox.Api.Targets.{Target, target}
use natbox.Api.Open.{is_public, open_public}
use natbox.Api.Reading
use natbox.Api.Administration
use natbox.Api.Serve.{on_target, admitted, serve}

-- The runtime and the declarations.
abbrev pub kept : {rt : Runtime} → System rt → rt.World × List ManagedContainer
kept s = (s.world, s.db.containers)

Verdict-cases : (v : Verdict) → (v ≡ passes) ⊎ ((v ≡ auth_required) ⊎ (v ≡ csrf_required))
Verdict-cases passes = inl refl
Verdict-cases auth_required = inr (inl refl)
Verdict-cases csrf_required = inr (inr refl)

open_passes :
    (token : String) (now : ℕ) (r : HttpRequest) (a : AdminAuth)
    → is_open (canonical_api_path r.path) ≡ true
    → auth_middleware token now r a ≡ (passes, a)
unfolding auth_middleware
open_passes token now r a h = rw h refl

module _ {rt : Runtime} (setup : Setup) (moment : Moment) (call : Call) where
  audited_login-kept :
      (result : Option String) (s : System rt)
      → kept (Administration.audited_login setup moment call result s) ≡ kept s
  unfolding Administration.audited_login record_audit attempt
  audited_login-kept none s = refl
  audited_login-kept (some result) s =
      ap (λ c. (s.world, c))
        (record_audit-containers (request_of moment call) "auth.login" "admin" "" result "" s)

  auth_login-kept :
      (s : Server rt)
      → kept (Administration.auth_login setup moment call s).1.system ≡ kept s.system
  unfolding Administration.auth_login
  auth_login-kept s = elim (Bool-cases (call.http.method =ₛ "POST")) [
    | inl same ↦ rw same (audited_login-kept _ s.system)
    | inr other ↦ rw other refl
  ]

  public-kept :
      (t : Target)
      → is_public t ≡ true
      → (s : Server rt) → kept (on_target setup moment call t s).1.system ≡ kept s.system
  unfolding on_target Reading.health Administration.auth_status
  public-kept Targets.health h s = refl
  public-kept Targets.auth_status h s = elim (Bool-cases (call.http.method =ₛ "GET")) [
    | inl same ↦ rw same refl
    | inr other ↦ rw other refl
  ]
  public-kept Targets.auth_login h s = auth_login-kept s
  public-kept Targets.index h s = refl
  public-kept Targets.unrouted h s = refl
  public-kept Targets.redirect h s = refl
  public-kept Targets.metrics h s = ground arith
  public-kept Targets.diagnostics h s = ground arith
  public-kept Targets.auth_logout h s = ground arith
  public-kept Targets.auth_me h s = ground arith
  public-kept Targets.capabilities h s = ground arith
  public-kept Targets.host h s = ground arith
  public-kept Targets.ports h s = ground arith
  public-kept Targets.templates h s = ground arith
  public-kept Targets.managed_containers h s = ground arith
  public-kept Targets.audit_events h s = ground arith
  public-kept Targets.backup h s = ground arith
  public-kept Targets.restore_backup h s = ground arith
  public-kept Targets.reconcile_api h s = ground arith
  public-kept Targets.repair_reconcile_api h s = ground arith
  public-kept Targets.endless h s = ground arith
  public-kept (Targets.containers path) h s = ground arith
  public-kept (Targets.container_action path) h s = ground arith

  -- A request to a protected path that is not authorised is answered with 401 or 403, and changes nothing
  -- but the sessions that have run out.
  pub serve_refused :
      (s : Server rt)
      → is_open (canonical_api_path call.http.path) ≡ false
      → ¬ Authorised setup.token moment.now call.http s.auth
      → (((serve setup moment call s).0 ≡ failed 401 "auth_required" "authentication required")
          ⊎ ((serve setup moment call s).0 ≡ failed 403 "csrf_required" "csrf token required"))
        × ((serve setup moment call s).1.system ≡ s.system)
  unfolding serve admitted
  serve_refused s protected h =
      elim (Verdict-cases (auth_middleware setup.token moment.now call.http s.auth).0) [
        | inl passed ↦
            elim (h
              (auth_middleware_sound setup.token moment.now call.http s.auth protected passed)) [ ]
        | inr (inl no_auth) ↦ rw no_auth (inl refl, refl)
        | inr (inr no_csrf) ↦ rw no_csrf (inr refl, refl)
      ]

  -- No request changes the runtime or the declarations without being authorised, on any path.
  pub serve_unauthorised :
      (s : Server rt)
      → ¬ Authorised setup.token moment.now call.http s.auth
      → kept (serve setup moment call s).1.system ≡ kept s.system
  unfolding serve admitted
  serve_unauthorised s h = elim (Bool-cases (is_open (canonical_api_path call.http.path))) [
    | inr protected ↦ ap kept (serve_refused s protected h).1
    | inl opened ↦
        rw (open_passes setup.token moment.now call.http s.auth opened)
          (public-kept _ (open_public call.http.path opened) s)
  ]
