-- ===== src/Api/Safe.antt =====
-- main.go: requests with the methods GET and HEAD, from the middleware to their handlers.
use natbox.Prelude.{
  ◌≡◌, refl, Bool, true, false, String, none, List, [], ◌∷◌, arith, eq_iff, ◌=ₛ◌, inl, inr,
  Bool-cases, trim_prefix, ◌⊎◌, split_on,
}
use natbox.Prelude.Text.Cut.{trim_of}
use natbox.Incus.Runner.{Runtime}
use natbox.Incus.Query.{info}
use natbox.Incus.Forwards.Listing.{list_port_forwards}
use natbox.Incus.Quiet.{IsQuiet, info-Stays, list_port_forwards-Stays}
use natbox.Auth.Middleware.{HttpRequest, is_safe}
use natbox.Api.Answer.{Call, Setup, Moment, Server, Handler, only}
use natbox.Api.Targets
use natbox.Api.Targets.{Target, Route, containers_route, ssh_route}
use natbox.Api.Reading
use natbox.Api.Containers
use natbox.Api.Administration
use natbox.Api.Serve.{on_target, admitted, serve}
use natbox.Auth.Middleware.{Verdict, passes, auth_required, csrf_required}
use natbox.Api.Quiet
use natbox.Api.Quiet.{seen, Leaves, on_runtime-Stays, list_views-Stays, policy-Stays}

-- The routes that only read.
abbrev reads : Route → Bool
reads Targets.list_all = true
reads Targets.missing = true
reads (Targets.list_ports name) = true
reads (Targets.show_info name) = true
reads (Targets.show_policy name) = true
reads route = false

abbrev IsSafe : String → Type 0
IsSafe method = (method ≡ "GET") ⊎ (method ≡ "HEAD")

two_parts-reads :
    (method : String) (parts : List String)
    → IsSafe method
    → reads (Targets.two_parts method parts) ≡ true
unfolding Targets.two_parts
two_parts-reads method (name ∷ last ∷ []) (inl e) = rw e (ground arith)
two_parts-reads method (name ∷ last ∷ []) (inr e) = rw e (ground arith)
two_parts-reads method [] safe = refl
two_parts-reads method (name ∷ []) safe = refl
two_parts-reads method (name ∷ last ∷ part ∷ parts) safe = refl

containers_route-reads :
    (method path : String) → IsSafe method → reads (containers_route method path) ≡ true
unfolding containers_route
containers_route-reads method path (inl e) =
    rw e (ground (arith, two_parts-reads "GET" _ (inl refl)))
containers_route-reads method path (inr e) =
    rw e (ground (arith, two_parts-reads "HEAD" _ (inr refl)))

ssh_parts-none :
    (method : String) (parts : List String) → IsSafe method → Targets.ssh_parts method parts ≡ none
unfolding Targets.ssh_parts
ssh_parts-none method (name ∷ last ∷ []) (inl e) = rw e (ground arith)
ssh_parts-none method (name ∷ last ∷ []) (inr e) = rw e (ground arith)
ssh_parts-none method [] safe = refl
ssh_parts-none method (name ∷ []) safe = refl
ssh_parts-none method (name ∷ last ∷ part ∷ parts) safe = refl

ssh_route-none : (method path : String) → IsSafe method → ssh_route method path ≡ none
unfolding ssh_route
ssh_route-none method path safe =
    ssh_parts-none method (split_on b'/' (trim_of b'/' (trim_prefix path "/api/containers/"))) safe

IsSafe-cases : (r : HttpRequest) → is_safe r ≡ true → IsSafe r.method
IsSafe-cases r h = ground (arith, h, eq_iff r.method "GET", eq_iff r.method "HEAD")

module _ (rt : Runtime) (quiet : IsQuiet rt) (setup : Setup) (moment : Moment) (call : Call) where
  on_route-Leaves :
      (route : Route)
      → reads route ≡ true
      → Leaves {rt = rt} (Containers.on_route setup moment call route)
  unfolding Containers.on_route
  on_route-Leaves Targets.list_all h =
      on_runtime-Stays rt quiet (Reading.list_views rt) (list_views-Stays rt quiet)
  on_route-Leaves Targets.missing h = λ s. refl
  on_route-Leaves (Targets.list_ports name) h =
      on_runtime-Stays rt quiet (list_port_forwards rt name)
        (list_port_forwards-Stays rt quiet name)
  on_route-Leaves (Targets.show_info name) h =
      on_runtime-Stays rt quiet (info rt name) (info-Stays rt quiet name)
  on_route-Leaves (Targets.show_policy name) h = policy-Stays rt quiet name
  on_route-Leaves Targets.create h = ground arith
  on_route-Leaves Targets.bulk h = ground arith
  on_route-Leaves Targets.bulk_action h = ground arith
  on_route-Leaves (Targets.set_policy name) h = ground arith
  on_route-Leaves (Targets.set_key name) h = ground arith
  on_route-Leaves (Targets.add_port name) h = ground arith
  on_route-Leaves (Targets.remove_port name) h = ground arith
  on_route-Leaves (Targets.run action name) h = ground arith

  containers-Leaves :
      (path : String)
      → IsSafe call.http.method
      → Leaves {rt = rt} (Containers.containers setup moment call path)
  unfolding Containers.containers
  containers-Leaves path safe =
      on_route-Leaves (containers_route call.http.method path)
        (containers_route-reads call.http.method path safe)

  container_action-Leaves :
      (path : String)
      → IsSafe call.http.method
      → Leaves {rt = rt} (Containers.container_action setup moment call path)
  unfolding Containers.container_action
  container_action-Leaves path safe =
      rw (ssh_route-none call.http.method path safe) (containers-Leaves path safe)

  -- A handler that takes POST only refuses a safe method.
  only-refused : (h : Handler rt) → IsSafe call.http.method → Leaves {rt = rt} (only "POST" call h)
  only-refused h (inl e) s = rw e refl
  only-refused h (inr e) s = rw e refl

  abbrev Settled : Administration.ServerHandler rt → Type 0
  Settled h = (s : Server rt) → seen (h s).1.system ≡ seen s.system

  only_server-refused :
      (h : Administration.ServerHandler rt)
      → IsSafe call.http.method
      → Settled (Administration.only_server "POST" call h)
  only_server-refused h (inl e) s = rw e refl
  only_server-refused h (inr e) s = rw e refl

  only_server-Settled :
      (h : Administration.ServerHandler rt)
      → Settled h
      → Settled (Administration.only_server "GET" call h)
  only_server-Settled h k s = elim (Bool-cases (call.http.method =ₛ "GET")) [
    | inl same ↦ rw same (k s)
    | inr other ↦ rw other refl
  ]

  auth_status-Settled : Settled (Administration.auth_status setup moment call)
  unfolding Administration.auth_status
  auth_status-Settled = only_server-Settled _ λ s. refl

  auth_me-Settled : Settled (Administration.auth_me setup moment call)
  unfolding Administration.auth_me
  auth_me-Settled = only_server-Settled _ λ s. refl

  auth_login-Settled :
      IsSafe call.http.method → Settled (Administration.auth_login setup moment call)
  unfolding Administration.auth_login
  auth_login-Settled safe = only_server-refused _ safe

  auth_logout-Settled :
      IsSafe call.http.method → Settled (Administration.auth_logout setup moment call)
  unfolding Administration.auth_logout
  auth_logout-Settled safe = only_server-refused _ safe

  restore_backup-Leaves :
      IsSafe call.http.method → Leaves {rt = rt} (Administration.restore_backup setup moment call)
  unfolding Administration.restore_backup
  restore_backup-Leaves safe = only-refused _ safe

  repair_reconcile_api-Leaves :
      IsSafe call.http.method
      → Leaves {rt = rt} (Administration.repair_reconcile_api setup moment call)
  unfolding Administration.repair_reconcile_api
  repair_reconcile_api-Leaves safe = only-refused _ safe

  on_target-Settled :
      (t : Target) → IsSafe call.http.method → Settled (on_target setup moment call t)
  unfolding on_target Reading.health
  on_target-Settled Targets.health safe s = refl
  on_target-Settled Targets.metrics safe s = Quiet.metrics-Leaves quiet setup moment call s.system
  on_target-Settled Targets.diagnostics safe s =
      Quiet.diagnostics-Leaves quiet setup moment call s.system
  on_target-Settled Targets.auth_status safe s = auth_status-Settled s
  on_target-Settled Targets.auth_login safe s = auth_login-Settled safe s
  on_target-Settled Targets.auth_logout safe s = auth_logout-Settled safe s
  on_target-Settled Targets.auth_me safe s = auth_me-Settled s
  on_target-Settled Targets.capabilities safe s =
      Quiet.capabilities-Leaves quiet setup moment call s.system
  on_target-Settled Targets.host safe s = Quiet.host-Leaves quiet setup moment call s.system
  on_target-Settled Targets.ports safe s = Quiet.ports-Leaves quiet setup moment call s.system
  on_target-Settled Targets.templates safe s =
      Quiet.templates-Leaves quiet setup moment call s.system
  on_target-Settled Targets.managed_containers safe s =
      Quiet.managed_containers-Leaves quiet setup moment call s.system
  on_target-Settled Targets.audit_events safe s =
      Quiet.audit_events-Leaves quiet setup moment call s.system
  on_target-Settled Targets.backup safe s = Quiet.backup-Leaves quiet setup moment call s.system
  on_target-Settled Targets.restore_backup safe s = restore_backup-Leaves safe s.system
  on_target-Settled Targets.reconcile_api safe s =
      Quiet.reconcile_api-Leaves quiet setup moment call s.system
  on_target-Settled Targets.repair_reconcile_api safe s = repair_reconcile_api-Leaves safe s.system
  on_target-Settled (Targets.containers path) safe s = containers-Leaves path safe s.system
  on_target-Settled (Targets.container_action path) safe s =
      container_action-Leaves path safe s.system
  on_target-Settled Targets.index safe s = refl
  on_target-Settled Targets.unrouted safe s = refl
  on_target-Settled Targets.redirect safe s = refl
  on_target-Settled Targets.endless safe s = refl

  admitted-Settled :
      (v : Verdict) → IsSafe call.http.method → Settled (admitted setup moment call v)
  unfolding admitted
  admitted-Settled passes safe s = on_target-Settled _ safe s
  admitted-Settled auth_required safe s = refl
  admitted-Settled csrf_required safe s = refl

  -- A request with one of the methods that the middleware exempts from the CSRF token, GET and HEAD, changes
  -- neither the runtime, as long as commands that only ask do not change it, nor the tables of
  -- containers and audit events, on whatever path and with whatever answer.
  pub serve_safe :
      (s : Server rt)
      → is_safe call.http ≡ true
      → seen (serve setup moment call s).1.system ≡ seen s.system
  unfolding serve
  serve_safe s h = admitted-Settled _ (IsSafe-cases call.http h) _
