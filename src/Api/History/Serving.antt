-- ===== src/Api/History/Serving.antt =====
-- main.go: a request on its way from the middleware to its handler, as a history of calls of the store's
-- methods.
use natbox.Prelude.{String, Option, none, some, ◌=ₛ◌, Bool-cases, Result-cases, inl, inr}
use natbox.Incus.Runner.{Runtime}
use natbox.Incus.Query.{list}
use natbox.Incus.Probe.{probe}
use natbox.Store
use natbox.Store.{parse_before_id}
use natbox.Store.History.{here, list_audit-Reaches, export-Reaches}
use natbox.App.Base.{System, on_runtime}
use natbox.App.History.{Proceeds, record_audit-IsHistory}
use natbox.App.History.Acting.{reconcile-IsHistory, list-IsHistory}
use natbox.Auth.Middleware.{Verdict, passes, auth_required, csrf_required}
use natbox.Api.Answer.{Call, Setup, Moment, Server, request_of}
use natbox.Api.Targets
use natbox.Api.Targets.{Target}
use natbox.Api.Reading
use natbox.Api.Metrics
use natbox.Api.Administration
use natbox.Api.Administration.{ServerHandler}
use natbox.Api.Serve.{on_target, admitted, serve}
use natbox.Api.History.{
  Handled, only-Handled, containers-Handled, container_action-Handled, restoring-IsHistory,
  repair_desired_state-IsHistory,
}

module _ {rt : Runtime} (setup : Setup) (moment : Moment) (call : Call) where
  abbrev Served : ServerHandler rt → Type 0
  Served h = (s : Server rt) → Proceeds s.system (h s).1.system

  only_server-Served :
      (wanted : String) (h : ServerHandler rt)
      → Served h
      → Served (Administration.only_server wanted call h)
  only_server-Served wanted h k s = elim (Bool-cases (call.http.method =ₛ wanted)) [
    | inl same ↦ rw same (k s)
    | inr other ↦ rw other here
  ]

  metrics-Handled : Handled {rt = rt} (Metrics.metrics setup moment call)
  unfolding Metrics.metrics
  metrics-Handled = only-Handled "GET" call _ λ s. elim (Result-cases (list rt s.world).0) [
    | inr (e, broke) ↦ rw broke here
    | inl (instances, done) ↦ rw done (elim (Result-cases (Store.list_containers s.db).0) [
      | inr (e, broke) ↦ rw broke (list-IsHistory.at s)
      | inl (managed, listed) ↦ rw listed (list-IsHistory.at s)
    ])
  ]

  diagnostics-Handled : Handled {rt = rt} (Metrics.diagnostics setup moment call)
  unfolding Metrics.diagnostics
  diagnostics-Handled =
      only-Handled "GET" call _
        λ s. reconcile-IsHistory.at (on_runtime (probe rt setup.probe_json) s).1

  capabilities-Handled : Handled {rt = rt} (Reading.capabilities setup moment call)
  unfolding Reading.capabilities
  capabilities-Handled = only-Handled "GET" call _ λ s. here

  host-Handled : Handled {rt = rt} (Reading.host setup moment call)
  unfolding Reading.host
  host-Handled = only-Handled "GET" call _ λ s. here

  templates-Handled : Handled {rt = rt} (Reading.templates setup moment call)
  unfolding Reading.templates
  templates-Handled = only-Handled "GET" call _ λ s. here

  ports-Handled : Handled {rt = rt} (Reading.ports setup moment call)
  unfolding Reading.ports
  ports-Handled = only-Handled "GET" call _ λ s. here

  managed_containers-Handled : Handled {rt = rt} (Reading.managed_containers setup moment call)
  unfolding Reading.managed_containers
  managed_containers-Handled = only-Handled "GET" call _ λ s. list-IsHistory.at s

  audit_events-Handled : Handled {rt = rt} (Reading.audit_events setup moment call)
  unfolding Reading.audit_events
  audit_events-Handled = only-Handled "GET" call _ λ s. (list_audit-Reaches _ _).at s.db

  backup-Handled : Handled {rt = rt} (Reading.backup setup moment call)
  unfolding Reading.backup
  backup-Handled = only-Handled "GET" call _ λ s. (export-Reaches moment.now_text).at s.db

  reconcile_api-Handled : Handled {rt = rt} (Reading.reconcile_api setup moment call)
  unfolding Reading.reconcile_api
  reconcile_api-Handled = only-Handled "GET" call _ λ s. reconcile-IsHistory.at s

  restore_backup-Handled : Handled {rt = rt} (Administration.restore_backup setup moment call)
  unfolding Administration.restore_backup
  restore_backup-Handled =
      only-Handled "POST" call _ λ s. (restoring-IsHistory setup moment call).at s

  repair_reconcile_api-Handled :
      Handled {rt = rt} (Administration.repair_reconcile_api setup moment call)
  unfolding Administration.repair_reconcile_api
  repair_reconcile_api-Handled =
      only-Handled "POST" call _ λ s. (repair_desired_state-IsHistory setup moment call).at s

  auth_status-Served : Served (Administration.auth_status setup moment call)
  unfolding Administration.auth_status
  auth_status-Served = only_server-Served "GET" _ λ s. here

  auth_me-Served : Served (Administration.auth_me setup moment call)
  unfolding Administration.auth_me
  auth_me-Served = only_server-Served "GET" _ λ s. here

  audited_login-Proceeds :
      (result : Option String) (s : System rt)
      → Proceeds s (Administration.audited_login setup moment call result s)
  unfolding Administration.audited_login
  audited_login-Proceeds none s = here
  audited_login-Proceeds (some result) s =
      (record_audit-IsHistory (request_of moment call) "auth.login" "admin" "" result "").at s

  auth_login-Served : Served (Administration.auth_login setup moment call)
  unfolding Administration.auth_login
  auth_login-Served = only_server-Served "POST" _ λ s. audited_login-Proceeds _ s.system

  auth_logout-Served : Served (Administration.auth_logout setup moment call)
  unfolding Administration.auth_logout
  auth_logout-Served = only_server-Served "POST" _ λ s.
      (record_audit-IsHistory (request_of moment call) "auth.logout" "admin" "" "success" "").at
        s.system

  on_target-Served : (t : Target) → Served (on_target setup moment call t)
  unfolding on_target Reading.health
  on_target-Served Targets.health s = here
  on_target-Served Targets.metrics s = metrics-Handled s.system
  on_target-Served Targets.diagnostics s = diagnostics-Handled s.system
  on_target-Served Targets.auth_status s = auth_status-Served s
  on_target-Served Targets.auth_login s = auth_login-Served s
  on_target-Served Targets.auth_logout s = auth_logout-Served s
  on_target-Served Targets.auth_me s = auth_me-Served s
  on_target-Served Targets.capabilities s = capabilities-Handled s.system
  on_target-Served Targets.host s = host-Handled s.system
  on_target-Served Targets.ports s = ports-Handled s.system
  on_target-Served Targets.templates s = templates-Handled s.system
  on_target-Served Targets.managed_containers s = managed_containers-Handled s.system
  on_target-Served Targets.audit_events s = audit_events-Handled s.system
  on_target-Served Targets.backup s = backup-Handled s.system
  on_target-Served Targets.restore_backup s = restore_backup-Handled s.system
  on_target-Served Targets.reconcile_api s = reconcile_api-Handled s.system
  on_target-Served Targets.repair_reconcile_api s = repair_reconcile_api-Handled s.system
  on_target-Served (Targets.containers path) s = containers-Handled setup moment call path s.system
  on_target-Served (Targets.container_action path) s =
      container_action-Handled setup moment call path s.system
  on_target-Served Targets.index s = here
  on_target-Served Targets.unrouted s = here
  on_target-Served Targets.redirect s = here
  on_target-Served Targets.endless s = here

  admitted-Served : (v : Verdict) → Served (admitted setup moment call v)
  unfolding admitted
  admitted-Served passes s = on_target-Served _ s
  admitted-Served auth_required s = here
  admitted-Served csrf_required s = here

  pub serve-Proceeds : (s : Server rt) → Proceeds s.system (serve setup moment call s).1.system
  unfolding serve
  serve-Proceeds s = admitted-Served _ _
