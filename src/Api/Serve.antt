-- ===== src/Api/Serve.antt =====
-- main.go: a request's way through authMiddleware and the ServeMux to its handler.
use natbox.Prelude.{count_chars}
use natbox.Incus.Runner.{Runtime}
use natbox.Auth.Middleware.{Verdict, passes, auth_required, csrf_required, auth_middleware}
use natbox.Api.Answer.{Call, Setup, Moment, failed, not_found, moved, page}
use natbox.Api.Targets
use natbox.Api.Targets.{Target, target}
use natbox.Api.Reading
use natbox.Api.Metrics
use natbox.Api.Containers
use natbox.Api.Administration.{
  ServerHandler, on_system, restore_backup, repair_reconcile_api, auth_status, auth_login,
  auth_logout, auth_me,
}

module _ {rt : Runtime} (setup : Setup) (moment : Moment) (call : Call) where
  unfoldable pub on_target : Target → ServerHandler rt
  on_target Targets.health s = on_system (Reading.health setup moment call) s
  on_target Targets.metrics s = on_system (Metrics.metrics setup moment call) s
  on_target Targets.diagnostics s = on_system (Metrics.diagnostics setup moment call) s
  on_target Targets.auth_status s = auth_status setup moment call s
  on_target Targets.auth_login s = auth_login setup moment call s
  on_target Targets.auth_logout s = auth_logout setup moment call s
  on_target Targets.auth_me s = auth_me setup moment call s
  on_target Targets.capabilities s = on_system (Reading.capabilities setup moment call) s
  on_target Targets.host s = on_system (Reading.host setup moment call) s
  on_target Targets.ports s = on_system (Reading.ports setup moment call) s
  on_target Targets.templates s = on_system (Reading.templates setup moment call) s
  on_target Targets.managed_containers s =
      on_system (Reading.managed_containers setup moment call) s
  on_target Targets.audit_events s = on_system (Reading.audit_events setup moment call) s
  on_target Targets.backup s = on_system (Reading.backup setup moment call) s
  on_target Targets.restore_backup s = on_system (restore_backup setup moment call) s
  on_target Targets.reconcile_api s = on_system (Reading.reconcile_api setup moment call) s
  on_target Targets.repair_reconcile_api s = on_system (repair_reconcile_api setup moment call) s
  on_target (Targets.containers path) s = on_system (Containers.containers setup moment call path) s
  on_target (Targets.container_action path) s =
      on_system (Containers.container_action setup moment call path) s
  on_target Targets.index s = (page, s)
  on_target Targets.unrouted s = (not_found, s)
  on_target Targets.redirect s = (moved, s)
  on_target Targets.endless s = (not_found, s)

  -- The way behind the middleware; the fuel is the length of the path.
  unfoldable pub admitted : Verdict → ServerHandler rt
  unfolding on_target target
  admitted passes s = on_target (target (count_chars call.http.path) call.http.path) s
  admitted auth_required s = (failed 401 "auth_required" "authentication required", s)
  admitted csrf_required s = (failed 403 "csrf_required" "csrf token required", s)

  unfoldable pub serve : ServerHandler rt
  unfolding admitted auth_middleware
  serve s =
      let (verdict, auth) = auth_middleware setup.token moment.now call.http s.auth in
      admitted verdict (record s { auth = auth })
