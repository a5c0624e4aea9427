-- ===== src/Api/Administration.antt =====
-- main.go and admin_auth.go: restoreBackup, repairReconcileAPI, and the handlers of the administrator's login.
use natbox.Prelude.{
  ℕ, ◌^◌, ◌*◌, not, String, ◌+ₛ◌, Option, none, some, pos, ◌=ₛ◌, if◌then◌else◌, length, format_int,
  error_text, Result, ok, err, Exec, pure, fail, reject, attempt, ◌>>=◌, ◌>>◌,
}
use natbox.Incus.Runner.{Runtime}
use natbox.Store
use natbox.Store.{Backup}
use natbox.App.Base.{System, on_store, record_audit}
use natbox.App.Reconcile.{reconcile}
use natbox.App.Actions.{repair_drift}
use natbox.Auth.Sessions.{
  AdminSession, LoginReply, auth_disabled, rate_limited, invalid_credentials, session_error,
  logged_in, enabled, login, logout, session,
}
use natbox.Api.Answer.{
  Call, RestoreRequest, Setup, Moment, Server, request_of, Payload, admin_enabled, signed_in,
  signed_out, restored_data, repaired_data, Answer, success, failed, wrong_method, Handler, answer,
  only,
}

-- The handlers that keep the sessions change the server's state.
abbrev pub ServerHandler : Runtime → Type 0
ServerHandler rt = Server rt → Answer × Server rt

abbrev pub on_system : {rt : Runtime} → Handler rt → ServerHandler rt
on_system h s = let (a, system) = h s.system in (a, record s { system = system })

abbrev pub only_server : {rt : Runtime} → String → Call → ServerHandler rt → ServerHandler rt
only_server wanted call h s = if call.http.method =ₛ wanted then h s else (wrong_method, s)

abbrev login_answer : LoginReply → Answer
login_answer auth_disabled = failed 404 "auth_disabled" "administrator login is disabled"
login_answer rate_limited = failed 429 "rate_limited" "too many login attempts; retry later"
login_answer invalid_credentials =
    failed 401 "invalid_credentials" "invalid administrator credentials"
login_answer session_error = failed 500 "session_error" "could not create session"
login_answer (logged_in session_id csrf expires_at) = success (signed_in csrf expires_at)

-- The result that a login records in the audit log, where it records one.
abbrev login_result : LoginReply → Option String
login_result auth_disabled = none
login_result rate_limited = none
login_result invalid_credentials = some "failure"
login_result session_error = none
login_result (logged_in session_id csrf expires_at) = some "success"

abbrev me_answer : Option AdminSession → Answer
me_answer none = failed 401 "auth_required" "authentication required"
me_answer (some s) = success (signed_in s.csrf s.expires_at)

module _ {rt : Runtime} (setup : Setup) (moment : Moment) (call : Call) where
  unfoldable pub restored : RestoreRequest → Result (Unit {0}) → Exec (System rt) ℕ
  restored req (ok _) = do
    record_audit (request_of moment call) "backup.restore" "database" "" "success"
        ("containers=" +ₛ format_int (pos (length req.backup.containers)))
    pure (length req.backup.containers)
  restored req (err e) = do
    record_audit (request_of moment call) "backup.restore" "database" "" "failure" (error_text e)
    fail e

  unfoldable pub restoring : Exec (System rt) ℕ
  unfolding restored
  restoring = do
    req ← (λ s. (setup.json.restore (2 * 2 ^ 20) call.body, s))
    reject (not (req.confirm =ₛ "RESTORE")) "confirm must be \"RESTORE\""
    done ← attempt (on_store (Store.restore moment.restore_clock req.backup))
    restored req done

  unfoldable pub restore_backup : Handler rt
  unfolding restoring
  restore_backup = only "POST" call (answer restored_data restoring)

  -- repairDesiredState
  unfoldable pub repair_desired_state : Exec (System rt) Payload
  repair_desired_state = do
    report ← reconcile
    results ←
        repair_drift
          (λ action name result details.
            record_audit (request_of moment call) action "container" name result details)
          (request_of moment call) report.desired_state_drift
    pure (repaired_data results (length report.runtime_unmanaged) (length report.managed_missing))

  unfoldable pub repair_reconcile_api : Handler rt
  unfolding repair_desired_state
  repair_reconcile_api = only "POST" call (answer (λ data'. data') repair_desired_state)

  unfoldable pub auth_status : ServerHandler rt
  auth_status = only_server "GET" call λ s. (success (admin_enabled (enabled s.auth)), s)

  unfoldable pub audited_login : Option String → System rt → System rt
  audited_login none s = s
  audited_login (some result) s =
      (record_audit (request_of moment call) "auth.login" "admin" "" result "" s).1

  unfoldable pub auth_login : ServerHandler rt
  unfolding audited_login
  auth_login = only_server "POST" call λ s.
      let (reply, auth) =
        login setup.verify moment.now call.remote_ip (setup.json.password (8 * 2 ^ 10) call.body)
          moment.session_id moment.csrf s.auth in
      (
        login_answer reply,
        record { auth = auth; system = audited_login (login_result reply) s.system },
      )

  unfoldable pub auth_logout : ServerHandler rt
  auth_logout = only_server "POST" call λ s. (
    success signed_out,
    record {
      auth = logout call.http.cookie s.auth;
      system =
          (record_audit (request_of moment call) "auth.logout" "admin" "" "success" "" s.system).1;
    },
  )

  unfoldable pub auth_me : ServerHandler rt
  auth_me = only_server "GET" call λ s.
      let (found, auth) = session moment.now call.http.cookie s.auth in
      (me_answer found, record s { auth = auth })
