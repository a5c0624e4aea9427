-- ===== src/Api/History.antt =====
-- main.go: what a request does to the database, as a history of calls of the store's methods.
pub mod Serving
use natbox.Prelude.{
  ◌*◌, ◌^◌, ◌≡◌, refl, Bool, true, false, ℕ, ℤ, String, Option, none, some, List, [], ◌∷◌, ◌=ₛ◌,
  ◌||◌, not, ltb_ℤ, Result, ok, err, Exec, pure, reject, attempt, failure, parse_int, Result-cases,
  Bool-cases, inl, inr, if◌then◌else◌,
}
use natbox.Incus.Runner.{Runtime, Instance}
use natbox.Incus.Query.{list}
use natbox.Incus.Probe.{probe}
use natbox.Incus.Ssh.{configure_ssh}
use natbox.Incus.Forwards.Endpoint.{PortForward}
use natbox.Incus.Forwards.Adding.{add_port_forward, remove_port_forward}
use natbox.Store
use natbox.Store.{parse_before_id}
use natbox.Store.History.{
  here, restore-Reaches, list_audit-Reaches, export-Reaches, list_containers-Reaches,
}
use natbox.App.Base.{System, on_runtime, on_store}
use natbox.App.Ssh.{allocate_ssh}
use natbox.App.History.{
  Proceeds, Proceeds-trans, IsHistory, then-IsHistory, attempt-IsHistory, if-IsHistory,
  reject-IsHistory, runtime-IsHistory, store-IsHistory, pure-IsHistory, record_audit-IsHistory,
}
use natbox.App.History.Creating.{create_container-IsHistory, bulk_create-IsHistory}
use natbox.App.History.Acting.{
  container_action-IsHistory, bulk_action-IsHistory, reconcile-IsHistory, repair_drift-IsHistory,
  list-IsHistory,
}
use natbox.App.History.Enforcing.{policy-IsHistory, update_policy-IsHistory}
use natbox.Api.Answer.{Call, ForwardRequest, RestoreRequest, Setup, Moment, Server, Handler, only}
use natbox.Api.Targets
use natbox.Api.Targets.{Target, Route, containers_route, ssh_route}
use natbox.Api.Reading
use natbox.Api.Metrics
use natbox.Api.Containers
use natbox.Api.Administration
use natbox.Api.Administration.{ServerHandler}
use natbox.Api.Serve.{on_target, admitted, serve}
use natbox.Auth.Middleware.{Verdict, passes, auth_required, csrf_required}

abbrev pub Handled : {rt : Runtime} → Handler rt → Type 0
Handled {rt} h = (s : System rt) → Proceeds s (h s).1

pub only-Handled :
    {rt : Runtime} (wanted : String) (call : Call) (h : Handler rt)
    → Handled h
    → Handled (only wanted call h)
only-Handled wanted call h k s = elim (Bool-cases (call.http.method =ₛ wanted)) [
  | inl same ↦ rw same (k s)
  | inr other ↦ rw other here
]

module _ {rt : Runtime} (setup : Setup) (moment : Moment) (call : Call) where
  recorded-IsHistory :
      {A : Type 0} (action name : String) (details : Result A → String) (m : Exec (System rt) A)
      → IsHistory m
      → IsHistory (Containers.recorded setup moment call action name details m)
  recorded-IsHistory action name details m k =
      attempt-IsHistory m _ k
        λ done. then-IsHistory _ _ (record_audit-IsHistory _ _ _ _ _ _) λ _. pure-IsHistory done

  set_policy_route-IsHistory :
      (name : String) → IsHistory {rt = rt} (Containers.set_policy_route setup moment call name)
  unfolding Containers.set_policy_route
  set_policy_route-IsHistory name = then-IsHistory _ _ (pure-IsHistory _) λ req.
      recorded-IsHistory _ _ _ _
        (update_policy-IsHistory setup.time _ name req.quota_bytes req.expires_at)

  set_key_route-IsHistory :
      (name : String) → IsHistory {rt = rt} (Containers.set_key_route setup moment call name)
  unfolding Containers.set_key_route
  set_key_route-IsHistory name = then-IsHistory _ _ (pure-IsHistory _) λ key.
      then-IsHistory _ _ (runtime-IsHistory (configure_ssh rt name key)) λ _. pure-IsHistory _

  open_port-IsHistory :
      (name : String) (req : ForwardRequest)
      → IsHistory {rt = rt} (Containers.open_port setup moment call name req)
  unfolding Containers.open_port
  open_port-IsHistory name req =
      if-IsHistory
        (ltb_ℤ req.listen_port setup.config.port_min || ltb_ℤ setup.config.port_max req.listen_port)
        _ _ (pure-IsHistory _)
        (then-IsHistory _ _
          (recorded-IsHistory _ _ _ _ (
            runtime-IsHistory
              (add_port_forward rt name req.protocol req.listen_port req.target_port)))
          λ _. pure-IsHistory _)

  add_port_route-IsHistory :
      (name : String) → IsHistory {rt = rt} (Containers.add_port_route setup moment call name)
  unfolding Containers.add_port_route
  add_port_route-IsHistory name =
      then-IsHistory _ _ (pure-IsHistory _) λ req. open_port-IsHistory name req

  close_port-IsHistory :
      (name : String) (port : Option ℤ)
      → IsHistory {rt = rt} (Containers.close_port setup moment call name port)
  unfolding Containers.close_port
  close_port-IsHistory name none = pure-IsHistory _
  close_port-IsHistory name (some port) =
      then-IsHistory _ _
        (recorded-IsHistory _ _ _ _
          (runtime-IsHistory (remove_port_forward rt name (call.query "protocol") port)))
        λ _. pure-IsHistory _

  create_route-IsHistory : IsHistory {rt = rt} (Containers.create_route setup moment call)
  unfolding Containers.create_route
  create_route-IsHistory =
      then-IsHistory _ _ (pure-IsHistory _) λ req. create_container-IsHistory _ _ _ _ req

  bulk_route-IsHistory : IsHistory {rt = rt} (Containers.bulk_route setup moment call)
  unfolding Containers.bulk_route
  bulk_route-IsHistory =
      then-IsHistory _ _ (pure-IsHistory _) λ req. bulk_create-IsHistory _ _ req _ _

  bulk_action_route-IsHistory : IsHistory {rt = rt} (Containers.bulk_action_route setup moment call)
  unfolding Containers.bulk_action_route
  bulk_action_route-IsHistory =
      then-IsHistory _ _ (pure-IsHistory _) λ req. bulk_action-IsHistory _ req.names req.action

  on_route-Handled :
      (route : Route) → Handled {rt = rt} (Containers.on_route setup moment call route)
  unfolding Containers.on_route Containers.remove_port_route
  on_route-Handled Targets.list_all s = here
  on_route-Handled Targets.create s = create_route-IsHistory.at s
  on_route-Handled Targets.bulk s = bulk_route-IsHistory.at s
  on_route-Handled Targets.bulk_action s = bulk_action_route-IsHistory.at s
  on_route-Handled Targets.missing s = here
  on_route-Handled (Targets.list_ports name) s = here
  on_route-Handled (Targets.show_info name) s = here
  on_route-Handled (Targets.show_policy name) s = (policy-IsHistory name).at s
  on_route-Handled (Targets.set_policy name) s = (set_policy_route-IsHistory name).at s
  on_route-Handled (Targets.set_key name) s = (set_key_route-IsHistory name).at s
  on_route-Handled (Targets.add_port name) s = (add_port_route-IsHistory name).at s
  on_route-Handled (Targets.remove_port name) s =
      (close_port-IsHistory name (parse_int (call.query "listenPort"))).at s
  on_route-Handled (Targets.run action name) s = (container_action-IsHistory _ action name).at s

  pub containers-Handled :
      (path : String) → Handled {rt = rt} (Containers.containers setup moment call path)
  unfolding Containers.containers
  containers-Handled path = on_route-Handled (containers_route call.http.method path)

  allocation-IsHistory :
      (name : String) → IsHistory {rt = rt} (Containers.allocation setup moment call name)
  unfolding Containers.allocation
  allocation-IsHistory name =
      recorded-IsHistory _ _ _ _ (runtime-IsHistory (allocate_ssh rt setup.config name))

  on_ssh_route-Handled :
      (path : String) (name : Option String)
      → Handled {rt = rt} (Containers.on_ssh_route setup moment call path name)
  unfolding Containers.on_ssh_route
  on_ssh_route-Handled path none s = containers-Handled path s
  on_ssh_route-Handled path (some name) s = (allocation-IsHistory name).at s

  pub container_action-Handled :
      (path : String) → Handled {rt = rt} (Containers.container_action setup moment call path)
  unfolding Containers.container_action
  container_action-Handled path = on_ssh_route-Handled path (ssh_route call.http.method path)

  restored-IsHistory :
      (req : RestoreRequest) (r : Result (Unit {0}))
      → IsHistory {rt = rt} (Administration.restored setup moment call req r)
  unfolding Administration.restored
  restored-IsHistory req (ok _) =
      then-IsHistory _ _ (record_audit-IsHistory _ _ _ _ _ _) λ _. pure-IsHistory _
  restored-IsHistory req (err e) =
      then-IsHistory _ _ (record_audit-IsHistory _ _ _ _ _ _) λ _. pure-IsHistory _

  pub restoring-IsHistory : IsHistory {rt = rt} (Administration.restoring setup moment call)
  unfolding Administration.restoring
  restoring-IsHistory =
      then-IsHistory _ _ (pure-IsHistory (setup.json.restore (2 * 2 ^ 20) call.body)) λ req.
        then-IsHistory (reject (not (req.confirm =ₛ "RESTORE")) "confirm must be \"RESTORE\"") _
          (reject-IsHistory _ _)
          λ _.
            attempt-IsHistory _ _
              (store-IsHistory (Store.restore moment.restore_clock req.backup)
                (restore-Reaches moment.restore_clock req.backup))
              (restored-IsHistory req)

  pub repair_desired_state-IsHistory :
      IsHistory {rt = rt} (Administration.repair_desired_state setup moment call)
  unfolding Administration.repair_desired_state
  repair_desired_state-IsHistory = then-IsHistory _ _ reconcile-IsHistory λ report.
      then-IsHistory _ _
        (repair_drift-IsHistory _ (λ action name result details. record_audit-IsHistory _ _ _ _ _ _)
          _ report.desired_state_drift)
        λ results. pure-IsHistory _
