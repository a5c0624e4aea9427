-- ===== src/App/History/Acting.antt =====
-- main.go, policy.go and reconcile.go: actions, the enforcement of policies, the report and its repair, as
-- histories of calls of the store's methods.
use natbox.Prelude.{
  String, Option, none, some, List, [], ◌∷◌, ◌=ₛ◌, ◌||◌, any, length, ltb, Error, Result, ok, err,
  Exec, reject,
}
use natbox.Incus.Runner.{Runtime, Instance}
use natbox.Incus.Query.{wait_ipv4, list}
use natbox.Incus.Lifecycle
use natbox.Incus.Forwards.Listing.{list_port_forwards}
use natbox.Store
use natbox.Store.{ManagedContainer}
use natbox.Store.History.{
  set_desired_state-Reaches, delete_container-Reaches, list_containers-Reaches,
}
use natbox.App.Base.{Request, System, on_store}
use natbox.App.Reconcile
use natbox.App.Reconcile.{PortForwardIssue, StateDrift}
use natbox.App.Actions
use natbox.App.Actions.{Action, start, stop, restart, delete, action_of}
use natbox.App.History.{
  IsHistory, then-IsHistory, attempt-IsHistory, cases-IsHistory, if-IsHistory, reject-IsHistory,
  runtime-IsHistory, store-IsHistory, pure-IsHistory, record_audit-IsHistory,
  record_system_audit-IsHistory,
}

module _ {rt : Runtime} where
  waited-IsHistory :
      (request : Request) (name : String) → IsHistory {rt = rt} (Actions.waited request name)
  unfolding Actions.waited
  waited-IsHistory request name =
      then-IsHistory _ _ (runtime-IsHistory (wait_ipv4 rt request.cause (request.ticks name) name))
        λ _. pure-IsHistory (ok tt)

  run_action-IsHistory :
      (request : Request) (action : Action) (name : String)
      → IsHistory {rt = rt} (Actions.run_action request action name)
  unfolding Actions.run_action
  run_action-IsHistory request start name =
      then-IsHistory _ _ (runtime-IsHistory (Lifecycle.start rt name))
        λ _. waited-IsHistory request name
  run_action-IsHistory request stop name = runtime-IsHistory (Lifecycle.stop rt name)
  run_action-IsHistory request restart name =
      then-IsHistory _ _ (runtime-IsHistory (Lifecycle.restart rt name))
        λ _. waited-IsHistory request name
  run_action-IsHistory request delete name =
      then-IsHistory _ _ (runtime-IsHistory (Lifecycle.delete rt name))
        λ _. store-IsHistory (Store.delete_container name) (delete_container-Reaches name)

  set_wanted-IsHistory :
      (request : Request) (name : String) (state : Option String)
      → IsHistory {rt = rt} (Actions.set_wanted request name state)
  unfolding Actions.set_wanted
  set_wanted-IsHistory request name none = pure-IsHistory _
  set_wanted-IsHistory request name (some state) =
      attempt-IsHistory _ _
        (store-IsHistory (Store.set_desired_state request.now name state)
          (set_desired_state-Reaches request.now name state))
        λ stored. pure-IsHistory _

  answered-IsHistory :
      (name : String) (action : Action) (fault : Option Error)
      → IsHistory {rt = rt} (Actions.answered name action fault)
  unfolding Actions.answered
  answered-IsHistory name action none = pure-IsHistory _
  answered-IsHistory name action (some e) = pure-IsHistory _

  pub container_action-IsHistory :
      (request : Request) (action : Action) (name : String)
      → IsHistory {rt = rt} (Actions.container_action request action name)
  unfolding Actions.container_action
  container_action-IsHistory request action name =
      attempt-IsHistory _ _ (run_action-IsHistory request action name) (
        cases-IsHistory _
          (λ _. then-IsHistory _ _ (set_wanted-IsHistory request name (Actions.wanted action)) λ _.
            then-IsHistory _ _ (record_audit-IsHistory _ _ _ _ _ _)
              λ _. answered-IsHistory name action none)
          λ e.
            then-IsHistory _ _ (record_audit-IsHistory _ _ _ _ _ _)
              λ _. answered-IsHistory name action (some e))

  state_recorded-IsHistory :
      (request : Request) (action : Action) (name : String) (r : Result (Unit {0}))
      → IsHistory {rt = rt} (Actions.state_recorded request action name r)
  unfolding Actions.state_recorded
  state_recorded-IsHistory request action name (ok _) =
      set_wanted-IsHistory request name (Actions.wanted action)
  state_recorded-IsHistory request action name (err e) = pure-IsHistory _

  bulk_step-IsHistory :
      (request : Request) (action : Action) (name : String)
      → IsHistory {rt = rt} (Actions.bulk_step request action name)
  unfolding Actions.bulk_step
  bulk_step-IsHistory request action name =
      attempt-IsHistory _ _ (run_action-IsHistory request action name) λ done.
        then-IsHistory _ _ (state_recorded-IsHistory request action name done)
          λ fault. then-IsHistory _ _ (record_audit-IsHistory _ _ _ _ _ _) λ _. pure-IsHistory _

  bulk_steps-IsHistory :
      (request : Request) (action : Action) (before names : List String)
      → IsHistory {rt = rt} (Actions.bulk_steps request action before names)
  unfolding Actions.bulk_steps
  bulk_steps-IsHistory request action before [] = pure-IsHistory _
  bulk_steps-IsHistory request action before (name ∷ names) =
      if-IsHistory (any (λ n. n =ₛ name) before) _ _
        (bulk_steps-IsHistory request action before names)
        (then-IsHistory _ _ (bulk_step-IsHistory request action name) λ entry.
          then-IsHistory _ _ (bulk_steps-IsHistory request action (name ∷ before) names)
            λ entries. pure-IsHistory _)

  bulk_dispatch-IsHistory :
      (request : Request) (names : List String) (action : Option Action)
      → IsHistory {rt = rt} (Actions.bulk_dispatch request names action)
  unfolding Actions.bulk_dispatch
  bulk_dispatch-IsHistory request names none = pure-IsHistory _
  bulk_dispatch-IsHistory request names (some action) = bulk_steps-IsHistory request action [] names

  pub bulk_action-IsHistory :
      (request : Request) (names : List String) (action : String)
      → IsHistory {rt = rt} (Actions.bulk_action request names action)
  unfolding Actions.bulk_action
  bulk_action-IsHistory request names action =
      then-IsHistory
        (reject (ltb (length names) 1 || ltb 32 (length names))
          "names must contain between 1 and 32 containers")
        _ (reject-IsHistory _ _) λ _. bulk_dispatch-IsHistory request names (action_of action)

  scan_ports-IsHistory :
      (is : List Instance) (acc : List PortForwardIssue × List (String × String))
      → IsHistory {rt = rt} (Reconcile.scan_ports is acc)
  unfolding Reconcile.scan_ports
  scan_ports-IsHistory [] acc = pure-IsHistory _
  scan_ports-IsHistory (i ∷ is) acc =
      attempt-IsHistory _ _ (runtime-IsHistory (list_port_forwards rt i.name))
        λ forwards. scan_ports-IsHistory is _

  pub list-IsHistory : IsHistory {rt = rt} (on_store Store.list_containers)
  list-IsHistory = store-IsHistory Store.list_containers list_containers-Reaches

  pub reconcile-IsHistory : IsHistory {rt = rt} Reconcile.reconcile
  unfolding Reconcile.reconcile
  reconcile-IsHistory = then-IsHistory _ _ list-IsHistory λ managed.
      then-IsHistory _ _ (runtime-IsHistory (list rt)) λ instances.
        then-IsHistory _ _ (scan_ports-IsHistory instances ([], [])) λ issues. pure-IsHistory _

  recorded_drift-IsHistory :
      (request : Request) (drift : StateDrift) (r : Result (Unit {0}))
      → IsHistory {rt = rt} (Actions.recorded_drift request drift r)
  unfolding Actions.recorded_drift
  recorded_drift-IsHistory request drift (ok _) =
      set_wanted-IsHistory request drift.name (some drift.desired_state)
  recorded_drift-IsHistory request drift (err e) = pure-IsHistory _

  module _ (audit : String → String → String → String → Exec (System rt) (Unit {0}))
      (audits : (action name result details : String)
        → IsHistory (audit action name result details))
      (request : Request) where
    repair_one-IsHistory : (drift : StateDrift) → IsHistory (Actions.repair_one audit request drift)
    unfolding Actions.repair_one
    repair_one-IsHistory drift =
        attempt-IsHistory _ _ (run_action-IsHistory request (Actions.repair_of drift) drift.name)
          λ done.
            then-IsHistory _ _ (recorded_drift-IsHistory request drift done)
              λ fault. then-IsHistory _ _ (audits _ _ _ _) λ _. pure-IsHistory _

    pub repair_drift-IsHistory :
        (drifts : List StateDrift) → IsHistory (Actions.repair_drift audit request drifts)
    unfolding Actions.repair_drift
    repair_drift-IsHistory [] = pure-IsHistory _
    repair_drift-IsHistory (drift ∷ drifts) =
        then-IsHistory _ _ (repair_one-IsHistory drift)
          λ entry. then-IsHistory _ _ (repair_drift-IsHistory drifts) λ entries. pure-IsHistory _

  pub auto_repair_pass-IsHistory :
      (request : Request) → IsHistory {rt = rt} (Actions.auto_repair_pass request)
  unfolding Actions.auto_repair_pass
  auto_repair_pass-IsHistory request = then-IsHistory _ _ reconcile-IsHistory λ report.
      repair_drift-IsHistory _
        (λ action name result details. record_system_audit-IsHistory _ _ _ _ _) request
        report.desired_state_drift
