-- ===== src/App/Actions.antt =====
-- main.go: starting, stopping, restarting and deleting, one container or many, and the repair of
-- drift, which reconcile.go also runs by itself.
use natbox.Prelude.{
  ◌||◌, String, ◌+ₛ◌, Option, none, some, List, [], ◌∷◌, ◌=ₛ◌, any, length, ltb, if◌then◌else◌,
  Error, no_rows, failure, error_text, Result, ok, err, Exec, pure, fail, attempt, reject, ◌>>=◌,
  ◌>>◌,
}
use natbox.Incus.Runner.{Runtime}
use natbox.Incus.Query.{wait_ipv4}
use natbox.Incus.Lifecycle
use natbox.Store
use natbox.App.Base.{Request, System, on_runtime, on_store, record_audit, record_system_audit}
use natbox.App.Reconcile.{StateDrift, reconcile}

pub data Action : Type 0 where
  start stop restart delete : Action

abbrev pub action_text : Action → String
action_text start = "start"
action_text stop = "stop"
action_text restart = "restart"
action_text delete = "delete"

-- The last part of the path; `none` is not found, or refused by a batch.
unfoldable pub action_of : String → Option Action
action_of text =
    if text =ₛ "start"
    then some start
    else if text =ₛ "stop"
    then some stop
    else if text =ₛ "restart"
    then some restart
    else if text =ₛ "delete"
    then some delete
    else none

-- The state that is wanted after an action; a deletion wants none.
abbrev pub wanted : Action → Option String
wanted start = some "running"
wanted stop = some "stopped"
wanted restart = some "running"
wanted delete = none

abbrev pub outcome_text : Option Error → String
outcome_text none = "success"
outcome_text (some e) = "failure"

pub record ActionResult : Type 0 where
  pub name : String
  pub action : String
  pub result : String
  pub error : Option String

abbrev pub entry_of : String → String → Option Error → ActionResult
entry_of name action none = record {
  name = name;
  action = action;
  result = "success";
  error = none;
}
entry_of name action (some e) = record {
  name = name;
  action = action;
  result = "failure";
  error = some (error_text e);
}

-- `err != sql.ErrNoRows`
abbrev pub unless_no_rows : Result (Unit {0}) → Option Error
unless_no_rows (ok _) = none
unless_no_rows (err no_rows) = none
unless_no_rows (err (failure text)) = some (failure text)

abbrev pub repair_of : StateDrift → Action
repair_of drift = if drift.desired_state =ₛ "running" then start else stop

module _ {rt : Runtime} where
  unfoldable pub waited : Request → String → Exec (System rt) (Unit {0})
  waited request name = do
    on_runtime (wait_ipv4 rt request.cause (request.ticks name) name)
    pure tt

  unfoldable pub run_action : Request → Action → String → Exec (System rt) (Unit {0})
  unfolding waited
  run_action request start name = do on_runtime (Lifecycle.start rt name); waited request name
  run_action request stop name = on_runtime (Lifecycle.stop rt name)
  run_action request restart name = do on_runtime (Lifecycle.restart rt name); waited request name
  run_action request delete name = do
    on_runtime (Lifecycle.delete rt name)
    on_store (Store.delete_container name)

  -- The wanted state is recorded; a container that is not declared is no error.
  unfoldable pub set_wanted : Request → String → Option String → Exec (System rt) (Option Error)
  set_wanted request name none = pure none
  set_wanted request name (some state) = do
    stored ← attempt (on_store (Store.set_desired_state request.now name state))
    pure (unless_no_rows stored)

  unfoldable pub answered : String → Action → Option Error → Exec (System rt) ActionResult
  answered name action none = pure (entry_of name (action_text action) none)
  answered name action (some e) = fail e

  -- The action that POST /api/containers/{name}/{action} runs: an error of the stored state is only
  -- logged.
  unfoldable pub container_action : Request → Action → String → Exec (System rt) ActionResult
  unfolding answered
  container_action request action name = do
    done ← attempt (run_action request action name)
    elim done [
      | ok _ ↦ (do
        set_wanted request name (wanted action)
        record_audit request ("container." +ₛ action_text action) "container" name "success" ""
        answered name action none)
      | err e ↦ (do
        record_audit request ("container." +ₛ action_text action) "container" name "failure" ""
        answered name action (some e))
    ]

  unfoldable pub state_recorded :
      Request → Action → String → Result (Unit {0}) → Exec (System rt) (Option Error)
  state_recorded request action name (ok _) = set_wanted request name (wanted action)
  state_recorded request action name (err e) = pure (some e)

  -- One name of a batch: here an error of the stored state is the result.
  unfoldable pub bulk_step : Request → Action → String → Exec (System rt) ActionResult
  unfolding state_recorded set_wanted
  bulk_step request action name = do
    done ← attempt (run_action request action name)
    fault ← state_recorded request action name done
    record_audit request ("container." +ₛ action_text action) "container" name (outcome_text fault)
        "bulk action"
    pure (entry_of name (action_text action) fault)

  unfoldable pub bulk_steps :
      Request → Action → List String → List String → Exec (System rt) (List ActionResult)
  bulk_steps request action seen [] = pure []
  bulk_steps request action seen (name ∷ names) =
      if any (λ n. n =ₛ name) seen then bulk_steps request action seen names else (do
        entry ← bulk_step request action name
        entries ← bulk_steps request action (name ∷ seen) names
        pure (entry ∷ entries))

  unfoldable pub bulk_dispatch :
      Request → List String → Option Action → Exec (System rt) (List ActionResult)
  unfolding bulk_steps
  bulk_dispatch request names none = fail (failure "action must be start, stop, restart, or delete")
  bulk_dispatch request names (some action) = bulk_steps request action [] names

  -- POST /api/containers/bulk/action, behind the decoding of the body.
  unfoldable pub bulk_action : Request → List String → String → Exec (System rt) (List ActionResult)
  unfolding bulk_dispatch action_of
  bulk_action request names action = do
    reject (ltb (length names) 1 || ltb 32 (length names))
        "names must contain between 1 and 32 containers"
    bulk_dispatch request names (action_of action)

  unfoldable pub recorded_drift :
      Request → StateDrift → Result (Unit {0}) → Exec (System rt) (Option Error)
  unfolding set_wanted
  recorded_drift request drift (ok _) = set_wanted request drift.name (some drift.desired_state)
  recorded_drift request drift (err e) = pure (some e)

  -- The body of the loop of repairDrift; `audit` records as a request's or as the system's.
  unfoldable pub repair_one :
      (String → String → String → String → Exec (System rt) (Unit {0}))
      → Request
      → StateDrift
      → Exec (System rt) ActionResult
  unfolding recorded_drift
  repair_one audit request drift = do
    done ← attempt (run_action request (repair_of drift) drift.name)
    fault ← recorded_drift request drift done
    audit ("reconcile." +ₛ action_text (repair_of drift)) drift.name (outcome_text fault)
        "desired-state repair"
    pure (entry_of drift.name (action_text (repair_of drift)) fault)

  unfoldable pub repair_drift :
      (String → String → String → String → Exec (System rt) (Unit {0}))
      → Request
      → List StateDrift
      → Exec (System rt) (List ActionResult)
  repair_drift audit request [] = pure []
  repair_drift audit request (drift ∷ drifts) = do
    entry ← repair_one audit request drift
    entries ← repair_drift audit request drifts
    pure (entry ∷ entries)

  -- autoRepairPass of reconcile.go.
  unfoldable pub auto_repair_pass : Request → Exec (System rt) (List ActionResult)
  auto_repair_pass request = do
    report ← reconcile
    repair_drift
        (λ action name result details.
          record_system_audit request.now action name result ("automatic " +ₛ details))
        request report.desired_state_drift
