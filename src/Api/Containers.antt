-- ===== src/Api/Containers.antt =====
-- main.go: containers and containerAction, with the decoding of the bodies.
use natbox.Prelude.{
  ℕ, ◌^◌, ◌*◌, ◌||◌, String, ◌+ₛ◌, Option, none, some, List, ℤ, ltb_ℤ, if◌then◌else◌, format_int,
  parse_int, failure, Result, ok, err, Exec, pure, fail, attempt, ◌>>=◌, ◌>>◌,
}
use natbox.Incus.Runner.{Runtime}
use natbox.Incus.Query.{info}
use natbox.Incus.Ssh.{configure_ssh}
use natbox.Incus.Forwards.Endpoint.{PortForward}
use natbox.Incus.Forwards.Listing.{list_port_forwards}
use natbox.Incus.Forwards.Adding.{add_port_forward, remove_port_forward}
use natbox.App.Base.{Config, System, on_runtime, record_audit}
use natbox.App.Create.{create_container}
use natbox.App.Bulk.{BulkReply, created, rolled_back, bulk_create}
use natbox.App.Policy.{PolicyView, policy, update_policy}
use natbox.App.Ssh.{allocate_ssh}
use natbox.App.Actions
use natbox.Api.Answer.{
  Call, ForwardRequest, Setup, Moment, request_of, views_data, name_data, forwards_data,
  forward_data, removed_data, info_data, policy_data, action_data, actions_data, created_data,
  Answer, success, rolled_back_batch, not_found, respond, Handler, answer,
}
use natbox.Api.Reading.{list_views}
use natbox.Api.Targets.{
  Route, list_all, create, bulk, bulk_action, missing, list_ports, show_info, show_policy,
  set_policy, set_key, add_port, remove_port, run, containers_route, ssh_route,
}

abbrev result_text : {A : Type 0} → Result A → String
result_text (ok a) = "success"
result_text (err e) = "failure"

abbrev returned : {S A : Type 0} → Result A → Exec S A
returned r s = (r, s)

abbrev allocation_details : Result PortForward → String
allocation_details (ok forward) =
    "listenPort="
    +ₛ format_int forward.listen_port
    +ₛ " targetPort="
    +ₛ format_int forward.target_port
allocation_details (err e) = ""

abbrev batch_answer : Result BulkReply → Answer
batch_answer (ok (created entries)) = success (created_data entries)
batch_answer (ok (rolled_back entries name e)) = rolled_back_batch entries name e
batch_answer (err e) = respond created_data (err e)

abbrev port_range_text : Config → String
port_range_text config =
    "listenPort must be within configured range "
    +ₛ format_int config.port_min
    +ₛ "-"
    +ₛ format_int config.port_max

abbrev port_details : String → ℤ → String
port_details protocol port = "protocol=" +ₛ protocol +ₛ " listenPort=" +ₛ format_int port

module _ {rt : Runtime} (setup : Setup) (moment : Moment) (call : Call) where
  -- What a call on the runtime returned is recorded in the audit log, and returned.
  abbrev pub recorded :
      {A : Type 0} → String → String → (Result A → String) → Exec (System rt) A → Exec (System rt) A
  recorded action name details m = do
    done ← attempt m
    record_audit (request_of moment call) action "container" name (result_text done) (details done)
    returned done

  -- The body of a request, under a limit of `k` KiB.
  abbrev pub body : {A : Type 0} → (ℕ → String → Result A) → ℕ → Exec (System rt) A
  body decode k s = (decode (k * 2 ^ 10) call.body, s)

  unfoldable pub set_policy_route : String → Exec (System rt) PolicyView
  set_policy_route name = do
    req ← body setup.json.policy 16
    recorded "container.policy" name
        (λ _. "quotaBytes=" +ₛ format_int req.quota_bytes +ₛ " expiresAt=" +ₛ req.expires_at)
        (update_policy setup.time (request_of moment call) name req.quota_bytes req.expires_at)

  unfoldable pub set_key_route : String → Exec (System rt) String
  set_key_route name = do
    key ← body setup.json.public_key 16
    on_runtime (configure_ssh rt name key)
    pure name

  unfoldable pub open_port : String → ForwardRequest → Exec (System rt) PortForward
  open_port name req =
      if ltb_ℤ req.listen_port setup.config.port_min || ltb_ℤ setup.config.port_max req.listen_port
      then fail (failure (port_range_text setup.config))
      else (do
        recorded "port.add" name
            (λ _.
              port_details req.protocol req.listen_port
              +ₛ " targetPort="
              +ₛ format_int req.target_port)
            (on_runtime (add_port_forward rt name req.protocol req.listen_port req.target_port))
        pure (record {
          name = name;
          protocol = req.protocol;
          listen_port = req.listen_port;
          target_port = req.target_port;
        }))

  unfoldable pub add_port_route : String → Exec (System rt) PortForward
  unfolding open_port
  add_port_route name = do req ← body setup.json.forward 16; open_port name req

  unfoldable pub close_port : String → Option ℤ → Exec (System rt) (String × ℤ)
  close_port name none = fail (failure "invalid listenPort")
  close_port name (some port) = do
    recorded "port.remove" name (λ _. port_details (call.query "protocol") port)
        (on_runtime (remove_port_forward rt name (call.query "protocol") port))
    pure (call.query "protocol", port)

  unfoldable pub remove_port_route : String → Exec (System rt) (String × ℤ)
  unfolding close_port
  remove_port_route name = close_port name (parse_int (call.query "listenPort"))

  unfoldable pub create_route : Exec (System rt) String
  create_route = do
    req ← body setup.json.creation 64
    create_container setup.format_bytes setup.config moment.host (request_of moment call) req

  unfoldable pub bulk_route : Exec (System rt) BulkReply
  bulk_route = do
    req ← body setup.json.bulk 64
    bulk_create setup.format_bytes setup.config moment.host (request_of moment call) req

  unfoldable pub bulk_action_route : Exec (System rt) (List Actions.ActionResult)
  bulk_action_route = do
    req ← body setup.json.action 32
    Actions.bulk_action (request_of moment call) req.names req.action

  -- The branches of containers.
  unfoldable pub on_route : Route → Handler rt
  unfolding set_policy_route set_key_route add_port_route remove_port_route create_route bulk_route
      bulk_action_route
  on_route list_all s = answer views_data (on_runtime (list_views rt)) s
  on_route create s = answer name_data create_route s
  on_route bulk s = let (r, s') = bulk_route s in (batch_answer r, s')
  on_route bulk_action s = answer actions_data bulk_action_route s
  on_route (list_ports name) s = answer forwards_data (on_runtime (list_port_forwards rt name)) s
  on_route (show_info name) s = answer info_data (on_runtime (info rt name)) s
  on_route (show_policy name) s = answer policy_data (policy name) s
  on_route (set_policy name) s = answer policy_data (set_policy_route name) s
  on_route (set_key name) s = answer name_data (set_key_route name) s
  on_route (add_port name) s = answer forward_data (add_port_route name) s
  on_route (remove_port name) s =
      answer (λ removed. removed_data name removed.0 removed.1) (remove_port_route name) s
  on_route (run action name) s =
      answer action_data (Actions.container_action (request_of moment call) action name) s
  on_route missing s = (not_found, s)

  unfoldable pub containers : String → Handler rt
  unfolding containers_route on_route
  containers path = on_route (containers_route call.http.method path)

  unfoldable pub allocation : String → Exec (System rt) PortForward
  allocation name =
      recorded "port.allocate_ssh" name allocation_details
        (on_runtime (allocate_ssh rt setup.config name))

  unfoldable pub on_ssh_route : String → Option String → Handler rt
  unfolding containers allocation
  on_ssh_route path none = containers path
  on_ssh_route path (some name) = answer forward_data (allocation name)

  unfoldable pub container_action : String → Handler rt
  unfolding ssh_route on_ssh_route
  container_action path = on_ssh_route path (ssh_route call.http.method path)
