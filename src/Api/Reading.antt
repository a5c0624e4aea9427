-- ===== src/Api/Reading.antt =====
-- main.go: the handlers that only read: capabilities, host, templates,
-- managedContainers, auditEvents, backup, reconcileAPI, ports and the list of containers.
use natbox.Prelude.{
  ℕ, ◌^◌, ◌-◌, Bool, true, false, String, Option, none, some, List, [], ◌∷◌, ℤ, pos, negsuc, ltb,
  ltb_ℤ, ◌=ₛ◌, if◌then◌else◌, code, ◌==◌, lookup, parse_digits, Result, ok, err, Exec, pure,
  attempt, ◌>>=◌,
}
use natbox.Incus.Runner.{Runtime, Instance, InstanceInfo, ResourceUsage}
use natbox.Incus.Probe.{probe}
use natbox.Incus.Query.{NetworkStats, ipv4, list, info, stats}
use natbox.Incus.Forwards.Endpoint.{PortForward}
use natbox.Incus.Forwards.Listing.{list_port_forwards}
use natbox.Store
use natbox.Store.{ManagedContainer, parse_before_id}
use natbox.App.Base.{on_runtime, on_store}
use natbox.App.Capacity.{host_view}
use natbox.App.Reconcile.{reconcile}
use natbox.App.Ssh.{set_port}
use natbox.Api.Answer.{
  Call, Setup, Moment, healthy, capabilities_data, host_data, templates_data, managed_data,
  audit_data, backup_data, report_data, ports_data, TemplateView, ContainerView, success, Handler,
  answer, only,
}

-- The value that strconv.Atoi returns when its error is dropped: 0 for a text that is no number, and the
-- nearest int64 for a number out of range.
abbrev clamped : Bool → Option ℕ → ℤ
clamped negative none = pos 0
clamped true (some n) =
    if ltb n (2 ^ 63) then (if n == 0 then pos 0 else negsuc (n - 1)) else negsuc (2 ^ 63 - 1)
clamped false (some n) = if ltb n (2 ^ 63) then pos n else pos (2 ^ 63 - 1)

unfoldable pub atoi_value : String → ℤ
atoi_value String.[] = pos 0
atoi_value (String.◌∷◌ c s) =
    if code c == b'-'
    then clamped true (parse_digits s)
    else if code c == b'+'
    then clamped false (parse_digits s)
    else clamped false (parse_digits (String.◌∷◌ c s))

-- The sets of usedPorts, and their order in the answer.
unfoldable pub add_forwards : List ℤ × List ℤ → List PortForward → List ℤ × List ℤ
add_forwards used [] = used
add_forwards (tcp, udp) (f ∷ fs) =
    add_forwards
      (if f.protocol =ₛ "tcp"
        then (set_port tcp f.listen_port, udp)
        else if f.protocol =ₛ "udp"
        then (tcp, set_port udp f.listen_port)
        else (tcp, udp))
      fs

unfoldable pub insert_port : ℤ → List ℤ → List ℤ
insert_port p [] = p ∷ []
insert_port p (q ∷ qs) = if ltb_ℤ q p then q ∷ insert_port p qs else p ∷ q ∷ qs

unfoldable pub sorted_ports : List ℤ → List ℤ
unfolding insert_port
sorted_ports [] = []
sorted_ports (p ∷ ps) = insert_port p (sorted_ports ps)

unfoldable pub builtin_templates : List TemplateView
builtin_templates =
    record {
      id = "tiny";
      name = "轻量 NAT";
      image = "images:alpine/3.24";
      memory_limit_mb = pos 120;
      disk_limit_gb = pos 1;
      cpu_limit = "12%";
    }
    ∷ record {
      id = "standard";
      name = "标准 NAT";
      image = "images:alpine/3.24";
      memory_limit_mb = pos 256;
      disk_limit_gb = pos 2;
      cpu_limit = "25%";
    }
    ∷ record {
      id = "gateway";
      name = "网关 NAT";
      image = "images:alpine/3.24";
      memory_limit_mb = pos 512;
      disk_limit_gb = pos 4;
      cpu_limit = "50%";
    }
    ∷ []

abbrev ok_or_none : {A : Type 0} → Result A → Option A
ok_or_none (ok a) = some a
ok_or_none (err e) = none

abbrev forwards_or_none : Result (List PortForward) → List PortForward
forwards_or_none (ok fs) = fs
forwards_or_none (err e) = []

abbrev memory_of : Option InstanceInfo → Option ResourceUsage
memory_of none = none
memory_of (some i) = some i.memory

abbrev root_of : Option InstanceInfo → Option ResourceUsage
root_of none = none
root_of (some i) = lookup "root" i.disk

abbrev start_time_of : Option InstanceInfo → String
start_time_of none = ""
start_time_of (some i) = i.started_at

abbrev view_with :
    Instance → Result (List PortForward) → Option InstanceInfo → Option NetworkStats → ContainerView
view_with i forwards found traffic = record {
  name = i.name;
  status = i.status;
  type = i.type;
  ipv4 = ipv4 i;
  memory = memory_of found;
  disk = root_of found;
  started_at = start_time_of found;
  port_forwards = forwards_or_none forwards;
  traffic = traffic;
}

module _ (rt : Runtime) where
  unfoldable pub collect_ports : List ℤ × List ℤ → List Instance → Exec rt.World (List ℤ × List ℤ)
  unfolding add_forwards
  collect_ports used [] = pure used
  collect_ports used (i ∷ is) = do
    forwards ← list_port_forwards rt i.name
    collect_ports (add_forwards used forwards) is

  unfoldable pub used_ports : Exec rt.World (List ℤ × List ℤ)
  unfolding collect_ports sorted_ports
  used_ports = do
    instances ← list rt
    used ← collect_ports ([], []) instances
    pure (sorted_ports used.0, sorted_ports used.1)

  -- The view of one instance: what cannot be read is left out.
  unfoldable pub view_of_instance : Instance → Exec rt.World ContainerView
  view_of_instance i = do
    forwards ← attempt (list_port_forwards rt i.name)
    found ← attempt (info rt i.name)
    traffic ← attempt (stats rt i.name)
    pure (view_with i forwards (ok_or_none found) (ok_or_none traffic))

  unfoldable pub views_of_instances : List Instance → Exec rt.World (List ContainerView)
  unfolding view_of_instance
  views_of_instances [] = pure []
  views_of_instances (i ∷ is) = do
    view ← view_of_instance i
    views ← views_of_instances is
    pure (view ∷ views)

  -- GET /api/containers
  unfoldable pub list_views : Exec rt.World (List ContainerView)
  unfolding views_of_instances
  list_views = do instances ← list rt; views_of_instances instances

module _ {rt : Runtime} (setup : Setup) (moment : Moment) (call : Call) where
  unfoldable pub health : Handler rt
  health s = (success (healthy setup.version moment.uptime), s)

  unfoldable pub capabilities : Handler rt
  capabilities = only "GET" call (answer capabilities_data (on_runtime (probe rt setup.probe_json)))

  unfoldable pub host : Handler rt
  unfolding host_view
  host = only "GET" call (
      answer host_data λ s. (
        elim moment.host [ ok snapshot ↦ ok (host_view setup.config snapshot) | err e ↦ err e ],
        s,
      ))

  unfoldable pub templates : Handler rt
  unfolding builtin_templates
  templates = only "GET" call (answer templates_data (pure builtin_templates))

  unfoldable pub managed_containers : Handler rt
  managed_containers = only "GET" call (answer managed_data (on_store Store.list_containers))

  unfoldable pub audit_events : Handler rt
  unfolding atoi_value
  audit_events = only "GET" call (
      answer audit_data (
        on_store (
          Store.list_audit (atoi_value (call.query "limit"))
            (parse_before_id (call.query "beforeId")))))

  unfoldable pub backup : Handler rt
  backup = only "GET" call (answer backup_data (on_store (Store.export moment.now_text)))

  unfoldable pub reconcile_api : Handler rt
  reconcile_api = only "GET" call (answer report_data reconcile)

  unfoldable pub ports : Handler rt
  unfolding used_ports
  ports = only "GET" call (
      answer
        (λ (used : List ℤ × List ℤ). ports_data (record {
          public_min = setup.config.port_min;
          public_max = setup.config.port_max;
          ssh_min = setup.config.ssh_port_start;
          ssh_max = setup.config.ssh_port_end;
          used_tcp = used.0;
          used_udp = used.1;
        }))
        (on_runtime (used_ports rt)))
