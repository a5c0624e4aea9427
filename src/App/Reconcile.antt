-- ===== src/App/Reconcile.antt =====
-- reconcile.go: declared containers compared with the live ones.
pub mod Tests
pub mod Ports
pub mod Shared
pub mod Report
use natbox.Prelude.{
  Bool, true, false, not, ◌&&◌, String, ◌+ₛ◌, Option, none, some, List, [], ◌∷◌, ◌++◌, ℤ, pos,
  ltb_ℤ, ◌=ₛ◌, str_lt, if◌then◌else◌, format_int, lookup, Error, error_text, Result, ok, err, Exec,
  pure, attempt, ◌>>=◌, ◌>>◌,
}
use natbox.Incus.Runner.{Runtime, Instance}
use natbox.Incus.Query.{list}
use natbox.Incus.Forwards.Endpoint.{PortForward}
use natbox.Incus.Forwards.Listing.{list_port_forwards}
use natbox.Store
use natbox.Store.{ManagedContainer, has_row}
use natbox.App.Base.{System, on_runtime, on_store}
use natbox.App.Policy.{last_named, is_running}

pub record StateDrift : Type 0 where
  pub name : String
  pub desired_state : String
  pub runtime_status : String

pub record PortForwardIssue : Type 0 where
  pub kind : String
  pub protocol : String
  pub port : ℤ
  pub container : String
  pub other : String
  pub details : String

pub record ReconcileReport : Type 0 where
  pub managed_missing : List ManagedContainer
  pub runtime_unmanaged : List Instance
  pub desired_state_drift : List StateDrift
  pub port_forward_issues : List PortForwardIssue

abbrev pub same_bool : Bool → Bool → Bool
same_bool true b = b
same_bool false b = not b

-- The first loop: declared containers with no instance.
unfoldable pub missing_of : List Instance → List ManagedContainer → List ManagedContainer
missing_of instances [] = []
missing_of instances (item ∷ items) = elim (last_named item.name instances) [
  | none ↦ item ∷ missing_of instances items
  | some i ↦ missing_of instances items
]

abbrev pub drift_of : ManagedContainer → Instance → StateDrift
drift_of item i = record {
  name = item.name;
  desired_state = item.desired_state;
  runtime_status = i.status;
}

-- The first loop: declared containers that run and should not, or the other way round.
unfoldable pub drifts_of : List Instance → List ManagedContainer → List StateDrift
drifts_of instances [] = []
drifts_of instances (item ∷ items) = elim (last_named item.name instances) [
  | none ↦ drifts_of instances items
  | some i ↦
      let rest = drifts_of instances items in
      if same_bool (item.desired_state =ₛ "running") (i.status =ₛ "Running")
      then rest
      else drift_of item i ∷ rest
]

-- The second loop: instances that are not declared.
unfoldable pub unmanaged_of : List ManagedContainer → List Instance → List Instance
unmanaged_of items [] = []
unmanaged_of items (i ∷ is) =
    let rest = unmanaged_of items is in if has_row i.name items then rest else i ∷ rest

-- The key of a listen port in usedPorts.
abbrev pub port_key : PortForward → String
port_key f = f.protocol +ₛ "/" +ₛ format_int f.listen_port

abbrev duplicate : String → PortForward → String → PortForwardIssue
duplicate name f other = record {
  kind = "duplicate_listen_port";
  protocol = f.protocol;
  port = f.listen_port;
  container = name;
  other = other;
  details = "same public listen port is assigned to multiple containers";
}

-- A forward of the container `name`: an issue, or the port's first user, is added.
unfoldable pub use_port :
    String
    → PortForward
    → List PortForwardIssue × List (String × String)
    → List PortForwardIssue × List (String × String)
use_port name f (issues, used) = elim (lookup (port_key f) used) [
  | none ↦ (issues, (port_key f, name) ∷ used)
  | some other ↦
      if other =ₛ name
      then (issues, (port_key f, name) ∷ used)
      else (issues ++ duplicate name f other ∷ [], used)
]

unfoldable pub use_ports :
    String
    → List PortForward
    → List PortForwardIssue × List (String × String)
    → List PortForwardIssue × List (String × String)
unfolding use_port
use_ports name [] acc = acc
use_ports name (f ∷ fs) acc = use_ports name fs (use_port name f acc)

abbrev unreadable : String → Error → PortForwardIssue
unreadable name e = record {
  kind = "unreadable";
  protocol = "";
  port = pos 0;
  container = name;
  other = "";
  details = error_text e;
}

abbrev pub step_ports :
    String
    → Result (List PortForward)
    → List PortForwardIssue × List (String × String)
    → List PortForwardIssue × List (String × String)
step_ports name (ok forwards) acc = use_ports name forwards acc
step_ports name (err e) (issues, used) = (issues ++ unreadable name e ∷ [], used)

-- The orders of the report.
unfoldable pub insert_drift : StateDrift → List StateDrift → List StateDrift
insert_drift d [] = d ∷ []
insert_drift d (x ∷ xs) = if str_lt x.name d.name then x ∷ insert_drift d xs else d ∷ x ∷ xs

unfoldable pub sort_drifts : List StateDrift → List StateDrift
unfolding insert_drift
sort_drifts [] = []
sort_drifts (d ∷ ds) = insert_drift d (sort_drifts ds)

unfoldable pub insert_instance : Instance → List Instance → List Instance
insert_instance i [] = i ∷ []
insert_instance i (x ∷ xs) = if str_lt x.name i.name then x ∷ insert_instance i xs else i ∷ x ∷ xs

unfoldable pub sort_instances : List Instance → List Instance
unfolding insert_instance
sort_instances [] = []
sort_instances (i ∷ is) = insert_instance i (sort_instances is)

unfoldable pub issue_before : PortForwardIssue → PortForwardIssue → Bool
issue_before a b =
    if a.protocol =ₛ b.protocol then ltb_ℤ a.port b.port else str_lt a.protocol b.protocol

unfoldable pub insert_issue : PortForwardIssue → List PortForwardIssue → List PortForwardIssue
unfolding issue_before
insert_issue i [] = i ∷ []
insert_issue i (x ∷ xs) = if issue_before x i then x ∷ insert_issue i xs else i ∷ x ∷ xs

unfoldable pub sort_issues : List PortForwardIssue → List PortForwardIssue
unfolding insert_issue
sort_issues [] = []
sort_issues (i ∷ is) = insert_issue i (sort_issues is)

unfoldable pub report_of :
    List ManagedContainer → List Instance → List PortForwardIssue → ReconcileReport
unfolding missing_of drifts_of unmanaged_of sort_drifts sort_instances sort_issues
report_of managed instances issues = record {
  managed_missing = Store.order_by_name (missing_of instances managed);
  runtime_unmanaged = sort_instances (unmanaged_of managed instances);
  desired_state_drift = sort_drifts (drifts_of instances managed);
  port_forward_issues = sort_issues issues;
}

module _ {rt : Runtime} where
  unfoldable pub scan_ports :
      List Instance
      → List PortForwardIssue × List (String × String)
      → Exec (System rt) (List PortForwardIssue)
  unfolding use_ports
  scan_ports [] acc = pure acc.0
  scan_ports (i ∷ is) acc = do
    forwards ← attempt (on_runtime (list_port_forwards rt i.name))
    scan_ports is (step_ports i.name forwards acc)

  unfoldable pub reconcile : Exec (System rt) ReconcileReport
  unfolding scan_ports report_of
  reconcile = do
    managed ← on_store Store.list_containers
    instances ← on_runtime (list rt)
    issues ← scan_ports instances ([], [])
    pure (report_of managed instances issues)
