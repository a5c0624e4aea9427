-- ===== src/App/Tests.antt =====
-- main.go, policy.go and reconcile.go on small inputs, over a runtime that only keeps its command lines.
use natbox.Prelude.{
  ◌+◌, ◌-◌, ◌≡◌, ◌⊎◌, refl, true, not, ◌&&◌, String, none, some, List, [], ◌∷◌, arith, ℤ,
  count_chars, itoa, pos, length, ◌=ₛ◌, Error, failure, ok, err, if◌then◌else◌, All, name_pattern,
}
use natbox.Incus.Runner.{Runtime, Reply, Instance}
use natbox.Incus.Query.{NetworkStats, stats}
use natbox.Store.{ManagedContainer, has_row}
use natbox.Store.Rows.{find_row, is_found}
use natbox.App.Base.{Config, Request, System}
use natbox.App.Names.{pad, bulk_loop, bulk_names, bulk_width}
use natbox.App.Names.Valid.{numbered, IsNameable, Distinct, bulk_names_lem}
use natbox.App.Names.Complete.{bulk_names_complete}
use natbox.App.Ssh.{first_free}
use natbox.App.Ssh.Free.{IsFirstFree, first_free-IsFirstFree}
use natbox.App.Policy.{TimeFormat, view_of, enforce_item, last_named}
use natbox.App.Policy.Counting.{view_of-exact}
use natbox.App.Policy.Enforcement.{MustStop, enforce_item-MustStop}
use natbox.App.Reconcile.{report_of}
use natbox.App.Reconcile.Report.{
  names_drift, names_instance, differs, is_live, report_of-drift, report_of-presence,
}
use natbox.App.Bulk.{BulkCreateRequest}
use natbox.App.Actions.{stop, run_action, container_action}
use natbox.App.Acting.{Acts, container_action-Acts}

-- Every command works but the start of an instance.
abbrev step : List String → List (List String) → Reply × List (List String)
step [] log = (record { out = ""; stderr = ""; failed = none }, log)
step (op ∷ args) log =
    if op =ₛ "start"
    then (record { out = ""; stderr = "boom"; failed = some "exit status 1" }, (op ∷ args) ∷ log)
    else (record { out = ""; stderr = ""; failed = none }, (op ∷ args) ∷ log)

abbrev toy : Runtime
toy = record {
  World = List (List String);
  run = step;
  decode_instances = λ out. ok [];
  decode_info = λ out. err (failure "no info");
  decode_counters = λ out. ok [];
  decode_devices = λ out. ok [];
  decode_instance_devices = λ out. ok [];
}

abbrev request : Request
request = record {
  now = "t5";
  actor = "admin";
  source_ip = "127.0.0.1";
  ticks = λ name. 1;
  cause = "context deadline exceeded";
}

abbrev row : String → ManagedContainer
row name = record {
  name = name;
  image = "images:alpine/3.24";
  memory_limit_mb = pos 64;
  disk_limit_gb = pos 1;
  cpu_limit = "";
  desired_state = "running";
  quota_bytes = pos 1000;
  quota_rx_baseline = pos 10;
  quota_tx_baseline = pos 20;
  quota_reset_at = "t0";
  expires_at = "t3";
  created_at = "t0";
  updated_at = "t0";
}

abbrev system : System toy
system = record {
  world = [];
  db = record {
    containers = row "nat01" ∷ row "nat02" ∷ [];
    audit_events = [];
    next_id = 1;
    faults = [];
    duplicate_text = "UNIQUE constraint failed";
  };
}

abbrev start_error : Error
start_error = failure "incus start: exit status 1: boom"

container_action-Acts_example :
    Acts request stop "nat01" system
      (run_action request stop "nat01" system).0
      (container_action request stop "nat01" system)
container_action-Acts_example = container_action-Acts request stop "nat01" system

abbrev config : Config
config = record {
  port_min = pos 10000;
  port_max = pos 60000;
  ssh_port_start = pos 2201;
  ssh_port_end = pos 2299;
  memory_reserve_mb = pos 100;
  disk_reserve_gb = pos 2;
}

abbrev two_names : List String
two_names = "nat01" ∷ "nat02" ∷ []

bulk_names_lem_example :
    (two_names ≡ numbered "nat" (bulk_width (1 + 2 - 1)) 2 1)
    × (pos 2 ≡ pos (length two_names))
    × All IsNameable two_names
    × Distinct two_names
unfolding bulk_names name_pattern bulk_loop pad bulk_width count_chars itoa
bulk_names_lem_example = bulk_names_lem "nat" (pos 1) (pos 2) two_names refl

bulk_names_complete_example : (names : List String) × (bulk_names "nat" (pos 1) (pos 2) ≡ ok names)
unfolding name_pattern pad bulk_width count_chars itoa
bulk_names_complete_example =
    bulk_names_complete "nat" 1 2 refl (omega arith) (omega arith) (omega arith)
      (omega arith, (omega arith, tt))

abbrev used : List ℤ
used = pos 2201 ∷ pos 2202 ∷ []

first_free-IsFirstFree_example : IsFirstFree used 99 2201 2202 (first_free used 99 (pos 2201))
first_free-IsFirstFree_example = first_free-IsFirstFree used 99 2201 2202

abbrev counters : NetworkStats
counters = record { rx_bytes = pos 500; tx_bytes = pos 400; rx_packets = pos 5; tx_packets = pos 4 }

view_of-exact_example :
    ((view_of (row "nat01") (ok counters)).used_bytes ≡ pos ((500 - 10) + (400 - 20)))
    × ((view_of (row "nat01") (ok counters)).remaining_bytes
        ≡ pos (1000 - ((500 - 10) + (400 - 20))))
view_of-exact_example =
    view_of-exact (row "nat01") counters 500 400 10 20 1000 refl refl refl refl refl (omega arith)
      (omega arith)

abbrev running : String → Instance
running name = record { name = name; status = "Running"; type = "container"; network = [] }

-- Times that are written as "t" and the instant 3.
abbrev time : TimeFormat
time = record { parse = λ text. if text =ₛ "t3" then some 3 else none; format = λ n. "t3" }

enforce_item-MustStop_example :
    ((enforce_item time 5 request (running "nat01" ∷ []) (row "nat01") system).1.db ≡ system.db)
    ⊎ MustStop time 5 (running "nat01" ∷ []) (stats toy "nat01" []).0 (row "nat01")
enforce_item-MustStop_example =
    enforce_item-MustStop time 5 request (running "nat01" ∷ []) (row "nat01") system

report_of-drift_example :
    names_drift "nat02"
      (report_of system.db.containers (running "nat01" ∷ []) []).desired_state_drift
    ≡ differs (find_row "nat02" system.db.containers) (last_named "nat02" (running "nat01" ∷ []))
unfolding has_row
report_of-drift_example =
    report_of-drift "nat02" system.db.containers (running "nat01" ∷ []) [] (refl, (refl, tt))

report_of-presence_example :
    (find_row "nat02" (report_of system.db.containers (running "nat03" ∷ []) []).managed_missing ≡ (
      if is_live (last_named "nat02" (running "nat03" ∷ []))
      then none
      else find_row "nat02" system.db.containers))
    × (names_instance "nat02"
          (report_of system.db.containers (running "nat03" ∷ []) []).runtime_unmanaged
        ≡ is_live (last_named "nat02" (running "nat03" ∷ []))
          && not (is_found (find_row "nat02" system.db.containers)))
report_of-presence_example =
    report_of-presence "nat02" system.db.containers (running "nat03" ∷ []) []

abbrev batch : BulkCreateRequest
batch = record {
  prefix = "nat";
  start_index = pos 1;
  count = pos 2;
  image = "";
  cpu_limit = "";
  memory_limit_mb = pos 64;
  disk_limit_gb = pos 1;
  public_key = "";
  allocate_ssh = true;
}
