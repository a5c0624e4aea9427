-- ===== src/App/Reconcile/Tests.antt =====
-- reconcile.go on two containers, over a runtime in which every container forwards the same port.
use natbox.Prelude.{
  ◌≡◌, ◌↔◌, refl, true, String, none, List, [], ◌∷◌, failure, ok, err, name_pattern, split_on,
  parse_int, format_int, itoa,
}
use natbox.Incus.Runner.{Runtime, Instance, Device, validate_name}
use natbox.Incus.Forwards.Endpoint.{parse_endpoint}
use natbox.Incus.Forwards.Listing.{list_port_forwards, forwards_from_devices}
use natbox.App.Base.{System}
use natbox.App.Reconcile.{PortForwardIssue, scan_ports, report_of}
use natbox.App.Reconcile.Ports.{conflict, uses_of}
use natbox.App.Reconcile.Shared.{IsShared, listings, scan_ports-IsShared}

abbrev web : Device
web = record { type = "proxy"; listen = "tcp:0.0.0.0:2201"; connect = "tcp:127.0.0.1:22" }

abbrev toy : Runtime
toy = record {
  World = Unit {0};
  run = λ args w. (record { out = ""; stderr = ""; failed = none }, w);
  decode_instances = λ out. ok [];
  decode_info = λ out. err (failure "no info");
  decode_counters = λ out. ok [];
  decode_devices = λ out. ok (("ssh", web) ∷ []);
  decode_instance_devices = λ out. ok [];
}

abbrev running : String → Instance
running name = record { name = name; status = "Running"; type = "container"; network = [] }

abbrev two : List Instance
two = running "nat01" ∷ running "nat02" ∷ []

abbrev system : System toy
system = record {
  world = tt;
  db = record {
    containers = [];
    audit_events = [];
    next_id = 1;
    faults = [];
    duplicate_text = "UNIQUE constraint failed";
  };
}

forward_read : uses_of (listings two system) ≡ ("tcp/2201", "nat01") ∷ ("tcp/2201", "nat02") ∷ []
unfolding list_port_forwards validate_name name_pattern forwards_from_devices parse_endpoint
    split_on parse_int format_int itoa
forward_read = refl

scan_ports-IsShared_example :
    (issues : List PortForwardIssue) × ((scan_ports two ([], []) system).0 ≡ ok issues)
    × ((conflict "tcp/2201" (report_of [] two issues).port_forward_issues ≡ true)
        ↔ IsShared "tcp/2201" (uses_of (listings two system)))
scan_ports-IsShared_example = scan_ports-IsShared [] two system "tcp/2201"
