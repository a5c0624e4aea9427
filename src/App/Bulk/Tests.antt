-- ===== src/App/Bulk/Tests.antt =====
-- main.go: a batch over a runtime that keeps the names of its instances, and on which only the first one
-- gets an address.
use natbox.Prelude.{
  ◌≡◌, refl, Bool, false, not, String, none, some, List, [], ◌∷◌, arith, pos, any, keep, ◌=ₛ◌,
  failure, ok, err, if◌then◌else◌,
}
use natbox.Incus.Runner.{Runtime, Reply, Instance}
use natbox.Incus.Creating.{Hosts}
use natbox.App.Base.{Config, Request, System}
use natbox.App.Bulk.{BulkCreateRequest}

abbrev done : Reply
done = record { out = ""; stderr = ""; failed = none }

abbrev broke : Reply
broke = record { out = ""; stderr = "boom"; failed = some "exit status 1" }

abbrev has : String → List String → Bool
has name names = any (λ n. n =ₛ name) names

abbrev without : String → List String → List String
without name names = keep (λ n. not (n =ₛ name)) names

abbrev first : List String → String
first [] = ""
first (x ∷ xs) = x

abbrev second : List String → String
second [] = ""
second (x ∷ xs) = first xs

abbrev step : List String → List String → Reply × List String
step [] names = (done, names)
step (op ∷ args) names =
    if op =ₛ "init"
    then (if has (second args) names then (broke, names) else (done, second args ∷ names))
    else if op =ₛ "delete"
    then (if has (first args) names then (done, without (first args) names) else (broke, names))
    else (done, names)

abbrev addressed : Instance
addressed = record {
  name = "nat01";
  status = "Running";
  type = "container";
  network = ("eth0", record { family = "inet"; address = "10.1.0.2"; scope = "global" } ∷ []) ∷ [];
}

abbrev toy : Runtime
toy = record {
  World = List String;
  run = step;
  decode_instances = λ out. ok (addressed ∷ []);
  decode_info = λ out. err (failure "no info");
  decode_counters = λ out. ok [];
  decode_devices = λ out. ok [];
  decode_instance_devices = λ out. ok [];
}

has-without : (name : String) (names : List String) → has name (without name names) ≡ false
has-without name [] = refl
has-without name (n ∷ ns) = ground (arith, has-without name ns)

unchanged :
    (args names : List String) (text name : String)
    → (step ("init" ∷ args) names).0.failed ≡ some text
    → has name (step ("init" ∷ args) names).1 ≡ has name names
unchanged args names text name failed = ground arith

gone :
    (name : String) (names : List String)
    → (step ("delete" ∷ name ∷ "--force" ∷ []) names).0.failed ≡ none
    → has name (step ("delete" ∷ name ∷ "--force" ∷ []) names).1 ≡ false
gone name names worked = ground (arith, has-without name names)

kept :
    (name : String) (names : List String) (text : String)
    → (step ("delete" ∷ name ∷ "--force" ∷ []) names).0.failed ≡ some text
    → has name (step ("delete" ∷ name ∷ "--force" ∷ []) names).1 ≡ has name names
kept name names text failed = ground arith

abbrev toy_Hosts : Hosts toy
toy_Hosts = record {
  present = λ names name. has name names;
  init_failed = λ args names text name failed. unchanged args names text name failed;
  deleted = λ name names worked. gone name names worked;
  delete_failed = λ name names text failed. kept name names text failed;
}

abbrev config : Config
config = record {
  port_min = pos 10000;
  port_max = pos 60000;
  ssh_port_start = pos 2201;
  ssh_port_end = pos 2299;
  memory_reserve_mb = pos 100;
  disk_reserve_gb = pos 2;
}

abbrev request : Request
request = record {
  now = "t5";
  actor = "admin";
  source_ip = "127.0.0.1";
  ticks = λ name. 1;
  cause = "context deadline exceeded";
}

abbrev batch : BulkCreateRequest
batch = record {
  prefix = "nat";
  start_index = pos 1;
  count = pos 2;
  image = "images:alpine/3.24";
  cpu_limit = "12%";
  memory_limit_mb = pos 64;
  disk_limit_gb = pos 1;
  public_key = "";
  allocate_ssh = false;
}

abbrev two_names : List String
two_names = "nat01" ∷ "nat02" ∷ []

abbrev system : System toy
system = record {
  world = [];
  db = record {
    containers = [];
    audit_events = [];
    next_id = 1;
    faults = [];
    duplicate_text = "UNIQUE constraint failed";
  };
}
