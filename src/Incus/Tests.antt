-- ===== src/Incus/Tests.antt =====
-- internal/incus/client.go over a runtime that only keeps the names of its instances.
use natbox.Prelude.{
  ◌*◌, ◌≡◌, refl, Bool, true, false, not, String, none, some, List, [], ◌∷◌, arith, pos, any, keep,
  ◌=ₛ◌, failure, ok, err, if◌then◌else◌,
}
use natbox.Prelude.Text.Split.{lacks}
use natbox.Incus.Runner.{Runtime, Reply, InstanceSpec, mib, gib}
use natbox.Incus.Lifecycle.{create}
use natbox.Incus.Creating.{recorded, Creates, create-Creates, Hosts, CleansUp, create-CleansUp}
use natbox.Incus.Forwards.Endpoint.{endpoint}
use natbox.Incus.Forwards.Listing.{forward_of}
use natbox.Incus.Forwards.RoundTrip.{forward_of-endpoint}

abbrev done : Reply
done = record { out = ""; stderr = ""; failed = none }

abbrev broke : Reply
broke = record { out = ""; stderr = "boom"; failed = some "exit status 1" }

abbrev has : String → List String → Bool
has name names = any (λ n. n =ₛ name) names

abbrev first : List String → String
first [] = ""
first (x ∷ xs) = x

abbrev second : List String → String
second [] = ""
second (x ∷ xs) = first xs

-- `init` needs a name that is free and adds it, `delete` one that is there and removes it, and `start`
-- fails.
abbrev step : List String → List String → Reply × List String
step [] names = (done, names)
step (op ∷ args) names =
    if op =ₛ "init"
    then (if has (second args) names then (broke, names) else (done, second args ∷ names))
    else if op =ₛ "delete"
    then (if has (first args) names
        then (done, keep (λ n. not (n =ₛ first args)) names)
        else (broke, names))
    else if op =ₛ "start"
    then (broke, names)
    else (done, names)

abbrev toy : Runtime
toy = record {
  World = List String;
  run = step;
  decode_instances = λ out. ok [];
  decode_info = λ out. err (failure "no info");
  decode_counters = λ out. ok [];
  decode_devices = λ out. ok [];
  decode_instance_devices = λ out. ok [];
}

abbrev spec : InstanceSpec
spec = record {
  name = "nat01";
  image = "images:alpine/3.24";
  cpu_allowance = "12%";
  memory_bytes = pos (64 * mib);
  root_disk_bytes = pos (1 * gib);
}

has-keep :
    (name : String) (names : List String) → has name (keep (λ n. not (n =ₛ name)) names) ≡ false
has-keep name [] = refl
has-keep name (n ∷ ns) = ground (arith, has-keep name ns)

unchanged :
    (args names : List String) (text name : String)
    → (step ("init" ∷ args) names).0.failed ≡ some text
    → has name (step ("init" ∷ args) names).1 ≡ has name names
unchanged args names text name failed = ground arith

gone :
    (name : String) (names : List String)
    → (step ("delete" ∷ name ∷ "--force" ∷ []) names).0.failed ≡ none
    → has name (step ("delete" ∷ name ∷ "--force" ∷ []) names).1 ≡ false
gone name names worked = ground (arith, has-keep name names)

kept :
    (name : String) (names : List String) (text : String)
    → (step ("delete" ∷ name ∷ "--force" ∷ []) names).0.failed ≡ some text
    → has name (step ("delete" ∷ name ∷ "--force" ∷ []) names).1 ≡ has name names
kept name names text failed = ground arith

abbrev toy_Hosts : Hosts toy
toy_Hosts = record {
  present = λ names name. has name names;
  init_failed = λ args names text name failed. unchanged args names text name failed;
  deleted = λ name names worked. gone name names worked;
  delete_failed = λ name names text failed. kept name names text failed;
}

deletable :
    (names : List String)
    → has "nat01" names ≡ true
    → (step ("delete" ∷ "nat01" ∷ "--force" ∷ []) names).0.failed ≡ none
deletable names there = ground arith

create-Creates_example :
    Creates {W = List String} spec (create (recorded toy) spec ("nat02" ∷ [], []))
create-Creates_example = create-Creates toy spec ("nat02" ∷ [])

create-CleansUp_example :
    CleansUp toy toy_Hosts spec deletable ("nat02" ∷ []) (create toy spec ("nat02" ∷ []))
create-CleansUp_example = create-CleansUp toy toy_Hosts spec deletable ("nat02" ∷ [])

abbrev other : String
other = "../etc"

forward_of-endpoint_example :
    forward_of "nat01" (record {
      type = "proxy";
      listen = endpoint "tcp" "0.0.0.0" (pos 2201);
      connect = endpoint "tcp" "10.1.0.2" (pos 22);
    })
    ≡ some
        (record { name = "nat01"; protocol = "tcp"; listen_port = pos 2201; target_port = pos 22 })
unfolding lacks
forward_of-endpoint_example =
    forward_of-endpoint "nat01" "tcp" "10.1.0.2" 2201 22 refl refl (omega arith) (omega arith)
      (omega arith) (omega arith)
