-- ===== src/Api/Tests.antt =====
-- main.go on small requests, over a runtime that lists nothing and counts its other commands.
use natbox.Prelude.{
  some, trim_space, parse_int, ℕ, suc, ◌≡◌, ◌≢◌, ◌⊎◌, inl, inr, ap, refl, true, false, String, none,
  List, [], ◌∷◌, arith, pos, ok, err, failure, if◌then◌else◌, count_chars, ◌=ₛ◌,
}
use natbox.Incus.Runner.{Runtime, Reply}
use natbox.Incus.Quiet.{IsQuiet, asks}
use natbox.Auth.Middleware.{Authorised, canonical_api_path}
use natbox.Api.Answer.{Call, Setup, Moment, Server, Json, failed}
use natbox.Api.Targets
use natbox.Api.Targets.{target, is_clean, plain_target, patterns}
use natbox.Api.Reach.{target_ends}
use natbox.Api.Quiet.{seen}
use natbox.Api.Safe.{serve_safe}
use natbox.Api.Guarded.{kept, serve_refused, serve_unauthorised}
use natbox.Api.Serve.{serve}
use natbox.Api.Startup.{
  Environment, Net, Started, started_of, start, config_of, env_int, validate_range,
  is_loopback_listen,
}
use natbox.Api.Protected.{start_protected}
use natbox.Auth.Sessions.{AdminSession, session, token_matches}
use natbox.Auth.Middleware.{HttpRequest, bearer_ok, auth_middleware, is_safe}

-- Commands that only ask leave the count.
abbrev pub step : List String → ℕ → Reply × ℕ
step args n = (record { out = ""; stderr = ""; failed = none }, if asks args then n else suc n)

abbrev pub toy : Runtime
toy = record {
  World = ℕ;
  run = step;
  decode_instances = λ out. ok [];
  decode_info = λ out. err (failure "no info");
  decode_counters = λ out. ok [];
  decode_devices = λ out. ok [];
  decode_instance_devices = λ out. ok [];
}

abbrev pub server : Server toy
server = record {
  auth = record { hash = ""; sessions = []; failures = [] };
  system = record {
    world = 3;
    db = record {
      containers = [];
      audit_events = [];
      next_id = 1;
      faults = [];
      duplicate_text = "UNIQUE constraint failed";
    };
  };
}

abbrev pub json : Json
json = record {
  creation = λ limit body. err (failure "EOF");
  bulk = λ limit body. err (failure "EOF");
  policy = λ limit body. err (failure "EOF");
  public_key = λ limit body. err (failure "EOF");
  forward = λ limit body. err (failure "EOF");
  action = λ limit body. err (failure "EOF");
  restore = λ limit body. err (failure "EOF");
  password = λ limit body. none;
}

abbrev pub setup : Setup
setup = record {
  config = record {
    port_min = pos 10000;
    port_max = pos 60000;
    ssh_port_start = pos 20001;
    ssh_port_end = pos 20099;
    memory_reserve_mb = pos 256;
    disk_reserve_gb = pos 1;
  };
  token = "0123456789abcdef";
  version = "dev";
  auto_repair = false;
  json = json;
  probe_json = record {
    versions = λ out. ok ("6.0", "6.0");
    drivers = λ out. ok [];
    names = λ out. ok [];
  };
  time = record { parse = λ text. none; format = λ instant. "" };
  format_bytes = λ bytes. "";
  verify = λ hash password. false;
}

abbrev pub moment : Moment
moment = record {
  now = 5;
  now_text = "t5";
  restore_clock = λ n. "t5";
  uptime = 5;
  ticks = λ name. 1;
  cause = "context deadline exceeded";
  host = err (failure "no host");
  session_id = "c1";
  csrf = 97 ∷ [];
}

abbrev pub call : String → String → Call
call method path = record {
  http = record {
    method = method;
    path = path;
    authorization = "";
    cookie = none;
    csrf_header = [];
  };
  query = λ key. "";
  remote_ip = "10.0.0.1";
  body = "";
}

quiet : IsQuiet toy
unfolding asks
quiet args w h = rw h refl

target_ends_example : target (count_chars "/api/v1/v1/host") "/api/v1/v1/host" ≢ Targets.endless
target_ends_example = target_ends "/api/v1/v1/host"

serve_safe_example :
    seen (serve setup moment (call "GET" "/api/v1/containers") server).1.system ≡ seen server.system
serve_safe_example = serve_safe toy quiet setup moment (call "GET" "/api/v1/containers") server refl

no_bearer : false ≢ true
no_bearer h = ground arith

-- Without the token nobody is authorised, as no administrator is set up.
unauthorised :
    (method path : String) → ¬ Authorised setup.token moment.now (call method path).http server.auth
unauthorised method path h = elim h [
  | inl bearer ↦ no_bearer bearer
  | inr rest ↦ elim rest [
    | inl signed_in ↦ no_bearer signed_in.1
    | inr off ↦ no_bearer (ap (λ t. t =ₛ "") off.0)
  ]
]

serve_refused_example :
    (((serve setup moment (call "POST" "/api/containers/nat01/stop") server).0
        ≡ failed 401 "auth_required" "authentication required")
      ⊎ ((serve setup moment (call "POST" "/api/containers/nat01/stop") server).0
          ≡ failed 403 "csrf_required" "csrf token required"))
    × ((serve setup moment (call "POST" "/api/containers/nat01/stop") server).1.system
        ≡ server.system)
unfolding canonical_api_path
serve_refused_example =
    serve_refused setup moment (call "POST" "/api/containers/nat01/stop") server refl
      (unauthorised "POST" "/api/containers/nat01/stop")

serve_unauthorised_example :
    kept (serve setup moment (call "POST" "/api/auth/login") server).1.system ≡ kept server.system
serve_unauthorised_example =
    serve_unauthorised setup moment (call "POST" "/api/auth/login") server
      (unauthorised "POST" "/api/auth/login")

-- A server on all addresses, with a token.
abbrev env : Environment
env key =
    if key =ₛ "NATBOX_LISTEN"
    then "0.0.0.0:8787"
    else if key =ₛ "NATBOX_TOKEN"
    then "0123456789abcdef"
    else if key =ₛ "NATBOX_PORT_MIN"
    then "1024"
    else ""

abbrev net : Net
net = record { host_of = λ address. some "0.0.0.0"; is_loopback = λ ip. ip =ₛ "127.0.0.1" }

abbrev started : Started
started = started_of env (record { hash = ""; sessions = []; failures = [] })

abbrev with_token : HttpRequest
with_token = record {
  method = "POST";
  path = "/api/containers";
  authorization = "Bearer 0123456789abcdef";
  cookie = none;
  csrf_header = [];
}

start_protected_example :
    (bearer_ok started.token with_token ≡ true)
    ⊎ ((s : AdminSession) × ((session 5 with_token.cookie started.auth).0 ≡ some s)
        × ((is_safe with_token ≡ true)
            ⊎ ((canonical_api_path with_token.path ≡ "/api/auth/logout")
                ⊎ (token_matches with_token.csrf_header (some s) ≡ true))))
unfolding start trim_space validate_range config_of env_int parse_int is_loopback_listen
    auth_middleware canonical_api_path
start_protected_example =
    start_protected net env started 5 with_token started.auth refl refl refl refl
