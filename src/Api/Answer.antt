-- ===== src/Api/Answer.antt =====
-- main.go: requests, the server's state, and answers.
-- A request comes with what net/http and package net read from it; a handler's bodies are decoded by
-- encoding/json, a parameter, under the limit of http.MaxBytesReader that the handler sets.
use natbox.Prelude.{
  ℕ, Bool, String, Option, List, ℤ, ◌=ₛ◌, if◌then◌else◌, Error, error_text, Result, ok, err, Exec,
}
use natbox.Incus.Runner.{Runtime, InstanceInfo, ResourceUsage}
use natbox.Incus.Probe.{Capabilities, ProbeJson}
use natbox.Incus.Query.{NetworkStats}
use natbox.Incus.Forwards.Endpoint.{PortForward}
use natbox.Store.{ManagedContainer, AuditEvent, Backup}
use natbox.App.Base.{Config, Request, System}
use natbox.App.Capacity.{HostSnapshot, HostView}
use natbox.App.Create.{CreateContainerRequest}
use natbox.App.Bulk.{BulkCreateRequest, Entry}
use natbox.App.Policy.{PolicyView, TimeFormat}
use natbox.App.Reconcile.{ReconcileReport}
use natbox.App.Actions.{ActionResult}
use natbox.Auth.Compare.{Bytes}
use natbox.Auth.Sessions.{AdminAuth}
use natbox.Auth.Middleware.{HttpRequest}
use natbox.Api.Errors.{classify_error}

-- `remote_ip` is the host of RemoteAddr, "" where there is none; `query` is URL.Query().Get.
pub record Call : Type 0 where
  pub http : HttpRequest
  pub query : String → String
  pub remote_ip : String
  pub body : String

pub record PolicyRequest : Type 0 where
  pub quota_bytes : ℤ
  pub expires_at : String

pub record ForwardRequest : Type 0 where
  pub protocol : String
  pub listen_port : ℤ
  pub target_port : ℤ

pub record ActionRequest : Type 0 where
  pub names : List String
  pub action : String

pub record RestoreRequest : Type 0 where
  pub confirm : String
  pub backup : Backup

-- The decoders, each with the limit on the body's bytes.
pub record Json : Type 0 where
  pub creation : ℕ → String → Result CreateContainerRequest
  pub bulk : ℕ → String → Result BulkCreateRequest
  pub policy : ℕ → String → Result PolicyRequest
  pub public_key : ℕ → String → Result String
  pub forward : ℕ → String → Result ForwardRequest
  pub action : ℕ → String → Result ActionRequest
  pub restore : ℕ → String → Result RestoreRequest
  pub password : ℕ → String → Option String

-- What the server was started with.
pub record Setup : Type 0 where
  pub config : Config
  pub token : String
  pub version : String
  pub auto_repair : Bool
  pub json : Json
  pub probe_json : ProbeJson
  pub time : TimeFormat
  pub format_bytes : ℤ → String
  pub verify : String → String → Bool

-- What a request meets: the clock, the deadlines of its contexts, the host, and random tokens.
pub record Moment : Type 0 where
  pub now : ℕ
  pub now_text : String
  pub restore_clock : ℕ → String
  pub uptime : ℕ
  pub ticks : String → ℕ
  pub cause : String
  pub host : Result HostSnapshot
  pub session_id : String
  pub csrf : Bytes

pub record Server (rt : Runtime) : Type 0 where
  pub auth : AdminAuth
  pub system : System rt

-- requestActor
unfoldable pub request_actor : HttpRequest → String
request_actor r = if r.authorization =ₛ "" then "local" else "bearer-token"

abbrev pub request_of : Moment → Call → Request
request_of moment call = record {
  now = moment.now_text;
  actor = request_actor call.http;
  source_ip = call.remote_ip;
  ticks = moment.ticks;
  cause = moment.cause;
}

pub record PortPolicyView : Type 0 where
  pub public_min : ℤ
  pub public_max : ℤ
  pub ssh_min : ℤ
  pub ssh_max : ℤ
  pub used_tcp : List ℤ
  pub used_udp : List ℤ

pub record TemplateView : Type 0 where
  pub id : String
  pub name : String
  pub image : String
  pub memory_limit_mb : ℤ
  pub disk_limit_gb : ℤ
  pub cpu_limit : String

pub record ContainerView : Type 0 where
  pub name : String
  pub status : String
  pub type : String
  pub ipv4 : String
  pub memory : Option ResourceUsage
  pub disk : Option ResourceUsage
  pub started_at : String
  pub port_forwards : List PortForward
  pub traffic : Option NetworkStats

pub record Diagnostics : Type 0 where
  pub version : String
  pub uptime : ℕ
  pub auto_repair : Bool
  pub runtime : Result Capabilities
  pub host : Result HostView
  pub reconcile : Result ReconcileReport

-- The data of an envelope.
pub data Payload : Type 0 where
  healthy : String → ℕ → Payload
  admin_enabled : Bool → Payload
  signed_in : Bytes → ℕ → Payload
  signed_out : Payload
  capabilities_data : Capabilities → Payload
  host_data : HostView → Payload
  templates_data : List TemplateView → Payload
  managed_data : List ManagedContainer → Payload
  audit_data : List AuditEvent → Payload
  backup_data : Backup → Payload
  restored_data : ℕ → Payload
  report_data : ReconcileReport → Payload
  repaired_data : List ActionResult → ℕ → ℕ → Payload
  ports_data : PortPolicyView → Payload
  views_data : List ContainerView → Payload
  name_data : String → Payload
  forwards_data : List PortForward → Payload
  forward_data : PortForward → Payload
  removed_data : String → String → ℤ → Payload
  info_data : InstanceInfo → Payload
  policy_data : PolicyView → Payload
  action_data : ActionResult → Payload
  actions_data : List ActionResult → Payload
  created_data : List Entry → Payload
  diagnostics_data : Diagnostics → Payload

-- `failed` is writeStatusCode: a status, a code and a message. `incomplete` and `rolled_back_batch` are
-- envelopes with the status 200 and no success. `metrics_text` is the lines of a text answer.
pub data Answer : Type 0 where
  success : Payload → Answer
  failed : ℕ → String → String → Answer
  incomplete : String → Payload → Answer
  rolled_back_batch : List Entry → String → Error → Answer
  metrics_text : List (String × ℤ) → Answer
  wrong_method not_found moved page : Answer

-- respond
unfoldable pub respond : {A : Type 0} → (A → Payload) → Result A → Answer
respond shown (ok a) = success (shown a)
respond shown (err e) = let (status, code) = classify_error e in failed status code (error_text e)

abbrev pub Handler : Runtime → Type 0
Handler rt = System rt → Answer × System rt

-- `data, err := m(); respond(w, data, err)`
abbrev pub answer : {rt : Runtime} {A : Type 0} → (A → Payload) → Exec (System rt) A → Handler rt
answer shown m s = let (r, s') = m s in (respond shown r, s')

-- A handler that takes one method only.
abbrev pub only : {rt : Runtime} → String → Call → Handler rt → Handler rt
only wanted call h s = if call.http.method =ₛ wanted then h s else (wrong_method, s)
