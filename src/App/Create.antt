-- ===== src/App/Create.antt =====
-- main.go: creating one container, its record in the database, and the cleanup.
use natbox.Prelude.{
  not, ◌&&◌, ◌||◌, String, ◌+ₛ◌, Option, none, some, ℤ, pos, ltb_ℤ, ◌=ₛ◌, if◌then◌else◌, trim_space,
  cpu_pattern, format_int, error_text, Result, ok, err, Exec, pure, fail, refuse, attempt, on_error,
  ◌>>=◌, ◌>>◌,
}
use natbox.Incus.Runner.{Runtime, InstanceSpec}
use natbox.Incus.Query.{wait_ipv4}
use natbox.Incus.Lifecycle
use natbox.Incus.Ssh.{configure_ssh}
use natbox.Store
use natbox.App.Base.{
  Config, Request, System, on_runtime, on_store, record_audit, record_system_audit,
}
use natbox.App.Capacity.{HostSnapshot, check_capacity, mul64, kib}

pub record CreateContainerRequest : Type 0 where
  pub name : String
  pub image : String
  pub cpu_limit : String
  pub public_key : String
  pub memory_limit_mb : ℤ
  pub disk_limit_gb : ℤ

-- validateCreateRequest: the text of its error.
unfoldable pub validate_create_request : CreateContainerRequest → Option String
validate_create_request req =
    if trim_space req.name =ₛ ""
    then some "name is required"
    else if trim_space req.image =ₛ ""
    then some "image is required"
    else if ltb_ℤ req.memory_limit_mb (pos 16) || ltb_ℤ (pos 8192) req.memory_limit_mb
    then some "memoryLimitMb must be between 16 and 8192"
    else if ltb_ℤ req.disk_limit_gb (pos 1) || ltb_ℤ (pos 100) req.disk_limit_gb
    then some "diskLimitGb must be between 1 and 100"
    else if not (req.cpu_limit =ₛ "") && not (cpu_pattern req.cpu_limit)
    then some "cpuLimit must be a percentage such as 12%"
    else none

abbrev pub spec_of : CreateContainerRequest → InstanceSpec
spec_of req = record {
  name = req.name;
  image = req.image;
  cpu_allowance = req.cpu_limit;
  memory_bytes = mul64 (mul64 req.memory_limit_mb kib) kib;
  root_disk_bytes = mul64 (mul64 (mul64 req.disk_limit_gb kib) kib) kib;
}

abbrev pub default_image : String → String
default_image image = if image =ₛ "" then "images:alpine/3.24" else image

abbrev pub creation_details : CreateContainerRequest → String
creation_details req =
    "image="
    +ₛ req.image
    +ₛ " memoryLimitMb="
    +ₛ format_int req.memory_limit_mb
    +ₛ " diskLimitGb="
    +ₛ format_int req.disk_limit_gb
    +ₛ " cpuLimit="
    +ₛ req.cpu_limit

module _ {rt : Runtime} where
  unfoldable pub cleaned : Request → String → Result (Unit {0}) → Exec (System rt) (Unit {0})
  cleaned request name (ok _) =
      record_system_audit request.now "container.cleanup" name "success" "automatic rollback"
  cleaned request name (err e) =
      record_system_audit request.now "container.cleanup" name "failure" (error_text e)

  -- cleanupContainer: a deletion that fails is only logged.
  unfoldable pub cleanup_container : Request → String → Exec (System rt) (Unit {0})
  unfolding cleaned
  cleanup_container request name = do
    deleted ← attempt (on_runtime (Lifecycle.delete rt name))
    cleaned request name deleted

  unfoldable pub create_one : Request → CreateContainerRequest → Exec (System rt) (Unit {0})
  create_one request req = do
    refuse (validate_create_request req)
    on_runtime (Lifecycle.create rt (spec_of req))
    on_error (on_runtime (wait_ipv4 rt request.cause (request.ticks req.name) req.name))
        (λ e. cleanup_container request req.name)
    if trim_space req.public_key =ₛ ""
        then pure tt
        else on_error (on_runtime (configure_ssh rt req.name req.public_key))
            (λ e. cleanup_container request req.name)

  unfoldable pub persist_managed : Request → CreateContainerRequest → Exec (System rt) (Unit {0})
  persist_managed request req = on_store (
      Store.upsert_container request.now (record {
        name = req.name;
        image = req.image;
        memory_limit_mb = req.memory_limit_mb;
        disk_limit_gb = req.disk_limit_gb;
        cpu_limit = req.cpu_limit;
        desired_state = "running";
        quota_bytes = pos 0;
        quota_rx_baseline = pos 0;
        quota_tx_baseline = pos 0;
        quota_reset_at = "";
        expires_at = "";
        created_at = "";
        updated_at = "";
      }))

  -- The creation behind the preflight: what is not recorded is cleaned up.
  unfoldable pub create_and_persist : Request → CreateContainerRequest → Exec (System rt) (Unit {0})
  create_and_persist request req = do
    create_one request req
    on_error (persist_managed request req) (λ e. cleanup_container request req.name)

  unfoldable pub audited_creation :
      Request → CreateContainerRequest → Result (Unit {0}) → Exec (System rt) String
  audited_creation request req (ok _) = do
    record_audit request "container.create" "container" req.name "success" (creation_details req)
    pure req.name
  audited_creation request req (err e) = do
    record_audit request "container.create" "container" req.name "failure" ""
    fail e

  -- POST /api/containers, behind the decoding of the body. The result is the answer's name.
  unfoldable pub create_container :
      (ℤ → String)
      → Config
      → Result HostSnapshot
      → Request
      → CreateContainerRequest
      → Exec (System rt) String
  unfolding audited_creation
  create_container format_bytes config host request body = do
    let req = record body { image = default_image body.image }
    λ s. (check_capacity format_bytes config host req.memory_limit_mb req.disk_limit_gb (pos 1), s)
    created ← attempt (create_and_persist request req)
    audited_creation request req created
