-- ===== src/App/Bulk.antt =====
-- main.go: creating a batch of containers, and rolling it back.
pub mod Tests
pub mod Batch
pub mod Undone
use natbox.Prelude.{
  Bool, String, ◌+ₛ◌, Option, none, some, List, [], ◌∷◌, ◌++◌, ℤ, pos, ◌=ₛ◌, any, length,
  if◌then◌else◌, Error, failure, error_text, quoted, Result, ok, err, Exec, pure, refuse, attempt,
  ◌>>=◌, ◌>>◌,
}
use natbox.Incus.Runner.{Runtime, Instance}
use natbox.Incus.Query.{list}
use natbox.Incus.Forwards.Endpoint.{PortForward}
use natbox.App.Base.{Config, Request, System, on_runtime, record_audit}
use natbox.App.Capacity.{HostSnapshot, check_capacity}
use natbox.App.Create.{
  CreateContainerRequest, validate_create_request, default_image, creation_details,
  cleanup_container, create_one, persist_managed,
}
use natbox.App.Names.{bulk_names}
use natbox.App.Ssh.{allocate_ssh, check_ssh_capacity}

pub record BulkCreateRequest : Type 0 where
  pub prefix : String
  pub start_index : ℤ
  pub count : ℤ
  pub image : String
  pub cpu_limit : String
  pub memory_limit_mb : ℤ
  pub disk_limit_gb : ℤ
  pub public_key : String
  pub allocate_ssh : Bool

pub record Entry : Type 0 where
  pub name : String
  pub ssh : Option PortForward

-- The answer of a batch that passed the preflight. `rolled_back` carries the containers that had been
-- created, the name that failed and its error.
pub data BulkReply : Type 0 where
  created : List Entry → BulkReply
  rolled_back : List Entry → String → Error → BulkReply

abbrev pub request_for : BulkCreateRequest → String → CreateContainerRequest
request_for req name = record {
  name = name;
  image = default_image req.image;
  cpu_limit = req.cpu_limit;
  public_key = req.public_key;
  memory_limit_mb = req.memory_limit_mb;
  disk_limit_gb = req.disk_limit_gb;
}

-- The first name of the batch that an instance already has.
unfoldable pub taken : List Instance → List String → Option String
taken instances [] = none
taken instances (name ∷ names) =
    if any (λ i. i.name =ₛ name) instances then some name else taken instances names

abbrev pub taken_fault : Option String → Option String
taken_fault none = none
taken_fault (some name) =
    some ("container " +ₛ quoted name +ₛ " already exists; nothing was created")

abbrev pub listed : Result (List Instance) → Result (List Instance)
listed (ok is) = ok is
listed (err e) = err (failure ("preflight list: " +ₛ error_text e))

-- One round of the loop: its entry, or the error that ends the batch.
abbrev pub Outcome : Type 0
Outcome = Result Entry

module _ {rt : Runtime} where
  unfoldable pub rollback_bulk : Request → List Entry → Exec (System rt) (Unit {0})
  rollback_bulk request [] = pure tt
  rollback_bulk request (e ∷ es) = do
    if e.name =ₛ "" then pure tt else cleanup_container request e.name
    rollback_bulk request es

  -- One container of the batch: created, recorded, and given its SSH port. The clean-up and the audit
  -- of each failure are those of the source, in its order.
  unfoldable pub bulk_ssh :
      Config → Request → BulkCreateRequest → List Entry → String → Exec (System rt) Outcome
  bulk_ssh config request req done name =
      if req.allocate_ssh
      then (do
        allocated ← attempt (on_runtime (allocate_ssh rt config name))
        elim allocated [
          | ok forward ↦ pure (ok (record { name = name; ssh = some forward }))
          | err e ↦ (do
            record_audit request "port.allocate_ssh" "container" name "failure" "batch allocation"
            cleanup_container request name
            rollback_bulk request done
            pure (err e))
        ])
      else pure (ok (record { name = name; ssh = none }))

  unfoldable pub bulk_persist :
      Config → Request → BulkCreateRequest → List Entry → String → Exec (System rt) Outcome
  unfolding bulk_ssh
  bulk_persist config request req done name = do
    persisted ← attempt (persist_managed request (request_for req name))
    elim persisted [
      | ok _ ↦ (do
        record_audit request "container.create" "container" name "success"
            (creation_details (request_for req name))
        bulk_ssh config request req done name)
      | err e ↦ (do
        cleanup_container request name
        rollback_bulk request done
        record_audit request "container.create" "container" name "failure" "metadata persistence"
        pure (err e))
    ]

  unfoldable pub bulk_one :
      Config → Request → BulkCreateRequest → List Entry → String → Exec (System rt) Outcome
  unfolding bulk_persist
  bulk_one config request req done name = do
    made ← attempt (create_one request (request_for req name))
    elim made [
      | ok _ ↦ bulk_persist config request req done name
      | err e ↦ (do
        record_audit request "container.create" "container" name "failure" "runtime create"
        rollback_bulk request done
        pure (err e))
    ]

  unfoldable pub bulk_loop :
      Config → Request → BulkCreateRequest → List Entry → List String → Exec (System rt) BulkReply
  bulk_loop config request req done [] = pure (created done)
  bulk_loop config request req done (name ∷ names) = do
    outcome ← bulk_one config request req done name
    elim outcome [
      | ok entry ↦ bulk_loop config request req (done ++ entry ∷ []) names
      | err e ↦ pure (rolled_back done name e)
    ]

  -- POST /api/containers/bulk, behind the decoding of the body.
  unfoldable pub bulk_create :
      (ℤ → String)
      → Config
      → Result HostSnapshot
      → Request
      → BulkCreateRequest
      → Exec (System rt) BulkReply
  bulk_create format_bytes config host request req = do
    refuse (validate_create_request (request_for req "nat01"))
    names ← (λ s. (bulk_names req.prefix req.start_index req.count, s))
    instances ← attempt (on_runtime (list rt))
    present ← (λ s. (listed instances, s))
    refuse (taken_fault (taken present names))
    if req.allocate_ssh then on_runtime (check_ssh_capacity rt config (length names)) else pure tt
    λ s. (
      check_capacity format_bytes config host req.memory_limit_mb req.disk_limit_gb
          (pos (length names)),
      s,
    )
    bulk_loop config request req [] names
